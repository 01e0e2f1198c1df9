-- ===== src/Tests/Routines.antt =====
-- The theorems on the handlers and routines of pkg/analyzer at concrete inputs.
use eth_cl_state_analyzer.Common.{
  ℕ, zero, suc, ◌+◌, ◌<◌, ◌≡◌, refl, true, List, [], ◌∷◌, some, arith,
}
use eth_cl_state_analyzer.Common.Go.{ok}
use eth_cl_state_analyzer.Client.{unknown}
use eth_cl_state_analyzer.Spec.Block.{AgnosticBlock}
use eth_cl_state_analyzer.Metrics.Export.{state_metrics_by_fork_version}
use eth_cl_state_analyzer.Utils.Book.{
  num_free_pages, free_page, check_page_active, acquire, acquire_or_time_out,
}
use eth_cl_state_analyzer.Analyzer.AgnosticMap.{get_key_list, lookup}
use eth_cl_state_analyzer.Analyzer.ChainCache.{ChainCache, clean_up_to}
use eth_cl_state_analyzer.Analyzer.Calls.{delete_block_metrics}
use eth_cl_state_analyzer.Analyzer.Chain.{ChainAnalyzer, acquire_page, await}
use eth_cl_state_analyzer.Analyzer.ProcessBlock.{process_block}
use eth_cl_state_analyzer.Analyzer.Transition.{
  write_transition, earlier_state, process_state_transition_metrics,
}
use eth_cl_state_analyzer.Analyzer.Reorg.{check_slot, advance_finalized}
use eth_cl_state_analyzer.Analyzer.Routines.{run_historical, historical_step, historical_round}
use eth_cl_state_analyzer.Analyzer.BlockWrites.{process_block_lem, block_calls, with_calls}
use eth_cl_state_analyzer.Analyzer.Historical.{
  run_historical_all, run_historical-SentUpTo, SentUpTo, sent_with, slots_from, Runs, start, round,
  others,
}
use eth_cl_state_analyzer.Analyzer.Pages.{process_state-book}
use eth_cl_state_analyzer.Analyzer.Finality.{
  EpochIsFinal, advance_finalized_lem, check_slot-rewrites_old,
}
use eth_cl_state_analyzer.Tests.Chain.{outside, chain_analyzer, block_40, one_block}
use eth_cl_state_analyzer.Tests.Data.{block, state_at}

process_block_lem_example :
    process_block outside 40 chain_analyzer ≡ ok (with_calls (block_calls block_40) chain_analyzer)
unfolding lookup check_page_active
process_block_lem_example = process_block_lem outside 40 chain_analyzer refl refl refl refl

check_slot-rewrites_old_example :
    check_slot outside 40 chain_analyzer
    ≡ ok (with_calls (delete_block_metrics 40 ∷ block_calls block_40) chain_analyzer)
unfolding lookup check_page_active
check_slot-rewrites_old_example =
    check_slot-rewrites_old outside chain_analyzer 40 refl (λ e. omega (arith, e)) refl refl refl

run_historical_all_example :
    (c : ChainCache) × (run_historical outside 5 33 36 chain_analyzer
      ≡ ok (some (sent_with c (slots_from 33 4) chain_analyzer)))
unfolding num_free_pages
run_historical_all_example =
    run_historical_all outside 33 36 100 5 chain_analyzer refl (omega arith) (omega arith)
      (omega arith) refl (omega arith) (omega arith)

-- The book is full, and then another goroutine frees a page.
abbrev full_book : ChainAnalyzer
full_book = record chain_analyzer {
  processer_book = record { pages = 7 ∷ 8 ∷ 9 ∷ []; free = 0; size = 3 };
}

abbrev sent_33 : ChainAnalyzer
sent_33 = sent_with one_block (33 ∷ []) chain_analyzer

-- The routine waits, goes on when the page is free, sends slot 33, and returns at slot 34.
waits_and_sends : Runs outside 33 33 full_book 34 sent_33
unfolding historical_step historical_round num_free_pages
waits_and_sends = round (others chain_analyzer (round start refl) refl) refl

run_historical-SentUpTo_example : SentUpTo 33 1 full_book sent_33
unfolding historical_step
run_historical-SentUpTo_example =
    run_historical-SentUpTo outside 33 33 full_book (omega arith) waits_and_sends refl

-- The cache has a state of a version that the program does not know.
abbrev unknown_state : ChainAnalyzer
unknown_state = record chain_analyzer {
  download_cache = record one_block {
    state_history = record {
      m = (1, record (state_at 1 [] []) { version = unknown }) ∷ [];
      subs = λ _. [];
      sent = [];
    };
  };
}

process_state-book_example : unknown_state.processer_book ≡ unknown_state.processer_book
unfolding lookup process_state_transition_metrics write_transition earlier_state acquire_page await
    free_page check_page_active acquire_or_time_out acquire state_metrics_by_fork_version
process_state-book_example =
    process_state-book outside 1 unknown_state (record unknown_state { stop = true }) refl refl

-- The blocks of n slots from one on, with the roots that the node has.
abbrev blocks_from : ℕ → ℕ → List (ℕ × AgnosticBlock)
blocks_from a zero = []
blocks_from a (suc n) = (a, block a 1 0 []) ∷ blocks_from (a + 1) n

lookup-blocks_from :
    (a n i : ℕ) → i < n → lookup (a + i) (blocks_from a n) ≡ some (block (a + i) 1 0 [])
unfolding lookup
lookup-blocks_from a zero i h = elim h [ ]
lookup-blocks_from a (suc n) zero h = ground arith
lookup-blocks_from a (suc n) (suc i) h = ground (arith, lookup-blocks_from (a + 1) n i)

abbrev epoch_1 : ChainAnalyzer
epoch_1 = record chain_analyzer {
  download_cache = record one_block {
    state_history = record { m = (1, state_at 1 [] []) ∷ []; subs = λ _. []; sent = [] };
    block_history = record { m = blocks_from 32 32; subs = λ _. []; sent = [] };
  };
}

epoch_1-EpochIsFinal : EpochIsFinal outside epoch_1 1
unfolding lookup
epoch_1-EpochIsFinal = record {
  state = state_at 1 [] [];
  there = refl;
  same = refl;
  slots = λ i h. (block (32 + i) 1 0 [], lookup-blocks_from 32 32 i h, refl);
}

advance_finalized_lem_example :
    advance_finalized outside 64 epoch_1
    ≡ ok (record epoch_1 { download_cache = clean_up_to epoch_1.download_cache 64 })
unfolding get_key_list
advance_finalized_lem_example =
    advance_finalized_lem outside epoch_1 64 ((λ _. epoch_1-EpochIsFinal), tt)
