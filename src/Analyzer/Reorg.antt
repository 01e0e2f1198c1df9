-- ===== src/Analyzer/Reorg.antt =====
-- pkg/analyzer/reorg.go: the check of what was written when a slot becomes final, and reorgs.
use eth_cl_state_analyzer.Common.{
  ℕ, zero, suc, ◌+◌, ◌/◌, ◌%◌, true, false, ◌&&◌, List, [], ◌∷◌, none, some, ltb, leb, ◌==◌, mul64,
  add64, if◌then◌else◌,
}
use eth_cl_state_analyzer.Common.Go.{Go, ok, panic, waits, ◌>>=◌}
use eth_cl_state_analyzer.Client.{ReorgEvent}
use eth_cl_state_analyzer.Spec.Constants.{slots_per_epoch}
use eth_cl_state_analyzer.Spec.Block.{AgnosticBlock}
use eth_cl_state_analyzer.Utils.Book.{check_page_active}
use eth_cl_state_analyzer.Analyzer.AgnosticMap.{get_key_list}
use eth_cl_state_analyzer.Analyzer.ChainCache.{clean_up_to, slots_in}
use eth_cl_state_analyzer.Analyzer.Calls.{
  persist_orphans, delete_block_metrics, delete_state_metrics,
}
use eth_cl_state_analyzer.Analyzer.Chain.{
  ChainAnalyzer, Outside, slot_key, epoch_key, call_db, wait_block, wait_state,
}
use eth_cl_state_analyzer.Analyzer.ProcessBlock.{process_block}
use eth_cl_state_analyzer.Analyzer.Transition.{process_state_transition_metrics}
use eth_cl_state_analyzer.Analyzer.Download.{download_block, download_state}

-- `processerBook.WaitUntilInactive`
abbrev pub wait_until_inactive : ℕ → ChainAnalyzer → Go ChainAnalyzer
wait_until_inactive key s = if check_page_active s.processer_book key then waits else ok s

-- A block counts if it was proposed below the slot of the event.
abbrev pub count_block : ReorgEvent → ℕ → AgnosticBlock → ℕ → ℕ
count_block e i block reorged = if ltb i e.slot && block.proposed then reorged + 1 else reorged

module _ (o : Outside) where
  -- The body of the loop of `AdvanceFinalized` over the slots of an epoch.
  unfoldable pub check_slot : ℕ → ChainAnalyzer → Go ChainAnalyzer
  check_slot slot s = wait_block s slot >>= λ b. elim (o.request_block_root b.slot == b.root) [
    | true ↦ ok s
    | false ↦ process_block o slot (call_db (delete_block_metrics slot) s)
  ]

  unfoldable pub check_slots : ℕ → ℕ → ChainAnalyzer → Go ChainAnalyzer
  unfolding check_slot
  check_slots slot zero s = ok s
  check_slots slot (suc n) s = check_slot slot s >>= λ t. check_slots (slot + 1) n t

  unfoldable pub check_state : ℕ → ChainAnalyzer → Go ChainAnalyzer
  check_state epoch s = wait_state s epoch >>= λ state.
      elim (o.request_state_root state.slot == state.state_root) [
        | true ↦ ok s
        | false ↦ process_state_transition_metrics o epoch (call_db (delete_state_metrics epoch) s)
      ]

  unfoldable pub check_epoch : ℕ → ChainAnalyzer → Go ChainAnalyzer
  unfolding check_state check_slots slots_in
  check_epoch epoch s =
      check_state epoch s >>= λ t. check_slots (mul64 epoch slots_per_epoch) (slots_in epoch) t

  -- The loop over the epochs of the states that the cache had at first.
  unfoldable pub check_epochs : ℕ → List ℕ → ChainAnalyzer → Go ChainAnalyzer
  unfolding check_epoch
  check_epochs finalized [] s = ok s
  check_epochs finalized (epoch ∷ epochs) s =
      elim (leb finalized epoch) [ true ↦ ok s | false ↦ check_epoch epoch s ] >>= λ t.
      check_epochs finalized epochs t

  unfoldable pub advance_finalized : ℕ → ChainAnalyzer → Go ChainAnalyzer
  unfolding check_epochs
  advance_finalized slot s =
      check_epochs (slot / slots_per_epoch) (get_key_list s.download_cache.state_history) s >>= λ t.
      ok (record t { download_cache = clean_up_to t.download_cache slot })

  -- The part of `HandleReorg` that rewrites a block, given the block that the cache had.
  unfoldable pub rewrite_block : ℕ → AgnosticBlock → ChainAnalyzer → Go ChainAnalyzer
  unfolding download_block
  rewrite_block i old s = do
    let t = download_block o i s
    new ← wait_block t i
    elim (new.root == old.root) [
      | true ↦ ok t
      | false ↦ process_block o i (
          call_db (delete_block_metrics i)
            (if old.proposed then call_db (persist_orphans (old ∷ [])) t else t))
    ]

  -- The part that rewrites the state of the epoch that ends with the slot. The page that it waits
  -- for has the slot in its key, not the epoch.
  unfoldable pub rewrite_state : ℕ → ChainAnalyzer → Go ChainAnalyzer
  unfolding download_state
  rewrite_state i s = do
    let epoch = i / slots_per_epoch
    old ← wait_state s epoch
    t ← wait_until_inactive (epoch_key i) s
    u ← download_state o i t
    new ← wait_state u epoch
    elim (new.state_root == old.state_root) [
      | true ↦ ok u
      | false ↦ process_state_transition_metrics o epoch (call_db (delete_state_metrics epoch) u)
    ]

  -- A round of the loop of `HandleReorg`, given the block that the cache has.
  unfoldable pub reorg_round : ℕ → AgnosticBlock → ChainAnalyzer → Go ChainAnalyzer
  unfolding rewrite_block rewrite_state
  reorg_round i block s = do
    t ← wait_until_inactive (slot_key i) s
    u ← rewrite_block i block t
    elim (add64 i 1 % slots_per_epoch == 0) [ true ↦ rewrite_state i u | false ↦ ok u ]

  -- The loop of `HandleReorg` from a slot down, with the number of blocks counted. Below slot 0 it
  -- waits for a block of slot 2 ^ 64 - 1.
  unfoldable pub reorg_from : ReorgEvent → ℕ → ℕ → ChainAnalyzer → Go ChainAnalyzer
  unfolding reorg_round
  reorg_from e zero reorged s = elim (leb reorged e.depth) [
    | false ↦ ok s
    | true ↦ wait_block s 0 >>= λ block. reorg_round 0 block s >>= λ t.
        elim (leb (count_block e 0 block reorged) e.depth) [ true ↦ waits | false ↦ ok t ]
  ]
  reorg_from e (suc i) reorged s = elim (leb reorged e.depth) [
    | false ↦ ok s
    | true ↦ wait_block s (suc i) >>= λ block.
        reorg_round (suc i) block s >>= λ t. reorg_from e i (count_block e (suc i) block reorged) t
  ]

  -- `HandleReorg`, which has no head block to start from before the first block.
  unfoldable pub handle_reorg : ReorgEvent → ChainAnalyzer → Go ChainAnalyzer
  unfolding reorg_from
  handle_reorg e s = elim s.download_cache.head_block [
    | none ↦ panic
    | some head ↦ reorg_from e head.slot 0 s
  ]
