-- ===== src/Tests/Analyzer.antt =====
-- The theorems on pkg/analyzer at concrete inputs.
use eth_cl_state_analyzer.Common.{
  ℕ, ◌*◌, ◌/◌, ◌&&◌, ltb, ◌≡◌, refl, none, some, [], ◌∷◌, ◌++◌, All, arith, filterb, ◌==◌, add64,
  if◌then◌else◌,
}
use eth_cl_state_analyzer.Spec.Block.{AgnosticBlock}
use eth_cl_state_analyzer.Analyzer.AgnosticMap.{
  AgnosticMap, new_agnostic_map, set_key, get_key_list, wait, lookup, available,
}
use eth_cl_state_analyzer.Analyzer.Waiting.{Reach, start, waited, set, IsAnswered, Reach-IsAnswered}
use eth_cl_state_analyzer.Analyzer.ChainCache.{ChainCache, clean_up_to, new_queue, add_new_block}
use eth_cl_state_analyzer.Analyzer.HeadBlock.{
  add_blocks_in_turn, max_slot, head_block_max, head_block_stale,
}
use eth_cl_state_analyzer.Analyzer.Aggregation.{aggregate_all}
use eth_cl_state_analyzer.Analyzer.Gathering.{find, gather, aggregate_all_lem}
use eth_cl_state_analyzer.Analyzer.Windows.{process_epochs, windows_tile}
use eth_cl_state_analyzer.Analyzer.CleanUp.{clean_up_to_lem}
use eth_cl_state_analyzer.Tests.Data.{block, state_at, rewards, window}

-- Goroutine 4 waits for key 10, which is then set to 99.
abbrev served : AgnosticMap ℕ
served = set_key (wait (new_agnostic_map ℕ) 4 10).0 10 99

served-Reach : Reach served ((4, 10) ∷ [])
unfolding new_agnostic_map lookup
served-Reach = set (waited start 4 10 refl) 10 99

Reach-IsAnswered_example : All (IsAnswered served) ((4, 10) ∷ [])
Reach-IsAnswered_example = Reach-IsAnswered served-Reach

head_block_max_example :
    (h : AgnosticBlock) × ((add_blocks_in_turn
        (block 5 1 0 [] ∷ block 7 2 0 [] ∷ [])
        new_queue).head_block
      ≡ some h)
    × (h.slot ≡ max_slot (block 7 2 0 [] ∷ []) 5)
head_block_max_example = head_block_max (block 5 1 0 []) (block 7 2 0 [] ∷ [])

head_block_stale_example :
    let s =
      add_new_block
        (add_blocks_in_turn (block 5 1 0 [] ∷ block 7 2 0 [] ∷ []) new_queue)
        (block 7 3 0 []) in
    (s.head_block ≡ some (block 7 2 0 [])) × (lookup 7 s.block_history.m ≡ some (block 7 3 0 []))
unfolding add_blocks_in_turn add_new_block new_queue new_agnostic_map get_key_list set_key
head_block_stale_example =
    head_block_stale (block 5 1 0 []) (block 7 3 0 []) (block 7 2 0 [] ∷ []) refl refl

aggregate_all_example :
    let rs = rewards 1 20 ∷ rewards 0 30 ∷ rewards 1 40 ∷ [] in
    let t = aggregate_all rs window in
    (find 1 t.aggregations ≡ gather 1 2 3 (filterb (λ r. r.validator_index == 1) rs) (find 1 []))
    × (t ≡ record window { aggregations = t.aggregations })
aggregate_all_example =
    aggregate_all_lem 1 (rewards 1 20 ∷ rewards 0 30 ∷ rewards 1 40 ∷ []) window (omega arith)

windows_tile_example :
    let rs = rewards 1 20 ∷ [] in
    let rs' = rewards 1 40 ∷ [] in
    process_epochs 2 ((rs ∷ []) ++ rs' ∷ []) window ≡ record window {
      persisted = (aggregate_all ((rs ++ []) ++ rs') window).aggregations ∷ [];
      rows = rs ∷ rs' ∷ [];
      aggregations = [];
      start_epoch_aggregation = add64 3 1;
      end_epoch_aggregation = add64 3 2;
    }
windows_tile_example =
    windows_tile ((rewards 1 20 ∷ []) ∷ []) (rewards 1 40 ∷ []) window refl (omega arith)
      (omega arith)

-- A cache with the states of epochs 1 and 2 and a block in each.
abbrev cache : ChainCache
cache = record {
  state_history = record {
    m = (1, state_at 1 [] []) ∷ (2, state_at 2 [] []) ∷ [];
    subs = λ _. [];
    sent = [];
  };
  block_history = record {
    m = (40, block 40 1 0 []) ∷ (70, block 70 2 0 []) ∷ [];
    subs = λ _. [];
    sent = [];
  };
  head_block = none;
}

clean_up_to_example :
    let t = clean_up_to cache 64 in
    ((e : ℕ)
      → lookup e t.state_history.m
        ≡ (if ltb (e * 32) 64 then none else lookup e cache.state_history.m))
    × ((slot : ℕ)
        → lookup slot t.block_history.m ≡ (
            if available cache.state_history (slot / 32) && ltb (slot / 32 * 32) 64
            then none
            else lookup slot cache.block_history.m))
unfolding get_key_list
clean_up_to_example =
    clean_up_to_lem cache 64 (omega arith, (omega arith, tt)) (λ k v e. refl) (λ k v e. refl)
