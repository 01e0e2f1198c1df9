-- ===== src/Analyzer/Download.antt =====
-- pkg/analyzer/download.go, and `AddNewState` of chain_cache.go: what is downloaded into the cache.
use eth_cl_state_analyzer.Common.{
  ℕ, zero, suc, ◌+◌, ◌-◌, ◌*◌, ◌/◌, Bool, true, false, ◌&&◌, ◌||◌, not, List, [], ◌∷◌, none, some,
  ltb, leb, if◌then◌else◌, mul64,
}
use eth_cl_state_analyzer.Common.Go.{Go, ok, panic, waits, ◌>>=◌}
use eth_cl_state_analyzer.Spec.Constants.{slots_per_epoch}
use eth_cl_state_analyzer.Spec.Block.{AgnosticBlock, empty_block}
use eth_cl_state_analyzer.Spec.State.{AgnosticState}
use eth_cl_state_analyzer.Spec.State.Flows.{add_blocks}
use eth_cl_state_analyzer.Utils.Book.{check_page_active}
use eth_cl_state_analyzer.Analyzer.AgnosticMap.{lookup, set_key, available}
use eth_cl_state_analyzer.Analyzer.ChainCache.{ChainCache, add_new_block}
use eth_cl_state_analyzer.Analyzer.Chain.{ChainAnalyzer, Outside, epoch_key, await}

-- The loop of `AddNewState` over the slots of the epoch, with n slots left. (Of the last epoch that
-- a uint64 slot can have, the loop of the source would not end.)
unfoldable pub wait_blocks : ChainCache → ℕ → ℕ → Go (List AgnosticBlock)
unfolding await
wait_blocks s slot zero = ok []
wait_blocks s slot (suc n) = await (lookup slot s.block_history.m) >>= λ block.
    wait_blocks s (slot + 1) n >>= λ blocks. ok (block ∷ blocks)

unfoldable pub add_new_state : ChainCache → AgnosticState → Go ChainCache
unfolding wait_blocks
add_new_state s new_state =
    wait_blocks s (mul64 new_state.epoch slots_per_epoch) slots_per_epoch >>= λ block_list.
    add_blocks new_state block_list >>= λ state.
    ok (record s { state_history = set_key s.state_history state.epoch state })

-- Whether `WaitForPrevState` returns at once.
unfoldable pub prev_state_ready : ℕ → ChainAnalyzer → Bool
prev_state_ready slot s =
    if ltb slot (slots_per_epoch * 2)
    then true
    else let epoch = slot / slots_per_epoch - 2 in
      let prev_state_slot = (epoch + 1) * slots_per_epoch - 1 in
      not (
        (not (available s.download_cache.state_history epoch)
          || check_page_active s.processer_book (epoch_key epoch))
        && leb s.init_slot prev_state_slot)

-- `WaitForPrevState`, which changes nothing, and polls what it waits for.
unfoldable pub wait_for_prev_state : ℕ → ChainAnalyzer → Go ChainAnalyzer
unfolding prev_state_ready
wait_for_prev_state slot s = if prev_state_ready slot s then ok s else waits

module _ (o : Outside) where
  -- After an error the block that is added is the empty one, of slot 0.
  unfoldable pub download_block : ℕ → ChainAnalyzer → ChainAnalyzer
  download_block slot s = elim s.metrics.block [
    | false ↦ s
    | true ↦ elim (o.request_beacon_block slot) [
      | some b ↦ record s { download_cache = add_new_block s.download_cache b }
      | none ↦ record s { stop = true; download_cache = add_new_block s.download_cache empty_block }
    ]
  ]

  -- After an error `AddNewState` is given nil.
  unfoldable pub download_state : ℕ → ChainAnalyzer → Go ChainAnalyzer
  unfolding add_new_state
  download_state slot s = elim s.metrics.epoch [
    | false ↦ ok s
    | true ↦ elim (o.request_beacon_state slot) [
      | none ↦ panic
      | some state ↦
          add_new_state s.download_cache state >>= λ c. ok (record s { download_cache = c })
    ]
  ]

  unfoldable pub download_block_controlled : ℕ → ChainAnalyzer → Go ChainAnalyzer
  unfolding wait_for_prev_state download_block
  download_block_controlled slot s = wait_for_prev_state slot s >>= λ t. ok (download_block slot t)
