-- ===== src/Analyzer/ChainCache.antt =====
-- pkg/analyzer/chain_cache.go: `ChainCache`.
use eth_cl_state_analyzer.Common.{
  ℕ, zero, suc, Bool, true, false, List, [], ◌∷◌, Option, none, some, leb, add64, mul64, ◌-◌,
  if◌then◌else◌,
}
use eth_cl_state_analyzer.Spec.Constants.{slots_per_epoch}
use eth_cl_state_analyzer.Spec.Block.{AgnosticBlock}
use eth_cl_state_analyzer.Spec.State.{AgnosticState}
use eth_cl_state_analyzer.Analyzer.AgnosticMap.{
  AgnosticMap, set_key, delete, get_key_list, new_agnostic_map,
}

pub record ChainCache : Type 0 where
  pub state_history : AgnosticMap AgnosticState
  pub block_history : AgnosticMap AgnosticBlock
  pub head_block : Option AgnosticBlock

-- `NewQueue`
unfoldable pub new_queue : ChainCache
unfolding new_agnostic_map
new_queue = record {
  state_history = new_agnostic_map AgnosticState;
  block_history = new_agnostic_map AgnosticBlock;
  head_block = none;
}

-- The search of `AddNewBlock` among the keys.
unfoldable pub any_key_from : ℕ → List ℕ → Bool
any_key_from slot [] = false
any_key_from slot (key ∷ keys) = if leb slot key then true else any_key_from slot keys

unfoldable pub add_new_block : ChainCache → AgnosticBlock → ChainCache
unfolding any_key_from
add_new_block s block =
    let keys = get_key_list s.block_history in
    let t = record s { block_history = set_key s.block_history block.slot block } in
    if any_key_from block.slot keys then t else record t { head_block = some block }

-- The loop of `CleanUpTo` over the slots of an epoch, from a slot on, with n slots left.
unfoldable pub delete_slots : ℕ → ℕ → AgnosticMap AgnosticBlock → AgnosticMap AgnosticBlock
delete_slots slot zero blocks = blocks
delete_slots slot (suc n) blocks = delete_slots (suc slot) n (delete blocks slot)

-- How many slots the loop runs over: up to `(epoch + 1) * SlotsPerEpoch`, which wraps around to 0 for
-- the last epoch that a slot can have.
unfoldable pub slots_in : ℕ → ℕ
slots_in epoch = mul64 (add64 epoch 1) slots_per_epoch - mul64 epoch slots_per_epoch

-- The loop of `CleanUpTo` over the epochs of the states.
unfoldable pub clean_epochs : ℕ → List ℕ → ChainCache → ChainCache
unfolding delete_slots slots_in
clean_epochs max_slot [] s = s
clean_epochs max_slot (epoch ∷ epochs) s = clean_epochs max_slot epochs (
    if leb max_slot (mul64 epoch slots_per_epoch) then s else record s {
      state_history = delete s.state_history epoch;
      block_history = delete_slots (mul64 epoch slots_per_epoch) (slots_in epoch) s.block_history;
    })

unfoldable pub clean_up_to : ChainCache → ℕ → ChainCache
unfolding clean_epochs
clean_up_to s max_slot = clean_epochs max_slot (get_key_list s.state_history) s
