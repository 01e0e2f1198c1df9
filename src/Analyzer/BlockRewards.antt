-- ===== src/Analyzer/BlockRewards.antt =====
-- pkg/analyzer/process_state.go: the rewards of the blocks, with the bids of the relays. The order in
-- which the source ranges over the map of a slot's bids is not determined; here it is the list's.
use eth_cl_state_analyzer.Common.{ℕ, List, [], ◌∷◌, ◌++◌, ◌==◌, if◌then◌else◌}
use eth_cl_state_analyzer.Client.{BidTrace}
use eth_cl_state_analyzer.Spec.Block.{AgnosticBlock, block_gas_fees}
use eth_cl_state_analyzer.Relay.Bids.{RelayBidsPerSlot, get_bids_at_slot}
use eth_cl_state_analyzer.Analyzer.Calls.{BlockReward}

-- The loop of `getSingleBlockRewards` over the bids of the slot.
unfoldable pub match_bids : ℕ → List (ℕ × BidTrace) → BlockReward → BlockReward
match_bids block_hash [] r = r
match_bids block_hash ((address, bid) ∷ bids) r = match_bids block_hash bids (
    if block_hash == bid.block_hash
    then record r {
      bid_commision = bid.value;
      relays = r.relays ++ address ∷ [];
      builder_pubkeys = r.builder_pubkeys ++ bid.builder_pubkey ∷ [];
    }
    else r)

unfoldable pub get_single_block_rewards : AgnosticBlock → RelayBidsPerSlot → BlockReward
unfolding match_bids block_gas_fees get_bids_at_slot
get_single_block_rewards block mev_bids =
    let (reward_fees, burnt_fees) = block_gas_fees block in
    match_bids block.execution_payload.block_hash (get_bids_at_slot mev_bids block.slot) (record {
      slot = block.slot;
      cl_manual_reward = block.manual_reward;
      cl_api_reward = block.api_reward;
      reward_fees = reward_fees;
      burnt_fees = burnt_fees;
      relays = [];
      bid_commision = 0;
      builder_pubkeys = [];
    })
