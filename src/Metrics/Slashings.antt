-- ===== src/Metrics/Slashings.antt =====
-- pkg/spec/metrics/state_phase0.go: `ProcessSlashings`, which all forks use.
use eth_cl_state_analyzer.Common.{
  ℕ, ◌+◌, ◌/◌, Bool, List, [], ◌∷◌, ◌++◌, if◌then◌else◌, add64, sub64, mul64,
}
use eth_cl_state_analyzer.Common.Go.{Go, ok, ◌>>=◌, index, for_each, for_each_mut}
use eth_cl_state_analyzer.Client.{Validator, ProposerSlashing}
use eth_cl_state_analyzer.Spec.Constants.{
  whistle_blower_reward_quotient, proposer_weight, weight_denominator,
}
use eth_cl_state_analyzer.Spec.Slot.{epoch_at_slot}
use eth_cl_state_analyzer.Spec.Slashing.{
  SlashingReason, attester_slashing, proposer_slashing, AgnosticSlashing, slashing_intersection,
  is_slashable_validator,
}
use eth_cl_state_analyzer.Spec.Block.{AgnosticBlock}
use eth_cl_state_analyzer.Metrics.Base.{Amounts, add_amount, StateMetricsBase}

-- What the loop over the blocks changes, the blocks themselves apart.
pub record SlashingPass : Type 0 where
  pub slashings : List AgnosticSlashing
  pub new_attester_slashings : ℕ
  pub new_proposer_slashings : ℕ
  pub max_slashing_rewards : Amounts

-- The entry for one slashed validator.
unfoldable pub slashing_of : AgnosticBlock → SlashingReason → ℕ → Bool → AgnosticSlashing
slashing_of block reason idx valid = record {
  slashed_validator = idx;
  slashed_by = block.proposer_index;
  slashing_reason = reason;
  epoch = epoch_at_slot block.slot;
  slot = block.slot;
  valid = valid;
}

module _ (current : List Validator) (block : AgnosticBlock) where
  -- The body of the loop over the intersection of an attester slashing.
  unfoldable pub slash_attester : ℕ → SlashingPass → Go SlashingPass
  unfolding slashing_of
  slash_attester idx s = do
    slashed ← index current idx
    let valid = is_slashable_validator slashed (epoch_at_slot block.slot)
    ok (record s {
      new_attester_slashings =
          (if valid then s.new_attester_slashings + 1 else s.new_attester_slashings);
      slashings = s.slashings ++ slashing_of block attester_slashing idx valid ∷ [];
    })

  -- The body of the loop over the proposer slashings.
  unfoldable pub slash_proposer : ProposerSlashing → SlashingPass → Go SlashingPass
  unfolding slashing_of
  slash_proposer slashing s = do
    slashed ← index current slashing.proposer_index
    let valid = is_slashable_validator slashed (epoch_at_slot block.slot)
    ok (record s {
      new_proposer_slashings =
          (if valid then s.new_proposer_slashings + 1 else s.new_proposer_slashings);
      slashings =
          s.slashings ++ slashing_of block proposer_slashing slashing.proposer_index valid ∷ [];
    })

  -- The two loops that record the slashings of a block.
  unfoldable pub record_slashings : SlashingPass → Go SlashingPass
  record_slashings s =
      for_each (λ a t. for_each slash_attester (slashing_intersection a.indices_1 a.indices_2) t)
        block.attester_slashings s
      >>= λ t. for_each slash_proposer block.proposer_slashings t

-- `whistleBlowerReward` and `proposerReward`, in the loop over all slashings recorded so far.
unfoldable pub slashing_rewards_from : List Validator → List AgnosticSlashing → ℕ → ℕ → Go (ℕ × ℕ)
slashing_rewards_from next [] whistle_blower proposer = ok (whistle_blower, proposer)
slashing_rewards_from next (s ∷ slashings) whistle_blower proposer = do
  slashed ← index next s.slashed_validator
  let whistle_blower' =
      add64 whistle_blower (slashed.effective_balance / whistle_blower_reward_quotient)
  slashing_rewards_from next slashings whistle_blower'
      (add64 proposer (mul64 whistle_blower' proposer_weight / weight_denominator))

-- The body of the loop over the blocks.
unfoldable pub process_block_slashings :
    List Validator
    → List Validator
    → AgnosticBlock
    → SlashingPass
    → Go (AgnosticBlock × SlashingPass)
unfolding slashing_rewards_from record_slashings
process_block_slashings current next block s = do
  t ← record_slashings current block s
  rewards ← slashing_rewards_from next t.slashings 0 0
  let (whistle_blower, proposer) = rewards
  let rest = sub64 whistle_blower proposer
  ok (
    record block { manual_reward = add64 block.manual_reward (add64 proposer rest) },
    record t {
      max_slashing_rewards =
          add_amount (add_amount t.max_slashing_rewards block.proposer_index proposer)
            block.proposer_index rest;
    },
  )

unfoldable pub process_slashings : StateMetricsBase → Go StateMetricsBase
process_slashings p = do
  let state = p.next_state
  result ←
      for_each_mut (process_block_slashings p.current_state.validators state.validators)
        state.blocks
        (record {
          slashings = state.slashings;
          new_attester_slashings = state.new_attester_slashings;
          new_proposer_slashings = state.new_proposer_slashings;
          max_slashing_rewards = p.max_slashing_rewards;
        })
  let (blocks, s) = result
  ok (record p {
    next_state = record state {
      blocks = blocks;
      slashings = s.slashings;
      new_attester_slashings = s.new_attester_slashings;
      new_proposer_slashings = s.new_proposer_slashings;
    };
    max_slashing_rewards = s.max_slashing_rewards;
  })
