-- ===== src/Spec/Rewards.antt =====
-- pkg/spec/validator_rewards.go and validator_rewards_aggregation.go: the rewards of a validator in
-- one epoch, and their sums over several. `reward` is the bit pattern of an int64.
use eth_cl_state_analyzer.Common.{ℕ, ◌+◌, ◌%◌, ◌^◌, Bool, if◌then◌else◌, add64}
use eth_cl_state_analyzer.Spec.Constants.{ValidatorStatus}

pub record ValidatorRewards : Type 0 where
  pub validator_index : ℕ
  pub epoch : ℕ
  pub validator_balance : ℕ
  pub reward : ℕ
  pub max_reward : ℕ
  pub attestation_reward : ℕ
  pub sync_committee_reward : ℕ
  pub base_reward : ℕ
  pub att_slot : ℕ
  pub attestation_included : Bool
  pub in_sync_committee : Bool
  pub proposer_slot : ℕ
  pub proposer_api_reward : ℕ
  pub proposer_manual_reward : ℕ
  pub missing_source : Bool
  pub missing_target : Bool
  pub missing_head : Bool
  pub status : ValidatorStatus
  pub inclusion_delay : ℕ

pub record ValidatorRewardsAggregation : Type 0 where
  pub validator_index : ℕ
  pub start_epoch : ℕ
  pub end_epoch : ℕ
  pub reward : ℕ
  pub max_reward : ℕ
  pub max_attestation_reward : ℕ
  pub max_sync_committee_reward : ℕ
  pub base_reward : ℕ
  pub in_sync_committee_count : ℕ  -- uint16
  pub attestations_included : ℕ  -- uint16
  pub missing_source_count : ℕ  -- uint16
  pub missing_target_count : ℕ  -- uint16
  pub missing_head_count : ℕ  -- uint16
  pub proposer_api_reward : ℕ
  pub proposer_manual_reward : ℕ
  pub inclusion_delay_sum : ℕ  -- uint32

unfoldable pub new_validator_rewards_aggregation : ℕ → ℕ → ℕ → ValidatorRewardsAggregation
new_validator_rewards_aggregation validator_index start_epoch end_epoch = record {
  validator_index = validator_index;
  start_epoch = start_epoch;
  end_epoch = end_epoch;
  reward = 0;
  max_reward = 0;
  max_attestation_reward = 0;
  max_sync_committee_reward = 0;
  base_reward = 0;
  in_sync_committee_count = 0;
  attestations_included = 0;
  missing_source_count = 0;
  missing_target_count = 0;
  missing_head_count = 0;
  proposer_api_reward = 0;
  proposer_manual_reward = 0;
  inclusion_delay_sum = 0;
}

-- `if b { count++ }` on a uint16
abbrev pub count_if : Bool → ℕ → ℕ
count_if b n = if b then (n + 1) % 2 ^ 16 else n

unfoldable pub aggregate :
    ValidatorRewardsAggregation → ValidatorRewards → ValidatorRewardsAggregation
aggregate f r = record f {
  reward = add64 f.reward r.reward;
  max_reward = add64 f.max_reward r.max_reward;
  max_attestation_reward = add64 f.max_attestation_reward r.attestation_reward;
  max_sync_committee_reward = add64 f.max_sync_committee_reward r.sync_committee_reward;
  base_reward = add64 f.base_reward r.base_reward;
  in_sync_committee_count = count_if r.in_sync_committee f.in_sync_committee_count;
  attestations_included = count_if r.attestation_included f.attestations_included;
  missing_source_count = count_if r.missing_source f.missing_source_count;
  missing_target_count = count_if r.missing_target f.missing_target_count;
  missing_head_count = count_if r.missing_head f.missing_head_count;
  proposer_api_reward = add64 f.proposer_api_reward r.proposer_api_reward;
  proposer_manual_reward = add64 f.proposer_manual_reward r.proposer_manual_reward;
  inclusion_delay_sum = (f.inclusion_delay_sum + r.inclusion_delay % 2 ^ 32) % 2 ^ 32;
}
