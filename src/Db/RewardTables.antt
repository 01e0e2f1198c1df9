-- ===== src/Db/RewardTables.antt =====
-- pkg/db: validator_rewards.go and validator_rewards_aggregation.go.
use eth_cl_state_analyzer.Common.{[], ◌%◌, ◌∷◌}
use eth_cl_state_analyzer.Spec.Rewards.{ValidatorRewards, ValidatorRewardsAggregation}
use eth_cl_state_analyzer.Db.Columns.{Table, flag, gwei_as_eth, i64, u16, u32, u64, u8}
use eth_cl_state_analyzer.Db.Names.{status_number}

abbrev pub val_rewards_table : Table ValidatorRewards
val_rewards_table = record {
  name = "t_validator_rewards_summary";
  query_columns =
      "f_val_idx" ∷ "f_epoch" ∷ "f_balance_eth" ∷ "f_reward" ∷ "f_max_reward" ∷ "f_max_att_reward"
      ∷ "f_max_sync_reward" ∷ "f_att_slot" ∷ "f_attestation_included" ∷ "f_base_reward"
      ∷ "f_in_sync_committee" ∷ "f_missing_source" ∷ "f_missing_target" ∷ "f_missing_head"
      ∷ "f_status" ∷ "f_block_api_reward" ∷ "f_block_experimental_reward" ∷ "f_inclusion_delay"
      ∷ [];
  fields =
      ("f_val_idx", λ r. u64 r.validator_index)
      ∷ ("f_epoch", λ r. u64 r.epoch)
      ∷ ("f_balance_eth", λ r. gwei_as_eth r.validator_balance)
      ∷ ("f_reward", λ r. i64 r.reward)
      ∷ ("f_max_reward", λ r. u64 r.max_reward)
      ∷ ("f_max_att_reward", λ r. u64 r.attestation_reward)
      ∷ ("f_max_sync_reward", λ r. u64 r.sync_committee_reward)
      ∷ ("f_att_slot", λ r. u64 r.att_slot)
      ∷ ("f_attestation_included", λ r. flag r.attestation_included)
      ∷ ("f_base_reward", λ r. u64 r.base_reward)
      ∷ ("f_in_sync_committee", λ r. flag r.in_sync_committee)
      ∷ ("f_missing_source", λ r. flag r.missing_source)
      ∷ ("f_missing_target", λ r. flag r.missing_target)
      ∷ ("f_missing_head", λ r. flag r.missing_head)
      ∷ ("f_status", λ r. u8 (status_number r.status))
      ∷ ("f_block_api_reward", λ r. u64 r.proposer_api_reward)
      ∷ ("f_block_experimental_reward", λ r. u64 r.proposer_manual_reward)
      ∷ ("f_inclusion_delay", λ r. u8 (r.inclusion_delay % 256))
      ∷ [];
}

abbrev pub val_rewards_aggregation_table : Table ValidatorRewardsAggregation
val_rewards_aggregation_table = record {
  name = "t_validator_rewards_aggregation";
  query_columns =
      "f_val_idx" ∷ "f_start_epoch" ∷ "f_end_epoch" ∷ "f_reward" ∷ "f_max_reward"
      ∷ "f_max_att_reward" ∷ "f_max_sync_reward" ∷ "f_base_reward" ∷ "f_in_sync_committee_count"
      ∷ "f_attestations_included" ∷ "f_missing_source_count" ∷ "f_missing_target_count"
      ∷ "f_missing_head_count" ∷ "f_block_api_reward" ∷ "f_block_experimental_reward"
      ∷ "f_inclusion_delay_sum" ∷ [];
  fields =
      ("f_val_idx", λ r. u64 r.validator_index)
      ∷ ("f_start_epoch", λ r. u64 r.start_epoch)
      ∷ ("f_end_epoch", λ r. u64 r.end_epoch)
      ∷ ("f_reward", λ r. i64 r.reward)
      ∷ ("f_max_reward", λ r. u64 r.max_reward)
      ∷ ("f_max_att_reward", λ r. u64 r.max_attestation_reward)
      ∷ ("f_max_sync_reward", λ r. u64 r.max_sync_committee_reward)
      ∷ ("f_base_reward", λ r. u64 r.base_reward)
      ∷ ("f_in_sync_committee_count", λ r. u16 r.in_sync_committee_count)
      ∷ ("f_attestations_included", λ r. u16 r.attestations_included)
      ∷ ("f_missing_source_count", λ r. u16 r.missing_source_count)
      ∷ ("f_missing_target_count", λ r. u16 r.missing_target_count)
      ∷ ("f_missing_head_count", λ r. u16 r.missing_head_count)
      ∷ ("f_block_api_reward", λ r. u64 r.proposer_api_reward)
      ∷ ("f_block_experimental_reward", λ r. u64 r.proposer_manual_reward)
      ∷ ("f_inclusion_delay_sum", λ r. u32 r.inclusion_delay_sum)
      ∷ [];
}
