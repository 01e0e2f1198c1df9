-- ===== src/Db/EpochTables.antt =====
-- pkg/db: epoch_metrics.go, proposer_duties.go, validator_last_status.go, block_rewards.go and
-- slashings.go.
use eth_cl_state_analyzer.Common.{[], ◌∷◌}
use eth_cl_state_analyzer.Metrics.Export.{Epoch}
use eth_cl_state_analyzer.Analyzer.Aggregation.{Duty}
use eth_cl_state_analyzer.Analyzer.Calls.{ValidatorLastStatus, BlockReward}
use eth_cl_state_analyzer.Spec.Slashing.{AgnosticSlashing}
use eth_cl_state_analyzer.Db.Columns.{Table, flag, gwei_as_eth, str, strs, text, u64, u8}
use eth_cl_state_analyzer.Db.Names.{status_number, reason_text}

abbrev pub epochs_table : Table Epoch
epochs_table = record {
  name = "t_epoch_metrics_summary";
  query_columns =
      "f_epoch" ∷ "f_slot" ∷ "f_num_att" ∷ "f_num_att_vals" ∷ "f_num_vals" ∷ "f_total_balance_eth"
      ∷ "f_att_effective_balance_eth" ∷ "f_source_att_effective_balance_eth"
      ∷ "f_target_att_effective_balance_eth" ∷ "f_head_att_effective_balance_eth"
      ∷ "f_total_effective_balance_eth" ∷ "f_missing_source" ∷ "f_missing_target" ∷ "f_missing_head"
      ∷ "f_timestamp" ∷ "f_num_slashed_vals" ∷ "f_num_active_vals" ∷ "f_num_exited_vals"
      ∷ "f_num_in_activation_vals" ∷ "f_sync_committee_participation" ∷ "f_deposits_num"
      ∷ "f_total_deposits_amount" ∷ "f_withdrawals_num" ∷ "f_total_withdrawals_amount"
      ∷ "f_new_proposer_slashings" ∷ "f_new_attester_slashings" ∷ [];
  fields =
      ("f_epoch", λ e. u64 e.epoch)
      ∷ ("f_slot", λ e. u64 e.slot)
      ∷ ("f_num_att", λ e. u64 e.num_attestations)
      ∷ ("f_num_att_vals", λ e. u64 e.num_att_validators)
      ∷ ("f_num_vals", λ e. u64 e.num_validators)
      ∷ ("f_total_balance_eth", λ e. gwei_as_eth e.total_balance)
      ∷ ("f_att_effective_balance_eth", λ e. u64 e.att_effective_balance)
      ∷ ("f_source_att_effective_balance_eth", λ e. u64 e.source_att_effective_balance)
      ∷ ("f_target_att_effective_balance_eth", λ e. u64 e.target_att_effective_balance)
      ∷ ("f_head_att_effective_balance_eth", λ e. u64 e.head_att_effective_balance)
      ∷ ("f_total_effective_balance_eth", λ e. u64 e.total_effective_balance)
      ∷ ("f_missing_source", λ e. u64 e.missing_source)
      ∷ ("f_missing_target", λ e. u64 e.missing_target)
      ∷ ("f_missing_head", λ e. u64 e.missing_head)
      ∷ ("f_timestamp", λ e. u64 e.timestamp)
      ∷ ("f_num_slashed_vals", λ e. u64 e.num_slashed_vals)
      ∷ ("f_num_active_vals", λ e. u64 e.num_active_vals)
      ∷ ("f_num_exited_vals", λ e. u64 e.num_exited_vals)
      ∷ ("f_num_in_activation_vals", λ e. u64 e.num_in_activation_vals)
      ∷ ("f_sync_committee_participation", λ e. u64 e.sync_committee_participation)
      ∷ ("f_deposits_num", λ e. u64 e.deposits_num)
      ∷ ("f_total_deposits_amount", λ e. u64 e.total_deposits_amount)
      ∷ ("f_withdrawals_num", λ e. u64 e.withdrawals_num)
      ∷ ("f_total_withdrawals_amount", λ e. u64 e.total_withdrawals_amount)
      ∷ ("f_new_proposer_slashings", λ e. u64 e.new_proposer_slashings)
      ∷ ("f_new_attester_slashings", λ e. u64 e.new_attester_slashings)
      ∷ [];
}

abbrev pub proposer_duties_table : Table Duty
proposer_duties_table = record {
  name = "t_proposer_duties";
  query_columns = "f_val_idx" ∷ "f_proposer_slot" ∷ "f_proposed" ∷ [];
  fields =
      ("f_val_idx", λ d. u64 d.val_idx)
      ∷ ("f_proposer_slot", λ d. u64 d.proposer_slot)
      ∷ ("f_proposed", λ d. flag d.proposed)
      ∷ [];
}

abbrev pub val_last_status_table : Table ValidatorLastStatus
val_last_status_table = record {
  name = "t_validator_last_status";
  query_columns =
      "f_val_idx" ∷ "f_epoch" ∷ "f_balance_eth" ∷ "f_status" ∷ "f_slashed" ∷ "f_activation_epoch"
      ∷ "f_withdrawal_epoch" ∷ "f_exit_epoch" ∷ "f_public_key" ∷ [];
  fields =
      ("f_val_idx", λ v. u64 v.val_idx)
      ∷ ("f_epoch", λ v. u64 v.epoch)
      ∷ ("f_balance_eth", λ v. gwei_as_eth v.current_balance)
      ∷ ("f_status", λ v. u8 (status_number v.current_status))
      ∷ ("f_slashed", λ v. flag v.slashed)
      ∷ ("f_activation_epoch", λ v. u64 v.activation_epoch)
      ∷ ("f_withdrawal_epoch", λ v. u64 v.withdrawal_epoch)
      ∷ ("f_exit_epoch", λ v. u64 v.exit_epoch)
      ∷ ("f_public_key", λ v. str v.public_key)
      ∷ [];
}

abbrev pub block_rewards_table : Table BlockReward
block_rewards_table = record {
  name = "t_block_rewards";
  query_columns =
      "f_slot" ∷ "f_reward_fees" ∷ "f_burnt_fees" ∷ "f_cl_manual_reward" ∷ "f_cl_api_reward"
      ∷ "f_relays" ∷ "f_builder_pubkey" ∷ "f_bid_commission" ∷ [];
  fields =
      ("f_slot", λ r. u64 r.slot)
      ∷ ("f_reward_fees", λ r. u64 r.reward_fees)
      ∷ ("f_burnt_fees", λ r. u64 r.burnt_fees)
      ∷ ("f_cl_manual_reward", λ r. u64 r.cl_manual_reward)
      ∷ ("f_cl_api_reward", λ r. u64 r.cl_api_reward)
      ∷ ("f_relays", λ r. strs r.relays)
      ∷ ("f_builder_pubkey", λ r. (elim r.builder_pubkeys [ [] ↦ text "" | key ∷ _ ↦ str key ]))
      ∷ ("f_bid_commission", λ r. u64 r.bid_commision)
      ∷ [];
}

abbrev pub slashings_table : Table AgnosticSlashing
slashings_table = record {
  name = "t_slashings";
  query_columns =
      "f_slashed_validator_index" ∷ "f_slashed_by_validator_index" ∷ "f_slashing_reason" ∷ "f_slot"
      ∷ "f_epoch" ∷ "f_valid" ∷ [];
  fields =
      ("f_slashed_validator_index", λ s. u64 s.slashed_validator)
      ∷ ("f_slashed_by_validator_index", λ s. u64 s.slashed_by)
      ∷ ("f_slashing_reason", λ s. text (reason_text s.slashing_reason))
      ∷ ("f_slot", λ s. u64 s.slot)
      ∷ ("f_epoch", λ s. u64 s.epoch)
      ∷ ("f_valid", λ s. flag s.valid)
      ∷ [];
}
