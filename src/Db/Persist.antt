-- ===== src/Db/Persist.antt =====
-- pkg/db: the methods that persist rows, one for each table. Each puts its rows into a
-- `PersistableObject` and hands it to `Persist`.
use eth_cl_state_analyzer.Common.{ℕ, Bool, List, map}
use eth_cl_state_analyzer.Common.Go.{Go}
use eth_cl_state_analyzer.Spec.Block.{AgnosticBlock, Transaction}
use eth_cl_state_analyzer.Analyzer.Calls.{
  WithdrawalRow, DepositRow, BlsChangeRow, ValidatorLastStatus, BlockReward,
}
use eth_cl_state_analyzer.Spec.Transactions.{Eth1Deposit, BlobSidecar}
use eth_cl_state_analyzer.Metrics.Export.{Epoch}
use eth_cl_state_analyzer.Analyzer.Aggregation.{Duty}
use eth_cl_state_analyzer.Spec.Rewards.{ValidatorRewards, ValidatorRewardsAggregation}
use eth_cl_state_analyzer.Spec.Slashing.{AgnosticSlashing}
use eth_cl_state_analyzer.Client.{FinalizedEvent, ReorgEvent, HeadEvent, BlobSidecarEvent}
use eth_cl_state_analyzer.Db.BlockTables.{
  blocks_table, orphans_table, withdrawals_table, deposits_table, bls_to_execution_changes_table,
}
use eth_cl_state_analyzer.Db.TransactionTables.{
  transactions_table, eth1_deposits_table, blob_sidecars_table,
}
use eth_cl_state_analyzer.Db.EpochTables.{
  epochs_table, proposer_duties_table, val_last_status_table, block_rewards_table, slashings_table,
}
use eth_cl_state_analyzer.Db.RewardTables.{val_rewards_table, val_rewards_aggregation_table}
use eth_cl_state_analyzer.Db.EventTables.{
  finalized_table, reorgs_table, head_events_table, blob_events_table,
}
use eth_cl_state_analyzer.Db.Service.{DbService, Statement, persist}

-- A method that persists rows: whether it has no error, and the service after it.
abbrev Persisting : Type 0 → Type 0
Persisting A = (Statement → Bool) → List A → DbService → Go (Bool × DbService)

abbrev pub persist_blocks : Persisting AgnosticBlock
persist_blocks accepts = persist accepts blocks_table

abbrev pub persist_orphans : Persisting AgnosticBlock
persist_orphans accepts = persist accepts orphans_table

abbrev pub persist_withdrawals : Persisting WithdrawalRow
persist_withdrawals accepts = persist accepts withdrawals_table

abbrev pub persist_deposits : Persisting DepositRow
persist_deposits accepts = persist accepts deposits_table

abbrev pub persist_bls_to_execution_changes : Persisting BlsChangeRow
persist_bls_to_execution_changes accepts = persist accepts bls_to_execution_changes_table

abbrev pub persist_transactions : Persisting Transaction
persist_transactions accepts = persist accepts transactions_table

abbrev pub persist_eth1_deposits : Persisting Eth1Deposit
persist_eth1_deposits accepts = persist accepts eth1_deposits_table

abbrev pub persist_blob_sidecars : Persisting BlobSidecar
persist_blob_sidecars accepts = persist accepts blob_sidecars_table

abbrev pub persist_epochs : Persisting Epoch
persist_epochs accepts = persist accepts epochs_table

abbrev pub persist_duties : Persisting Duty
persist_duties accepts = persist accepts proposer_duties_table

abbrev pub persist_val_last_status : Persisting ValidatorLastStatus
persist_val_last_status accepts = persist accepts val_last_status_table

abbrev pub persist_block_rewards : Persisting BlockReward
persist_block_rewards accepts = persist accepts block_rewards_table

abbrev pub persist_slashings : Persisting AgnosticSlashing
persist_slashings accepts = persist accepts slashings_table

abbrev pub persist_validator_rewards : Persisting ValidatorRewards
persist_validator_rewards accepts = persist accepts val_rewards_table

abbrev pub persist_head_events : Persisting HeadEvent
persist_head_events accepts = persist accepts head_events_table

abbrev pub persist_finalized : Persisting FinalizedEvent
persist_finalized accepts = persist accepts finalized_table

abbrev pub persist_reorgs : Persisting ReorgEvent
persist_reorgs accepts = persist accepts reorgs_table

abbrev pub persist_blob_sidecars_events : Persisting BlobSidecarEvent
persist_blob_sidecars_events accepts = persist accepts blob_events_table

-- Of a map of aggregations.
abbrev pub persist_validator_rewards_aggregation : Persisting (ℕ × ValidatorRewardsAggregation)
persist_validator_rewards_aggregation accepts m =
    persist accepts val_rewards_aggregation_table (map (λ e. e.1) m)
