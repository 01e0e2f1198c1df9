-- ===== src/Db/Calls.antt =====
-- pkg/db: the methods of `DBService` that the analyzer calls.
use eth_cl_state_analyzer.Common.{ℕ, Bool, true, false, [], ◌∷◌, ◌==◌, Option, none, some}
use eth_cl_state_analyzer.Common.Go.{Go, ok}
use eth_cl_state_analyzer.Analyzer.Calls.{
  DbCall, persist_blocks, persist_withdrawals, persist_transactions, persist_eth1_deposits,
  persist_blob_sidecars, persist_bls_to_execution_changes, persist_deposits, persist_orphans,
  persist_duties, persist_val_last_status, persist_epochs, persist_block_rewards,
  persist_validator_rewards, persist_slashings, persist_head_events, persist_finalized,
  persist_reorgs, persist_blob_sidecars_events, delete_block_metrics, delete_val_last_status,
  insert_pool_summary, persist_validator_rewards_aggregation, delete_state_metrics,
}
use eth_cl_state_analyzer.Db.EventTables.{genesis_table}
use eth_cl_state_analyzer.Db.Persist
use eth_cl_state_analyzer.Db.Service
use eth_cl_state_analyzer.Db.Service.{DbService, Statement, persist}

module _ (accepts : Statement → Bool) where
  -- Each call of `DbCall`: whether it has no error, and the service after it.
  unfoldable pub run_call : DbCall → DbService → Go (Bool × DbService)
  unfolding persist
  run_call (persist_blocks rows) s = Persist.persist_blocks accepts rows s
  run_call (persist_withdrawals rows) s = Persist.persist_withdrawals accepts rows s
  run_call (persist_transactions rows) s = Persist.persist_transactions accepts rows s
  run_call (persist_eth1_deposits rows) s = Persist.persist_eth1_deposits accepts rows s
  run_call (persist_blob_sidecars rows) s = Persist.persist_blob_sidecars accepts rows s
  run_call (persist_bls_to_execution_changes rows) s =
      Persist.persist_bls_to_execution_changes accepts rows s
  run_call (persist_deposits rows) s = Persist.persist_deposits accepts rows s
  run_call (persist_orphans rows) s = Persist.persist_orphans accepts rows s
  run_call (persist_duties rows) s = Persist.persist_duties accepts rows s
  run_call (persist_val_last_status rows) s = Persist.persist_val_last_status accepts rows s
  run_call (persist_epochs rows) s = Persist.persist_epochs accepts rows s
  run_call (persist_block_rewards rows) s = Persist.persist_block_rewards accepts rows s
  run_call (persist_validator_rewards rows) s = Persist.persist_validator_rewards accepts rows s
  run_call (persist_slashings rows) s = Persist.persist_slashings accepts rows s
  run_call (persist_head_events rows) s = Persist.persist_head_events accepts rows s
  run_call (persist_finalized rows) s = Persist.persist_finalized accepts rows s
  run_call (persist_reorgs rows) s = Persist.persist_reorgs accepts rows s
  run_call (persist_blob_sidecars_events rows) s =
      Persist.persist_blob_sidecars_events accepts rows s
  run_call (persist_validator_rewards_aggregation m) s =
      Persist.persist_validator_rewards_aggregation accepts m s
  run_call (delete_block_metrics slot) s = ok (Service.delete_block_metrics accepts slot s)
  run_call (delete_state_metrics epoch) s = ok (Service.delete_state_metrics accepts epoch s)
  run_call (delete_val_last_status epoch) s = ok (Service.delete_val_last_status accepts epoch s)
  run_call (insert_pool_summary epoch) s = ok (Service.insert_pool_summary accepts epoch s)

  -- `InitGenesis`, given the genesis time that the table has, `none` for an error of the query.
  unfoldable pub init_genesis : ℕ → Option ℕ → DbService → Go (Bool × DbService)
  unfolding persist
  init_genesis api none s = ok (false, s)
  init_genesis api (some db) s = elim (db == 0) [
    | true ↦ persist accepts genesis_table (api ∷ []) s
    | false ↦ ok (true, s)
  ]
