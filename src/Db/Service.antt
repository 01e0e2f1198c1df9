-- ===== src/Db/Service.antt =====
-- pkg/db/service.go, low_level_driver.go, high_level_driver.go and prometheus_metrics.go: the
-- statements of a `DBService`, and what it counts of them. Times and the two connections are left out.
use Prim.Native.String.{String}
use text.Mathlib.Text.{◌==◌}
use eth_cl_state_analyzer.Common.{
  ℕ, Bool, true, false, List, [], ◌∷◌, ◌++◌, Option, none, some, length, add64, sub64,
  if◌then◌else◌,
}
use eth_cl_state_analyzer.Common.Go.{Go, ok, panic, ◌>>=◌}
use eth_cl_state_analyzer.Db.Columns.{Table, Column, input_of}

-- What is sent to the database: an INSERT of a table, the columns it names and its input; a DELETE
-- with its condition and argument; the query of the pool summaries, with its table and epoch.
pub data Statement : Type 0 where
  insert_rows : String → List String → List Column → Statement
  delete_rows : String → String → ℕ → Statement
  insert_pools : String → ℕ → Statement

-- `DBMonitorMetrics`
pub record DbMonitorMetrics : Type 0 where
  pub rows : ℕ
  pub number_persists : ℕ

pub record DbService : Type 0 where
  pub statements : List Statement
  pub monitor_metrics : List (String × DbMonitorMetrics)

-- `initMonitorMetrics`
abbrev pub tables_arr : List String
tables_arr =
    "t_blob_sidecars" ∷ "t_blob_sidecars_events" ∷ "t_block_rewards" ∷ "t_block_metrics"
    ∷ "t_epoch_metrics_summary" ∷ "t_finalized_checkpoint" ∷ "t_genesis" ∷ "t_head_events"
    ∷ "t_orphans" ∷ "t_pool_summary" ∷ "t_proposer_duties" ∷ "t_reorgs" ∷ "t_transactions"
    ∷ "t_validator_last_status" ∷ "t_validator_rewards_summary" ∷ "t_validator_rewards_aggregation"
    ∷ "t_withdrawals" ∷ "t_slashings" ∷ "t_bls_to_execution_changes" ∷ "t_deposits"
    ∷ "t_eth1_deposits" ∷ []

unfoldable pub init_monitor_metrics : List String → List (String × DbMonitorMetrics)
init_monitor_metrics [] = []
init_monitor_metrics (name ∷ names) =
    (name, record { rows = 0; number_persists = 0 }) ∷ init_monitor_metrics names

-- `New`
unfoldable pub new_db_service : DbService
unfolding init_monitor_metrics
new_db_service = record { statements = []; monitor_metrics = init_monitor_metrics tables_arr }

-- `addNewPersist`
unfoldable pub add_new_persist : ℕ → DbMonitorMetrics → DbMonitorMetrics
add_new_persist rows d = record {
  rows = add64 d.rows rows;
  number_persists = add64 d.number_persists 1;
}

-- `monitorMetrics[table].addNewPersist(rows)`, which panics for a table that has no entry.
unfoldable pub count_rows :
    String → ℕ → List (String × DbMonitorMetrics) → Go (List (String × DbMonitorMetrics))
unfolding add_new_persist
count_rows table rows [] = panic
count_rows table rows ((name, d) ∷ m) =
    let rest = count_rows table rows m in
    elim (name == table) [
      | true ↦ ok ((name, add_new_persist rows d) ∷ m)
      | false ↦ rest >>= λ m'. ok ((name, d) ∷ m')
    ]

-- `getMonitorMetrics`, of one table.
unfoldable pub get_monitor_metrics :
    String → List (String × DbMonitorMetrics) → Option DbMonitorMetrics
get_monitor_metrics table [] = none
get_monitor_metrics table ((name, d) ∷ m) =
    if name == table then some d else get_monitor_metrics table m

abbrev pub send : Statement → DbService → DbService
send statement s = record s { statements = s.statements ++ statement ∷ [] }

-- The deletes of a block and of a state: table, condition and argument.
abbrev pub block_deletes : ℕ → List (String × (String × ℕ))
block_deletes slot =
    ("t_block_metrics", ("f_slot = $1", slot))
    ∷ ("t_transactions", ("f_slot = $1", slot))
    ∷ ("t_withdrawals", ("f_slot = $1", slot))
    ∷ ("t_blob_sidecars", ("f_slot = $1", slot))
    ∷ []

abbrev pub state_deletes : ℕ → List (String × (String × ℕ))
state_deletes epoch =
    ("t_epoch_metrics_summary", ("f_epoch = $1", sub64 epoch 1))
    ∷ ("t_epoch_metrics_summary", ("f_epoch = $1", epoch))
    ∷ ("t_proposer_duties", ("f_proposer_slot/32 = $1", epoch))
    ∷ ("t_validator_rewards_summary", ("f_epoch = $1", add64 epoch 2))
    ∷ ("t_validator_rewards_summary", ("f_epoch = $1", add64 epoch 1))
    ∷ ("t_validator_rewards_summary", ("f_epoch = $1", epoch))
    ∷ []

-- The server: whether a statement has no error.
module _ (accepts : Statement → Bool) where
  -- The statement of `ExportPersist`, and `Persist`, which counts the rows if there is no error.
  -- The flag is false for an error.
  unfoldable pub persist : {A : Type 0} → Table A → List A → DbService → Go (Bool × DbService)
  unfolding input_of count_rows
  persist t items s =
      let statement = insert_rows t.name t.query_columns (input_of t items) in
      let sent = send statement s in
      elim (accepts statement) [
        | false ↦ ok (false, sent)
        | true ↦ count_rows t.name (length items) s.monitor_metrics >>= λ m.
            ok (true, record sent { monitor_metrics = m })
      ]

  -- `Delete`
  unfoldable pub delete_from : String → String → ℕ → DbService → Bool × DbService
  delete_from table condition arg s =
      let statement = delete_rows table condition arg in (accepts statement, send statement s)

  -- A list of deletes, up to the first error.
  unfoldable pub delete_all : List (String × (String × ℕ)) → DbService → Bool × DbService
  unfolding delete_from
  delete_all [] s = (true, s)
  delete_all ((table, (condition, arg)) ∷ rest) s =
      let (done, t) = delete_from table condition arg s in
      elim done [ true ↦ delete_all rest t | false ↦ (false, t) ]

  -- `DeleteBlockMetrics`
  unfoldable pub delete_block_metrics : ℕ → DbService → Bool × DbService
  unfolding delete_all
  delete_block_metrics slot = delete_all (block_deletes slot)

  -- `DeleteStateMetrics`
  unfoldable pub delete_state_metrics : ℕ → DbService → Bool × DbService
  unfolding delete_all
  delete_state_metrics epoch = delete_all (state_deletes epoch)

  -- `DeleteValLastStatus`
  abbrev pub delete_val_last_status : ℕ → DbService → Bool × DbService
  delete_val_last_status = delete_from "t_validator_last_status" "f_epoch < $1"

  -- `DeleteValidatorRewardsUntil` and `DeleteValidatorRewardsAggregationUntil`
  abbrev pub delete_validator_rewards_until : ℕ → DbService → Bool × DbService
  delete_validator_rewards_until = delete_from "t_validator_rewards_summary" "f_epoch <= $1"

  abbrev pub delete_validator_rewards_aggregation_until : ℕ → DbService → Bool × DbService
  delete_validator_rewards_aggregation_until =
      delete_from "t_validator_rewards_aggregation" "f_start_epoch <= $1"

  -- `InsertPoolSummary`
  unfoldable pub insert_pool_summary : ℕ → DbService → Bool × DbService
  insert_pool_summary epoch s =
      let statement = insert_pools "t_pool_summary" epoch in (accepts statement, send statement s)
