-- ===== src/Db/Monitored.antt =====
-- pkg/db: every method that the analyzer calls finds the table that it counts rows of.
use Prim.Native.String.{String}
use text.Mathlib.Text.{◌==◌}
use eth_cl_state_analyzer.Common.{
  ℕ, ◌≡◌, refl, ◌∙◌, ap, Bool, true, false, ◌||◌, List, [], ◌∷◌, map, length,
}
use eth_cl_state_analyzer.Common.Go.{Go, ok, ◌>>=◌}
use eth_cl_state_analyzer.Common.Returns.{branch-in, branch-at}
use eth_cl_state_analyzer.Analyzer.Calls.{
  DbCall, persist_blocks, persist_withdrawals, persist_transactions, persist_eth1_deposits,
  persist_blob_sidecars, persist_bls_to_execution_changes, persist_deposits, persist_orphans,
  persist_duties, persist_val_last_status, persist_epochs, persist_block_rewards,
  persist_validator_rewards, persist_slashings, persist_head_events, persist_finalized,
  persist_reorgs, persist_blob_sidecars_events, persist_validator_rewards_aggregation,
  delete_block_metrics, delete_state_metrics, delete_val_last_status, insert_pool_summary,
}
use eth_cl_state_analyzer.Db.Columns.{Table, input_of}
use eth_cl_state_analyzer.Db.BlockTables.{
  blocks_table, orphans_table, withdrawals_table, deposits_table, bls_to_execution_changes_table,
}
use eth_cl_state_analyzer.Db.TransactionTables.{
  transactions_table, eth1_deposits_table, blob_sidecars_table,
}
use eth_cl_state_analyzer.Db.EpochTables.{
  epochs_table, proposer_duties_table, val_last_status_table, block_rewards_table, slashings_table,
}
use eth_cl_state_analyzer.Db.RewardTables.{val_rewards_table, val_rewards_aggregation_table}
use eth_cl_state_analyzer.Db.EventTables.{
  finalized_table, reorgs_table, head_events_table, blob_events_table,
}
use eth_cl_state_analyzer.Db.Service
use eth_cl_state_analyzer.Db.Service.{
  DbMonitorMetrics, DbService, Statement, tables_arr, init_monitor_metrics, new_db_service,
  count_rows, block_deletes, state_deletes, add_new_persist, insert_rows, delete_rows, insert_pools,
  persist, delete_all, delete_from, send,
}
use eth_cl_state_analyzer.Db.Calls.{run_call}

abbrev pub names : List (String × DbMonitorMetrics) → List String
names m = map (λ e. e.0) m

abbrev pub is_listed : String → List String → Bool
is_listed x [] = false
is_listed x (y ∷ ys) = (y == x) || is_listed x ys

or-false : {b c : Bool} → b ≡ false → b || c ≡ true → c ≡ true
or-false {b = true} e h = cc
or-false {b = false} e h = h

-- The code returns a value that has a property.
abbrev pub Yields : {A : Type 0} → (A → Type 0) → Go A → Type 0
Yields {A} P m = (a : A) × (m ≡ ok a) × P a

Yields-then :
    {A B : Type 0} {P : A → Type 0} {Q : B → Type 0} {m : Go A} (f : A → Go B)
    → Yields P m
    → ((a : A) → P a → Yields Q (f a))
    → Yields Q (m >>= f)
Yields-then f (a, e, p) k = let (b, e', q) = k a p in (b, ap (λ m. m >>= f) e ∙ e', q)

-- The tables that are counted.
abbrev pub HasNames : List String → List (String × DbMonitorMetrics) → Type 0
HasNames ns m = names m ≡ ns

count_rows-listed :
    (table : String) (rows : ℕ) (m : List (String × DbMonitorMetrics))
    → is_listed table (names m) ≡ true
    → Yields (HasNames (names m)) (count_rows table rows m)
unfolding count_rows
count_rows-listed table rows [] h = cc
count_rows-listed table rows ((name, d) ∷ m) h =
    branch-at (Yields (HasNames (name ∷ names m))) (name == table) _ _
      (λ _. ((name, add_new_persist rows d) ∷ m, refl, refl))
      λ differ.
        Yields-then _ (count_rows-listed table rows m (or-false differ h))
          λ m' e. ((name, d) ∷ m', refl, ap (λ l. name ∷ l) e)

-- A service that counts the tables of `initMonitorMetrics`.
abbrev pub IsMonitored : DbService → Type 0
IsMonitored s = names s.monitor_metrics ≡ tables_arr

abbrev Kept : Bool × DbService → Type 0
Kept r = IsMonitored r.1

module _ (accepts : Statement → Bool) where
  persist-Yields :
      {A : Type 0} (t : Table A) (items : List A) (s : DbService)
      → is_listed t.name tables_arr ≡ true
      → IsMonitored s
      → Yields Kept (persist accepts t items s)
  unfolding persist
  persist-Yields t items s listed h =
      branch-in (Yields Kept) (accepts (insert_rows t.name t.query_columns (input_of t items))) _ _
        (Yields-then _
          (count_rows-listed t.name (length items) s.monitor_metrics
            (ap (is_listed t.name) h ∙ listed))
          λ m e. ((true, _), refl, e ∙ h))
        ((false, _), refl, h)

  delete_all-Kept :
      (deletes : List (String × (String × ℕ))) (s : DbService)
      → IsMonitored s
      → Kept (delete_all accepts deletes s)
  unfolding delete_all delete_from
  delete_all-Kept [] s h = h
  delete_all-Kept ((table, (condition, arg)) ∷ rest) s h =
      branch-in Kept (accepts (delete_rows table condition arg)) _ _
        (delete_all-Kept rest (send (delete_rows table condition arg) s) h) h

  run_call-Yields :
      (c : DbCall) (s : DbService) → IsMonitored s → Yields Kept (run_call accepts c s)
  unfolding run_call Service.delete_block_metrics Service.delete_state_metrics
      Service.insert_pool_summary delete_from
  run_call-Yields (persist_blocks rows) s h = persist-Yields blocks_table rows s refl h
  run_call-Yields (persist_withdrawals rows) s h = persist-Yields withdrawals_table rows s refl h
  run_call-Yields (persist_transactions rows) s h = persist-Yields transactions_table rows s refl h
  run_call-Yields (persist_eth1_deposits rows) s h =
      persist-Yields eth1_deposits_table rows s refl h
  run_call-Yields (persist_blob_sidecars rows) s h =
      persist-Yields blob_sidecars_table rows s refl h
  run_call-Yields (persist_bls_to_execution_changes rows) s h =
      persist-Yields bls_to_execution_changes_table rows s refl h
  run_call-Yields (persist_deposits rows) s h = persist-Yields deposits_table rows s refl h
  run_call-Yields (persist_orphans rows) s h = persist-Yields orphans_table rows s refl h
  run_call-Yields (persist_duties rows) s h = persist-Yields proposer_duties_table rows s refl h
  run_call-Yields (persist_val_last_status rows) s h =
      persist-Yields val_last_status_table rows s refl h
  run_call-Yields (persist_epochs rows) s h = persist-Yields epochs_table rows s refl h
  run_call-Yields (persist_block_rewards rows) s h =
      persist-Yields block_rewards_table rows s refl h
  run_call-Yields (persist_validator_rewards rows) s h =
      persist-Yields val_rewards_table rows s refl h
  run_call-Yields (persist_slashings rows) s h = persist-Yields slashings_table rows s refl h
  run_call-Yields (persist_head_events rows) s h = persist-Yields head_events_table rows s refl h
  run_call-Yields (persist_finalized rows) s h = persist-Yields finalized_table rows s refl h
  run_call-Yields (persist_reorgs rows) s h = persist-Yields reorgs_table rows s refl h
  run_call-Yields (persist_blob_sidecars_events rows) s h =
      persist-Yields blob_events_table rows s refl h
  run_call-Yields (persist_validator_rewards_aggregation m) s h =
      persist-Yields val_rewards_aggregation_table (map (λ e. e.1) m) s refl h
  run_call-Yields (delete_block_metrics slot) s h =
      (delete_all accepts (block_deletes slot) s, refl, delete_all-Kept (block_deletes slot) s h)
  run_call-Yields (delete_state_metrics e) s h =
      (delete_all accepts (state_deletes e) s, refl, delete_all-Kept (state_deletes e) s h)
  run_call-Yields (delete_val_last_status e) s h =
      (Service.delete_val_last_status accepts e s, refl, h)
  run_call-Yields (insert_pool_summary e) s h = (
    (accepts (insert_pools "t_pool_summary" e), send (insert_pools "t_pool_summary" e) s),
    refl,
    h,
  )

  -- The calls one after the other; their errors are only logged.
  unfoldable pub run_calls : List DbCall → DbService → Go DbService
  run_calls [] s = ok s
  run_calls (c ∷ cs) s = run_call accepts c s >>= λ r. run_calls cs r.1

  run_calls-Yields :
      (cs : List DbCall) (s : DbService) → IsMonitored s → Yields IsMonitored (run_calls cs s)
  unfolding run_calls
  run_calls-Yields [] s h = (s, refl, h)
  run_calls-Yields (c ∷ cs) s h =
      Yields-then _ (run_call-Yields c s h) λ r k. run_calls-Yields cs r.1 k

  -- Whatever the server answers, any sequence of the calls that the analyzer makes of a new service
  -- returns: none panics for a table that is not counted. The tables that are counted are then
  -- those of initMonitorMetrics.
  pub run_calls_return : (cs : List DbCall) → Yields IsMonitored (run_calls cs new_db_service)
  unfolding new_db_service init_monitor_metrics
  run_calls_return cs = run_calls-Yields cs new_db_service refl
