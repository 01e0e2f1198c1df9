-- ===== src/Db/Aligned.antt =====
-- pkg/db: the input of a table against the rows that it is given and the query that it goes with.
use Prim.Native.String.{String}
use mathlib.Core.List.{append-nil, append_assoc}
use eth_cl_state_analyzer.Common.{◌≡◌, refl, sym, ◌∙◌, ap, List, [], ◌∷◌, ◌++◌, map}
use eth_cl_state_analyzer.Client.{FinalizedEvent}
use eth_cl_state_analyzer.Db.BlockTables.{
  blocks_table, orphans_table, withdrawals_table, deposits_table, bls_to_execution_changes_table,
}
use eth_cl_state_analyzer.Db.TransactionTables.{
  transactions_table, eth1_deposits_table, blob_sidecars_table,
}
use eth_cl_state_analyzer.Db.EpochTables.{
  epochs_table, proposer_duties_table, val_last_status_table, block_rewards_table, slashings_table,
}
use eth_cl_state_analyzer.Db.RewardTables.{val_rewards_table, val_rewards_aggregation_table}
use eth_cl_state_analyzer.Db.EventTables.{
  finalized_table, reorgs_table, head_events_table, blob_events_table, genesis_table,
}
use eth_cl_state_analyzer.Db.Columns.{
  Cell, Column, Table, no_rows, append_row, append_rows, input_of,
}

abbrev Fields : Type 0 → Type 0
Fields A = List (String × (A → Cell))

module _ {A : Type 0} where
  -- A column for each field, with a cell of each item.
  abbrev pub columns_of : Fields A → List A → List Column
  columns_of fields items = map (λ f. record { name = f.0; cells = map f.1 items }) fields

  map-append : {B : Type 0} (f : A → B) (xs ys : List A) → map f (xs ++ ys) ≡ map f xs ++ map f ys
  map-append f [] ys = refl
  map-append f (x ∷ xs) ys = ap (λ l. f x ∷ l) (map-append f xs ys)

  append_row-columns :
      (fields : Fields A) (item : A) (items : List A)
      → append_row fields item (columns_of fields items) ≡ columns_of fields (items ++ item ∷ [])
  unfolding append_row
  append_row-columns [] item items = refl
  append_row-columns ((name, cell) ∷ fields) item items =
      let cells : map cell items ++ cell item ∷ [] ≡ map cell (items ++ item ∷ []) =
        sym (map-append cell items (item ∷ [])) in
      ap
        (λ (c : List Cell).
          record { name = name; cells = c } ∷ append_row fields item (columns_of fields items))
        cells
      ∙ ap (λ (l : List Column). record { name = name; cells = map cell (items ++ item ∷ []) } ∷ l)
          (append_row-columns fields item items)

  append_rows-columns :
      (fields : Fields A) (items before : List A)
      → append_rows fields items (columns_of fields before) ≡ columns_of fields (before ++ items)
  unfolding append_rows
  append_rows-columns fields [] before = ap (columns_of fields) (sym (append-nil before))
  append_rows-columns fields (item ∷ items) before =
      ap (append_rows fields items) (append_row-columns fields item before)
      ∙ append_rows-columns fields items (before ++ item ∷ [])
      ∙ ap (columns_of fields) (append_assoc before (item ∷ []) items)

  no_rows-columns : (fields : Fields A) → no_rows fields ≡ columns_of fields []
  unfolding no_rows
  no_rows-columns [] = refl
  no_rows-columns ((name, cell) ∷ fields) =
      ap (λ l. record { name = name; cells = [] } ∷ l) (no_rows-columns fields)

  -- The input of a table has a column for each field of the table, in order, and the column has the
  -- field's cell of each item, in order.
  pub input_of_lem : (t : Table A) (items : List A) → input_of t items ≡ columns_of t.fields items
  unfolding input_of
  input_of_lem t items =
      ap (append_rows t.fields items) (no_rows-columns t.fields)
      ∙ append_rows-columns t.fields items []

-- The tables that `DBService` writes, but for that of the finalized checkpoints.
pub data IsWritten : (A : Type 0) → Table A → Type 1 where
  blocks : IsWritten _ blocks_table
  orphans : IsWritten _ orphans_table
  withdrawals : IsWritten _ withdrawals_table
  deposits : IsWritten _ deposits_table
  bls_to_execution_changes : IsWritten _ bls_to_execution_changes_table
  transactions : IsWritten _ transactions_table
  eth1_deposits : IsWritten _ eth1_deposits_table
  blob_sidecars : IsWritten _ blob_sidecars_table
  epochs : IsWritten _ epochs_table
  proposer_duties : IsWritten _ proposer_duties_table
  val_last_status : IsWritten _ val_last_status_table
  block_rewards : IsWritten _ block_rewards_table
  slashings : IsWritten _ slashings_table
  val_rewards : IsWritten _ val_rewards_table
  val_rewards_aggregation : IsWritten _ val_rewards_aggregation_table
  reorgs : IsWritten _ reorgs_table
  head_events : IsWritten _ head_events_table
  blob_events : IsWritten _ blob_events_table
  genesis : IsWritten _ genesis_table

query-fields :
    {A : Type 0} {t : Table A} → IsWritten A t → t.query_columns ≡ map (λ f. f.0) t.fields
query-fields blocks = refl
query-fields orphans = refl
query-fields withdrawals = refl
query-fields deposits = refl
query-fields bls_to_execution_changes = refl
query-fields transactions = refl
query-fields eth1_deposits = refl
query-fields blob_sidecars = refl
query-fields epochs = refl
query-fields proposer_duties = refl
query-fields val_last_status = refl
query-fields block_rewards = refl
query-fields slashings = refl
query-fields val_rewards = refl
query-fields val_rewards_aggregation = refl
query-fields reorgs = refl
query-fields head_events = refl
query-fields blob_events = refl
query-fields genesis = refl

names-columns :
    {A : Type 0} (fields : Fields A) (items : List A)
    → map (λ (c : Column). c.name) (columns_of fields items) ≡ map (λ f. f.0) fields
names-columns [] items = refl
names-columns (f ∷ fields) items = ap (λ l. f.0 ∷ l) (names-columns fields items)

-- For every table but that of the finalized checkpoints, the columns of the input are those that the
-- INSERT query names, in the same order, whatever the rows are.
pub query_matches_input :
    {A : Type 0} {t : Table A}
    → IsWritten A t
    → (items : List A) → map (λ (c : Column). c.name) (input_of t items) ≡ t.query_columns
query_matches_input {t} w items =
    ap (map (λ (c : Column). c.name)) (input_of_lem t items)
    ∙ names-columns t.fields items
    ∙ sym (query-fields w)

-- The query of the finalized checkpoints names one column more than the input has, `f_id`.
pub finalized_query_has_id :
    (items : List FinalizedEvent)
    → finalized_table.query_columns
      ≡ "f_id" ∷ map (λ (c : Column). c.name) (input_of finalized_table items)
finalized_query_has_id items =
    ap (λ l. "f_id" ∷ l)
      (sym (names-columns finalized_table.fields items)
        ∙ sym (ap (map (λ (c : Column). c.name)) (input_of_lem finalized_table items)))
