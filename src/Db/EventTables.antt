-- ===== src/Db/EventTables.antt =====
-- pkg/db: finalized.go, reorg.go, head_events.go, blob_events.go and genesis.go.
use eth_cl_state_analyzer.Common.{[], ℕ, ◌%◌, ◌∷◌}
use eth_cl_state_analyzer.Client.{FinalizedEvent, ReorgEvent, HeadEvent, BlobSidecarEvent}
use eth_cl_state_analyzer.Db.Columns.{Table, flag, str, u64, u8}

abbrev pub finalized_table : Table FinalizedEvent
finalized_table = record {
  name = "t_finalized_checkpoint";
  query_columns = "f_id" ∷ "f_block_root" ∷ "f_state_root" ∷ "f_epoch" ∷ [];
  fields =
      ("f_block_root", λ e. str e.block)
      ∷ ("f_state_root", λ e. str e.state)
      ∷ ("f_epoch", λ e. u64 e.epoch)
      ∷ [];
}

abbrev pub reorgs_table : Table ReorgEvent
reorgs_table = record {
  name = "t_reorgs";
  query_columns =
      "f_slot" ∷ "f_depth" ∷ "f_old_head_block_root" ∷ "f_new_head_block_root"
      ∷ "f_old_head_state_root" ∷ "f_new_head_state_root" ∷ [];
  fields =
      ("f_slot", λ e. u64 e.slot)
      ∷ ("f_depth", λ e. u64 e.depth)
      ∷ ("f_old_head_block_root", λ e. str e.old_head_block)
      ∷ ("f_new_head_block_root", λ e. str e.new_head_block)
      ∷ ("f_old_head_state_root", λ e. str e.old_head_state)
      ∷ ("f_new_head_state_root", λ e. str e.new_head_state)
      ∷ [];
}

abbrev pub head_events_table : Table HeadEvent
head_events_table = record {
  name = "t_head_events";
  query_columns =
      "f_slot" ∷ "f_block" ∷ "f_state" ∷ "f_epoch_transition" ∷ "f_current_duty_dependent_root"
      ∷ "f_previous_duty_dependent_root" ∷ "f_arrival_timestamp" ∷ [];
  fields =
      ("f_slot", λ e. u64 e.slot)
      ∷ ("f_block", λ e. str e.block)
      ∷ ("f_state", λ e. str e.state)
      ∷ ("f_epoch_transition", λ e. flag e.epoch_transition)
      ∷ ("f_current_duty_dependent_root", λ e. str e.current_duty_dependent_root)
      ∷ ("f_previous_duty_dependent_root", λ e. str e.previous_duty_dependent_root)
      ∷ ("f_arrival_timestamp", λ e. u64 e.arrival_timestamp)
      ∷ [];
}

abbrev pub blob_events_table : Table BlobSidecarEvent
blob_events_table = record {
  name = "t_blob_sidecars_events";
  query_columns =
      "f_arrival_timestamp_ms" ∷ "f_blob_hash" ∷ "f_slot" ∷ "f_block_root" ∷ "f_index"
      ∷ "f_kzg_commitment" ∷ [];
  fields =
      ("f_arrival_timestamp_ms", λ e. u64 e.timestamp)
      ∷ ("f_blob_hash", λ e. str e.versioned_hash)
      ∷ ("f_slot", λ e. u64 e.slot)
      ∷ ("f_block_root", λ e. str e.block_root)
      ∷ ("f_index", λ e. u8 (e.blob_index % 256))
      ∷ ("f_kzg_commitment", λ e. str e.kzg_commitment)
      ∷ [];
}

abbrev pub genesis_table : Table ℕ
genesis_table = record {
  name = "t_genesis";
  query_columns = "f_genesis_time" ∷ [];
  fields = ("f_genesis_time", λ g. u64 g) ∷ [];
}
