-- ===== src/Db/BlockTables.antt =====
-- pkg/db: the tables of blocks (block_metrics.go, orphans.go), withdrawals.go, deposits.go and
-- bls_to_execution_changes.go.
use eth_cl_state_analyzer.Common.{[], length, ◌/◌, ◌∷◌}
use eth_cl_state_analyzer.Spec.Constants.{slots_per_epoch}
use eth_cl_state_analyzer.Spec.Block.{AgnosticBlock}
use eth_cl_state_analyzer.Analyzer.Calls.{WithdrawalRow, DepositRow, BlsChangeRow}
use eth_cl_state_analyzer.Db.Columns.{Table, f32, flag, str, u64, u8}

abbrev pub blocks_table : Table AgnosticBlock
blocks_table = record {
  name = "t_block_metrics";
  query_columns =
      "f_timestamp" ∷ "f_epoch" ∷ "f_slot" ∷ "f_graffiti" ∷ "f_proposer_index" ∷ "f_proposed"
      ∷ "f_attestations" ∷ "f_deposits" ∷ "f_proposer_slashings" ∷ "f_attester_slashings"
      ∷ "f_voluntary_exits" ∷ "f_sync_bits" ∷ "f_el_fee_recp" ∷ "f_el_gas_limit" ∷ "f_el_gas_used"
      ∷ "f_el_base_fee_per_gas" ∷ "f_el_block_hash" ∷ "f_el_transactions" ∷ "f_el_block_number"
      ∷ "f_ssz_size_bytes" ∷ "f_snappy_size_bytes" ∷ "f_compression_time_ms"
      ∷ "f_decompression_time_ms" ∷ "f_payload_size_bytes" ∷ [];
  fields =
      ("f_timestamp", λ b. u64 b.execution_payload.timestamp)
      ∷ ("f_epoch", λ b. u64 (b.slot / slots_per_epoch))
      ∷ ("f_slot", λ b. u64 b.slot)
      ∷ ("f_graffiti", λ b. str b.graffiti)
      ∷ ("f_proposer_index", λ b. u64 b.proposer_index)
      ∷ ("f_proposed", λ b. flag b.proposed)
      ∷ ("f_attestations", λ b. u64 (length b.attestations))
      ∷ ("f_deposits", λ b. u64 (length b.deposits))
      ∷ ("f_proposer_slashings", λ b. u64 (length b.proposer_slashings))
      ∷ ("f_attester_slashings", λ b. u64 (length b.attester_slashings))
      ∷ ("f_voluntary_exits", λ b. u64 (length b.voluntary_exits))
      ∷ ("f_sync_bits", λ b. u64 b.sync_bits_count)
      ∷ ("f_el_fee_recp", λ b. str b.execution_payload.fee_recipient)
      ∷ ("f_el_gas_limit", λ b. u64 b.execution_payload.gas_limit)
      ∷ ("f_el_gas_used", λ b. u64 b.execution_payload.gas_used)
      ∷ ("f_el_base_fee_per_gas", λ b. u64 b.execution_payload.base_fee_per_gas)
      ∷ ("f_el_block_hash", λ b. str b.execution_payload.block_hash)
      ∷ ("f_el_transactions", λ b. u64 (length b.execution_payload.transactions))
      ∷ ("f_el_block_number", λ b. u64 b.execution_payload.block_number)
      ∷ ("f_ssz_size_bytes", λ b. f32 b.ssz_size)
      ∷ ("f_snappy_size_bytes", λ b. f32 b.snappy_size)
      ∷ ("f_compression_time_ms", λ b. f32 b.compression_time)
      ∷ ("f_decompression_time_ms", λ b. f32 b.decompression_time)
      ∷ ("f_payload_size_bytes", λ b. u64 b.execution_payload.payload_size)
      ∷ [];
}

abbrev pub orphans_table : Table AgnosticBlock
orphans_table = record {
  name = "t_orphans";
  query_columns =
      "f_timestamp" ∷ "f_epoch" ∷ "f_slot" ∷ "f_graffiti" ∷ "f_proposer_index" ∷ "f_proposed"
      ∷ "f_attestations" ∷ "f_deposits" ∷ "f_proposer_slashings" ∷ "f_attester_slashings"
      ∷ "f_voluntary_exits" ∷ "f_sync_bits" ∷ "f_el_fee_recp" ∷ "f_el_gas_limit" ∷ "f_el_gas_used"
      ∷ "f_el_base_fee_per_gas" ∷ "f_el_block_hash" ∷ "f_el_transactions" ∷ "f_el_block_number"
      ∷ "f_ssz_size_bytes" ∷ "f_snappy_size_bytes" ∷ "f_compression_time_ms"
      ∷ "f_decompression_time_ms" ∷ "f_payload_size_bytes" ∷ [];
  fields =
      ("f_timestamp", λ b. u64 b.execution_payload.timestamp)
      ∷ ("f_epoch", λ b. u64 (b.slot / slots_per_epoch))
      ∷ ("f_slot", λ b. u64 b.slot)
      ∷ ("f_graffiti", λ b. str b.graffiti)
      ∷ ("f_proposer_index", λ b. u64 b.proposer_index)
      ∷ ("f_proposed", λ b. flag b.proposed)
      ∷ ("f_attestations", λ b. u64 (length b.attestations))
      ∷ ("f_deposits", λ b. u64 (length b.deposits))
      ∷ ("f_proposer_slashings", λ b. u64 (length b.proposer_slashings))
      ∷ ("f_attester_slashings", λ b. u64 (length b.attester_slashings))
      ∷ ("f_voluntary_exits", λ b. u64 (length b.voluntary_exits))
      ∷ ("f_sync_bits", λ b. u64 b.sync_bits_count)
      ∷ ("f_el_fee_recp", λ b. str b.execution_payload.fee_recipient)
      ∷ ("f_el_gas_limit", λ b. u64 b.execution_payload.gas_limit)
      ∷ ("f_el_gas_used", λ b. u64 b.execution_payload.gas_used)
      ∷ ("f_el_base_fee_per_gas", λ b. u64 b.execution_payload.base_fee_per_gas)
      ∷ ("f_el_block_hash", λ b. str b.execution_payload.block_hash)
      ∷ ("f_el_transactions", λ b. u64 (length b.execution_payload.transactions))
      ∷ ("f_el_block_number", λ b. u64 b.execution_payload.block_number)
      ∷ ("f_ssz_size_bytes", λ b. f32 b.ssz_size)
      ∷ ("f_snappy_size_bytes", λ b. f32 b.snappy_size)
      ∷ ("f_compression_time_ms", λ b. f32 b.compression_time)
      ∷ ("f_decompression_time_ms", λ b. f32 b.decompression_time)
      ∷ ("f_payload_size_bytes", λ b. u64 b.execution_payload.payload_size)
      ∷ [];
}

abbrev pub withdrawals_table : Table WithdrawalRow
withdrawals_table = record {
  name = "t_withdrawals";
  query_columns = "f_slot" ∷ "f_index" ∷ "f_val_idx" ∷ "f_address" ∷ "f_amount" ∷ [];
  fields =
      ("f_slot", λ w. u64 w.slot)
      ∷ ("f_index", λ w. u64 w.withdrawal_index)
      ∷ ("f_val_idx", λ w. u64 w.validator_index)
      ∷ ("f_address", λ w. str w.address)
      ∷ ("f_amount", λ w. u64 w.amount)
      ∷ [];
}

abbrev pub deposits_table : Table DepositRow
deposits_table = record {
  name = "t_deposits";
  query_columns =
      "f_slot" ∷ "f_public_key" ∷ "f_withdrawal_credentials" ∷ "f_amount" ∷ "f_signature"
      ∷ "f_index" ∷ [];
  fields =
      ("f_slot", λ d. u64 d.slot)
      ∷ ("f_public_key", λ d. str d.public_key)
      ∷ ("f_withdrawal_credentials", λ d. str d.withdrawal_credentials)
      ∷ ("f_amount", λ d. u64 d.amount)
      ∷ ("f_signature", λ d. str d.signature)
      ∷ ("f_index", λ d. u8 d.deposit_index)
      ∷ [];
}

abbrev pub bls_to_execution_changes_table : Table BlsChangeRow
bls_to_execution_changes_table = record {
  name = "t_bls_to_execution_changes";
  query_columns =
      "f_slot" ∷ "f_epoch" ∷ "f_validator_index" ∷ "f_from_bls_pubkey" ∷ "f_to_execution_address"
      ∷ [];
  fields =
      ("f_slot", λ c. u64 c.slot)
      ∷ ("f_epoch", λ c. u64 c.epoch)
      ∷ ("f_validator_index", λ c. u64 c.validator_index)
      ∷ ("f_from_bls_pubkey", λ c. str c.from_bls_public_key)
      ∷ ("f_to_execution_address", λ c. str c.to_execution_address)
      ∷ [];
}
