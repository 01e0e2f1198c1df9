-- ===== src/Db/TransactionTables.antt =====
-- pkg/db: transactions.go, eth1_deposits.go and blob_metrics.go.
use eth_cl_state_analyzer.Common.{[], none, some, ◌%◌, ◌∷◌}
use eth_cl_state_analyzer.Spec.Block.{Transaction}
use eth_cl_state_analyzer.Spec.Transactions.{Eth1Deposit, BlobSidecar}
use eth_cl_state_analyzer.Db.Columns.{Table, f32, hex, str, text, u64, u8}

abbrev pub transactions_table : Table Transaction
transactions_table = record {
  name = "t_transactions";
  query_columns =
      "f_tx_type" ∷ "f_chain_id" ∷ "f_data" ∷ "f_gas" ∷ "f_gas_price" ∷ "f_gas_tip_cap"
      ∷ "f_gas_fee_cap" ∷ "f_value" ∷ "f_nonce" ∷ "f_to" ∷ "f_hash" ∷ "f_size" ∷ "f_slot"
      ∷ "f_el_block_number" ∷ "f_timestamp" ∷ "f_from" ∷ "f_contract_address" ∷ "f_blob_gas_used"
      ∷ "f_blob_gas_price" ∷ "f_blob_gas_limit" ∷ "f_blob_gas_fee_cap" ∷ [];
  fields =
      ("f_tx_type", λ t. u64 t.tx_type)
      ∷ ("f_chain_id", λ t. u64 t.chain_id)
      ∷ ("f_data", λ t. hex t.input_data)
      ∷ ("f_gas", λ t. u64 t.gas)
      ∷ ("f_gas_price", λ t. u64 t.gas_price)
      ∷ ("f_gas_tip_cap", λ t. u64 t.gas_tip_cap)
      ∷ ("f_gas_fee_cap", λ t. u64 t.gas_fee_cap)
      ∷ ("f_value", λ t. f32 t.value)
      ∷ ("f_nonce", λ t. u64 t.nonce)
      ∷ ("f_to", λ t. (elim t.to [ none ↦ text "" | some to ↦ str to ]))
      ∷ ("f_hash", λ t. str t.hash)
      ∷ ("f_size", λ t. u64 t.size)
      ∷ ("f_slot", λ t. u64 t.slot)
      ∷ ("f_el_block_number", λ t. u64 t.block_number)
      ∷ ("f_timestamp", λ t. u64 t.timestamp)
      ∷ ("f_from", λ t. str t.from)
      ∷ ("f_contract_address", λ t. str t.contract_address)
      ∷ ("f_blob_gas_used", λ t. u64 t.blob_gas_used)
      ∷ ("f_blob_gas_price", λ t. u64 t.blob_gas_price)
      ∷ ("f_blob_gas_limit", λ t. u64 t.blob_gas_limit)
      ∷ ("f_blob_gas_fee_cap", λ t. u64 t.blob_gas_fee_cap)
      ∷ [];
}

abbrev pub eth1_deposits_table : Table Eth1Deposit
eth1_deposits_table = record {
  name = "t_eth1_deposits";
  query_columns =
      "f_block_number" ∷ "f_block_hash" ∷ "f_tx_hash" ∷ "f_log_index" ∷ "f_sender" ∷ "f_recipient"
      ∷ "f_gas_used" ∷ "f_gas_price" ∷ "f_deposit_index" ∷ "f_validator_pubkey"
      ∷ "f_withdrawal_credentials" ∷ "f_signature" ∷ "f_amount" ∷ [];
  fields =
      ("f_block_number", λ d. u64 d.block_number)
      ∷ ("f_block_hash", λ d. str d.block_hash)
      ∷ ("f_tx_hash", λ d. str d.tx_hash)
      ∷ ("f_log_index", λ d. u64 d.log_index)
      ∷ ("f_sender", λ d. str d.sender)
      ∷ ("f_recipient", λ d. str d.recipient)
      ∷ ("f_gas_used", λ d. u64 d.gas_used)
      ∷ ("f_gas_price", λ d. u64 d.gas_price)
      ∷ ("f_deposit_index", λ d. u64 d.deposit_index)
      ∷ ("f_validator_pubkey", λ d. hex d.validator_pubkey)
      ∷ ("f_withdrawal_credentials", λ d. hex d.withdrawal_credentials)
      ∷ ("f_signature", λ d. hex d.signature)
      ∷ ("f_amount", λ d. u64 d.amount)
      ∷ [];
}

abbrev pub blob_sidecars_table : Table BlobSidecar
blob_sidecars_table = record {
  name = "t_blob_sidecars";
  query_columns =
      "f_blob_hash" ∷ "f_tx_hash" ∷ "f_slot" ∷ "f_index" ∷ "f_kzg_commitment" ∷ "f_kzg_proof"
      ∷ "f_ending_0s" ∷ [];
  fields =
      ("f_blob_hash", λ b. str b.blob_hash)
      ∷ ("f_tx_hash", λ b. str b.tx_hash)
      ∷ ("f_slot", λ b. u64 b.slot)
      ∷ ("f_index", λ b. u8 (b.blob_index % 256))
      ∷ ("f_kzg_commitment", λ b. str b.kzg_commitment)
      ∷ ("f_kzg_proof", λ b. str b.kzg_proof)
      ∷ ("f_ending_0s", λ b. u64 b.blob_ending_0s)
      ∷ [];
}
