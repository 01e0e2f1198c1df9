-- ===== src/Spec/Forks.antt =====
-- pkg/spec/block.go: the block of each fork. `compress_consensus_signed_block` (pkg/utils/snappy.go)
-- stands for what the libraries for SSZ and snappy and the clock measure.
use eth_cl_state_analyzer.Common.{ℕ, zero, suc, ◌+◌, ◌*◌, true, List, [], ◌∷◌, Option, none, some}
use eth_cl_state_analyzer.Common.Go.{Go, ok, fatal, ◌>>=◌}
use eth_cl_state_analyzer.Client.{SignedBlock, phase0, altair, bellatrix, capella, deneb, unknown}
use eth_cl_state_analyzer.Spec.Block.{AgnosticBlock, ExecutionPayload, empty_block}

-- `utils.CompressionMetrics`
pub record CompressionMetrics : Type 0 where
  pub ssz_size : ℕ
  pub snappy_size : ℕ
  pub compression_time : ℕ
  pub decompression_time : ℕ

-- `binary.BigEndian.Uint64`, with n = 8: the first bytes, the most significant one first. The array
-- of 32 bytes has them.
unfoldable pub big_endian : ℕ → ℕ → List ℕ → ℕ
big_endian acc zero bytes = acc
big_endian acc (suc n) [] = acc
big_endian acc (suc n) (b ∷ bs) = big_endian (acc * 256 + b) n bs

-- The fields that the constructors of all forks set alike. The others are zero.
unfoldable pub base_block : CompressionMetrics → SignedBlock → ℕ → AgnosticBlock
base_block m b root = record empty_block {
  slot = b.slot;
  root = root;
  parent_root = b.parent_root;
  proposer_index = b.proposer_index;
  graffiti = b.graffiti;
  proposed = true;
  attestations = b.attestations;
  deposits = b.deposits;
  proposer_slashings = b.proposer_slashings;
  attester_slashings = b.attester_slashings;
  voluntary_exits = b.voluntary_exits;
  ssz_size = m.ssz_size;
  snappy_size = m.snappy_size;
  compression_time = m.compression_time;
  decompression_time = m.decompression_time;
}

-- `AgnosticExecutionPayload` of the versions that have one, with their base fee and withdrawals.
unfoldable pub payload_of : SignedBlock → ℕ → ExecutionPayload
payload_of b base_fee = record empty_block.execution_payload {
  fee_recipient = b.fee_recipient;
  gas_limit = b.gas_limit;
  gas_used = b.gas_used;
  timestamp = b.timestamp;
  base_fee_per_gas = base_fee;
  block_hash = b.block_hash;
  transactions = b.transactions;
  block_number = b.block_number;
}

-- `block.Root()`, whose error ends the process.
unfoldable pub root_of : SignedBlock → Go ℕ
root_of b = elim b.root [ none ↦ fatal | some r ↦ ok r ]

module _ (compress_consensus_signed_block : SignedBlock → CompressionMetrics) where
  -- `NewPhase0Block`
  unfoldable pub new_phase0_block : SignedBlock → Go AgnosticBlock
  unfolding base_block root_of
  new_phase0_block b =
      root_of b >>= λ root. ok (base_block (compress_consensus_signed_block b) b root)

  -- `NewAltairBlock`
  unfoldable pub new_altair_block : SignedBlock → Go AgnosticBlock
  unfolding base_block root_of
  new_altair_block b = root_of b >>= λ root.
      ok (record (base_block (compress_consensus_signed_block b) b root) {
        sync_bits_count = b.sync_bits_count;
      })

  -- `NewBellatrixBlock`
  unfoldable pub new_bellatrix_block : SignedBlock → Go AgnosticBlock
  unfolding base_block root_of payload_of big_endian
  new_bellatrix_block b = root_of b >>= λ root.
      ok (record (base_block (compress_consensus_signed_block b) b root) {
        sync_bits_count = b.sync_bits_count;
        execution_payload = payload_of b (big_endian 0 8 b.base_fee_bytes);
      })

  -- `NewCapellaBlock`
  unfoldable pub new_capella_block : SignedBlock → Go AgnosticBlock
  unfolding base_block root_of payload_of big_endian
  new_capella_block b = root_of b >>= λ root.
      ok (record (base_block (compress_consensus_signed_block b) b root) {
        sync_bits_count = b.sync_bits_count;
        execution_payload = record (payload_of b (big_endian 0 8 b.base_fee_bytes)) {
          withdrawals = b.withdrawals;
        };
        bls_to_execution_changes = b.bls_to_execution_changes;
      })

  -- `NewDenebBlock`
  unfoldable pub new_deneb_block : SignedBlock → Go AgnosticBlock
  unfolding base_block root_of payload_of
  new_deneb_block b = root_of b >>= λ root.
      ok (record (base_block (compress_consensus_signed_block b) b root) {
        sync_bits_count = b.sync_bits_count;
        execution_payload = record (payload_of b b.base_fee) { withdrawals = b.withdrawals };
        bls_to_execution_changes = b.bls_to_execution_changes;
      })

  -- `GetCustomBlock`: `none` is the error for a version that is not known.
  unfoldable pub get_custom_block : SignedBlock → Go (Option AgnosticBlock)
  unfolding new_phase0_block new_altair_block new_bellatrix_block new_capella_block new_deneb_block
  get_custom_block b = elim b.version [
    | phase0 ↦ new_phase0_block b >>= λ c. ok (some c)
    | altair ↦ new_altair_block b >>= λ c. ok (some c)
    | bellatrix ↦ new_bellatrix_block b >>= λ c. ok (some c)
    | capella ↦ new_capella_block b >>= λ c. ok (some c)
    | deneb ↦ new_deneb_block b >>= λ c. ok (some c)
    | unknown ↦ ok none
  ]
