-- ===== src/Spec/Block.antt =====
-- pkg/spec/block.go: the fork-independent block.
use eth_cl_state_analyzer.Common.{ℕ, Bool, false, Option, List, [], ◌∷◌, add64, sub64, mul64}
use eth_cl_state_analyzer.Client.{
  Attestation, Deposit, ProposerSlashing, AttesterSlashing, Withdrawal, BlsChange, Log,
}

-- `AgnosticTransaction`. `receipt_logs` is `Receipt.Logs`.
pub record Transaction : Type 0 where
  pub tx_type : ℕ
  pub chain_id : ℕ
  pub input_data : List ℕ
  pub gas : ℕ
  pub gas_price : ℕ
  pub gas_tip_cap : ℕ
  pub gas_fee_cap : ℕ
  pub value : ℕ
  pub nonce : ℕ
  pub to : Option ℕ
  pub from : ℕ
  pub hash : ℕ
  pub size : ℕ
  pub slot : ℕ
  pub block_number : ℕ
  pub timestamp : ℕ
  pub contract_address : ℕ
  pub blob_hashes : List ℕ
  pub blob_gas_used : ℕ
  pub blob_gas_price : ℕ
  pub blob_gas_limit : ℕ
  pub blob_gas_fee_cap : ℕ
  pub receipt_logs : List Log

-- `AgnosticExecutionPayload`. The raw bytes of a transaction are the number that they spell.
pub record ExecutionPayload : Type 0 where
  pub fee_recipient : ℕ
  pub gas_limit : ℕ
  pub gas_used : ℕ
  pub timestamp : ℕ
  pub base_fee_per_gas : ℕ
  pub block_hash : ℕ
  pub agnostic_transactions : List Transaction
  pub transactions : List ℕ
  pub payload_size : ℕ
  pub block_number : ℕ
  pub withdrawals : List Withdrawal

-- `AgnosticBlock`. `sync_bits_count` is `SyncAggregate.SyncCommitteeBits.Count()`, and `api_reward`
-- is `Reward.Data.Total`; a voluntary exit is a number. Sizes and times stand for what is measured.
pub record AgnosticBlock : Type 0 where
  pub slot : ℕ
  pub state_root : ℕ
  pub root : ℕ
  pub parent_root : ℕ
  pub proposer_index : ℕ
  pub proposed : Bool
  pub attestations : List Attestation
  pub votes_included : ℕ
  pub new_votes_included : ℕ
  pub deposits : List Deposit
  pub proposer_slashings : List ProposerSlashing
  pub attester_slashings : List AttesterSlashing
  pub sync_bits_count : ℕ
  pub execution_payload : ExecutionPayload
  pub api_reward : ℕ
  pub manual_reward : ℕ
  pub bls_to_execution_changes : List BlsChange
  pub graffiti : ℕ
  pub voluntary_exits : List ℕ
  pub ssz_size : ℕ
  pub snappy_size : ℕ
  pub compression_time : ℕ
  pub decompression_time : ℕ

-- `AgnosticBlock{}`
abbrev pub empty_block : AgnosticBlock
empty_block = record {
  slot = 0;
  state_root = 0;
  root = 0;
  parent_root = 0;
  proposer_index = 0;
  proposed = false;
  attestations = [];
  votes_included = 0;
  new_votes_included = 0;
  deposits = [];
  proposer_slashings = [];
  attester_slashings = [];
  sync_bits_count = 0;
  execution_payload = record {
    fee_recipient = 0;
    gas_limit = 0;
    gas_used = 0;
    timestamp = 0;
    base_fee_per_gas = 0;
    block_hash = 0;
    agnostic_transactions = [];
    transactions = [];
    payload_size = 0;
    block_number = 0;
    withdrawals = [];
  };
  api_reward = 0;
  manual_reward = 0;
  bls_to_execution_changes = [];
  graffiti = 0;
  voluntary_exits = [];
  ssz_size = 0;
  snappy_size = 0;
  compression_time = 0;
  decompression_time = 0;
}

-- The loop of `BlockGasFees` over the transactions, with what it has added up.
unfoldable pub sum_fees : ℕ → List Transaction → ℕ → ℕ → ℕ × ℕ
sum_fees base [] reward burn = (reward, burn)
sum_fees base (tx ∷ txs) reward burn =
    sum_fees base txs (add64 reward (mul64 (sub64 tx.gas_price base) tx.gas))
      (add64 burn (mul64 base tx.gas))

-- `BlockGasFees`: the reward and the burnt fees. Its error, with both 0, is only logged.
unfoldable pub block_gas_fees : AgnosticBlock → ℕ × ℕ
unfolding sum_fees
block_gas_fees p =
    sum_fees p.execution_payload.base_fee_per_gas p.execution_payload.agnostic_transactions 0 0
