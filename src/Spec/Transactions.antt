-- ===== src/Spec/Transactions.antt =====
-- pkg/spec/transactions.go, eth1_deposit.go and blob.go: what is read off the transactions of a
-- block. Strings of hashes and keys, which are only compared or stored, are numbers.
use eth_cl_state_analyzer.Common.{
  ℕ, ◌*◌, ◌+◌, zero, suc, List, [], ◌∷◌, Option, none, some, ◌==◌, if◌then◌else◌,
}
use eth_cl_state_analyzer.Common.Go.{Go, ok, panic, ◌>>=◌}
use eth_cl_state_analyzer.Client.{Log, Receipt, EthTransaction}
use eth_cl_state_analyzer.Spec.Block.{Transaction, AgnosticBlock}

-- `ParseTransactionFromReceipt`, with the receipt that was found; `none` is its error.
unfoldable pub parse_transaction_from_receipt :
    EthTransaction → Receipt → ℕ → ℕ → ℕ → Option Transaction
parse_transaction_from_receipt tx receipt slot block_number timestamp = elim tx.sender [
  | none ↦ none
  | some from ↦ some (record {
    tx_type = tx.tx_type;
    chain_id = tx.chain_id;
    input_data = tx.input_data;
    gas_tip_cap = tx.gas_tip_cap;
    gas_fee_cap = tx.gas_fee_cap;
    value = tx.value;
    size = tx.size;
    gas = receipt.gas_used;
    gas_price = receipt.effective_gas_price;
    nonce = tx.nonce;
    to = tx.to;
    from = from;
    hash = tx.hash;
    slot = slot;
    block_number = block_number;
    timestamp = timestamp;
    contract_address = receipt.contract_address;
    blob_hashes = tx.blob_hashes;
    blob_gas_used = (if tx.tx_type == 3 then receipt.blob_gas_used else 0);
    blob_gas_price = (if tx.tx_type == 3 then receipt.blob_gas_price else 0);
    blob_gas_limit = (if tx.tx_type == 3 then tx.blob_gas else 0);
    blob_gas_fee_cap = (if tx.tx_type == 3 then tx.blob_gas_fee_cap else 0);
    receipt_logs = receipt.logs;
  })
]

-- The first receipt of a hash.
unfoldable pub find_receipt : ℕ → List Receipt → Option Receipt
find_receipt hash [] = none
find_receipt hash (r ∷ rs) = if r.tx_hash == hash then some r else find_receipt hash rs

-- `ParseTransactionsFromBlock`, given what `UnmarshalBinary` makes of the bytes of a transaction.
module _ (unmarshal_binary : ℕ → Option EthTransaction) (block : AgnosticBlock) where
  -- A transaction of which no receipt is found is left out.
  unfoldable pub parse_one : List Receipt → EthTransaction → Option (Option Transaction)
  unfolding find_receipt parse_transaction_from_receipt
  parse_one receipts tx = elim (find_receipt tx.hash receipts) [
    | none ↦ some none
    | some r ↦
        elim (parse_transaction_from_receipt tx r block.slot block.execution_payload.block_number
          block.execution_payload.timestamp) [ none ↦ none | some t ↦ some (some t) ]
  ]

  unfoldable pub parse_all : List Receipt → List ℕ → Option (List Transaction)
  unfolding parse_one
  parse_all receipts [] = some []
  parse_all receipts (raw ∷ raws) =
      let rest = parse_all receipts raws in
      elim (unmarshal_binary raw) [
        | none ↦ none
        | some tx ↦ elim (parse_one receipts tx) [
          | none ↦ none
          | some none ↦ rest
          | some (some t) ↦ elim rest [ none ↦ none | some ts ↦ some (t ∷ ts) ]
        ]
      ]

  unfoldable pub parse_transactions_from_block : List Receipt → Option (List Transaction)
  unfolding parse_all
  parse_transactions_from_block receipts = parse_all receipts block.execution_payload.transactions

-- `xs[from:from+n]`
unfoldable pub slice : List ℕ → ℕ → ℕ → Go (List ℕ)
slice xs zero zero = ok []
slice [] from n = panic
slice (x ∷ xs) zero (suc n) = slice xs zero n >>= λ ys. ok (x ∷ ys)
slice (x ∷ xs) (suc from) n = slice xs from n

-- `binary.LittleEndian.Uint64`
unfoldable pub little_endian : List ℕ → ℕ
little_endian [] = 0
little_endian (b ∷ bs) = b + 256 * little_endian bs

pub record Eth1Deposit : Type 0 where
  pub block_number : ℕ
  pub block_hash : ℕ
  pub tx_hash : ℕ
  pub log_index : ℕ
  pub sender : ℕ
  pub recipient : ℕ
  pub gas_used : ℕ
  pub gas_price : ℕ
  pub deposit_index : ℕ
  pub validator_pubkey : List ℕ
  pub withdrawal_credentials : List ℕ
  pub signature : List ℕ
  pub amount : ℕ

-- `ParseETH1DepositFromLog`, which panics for a transaction without a recipient. A key is the bytes whose hexadecimal string the source stores.
unfoldable pub parse_eth1_deposit_from_log : Log → Transaction → Go Eth1Deposit
unfolding slice little_endian
parse_eth1_deposit_from_log log tx = do
  to ← elim tx.to [ none ↦ panic | some a ↦ ok a ]
  deposit_index ← slice log.log_data 544 8
  key ← slice log.log_data 192 48
  credentials ← slice log.log_data 288 32
  signature ← slice log.log_data 416 96
  amount ← slice log.log_data 352 8
  ok (record {
    block_number = tx.block_number;
    block_hash = log.log_block_hash;
    tx_hash = tx.hash;
    log_index = log.log_index;
    sender = tx.from;
    recipient = to;
    gas_used = tx.gas;
    gas_price = tx.gas_price;
    deposit_index = little_endian deposit_index;
    validator_pubkey = key;
    withdrawal_credentials = credentials;
    signature = signature;
    amount = little_endian amount;
  })

-- `AgnosticBlobSidecar`: the fields that are written.
pub record BlobSidecar : Type 0 where
  pub slot : ℕ
  pub tx_hash : ℕ
  pub blob_hash : ℕ
  pub blob_index : ℕ
  pub kzg_commitment : ℕ
  pub kzg_proof : ℕ
  pub blob_ending_0s : ℕ

-- The loop of `GetTxHash` over the blobs of a transaction.
unfoldable pub scan_hashes : ℕ → List ℕ → BlobSidecar → BlobSidecar
scan_hashes tx [] b = b
scan_hashes tx (h ∷ hs) b =
    scan_hashes tx hs (if h == b.blob_hash then record b { tx_hash = tx } else b)

unfoldable pub get_tx_hash : List Transaction → BlobSidecar → BlobSidecar
unfolding scan_hashes
get_tx_hash [] b = b
get_tx_hash (tx ∷ txs) b = get_tx_hash txs (scan_hashes tx.hash tx.blob_hashes b)
