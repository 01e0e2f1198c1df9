-- ===== src/Analyzer/ProcessBlock.antt =====
-- pkg/analyzer/process_block.go: what is written of a block.
use eth_cl_state_analyzer.Common.{
  ℕ, ◌+◌, ◌%◌, Bool, true, false, List, [], ◌∷◌, ◌++◌, none, some, map, ltb, length, ◌==◌,
  if◌then◌else◌,
}
use eth_cl_state_analyzer.Common.Go.{Go, ok, fatal, ◌>>=◌}
use eth_cl_state_analyzer.Client.{Deposit, Log}
use eth_cl_state_analyzer.Spec.Slot.{epoch_at_slot}
use eth_cl_state_analyzer.Spec.Block.{AgnosticBlock, Transaction}
use eth_cl_state_analyzer.Spec.Transactions.{
  Eth1Deposit, parse_transactions_from_block, parse_eth1_deposit_from_log, get_tx_hash,
}
use eth_cl_state_analyzer.Analyzer.Calls.{
  DepositRow, persist_blocks, persist_withdrawals, persist_transactions, persist_eth1_deposits,
  persist_blob_sidecars, persist_bls_to_execution_changes, persist_deposits,
}
use eth_cl_state_analyzer.Analyzer.Chain.{
  ChainAnalyzer, Outside, slot_key, call_db, acquire_page, release_page, wait_block,
  store_transactions,
}

abbrev pub process_withdrawals : AgnosticBlock → ChainAnalyzer → ChainAnalyzer
process_withdrawals block s =
    call_db
      (persist_withdrawals (
        map
          (λ item. record {
            slot = block.slot;
            withdrawal_index = item.withdrawal_index;
            validator_index = item.validator_index;
            address = item.address;
            amount = item.amount;
          })
          block.execution_payload.withdrawals))
      s

unfoldable pub process_bls_to_execution_changes : AgnosticBlock → ChainAnalyzer → ChainAnalyzer
unfolding epoch_at_slot
process_bls_to_execution_changes block s =
    if length block.bls_to_execution_changes == 0
    then s
    else call_db
        (persist_bls_to_execution_changes (
          map
            (λ item. record {
              slot = block.slot;
              epoch = epoch_at_slot block.slot;
              validator_index = item.validator_index;
              from_bls_public_key = item.from_bls_pubkey;
              to_execution_address = item.to_execution_address;
            })
            block.bls_to_execution_changes))
        s

-- The loop of `processDeposits`, from an index on. `uint8(i)` wraps around.
unfoldable pub deposit_rows : ℕ → ℕ → List Deposit → List DepositRow
deposit_rows slot i [] = []
deposit_rows slot i (item ∷ items) =
    record {
      slot = slot;
      public_key = item.public_key;
      withdrawal_credentials = item.withdrawal_credentials;
      amount = item.amount;
      signature = item.signature;
      deposit_index = i % 256;
    }
    ∷ deposit_rows slot (i + 1) items

unfoldable pub process_deposits : AgnosticBlock → ChainAnalyzer → ChainAnalyzer
unfolding deposit_rows
process_deposits block s =
    if length block.deposits == 0
    then s
    else call_db (persist_deposits (deposit_rows block.slot 0 block.deposits)) s

-- The loops of `processETH1Deposits` over the logs of a transaction and over the transactions.
unfoldable pub log_deposits : ℕ → Transaction → List Log → Go (List Eth1Deposit)
log_deposits contract tx [] = ok []
log_deposits contract tx (l ∷ ls) =
    let rest = log_deposits contract tx ls in
    elim (l.address == contract) [
      | true ↦ parse_eth1_deposit_from_log l tx >>= λ d. rest >>= λ ds. ok (d ∷ ds)
      | false ↦ rest
    ]

unfoldable pub eth1_deposits : ℕ → List Transaction → Go (List Eth1Deposit)
unfolding log_deposits
eth1_deposits contract [] = ok []
eth1_deposits contract (tx ∷ txs) = log_deposits contract tx tx.receipt_logs >>= λ ds.
    eth1_deposits contract txs >>= λ rest. ok (ds ++ rest)

-- The three steps of `ProcessETH1Data` return whether they had no error.
module _ (o : Outside) where
  unfoldable pub process_eth1_deposits :
      List Transaction → ChainAnalyzer → Go (Bool × ChainAnalyzer)
  unfolding eth1_deposits
  process_eth1_deposits txs s = eth1_deposits s.beacon_contract_address txs >>= λ ds.
      if length ds == 0
      then ok (true, s)
      else ok (o.db_accepts (persist_eth1_deposits ds), call_db (persist_eth1_deposits ds) s)

  -- With the transactions that the block has then.
  unfoldable pub process_transactions :
      AgnosticBlock → List Transaction → ChainAnalyzer → Bool × ChainAnalyzer
  unfolding store_transactions
  process_transactions block txs s =
      let t = record s { download_cache = store_transactions block txs s.download_cache } in
      if length txs == 0
      then (true, t)
      else (o.db_accepts (persist_transactions txs), call_db (persist_transactions txs) t)

  unfoldable pub process_blob_sidecars :
      AgnosticBlock → List Transaction → ChainAnalyzer → Go ChainAnalyzer
  unfolding get_tx_hash
  process_blob_sidecars block txs s = elim (o.request_blob_sidecars block.slot) [
    | none ↦ fatal
    | some blobs ↦ ok (
        if ltb 0 (length blobs)
        then call_db (persist_blob_sidecars (map (get_tx_hash txs) blobs)) s
        else s)
  ]

  -- Up to the first step that fails.
  unfoldable pub process_parsed :
      AgnosticBlock → List Transaction → ChainAnalyzer → Go ChainAnalyzer
  unfolding process_transactions process_eth1_deposits process_blob_sidecars
  process_parsed block txs s =
      let (stored, t) = process_transactions block txs s in
      elim stored [
        | false ↦ ok t
        | true ↦ process_eth1_deposits txs t >>= λ r. elim r.0 [
          | false ↦ ok r.1
          | true ↦ process_blob_sidecars block txs r.1
        ]
      ]

  unfoldable pub process_eth1_data : AgnosticBlock → ChainAnalyzer → Go ChainAnalyzer
  unfolding process_parsed parse_transactions_from_block
  process_eth1_data block s = elim (o.get_block_receipts block) [
    | none ↦ ok s
    | some receipts ↦ elim (parse_transactions_from_block o.unmarshal_binary block receipts) [
      | none ↦ ok s
      | some txs ↦ process_parsed block txs s
    ]
  ]

  -- What `ProcessBlock` does of a block.
  unfoldable pub write_block : AgnosticBlock → ChainAnalyzer → Go ChainAnalyzer
  unfolding process_eth1_data process_bls_to_execution_changes process_deposits
  write_block block s = do
    let t = process_withdrawals block (call_db (persist_blocks (block ∷ [])) s)
    u ← elim t.metrics.transactions [ true ↦ process_eth1_data block t | false ↦ ok t ]
    ok (process_deposits block (process_bls_to_execution_changes block u))

  unfoldable pub process_block : ℕ → ChainAnalyzer → Go ChainAnalyzer
  unfolding write_block
  process_block slot s = elim s.metrics.block [
    | false ↦ ok s
    | true ↦ do
      let t = acquire_page (slot_key slot) s
      block ← wait_block t slot
      u ← write_block block t
      ok (release_page (slot_key slot) u)
  ]
