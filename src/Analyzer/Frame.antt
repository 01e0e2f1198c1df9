-- ===== src/Analyzer/Frame.antt =====
-- pkg/analyzer: what every handler keeps, whatever it returns: a property that calls of the
-- database, the book, the cache, the aggregations and the stop flag do not affect.
use eth_cl_state_analyzer.Common.{ℕ, Bool, true, List}
use eth_cl_state_analyzer.Common.Go.{ok}
use eth_cl_state_analyzer.Common.Returns.{
  Returns, Returns-bind, Returns-after, Returns-ok, Returns-fatal, if-in, branch-in, option-in,
}
use eth_cl_state_analyzer.Utils.Book.{RoutineBook}
use eth_cl_state_analyzer.Analyzer.ChainCache.{ChainCache}
use eth_cl_state_analyzer.Analyzer.Aggregation.{Aggregator}
use eth_cl_state_analyzer.Analyzer.Calls.{DbCall}
use eth_cl_state_analyzer.Analyzer.Chain.{
  ChainAnalyzer, Outside, call_db, acquire_page, release_page, slot_key, wait_block,
}
use eth_cl_state_analyzer.Spec.Block.{AgnosticBlock, Transaction}
use eth_cl_state_analyzer.Spec.Transactions.{parse_transactions_from_block}
use eth_cl_state_analyzer.Analyzer.ProcessBlock.{
  process_bls_to_execution_changes, process_deposits, process_eth1_deposits, process_transactions,
  process_blob_sidecars, process_parsed, process_eth1_data, write_block, process_block,
  eth1_deposits,
}

pub record IsWriteFrame (P : ChainAnalyzer → Type 0) : Type 0 where
  pub call : (c : DbCall) (s : ChainAnalyzer) → P s → P (call_db c s)
  pub cache : (c : ChainCache) (s : ChainAnalyzer) → P s → P (record s { download_cache = c })
  pub stopped : (s : ChainAnalyzer) → P s → P (record s { stop = true })
  pub windows : (a : Aggregator) (s : ChainAnalyzer) → P s → P (record s { aggregator = a })

pub record IsFrame (P : ChainAnalyzer → Type 0) : Type 0 where
  pub writes : IsWriteFrame P
  pub open writes use *
  pub book : (b : RoutineBook) (s : ChainAnalyzer) → P s → P (record s { processer_book = b })

module _ {P : ChainAnalyzer → Type 0} (F : IsWriteFrame P) (o : Outside) where
  process_bls-frame :
      (b : AgnosticBlock) (s : ChainAnalyzer) → P s → P (process_bls_to_execution_changes b s)
  unfolding process_bls_to_execution_changes
  process_bls-frame b s h = if-in P _ _ _ h (F.call _ s h)

  process_deposits-frame : (b : AgnosticBlock) (s : ChainAnalyzer) → P s → P (process_deposits b s)
  unfolding process_deposits
  process_deposits-frame b s h = if-in P _ _ _ h (F.call _ s h)

  process_eth1_deposits-frame :
      (txs : List Transaction) (s : ChainAnalyzer)
      → P s
      → Returns (λ (r : Bool × ChainAnalyzer). P r.1) (process_eth1_deposits o txs s)
  unfolding process_eth1_deposits
  process_eth1_deposits-frame txs s h =
      Returns-after (eth1_deposits s.beacon_contract_address txs) _ λ ds.
        if-in (Returns (λ (r : Bool × ChainAnalyzer). P r.1)) _ _ _ (Returns-ok h)
          (Returns-ok (F.call _ s h))

  process_transactions-frame :
      (b : AgnosticBlock) (txs : List Transaction) (s : ChainAnalyzer)
      → P s
      → P (process_transactions o b txs s).1
  unfolding process_transactions
  process_transactions-frame b txs s h =
      if-in (λ (r : Bool × ChainAnalyzer). P r.1) _ _ _ (F.cache _ s h) (F.call _ _ (F.cache _ s h))

  process_blob_sidecars-frame :
      (b : AgnosticBlock) (txs : List Transaction) (s : ChainAnalyzer)
      → P s
      → Returns P (process_blob_sidecars o b txs s)
  unfolding process_blob_sidecars
  process_blob_sidecars-frame b txs s h =
      option-in (Returns P) (o.request_blob_sidecars b.slot) _ _ Returns-fatal
        λ blobs. Returns-ok (if-in P _ _ _ (F.call _ s h) h)

  process_parsed-frame :
      (b : AgnosticBlock) (txs : List Transaction) (s : ChainAnalyzer)
      → P s
      → Returns P (process_parsed o b txs s)
  unfolding process_parsed
  process_parsed-frame b txs s h =
      let k = process_transactions-frame b txs s h in
      branch-in (Returns P) (process_transactions o b txs s).0 _ _
        (Returns-bind (process_eth1_deposits o txs (process_transactions o b txs s).1) _
          (process_eth1_deposits-frame txs _ k)
          λ r kr.
            branch-in (Returns P) r.0 _ _ (process_blob_sidecars-frame b txs r.1 kr)
              (Returns-ok kr))
        (Returns-ok k)

  process_eth1_data-frame :
      (b : AgnosticBlock) (s : ChainAnalyzer) → P s → Returns P (process_eth1_data o b s)
  unfolding process_eth1_data
  process_eth1_data-frame b s h =
      option-in (Returns P) (o.get_block_receipts b) _ _ (Returns-ok h) λ receipts.
        option-in (Returns P) (parse_transactions_from_block o.unmarshal_binary b receipts) _ _
          (Returns-ok h) λ txs. process_parsed-frame b txs s h

  pub write_block-frame :
      (b : AgnosticBlock) (s : ChainAnalyzer) → P s → Returns P (write_block o b s)
  unfolding write_block
  write_block-frame b s h =
      let k = F.call _ _ (F.call _ s h) in
      Returns-bind _ _
        (branch-in (Returns P) s.metrics.transactions _ _ (process_eth1_data-frame b _ k)
          (Returns-ok k))
        λ u ku. Returns-ok (process_deposits-frame b _ (process_bls-frame b u ku))

module _ {P : ChainAnalyzer → Type 0} (F : IsFrame P) (o : Outside) where
  pub acquire_page-frame : (k : ℕ) (s : ChainAnalyzer) → P s → P (acquire_page k s)
  unfolding acquire_page
  acquire_page-frame k s h = F.book _ s h

  pub process_block-frame :
      (slot : ℕ) (s : ChainAnalyzer) → P s → Returns P (process_block o slot s)
  unfolding process_block
  process_block-frame slot s h =
      branch-in (Returns P) s.metrics.block _ _
        (Returns-after (wait_block (acquire_page (slot_key slot) s) slot) _ λ b.
          Returns-bind _ (λ x. ok (release_page (slot_key slot) x))
            (write_block-frame F.writes o b (acquire_page (slot_key slot) s)
              (acquire_page-frame (slot_key slot) s h))
            λ u hu. Returns-ok (F.book _ u hu))
        (Returns-ok h)
