-- ===== src/Analyzer/Chain.antt =====
-- pkg/analyzer/chain_analyzer.go: `ChainAnalyzer`, what its handlers ask of the world outside, and
-- the steps they share. A handler returns the state that it leaves. Where it waits for a key that
-- the cache does not have, it returns `waits`: it goes on only after another goroutine set the key.
use eth_cl_state_analyzer.Common.{
  ℕ, ◌+◌, ◌*◌, Bool, ◌&&◌, List, [], ◌∷◌, ◌++◌, Option, none, some, map, ◌==◌, if◌then◌else◌,
}
use eth_cl_state_analyzer.Common.Go.{Go, ok, waits, fatal}
use eth_cl_state_analyzer.Client.{Receipt, EthTransaction, MathPackage}
use eth_cl_state_analyzer.Spec.Block.{AgnosticBlock, Transaction}
use eth_cl_state_analyzer.Spec.Transactions.{BlobSidecar}
use eth_cl_state_analyzer.Spec.State.{AgnosticState}
use eth_cl_state_analyzer.Relay.Bids.{RelayClient}
use eth_cl_state_analyzer.Utils.Book.{RoutineBook, acquire_or_time_out, free_page}
use eth_cl_state_analyzer.Analyzer.AgnosticMap.{lookup, insert}
use eth_cl_state_analyzer.Analyzer.ChainCache.{ChainCache}
use eth_cl_state_analyzer.Analyzer.Aggregation.{Aggregator}
use eth_cl_state_analyzer.Analyzer.Calls.{DbCall}

-- `db.DBMetrics`
pub record DbMetrics : Type 0 where
  pub block : Bool
  pub epoch : Bool
  pub validator_rewards : Bool
  pub api_rewards : Bool
  pub transactions : Bool

-- `config.DownloadMode`; a mode of another name starts no routine.
pub data DownloadMode : Type 0 where
  historical finalized other : DownloadMode

pub record ChainAnalyzer : Type 0 where
  pub beacon_contract_address : ℕ
  pub init_slot : ℕ
  pub final_slot : ℕ
  pub download_tasks : List ℕ  -- what has been sent to `downloadTaskChan`
  pub stop : Bool
  pub download_mode : DownloadMode
  pub metrics : DbMetrics
  pub processer_book : RoutineBook
  pub download_cache : ChainCache
  pub aggregator : Aggregator
  pub db_calls : List DbCall  -- the calls of `dbClient`, in order

-- What the handlers ask for, as it answers while one of them runs. `none` is an error.
pub record Outside : Type 0 where
  pub request_beacon_block : ℕ → Option AgnosticBlock
  pub request_beacon_state : ℕ → Option AgnosticState
  pub request_state_root : ℕ → ℕ
  pub request_block_root : ℕ → ℕ
  pub request_finalized_slot : Option ℕ  -- the slot of `RequestFinalizedBeaconBlock`
  pub request_current_head : ℕ
  pub get_block_receipts : AgnosticBlock → Option (List Receipt)
  pub unmarshal_binary : ℕ → Option EthTransaction
  pub request_blob_sidecars : ℕ → Option (List BlobSidecar)
  pub relays : List RelayClient
  pub db_accepts : DbCall → Bool  -- whether a call of the database returns no error
  pub retrieve_last_slot : Option ℕ
  pub math : MathPackage

-- The keys of the pages, "slot=…" and "epoch=…": the even and the odd numbers.
abbrev pub slot_key : ℕ → ℕ
slot_key slot = 2 * slot

abbrev pub epoch_key : ℕ → ℕ
epoch_key epoch = 2 * epoch + 1

-- A call of the database, whatever it returns.
abbrev pub call_db : DbCall → ChainAnalyzer → ChainAnalyzer
call_db call s = record s { db_calls = s.db_calls ++ call ∷ [] }

-- A call of the database whose error ends the process.
abbrev pub call_or_fatal : Outside → DbCall → ChainAnalyzer → Go ChainAnalyzer
call_or_fatal o call s = if o.db_accepts call then ok (call_db call s) else fatal

-- `processerBook.Acquire`, which returns after a minute, with a page or without.
unfoldable pub acquire_page : ℕ → ChainAnalyzer → ChainAnalyzer
unfolding acquire_or_time_out
acquire_page key s = record s { processer_book = acquire_or_time_out s.processer_book key }

-- `processerBook.FreePage`
abbrev pub release_page : ℕ → ChainAnalyzer → ChainAnalyzer
release_page key s = record s { processer_book = free_page s.processer_book key }

-- `BlockHistory.Wait` and `StateHistory.Wait`
unfoldable pub await {ℓ} : {V : Type ℓ} → Option V → Go V
await none = waits
await (some v) = ok v

abbrev pub wait_block : ChainAnalyzer → ℕ → Go AgnosticBlock
wait_block s slot = await (lookup slot s.download_cache.block_history.m)

abbrev pub wait_state : ChainAnalyzer → ℕ → Go AgnosticState
wait_state s epoch = await (lookup epoch s.download_cache.state_history.m)

-- What is written through the pointer to a state of the history.
unfoldable pub put_state : ℕ → AgnosticState → ChainAnalyzer → ChainAnalyzer
unfolding insert
put_state epoch state s = record s {
  download_cache = record s.download_cache {
    state_history = record s.download_cache.state_history {
      m = insert epoch state s.download_cache.state_history.m;
    };
  };
}

-- A block with other transactions.
abbrev pub with_transactions : List Transaction → AgnosticBlock → AgnosticBlock
with_transactions txs b = record b {
  execution_payload = record b.execution_payload { agnostic_transactions = txs };
}

-- The same block: states hold pointers to the blocks of the block history.
abbrev pub same_block : AgnosticBlock → AgnosticBlock → Bool
same_block b c = b.slot == c.slot && b.root == c.root

abbrev pub share_in_blocks :
    AgnosticBlock → List Transaction → List AgnosticBlock → List AgnosticBlock
share_in_blocks b txs = map (λ c. if same_block b c then with_transactions txs c else c)

-- `block.ExecutionPayload.AgnosticTransactions = txs` for a block of the history, which is seen
-- through the pointers of the states too.
unfoldable pub store_transactions : AgnosticBlock → List Transaction → ChainCache → ChainCache
store_transactions b txs s = record s {
  block_history = record s.block_history {
    m =
        map (λ e. (e.0, if same_block b e.1 then with_transactions txs e.1 else e.1))
          s.block_history.m;
  };
  state_history = record s.state_history {
    m =
        map (λ e. (e.0, record e.1 { blocks = share_in_blocks b txs e.1.blocks }))
          s.state_history.m;
  };
}
