-- ===== src/Tests/Chain.antt =====
-- A chain analyzer, and a world outside that answers it.
use eth_cl_state_analyzer.Common.{ℕ, true, false, List, [], ◌∷◌, none, some}
use eth_cl_state_analyzer.Client.{BidTrace}
use eth_cl_state_analyzer.Spec.Block.{AgnosticBlock}
use eth_cl_state_analyzer.Relay.Bids.{RelayClient}
use eth_cl_state_analyzer.Analyzer.ChainCache.{ChainCache}
use eth_cl_state_analyzer.Analyzer.Chain.{ChainAnalyzer, Outside, finalized}
use eth_cl_state_analyzer.Tests.Root.{math}
use eth_cl_state_analyzer.Tests.Data.{block, withdrawal, window}

abbrev pub bid : ℕ → ℕ → BidTrace
bid slot value = record { slot = slot; block_hash = 9; builder_pubkey = 3; value = value }

-- A relay that delivers the same bids for every slot.
abbrev pub relay : ℕ → List BidTrace → RelayClient
relay address bids = record { address = address; delivered = λ slot limit. some bids }

-- The node has 1 for the root of every block and state, and the finalized slot is 100.
abbrev pub outside : Outside
outside = record {
  request_beacon_block = λ slot. some (block slot 1 0 []);
  request_beacon_state = λ slot. none;
  request_state_root = λ slot. 1;
  request_block_root = λ slot. 1;
  request_finalized_slot = some 100;
  request_current_head = 90;
  get_block_receipts = λ b. none;
  unmarshal_binary = λ raw. none;
  request_blob_sidecars = λ slot. some [];
  relays = relay 5 (bid 70 1 ∷ bid 30 2 ∷ bid 70 3 ∷ []) ∷ [];
  db_accepts = λ c. true;
  retrieve_last_slot = some 64;
  math = math;
}

abbrev pub block_40 : AgnosticBlock
block_40 = block 40 2 0 (withdrawal 1 30 ∷ [])

abbrev pub one_block : ChainCache
one_block = record {
  state_history = record { m = []; subs = λ _. []; sent = [] };
  block_history = record { m = (40, block_40) ∷ []; subs = λ _. []; sent = [] };
  head_block = some block_40;
}

abbrev pub chain_analyzer : ChainAnalyzer
chain_analyzer = record {
  beacon_contract_address = 77;
  init_slot = 32;
  final_slot = 96;
  download_tasks = 31 ∷ [];
  stop = false;
  download_mode = finalized;
  metrics = record {
    block = true;
    epoch = true;
    validator_rewards = false;
    api_rewards = false;
    transactions = false;
  };
  processer_book = record { pages = 7 ∷ []; free = 2; size = 3 };
  download_cache = one_block;
  aggregator = window;
  db_calls = [];
}
