-- ===== src/Tests/Database.antt =====
-- The theorems on pkg/relay and pkg/db at concrete inputs.
use eth_cl_state_analyzer.Common.{◌≡◌, false, [], ◌∷◌, map, none}
use eth_cl_state_analyzer.Relay.Bids.{in_range, get_delivered_bids_per_slot_range}
use eth_cl_state_analyzer.Relay.Latest.{bid_of, last_or, get_delivered_bids_lem}
use eth_cl_state_analyzer.Analyzer.Calls.{persist_blocks, delete_block_metrics}
use eth_cl_state_analyzer.Db.Columns.{Column, input_of}
use eth_cl_state_analyzer.Db.BlockTables.{blocks_table}
use eth_cl_state_analyzer.Db.Service.{new_db_service}
use eth_cl_state_analyzer.Db.Aligned.{blocks, query_matches_input}
use eth_cl_state_analyzer.Db.Monitored.{Yields, IsMonitored, run_calls, run_calls_return}
use eth_cl_state_analyzer.Tests.Chain.{relay, bid, block_40}

get_delivered_bids_lem_example :
    bid_of
      (get_delivered_bids_per_slot_range
        (relay 5 (bid 70 1 ∷ bid 30 2 ∷ bid 70 3 ∷ []) ∷ relay 6 (bid 70 4 ∷ []) ∷ [])
        95
        32)
      70
      5
    ≡ last_or none (bid 70 1 ∷ bid 70 3 ∷ [])
unfolding in_range
get_delivered_bids_lem_example =
    get_delivered_bids_lem 95 32 70 5
      (relay 5 (bid 70 1 ∷ bid 30 2 ∷ bid 70 3 ∷ []) ∷ relay 6 (bid 70 4 ∷ []) ∷ [])

query_matches_input_example :
    map (λ (c : Column). c.name) (input_of blocks_table (block_40 ∷ block_40 ∷ []))
    ≡ blocks_table.query_columns
query_matches_input_example = query_matches_input blocks (block_40 ∷ block_40 ∷ [])

run_calls_return_example : Yields IsMonitored (
    run_calls
      (λ statement. false)
      (persist_blocks (block_40 ∷ []) ∷ delete_block_metrics 40 ∷ [])
      new_db_service)
run_calls_return_example =
    run_calls_return (λ statement. false)
      (persist_blocks (block_40 ∷ []) ∷ delete_block_metrics 40 ∷ [])
