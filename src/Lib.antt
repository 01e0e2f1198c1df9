-- ===== src/Lib.antt =====
-- The state analyzer of the Ethereum consensus layer: a verification library of the Go code in pkg/.
--
-- The analyzer follows a beacon node. For each epoch it builds a fork-independent state from what
-- the node returns, and for each slot a fork-independent block. It keeps both in two maps that other
-- goroutines wait on. From three successive states it computes what the validators could have earned
-- and what they did earn, and it writes blocks, epochs and rewards to a database.
--
-- Common       Boolean tests, lists over the native numbers, 64-bit words (`add64`, `sub64`, `mul64`
--              wrap around), signed integers, and `Go`: a result, a panic, or `log.Fatal`. `for_each`
--              is a loop over a slice, `for_each_mut` one over pointers that it writes through.
-- Client       the types of the client library that the source reads (not in this repository), and
--              what it takes of Go's package `math`, as a parameter with its documented laws.
-- Spec         pkg/spec: Constants (constants.go), Slot (utils.go), Slashing (slashing.go), Duties
--              (duties.go), Block and Forks (block.go), Rewards (validator_rewards.go and
--              validator_rewards_aggregation.go). State is state.go: Defs the record, Status the
--              validator status, Balances the totals, Flows withdrawals and deposits, Missed the
--              missed blocks, Flags the participation flags, Setup the constructors of the forks.
--              Partition, Withdrawals, MissingCount, SetupTotal and
--              Intersection hold proofs.
-- Metrics      pkg/spec/metrics: Base (standard.go, utils.go), Slashings, Order and Phase0
--              (state_phase0.go), Rewards, Votes and Altair (state_altair.go), Deneb (state_deneb.go),
--              Export (standard.go, epoch.go). Ordering, Flags, SlashingRewards, Delays,
--              EpochReward and Lookups hold proofs.
-- Utils        pkg/utils: Book (book.go) and Batches (validator_indexes.go). BookTokens,
--              BatchesCover and Others hold proofs.
-- Relay        pkg/relay: Bids (relay_bid_trace.go). Latest holds proofs.
-- ClientApi    pkg/clientapi: Requests (block.go, state.go, api_requester.go) and EpochData
--              (duties.go). Attempts and LastDuty hold proofs.
-- Analyzer     pkg/analyzer: AgnosticMap (utils.go), ChainCache (chain_cache.go), Aggregation,
--              BlockRewards, ProcessState and Transition (process_state.go), ProcessBlock
--              (process_block.go), Chain (chain_analyzer.go), Download (download.go), Reorg (reorg.go),
--              Routines (routines.go), Calls (the calls of the database). Waiting, HeadBlock, CleanUp,
--              Gathering, Windows, Frame, FrameEpoch, FrameReorg, TaskEffects, Pages, BlockWrites,
--              Finality and Historical hold proofs.
-- Db           pkg/db: Columns and Service (service.go, low_level_driver.go, high_level_driver.go,
--              prometheus_metrics.go), BlockTables, TransactionTables, EpochTables, RewardTables and
--              EventTables (the table of each file), Persist (its method that persists), Names, and
--              Calls, which runs what the analyzer calls. Aligned and Monitored hold proofs.
-- Tests        concrete values, and the theorems at them.
--
-- The Go methods have their names in snake case here (`TrackMissingBlocks` is `track_missing_blocks`).
-- A loop is a function with the loop's index or rest, and its accumulator. Its bound is a count of
-- rounds, or the list that it ranges over. Two loops run on fuel:
-- that of `DivideValidatorsBatches`, for which a round more than there are validators is enough, unless
-- it does not end at all, and that of `runHistorical`, for which a round more than there are slots is
-- enough where it does not have to wait for a page. A pointer that
-- several holders share is a value in the one place that it is written through. A Go map from
-- indices to amounts, of which single entries are read, is a function with 0 for a missing one.
-- Roots, keys and names, which are only compared, are numbers. Counts of type `int` that count
-- elements of slices are not reduced.
--
-- A handler of the analyzer takes its state and returns the state that it leaves. What it asks of
-- the node, the relays and the database is a record of functions (`Outside` in Analyzer/Chain), fixed
-- while it runs. Handlers do not overlap here: where one waits for a key of the cache, or for
-- the end of what holds a page, and what it waits for is not there, it returns `waits`. `Acquire` never
-- waits longer than a minute: without a token it goes on without a page. A goroutine that a routine
-- starts is a `Task`. The loop of `HandleReorg` ends at slot 0 at the latest, below which the source
-- would wait for ever. The keys "slot=…" and "epoch=…" of the book are the even and the odd numbers.
-- States hold pointers to the blocks of the cache; `store_transactions` writes through them, but the
-- manual reward of a block that a bundle computes reaches the states alone, from which it is read.
--
-- A request of ClientApi takes what the nodes answer at each attempt (`Nodes`). Its loops run over the
-- attempts that are left. `Outside` takes the results of these requests as they come.
--
-- Not modelled: receipts and blob sidecars as the node client reads them, the queries that read from the
-- database, its migrations and connections, events, the requests to the relays, the validator window,
-- Prometheus, configuration and command line, logging and compression, and how goroutines overlap.
-- Nor are the float32 conversions of balances to ETH.
pub mod Common
pub mod Client
pub mod Spec
pub mod Metrics
pub mod Utils
pub mod Relay
pub mod ClientApi
pub mod Analyzer
pub mod Db
pub mod Tests
