-- ===== src/Analyzer/Routines.antt =====
-- pkg/analyzer/routines.go: the routines that send download tasks, and the one that receives them.
-- A goroutine that a routine starts is a `Task` here, and `run_task` is what it does.
use eth_cl_state_analyzer.Common.{
  ℕ, zero, suc, ◌+◌, ◌-◌, ◌*◌, ◌/◌, ◌%◌, Bool, true, false, ◌&&◌, ◌||◌, List, [], ◌∷◌, ◌++◌, Option,
  none, some, ltb, leb, ◌==◌, mul64, add64, sub64, if◌then◌else◌,
}
use eth_cl_state_analyzer.Common.Go.{Go, ok, panic, fatal, waits, ◌>>=◌}
use eth_cl_state_analyzer.Client.{HeadEvent, FinalizedEvent, ReorgEvent, BlobSidecarEvent}
use eth_cl_state_analyzer.Spec.Constants.{slots_per_epoch}
use eth_cl_state_analyzer.Spec.Slot.{first_slot_in_epoch, epoch_at_slot}
use eth_cl_state_analyzer.Utils.Book.{num_free_pages, active_pages}
use eth_cl_state_analyzer.Analyzer.ChainCache.{clean_up_to}
use eth_cl_state_analyzer.Analyzer.Calls.{
  persist_head_events, persist_finalized, persist_reorgs, persist_blob_sidecars_events,
}
use eth_cl_state_analyzer.Analyzer.Chain.{ChainAnalyzer, Outside, call_db}
use eth_cl_state_analyzer.Analyzer.ProcessBlock.{process_block}
use eth_cl_state_analyzer.Analyzer.Transition.{process_state_transition_metrics}
use eth_cl_state_analyzer.Analyzer.Download.{
  download_block, download_block_controlled, download_state,
}
use eth_cl_state_analyzer.Analyzer.Reorg.{advance_finalized, handle_reorg}

pub data Task : Type 0 where
  download_block_task : ℕ → Task
  process_block_task : ℕ → Task
  download_state_task : ℕ → Task
  process_state_task : ℕ → Task
  advance_finalized_task : ℕ → Task
  handle_reorg_task : ReorgEvent → Task

unfoldable pub run_task : Outside → Task → ChainAnalyzer → Go ChainAnalyzer
run_task o (download_block_task slot) = download_block_controlled o slot
run_task o (process_block_task slot) = process_block o slot
run_task o (download_state_task slot) = download_state o slot
run_task o (process_state_task epoch) = process_state_transition_metrics o epoch
run_task o (advance_finalized_task slot) = advance_finalized o slot
run_task o (handle_reorg_task e) = handle_reorg o e

-- `runDownloadBlocks`: what it starts for a slot that it receives.
unfoldable pub start_downloads : ℕ → List Task
start_downloads slot =
    download_block_task slot
    ∷ process_block_task slot
    ∷ (if slot % slots_per_epoch == slots_per_epoch - 1
        then download_state_task slot ∷ process_state_task (slot / slots_per_epoch) ∷ []
        else [])

-- Whether it ends at a tick, with n requests active and n tasks in its channel.
unfoldable pub downloads_finished : ℕ → ℕ → ChainAnalyzer → Bool
downloads_finished waiting active s =
    s.stop && waiting == 0 && active == 0 && active_pages s.processer_book == 0

-- What a round of `runHistorical` ends with: the routine returns, or goes on at a slot.
pub data Round : Type 0 where
  returned : ChainAnalyzer → Round
  goes_on : ℕ → ChainAnalyzer → Round

-- `s.downloadTaskChan <- slot`
abbrev pub send_task : ℕ → ChainAnalyzer → ChainAnalyzer
send_task slot s = record s { download_tasks = s.download_tasks ++ slot ∷ [] }

module _ (o : Outside) where
  -- What `runHistorical` does first at the start of an epoch.
  unfoldable pub cross_epoch : ℕ → ChainAnalyzer → Go ChainAnalyzer
  cross_epoch i s = elim o.request_finalized_slot [
    | none ↦ fatal
    | some finalized ↦ elim (leb finalized i) [
      | true ↦ advance_finalized o (sub64 finalized (slots_per_epoch * 5)) s
      | false ↦ ok (
          if ltb (5 * slots_per_epoch) i
          then record s { download_cache = clean_up_to s.download_cache (i - 5 * slots_per_epoch) }
          else s)
    ]
  ]

  -- The round of a slot, if the routine is not stopped and there is a free page.
  unfoldable pub historical_round : ℕ → ChainAnalyzer → Go ChainAnalyzer
  unfolding cross_epoch
  historical_round i s =
      elim (i % slots_per_epoch == 0) [ true ↦ cross_epoch i s | false ↦ ok s ] >>= λ t.
      ok (send_task i t)

  -- A round of the loop at a slot. Without a free page it waits, and tries again.
  unfoldable pub historical_step : ℕ → ℕ → ChainAnalyzer → Go Round
  unfolding historical_round
  historical_step end i s = elim (leb i end) [
    | false ↦ ok (returned s)
    | true ↦ elim s.stop [
      | true ↦ ok (returned s)
      | false ↦ elim (num_free_pages s.processer_book == 0) [
        | true ↦ ok (goes_on i s)
        | false ↦ historical_round i s >>= λ t. ok (goes_on (add64 i 1) t)
      ]
    ]
  ]

  -- At most n rounds from a slot on; `none` if the loop has not returned then.
  unfoldable pub historical_from : ℕ → ℕ → ℕ → ChainAnalyzer → Go (Option ChainAnalyzer)
  unfolding historical_step
  historical_from zero end i s = ok none
  historical_from (suc n) end i s = historical_step end i s >>= λ r. elim r [
    | returned t ↦ ok (some t)
    | goes_on j t ↦ historical_from n end j t
  ]

  -- At most n rounds of `runHistorical` from a slot to another.
  unfoldable pub run_historical : ℕ → ℕ → ℕ → ChainAnalyzer → Go (Option ChainAnalyzer)
  unfolding historical_from
  run_historical n init end = historical_from n end init

  -- The slot at which `fillToHead` begins, from the finalized slot and the last one in the database.
  unfoldable pub fill_start : ℕ → ℕ → ℕ
  fill_start finalized db_head =
      let next = first_slot_in_epoch db_head in
      let from = if next == 0 || ltb finalized next then finalized else next in
      sub64 from (3 * slots_per_epoch) / slots_per_epoch * slots_per_epoch

  -- `fillToHead`, which returns the head slot, with at most n rounds of `runHistorical`.
  unfoldable pub fill_to_head : ℕ → ChainAnalyzer → Go (Option (ℕ × ChainAnalyzer))
  unfolding fill_start run_historical
  fill_to_head n s = elim o.request_finalized_slot [
    | none ↦ panic
    | some finalized ↦
        let head_slot = o.request_current_head in
        let t = download_block o head_slot s in
        elim o.retrieve_last_slot [
          | none ↦ fatal
          | some db_head ↦
              let next = fill_start finalized db_head in
              let start = add64 (epoch_at_slot next) 2 in
              run_historical n next head_slot (record t {
                init_slot = next;
                aggregator = record t.aggregator {
                  start_epoch_aggregation = start;
                  end_epoch_aggregation =
                      add64 start (sub64 t.aggregator.rewards_aggregation_epochs 1);
                };
              })
              >>= λ r. ok (elim r [ none ↦ none | some u ↦ some (head_slot, u) ])
        ]
  ]

-- The loop of `runHead` at a head event, with n slots to send. It polls while no page is free. (For a
-- head at slot 2 ^ 64 - 1 the loop of the source would not end.)
unfoldable pub send_up_to : ℕ → ℕ → ChainAnalyzer → Go ChainAnalyzer
send_up_to next zero s = ok s
send_up_to next (suc n) s =
    let rest = send_up_to (next + 1) n (send_task next s) in
    if ltb 0 (num_free_pages s.processer_book) then rest else waits

-- The events that `runHead` receives.
pub data Event : Type 0 where
  new_head : HeadEvent → Event
  new_finalized : FinalizedEvent → Event
  new_reorg : ReorgEvent → Event
  new_blob_sidecar : BlobSidecarEvent → Event

-- What `runHead` does at an event: the slot that it sends next, the state, the tasks that it starts.
unfoldable pub run_head_event : Event → ℕ → ChainAnalyzer → Go (ℕ × (ChainAnalyzer × List Task))
unfolding send_up_to
run_head_event (new_head e) next s =
    send_up_to next (e.slot + 1 - next) (call_db (persist_head_events (e ∷ [])) s) >>= λ t.
    ok ((if leb next e.slot then e.slot + 1 else next), (t, []))
run_head_event (new_finalized e) next s = ok (
  next,
  (
    call_db (persist_finalized (e ∷ [])) s,
    advance_finalized_task (sub64 (mul64 e.epoch slots_per_epoch) (2 * slots_per_epoch)) ∷ [],
  ),
)
run_head_event (new_reorg e) next s =
    ok (next, (call_db (persist_reorgs (e ∷ [])) s, handle_reorg_task e ∷ []))
run_head_event (new_blob_sidecar e) next s =
    ok (next, (call_db (persist_blob_sidecars_events (e ∷ [])) s, []))

-- The slots and epochs that `NewChainAnalyzer` computes for the historical mode, from the slots and
-- the aggregation length of the configuration; `none` is the error of its test.
pub record Range : Type 0 where
  pub init_slot : ℕ
  pub final_slot : ℕ
  pub start_epoch_aggregation : ℕ
  pub end_epoch_aggregation : ℕ

unfoldable pub historical_range : ℕ → ℕ → ℕ → Option Range
historical_range init final aggregation_epochs =
    if leb final init
    then none
    else let first = sub64 (init / slots_per_epoch * slots_per_epoch) (slots_per_epoch * 2) in
      let start = add64 (epoch_at_slot first) 2 in
      some (record {
        init_slot = first;
        final_slot = add64 (final / slots_per_epoch * slots_per_epoch) slots_per_epoch;
        start_epoch_aggregation = start;
        end_epoch_aggregation = add64 start (sub64 aggregation_epochs 1);
      })
