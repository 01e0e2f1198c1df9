-- ===== src/Analyzer/ProcessState.antt =====
-- pkg/analyzer/process_state.go: what is written at the end of an epoch.
use eth_cl_state_analyzer.Common.{
  ℕ, ◌+◌, true, false, ◌&&◌, List, [], ◌∷◌, map, ltb, length, ◌==◌, if◌then◌else◌,
}
use eth_cl_state_analyzer.Common.Go.{Go, ok, ◌>>=◌, index}
use eth_cl_state_analyzer.Client.{Validator}
use eth_cl_state_analyzer.Spec.Constants.{slots_per_epoch}
use eth_cl_state_analyzer.Spec.Rewards.{ValidatorRewards}
use eth_cl_state_analyzer.Spec.State.{AgnosticState}
use eth_cl_state_analyzer.Spec.State.Status.{get_val_status}
use eth_cl_state_analyzer.Metrics.Export.{
  StateMetrics, get_metrics_base, get_max_reward, export_to_epoch,
}
use eth_cl_state_analyzer.Relay.Bids.{get_delivered_bids_per_slot_range}
use eth_cl_state_analyzer.Analyzer.Aggregation.{
  epoch_duties, process_epoch_val_rewards, Aggregator, aggregate_all,
}
use eth_cl_state_analyzer.Analyzer.Calls.{
  ValidatorLastStatus, persist_duties, persist_val_last_status, delete_val_last_status,
  insert_pool_summary, persist_epochs, persist_block_rewards, persist_validator_rewards,
  persist_validator_rewards_aggregation, persist_slashings,
}
use eth_cl_state_analyzer.Analyzer.Chain.{ChainAnalyzer, Outside, finalized, call_db, call_or_fatal}
use eth_cl_state_analyzer.Analyzer.BlockRewards.{get_single_block_rewards}

abbrev pub next_of : StateMetrics → AgnosticState
next_of bundle = (get_metrics_base bundle).next_state

abbrev pub current_of : StateMetrics → AgnosticState
current_of bundle = (get_metrics_base bundle).current_state

abbrev pub process_slashings : StateMetrics → ChainAnalyzer → ChainAnalyzer
process_slashings bundle s =
    let slashings = (next_of bundle).slashings in
    if length slashings == 0 then s else call_db (persist_slashings slashings) s

unfoldable pub process_epoch_metrics : StateMetrics → ChainAnalyzer → Go ChainAnalyzer
process_epoch_metrics bundle s =
    export_to_epoch (get_metrics_base bundle) >>= λ e. ok (call_db (persist_epochs (e ∷ [])) s)

-- The loop of `processValLastStatus`, from an index on.
unfoldable pub last_status_rows : AgnosticState → ℕ → List Validator → Go (List ValidatorLastStatus)
unfolding get_val_status
last_status_rows state i [] = ok []
last_status_rows state i (v ∷ vs) = index state.balances i >>= λ balance.
    last_status_rows state (i + 1) vs >>= λ rest. ok (
      record {
        val_idx = i;
        epoch = state.epoch;
        current_balance = balance;
        current_status = get_val_status state i;
        slashed = v.slashed;
        activation_epoch = v.activation_epoch;
        withdrawal_epoch = v.withdrawable_epoch;
        exit_epoch = v.exit_epoch;
        public_key = v.public_key;
      }
      ∷ rest)

unfoldable pub process_val_last_status : StateMetrics → ChainAnalyzer → Go ChainAnalyzer
unfolding last_status_rows
process_val_last_status bundle s =
    let next = next_of bundle in
    elim s.download_mode [
      | finalized ↦ last_status_rows next 0 next.validators >>= λ rows. ok (
          if ltb 0 (length rows)
          then call_db (delete_val_last_status next.epoch)
              (call_db (persist_val_last_status rows) s)
          else s)
      | _ ↦ ok s
    ]

module _ (o : Outside) where
  unfoldable pub process_pool_metrics : ℕ → ChainAnalyzer → Go ChainAnalyzer
  process_pool_metrics epoch = call_or_fatal o (insert_pool_summary epoch)

  unfoldable pub process_epoch_duties : StateMetrics → ChainAnalyzer → Go ChainAnalyzer
  unfolding epoch_duties
  process_epoch_duties bundle =
      let next = next_of bundle in
      call_or_fatal o
        (persist_duties (epoch_duties next.missed_blocks next.epoch_structs.proposer_duties))

  -- The loop of `processEpochValRewards`: the rewards of the validators, from an index on.
  unfoldable pub max_rewards : StateMetrics → ℕ → List Validator → Go (List ValidatorRewards)
  max_rewards bundle i [] = ok []
  max_rewards bundle i (_ ∷ vs) = get_max_reward o.math bundle i >>= λ r.
      max_rewards bundle (i + 1) vs >>= λ rest. ok (r ∷ rest)

  -- The aggregations that the end of a window persists, where it is one and has some.
  unfoldable pub persist_window : ℕ → Aggregator → ChainAnalyzer → Go ChainAnalyzer
  persist_window epoch a s =
      if ltb 1 a.rewards_aggregation_epochs
        && epoch == a.end_epoch_aggregation
        && ltb 0 (length a.aggregations)
      then call_or_fatal o (persist_validator_rewards_aggregation a.aggregations) s
      else ok s

  -- `processEpochValRewards`, with what it does to the windows in `Aggregation`.
  unfoldable pub process_all_val_rewards : StateMetrics → ChainAnalyzer → Go ChainAnalyzer
  unfolding max_rewards persist_window
  process_all_val_rewards bundle s = do
    let next = next_of bundle
    rewards ← max_rewards bundle 0 next.validators
    let gathered = aggregate_all rewards s.aggregator
    t ←
        if ltb 0 (length rewards)
        then call_or_fatal o (persist_validator_rewards rewards) s
        else ok s
    u ← persist_window next.epoch gathered t
    ok (record u { aggregator = process_epoch_val_rewards next.epoch rewards s.aggregator })

  unfoldable pub process_block_rewards : StateMetrics → ChainAnalyzer → ChainAnalyzer
  unfolding get_single_block_rewards get_delivered_bids_per_slot_range
  process_block_rewards bundle s =
      let current = current_of bundle in
      let mev_bids = get_delivered_bids_per_slot_range o.relays current.slot slots_per_epoch in
      call_db
        (persist_block_rewards
          (map (λ block. get_single_block_rewards block mev_bids) current.blocks))
        s

  -- The metrics of three states that are all filled.
  unfoldable pub write_epoch : StateMetrics → ChainAnalyzer → Go ChainAnalyzer
  unfolding process_val_last_status process_epoch_duties process_pool_metrics process_epoch_metrics
      process_block_rewards process_all_val_rewards
  write_epoch bundle s = do
    s₁ ← process_epoch_duties bundle s
    s₂ ← process_val_last_status bundle s₁
    s₃ ← process_pool_metrics (current_of bundle).epoch s₂
    s₄ ← process_epoch_metrics bundle s₃
    let s₅ = process_block_rewards bundle s₄
    s₆ ← elim s₅.metrics.validator_rewards [
      | true ↦ process_all_val_rewards bundle s₅
      | false ↦ ok s₅
    ]
    ok (process_slashings bundle s₆)
