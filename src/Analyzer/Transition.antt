-- ===== src/Analyzer/Transition.antt =====
-- pkg/analyzer/process_state.go: `ProcessStateTransitionMetrics`.
use eth_cl_state_analyzer.Common.{
  ℕ, ◌-◌, ◌/◌, Bool, true, false, ◌&&◌, [], none, some, leb, ◌==◌, not, if◌then◌else◌,
}
use eth_cl_state_analyzer.Common.Go.{Go, ok, panic, ◌>>=◌}
use eth_cl_state_analyzer.Client.{unknown}
use eth_cl_state_analyzer.Spec.Constants.{slots_per_epoch}
use eth_cl_state_analyzer.Spec.State.{AgnosticState}
use eth_cl_state_analyzer.Metrics.Export.{
  StateMetrics, get_metrics_base, state_metrics_by_fork_version,
}
use eth_cl_state_analyzer.Analyzer.Chain.{
  ChainAnalyzer, Outside, epoch_key, acquire_page, release_page, wait_state, put_state,
}
use eth_cl_state_analyzer.Analyzer.ProcessState.{write_epoch}

-- `&spec.AgnosticState{}`
abbrev pub empty_state : AgnosticState
empty_state = record {
  version = unknown;
  genesis_timestamp = 0;
  state_root = 0;
  epoch = 0;
  slot = 0;
  balances = [];
  validators = [];
  total_active_balance = 0;
  total_active_real_balance = 0;
  attesting_balance = [];
  epoch_structs = record {
    proposer_duties = [];
    beacon_committees = [];
    validator_att_slot = λ _. 0;
  };
  prev_epoch_correct_flags = [];
  prev_attestations = [];
  validator_attestation_included = [];
  num_attestations = 0;
  num_active_vals = 0;
  num_exited_vals = 0;
  num_slashed_vals = 0;
  num_queued_vals = 0;
  block_roots = [];
  missed_blocks = [];
  sync_committee = [];
  blocks = [];
  withdrawals = [];
  withdrawals_num = 0;
  total_withdrawals_amount = 0;
  deposits = [];
  deposits_num = 0;
  total_deposits_amount = 0;
  current_justified_checkpoint = record { epoch = 0; root = 0 };
  latest_block_slot = 0;
  sync_committee_participation = 0;
  new_proposer_slashings = 0;
  new_attester_slashings = 0;
  slashings = [];
}

-- Whether the state of `back` epochs before is waited for: not if it may never be downloaded,
-- because its epoch is below the first one.
abbrev pub has_earlier : ℕ → ℕ → ChainAnalyzer → Bool
has_earlier epoch back s = leb back epoch && leb (s.init_slot / slots_per_epoch) (epoch - back)

unfoldable pub earlier_state : ℕ → ℕ → ChainAnalyzer → Go AgnosticState
earlier_state epoch back s = elim (has_earlier epoch back s) [
  | true ↦ wait_state s (epoch - back)
  | false ↦ ok empty_state
]

abbrev pub filled : AgnosticState → Bool
filled state = not (state.state_root == 0)

-- The bundle is made by writing through the pointers to the states.
unfoldable pub keep_states : ℕ → StateMetrics → ChainAnalyzer → ChainAnalyzer
unfolding put_state
keep_states epoch bundle s =
    let base = get_metrics_base bundle in
    let t = if has_earlier epoch 2 s then put_state (epoch - 2) base.prev_state s else s in
    let u = if has_earlier epoch 1 s then put_state (epoch - 1) base.current_state t else t in
    put_state epoch base.next_state u

module _ (o : Outside) where
  -- With the three states; a bundle that is nil is not looked at unless they are all filled.
  unfoldable pub write_transition :
      ℕ → AgnosticState → AgnosticState → AgnosticState → ChainAnalyzer → Go ChainAnalyzer
  unfolding write_epoch keep_states
  write_transition epoch next current prev s = do
    bundle ← state_metrics_by_fork_version o.math next current prev
    let all = filled next && filled current && filled prev
    elim bundle [
      | none ↦ if all then panic else ok (record (release_page (epoch_key epoch) s) { stop = true })
      | some b ↦ elim all [
        | true ↦ write_epoch o b (keep_states epoch b s)
        | false ↦ ok (keep_states epoch b s)
      ]
    ]

  unfoldable pub process_state_transition_metrics : ℕ → ChainAnalyzer → Go ChainAnalyzer
  unfolding write_transition earlier_state
  process_state_transition_metrics epoch s = elim s.metrics.epoch [
    | false ↦ ok s
    | true ↦ do
      let t = acquire_page (epoch_key epoch) s
      prev ← earlier_state epoch 2 t
      current ← earlier_state epoch 1 t
      next ← wait_state t epoch
      u ← write_transition epoch next current prev t
      ok (release_page (epoch_key epoch) u)
  ]
