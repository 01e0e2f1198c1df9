-- ===== src/Spec/State/Setup.antt =====
-- pkg/spec/state.go: `Setup`, and the state of each fork.
use eth_cl_state_analyzer.Common.{
  ◌/◌, Bool, true, false, List, [], Option, none, some, length, replicate,
}
use eth_cl_state_analyzer.Common.Go.{Go, ok, ◌>>=◌}
use eth_cl_state_analyzer.Client.{
  Validator, MathPackage, BeaconState, phase0, altair, bellatrix, capella, deneb, unknown,
}
use eth_cl_state_analyzer.Spec.Constants.{slots_per_epoch}
use eth_cl_state_analyzer.Spec.Duties.{EpochDuties}
use eth_cl_state_analyzer.Spec.State.Defs.{AgnosticState}
use eth_cl_state_analyzer.Spec.State.Status.{get_vals_state_nums}
use eth_cl_state_analyzer.Spec.State.Balances.{
  get_total_active_eff_balance, get_total_active_real_balance,
}
use eth_cl_state_analyzer.Spec.State.Missed.{track_missing_blocks}
use eth_cl_state_analyzer.Spec.State.Flags.{process_altair_attestations}

-- `Setup` on a list of validators that is not nil.
unfoldable pub setup_listed : AgnosticState → Go AgnosticState
setup_listed p = do
  let n = length p.validators
  let q = record p {
    validator_attestation_included = replicate n false;
    attesting_balance = replicate 3 0;
    prev_epoch_correct_flags = replicate 3 (replicate n false);
  }
  let r = get_vals_state_nums q
  let s = record r { total_active_balance = get_total_active_eff_balance r }
  real ← get_total_active_real_balance s
  t ← track_missing_blocks (record s { total_active_real_balance = real })
  ok (record t { slashings = [] })

-- `Setup`: the flag is false where it returns an error, having done nothing.
unfoldable pub setup : Option (List Validator) → AgnosticState → Go (AgnosticState × Bool)
unfolding setup_listed
setup none p = ok (p, false)
setup (some _) p = setup_listed p >>= λ q. ok (q, true)

abbrev pub listed : Option (List Validator) → List Validator
listed none = []
listed (some vs) = vs

-- The record literal of a constructor; the fields that it leaves out are zero.
unfoldable pub base_state : BeaconState → EpochDuties → AgnosticState
base_state b duties = record {
  version = b.version;
  genesis_timestamp = b.genesis_time;
  state_root = 0;
  epoch = b.slot / slots_per_epoch;
  slot = b.slot;
  balances = b.balances;
  validators = listed b.validators;
  total_active_balance = 0;
  total_active_real_balance = 0;
  attesting_balance = [];
  epoch_structs = duties;
  prev_epoch_correct_flags = [];
  prev_attestations = [];
  validator_attestation_included = [];
  num_attestations = 0;
  num_active_vals = 0;
  num_exited_vals = 0;
  num_slashed_vals = 0;
  num_queued_vals = 0;
  block_roots = b.block_roots;
  missed_blocks = [];
  sync_committee = [];
  blocks = [];
  withdrawals = [];
  withdrawals_num = 0;
  total_withdrawals_amount = 0;
  deposits = [];
  deposits_num = 0;
  total_deposits_amount = 0;
  current_justified_checkpoint = b.current_justified_checkpoint;
  latest_block_slot = b.latest_block_slot;
  sync_committee_participation = 0;
  new_proposer_slashings = 0;
  new_attester_slashings = 0;
  slashings = [];
}

-- `NewPhase0State`: the error of `Setup` is dropped.
unfoldable pub new_phase0_state : BeaconState → EpochDuties → Go AgnosticState
unfolding setup base_state
new_phase0_state b duties =
    setup b.validators
      (record (base_state b duties) { prev_attestations = b.previous_epoch_attestations })
    >>= λ r. ok r.0

module _ (math : MathPackage) where
  -- `NewAltairState`
  unfoldable pub new_altair_state : BeaconState → EpochDuties → Go AgnosticState
  unfolding setup base_state
  new_altair_state b duties =
      setup b.validators
        (record (base_state b duties) { sync_committee = b.current_sync_committee })
      >>= λ r. process_altair_attestations math r.0 b.previous_epoch_participation

  -- `NewBellatrixState`
  unfoldable pub new_bellatrix_state : BeaconState → EpochDuties → Go AgnosticState
  unfolding setup base_state
  new_bellatrix_state b duties =
      setup b.validators
        (record (base_state b duties) { sync_committee = b.current_sync_committee })
      >>= λ r. process_altair_attestations math r.0 b.previous_epoch_participation

  -- `NewCapellaState`
  unfoldable pub new_capella_state : BeaconState → EpochDuties → Go AgnosticState
  unfolding setup base_state
  new_capella_state b duties =
      setup b.validators
        (record (base_state b duties) { sync_committee = b.current_sync_committee })
      >>= λ r. process_altair_attestations math r.0 b.previous_epoch_participation

  -- `NewDenebState`
  unfoldable pub new_deneb_state : BeaconState → EpochDuties → Go AgnosticState
  unfolding setup base_state
  new_deneb_state b duties =
      setup b.validators
        (record (base_state b duties) { sync_committee = b.current_sync_committee })
      >>= λ r. process_altair_attestations math r.0 b.previous_epoch_participation

  -- `GetCustomState`: `none` is the error for a version that is not known.
  unfoldable pub get_custom_state : BeaconState → EpochDuties → Go (Option AgnosticState)
  get_custom_state b duties = elim b.version [
    | phase0 ↦ new_phase0_state b duties >>= λ s. ok (some s)
    | altair ↦ new_altair_state b duties >>= λ s. ok (some s)
    | bellatrix ↦ new_bellatrix_state b duties >>= λ s. ok (some s)
    | capella ↦ new_capella_state b duties >>= λ s. ok (some s)
    | deneb ↦ new_deneb_state b duties >>= λ s. ok (some s)
    | unknown ↦ ok none
  ]
