-- ===== src/Spec/State/SetupTotal.antt =====
-- pkg/spec/state.go: `Setup` as a whole.
use eth_cl_state_analyzer.Common.{
  ◌+◌, ◌*◌, ◌^◌, ◌≤◌, ◌<◌, ◌≡◌, refl, true, false, [], ◌∷◌, ◌++◌, some, length, replicate, filterb,
  count_up, if◌then◌else◌, ◌==◌, u64,
}
use eth_cl_state_analyzer.Common.Go.{ok}
use eth_cl_state_analyzer.Spec.State.Defs.{AgnosticState}
use eth_cl_state_analyzer.Spec.State.Status.{get_vals_state_nums}
use eth_cl_state_analyzer.Spec.State.Partition.{get_vals_state_nums_total}
use eth_cl_state_analyzer.Spec.State.Balances.{
  active_sum, active_real, get_total_active_eff_balance, get_total_active_eff_balance_lem,
  get_total_active_real_balance_lem,
}
use eth_cl_state_analyzer.Spec.State.Missed.{repeats, track_missing_blocks_lem}
use eth_cl_state_analyzer.Spec.State.Setup.{setup_listed, setup}

-- What `Setup` makes of a state p.
pub record IsSetUp (p q : AgnosticState) : Type 0 where
  pub effective :
      q.total_active_balance ≡ u64 (active_sum (λ v. v.effective_balance) p.epoch p.validators)
  pub real : q.total_active_real_balance ≡ u64 (active_real p.validators p.balances p.epoch)
  pub counted :
      q.num_queued_vals + q.num_active_vals + q.num_exited_vals + q.num_slashed_vals
      ≡ length p.validators
  pub missed :
      q.missed_blocks
      ≡ filterb (repeats p) (count_up (p.epoch * 32) 31)
        ++ (if p.latest_block_slot == p.epoch * 32 + 31 then [] else (p.epoch * 32 + 31) ∷ [])
  pub same_validators : q.validators ≡ p.validators
  pub same_balances : q.balances ≡ p.balances
  pub no_flags : q.prev_epoch_correct_flags ≡ replicate 3 (replicate (length p.validators) false)
  pub no_slashings : q.slashings ≡ []

-- On a state with the full ring of block roots and a balance for each validator, `Setup` returns
-- without an error. The totals are those of the active validators, the counters add up to the number
-- of validators, the missed blocks are found, and validators and balances stay.
pub setup_lem :
    (p : AgnosticState)
    → 8192 ≤ length p.block_roots
    → p.epoch * 32 < 2 ^ 63
    → length p.validators ≤ length p.balances
    → (q : AgnosticState) × (setup (some p.validators) p ≡ ok (q, true)) × IsSetUp p q
unfolding setup setup_listed get_vals_state_nums
setup_lem p hl he hb =
    let n = length p.validators in
    let q : AgnosticState = record p {
      validator_attestation_included = replicate n false;
      attesting_balance = replicate 3 0;
      prev_epoch_correct_flags = replicate 3 (replicate n false);
    } in
    let r = get_vals_state_nums q in
    let s : AgnosticState = record r { total_active_balance = get_total_active_eff_balance r } in
    let real = get_total_active_real_balance_lem s hb in
    let t : AgnosticState = record s {
      total_active_real_balance = u64 (active_real p.validators p.balances p.epoch);
    } in
    let u : AgnosticState = record t {
      missed_blocks =
          filterb (repeats p) (count_up (p.epoch * 32) 31)
          ++ (if p.latest_block_slot == p.epoch * 32 + 31 then [] else (p.epoch * 32 + 31) ∷ []);
      slashings = [];
    } in
    (
      u,
      rw (real, track_missing_blocks_lem t hl he) refl,
      record {
        effective = get_total_active_eff_balance_lem r;
        real = refl;
        counted = get_vals_state_nums_total q;
        missed = refl;
        same_validators = refl;
        same_balances = refl;
        no_flags = refl;
        no_slashings = refl;
      },
    )
