-- ===== src/Tests/Spec.antt =====
-- The theorems on pkg/spec at concrete states.
use eth_cl_state_analyzer.Common.{
  sub64, ℕ, ◌+◌, ◌*◌, ◌≤◌, ◌≡◌, refl, true, false, List, [], ◌∷◌, ◌++◌, add64, u64, length, arith,
  count_up, filterb, get_or, replicate, length-replicate, some, if◌then◌else◌, ◌==◌,
}
use eth_cl_state_analyzer.Common.Go.{ok, for_each}
use eth_cl_state_analyzer.Spec.Constants.{slashed_status}
use eth_cl_state_analyzer.Spec.State.{AgnosticState}
use eth_cl_state_analyzer.Spec.State.Status.{is_active, get_val_status, at, get_vals_per_status}
use eth_cl_state_analyzer.Spec.State.Balances.{
  get_total_active_eff_balance, vals_effective_balance, active_marks, active_sum,
  get_total_active_eff_balance_lem,
}
use eth_cl_state_analyzer.Spec.State.Flows.{add_withdrawal, calculate_withdrawals}
use eth_cl_state_analyzer.Spec.State.Withdrawals.{
  withdrawals_of, amount_to, amount_of, calculate_withdrawals_lem,
}
use eth_cl_state_analyzer.Spec.State.Missed.{
  track_missing_blocks, repeats, track_missing_blocks_lem,
}
use eth_cl_state_analyzer.Spec.State.Setup.{setup}
use eth_cl_state_analyzer.Spec.State.SetupTotal.{IsSetUp, setup_lem}
use eth_cl_state_analyzer.Spec.Slashing.{slashing_intersection}
use eth_cl_state_analyzer.Spec.Intersection.{count, count-slashing_intersection}
use eth_cl_state_analyzer.Spec.State.Flags.{get_missing_flag_count}
use eth_cl_state_analyzer.Spec.State.MissingCount.{unflagged, get_missing_flag_count_lem}
use eth_cl_state_analyzer.Tests.Data.{epoch_2, state_at, two_validators}

slashed_in_epoch_2 : at (get_vals_per_status epoch_2) slashed_status ≡ 1 ∷ []
unfolding get_vals_per_status get_val_status
slashed_in_epoch_2 = refl

get_total_active_eff_balance_example :
    get_total_active_eff_balance epoch_2
    ≡ u64 (active_sum (λ v. v.effective_balance) 2 two_validators)
get_total_active_eff_balance_example = get_total_active_eff_balance_lem epoch_2

effective_in_epoch_2 : get_total_active_eff_balance epoch_2 ≡ 63_000_000_000
unfolding get_total_active_eff_balance vals_effective_balance active_marks is_active
effective_in_epoch_2 = refl

calculate_withdrawals_example :
    let ws = withdrawals_of epoch_2.blocks in
    (xs : List ℕ) × (calculate_withdrawals epoch_2
      ≡ ok (record epoch_2 {
        withdrawals = xs;
        withdrawals_num = add64 0 (length ws);
        total_withdrawals_amount = add64 0 (amount_of ws);
      }))
    × ((j : ℕ) → get_or xs j 0 ≡ u64 (amount_to j ws))
calculate_withdrawals_example =
    calculate_withdrawals_lem epoch_2 (omega arith) (omega arith)
      (omega arith, (omega arith, (omega arith, tt)))

withdrawn_in_epoch_2 :
    calculate_withdrawals epoch_2
    ≡ ok (record epoch_2 {
      withdrawals = 4 ∷ 35 ∷ [];
      withdrawals_num = 3;
      total_withdrawals_amount = 39;
    })
unfolding calculate_withdrawals for_each add_withdrawal
withdrawn_in_epoch_2 = refl

-- A ring of roots in which slot 2 repeats the root of slot 1, and later slots that of slot 3.
abbrev ring : List ℕ
ring = 1 ∷ 2 ∷ 2 ∷ 3 ∷ replicate 8188 4

ring_full : 8192 ≤ length ring
ring_full = omega (arith, length-replicate {A = ℕ} 8188 4)

track_missing_blocks_example :
    let p = state_at 0 ring [] in
    track_missing_blocks p
    ≡ ok (record p {
      missed_blocks =
          filterb (repeats p) (count_up (0 * 32) 31)
          ++ (if 94 == 0 * 32 + 31 then [] else (0 * 32 + 31) ∷ []);
    })
track_missing_blocks_example = track_missing_blocks_lem (state_at 0 ring []) ring_full (omega arith)

setup_example :
    let p = state_at 0 ring [] in
    (q : AgnosticState) × (setup (some two_validators) p ≡ ok (q, true)) × IsSetUp p q
setup_example = setup_lem (state_at 0 ring []) ring_full (omega arith) (omega arith)

count-slashing_intersection_example :
    count 4 (slashing_intersection (4 ∷ 2 ∷ []) (1 ∷ 4 ∷ []))
    ≡ count 4 (4 ∷ 2 ∷ []) * count 4 (1 ∷ 4 ∷ [])
count-slashing_intersection_example = count-slashing_intersection 4 (4 ∷ 2 ∷ []) (1 ∷ 4 ∷ [])

-- The second validator lacks the flag of row 0.
abbrev flagged : AgnosticState
flagged = record epoch_2 { prev_epoch_correct_flags = (true ∷ false ∷ []) ∷ [] }

get_missing_flag_count_example :
    get_missing_flag_count flagged 0
    ≡ ok (u64 (unflagged (sub64 2 1) two_validators (true ∷ false ∷ [])))
get_missing_flag_count_example = get_missing_flag_count_lem flagged 0 refl refl
