-- ===== src/Spec/State/MissingCount.antt =====
-- pkg/spec/state.go: the validators that `GetMissingFlagCount` counts.
use native.Mathlib.Nat.{add-zero, zero-add}
use eth_cl_state_analyzer.Common.{
  ℕ, suc, ◌+◌, ◌≡◌, refl, ap, ◌∙◌, Bool, not, ◌&&◌, List, [], ◌∷◌, length, get_elem?, drop,
  drop-cons, u64, sub64, add64-u64, if◌then◌else◌, arith, Bool-cases, inl, inr, some,
}
use eth_cl_state_analyzer.Common.Go.{ok, index-ok}
use eth_cl_state_analyzer.Client.{Validator}
use eth_cl_state_analyzer.Spec.State.Defs.{AgnosticState}
use eth_cl_state_analyzer.Spec.State.Status.{is_active}
use eth_cl_state_analyzer.Spec.State.Flags.{missing_count_from, get_missing_flag_count}

-- How many validators are active at an epoch and do not have the flag: their entry in its row is
-- false, or they have none.
abbrev pub unflagged : ℕ → List Validator → List Bool → ℕ
unflagged epoch [] row = 0
unflagged epoch (v ∷ vs) [] = (if is_active v epoch then 1 else 0) + unflagged epoch vs []
unflagged epoch (v ∷ vs) (flag ∷ row) =
    (if is_active v epoch && not flag then 1 else 0) + unflagged epoch vs row

count_loop :
    (p : AgnosticState) (i : ℕ) (vs : List Validator) (row : List Bool) (n : ℕ)
    → drop i p.validators ≡ vs
    → length row ≡ length vs
    → missing_count_from p i row (u64 n) ≡ ok (u64 (n + unflagged (sub64 p.epoch 1) vs row))
unfolding missing_count_from
count_loop p i [] [] n h k = rw (add-zero n) refl
count_loop p i (v ∷ vs) [] n h k = absurd (omega arith)
count_loop p i [] (flag ∷ row) n h k = absurd (omega arith)
count_loop p i (v ∷ vs) (flag ∷ row) n h k =
    let (here, next) = drop-cons p.validators i h in
    elim (Bool-cases (is_active v (sub64 p.epoch 1) && not flag)) [
      | inl e ↦
          rw (index-ok p.validators i here, e, add64-u64 n 1)
            (count_loop p (suc i) vs row (n + 1) next (omega arith) ∙ ap ok (omega arith))
      | inr e ↦
          rw (index-ok p.validators i here, e)
            (count_loop p (suc i) vs row n next (omega arith) ∙ ap ok (omega arith))
    ]

-- For a flag whose row has an entry for each validator, `GetMissingFlagCount` returns the number of
-- validators, modulo 2 ^ 64, that were active in the epoch before the state's and do not have the flag.
pub get_missing_flag_count_lem :
    (p : AgnosticState) (k : ℕ) {row : List Bool}
    → get_elem? p.prev_epoch_correct_flags k ≡ some row
    → length row ≡ length p.validators
    → get_missing_flag_count p k ≡ ok (u64 (unflagged (sub64 p.epoch 1) p.validators row))
unfolding get_missing_flag_count
get_missing_flag_count_lem p k {row} e h =
    rw (index-ok p.prev_epoch_correct_flags k e)
      (rw zero-add at (count_loop p 0 p.validators row 0 refl h))
