-- ===== src/Spec/State/Partition.antt =====
-- pkg/spec/state.go: the lists of `GetValsPerStatus` and the counters.
use mathlib.Core.List.{append-nil, append_assoc}
use eth_cl_state_analyzer.Common.{
  ℕ, zero, suc, ◌+◌, ◌≡◌, refl, ◌↔◌, sym, ◌∙◌, Bool, true, false, [], ◌∷◌, ◌++◌, some, arith,
  if◌then◌else◌, length, get_elem?, count_up, filterb, length-append,
}
use eth_cl_state_analyzer.Spec.Constants.{
  ValidatorStatus, queue_status, active_status, exit_status, slashed_status,
}
use eth_cl_state_analyzer.Client.{Validator}
use eth_cl_state_analyzer.Spec.State.Defs.{AgnosticState}
use eth_cl_state_analyzer.Spec.State.Status.{
  is_active, get_val_status, ByStatus, at, push, vals_per_status_from, get_vals_per_status,
  get_vals_state_nums,
}

abbrev pub same : ValidatorStatus → ValidatorStatus → Bool
same queue_status queue_status = true
same active_status active_status = true
same exit_status exit_status = true
same slashed_status slashed_status = true
same _ _ = false

at-push :
    (r : ByStatus) (t s : ValidatorStatus) (i : ℕ)
    → at (push r t i) s ≡ (if same t s then at r s ++ i ∷ [] else at r s)
at-push r queue_status queue_status i = refl
at-push r _ _ i = ground arith

at-from :
    (p : AgnosticState) (s : ValidatorStatus) (i n : ℕ) (r : ByStatus)
    → at (vals_per_status_from p i n r) s
      ≡ at r s ++ filterb (λ j. same (get_val_status p j) s) (count_up i n)
unfolding vals_per_status_from
at-from p s i zero r = sym (append-nil (at r s))
at-from p s i (suc n) r =
    at-from p s (suc i) n (push r (get_val_status p i) i)
    ∙ rw (at-push r (get_val_status p i) s i) (
        ground (
          arith,
          append_assoc (at r s) (i ∷ [])
              (filterb (λ j. same (get_val_status p j) s) (count_up (suc i) n)),
        ))

abbrev none_yet : ByStatus
none_yet = record { queue = []; active = []; exit = []; slashed = [] }

at-none_yet : (s : ValidatorStatus) → at none_yet s ≡ []
at-none_yet queue_status = refl
at-none_yet _ = refl

-- The list of a status holds the indices of the validators of that status, in order.
pub get_vals_per_status_lem :
    (p : AgnosticState) (s : ValidatorStatus)
    → at (get_vals_per_status p) s
      ≡ filterb (λ i. same (get_val_status p i) s) (count_up 0 (length p.validators))
unfolding get_vals_per_status
get_vals_per_status_lem p s = at-from p s 0 (length p.validators) none_yet ∙ rw (at-none_yet s)

-- A validator in the list has active status exactly if it is active at the state's epoch and is
-- not slashed.
pub get_val_status-active :
    (p : AgnosticState) (i : ℕ) {v : Validator}
    → get_elem? p.validators i ≡ some v
    → (get_val_status p i ≡ active_status) ↔ ((is_active v p.epoch ≡ true) × (v.slashed ≡ false))
unfolding get_val_status is_active
get_val_status-active p i h = (λ e. ground arith, λ e. ground arith)

total : ByStatus → ℕ
total r = length r.queue + length r.active + length r.exit + length r.slashed

total-push : (r : ByStatus) (s : ValidatorStatus) (i : ℕ) → total (push r s i) ≡ suc (total r)
unfolding total
total-push r queue_status i = omega (arith, length-append r.queue (i ∷ []))
total-push r active_status i = omega (arith, length-append r.active (i ∷ []))
total-push r exit_status i = omega (arith, length-append r.exit (i ∷ []))
total-push r slashed_status i = omega (arith, length-append r.slashed (i ∷ []))

total-from :
    (p : AgnosticState) (i n : ℕ) (r : ByStatus)
    → total (vals_per_status_from p i n r) ≡ n + total r
unfolding vals_per_status_from
total-from p i zero r = omega arith
total-from p i (suc n) r = omega (
  arith,
  total-from p (suc i) n (push r (get_val_status p i) i),
  total-push r (get_val_status p i) i,
)

-- The four counters add up to the number of validators.
pub get_vals_state_nums_total :
    (p : AgnosticState)
    → let q = get_vals_state_nums p in
      q.num_queued_vals + q.num_active_vals + q.num_exited_vals + q.num_slashed_vals
      ≡ length p.validators
unfolding get_vals_state_nums get_vals_per_status total
get_vals_state_nums_total p = omega (arith, total-from p 0 (length p.validators) none_yet)
