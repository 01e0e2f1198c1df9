-- ===== src/Spec/State/Balances.antt =====
-- pkg/spec/state.go: the total balances of the active validators.
use native.Mathlib.Nat.{add-zero, zero-add, add_assoc}
use eth_cl_state_analyzer.Common.{
  ℕ, suc, ◌+◌, ◌≤◌, ◌≡◌, refl, ◌∙◌, List, [], ◌∷◌, none, some, arith, ltb, if◌then◌else◌, length,
  get_elem?, u64, add64, drop, drop-cons, Bool-cases, inl, inr, add64-u64,
}
use eth_cl_state_analyzer.Common.Go.{Go, ok, ◌>>=◌, index, index-ok}
use eth_cl_state_analyzer.Client.{Validator}
use eth_cl_state_analyzer.Spec.State.Defs.{AgnosticState}
use eth_cl_state_analyzer.Spec.State.Status.{is_active}

-- The loop of `ValsEffectiveBalance` from index i on.
unfoldable pub vals_effective_from : List Validator → ℕ → List ℕ → ℕ → ℕ
vals_effective_from vs i [] balance = balance
vals_effective_from vs i (item ∷ items) balance = vals_effective_from vs (suc i) items (
    if ltb 0 item
    then elim (get_elem? vs i) [ none ↦ balance | some v ↦ add64 balance v.effective_balance ]
    else balance)

unfoldable pub vals_effective_balance : AgnosticState → List ℕ → ℕ
unfolding vals_effective_from
vals_effective_balance p val_list = vals_effective_from p.validators 0 val_list 0

-- `val_array`: 1 for each active validator, 0 for the others.
unfoldable pub active_marks : List Validator → ℕ → List ℕ
active_marks [] epoch = []
active_marks (v ∷ vs) epoch = (if is_active v epoch then add64 0 1 else 0) ∷ active_marks vs epoch

unfoldable pub get_total_active_eff_balance : AgnosticState → ℕ
get_total_active_eff_balance p = vals_effective_balance p (active_marks p.validators p.epoch)

-- The loop of `GetTotalActiveRealBalance` from index i on.
unfoldable pub real_balance_from : List ℕ → ℕ → ℕ → List Validator → ℕ → Go ℕ
real_balance_from balances epoch i [] total = ok total
real_balance_from balances epoch i (v ∷ vs) total =
    (if is_active v epoch then index balances i >>= (λ b. ok (add64 total b)) else ok total)
    >>= λ t. real_balance_from balances epoch (suc i) vs t

unfoldable pub get_total_active_real_balance : AgnosticState → Go ℕ
unfolding real_balance_from
get_total_active_real_balance p = real_balance_from p.balances p.epoch 0 p.validators 0

-- The sum of an amount of each active validator.
abbrev pub active_sum : (Validator → ℕ) → ℕ → List Validator → ℕ
active_sum amount epoch [] = 0
active_sum amount epoch (v ∷ vs) =
    (if is_active v epoch then amount v else 0) + active_sum amount epoch vs

-- The sum of the balances that stand beside the active validators.
abbrev pub active_real : List Validator → List ℕ → ℕ → ℕ
active_real [] bs epoch = 0
active_real (v ∷ vs) [] epoch = 0
active_real (v ∷ vs) (b ∷ bs) epoch = (if is_active v epoch then b else 0) + active_real vs bs epoch

module _ (epoch : ℕ) (all : List Validator) where
  effective_from :
      (i : ℕ) (vs : List Validator) (acc : ℕ)
      → drop i all ≡ vs
      → vals_effective_from all i (active_marks vs epoch) (u64 acc)
        ≡ u64 (acc + active_sum (λ v. v.effective_balance) epoch vs)
  unfolding vals_effective_from active_marks
  effective_from i [] acc h = omega arith
  effective_from i (v ∷ vs) acc h =
      let (here, next) = drop-cons all i h in
      elim (Bool-cases (is_active v epoch)) [
        | inl e ↦
            rw (e, here, add64-u64 acc v.effective_balance)
              (effective_from (suc i) vs (acc + v.effective_balance) next ∙ omega arith)
        | inr e ↦ rw (e) (effective_from (suc i) vs acc next ∙ omega arith)
      ]

  real_from :
      (balances : List ℕ) (i : ℕ) (vs : List Validator) (bs : List ℕ) (acc : ℕ)
      → drop i balances ≡ bs
      → length vs ≤ length bs
      → real_balance_from balances epoch i vs (u64 acc) ≡ ok (u64 (acc + active_real vs bs epoch))
  unfolding real_balance_from
  real_from balances i [] bs acc h k = rw add-zero
  real_from balances i (v ∷ vs) [] acc h k = absurd (omega arith)
  real_from balances i (v ∷ vs) (b ∷ bs) acc h k =
      let (here, next) = drop-cons balances i h in
      elim (Bool-cases (is_active v epoch)) [
        | inl e ↦
            rw (e, index-ok balances i here, add64-u64 acc b)
              (rw (real_from balances (suc i) vs bs (acc + b) next (omega arith))
                (ground (arith, add_assoc acc b (active_real vs bs epoch))))
        | inr e ↦ rw (e, zero-add) (real_from balances (suc i) vs bs acc next (omega arith))
      ]

-- The total effective balance, found by marking the active validators and then adding over the
-- marks, is the sum of the effective balances of the active validators, modulo 2 ^ 64.
pub get_total_active_eff_balance_lem :
    (p : AgnosticState)
    → get_total_active_eff_balance p
      ≡ u64 (active_sum (λ v. v.effective_balance) p.epoch p.validators)
unfolding get_total_active_eff_balance vals_effective_balance
get_total_active_eff_balance_lem p =
    rw zero-add at (effective_from p.epoch p.validators 0 p.validators 0 refl)

-- With a balance for each validator, the total real balance is returned, and it is the sum of the
-- balances of the active validators, modulo 2 ^ 64.
pub get_total_active_real_balance_lem :
    (p : AgnosticState)
    → length p.validators ≤ length p.balances
    → get_total_active_real_balance p ≡ ok (u64 (active_real p.validators p.balances p.epoch))
unfolding get_total_active_real_balance
get_total_active_real_balance_lem p h =
    rw zero-add at (real_from p.epoch p.validators p.balances 0 p.validators p.balances 0 refl h)
