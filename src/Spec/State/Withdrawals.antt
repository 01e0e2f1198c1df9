-- ===== src/Spec/State/Withdrawals.antt =====
-- pkg/spec/state.go: `CalculateWithdrawals` and the withdrawals of the blocks.
use native.Mathlib.Nat.{add-zero}
use eth_cl_state_analyzer.Common.{
  ℕ, ◌+◌, ◌^◌, ◌<◌, ◌≡◌, refl, sym, ◌∙◌, List, [], ◌∷◌, ◌++◌, arith, ◌==◌, if◌then◌else◌, length,
  u64, add64, replicate, get_or, All, length-replicate, get_or-replicate,
}
use eth_cl_state_analyzer.Common.Go.{ok, update-ok, for_each, for_each-append, >>=-congr}
use eth_cl_state_analyzer.Client.{Withdrawal}
use eth_cl_state_analyzer.Spec.Block.{AgnosticBlock}
use eth_cl_state_analyzer.Spec.State.Defs.{AgnosticState}
use eth_cl_state_analyzer.Spec.State.Flows.{add_withdrawal, calculate_withdrawals}

-- All withdrawals of the blocks, in order.
abbrev pub withdrawals_of : List AgnosticBlock → List Withdrawal
withdrawals_of [] = []
withdrawals_of (b ∷ bs) = b.execution_payload.withdrawals ++ withdrawals_of bs

-- What goes to validator j, and what goes out in all.
abbrev pub amount_to : ℕ → List Withdrawal → ℕ
amount_to j [] = 0
amount_to j (w ∷ ws) = (if w.validator_index == j then w.amount else 0) + amount_to j ws

abbrev pub amount_of : List Withdrawal → ℕ
amount_of [] = 0
amount_of (w ∷ ws) = w.amount + amount_of ws

flatten_loop :
    (bs : List AgnosticBlock) (s : AgnosticState)
    → for_each (λ b t. for_each add_withdrawal b.execution_payload.withdrawals t) bs s
      ≡ for_each add_withdrawal (withdrawals_of bs) s
unfolding for_each
flatten_loop [] s = refl
flatten_loop (b ∷ bs) s =
    >>=-congr (for_each add_withdrawal b.execution_payload.withdrawals s) _ _
      (λ t. flatten_loop bs t)
    ∙ sym (for_each-append add_withdrawal b.execution_payload.withdrawals (withdrawals_of bs) s)

pay_withdrawals :
    (ws : List Withdrawal) (s : AgnosticState) (base : ℕ → ℕ) (n total : ℕ)
    → All (λ w. w.validator_index < length s.withdrawals) ws
    → s.withdrawals_num ≡ u64 n
    → s.total_withdrawals_amount ≡ u64 total
    → ((j : ℕ) → get_or s.withdrawals j 0 ≡ u64 (base j))
    → (xs : List ℕ) × (for_each add_withdrawal ws s
        ≡ ok (record s {
          withdrawals = xs;
          withdrawals_num = u64 (n + length ws);
          total_withdrawals_amount = u64 (total + amount_of ws);
        }))
      × ((j : ℕ) → get_or xs j 0 ≡ u64 (base j + amount_to j ws))
unfolding for_each add_withdrawal
pay_withdrawals [] s base n total q en et eb =
    (s.withdrawals, rw (add-zero, add-zero, ← en, ← et), λ j. rw add-zero (eb j))
pay_withdrawals (w ∷ ws) s base n total q en et eb =
    let (ys, e, l, g) = update-ok s.withdrawals w.validator_index (λ a. add64 a w.amount) q.0 in
    let base' : ℕ → ℕ = λ j. base j + (if w.validator_index == j then w.amount else 0) in
    let s' : AgnosticState = record s {
      withdrawals = ys;
      withdrawals_num = add64 s.withdrawals_num 1;
      total_withdrawals_amount = add64 s.total_withdrawals_amount w.amount;
    } in
    let (xs, e', g') =
      pay_withdrawals ws s' base' (n + 1) (total + w.amount) (rw l q.1) (omega arith) (omega arith)
        (λ j. rw (g j) (ground (arith, eb j))) in
    (xs, rw (e, e') (ground arith), λ j. rw (g' j) (omega arith))

-- If every withdrawal of the blocks names a validator of the state, `CalculateWithdrawals` returns.
-- It then changes three fields alone: each validator has the sum of the amounts withdrawn to it,
-- and the number and the total amount of the withdrawals are added to what the state held before,
-- all modulo 2 ^ 64.
pub calculate_withdrawals_lem :
    (p : AgnosticState)
    → p.withdrawals_num < 2 ^ 64
    → p.total_withdrawals_amount < 2 ^ 64
    → All (λ w. w.validator_index < length p.validators) (withdrawals_of p.blocks)
    → let ws = withdrawals_of p.blocks in
      (xs : List ℕ) × (calculate_withdrawals p
        ≡ ok (record p {
          withdrawals = xs;
          withdrawals_num = add64 p.withdrawals_num (length ws);
          total_withdrawals_amount = add64 p.total_withdrawals_amount (amount_of ws);
        }))
      × ((j : ℕ) → get_or xs j 0 ≡ u64 (amount_to j ws))
unfolding calculate_withdrawals
calculate_withdrawals_lem p hn ht q =
    let s : AgnosticState = record p { withdrawals = replicate (length p.validators) 0 } in
    let (xs, e, g) =
      pay_withdrawals (withdrawals_of p.blocks) s (λ _. 0) p.withdrawals_num
        p.total_withdrawals_amount (rw (length-replicate {A = ℕ} (length p.validators) 0) q)
        (omega arith) (omega arith)
        (λ j. rw (get_or-replicate (length p.validators) j) (omega arith)) in
    (xs, flatten_loop p.blocks s ∙ e, λ j. rw (g j) (omega arith))
