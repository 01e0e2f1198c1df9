-- ===== src/Metrics/Ordering.antt =====
-- pkg/spec/metrics/state_phase0.go: `orderAttestationsBySlot` on attestations that come in the order
-- of their inclusion, and on attestations that do not.
use mathlib.Core.List.{append-nil, append_assoc}
use native.Mathlib.Nat.{add-zero, zero-add}
use eth_cl_state_analyzer.Common.{
  ℕ, suc, ◌+◌, ◌≤◌, ◌<◌, ◌≡◌, refl, sym, ◌∙◌, ap, true, false, List, [], ◌∷◌, ◌++◌, ltb, length,
  take, drop, All, arith, drop-cons, lt→ltb,
}
use eth_cl_state_analyzer.Common.Go.{ok, index-ok}
use eth_cl_state_analyzer.Client.{PendingAttestation}
use eth_cl_state_analyzer.Metrics.Order.{
  inclusion_slot, position_from, insert_at, order_from, order_attestations_by_slot,
}

-- Each attestation is included no later than those behind it.
abbrev pub IsOrdered : List PendingAttestation → Type 0
IsOrdered [] = Unit
IsOrdered (a ∷ as') = All (λ b. inclusion_slot a ≤ inclusion_slot b) as' × IsOrdered as'

-- The search passes over all that are included no later.
position-past :
    (all xs ys : List PendingAttestation) (slot j : ℕ)
    → drop j all ≡ xs ++ ys
    → All (λ x. inclusion_slot x ≤ slot) xs
    → position_from all slot j (length xs) ≡ ok (j + length xs)
unfolding position_from
position-past all [] ys slot j h q = rw add-zero
position-past all (x ∷ xs) ys slot j h q =
    let (here, next) = drop-cons all j h in
    let later : ltb slot (inclusion_slot x) ≡ false = ground (arith, q.0) in
    rw (index-ok all j here, later)
      (position-past all xs ys slot (suc j) next q.1 ∙ ap ok (omega arith))

All-middle :
    (P : PendingAttestation → Type 0) (xs : List PendingAttestation) (a : PendingAttestation)
    (ys : List PendingAttestation)
    → All P (xs ++ a ∷ ys)
    → P a
All-middle P [] a ys h = h.0
All-middle P (x ∷ xs) a ys h = All-middle P xs a ys h.1

IsOrdered-before :
    (xs : List PendingAttestation) (a : PendingAttestation) (ys : List PendingAttestation)
    → IsOrdered (xs ++ a ∷ ys)
    → All (λ x. inclusion_slot x ≤ inclusion_slot a) xs
IsOrdered-before [] a ys h = tt
IsOrdered-before (x ∷ xs) a ys h = (
  All-middle (λ b. inclusion_slot x ≤ inclusion_slot b) xs a ys h.0,
  IsOrdered-before xs a ys h.1,
)

insert_at-end :
    (ordered : List PendingAttestation) (a : PendingAttestation)
    → insert_at ordered (length ordered) a ≡ ordered ++ a ∷ []
unfolding insert_at
insert_at-end ordered a = rw (take-length ordered, ltb-self (length ordered))
  where
    take-length : (xs : List PendingAttestation) → take (length xs) xs ≡ xs
    take-length [] = refl
    take-length (x ∷ xs) = ap (◌∷◌ x) (take-length xs)

    ltb-self : (n : ℕ) → ltb n n ≡ false
    ltb-self n = ground arith

-- What is in order already is taken over as it stands, whatever comes later.
order_from-prefix :
    (all rest more ordered : List PendingAttestation)
    → all ≡ ordered ++ (rest ++ more)
    → IsOrdered (ordered ++ rest)
    → order_from all (rest ++ more) ordered ≡ order_from all more (ordered ++ rest)
unfolding order_from
order_from-prefix all [] more ordered e h = rw append-nil
order_from-prefix all (a ∷ rest) more ordered e h =
    let past : position_from all (inclusion_slot a) 0 (length ordered) ≡ ok (length ordered) =
      position-past all ordered (a ∷ (rest ++ more)) (inclusion_slot a) 0 e
        (IsOrdered-before ordered a rest h)
      ∙ ap ok (zero-add (length ordered)) in
    let regroup : (ordered ++ a ∷ []) ++ rest ≡ ordered ++ a ∷ rest =
      append_assoc ordered (a ∷ []) rest in
    rw (past, insert_at-end ordered a)
      (order_from-prefix all rest more (ordered ++ a ∷ [])
          (e ∙ sym (append_assoc ordered (a ∷ []) (rest ++ more))) (rw regroup h)
        ∙ rw regroup)

-- Attestations that come in the order of their inclusion are returned as they came.
pub order_attestations_by_slot-IsOrdered :
    (attestations : List PendingAttestation)
    → IsOrdered attestations
    → order_attestations_by_slot attestations ≡ ok attestations
unfolding order_attestations_by_slot
order_attestations_by_slot-IsOrdered attestations h =
    rw append-nil at
      (order_from-prefix attestations attestations [] [] (sym (append-nil attestations)) h)

order_from-early :
    (a : PendingAttestation) (rest : List PendingAttestation) (b : PendingAttestation)
    (all : List PendingAttestation)
    → inclusion_slot b < inclusion_slot a
    → order_from (a ∷ all) (b ∷ []) (a ∷ rest) ≡ ok (b ∷ b ∷ rest)
unfolding order_from
order_from-early a rest b all lt =
    let early : ltb (inclusion_slot b) (inclusion_slot a) ≡ true = lt→ltb _ _ lt in
    let room : ltb 0 (suc (length rest)) ≡ true = lt→ltb _ _ (omega arith) in rw (early, room)

-- If the last attestation alone is out of order, and was included before the first, then the first
-- attestation is lost, and the last is in the result twice.
pub order_attestations_by_slot_loses :
    (a : PendingAttestation) (rest : List PendingAttestation) (b : PendingAttestation)
    → IsOrdered (a ∷ rest)
    → inclusion_slot b < inclusion_slot a
    → order_attestations_by_slot (a ∷ (rest ++ b ∷ [])) ≡ ok (b ∷ b ∷ rest)
unfolding order_attestations_by_slot
order_attestations_by_slot_loses a rest b h lt =
    order_from-prefix (a ∷ (rest ++ b ∷ [])) (a ∷ rest) (b ∷ []) [] refl h
    ∙ order_from-early a rest b (rest ++ b ∷ []) lt
