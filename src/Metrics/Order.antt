-- ===== src/Metrics/Order.antt =====
-- pkg/spec/metrics/state_phase0.go: `orderAttestationsBySlot`. The slice `orderedAttestations[:j]`
-- shares its array with `orderedAttestations`, so where j is in range the first `append` writes
-- over the element at j before the second `append` copies from there on. What the two calls
-- give does not depend on the capacity: with j in range there is always room to write.
use eth_cl_state_analyzer.Common.{
  ℕ, zero, suc, List, [], ◌∷◌, ◌++◌, if◌then◌else◌, add64, ltb, length, take, drop, set,
}
use eth_cl_state_analyzer.Common.Go.{Go, ok, ◌>>=◌, index}
use eth_cl_state_analyzer.Client.{PendingAttestation}

-- `attestation.Data.Slot + attestation.InclusionDelay`
abbrev pub inclusion_slot : PendingAttestation → ℕ
inclusion_slot a = add64 a.att.slot a.inclusion_delay

-- The inner loop from j on, with n rounds left. It compares with the elements of the input, not
-- with those that are in order.
unfoldable pub position_from : List PendingAttestation → ℕ → ℕ → ℕ → Go ℕ
position_from attestations a_slot j zero = ok j
position_from attestations a_slot j (suc n) =
    let rest = position_from attestations a_slot (suc j) n in
    index attestations j >>= λ b. if ltb a_slot (inclusion_slot b) then ok j else rest

-- The two `append` calls.
unfoldable pub insert_at :
    List PendingAttestation → ℕ → PendingAttestation → List PendingAttestation
insert_at ordered j a =
    take j ordered ++ a ∷ (if ltb j (length ordered) then drop j (set ordered j a) else [])

-- The outer loop over the rest of the input.
unfoldable pub order_from :
    List PendingAttestation
    → List PendingAttestation
    → List PendingAttestation
    → Go (List PendingAttestation)
unfolding position_from insert_at
order_from attestations [] ordered = ok ordered
order_from attestations (a ∷ rest) ordered =
    position_from attestations (inclusion_slot a) 0 (length ordered) >>= λ j.
    order_from attestations rest (insert_at ordered j a)

unfoldable pub order_attestations_by_slot : List PendingAttestation → Go (List PendingAttestation)
unfolding order_from
order_attestations_by_slot attestations = order_from attestations attestations []
