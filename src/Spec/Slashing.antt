-- ===== src/Spec/Slashing.antt =====
-- pkg/spec/slashing.go: slashings, and which validators can be slashed.
use eth_cl_state_analyzer.Common.{
  ℕ, Bool, not, ◌&&◌, List, [], ◌∷◌, ◌++◌, ◌==◌, leb, ltb, if◌then◌else◌,
}
use eth_cl_state_analyzer.Client.{Validator}

pub data SlashingReason : Type 0 where
  proposer_slashing attester_slashing : SlashingReason

pub record AgnosticSlashing : Type 0 where
  pub slashed_validator : ℕ
  pub slashed_by : ℕ
  pub slashing_reason : SlashingReason
  pub epoch : ℕ
  pub slot : ℕ
  pub valid : Bool

-- The inner loop of `SlashingIntersection`: one copy of `item` for each equal member of `set2`.
unfoldable pub matches_in : ℕ → List ℕ → List ℕ → List ℕ
matches_in item [] res = res
matches_in item (y ∷ set2) res = matches_in item set2 (if item == y then res ++ item ∷ [] else res)

unfoldable pub intersection_from : List ℕ → List ℕ → List ℕ → List ℕ
intersection_from [] set2 res = res
intersection_from (x ∷ set1) set2 res = intersection_from set1 set2 (matches_in x set2 res)

unfoldable pub slashing_intersection : List ℕ → List ℕ → List ℕ
unfolding intersection_from matches_in
slashing_intersection set1 set2 = intersection_from set1 set2 []

unfoldable pub is_slashable_validator : Validator → ℕ → Bool
is_slashable_validator v epoch =
    not v.slashed && leb v.activation_epoch epoch && ltb epoch v.withdrawable_epoch
