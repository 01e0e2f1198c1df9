-- ===== src/Spec/Intersection.antt =====
-- pkg/spec/slashing.go: `SlashingIntersection` and how often an index occurs.
use eth_cl_state_analyzer.Common.{ℕ, ◌+◌, ◌*◌, ◌≡◌, List, [], ◌∷◌, ◌++◌, ◌==◌, if◌then◌else◌, arith}
use eth_cl_state_analyzer.Spec.Slashing.{matches_in, intersection_from, slashing_intersection}

-- How often v occurs.
abbrev pub count : ℕ → List ℕ → ℕ
count v [] = 0
count v (x ∷ xs) = (if v == x then 1 else 0) + count v xs

count-append : (v : ℕ) (xs ys : List ℕ) → count v (xs ++ ys) ≡ count v xs + count v ys
count-append v [] ys = omega arith
count-append v (x ∷ xs) ys = omega (arith, count-append v xs ys)

count-matches_in :
    (v item : ℕ) (ys res : List ℕ)
    → count v (matches_in item ys res) ≡ count v res + (if v == item then count v ys else 0)
unfolding matches_in
count-matches_in v item [] res = ground arith
count-matches_in v item (y ∷ ys) res = ground (
  arith,
  count-matches_in v item ys res,
  count-matches_in v item ys (res ++ item ∷ []),
  count-append v res (item ∷ []),
)

count-from :
    (v : ℕ) (xs ys res : List ℕ)
    → count v (intersection_from xs ys res) ≡ count v res + count v xs * count v ys
unfolding intersection_from
count-from v [] ys res = omega arith
count-from v (x ∷ xs) ys res =
    ground (arith, count-from v xs ys (matches_in x ys res), count-matches_in v x ys res)

-- An index occurs in the intersection as often as the product of its two counts: once if it is once
-- in each list, and not at all if it is missing in one.
pub count-slashing_intersection :
    (v : ℕ) (xs ys : List ℕ) → count v (slashing_intersection xs ys) ≡ count v xs * count v ys
unfolding slashing_intersection
count-slashing_intersection v xs ys = omega (arith, count-from v xs ys [])
