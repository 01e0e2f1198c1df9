-- ===== src/Utils/Others.antt =====
-- pkg/utils/validator_indexes.go: `ObtainMissing` and the members of the pools.
use eth_cl_state_analyzer.Common.{
  ℕ, zero, suc, ◌+◌, ◌<◌, ◌≡◌, refl, sym, ◌∙◌, false, Bool, not, ◌||◌, List, [], ◌∷◌, ◌++◌, length,
  ◌==◌, if◌then◌else◌, All, arith, filterb, count_up, get_or, replicate, get_or-replicate,
  length-replicate, drop, drop-cons, get_elem?, some, Bool-cases, inl, inr, ap,
}
use eth_cl_state_analyzer.Common.Go.{ok, update, update-ok, for_each}
use mathlib.Core.List.{append-nil, append_assoc}
use eth_cl_state_analyzer.Utils.Batches.{unmarked_from, obtain_missing}

-- An index is in a list; an index is in some list.
abbrev pub is_in : ℕ → List ℕ → Bool
is_in j [] = false
is_in j (x ∷ xs) = x == j || is_in j xs

abbrev pub in_some : List (List ℕ) → ℕ → Bool
in_some [] j = false
in_some (p ∷ ps) j = is_in j p || in_some ps j

-- Marks for n validators: 1 at the marked ones, and 0 elsewhere.
record Marks (n : ℕ) (marked : ℕ → Bool) (ms : List ℕ) : Type 0 where
  size : length ms ≡ n
  marks : (j : ℕ) → j < n → get_or ms j 0 ≡ (if marked j then 1 else 0)

mark_pool :
    (n : ℕ) (pool : List ℕ) (marked : ℕ → Bool) (ms : List ℕ)
    → All (λ x. x < n) pool
    → Marks n marked ms
    → (ms' : List ℕ) × (for_each (λ item t. update t item (λ _. 1)) pool ms ≡ ok ms')
      × Marks n (λ j. is_in j pool || marked j) ms'
unfolding for_each
mark_pool n [] marked ms q m = (ms, refl, record { size = m.size; marks = m.marks })
mark_pool n (x ∷ pool) marked ms q m =
    let (ms₁, e₁, l, g) = update-ok ms x (λ _. 1) (omega (arith, m.size, q.0)) in
    let m₁ : Marks n (λ j. x == j || marked j) ms₁ = record {
      size = omega (arith, m.size);
      marks = λ j h. ground (arith, g j, m.marks j h);
    } in
    let (ms₂, e₂, m₂) = mark_pool n pool (λ j. x == j || marked j) ms₁ q.1 m₁ in
    (ms₂, rw (e₁) e₂, record { size = m₂.size; marks = λ j h. m₂.marks j h ∙ ground arith })

mark_pools :
    (n : ℕ) (pools : List (List ℕ)) (marked : ℕ → Bool) (ms : List ℕ)
    → All (All (λ x. x < n)) pools
    → Marks n marked ms
    → (ms' : List ℕ) × (for_each
          (λ pool t. for_each (λ item u. update u item (λ _. 1)) pool t)
          pools
          ms
        ≡ ok ms')
      × Marks n (λ j. in_some pools j || marked j) ms'
unfolding for_each
mark_pools n [] marked ms q m = (ms, refl, record { size = m.size; marks = m.marks })
mark_pools n (pool ∷ pools) marked ms q m =
    let (ms₁, e₁, m₁) = mark_pool n pool marked ms q.0 m in
    let (ms₂, e₂, m₂) = mark_pools n pools (λ j. is_in j pool || marked j) ms₁ q.1 m₁ in
    (ms₂, rw (e₁) e₂, record { size = m₂.size; marks = λ j h. m₂.marks j h ∙ ground arith })

get_or-some : (xs : List ℕ) (i : ℕ) {x : ℕ} → get_elem? xs i ≡ some x → x ≡ get_or xs i 0
get_or-some [] i h = cc
get_or-some (x ∷ xs) zero h = cc
get_or-some (x ∷ xs) (suc i) h = get_or-some xs i h

unmarked_loop :
    (n : ℕ) (marked : ℕ → Bool) (all : List ℕ) (i : ℕ) (items result : List ℕ)
    → Marks n marked all
    → drop i all ≡ items
    → i + length items ≡ n
    → unmarked_from i items result
      ≡ result ++ filterb (λ j. not (marked j)) (count_up i (length items))
unfolding unmarked_from
unmarked_loop n marked all i [] result m h e = sym (append-nil result)
unmarked_loop n marked all i (item ∷ items) result m h e =
    let (here, next) = drop-cons all i h in
    let mark : item ≡ (if marked i then 1 else 0) =
      get_or-some all i here ∙ m.marks i (omega arith) in
    elim (Bool-cases (marked i)) [
      | inl on ↦
          let one : item ≡ 1 = ground arith in
          rw (on, one) (unmarked_loop n marked all (suc i) items result m next (omega arith))
      | inr off ↦
          let nought : item ≡ 0 = ground arith in
          rw (off, nought)
            (unmarked_loop n marked all (suc i) items (result ++ i ∷ []) m next (omega arith)
              ∙ append_assoc result (i ∷ [])
                  (filterb (λ j. not (marked j)) (count_up (suc i) (length items))))
    ]

-- If all members of the pools are validators, `ObtainMissing` returns, in order, the validators that
-- are in no pool.
pub obtain_missing_lem :
    (n : ℕ) (pools : List (List ℕ))
    → All (All (λ x. x < n)) pools
    → obtain_missing n pools ≡ ok (filterb (λ j. not (in_some pools j)) (count_up 0 n))
unfolding obtain_missing
obtain_missing_lem n pools q =
    let zeros : Marks n (λ _. false) (replicate n 0) = record {
      size = length-replicate {A = ℕ} n 0;
      marks = λ j _. get_or-replicate n j;
    } in
    let (ms, e, m) = mark_pools n pools (λ _. false) (replicate n 0) q zeros in
    let only : Marks n (in_some pools) ms = record {
      size = m.size;
      marks = λ j h. m.marks j h ∙ ground arith;
    } in
    rw e (
      ap ok
        (unmarked_loop n (in_some pools) ms 0 ms [] only refl (omega (arith, m.size)) ∙ rw m.size))
