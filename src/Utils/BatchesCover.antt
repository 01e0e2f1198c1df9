-- ===== src/Utils/BatchesCover.antt =====
-- pkg/utils/validator_indexes.go: the batches of `DivideValidatorsBatches`, and the end of its loop.
use mathlib.Core.List.{append-nil, append_assoc}
use native.Mathlib.Nat.{zero-add, div-lt_iff_lt-mul}
use eth_cl_state_analyzer.Common.{
  ℕ, zero, suc, ◌+◌, ◌-◌, ◌*◌, ◌/◌, ◌≤◌, ◌<◌, ◌≡◌, refl, sym, ap, ◌∙◌, inl, inr, true, false, List,
  [], ◌∷◌, ◌++◌, none, some, length, ltb, if◌then◌else◌, take, drop, arith, All, Bool-cases, lt→ltb,
}
use eth_cl_state_analyzer.Common.Go.{ok, quot}
use eth_cl_state_analyzer.Utils.Batches.{PoolKeys, batches_from, divide_validators_batches}

-- The members of the batches, in order.
abbrev pub members : List PoolKeys → List ℕ
members [] = []
members (b ∷ bs) = b.val_idxs ++ members bs

members-append : (xs ys : List PoolKeys) → members (xs ++ ys) ≡ members xs ++ members ys
members-append [] ys = refl
members-append (x ∷ xs) ys =
    rw (members-append xs ys) (sym (append_assoc x.val_idxs (members xs) (members ys)))

take-drop : (n : ℕ) (xs : List ℕ) → take n xs ++ drop n xs ≡ xs
take-drop zero xs = refl
take-drop (suc n) [] = refl
take-drop (suc n) (x ∷ xs) = ap (◌∷◌ x) (take-drop n xs)

drop-nil : (n : ℕ) → drop {A = ℕ} n [] ≡ []
drop-nil zero = refl
drop-nil (suc n) = refl

drop-drop : (m n : ℕ) (xs : List ℕ) → drop m (drop n xs) ≡ drop (n + m) xs
drop-drop m zero xs = rw (zero-add m) refl
drop-drop m (suc n) [] = rw (drop-nil m, drop-nil (suc n + m)) refl
drop-drop m (suc n) (x ∷ xs) =
    let next : suc n + m ≡ suc (n + m) = omega arith in rw next (drop-drop m n xs)

drop-all : (n : ℕ) (xs : List ℕ) → length xs ≤ n → drop n xs ≡ []
drop-all zero [] h = refl
drop-all zero (x ∷ xs) h = absurd (omega arith)
drop-all (suc n) [] h = refl
drop-all (suc n) (x ∷ xs) h = drop-all n xs (omega arith)

length-take : (n : ℕ) (xs : List ℕ) → length (take n xs) ≤ n
length-take zero xs = omega arith
length-take (suc n) [] = omega arith
length-take (suc n) (x ∷ xs) = omega (arith, length-take n xs)

abbrev AreAtMost : ℕ → List PoolKeys → Type 0
AreAtMost step = All (λ b. length b.val_idxs ≤ step)

AreAtMost-append :
    (step : ℕ) (xs : List PoolKeys) (b : PoolKeys)
    → AreAtMost step xs
    → length b.val_idxs ≤ step
    → AreAtMost step (xs ++ b ∷ [])
AreAtMost-append step [] b q h = (h, tt)
AreAtMost-append step (x ∷ xs) b q h = (q.0, AreAtMost-append step xs b q.1 h)

-- The next member of the batches.
abbrev next_batch : ℕ → ℕ → List ℕ → PoolKeys
next_batch included end input = record {
  pool_name = 0;
  val_idxs = take (end - included) (drop included input);
}

cover_loop :
    (fuel : ℕ) (input : List ℕ) (step included : ℕ) (result : List PoolKeys)
    → 0 < step
    → included ≤ length input
    → length input < included + fuel
    → members result ++ drop included input ≡ input
    → AreAtMost step result
    → (bs : List PoolKeys) × (batches_from fuel input step included result ≡ some bs)
      × (members bs ≡ input)
      × AreAtMost step bs
unfolding batches_from
cover_loop zero input step included result h le f e q = absurd (omega arith)
cover_loop (suc fuel) input step included result h le f e q =
    elim (Bool-cases (ltb included (length input))) [
      | inl more ↦
          let end : ℕ =
            if ltb (length input) (included + step) then length input else included + step in
          let b = next_batch included end input in
          let joined : members (result ++ b ∷ []) ++ drop end input ≡ input =
            rejoin end (ground arith) in
          let small : length b.val_idxs ≤ step =
            ground (arith, length-take (end - included) (drop included input)) in
          let (bs, r, c, s) =
            cover_loop fuel input step end (result ++ b ∷ []) h (ground arith) (ground arith) joined
              (AreAtMost-append step result b q small) in
          (bs, rw more r, c, s)
      | inr done ↦
          let over : drop included input ≡ [] = drop-all included input (ground arith) in
          (result, rw done refl, sym (append-nil (members result)) ∙ rw over at e, q)
    ]
  where
    rejoin :
        (end : ℕ)
        → included ≤ end
        → members (result ++ next_batch included end input ∷ []) ++ drop end input ≡ input
    rejoin end k =
        let rest = drop included input in
        let back : included + (end - included) ≡ end = omega arith in
        let tail : drop end input ≡ drop (end - included) rest =
          rw back at (sym (drop-drop (end - included) included input)) in
        rw
          (
            members-append result (next_batch included end input ∷ []),
            append-nil (take (end - included) rest),
            tail,
            append_assoc (members result) (take (end - included) rest) (drop (end - included) rest),
            take-drop (end - included) rest,
          )
          e

div-small : (a b : ℕ) → a < suc b → a / suc b ≡ 0
div-small a b h =
    let small : a / suc b < 1 = (div-lt_iff_lt-mul (omega arith)).1 (omega arith) in omega arith

div-pos : (a b : ℕ) → suc b ≤ a → 0 < a / suc b
div-pos a b h = elim (Bool-cases (ltb 0 (a / suc b))) [
  | inl pos ↦ ground arith
  | inr empty ↦
      let few : a < 1 * suc b = (div-lt_iff_lt-mul (omega arith)).0 (ground arith) in
      absurd (omega arith)
]

quot-pos : (a b : ℕ) → 0 < b → b ≤ a → (c : ℕ) × (quot a b ≡ ok c) × (0 < c)
quot-pos a zero h k = absurd (omega arith)
quot-pos a (suc b) h k = (a / suc b, refl, div-pos a b k)

-- With as many validators as workers, or more, the loop ends after at most a round for each validator,
-- and the batches hold the validators, all of them, once and in order, and at most
-- a worker's share in each.
pub divide_validators_batches_lem :
    (input : List ℕ) (workers : ℕ)
    → 0 < workers
    → workers ≤ length input
    → (step : ℕ) × (bs : List PoolKeys) × (quot (length input) workers ≡ ok step)
      × (divide_validators_batches (suc (length input)) input workers ≡ ok (some bs))
      × (members bs ≡ input)
      × All (λ b. length b.val_idxs ≤ step) bs
unfolding divide_validators_batches
divide_validators_batches_lem input workers h k =
    let (step, e, pos) = quot-pos (length input) workers h k in
    let (bs, r, c, s) =
      cover_loop (suc (length input)) input step 0 [] pos (omega arith) (omega arith) refl tt in
    (step, bs, e, rw (e, r) refl, c, s)

stuck_loop :
    (fuel : ℕ) (input : List ℕ) (result : List PoolKeys)
    → 0 < length input
    → batches_from fuel input 0 0 result ≡ none
unfolding batches_from
stuck_loop zero input result h = refl
stuck_loop (suc fuel) input result h =
    let more : ltb 0 (length input) ≡ true = lt→ltb 0 (length input) h in
    let still : ltb (length input) (0 + 0) ≡ false = ground arith in
    rw (more, still) (stuck_loop fuel input _ h)

-- With fewer validators than workers, but some, the loop never ends: no number of rounds is enough.
pub divide_validators_batches_diverges :
    (input : List ℕ) (workers fuel : ℕ)
    → 0 < length input
    → length input < workers
    → divide_validators_batches fuel input workers ≡ ok none
unfolding divide_validators_batches
divide_validators_batches_diverges input zero fuel h k = absurd (omega arith)
divide_validators_batches_diverges input (suc workers) fuel h k =
    let step : length input / suc workers ≡ 0 = div-small (length input) workers k in
    rw (step, stuck_loop fuel input [] h) refl
