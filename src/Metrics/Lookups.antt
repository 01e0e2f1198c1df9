-- ===== src/Metrics/Lookups.antt =====
-- pkg/spec/metrics/utils.go and state_phase0.go: lookups by slot, and the search for the first block
-- that could have included a vote.
use native.Mathlib.Nat.{add-zero}
use mathlib.Core.Path.{subst}
use eth_cl_state_analyzer.Common.{
  ℕ, zero, suc, ◌+◌, ◌-◌, ◌*◌, ◌/◌, ◌^◌, ◌≤◌, ◌<◌, ◌≡◌, Bool, true, false, Option, none, some, ◌==◌,
  add64, if◌then◌else◌, arith, Bool-cases, inl, inr,
}
use eth_cl_state_analyzer.Common.Go.{ok, fatal, >>=-eq-ok}
use eth_cl_state_analyzer.Spec.Block.{AgnosticBlock}
use eth_cl_state_analyzer.Metrics.Base.{
  StateMetricsBase, in_prev, in_current, in_next, era_of, get_block_from_slot,
}
use eth_cl_state_analyzer.Metrics.Phase0.{min_delay_from, get_min_inclusion_delay_possible}

-- With states of three successive epochs, the lookups by slot find the state whose epoch is the
-- slot's, and report an error for a slot of any other epoch. This supposes that the slots of the
-- next epoch and of the epoch after it do not overflow.
pub era_of_lem :
    (s : StateMetricsBase) (slot : ℕ)
    → s.current_state.epoch ≡ s.prev_state.epoch + 1
    → s.next_state.epoch ≡ s.prev_state.epoch + 2
    → (s.next_state.epoch + 1) * 32 < 2 ^ 64
    → era_of s slot ≡ (
        if slot / 32 == s.prev_state.epoch
        then some in_prev
        else if slot / 32 == s.current_state.epoch
        then some in_current
        else if slot / 32 == s.next_state.epoch
        then some in_next
        else none)
unfolding era_of
era_of_lem s slot hc hn hb = ground arith

-- The lookup finds a block for the slot, and it is proposed or not.
pub record HasBlock (p : StateMetricsBase) (slot : ℕ) (proposed : Bool) : Type 0 where
  pub block : AgnosticBlock
  pub found : get_block_from_slot p slot ≡ ok (some block)
  pub is_proposed : block.proposed ≡ proposed

-- What a search from slot i returns that began with the delay r and had n slots to go.
record IsFirst (p : StateMetricsBase) (i n r d : ℕ) : Type 0 where
  least : r ≤ d
  most : d ≤ r + n
  before : (j : ℕ) → r + j < d → HasBlock p (i + j) false
  at_end : d < r + n → HasBlock p (i + (d - r)) true

-- A block that is not proposed, before a search from the next slot.
skip :
    (p : StateMetricsBase) (i n r d : ℕ)
    → HasBlock p i false
    → IsFirst p (i + 1) n (r + 1) d
    → IsFirst p i (suc n) r d
skip p i n r d here rest = record {
  least = omega (arith, rest.least);
  most = omega (arith, rest.most);
  before = passed;
  at_end = λ k.
      let there : i + (d - r) ≡ (i + 1) + (d - (r + 1)) = omega (arith, rest.least) in
      rw there (rest.at_end (omega arith));
}
  where
    passed : (j : ℕ) → r + j < d → HasBlock p (i + j) false
    passed zero k = rw (add-zero i) here
    passed (suc j) k =
        let there : i + suc j ≡ (i + 1) + j = omega arith in rw there (rest.before j (omega arith))

-- A proposed block ends the search.
stop : (p : StateMetricsBase) (i n r : ℕ) → HasBlock p i true → IsFirst p i (suc n) r r
stop p i n r here = record {
  least = omega arith;
  most = omega arith;
  before = λ j k. absurd (omega arith);
  at_end = λ k. let same : i + (r - r) ≡ i = omega arith in rw same here;
}

exhausted : (p : StateMetricsBase) (i r : ℕ) → IsFirst p i 0 r r
exhausted p i r = record {
  least = omega arith;
  most = omega arith;
  before = λ j k. absurd (omega arith);
  at_end = λ k. absurd (omega arith);
}

min_delay_from-IsFirst :
    (p : StateMetricsBase) (i n r : ℕ) {d : ℕ}
    → i + n < 2 ^ 64
    → min_delay_from p i n r ≡ ok d
    → IsFirst p i n r d
unfolding min_delay_from
min_delay_from-IsFirst p i zero r {d} h e = let same : r ≡ d = cc in rw (← same) (exhausted p i r)
min_delay_from-IsFirst p i (suc n) r {d} h e =
    let (found, e₁, e₂) = >>=-eq-ok (get_block_from_slot p i) _ e in
    let next : add64 i 1 ≡ i + 1 = omega arith in
    at_block found e₁ e₂
      (λ e₃. min_delay_from-IsFirst p (i + 1) n (r + 1) (omega arith) (rw next at e₃))
  where
    at_block :
        (found : Option AgnosticBlock)
        → get_block_from_slot p i ≡ ok found
        → (elim found [
          | none ↦ fatal
          | some block ↦ if block.proposed then ok r else min_delay_from p (add64 i 1) n (r + 1)
        ])
          ≡ ok d
        → (min_delay_from p (add64 i 1) n (r + 1) ≡ ok d → IsFirst p (i + 1) n (r + 1) d)
        → IsFirst p i (suc n) r d
    at_block none e₁ e₂ go = cc
    at_block (some b) e₁ e₂ go = elim (Bool-cases b.proposed) [
      | inl on ↦
          let same : r ≡ d = ground (arith, e₂) in
          rw (← same) (stop p i n r (record { block = b; found = e₁; is_proposed = on }))
      | inr off ↦
          skip p i n r d (record { block = b; found = e₁; is_proposed = off }) (go (rw off at e₂))
    ]

-- If `getMinInclusionDelayPossible` of a slot returns a delay, it is from 1 to 33, the blocks of the
-- slots between are found and not proposed, and a delay up to 32 leads to a proposed block.
pub get_min_inclusion_delay_possible_lem :
    (p : StateMetricsBase) (slot : ℕ) {d : ℕ}
    → slot + 33 < 2 ^ 64
    → get_min_inclusion_delay_possible p slot ≡ ok d
    → (1 ≤ d)
      × (d ≤ 33)
      × ((j : ℕ) → 1 ≤ j → j < d → HasBlock p (slot + j) false)
      × (d ≤ 32 → HasBlock p (slot + d) true)
unfolding get_min_inclusion_delay_possible
get_min_inclusion_delay_possible_lem p slot {d} h e =
    let next : add64 slot 1 ≡ slot + 1 = omega arith in
    let first =
      min_delay_from-IsFirst p (slot + 1) 32 1 (omega arith)
        (subst (λ (x : ℕ). min_delay_from p x 32 1 ≡ ok d) next e) in
    (
      first.least,
      omega (arith, first.most),
      between first,
      λ k.
          let there : slot + d ≡ (slot + 1) + (d - 1) = omega (arith, first.least) in
          rw there (first.at_end (omega arith)),
    )
  where
    between : IsFirst p (slot + 1) 32 1 d → (j : ℕ) → 1 ≤ j → j < d → HasBlock p (slot + j) false
    between first zero one k = absurd (omega arith)
    between first (suc j) one k =
        let there : slot + suc j ≡ (slot + 1) + j = omega arith in
        rw there (first.before j (omega arith))
