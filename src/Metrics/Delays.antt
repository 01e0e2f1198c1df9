-- ===== src/Metrics/Delays.antt =====
-- pkg/spec/metrics/state_altair.go: the delays of `ProcessInclusionDelays`, and the votes.
use native.Mathlib.Nat.{add-zero, zero-add}
use eth_cl_state_analyzer.Common.{
  ℕ, zero, suc, ◌+◌, ◌<◌, ◌≡◌, inl, inr, refl, sym, ap, ◌∙◌, Option, none, some, List, [], ◌∷◌,
  ◌++◌, length, arith, get_or, leb, ltb, add64, ◌==◌, ◌||◌, if◌then◌else◌, Bool-cases,
}
use eth_cl_state_analyzer.Common.Go.{
  Go, ok, panic, fatal, waits, for_each, >>=-eq-ok, update, update-eq-ok,
}
use eth_cl_state_analyzer.Client.{Attestation}
use eth_cl_state_analyzer.Spec.Block.{AgnosticBlock}
use eth_cl_state_analyzer.Metrics.Base.{
  StateMetricsBase, first_slot, get_validator_from_committee_index,
}
use eth_cl_state_analyzer.Metrics.Votes.{get_inclusion_delay}
use eth_cl_state_analyzer.Metrics.Altair.{
  set_delay, set_delays, fill_delays, inclusion_delays_within,
}

abbrev pub flat_map {ℓ κ} : {A : Type ℓ} {B : Type κ} → (A → List B) → List A → List B
flat_map f [] = []
flat_map f (x ∷ xs) = f x ++ flat_map f xs

-- A vote that is found, with its delay.
abbrev pub vote_of : ℕ → Go (Option ℕ) → List (ℕ × ℕ)
vote_of delay (ok (some v)) = (v, delay) ∷ []
vote_of delay (ok none) = []
vote_of delay panic = []
vote_of delay fatal = []
vote_of delay waits = []

module _ (p : StateMetricsBase) where
  -- The votes of an attestation of the previous epoch in a block: validators and delays.
  abbrev pub votes_in : AgnosticBlock → Attestation → List (ℕ × ℕ)
  votes_in b a =
      if ltb a.att.slot (first_slot p.prev_state.epoch)
        || leb (first_slot p.current_state.epoch) a.att.slot
      then []
      else flat_map
          (λ place.
            vote_of (get_inclusion_delay a b)
              (get_validator_from_committee_index p a.att.slot a.att.committee place))
          a.bit_indices

  -- All votes for slots of the previous epoch, in the order of the blocks.
  abbrev pub all_votes : List AgnosticBlock → List (ℕ × ℕ)
  all_votes blocks = flat_map (λ b. flat_map (votes_in b) b.attestations) blocks

-- The delay of the first vote of a validator whose delay is not 0, and 0 if there is none.
abbrev pub first_delay : ℕ → List (ℕ × ℕ) → ℕ
first_delay k [] = 0
first_delay k ((v, d) ∷ votes) =
    if v == k then (if d == 0 then first_delay k votes else d) else first_delay k votes

-- A delay that is set stays.
abbrev or_first : ℕ → ℕ → ℕ
or_first d e = if d == 0 then e else d

or_first_assoc : (a b c : ℕ) → or_first (or_first a b) c ≡ or_first a (or_first b c)
or_first_assoc a b c = ground arith

first_delay-append :
    (k : ℕ) (xs ys : List (ℕ × ℕ))
    → first_delay k (xs ++ ys) ≡ or_first (first_delay k xs) (first_delay k ys)
first_delay-append k [] ys = refl
first_delay-append k ((v, d) ∷ xs) ys = ground (arith, first_delay-append k xs ys)

-- From some delays to others, what the votes say was added.
record Adds (votes : List (ℕ × ℕ)) (ds es : List ℕ) : Type 0 where
  size : length es ≡ length ds
  entry : (k : ℕ) → get_or es k 0 ≡ or_first (get_or ds k 0) (first_delay k votes)

Adds-nil : (ds : List ℕ) → Adds [] ds ds
Adds-nil ds = record { size = refl; entry = λ k. ground arith }

Adds-append :
    {xs ys : List (ℕ × ℕ)} {ds es fs : List ℕ}
    → Adds xs ds es
    → Adds ys es fs
    → Adds (xs ++ ys) ds fs
Adds-append {xs} {ys} {ds} {es} {fs} a b = record {
  size = b.size ∙ a.size;
  entry = λ k.
      b.entry k
      ∙ ap (λ d. or_first d (first_delay k ys)) (a.entry k)
      ∙ or_first_assoc (get_or ds k 0) (first_delay k xs) (first_delay k ys)
      ∙ ap (or_first (get_or ds k 0)) (sym (first_delay-append k xs ys));
}

-- A loop adds what its rounds add.
for_each-Adds {ℓ} :
    {A : Type ℓ} (body : A → List ℕ → Go (List ℕ)) (votes : A → List (ℕ × ℕ))
    → ((x : A) (ds es : List ℕ) → body x ds ≡ ok es → Adds (votes x) ds es)
    → (xs : List A) (ds es : List ℕ) → for_each body xs ds ≡ ok es
    → Adds (flat_map votes xs) ds es
unfolding for_each
for_each-Adds body votes h [] ds es e = let same : ds ≡ es = cc in rw (← same) (Adds-nil ds)
for_each-Adds body votes h (x ∷ xs) ds es e =
    let (fs, e₁, e₂) = >>=-eq-ok (body x ds) (λ fs. for_each body xs fs) e in
    Adds-append (h x ds fs e₁) (for_each-Adds body votes h xs fs es e₂)

set_delay-Adds :
    (p : StateMetricsBase) (a : Attestation) (d place : ℕ) (ds es : List ℕ)
    → set_delay p a d place ds ≡ ok es
    → Adds (vote_of d (get_validator_from_committee_index p a.att.slot a.att.committee place)) ds es
unfolding set_delay
set_delay-Adds p a d place ds es e =
    let (found, e₁, e₂) =
      >>=-eq-ok (get_validator_from_committee_index p a.att.slot a.att.committee place) _ e in
    rw e₁ (write found e₂)
  where
    write :
        (found : Option ℕ)
        → (elim found [ none ↦ fatal | some v ↦ update ds v (λ x. if x == 0 then d else x) ])
          ≡ ok es
        → Adds (vote_of d (ok found)) ds es
    write none f = cc
    write (some v) f =
        let (l, g) = update-eq-ok ds v (λ x. if x == 0 then d else x) f in
        record { size = l; entry = λ k. g k ∙ (ground arith) }

set_delays-Adds :
    (p : StateMetricsBase) (b : AgnosticBlock) (a : Attestation) (ds es : List ℕ)
    → set_delays p b a ds ≡ ok es
    → Adds (votes_in p b a) ds es
unfolding set_delays
set_delays-Adds p b a ds es e =
    let outside =
      ltb a.att.slot (first_slot p.prev_state.epoch)
      || leb (first_slot p.current_state.epoch) a.att.slot in
    elim (Bool-cases outside) [
      | inl out ↦ let same : ds ≡ es = ground (arith, e) in rw (out, ← same) (Adds-nil ds)
      | inr inside ↦ rw inside (
          for_each-Adds (set_delay p a (get_inclusion_delay a b)) _
            (λ place. set_delay-Adds p a (get_inclusion_delay a b) place) a.bit_indices ds es
            (rw inside at e))
    ]

get_or-fill_delays :
    (max_delay : ℕ → ℕ) (i : ℕ) (ds : List ℕ) (k : ℕ)
    → k < length ds
    → get_or (fill_delays max_delay i ds) k 0
      ≡ (if get_or ds k 0 == 0 then add64 (max_delay (i + k)) 1 else get_or ds k 0)
unfolding fill_delays
get_or-fill_delays m i [] k h = absurd (omega arith)
get_or-fill_delays m i (d ∷ ds) zero h = rw (add-zero i) refl
get_or-fill_delays m i (d ∷ ds) (suc k) h =
    let shift : suc i + k ≡ i + suc k = omega arith in
    rw (← shift) (get_or-fill_delays m (suc i) ds k (omega arith))

length-fill_delays :
    (max_delay : ℕ → ℕ) (i : ℕ) (ds : List ℕ) → length (fill_delays max_delay i ds) ≡ length ds
unfolding fill_delays
length-fill_delays m i [] = refl
length-fill_delays m i (d ∷ ds) = ap suc (length-fill_delays m (suc i) ds)

-- When `ProcessInclusionDelays` starts with delays of 0 and returns, it leaves one delay for each: that
-- of the validator's first vote whose delay is not 0, among the votes for slots of the previous epoch
-- in the blocks of the previous and then the current state, in order; and where the validator has no
-- such vote, one more than its longest delay.
pub inclusion_delays_lem :
    (max_delay : ℕ → ℕ) (p : StateMetricsBase) {q : StateMetricsBase}
    → ((k : ℕ) → get_or p.inclusion_delays k 0 ≡ 0)
    → inclusion_delays_within max_delay p ≡ ok q
    → (length q.inclusion_delays ≡ length p.inclusion_delays)
      × ((k : ℕ)
          → k < length p.inclusion_delays
          → let first =
              first_delay k (all_votes p (p.prev_state.blocks ++ p.current_state.blocks)) in
            get_or q.inclusion_delays k 0 ≡ (if first == 0 then add64 (max_delay k) 1 else first))
unfolding inclusion_delays_within
inclusion_delays_lem max_delay p {q} zeros e =
    let blocks = p.prev_state.blocks ++ p.current_state.blocks in
    let (ds, e₁, e₂) =
      >>=-eq-ok
        (for_each (λ block ds. for_each (set_delays p block) block.attestations ds) blocks
          p.inclusion_delays)
        _ e in
    let added : Adds (all_votes p blocks) p.inclusion_delays ds =
      for_each-Adds _ _
        (λ b. for_each-Adds (set_delays p b) (votes_in p b) (set_delays-Adds p b) b.attestations)
        blocks p.inclusion_delays ds e₁ in
    let filled : q.inclusion_delays ≡ fill_delays max_delay 0 ds = cc in
    (
      rw filled (length-fill_delays max_delay 0 ds ∙ added.size),
      λ k h.
          let found : get_or ds k 0 ≡ first_delay k (all_votes p blocks) =
            added.entry k ∙ ap (λ d. or_first d (first_delay k (all_votes p blocks))) (zeros k) in
          rw
            (
              filled,
              get_or-fill_delays max_delay 0 ds k (omega (arith, added.size)),
              zero-add k,
              found,
            )
            refl,
    )
