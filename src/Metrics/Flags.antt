-- ===== src/Metrics/Flags.antt =====
-- pkg/spec/metrics/state_altair.go and state_deneb.go: the flags that an attestation earns, and what
-- votes score.
use eth_cl_state_analyzer.Common.{
  ℕ, ◌+◌, ◌*◌, ◌≡◌, refl, ◌∙◌, ap, Bool, true, false, ◌||◌, if◌then◌else◌, mul64, arith, u64, List,
  [], ◌∷◌,
}
use eth_cl_state_analyzer.Common.Go.{ok, >>=-eq-ok}
use eth_cl_state_analyzer.Client.{Attestation, MathPackage, MathLaws}
use eth_cl_state_analyzer.Spec.Constants.{
  timely_source_weight, timely_target_weight, timely_head_weight,
}
use eth_cl_state_analyzer.Spec.Block.{AgnosticBlock}
use eth_cl_state_analyzer.Metrics.Base.{StateMetricsBase}
use eth_cl_state_analyzer.Metrics.Votes.{
  FlagSet, match_roots, matching, get_participation_flags, earn, score_vote,
}
use eth_cl_state_analyzer.Metrics.Deneb

-- A match of the head is one of the target, and a match of the target is one of the source.
record IsNested (f : FlagSet) : Type 0 where
  head_target : f.head ≡ true → f.target ≡ true
  target_source : f.target ≡ true → f.source ≡ true

match_roots-IsNested : (a : Attestation) (j t h : ℕ) → IsNested (match_roots a j t h)
unfolding match_roots
match_roots-IsNested a j t h = ground arith

matching-IsNested :
    (p : StateMetricsBase) (a : Attestation) {m : FlagSet} → matching p a ≡ ok m → IsNested m
unfolding matching
matching-IsNested p a h = grind (arith, match_roots-IsNested)

-- The square root of 32 is taken as 5.
sqrt_slots : (math : MathPackage) → MathLaws math → math.sqrt 32 ≡ 5
sqrt_slots math laws =
    grind (arith, laws.sqrt_low 32 (omega arith), laws.sqrt_high 32 (omega arith))

-- Under Altair the head flag is never earned without the source and the target flag.
pub get_participation_flags-head :
    (math : MathPackage) (p : StateMetricsBase) (a : Attestation) (b : AgnosticBlock) {f : FlagSet}
    → MathLaws math
    → get_participation_flags math p a b ≡ ok f
    → f.head ≡ true
    → (f.source ≡ true) × (f.target ≡ true)
unfolding get_participation_flags
get_participation_flags-head math p a b laws h on =
    let (m, e, r) = >>=-eq-ok (matching p a) _ h in
    let n = matching-IsNested p a e in
    ground (arith, sqrt_slots math laws, n.head_target, n.target_source)

-- The weight of a set of flags.
abbrev pub weight : FlagSet → ℕ
weight f =
    (if f.source then timely_source_weight else 0)
    + (if f.target then timely_target_weight else 0)
    + (if f.head then timely_head_weight else 0)

abbrev pub either : FlagSet → FlagSet → FlagSet
either f g = record {
  source = f.source || g.source;
  target = f.target || g.target;
  head = f.head || g.head;
}

-- Votes of one validator, scored one after the other: its row, and the reward.
abbrev pub score_votes : ℕ → List FlagSet → FlagSet → ℕ → FlagSet × ℕ
score_votes base [] row reward = (row, reward)
score_votes base (f ∷ fs) row reward =
    let (row', reward', _) = score_vote base f row reward in score_votes base fs row' reward'

-- All flags of the votes and of the row.
abbrev pub flags_union : List FlagSet → FlagSet → FlagSet
flags_union [] row = row
flags_union (f ∷ fs) row = flags_union fs (either f row)

earn-weight :
    (base w : ℕ) (flag seen : Bool) (reward : ℕ)
    → u64 (earn flag seen (mul64 base w) reward + base * (if seen then w else 0))
      ≡ u64 (reward + base * (if flag || seen then w else 0))
earn-weight base w true true reward = omega arith
earn-weight base w true false reward = omega arith
earn-weight base w false true reward = omega arith
earn-weight base w false false reward = omega arith

score_one :
    (base : ℕ) (f row : FlagSet) (reward : ℕ)
    → let (row', reward', new) = score_vote base f row reward in
      (row' ≡ either f row)
      × (u64 (reward' + base * weight row) ≡ u64 (reward + base * weight row'))
      × (new ≡ false → (row' ≡ row) × (reward' ≡ reward))
unfolding score_vote
score_one base f row reward =
    let s = earn f.source row.source (mul64 base timely_source_weight) reward in
    let t = earn f.target row.target (mul64 base timely_target_weight) s in
    (
      refl,
      omega (
        arith,
        earn-weight base timely_source_weight f.source row.source reward,
        earn-weight base timely_target_weight f.target row.target s,
        earn-weight base timely_head_weight f.head row.head t,
      ),
      ground arith,
    )

-- However often the vote of a validator is included, and with whatever flags: its row ends with
-- the flags of all its votes, and what its votes add to the reward is the base reward times the
-- weight of the flags that its row did not have before, modulo 2 ^ 64.
pub score_votes_lem :
    (base : ℕ) (fs : List FlagSet) (row : FlagSet) (reward : ℕ)
    → let (row', reward') = score_votes base fs row reward in
      (row' ≡ flags_union fs row)
      × (u64 (reward' + base * weight row) ≡ u64 (reward + base * weight row'))
score_votes_lem base [] row reward = (refl, refl)
score_votes_lem base (f ∷ fs) row reward =
    let (row', reward', _) = score_vote base f row reward in
    let (same, step, _) = score_one base f row reward in
    let (all, rest) = score_votes_lem base fs row' reward' in
    (all ∙ ap (flags_union fs) same, omega arith)
