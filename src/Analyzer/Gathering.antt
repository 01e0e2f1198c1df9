-- ===== src/Analyzer/Gathering.antt =====
-- pkg/analyzer/process_state.go: the aggregated rewards of each validator.
use eth_cl_state_analyzer.Common.{
  ℕ, ◌<◌, ◌≡◌, refl, sym, ◌∙◌, ap, List, [], ◌∷◌, ◌++◌, Option, none, some, ◌==◌, if◌then◌else◌,
  arith, filterb, Bool-cases, inl, inr, lt→ltb, ==→eq,
}
use eth_cl_state_analyzer.Spec.Rewards.{
  ValidatorRewards, ValidatorRewardsAggregation, new_validator_rewards_aggregation, aggregate,
}
use eth_cl_state_analyzer.Analyzer.Aggregation.{
  Aggregator, aggregate_into, aggregate_one, aggregate_all,
}

abbrev pub Aggregations : Type 0
Aggregations = List (ℕ × ValidatorRewardsAggregation)

-- The aggregation that a validator has.
unfoldable pub find : ℕ → Aggregations → Option ValidatorRewardsAggregation
find v [] = none
find v ((j, a) ∷ m) = if j == v then some a else find v m

abbrev pub or_fresh :
    ValidatorRewardsAggregation → Option ValidatorRewardsAggregation → ValidatorRewardsAggregation
or_fresh fresh none = fresh
or_fresh fresh (some a) = a

-- `Aggregate` for each of some rewards of validator v, in a window.
unfoldable pub gather :
    ℕ
    → ℕ
    → ℕ
    → List ValidatorRewards
    → Option ValidatorRewardsAggregation
    → Option ValidatorRewardsAggregation
gather v start end [] found = found
gather v start end (r ∷ rs) found =
    gather v start end rs
      (some (aggregate (or_fresh (new_validator_rewards_aggregation v start end) found) r))

gather-nil :
    (v start end : ℕ) (found : Option ValidatorRewardsAggregation)
    → gather v start end [] found ≡ found
unfolding gather
gather-nil v start end found = refl

find-aggregate_into :
    (v : ℕ) (fresh : ValidatorRewardsAggregation) (r : ValidatorRewards) (m : Aggregations)
    → find v (aggregate_into fresh r m) ≡ (
        if r.validator_index == v then some (aggregate (or_fresh fresh (find v m)) r) else find v m)
unfolding find aggregate_into
find-aggregate_into v fresh r [] = refl
find-aggregate_into v fresh r ((j, a) ∷ m) = ground (arith, find-aggregate_into v fresh r m)

abbrev pub fresh_for : ValidatorRewards → Aggregator → ValidatorRewardsAggregation
fresh_for r s =
    new_validator_rewards_aggregation r.validator_index s.start_epoch_aggregation
      s.end_epoch_aggregation

aggregate_one-on :
    (r : ValidatorRewards) (s : Aggregator)
    → 1 < s.rewards_aggregation_epochs
    → aggregate_one r s
      ≡ record s { aggregations = aggregate_into (fresh_for r s) r s.aggregations }
unfolding aggregate_one
aggregate_one-on r s h = rw (lt→ltb 1 s.rewards_aggregation_epochs h)

gather_one :
    (v : ℕ) (rs : List ValidatorRewards) (r : ValidatorRewards) (s : Aggregator)
    → let start = s.start_epoch_aggregation in
      let end = s.end_epoch_aggregation in
      gather v start end
        (filterb (λ x. x.validator_index == v) rs)
        (find v (aggregate_into (fresh_for r s) r s.aggregations))
      ≡ gather v start end (filterb (λ x. x.validator_index == v) (r ∷ rs)) (find v s.aggregations)
unfolding gather
gather_one v rs r s = elim (Bool-cases (r.validator_index == v)) [
  | inl e ↦
      rw (find-aggregate_into v (fresh_for r s) r s.aggregations, e, ==→eq r.validator_index v e)
        refl
  | inr e ↦ rw (find-aggregate_into v (fresh_for r s) r s.aggregations, e) refl
]

pub aggregate_all-nil : (s : Aggregator) → aggregate_all [] s ≡ s
unfolding aggregate_all
aggregate_all-nil s = refl

pub aggregate_all-cons :
    (r : ValidatorRewards) (rs : List ValidatorRewards) (s : Aggregator)
    → 1 < s.rewards_aggregation_epochs
    → aggregate_all (r ∷ rs) s
      ≡ aggregate_all rs
          (record s { aggregations = aggregate_into (fresh_for r s) r s.aggregations })
unfolding aggregate_all
aggregate_all-cons r rs s h = ap (aggregate_all rs) (aggregate_one-on r s h)

-- Where rewards are aggregated, the aggregation of each validator gathers its own rewards, in order,
-- upon what it had; and nothing else of the aggregator changes.
pub aggregate_all_lem :
    (v : ℕ) (rs : List ValidatorRewards) (s : Aggregator)
    → 1 < s.rewards_aggregation_epochs
    → let t = aggregate_all rs s in
      (find v t.aggregations
        ≡ gather v s.start_epoch_aggregation s.end_epoch_aggregation
            (filterb (λ r. r.validator_index == v) rs)
            (find v s.aggregations))
      × (t ≡ record s { aggregations = t.aggregations })
aggregate_all_lem v [] s h = rw (aggregate_all-nil s) (
  sym (gather-nil v s.start_epoch_aggregation s.end_epoch_aggregation (find v s.aggregations)),
  refl,
)
aggregate_all_lem v (r ∷ rs) s h =
    let t : Aggregator = record s {
      aggregations = aggregate_into (fresh_for r s) r s.aggregations;
    } in
    let (ih, frame) = aggregate_all_lem v rs t h in
    rw (aggregate_all-cons r rs s h) (ih ∙ gather_one v rs r s, frame)

-- `aggregate_all` over one list after another.
pub aggregate_all-append :
    (xs ys : List ValidatorRewards) (s : Aggregator)
    → aggregate_all (xs ++ ys) s ≡ aggregate_all ys (aggregate_all xs s)
unfolding aggregate_all
aggregate_all-append [] ys s = refl
aggregate_all-append (x ∷ xs) ys s = aggregate_all-append xs ys _
