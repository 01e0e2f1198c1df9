-- ===== src/Analyzer/Windows.antt =====
-- pkg/analyzer/process_state.go: the windows of epochs over which rewards are aggregated.
use mathlib.Core.List.{append-nil, append_assoc}
use eth_cl_state_analyzer.Common.{
  ltb, ℕ, ◌+◌, ◌≤◌, ◌<◌, ◌≡◌, ◌≢◌, refl, sym, ◌∙◌, ap, List, [], ◌∷◌, ◌++◌, add64, length, arith,
  filterb, Bool-cases, inl, inr, lt→ltb, ==-refl,
}
use eth_cl_state_analyzer.Spec.Rewards.{ValidatorRewards, ValidatorRewardsAggregation}
use eth_cl_state_analyzer.Analyzer.Aggregation.{
  persist_rows, Aggregator, aggregate_into, aggregate_one, aggregate_all, close_window,
  process_epoch_val_rewards,
}
use eth_cl_state_analyzer.Analyzer.Gathering.{
  Aggregations, fresh_for, aggregate_all-nil, aggregate_all-cons, aggregate_all_lem,
  aggregate_all-append,
}

-- `processEpochValRewards` for successive epochs, from an epoch on.
unfoldable pub process_epochs : ℕ → List (List ValidatorRewards) → Aggregator → Aggregator
process_epochs e [] s = s
process_epochs e (rs ∷ rest) s = process_epochs (e + 1) rest (process_epoch_val_rewards e rs s)

abbrev pub concat : List (List ValidatorRewards) → List ValidatorRewards
concat [] = []
concat (rs ∷ rest) = rs ++ concat rest

length-aggregate_into :
    (fresh : ValidatorRewardsAggregation) (r : ValidatorRewards) (m : Aggregations)
    → (0 < length (aggregate_into fresh r m)) × (length m ≤ length (aggregate_into fresh r m))
unfolding aggregate_into
length-aggregate_into fresh r [] = (omega arith, omega arith)
length-aggregate_into fresh r ((j, a) ∷ m) = ground (arith, length-aggregate_into fresh r m)

length-aggregate_one :
    (r : ValidatorRewards) (s : Aggregator)
    → length s.aggregations ≤ length (aggregate_one r s).aggregations
unfolding aggregate_one
length-aggregate_one r s = ground (arith, length-aggregate_into (fresh_for r s) r s.aggregations)

length-aggregate_all :
    (rs : List ValidatorRewards) (s : Aggregator)
    → length s.aggregations ≤ length (aggregate_all rs s).aggregations
unfolding aggregate_all
length-aggregate_all [] s = omega arith
length-aggregate_all (r ∷ rs) s =
    omega (arith, length-aggregate_one r s, length-aggregate_all rs (aggregate_one r s))

process_epochs-cons :
    (e : ℕ) (rs : List ValidatorRewards) (rest : List (List ValidatorRewards)) (s : Aggregator)
    → process_epochs e (rs ∷ rest) s
      ≡ process_epochs (e + 1) rest (process_epoch_val_rewards e rs s)
unfolding process_epochs
process_epochs-cons e rs rest s = refl

process_epochs-one :
    (e : ℕ) (rs : List ValidatorRewards) (s : Aggregator)
    → process_epochs e (rs ∷ []) s ≡ process_epoch_val_rewards e rs s
unfolding process_epochs
process_epochs-one e rs s = refl

-- The rewards that are persisted of some epochs: all that are not empty.
abbrev pub rows_of : List (List ValidatorRewards) → List (List ValidatorRewards)
rows_of = filterb (λ rs. ltb 0 (length rs))

rows_of-append :
    (xs ys : List (List ValidatorRewards)) → rows_of (xs ++ ys) ≡ rows_of xs ++ rows_of ys
rows_of-append [] ys = refl
rows_of-append (x ∷ xs) ys = ground (arith, rows_of-append xs ys)

persist_rows-eq :
    (rs : List ValidatorRewards) (s : Aggregator)
    → persist_rows rs s ≡ record s { rows = s.rows ++ rows_of (rs ∷ []) }
unfolding persist_rows
persist_rows-eq rs s = elim (Bool-cases (ltb 0 (length rs))) [
  | inl e ↦ rw e refl
  | inr e ↦ rw (e, append-nil s.rows) refl
]

-- What is gathered does not depend on the rows, and leaves them.
aggregate_all-rows :
    (rs : List ValidatorRewards) (s : Aggregator) (rows : List (List ValidatorRewards))
    → 1 < s.rewards_aggregation_epochs
    → aggregate_all rs (record s { rows = rows }) ≡ record (aggregate_all rs s) { rows = rows }
aggregate_all-rows [] s rows h =
    rw (aggregate_all-nil (record s { rows = rows }), aggregate_all-nil s) refl
aggregate_all-rows (r ∷ rs) s rows h =
    let t : Aggregator = record s {
      aggregations = aggregate_into (fresh_for r s) r s.aggregations;
    } in
    rw (aggregate_all-cons r rs (record s { rows = rows }) h, aggregate_all-cons r rs s h)
      (aggregate_all-rows rs t rows h)

-- What some epochs leave if none of them ends the window.
abbrev gathered : List ValidatorRewards → List (List ValidatorRewards) → Aggregator → Aggregator
gathered rs rows s = record s {
  aggregations = (aggregate_all rs s).aggregations;
  rows = s.rows ++ rows_of rows;
}

gathered-twice :
    (xs ys : List ValidatorRewards) (us vs : List (List ValidatorRewards)) (s : Aggregator)
    → 1 < s.rewards_aggregation_epochs
    → gathered ys vs (gathered xs us s) ≡ gathered (xs ++ ys) (us ++ vs) s
gathered-twice xs ys us vs s n =
    let (_, frame) = aggregate_all_lem 0 xs s n in
    let m = (aggregate_all xs s).aggregations in
    let t : Aggregator = record s { aggregations = m } in
    let all : (aggregate_all ys (gathered xs us s)).aggregations
        ≡ (aggregate_all (xs ++ ys) s).aggregations =
      ap (λ (a : Aggregator). a.aggregations) (aggregate_all-rows ys t (s.rows ++ rows_of us) n)
      ∙ ap (λ (a : Aggregator). (aggregate_all ys a).aggregations) (sym frame)
      ∙ ap (λ (a : Aggregator). a.aggregations) (sym (aggregate_all-append xs ys s)) in
    let rows : (s.rows ++ rows_of us) ++ rows_of vs ≡ s.rows ++ rows_of (us ++ vs) =
      append_assoc s.rows (rows_of us) (rows_of vs)
      ∙ ap (λ (l : List (List ValidatorRewards)). s.rows ++ l) (sym (rows_of-append us vs)) in
    rw (all, rows) refl

process-gathered :
    (e : ℕ) (rs : List ValidatorRewards) (s : Aggregator)
    → 1 < s.rewards_aggregation_epochs
    → process_epoch_val_rewards e rs s ≡ close_window e (gathered rs (rs ∷ []) s)
unfolding process_epoch_val_rewards
process-gathered e rs s n =
    let (_, frame) = aggregate_all_lem 0 rs s n in
    let m = (aggregate_all rs s).aggregations in
    ap (λ (a : Aggregator). close_window e (persist_rows rs a)) frame
    ∙ ap (close_window e) (persist_rows-eq rs (record s { aggregations = m }))

close_window-inside : (e : ℕ) (s : Aggregator) → e ≢ s.end_epoch_aggregation → close_window e s ≡ s
unfolding close_window
close_window-inside e s h = ground arith

-- Epochs before the end of the window only gather.
gather_epochs :
    (rest : List (List ValidatorRewards)) (e : ℕ) (last : List ValidatorRewards) (s : Aggregator)
    → e + length rest ≡ s.end_epoch_aggregation
    → 1 < s.rewards_aggregation_epochs
    → process_epochs e (rest ++ last ∷ []) s
      ≡ process_epoch_val_rewards s.end_epoch_aggregation last (gathered (concat rest) rest s)
gather_epochs [] e last s h n =
    let same : e ≡ s.end_epoch_aggregation = omega arith in
    rw (process_epochs-one e last s, same, aggregate_all-nil s, append-nil s.rows) refl
gather_epochs (rs ∷ rest) e last s h n =
    let t = gathered rs (rs ∷ []) s in
    let inside : process_epoch_val_rewards e rs s ≡ t =
      process-gathered e rs s n ∙ close_window-inside e t (omega arith) in
    process_epochs-cons e rs (rest ++ last ∷ []) s
    ∙ ap (process_epochs (e + 1) (rest ++ last ∷ [])) inside
    ∙ gather_epochs rest (e + 1) last t (omega arith) n
    ∙ ap (process_epoch_val_rewards s.end_epoch_aggregation last)
        (gathered-twice rs (concat rest) (rs ∷ []) rest s n)

some_rewards :
    (rs : List ValidatorRewards) (s : Aggregator)
    → 0 < length rs
    → 1 < s.rewards_aggregation_epochs
    → 0 < length (aggregate_all rs s).aggregations
some_rewards [] s h n = omega arith
some_rewards (r ∷ rs) s h n =
    let t : Aggregator = record s {
      aggregations = aggregate_into (fresh_for r s) r s.aggregations;
    } in
    rw (aggregate_all-cons r rs s n) (
      omega
        (arith, length-aggregate_into (fresh_for r s) r s.aggregations, length-aggregate_all rs t))

close_window-end :
    (s : Aggregator)
    → 1 < s.rewards_aggregation_epochs
    → 0 < length s.aggregations
    → close_window s.end_epoch_aggregation s ≡ record s {
      persisted = s.persisted ++ s.aggregations ∷ [];
      aggregations = [];
      start_epoch_aggregation = add64 s.end_epoch_aggregation 1;
      end_epoch_aggregation = add64 s.end_epoch_aggregation s.rewards_aggregation_epochs;
    }
unfolding close_window
close_window-end s n h =
    rw
      (
        lt→ltb 1 s.rewards_aggregation_epochs n,
        ==-refl s.end_epoch_aggregation,
        lt→ltb 0 (length s.aggregations) h,
      )
      refl

-- The epochs of a window, processed in order, persist one map: what `aggregate_all` gathers of all
-- their rewards; and they persist the rewards of each epoch that has any. Then the aggregations are
-- empty, and the next window begins with the epoch after this one and is as long, both modulo
-- 2 ^ 64. This supposes windows longer than an epoch, and a reward in some epoch.
pub windows_tile :
    (rest : List (List ValidatorRewards)) (last : List ValidatorRewards) (s : Aggregator)
    → s.start_epoch_aggregation + length rest ≡ s.end_epoch_aggregation
    → 1 < s.rewards_aggregation_epochs
    → 0 < length (concat rest ++ last)
    → process_epochs s.start_epoch_aggregation (rest ++ last ∷ []) s ≡ record s {
      persisted = s.persisted ++ (aggregate_all (concat rest ++ last) s).aggregations ∷ [];
      rows = s.rows ++ rows_of (rest ++ last ∷ []);
      aggregations = [];
      start_epoch_aggregation = add64 s.end_epoch_aggregation 1;
      end_epoch_aggregation = add64 s.end_epoch_aggregation s.rewards_aggregation_epochs;
    }
windows_tile rest last s h n k =
    gather_epochs rest s.start_epoch_aggregation last s h n
    ∙ process-gathered s.end_epoch_aggregation last (gathered (concat rest) rest s) n
    ∙ ap (close_window s.end_epoch_aggregation)
        (gathered-twice (concat rest) last rest (last ∷ []) s n)
    ∙ close_window-end (gathered (concat rest ++ last) (rest ++ last ∷ []) s) n
        (some_rewards (concat rest ++ last) s k n)
