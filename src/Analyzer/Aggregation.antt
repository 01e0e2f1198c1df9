-- ===== src/Analyzer/Aggregation.antt =====
-- pkg/analyzer/process_state.go: the windows of epochs over which rewards are aggregated, and the
-- proposer duties.
use eth_cl_state_analyzer.Common.{
  ℕ, Bool, true, false, ◌&&◌, List, [], ◌∷◌, ◌++◌, ltb, ◌==◌, if◌then◌else◌, add64, length,
}
use eth_cl_state_analyzer.Client.{ProposerDuty}
use eth_cl_state_analyzer.Spec.Rewards.{
  ValidatorRewards, ValidatorRewardsAggregation, new_validator_rewards_aggregation, aggregate,
}

-- The fields of `ChainAnalyzer` that the aggregation keeps. `persisted` lists what has been handed
-- to the database, a map of aggregations at a time, and `rows` the rewards, an epoch at a time.
pub record Aggregator : Type 0 where
  pub rewards_aggregation_epochs : ℕ
  pub start_epoch_aggregation : ℕ
  pub end_epoch_aggregation : ℕ
  pub aggregations : List (ℕ × ValidatorRewardsAggregation)
  pub persisted : List (List (ℕ × ValidatorRewardsAggregation))
  pub rows : List (List ValidatorRewards)

-- `aggregations[valIdx].Aggregate(rewards)`, after an entry was made where there was none.
unfoldable pub aggregate_into :
    ValidatorRewardsAggregation
    → ValidatorRewards
    → List (ℕ × ValidatorRewardsAggregation)
    → List (ℕ × ValidatorRewardsAggregation)
aggregate_into fresh r [] = (r.validator_index, aggregate fresh r) ∷ []
aggregate_into fresh r ((j, a) ∷ m) =
    if j == r.validator_index then (j, aggregate a r) ∷ m else (j, a) ∷ aggregate_into fresh r m

-- One validator's rewards, aggregated if the windows are longer than an epoch.
unfoldable pub aggregate_one : ValidatorRewards → Aggregator → Aggregator
unfolding aggregate_into
aggregate_one r s =
    if ltb 1 s.rewards_aggregation_epochs
    then record s {
      aggregations =
          aggregate_into
            (new_validator_rewards_aggregation r.validator_index s.start_epoch_aggregation
              s.end_epoch_aggregation)
            r s.aggregations;
    }
    else s

-- The loop of `processEpochValRewards` over the rewards of the epoch's validators.
unfoldable pub aggregate_all : List ValidatorRewards → Aggregator → Aggregator
aggregate_all [] s = s
aggregate_all (r ∷ rs) s = aggregate_all rs (aggregate_one r s)

-- The end of `processEpochValRewards`: at the end of a window its aggregations are persisted.
unfoldable pub close_window : ℕ → Aggregator → Aggregator
close_window epoch s =
    if ltb 1 s.rewards_aggregation_epochs && epoch == s.end_epoch_aggregation
    then record s {
      persisted =
          (if ltb 0 (length s.aggregations)
            then s.persisted ++ s.aggregations ∷ []
            else s.persisted);
      aggregations = [];
      start_epoch_aggregation = add64 s.end_epoch_aggregation 1;
      end_epoch_aggregation = add64 s.end_epoch_aggregation s.rewards_aggregation_epochs;
    }
    else s

-- The rewards of the epoch are persisted, if there are any.
unfoldable pub persist_rows : List ValidatorRewards → Aggregator → Aggregator
persist_rows rewards s =
    if ltb 0 (length rewards) then record s { rows = s.rows ++ rewards ∷ [] } else s

-- `processEpochValRewards`, given what `GetMaxReward` returns for the validators.
unfoldable pub process_epoch_val_rewards : ℕ → List ValidatorRewards → Aggregator → Aggregator
unfolding close_window persist_rows
process_epoch_val_rewards epoch rewards s =
    close_window epoch (persist_rows rewards (aggregate_all rewards s))

-- `spec.ProposerDuty`
pub record Duty : Type 0 where
  pub val_idx : ℕ
  pub proposer_slot : ℕ
  pub proposed : Bool

-- The search among the missed blocks, from a value of `Proposed` on.
unfoldable pub was_proposed : ℕ → List ℕ → Bool → Bool
was_proposed slot [] proposed = proposed
was_proposed slot (item ∷ items) proposed =
    was_proposed slot items (if slot == item then false else proposed)

-- `processEpochDuties`: the duties that it persists.
unfoldable pub epoch_duties : List ℕ → List ProposerDuty → List Duty
unfolding was_proposed
epoch_duties missed [] = []
epoch_duties missed (d ∷ ds) =
    record {
      val_idx = d.validator_index;
      proposer_slot = d.slot;
      proposed = was_proposed d.slot missed true;
    }
    ∷ epoch_duties missed ds
