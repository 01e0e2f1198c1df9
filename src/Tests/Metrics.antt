-- ===== src/Tests/Metrics.antt =====
-- The theorems on pkg/spec/metrics at concrete inputs.
use eth_cl_state_analyzer.Common.{
  ℕ, ◌+◌, ◌*◌, ◌<◌, ◌≡◌, refl, true, false, [], ◌∷◌, arith, add64, u64, if◌then◌else◌, ◌==◌, get_or,
  replicate, get_or-replicate, length,
}
use eth_cl_state_analyzer.Common.Go.{ok, for_each}
use eth_cl_state_analyzer.Spec.Block.{AgnosticBlock}
use eth_cl_state_analyzer.Spec.Duties.{get_val_list}
use eth_cl_state_analyzer.Spec.Slot.{epoch_at_slot}
use eth_cl_state_analyzer.Spec.Slashing.{slashing_intersection, is_slashable_validator}
use eth_cl_state_analyzer.Spec.State.Missed.{get_block_root, get_block_root_at_slot}
use eth_cl_state_analyzer.Metrics.Base.{
  Amounts, StateMetricsBase, epoch_reward, get_validator_from_committee_index, era_of,
  get_justified_root_from_slot,
}
use eth_cl_state_analyzer.Metrics.Order.{order_attestations_by_slot}
use eth_cl_state_analyzer.Metrics.Ordering.{order_attestations_by_slot_loses}
use eth_cl_state_analyzer.Metrics.Votes.{FlagSet, match_roots, get_participation_flags}
use eth_cl_state_analyzer.Metrics.Deneb
use eth_cl_state_analyzer.Metrics.Flags.{
  weight, score_votes, flags_union, get_participation_flags-head, score_votes_lem,
}
use eth_cl_state_analyzer.Metrics.Slashings.{
  SlashingPass, slash_attester, record_slashings, process_block_slashings,
}
use eth_cl_state_analyzer.Metrics.SlashingRewards.{
  shares_of, process_block_slashings_lem, process_block_slashings_carried,
}
use eth_cl_state_analyzer.Metrics.Altair.{inclusion_delays_within}
use eth_cl_state_analyzer.Metrics.Delays.{first_delay, all_votes, inclusion_delays_lem}
use eth_cl_state_analyzer.Metrics.EpochReward.{epoch_reward_lem}
use eth_cl_state_analyzer.Common.Int.{signed64, sub_ℕ}
use eth_cl_state_analyzer.Tests.Data.{
  state_at, block, two_validators, three_epochs, vote, pending, slashing,
}
use eth_cl_state_analyzer.Tests.Root.{root, math, math_laws}

order_loses_example :
    order_attestations_by_slot (pending 3 1 ∷ pending 2 4 ∷ pending 1 1 ∷ [])
    ≡ ok (pending 1 1 ∷ pending 1 1 ∷ pending 2 4 ∷ [])
order_loses_example =
    order_attestations_by_slot_loses (pending 3 1) (pending 2 4 ∷ []) (pending 1 1)
      ((omega arith, tt), (tt, tt)) (omega arith)

abbrev all_flags : FlagSet
all_flags = record { source = true; target = true; head = true }

-- The vote for slot 40, included in the next slot, earns all flags.
flags_of_vote : get_participation_flags math three_epochs vote (block 41 1 0 []) ≡ ok all_flags
unfolding get_participation_flags root get_justified_root_from_slot era_of get_block_root
    get_block_root_at_slot match_roots
flags_of_vote = refl

get_participation_flags-head_example : (true ≡ true) × (true ≡ true)
get_participation_flags-head_example =
    get_participation_flags-head math three_epochs vote (block 41 1 0 []) math_laws flags_of_vote
      refl

abbrev source_only : FlagSet
source_only = record { source = true; target = false; head = false }

abbrev no_flag : FlagSet
no_flag = record { source = false; target = false; head = false }

score_votes_example :
    let (row, reward) = score_votes 100 (source_only ∷ all_flags ∷ []) no_flag 0 in
    (row ≡ flags_union (source_only ∷ all_flags ∷ []) no_flag)
    × (u64 (reward + 100 * weight no_flag) ≡ u64 (0 + 100 * weight row))
score_votes_example = score_votes_lem 100 (source_only ∷ all_flags ∷ []) no_flag 0

-- A pass that has recorded a slashing of validator 1, and one that has recorded none.
abbrev pass : SlashingPass
pass = record {
  slashings = slashing 1 ∷ [];
  new_attester_slashings = 1;
  new_proposer_slashings = 0;
  max_slashing_rewards = λ _. 0;
}

abbrev fresh_pass : SlashingPass
fresh_pass = record pass { slashings = []; new_attester_slashings = 0 }

-- A block that slashes validator 0, who is in both attestations.
abbrev slashing_block : AgnosticBlock
slashing_block = record (block 64 1 1 []) {
  attester_slashings = record { indices_1 = 0 ∷ 1 ∷ []; indices_2 = 0 ∷ 5 ∷ [] } ∷ [];
}

abbrev slashed_pass : SlashingPass
slashed_pass = record fresh_pass {
  slashings = record (slashing 0) { slashed_by = 1 } ∷ [];
  new_attester_slashings = 1;
}

records_slashing : record_slashings two_validators slashing_block fresh_pass ≡ ok slashed_pass
unfolding record_slashings for_each slashing_intersection slash_attester epoch_at_slot
    is_slashable_validator
records_slashing = refl

process_block_slashings_example :
    (rewards : Amounts) × (process_block_slashings two_validators two_validators slashing_block
        fresh_pass
      ≡ ok (
        record slashing_block {
          manual_reward = add64 100 (u64 (shares_of two_validators slashed_pass.slashings));
        },
        record slashed_pass { max_slashing_rewards = rewards },
      ))
    × ((j : ℕ)
        → rewards j
          ≡ (if 1 == j then add64 0 (u64 (shares_of two_validators slashed_pass.slashings)) else 0))
process_block_slashings_example =
    process_block_slashings_lem two_validators two_validators slashing_block fresh_pass slashed_pass
      records_slashing (omega arith, tt)

-- The next block, of proposer 0, has no slashings, and is paid for the slashing of validator 1.
process_block_slashings_carried_example :
    (r : SlashingPass) × (process_block_slashings two_validators two_validators
        (block 65 2 0 [])
        pass
      ≡ ok (
        record (block 65 2 0 []) {
          manual_reward = add64 100 (u64 (shares_of two_validators pass.slashings));
        },
        r,
      ))
    × (r.slashings ≡ pass.slashings)
    × (r.max_slashing_rewards 0 ≡ add64 0 (u64 (shares_of two_validators pass.slashings)))
process_block_slashings_carried_example =
    process_block_slashings_carried two_validators two_validators (block 65 2 0 []) pass refl refl
      (omega arith, tt)

-- Validator 1 votes at slot 3, and the block of slot 4 includes the vote.
abbrev voted_block : AgnosticBlock
voted_block = record (block 4 1 0 []) {
  attestations =
      record {
        att = record {
          slot = 3;
          committee = 0;
          beacon_block_root = 7;
          source = record { epoch = 0; root = 40 };
          target = record { epoch = 0; root = 7 };
        };
        bit_indices = 0 ∷ [];
      }
      ∷ [];
}

abbrev voted_epochs : StateMetricsBase
voted_epochs = record three_epochs {
  prev_state = record (state_at 0 [] (voted_block ∷ [])) {
    epoch_structs = record {
      proposer_duties = [];
      beacon_committees = record { slot = 3; committee = 0; validators = 1 ∷ [] } ∷ [];
      validator_att_slot = λ _. 3;
    };
  };
  inclusion_delays = replicate 2 0;
}

abbrev delays_of : StateMetricsBase
delays_of = record voted_epochs { inclusion_delays = 33 ∷ 1 ∷ [] }

finds_delays : inclusion_delays_within (λ _. 32) voted_epochs ≡ ok delays_of
unfolding inclusion_delays_within for_each get_validator_from_committee_index era_of get_val_list
finds_delays = refl

inclusion_delays_example :
    (length delays_of.inclusion_delays ≡ 2)
    × ((k : ℕ)
        → k < 2
        → let first = first_delay k (all_votes voted_epochs (voted_block ∷ [])) in
          get_or (33 ∷ 1 ∷ []) k 0 ≡ (if first == 0 then add64 32 1 else first))
inclusion_delays_example =
    inclusion_delays_lem (λ _. 32) voted_epochs (get_or-replicate 2) finds_delays

-- Validator 1 loses 3 Gwei, and 2 of what it had are withdrawn.
abbrev losing : StateMetricsBase
losing = record three_epochs {
  current_state = record (state_at 1 [] []) { balances = 50 ∷ 90 ∷ [] };
  next_state = record (state_at 2 [] []) {
    balances = 50 ∷ 85 ∷ [];
    withdrawals = 0 ∷ 2 ∷ [];
    deposits = 0 ∷ 0 ∷ [];
  };
}

epoch_reward_example :
    (w : ℕ) × (epoch_reward losing 1 ≡ ok w) × (signed64 w ≡ sub_ℕ (85 + 2) (90 + 0))
epoch_reward_example =
    epoch_reward_lem losing 1 (omega arith) (omega arith) (omega arith) (omega arith) (omega arith)
      (omega arith)
