-- ===== src/Spec/Constants.antt =====
-- pkg/spec/constants.go: the protocol constants, and the model and status enumerations.
use eth_cl_state_analyzer.Common.{ℕ, List, [], ◌∷◌}

abbrev pub max_effective_inc : ℕ
max_effective_inc = 32

abbrev pub base_reward_factor : ℕ
base_reward_factor = 64

abbrev pub base_reward_per_epoch : ℕ
base_reward_per_epoch = 4

abbrev pub effective_balance_inc : ℕ
effective_balance_inc = 1_000_000_000

abbrev pub slots_per_epoch : ℕ
slots_per_epoch = 32

abbrev pub proposer_reward_quotient : ℕ
proposer_reward_quotient = 8

abbrev pub slots_per_historical_root : ℕ
slots_per_historical_root = 8192

abbrev pub slot_seconds : ℕ
slot_seconds = 12

abbrev pub whistle_blower_reward_quotient : ℕ
whistle_blower_reward_quotient = 512

abbrev pub min_inclusion_delay : ℕ
min_inclusion_delay = 1

abbrev pub timely_source_weight : ℕ
timely_source_weight = 14

abbrev pub timely_target_weight : ℕ
timely_target_weight = 26

abbrev pub timely_head_weight : ℕ
timely_head_weight = 14

abbrev pub sync_reward_weight : ℕ
sync_reward_weight = 2

abbrev pub proposer_weight : ℕ
proposer_weight = 8

abbrev pub weight_denominator : ℕ
weight_denominator = 64

abbrev pub sync_committee_size : ℕ
sync_committee_size = 512

-- `ParticipatingFlagsWeight`
abbrev pub participating_flags_weight : List ℕ
participating_flags_weight = timely_source_weight ∷ timely_target_weight ∷ timely_head_weight ∷ []

-- `ValidatorStatus`
pub data ValidatorStatus : Type 0 where
  queue_status active_status exit_status slashed_status : ValidatorStatus
