-- ===== src/Metrics/Base.antt =====
-- pkg/spec/metrics/standard.go and utils.go: three successive states, and what is looked up in them
-- by slot. The states and their blocks are distinct objects, so each is a value of its own here.
use eth_cl_state_analyzer.Common.{
  ℕ, zero, suc, ◌+◌, ◌-◌, ◌%◌, Bool, true, false, ◌&&◌, List, [], ◌∷◌, Option, none, some, ltb, leb,
  ◌==◌, if◌then◌else◌, length, replicate, add64, sub64, mul64,
}
use eth_cl_state_analyzer.Common.Go.{Go, ok, ◌>>=◌, index}
use eth_cl_state_analyzer.Spec.Constants.{slots_per_epoch}
use eth_cl_state_analyzer.Spec.Block.{AgnosticBlock}
use eth_cl_state_analyzer.Spec.Duties.{get_val_list}
use eth_cl_state_analyzer.Spec.State.{AgnosticState}

-- A Go map from indices to amounts, of which only single entries are read: a missing one is 0.
abbrev pub Amounts : Type 0
Amounts = ℕ → ℕ

-- `m[k] += v`
unfoldable pub add_amount : Amounts → ℕ → ℕ → Amounts
add_amount m k v j = if k == j then add64 (m j) v else m j

pub record StateMetricsBase : Type 0 where
  pub prev_state : AgnosticState
  pub current_state : AgnosticState
  pub next_state : AgnosticState
  pub max_slashing_rewards : Amounts
  pub max_block_rewards : Amounts
  pub inclusion_delays : List ℕ
  pub max_attester_rewards : Amounts

-- The base part of `InitBundle`, the same for every fork.
unfoldable pub init_bundle : AgnosticState → AgnosticState → AgnosticState → StateMetricsBase
init_bundle next current prev = record {
  prev_state = prev;
  current_state = current;
  next_state = next;
  max_slashing_rewards = λ _. 0;
  max_block_rewards = λ _. 0;
  inclusion_delays = replicate (length next.validators) 0;
  max_attester_rewards = λ _. 0;
}

-- The first slot of an epoch.
abbrev pub first_slot : ℕ → ℕ
first_slot epoch = mul64 epoch slots_per_epoch

-- `slotInEpoch`
unfoldable pub slot_in_epoch : ℕ → ℕ → Bool
slot_in_epoch slot epoch =
    if leb (first_slot epoch) slot && ltb slot (first_slot (add64 epoch 1)) then true else false

-- Which of the three states covers a slot; `none` is the error of the lookups.
pub data Era : Type 0 where
  in_prev in_current in_next : Era

-- The three tests that the lookups by slot have in common.
unfoldable pub era_of : StateMetricsBase → ℕ → Option Era
era_of s slot =
    if leb (first_slot s.prev_state.epoch) slot && ltb slot (first_slot s.current_state.epoch)
    then some in_prev
    else if leb (first_slot s.current_state.epoch) slot && ltb slot (first_slot s.next_state.epoch)
    then some in_current
    else if leb (first_slot s.next_state.epoch) slot
        && ltb slot (first_slot (add64 s.next_state.epoch 1))
    then some in_next
    else none

abbrev pub state_of : StateMetricsBase → Era → AgnosticState
state_of s in_prev = s.prev_state
state_of s in_current = s.current_state
state_of s in_next = s.next_state

-- `GetValidatorFromCommitteeIndex`; `none` is its error.
unfoldable pub get_validator_from_committee_index : StateMetricsBase → ℕ → ℕ → ℕ → Go (Option ℕ)
get_validator_from_committee_index s slot committee_index idx = elim (era_of s slot) [
  | none ↦ ok none
  | some era ↦ index (get_val_list (state_of s era).epoch_structs slot committee_index) idx >>= λ v.
      ok (some v)
]

-- `GetJustifiedRootfromSlot`
unfoldable pub get_justified_root_from_slot : StateMetricsBase → ℕ → Option ℕ
get_justified_root_from_slot s slot = elim (era_of s slot) [
  | none ↦ none
  | some era ↦ some (state_of s era).current_justified_checkpoint.root
]

-- `GetBlockFromSlot`
unfoldable pub get_block_from_slot : StateMetricsBase → ℕ → Go (Option AgnosticBlock)
get_block_from_slot s slot = elim (era_of s slot) [
  | none ↦ ok none
  | some era ↦ index (state_of s era).blocks (slot % slots_per_epoch) >>= λ b. ok (some b)
]

-- The loop of `GetBestInclusionDelay` at slot i, with n rounds left.
unfoldable pub best_delay_from : StateMetricsBase → ℕ → ℕ → ℕ → ℕ → Go (Option ℕ)
best_delay_from s slot min_slot i zero = ok (some (sub64 slot min_slot))
best_delay_from s slot min_slot i (suc n) =
    let rest = best_delay_from s slot min_slot (i - 1) n in
    get_block_from_slot s i >>= λ found. elim found [
      | none ↦ ok none
      | some block ↦ if block.proposed then ok (some (sub64 slot i)) else rest
    ]

unfoldable pub get_best_inclusion_delay : StateMetricsBase → ℕ → Go (Option ℕ)
unfolding best_delay_from
get_best_inclusion_delay s slot =
    let min_slot = first_slot s.prev_state.epoch in
    best_delay_from s slot min_slot slot (slot - min_slot)

-- `EpochReward`, as the bit pattern of its int64.
unfoldable pub epoch_reward : StateMetricsBase → ℕ → Go ℕ
epoch_reward s val_idx =
    if ltb val_idx (length s.current_state.balances) && ltb val_idx (length s.next_state.balances)
    then (do
      next ← index s.next_state.balances val_idx
      current ← index s.current_state.balances val_idx
      withdrawn ← index s.next_state.withdrawals val_idx
      deposited ← index s.next_state.deposits val_idx
      ok (sub64 (add64 (sub64 next current) withdrawn) deposited))
    else ok 0

-- `countTrue`
unfoldable pub count_true_from : List Bool → ℕ → ℕ
count_true_from [] result = result
count_true_from (item ∷ arr) result = count_true_from arr (if item then result + 1 else result)

unfoldable pub count_true : List Bool → ℕ
unfolding count_true_from
count_true arr = count_true_from arr 0
