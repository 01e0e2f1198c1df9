-- ===== src/Metrics/Altair.antt =====
-- pkg/spec/metrics/state_altair.go: flag rewards, inclusion delays, and the rewards of a validator.
use eth_cl_state_analyzer.Common.{
  ℕ, zero, suc, ◌/◌, ◌%◌, Bool, true, false, not, ◌&&◌, ◌||◌, List, [], ◌∷◌, ◌++◌, none, some,
  if◌then◌else◌, add64, mul64, ◌==◌, ltb, leb, get_elem?,
}
use eth_cl_state_analyzer.Common.Go.{Go, ok, fatal, ◌>>=◌, index, update, quot, for_each}
use eth_cl_state_analyzer.Client.{Validator, Attestation, MathPackage}
use eth_cl_state_analyzer.Spec.Constants.{
  slots_per_epoch, min_inclusion_delay, effective_balance_inc, participating_flags_weight,
  weight_denominator,
}
use eth_cl_state_analyzer.Spec.Block.{AgnosticBlock}
use eth_cl_state_analyzer.Spec.State.{AgnosticState}
use eth_cl_state_analyzer.Spec.State.Status.{is_active, get_val_status}
use eth_cl_state_analyzer.Spec.State.Missed.{empty_state_root}
use eth_cl_state_analyzer.Spec.State.Flags.{missing_flags}
use eth_cl_state_analyzer.Spec.Rewards.{ValidatorRewards}
use eth_cl_state_analyzer.Metrics.Base.{
  Amounts, add_amount, StateMetricsBase, first_slot, get_validator_from_committee_index,
  epoch_reward, init_bundle,
}
use eth_cl_state_analyzer.Metrics.Slashings.{process_slashings}
use eth_cl_state_analyzer.Metrics.Rewards.{
  AltairMetrics, get_base_reward, process_sync_aggregates, get_max_sync_com_reward,
}
use eth_cl_state_analyzer.Metrics.Votes.{get_inclusion_delay, process_attestations}

module _ (p : StateMetricsBase) where
  -- The search of `isFlagPossible` for a proposed block, from a slot on, with n slots left.
  unfoldable pub proposed_from : ℕ → ℕ → Go Bool
  proposed_from slot zero = ok false
  proposed_from slot (suc n) =
      let rest = proposed_from (add64 slot 1) n in
      index p.prev_state.blocks (slot % slots_per_epoch) >>= λ prev_block.
      (if leb (first_slot p.current_state.epoch) slot
        then index p.current_state.blocks (slot % slots_per_epoch)
        else ok prev_block)
      >>= λ block. if block.proposed then ok true else rest

  -- `isFlagPossible`, for the longest delay that each flag allows.
  unfoldable pub is_flag_possible_within : (ℕ → ℕ → Go ℕ) → ℕ → ℕ → Go Bool
  unfolding proposed_from
  is_flag_possible_within max_delay_of val_idx flag_index =
      let att_slot = p.prev_state.epoch_structs.validator_att_slot val_idx in
      max_delay_of att_slot flag_index >>= λ max_delay. proposed_from (add64 att_slot 1) max_delay

module _ (math : MathPackage) where
  -- The `switch` of `isFlagPossible`: the longest delay at which a flag is still earned.
  unfoldable pub max_flag_delay : ℕ → ℕ → Go ℕ
  max_flag_delay att_slot zero = ok (math.sqrt slots_per_epoch)
  max_flag_delay att_slot (suc zero) = ok slots_per_epoch
  max_flag_delay att_slot (suc (suc zero)) = ok min_inclusion_delay
  max_flag_delay att_slot _ = fatal

  module _ (flag_possible : StateMetricsBase → ℕ → ℕ → Go Bool) (p : StateMetricsBase) where
    -- The loop of `GetMaxFlagIndexDeltas` over the flags, from flag i on.
    unfoldable pub flag_rewards_from : ℕ → ℕ → ℕ → List ℕ → ℕ → Go ℕ
    flag_rewards_from val_idx base_reward i [] reward = ok reward
    flag_rewards_from val_idx base_reward i (balance ∷ balances) reward = do
      possible ← flag_possible p val_idx i
      reward' ←
          (if possible
            then (do
              weight ← index participating_flags_weight i
              share ← quot (mul64 (mul64 weight base_reward) (balance / effective_balance_inc)) (
                  mul64 (p.current_state.total_active_balance / effective_balance_inc)
                    weight_denominator)
              ok (add64 reward share))
            else ok reward)
      flag_rewards_from val_idx base_reward (suc i) balances reward'

    -- `maxFlagsReward` of one validator.
    unfoldable pub max_flags_reward : ℕ → Validator → Go ℕ
    unfolding flag_rewards_from
    max_flags_reward val_idx validator =
        if is_active validator p.prev_state.epoch
        then (do
          current ← index p.current_state.validators val_idx
          base_reward ←
              get_base_reward math current.effective_balance p.current_state.total_active_balance
          flag_rewards_from val_idx base_reward 0 p.current_state.attesting_balance 0)
        else ok 0

    -- The loop of `GetMaxFlagIndexDeltas` over the validators, from index i on.
    unfoldable pub flag_deltas_from : ℕ → List Validator → Amounts → Go Amounts
    unfolding max_flags_reward
    flag_deltas_from i [] rewards = ok rewards
    flag_deltas_from i (v ∷ vs) rewards = do
      reward ← max_flags_reward i v
      flag_deltas_from (suc i) vs (add_amount rewards i reward)

    unfoldable pub flag_index_deltas : Go StateMetricsBase
    unfolding flag_deltas_from
    flag_index_deltas = flag_deltas_from 0 p.next_state.validators p.max_attester_rewards >>= λ r.
        ok (record p { max_attester_rewards = r })

-- One index of an attestation in `ProcessInclusionDelays`: the first inclusion counts.
unfoldable pub set_delay : StateMetricsBase → Attestation → ℕ → ℕ → List ℕ → Go (List ℕ)
set_delay p attestation delay idx delays =
    get_validator_from_committee_index p attestation.att.slot attestation.att.committee idx
    >>= λ found. elim found [
      | none ↦ fatal
      | some val_idx ↦ update delays val_idx (λ d. if d == 0 then delay else d)
    ]

-- One attestation: only slots of the previous epoch count.
unfoldable pub set_delays : StateMetricsBase → AgnosticBlock → Attestation → List ℕ → Go (List ℕ)
unfolding set_delay get_inclusion_delay
set_delays p block attestation delays =
    if ltb attestation.att.slot (first_slot p.prev_state.epoch)
      || leb (first_slot p.current_state.epoch) attestation.att.slot
    then ok delays
    else for_each (set_delay p attestation (get_inclusion_delay attestation block))
        attestation.bit_indices delays

-- The last loop: whoever was not included gets one more than the longest delay.
unfoldable pub fill_delays : (ℕ → ℕ) → ℕ → List ℕ → List ℕ
fill_delays max_delay i [] = []
fill_delays max_delay i (d ∷ ds) =
    (if d == 0 then add64 (max_delay i) 1 else d) ∷ fill_delays max_delay (suc i) ds

-- `ProcessInclusionDelays`, for a fork's longest delay.
unfoldable pub inclusion_delays_within : (ℕ → ℕ) → StateMetricsBase → Go StateMetricsBase
unfolding set_delays fill_delays
inclusion_delays_within max_delay p =
    for_each (λ block ds. for_each (set_delays p block) block.attestations ds)
      (p.prev_state.blocks ++ p.current_state.blocks) p.inclusion_delays
    >>= λ ds. ok (record p { inclusion_delays = fill_delays max_delay 0 ds })

-- The loop of `GetMaxReward` over the blocks of the next state: the two proposer rewards.
unfoldable pub proposer_rewards_from : ℕ → List AgnosticBlock → ℕ → ℕ → ℕ × ℕ
proposer_rewards_from val_idx [] api manual = (api, manual)
proposer_rewards_from val_idx (b ∷ bs) api manual =
    let mine = b.proposed && b.proposer_index == val_idx in
    proposer_rewards_from val_idx bs (if mine then add64 api b.api_reward else api)
      (if mine then add64 manual b.manual_reward else manual)

module _ (math : MathPackage) where
  -- `AltairMetrics.isFlagPossible`
  unfoldable pub is_flag_possible : StateMetricsBase → ℕ → ℕ → Go Bool
  unfolding is_flag_possible_within max_flag_delay
  is_flag_possible p = is_flag_possible_within p (max_flag_delay math)

  -- `AltairMetrics.GetMaxFlagIndexDeltas`
  unfoldable pub get_max_flag_index_deltas : StateMetricsBase → Go StateMetricsBase
  unfolding flag_index_deltas is_flag_possible
  get_max_flag_index_deltas p = flag_index_deltas math is_flag_possible p

  -- `AltairMetrics.maxInclusionDelay`
  unfoldable pub max_inclusion_delay : ℕ → ℕ
  max_inclusion_delay _ = slots_per_epoch

  -- `AltairMetrics.ProcessInclusionDelays`
  unfoldable pub process_inclusion_delays : StateMetricsBase → Go StateMetricsBase
  unfolding inclusion_delays_within max_inclusion_delay
  process_inclusion_delays p = inclusion_delays_within max_inclusion_delay p

  -- `AltairMetrics.PreProcessBundle`
  unfoldable pub pre_process_bundle : AltairMetrics → Go AltairMetrics
  pre_process_bundle p =
      if not (empty_state_root p.base.prev_state) && not (empty_state_root p.base.current_state)
      then (do
        a ← process_attestations math p.base
        b ← process_slashings a
        c ← process_sync_aggregates math b
        d ← get_max_flag_index_deltas c
        e ← process_inclusion_delays d
        get_max_sync_com_reward math (record p { base = e }))
      else ok p

  -- `NewAltairMetrics`, with the state that the blocks and flags are left in.
  unfoldable pub new_altair_metrics :
      AgnosticState → AgnosticState → AgnosticState → Go AltairMetrics
  unfolding pre_process_bundle
  new_altair_metrics next current prev =
      pre_process_bundle
        (record { base = init_bundle next current prev; max_sync_committee_rewards = λ _. 0 })

  -- `AltairMetrics.GetMaxReward`
  unfoldable pub get_max_reward : AltairMetrics → ℕ → Go ValidatorRewards
  unfolding proposer_rewards_from
  get_max_reward p val_idx =
      let next = p.base.next_state in
      let flag_index_max_reward = p.base.max_attester_rewards val_idx in
      let sync_com_max_reward = p.max_sync_committee_rewards val_idx in
      let proposer = proposer_rewards_from val_idx next.blocks 0 0 in
      let proposer_reward = if ltb 0 proposer.0 then proposer.0 else proposer.1 in
      missing_flags p.base.current_state val_idx >>= λ flags.
      index next.validators val_idx >>= λ validator.
      get_base_reward math validator.effective_balance next.total_active_balance >>= λ base_reward.
      index next.balances val_idx >>= λ balance. epoch_reward p.base val_idx >>= λ reward.
      index flags 0 >>= λ missing_source. index flags 1 >>= λ missing_target.
      index flags 2 >>= λ missing_head. index p.base.inclusion_delays val_idx >>= λ inclusion_delay.
      ok (record {
        validator_index = val_idx;
        epoch = next.epoch;
        validator_balance = balance;
        reward = reward;
        max_reward = add64 (add64 flag_index_max_reward sync_com_max_reward) proposer_reward;
        attestation_reward = flag_index_max_reward;
        sync_committee_reward = sync_com_max_reward;
        base_reward = base_reward;
        att_slot = p.base.prev_state.epoch_structs.validator_att_slot val_idx;
        attestation_included =
            elim (get_elem? p.base.current_state.validator_attestation_included val_idx) [
              | none ↦ false
              | some b ↦ b
            ];
        in_sync_committee = ltb 0 sync_com_max_reward;
        proposer_slot = 0;
        proposer_api_reward = proposer.0;
        proposer_manual_reward = proposer.1;
        missing_source = missing_source;
        missing_target = missing_target;
        missing_head = missing_head;
        status = get_val_status p.base.current_state val_idx;
        inclusion_delay = inclusion_delay;
      })
