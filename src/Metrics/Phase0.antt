-- ===== src/Metrics/Phase0.antt =====
-- pkg/spec/metrics/state_phase0.go: the rewards of phase 0.
use eth_cl_state_analyzer.Common.{
  ℕ, zero, suc, ◌+◌, ◌/◌, ◌%◌, Bool, true, false, not, ◌&&◌, ◌||◌, List, [], ◌∷◌, none, some,
  if◌then◌else◌, add64, sub64, mul64, ◌==◌,
}
use eth_cl_state_analyzer.Common.Go.{Go, ok, fatal, ◌>>=◌, index, update, modify, quot, for_each}
use eth_cl_state_analyzer.Client.{Validator, PendingAttestation, MathPackage}
use eth_cl_state_analyzer.Spec.Constants.{
  slots_per_epoch, slots_per_historical_root, effective_balance_inc, base_reward_factor,
  proposer_reward_quotient,
}
use eth_cl_state_analyzer.Spec.Block.{AgnosticBlock}
use eth_cl_state_analyzer.Spec.Duties.{get_val_list}
use eth_cl_state_analyzer.Spec.State.{AgnosticState}
use eth_cl_state_analyzer.Spec.State.Status.{is_active, get_val_status}
use eth_cl_state_analyzer.Spec.State.Missed.{empty_state_root}
use eth_cl_state_analyzer.Spec.Rewards.{ValidatorRewards}
use eth_cl_state_analyzer.Metrics.Base.{
  Amounts, add_amount, StateMetricsBase, Era, in_prev, in_current, in_next, era_of, state_of,
  get_block_from_slot, epoch_reward, init_bundle,
}
use eth_cl_state_analyzer.Metrics.Slashings.{process_slashings}
use eth_cl_state_analyzer.Metrics.Order.{order_attestations_by_slot}

-- Writing through the pointer that `GetBlockFromSlot` returned.
unfoldable pub change_block :
    StateMetricsBase → Era → ℕ → (AgnosticBlock → AgnosticBlock) → Go StateMetricsBase
change_block p in_prev i f = modify p.prev_state.blocks i (λ b. ok (f b)) >>= λ bs.
    ok (record p { prev_state = record p.prev_state { blocks = bs } })
change_block p in_current i f = modify p.current_state.blocks i (λ b. ok (f b)) >>= λ bs.
    ok (record p { current_state = record p.current_state { blocks = bs } })
change_block p in_next i f = modify p.next_state.blocks i (λ b. ok (f b)) >>= λ bs.
    ok (record p { next_state = record p.next_state { blocks = bs } })

-- `IsCorrectSource`
unfoldable pub is_correct_source : StateMetricsBase → Bool
is_correct_source p =
    let epoch = p.next_state.slot / slots_per_epoch in
    if epoch == p.next_state.epoch || epoch == p.current_state.epoch then true else false

-- `IsCorrectTarget`
unfoldable pub is_correct_target : StateMetricsBase → PendingAttestation → Go Bool
is_correct_target p attestation =
    let slot = mul64 (p.current_state.slot / slots_per_epoch) slots_per_epoch in
    index p.current_state.block_roots (slot % slots_per_historical_root) >>= λ expected.
    ok (attestation.att.target.root == expected)

-- `IsCorrectHead`
unfoldable pub is_correct_head : StateMetricsBase → PendingAttestation → Go Bool
is_correct_head p attestation =
    index p.next_state.block_roots (attestation.att.slot % slots_per_historical_root)
    >>= λ expected. ok (attestation.att.beacon_block_root == expected)

-- The loop of `getMinInclusionDelayPossible` at slot i, with n slots left.
unfoldable pub min_delay_from : StateMetricsBase → ℕ → ℕ → ℕ → Go ℕ
min_delay_from p i zero result = ok result
min_delay_from p i (suc n) result =
    let rest = min_delay_from p (add64 i 1) n (result + 1) in
    get_block_from_slot p i >>= λ found. elim found [
      | none ↦ fatal
      | some block ↦ if block.proposed then ok result else rest
    ]

unfoldable pub get_min_inclusion_delay_possible : StateMetricsBase → ℕ → Go ℕ
unfolding min_delay_from
get_min_inclusion_delay_possible p slot = min_delay_from p (add64 slot 1) slots_per_epoch 1

-- Marking a flag of the next state and adding the balance to it.
unfoldable pub mark_flag : StateMetricsBase → ℕ → ℕ → Go StateMetricsBase
mark_flag p flag val_idx = do
  let next = p.next_state
  flags ← modify next.prev_epoch_correct_flags flag (λ row. update row val_idx (λ _. true))
  v ← index next.validators val_idx
  balances ← update next.attesting_balance flag (λ b. add64 b v.effective_balance)
  ok (record p {
    next_state = record next { prev_epoch_correct_flags = flags; attesting_balance = balances };
  })

module _ (math : MathPackage) where
  -- `GetBaseReward`
  unfoldable pub get_base_reward : StateMetricsBase → ℕ → Go ℕ
  get_base_reward p val_idx = index p.current_state.validators val_idx >>= λ v.
      quot (mul64 v.effective_balance base_reward_factor)
        (math.four_sqrt p.current_state.total_active_balance)

  -- `GetProposerReward`
  unfoldable pub get_proposer_reward : StateMetricsBase → ℕ → Go ℕ
  unfolding get_base_reward
  get_proposer_reward p val_idx =
      get_base_reward p val_idx >>= λ r. ok (r / proposer_reward_quotient)

  -- The branch of a correct source.
  unfoldable pub reward_source : StateMetricsBase → Era → ℕ → ℕ → ℕ → ℕ → Go StateMetricsBase
  unfolding mark_flag change_block get_proposer_reward
  reward_source p era place proposer val_idx best_delay = do
    a ← mark_flag p 0 val_idx
    included ← update a.current_state.validator_attestation_included val_idx (λ _. true)
    let b = record a {
      current_state = record a.current_state { validator_attestation_included = included };
    }
    proposer_reward ← get_proposer_reward b val_idx
    let c = record b { max_block_rewards = add_amount b.max_block_rewards proposer proposer_reward }
    d ←
        change_block c era place
          (λ k. record k { manual_reward = add64 k.manual_reward proposer_reward })
    base_reward ← get_base_reward d val_idx
    share ← quot (sub64 base_reward proposer_reward) best_delay
    ok (record d { max_attester_rewards = add_amount d.max_attester_rewards val_idx share })

  -- The first inclusion of a vote.
  unfoldable pub first_vote :
      PendingAttestation → Era → ℕ → ℕ → ℕ → StateMetricsBase → Go StateMetricsBase
  unfolding reward_source mark_flag change_block
  first_vote attestation era place proposer val_idx p = do
    delays ← update p.inclusion_delays val_idx (λ _. attestation.inclusion_delay)
    a ←
        change_block (record p { inclusion_delays = delays }) era place
          (λ k. record k { new_votes_included = add64 k.new_votes_included 1 })
    best ← get_min_inclusion_delay_possible a attestation.att.slot
    b ← (if is_correct_source a then reward_source a era place proposer val_idx best else ok a)
    target ← is_correct_target b attestation
    c ← (if target then mark_flag b 1 val_idx else ok b)
    head ← is_correct_head c attestation
    if head then mark_flag c 2 val_idx else ok c

  -- One index of an attestation.
  unfoldable pub count_index :
      PendingAttestation → Era → ℕ → ℕ → List ℕ → ℕ → StateMetricsBase → Go StateMetricsBase
  unfolding first_vote change_block
  count_index attestation era place proposer committee i p = do
    val_idx ← index committee i
    a ← change_block p era place (λ k. record k { votes_included = add64 k.votes_included 1 })
    delay ← index a.inclusion_delays val_idx
    if delay == 0 then first_vote attestation era place proposer val_idx a else ok a

  -- One attestation; a slot of no epoch ends the process.
  unfoldable pub count_pending : PendingAttestation → StateMetricsBase → Go StateMetricsBase
  unfolding count_index
  count_pending attestation p =
      let inclusion_slot = add64 attestation.att.slot attestation.inclusion_delay in
      elim (era_of p inclusion_slot) [
        | none ↦ fatal
        | some era ↦
            let place = inclusion_slot % slots_per_epoch in
            index (state_of p era).blocks place >>= λ block.
            for_each
              (count_index attestation era place block.proposer_index (
                get_val_list p.current_state.epoch_structs attestation.att.slot
                  attestation.att.committee))
              attestation.bit_indices p
      ]

  -- The last loop of `GetInclusionDelayDeltas`.
  unfoldable pub fill_delays : List ℕ → List ℕ
  fill_delays [] = []
  fill_delays (d ∷ ds) = (if d == 0 then slots_per_epoch + 1 else d) ∷ fill_delays ds

  unfoldable pub get_inclusion_delay_deltas : StateMetricsBase → Go StateMetricsBase
  unfolding count_pending fill_delays
  get_inclusion_delay_deltas p = do
    prev_attestations ← order_attestations_by_slot p.next_state.prev_attestations
    q ← for_each count_pending prev_attestations p
    ok (record q { inclusion_delays = fill_delays q.inclusion_delays })

  -- The loop of `GetMaxAttComponentDeltas` over the flags, from flag i on.
  unfoldable pub component_from : ℕ → ℕ → List ℕ → ℕ → List (List Bool) → ℕ → Go ℕ
  component_from base_reward total balances i [] reward = ok reward
  component_from base_reward total balances i (row ∷ rows) reward = do
    balance ← index balances i
    share ←
        quot (mul64 base_reward (balance / effective_balance_inc)) (total / effective_balance_inc)
    component_from base_reward total balances (suc i) rows (add64 reward share)

  -- Its loop over the validators, from index i on.
  unfoldable pub components_from : StateMetricsBase → ℕ → List Validator → Amounts → Go Amounts
  unfolding component_from get_base_reward
  components_from p i [] rewards = ok rewards
  components_from p i (v ∷ vs) rewards =
      (if is_active v p.prev_state.epoch
        then (do
          base_reward ← get_base_reward p i
          reward ←
              component_from base_reward p.current_state.total_active_balance
                p.current_state.attesting_balance 0 p.current_state.prev_epoch_correct_flags 0
          ok (add_amount rewards i reward))
        else ok rewards)
      >>= λ r. components_from p (suc i) vs r

  unfoldable pub get_max_att_component_deltas : StateMetricsBase → Go StateMetricsBase
  unfolding components_from
  get_max_att_component_deltas p =
      if p.current_state.epoch == 0
      then ok p
      else (components_from p 0 p.next_state.validators p.max_attester_rewards >>= λ r.
          ok (record p { max_attester_rewards = r }))

  -- `PreProcessBundle`
  unfoldable pub pre_process_bundle : StateMetricsBase → Go StateMetricsBase
  pre_process_bundle p =
      let two = not (empty_state_root p.current_state) in
      let three = not (empty_state_root p.prev_state) && two in
      (if two then (process_slashings p >>= λ a. get_inclusion_delay_deltas a) else ok p) >>= λ b.
      if three then get_max_att_component_deltas b else ok b

  -- `NewPhase0Metrics`
  unfoldable pub new_phase0_metrics :
      AgnosticState → AgnosticState → AgnosticState → Go StateMetricsBase
  unfolding pre_process_bundle
  new_phase0_metrics next current prev = pre_process_bundle (init_bundle next current prev)

  -- A flag of a validator in the current state.
  abbrev pub correct_flag : StateMetricsBase → ℕ → ℕ → Go Bool
  correct_flag p flag val_idx =
      index p.current_state.prev_epoch_correct_flags flag >>= λ row. index row val_idx

  -- `GetMaxReward`
  unfoldable pub get_max_reward : StateMetricsBase → ℕ → Go ValidatorRewards
  get_max_reward p val_idx = do
    let attester = p.max_attester_rewards val_idx
    let proposer = p.max_block_rewards val_idx
    balance ← index p.current_state.balances val_idx
    reward ← epoch_reward p val_idx
    included ← index p.current_state.validator_attestation_included val_idx
    source ← correct_flag p 0 val_idx
    target ← correct_flag p 1 val_idx
    head ← correct_flag p 2 val_idx
    base_reward ← get_base_reward p val_idx
    delay ← index p.inclusion_delays val_idx
    ok (record {
      validator_index = val_idx;
      epoch = p.next_state.epoch;
      validator_balance = balance;
      reward = reward;
      max_reward = add64 (add64 attester (p.max_slashing_rewards val_idx)) proposer;
      attestation_reward = attester;
      sync_committee_reward = 0;
      base_reward = base_reward;
      att_slot = p.prev_state.epoch_structs.validator_att_slot val_idx;
      attestation_included = included;
      in_sync_committee = false;
      proposer_slot = 0;
      proposer_api_reward = 0;
      proposer_manual_reward = proposer;
      missing_source = not source;
      missing_target = not target;
      missing_head = not head;
      status = get_val_status p.next_state val_idx;
      inclusion_delay = delay;
    })
