-- ===== src/Metrics/Rewards.antt =====
-- pkg/spec/metrics/state_altair.go: base rewards and sync committee rewards.
use eth_cl_state_analyzer.Common.{
  ℕ, suc, ◌-◌, ◌*◌, ◌/◌, List, [], ◌∷◌, if◌then◌else◌, add64, sub64, mul64, length, ◌==◌,
}
use eth_cl_state_analyzer.Common.Go.{Go, ok, ◌>>=◌, quot, for_each, for_each_mut}
use eth_cl_state_analyzer.Client.{Validator, MathPackage}
use eth_cl_state_analyzer.Spec.Constants.{
  effective_balance_inc, base_reward_factor, sync_reward_weight, weight_denominator,
  slots_per_epoch, sync_committee_size, proposer_weight,
}
use eth_cl_state_analyzer.Spec.Block.{AgnosticBlock}
use eth_cl_state_analyzer.Spec.State.{AgnosticState}
use eth_cl_state_analyzer.Metrics.Base.{Amounts, add_amount, StateMetricsBase}

-- `AltairMetrics`
pub record AltairMetrics : Type 0 where
  pub base : StateMetricsBase
  pub max_sync_committee_rewards : Amounts

module _ (math : MathPackage) where
  -- `GetBaseRewardPerInc`
  unfoldable pub get_base_reward_per_inc : ℕ → Go ℕ
  get_base_reward_per_inc total =
      quot (effective_balance_inc * base_reward_factor) (math.sqrt total)

  -- `GetBaseReward`
  unfoldable pub get_base_reward : ℕ → ℕ → Go ℕ
  unfolding get_base_reward_per_inc
  get_base_reward effective_balance total = get_base_reward_per_inc total >>= λ r.
      ok (mul64 r (effective_balance / effective_balance_inc))

  -- `participantReward`: what one seat of the sync committee earns in one slot.
  unfoldable pub participant_reward : ℕ → Go ℕ
  unfolding get_base_reward_per_inc
  participant_reward total = do
    per_inc ← get_base_reward_per_inc total
    let total_base_rewards = mul64 per_inc (total / effective_balance_inc)
    let max_participant_rewards =
        mul64 total_base_rewards sync_reward_weight / weight_denominator / slots_per_epoch
    ok (max_participant_rewards / sync_committee_size)

  -- The body of the loop of `ProcessSyncAggregates`.
  unfoldable pub reward_sync_aggregate : ℕ → AgnosticBlock → Amounts → Go (AgnosticBlock × Amounts)
  unfolding participant_reward
  reward_sync_aggregate total block rewards = do
    participant ← participant_reward total
    let single = mul64 participant proposer_weight / (weight_denominator - proposer_weight)
    let reward = mul64 single block.sync_bits_count
    ok (
      record block { manual_reward = add64 block.manual_reward reward },
      add_amount rewards block.proposer_index reward,
    )

  unfoldable pub process_sync_aggregates : StateMetricsBase → Go StateMetricsBase
  unfolding reward_sync_aggregate
  process_sync_aggregates p = do
    result ←
        for_each_mut (reward_sync_aggregate p.next_state.total_active_balance) p.next_state.blocks
          p.max_block_rewards
    ok (record p {
      next_state = record p.next_state { blocks = result.0 };
      max_block_rewards = result.1;
    })

  -- The loop of `GetMaxSyncComReward` over the validators, from index i on, for one public key.
  unfoldable pub sync_com_reward_from :
      AgnosticState → ℕ → ℕ → List Validator → Amounts → Go Amounts
  unfolding participant_reward
  sync_com_reward_from next pubkey i [] rewards = ok rewards
  sync_com_reward_from next pubkey i (v ∷ vs) rewards =
      (if pubkey == v.public_key
        then (participant_reward next.total_active_balance >>= λ participant. ok (
            add_amount rewards i
              (mul64 participant (sub64 slots_per_epoch (length next.missed_blocks)))))
        else ok rewards)
      >>= λ r. sync_com_reward_from next pubkey (suc i) vs r

  unfoldable pub get_max_sync_com_reward : AltairMetrics → Go AltairMetrics
  unfolding sync_com_reward_from
  get_max_sync_com_reward p =
      let next = p.base.next_state in
      for_each (λ pubkey r. sync_com_reward_from next pubkey 0 next.validators r)
        next.sync_committee p.max_sync_committee_rewards
      >>= λ r. ok (record p { max_sync_committee_rewards = r })
