-- ===== src/Metrics/Deneb.antt =====
-- pkg/spec/metrics/state_deneb.go: what Deneb changes. Its target flag can be earned until the end of
-- the epoch after the attested one.
use eth_cl_state_analyzer.Common.{
  ℕ, zero, suc, ◌+◌, ◌-◌, ◌/◌, ◌%◌, Bool, not, ◌&&◌, if◌then◌else◌, sub64, leb,
}
use eth_cl_state_analyzer.Common.Go.{Go, ok, fatal, ◌>>=◌}
use eth_cl_state_analyzer.Common.Int.{int_leb}
use eth_cl_state_analyzer.Client.{Attestation, MathPackage}
use eth_cl_state_analyzer.Spec.Constants.{slots_per_epoch, min_inclusion_delay}
use eth_cl_state_analyzer.Spec.Block.{AgnosticBlock}
use eth_cl_state_analyzer.Spec.State.{AgnosticState}
use eth_cl_state_analyzer.Spec.State.Missed.{empty_state_root}
use eth_cl_state_analyzer.Metrics.Base.{StateMetricsBase, init_bundle}
use eth_cl_state_analyzer.Metrics.Slashings.{process_slashings}
use eth_cl_state_analyzer.Metrics.Rewards.{
  AltairMetrics, process_sync_aggregates, get_max_sync_com_reward,
}
use eth_cl_state_analyzer.Metrics.Votes.{FlagSet, matching, get_inclusion_delay, count_votes}
use eth_cl_state_analyzer.Metrics.Altair.{
  is_flag_possible_within, flag_index_deltas, inclusion_delays_within,
}

module _ (math : MathPackage) where
  -- `DenebMetrics.getParticipationFlags`
  unfoldable pub get_participation_flags :
      StateMetricsBase → Attestation → AgnosticBlock → Go FlagSet
  unfolding matching get_inclusion_delay
  get_participation_flags p attestation block = do
    m ← matching p attestation
    let delay = get_inclusion_delay attestation block
    let included_in_epoch = block.slot / slots_per_epoch
    let attestation_epoch = attestation.att.slot / slots_per_epoch
    ok (record {
      source = m.source && int_leb delay (math.sqrt slots_per_epoch);
      target = m.target && leb (sub64 included_in_epoch attestation_epoch) 1;
      head = m.head && int_leb delay min_inclusion_delay;
    })

  -- `DenebMetrics.ProcessAttestations`
  unfoldable pub process_attestations : StateMetricsBase → Go StateMetricsBase
  unfolding count_votes get_participation_flags
  process_attestations p = count_votes math p (get_participation_flags p)

  -- The `switch` of `isFlagPossible`.
  unfoldable pub max_flag_delay : ℕ → ℕ → Go ℕ
  max_flag_delay att_slot zero = ok (math.sqrt slots_per_epoch)
  max_flag_delay att_slot (suc zero) =
      ok (slots_per_epoch + (slots_per_epoch - att_slot % slots_per_epoch))
  max_flag_delay att_slot (suc (suc zero)) = ok 1
  max_flag_delay att_slot _ = fatal

  -- `DenebMetrics.isFlagPossible`
  unfoldable pub is_flag_possible : StateMetricsBase → ℕ → ℕ → Go Bool
  unfolding is_flag_possible_within max_flag_delay
  is_flag_possible p = is_flag_possible_within p max_flag_delay

  -- `DenebMetrics.GetMaxFlagIndexDeltas`
  unfoldable pub get_max_flag_index_deltas : StateMetricsBase → Go StateMetricsBase
  unfolding flag_index_deltas is_flag_possible
  get_max_flag_index_deltas p = flag_index_deltas math is_flag_possible p

  -- `DenebMetrics.maxInclusionDelay`: until the last slot of the next epoch.
  unfoldable pub max_inclusion_delay : StateMetricsBase → ℕ → ℕ
  max_inclusion_delay p val_idx =
      let slot = p.prev_state.epoch_structs.validator_att_slot val_idx in
      slots_per_epoch + (slots_per_epoch - slot % slots_per_epoch - 1)

  -- `DenebMetrics.ProcessInclusionDelays`
  unfoldable pub process_inclusion_delays : StateMetricsBase → Go StateMetricsBase
  unfolding inclusion_delays_within max_inclusion_delay
  process_inclusion_delays p = inclusion_delays_within (max_inclusion_delay p) p

  -- `DenebMetrics.PreProcessBundle`
  unfoldable pub pre_process_bundle : AltairMetrics → Go AltairMetrics
  pre_process_bundle p =
      if not (empty_state_root p.base.prev_state) && not (empty_state_root p.base.current_state)
      then (do
        a ← process_attestations p.base
        b ← process_slashings a
        c ← process_sync_aggregates math b
        d ← get_max_flag_index_deltas c
        e ← process_inclusion_delays d
        get_max_sync_com_reward math (record p { base = e }))
      else ok p

  -- `NewDenebMetrics`
  unfoldable pub new_deneb_metrics :
      AgnosticState → AgnosticState → AgnosticState → Go AltairMetrics
  unfolding pre_process_bundle
  new_deneb_metrics next current prev =
      pre_process_bundle
        (record { base = init_bundle next current prev; max_sync_committee_rewards = λ _. 0 })
