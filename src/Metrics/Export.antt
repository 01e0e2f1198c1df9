-- ===== src/Metrics/Export.antt =====
-- pkg/spec/metrics/standard.go: the metrics of a fork, and the summary of an epoch (`spec.Epoch` of
-- pkg/spec/epoch.go). The source stores the total balance in ETH as a float32; here it is in Gwei.
use eth_cl_state_analyzer.Common.{ℕ, ◌/◌, Option, none, some, length, add64, mul64}
use eth_cl_state_analyzer.Common.Go.{Go, ok, ◌>>=◌, index}
use eth_cl_state_analyzer.Client.{MathPackage, phase0, altair, bellatrix, capella, deneb, unknown}
use eth_cl_state_analyzer.Spec.Constants.{effective_balance_inc, slots_per_epoch, slot_seconds}
use eth_cl_state_analyzer.Spec.Rewards.{ValidatorRewards}
use eth_cl_state_analyzer.Spec.State.{AgnosticState}
use eth_cl_state_analyzer.Spec.State.Flags.{get_missing_flag_count}
use eth_cl_state_analyzer.Metrics.Base.{StateMetricsBase, count_true}
use eth_cl_state_analyzer.Metrics.Rewards.{AltairMetrics}
use eth_cl_state_analyzer.Metrics.Phase0
use eth_cl_state_analyzer.Metrics.Altair
use eth_cl_state_analyzer.Metrics.Deneb

-- The values behind the interface `StateMetrics`.
pub data StateMetrics : Type 0 where
  phase0_metrics : StateMetricsBase → StateMetrics
  altair_metrics : AltairMetrics → StateMetrics
  deneb_metrics : AltairMetrics → StateMetrics

-- `GetMetricsBase`
unfoldable pub get_metrics_base : StateMetrics → StateMetricsBase
get_metrics_base (phase0_metrics p) = p
get_metrics_base (altair_metrics p) = p.base
get_metrics_base (deneb_metrics p) = p.base

module _ (math : MathPackage) where
  -- `GetMaxReward`, through the interface.
  unfoldable pub get_max_reward : StateMetrics → ℕ → Go ValidatorRewards
  get_max_reward (phase0_metrics p) i = Phase0.get_max_reward math p i
  get_max_reward (altair_metrics p) i = Altair.get_max_reward math p i
  get_max_reward (deneb_metrics p) i = Altair.get_max_reward math p i

  -- `StateMetricsByForkVersion`; `none` is its error.
  unfoldable pub state_metrics_by_fork_version :
      AgnosticState → AgnosticState → AgnosticState → Go (Option StateMetrics)
  state_metrics_by_fork_version next current prev = elim next.version [
    | phase0 ↦
        Phase0.new_phase0_metrics math next current prev >>= λ m. ok (some (phase0_metrics m))
    | altair ↦
        Altair.new_altair_metrics math next current prev >>= λ m. ok (some (altair_metrics m))
    | bellatrix ↦
        Altair.new_altair_metrics math next current prev >>= λ m. ok (some (altair_metrics m))
    | capella ↦
        Altair.new_altair_metrics math next current prev >>= λ m. ok (some (altair_metrics m))
    | deneb ↦ Deneb.new_deneb_metrics math next current prev >>= λ m. ok (some (deneb_metrics m))
    | unknown ↦ ok none
  ]

pub record Epoch : Type 0 where
  pub epoch : ℕ
  pub slot : ℕ
  pub num_attestations : ℕ
  pub num_att_validators : ℕ
  pub num_validators : ℕ
  pub total_balance : ℕ
  pub att_effective_balance : ℕ
  pub source_att_effective_balance : ℕ
  pub target_att_effective_balance : ℕ
  pub head_att_effective_balance : ℕ
  pub total_effective_balance : ℕ
  pub missing_source : ℕ
  pub missing_target : ℕ
  pub missing_head : ℕ
  pub timestamp : ℕ
  pub num_slashed_vals : ℕ
  pub num_active_vals : ℕ
  pub num_exited_vals : ℕ
  pub num_in_activation_vals : ℕ
  pub sync_committee_participation : ℕ
  pub deposits_num : ℕ
  pub total_deposits_amount : ℕ
  pub withdrawals_num : ℕ
  pub total_withdrawals_amount : ℕ
  pub new_proposer_slashings : ℕ
  pub new_attester_slashings : ℕ

unfoldable pub export_to_epoch : StateMetricsBase → Go Epoch
export_to_epoch s = do
  let current = s.current_state
  let next = s.next_state
  source ← index next.attesting_balance 0
  target ← index next.attesting_balance 1
  head ← index next.attesting_balance 2
  missing_source ← get_missing_flag_count next 0
  missing_target ← get_missing_flag_count next 1
  missing_head ← get_missing_flag_count next 2
  ok (record {
    epoch = current.epoch;
    slot = current.slot;
    num_attestations = current.num_attestations;
    num_att_validators = count_true current.validator_attestation_included;
    num_validators = length current.validators;
    total_balance = current.total_active_real_balance;
    att_effective_balance = target / effective_balance_inc;
    source_att_effective_balance = source / effective_balance_inc;
    target_att_effective_balance = target / effective_balance_inc;
    head_att_effective_balance = head / effective_balance_inc;
    total_effective_balance = current.total_active_balance / effective_balance_inc;
    missing_source = missing_source;
    missing_target = missing_target;
    missing_head = missing_head;
    timestamp =
        add64 current.genesis_timestamp (mul64 (mul64 current.epoch slots_per_epoch) slot_seconds);
    num_slashed_vals = current.num_slashed_vals;
    num_active_vals = current.num_active_vals;
    num_exited_vals = current.num_exited_vals;
    num_in_activation_vals = current.num_queued_vals;
    sync_committee_participation = current.sync_committee_participation;
    deposits_num = current.deposits_num;
    total_deposits_amount = current.total_deposits_amount;
    withdrawals_num = current.withdrawals_num;
    total_withdrawals_amount = current.total_withdrawals_amount;
    new_proposer_slashings = current.new_proposer_slashings;
    new_attester_slashings = current.new_attester_slashings;
  })
