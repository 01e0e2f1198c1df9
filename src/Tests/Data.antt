-- ===== src/Tests/Data.antt =====
-- Small values of the program's records.
use eth_cl_state_analyzer.Common.{ℕ, Bool, true, false, List, [], ◌∷◌, replicate}
use eth_cl_state_analyzer.Client.{Validator, Attestation, PendingAttestation, Withdrawal, altair}
use eth_cl_state_analyzer.Spec.Constants.{active_status}
use eth_cl_state_analyzer.Spec.Block.{AgnosticBlock}
use eth_cl_state_analyzer.Spec.Slashing.{AgnosticSlashing, attester_slashing}
use eth_cl_state_analyzer.Spec.Rewards.{ValidatorRewards}
use eth_cl_state_analyzer.Spec.State.{AgnosticState}
use eth_cl_state_analyzer.Metrics.Base.{StateMetricsBase}
use eth_cl_state_analyzer.Analyzer.Aggregation.{Aggregator}

abbrev pub far : ℕ
far = 1_000_000

abbrev pub validator : ℕ → ℕ → Bool → Validator
validator key balance slashed = record {
  public_key = key;
  effective_balance = balance;
  slashed = slashed;
  activation_epoch = 0;
  exit_epoch = far;
  withdrawable_epoch = far;
}

abbrev pub two_validators : List Validator
two_validators = validator 11 32_000_000_000 false ∷ validator 12 31_000_000_000 true ∷ []

abbrev pub withdrawal : ℕ → ℕ → Withdrawal
withdrawal to amount = record {
  withdrawal_index = 0;
  validator_index = to;
  address = 5;
  amount = amount;
}

-- A block of a slot with a root, a proposer and withdrawals.
abbrev pub block : ℕ → ℕ → ℕ → List Withdrawal → AgnosticBlock
block slot root proposer withdrawals = record {
  slot = slot;
  state_root = 1;
  root = root;
  parent_root = 0;
  proposer_index = proposer;
  proposed = true;
  attestations = [];
  votes_included = 0;
  new_votes_included = 0;
  deposits = [];
  proposer_slashings = [];
  attester_slashings = [];
  sync_bits_count = 500;
  execution_payload = record {
    fee_recipient = 0;
    gas_limit = 0;
    gas_used = 0;
    timestamp = 0;
    base_fee_per_gas = 0;
    block_hash = 0;
    agnostic_transactions = [];
    transactions = [];
    payload_size = 0;
    block_number = 0;
    withdrawals = withdrawals;
  };
  api_reward = 0;
  manual_reward = 100;
  bls_to_execution_changes = [];
  graffiti = 0;
  voluntary_exits = [];
  ssz_size = 0;
  snappy_size = 0;
  compression_time = 0;
  decompression_time = 0;
}

abbrev pub two_blocks : List AgnosticBlock
two_blocks =
    block 64 1 0 (withdrawal 1 30 ∷ withdrawal 0 4 ∷ []) ∷ block 65 2 1 (withdrawal 1 5 ∷ []) ∷ []

-- The state of an epoch with roots and blocks, and two validators.
abbrev pub state_at : ℕ → List ℕ → List AgnosticBlock → AgnosticState
state_at epoch roots blocks = record {
  version = altair;
  genesis_timestamp = 0;
  state_root = 1;
  epoch = epoch;
  slot = 95;
  balances = 32_000_000_007 ∷ 31_000_000_003 ∷ [];
  validators = two_validators;
  total_active_balance = 0;
  total_active_real_balance = 0;
  attesting_balance = [];
  epoch_structs = record {
    proposer_duties = [];
    beacon_committees = [];
    validator_att_slot = λ _. 0;
  };
  prev_epoch_correct_flags = [];
  prev_attestations = [];
  validator_attestation_included = [];
  num_attestations = 0;
  num_active_vals = 0;
  num_exited_vals = 0;
  num_slashed_vals = 0;
  num_queued_vals = 0;
  block_roots = roots;
  missed_blocks = [];
  sync_committee = [];
  blocks = blocks;
  withdrawals = [];
  withdrawals_num = 0;
  total_withdrawals_amount = 0;
  deposits = [];
  deposits_num = 0;
  total_deposits_amount = 0;
  current_justified_checkpoint = record { epoch = 0; root = 40 };
  latest_block_slot = 94;
  sync_committee_participation = 0;
  new_proposer_slashings = 0;
  new_attester_slashings = 0;
  slashings = [];
}

abbrev pub epoch_2 : AgnosticState
epoch_2 = state_at 2 [] two_blocks

-- The states of epochs 0, 1 and 2. The roots of the slots of epochs 0 and 1 are 7.
abbrev pub three_epochs : StateMetricsBase
three_epochs = record {
  prev_state = state_at 0 [] [];
  current_state = state_at 1 [] [];
  next_state = state_at 2 (replicate 64 7) [];
  max_slashing_rewards = λ _. 0;
  max_block_rewards = λ _. 0;
  inclusion_delays = [];
  max_attester_rewards = λ _. 0;
}

-- A vote at slot 40 for what the states hold.
abbrev pub vote : Attestation
vote = record {
  att = record {
    slot = 40;
    committee = 0;
    beacon_block_root = 7;
    source = record { epoch = 0; root = 40 };
    target = record { epoch = 1; root = 7 };
  };
  bit_indices = [];
}

abbrev pub pending : ℕ → ℕ → PendingAttestation
pending slot delay = record {
  att = record {
    slot = slot;
    committee = 0;
    beacon_block_root = 7;
    source = record { epoch = 0; root = 40 };
    target = record { epoch = 1; root = 7 };
  };
  bit_indices = [];
  inclusion_delay = delay;
}

abbrev pub slashing : ℕ → AgnosticSlashing
slashing validator = record {
  slashed_validator = validator;
  slashed_by = 0;
  slashing_reason = attester_slashing;
  epoch = 2;
  slot = 64;
  valid = true;
}

abbrev pub rewards : ℕ → ℕ → ValidatorRewards
rewards validator reward = record {
  validator_index = validator;
  epoch = 2;
  validator_balance = 0;
  reward = reward;
  max_reward = reward;
  attestation_reward = 0;
  sync_committee_reward = 0;
  base_reward = 0;
  att_slot = 0;
  attestation_included = true;
  in_sync_committee = false;
  proposer_slot = 0;
  proposer_api_reward = 0;
  proposer_manual_reward = 0;
  missing_source = false;
  missing_target = false;
  missing_head = true;
  status = active_status;
  inclusion_delay = 1;
}

-- An aggregator at the start of a window of epochs 2 and 3.
abbrev pub window : Aggregator
window = record {
  rewards_aggregation_epochs = 2;
  start_epoch_aggregation = 2;
  end_epoch_aggregation = 3;
  aggregations = [];
  persisted = [];
  rows = [];
}
