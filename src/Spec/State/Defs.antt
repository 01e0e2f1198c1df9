-- ===== src/Spec/State/Defs.antt =====
-- pkg/spec/state.go: the record of the fork-independent beacon state.
use eth_cl_state_analyzer.Common.{ℕ, Bool, List}
use eth_cl_state_analyzer.Client.{DataVersion, Validator, Checkpoint, PendingAttestation}
use eth_cl_state_analyzer.Spec.Block.{AgnosticBlock}
use eth_cl_state_analyzer.Spec.Duties.{EpochDuties}
use eth_cl_state_analyzer.Spec.Slashing.{AgnosticSlashing}

-- `AgnosticState`. `latest_block_slot` is `LatestBlockHeader.Slot`, and the sync committee is
-- its list of public keys. Counts of elements (`int`) are not reduced: a slice fits in memory.
pub record AgnosticState : Type 0 where
  pub version : DataVersion
  pub genesis_timestamp : ℕ
  pub state_root : ℕ
  pub epoch : ℕ
  pub slot : ℕ
  pub balances : List ℕ
  pub validators : List Validator
  pub total_active_balance : ℕ
  pub total_active_real_balance : ℕ
  pub attesting_balance : List ℕ
  pub epoch_structs : EpochDuties
  pub prev_epoch_correct_flags : List (List Bool)
  pub prev_attestations : List PendingAttestation
  pub validator_attestation_included : List Bool
  pub num_attestations : ℕ
  pub num_active_vals : ℕ
  pub num_exited_vals : ℕ
  pub num_slashed_vals : ℕ
  pub num_queued_vals : ℕ
  pub block_roots : List ℕ
  pub missed_blocks : List ℕ
  pub sync_committee : List ℕ
  pub blocks : List AgnosticBlock
  pub withdrawals : List ℕ
  pub withdrawals_num : ℕ
  pub total_withdrawals_amount : ℕ
  pub deposits : List ℕ
  pub deposits_num : ℕ
  pub total_deposits_amount : ℕ
  pub current_justified_checkpoint : Checkpoint
  pub latest_block_slot : ℕ
  pub sync_committee_participation : ℕ
  pub new_proposer_slashings : ℕ
  pub new_attester_slashings : ℕ
  pub slashings : List AgnosticSlashing
