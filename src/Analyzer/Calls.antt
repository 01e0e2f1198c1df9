-- ===== src/Analyzer/Calls.antt =====
-- The calls that pkg/analyzer makes of the database (pkg/db), each with what it is given.
use eth_cl_state_analyzer.Common.{ℕ, Bool, List}
use eth_cl_state_analyzer.Client.{HeadEvent, FinalizedEvent, ReorgEvent, BlobSidecarEvent}
use eth_cl_state_analyzer.Spec.Constants.{ValidatorStatus}
use eth_cl_state_analyzer.Spec.Block.{AgnosticBlock, Transaction}
use eth_cl_state_analyzer.Spec.Transactions.{Eth1Deposit, BlobSidecar}
use eth_cl_state_analyzer.Spec.Slashing.{AgnosticSlashing}
use eth_cl_state_analyzer.Spec.Rewards.{ValidatorRewards, ValidatorRewardsAggregation}
use eth_cl_state_analyzer.Metrics.Export.{Epoch}
use eth_cl_state_analyzer.Analyzer.Aggregation.{Duty}

-- `spec.Withdrawal`
pub record WithdrawalRow : Type 0 where
  pub slot : ℕ
  pub withdrawal_index : ℕ
  pub validator_index : ℕ
  pub address : ℕ
  pub amount : ℕ

-- `spec.Deposit`. `deposit_index` is a uint8.
pub record DepositRow : Type 0 where
  pub slot : ℕ
  pub public_key : ℕ
  pub withdrawal_credentials : ℕ
  pub amount : ℕ
  pub signature : ℕ
  pub deposit_index : ℕ

-- `spec.BLSToExecutionChange`
pub record BlsChangeRow : Type 0 where
  pub slot : ℕ
  pub epoch : ℕ
  pub validator_index : ℕ
  pub from_bls_public_key : ℕ
  pub to_execution_address : ℕ

-- `spec.ValidatorLastStatus`
pub record ValidatorLastStatus : Type 0 where
  pub val_idx : ℕ
  pub epoch : ℕ
  pub current_balance : ℕ
  pub current_status : ValidatorStatus
  pub slashed : Bool
  pub activation_epoch : ℕ
  pub withdrawal_epoch : ℕ
  pub exit_epoch : ℕ
  pub public_key : ℕ

-- `db.BlockReward`
pub record BlockReward : Type 0 where
  pub slot : ℕ
  pub cl_manual_reward : ℕ
  pub cl_api_reward : ℕ
  pub reward_fees : ℕ
  pub burnt_fees : ℕ
  pub relays : List ℕ
  pub bid_commision : ℕ
  pub builder_pubkeys : List ℕ

pub data DbCall : Type 0 where
  persist_blocks : List AgnosticBlock → DbCall
  persist_withdrawals : List WithdrawalRow → DbCall
  persist_transactions : List Transaction → DbCall
  persist_eth1_deposits : List Eth1Deposit → DbCall
  persist_blob_sidecars : List BlobSidecar → DbCall
  persist_bls_to_execution_changes : List BlsChangeRow → DbCall
  persist_deposits : List DepositRow → DbCall
  persist_orphans : List AgnosticBlock → DbCall
  delete_block_metrics : ℕ → DbCall
  persist_duties : List Duty → DbCall
  persist_val_last_status : List ValidatorLastStatus → DbCall
  delete_val_last_status : ℕ → DbCall
  insert_pool_summary : ℕ → DbCall
  persist_epochs : List Epoch → DbCall
  persist_block_rewards : List BlockReward → DbCall
  persist_validator_rewards : List ValidatorRewards → DbCall
  persist_validator_rewards_aggregation : List (ℕ × ValidatorRewardsAggregation) → DbCall
  persist_slashings : List AgnosticSlashing → DbCall
  delete_state_metrics : ℕ → DbCall
  persist_head_events : List HeadEvent → DbCall
  persist_finalized : List FinalizedEvent → DbCall
  persist_reorgs : List ReorgEvent → DbCall
  persist_blob_sidecars_events : List BlobSidecarEvent → DbCall
