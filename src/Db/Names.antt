-- ===== src/Db/Names.antt =====
-- pkg/spec: the values that are written for a status (state.go) and a slashing reason (slashing.go).
use Prim.Native.String.{String}
use eth_cl_state_analyzer.Common.{ℕ}
use eth_cl_state_analyzer.Spec.Constants.{
  ValidatorStatus, queue_status, active_status, exit_status, slashed_status,
}
use eth_cl_state_analyzer.Spec.Slashing.{SlashingReason, proposer_slashing, attester_slashing}

-- `uint8(status)`
unfoldable pub status_number : ValidatorStatus → ℕ
status_number queue_status = 0
status_number active_status = 1
status_number exit_status = 2
status_number slashed_status = 3

unfoldable pub reason_text : SlashingReason → String
reason_text proposer_slashing = "ProposerSlashing"
reason_text attester_slashing = "AttesterSlashing"
