-- ===== src/Spec/State/Flows.antt =====
-- pkg/spec/state.go: the withdrawals, deposits, attestations and sync votes of an epoch's blocks.
use eth_cl_state_analyzer.Common.{
  ℕ, suc, ◌+◌, List, [], ◌∷◌, ◌==◌, if◌then◌else◌, length, add64, replicate,
}
use eth_cl_state_analyzer.Common.Go.{Go, ok, ◌>>=◌, update, for_each}
use eth_cl_state_analyzer.Client.{Validator, Withdrawal, Deposit}
use eth_cl_state_analyzer.Spec.Block.{AgnosticBlock}
use eth_cl_state_analyzer.Spec.State.Defs.{AgnosticState}

-- The body of the inner loop of `CalculateWithdrawals`.
unfoldable pub add_withdrawal : Withdrawal → AgnosticState → Go AgnosticState
add_withdrawal w p = do
  amounts ← update p.withdrawals w.validator_index (λ a. add64 a w.amount)
  ok (record p {
    withdrawals = amounts;
    withdrawals_num = add64 p.withdrawals_num 1;
    total_withdrawals_amount = add64 p.total_withdrawals_amount w.amount;
  })

unfoldable pub calculate_withdrawals : AgnosticState → Go AgnosticState
calculate_withdrawals p =
    for_each (λ b s. for_each add_withdrawal b.execution_payload.withdrawals s) p.blocks
      (record p { withdrawals = replicate (length p.validators) 0 })

-- The loop of `CalculateDeposits` over the validators, from index i on.
unfoldable pub credit_from : ℕ → List Validator → Deposit → AgnosticState → Go AgnosticState
credit_from i [] d p = ok p
credit_from i (v ∷ vs) d p =
    (if d.public_key == v.public_key
      then (update p.deposits i (λ a. add64 a d.amount) >>= λ amounts. ok (record p {
        deposits = amounts;
        deposits_num = add64 p.deposits_num 1;
        total_deposits_amount = add64 p.total_deposits_amount d.amount;
      }))
      else ok p)
    >>= λ q. credit_from (suc i) vs d q

unfoldable pub calculate_deposits : AgnosticState → Go AgnosticState
unfolding credit_from
calculate_deposits p =
    for_each (λ b s. for_each (λ d q. credit_from 0 p.validators d q) b.deposits s) p.blocks
      (record p { deposits = replicate (length p.validators) 0 })

-- The loop of `CalculateNumAttestations`.
unfoldable pub attestations_from : List AgnosticBlock → ℕ → ℕ
attestations_from [] n = n
attestations_from (b ∷ bs) n = attestations_from bs (n + length b.attestations)

unfoldable pub calculate_num_attestations : AgnosticState → AgnosticState
unfolding attestations_from
calculate_num_attestations p = record p {
  num_attestations = attestations_from p.blocks p.num_attestations;
}

-- The loop of `CalculateSyncParticipation`.
unfoldable pub sync_from : List AgnosticBlock → ℕ → ℕ
sync_from [] n = n
sync_from (b ∷ bs) n = sync_from bs (add64 n b.sync_bits_count)

unfoldable pub calculate_sync_participation : AgnosticState → AgnosticState
unfolding sync_from
calculate_sync_participation p = record p {
  sync_committee_participation = sync_from p.blocks p.sync_committee_participation;
}

unfoldable pub add_blocks : AgnosticState → List AgnosticBlock → Go AgnosticState
add_blocks p block_list = do
  q ← calculate_withdrawals (record p { blocks = block_list })
  r ← calculate_deposits q
  ok (calculate_sync_participation (calculate_num_attestations r))
