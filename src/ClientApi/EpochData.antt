-- ===== src/ClientApi/EpochData.antt =====
-- pkg/clientapi/duties.go: `NewEpochData`. The map of the validators by slot is not kept.
use eth_cl_state_analyzer.Common.{ℕ, ◌/◌, List, [], ◌∷◌, Option, none, some, ◌==◌, if◌then◌else◌}
use eth_cl_state_analyzer.Common.Go.{Go, ok, panic}
use eth_cl_state_analyzer.Client.{BeaconCommittee, ProposerDuty}
use eth_cl_state_analyzer.Spec.Constants.{slots_per_epoch}
use eth_cl_state_analyzer.Spec.Duties.{EpochDuties}

-- `validatorsAttSlot[valID] = committee.Slot` for the validators of a committee.
unfoldable pub set_slots : ℕ → List ℕ → (ℕ → ℕ) → ℕ → ℕ
set_slots slot [] m = m
set_slots slot (v ∷ vs) m = set_slots slot vs (λ w. if w == v then slot else m w)

-- The loop over the committees.
unfoldable pub att_slots : List BeaconCommittee → (ℕ → ℕ) → ℕ → ℕ
unfolding set_slots
att_slots [] m = m
att_slots (c ∷ cs) m = att_slots cs (set_slots c.slot c.validators m)

-- `NewEpochData` of a slot, given the answers for the slot's committees and for the proposers of its
-- epoch. After an error, which is only logged, it reads the data of a nil response.
unfoldable pub new_epoch_data :
    (ℕ → Option (List BeaconCommittee)) → (ℕ → Option (List ProposerDuty)) → ℕ → Go EpochDuties
unfolding att_slots
new_epoch_data beacon_committees proposer_duties slot = elim (beacon_committees slot) [
  | none ↦ panic
  | some cs ↦ elim (proposer_duties (slot / slots_per_epoch)) [
    | none ↦ panic
    | some ds ↦ ok (record {
      proposer_duties = ds;
      beacon_committees = cs;
      validator_att_slot = att_slots cs (λ _. 0);
    })
  ]
]
