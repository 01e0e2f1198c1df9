-- ===== src/Spec/Duties.antt =====
-- pkg/spec/duties.go: committees and proposer duties of an epoch, and the votes of a validator.
use eth_cl_state_analyzer.Common.{ℕ, ◌&&◌, List, [], ◌∷◌, ◌==◌, if◌then◌else◌}
use eth_cl_state_analyzer.Client.{BeaconCommittee, ProposerDuty}

-- `validator_att_slot` is a map that gives slot 0 to a validator that it does not hold.
pub record EpochDuties : Type 0 where
  pub proposer_duties : List ProposerDuty
  pub beacon_committees : List BeaconCommittee
  pub validator_att_slot : ℕ → ℕ

-- The loop of `GetValList`; `nil` is the empty list.
unfoldable pub find_val_list : List BeaconCommittee → ℕ → ℕ → List ℕ
find_val_list [] slot index = []
find_val_list (c ∷ cs) slot index =
    if c.slot == slot && c.committee == index then c.validators else find_val_list cs slot index

unfoldable pub get_val_list : EpochDuties → ℕ → ℕ → List ℕ
unfolding find_val_list
get_val_list p slot index = find_val_list p.beacon_committees slot index
