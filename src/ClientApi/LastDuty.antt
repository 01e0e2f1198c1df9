-- ===== src/ClientApi/LastDuty.antt =====
-- pkg/clientapi/duties.go: the slot that `NewEpochData` finds for a validator.
use mathlib.Core.List.{Memᴰ}
use eth_cl_state_analyzer.Common.{
  ℕ, ◌/◌, ◌≡◌, refl, ◌∙◌, ap, List, [], ◌∷◌, ◌++◌, Option, some, All, ◌==◌, if◌then◌else◌, ==-refl,
  ==→eq, Bool-cases, inl, inr, sym,
}
use eth_cl_state_analyzer.Common.Go.{ok}
use eth_cl_state_analyzer.Common.Returns.{option-some}
use eth_cl_state_analyzer.Client.{BeaconCommittee, ProposerDuty}
use eth_cl_state_analyzer.Spec.Constants.{slots_per_epoch}
use eth_cl_state_analyzer.Spec.Duties.{EpochDuties}
use eth_cl_state_analyzer.ClientApi.EpochData.{set_slots, att_slots, new_epoch_data}

-- A write of the slot, or of another validator, keeps the slot.
write-same : (slot v w : ℕ) (m : ℕ → ℕ) → m v ≡ slot → (if v == w then slot else m v) ≡ slot
write-same slot v w m h = elim (Bool-cases (v == w)) [ inl e ↦ rw (e) refl | inr e ↦ rw (e) h ]

set_slots-same : (slot v : ℕ) (vs : List ℕ) (m : ℕ → ℕ) → m v ≡ slot → set_slots slot vs m v ≡ slot
unfolding set_slots
set_slots-same slot v [] m h = h
set_slots-same slot v (w ∷ vs) m h = set_slots-same slot v vs _ (write-same slot v w m h)

set_slots-in : (slot v : ℕ) (vs : List ℕ) (m : ℕ → ℕ) → Memᴰ v vs → set_slots slot vs m v ≡ slot
unfolding set_slots
set_slots-in slot v [] m h = elim h [ ]
set_slots-in slot v (w ∷ vs) m (Memᴰ.head e) =
    set_slots-same slot v vs _
      (ap (λ b. if b then slot else m v) (ap (λ u. v == u) (sym e) ∙ ==-refl v))
set_slots-in slot v (w ∷ vs) m (Memᴰ.tail h) = set_slots-in slot v vs _ h

set_slots-out : (slot v : ℕ) (vs : List ℕ) (m : ℕ → ℕ) → ¬ Memᴰ v vs → set_slots slot vs m v ≡ m v
unfolding set_slots
set_slots-out slot v [] m h = refl
set_slots-out slot v (w ∷ vs) m h =
    set_slots-out slot v vs _ (λ k. h (Memᴰ.tail k)) ∙ elim (Bool-cases (v == w)) [
      | inl e ↦ elim (h (Memᴰ.head (==→eq v w e))) [ ]
      | inr e ↦ rw (e) refl
    ]

att_slots-out :
    (v : ℕ) (cs : List BeaconCommittee) (m : ℕ → ℕ)
    → All (λ c. ¬ Memᴰ v c.validators) cs
    → att_slots cs m v ≡ m v
unfolding att_slots
att_slots-out v [] m h = refl
att_slots-out v (c ∷ cs) m (h, hs) =
    att_slots-out v cs _ hs ∙ set_slots-out c.slot v c.validators m h

att_slots-last :
    (v : ℕ) (before : List BeaconCommittee) (c : BeaconCommittee) (after : List BeaconCommittee)
    (m : ℕ → ℕ)
    → Memᴰ v c.validators
    → All (λ d. ¬ Memᴰ v d.validators) after
    → att_slots (before ++ c ∷ after) m v ≡ c.slot
unfolding att_slots
att_slots-last v [] c after m h k =
    att_slots-out v after _ k ∙ set_slots-in c.slot v c.validators m h
att_slots-last v (b ∷ before) c after m h k = att_slots-last v before c after _ h k

-- If the node answers for the committees of a slot and for the proposers of its epoch, NewEpochData
-- returns these lists, and a validator attests in the slot of the last committee that lists it,
-- wherever else it is listed before.
pub new_epoch_data_lem :
    (beacon_committees : ℕ → Option (List BeaconCommittee))
    (proposer_duties : ℕ → Option (List ProposerDuty)) (slot v : ℕ) (before : List BeaconCommittee)
    (c : BeaconCommittee) (after : List BeaconCommittee) (duties : List ProposerDuty)
    → beacon_committees slot ≡ some (before ++ c ∷ after)
    → proposer_duties (slot / slots_per_epoch) ≡ some duties
    → Memᴰ v c.validators
    → All (λ d. ¬ Memᴰ v d.validators) after
    → (e : EpochDuties) × (new_epoch_data beacon_committees proposer_duties slot ≡ ok e)
      × (e.beacon_committees ≡ before ++ c ∷ after)
      × (e.proposer_duties ≡ duties)
      × (e.validator_att_slot v ≡ c.slot)
unfolding new_epoch_data
new_epoch_data_lem bc pd slot v before c after duties h k here last = (
  record {
    proposer_duties = duties;
    beacon_committees = before ++ c ∷ after;
    validator_att_slot = att_slots (before ++ c ∷ after) (λ _. 0);
  },
  option-some _ _ h ∙ option-some _ _ k,
  refl,
  refl,
  att_slots-last v before c after (λ _. 0) here last,
)
