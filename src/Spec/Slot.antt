-- ===== src/Spec/Slot.antt =====
-- pkg/spec/utils.go: slots and epochs.
use eth_cl_state_analyzer.Common.{ℕ, ◌+◌, ◌*◌, ◌/◌, ◌≤◌, ◌<◌, ◌≡◌, arith}
use eth_cl_state_analyzer.Spec.Constants.{slots_per_epoch}

unfoldable pub first_slot_in_epoch : ℕ → ℕ
first_slot_in_epoch slot = slot / slots_per_epoch * slots_per_epoch

unfoldable pub epoch_at_slot : ℕ → ℕ
epoch_at_slot slot = slot / slots_per_epoch

-- A slot lies in the 32 slots that begin at the first slot of its epoch, which is the only
-- multiple of 32 of which this is true.
pub first_slot-bounds :
    (slot e : ℕ)
    → (first_slot_in_epoch slot ≡ epoch_at_slot slot * slots_per_epoch)
      × (first_slot_in_epoch slot ≤ slot)
      × (slot < first_slot_in_epoch slot + slots_per_epoch)
      × (e * slots_per_epoch ≤ slot → slot < (e + 1) * slots_per_epoch → e ≡ epoch_at_slot slot)
unfolding first_slot_in_epoch epoch_at_slot
first_slot-bounds slot e = omega arith
