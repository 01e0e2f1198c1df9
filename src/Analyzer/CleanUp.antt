-- ===== src/Analyzer/CleanUp.antt =====
-- pkg/analyzer/chain_cache.go: `CleanUpTo` and the two histories.
use eth_cl_state_analyzer.Common.{
  ℕ, zero, suc, ◌+◌, ◌*◌, ◌/◌, ◌^◌, ◌<◌, ◌≤◌, ◌≡◌, refl, ◌∙◌, Bool, true, false, ◌&&◌, List, [],
  ◌∷◌, map, none, some, ltb, leb, ◌==◌, if◌then◌else◌, All, arith, Bool-cases, Option-cases, inl,
  inr, mul64,
}
use eth_cl_state_analyzer.Spec.Block.{AgnosticBlock}
use eth_cl_state_analyzer.Spec.State.{AgnosticState}
use eth_cl_state_analyzer.Analyzer.AgnosticMap.{
  AgnosticMap, lookup, delete, available, get_key_list,
}
use eth_cl_state_analyzer.Analyzer.Waiting.{IsServed, delete-IsServed, lookup-erase, has_channel}
use eth_cl_state_analyzer.Analyzer.ChainCache.{
  ChainCache, delete_slots, slots_in, clean_epochs, clean_up_to,
}

module _ {V : Type 0} where
  -- In a map where nobody waits for a key that is there, `Delete` removes its key.
  lookup-delete :
      (a : AgnosticMap V)
      → IsServed a
      → (key j : ℕ) → lookup j (delete a key).m ≡ (if key == j then none else lookup j a.m)
  unfolding delete
  lookup-delete a s key j = elim (Option-cases (lookup key a.m)) [
    | inl missing ↦ ground arith
    | inr (v, found) ↦ ground (arith, s key v found, lookup-erase j key a.m)
  ]

-- The slots from a slot on, n of them, are removed, and the others stay.
delete_slots_lem :
    (slot n : ℕ) (blocks : AgnosticMap AgnosticBlock)
    → IsServed blocks
    → IsServed (delete_slots slot n blocks)
      × ((j : ℕ)
          → lookup j (delete_slots slot n blocks).m
            ≡ (if leb slot j && ltb j (slot + n) then none else lookup j blocks.m))
unfolding delete_slots
delete_slots_lem slot zero blocks s = (s, λ j. ground arith)
delete_slots_lem slot (suc n) blocks s =
    let (s', g) =
      delete_slots_lem (suc slot) n (delete blocks slot) (delete-IsServed blocks slot s) in
    (s', λ j. ground (arith, g j, lookup-delete blocks s slot j))

-- An epoch is cleaned if it is among the epochs, and begins before the slot.
abbrev cleaned : ℕ → List ℕ → ℕ → Bool
cleaned max_slot epochs e = has_channel e epochs && ltb (e * 32) max_slot

slots_in_lem : (epoch : ℕ) → (epoch + 1) * 32 < 2 ^ 64 → slots_in epoch ≡ 32
unfolding slots_in
slots_in_lem epoch h = ground arith

pub slots_in_bounded : (epoch : ℕ) → slots_in epoch ≤ 32
unfolding slots_in
slots_in_bounded epoch = ground arith

record IsCleaned (max_slot : ℕ) (epochs : List ℕ) (s t : ChainCache) : Type 0 where
  states :
      (e : ℕ)
      → lookup e t.state_history.m
        ≡ (if cleaned max_slot epochs e then none else lookup e s.state_history.m)
  blocks :
      (slot : ℕ)
      → lookup slot t.block_history.m
        ≡ (if cleaned max_slot epochs (slot / 32) then none else lookup slot s.block_history.m)

clean_epochs_lem :
    (max_slot : ℕ) (epochs : List ℕ) (s : ChainCache)
    → All (λ e. (e + 1) * 32 < 2 ^ 64) epochs
    → IsServed s.state_history
    → IsServed s.block_history
    → IsCleaned max_slot epochs s (clean_epochs max_slot epochs s)
unfolding clean_epochs has_channel
clean_epochs_lem max_slot [] s q hs hb = record { states = λ e. refl; blocks = λ slot. refl }
clean_epochs_lem max_slot (epoch ∷ epochs) s q hs hb =
    elim (Bool-cases (leb max_slot (mul64 epoch 32))) [
      | inl keep ↦
          let r = clean_epochs_lem max_slot epochs s q.1 hs hb in
          rw keep (record {
            states = λ e. ground (arith, r.states e, q.0);
            blocks = λ slot. ground (arith, r.blocks slot, q.0);
          })
      | inr go ↦
          let t : ChainCache = record s {
            state_history = delete s.state_history epoch;
            block_history = delete_slots (mul64 epoch 32) 32 s.block_history;
          } in
          let (hb', g) = delete_slots_lem (mul64 epoch 32) 32 s.block_history hb in
          let r =
            clean_epochs_lem max_slot epochs t q.1 (delete-IsServed s.state_history epoch hs) hb' in
          rw (go, slots_in_lem epoch q.0)
            (record {
              states =
                  λ e. ground (arith, r.states e, q.0, lookup-delete s.state_history hs epoch e);
              blocks = λ slot. ground (arith, r.blocks slot, q.0, g slot);
            })
    ]

keys_lem : (e : ℕ) (a : AgnosticMap AgnosticState) → has_channel e (get_key_list a) ≡ available a e
unfolding available get_key_list has_channel lookup
keys_lem e a = among a.m
  where
    among :
        (m : List (ℕ × AgnosticState))
        → has_channel e (map (λ x. x.0) m) ≡ (elim (lookup e m) [ none ↦ false | some _ ↦ true ])
    among [] = refl
    among ((j, v) ∷ m) = ground (arith, among m)

-- `CleanUpTo` a slot removes the states of the epochs that begin before it, and the blocks of those of
-- these epochs whose state was there, and no other state or block. This supposes that nobody
-- waits for a state or block that is there, and that the slots of the epochs, and the one after them, do not
-- overflow.
pub clean_up_to_lem :
    (s : ChainCache) (max_slot : ℕ)
    → All (λ e. (e + 1) * 32 < 2 ^ 64) (get_key_list s.state_history)
    → IsServed s.state_history
    → IsServed s.block_history
    → let t = clean_up_to s max_slot in
      ((e : ℕ)
        → lookup e t.state_history.m
          ≡ (if ltb (e * 32) max_slot then none else lookup e s.state_history.m))
      × ((slot : ℕ)
          → lookup slot t.block_history.m ≡ (
              if available s.state_history (slot / 32) && ltb (slot / 32 * 32) max_slot
              then none
              else lookup slot s.block_history.m))
unfolding clean_up_to available
clean_up_to_lem s max_slot q hs hb =
    let r = clean_epochs_lem max_slot (get_key_list s.state_history) s q hs hb in
    (λ e. r.states e ∙ gone e, λ slot. rw (← keys_lem (slot / 32) s.state_history) (r.blocks slot))
  where
    gone :
        (e : ℕ)
        → (if cleaned max_slot (get_key_list s.state_history) e
            then none
            else lookup e s.state_history.m)
          ≡ (if ltb (e * 32) max_slot then none else lookup e s.state_history.m)
    gone e = rw (keys_lem e s.state_history) (elim (Option-cases (lookup e s.state_history.m)) [
      | inl missing ↦ ground arith
      | inr (v, found) ↦
          let held : available s.state_history e ≡ true = ground (arith, found) in rw (held) refl
    ])
