-- ===== src/Spec/State/Missed.antt =====
-- pkg/spec/state.go: `TrackMissingBlocks` and the block roots that it reads.
use mathlib.Core.List.{append-nil, append_assoc}
use eth_cl_state_analyzer.Common.{
  ℕ, zero, suc, ◌+◌, ◌-◌, ◌*◌, ◌%◌, ◌^◌, ◌≤◌, ◌<◌, ◌≡◌, refl, ap, ◌∙◌, Bool, List, [], ◌∷◌, ◌++◌,
  arith, ◌==◌, if◌then◌else◌, length, add64, sub64, mul64, get_or, filterb, count_up, Bool-cases,
  inl, inr,
}
use eth_cl_state_analyzer.Common.Go.{Go, ok, ◌>>=◌, index, index-get_or}
use eth_cl_state_analyzer.Spec.Constants.{slots_per_epoch, slots_per_historical_root}
use eth_cl_state_analyzer.Spec.State.Defs.{AgnosticState}

-- `GetBlockRootAtSlot`
unfoldable pub get_block_root_at_slot : AgnosticState → ℕ → Go ℕ
get_block_root_at_slot p slot = index p.block_roots (slot % slots_per_historical_root)

-- `GetBlockRoot`
unfoldable pub get_block_root : AgnosticState → ℕ → Go ℕ
get_block_root p epoch = get_block_root_at_slot p (mul64 epoch slots_per_epoch)

-- `EmptyStateRoot`
unfoldable pub empty_state_root : AgnosticState → Bool
empty_state_root p = p.state_root == 0

-- The loop of `TrackMissingBlocks` at index i of the roots, with n rounds left.
unfoldable pub missing_from : AgnosticState → ℕ → ℕ → ℕ → List ℕ → Go (List ℕ)
missing_from p first_index i zero missed = ok missed
missing_from p first_index i (suc n) missed = do
  previous_item ← index p.block_roots (if i == 0 then slots_per_historical_root - 1 else i - 1)
  item ← index p.block_roots i
  let slot = add64 (sub64 i first_index) (mul64 p.epoch slots_per_epoch)
  missing_from p first_index (suc i) n
      (if previous_item == item then missed ++ slot ∷ [] else missed)

unfoldable pub track_missing_blocks : AgnosticState → Go AgnosticState
track_missing_blocks p = do
  let first_slot = mul64 p.epoch slots_per_epoch
  let last_slot = sub64 (add64 (mul64 p.epoch slots_per_epoch) slots_per_epoch) 1
  let first_index = first_slot % slots_per_historical_root
  let last_index = last_slot % slots_per_historical_root
  missed ← missing_from p first_index first_index (last_index - first_index) []
  ok (record p {
    missed_blocks = (if p.latest_block_slot == last_slot then missed else missed ++ last_slot ∷ []);
  })

-- The root stored for a slot.
abbrev pub root_at : AgnosticState → ℕ → ℕ
root_at p slot = get_or p.block_roots (slot % slots_per_historical_root) 0

-- A slot repeats the root of the slot before it. Slot 0 of all is compared with the last place.
abbrev pub repeats : AgnosticState → ℕ → Bool
repeats p slot = root_at p (slot + 8191) == root_at p slot

-- One index of the loop, as a slot of the epoch.
slot_of_index :
    (epoch first i : ℕ)
    → first ≡ epoch * 32 % 8192
    → epoch * 32 < 2 ^ 63
    → first ≤ i
    → i < first + 32
    → let s = epoch * 32 + (i - first) in
      (s % 8192 ≡ i)
      × ((s + 8191) % 8192 ≡ (if i == 0 then 8191 else i - 1))
      × (add64 (sub64 i first) (mul64 epoch 32) ≡ s)
slot_of_index epoch first i hf he hi hn = (omega arith, ground arith, omega arith)

missing_loop :
    (p : AgnosticState) (first i n : ℕ) (missed : List ℕ)
    → 8192 ≤ length p.block_roots
    → first ≡ p.epoch * 32 % 8192
    → p.epoch * 32 < 2 ^ 63
    → first ≤ i
    → i + n < first + 32
    → missing_from p first i n missed
      ≡ ok (missed ++ filterb (repeats p) (count_up (p.epoch * 32 + (i - first)) n))
unfolding missing_from
missing_loop p first i zero missed hl hf he hi hn = rw append-nil
missing_loop p first i (suc n) missed hl hf he hi hn =
    let s : ℕ = p.epoch * 32 + (i - first) in
    let (here, prev, number) = slot_of_index p.epoch first i hf he hi (omega arith) in
    let next : p.epoch * 32 + (suc i - first) ≡ suc s = omega arith in
    let j : ℕ = if i == 0 then 8191 else i - 1 in
    let before : index p.block_roots j ≡ ok (root_at p (s + 8191)) =
      rw prev (index-get_or p.block_roots j (ground arith)) in
    let item : index p.block_roots i ≡ ok (root_at p s) =
      rw here (index-get_or p.block_roots i (omega arith)) in
    let rest =
      λ (m : List ℕ). missing_loop p first (suc i) n m hl hf he (omega arith) (omega arith) in
    rw (before, item, number)
      (elim (Bool-cases (repeats p s)) [
        | inl e ↦ rw e (
            rest (missed ++ s ∷ [])
            ∙ rw next
                (rw (append_assoc missed (s ∷ []) (filterb (repeats p) (count_up (suc s) n)))))
        | inr e ↦ rw e (rest missed ∙ rw next)
      ])

-- The last slot of the epoch joins the list if its block is missing.
with_last :
    (p : AgnosticState) (missed : List ℕ) (last : ℕ)
    → record p {
      missed_blocks = (if p.latest_block_slot == last then missed else missed ++ last ∷ []);
    }
      ≡ record p {
        missed_blocks = missed ++ (if p.latest_block_slot == last then [] else last ∷ []);
      }
with_last p missed last = ground (arith, append-nil missed)

track_rounds :
    (p : AgnosticState) (n : ℕ)
    → 8192 ≤ length p.block_roots
    → p.epoch * 32 < 2 ^ 63
    → n ≡ 31
    → track_missing_blocks p
      ≡ ok (record p {
        missed_blocks =
            filterb (repeats p) (count_up (p.epoch * 32) n)
            ++ (if p.latest_block_slot == p.epoch * 32 + 31 then [] else (p.epoch * 32 + 31) ∷ []);
      })
unfolding track_missing_blocks
track_rounds p n hl he hn =
    let first : ℕ = p.epoch * 32 % 8192 in
    let a : mul64 p.epoch slots_per_epoch % slots_per_historical_root ≡ first = omega arith in
    let b : sub64 (add64 (mul64 p.epoch slots_per_epoch) slots_per_epoch) 1 ≡ p.epoch * 32 + 31 =
      omega arith in
    let c : (p.epoch * 32 + 31) % slots_per_historical_root - first ≡ n = omega arith in
    let d : p.epoch * 32 + (first - first) ≡ p.epoch * 32 = omega arith in
    let e = missing_loop p first first n [] hl refl he (omega arith) (omega arith) in
    rw (a, b, c, e, d) (ap ok (with_last p _ _))

-- With the full ring of block roots, `TrackMissingBlocks` returns and changes the missed blocks
-- alone. They are, in order, the first 31 slots of the epoch whose root repeats the root of the
-- slot before, and then the last slot, unless the latest block header is of that slot.
pub track_missing_blocks_lem :
    (p : AgnosticState)
    → 8192 ≤ length p.block_roots
    → p.epoch * 32 < 2 ^ 63
    → track_missing_blocks p
      ≡ ok (record p {
        missed_blocks =
            filterb (repeats p) (count_up (p.epoch * 32) 31)
            ++ (if p.latest_block_slot == p.epoch * 32 + 31 then [] else (p.epoch * 32 + 31) ∷ []);
      })
track_missing_blocks_lem p hl he = track_rounds p 31 hl he refl
