-- ===== src/Analyzer/HeadBlock.antt =====
-- pkg/analyzer/chain_cache.go: the head block of a `ChainCache` to which blocks are added.
use Prim.Native.Nat.{max}
use eth_cl_state_analyzer.Common.{
  ℕ, ◌≤◌, ◌≡◌, refl, ◌∙◌, ap, true, false, List, [], ◌∷◌, map, some, leb, if◌then◌else◌, arith,
  Bool-cases, inl, inr, All,
}
use eth_cl_state_analyzer.Spec.Block.{AgnosticBlock}
use eth_cl_state_analyzer.Analyzer.AgnosticMap.{lookup, insert, set_key, get_key_list}
use eth_cl_state_analyzer.Analyzer.ChainCache.{ChainCache, new_queue, any_key_from, add_new_block}
use eth_cl_state_analyzer.Analyzer.Waiting.{lookup-insert}

-- `AddNewBlock` for each block in turn.
unfoldable pub add_blocks_in_turn : List AgnosticBlock → ChainCache → ChainCache
add_blocks_in_turn [] s = s
add_blocks_in_turn (b ∷ bs) s = add_blocks_in_turn bs (add_new_block s b)

-- The greatest of a slot and the slots of the blocks.
abbrev pub max_slot : List AgnosticBlock → ℕ → ℕ
max_slot [] n = n
max_slot (b ∷ bs) n = max_slot bs (max n b.slot)

abbrev keys : {V : Type 0} → List (ℕ × V) → List ℕ
keys m = map (λ e. e.0) m

any_key-le : (n top : ℕ) (ks : List ℕ) → any_key_from n ks ≡ true → All (λ k. k ≤ top) ks → n ≤ top
unfolding any_key_from
any_key-le n top [] h q = cc
any_key-le n top (k ∷ ks) h q = ground (arith, any_key-le n top ks)

no_key-lt : (n : ℕ) (ks : List ℕ) → any_key_from n ks ≡ false → All (λ k. k ≤ n) ks
unfolding any_key_from
no_key-lt n [] h = tt
no_key-lt n (k ∷ ks) h = ground (arith, no_key-lt n ks)

module _ {V : Type 0} where
  keys-insert-le :
      (top k : ℕ) (v : V) (m : List (ℕ × V))
      → k ≤ top
      → All (λ j. j ≤ top) (keys m)
      → All (λ j. j ≤ top) (keys (insert k v m))
  unfolding insert
  keys-insert-le top k v [] h q = (h, tt)
  keys-insert-le top k v ((j, w) ∷ m) h q = ground (arith, keys-insert-le top k v m h q.1)

  any_key-insert :
      (n k : ℕ) (v : V) (m : List (ℕ × V))
      → any_key_from n (keys (insert k v m)) ≡ (if leb n k then true else any_key_from n (keys m))
  unfolding insert any_key_from
  any_key-insert n k v [] = refl
  any_key-insert n k v ((j, w) ∷ m) = ground (arith, any_key-insert n k v m)

-- The head block is some block, whose slot is the greatest key.
record IsHead (s : ChainCache) (h : AgnosticBlock) : Type 0 where
  held : s.head_block ≡ some h
  above : All (λ k. k ≤ h.slot) (keys s.block_history.m)
  there : any_key_from h.slot (keys s.block_history.m) ≡ true

first_block-IsHead : (b : AgnosticBlock) → IsHead (add_new_block new_queue b) b
unfolding add_new_block new_queue set_key get_key_list insert
first_block-IsHead b = ground arith

add_new_block-IsHead :
    (s : ChainCache) (h b : AgnosticBlock)
    → IsHead s h
    → (h' : AgnosticBlock) × IsHead (add_new_block s b) h' × (h'.slot ≡ max h.slot b.slot)
unfolding add_new_block set_key get_key_list
add_new_block-IsHead s h b inv = elim (Bool-cases (any_key_from b.slot (keys s.block_history.m))) [
  | inl old ↦
      let le = any_key-le b.slot h.slot (keys s.block_history.m) old inv.above in
      (
        h,
        record {
          held = rw (old) (inv.held);
          above = rw (old) (keys-insert-le h.slot b.slot b s.block_history.m le inv.above);
          there =
              rw (old)
                (ground (arith, inv.there, any_key-insert h.slot b.slot b s.block_history.m));
        },
        omega arith,
      )
  | inr new ↦
      let above = no_key-lt b.slot (keys s.block_history.m) new in
      (
        b,
        record {
          held = rw (new);
          above = rw (new) (keys-insert-le b.slot b.slot b s.block_history.m (omega arith) above);
          there = rw (new) (ground (arith, any_key-insert b.slot b.slot b s.block_history.m));
        },
        omega (arith, any_key-le h.slot b.slot (keys s.block_history.m) inv.there above),
      )
]

replaced :
    (s : ChainCache) (b h' : AgnosticBlock) {h : AgnosticBlock}
    → IsHead s h'
    → s.head_block ≡ some h
    → b.slot ≡ h.slot
    → ((add_new_block s b).head_block ≡ some h)
      × (lookup b.slot (add_new_block s b).block_history.m ≡ some b)
unfolding add_new_block set_key get_key_list
replaced s b h' inv e same = (
  ground (arith, inv.held, inv.there),
  ground (arith, lookup-insert b.slot b.slot b s.block_history.m),
)

add_blocks_in_turn-IsHead :
    (bs : List AgnosticBlock) (s : ChainCache) (h : AgnosticBlock)
    → IsHead s h
    → (h' : AgnosticBlock) × IsHead (add_blocks_in_turn bs s) h' × (h'.slot ≡ max_slot bs h.slot)
unfolding add_blocks_in_turn
add_blocks_in_turn-IsHead [] s h inv = (h, inv, refl)
add_blocks_in_turn-IsHead (b ∷ bs) s h inv =
    let (h', inv', top) = add_new_block-IsHead s h b inv in
    let (h'', inv'', top') = add_blocks_in_turn-IsHead bs (add_new_block s b) h' inv' in
    (h'', inv'', top' ∙ ap (max_slot bs) top)

-- When blocks have been added to a new cache, in any order, it has a head block, and the slot of the
-- head block is the greatest of their slots.
pub head_block_max :
    (b : AgnosticBlock) (bs : List AgnosticBlock)
    → (h : AgnosticBlock) × ((add_blocks_in_turn (b ∷ bs) new_queue).head_block ≡ some h)
      × (h.slot ≡ max_slot bs b.slot)
unfolding add_blocks_in_turn
head_block_max b bs =
    let (h, inv, top) =
      add_blocks_in_turn-IsHead bs (add_new_block new_queue b) b (first_block-IsHead b) in
    (h, inv.held, top)

-- A block that replaces another in its slot does not become the head block, even if it replaces
-- the head block: the history then has the new block, and the head is still the old one.
pub head_block_stale :
    (a b : AgnosticBlock) (bs : List AgnosticBlock) {h : AgnosticBlock}
    → let s = add_blocks_in_turn (a ∷ bs) new_queue in
      s.head_block ≡ some h
      → b.slot ≡ h.slot
      → ((add_new_block s b).head_block ≡ some h)
        × (lookup b.slot (add_new_block s b).block_history.m ≡ some b)
unfolding add_blocks_in_turn
head_block_stale a b bs e same =
    let s = add_blocks_in_turn bs (add_new_block new_queue a) in
    let (h', inv, top) =
      add_blocks_in_turn-IsHead bs (add_new_block new_queue a) a (first_block-IsHead a) in
    replaced s b h' inv e same
