-- ===== src/Analyzer/Finality.antt =====
-- pkg/analyzer/reorg.go: the check of the blocks and states of the cache when a slot becomes final.
use eth_cl_state_analyzer.Common.{
  ℕ, zero, suc, ◌+◌, ◌/◌, ◌<◌, ◌≡◌, ◌≢◌, refl, ◌∙◌, ap, true, false, List, [], ◌∷◌, some, ◌==◌, leb,
  mul64, arith, All, not_leb→lt, ≢→not_eq,
}
use mathlib.Core.Path.{subst}
use eth_cl_state_analyzer.Common.Go.{Go, ok, ◌>>=◌}
use eth_cl_state_analyzer.Common.Returns.{branch-at, branch-false, branch-true}
use eth_cl_state_analyzer.Spec.Constants.{slots_per_epoch}
use eth_cl_state_analyzer.Spec.Block.{AgnosticBlock}
use eth_cl_state_analyzer.Spec.State.{AgnosticState}
use eth_cl_state_analyzer.Utils.Book.{check_page_active}
use eth_cl_state_analyzer.Analyzer.CleanUp.{slots_in_bounded}
use eth_cl_state_analyzer.Analyzer.AgnosticMap.{lookup, get_key_list}
use eth_cl_state_analyzer.Analyzer.ChainCache.{clean_up_to, slots_in}
use eth_cl_state_analyzer.Analyzer.Calls.{delete_block_metrics, delete_state_metrics}
use eth_cl_state_analyzer.Analyzer.Chain.{ChainAnalyzer, Outside, slot_key, call_db}
use eth_cl_state_analyzer.Analyzer.ProcessBlock.{process_block}
use eth_cl_state_analyzer.Analyzer.Transition.{process_state_transition_metrics}
use eth_cl_state_analyzer.Analyzer.Reorg.{
  check_slot, check_slots, check_state, check_epoch, check_epochs, advance_finalized,
}
use eth_cl_state_analyzer.Analyzer.BlockWrites.{
  block_calls, with_calls, with_calls-twice, await-some, process_block_lem,
}

module _ (o : Outside) (s : ChainAnalyzer) where
  -- The cache has a block for the slot, with the root that the node has for it.
  abbrev pub SlotIsFinal : ℕ → Type 0
  SlotIsFinal slot =
      (b : AgnosticBlock) × (lookup slot s.download_cache.block_history.m ≡ some b)
      × ((o.request_block_root b.slot == b.root) ≡ true)

  -- The same of an epoch: of its state, and of the slots that begin with its first.
  pub record EpochIsFinal (epoch : ℕ) : Type 0 where
    pub state : AgnosticState
    pub there : lookup epoch s.download_cache.state_history.m ≡ some state
    pub same : (o.request_state_root state.slot == state.state_root) ≡ true
    pub slots : (i : ℕ) → i < slots_per_epoch → SlotIsFinal (mul64 epoch slots_per_epoch + i)

  check_slot-final : (slot : ℕ) → SlotIsFinal slot → check_slot o slot s ≡ ok s
  unfolding check_slot
  check_slot-final slot (b, there, same) =
      ap
        (λ (m : Go AgnosticBlock). m >>= λ b. elim (o.request_block_root b.slot == b.root) [
          | true ↦ ok s
          | false ↦ process_block o slot (call_db (delete_block_metrics slot) s)
        ])
        (await-some there)
      ∙ branch-true _ _ same

  check_slots-final :
      (slot n : ℕ) → ((i : ℕ) → i < n → SlotIsFinal (slot + i)) → check_slots o slot n s ≡ ok s
  unfolding check_slots
  check_slots-final slot zero h = refl
  check_slots-final slot (suc n) h =
      ap (λ (m : Go ChainAnalyzer). m >>= λ t. check_slots o (slot + 1) n t)
        (check_slot-final slot (subst SlotIsFinal (omega arith) (h 0 (omega arith))))
      ∙ check_slots-final (slot + 1) n
          (λ i l. subst SlotIsFinal (omega arith) (h (i + 1) (omega arith)))

  check_state-final : (epoch : ℕ) → EpochIsFinal epoch → check_state o epoch s ≡ ok s
  unfolding check_state
  check_state-final epoch f =
      ap
        (λ (m : Go AgnosticState). m >>= λ state.
          elim (o.request_state_root state.slot == state.state_root) [
            | true ↦ ok s
            | false ↦
                process_state_transition_metrics o epoch (call_db (delete_state_metrics epoch) s)
          ])
        (await-some f.there)
      ∙ branch-true _ _ f.same

  check_epoch-final : (epoch : ℕ) → EpochIsFinal epoch → check_epoch o epoch s ≡ ok s
  unfolding check_epoch
  check_epoch-final epoch f =
      ap
        (λ (m : Go ChainAnalyzer).
          m >>= λ t. check_slots o (mul64 epoch slots_per_epoch) (slots_in epoch) t)
        (check_state-final epoch f)
      ∙ check_slots-final (mul64 epoch slots_per_epoch) (slots_in epoch)
          (λ i h. f.slots i (omega (arith, h, slots_in_bounded epoch)))

  check_epochs-final :
      (top : ℕ) (epochs : List ℕ)
      → All (λ e. e < top → EpochIsFinal e) epochs
      → check_epochs o top epochs s ≡ ok s
  unfolding check_epochs
  check_epochs-final top [] h = refl
  check_epochs-final top (e ∷ es) (h, hs) =
      ap (λ (m : Go ChainAnalyzer). m >>= λ t. check_epochs o top es t)
        (branch-at (λ m. m ≡ ok s) (leb top e) _ _ (λ _. refl)
          λ below. check_epoch-final e (h (omega (arith, not_leb→lt top e below))))
      ∙ check_epochs-final top es hs

  -- If the node has the same roots as the cache for the states of all epochs before that of the
  -- slot, and for the blocks of their slots, which are in the cache, then AdvanceFinalized returns,
  -- and only cleans the cache up to the slot.
  pub advance_finalized_lem :
      (slot : ℕ)
      → All
          (λ e. e < slot / slots_per_epoch → EpochIsFinal e)
          (get_key_list s.download_cache.state_history)
      → advance_finalized o slot s
        ≡ ok (record s { download_cache = clean_up_to s.download_cache slot })
  unfolding advance_finalized
  advance_finalized_lem slot h =
      ap
        (λ (m : Go ChainAnalyzer).
          m >>= λ t. ok (record t { download_cache = clean_up_to t.download_cache slot }))
        (check_epochs-final (slot / slots_per_epoch) (get_key_list s.download_cache.state_history)
          h)

  -- If the node has another root for a slot, ProcessBlock writes the block of the cache again, after
  -- its metrics were deleted: what is written has the old root. This supposes what
  -- `process_block_lem` supposes of the state.
  pub check_slot-rewrites_old :
      (slot : ℕ) {b : AgnosticBlock}
      → lookup slot s.download_cache.block_history.m ≡ some b
      → o.request_block_root b.slot ≢ b.root
      → s.metrics.block ≡ true
      → s.metrics.transactions ≡ false
      → check_page_active s.processer_book (slot_key slot) ≡ false
      → check_slot o slot s ≡ ok (with_calls (delete_block_metrics slot ∷ block_calls b) s)
  unfolding check_slot
  check_slot-rewrites_old slot {b} there differ on off inactive =
      ap
        (λ (m : Go AgnosticBlock). m >>= λ b. elim (o.request_block_root b.slot == b.root) [
          | true ↦ ok s
          | false ↦ process_block o slot (call_db (delete_block_metrics slot) s)
        ])
        (await-some there)
      ∙ branch-false _ _ (≢→not_eq (o.request_block_root b.slot) b.root differ)
      ∙ process_block_lem o slot (call_db (delete_block_metrics slot) s) on off there inactive
      ∙ ap ok (with_calls-twice (delete_block_metrics slot ∷ []) (block_calls b) s)
