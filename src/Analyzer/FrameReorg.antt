-- ===== src/Analyzer/FrameReorg.antt =====
-- pkg/analyzer/download.go and reorg.go: what these handlers keep.
use eth_cl_state_analyzer.Common.{
  ℕ, zero, suc, ◌+◌, ◌/◌, ◌%◌, List, [], ◌∷◌, ◌==◌, leb, add64, mul64,
}
use eth_cl_state_analyzer.Common.Returns.{
  Returns, Returns-bind, Returns-after, Returns-ok, Returns-panic, Returns-waits, if-in, branch-in,
  option-in,
}
use eth_cl_state_analyzer.Client.{ReorgEvent}
use eth_cl_state_analyzer.Spec.Constants.{slots_per_epoch}
use eth_cl_state_analyzer.Spec.Block.{AgnosticBlock}
use eth_cl_state_analyzer.Analyzer.ChainCache.{slots_in}
use eth_cl_state_analyzer.Analyzer.AgnosticMap.{get_key_list}
use eth_cl_state_analyzer.Analyzer.Chain.{
  ChainAnalyzer, Outside, slot_key, epoch_key, wait_block, wait_state,
}
use eth_cl_state_analyzer.Analyzer.Download.{
  add_new_state, download_block, download_state, prev_state_ready, wait_for_prev_state,
  download_block_controlled,
}
use eth_cl_state_analyzer.Analyzer.Reorg.{
  wait_until_inactive, check_slot, check_slots, check_state, check_epoch, check_epochs,
  advance_finalized, rewrite_block, rewrite_state, reorg_round, count_block, reorg_from,
  handle_reorg,
}
use eth_cl_state_analyzer.Analyzer.Routines.{
  Task, download_block_task, process_block_task, download_state_task, process_state_task,
  advance_finalized_task, handle_reorg_task, run_task,
}
use eth_cl_state_analyzer.Analyzer.Frame.{IsFrame, process_block-frame}
use eth_cl_state_analyzer.Analyzer.FrameEpoch.{process_state-frame}

module _ {P : ChainAnalyzer → Type 0} (F : IsFrame P) (o : Outside) where
  download_block-frame : (slot : ℕ) (s : ChainAnalyzer) → P s → P (download_block o slot s)
  unfolding download_block
  download_block-frame slot s h =
      branch-in P s.metrics.block _ _
        (option-in P (o.request_beacon_block slot) _ _ (F.stopped _ (F.cache _ s h))
          λ b. F.cache _ s h)
        h

  download_state-frame : (slot : ℕ) (s : ChainAnalyzer) → P s → Returns P (download_state o slot s)
  unfolding download_state
  download_state-frame slot s h =
      branch-in (Returns P) s.metrics.epoch _ _
        (option-in (Returns P) (o.request_beacon_state slot) _ _ Returns-panic λ state.
          Returns-after (add_new_state s.download_cache state) _ λ c. Returns-ok (F.cache _ s h))
        (Returns-ok h)

  download_controlled-frame :
      (slot : ℕ) (s : ChainAnalyzer) → P s → Returns P (download_block_controlled o slot s)
  unfolding download_block_controlled wait_for_prev_state
  download_controlled-frame slot s h =
      Returns-bind _ _
        (if-in (Returns P) (prev_state_ready slot s) _ _ (Returns-ok h) Returns-waits)
        λ t ht. Returns-ok (download_block-frame slot t ht)

  check_slot-frame : (slot : ℕ) (s : ChainAnalyzer) → P s → Returns P (check_slot o slot s)
  unfolding check_slot
  check_slot-frame slot s h = Returns-after (wait_block s slot) _ λ b.
      branch-in (Returns P) (o.request_block_root b.slot == b.root) _ _ (Returns-ok h)
        (process_block-frame F o slot _ (F.call _ s h))

  check_slots-frame : (slot n : ℕ) (s : ChainAnalyzer) → P s → Returns P (check_slots o slot n s)
  unfolding check_slots
  check_slots-frame slot zero s h = Returns-ok h
  check_slots-frame slot (suc n) s h =
      Returns-bind _ _ (check_slot-frame slot s h) λ t ht. check_slots-frame (slot + 1) n t ht

  check_state-frame : (e : ℕ) (s : ChainAnalyzer) → P s → Returns P (check_state o e s)
  unfolding check_state
  check_state-frame e s h = Returns-after (wait_state s e) _ λ state.
      branch-in (Returns P) (o.request_state_root state.slot == state.state_root) _ _ (Returns-ok h)
        (process_state-frame F o e _ (F.call _ s h))

  check_epoch-frame : (e : ℕ) (s : ChainAnalyzer) → P s → Returns P (check_epoch o e s)
  unfolding check_epoch
  check_epoch-frame e s h =
      Returns-bind _ _ (check_state-frame e s h)
        λ t ht. check_slots-frame (mul64 e slots_per_epoch) (slots_in e) t ht

  check_epochs-frame :
      (top : ℕ) (es : List ℕ) (s : ChainAnalyzer) → P s → Returns P (check_epochs o top es s)
  unfolding check_epochs
  check_epochs-frame top [] s h = Returns-ok h
  check_epochs-frame top (e ∷ es) s h =
      Returns-bind _ _
        (branch-in (Returns P) (leb top e) _ _ (Returns-ok h) (check_epoch-frame e s h))
        λ t ht. check_epochs-frame top es t ht

  pub advance_finalized-frame :
      (slot : ℕ) (s : ChainAnalyzer) → P s → Returns P (advance_finalized o slot s)
  unfolding advance_finalized
  advance_finalized-frame slot s h =
      Returns-bind _ _ (check_epochs-frame _ (get_key_list s.download_cache.state_history) s h)
        λ t ht. Returns-ok (F.cache _ t ht)

  rewrite_block-frame :
      (i : ℕ) (old : AgnosticBlock) (s : ChainAnalyzer) → P s → Returns P (rewrite_block o i old s)
  unfolding rewrite_block
  rewrite_block-frame i old s h =
      let k = download_block-frame i s h in
      Returns-after (wait_block (download_block o i s) i) _ λ new.
        branch-in (Returns P) (new.root == old.root) _ _ (Returns-ok k)
          (process_block-frame F o i _ (F.call _ _ (if-in P old.proposed _ _ (F.call _ _ k) k)))

  wait_until_inactive-frame :
      (k : ℕ) (s : ChainAnalyzer) → P s → Returns P (wait_until_inactive k s)
  wait_until_inactive-frame k s h = if-in (Returns P) _ _ _ Returns-waits (Returns-ok h)

  rewrite_state-frame : (i : ℕ) (s : ChainAnalyzer) → P s → Returns P (rewrite_state o i s)
  unfolding rewrite_state
  rewrite_state-frame i s h = Returns-after (wait_state s (i / slots_per_epoch)) _ λ old.
      Returns-bind _ _ (wait_until_inactive-frame (epoch_key i) s h) λ t ht.
        Returns-bind _ _ (download_state-frame i t ht) λ u hu.
          Returns-after (wait_state u (i / slots_per_epoch)) _ λ new.
            branch-in (Returns P) (new.state_root == old.state_root) _ _ (Returns-ok hu)
              (process_state-frame F o _ _ (F.call _ u hu))

  reorg_round-frame :
      (i : ℕ) (b : AgnosticBlock) (s : ChainAnalyzer) → P s → Returns P (reorg_round o i b s)
  unfolding reorg_round
  reorg_round-frame i b s h = Returns-bind _ _ (wait_until_inactive-frame (slot_key i) s h) λ t ht.
      Returns-bind _ _ (rewrite_block-frame i b t ht) λ u hu.
        branch-in (Returns P) (add64 i 1 % slots_per_epoch == 0) _ _ (rewrite_state-frame i u hu)
          (Returns-ok hu)

  reorg_from-frame :
      (e : ReorgEvent) (i n : ℕ) (s : ChainAnalyzer) → P s → Returns P (reorg_from o e i n s)
  unfolding reorg_from
  reorg_from-frame e zero n s h =
      branch-in (λ m. Returns P m) (leb n e.depth) _ _
        (Returns-after (wait_block s 0) _ λ b. Returns-bind _ _ (reorg_round-frame 0 b s h) λ t ht.
          branch-in (Returns P) (leb (count_block e 0 b n) e.depth) _ _ Returns-waits
            (Returns-ok ht))
        (Returns-ok h)
  reorg_from-frame e (suc i) n s h =
      branch-in (λ m. Returns P m) (leb n e.depth) _ _
        (Returns-after (wait_block s (suc i)) _ λ b.
          Returns-bind _ _ (reorg_round-frame (suc i) b s h)
            λ t ht. reorg_from-frame e i (count_block e (suc i) b n) t ht)
        (Returns-ok h)

  handle_reorg-frame : (e : ReorgEvent) (s : ChainAnalyzer) → P s → Returns P (handle_reorg o e s)
  unfolding handle_reorg
  handle_reorg-frame e s h =
      option-in (Returns P) s.download_cache.head_block _ _ Returns-panic
        λ head. reorg_from-frame e head.slot 0 s h

  -- What a frame property says of the state before a task, it says of the state after it.
  pub run_task-frame : (task : Task) (s : ChainAnalyzer) → P s → Returns P (run_task o task s)
  unfolding run_task
  run_task-frame (download_block_task slot) s h = download_controlled-frame slot s h
  run_task-frame (process_block_task slot) s h = process_block-frame F o slot s h
  run_task-frame (download_state_task slot) s h = download_state-frame slot s h
  run_task-frame (process_state_task e) s h = process_state-frame F o e s h
  run_task-frame (advance_finalized_task slot) s h = advance_finalized-frame slot s h
  run_task-frame (handle_reorg_task e) s h = handle_reorg-frame e s h
