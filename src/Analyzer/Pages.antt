-- ===== src/Analyzer/Pages.antt =====
-- pkg/analyzer: the pages of the book that the handlers acquire and free.
use eth_cl_state_analyzer.Common.{ℕ, ◌≡◌, refl, ◌∙◌, ap, false, ◌&&◌}
use eth_cl_state_analyzer.Common.Go.{ok}
use eth_cl_state_analyzer.Common.Returns.{
  Returns, Returns-bind, Returns-map, Returns-after, Returns-ok, Returns-panic, Returns-eq-ok,
  if-in, branch-in, option-in,
}
use eth_cl_state_analyzer.Utils.Book.{
  RoutineBook, check_page_active, acquire_or_time_out, free_page,
}
use eth_cl_state_analyzer.Utils.BookTokens.{free_page-acquire_or_time_out, free_inactive}
use eth_cl_state_analyzer.Spec.State.{AgnosticState}
use eth_cl_state_analyzer.Metrics.Export.{state_metrics_by_fork_version}
use eth_cl_state_analyzer.Analyzer.Chain.{
  ChainAnalyzer, Outside, slot_key, epoch_key, acquire_page, release_page, wait_block, wait_state,
}
use eth_cl_state_analyzer.Analyzer.ProcessBlock.{process_block}
use eth_cl_state_analyzer.Analyzer.Transition.{
  filled, keep_states, earlier_state, write_transition, process_state_transition_metrics,
}
use eth_cl_state_analyzer.Analyzer.Frame.{IsWriteFrame, write_block-frame}
use eth_cl_state_analyzer.Analyzer.FrameEpoch.{write_epoch-frame, keep_states-frame}

-- The book is one that was given.
abbrev HasBook : RoutineBook → ChainAnalyzer → Type 0
HasBook r s = s.processer_book ≡ r

HasBook-IsWriteFrame : (r : RoutineBook) → IsWriteFrame (HasBook r)
HasBook-IsWriteFrame r = record {
  call = λ c s h. h;
  cache = λ c s h. h;
  stopped = λ s h. h;
  windows = λ a s h. h;
}

module _ (k : ℕ) (s : ChainAnalyzer) where
  acquire_page-HasBook : HasBook (acquire_or_time_out s.processer_book k) (acquire_page k s)
  unfolding acquire_page
  acquire_page-HasBook = refl

  freed :
      check_page_active s.processer_book k ≡ false
      → (u : ChainAnalyzer) → HasBook (acquire_or_time_out s.processer_book k) u
      → HasBook s.processer_book (release_page k u)
  freed h u e = ap (λ r. free_page r k) e ∙ free_page-acquire_or_time_out s.processer_book k h

module _ (o : Outside) where
  -- When ProcessBlock returns, the book is what it was, if it did not have the slot's page before.
  pub process_block-book :
      (slot : ℕ) (s t : ChainAnalyzer)
      → check_page_active s.processer_book (slot_key slot) ≡ false
      → process_block o slot s ≡ ok t
      → t.processer_book ≡ s.processer_book
  unfolding process_block
  process_block-book slot s t h e =
      Returns-eq-ok (HasBook s.processer_book) _
        (branch-in (Returns (HasBook s.processer_book)) s.metrics.block _ _
          (Returns-after (wait_block (acquire_page (slot_key slot) s) slot) _ λ b.
            Returns-bind _ (λ x. ok (release_page (slot_key slot) x))
              (write_block-frame (HasBook-IsWriteFrame _) o b (acquire_page (slot_key slot) s)
                (acquire_page-HasBook (slot_key slot) s))
              λ v hv. Returns-ok (freed (slot_key slot) s h v hv))
          (Returns-ok refl))
        e

  -- After an error the page is freed here, and again by the caller, which changes nothing more.
  write_transition-book :
      (e : ℕ) (next current prev : AgnosticState) (s u : ChainAnalyzer)
      → check_page_active s.processer_book (epoch_key e) ≡ false
      → HasBook (acquire_or_time_out s.processer_book (epoch_key e)) u
      → Returns
          (λ v. HasBook s.processer_book (release_page (epoch_key e) v))
          (write_transition o e next current prev u)
  unfolding write_transition
  write_transition-book e next current prev s u h book =
      let k = epoch_key e in
      let P : ChainAnalyzer → Type 0 = λ v. HasBook s.processer_book (release_page k v) in
      let W = HasBook-IsWriteFrame (acquire_or_time_out s.processer_book k) in
      let once = freed k s h u book in
      let all = filled next && filled current && filled prev in
      Returns-after (state_metrics_by_fork_version o.math next current prev) _ λ bundle.
        option-in (Returns P) bundle _ _
          (if-in (Returns P) all _ _ Returns-panic
            (Returns-ok (ap (λ r. free_page r k) once ∙ free_inactive s.processer_book k h)))
          λ b.
            let kept = keep_states-frame W o e b u book in
            branch-in (Returns P) all _ _
              (Returns-map _ (write_epoch-frame W o b (keep_states e b u) kept) (freed k s h))
              (Returns-ok (freed k s h (keep_states e b u) kept))

  -- When ProcessStateTransitionMetrics returns, after an error too, the book is what it was, if it
  -- did not have the epoch's page before.
  pub process_state-book :
      (e : ℕ) (s t : ChainAnalyzer)
      → check_page_active s.processer_book (epoch_key e) ≡ false
      → process_state_transition_metrics o e s ≡ ok t
      → t.processer_book ≡ s.processer_book
  unfolding process_state_transition_metrics
  process_state-book e s t h run =
      Returns-eq-ok (HasBook s.processer_book) _
        (branch-in (Returns (HasBook s.processer_book)) s.metrics.epoch _ _
          (let u = acquire_page (epoch_key e) s in
            Returns-after (earlier_state e 2 u) _ λ prev.
              Returns-after (earlier_state e 1 u) _ λ current.
                Returns-after (wait_state u e) _ λ next.
                  Returns-bind _ _
                    (write_transition-book e next current prev s u h
                      (acquire_page-HasBook (epoch_key e) s))
                    λ v hv. Returns-ok hv)
          (Returns-ok refl))
        run
