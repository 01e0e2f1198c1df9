-- ===== src/Analyzer/FrameEpoch.antt =====
-- pkg/analyzer/process_state.go, download.go and reorg.go: what these handlers keep.
use eth_cl_state_analyzer.Common.{ℕ, ◌&&◌, ltb, length}
use eth_cl_state_analyzer.Common.Go.{Go}
use eth_cl_state_analyzer.Common.Returns.{
  Returns, Returns-bind, Returns-after, Returns-ok, Returns-panic, Returns-fatal, if-in, branch-in,
  option-in,
}
use eth_cl_state_analyzer.Spec.State.{AgnosticState}
use eth_cl_state_analyzer.Metrics.Export.{
  StateMetrics, get_metrics_base, state_metrics_by_fork_version, export_to_epoch,
}
use eth_cl_state_analyzer.Analyzer.Aggregation.{Aggregator, aggregate_all}
use eth_cl_state_analyzer.Analyzer.Calls.{DbCall, persist_validator_rewards}
use eth_cl_state_analyzer.Analyzer.Chain.{
  DownloadMode, finalized, historical, other, ChainAnalyzer, Outside, call_or_fatal, wait_state,
  put_state, acquire_page, epoch_key,
}
use eth_cl_state_analyzer.Analyzer.ProcessState.{
  process_slashings, process_epoch_metrics, last_status_rows, process_val_last_status,
  process_pool_metrics, process_epoch_duties, max_rewards, persist_window, process_all_val_rewards,
  process_block_rewards, write_epoch, next_of,
}
use eth_cl_state_analyzer.Analyzer.Transition.{
  has_earlier, earlier_state, filled, keep_states, write_transition,
  process_state_transition_metrics,
}
use eth_cl_state_analyzer.Analyzer.Frame.{IsFrame, IsWriteFrame, acquire_page-frame}

module _ {P : ChainAnalyzer → Type 0} (F : IsWriteFrame P) (o : Outside) where
  call_or_fatal-frame : (c : DbCall) (s : ChainAnalyzer) → P s → Returns P (call_or_fatal o c s)
  call_or_fatal-frame c s h = if-in (Returns P) _ _ _ (Returns-ok (F.call c s h)) Returns-fatal

  process_slashings-frame : (b : StateMetrics) (s : ChainAnalyzer) → P s → P (process_slashings b s)
  process_slashings-frame b s h = if-in P _ _ _ h (F.call _ s h)

  process_epoch_metrics-frame :
      (b : StateMetrics) (s : ChainAnalyzer) → P s → Returns P (process_epoch_metrics b s)
  unfolding process_epoch_metrics
  process_epoch_metrics-frame b s h =
      Returns-after (export_to_epoch (get_metrics_base b)) _ λ e. Returns-ok (F.call _ s h)

  mode-in :
      (m : DownloadMode) (x y : Go ChainAnalyzer)
      → Returns P x
      → Returns P y
      → Returns P (elim m [ finalized ↦ x | _ ↦ y ])
  mode-in historical x y h k = k
  mode-in finalized x y h k = h
  mode-in other x y h k = k

  process_val_last_status-frame :
      (b : StateMetrics) (s : ChainAnalyzer) → P s → Returns P (process_val_last_status b s)
  unfolding process_val_last_status
  process_val_last_status-frame b s h =
      mode-in s.download_mode _ _
        (Returns-after (last_status_rows (next_of b) 0 (next_of b).validators) _
          λ rows. Returns-ok (if-in P _ _ _ (F.call _ _ (F.call _ s h)) h))
        (Returns-ok h)

  persist_window-frame :
      (e : ℕ) (a : Aggregator) (s : ChainAnalyzer) → P s → Returns P (persist_window o e a s)
  unfolding persist_window
  persist_window-frame e a s h = if-in (Returns P) _ _ _ (call_or_fatal-frame _ s h) (Returns-ok h)

  process_all_val_rewards-frame :
      (b : StateMetrics) (s : ChainAnalyzer) → P s → Returns P (process_all_val_rewards o b s)
  unfolding process_all_val_rewards
  process_all_val_rewards-frame b s h =
      Returns-after (max_rewards o b 0 (next_of b).validators) _ λ rewards.
        Returns-bind _ _
          (if-in (Returns P) (ltb 0 (length rewards)) _ _
            (call_or_fatal-frame (persist_validator_rewards rewards) s h) (Returns-ok h))
          λ t ht.
            Returns-bind _ _
              (persist_window-frame (next_of b).epoch (aggregate_all rewards s.aggregator) t ht)
              λ u hu. Returns-ok (F.windows _ u hu)

  pub write_epoch-frame :
      (b : StateMetrics) (s : ChainAnalyzer) → P s → Returns P (write_epoch o b s)
  unfolding write_epoch process_epoch_duties process_pool_metrics process_block_rewards
  write_epoch-frame b s h = Returns-bind _ _ (call_or_fatal-frame _ s h) λ s₁ h₁.
      Returns-bind _ _ (process_val_last_status-frame b s₁ h₁) λ s₂ h₂.
        Returns-bind _ _ (call_or_fatal-frame _ s₂ h₂) λ s₃ h₃.
          Returns-bind _ _ (process_epoch_metrics-frame b s₃ h₃) λ s₄ h₄.
            let h₅ = F.call _ s₄ h₄ in
            Returns-bind _ _
              (branch-in (Returns P) s₄.metrics.validator_rewards _ _
                (process_all_val_rewards-frame b _ h₅) (Returns-ok h₅))
              λ s₆ h₆. Returns-ok (process_slashings-frame b s₆ h₆)

  put_state-frame :
      (e : ℕ) (state : AgnosticState) (s : ChainAnalyzer) → P s → P (put_state e state s)
  unfolding put_state
  put_state-frame e state s h = F.cache _ s h

  pub keep_states-frame :
      (e : ℕ) (b : StateMetrics) (s : ChainAnalyzer) → P s → P (keep_states e b s)
  unfolding keep_states
  keep_states-frame e b s h =
      let t = if-in P (has_earlier e 2 s) _ _ (put_state-frame _ _ s h) h in
      put_state-frame _ _ _ (if-in P (has_earlier e 1 s) _ _ (put_state-frame _ _ _ t) t)

module _ {P : ChainAnalyzer → Type 0} (F : IsFrame P) (o : Outside) where
  write_transition-frame :
      (e : ℕ) (next current prev : AgnosticState) (s : ChainAnalyzer)
      → P s
      → Returns P (write_transition o e next current prev s)
  unfolding write_transition
  write_transition-frame e next current prev s h =
      let all = filled next && filled current && filled prev in
      Returns-after (state_metrics_by_fork_version o.math next current prev) _ λ bundle.
        option-in (Returns P) bundle _ _
          (if-in (Returns P) all _ _ Returns-panic (Returns-ok (F.stopped _ (F.book _ s h))))
          λ b.
            let k = keep_states-frame F.writes o e b s h in
            branch-in (Returns P) all _ _ (write_epoch-frame F.writes o b _ k) (Returns-ok k)

  pub process_state-frame :
      (e : ℕ) (s : ChainAnalyzer) → P s → Returns P (process_state_transition_metrics o e s)
  unfolding process_state_transition_metrics
  process_state-frame e s h =
      branch-in (Returns P) s.metrics.epoch _ _
        (let t = acquire_page (epoch_key e) s in
          Returns-after (earlier_state e 2 t) _ λ prev.
            Returns-after (earlier_state e 1 t) _ λ current.
              Returns-after (wait_state t e) _ λ next.
                Returns-bind _ _
                  (write_transition-frame e next current prev t (acquire_page-frame F o _ s h))
                  λ u hu. Returns-ok (F.book _ u hu))
        (Returns-ok h)
