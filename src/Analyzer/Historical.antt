-- ===== src/Analyzer/Historical.antt =====
-- pkg/analyzer/routines.go: the slots that `runHistorical` sends for download.
use mathlib.Core.List.{append-nil, append_assoc}
use eth_cl_state_analyzer.Common.{
  ℕ, zero, suc, ◌+◌, ◌-◌, ◌*◌, ◌%◌, ◌≤◌, ◌<◌, ◌≡◌, refl, sym, ◌∙◌, ap, true, false, List, [], ◌∷◌,
  ◌++◌, some, ◌==◌, ltb, leb, ◌⊎◌, inl, inr, Bool-cases, arith, pos→not_zero, ◌^◌, Option, add64,
  leb→le, not_leb→lt, le→leb,
}
use eth_cl_state_analyzer.Common.Go.{Go, ok, ◌>>=◌}
use eth_cl_state_analyzer.Common.Returns.{
  Returns, Returns-bind, Returns-ok, Returns-fatal, Returns-eq-ok, branch-in, option-in, if-in,
  branch-at, branch-false, branch-true, option-some,
}
use eth_cl_state_analyzer.Spec.Constants.{slots_per_epoch}
use eth_cl_state_analyzer.Utils.Book.{num_free_pages}
use eth_cl_state_analyzer.Analyzer.ChainCache.{ChainCache, clean_up_to}
use eth_cl_state_analyzer.Analyzer.Chain.{ChainAnalyzer, Outside}
use eth_cl_state_analyzer.Analyzer.Routines.{
  Round, returned, goes_on, cross_epoch, historical_round, historical_step, historical_from,
  run_historical,
}
use eth_cl_state_analyzer.Analyzer.Frame.{IsFrame}
use eth_cl_state_analyzer.Analyzer.FrameReorg.{advance_finalized-frame}
use eth_cl_state_analyzer.Analyzer.TaskEffects.{Follows, Follows-refl, Follows-IsFrame}

-- n slots from one on.
abbrev pub slots_from : ℕ → ℕ → List ℕ
slots_from i zero = []
slots_from i (suc n) = i ∷ slots_from (i + 1) n

slots_from-snoc : (i n : ℕ) → slots_from i n ++ (i + n) ∷ [] ≡ slots_from i (suc n)
slots_from-snoc i zero = ap (λ j. j ∷ []) (omega arith)
slots_from-snoc i (suc n) =
    let shift : i + suc n ≡ i + 1 + n = omega arith in
    ap (λ (l : List ℕ). i ∷ l)
      (ap (λ j. slots_from (i + 1) n ++ j ∷ []) shift ∙ slots_from-snoc (i + 1) n)

not_above : (i f : ℕ) → i < f → leb f i ≡ false
not_above i f h = ground arith

-- A round sends its slot, and nothing else.
abbrev Sent : ℕ → ChainAnalyzer → ChainAnalyzer → Type 0
Sent i s t = t.download_tasks ≡ s.download_tasks ++ i ∷ []

-- What the loop may have sent when it returns.
pub record SentUpTo (i n : ℕ) (s t : ChainAnalyzer) : Type 0 where
  pub count : ℕ
  pub bounded : count ≤ n
  pub sent : t.download_tasks ≡ s.download_tasks ++ slots_from i count
  pub ended : (count ≡ n) ⊎ (t.stop ≡ true)

-- The state after some slots were sent and the cache was cleaned.
abbrev pub sent_with : ChainCache → List ℕ → ChainAnalyzer → ChainAnalyzer
sent_with c slots s = record s { download_cache = c; download_tasks = s.download_tasks ++ slots }

module _ (o : Outside) where
  cross_epoch-frame :
      {P : ChainAnalyzer → Type 0}
      → IsFrame P
      → (i : ℕ) (s : ChainAnalyzer) → P s
      → Returns P (cross_epoch o i s)
  unfolding cross_epoch
  cross_epoch-frame {P} F i s h =
      option-in (Returns P) o.request_finalized_slot _ _ Returns-fatal λ finalized.
        branch-in (Returns P) (leb finalized i) _ _ (advance_finalized-frame F o _ s h)
          (Returns-ok (if-in P (ltb (5 * slots_per_epoch) i) _ _ (F.cache _ s h) h))

  round-sends : (i : ℕ) (s : ChainAnalyzer) → Returns (Sent i s) (historical_round o i s)
  unfolding historical_round
  round-sends i s =
      Returns-bind _ _
        (branch-in (Returns (Follows s)) (i % slots_per_epoch == 0) _ _
          (cross_epoch-frame (Follows-IsFrame s) i s (Follows-refl s))
          (Returns-ok (Follows-refl s)))
        λ t f. Returns-ok (ap (λ p. p.download_tasks ++ i ∷ []) f.kept)

  -- What a round does: it returns as it is, at the end or with the stop flag set; it waits; or it
  -- sends its slot.
  abbrev Stepped : ℕ → ℕ → ChainAnalyzer → Round → Type 0
  Stepped end i s (returned t) = (t ≡ s) × ((end < i) ⊎ (s.stop ≡ true))
  Stepped end i s (goes_on j t) =
      ((t.download_tasks ≡ s.download_tasks) × (j ≡ i)) ⊎ ((i ≤ end) × (j ≡ add64 i 1) × Sent i s t)

  step-Stepped :
      (end i : ℕ) (s : ChainAnalyzer) → Returns (Stepped end i s) (historical_step o end i s)
  unfolding historical_step
  step-Stepped end i s =
      let P = Returns (Stepped end i s) in
      branch-at P (leb i end) _ _
        (λ inside.
          branch-at P s.stop _ _ (λ e. Returns-ok (refl, inr e))
            λ _.
              branch-in P (num_free_pages s.processer_book == 0) _ _ (Returns-ok (inl (refl, refl)))
                (Returns-bind _ _ (round-sends i s)
                  λ t sent. Returns-ok (inr (leb→le i end inside, refl, sent))))
        (λ outside. Returns-ok (refl, inl (not_leb→lt i end outside)))

  module _ (init end : ℕ) (s : ChainAnalyzer) where
    -- The rounds of runHistorical, with what other goroutines do in between, which is anything but
    -- sending slots: they free pages, change the cache or set the stop flag.
    pub data Runs : ℕ → ChainAnalyzer → Type 0 where
      start : Runs init s
      round :
          {i j : ℕ} {t u : ChainAnalyzer}
          → Runs i t
          → historical_step o end i t ≡ ok (goes_on j u)
          → Runs j u
      others :
          {i : ℕ} {t : ChainAnalyzer} (u : ChainAnalyzer)
          → Runs i t
          → u.download_tasks ≡ t.download_tasks
          → Runs i u

    -- Where the loop is, and what it has sent.
    record Sending (i : ℕ) (t : ChainAnalyzer) : Type 0 where
      count : ℕ
      place : i ≡ init + count
      bounded : count ≤ end + 1 - init
      sent : t.download_tasks ≡ s.download_tasks ++ slots_from init count

    keep :
        {i : ℕ} {t : ChainAnalyzer} (u : ChainAnalyzer)
        → Sending i t
        → u.download_tasks ≡ t.download_tasks
        → Sending i u
    keep u h e = record { count = h.count; place = h.place; bounded = h.bounded; sent = e ∙ h.sent }

    Runs-Sending : end + 1 < 2 ^ 64 → {i : ℕ} {t : ChainAnalyzer} → Runs i t → Sending i t
    Runs-Sending small start = record {
      count = 0;
      place = omega arith;
      bounded = omega arith;
      sent = sym (append-nil s.download_tasks);
    }
    Runs-Sending small (others u r e) = keep u (Runs-Sending small r) e
    Runs-Sending small (round {i} {j} {t} {u} r e) =
        let h = Runs-Sending small r in
        let same : init + h.count ≡ i = sym h.place in
        elim (Returns-eq-ok (Stepped end i t) _ (step-Stepped end i t) e) [
          | inl (kept, here) ↦
              let g = keep u h kept in
              record { count = g.count; place = here ∙ g.place; bounded = g.bounded; sent = g.sent }
          | inr (inside, next, sent) ↦ record {
            count = suc h.count;
            place = next ∙ (ground (arith, h.place, inside, small));
            bounded = omega (arith, h.place, inside);
            sent =
                sent
                ∙ ap (λ (l : List ℕ). l ++ i ∷ []) h.sent
                ∙ append_assoc s.download_tasks (slots_from init h.count) (i ∷ [])
                ∙ ap (λ (j : ℕ). s.download_tasks ++ (slots_from init h.count ++ j ∷ [])) h.place
                ∙ ap (λ (l : List ℕ). s.download_tasks ++ l) (slots_from-snoc init h.count);
          }
        ]

    -- Whatever other goroutines do between the rounds of runHistorical, but for sending slots, when it
    -- returns it has sent the slots from the first on, in order and without a gap: all of them up to
    -- the last, or some of them if the stop flag is set then. The last slot is not the greatest of
    -- uint64.
    pub run_historical-SentUpTo :
        end + 1 < 2 ^ 64
        → {i : ℕ} {t u : ChainAnalyzer} → Runs i t
        → historical_step o end i t ≡ ok (returned u)
        → SentUpTo init (end + 1 - init) s u
    run_historical-SentUpTo small {i} {t} {u} r e =
        let h = Runs-Sending small r in
        let (same, ended) = Returns-eq-ok (Stepped end i t) _ (step-Stepped end i t) e in
        record {
          count = h.count;
          bounded = h.bounded;
          sent = ap (λ (v : ChainAnalyzer). v.download_tasks) same ∙ h.sent;
          ended = elim ended [
            | inl over ↦ inl (omega (arith, h.place, h.bounded, over))
            | inr stopped ↦ inr (ap (λ (v : ChainAnalyzer). v.stop) same ∙ stopped)
          ];
        }

  -- Below the finalized slot a round only cleans the cache and sends its slot.
  cross_below :
      (i f : ℕ) (s : ChainAnalyzer)
      → o.request_finalized_slot ≡ some f
      → i < f
      → (c : ChainCache) × (cross_epoch o i s ≡ ok (record s { download_cache = c }))
  unfolding cross_epoch
  cross_below i f s e h =
      let below = option-some _ _ e ∙ branch-false _ _ (not_above i f h) in
      elim (Bool-cases (ltb (5 * slots_per_epoch) i)) [
        | inr near ↦ (s.download_cache, below ∙ rw (near) refl)
        | inl far ↦ (clean_up_to s.download_cache (i - 5 * slots_per_epoch), below ∙ rw (far) refl)
      ]

  round_below :
      (i f : ℕ) (s : ChainAnalyzer)
      → o.request_finalized_slot ≡ some f
      → i < f
      → (c : ChainCache) × (historical_round o i s ≡ ok (sent_with c (i ∷ []) s))
  unfolding historical_round
  round_below i f s e h = elim (Bool-cases (i % slots_per_epoch == 0)) [
    | inr c ↦ (s.download_cache, rw (c) refl)
    | inl c ↦ let (d, r) = cross_below i f s e h in (d, rw (c, r) refl)
  ]

  -- What the loop makes of a round.
  abbrev after : ℕ → ℕ → Go Round → Go (Option ChainAnalyzer)
  after n end m =
      m >>= λ r. elim r [ returned t ↦ ok (some t) | goes_on j t ↦ historical_from o n end j t ]

  step_below :
      (end i f : ℕ) (s : ChainAnalyzer)
      → o.request_finalized_slot ≡ some f
      → f < 2 ^ 64
      → i ≤ end
      → end < f
      → s.stop ≡ false
      → 0 < num_free_pages s.processer_book
      → (c : ChainCache) × (historical_step o end i s
          ≡ ok (goes_on (i + 1) (sent_with c (i ∷ []) s)))
  unfolding historical_step
  step_below end i f s e w h k run free =
      let (c, r) = round_below i f s e (omega arith) in
      let next : add64 i 1 ≡ i + 1 = ground arith in
      (
        c,
        branch-true _ _ (le→leb i end h)
            ∙ branch-false _ _ run
            ∙ branch-false _ _ (pos→not_zero (num_free_pages s.processer_book) free)
            ∙ ap (λ (m : Go ChainAnalyzer). m >>= λ t. ok (goes_on (add64 i 1) t)) r
            ∙ ap (λ (j : ℕ). ok (goes_on j (sent_with c (i ∷ []) s))) next,
      )

  step_over :
      (end i : ℕ) (s : ChainAnalyzer) → end < i → historical_step o end i s ≡ ok (returned s)
  unfolding historical_step
  step_over end i s h = branch-false _ _ (not_above end i h)

  -- Without a stop, with a free page, and below the finalized slot, the loop sends the k slots that
  -- are left, and needs a round more.
  historical_from-all :
      (k n end i f : ℕ) (s : ChainAnalyzer)
      → o.request_finalized_slot ≡ some f
      → f < 2 ^ 64
      → i + k ≡ end + 1
      → k < n
      → end < f
      → s.stop ≡ false
      → 0 < num_free_pages s.processer_book
      → (c : ChainCache) × (historical_from o n end i s
          ≡ ok (some (sent_with c (slots_from i k) s)))
  unfolding historical_from
  historical_from-all k zero end i f s e w l m h run free = absurd (omega (arith, m))
  historical_from-all zero (suc n) end i f s e w l m h run free = (
    s.download_cache,
    ap (after n end) (step_over end i s (omega (arith, l)))
        ∙ ap (λ (l : List ℕ). ok (some (record s { download_tasks = l })))
            (sym (append-nil s.download_tasks)),
  )
  historical_from-all (suc k) (suc n) end i f s e w l m h run free =
      let (c, r) = step_below end i f s e w (omega (arith, l)) h run free in
      let u : ChainAnalyzer = sent_with c (i ∷ []) s in
      let (d, r') =
        historical_from-all k n end (i + 1) f u e w (omega (arith, l)) (omega (arith, m)) h run
          free in
      (
        d,
        ap (after n end) r
            ∙ r'
            ∙ ap (λ (l : List ℕ). ok (some (record s { download_cache = d; download_tasks = l })))
                (append_assoc s.download_tasks (i ∷ []) (slots_from (i + 1) k)),
      )

  -- If the stop flag is not set, a page is free and the range ends below the finalized slot, a uint64,
  -- then runHistorical returns within a round for each slot and one more, all slots of the range have
  -- been sent in order, and besides them only the cache has changed.
  pub run_historical_all :
      (init end f n : ℕ) (s : ChainAnalyzer)
      → o.request_finalized_slot ≡ some f
      → f < 2 ^ 64
      → init ≤ end
      → end < f
      → s.stop ≡ false
      → 0 < num_free_pages s.processer_book
      → end + 2 - init ≤ n
      → (c : ChainCache) × (run_historical o n init end s
          ≡ ok (some (sent_with c (slots_from init (end + 1 - init)) s)))
  unfolding run_historical
  run_historical_all init end f n s e w h k run free enough =
      historical_from-all (end + 1 - init) n end init f s e w (omega (arith, h))
        (omega (arith, h, enough)) k run free
