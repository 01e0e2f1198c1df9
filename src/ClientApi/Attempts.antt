-- ===== src/ClientApi/Attempts.antt =====
-- pkg/clientapi/block.go: what `RequestBeaconBlock` returns after its attempts.
use eth_cl_state_analyzer.Common.{
  ℕ, zero, suc, ◌+◌, ◌/◌, ◌≤◌, ◌<◌, ◌≡◌, ◌≢◌, refl, ◌∙◌, ap, false, List, [], ◌∷◌, ◌++◌, Option,
  none, some, All, ◌==◌, if◌then◌else◌, ==-refl, ==→eq, ≢→not_eq, Bool-cases, inl, inr, sym, arith,
}
use eth_cl_state_analyzer.Common.Go.{Go, ok, ◌>>=◌}
use eth_cl_state_analyzer.Common.Returns.{option-some, option-none, branch-false}
use eth_cl_state_analyzer.Client.{SignedBlock, ProposerDuty}
use eth_cl_state_analyzer.Utils.Book.{
  RoutineBook, check_page_active, acquire_or_time_out, free_page,
}
use eth_cl_state_analyzer.Utils.BookTokens.{free_page-acquire_or_time_out}
use eth_cl_state_analyzer.Spec.Block.{AgnosticBlock, empty_block}
use eth_cl_state_analyzer.Spec.Forks.{get_custom_block}
use eth_cl_state_analyzer.ClientApi.Requests.{
  Answer, found, not_found, failed, Nodes, ApiClient, first_answer, proposer_in, request_state_root,
  create_missing_block, request_execution_block_by_hash, complete_block, add_reward, with_size,
  finish_block, request_beacon_block,
}

module _ {A : Type 0} (ask : ℕ → Answer A) where
  -- The attempts from one on, up to another, fail.
  abbrev pub FailBetween : ℕ → ℕ → Type 0
  FailBetween a i = (j : ℕ) → a ≤ j → j < i → ask j ≡ failed

  goes_on : (a n : ℕ) → ask a ≡ failed → first_answer ask a (suc n) ≡ first_answer ask (a + 1) n
  unfolding first_answer
  goes_on a n h =
      ap
        (λ (x : Answer A). elim x [
          | found b ↦ found b
          | not_found ↦ not_found
          | failed ↦ first_answer ask (a + 1) n
        ])
        h

  stops : (a n : ℕ) → ask a ≢ failed → first_answer ask a (suc n) ≡ ask a
  unfolding first_answer
  stops a n k = go (ask a) k
    where
      go :
          (x : Answer A)
          → x ≢ failed
          → elim x [
            | found b ↦ found b
            | not_found ↦ not_found
            | failed ↦ first_answer ask (a + 1) n
          ]
            ≡ x
      go (found b) k = refl
      go not_found k = refl
      go failed k = elim (k refl) [ ]

  -- The loop ends with the first answer that is no failure.
  first_answer-first :
      (n a i : ℕ)
      → a ≤ i
      → i < a + n
      → FailBetween a i
      → ask i ≢ failed
      → first_answer ask a n ≡ ask i
  first_answer-first zero a i l h fail k =
      let none_left : ⊥ = omega (arith, l, h) in elim none_left [ ]
  first_answer-first (suc n) a i l h fail k = elim (Bool-cases (a == i)) [
    | inl same ↦
        let here : a ≡ i = ==→eq a i same in
        stops a n (λ e. k (ap ask (sym here) ∙ e)) ∙ ap ask here
    | inr other ↦
        let below : a < i = ground arith in
        goes_on a n (fail a (omega arith) below)
        ∙ first_answer-first n (a + 1) i (omega (arith, below)) (omega (arith, h))
            (λ j p q. fail j (omega (arith, p)) q) k
  ]

proposer_in-none :
    (ds : List ProposerDuty) (slot v : ℕ) → All (λ d. d.slot ≢ slot) ds → proposer_in ds slot v ≡ v
unfolding proposer_in
proposer_in-none [] slot v h = refl
proposer_in-none (d ∷ ds) slot v (h, hs) =
    rw (≢→not_eq d.slot slot h) (proposer_in-none ds slot v hs)

proposer_in-last :
    (before : List ProposerDuty) (d : ProposerDuty) (after : List ProposerDuty) (slot v : ℕ)
    → d.slot ≡ slot
    → All (λ e. e.slot ≢ slot) after
    → proposer_in (before ++ d ∷ after) slot v ≡ d.validator_index
unfolding proposer_in
proposer_in-last [] d after slot v h hs =
    proposer_in-none after slot _ hs
    ∙ ap (λ b. if b then d.validator_index else v) (ap (λ u. d.slot == u) (sym h) ∙ ==-refl d.slot)
proposer_in-last (b ∷ before) d after slot v h hs = proposer_in-last before d after slot _ h hs

module _ (n : Nodes) (slot : ℕ) where
  state_root-found :
      {root : ℕ} → n.beacon_state_root slot ≡ some root → request_state_root n slot ≡ ok root
  unfolding request_state_root
  state_root-found e = option-some _ _ e

  create_missing-lem :
      {root : ℕ} (before : List ProposerDuty) (d : ProposerDuty) (after : List ProposerDuty)
      → n.beacon_state_root slot ≡ some root
      → n.proposer_duties (slot / 32) ≡ some (before ++ d ∷ after)
      → d.slot ≡ slot
      → All (λ e. e.slot ≢ slot) after
      → create_missing_block n slot
        ≡ ok (record empty_block {
          slot = slot;
          state_root = root;
          proposer_index = d.validator_index;
        })
  unfolding create_missing_block
  create_missing-lem {root} before d after r p same last =
      ap
        (λ (m : Go ℕ). m >>= λ root. ok (record empty_block {
          slot = slot;
          state_root = root;
          proposer_index = elim (n.proposer_duties (slot / 32)) [
            | none ↦ 0
            | some ds ↦ proposer_in ds slot 0
          ];
        }))
        (state_root-found r)
      ∙ ap
          (λ (v : ℕ).
            ok (record empty_block { slot = slot; state_root = root; proposer_index = v }))
          (option-some _ _ p ∙ proposer_in-last before d after slot 0 same last)

  alone :
      (hash : ℕ) (s : ApiClient)
      → n.block_by_hash ≡ none
      → request_execution_block_by_hash n hash s ≡ (s, none)
  unfolding request_execution_block_by_hash
  alone hash s e = option-none _ _ e

  no_reward :
      (s : ApiClient) (b : AgnosticBlock)
      → s.api_rewards ≡ false
      → add_reward n slot s b ≡ ok (s, b)
  unfolding add_reward
  no_reward s b e = branch-false _ _ e

  complete_block-lem :
      (s : ApiClient) (b : AgnosticBlock) {root : ℕ}
      → n.beacon_state_root slot ≡ some root
      → n.block_by_hash ≡ none
      → s.api_rewards ≡ false
      → complete_block n slot b s ≡ ok (s, record b { state_root = root })
  unfolding complete_block
  complete_block-lem s b {root} r e off =
      ap
        (λ (a : ApiClient × Option ℕ). request_state_root n slot >>= λ root.
          add_reward n slot a.0 (record (with_size a.1 b) { state_root = root }))
        (alone b.execution_payload.block_hash s e)
      ∙ ap (λ (m : Go ℕ). m >>= λ root. add_reward n slot s (record b { state_root = root }))
          (state_root-found r)
      ∙ no_reward s (record b { state_root = root }) off

module _ (n : Nodes) (slot : ℕ) (s : ApiClient) where
  abbrev holding : ApiClient
  holding = record s { blocks_book = acquire_or_time_out s.blocks_book slot }

  -- What is made of the answer is returned, and the book is as before.
  request_of :
      {r : Answer SignedBlock} {b : Option AgnosticBlock}
      → first_answer (n.signed_beacon_block slot) 0 s.max_retries ≡ r
      → finish_block n slot holding r ≡ ok (holding, b)
      → check_page_active s.blocks_book slot ≡ false
      → request_beacon_block n slot s ≡ ok (s, b)
  unfolding request_beacon_block
  request_of {r} {b} h k inactive =
      ap
        (λ (m : Go (ApiClient × Option AgnosticBlock)).
          m >>= λ r. ok (record r.0 { blocks_book = free_page r.0.blocks_book slot }, r.1))
        (ap (λ (x : Answer SignedBlock). finish_block n slot holding x) h ∙ k)
      ∙ ap (λ (x : RoutineBook). ok (record s { blocks_book = x }, b))
          (free_page-acquire_or_time_out s.blocks_book slot inactive)

  first_answer-at :
      (i : ℕ) {r : Answer SignedBlock}
      → i < s.max_retries
      → FailBetween (n.signed_beacon_block slot) 0 i
      → n.signed_beacon_block slot i ≡ r
      → r ≢ failed
      → first_answer (n.signed_beacon_block slot) 0 s.max_retries ≡ r
  first_answer-at i h fail e k =
      first_answer-first (n.signed_beacon_block slot) s.max_retries 0 i (omega arith)
        (omega (arith, h)) fail (λ f. k (sym e ∙ f))
      ∙ e

  -- If the first answer that is no failure, within the attempts, is that there is no block, then
  -- RequestBeaconBlock returns an empty block with the slot, its state root and, of the duties of the
  -- epoch, the validator of the last one for the slot; and the client is as before. This supposes
  -- that nobody requests the slot already.
  pub request_beacon_block-missing :
      (i : ℕ) {root : ℕ} (before : List ProposerDuty) (d : ProposerDuty) (after : List ProposerDuty)
      → i < s.max_retries
      → FailBetween (n.signed_beacon_block slot) 0 i
      → n.signed_beacon_block slot i ≡ not_found
      → n.beacon_state_root slot ≡ some root
      → n.proposer_duties (slot / 32) ≡ some (before ++ d ∷ after)
      → d.slot ≡ slot
      → All (λ e. e.slot ≢ slot) after
      → check_page_active s.blocks_book slot ≡ false
      → request_beacon_block n slot s
        ≡ ok (
          s,
          some (record empty_block {
            slot = slot;
            state_root = root;
            proposer_index = d.validator_index;
          }),
        )
  unfolding finish_block
  request_beacon_block-missing i before d after h fail e r p same last inactive =
      request_of (first_answer-at i h fail e λ k. cc)
        (ap (λ (m : Go AgnosticBlock). m >>= λ b. ok (holding, some b))
          (create_missing-lem n slot before d after r p same last))
        inactive

  -- If the first answer that is no failure, within the attempts, is a block of a known version, with
  -- a root, and neither an execution client nor rewards are asked for, then RequestBeaconBlock
  -- returns the block of its version with the state root of the slot, and the client is as before.
  -- This supposes that nobody requests the slot already.
  pub request_beacon_block-found :
      (i : ℕ) {root : ℕ} {raw : SignedBlock} {b : AgnosticBlock}
      → i < s.max_retries
      → FailBetween (n.signed_beacon_block slot) 0 i
      → n.signed_beacon_block slot i ≡ found raw
      → get_custom_block n.compress raw ≡ ok (some b)
      → n.beacon_state_root slot ≡ some root
      → n.block_by_hash ≡ none
      → s.api_rewards ≡ false
      → check_page_active s.blocks_book slot ≡ false
      → request_beacon_block n slot s ≡ ok (s, some (record b { state_root = root }))
  unfolding finish_block
  request_beacon_block-found i {raw = raw} {b} h fail e known r free off inactive =
      request_of (first_answer-at i h fail e λ k. cc)
        (ap
            (λ (m : Go (Option AgnosticBlock)). m >>= λ c. elim c [
              | none ↦ ok (holding, none)
              | some b ↦ complete_block n slot b holding >>= λ r. ok (r.0, some r.1)
            ])
            known
          ∙ ap (λ (m : Go (ApiClient × AgnosticBlock)). m >>= λ r. ok (r.0, some r.1))
              (complete_block-lem n slot holding b r free off))
        inactive
