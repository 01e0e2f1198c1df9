-- ===== src/Analyzer/BlockWrites.antt =====
-- pkg/analyzer/process_block.go: the calls of the database that `ProcessBlock` makes.
use mathlib.Core.List.{append-nil, append_assoc}
use eth_cl_state_analyzer.Common.{
  ℕ, ◌≡◌, refl, ◌∙◌, ap, true, false, List, [], ◌∷◌, ◌++◌, Option, none, some, map, ◌==◌, length,
  Bool-cases, inl, inr, if◌then◌else◌,
}
use eth_cl_state_analyzer.Common.Go.{Go, ok, ◌>>=◌}
use eth_cl_state_analyzer.Common.Returns.{branch-false, branch-true}
use eth_cl_state_analyzer.Utils.Book.{RoutineBook, check_page_active, acquire_or_time_out}
use eth_cl_state_analyzer.Spec.Slot.{epoch_at_slot}
use eth_cl_state_analyzer.Spec.Block.{AgnosticBlock}
use eth_cl_state_analyzer.Analyzer.AgnosticMap.{lookup}
use eth_cl_state_analyzer.Analyzer.Calls.{
  DbCall, persist_blocks, persist_withdrawals, persist_bls_to_execution_changes, persist_deposits,
}
use eth_cl_state_analyzer.Analyzer.Chain.{
  ChainAnalyzer, Outside, slot_key, acquire_page, await, release_page,
}
use eth_cl_state_analyzer.Analyzer.ProcessBlock.{
  deposit_rows, process_withdrawals, process_bls_to_execution_changes, process_deposits,
  write_block, process_block,
}
use eth_cl_state_analyzer.Utils.BookTokens.{free_page-acquire_or_time_out}

-- The calls of a block, without those of its transactions.
abbrev pub bls_calls : AgnosticBlock → List DbCall
bls_calls b =
    if length b.bls_to_execution_changes == 0
    then []
    else persist_bls_to_execution_changes (
        map
          (λ item. record {
            slot = b.slot;
            epoch = epoch_at_slot b.slot;
            validator_index = item.validator_index;
            from_bls_public_key = item.from_bls_pubkey;
            to_execution_address = item.to_execution_address;
          })
          b.bls_to_execution_changes)
      ∷ []

abbrev pub deposit_calls : AgnosticBlock → List DbCall
deposit_calls b =
    if length b.deposits == 0 then [] else persist_deposits (deposit_rows b.slot 0 b.deposits) ∷ []

abbrev pub withdrawal_call : AgnosticBlock → DbCall
withdrawal_call b = persist_withdrawals (
    map
      (λ item. record {
        slot = b.slot;
        withdrawal_index = item.withdrawal_index;
        validator_index = item.validator_index;
        address = item.address;
        amount = item.amount;
      })
      b.execution_payload.withdrawals)

abbrev pub block_calls : AgnosticBlock → List DbCall
block_calls b = persist_blocks (b ∷ []) ∷ withdrawal_call b ∷ (bls_calls b ++ deposit_calls b)

abbrev pub with_calls : List DbCall → ChainAnalyzer → ChainAnalyzer
with_calls cs s = record s { db_calls = s.db_calls ++ cs }

bls-calls :
    (b : AgnosticBlock) (s : ChainAnalyzer)
    → process_bls_to_execution_changes b s ≡ with_calls (bls_calls b) s
unfolding process_bls_to_execution_changes
bls-calls b s = elim (Bool-cases (length b.bls_to_execution_changes == 0)) [
  | inl e ↦ rw (e, append-nil s.db_calls) refl
  | inr e ↦ rw (e) refl
]

deposits-calls :
    (b : AgnosticBlock) (s : ChainAnalyzer) → process_deposits b s ≡ with_calls (deposit_calls b) s
unfolding process_deposits
deposits-calls b s = elim (Bool-cases (length b.deposits == 0)) [
  | inl e ↦ rw (e, append-nil s.db_calls) refl
  | inr e ↦ rw (e) refl
]

pub with_calls-twice :
    (xs ys : List DbCall) (s : ChainAnalyzer)
    → with_calls ys (with_calls xs s) ≡ with_calls (xs ++ ys) s
with_calls-twice xs ys s =
    ap (λ (l : List DbCall). record s { db_calls = l }) (append_assoc s.db_calls xs ys)

pub await-some : {V : Type 0} {v : V} {found : Option V} → found ≡ some v → await found ≡ ok v
unfolding await
await-some {found = none} e = cc
await-some {found = some c} e = cc

module _ (o : Outside) where
  write_block-calls :
      (b : AgnosticBlock) (s : ChainAnalyzer)
      → s.metrics.transactions ≡ false
      → write_block o b s ≡ ok (with_calls (block_calls b) s)
  unfolding write_block
  write_block-calls b s off =
      let w : List DbCall = persist_blocks (b ∷ []) ∷ withdrawal_call b ∷ [] in
      let t : ChainAnalyzer = process_withdrawals b (with_calls (persist_blocks (b ∷ []) ∷ []) s) in
      let first : t ≡ with_calls w s = with_calls-twice (persist_blocks (b ∷ []) ∷ []) _ s in
      ap
        (λ (m : Go ChainAnalyzer).
          m >>= λ u. ok (process_deposits b (process_bls_to_execution_changes b u)))
        (branch-false _ _ off)
      ∙ ap ok (
          deposits-calls b (process_bls_to_execution_changes b t)
          ∙ ap (with_calls (deposit_calls b)) (bls-calls b t)
          ∙ with_calls-twice (bls_calls b) (deposit_calls b) t
          ∙ ap (with_calls (bls_calls b ++ deposit_calls b)) first
          ∙ with_calls-twice w (bls_calls b ++ deposit_calls b) s)

  -- Where block metrics are on and those of transactions off, the slot's block is in the cache and the
  -- slot's page is not active, ProcessBlock returns, whether a page is free or not, and whatever the
  -- database answers: it has persisted the block, then its withdrawals (a block without any too), then the
  -- changes of credentials and then the deposits where it has some; nothing else has changed.
  pub process_block_lem :
      (slot : ℕ) (s : ChainAnalyzer) {b : AgnosticBlock}
      → s.metrics.block ≡ true
      → s.metrics.transactions ≡ false
      → lookup slot s.download_cache.block_history.m ≡ some b
      → check_page_active s.processer_book (slot_key slot) ≡ false
      → process_block o slot s ≡ ok (with_calls (block_calls b) s)
  unfolding process_block acquire_page
  process_block_lem slot s {b} on off there inactive =
      let k = slot_key slot in
      let t : ChainAnalyzer = record s {
        processer_book = acquire_or_time_out s.processer_book k;
      } in
      let finish : ChainAnalyzer → Go ChainAnalyzer = λ u. ok (release_page k u) in
      branch-true _ _ on
      ∙ ap (λ (m : Go AgnosticBlock). m >>= λ b. write_block o b t >>= finish) (await-some there)
      ∙ ap (λ (m : Go ChainAnalyzer). m >>= finish) (write_block-calls b t off)
      ∙ ap
          (λ (r : RoutineBook).
            ok (record s { db_calls = s.db_calls ++ block_calls b; processer_book = r }))
          (free_page-acquire_or_time_out s.processer_book k inactive)
