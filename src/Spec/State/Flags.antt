-- ===== src/Spec/State/Flags.antt =====
-- pkg/spec/state.go: the attestation flags of the previous epoch, one row for each flag.
use Prim.Native.Nat.{bit_and}
use eth_cl_state_analyzer.Common.{
  ℕ, suc, Bool, true, false, not, ◌&&◌, List, [], ◌∷◌, leb, ◌==◌, if◌then◌else◌, length, add64,
  sub64,
}
use eth_cl_state_analyzer.Common.Go.{Go, ok, ◌>>=◌, index, update, modify}
use eth_cl_state_analyzer.Client.{MathPackage}
use eth_cl_state_analyzer.Spec.State.Defs.{AgnosticState}
use eth_cl_state_analyzer.Spec.State.Status.{is_active}

-- The loop of `MissingFlags` over the rows, from row i on.
unfoldable pub missing_flags_from : ℕ → ℕ → List (List Bool) → List Bool → Go (List Bool)
missing_flags_from val_idx i [] result = ok result
missing_flags_from val_idx i (item ∷ items) result = do
  flag ← index item val_idx
  result' ← (if flag then ok result else modify result i (λ _. ok true))
  missing_flags_from val_idx (suc i) items result'

abbrev pub no_flags : List Bool
no_flags = false ∷ false ∷ false ∷ []

unfoldable pub missing_flags : AgnosticState → ℕ → Go (List Bool)
unfolding missing_flags_from
missing_flags p val_idx = do
  first ← index p.prev_epoch_correct_flags 0
  if leb (length first) val_idx
      then ok no_flags
      else (index p.validators val_idx >>= λ v.
          if is_active v (sub64 p.epoch 1)
          then missing_flags_from val_idx 0 p.prev_epoch_correct_flags no_flags
          else ok no_flags)

-- The loop of `GetMissingFlagCount` over a row, from validator i on.
unfoldable pub missing_count_from : AgnosticState → ℕ → List Bool → ℕ → Go ℕ
missing_count_from p i [] n = ok n
missing_count_from p i (item ∷ items) n = do
  v ← index p.validators i
  missing_count_from p (suc i) items
      (if is_active v (sub64 p.epoch 1) && not item then add64 n 1 else n)

unfoldable pub get_missing_flag_count : AgnosticState → ℕ → Go ℕ
unfolding missing_count_from
get_missing_flag_count p flag_index =
    index p.prev_epoch_correct_flags flag_index >>= λ row. missing_count_from p 0 row 0

-- `(item & flag) == flag`
abbrev pub has_flag : ℕ → ℕ → Bool
has_flag item flag = bit_and item flag == flag

-- One hit in `ProcessAltairAttestations`: mark the flag and count the balance.
unfoldable pub credit_flag : ℕ → ℕ → AgnosticState → Go AgnosticState
credit_flag k val_index p = do
  flags ← modify p.prev_epoch_correct_flags k (λ row. update row val_index (λ _. true))
  v ← index p.validators val_index
  balances ← update p.attesting_balance k (λ b. add64 b v.effective_balance)
  ok (record p { prev_epoch_correct_flags = flags; attesting_balance = balances })

-- The loop over the validators, from index i on, for flag number k with the bit `flag`.
unfoldable pub participation_from : ℕ → ℕ → ℕ → List ℕ → AgnosticState → Go AgnosticState
unfolding credit_flag
participation_from k flag i [] p = ok p
participation_from k flag i (item ∷ items) p =
    (if has_flag item flag then credit_flag k i p else ok p) >>= λ q.
    participation_from k flag (suc i) items q

module _ (math : MathPackage) where
  -- The loop over the three flags.
  unfoldable pub process_altair_attestations : AgnosticState → List ℕ → Go AgnosticState
  unfolding participation_from
  process_altair_attestations p participation =
      participation_from 0 (math.pow2 0) 0 participation p >>= λ q.
      participation_from 1 (math.pow2 1) 0 participation q >>= λ r.
      participation_from 2 (math.pow2 2) 0 participation r
