-- ===== src/Utils/Batches.antt =====
-- pkg/utils/validator_indexes.go: batches of validators, and the validators of no pool.
use eth_cl_state_analyzer.Common.{
  ℕ, zero, suc, ◌+◌, ◌-◌, List, [], ◌∷◌, ◌++◌, Option, none, some, length, ltb, ◌==◌, if◌then◌else◌,
  take, drop, replicate,
}
use eth_cl_state_analyzer.Common.Go.{Go, ok, ◌>>=◌, update, quot, for_each}

-- `PoolKeys`; a pool's name is only compared, and 0 is the empty name.
pub record PoolKeys : Type 0 where
  pub pool_name : ℕ
  pub val_idxs : List ℕ

-- The loop of `DivideValidatorsBatches` from `includedIndex` on; `none` means that the fuel ran out.
unfoldable pub batches_from : ℕ → List ℕ → ℕ → ℕ → List PoolKeys → Option (List PoolKeys)
batches_from zero input step included result = none
batches_from (suc fuel) input step included result =
    let end = (if ltb (length input) (included + step) then length input else included + step) in
    let batch : PoolKeys = record {
      pool_name = 0;
      val_idxs = take (end - included) (drop included input);
    } in
    let rest = batches_from fuel input step end (result ++ batch ∷ []) in
    if ltb included (length input) then rest else some result

unfoldable pub divide_validators_batches : ℕ → List ℕ → ℕ → Go (Option (List PoolKeys))
unfolding batches_from
divide_validators_batches fuel input workers =
    quot (length input) workers >>= λ step. ok (batches_from fuel input step 0 [])

-- The loop of `ObtainMissing` over the marks, from index i on.
unfoldable pub unmarked_from : ℕ → List ℕ → List ℕ → List ℕ
unmarked_from i [] result = result
unmarked_from i (item ∷ items) result =
    unmarked_from (suc i) items (if item == 0 then result ++ i ∷ [] else result)

unfoldable pub obtain_missing : ℕ → List (List ℕ) → Go (List ℕ)
unfolding unmarked_from
obtain_missing val_len pool_vals =
    for_each (λ pool marks. for_each (λ item ms. update ms item (λ _. 1)) pool marks) pool_vals
      (replicate val_len 0)
    >>= λ marks. ok (unmarked_from 0 marks [])
