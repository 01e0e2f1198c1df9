-- ===== src/Tests/Utils.antt =====
-- The theorems on pkg/utils at concrete inputs.
use eth_cl_state_analyzer.Common.{
  ℕ, List, All, none, some, not, filterb, count_up, ◌+◌, ◌≤◌, ◌≡◌, refl, [], ◌∷◌, length, arith,
}
use eth_cl_state_analyzer.Common.Go.{ok, quot, for_each}
use eth_cl_state_analyzer.Utils.Batches.{PoolKeys, divide_validators_batches, obtain_missing}
use eth_cl_state_analyzer.Utils.BatchesCover.{
  members, divide_validators_batches_lem, divide_validators_batches_diverges,
}
use eth_cl_state_analyzer.Utils.Others.{in_some, obtain_missing_lem}
use eth_cl_state_analyzer.Utils.Book.{
  RoutineBook, new_routine_book, check_page_active, acquire, acquire_or_time_out, free_page,
  num_free_pages,
}
use eth_cl_state_analyzer.Utils.BookTokens.{
  Reach, start, acquired, reacquired, tokens_conserved, free_page-acquire_or_time_out,
}

-- A book of 3 pages in which page 8 was taken twice.
abbrev twice : RoutineBook
twice = acquire (acquire (new_routine_book 3) 8) 8

twice-Reach : Reach 3 twice 1
unfolding new_routine_book acquire check_page_active
twice-Reach = reacquired (acquired start 8 (omega arith) refl) 8 (omega arith) refl

tokens_conserved_example :
    (length twice.pages + twice.free + 1 ≡ 3)
    × (twice.free ≤ 3)
    × (num_free_pages twice ≡ twice.free + 1)
tokens_conserved_example = tokens_conserved twice-Reach

free_page-acquire_or_time_out_example :
    let r : RoutineBook = record { pages = 4 ∷ 6 ∷ []; free = 0; size = 2 } in
    free_page (acquire_or_time_out r 5) 5 ≡ r
unfolding check_page_active
free_page-acquire_or_time_out_example =
    free_page-acquire_or_time_out (record { pages = 4 ∷ 6 ∷ []; free = 0; size = 2 }) 5 refl

divide_validators_batches_example :
    (step : ℕ) × (bs : List PoolKeys) × (quot 5 2 ≡ ok step)
    × (divide_validators_batches 6 (1 ∷ 2 ∷ 3 ∷ 4 ∷ 5 ∷ []) 2 ≡ ok (some bs))
    × (members bs ≡ 1 ∷ 2 ∷ 3 ∷ 4 ∷ 5 ∷ [])
    × All (λ b. length b.val_idxs ≤ step) bs
divide_validators_batches_example =
    divide_validators_batches_lem (1 ∷ 2 ∷ 3 ∷ 4 ∷ 5 ∷ []) 2 (omega arith) (omega arith)

divide_validators_batches_diverges_example : divide_validators_batches 1000 (7 ∷ 8 ∷ []) 3 ≡ ok none
divide_validators_batches_diverges_example =
    divide_validators_batches_diverges (7 ∷ 8 ∷ []) 3 1000 (omega arith) (omega arith)

obtain_missing_example :
    obtain_missing 5 ((1 ∷ 3 ∷ []) ∷ (0 ∷ []) ∷ [])
    ≡ ok (filterb (λ j. not (in_some ((1 ∷ 3 ∷ []) ∷ (0 ∷ []) ∷ []) j)) (count_up 0 5))
obtain_missing_example =
    obtain_missing_lem 5 ((1 ∷ 3 ∷ []) ∷ (0 ∷ []) ∷ [])
      ((omega arith, (omega arith, tt)), ((omega arith, tt), tt))

missing_of_pools : obtain_missing 5 ((1 ∷ 3 ∷ []) ∷ (0 ∷ []) ∷ []) ≡ ok (2 ∷ 4 ∷ [])
unfolding obtain_missing for_each
missing_of_pools = refl
