-- ===== src/Tests/Lookups.antt =====
-- The lookups by slot at concrete states.
use eth_cl_state_analyzer.Common.{
  ℕ, ◌+◌, ◌/◌, ◌≤◌, ◌<◌, ◌≡◌, refl, true, false, none, some, [], ◌∷◌, ◌==◌, if◌then◌else◌, arith,
}
use eth_cl_state_analyzer.Common.Go.{ok}
use eth_cl_state_analyzer.Spec.Block.{AgnosticBlock}
use eth_cl_state_analyzer.Metrics.Base.{
  StateMetricsBase, in_prev, in_current, in_next, era_of, get_block_from_slot,
}
use eth_cl_state_analyzer.Metrics.Phase0.{get_min_inclusion_delay_possible}
use eth_cl_state_analyzer.Metrics.Lookups.{
  HasBlock, era_of_lem, get_min_inclusion_delay_possible_lem,
}
use eth_cl_state_analyzer.Tests.Data.{block, state_at, three_epochs}

era_of_example : era_of three_epochs 40 ≡ (
    if 40 / 32 == 0
    then some in_prev
    else if 40 / 32 == 1
    then some in_current
    else if 40 / 32 == 2
    then some in_next
    else none)
era_of_example = era_of_lem three_epochs 40 refl refl (omega arith)

-- The block of slot 2 was missed.
abbrev missed_block : AgnosticBlock
missed_block = record (block 2 0 0 []) { proposed = false }

abbrev some_missed : StateMetricsBase
some_missed = record three_epochs {
  prev_state = state_at 0 [] (block 0 1 0 [] ∷ block 1 2 0 [] ∷ missed_block ∷ block 3 3 0 [] ∷ []);
}

finds_delay : get_min_inclusion_delay_possible some_missed 1 ≡ ok 2
unfolding get_min_inclusion_delay_possible get_block_from_slot era_of
finds_delay = refl

get_min_inclusion_delay_possible_example :
    (1 ≤ 2)
    × (2 ≤ 33)
    × ((j : ℕ) → 1 ≤ j → j < 2 → HasBlock some_missed (1 + j) false)
    × (2 ≤ 32 → HasBlock some_missed (1 + 2) true)
get_min_inclusion_delay_possible_example =
    get_min_inclusion_delay_possible_lem some_missed 1 (omega arith) finds_delay
