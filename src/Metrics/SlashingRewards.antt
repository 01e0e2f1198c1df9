-- ===== src/Metrics/SlashingRewards.antt =====
-- pkg/spec/metrics/state_phase0.go: what `ProcessSlashings` pays to the proposer of a block.
use native.Mathlib.Nat.{add-zero, zero-add}
use eth_cl_state_analyzer.Common.{
  ℕ, ◌+◌, ◌/◌, ◌<◌, ◌≡◌, refl, ap, List, [], ◌∷◌, Option, none, some, if◌then◌else◌, add64, sub64,
  mul64, u64, length, get_elem?, All, arith, ◌==◌, get_elem?-some,
}
use eth_cl_state_analyzer.Common.Go.{ok, index-ok, for_each}
use eth_cl_state_analyzer.Client.{Validator}
use eth_cl_state_analyzer.Spec.Slashing.{AgnosticSlashing}
use eth_cl_state_analyzer.Spec.Block.{AgnosticBlock}
use eth_cl_state_analyzer.Metrics.Base.{Amounts, add_amount}
use eth_cl_state_analyzer.Metrics.Slashings.{
  SlashingPass, record_slashings, slashing_rewards_from, process_block_slashings,
}

-- The whistleblower's share of a slashing.
abbrev pub share_of : Option Validator → ℕ
share_of none = 0
share_of (some v) = v.effective_balance / 512

abbrev pub shares_of : List Validator → List AgnosticSlashing → ℕ
shares_of next [] = 0
shares_of next (s ∷ ss) = share_of (get_elem? next s.slashed_validator) + shares_of next ss

abbrev pub IsListed : List Validator → List AgnosticSlashing → Type 0
IsListed next = All (λ s. s.slashed_validator < length next)

rewards_from :
    (next : List Validator) (ss : List AgnosticSlashing) (w p : ℕ)
    → IsListed next ss
    → (q : ℕ) × (slashing_rewards_from next ss (u64 w) p ≡ ok (u64 (w + shares_of next ss), q))
unfolding slashing_rewards_from
rewards_from next [] w p h = (p, rw add-zero)
rewards_from next (s ∷ ss) w p h =
    let (v, e) = get_elem?-some next s.slashed_validator h.0 in
    let w' : ℕ = w + v.effective_balance / 512 in
    let step : add64 (u64 w) (v.effective_balance / 512) ≡ u64 w' = omega arith in
    let (q, rest) = rewards_from next ss w' (add64 p (mul64 (u64 w') 8 / 64)) h.1 in
    (
      q,
      rw (index-ok next s.slashed_validator e, step, rest, e)
          (ap (λ (n : ℕ). ok (u64 n, q)) (omega arith)),
    )

-- The proposer of a block gets, in one sum, the whistleblower shares of all slashings that have been
-- recorded when its own have been added, and so does the block's manual reward. The two
-- parts, proposer's and whistleblower's, cancel out. No other amount changes.
pub process_block_slashings_lem :
    (current next : List Validator) (block : AgnosticBlock) (s t : SlashingPass)
    → record_slashings current block s ≡ ok t
    → IsListed next t.slashings
    → let share = u64 (shares_of next t.slashings) in
      (rewards : Amounts) × (process_block_slashings current next block s
        ≡ ok (
          record block { manual_reward = add64 block.manual_reward share },
          record t { max_slashing_rewards = rewards },
        ))
      × ((j : ℕ)
          → rewards j ≡ (
              if block.proposer_index == j
              then add64 (t.max_slashing_rewards j) share
              else t.max_slashing_rewards j))
unfolding process_block_slashings add_amount
process_block_slashings_lem current next block s t e h =
    let (q, paid) = rewards_from next t.slashings 0 0 h in
    let share : ℕ = u64 (shares_of next t.slashings) in
    let both : add64 q (sub64 share q) ≡ share = omega arith in
    (
      add_amount (add_amount t.max_slashing_rewards block.proposer_index q) block.proposer_index
          (sub64 share q),
      rw (e, paid, zero-add, both),
      λ j. ground arith,
    )

-- A block that has no slashings is paid for those that the blocks before it recorded.
pub process_block_slashings_carried :
    (current next : List Validator) (block : AgnosticBlock) (s : SlashingPass)
    → block.attester_slashings ≡ []
    → block.proposer_slashings ≡ []
    → IsListed next s.slashings
    → (r : SlashingPass) × (process_block_slashings current next block s
        ≡ ok (
          record block {
            manual_reward = add64 block.manual_reward (u64 (shares_of next s.slashings));
          },
          r,
        ))
      × (r.slashings ≡ s.slashings)
      × (r.max_slashing_rewards block.proposer_index
          ≡ add64 (s.max_slashing_rewards block.proposer_index) (u64 (shares_of next s.slashings)))
unfolding record_slashings for_each
process_block_slashings_carried current next block s ea ep h =
    let (rewards, e, paid) = process_block_slashings_lem current next block s s (rw (ea, ep)) h in
    (
      record s { max_slashing_rewards = rewards },
      e,
      refl,
      ground (arith, paid block.proposer_index),
    )
