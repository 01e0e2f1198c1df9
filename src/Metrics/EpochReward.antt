-- ===== src/Metrics/EpochReward.antt =====
-- pkg/spec/metrics/standard.go: `EpochReward` as a signed integer.
use eth_cl_state_analyzer.Common.{
  ℕ, ◌+◌, ◌^◌, ◌<◌, ◌≡◌, refl, add64, sub64, length, get_or, arith, lt→ltb,
}
use eth_cl_state_analyzer.Common.Go.{ok, index-get_or}
use eth_cl_state_analyzer.Common.Int.{sub_ℕ, signed64}
use eth_cl_state_analyzer.Metrics.Base.{StateMetricsBase, epoch_reward}

reward_word :
    (n c w d : ℕ)
    → n + w < 2 ^ 63
    → c + d < 2 ^ 63
    → signed64 (sub64 (add64 (sub64 n c) w) d) ≡ sub_ℕ (n + w) (c + d)
reward_word n c w d h k = ground arith

-- `EpochReward` returns the int64 that is the integer difference of what the validator has and was
-- paid out at the end of the epoch and what it had and paid in, negative if it lost. This supposes
-- entries for the validator in the four lists, and both sums below 2 ^ 63.
pub epoch_reward_lem :
    (s : StateMetricsBase) (i : ℕ)
    → i < length s.current_state.balances
    → i < length s.next_state.balances
    → i < length s.next_state.withdrawals
    → i < length s.next_state.deposits
    → let final = get_or s.next_state.balances i 0 + get_or s.next_state.withdrawals i 0 in
      let initial = get_or s.current_state.balances i 0 + get_or s.next_state.deposits i 0 in
      final < 2 ^ 63
      → initial < 2 ^ 63
      → (w : ℕ) × (epoch_reward s i ≡ ok w) × (signed64 w ≡ sub_ℕ final initial)
unfolding epoch_reward
epoch_reward_lem s i hc hn hw hd hf hi = (
  _,
  rw
      (
        lt→ltb i (length s.current_state.balances) hc,
        lt→ltb i (length s.next_state.balances) hn,
        index-get_or s.next_state.balances i hn,
        index-get_or s.current_state.balances i hc,
        index-get_or s.next_state.withdrawals i hw,
        index-get_or s.next_state.deposits i hd,
      )
      refl,
  reward_word (get_or s.next_state.balances i 0) (get_or s.current_state.balances i 0)
      (get_or s.next_state.withdrawals i 0) (get_or s.next_state.deposits i 0) hf hi,
)
