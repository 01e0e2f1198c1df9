-- ===== src/Common/Int.antt =====
-- Signed integers over the native numbers, and the integer that a 64-bit pattern stands for.
use eth_cl_state_analyzer.Common.Tests.{leb, ltb, if◌then◌else◌}
use Prim.Native.Nat.{ℕ, ◌-◌, ◌^◌}
use mathlib.Core.Bool.{Bool, ◌||◌}

-- `negsuc n` is -(n + 1).
pub data ℤ : Type 0 where
  pos : ℕ → ℤ
  negsuc : ℕ → ℤ

-- a - b, as an integer.
abbrev pub sub_ℕ : ℕ → ℕ → ℤ
sub_ℕ a b = if leb b a then pos (a - b) else negsuc (b - a - 1)

-- The `int64` with this bit pattern.
abbrev pub signed64 : ℕ → ℤ
signed64 w = if ltb w (2 ^ 63) then pos w else negsuc (2 ^ 64 - w - 1)

-- `int(w) <= k`, for a bit pattern w and a number k below 2 ^ 63: a negative integer is below k.
abbrev pub int_leb : ℕ → ℕ → Bool
int_leb w k = leb w k || leb (2 ^ 63) w
