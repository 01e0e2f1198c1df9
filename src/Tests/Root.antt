-- ===== src/Tests/Root.antt =====
-- A square root on the numbers, and the package that it makes.
use eth_cl_state_analyzer.Common.{
  ℕ, zero, suc, ◌+◌, ◌*◌, ◌^◌, ◌≤◌, ◌<◌, refl, leb, if◌then◌else◌, arith,
}
use eth_cl_state_analyzer.Client.{MathPackage, MathLaws}

abbrev step_root : ℕ → ℕ → ℕ
step_root n r = if leb ((r + 1) * (r + 1)) n then r + 1 else r

-- The greatest number whose square is at most n.
unfoldable pub root : ℕ → ℕ
root zero = 0
root (suc n) = step_root (suc n) (root n)

step_root-bounds :
    (n r : ℕ)
    → (r * r ≤ n) × (n < (r + 1) * (r + 1))
    → let t = step_root (suc n) r in (t * t ≤ suc n) × (suc n < (t + 1) * (t + 1))
step_root-bounds n r h = ground arith

root-bounds : (n : ℕ) → (root n * root n ≤ n) × (n < (root n + 1) * (root n + 1))
unfolding root
root-bounds zero = (omega arith, omega arith)
root-bounds (suc n) = step_root-bounds n (root n) (root-bounds n)

abbrev pub math : MathPackage
math = record { pow2 = λ n. 2 ^ n; sqrt = root; four_sqrt = λ n. root (16 * n) }

pub math_laws : MathLaws math
math_laws = record {
  pow2_exact = λ n _. refl;
  sqrt_low = λ n _. (root-bounds n).0;
  sqrt_high = λ n _. (root-bounds n).1;
}
