-- ===== src/MemoryTest/Powers.antt =====
-- Powers of 2 in the test of `memory_init` of sb_memory.c for the block size.
use Prim.Native.Nat.{bit_and, digits, bit_and-bitwise, min}
use native.Mathlib.Nat.{pow-suc}
use bits_on_demand_pte_te.Prelude.{
  ℕ, zero, suc, ◌+◌, ◌-◌, ◌/◌, ◌^◌, ◌≤◌, ◌<◌, ◌≡◌, refl, ap, ◌∙◌, arith,
}

pow_positive : (k : ℕ) → 0 < 2 ^ k
pow_positive zero = omega arith
pow_positive (suc k) = omega (arith, pow_positive k, pow-suc 2 k)

pub pow_le : (j k : ℕ) → j ≤ k → 2 ^ j ≤ 2 ^ k
pow_le zero k h = pow_positive k
pow_le (suc j) zero h = absurd (omega (arith, h))
pow_le (suc j) (suc k) h = omega (arith, pow_le j k (omega (arith, h)), pow-suc 2 j, pow-suc 2 k)

pub pow_lt : (j k : ℕ) → j < k → 2 ^ j < 2 ^ k
pow_lt j k h = omega (arith, pow_le (suc j) k h, pow-suc 2 j, pow_positive j)

-- The common binary digits of two numbers, lowest first, for `n` digits.
abbrev common : (n a b : ℕ) → ℕ
common = digits (λ b. 0) min

common-zero : (n b : ℕ) → common n 0 b ≡ 0
common-zero zero b = refl
common-zero (suc n) b = refl

common-power : (n k a b : ℕ) → a ≡ 2 ^ k → b + 1 ≡ a → common n a b ≡ 0
common-power zero k a b e h = refl
common-power (suc n) k zero b e h = refl
common-power (suc n) zero (suc a) b e h =
    let none_left : suc a / 2 ≡ 0 = omega (arith, e) in
    omega (arith, e, h, ap (λ x. common n x (b / 2)) none_left ∙ common-zero n (b / 2))
common-power (suc n) (suc k) (suc a) b e h =
    let p = pow-suc 2 k in
    omega (
      arith,
      common-power n k (suc a / 2) (b / 2) (omega (arith, e, p)) (omega (arith, e, h, p)),
      e,
      p,
    )

-- A power of 2 has no binary digit in common with the number before it.
pub bit_and-power : (k : ℕ) → bit_and (2 ^ k) (2 ^ k - 1) ≡ 0
bit_and-power k =
    simp bit_and-bitwise
      (common-power (2 ^ k) k (2 ^ k) (2 ^ k - 1) refl (omega (arith, pow_positive k)))
