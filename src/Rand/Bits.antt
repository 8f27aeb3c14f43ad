-- ===== src/Rand/Bits.antt =====
-- Exclusive or on machine words: bounded, and injective in one operand.
use Prim.Native.Nat.{bit_xor, digits, bit_xor-bitwise, differ}
use native.Mathlib.Nat.{le_refl, pow-suc}
use bits_on_demand_pte_te.Prelude.{
  ℕ, zero, suc, ◌+◌, ◌*◌, ◌/◌, ◌%◌, ◌^◌, ◌≤◌, ◌<◌, ◌≡◌, refl, arith,
}

-- The fuel of the recursion on digits does not matter when it is enough.
digits_fuel :
    (z : ℕ → ℕ) (f : ℕ → ℕ → ℕ) (n m a b : ℕ) → a ≤ n → a ≤ m → digits z f n a b ≡ digits z f m a b
digits_fuel z f zero zero a b p q = refl
digits_fuel z f zero (suc m) zero b p q = refl
digits_fuel z f zero (suc m) (suc a) b p q = absurd (omega arith)
digits_fuel z f (suc n) zero zero b p q = refl
digits_fuel z f (suc n) zero (suc a) b p q = absurd (omega arith)
digits_fuel z f (suc n) (suc m) zero b p q = refl
digits_fuel z f (suc n) (suc m) (suc a) b p q =
    rw (digits_fuel z f n m (suc a / 2) (b / 2) (omega arith) (omega arith))

-- One equation for the lowest digit.
bit_xor_step : (a b : ℕ) → bit_xor a b ≡ bit_xor (a / 2) (b / 2) * 2 + differ (a % 2) (b % 2)
bit_xor_step zero b = simp bit_xor-bitwise (omega arith)
bit_xor_step (suc a) b = simp bit_xor-bitwise (
    omega (
      arith,
      digits_fuel (λ y. y) differ a (suc a / 2) (suc a / 2) (b / 2) (omega arith) (le_refl _),
    ))

differ_lt : (r s : ℕ) → r < 2 → s < 2 → differ r s < 2
differ_lt zero s p q = q
differ_lt (suc zero) zero p q = p
differ_lt (suc zero) (suc zero) p q = omega arith
differ_lt (suc zero) (suc (suc s)) p q = absurd (omega (arith, q))
differ_lt (suc (suc r)) s p q = absurd (omega (arith, p))

differ_injective : (r s t : ℕ) → r < 2 → s < 2 → t < 2 → differ r t ≡ differ s t → r ≡ s
differ_injective zero zero t p q u e = refl
differ_injective (suc zero) (suc zero) t p q u e = refl
differ_injective zero (suc zero) zero p q u e = absurd (omega (arith, e))
differ_injective zero (suc zero) (suc zero) p q u e = absurd (omega (arith, e))
differ_injective (suc zero) zero zero p q u e = absurd (omega (arith, e))
differ_injective (suc zero) zero (suc zero) p q u e = absurd (omega (arith, e))
differ_injective (suc (suc r)) s t p q u e = absurd (omega (arith, p))
differ_injective r (suc (suc s)) t p q u e = absurd (omega (arith, q))
differ_injective r s (suc (suc t)) p q u e = absurd (omega (arith, u))

digit_lt : (a : ℕ) → a % 2 < 2
digit_lt a = omega arith

pub bit_xor_lt : (k a b : ℕ) → a < 2 ^ k → b < 2 ^ k → bit_xor a b < 2 ^ k
bit_xor_lt zero zero b p q = simp bit_xor-bitwise q
bit_xor_lt zero (suc a) b p q = absurd (omega (arith, p))
bit_xor_lt (suc k) a b p q = omega (
  arith,
  bit_xor_step a b,
  pow-suc 2 k,
  differ_lt (a % 2) (b % 2) (digit_lt a) (digit_lt b),
  bit_xor_lt k (a / 2) (b / 2) (omega (arith, p, pow-suc 2 k)) (omega (arith, q, pow-suc 2 k)),
)

-- The digits are found one by one.
digits_of : (n r m s : ℕ) → r < 2 → s < 2 → n * 2 + r ≡ m * 2 + s → (n ≡ m) × (r ≡ s)
digits_of n r m s p q e = (omega (arith, p, q, e), omega (arith, p, q, e))

pub bit_xor-injective : (k a b c : ℕ) → a < 2 ^ k → b < 2 ^ k → bit_xor a c ≡ bit_xor b c → a ≡ b
bit_xor-injective zero a b c p q e = omega (arith, p, q)
bit_xor-injective (suc k) a b c p q e =
    let (highs, lows) =
      digits_of (bit_xor (a / 2) (c / 2)) (differ (a % 2) (c % 2)) (bit_xor (b / 2) (c / 2))
        (differ (b % 2) (c % 2)) (differ_lt (a % 2) (c % 2) (digit_lt a) (digit_lt c))
        (differ_lt (b % 2) (c % 2) (digit_lt b) (digit_lt c))
        (omega (arith, e, bit_xor_step a c, bit_xor_step b c)) in
    let low =
      differ_injective (a % 2) (b % 2) (c % 2) (digit_lt a) (digit_lt b) (digit_lt c) lows in
    let high =
      bit_xor-injective k (a / 2) (b / 2) (c / 2) (omega (arith, p, pow-suc 2 k))
        (omega (arith, q, pow-suc 2 k)) highs in
    omega (arith, low, high)
