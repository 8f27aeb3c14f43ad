-- ===== src/Rand/Modulus.antt =====
-- The modulus of rand_unique_permute in sb_rand.c is a prime number.
use native.Mathlib.Nat.{mul-le-mul}
use bits_on_demand_pte_te.Prelude.{
  ℕ, zero, suc, ◌+◌, ◌*◌, ◌%◌, ◌^◌, ◌≤◌, ◌<◌, ◌≡◌, ◌≢◌, refl, subst, Bool, true, false, Bool-cases,
  inl, inr, not, ◌&&◌, ◌==◌, ltb, arith,
}
use bits_on_demand_pte_te.CpuTest.Primes.{Prime, Clear, Prime-of_Clear}

-- None of the `2 ^ n` numbers from `d` on divides `p`.
no_divisor : (p n d : ℕ) → Bool
no_divisor p zero d = not (p % d == 0)
no_divisor p (suc n) d = no_divisor p n d && no_divisor p n (d + 2 ^ n)

both : (a b : Bool) → (a && b) ≡ true → (a ≡ true) × (b ≡ true)
both true b h = (refl, h)
both false b h = absurd (ground (arith, h))

no_divisor-Clear :
    (p n d : ℕ) → no_divisor p n d ≡ true → (e : ℕ) → d ≤ e → e < d + 2 ^ n → p % e ≢ 0
unfolding no_divisor
no_divisor-Clear p zero d h e l u z =
    let same : e ≡ d = omega (arith, l, u) in
    let z' : p % d ≡ 0 = subst (λ x. p % x ≡ 0) same z in ground (arith, h, z')
no_divisor-Clear p (suc n) d h e l u z =
    let (low, high) = both (no_divisor p n d) (no_divisor p n (d + 2 ^ n)) h in
    elim (Bool-cases (ltb e (d + 2 ^ n))) [
      | inl y ↦ no_divisor-Clear p n d low e l (ground (arith, y)) z
      | inr y ↦ no_divisor-Clear p n (d + 2 ^ n) high e (ground (arith, y)) (omega (arith, u)) z
    ]

abbrev pub modulus : ℕ
modulus = 4294967291

checked : no_divisor 4294967291 16 2 ≡ true
unfolding no_divisor
checked = refl

pub modulus-Prime : Prime modulus
modulus-Prime = Prime-of_Clear modulus clear
  where
    clear : Clear 2 modulus
    clear d l s = elim (Bool-cases (ltb d 65538)) [
      | inl y ↦ no_divisor-Clear 4294967291 16 2 checked d l (ground (arith, y))
      | inr y ↦
          let far : 65538 * 65538 ≤ d * d =
            let up : 65538 ≤ d = ground (arith, y) in mul-le-mul up up in
          absurd (omega (arith, far, s))
    ]
