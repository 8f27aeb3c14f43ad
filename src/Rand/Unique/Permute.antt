-- ===== src/Rand/Unique/Permute.antt =====
-- `rand_unique_permute` of sb_rand.c permutes the words of 32 bits.
use Prim.Native.Nat.{◌∣◌}
use native.Mathlib.Nat.{
  mul-le-mul, mod-add-div, mod-lt, mod-eq_of_lt, dvd-mul_right, dvd_of_mod-eq-zero, le_of_dvd,
}
use bits_on_demand_pte_te.Prelude.{
  ℕ, ◌+◌, ◌-◌, ◌*◌, ◌/◌, ◌%◌, ◌^◌, ◌≤◌, ◌<◌, ◌≡◌, ◌≢◌, refl, sym, subst, ◌∙◌, ◌⊎◌, true, false,
  Bool-cases, inl, inr, leb, ltb, if◌then◌else◌, arith,
}
use bits_on_demand_pte_te.CpuTest.Primes.{Prime}
use bits_on_demand_pte_te.Rand.Residues.{dvd-factor, no_square_sum, same_square}
use bits_on_demand_pte_te.Rand.Modulus.{modulus-Prime}
use bits_on_demand_pte_te.Rand.Unique.{prime, rand_unique_permute}

-- The square modulo `p`, taken from `p` for the upper half.
reflected : (p x : ℕ) → ℕ
reflected p x = if leb x (p / 2) then (x * x) % p else p - (x * x) % p

-- How `reflected` goes on.
Half : (p x y : ℕ) → Type 0
Half p x y = ((x ≤ p / 2) × (y ≡ (x * x) % p)) ⊎ ((p / 2 < x) × (y ≡ p - (x * x) % p))

reflected-Half : (p x : ℕ) → Half p x (reflected p x)
unfolding reflected Half
reflected-Half p x = elim (Bool-cases (leb x (p / 2))) [
  | inl low ↦ inl (ground (arith, low), rw low refl)
  | inr high ↦ inr (ground (arith, high), rw high refl)
]

module _ (p : ℕ) (i : Prime p) (f : p % 4 ≡ 3) where
  positive : 0 < p
  positive = omega (arith, f)

  square_positive : (x : ℕ) → 0 < x → x < p → 0 < (x * x) % p
  square_positive x o h = elim (Bool-cases (ltb 0 ((x * x) % p))) [
    | inl y ↦ ground (arith, y)
    | inr n ↦
        let none : (x * x) % p ≡ 0 = ground (arith, n) in
        let m : p ∣ x = dvd-factor p i x x o h (dvd_of_mod-eq-zero p none) in
        absurd (omega (arith, le_of_dvd o m, h))
  ]

  reflected_lt : (x : ℕ) → x < p → reflected p x < p
  unfolding Half
  reflected_lt x h = elim (reflected-Half p x) [
    | inl (l, e) ↦ omega (arith, e, mod-lt (x * x) positive)
    | inr (u, e) ↦ omega (arith, e, positive, square_positive x (omega (arith, u)) h)
  ]

  -- A square and a reflected one are never the same.
  apart : (x y : ℕ) → p / 2 < y → y < p → (x * x) % p ≡ p - (y * y) % p → ⊥
  apart x y u h e =
      let low : (y * y) % p < p = mod-lt (y * y) positive in
      let sum : p * ((x * x) / p + (y * y) / p + 1) ≡ x * x + y * y =
        let whole : p * ((x * x) / p + (y * y) / p + 1)
            ≡ p * ((x * x) / p) + p * ((y * y) / p) + p =
          omega arith in
        omega (arith, whole, mod-add-div (x * x) p, mod-add-div (y * y) p, e, low) in
      no_square_sum p i f x y (omega (arith, u)) h
        (subst (λ n. p ∣ n) sum (dvd-mul_right p ((x * x) / p + (y * y) / p + 1)))

  -- Two numbers of the same half with the same square are the same.
  same_half_le : (x y : ℕ) → x ≤ y → y < p → (x * x) % p ≡ (y * y) % p → x + y ≢ p → x ≡ y
  same_half_le x y l h e n =
      let d = y - x in
      let whole : y ≡ x + d = omega (arith, l) in
      let zero_difference : d ≡ 0 =
        same_square p i x d (omega (arith, whole, h))
          (subst (λ z. (x * x) % p ≡ (z * z) % p) whole e) (λ s. n (omega (arith, s, whole))) in
      omega (arith, whole, zero_difference)

  same_half : (x y : ℕ) → x < p → y < p → (x * x) % p ≡ (y * y) % p → x + y ≢ p → x ≡ y
  same_half x y g h e n = elim (Bool-cases (leb x y)) [
    | inl l ↦ same_half_le x y (ground (arith, l)) h e n
    | inr l ↦ sym (same_half_le y x (ground (arith, l)) g (sym e) (λ s. n (omega (arith, s))))
  ]

  -- The residues are compared by their squares.
  unreflect : (x y : ℕ) → p - (x * x) % p ≡ p - (y * y) % p → (x * x) % p ≡ (y * y) % p
  unreflect x y e = omega (arith, e, mod-lt (x * x) positive, mod-lt (y * y) positive)

  reflected-injective : (x y : ℕ) → x < p → y < p → reflected p x ≡ reflected p y → x ≡ y
  unfolding Half
  reflected-injective x y g h e = elim (reflected-Half p x) [
    | inl (l, a) ↦ elim (reflected-Half p y) [
      | inl (l', b) ↦ same_half x y g h (sym a ∙ e ∙ b) (λ s. omega (arith, s, l, l', f))
      | inr (u', b) ↦ absurd (apart x y u' h (sym a ∙ e ∙ b))
    ]
    | inr (u, a) ↦ elim (reflected-Half p y) [
      | inl (l', b) ↦ absurd (apart y x u g (sym b ∙ sym e ∙ a))
      | inr (u', b) ↦
          same_half x y g h (unreflect x y (sym a ∙ e ∙ b)) (λ s. omega (arith, s, u, u', f))
    ]
  ]

-- The product of 64 bits does not wrap.
square_fits : (x : ℕ) → x < prime → (x * x) % 2 ^ 64 ≡ x * x
square_fits x h =
    let le : x ≤ 4294967291 = omega (arith, h) in
    let lt : x * x ≤ 4294967291 * 4294967291 = mul-le-mul le le in mod-eq_of_lt (omega (arith, lt))

permute-reflected : (x : ℕ) → x < prime → rand_unique_permute x ≡ reflected prime x
unfolding rand_unique_permute reflected
permute-reflected x h =
    let inside : leb prime x ≡ false = ground (arith, h) in rw (inside, square_fits x h) refl

permute-outside : (x : ℕ) → prime ≤ x → rand_unique_permute x ≡ x
unfolding rand_unique_permute
permute-outside x h = let outside : leb prime x ≡ true = ground (arith, h) in rw outside refl

prime-mod-four : prime % 4 ≡ 3
prime-mod-four = refl

permute_lt_prime : (x : ℕ) → x < prime → rand_unique_permute x < prime
permute_lt_prime x h =
    subst (λ y. y < prime) (sym (permute-reflected x h))
      (reflected_lt prime modulus-Prime prime-mod-four x h)

inside-or : (x : ℕ) → (x < prime) ⊎ (prime ≤ x)
inside-or x = elim (Bool-cases (ltb x prime)) [
  | inl y ↦ inl (ground (arith, y))
  | inr n ↦ inr (ground (arith, n))
]

pub rand_unique_permute_lt : (x : ℕ) → x < 2 ^ 32 → rand_unique_permute x < 2 ^ 32
rand_unique_permute_lt x h = elim (inside-or x) [
  | inl y ↦ omega (arith, permute_lt_prime x y)
  | inr n ↦ omega (arith, permute-outside x n, h)
]

pub rand_unique_permute-injective :
    (x y : ℕ) → rand_unique_permute x ≡ rand_unique_permute y → x ≡ y
rand_unique_permute-injective x y e = elim (inside-or x) [
  | inl a ↦ elim (inside-or y) [
    | inl b ↦
        reflected-injective prime modulus-Prime prime-mod-four x y a b
          (sym (permute-reflected x a) ∙ e ∙ permute-reflected y b)
    | inr b ↦ absurd (omega (arith, permute_lt_prime x a, permute-outside y b, b, e))
  ]
  | inr a ↦ elim (inside-or y) [
    | inl b ↦ absurd (omega (arith, permute_lt_prime y b, permute-outside x a, a, e))
    | inr b ↦ sym (permute-outside x a) ∙ e ∙ permute-outside y b
  ]
]
