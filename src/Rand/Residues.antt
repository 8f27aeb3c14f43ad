-- ===== src/Rand/Residues.antt =====
-- Remainders by a prime: inverses, and the squares of a prime of the form 4 k + 3.
use Prim.Native.Nat.{◌∣◌}
use native.Mathlib.Nat.{
  mul-le-mul, mod-add-div, mod-lt, le_of_dvd, mod-eq_of_lt, dvd-mul_left, dvd-mul_right,
  dvd-mul_right_of_dvd, dvd-add, dvd-add_iff_right, mod-eq-zero_of_dvd, mul-add-mod_self_left,
}
use bits_on_demand_pte_te.Prelude.{
  ℕ, zero, suc, ◌+◌, ◌-◌, ◌*◌, ◌/◌, ◌%◌, ◌≤◌, ◌<◌, ◌≡◌, ◌≢◌, inl, inr, refl, sym, ap, subst, ◌∙◌,
  Bool-cases, ◌==◌, leb, ltb, arith,
}
use bits_on_demand_pte_te.CpuTest.Primes.{Prime}

le_self : (n : ℕ) → n ≤ n
le_self n = omega arith

-- The other factor of a multiple.
multiple : (m n : ℕ) → m ∣ n → n ≡ m * (n / m)
multiple m n d = omega (arith, mod-add-div n m, mod-eq-zero_of_dvd m d)

-- A root of -1 may be reduced, and taken from the modulus.
root-mod : (m x : ℕ) → m ∣ x * x + 1 → m ∣ (x % m) * (x % m) + 1
root-mod m x d =
    let q = x / m in
    let r = x % m in
    let whole : r + m * q ≡ x = mod-add-div x m in
    let split : (r + m * q) * (r + m * q) + 1 ≡ m * (q * (m * q) + 2 * (q * r)) + (r * r + 1) =
      omega arith in
    (dvd-add_iff_right m (dvd-mul_right m (q * (m * q) + 2 * (q * r)))).1
      (subst (λ n. m ∣ n) (ap (λ y. y * y + 1) (sym whole) ∙ split) d)

root-neg : (s r : ℕ) → s + r ∣ r * r + 1 → s + r ∣ s * s + 1
root-neg s r d =
    let split : (s + r) * (s + r) + (r * r + 1) ≡ (2 * r) * (s + r) + (s * s + 1) = omega arith in
    (dvd-add_iff_right (s + r) (dvd-mul_left (s + r) (2 * r))).1
      (subst (λ n. s + r ∣ n) split (dvd-add (s + r) (dvd-mul_left (s + r) (s + r)) d))

-- An even root below the modulus.
EvenRoot : ℕ → Type 0
EvenRoot m = (f : ℕ) × (2 * f < m) × (m ∣ (2 * f) * (2 * f) + 1)

even_root : (m x : ℕ) → m % 4 ≡ 3 → m ∣ x * x + 1 → EvenRoot m
unfolding EvenRoot
even_root m x h d =
    let r = x % m in
    let below : r < m = mod-lt x (omega (arith, h)) in
    let root = root-mod m x d in
    elim (Bool-cases (r % 2 == 0)) [
      | inl e ↦
          let half : r ≡ 2 * (r / 2) = ground (arith, e) in
          (r / 2, omega (arith, half, below), subst (λ n. m ∣ n * n + 1) half root)
      | inr e ↦
          let s = m - r in
          let half : s ≡ 2 * (s / 2) = ground (arith, e, h, below) in
          let whole : m ≡ s + r = omega (arith, below) in
          let root' =
            subst (λ n. n ∣ s * s + 1) (sym whole)
              (root-neg s r (subst (λ n. n ∣ r * r + 1) whole root)) in
          (s / 2, ground (arith, e, half, below, h), subst (λ n. m ∣ n * n + 1) half root')
    ]

square_small : (n : ℕ) → n ≡ 0 → 9 ≤ n * n + 1 → ⊥
square_small zero e h = omega (arith, h)
square_small (suc n) e h = omega (arith, e)

quotient_lt : (m n k : ℕ) → 3 ≤ m → n < m → n * n + 1 ≡ m * k → k < m
quotient_lt m n k h l whole = elim (Bool-cases (leb m k)) [
  | inl e ↦
      let least : m * m ≤ m * k = mul-le-mul (le_self m) (ground (arith, e)) in
      let three : 3 * 3 ≤ m * m = mul-le-mul h h in
      let most : suc n * suc n ≤ m * m = mul-le-mul l l in
      let expanded : suc n * suc n ≡ n * n + 2 * n + 1 = omega arith in
      absurd (
        square_small n (omega (arith, least, most, whole, expanded))
          (omega (arith, least, three, whole)))
  | inr e ↦ ground (arith, e)
]

-- No number of the form 4 k + 3 divides a square and 1.
no_root_below : (b m x : ℕ) → m ≤ b → m % 4 ≡ 3 → m ∣ x * x + 1 → ⊥
unfolding EvenRoot
no_root_below zero m x l h d = absurd (omega (arith, l, h))
no_root_below (suc b) m x l h d =
    let (f, below, root) = even_root m x h d in
    let k = ((2 * f) * (2 * f) + 1) / m in
    let whole : (2 * f) * (2 * f) + 1 ≡ m * k = multiple m ((2 * f) * (2 * f) + 1) root in
    let a = m / 4 in
    let parts : m ≡ 4 * a + 3 = omega (arith, h) in
    let expanded : 4 * (f * f) + 1 ≡ 4 * (a * k) + 3 * k =
      omega (arith, whole, ap (λ n. n * k) parts) in
    let form : k % 4 ≡ 3 = omega (arith, expanded) in
    let smaller : k < m = quotient_lt m (2 * f) k (omega (arith, h)) below whole in
    no_root_below b k (2 * f) (omega (arith, smaller, l)) form
      (subst (λ n. k ∣ n) (sym whole) (dvd-mul_left k m))

pub no_root : (m x : ℕ) → m % 4 ≡ 3 → m ∣ x * x + 1 → ⊥
no_root m x h d = no_root_below m m x (le_self m) h d

inverse_sum :
    (p y q r r' t : ℕ)
    → 0 < p
    → r + y * q ≡ p
    → r * r' ≡ p * t + 1
    → p * r' + y * ((p - 1) * (q * r')) ≡ p * (y * (q * r') + t) + 1
inverse_sum zero y q r r' t h w o = absurd (omega (arith, h))
inverse_sum (suc p) y q r r' t h w o =
    let scaled : (r + y * q) * r' ≡ suc p * r' = ap (λ n. n * r') w in
    let left : (r + y * q) * r' ≡ r * r' + y * q * r' = omega arith in
    let right : suc p * (y * (q * r') + t) ≡ p * (y * (q * r')) + y * q * r' + suc p * t =
      omega arith in
    let less : suc p - 1 ≡ p = omega arith in
    let moved : y * (p * (q * r')) ≡ p * (y * (q * r')) = omega arith in
    let goal : suc p * r' + y * (p * (q * r')) ≡ suc p * (y * (q * r') + t) + 1 =
      omega (arith, scaled, left, right, moved, o) in
    rw less goal

-- An inverse by a prime.
inverse_below : (p : ℕ) → Prime p → (b y : ℕ) → y ≤ b → 0 < y → y < p → (z : ℕ) × ((y * z) % p ≡ 1)
inverse_below p i zero y l o h = absurd (omega (arith, l, o))
inverse_below p i (suc b) zero l o h = absurd (omega (arith, o))
inverse_below p i (suc b) (suc zero) l o h = (1, mod-eq_of_lt h)
inverse_below p i (suc b) (suc (suc y')) l o h =
    let y = suc (suc y') in
    let q = p / y in
    let r = p % y in
    let below : r < y = mod-lt p (omega arith) in
    let left : r ≢ 0 = i y (omega arith) h in
    let (r', e) =
      inverse_below p i b r (omega (arith, below, l)) (ground (arith, left))
        (omega (arith, below, h)) in
    let t = (r * r') / p in
    let z = (p - 1) * (q * r') in
    let whole : r + y * q ≡ p = mod-add-div p y in
    let one : r * r' ≡ p * t + 1 = omega (arith, mod-add-div (r * r') p, e) in
    let sum : p * r' + y * z ≡ p * (y * (q * r') + t) + 1 =
      inverse_sum p y q r r' t (omega (arith, h)) whole one in
    (
      z,
      sym (mul-add-mod_self_left p r' (y * z))
          ∙ ap (λ n. n % p) sum
          ∙ mul-add-mod_self_left p (y * (q * r') + t) 1
          ∙ mod-eq_of_lt (omega (arith, h)),
    )

pub inverse : (p : ℕ) → Prime p → (y : ℕ) → 0 < y → y < p → (z : ℕ) × ((y * z) % p ≡ 1)
inverse p i y o h = inverse_below p i y y (le_self y) o h

-- A prime that divides a product divides a factor.
pub dvd-factor : (p : ℕ) → Prime p → (a b : ℕ) → 0 < b → b < p → p ∣ a * b → p ∣ a
dvd-factor p i a b o h d =
    let (z, e) = inverse p i b o h in
    let t = (b * z) / p in
    let one : b * z ≡ p * t + 1 = omega (arith, mod-add-div (b * z) p, e) in
    let whole : (a * b) * z ≡ p * (a * t) + a =
      let regroup : (a * b) * z ≡ a * (b * z) = omega arith in
      let expand : a * (p * t + 1) ≡ p * (a * t) + a = omega arith in
      regroup ∙ ap (λ n. a * n) one ∙ expand in
    (dvd-add_iff_right p (dvd-mul_right p (a * t))).1
      (subst (λ n. p ∣ n) whole (dvd-mul_right_of_dvd p d z))

-- A prime of the form 4 k + 3 divides no sum of two squares of which it does not divide one.
pub no_square_sum :
    (p : ℕ) → Prime p → p % 4 ≡ 3 → (x y : ℕ) → 0 < y → y < p → p ∣ x * x + y * y → ⊥
no_square_sum p i f x y o h d =
    let (z, e) = inverse p i y o h in
    let t = (y * z) / p in
    let one : y * z ≡ p * t + 1 = omega (arith, mod-add-div (y * z) p, e) in
    let whole : (x * x + y * y) * (z * z) ≡ p * (t * (p * t) + 2 * t) + ((x * z) * (x * z) + 1) =
      let regroup : (x * x + y * y) * (z * z) ≡ (x * z) * (x * z) + (y * z) * (y * z) =
        omega arith in
      let expand : (x * z) * (x * z) + (p * t + 1) * (p * t + 1)
          ≡ p * (t * (p * t) + 2 * t) + ((x * z) * (x * z) + 1) =
        omega arith in
      regroup ∙ ap (λ n. (x * z) * (x * z) + n * n) one ∙ expand in
    no_root p (x * z) f (
      (dvd-add_iff_right p (dvd-mul_right p (t * (p * t) + 2 * t))).1
        (subst (λ n. p ∣ n) whole (dvd-mul_right_of_dvd p d (z * z))))

same_remainder : (p a w : ℕ) → a % p ≡ (a + w) % p → p ∣ w
same_remainder p a w e =
    let whole : p * ((a + w) / p) ≡ p * (a / p) + w =
      omega (arith, mod-add-div a p, mod-add-div (a + w) p, e) in
    (dvd-add_iff_right p (dvd-mul_right p (a / p))).1
      (subst (λ n. p ∣ n) whole (dvd-mul_right p ((a + w) / p)))

zero_of_dvd : (p d : ℕ) → p ∣ d → d < p → d ≡ 0
zero_of_dvd p zero m h = refl
zero_of_dvd p (suc d) m h = absurd (omega (arith, le_of_dvd (omega arith) m, h))

-- Two numbers below a prime whose squares have the same remainder are the same, unless their sum is the
-- prime.
pub same_square :
    (p : ℕ)
    → Prime p
    → (x d : ℕ) → x + d < p
    → (x * x) % p ≡ ((x + d) * (x + d)) % p
    → x + (x + d) ≢ p
    → d ≡ 0
same_square p i x d h e n =
    let s = x + (x + d) in
    let expand : (x + d) * (x + d) ≡ x * x + d * (x + (x + d)) = omega arith in
    let multiple_of : p ∣ d * s = same_remainder p (x * x) (d * s) (e ∙ ap (λ m. m % p) expand) in
    elim (Bool-cases (ltb s p)) [
      | inl low ↦ elim (Bool-cases (ltb 0 s)) [
        | inl some_sum ↦
            zero_of_dvd p d
              (dvd-factor p i d s (ground (arith, some_sum)) (ground (arith, low)) multiple_of)
              (omega (arith, h))
        | inr none ↦ ground (arith, none)
      ]
      | inr high ↦
          let b = s - p in
          let split : d * s ≡ p * d + d * b =
            let sum : s ≡ p + b = ground (arith, high) in
            let dist : d * (p + b) ≡ p * d + d * b = omega arith in ap (λ m. d * m) sum ∙ dist in
          let factor =
            (dvd-add_iff_right p (dvd-mul_right p d)).1 (subst (λ m. p ∣ m) split multiple_of) in
          zero_of_dvd p d (dvd-factor p i d b (ground (arith, high, n)) (omega (arith, h)) factor)
            (omega (arith, h))
    ]
