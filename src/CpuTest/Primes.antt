-- ===== src/CpuTest/Primes.antt =====
-- What an event of sb_cpu.c counts.
use native.Mathlib.Nat.{mul-le-mul, mod-add-div, mul-mod_left}
use bits_on_demand_pte_te.Prelude.{
  eq_of_==, ℕ, zero, suc, ◌+◌, ◌-◌, ◌*◌, ◌/◌, ◌%◌, ◌≤◌, ◌<◌, ◌≡◌, ◌≢◌, ◌⊎◌, refl, ap, subst, ◌∙◌,
  Bool, true, false, Bool-cases, inl, inr, some, ◌==◌, leb, arith,
}
use bits_on_demand_pte_te.CpuTest.{divide, count, cpu_execute_event}

-- No number from 2 to `c - 1` divides `c`.
abbrev pub Prime : ℕ → Type 0
Prime c = (d : ℕ) → 2 ≤ d → d < c → c % d ≢ 0

-- `l <= sqrt(c)`, exactly
abbrev pub IsRoot : ((l c : ℕ) → Bool) → Type 0
IsRoot within_root = (l c : ℕ) → within_root l c ≡ leb (l * l) c

abbrev pub Clear : ℕ → ℕ → Type 0
Clear l c = (d : ℕ) → l ≤ d → d * d ≤ c → c % d ≢ 0

square_le : (a b : ℕ) → a ≤ b → a * a ≤ b * b
square_le a b h = mul-le-mul h h

refl_le : (n : ℕ) → n ≤ n
refl_le n = omega arith

two_le : (d q c : ℕ) → d * q ≡ c → d < c → 2 ≤ q
two_le d zero c w l = absurd (omega (arith, w, l))
two_le d (suc zero) c w l = absurd (omega (arith, w, l))
two_le d (suc (suc q)) c w l = omega arith

cofactor_le : (d q c : ℕ) → d * q ≡ c → c < d * d → q ≤ d
cofactor_le d q c w l = elim (Bool-cases (leb q d)) [
  | inl e ↦ ground (arith, e)
  | inr e ↦
      let more : d * d ≤ d * q = mul-le-mul (refl_le d) (ground (arith, e)) in
      absurd (omega (arith, more, w, l))
]

-- With no divisor up to its root a number is prime: another one would have a cofactor below.
pub Prime-of_Clear : (c : ℕ) → Clear 2 c → Prime c
Prime-of_Clear c k d h l e = elim (Bool-cases (leb (d * d) c)) [
  | inl small ↦ k d h (ground arith) e
  | inr large ↦
      let q = c / d in
      let whole : d * q ≡ c = omega (arith, mod-add-div c d, e) in
      let cofactor : q ≤ d = cofactor_le d q c whole (ground (arith, large)) in
      let below : q * q ≤ d * q = mul-le-mul cofactor (refl_le q) in
      k q (two_le d q c whole l) (omega (arith, below, whole))
        (subst (λ x. x % q ≡ 0) whole (mul-mod_left d q))
]

-- A divisor up to the root.
Divided : ℕ → ℕ → Type 0
Divided l c = (d : ℕ) × (l ≤ d) × (d * d ≤ c) × (c % d ≡ 0)

not-Prime : (c : ℕ) → Divided 2 c → Prime c → ⊥
unfolding Divided
not-Prime c (d, h, s, e) p =
    let twice : 2 * d ≤ d * d = mul-le-mul h (refl_le d) in p d h (omega (arith, twice, s, h)) e

module _ (within_root : (l c : ℕ) → Bool) (exact : IsRoot within_root) where
  divide-out : (r l c : ℕ) → leb (l * l) c ≡ false → divide within_root (suc r) l c ≡ some true
  unfolding divide
  divide-out r l c out = rw (exact l c, out) refl

  divide-stops :
      (r l c : ℕ)
      → leb (l * l) c ≡ true
      → (c % l == 0) ≡ true
      → divide within_root (suc r) l c ≡ some false
  unfolding divide
  divide-stops r l c root divides = rw (exact l c, root, divides) refl

  divide-goes_on :
      (r l c : ℕ)
      → leb (l * l) c ≡ true
      → (c % l == 0) ≡ false
      → divide within_root (suc r) l c ≡ divide within_root r (l + 1) c
  unfolding divide
  divide-goes_on r l c root remains = rw (exact l c, root, remains) refl

  Clear-next : (l c : ℕ) → (c % l == 0) ≡ false → Clear (l + 1) c → Clear l c
  Clear-next l c remains k d h s = elim (Bool-cases (d == l)) [
    | inl same ↦ λ z.
        let z' : c % l ≡ 0 = subst (λ x. c % x ≡ 0) (eq_of_== d l same) z in
        absurd (ground (arith, z', remains))
    | inr apart ↦ k d (ground (arith, apart, h)) s
  ]

  Clear-out : (l c : ℕ) → leb (l * l) c ≡ false → Clear l c
  Clear-out l c out d h s =
      let far : l * l ≤ d * d = mul-le-mul h h in absurd (ground (arith, far, s, out))

  Divided-next : (l c : ℕ) → Divided (l + 1) c → Divided l c
  unfolding Divided
  Divided-next l c (d, h, s, e) = (d, omega (arith, h), s, e)

  Divided-here : (l c : ℕ) → leb (l * l) c ≡ true → (c % l == 0) ≡ true → Divided l c
  unfolding Divided
  Divided-here l c root divides = (l, refl_le l, ground (arith, root), ground (arith, divides))

  -- The rounds are enough, and the result says whether there is a divisor.
  divide-decides :
      (r l c : ℕ)
      → 1 ≤ l
      → l ≤ c + 1
      → c + 1 < l + r
      → ((divide within_root r l c ≡ some true) × Clear l c)
        ⊎ ((divide within_root r l c ≡ some false) × Divided l c)
  divide-decides zero l c o h w = absurd (omega (arith, h, w))
  divide-decides (suc r) l c o h w = elim (Bool-cases (leb (l * l) c)) [
    | inr out ↦ inl (divide-out r l c out, Clear-out l c out)
    | inl root ↦ elim (Bool-cases (c % l == 0)) [
      | inl divides ↦ inr (divide-stops r l c root divides, Divided-here l c root divides)
      | inr remains ↦
          let up : 1 * l ≤ l * l = mul-le-mul o (refl_le l) in
          elim (divide-decides r (l + 1) c (omega arith) (ground (arith, up, root))
            (omega (arith, w))) [
              | inl (e, k) ↦ inl (divide-goes_on r l c root remains ∙ e, Clear-next l c remains k)
              | inr (e, k) ↦ inr (divide-goes_on r l c root remains ∙ e, Divided-next l c k)
            ]
    ]
  ]

-- `n` of the `k` numbers from `c` on are prime.
pub data PrimesFrom : (c k n : ℕ) → Type 0 where
  empty : {c : ℕ} → PrimesFrom c 0 0
  prime : {c k n : ℕ} → Prime c → PrimesFrom (c + 1) k n → PrimesFrom c (suc k) (suc n)
  composite : {c k n : ℕ} → (Prime c → ⊥) → PrimesFrom (c + 1) k n → PrimesFrom c (suc k) n

count-PrimesFrom :
    (within_root : (l c : ℕ) → Bool)
    → IsRoot within_root
    → (k c n : ℕ) → 3 ≤ c
    → (m : ℕ) × (count within_root k c n ≡ some (n + m)) × PrimesFrom c k m
unfolding count
count-PrimesFrom within_root exact zero c n h = (0, ap some (omega arith), empty)
count-PrimesFrom within_root exact (suc k) c n h =
    elim (divide-decides within_root exact c 2 c (omega arith) (omega (arith, h))
      (omega (arith, h))) [
        | inl (e, clear) ↦
            let (m, counted, primes) =
              count-PrimesFrom within_root exact k (c + 1) (n + 1) (omega (arith, h)) in
            (suc m, rw e (counted ∙ ap some (omega arith)), prime (Prime-of_Clear c clear) primes)
        | inr (e, divided) ↦
            let (m, counted, primes) =
              count-PrimesFrom within_root exact k (c + 1) n (omega (arith, h)) in
            (m, rw e counted, composite (not-Prime c divided) primes)
      ]

-- If the comparison with the square root is exact, an event of the processor test ends, and the number
-- that it counts is the number of primes from 3 to below the limit. The numbers of rounds given to the
-- loop of the divisors are enough.
pub cpu_execute_event-PrimesFrom :
    (within_root : (l c : ℕ) → Bool) (max_prime : ℕ)
    → IsRoot within_root
    → (n : ℕ) × (cpu_execute_event within_root max_prime ≡ some n) × PrimesFrom 3 (max_prime - 3) n
unfolding cpu_execute_event
cpu_execute_event-PrimesFrom within_root max_prime exact =
    let (n, counted, primes) =
      count-PrimesFrom within_root exact (max_prime - 3) 3 0 (omega arith) in
    (n, counted ∙ ap some (omega arith), primes)
