-- ===== src/Options/Size/Value.antt =====
-- The number that sb_opt_to_size of sb_options.c takes a string for.
use bits_on_demand_pte_te.Prelude.{
  ℕ, zero, suc, ◌+◌, ◌-◌, ◌*◌, ◌^◌, ◌≡◌, refl, sym, ap, ◌∙◌, true, false, Option, none, some, [],
  ◌∷◌, ◌++◌, arith, ◌==◌, ◌||◌, ◌≤◌, if◌then◌else◌,
}
use native.Mathlib.Nat.{pow-suc, pow-succ', mul_assoc}
use bits_on_demand_pte_te.Options.Names.{Text}
use bits_on_demand_pte_te.Options.Size.{
  u64, is_digit, scan_size, unit_factors, multiplied, in_unit, multiply, size_of_text, starts_digit,
  to_upper,
}

abbrev pub AllDigits : Text → Type 0
AllDigits [] = Unit
AllDigits (c ∷ t) = (is_digit c ≡ true) × AllDigits t

-- The decimal number of the digits behind those of `n`.
abbrev pub decimal : ℕ → Text → ℕ
decimal n [] = n
decimal n (c ∷ t) = decimal (n * 10 + (c - b'0')) t

u64-digit : (n d : ℕ) → u64 (u64 (u64 n * 10) + d) ≡ u64 (n * 10 + d)
u64-digit n d = omega arith

u64-1024 : (n : ℕ) → u64 (u64 n * 1024) ≡ u64 (n * 1024)
u64-1024 n = omega arith

multiply-u64 : (k n : ℕ) → multiply k (u64 n) ≡ u64 (n * 1024 ^ k)
unfolding multiply
multiply-u64 zero n = ap u64 (omega (arith, pow-suc 1024 0))
multiply-u64 (suc k) n =
    ap (multiply k) (u64-1024 n)
    ∙ multiply-u64 k (n * 1024)
    ∙ ap u64 (mul_assoc n 1024 (1024 ^ k) ∙ ap (λ x. n * x) (sym (pow-succ' 1024 k)))

-- The byte that ends the digits.
abbrev pub unit_of : Text → Option ℕ
unit_of [] = none
unit_of (c ∷ t) = some c

scan_size-digits :
    (ds r : Text) (n : ℕ)
    → AllDigits ds
    → starts_digit r ≡ false
    → scan_size (ds ++ r) true (u64 n) ≡ (u64 (decimal n ds), unit_of r)
unfolding scan_size
scan_size-digits [] [] n p h = refl
scan_size-digits [] (c ∷ r) n p h = rw h refl
scan_size-digits (d ∷ ds) r n p h =
    rw (p.0, u64-digit n (d - b'0')) (scan_size-digits ds r (n * 10 + (d - b'0')) p.1 h)

-- The power of 1024 that a letter stands for.
abbrev pub unit_power : ℕ → Option ℕ
unit_power c =
    if c == b'K' || c == b'k'
    then some 1
    else if c == b'M' || c == b'm'
    then some 2
    else if c == b'G' || c == b'g'
    then some 3
    else if c == b'T' || c == b't'
    then some 4
    else none

upper : (c k : ℕ) → b'A' ≤ k → k ≤ b'Z' → (to_upper c == k) ≡ (c == k || c == k + 32)
upper c k l h = ground (arith, l, h)

unit_factors-unit_power : (c : ℕ) → unit_factors c ≡ unit_power c
unfolding unit_factors
unit_factors-unit_power c =
    rw
      (
        upper c b'K' (omega arith) (omega arith),
        upper c b'M' (omega arith) (omega arith),
        upper c b'G' (omega arith) (omega arith),
        upper c b'T' (omega arith) (omega arith),
      )
      refl

-- What stands for the number `n` of a string's digits and the unit behind them.
abbrev pub scaled : ℕ → Option ℕ → ℕ
scaled n none = 0
scaled n (some k) = u64 (n * 1024 ^ k)

abbrev pub sized : Text → Text → ℕ
sized [] r = 0
sized (d ∷ ds) [] = u64 (decimal 0 (d ∷ ds))
sized (d ∷ ds) (c ∷ r) = scaled (decimal 0 (d ∷ ds)) (unit_power c)

multiplied-u64 : (n : ℕ) (u : Option ℕ) → multiplied u (u64 n) ≡ scaled n u
multiplied-u64 n none = refl
multiplied-u64 n (some k) = multiply-u64 k n

scan_size-none :
    (c : ℕ) (r : Text) → starts_digit (c ∷ r) ≡ false → scan_size (c ∷ r) false 0 ≡ (0, none)
unfolding scan_size
scan_size-none c r h = rw h refl

scan_size-whole :
    (d : ℕ) (ds r : Text)
    → AllDigits (d ∷ ds)
    → starts_digit r ≡ false
    → scan_size ((d ∷ ds) ++ r) false 0 ≡ (u64 (decimal 0 (d ∷ ds)), unit_of r)
unfolding scan_size
scan_size-whole d ds r p h =
    rw (p.0, u64-digit 0 (d - b'0')) (scan_size-digits ds r (0 * 10 + (d - b'0')) p.1 h)

-- A size is the string's leading digits `ds` and the text `r` behind them. Its value modulo 2^64 is
-- the decimal number of the digits, if the string ends there; that number times 1024 once for K or k,
-- twice for M, three times for G and four times for T, if that letter follows, whatever stands behind
-- it; 0 if another byte follows or if there is no digit.
pub size_of_text-digits :
    (ds r : Text) → AllDigits ds → starts_digit r ≡ false → size_of_text (ds ++ r) ≡ sized ds r
unfolding size_of_text scan_size
size_of_text-digits [] [] p h = refl
size_of_text-digits [] (c ∷ r) p h = ap in_unit (scan_size-none c r h)
size_of_text-digits (d ∷ ds) [] p h = ap in_unit (scan_size-whole d ds [] p h)
size_of_text-digits (d ∷ ds) (c ∷ r) p h =
    ap in_unit (scan_size-whole d ds (c ∷ r) p h)
    ∙ multiplied-u64 (decimal 0 (d ∷ ds)) (unit_factors c)
    ∙ ap (scaled (decimal 0 (d ∷ ds))) (unit_factors-unit_power c)
