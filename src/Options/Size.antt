-- ===== src/Options/Size.antt =====
-- Numbers in options of sb_options.c: sizes with a unit and integers.
pub mod Value
pub mod Integer
use bits_on_demand_pte_te.Prelude.{
  ℕ, zero, suc, ◌+◌, ◌-◌, ◌*◌, ◌%◌, ◌^◌, Bool, true, false, ◌&&◌, ◌||◌, Option, none, some, List,
  [], ◌∷◌, ◌==◌, leb, ltb, if◌then◌else◌,
}
use bits_on_demand_pte_te.Pte.Machine.{ℤ, pos, negsuc}
use bits_on_demand_pte_te.Options.Names.{Text}
use bits_on_demand_pte_te.Options.Config.{is_space}

abbrev pub u64 : ℕ → ℕ
u64 n = n % 2 ^ 64

abbrev pub is_digit : ℕ → Bool
is_digit c = leb b'0' c && leb c b'9'

-- `digits` is whether a digit was met (`rc`). The result is the number and the byte of a unit, if
-- there is one (`rc == 2`).
unfoldable pub scan_size : Text → (digits : Bool) → (res : ℕ) → ℕ × Option ℕ
scan_size [] digits res = (res, none)
scan_size (c ∷ t) digits res =
    let rest = scan_size t true (u64 (u64 (res * 10) + (c - b'0'))) in
    if is_digit c then rest else (res, if digits then some c else none)

abbrev pub to_upper : ℕ → ℕ
to_upper c = if leb b'a' c && leb c b'z' then c - 32 else c

-- The factors of 1024 for a unit: its place in "KMGT", from 1 on.
unfoldable pub unit_factors : ℕ → Option ℕ
unit_factors c =
    if to_upper c == b'K'
    then some 1
    else if to_upper c == b'M'
    then some 2
    else if to_upper c == b'G'
    then some 3
    else if to_upper c == b'T'
    then some 4
    else none

-- `for (i = 0; i <= n; i++) res *= 1024;`
unfoldable pub multiply : (rounds : ℕ) → ℕ → ℕ
multiply zero res = res
multiply (suc rounds) res = multiply rounds (u64 (res * 1024))

-- `n` rounds of `multiply` for a known unit, and 0 for another one.
abbrev pub multiplied : Option ℕ → ℕ → ℕ
multiplied none res = 0
multiplied (some rounds) res = multiply rounds res

abbrev pub in_unit : ℕ × Option ℕ → ℕ
in_unit (res, none) = res
in_unit (res, some c) = multiplied (unit_factors c) res

unfoldable pub size_of_text : Text → ℕ
unfolding scan_size
size_of_text t = in_unit (scan_size t false 0)

unfoldable pub sb_opt_to_size : List Text → ℕ
unfolding size_of_text
sb_opt_to_size [] = 0
sb_opt_to_size (v ∷ vs) = size_of_text v

-- The digits that `strtol` reads, and what follows them.
unfoldable pub scan_digits : Text → (res : ℕ) → ℕ × Text
scan_digits [] res = (res, [])
scan_digits (c ∷ t) res =
    let rest = scan_digits t (res * 10 + (c - b'0')) in if is_digit c then rest else (res, c ∷ t)

unfoldable pub skip_space : Text → Text
skip_space [] = []
skip_space (c ∷ t) = let rest = skip_space t in if is_space c then rest else c ∷ t

-- Whether a text starts with a digit: without one `strtol` reads nothing.
abbrev pub starts_digit : Text → Bool
starts_digit [] = false
starts_digit (c ∷ t) = is_digit c

abbrev pub signed : Bool → ℕ → ℤ
signed negative zero = pos 0
signed true (suc n) = negsuc n
signed false (suc n) = pos (suc n)

abbrev pub clamped : ℕ → ℕ → ℕ
clamped bound n = if ltb bound n then bound else n

abbrev pub long_bound : Bool → ℕ
long_bound negative = if negative then 2 ^ 63 else 2 ^ 63 - 1

abbrev pub in_long : Bool → ℕ × Text → ℤ × Text
in_long negative (n, end) = (signed negative (clamped (long_bound negative) n), end)

unfoldable pub signed_digits : (whole : Text) → Bool → Text → ℤ × Text
unfolding scan_digits
signed_digits whole negative t =
    if starts_digit t then in_long negative (scan_digits t 0) else (pos 0, whole)

abbrev pub after_space : (whole : Text) → Text → ℤ × Text
after_space whole [] = (pos 0, whole)
after_space whole (c ∷ t) =
    if c == b'-'
    then signed_digits whole true t
    else if c == b'+'
    then signed_digits whole false t
    else signed_digits whole false (c ∷ t)

-- `strtol(t, &end, 10)` on a `long` of 64 bits: the number and the text at `end`.
unfoldable pub strtol : Text → ℤ × Text
unfolding skip_space signed_digits
strtol t = after_space t (skip_space t)

-- INT_MIN ≤ n ≤ INT_MAX
abbrev pub in_int : ℤ → Bool
in_int (pos n) = ltb n (2 ^ 31)
in_int (negsuc n) = ltb n (2 ^ 31)

-- None is the end of the program by `exit(EXIT_FAILURE)`.
abbrev pub whole_int : ℤ × Text → Option ℤ
whole_int (res, []) = if in_int res then some res else none
whole_int (res, c ∷ end) = none

unfoldable pub sb_opt_to_int : List Text → Option ℤ
unfolding strtol
sb_opt_to_int [] = some (pos 0)
sb_opt_to_int (v ∷ vs) = whole_int (strtol v)
