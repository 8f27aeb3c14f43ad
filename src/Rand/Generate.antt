-- ===== src/Rand/Generate.antt =====
-- The generators of sb_rand.c and sb_rand.h: `sb_rand_uniform`, `sb_rand_str`, `sb_rand_varstr` and the
-- Zipf distribution. The generator of 64 bits of xoroshiro128plus.h and the arithmetic on doubles are
-- parameters.
pub mod Ranges
pub mod Zipf
use bits_on_demand_pte_te.Prelude.{
  ℕ, zero, suc, ◌+◌, ◌-◌, ◌/◌, ◌%◌, ◌^◌, Bool, true, false, Option, none, some, List, [], ◌∷◌, ◌==◌,
  leb, ltb, if◌then◌else◌,
}
use bits_on_demand_pte_te.Options.Names.{Text}

-- `xoroshiro_next` gives 64 bits and the next state.
abbrev pub Next : Type 0 → Type 0
Next R = R → ℕ × R

-- `scaled a n m` is the whole part of the sum of `a` and the product of m / 2^52 and `n` in doubles.
abbrev pub Scaled : Type 0
Scaled = (a n m : ℕ) → ℕ

-- `x - y` and `x + y` on 32 bits without a sign
abbrev pub sub32 : ℕ → ℕ → ℕ
sub32 x y = (x + (2 ^ 32 - y)) % 2 ^ 32

abbrev pub add32 : ℕ → ℕ → ℕ
add32 x y = (x + y) % 2 ^ 32

-- The lower bound of the length of `sb_rand_varstr`, and the limits on `k` of the Zipf distribution.
abbrev pub start_len : (min_len max_len : ℕ) → ℕ
start_len min_len max_len = if ltb max_len min_len then 1 else min_len

abbrev pub limited : (n k : ℕ) → ℕ
limited n k = if ltb k 1 then 1 else if ltb n k then n else k

-- `a + k - 1` for the number that is returned.
abbrev pub from_one : {R : Type 0} → ℕ → Option (ℕ × R) → Option (ℕ × R)
from_one a none = none
from_one a (some (k, rng)) = some (sub32 (add32 a k) 1, rng)

module _ {R : Type 0} (next : Next R) where
  -- The fraction of `sb_rand_uniform_double`, in units of 2^-52: the 52 high bits are the fraction of a
  -- double from 1 to below 2, and 1 is taken off.
  unfoldable pub sb_rand_uniform_double : R → ℕ × R
  sb_rand_uniform_double rng = let (x, rng') = next rng in (x / 2 ^ 12, rng')

  module _ (scaled : Scaled) where
    -- The conversion to 32 bits of a larger sum, which C leaves open, is taken to wrap.
    unfoldable pub sb_rand_uniform : (a b : ℕ) → R → ℕ × R
    unfolding sb_rand_uniform_double
    sb_rand_uniform a b rng =
        let (m, rng') = sb_rand_uniform_double rng in
        (scaled a (add32 (sub32 b a) 1) m % 2 ^ 32, rng')

    -- One character of the format.
    unfoldable pub rand_char : ℕ → R → ℕ × R
    unfolding sb_rand_uniform
    rand_char c rng =
        let (digit, after_digit) = sb_rand_uniform b'0' b'9' rng in
        let (letter, after_letter) = sb_rand_uniform b'a' b'z' rng in
        if c == b'#'
        then (digit % 256, after_digit)
        else if c == b'@'
        then (letter % 256, after_letter)
        else (c, rng)

    -- What is written to `buf`.
    unfoldable pub sb_rand_str : Text → R → Text × R
    unfolding rand_char
    sb_rand_str [] rng = ([], rng)
    sb_rand_str (c ∷ fmt) rng =
        let (d, rng') = rand_char c rng in
        let (buf, rng'') = sb_rand_str fmt rng' in (d ∷ buf, rng'')

    unfoldable pub rand_chars : ℕ → R → Text × R
    unfolding sb_rand_uniform
    rand_chars zero rng = ([], rng)
    rand_chars (suc n) rng =
        let (c, rng') = sb_rand_uniform b'0' b'z' rng in
        let (buf, rng'') = rand_chars n rng' in (c % 256 ∷ buf, rng'')

    -- The number of characters, and what is written to `buf`.
    unfoldable pub sb_rand_varstr : (min_len max_len : ℕ) → R → (ℕ × Text) × R
    unfolding sb_rand_uniform rand_chars
    sb_rand_varstr min_len max_len rng =
        let (num_chars, rng') = sb_rand_uniform (start_len min_len max_len) max_len rng in
        let (buf, rng'') = rand_chars num_chars rng' in
        if max_len == 0 then ((0, []), rng) else ((num_chars, buf), rng'')

  -- `candidate n m` is the whole part of the sum of the sample of the fraction `m` and 1/2, and `accepts`
  -- says whether the rejection keeps the limited number.
  module _ (candidate : (n m : ℕ) → ℕ) (accepts : (n m k : ℕ) → Bool) where
    -- The endless loop, with `rounds` for it.
    unfoldable pub sb_rand_zipfian_int : (rounds n : ℕ) → R → Option (ℕ × R)
    unfolding sb_rand_uniform_double
    sb_rand_zipfian_int zero n rng = none
    sb_rand_zipfian_int (suc rounds) n rng =
        let (m, rng') = sb_rand_uniform_double rng in
        let k = limited n (candidate n m) in
        let again = sb_rand_zipfian_int rounds n rng' in
        if accepts n m k then some (k, rng') else again

    unfoldable pub sb_rand_zipfian : (rounds a b : ℕ) → R → Option (ℕ × R)
    unfolding sb_rand_zipfian_int
    sb_rand_zipfian rounds a b rng =
        from_one a (sb_rand_zipfian_int rounds (add32 (sub32 b a) 1) rng)
