-- ===== src/Rand/Examples.antt =====
-- The theorems about the random numbers at a counter in the place of the generator of 64 bits, with a
-- sum of whole numbers in the place of that of doubles.
use native.Mathlib.Nat.{mul-le-mul}
use bits_on_demand_pte_te.Prelude.{
  ℕ, ◌+◌, ◌-◌, ◌*◌, ◌/◌, ◌%◌, ◌^◌, ◌≤◌, ◌≡◌, ◌≢◌, refl, Bool, false, some, [], ◌∷◌, leb, arith,
}
use bits_on_demand_pte_te.Prelude.Lists.{length}
use bits_on_demand_pte_te.Pte.Machine.{pos}
use bits_on_demand_pte_te.Options.Names.{Text}
use bits_on_demand_pte_te.Rand.Unique.{
  Unique, rand_unique_permute, rand_unique_seed, unique_value, unique_draw, sb_rand_unique,
  unique_calls,
}
use bits_on_demand_pte_te.Rand.Unique.Distinct.{unique_draw-distinct}
use bits_on_demand_pte_te.Rand.Generate.{
  Next, Scaled, start_len, sb_rand_uniform, sb_rand_uniform_double, rand_char, sb_rand_str,
  sb_rand_varstr, sb_rand_zipfian,
}
use bits_on_demand_pte_te.Rand.Generate.Ranges.{
  IsRounded, IsWord, Between, AllBetween, sb_rand_varstr-AllBetween,
}
use bits_on_demand_pte_te.Rand.Generate.Zipf.{after, limit, Kept, sb_rand_zipfian-Between}
use bits_on_demand_pte_te.Rand.Init.{dist_type_uniform, RandArgs, RandState}

abbrev some_unique : Unique
some_unique = record { index = 4294967295; offset = 77 }

permute-run : rand_unique_permute 65537 ≡ 131078
unfolding rand_unique_permute
permute-run = refl

draw-run : unique_draw 1 (rand_unique_seed 1 2) ≡ 4281508316
unfolding unique_draw unique_calls sb_rand_unique unique_value rand_unique_seed rand_unique_permute
draw-run = refl

unique_draw-distinct_example : unique_draw 0 some_unique ≢ unique_draw 1 some_unique
unique_draw-distinct_example =
    unique_draw-distinct some_unique 0 1 (omega arith, omega arith) (omega arith) (omega arith)

abbrev counting : Next ℕ
counting n = (n * 2 ^ 60 % 2 ^ 64, n + 1)

counting-IsWord : IsWord counting
counting-IsWord n = omega arith

abbrev exact : Scaled
exact a n m = a + n * m / 2 ^ 52

self : (n : ℕ) → n ≤ n
self n = omega arith

exact-IsRounded : IsRounded exact
exact-IsRounded a n m _ _ h =
    let below : n * m ≤ n * 2 ^ 52 = mul-le-mul (self n) (omega (arith, h)) in
    (omega arith, omega (arith, below))

abbrev plate : Text
plate = b'#' ∷ b'-' ∷ b'@' ∷ []

-- The fractions are 5/16 and 6/16: a 3, the dash, and a j.
plate-run : (sb_rand_str counting exact plate 5).0 ≡ b'3' ∷ b'-' ∷ b'j' ∷ []
unfolding sb_rand_str rand_char sb_rand_uniform sb_rand_uniform_double
plate-run = refl

sb_rand_varstr-AllBetween_example :
    let v = (sb_rand_varstr counting exact 3 9 5).0 in
    Between (start_len 3 9) (9 + 1) v.0 × (length v.1 ≡ v.0) × AllBetween b'0' (b'z' + 1) v.1
sb_rand_varstr-AllBetween_example =
    sb_rand_varstr-AllBetween counting counting-IsWord exact exact-IsRounded 3 9 5 (omega arith)
      (omega arith)

abbrev third : (n m : ℕ) → ℕ
third n m = n * m / 2 ^ 52

abbrev keeps_even : (n m k : ℕ) → Bool
keeps_even n m k = leb (k % 2) 0

kept : Kept counting third keeps_even 2 (20 - 11 + 1) 5
unfolding Kept after limit sb_rand_uniform_double
kept = refl

sb_rand_zipfian-Between_example :
    (x : ℕ) × (rng' : ℕ) × (sb_rand_zipfian counting third keeps_even 3 11 20 5 ≡ some (x, rng'))
    × Between 11 20 x
sb_rand_zipfian-Between_example =
    sb_rand_zipfian-Between counting third keeps_even 3 2 11 20 5 (omega arith) (omega arith)
      (omega arith) (omega arith) kept

abbrev args : RandArgs
args = record {
  rand_seed = pos 0;
  rand_type = b'p' ∷ b'a' ∷ b'r' ∷ b'e' ∷ b't' ∷ b'o' ∷ [];
  zipf_exp_negative = false;
}

abbrev blank : RandState
blank = record {
  sb_rand_seed = pos 0;
  dist = dist_type_uniform;
  sb_rng_state = (0, 0);
  unique = some_unique;
}
