-- ===== src/Rand/Generate/Ranges.antt =====
-- The ranges of the uniform numbers and of the random strings of sb_rand.c.
use bits_on_demand_pte_te.Prelude.{
  ℕ, zero, suc, ◌+◌, ◌-◌, ◌/◌, ◌%◌, ◌^◌, ◌≤◌, ◌<◌, ◌≡◌, ◌≢◌, refl, sym, subst, false, Bool-cases,
  inl, inr, [], ◌∷◌, ◌==◌, eq_of_==, arith,
}
use bits_on_demand_pte_te.Prelude.Lists.{length}
use bits_on_demand_pte_te.Options.Names.{Text}
use bits_on_demand_pte_te.Rand.Generate.{
  Next, Scaled, sub32, add32, sb_rand_uniform_double, sb_rand_uniform, rand_char, sb_rand_str,
  rand_chars, start_len, sb_rand_varstr,
}

-- Doubles are rounded to the nearest, so the sum does not leave the interval whose ends are integers.
abbrev pub IsRounded : Scaled → Type 0
IsRounded scaled =
    (a n m : ℕ) → a < 2 ^ 32 → n < 2 ^ 32 → m < 2 ^ 52 → (a ≤ scaled a n m) × (scaled a n m ≤ a + n)

-- A state of the generator gives 64 bits.
abbrev pub IsWord : {R : Type 0} → Next R → Type 0
IsWord next = (rng : _) → (next rng).0 < 2 ^ 64

fraction_lt : (x : ℕ) → x < 2 ^ 64 → x / 2 ^ 12 < 2 ^ 52
fraction_lt x h = omega (arith, h)

abbrev pub Between : (lo hi x : ℕ) → Type 0
Between lo hi x = (lo ≤ x) × (x ≤ hi)

-- The characters of a buffer.
pub data AllBetween (lo hi : ℕ) : Text → Type 0 where
  none_left : AllBetween lo hi []
  one_more : {c : ℕ} {t : Text} → Between lo hi c → AllBetween lo hi t → AllBetween lo hi (c ∷ t)

-- How a buffer follows a format.
pub data Follows : (fmt buf : Text) → Type 0 where
  ends : Follows [] []
  digit :
      {d : ℕ} {fmt buf : Text}
      → Between b'0' (b'9' + 1) d
      → Follows fmt buf
      → Follows (b'#' ∷ fmt) (d ∷ buf)
  letter :
      {d : ℕ} {fmt buf : Text}
      → Between b'a' (b'z' + 1) d
      → Follows fmt buf
      → Follows (b'@' ∷ fmt) (d ∷ buf)
  copied :
      {c : ℕ} {fmt buf : Text} → c ≢ b'#' → c ≢ b'@' → Follows fmt buf → Follows (c ∷ fmt) (c ∷ buf)

count_of : (a b : ℕ) → a ≤ b → b < 2 ^ 32 - 1 → add32 (sub32 b a) 1 ≡ b - a + 1
count_of a b l h = omega (arith, l, h)

keeps_word : (v b : ℕ) → v ≤ b + 1 → b < 2 ^ 32 - 1 → v % 2 ^ 32 ≡ v
keeps_word v b l h = omega (arith, l, h)

keeps_byte : (lo hi v : ℕ) → hi < 256 → Between lo hi v → Between lo hi (v % 256)
keeps_byte lo hi v f (l, u) = (omega (arith, l, u, f), omega (arith, l, u, f))

module _ {R : Type 0} (next : Next R) (words : IsWord next) (scaled : Scaled)
    (rounded : IsRounded scaled) where
  -- A uniform number of a range that is not empty and that ends below 2 ^ 32 - 1 is not below the
  -- range, and at most one above it.
  pub sb_rand_uniform-Between :
      (a b : ℕ) (rng : R)
      → a ≤ b
      → b < 2 ^ 32 - 1
      → Between a (b + 1) (sb_rand_uniform next scaled a b rng).0
  unfolding sb_rand_uniform sb_rand_uniform_double
  sb_rand_uniform-Between a b rng l h =
      let m = (next rng).0 / 2 ^ 12 in
      let n = add32 (sub32 b a) 1 in
      let count = count_of a b l h in
      let (low, high) =
        rounded a n m (omega (arith, l, h)) (omega (arith, count, h))
          (fraction_lt (next rng).0 (words rng)) in
      let top : scaled a n m ≤ b + 1 = omega (arith, high, count, l) in
      let word = keeps_word (scaled a n m) b top h in
      (omega (arith, word, low), omega (arith, word, top))

  -- For the whole range of 32 bits, every number is 0.
  pub sb_rand_uniform-whole : (rng : R) → (sb_rand_uniform next scaled 0 (2 ^ 32 - 1) rng).0 ≡ 0
  unfolding sb_rand_uniform sb_rand_uniform_double
  sb_rand_uniform-whole rng =
      let (low, high) =
        rounded 0 0 ((next rng).0 / 2 ^ 12) (omega arith) (omega arith)
          (fraction_lt (next rng).0 (words rng)) in
      omega (arith, high)

  byte-Between :
      (a b : ℕ) (rng : R)
      → a ≤ b
      → b < 255
      → Between a (b + 1) ((sb_rand_uniform next scaled a b rng).0 % 256)
  byte-Between a b rng l h =
      keeps_byte a (b + 1) (sb_rand_uniform next scaled a b rng).0 (omega (arith, h))
        (sb_rand_uniform-Between a b rng l (omega (arith, h)))

  rand_char-Follows :
      (c : ℕ) (rng : R) (fmt buf : Text)
      → Follows fmt buf
      → Follows (c ∷ fmt) ((rand_char next scaled c rng).0 ∷ buf)
  unfolding rand_char
  rand_char-Follows c rng fmt buf rest = elim (Bool-cases (c == b'#')) [
    | inl y ↦ rw y (
        subst (λ x. Follows (x ∷ fmt) ((sb_rand_uniform next scaled b'0' b'9' rng).0 % 256 ∷ buf))
          (sym (eq_of_== c b'#' y))
          (digit (byte-Between b'0' b'9' rng (omega arith) (omega arith)) rest))
    | inr n ↦ elim (Bool-cases (c == b'@')) [
      | inl y ↦
          rw (n, y)
            (subst
              (λ x. Follows (x ∷ fmt) ((sb_rand_uniform next scaled b'a' b'z' rng).0 % 256 ∷ buf))
              (sym (eq_of_== c b'@' y))
              (letter (byte-Between b'a' b'z' rng (omega arith) (omega arith)) rest))
      | inr n' ↦ rw (n, n') (copied (λ e. ground (arith, e, n)) (λ e. ground (arith, e, n')) rest)
    ]
  ]

  -- What is written for a format has its length. Each # gives a character from 0 to the one behind
  -- 9, each @ one from a to the one behind z, and every other character stays.
  pub sb_rand_str-Follows : (fmt : Text) (rng : R) → Follows fmt (sb_rand_str next scaled fmt rng).0
  unfolding sb_rand_str
  sb_rand_str-Follows [] rng = ends
  sb_rand_str-Follows (c ∷ fmt) rng =
      let step = rand_char next scaled c rng in
      rand_char-Follows c rng fmt (sb_rand_str next scaled fmt step.1).0
        (sb_rand_str-Follows fmt step.1)

  rand_chars-AllBetween :
      (n : ℕ) (rng : R)
      → (length (rand_chars next scaled n rng).0 ≡ n)
        × AllBetween b'0' (b'z' + 1) (rand_chars next scaled n rng).0
  unfolding rand_chars
  rand_chars-AllBetween zero rng = (refl, none_left)
  rand_chars-AllBetween (suc n) rng =
      let (len, chars) = rand_chars-AllBetween n (sb_rand_uniform next scaled b'0' b'z' rng).1 in
      (omega (arith, len), one_more (byte-Between b'0' b'z' rng (omega arith) (omega arith)) chars)

  -- The generator gives words of 64 bits, and a sum in doubles does not leave the interval whose ends
  -- are integers. If the largest length is not 0 and is below 2 ^ 32 - 1, the length that is returned
  -- is that of the string that is written, is at most one above the largest length and is not below
  -- the smallest one, which is 1 where it was above the largest. The characters go from 0 to the one
  -- behind z.
  pub sb_rand_varstr-AllBetween :
      (min_len max_len : ℕ) (rng : R)
      → 0 < max_len
      → max_len < 2 ^ 32 - 1
      → let v = (sb_rand_varstr next scaled min_len max_len rng).0 in
        Between (start_len min_len max_len) (max_len + 1) v.0
        × (length v.1 ≡ v.0)
        × AllBetween b'0' (b'z' + 1) v.1
  unfolding sb_rand_varstr
  sb_rand_varstr-AllBetween min_len max_len rng o h =
      let some_room : (max_len == 0) ≡ false = ground (arith, o) in
      let from = start_len min_len max_len in
      let drawn = sb_rand_uniform next scaled from max_len rng in
      let (len, chars) = rand_chars-AllBetween drawn.0 drawn.1 in
      rw some_room (sb_rand_uniform-Between from max_len rng (ground (arith, o)) h, len, chars)
