-- ===== src/Rand/Generate/Zipf.antt =====
-- The rejection loop of the Zipf distribution in sb_rand.c.
use bits_on_demand_pte_te.Prelude.{
  ℕ, zero, suc, ◌+◌, ◌-◌, ◌^◌, ◌≤◌, ◌<◌, ◌≡◌, ◌∙◌, refl, ap, Bool, true, false, Bool-cases, inl,
  inr, some, arith,
}
use bits_on_demand_pte_te.Rand.Generate.{
  Next, sub32, add32, sb_rand_uniform_double, limited, from_one, sb_rand_zipfian_int,
  sb_rand_zipfian,
}
use bits_on_demand_pte_te.Rand.Generate.Ranges.{Between}

module _ {R : Type 0} (next : Next R) (candidate : (n m : ℕ) → ℕ)
    (accepts : (n m k : ℕ) → Bool) where
  -- The state of the generator after `i` numbers.
  unfoldable pub after : ℕ → R → R
  after zero rng = rng
  after (suc i) rng = after i (sb_rand_uniform_double next rng).1

  unfoldable pub limit : (n m : ℕ) → ℕ
  limit n m = limited n (candidate n m)

  -- The round with the `i`-th number keeps it.
  unfoldable pub Kept : (i n : ℕ) → R → Type 0
  unfolding sb_rand_uniform_double after limit
  Kept i n rng =
      let m = (sb_rand_uniform_double next (after i rng)).0 in accepts n m (limit n m) ≡ true

  limit-Between : (n m : ℕ) → 0 < n → Between 1 n (limit n m)
  unfolding limit
  limit-Between n m o = (ground arith, ground arith)

  -- One round.
  stops :
      (rounds n : ℕ) (rng : R)
      → let m = (sb_rand_uniform_double next rng).0 in
        accepts n m (limit n m) ≡ true
        → sb_rand_zipfian_int next candidate accepts (suc rounds) n rng
          ≡ some (limit n m, (sb_rand_uniform_double next rng).1)
  unfolding sb_rand_zipfian_int limit
  stops rounds n rng y = rw y refl

  goes_on :
      (rounds n : ℕ) (rng : R)
      → let m = (sb_rand_uniform_double next rng).0 in
        accepts n m (limit n m) ≡ false
        → sb_rand_zipfian_int next candidate accepts (suc rounds) n rng
          ≡ sb_rand_zipfian_int next candidate accepts rounds n (sb_rand_uniform_double next rng).1
  unfolding sb_rand_zipfian_int limit
  goes_on rounds n rng y = rw y refl

  Returns : (rounds n : ℕ) → R → Type 0
  Returns rounds n rng =
      (k : ℕ) × (rng' : R) × (sb_rand_zipfian_int next candidate accepts rounds n rng
        ≡ some (k, rng'))
      × Between 1 n k

  stops-Returns :
      (rounds n : ℕ) (rng : R)
      → 0 < n
      → let m = (sb_rand_uniform_double next rng).0 in
        accepts n m (limit n m) ≡ true → Returns (suc rounds) n rng
  unfolding Returns
  stops-Returns rounds n rng o y =
      let m = (sb_rand_uniform_double next rng).0 in
      (limit n m, (sb_rand_uniform_double next rng).1, stops rounds n rng y, limit-Between n m o)

  zipfian_int-Returns :
      (rounds i n : ℕ) (rng : R) → 0 < n → i < rounds → Kept i n rng → Returns rounds n rng
  unfolding Returns Kept after
  zipfian_int-Returns zero i n rng o l k = absurd (omega (arith, l))
  zipfian_int-Returns (suc rounds) zero n rng o l k = stops-Returns rounds n rng o k
  zipfian_int-Returns (suc rounds) (suc i) n rng o l k =
      let m = (sb_rand_uniform_double next rng).0 in
      elim (Bool-cases (accepts n m (limit n m))) [
        | inl y ↦ stops-Returns rounds n rng o y
        | inr y ↦
            let (x, rng', e, between) =
              zipfian_int-Returns rounds i n (sb_rand_uniform_double next rng).1 o
                (omega (arith, l)) k in
            (x, rng', goes_on rounds n rng y ∙ e, between)
      ]

  -- In a range that is not empty and not all of 32 bits, if the rejection keeps the number of one of the
  -- rounds, the Zipf distribution returns a number, and it is in the range.
  pub sb_rand_zipfian-Between :
      (rounds i a b : ℕ) (rng : R)
      → a ≤ b
      → b < 2 ^ 32
      → b - a < 2 ^ 32 - 1
      → i < rounds
      → Kept i (b - a + 1) rng
      → (x : ℕ) × (rng' : R) × (sb_rand_zipfian next candidate accepts rounds a b rng
          ≡ some (x, rng'))
        × Between a b x
  unfolding sb_rand_zipfian Returns
  sb_rand_zipfian-Between rounds i a b rng l h w r k =
      let (x, rng', e, (low, high)) =
        zipfian_int-Returns rounds i (b - a + 1) rng (omega arith) r k in
      let count : add32 (sub32 b a) 1 ≡ b - a + 1 = omega (arith, l, h, w) in
      (
        sub32 (add32 a x) 1,
        rng',
        ap (λ n. from_one a (sb_rand_zipfian_int next candidate accepts rounds n rng)) count
            ∙ ap (from_one a) e,
        (omega (arith, low, high, l, h), omega (arith, low, high, l, h)),
      )
