-- ===== src/Rand/Init/Seeded.antt =====
-- What `sb_rand_init` of sb_rand.c leaves for the generators.
use bits_on_demand_pte_te.Prelude.{
  ℕ, zero, suc, ◌+◌, ◌*◌, ◌%◌, ◌^◌, ◌≡◌, true, false, Option, none, some,
}
use bits_on_demand_pte_te.Options.Names.{Text, text}
use bits_on_demand_pte_te.Rand.Unique.{rand_unique_seed}
use bits_on_demand_pte_te.Rand.Unique.Distinct.{IsWords}
use bits_on_demand_pte_te.Rand.Init.{
  RandDist, dist_type_uniform, dist_type_gaussian, dist_type_pareto, dist_type_zipfian, RandArgs,
  RandState,
}

-- The names of the distributions.
pub data IsName : Text → RandDist → Type 0 where
  uniform : IsName (text "uniform") dist_type_uniform
  gaussian : IsName (text "gaussian") dist_type_gaussian
  pareto : IsName (text "pareto") dist_type_pareto
  zipfian : IsName (text "zipfian") dist_type_zipfian

-- A text is one of the names, or none of them.
Classified : Text → Option RandDist → Type 0
Classified s (some dist) = IsName s dist
Classified s none = (dist : RandDist) → IsName s dist → ⊥

module _ {L : Type 0} (random : L → ℕ × L) where
  -- The state of the C library's generator after `n` numbers, and the number that comes then.
  abbrev pub after_draws : (n : ℕ) → L → L
  after_draws zero l = l
  after_draws (suc n) l = after_draws n (random l).1

  abbrev pub draw : (n : ℕ) → L → ℕ
  draw n l = (random (after_draws n l)).0

  -- 64 bits of two numbers' low halves.
  abbrev pub halves : (high low : ℕ) → ℕ
  halves high low = (high % 2 ^ 32) * 2 ^ 32 + low % 2 ^ 32

  -- The seeding with six numbers.
  pub record IsSeeded (l : L) (dist : RandDist) (st : RandState) (l' : L) : Type 0 where
    pub named : st.dist ≡ dist
    pub first : st.sb_rng_state.0 ≡ halves (draw 0 l) (draw 1 l)
    pub second : st.sb_rng_state.1 ≡ halves (draw 2 l) (draw 3 l)
    pub unique : st.unique ≡ rand_unique_seed (draw 4 l % 2 ^ 32) (draw 5 l % 2 ^ 32)
    pub words : IsWords st.unique
    pub taken : l' ≡ after_draws 6 l

  -- The results of `sb_rand_init`.
  pub data Outcome (args : RandArgs) (st : RandState) (l : L) : ℕ × RandState × L → Type 0 where
    seeded :
        {dist : RandDist} {st' : RandState} {l' : L}
        → IsName args.rand_type dist
        → args.zipf_exp_negative ≡ false
        → IsSeeded l dist st' l'
        → Outcome args st l (0, st', l')
    no_exponent :
        {dist : RandDist} {st' : RandState}
        → IsName args.rand_type dist
        → args.zipf_exp_negative ≡ true
        → st'.sb_rng_state ≡ st.sb_rng_state
        → st'.unique ≡ st.unique
        → Outcome args st l (1, st', l)
    no_name :
        {st' : RandState}
        → ((dist : RandDist) → IsName args.rand_type dist → ⊥)
        → st'.sb_rng_state ≡ st.sb_rng_state
        → st'.unique ≡ st.unique
        → Outcome args st l (1, st', l)
