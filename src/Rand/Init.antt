-- ===== src/Rand/Init.antt =====
-- `sb_rand_init`, `sb_rand_thread_init` and `sb_rand_default` of sb_rand.c. `random` is that of the C
-- library on a state of its own, and draws are taken in the order in which the code writes them.
pub mod Seeded
use bits_on_demand_pte_te.Prelude.{
  ℕ, ◌+◌, ◌*◌, ◌%◌, ◌^◌, Bool, true, false, Option, none, some, List, [], ◌∷◌, if◌then◌else◌,
}
use bits_on_demand_pte_te.Pte.Machine.{ℤ}
use bits_on_demand_pte_te.Options.Names.{Text}
use bits_on_demand_pte_te.Options.Set.{equal}
use bits_on_demand_pte_te.Rand.Unique.{Unique, rand_unique_seed}

-- `rand_dist_t`
pub data RandDist : Type 0 where
  dist_type_uniform : RandDist
  dist_type_gaussian : RandDist
  dist_type_pareto : RandDist
  dist_type_zipfian : RandDist

-- What is read from the options: a name of the distribution, which is taken to be there, and the outcome
-- of `zipf_exp < 0`. The parameters of the other distributions are floating-point.
pub record RandArgs : Type 0 where
  pub rand_seed : ℤ
  pub rand_type : Text
  pub zipf_exp_negative : Bool

-- The variables of the file, and the state of the generator of the thread.
pub record RandState : Type 0 where
  pub sb_rand_seed : ℤ
  pub dist : RandDist
  pub sb_rng_state : ℕ × ℕ
  pub unique : Unique

-- The distribution for its name.
unfoldable pub rand_dist_of : Text → Option RandDist
rand_dist_of s =
    if equal s (b'u' ∷ b'n' ∷ b'i' ∷ b'f' ∷ b'o' ∷ b'r' ∷ b'm' ∷ [])
    then some dist_type_uniform
    else if equal s (b'g' ∷ b'a' ∷ b'u' ∷ b's' ∷ b's' ∷ b'i' ∷ b'a' ∷ b'n' ∷ [])
    then some dist_type_gaussian
    else if equal s (b'p' ∷ b'a' ∷ b'r' ∷ b'e' ∷ b't' ∷ b'o' ∷ [])
    then some dist_type_pareto
    else if equal s (b'z' ∷ b'i' ∷ b'p' ∷ b'f' ∷ b'i' ∷ b'a' ∷ b'n' ∷ [])
    then some dist_type_zipfian
    else none

-- `rand_func(a, b)`, with one function for each distribution.
abbrev pub sb_rand_default :
    {R : Type 0} (uniform gaussian pareto zipfian : (a b : ℕ) → R → ℕ × R)
    → RandDist
    → (a b : ℕ) → R
    → ℕ × R
sb_rand_default uniform gaussian pareto zipfian dist_type_uniform = uniform
sb_rand_default uniform gaussian pareto zipfian dist_type_gaussian = gaussian
sb_rand_default uniform gaussian pareto zipfian dist_type_pareto = pareto
sb_rand_default uniform gaussian pareto zipfian dist_type_zipfian = zipfian

module _ {L : Type 0} (random : L → ℕ × L) where
  -- Two draws as the halves of 64 bits.
  unfoldable pub seed_word : L → ℕ × L
  seed_word l =
      let (high, l') = random l in
      let (low, l'') = random l' in (high * 2 ^ 32 % 2 ^ 64 + low % 2 ^ 32, l'')

  unfoldable pub sb_rand_thread_init : RandState → L → RandState × L
  unfolding seed_word
  sb_rand_thread_init st l =
      let (s0, l') = seed_word l in
      let (s1, l'') = seed_word l' in (record st { sb_rng_state = (s0, s1) }, l'')

  unfoldable pub seed_unique : RandState → L → RandState × L
  unfolding rand_unique_seed
  seed_unique st l =
      let (index, l') = random l in
      let (offset, l'') = random l' in
      (record st { unique = rand_unique_seed (index % 2 ^ 32) (offset % 2 ^ 32) }, l'')

  -- The end of `sb_rand_init`, from the exponent on.
  unfoldable pub seed_all : Bool → RandState → L → ℕ × RandState × L
  unfolding sb_rand_thread_init seed_unique
  seed_all true st l = (1, st, l)
  seed_all false st l =
      let (st', l') = sb_rand_thread_init st l in
      let (st'', l'') = seed_unique st' l' in (0, st'', l'')

  -- 0, or 1 for an invalid option.
  unfoldable pub sb_rand_init : RandArgs → RandState → L → ℕ × RandState × L
  unfolding rand_dist_of seed_all
  sb_rand_init args st l =
      let seeded = record st { sb_rand_seed = args.rand_seed } in
      elim (rand_dist_of args.rand_type) [
        | none ↦ (1, seeded, l)
        | some dist ↦ seed_all args.zipf_exp_negative (record seeded { dist = dist }) l
      ]
