-- ===== src/Prelude/Tally.antt =====
-- Sums over a list, with which the threads in a state are counted.
use mathlib.Core.Option.{some-injective, none-ne-some}
use bits_on_demand_pte_te.Prelude.{
  ℕ, zero, suc, ◌+◌, ◌≡◌, ◌≤◌, refl, ap, List, [], ◌∷◌, some, arith,
}
use bits_on_demand_pte_te.Prelude.Lists.{get_elem?, set, length, replicate}

module _ {ℓ} {A : Type ℓ} where
  unfoldable pub tally : (A → ℕ) → List A → ℕ
  tally f [] = 0
  tally f (x ∷ xs) = f x + tally f xs

  -- An update of one element.
  pub tally-set :
      (f : A → ℕ) (xs : List A) (i : ℕ) (old new : A)
      → get_elem? xs i ≡ some old
      → tally f (set xs i new) + f old ≡ tally f xs + f new
  unfolding tally
  tally-set f [] i old new e = absurd (none-ne-some _ e)
  tally-set f (x ∷ xs) zero old new e = omega (arith, ap f (some-injective _ _ e))
  tally-set f (x ∷ xs) (suc i) old new e = omega (arith, tally-set f xs i old new e)

  -- One element of the sum.
  pub get-tally :
      (f : A → ℕ) (xs : List A) (i : ℕ) (x : A) → get_elem? xs i ≡ some x → f x ≤ tally f xs
  unfolding tally
  get-tally f [] i x e = absurd (none-ne-some _ e)
  get-tally f (y ∷ xs) zero x e = omega (arith, ap f (some-injective _ _ e))
  get-tally f (y ∷ xs) (suc i) x e = omega (arith, get-tally f xs i x e)

  pub tally_of_bits : (f : A → ℕ) (xs : List A) → ((x : A) → f x ≤ 1) → tally f xs ≤ length xs
  unfolding tally
  tally_of_bits f [] h = omega arith
  tally_of_bits f (x ∷ xs) h = omega (arith, h x, tally_of_bits f xs h)

  pub tally-replicate : (f : A → ℕ) (n : ℕ) (x : A) → f x ≡ 0 → tally f (replicate n x) ≡ 0
  unfolding tally
  tally-replicate f zero x e = refl
  tally-replicate f (suc n) x e = omega (arith, e, tally-replicate f n x e)
