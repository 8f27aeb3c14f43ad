-- ===== src/Options/Set/Equal.antt =====
-- The comparison of strings with `strcmp` in sb_options.c and sb_rand.c.
use bits_on_demand_pte_te.Prelude.{
  ◌≡◌, refl, ap, ◌∙◌, true, Bool-cases, inl, inr, [], ◌∷◌, ◌==◌, arith,
}
use bits_on_demand_pte_te.Options.Names.{Text}
use bits_on_demand_pte_te.Options.Set.{equal}

pub equal_sound : (s t : Text) → equal s t ≡ true → s ≡ t
equal_sound [] [] h = refl
equal_sound [] (d ∷ t) h = absurd (cc h)
equal_sound (c ∷ s) [] h = absurd (cc h)
equal_sound (c ∷ s) (d ∷ t) h = elim (Bool-cases (c == d)) [
  | inr apart ↦ absurd (cc (rw apart at h))
  | inl same ↦
      let head : c ≡ d = ground (arith, same) in
      ap (λ x. x ∷ s) head ∙ ap (λ r. d ∷ r) (equal_sound s t (rw same at h))
]
