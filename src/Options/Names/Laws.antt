-- ===== src/Options/Names/Laws.antt =====
-- When two names are the same for `opt_name_cmp`.
use bits_on_demand_pte_te.Prelude.{◌<◌, ◌≡◌, ◌↔◌, refl, Bool, true, [], ◌∷◌, arith}
use bits_on_demand_pte_te.Pte.Machine.{is_zero}
use bits_on_demand_pte_te.Options.Names.{Text, convert_dashes, opt_name_cmp}

-- Strings of C: no byte is 0.
abbrev pub NoNull : Text → Type 0
NoNull [] = Unit
NoNull (c ∷ s) = (0 < c) × NoNull s

abbrev pub same_name : Text → Text → Bool
same_name s t = is_zero (opt_name_cmp s t)

convert_dashes_of_same :
    (s t : Text) → NoNull s → NoNull t → same_name s t ≡ true → convert_dashes s ≡ convert_dashes t
unfolding opt_name_cmp convert_dashes
convert_dashes_of_same [] [] p q h = refl
convert_dashes_of_same [] (d ∷ t) p q h = ground arith
convert_dashes_of_same (c ∷ s) [] p q h = ground arith
convert_dashes_of_same (c ∷ s) (d ∷ t) p q h = ground (arith, convert_dashes_of_same s t p.1 q.1)

same_of_convert_dashes :
    (s t : Text) → NoNull s → NoNull t → convert_dashes s ≡ convert_dashes t → same_name s t ≡ true
unfolding opt_name_cmp convert_dashes
same_of_convert_dashes [] [] p q h = refl
same_of_convert_dashes [] (d ∷ t) p q h = cc
same_of_convert_dashes (c ∷ s) [] p q h = cc
same_of_convert_dashes (c ∷ s) (d ∷ t) p q h = ground (arith, same_of_convert_dashes s t p.1 q.1)

-- Two names, strings without a byte 0, compare as equal exactly if they are the same string once
-- every dash in them is an underscore.
pub same_name-convert_dashes :
    (s t : Text)
    → NoNull s
    → NoNull t
    → (same_name s t ≡ true) ↔ (convert_dashes s ≡ convert_dashes t)
same_name-convert_dashes s t p q = (convert_dashes_of_same s t p q, same_of_convert_dashes s t p q)
