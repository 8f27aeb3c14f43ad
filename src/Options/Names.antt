-- ===== src/Options/Names.antt =====
-- The names of options in sb_options.c, in which a dash and an underscore are the same.
pub mod Laws
use Prim.Native.String.{String}
use Prim.Native.Char.{code}
use bits_on_demand_pte_te.Prelude.{
  ℕ, ◌-◌, Bool, ◌&&◌, ◌||◌, List, [], ◌∷◌, map, ◌==◌, leb, if◌then◌else◌,
}
use bits_on_demand_pte_te.Pte.Machine.{ℤ, pos, negsuc}

abbrev pub Text : Type 0
Text = List ℕ

-- A string of the source.
abbrev pub text : String → Text
text String.[] = []
text (String.◌∷◌ c s) = code c ∷ text s

-- `*s1 - *s2`, of which the callers only test whether it is 0.
abbrev pub difference : ℕ → ℕ → ℤ
difference a b = if leb b a then pos (a - b) else negsuc (b - a - 1)

abbrev pub underscored : ℕ → ℕ
underscored c = if c == b'-' then b'_' else c

unfoldable pub convert_dashes : Text → Text
convert_dashes = map underscored

abbrev pub is_dash : ℕ → Bool
is_dash c = c == b'-' || c == b'_'

-- The byte 0 at an end is written out.
unfoldable pub opt_name_cmp : Text → Text → ℤ
opt_name_cmp [] [] = pos 0
opt_name_cmp [] (d ∷ t) = difference 0 d
opt_name_cmp (c ∷ s) [] = difference c 0
opt_name_cmp (c ∷ s) (d ∷ t) =
    let rest = opt_name_cmp s t in
    if c == d then rest else if is_dash c && is_dash d then rest else difference c d
