-- ===== src/Options/Examples.antt =====
-- The theorems about the options at two options, `a-b` and `size`.
use bits_on_demand_pte_te.Prelude.{
  ℕ, ◌≤◌, ◌≡◌, refl, ap, true≢false, true, false, Option, none, some, List, [], ◌∷◌, ◌++◌,
  if◌then◌else◌, arith,
}
use bits_on_demand_pte_te.Options.Names.{Text}
use bits_on_demand_pte_te.Options.Names.Laws.{NoNull, same_name}
use bits_on_demand_pte_te.Options.Store.{
  ArgType, type_size, type_list, Entry, Options, find_option, add_option, update_option,
}
use bits_on_demand_pte_te.Options.Store.Laws.{found_or_new}
use bits_on_demand_pte_te.Options.Store.Distinct.{IsMap}
use bits_on_demand_pte_te.Options.Config.{ends_value, read_config, write_line, write_values}
use bits_on_demand_pte_te.Options.Config.RoundTrip.{NoneOf, Plain, read_config-write_line}
use bits_on_demand_pte_te.Options.Set.{set_option, Arg, sb_register_arg_set}
use bits_on_demand_pte_te.Options.Set.Values.{
  HasValues, allows, entry_after, succeeds, set_option-HasValues,
}
use bits_on_demand_pte_te.Prelude.Lists.{length}
use bits_on_demand_pte_te.Options.Set.Unique.{initial, set, registered, Reachable-IsMap}
use bits_on_demand_pte_te.Options.Size.{is_digit, size_of_text, sb_opt_to_int}
use bits_on_demand_pte_te.Options.Size.Value.{AllDigits, sized, decimal, size_of_text-digits}
use bits_on_demand_pte_te.Options.Size.Integer.{with_sign, int_value, sb_opt_to_int-digits}

abbrev dashed : Text
dashed = b'a' ∷ b'-' ∷ b'b' ∷ []

abbrev scored : Text
scored = b'a' ∷ b'_' ∷ b'b' ∷ []

abbrev size : Text
size = b's' ∷ []

dashed-NoNull : NoNull dashed
dashed-NoNull = (omega arith, (omega arith, (omega arith, tt)))

scored-NoNull : NoNull scored
scored-NoNull = (omega arith, (omega arith, (omega arith, tt)))

size-NoNull : NoNull size
size-NoNull = (omega arith, tt)

find_option-nil : (name : Text) → find_option [] name ≡ none
unfolding find_option
find_option-nil name = refl

two-AllDigits : AllDigits (b'1' ∷ b'2' ∷ [])
two-AllDigits = (refl, (refl, tt))

abbrev no_files : Text → Option Text
no_files name = none

abbrev table : List Arg
table =
    record { name = dashed; value = some (b'1' ∷ []); type = type_list; validate = none }
    ∷ record { name = size; value = none; type = type_size; validate = none }
    ∷ []

abbrev options : Options
options =
    (set_option no_files (sb_register_arg_set no_files table []).0 scored
      (some (b'2' ∷ b',' ∷ b'3' ∷ [])) type_list).0

Reachable-IsMap_example : IsMap options
Reachable-IsMap_example =
    Reachable-IsMap no_files options
      (λ name file e.
        absurd (true≢false (ap (λ (r : Option Text). elim r [ none ↦ true | some l ↦ false ]) e)))
      (set scored (some (b'2' ∷ b',' ∷ b'3' ∷ [])) type_list scored-NoNull
        (registered table (dashed-NoNull, (size-NoNull, tt)) initial))

abbrev one : Options
one =
    record {
      name = scored;
      type = type_list;
      values = (b'1' ∷ []) ∷ [];
      ignore = false;
      validate = none;
    }
    ∷ []

set_option-HasValues_example :
    (r : Option (List Text)) × HasValues type_list (some (b'2' ∷ [])) r
    × (find_option (set_option no_files one dashed (some (b'2' ∷ [])) type_list).0 scored ≡ (
        if same_name dashed scored
        then some (
            let opt = found_or_new one dashed in
            entry_after opt type_list (allows opt.validate dashed (some (b'2' ∷ []))) r)
        else find_option one scored))
    × ((set_option no_files one dashed (some (b'2' ∷ [])) type_list).1
        ≡ succeeds (allows (found_or_new one dashed).validate dashed (some (b'2' ∷ []))) r)
set_option-HasValues_example =
    set_option-HasValues no_files one dashed scored (some (b'2' ∷ [])) type_list
      (λ e. absurd (true≢false (ap (λ (t : ArgType). elim t [ type_list ↦ true | _ ↦ false ]) e)))
      (scored-NoNull, tt) dashed-NoNull scored-NoNull

not_end : (c : ℕ) → is_digit c ≡ true → ends_value c ≡ false
not_end c h = ground arith

digits-NoneOf : (t : Text) → AllDigits t → NoneOf ends_value t
digits-NoneOf [] p = tt
digits-NoneOf (c ∷ t) p = (not_end c p.0, digits-NoneOf t p.1)

digit-Plain : (c : ℕ) (t : Text) → AllDigits (c ∷ t) → Plain (c ∷ t)
digit-Plain c t p = (
  (λ e. absurd (ground arith)),
  (λ e. absurd (ground arith)),
  (λ e. absurd (ground arith)),
  digits-NoneOf (c ∷ t) p,
)

abbrev two_values : Entry
two_values = record {
  name = size;
  type = type_list;
  values = (b'2' ∷ []) ∷ (b'3' ∷ b'4' ∷ []) ∷ [];
  ignore = false;
  validate = none;
}

two_values_fit : length (write_line two_values) ≤ 255
unfolding write_line write_values
two_values_fit = omega arith

read_config-write_line_example : read_config (write_line two_values) [] ≡ (
  update_option
      (add_option [] (size ++ 32 ∷ []))
      (size ++ 32 ∷ [])
      (λ o. record o { values = two_values.values }),
  true,
)
read_config-write_line_example =
    read_config-write_line two_values [] (refl, tt) (refl, tt)
      (digit-Plain b'2' [] (refl, tt), (digit-Plain b'3' (b'4' ∷ []) (refl, (refl, tt)), tt))
      two_values_fit

-- "12k" is 12288 and "-7" is -7.
size_of_text-digits_example :
    size_of_text ((b'1' ∷ b'2' ∷ []) ++ b'k' ∷ []) ≡ sized (b'1' ∷ b'2' ∷ []) (b'k' ∷ [])
size_of_text-digits_example = size_of_text-digits (b'1' ∷ b'2' ∷ []) (b'k' ∷ []) two-AllDigits refl

sb_opt_to_int-digits_example :
    sb_opt_to_int (with_sign true ((b'7' ∷ []) ++ []) ∷ [])
    ≡ int_value true (decimal 0 (b'7' ∷ [])) []
sb_opt_to_int-digits_example = sb_opt_to_int-digits true b'7' [] [] [] (refl, tt) refl
