-- ===== src/Main/CommandLine/Known.antt =====
-- What `parse_option` of sysbench.c does to an option.
use bits_on_demand_pte_te.Prelude.{
  ℕ, ◌≡◌, ◌≢◌, refl, ap, ◌∙◌, Bool, true, false, Option, none, some, ◌∷◌, ◌++◌, ◌==◌, if◌then◌else◌,
}
use bits_on_demand_pte_te.Options.Names.{Text}
use bits_on_demand_pte_te.Options.Names.Laws.{NoNull, same_name, same_name-convert_dashes}
use bits_on_demand_pte_te.Options.Store.{type_string, type_file, Entry, Options, find_option}
use bits_on_demand_pte_te.Options.Store.Laws.{Named, found_or_new}
use bits_on_demand_pte_te.Options.Config.RoundTrip.{NoneOf, break_at-append}
use bits_on_demand_pte_te.Options.Set.{
  is_accepted, values_of, first_of, set_option, sb_get_value_string,
}
use bits_on_demand_pte_te.Options.Set.Lookup.{assigned, is_assigned, find_option-set_option}
use bits_on_demand_pte_te.Main.CommandLine.{split_option, with_value, set_found, parse_option}

-- `name=value`
abbrev pub assignment : Text → Text → Text
assignment name value = name ++ b'=' ∷ value

split_option-assignment :
    (name value : Text)
    → NoneOf (λ c. c == b'=') name
    → split_option (assignment name value) ≡ (name, some value)
unfolding split_option
split_option-assignment name value h =
    ap with_value (break_at-append (λ c. c == b'=') name b'=' value h refl)

-- The values of a string that is not empty.
assigned-string :
    (opt : Entry) (n : Text) (c : ℕ) (v : Text)
    → opt.type ≡ type_string
    → opt.validate ≡ none
    → (first_of (assigned opt n (some (c ∷ v)) opt.type).values ≡ some (c ∷ v))
      × (is_assigned opt n (some (c ∷ v)) opt.type ≡ true)
unfolding is_accepted values_of
assigned-string opt n c v t e =
    let accepted : is_accepted opt n (some (c ∷ v)) ≡ true = rw e refl in
    (rw (accepted, t) refl, rw (accepted, t) refl)

module _ (read_file : Text → Option Text) where
  -- The option is there.
  set_option-found :
      (options : Options) (n : Text) (value : Option Text) (opt : Entry)
      → Named options
      → NoNull n
      → find_option options n ≡ some opt
      → opt.type ≢ type_file
      → (find_option (set_option read_file options n value opt.type).0 n
          ≡ some (assigned opt n value opt.type))
        × ((set_option read_file options n value opt.type).1 ≡ is_assigned opt n value opt.type)
  set_option-found options n value opt a p e t =
      let (found, ok) = find_option-set_option read_file options n n value opt.type t a p p in
      let same : same_name n n ≡ true = (same_name-convert_dashes n n p p).1 refl in
      let old : found_or_new options n ≡ opt = rw (e, found_or_new) refl in
      (
        found
            ∙ ap
                (λ b.
                  if b
                  then some (assigned (found_or_new options n) n value opt.type)
                  else find_option options n)
                same
            ∙ ap (λ o. some (assigned o n value opt.type)) old,
        ok ∙ ap (λ o. is_assigned o n value opt.type) old,
      )

  parse_option-found :
      (options : Options) (arg n : Text) (value : Option Text) (ignore_unknown : Bool) (opt : Entry)
      → split_option arg ≡ (n, value)
      → find_option options n ≡ some opt
      → parse_option read_file options arg ignore_unknown
        ≡ set_option read_file options n value opt.type
  unfolding parse_option set_found
  parse_option-found options arg n value ignore_unknown opt s e =
      ap (λ pair. set_found read_file options pair ignore_unknown (find_option options pair.0)) s
      ∙ ap (set_found read_file options (n, value) ignore_unknown) e

  -- An argument for a known option, which is not a file, on options whose names and the one given have
  -- no byte 0. Afterwards the option of the name has its old type and the values of the string, or none
  -- if its validator refuses the string or the string is none of the type; exactly then the
  -- result is not 0.
  pub parse_option-assigned :
      (options : Options) (arg n : Text) (value : Option Text) (ignore_unknown : Bool) (opt : Entry)
      → split_option arg ≡ (n, value)
      → Named options
      → NoNull n
      → find_option options n ≡ some opt
      → opt.type ≢ type_file
      → let (options', ok) = parse_option read_file options arg ignore_unknown in
        (find_option options' n ≡ some (assigned opt n value opt.type))
        × (ok ≡ is_assigned opt n value opt.type)
  parse_option-assigned options arg n value ignore_unknown opt s a p e t =
      let whole = parse_option-found options arg n value ignore_unknown opt s e in
      let (found, ok) = set_option-found options n value opt a p e t in
      (ap (λ r. find_option r.0 n) whole ∙ found, ap (λ r. r.1) whole ∙ ok)

  -- An unknown option is refused, and the options stay.
  pub parse_option-unknown :
      (options : Options) (arg n : Text) (value : Option Text)
      → split_option arg ≡ (n, value)
      → find_option options n ≡ none
      → parse_option read_file options arg false ≡ (options, false)
  unfolding parse_option set_found
  parse_option-unknown options arg n value s e =
      ap (λ pair. set_found read_file options pair false (find_option options pair.0)) s
      ∙ ap (set_found read_file options (n, value) false) e

  -- The argument `name=value` for a known option of type string without a validator, where no option's
  -- name has a byte 0, the name has neither that nor a `=`, and the value is not empty: the result is 0,
  -- and the option's value is the one of the argument.
  pub parse_option-string :
      (options : Options) (n : Text) (c : ℕ) (v : Text) (opt : Entry)
      → Named options
      → NoNull n
      → NoneOf (λ d. d == b'=') n
      → find_option options n ≡ some opt
      → opt.type ≡ type_string
      → opt.validate ≡ none
      → let (options', ok) = parse_option read_file options (assignment n (c ∷ v)) false in
        (ok ≡ true) × (sb_get_value_string options' n ≡ some (c ∷ v))
  unfolding sb_get_value_string
  parse_option-string options n c v opt a p h e t w =
      let (found, ok) =
        parse_option-assigned options (assignment n (c ∷ v)) n (some (c ∷ v)) false opt
          (split_option-assignment n (c ∷ v) h) a p e (not_file t) in
      let (first, good) = assigned-string opt n c v t w in
      (ok ∙ good, ap (λ r. elim r [ none ↦ none | some o ↦ first_of o.values ]) found ∙ first)
    where
      not_file : opt.type ≡ type_string → opt.type ≢ type_file
      not_file x y = cc
