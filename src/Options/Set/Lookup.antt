-- ===== src/Options/Set/Lookup.antt =====
-- The option that a name finds after set_option of sb_options.c.
use mathlib.Core.Option
use bits_on_demand_pte_te.Prelude.{
  ◌≡◌, ◌≢◌, refl, Bool, true, false, Bool-cases, inl, inr, Option, none, some, List, [], ◌&&◌,
  if◌then◌else◌,
}
use bits_on_demand_pte_te.Options.Names.{Text}
use bits_on_demand_pte_te.Options.Names.Laws.{NoNull, same_name, same_name-convert_dashes}
use bits_on_demand_pte_te.Options.Store.{
  ArgType, type_null, type_bool, type_int, type_size, type_double, type_string, type_list,
  type_file, Entry, Options, find_option, add_option, update_option,
}
use bits_on_demand_pte_te.Options.Store.Laws.{
  Named, found_or_new, find_option-add_option, find_option-update_option, Named-add_option,
  Named-update_option,
}
use bits_on_demand_pte_te.Options.Set.{values_of, is_accepted, read_config_file, set_option}

-- The entry that `set_option` leaves for the one it found or made, and whether it succeeds.
abbrev pub with_values : Option (List Text) → Entry → Entry
with_values none opt = opt
with_values (some values) opt = record opt { values = values }

abbrev pub is_some : Option (List Text) → Bool
is_some none = false
is_some (some values) = true

abbrev pub emptied : ArgType → Entry → Entry
emptied type opt = record opt { values = []; type = type }

abbrev pub assigned : Entry → Text → Option Text → ArgType → Entry
assigned opt name value type =
    if is_accepted opt name value
    then with_values (values_of type value) (emptied type opt)
    else emptied type opt

abbrev pub is_assigned : Entry → Text → Option Text → ArgType → Bool
is_assigned opt name value type = is_accepted opt name value && is_some (values_of type value)

read_config_file-other :
    (read_file : Text → Option Text) (type : ArgType) (value : Option Text) (options : Options)
    → type ≢ type_file
    → read_config_file read_file type value options ≡ options
unfolding read_config_file
read_config_file-other read_file type_file value options h = absurd (h refl)
read_config_file-other read_file type_null value options h = refl
read_config_file-other read_file type_bool value options h = refl
read_config_file-other read_file type_int value options h = refl
read_config_file-other read_file type_size value options h = refl
read_config_file-other read_file type_double value options h = refl
read_config_file-other read_file type_string value options h = refl
read_config_file-other read_file type_list value options h = refl

-- A write to the option that `add_option` returns.
find_option-update_added :
    (options : Options) (n m : Text) (f : Entry → Entry)
    → ((opt : Entry) → (f opt).name ≡ opt.name)
    → Named options
    → NoNull n
    → NoNull m
    → find_option (update_option (add_option options n) n f) m
      ≡ (if same_name n m then some (f (found_or_new options n)) else find_option options m)
find_option-update_added options n m f k a p q =
    let added = find_option-add_option options n m a p q in
    let updated =
      find_option-update_option (add_option options n) n m f k (Named-add_option options n a p) p
        q in
    elim (Bool-cases (same_name n m)) [
      | inl alike ↦ rw (updated, added, alike) refl
      | inr apart ↦ rw (updated, added, apart) refl
    ]

Named-added :
    (options : Options) (n : Text) (f : Entry → Entry)
    → ((opt : Entry) → (f opt).name ≡ opt.name)
    → Named options
    → NoNull n
    → Named (update_option (add_option options n) n f)
Named-added options n f k a p =
    Named-update_option (add_option options n) n f k (Named-add_option options n a p)

-- Two writes to the same name.
chosen_twice :
    (b : Bool) (opt : Entry) (old : Option Entry) (f : Entry → Entry)
    → (if b then Option.map f (if b then some opt else old) else if b then some opt else old)
      ≡ (if b then some (f opt) else old)
chosen_twice true opt old f = refl
chosen_twice false opt old f = refl

found_self :
    (options : Options) (n : Text) (f : Entry → Entry)
    → ((opt : Entry) → (f opt).name ≡ opt.name)
    → Named options
    → NoNull n
    → find_option (update_option (add_option options n) n f) n ≡ some (f (found_or_new options n))
found_self options n f k a p =
    rw (find_option-update_added options n n f k a p p, (same_name-convert_dashes n n p p).1 refl)
      refl

-- `set_option` for a string type, a flag, a number, a list or an unknown type, where the options'
-- names, the option's name and the name looked up are strings without a byte 0. Afterwards a name
-- that is the same as the option's finds the entry that was there, or a new one, with the new type
-- and with the values of the string; with the new type and no values, if the entry's validator
-- refuses the string or the string is none of the type, and exactly then the call fails. Every other
-- name finds what it found before.
pub find_option-set_option :
    (read_file : Text → Option Text) (options : Options) (n m : Text) (value : Option Text)
    (type : ArgType)
    → type ≢ type_file
    → Named options
    → NoNull n
    → NoNull m
    → (find_option (set_option read_file options n value type).0 m ≡ (
        if same_name n m
        then some (assigned (found_or_new options n) n value type)
        else find_option options m))
      × ((set_option read_file options n value type).1
          ≡ is_assigned (found_or_new options n) n value type)
unfolding set_option is_accepted
find_option-set_option read_file options n m value type h a p q =
    rw (found_self options n (emptied type) (λ opt. refl) a p)
      (by_result (is_accepted (found_or_new options n) n value) (values_of type value))
  where
    by_result :
        (b : Bool) (r : Option (List Text))
        → let added = update_option (add_option options n) n (emptied type) in
          let result : Options × Bool =
            if b
            then (elim r [
              | none ↦ (added, false)
              | some values ↦ (
                read_config_file read_file type value
                    (update_option added n (λ opt. record opt { values = values })),
                true,
              )
            ])
            else (added, false) in
          (find_option result.0 m ≡ (
            if same_name n m
            then some (
                if b
                then with_values r (emptied type (found_or_new options n))
                else emptied type (found_or_new options n))
            else find_option options m))
          × (result.1 ≡ (b && is_some r))
    by_result false r =
        (find_option-update_added options n m (emptied type) (λ opt. refl) a p q, refl)
    by_result true none =
        (find_option-update_added options n m (emptied type) (λ opt. refl) a p q, refl)
    by_result true (some values) =
        let added = update_option (add_option options n) n (emptied type) in
        let g : Entry → Entry = λ opt. record opt { values = values } in
        (
          rw
              (
                read_config_file-other read_file type value (update_option added n g) h,
                find_option-update_option added n m g (λ opt. refl)
                    (Named-added options n (emptied type) (λ opt. refl) a p) p q,
                find_option-update_added options n m (emptied type) (λ opt. refl) a p q,
              )
              (chosen_twice (same_name n m) (emptied type (found_or_new options n))
                (find_option options m) g),
          refl,
        )
