-- ===== src/Options/Set.antt =====
-- Setting options and reading them in sb_options.c: `set_option`, the tables of defaults, and the
-- functions that return a value. `read_file` gives the bytes of a configuration file, or none if it
-- cannot be opened.
pub mod Lookup
pub mod Unique
pub mod Values
pub mod Equal
use bits_on_demand_pte_te.Prelude.{
  ℕ, zero, suc, ◌+◌, ◌-◌, ◌*◌, ◌^◌, ◌<◌, Bool, true, false, not, ◌&&◌, ◌||◌, Option, none, some,
  List, [], ◌∷◌, ◌++◌, ◌==◌, leb, ltb, if◌then◌else◌,
}
use bits_on_demand_pte_te.Pte.Machine.{ℤ, pos, negsuc}
use bits_on_demand_pte_te.Options.Names.{Text}
use bits_on_demand_pte_te.Options.Store.{
  ArgType, type_null, type_bool, type_int, type_size, type_double, type_string, type_list,
  type_file, Validate, Entry, Options, find_option, add_option, update_option,
}
use bits_on_demand_pte_te.Options.Config.{is_space, read_config}

-- `!strcmp(value, …)`
abbrev pub equal : Text → Text → Bool
equal [] [] = true
equal (c ∷ s) (d ∷ t) = c == d && equal s t
equal _ _ = false

abbrev pub on : Text
on = b'o' ∷ b'n' ∷ []

abbrev pub is_on : Text → Bool
is_on v = equal v on || (equal v (b't' ∷ b'r' ∷ b'u' ∷ b'e' ∷ []) || equal v (b'1' ∷ []))

abbrev pub is_off : Text → Bool
is_off v =
    equal v (b'o' ∷ b'f' ∷ b'f' ∷ [])
    || (equal v (b'f' ∷ b'a' ∷ b'l' ∷ b's' ∷ b'e' ∷ []) || equal v (b'0' ∷ []))

abbrev pub with_token : Text → List Text → List Text
with_token [] vs = vs
with_token (c ∷ s) vs = (c ∷ s) ∷ vs

-- The strings that `strtok(…, ",")` returns, with the one that it has begun.
unfoldable pub tokens : Text → (begun : Text) → List Text
tokens [] begun = with_token begun []
tokens (d ∷ t) begun =
    let next = tokens t [] in
    let longer = tokens t (begun ++ d ∷ []) in if d == b',' then with_token begun next else longer

-- The values for a type and a string, or none where `set_option` fails. A type other than a flag
-- takes a missing or empty string for no value.
unfoldable pub values_of : ArgType → Option Text → Option (List Text)
unfolding tokens
values_of type_bool none = some (on ∷ [])
values_of type_bool (some v) =
    if is_on v then some (on ∷ []) else if is_off v then some [] else none
values_of type none = some []
values_of type (some []) = some []
values_of type_null (some v) = none
values_of type_int (some v) = some (v ∷ [])
values_of type_size (some v) = some (v ∷ [])
values_of type_double (some v) = some (v ∷ [])
values_of type_string (some v) = some (v ∷ [])
values_of type_list (some v) = some (tokens v [])
values_of type_file (some v) = some []

-- `opt->validate != NULL && !opt->validate(name, value)` is false.
unfoldable pub is_accepted : Entry → Text → Option Text → Bool
is_accepted opt name value = elim opt.validate [ none ↦ true | some validate ↦ validate name value ]

abbrev pub accepted_by : Option Entry → Text → Option Text → Bool
accepted_by none name value = true
accepted_by (some opt) name value = is_accepted opt name value

-- The file of an option of type SB_ARG_TYPE_FILE is read; a failure is not noticed.
unfoldable pub read_config_file : (Text → Option Text) → ArgType → Option Text → Options → Options
unfolding read_config
read_config_file read_file type_file (some (c ∷ v)) options = elim (read_file (c ∷ v)) [
  | none ↦ options
  | some file ↦ (read_config file options).0
]
read_config_file read_file type value options = options

-- False is a null pointer.
unfoldable pub set_option :
    (Text → Option Text) → Options → Text → Option Text → ArgType → Options × Bool
unfolding add_option update_option is_accepted values_of read_config_file
set_option read_file options name value type =
    let added =
      update_option (add_option options name) name
        (λ opt. record opt { values = []; type = type }) in
    if accepted_by (find_option added name) name value
    then (elim (values_of type value) [
      | none ↦ (added, false)
      | some values ↦ (
        read_config_file read_file type value
            (update_option added name (λ opt. record opt { values = values })),
        true,
      )
    ])
    else (added, false)

-- sb_arg_t without its description
pub record Arg : Type 0 where
  pub name : Text
  pub value : Option Text
  pub type : ArgType
  pub validate : Option Validate

-- SB_OPT
abbrev pub sb_opt : Text → Option Text → ArgType → Arg
sb_opt name value type = record { name = name; value = value; type = type; validate = none }

-- The loop over the rest of a table; `validate` is that of the table's first entry. False is the
-- result 1.
unfoldable pub register_args :
    (Text → Option Text) → (validate : Option Validate) → List Arg → Options → Options × Bool
unfolding set_option
register_args read_file validate [] options = (options, true)
register_args read_file validate (arg ∷ args) options =
    let (options', ok) = set_option read_file options arg.name arg.value arg.type in
    let rest =
      register_args read_file validate args
        (update_option options' arg.name (λ opt. record opt { validate = validate })) in
    if ok then rest else (options', false)

unfoldable pub sb_register_arg_set : (Text → Option Text) → List Arg → Options → Options × Bool
unfolding register_args
sb_register_arg_set read_file [] options = (options, true)
sb_register_arg_set read_file (arg ∷ args) options =
    register_args read_file arg.validate (arg ∷ args) options

abbrev pub first_of : List Text → Option Text
first_of [] = none
first_of (v ∷ vs) = some v

unfoldable pub sb_get_value_flag : Options → Text → Bool
sb_get_value_flag options name = elim (find_option options name) [
  | none ↦ false
  | some opt ↦ elim opt.values [ [] ↦ false | v ∷ vs ↦ true ]
]

unfoldable pub sb_get_value_string : Options → Text → Option Text
sb_get_value_string options name = elim (find_option options name) [
  | none ↦ none
  | some opt ↦ first_of opt.values
]

unfoldable pub sb_get_value_list : Options → Text → Option (List Text)
sb_get_value_list options name = elim (find_option options name) [
  | none ↦ none
  | some opt ↦ some opt.values
]

unfoldable pub sb_opt_copy : (Text → Option Text) → Options → (to from : Text) → Options × Bool
unfolding set_option
sb_opt_copy read_file options to from = elim (find_option options from) [
  | none ↦ (options, false)
  | some opt ↦ ((set_option read_file options to (first_of opt.values) opt.type).0, true)
]
