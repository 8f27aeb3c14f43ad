-- ===== src/Options/Store.antt =====
-- The list of options in sb_options.c. A pointer to an option is the name that finds it, and what is
-- written through the pointer goes to the first option that the name finds.
pub mod Laws
pub mod Distinct
use bits_on_demand_pte_te.Prelude.{
  ℕ, Bool, true, false, Option, none, some, List, [], ◌∷◌, ◌++◌, if◌then◌else◌,
}
use bits_on_demand_pte_te.Options.Names.{Text, convert_dashes, opt_name_cmp}
use bits_on_demand_pte_te.Pte.Machine.{is_zero}

-- sb_arg_type_t, without the bound SB_ARG_TYPE_MAX
pub data ArgType : Type 0 where
  type_null type_bool type_int type_size type_double type_string type_list type_file : ArgType

-- sb_opt_validate_t; a value may be a null pointer.
abbrev pub Validate : Type 0
Validate = Text → Option Text → Bool

-- option_t, with the strings of its value_t
pub record Entry : Type 0 where
  pub name : Text
  pub type : ArgType
  pub values : List Text
  pub ignore : Bool
  pub validate : Option Validate

abbrev pub Options : Type 0
Options = List Entry

unfoldable pub new_option : Text → Entry
new_option name = record {
  name = name;
  type = type_null;
  values = [];
  ignore = false;
  validate = none;
}

unfoldable pub find_option : Options → Text → Option Entry
unfolding opt_name_cmp
find_option [] name = none
find_option (opt ∷ options) name =
    if is_zero (opt_name_cmp opt.name name) then some opt else find_option options name

unfoldable pub add_option : Options → Text → Options
unfolding find_option new_option convert_dashes
add_option options name = elim (find_option options name) [
  | some opt ↦ options
  | none ↦ options ++ new_option (convert_dashes name) ∷ []
]

-- A write through the pointer that `find_option` or `add_option` returns.
unfoldable pub update_option : Options → Text → (Entry → Entry) → Options
unfolding opt_name_cmp
update_option [] name f = []
update_option (opt ∷ options) name f =
    if is_zero (opt_name_cmp opt.name name)
    then f opt ∷ options
    else opt ∷ update_option options name f

-- False is the result 1.
unfoldable pub remove_option : Options → Text → Options × Bool
unfolding opt_name_cmp
remove_option [] name = ([], false)
remove_option (opt ∷ options) name =
    let (rest, found) = remove_option options name in
    if is_zero (opt_name_cmp opt.name name) then (options, true) else (opt ∷ rest, found)

unfoldable pub free_values : Entry → Entry
free_values opt = record opt { values = [] }

unfoldable pub add_value : Text → Entry → Entry
add_value value opt = record opt { values = opt.values ++ value ∷ [] }
