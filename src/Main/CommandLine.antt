-- ===== src/Main/CommandLine.antt =====
-- The command line in sysbench.c: `parse_option`, `parse_general_arguments` and `parse_test_arguments`.
-- `argv` is the list of the arguments behind the program's name, none for one that was set to NULL.
pub mod Names
pub mod Consumed
pub mod Known
use bits_on_demand_pte_te.Prelude.{
  Bool, true, false, ◌&&◌, Option, none, some, List, [], ◌∷◌, ◌++◌, ◌==◌, if◌then◌else◌,
}
use bits_on_demand_pte_te.Prelude.Lists.{drop}
use bits_on_demand_pte_te.Options.Names.{Text}
use bits_on_demand_pte_te.Options.Store.{Entry, Options, type_string, find_option}
use bits_on_demand_pte_te.Options.Config.{break_at}
use bits_on_demand_pte_te.Options.Set.{Arg, set_option, sb_register_arg_set}

-- `!strncmp(arg, "--", 2)`
abbrev pub is_option : Text → Bool
is_option [] = false
is_option (c ∷ []) = false
is_option (c ∷ d ∷ t) = c == b'-' && d == b'-'

-- The name up to the first `=`, and the value behind it.
abbrev pub with_value : Text × Text → Text × Option Text
with_value (name, []) = (name, none)
with_value (name, d ∷ value) = (name, some value)

unfoldable pub split_option : Text → Text × Option Text
unfolding break_at
split_option arg = with_value (break_at (λ c. c == b'=') arg)

-- The variables that the two passes share.
pub record CommandLine : Type 0 where
  pub options : Options
  pub testname : Option Text
  pub cmdname : Option Text
  pub argv : List (Option Text)

abbrev pub continue : Option CommandLine → (CommandLine → Option CommandLine) → Option CommandLine
continue none k = none
continue (some st) k = k st

module _ (read_file : Text → Option Text) where
  -- What is set for the option that was found, or none; true is the result 0.
  unfoldable pub set_found : Options → Text × Option Text → Bool → Option Entry → Options × Bool
  unfolding set_option
  set_found options (name, value) ignore_unknown none =
      if ignore_unknown
      then set_option read_file options name value type_string
      else (options, false)
  set_found options (name, value) ignore_unknown (some opt) =
      set_option read_file options name value opt.type

  unfoldable pub parse_option : Options → Text → (ignore_unknown : Bool) → Options × Bool
  unfolding split_option find_option set_found
  parse_option options arg ignore_unknown =
      let pair = split_option arg in
      set_found options pair ignore_unknown (find_option options pair.0)

  -- An argument that is no option.
  abbrev pub name_argument : CommandLine → Text → Option CommandLine
  name_argument st arg = elim st.testname [
    | none ↦ some (record st { testname = some arg; argv = st.argv ++ some arg ∷ [] })
    | some t ↦ elim st.cmdname [
      | none ↦ some (record st { cmdname = some arg; argv = st.argv ++ some arg ∷ [] })
      | some c ↦ none
    ]
  ]

  -- An option that is known and can be set is taken from `argv`.
  unfoldable pub option_argument : CommandLine → Text → CommandLine
  unfolding parse_option
  option_argument st arg =
      let (options', ok) = parse_option st.options (drop 2 arg) false in
      record st { options = options'; argv = st.argv ++ (if ok then none else some arg) ∷ [] }

  unfoldable pub general_argument : CommandLine → Text → Option CommandLine
  unfolding option_argument
  general_argument st arg =
      if is_option arg then some (option_argument st arg) else name_argument st arg

  unfoldable pub general_arguments : List Text → CommandLine → Option CommandLine
  unfolding general_argument
  general_arguments [] st = some st
  general_arguments (arg ∷ args) st = continue (general_argument st arg) (general_arguments args)

  -- None is the result 1.
  unfoldable pub parse_general_arguments :
      (general_args : List Arg) → Options → List Text → Option CommandLine
  unfolding general_arguments sb_register_arg_set
  parse_general_arguments general_args options args =
      let (options', ok) = sb_register_arg_set read_file general_args options in
      if ok
      then general_arguments args
          (record { options = options'; testname = none; cmdname = none; argv = [] })
      else none

  -- The loop of `parse_test_arguments`, with the arguments before the place.
  unfoldable pub test_arguments :
      (before argv : List (Option Text)) → Options → Option (Options × List (Option Text))
  unfolding parse_option
  test_arguments before [] options = some (options, before)
  test_arguments before (none ∷ argv) options = test_arguments (before ++ none ∷ []) argv options
  test_arguments before (some arg ∷ argv) options =
      let (options', ok) = parse_option options (drop 2 arg) false in
      let taken = test_arguments (before ++ none ∷ []) argv options' in
      let kept = test_arguments (before ++ some arg ∷ []) argv options in
      if is_option arg then if ok then taken else none else kept

  unfoldable pub parse_test_arguments :
      (test_args : List Arg) → CommandLine → Option (Options × List (Option Text))
  unfolding test_arguments sb_register_arg_set
  parse_test_arguments test_args st =
      let (options', ok) = sb_register_arg_set read_file test_args st.options in
      if ok then test_arguments [] st.argv options' else none
