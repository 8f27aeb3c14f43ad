-- ===== src/Main/CommandLine/Names.antt =====
-- The names of the test and of the command on the command line of sysbench.c.
use bits_on_demand_pte_te.Prelude.{
  ◌≤◌, ◌<◌, ◌≡◌, refl, true, Bool-cases, inl, inr, Option, none, some, List, [], ◌∷◌, ◌++◌,
  if◌then◌else◌, arith,
}
use bits_on_demand_pte_te.Prelude.Lists.{length}
use bits_on_demand_pte_te.Options.Names.{Text}
use bits_on_demand_pte_te.Options.Store.{Options}
use bits_on_demand_pte_te.Options.Set.{Arg, sb_register_arg_set}
use bits_on_demand_pte_te.Main.CommandLine.{
  CommandLine, continue, is_option, name_argument, option_argument, general_argument,
  general_arguments, parse_general_arguments,
}

-- The arguments that are no options.
unfoldable pub names : List Text → List Text
names [] = []
names (arg ∷ args) = let rest = names args in if is_option arg then rest else arg ∷ rest

-- The names that were given so far.
abbrev pub given : Option Text → Option Text → List Text
given none c = []
given (some t) none = t ∷ []
given (some t) (some c) = t ∷ c ∷ []

-- How the pass ends: the names are these, or there are more than two.
abbrev pub Names : List Text → Option CommandLine → Type 0
Names all none = 2 < length all
Names all (some st) = (given st.testname st.cmdname ≡ all) × (length all ≤ 2)

-- The command is named behind the test.
abbrev Ordered : Option Text → Option Text → Type 0
Ordered none none = Unit
Ordered none (some c) = ⊥
Ordered (some t) c = Unit

given-Names : (t c : Option Text) → (given t c ≡ given t c ++ []) × (length (given t c ++ []) ≤ 2)
given-Names none c = (refl, omega arith)
given-Names (some t) none = (refl, omega arith)
given-Names (some t) (some c) = (refl, omega arith)

module _ (read_file : Text → Option Text) where
  name_argument-Names :
      (arg : Text) (rest : List Text) (k : CommandLine → Option CommandLine) (options : Options)
      (t c : Option Text) (argv : List (Option Text))
      → Ordered t c
      → ((st : CommandLine)
          → Ordered st.testname st.cmdname
          → Names (given st.testname st.cmdname ++ rest) (k st))
      → Names (given t c ++ arg ∷ rest) (
          continue
            (name_argument read_file
              (record { options = options; testname = t; cmdname = c; argv = argv })
              arg)
            k)
  name_argument-Names arg rest k options none none argv o h =
      h
        (record {
          options = options;
          testname = some arg;
          cmdname = none;
          argv = argv ++ some arg ∷ [];
        })
        tt
  name_argument-Names arg rest k options none (some c) argv o h = absurd o
  name_argument-Names arg rest k options (some t) none argv o h =
      h
        (record {
          options = options;
          testname = some t;
          cmdname = some arg;
          argv = argv ++ some arg ∷ [];
        })
        tt
  name_argument-Names arg rest k options (some t) (some c) argv o h = omega arith

  general_arguments-Names :
      (args : List Text) (st : CommandLine)
      → Ordered st.testname st.cmdname
      → Names (given st.testname st.cmdname ++ names args) (general_arguments read_file args st)
  unfolding general_arguments general_argument names option_argument
  general_arguments-Names [] st o = given-Names st.testname st.cmdname
  general_arguments-Names (arg ∷ args) st o = elim (Bool-cases (is_option arg)) [
    | inl y ↦ rw y (general_arguments-Names args (option_argument read_file st arg) o)
    | inr n ↦ rw n (
        name_argument-Names arg (names args) (general_arguments read_file args) st.options
          st.testname st.cmdname st.argv o (general_arguments-Names args))
  ]

  -- If the table of the general options can be registered, `parse_general_arguments` returns 0 if and
  -- only if at most two arguments do not begin with two dashes. The first of these is then the test's
  -- name and the second the command's, and there is none where there is no such argument.
  pub parse_general_arguments-Names :
      (general_args : List Arg) (options : Options) (args : List Text)
      → (sb_register_arg_set read_file general_args options).1 ≡ true
      → Names (names args) (parse_general_arguments read_file general_args options args)
  unfolding parse_general_arguments
  parse_general_arguments-Names general_args options args ok = rw ok (
      general_arguments-Names args
        (record {
          options = (sb_register_arg_set read_file general_args options).0;
          testname = none;
          cmdname = none;
          argv = [];
        })
        tt)
