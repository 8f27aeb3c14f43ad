-- ===== src/Main/Dispatch.antt =====
-- `main` of sysbench.c: the choice of the test and of the command.
pub mod Runs
use bits_on_demand_pte_te.Prelude.{
  ℕ, Bool, true, false, not, Option, none, some, List, [], ◌∷◌, if◌then◌else◌,
}
use bits_on_demand_pte_te.Pte.Machine.{ℤ, pos, is_zero}
use bits_on_demand_pte_te.Options.Names.{Text, text}
use bits_on_demand_pte_te.Options.Store.{Options}
use bits_on_demand_pte_te.Options.Set.{Arg, equal, sb_get_value_flag}
use bits_on_demand_pte_te.Options.Outcome.{
  Outcome, parsed, refused, exited, undefined, ◌>>=◌, refuse_if,
}
use bits_on_demand_pte_te.Main.CommandLine.{
  CommandLine, parse_general_arguments, parse_test_arguments,
}
use bits_on_demand_pte_te.Main.GeneralArgs.{general_args}
use bits_on_demand_pte_te.Main.Init.{InitSystem, Variables, init}

-- sb_test_t: none is a null pointer, and a number is what the operation returns; `run` is the result of
-- `run_test`.
pub record Test : Type 0 where
  pub sname : Text
  pub args : Option (List Arg)
  pub help : Bool
  pub prepare : Option ℤ
  pub cleanup : Option ℤ
  pub run : ℤ

-- What the program did before it ended.
pub data Action : Type 0 where
  nothing showed_help showed_version loaded called_custom showed_options prepared cleaned ran :
      Action

-- What `main` calls: whether the registrations and the initialisations succeed, the tests, and the Lua
-- interface with its custom commands.
pub record Program : Type 0 where
  pub log_register : Bool
  pub register_tests : Bool
  pub log_init : Bool
  pub sb_counters_init : Bool
  pub options : Options
  pub tests : List Test
  pub sb_load_lua : Option Text → Option Test
  pub custom_command : Text → Option ℤ
  pub system : InitSystem

unfoldable pub find_test : List Test → Text → Option Test
find_test [] name = none
find_test (test ∷ tests) name =
    let rest = find_test tests name in if equal test.sname name then some test else rest

-- The exit status and the action.
abbrev pub Ending : Type 0
Ending = ℤ × Action

abbrev pub help_command : Test → Ending
help_command test =
    if test.help
    then (pos 0, showed_options)
    else (elim test.args [ none ↦ (pos 1, nothing) | some args ↦ (pos 0, showed_options) ])

abbrev pub operation : Option ℤ → Action → Ending
operation none action = (pos 1, nothing)
operation (some rc) action = (rc, action)

unfoldable pub builtin_command : Test → Text → Ending
builtin_command test cmdname =
    if equal cmdname (text "help")
    then help_command test
    else if equal cmdname (text "prepare")
    then operation test.prepare prepared
    else if equal cmdname (text "cleanup")
    then operation test.cleanup cleaned
    else if equal cmdname (text "run")
    then (if is_zero test.run then pos 0 else pos 1, ran)
    else (pos 1, nothing)

abbrev pub command : Option ℤ → Test → Text → Ending
command (some rc) test cmdname = (rc, called_custom)
command none test cmdname = builtin_command test cmdname

abbrev pub table_of : Option (List Arg) → List Arg
table_of none = []
table_of (some args) = args

abbrev pub accepted : {A : Type 0} → Option A → Outcome A
accepted none = refused
accepted (some a) = parsed a

module _ (read_file : Text → Option Text) (program : Program) where
  unfoldable pub run_command : CommandLine → Test → Text → Outcome Ending
  unfolding parse_test_arguments builtin_command
  run_command st test cmdname = do
    _ ← accepted (parse_test_arguments read_file (table_of test.args) st)
    parsed (command (program.custom_command cmdname) test cmdname)

  -- Only a script may go without a command.
  abbrev pub with_command : CommandLine → Outcome Ending → Test → Option Text → Outcome Ending
  with_command st otherwise test none = otherwise
  with_command st otherwise test (some cmdname) = run_command st test cmdname

  abbrev pub script_from_stdin : Outcome Ending
  script_from_stdin = accepted (program.sb_load_lua none) >>= λ test. parsed (pos 0, loaded)

  abbrev pub choose_test : CommandLine → Text → Option Test → Outcome Ending
  choose_test st testname (some test) = with_command st refused test st.cmdname
  choose_test st testname none =
      (accepted (program.sb_load_lua (some testname)) >>= λ test.
      with_command st (parsed (pos 0, loaded)) test st.cmdname)

  unfoldable pub choose : CommandLine → Option Text → Outcome Ending
  unfolding find_test run_command
  choose st none = script_from_stdin
  choose st (some testname) =
      if equal testname (text "-")
      then script_from_stdin
      else choose_test st testname (find_test program.tests testname)

  unfoldable pub start : CommandLine → Outcome Ending
  unfolding choose init
  start st = do
    vars ← init read_file program.system st.options
    _ ← refuse_if (not program.log_init)
    _ ← refuse_if (not program.sb_counters_init)
    choose (record st { options = vars.options }) st.testname

  -- Behind the command line.
  unfoldable pub help_or_start : CommandLine → Outcome Ending
  unfolding start sb_get_value_flag
  help_or_start st =
      if sb_get_value_flag st.options (text "help")
      then parsed (pos 0, showed_help)
      else if sb_get_value_flag st.options (text "version")
      then parsed (pos 0, showed_version)
      else start st

  -- `refused` is the end with EXIT_FAILURE before a command.
  unfoldable pub main : List Text → Outcome Ending
  unfolding help_or_start parse_general_arguments
  main args = do
    _ ← refuse_if (not program.log_register)
    _ ← refuse_if (not program.register_tests)
    st ← accepted (parse_general_arguments read_file general_args program.options args)
    help_or_start st
