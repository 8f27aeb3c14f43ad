-- ===== src/Main/Dispatch/Runs.antt =====
-- When `main` of sysbench.c runs a test.
use bits_on_demand_pte_te.Prelude.{
  ◌≡◌, refl, sym, ap, ap₂, ◌∙◌, Bool, true, false, true≢false, Bool-cases, inl, inr, not, Option,
  none, some, List, [], ◌∷◌, if◌then◌else◌,
}
use bits_on_demand_pte_te.Pte.Machine.{ℤ, pos}
use bits_on_demand_pte_te.Options.Names.{Text, text}
use bits_on_demand_pte_te.Options.Set.{Arg, equal, sb_get_value_flag, sb_register_arg_set}
use bits_on_demand_pte_te.Options.Outcome.{Outcome, refuse_if}
use bits_on_demand_pte_te.Options.Outcome.Ensures.{Ensures, bind-Ensures, step-Ensures}
use bits_on_demand_pte_te.Main.CommandLine.{
  CommandLine, parse_general_arguments, parse_test_arguments,
}
use bits_on_demand_pte_te.Main.CommandLine.Names.{
  names, given, Names, parse_general_arguments-Names,
}
use bits_on_demand_pte_te.Main.GeneralArgs.{general_args}
use bits_on_demand_pte_te.Main.Init.{init}
use bits_on_demand_pte_te.Main.Dispatch.{
  Test, Action, nothing, showed_help, showed_version, loaded, called_custom, showed_options,
  prepared, cleaned, ran, Program, Ending, find_test, help_command, operation, builtin_command,
  command, accepted, table_of, run_command, with_command, script_from_stdin, choose_test, choose,
  start, help_or_start, main,
}

is_ran : Action → Bool
is_ran ran = true
is_ran nothing = false
is_ran showed_help = false
is_ran showed_version = false
is_ran loaded = false
is_ran called_custom = false
is_ran showed_options = false
is_ran prepared = false
is_ran cleaned = false

-- If the test was run, something holds.
abbrev pub OnRun : Type 0 → Ending → Type 0
OnRun P (rc, action) = action ≡ ran → P

never : {P : Type 0} (action : Action) → is_ran action ≡ false → action ≡ ran → P
unfolding is_ran
never action h e = absurd (true≢false (sym (ap is_ran e) ∙ h))

help_command-OnRun : (P : Type 0) (test : Test) → OnRun P (help_command test)
unfolding is_ran
help_command-OnRun P test = go test.help test.args
  where
    go :
        (help : Bool) (args : Option (List Arg))
        → OnRun P (
            if help
            then (pos 0, showed_options)
            else (elim args [ none ↦ (pos 1, nothing) | some a ↦ (pos 0, showed_options) ]))
    go true args = never showed_options refl
    go false none = never nothing refl
    go false (some a) = never showed_options refl

operation-OnRun :
    (P : Type 0) (rc : Option ℤ) (action : Action)
    → is_ran action ≡ false
    → OnRun P (operation rc action)
unfolding is_ran
operation-OnRun P none action h = never nothing refl
operation-OnRun P (some rc) action h = never action h

IsRun : Text → Type 0
IsRun cmdname = equal cmdname (text "run") ≡ true

builtin_command-OnRun :
    (test : Test) (cmdname : Text) → OnRun (IsRun cmdname) (builtin_command test cmdname)
unfolding builtin_command is_ran IsRun
builtin_command-OnRun test cmdname = elim (Bool-cases (equal cmdname (text "help"))) [
  | inl y ↦ rw y (help_command-OnRun (IsRun cmdname) test)
  | inr a ↦ elim (Bool-cases (equal cmdname (text "prepare"))) [
    | inl y ↦ rw (a, y) (operation-OnRun (IsRun cmdname) test.prepare prepared refl)
    | inr b ↦ elim (Bool-cases (equal cmdname (text "cleanup"))) [
      | inl y ↦ rw (a, b, y) (operation-OnRun (IsRun cmdname) test.cleanup cleaned refl)
      | inr c ↦ elim (Bool-cases (equal cmdname (text "run"))) [
        | inl y ↦ λ e. y
        | inr d ↦ rw (a, b, c, d) (never nothing refl)
      ]
    ]
  ]
]

command-OnRun :
    (rc : Option ℤ) (test : Test) (cmdname : Text) → OnRun (IsRun cmdname) (command rc test cmdname)
unfolding is_ran
command-OnRun none test cmdname = builtin_command-OnRun test cmdname
command-OnRun (some rc) test cmdname = never called_custom refl

-- The command line names a test and the command `run`.
abbrev pub RunLine : List Text → Type 0
RunLine args = (n : Text) × (x : Text) × (names args ≡ n ∷ x ∷ []) × (equal x (text "run") ≡ true)

module _ (read_file : Text → Option Text) (program : Program) where
  -- The goal `P` follows if the command is `run`.
  run_command-OnRun :
      (P : Type 0) (st : CommandLine) (test : Test) (cmdname : Text)
      → (IsRun cmdname → P)
      → Ensures (OnRun P) (run_command read_file program st test cmdname)
  unfolding run_command
  run_command-OnRun P st test cmdname because =
      step-Ensures (OnRun P) (accepted (parse_test_arguments read_file (table_of test.args) st)) _
        (λ r e. because (command-OnRun (program.custom_command cmdname) test cmdname e))

  with_command-OnRun :
      (P : Type 0) (st : CommandLine) (otherwise : Outcome Ending) (test : Test) (c : Option Text)
      → Ensures (OnRun P) otherwise
      → ((x : Text) → c ≡ some x → IsRun x → P)
      → Ensures (OnRun P) (with_command read_file program st otherwise test c)
  with_command-OnRun P st otherwise test none o because = o
  with_command-OnRun P st otherwise test (some x) o because =
      run_command-OnRun P st test x (because x refl)

  script_from_stdin-OnRun : (P : Type 0) → Ensures (OnRun P) (script_from_stdin read_file program)
  unfolding is_ran
  script_from_stdin-OnRun P =
      step-Ensures (OnRun P) (accepted (program.sb_load_lua none)) _ (λ test. never loaded refl)

  choose_test-OnRun :
      (P : Type 0) (st : CommandLine) (testname : Text) (found : Option Test)
      → ((x : Text) → st.cmdname ≡ some x → IsRun x → P)
      → Ensures (OnRun P) (choose_test read_file program st testname found)
  unfolding is_ran
  choose_test-OnRun P st testname (some test) because =
      with_command-OnRun P st _ test st.cmdname tt because
  choose_test-OnRun P st testname none because =
      step-Ensures (OnRun P) (accepted (program.sb_load_lua (some testname))) _
        (λ test. with_command-OnRun P st _ test st.cmdname (never loaded refl) because)

  choose-OnRun :
      (P : Type 0) (st : CommandLine) (t : Option Text)
      → ((n x : Text) → t ≡ some n → st.cmdname ≡ some x → IsRun x → P)
      → Ensures (OnRun P) (choose read_file program st t)
  unfolding choose
  choose-OnRun P st none because = script_from_stdin-OnRun P
  choose-OnRun P st (some n) because = elim (Bool-cases (equal n (text "-"))) [
    | inl y ↦ rw y (script_from_stdin-OnRun P)
    | inr y ↦ rw y (choose_test-OnRun P st n (find_test program.tests n) (λ x. because n x refl))
  ]

  Because : Type 0 → CommandLine → Type 0
  Because P st = (n x : Text) → st.testname ≡ some n → st.cmdname ≡ some x → IsRun x → P

  start-OnRun :
      (P : Type 0) (st : CommandLine)
      → Because P st
      → Ensures (OnRun P) (start read_file program st)
  unfolding start Because
  start-OnRun P st because =
      step-Ensures (OnRun P) (init read_file program.system st.options) _ (λ vars.
        step-Ensures (OnRun P) (refuse_if (not program.log_init)) _ (λ u.
          step-Ensures (OnRun P) (refuse_if (not program.sb_counters_init)) _
            (λ v. choose-OnRun P (record st { options = vars.options }) st.testname because)))

  help_or_start-OnRun :
      (P : Type 0) (st : CommandLine)
      → Because P st
      → Ensures (OnRun P) (help_or_start read_file program st)
  unfolding help_or_start is_ran
  help_or_start-OnRun P st because =
      elim (Bool-cases (sb_get_value_flag st.options (text "help"))) [
        | inl y ↦ rw y (never showed_help refl)
        | inr n ↦ elim (Bool-cases (sb_get_value_flag st.options (text "version"))) [
          | inl y ↦ rw (n, y) (never showed_version refl)
          | inr m ↦ rw (n, m) (start-OnRun P st because)
        ]
      ]

  -- The names that were accepted.
  Accepted : List Text → CommandLine → Type 0
  Accepted args st = given st.testname st.cmdname ≡ names args

  accepted-Names :
      (args : List Text) (r : Option CommandLine)
      → Names (names args) r
      → Ensures (Accepted args) (accepted r)
  unfolding Accepted
  accepted-Names args none h = tt
  accepted-Names args (some st) (e, h) = e

  arguments-Accepted :
      (args : List Text)
      → Ensures
          (Accepted args)
          (accepted (parse_general_arguments read_file general_args program.options args))
  unfolding parse_general_arguments
  arguments-Accepted args =
      elim (Bool-cases (sb_register_arg_set read_file general_args program.options).1) [
        | inr n ↦ rw n tt
        | inl y ↦
            accepted-Names args
              (parse_general_arguments read_file general_args program.options args)
              (parse_general_arguments-Names read_file general_args program.options args y)
      ]

  -- The program runs a test only if exactly two arguments do not begin with two dashes, and the second
  -- of them is `run`.
  pub main-OnRun : (args : List Text) → Ensures (OnRun (RunLine args)) (main read_file program args)
  unfolding main Because Accepted IsRun
  main-OnRun args =
      let P = RunLine args in
      step-Ensures (OnRun P) (refuse_if (not program.log_register)) _ (λ u.
        step-Ensures (OnRun P) (refuse_if (not program.register_tests)) _ (λ v.
          bind-Ensures (Accepted args) (OnRun P)
            (accepted (parse_general_arguments read_file general_args program.options args))
            (help_or_start read_file program) (arguments-Accepted args)
            (λ st same.
              help_or_start-OnRun P st (λ n x t c run. (n, x, sym same ∙ ap₂ given t c, run)))))
