-- ===== src/Main/CommandLine/Consumed.antt =====
-- What is left of the arguments after the two passes of sysbench.c.
use bits_on_demand_pte_te.Prelude.{
  ◌≡◌, refl, sym, ap, subst, ◌∙◌, Bool, true, false, Bool-cases, inl, inr, Option, none, some, List,
  [], ◌∷◌, ◌++◌, if◌then◌else◌,
}
use mathlib.Core.List.{append_assoc, append-nil}
use bits_on_demand_pte_te.Prelude.Lists.{drop}
use bits_on_demand_pte_te.Options.Names.{Text}
use bits_on_demand_pte_te.Options.Store.{Options}
use bits_on_demand_pte_te.Options.Set.{Arg, sb_register_arg_set}
use bits_on_demand_pte_te.Main.CommandLine.{
  CommandLine, continue, is_option, parse_option, name_argument, option_argument, general_argument,
  general_arguments, parse_general_arguments, test_arguments, parse_test_arguments,
}
use bits_on_demand_pte_te.Main.CommandLine.Names.{names}

-- The arguments that were not set to NULL.
unfoldable pub remaining : List (Option Text) → List Text
remaining [] = []
remaining (none ∷ argv) = remaining argv
remaining (some arg ∷ argv) = arg ∷ remaining argv

abbrev pub IfSome : {A : Type 0} → (A → Type 0) → Option A → Type 0
IfSome P none = Unit
IfSome P (some a) = P a

remaining-append :
    (xs ys : List (Option Text)) → remaining (xs ++ ys) ≡ remaining xs ++ remaining ys
unfolding remaining
remaining-append [] ys = refl
remaining-append (none ∷ xs) ys = remaining-append xs ys
remaining-append (some x ∷ xs) ys = ap (λ l. x ∷ l) (remaining-append xs ys)

names-append : (xs ys : List Text) → names (xs ++ ys) ≡ names xs ++ names ys
unfolding names
names-append [] ys = refl
names-append (x ∷ xs) ys = elim (Bool-cases (is_option x)) [
  | inl y ↦ rw y (names-append xs ys)
  | inr n ↦ rw n (ap (λ l. x ∷ l) (names-append xs ys))
]

taken : (before : List (Option Text)) → remaining (before ++ none ∷ []) ≡ remaining before
unfolding remaining
taken before = remaining-append before (none ∷ []) ∙ append-nil (remaining before)

kept :
    (before : List (Option Text)) (arg : Text) (rest : List Text)
    → remaining (before ++ some arg ∷ []) ++ rest ≡ remaining before ++ arg ∷ rest
unfolding remaining
kept before arg rest =
    ap (λ l. l ++ rest) (remaining-append before (some arg ∷ []))
    ∙ append_assoc (remaining before) (arg ∷ []) rest

names-option : (arg : Text) → is_option arg ≡ true → names (arg ∷ []) ≡ []
unfolding names
names-option arg y = rw y refl

names-name : (arg : Text) → is_option arg ≡ false → names (arg ∷ []) ≡ arg ∷ []
unfolding names
names-name arg n = rw n refl

-- What is left behind an option, and behind another argument.
names-taken :
    (argv : List (Option Text)) (ok : Bool) (arg : Text)
    → is_option arg ≡ true
    → names (remaining (argv ++ (if ok then none else some arg) ∷ [])) ≡ names (remaining argv)
names-taken argv true arg y = ap names (taken argv)
names-taken argv false arg y =
    ap names (sym (append-nil (remaining (argv ++ some arg ∷ []))) ∙ kept argv arg [])
    ∙ names-append (remaining argv) (arg ∷ [])
    ∙ ap (λ l. names (remaining argv) ++ l) (names-option arg y)
    ∙ append-nil (names (remaining argv))

names-kept :
    (argv : List (Option Text)) (arg : Text) (rest : List Text)
    → is_option arg ≡ false
    → names (remaining (argv ++ some arg ∷ [])) ++ rest ≡ names (remaining argv) ++ arg ∷ rest
names-kept argv arg rest n =
    ap (λ l. names l ++ rest)
      (sym (append-nil (remaining (argv ++ some arg ∷ []))) ∙ kept argv arg [])
    ∙ ap (λ l. l ++ rest)
        (names-append (remaining argv) (arg ∷ [])
          ∙ ap (λ l. names (remaining argv) ++ l) (names-name arg n))
    ∙ append_assoc (names (remaining argv)) (arg ∷ []) rest

-- What is left in the end, if the pass returns 0.
abbrev Leaves : List Text → Option (Options × List (Option Text)) → Type 0
Leaves all r = IfSome (λ s. remaining s.1 ≡ all) r

abbrev LeavesNames : List Text → Option CommandLine → Type 0
LeavesNames all r = IfSome (λ st. names (remaining st.argv) ≡ all) r

module _ (read_file : Text → Option Text) where
  test_arguments-Leaves :
      (before argv : List (Option Text)) (options : Options)
      → Leaves
          (remaining before ++ names (remaining argv))
          (test_arguments read_file before argv options)
  unfolding test_arguments remaining names
  test_arguments-Leaves before [] options = sym (append-nil (remaining before))
  test_arguments-Leaves before (none ∷ argv) options =
      subst
        (λ l.
          Leaves (l ++ names (remaining argv))
            (test_arguments read_file (before ++ none ∷ []) argv options))
        (taken before) (test_arguments-Leaves (before ++ none ∷ []) argv options)
  test_arguments-Leaves before (some arg ∷ argv) options =
      let (options', ok) = parse_option read_file options (drop 2 arg) false in
      elim (Bool-cases (is_option arg)) [
        | inl y ↦ elim (Bool-cases ok) [
          | inl good ↦
              rw (y, good)
                (subst
                  (λ l.
                    Leaves (l ++ names (remaining argv))
                      (test_arguments read_file (before ++ none ∷ []) argv options'))
                  (taken before) (test_arguments-Leaves (before ++ none ∷ []) argv options'))
          | inr bad ↦ rw (y, bad) tt
        ]
        | inr n ↦ rw n (
            subst (λ l. Leaves l (test_arguments read_file (before ++ some arg ∷ []) argv options))
              (kept before arg (names (remaining argv)))
              (test_arguments-Leaves (before ++ some arg ∷ []) argv options))
      ]

  name_argument-kept :
      (st : CommandLine) (arg : Text) (rest : List Text)
      → is_option arg ≡ false
      → IfSome
          (λ st'. names (remaining st'.argv) ++ rest ≡ names (remaining st.argv) ++ arg ∷ rest)
          (name_argument read_file st arg)
  name_argument-kept st arg rest n = go st.testname st.cmdname
    where
      go :
          (t c : Option Text)
          → IfSome
              (λ st'. names (remaining st'.argv) ++ rest ≡ names (remaining st.argv) ++ arg ∷ rest)
              (name_argument read_file (record st { testname = t; cmdname = c }) arg)
      go none c = names-kept st.argv arg rest n
      go (some t) none = names-kept st.argv arg rest n
      go (some t) (some c) = tt

  -- One argument, and the others.
  continue-Leaves :
      (r : Option CommandLine) (k : CommandLine → Option CommandLine) (all rest : List Text)
      → IfSome (λ st. names (remaining st.argv) ++ rest ≡ all) r
      → ((st : CommandLine) → LeavesNames (names (remaining st.argv) ++ rest) (k st))
      → LeavesNames all (continue r k)
  continue-Leaves none k all rest h i = tt
  continue-Leaves (some st) k all rest h i = subst (λ l. LeavesNames l (k st)) h (i st)

  general_arguments-Leaves :
      (args : List Text) (st : CommandLine)
      → LeavesNames (names (remaining st.argv) ++ names args) (general_arguments read_file args st)
  unfolding general_arguments general_argument option_argument names
  general_arguments-Leaves [] st = sym (append-nil (names (remaining st.argv)))
  general_arguments-Leaves (arg ∷ args) st = elim (Bool-cases (is_option arg)) [
    | inl y ↦ rw y (
        continue-Leaves (some (option_argument read_file st arg)) (general_arguments read_file args)
          _ (names args)
          (ap (λ l. l ++ names args)
            (names-taken st.argv (parse_option read_file st.options (drop 2 arg) false).1 arg y))
          (general_arguments-Leaves args))
    | inr n ↦ rw n (
        continue-Leaves (name_argument read_file st arg) (general_arguments read_file args) _
          (names args) (name_argument-kept st arg (names args) n) (general_arguments-Leaves args))
  ]

  parse_test_arguments-Leaves :
      (test_args : List Arg) (st : CommandLine)
      → Leaves (names (remaining st.argv)) (parse_test_arguments read_file test_args st)
  unfolding parse_test_arguments remaining
  parse_test_arguments-Leaves test_args st =
      let (options', ok) = sb_register_arg_set read_file test_args st.options in
      elim (Bool-cases ok) [
        | inl good ↦ rw good (test_arguments-Leaves [] st.argv options')
        | inr bad ↦ rw bad tt
      ]

  parse_general_arguments-Leaves :
      (general_args : List Arg) (options : Options) (args : List Text)
      → LeavesNames (names args) (parse_general_arguments read_file general_args options args)
  unfolding parse_general_arguments remaining names
  parse_general_arguments-Leaves general_args options args =
      let (options', ok) = sb_register_arg_set read_file general_args options in
      elim (Bool-cases ok) [
        | inl good ↦ rw good (
            general_arguments-Leaves args
              (record { options = options'; testname = none; cmdname = none; argv = [] }))
        | inr bad ↦ rw bad tt
      ]

  -- If both passes return 0, the arguments that are left are those that do not begin with two dashes, in
  -- their order.
  pub parse_test_arguments-remaining :
      (general_args test_args : List Arg) (options : Options) (args : List Text)
      → IfSome
          (λ st.
            IfSome (λ r. remaining r.1 ≡ names args) (parse_test_arguments read_file test_args st))
          (parse_general_arguments read_file general_args options args)
  parse_test_arguments-remaining general_args test_args options args =
      go (parse_general_arguments read_file general_args options args)
        (parse_general_arguments-Leaves general_args options args)
    where
      go :
          (r : Option CommandLine)
          → LeavesNames (names args) r
          → IfSome
              (λ st.
                IfSome
                  (λ s. remaining s.1 ≡ names args)
                  (parse_test_arguments read_file test_args st))
              r
      go none h = tt
      go (some st) h =
          subst (λ l. Leaves l (parse_test_arguments read_file test_args st)) h
            (parse_test_arguments-Leaves test_args st)
