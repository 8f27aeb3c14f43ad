-- ===== src/Main/Examples.antt =====
-- The theorems about the command line at `--threads=4 fileio --file-num=2 run`.
use bits_on_demand_pte_te.Prelude.{
  ℕ, ◌/◌, ◌*◌, ◌≡◌, refl, sym, ◌∙◌, ◌⊎◌, inl, inr, Bool-cases, true≢false, if◌then◌else◌, true,
  false, Option, none, some, List, [], ◌∷◌, arith,
}
use bits_on_demand_pte_te.Options.Names.{Text, text, opt_name_cmp, convert_dashes}
use bits_on_demand_pte_te.Options.Store.{
  Entry, Options, type_int, type_string, find_option, add_option, update_option,
}
use bits_on_demand_pte_te.Options.Set.{
  sb_opt, sb_register_arg_set, register_args, set_option, is_accepted, values_of, tokens,
  read_config_file, sb_get_value_string,
}
use bits_on_demand_pte_te.Main.GeneralArgs.{general_args}
use bits_on_demand_pte_te.Pte.Machine.{ℤ, pos}
use bits_on_demand_pte_te.Options.Size.{strtol, skip_space, signed_digits, scan_digits}
use bits_on_demand_pte_te.Options.Outcome.{Outcome, parsed}
use bits_on_demand_pte_te.Main.Init.{
  InitSystem, Variables, limits_of, parse_shutdown, sb_thread_init, verbose, read_checkpoints,
  finish_init, init_timers, init, Qsort, parse_checkpoints,
}
use bits_on_demand_pte_te.Options.Config.{break_at}
use bits_on_demand_pte_te.Main.CommandLine.{
  general_arguments, general_argument, option_argument, set_found, split_option, test_arguments,
}
use bits_on_demand_pte_te.Main.Dispatch.{
  Test, ran, Program, find_test, builtin_command, run_command, choose, start, help_or_start, main,
}
use bits_on_demand_pte_te.Main.Dispatch.Runs.{OnRun, RunLine, main-OnRun}
use bits_on_demand_pte_te.Main.Init.TimeLimit.{Good, init-Good}
use bits_on_demand_pte_te.Options.Outcome.Ensures.{Ensures}
use bits_on_demand_pte_te.Options.Get.{sb_get_value_int, sb_get_value_size}
use bits_on_demand_pte_te.Options.Size.{
  sb_opt_to_int, sb_opt_to_size, size_of_text, scan_size, unit_factors, multiply,
}
use bits_on_demand_pte_te.Options.Set.{sb_get_value_flag, sb_get_value_list}
use bits_on_demand_pte_te.Main.Init.Checkpoints.{
  Perm, nothing, same, swapped, joined, Every, Every-Perm, not_above, Sorted, IsQsort, Ascending,
  Reads, no_more, number, Perm-refl, parse_checkpoints-Ascending,
}
use bits_on_demand_pte_te.Main.CommandLine.{
  parse_option, parse_general_arguments, parse_test_arguments,
}
use bits_on_demand_pte_te.Main.CommandLine.Names.{Names, names, parse_general_arguments-Names}
use bits_on_demand_pte_te.Main.CommandLine.Consumed.{
  IfSome, remaining, parse_test_arguments-remaining,
}
use bits_on_demand_pte_te.Main.CommandLine.Known.{assignment, parse_option-string}

abbrev no_files : Text → Option Text
no_files name = none

abbrev line : List Text
line = text "--threads=4" ∷ text "fileio" ∷ text "--file-num=2" ∷ text "run" ∷ []

registers : (sb_register_arg_set no_files general_args []).1 ≡ true
unfolding sb_register_arg_set register_args set_option is_accepted values_of tokens read_config_file
    find_option add_option update_option opt_name_cmp convert_dashes
registers = refl

parse_general_arguments-Names_example :
    Names (names line) (parse_general_arguments no_files general_args [] line)
parse_general_arguments-Names_example =
    parse_general_arguments-Names no_files general_args [] line registers

parse_test_arguments-remaining_example :
    IfSome
      (λ st.
        IfSome
          (λ r. remaining r.1 ≡ names line)
          (parse_test_arguments no_files (sb_opt (text "file-num") none type_int ∷ []) st))
      (parse_general_arguments no_files general_args [] line)
parse_test_arguments-remaining_example =
    parse_test_arguments-remaining no_files general_args
      (sb_opt (text "file-num") none type_int ∷ []) [] line

abbrev entry : Entry
entry = record { name = text "s"; type = type_string; values = []; ignore = false; validate = none }

finds : find_option (entry ∷ []) (text "s") ≡ some entry
unfolding find_option opt_name_cmp
finds = refl

parse_option-string_example :
    let (options', ok) =
      parse_option no_files (entry ∷ []) (assignment (text "s") (text "off")) false in
    (ok ≡ true) × (sb_get_value_string options' (text "s") ≡ some (text "off"))
parse_option-string_example =
    parse_option-string no_files (entry ∷ []) (text "s") b'o' (text "ff") entry
      ((omega arith, tt), tt) (omega arith, tt) (refl, tt) finds refl refl

-- A sort by insertion.
abbrev insert : (ℕ → ℕ → ℤ) → ℕ → List ℕ → List ℕ
insert cmp x [] = x ∷ []
insert cmp x (y ∷ ys) = if not_above (cmp x y) then x ∷ y ∷ ys else y ∷ insert cmp x ys

abbrev inserting : Qsort
inserting cmp [] = []
inserting cmp (x ∷ xs) = insert cmp x (inserting cmp xs)

insert-Perm : (cmp : ℕ → ℕ → ℤ) (x : ℕ) (ys : List ℕ) → Perm (insert cmp x ys) (x ∷ ys)
insert-Perm cmp x [] = same nothing
insert-Perm cmp x (y ∷ ys) = elim (Bool-cases (not_above (cmp x y))) [
  | inl h ↦ rw h (Perm-refl (x ∷ y ∷ ys))
  | inr h ↦ rw h (joined (same (insert-Perm cmp x ys)) swapped)
]

inserting-Perm : (cmp : ℕ → ℕ → ℤ) (xs : List ℕ) → Perm (inserting cmp xs) xs
inserting-Perm cmp [] = nothing
inserting-Perm cmp (x ∷ xs) =
    joined (insert-Perm cmp x (inserting cmp xs)) (same (inserting-Perm cmp xs))

-- The comparison orders all elements of the kind.
Total : (ℕ → ℕ → ℤ) → (ℕ → Type 0) → Type 0
Total cmp P = (a b : ℕ) → P a → P b → (not_above (cmp a b) ≡ true) ⊎ (not_above (cmp b a) ≡ true)

other_way :
    (cmp : ℕ → ℕ → ℤ) (x y : ℕ)
    → not_above (cmp x y) ≡ false
    → (not_above (cmp x y) ≡ true) ⊎ (not_above (cmp y x) ≡ true)
    → not_above (cmp y x) ≡ true
other_way cmp x y h (inl e) = absurd (true≢false (sym e ∙ h))
other_way cmp x y h (inr e) = e

-- Behind `y`, which is not above the first.
insert-Sorted :
    (cmp : ℕ → ℕ → ℤ) (P : ℕ → Type 0) (x y : ℕ) (ys : List ℕ)
    → Total cmp P
    → P x
    → Every P ys
    → not_above (cmp y x) ≡ true
    → Sorted (λ a b. not_above (cmp a b)) (y ∷ ys)
    → Sorted (λ a b. not_above (cmp a b)) (y ∷ insert cmp x ys)
unfolding Total
insert-Sorted cmp P x y [] t p e h s = (h, tt)
insert-Sorted cmp P x y (z ∷ zs) t p (q, e) h (k, s) = elim (Bool-cases (not_above (cmp x z))) [
  | inl l ↦ rw l (h, (l, s))
  | inr l ↦ rw l (k, insert-Sorted cmp P x z zs t p e (other_way cmp x z l (t x z p q)) s)
]

insert_first-Sorted :
    (cmp : ℕ → ℕ → ℤ) (P : ℕ → Type 0) (x : ℕ) (ys : List ℕ)
    → Total cmp P
    → P x
    → Every P ys
    → Sorted (λ a b. not_above (cmp a b)) ys
    → Sorted (λ a b. not_above (cmp a b)) (insert cmp x ys)
unfolding Total
insert_first-Sorted cmp P x [] t p e s = tt
insert_first-Sorted cmp P x (y ∷ ys) t p (q, e) s = elim (Bool-cases (not_above (cmp x y))) [
  | inl l ↦ rw l (l, s)
  | inr l ↦ rw l (insert-Sorted cmp P x y ys t p e (other_way cmp x y l (t x y p q)) s)
]

inserting-Sorted :
    (cmp : ℕ → ℕ → ℤ) (P : ℕ → Type 0) (xs : List ℕ)
    → Total cmp P
    → Every P xs
    → Sorted (λ a b. not_above (cmp a b)) (inserting cmp xs)
inserting-Sorted cmp P [] t e = tt
inserting-Sorted cmp P (x ∷ xs) t (p, e) =
    insert_first-Sorted cmp P x (inserting cmp xs) t p (Every-Perm P (inserting-Perm cmp xs) e)
      (inserting-Sorted cmp P xs t e)

inserting-IsQsort : IsQsort inserting
unfolding Total
inserting-IsQsort cmp P xs e t r = (inserting-Perm cmp xs, inserting-Sorted cmp P xs t e)

two-Reads : Reads (text "30" ∷ text "7" ∷ []) (30 ∷ 7 ∷ [])
unfolding strtol skip_space signed_digits scan_digits
two-Reads = number refl (omega arith) (number refl (omega arith) no_more)

parse_checkpoints-Ascending_example :
    (cs : List ℕ) × (parse_checkpoints inserting (some (text "30" ∷ text "7" ∷ [])) ≡ parsed cs)
    × Perm cs (30 ∷ 7 ∷ [])
    × Ascending cs
parse_checkpoints-Ascending_example =
    parse_checkpoints-Ascending inserting inserting-IsQsort (text "30" ∷ text "7" ∷ [])
      (30 ∷ 7 ∷ []) two-Reads (omega arith)

abbrev system : InitSystem
system = record {
  twentieth = λ ns. ns / 20000000000;
  percent = λ timeout ns. timeout * (ns / 1000000000) / 100;
  allocates_threads = true;
  allocates_timers = true;
  rand_init = λ options. false;
  qsort = inserting;
}

-- The general options after `--warmup-time=5`.
abbrev warm : Options
warm =
    (set_option no_files (sb_register_arg_set no_files general_args []).0 (text "warmup-time")
      (some (text "5")) type_int).0

abbrev limit_of : Outcome Variables → ℕ
limit_of r = elim r [ parsed s ↦ s.limits.max_time_ns | _ ↦ 0 ]

-- Ten seconds are the default of --time.
init-run : limit_of (init no_files system warm) ≡ 15000000000
unfolding init finish_init init_timers limits_of parse_shutdown sb_thread_init verbose
    parse_checkpoints read_checkpoints sb_get_value_int sb_get_value_size sb_opt_to_int strtol
    skip_space signed_digits scan_digits sb_opt_to_size size_of_text scan_size unit_factors multiply
    sb_get_value_flag sb_get_value_string sb_get_value_list sb_register_arg_set register_args
    set_option is_accepted values_of tokens read_config_file find_option add_option update_option
    opt_name_cmp convert_dashes
init-run = refl

init-Good_example : Ensures (Good warm) (init no_files system warm)
init-Good_example = init-Good no_files system warm

abbrev cpu_test : Test
cpu_test = record {
  sname = text "cpu";
  args = none;
  help = false;
  prepare = none;
  cleanup = none;
  run = pos 0;
}

abbrev program : Program
program = record {
  log_register = true;
  register_tests = true;
  log_init = true;
  sb_counters_init = true;
  options = [];
  tests = cpu_test ∷ [];
  sb_load_lua = λ name. none;
  custom_command = λ name. none;
  system = system;
}

abbrev run_line : List Text
run_line = text "--threads=4" ∷ text "cpu" ∷ text "run" ∷ []

main-run : main no_files program run_line ≡ parsed (pos 0, ran)
unfolding main help_or_start start choose find_test run_command builtin_command
    parse_general_arguments general_arguments general_argument option_argument parse_option
    set_found split_option break_at parse_test_arguments test_arguments init finish_init init_timers
    limits_of parse_shutdown sb_thread_init verbose parse_checkpoints read_checkpoints
    sb_get_value_int sb_get_value_size sb_opt_to_int strtol skip_space signed_digits scan_digits
    sb_opt_to_size size_of_text scan_size unit_factors multiply sb_get_value_flag
    sb_get_value_string sb_get_value_list sb_register_arg_set register_args set_option is_accepted
    values_of tokens read_config_file find_option add_option update_option opt_name_cmp
    convert_dashes
main-run = refl

main-OnRun_example : Ensures (OnRun (RunLine run_line)) (main no_files program run_line)
main-OnRun_example = main-OnRun no_files program run_line
