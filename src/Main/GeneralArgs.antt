-- ===== src/Main/GeneralArgs.antt =====
-- The table of the general options in sysbench.c.
use bits_on_demand_pte_te.Prelude.{none, some, List, [], ◌∷◌}
use bits_on_demand_pte_te.Options.Names.{text}
use bits_on_demand_pte_te.Options.Store.{
  type_bool, type_int, type_size, type_string, type_list, type_file,
}
use bits_on_demand_pte_te.Options.Set.{Arg, sb_opt}

abbrev pub general_args : List Arg
general_args =
    sb_opt (text "threads") (some (text "1")) type_int
    ∷ sb_opt (text "events") (some (text "0")) type_int
    ∷ sb_opt (text "time") (some (text "10")) type_int
    ∷ sb_opt (text "warmup-time") (some (text "0")) type_int
    ∷ sb_opt (text "forced-shutdown") (some (text "off")) type_string
    ∷ sb_opt (text "thread-stack-size") (some (text "64K")) type_size
    ∷ sb_opt (text "thread-init-timeout") (some (text "30")) type_int
    ∷ sb_opt (text "rate") (some (text "0")) type_int
    ∷ sb_opt (text "report-interval") (some (text "0")) type_int
    ∷ sb_opt (text "report-checkpoints") (some (text "")) type_list
    ∷ sb_opt (text "debug") (some (text "off")) type_bool
    ∷ sb_opt (text "validate") (some (text "off")) type_bool
    ∷ sb_opt (text "help") (some (text "off")) type_bool
    ∷ sb_opt (text "version") (some (text "off")) type_bool
    ∷ sb_opt (text "config-file") none type_file
    ∷ sb_opt (text "luajit-cmd") none type_string
    ∷ []
