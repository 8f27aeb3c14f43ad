-- ===== src/Options/Get.antt =====
-- Options of type integer and size by name in sb_options.c.
use bits_on_demand_pte_te.Prelude.{ℕ, Option, none, some}
use bits_on_demand_pte_te.Pte.Machine.{ℤ, pos}
use bits_on_demand_pte_te.Options.Names.{Text}
use bits_on_demand_pte_te.Options.Store.{Options, find_option}
use bits_on_demand_pte_te.Options.Size.{sb_opt_to_size, sb_opt_to_int}

-- None is the end of the program by `exit(EXIT_FAILURE)`.
unfoldable pub sb_get_value_int : Options → Text → Option ℤ
unfolding sb_opt_to_int
sb_get_value_int options name = elim (find_option options name) [
  | none ↦ some (pos 0)
  | some opt ↦ sb_opt_to_int opt.values
]

unfoldable pub sb_get_value_size : Options → Text → ℕ
unfolding sb_opt_to_size
sb_get_value_size options name = elim (find_option options name) [
  | none ↦ 0
  | some opt ↦ sb_opt_to_size opt.values
]
