-- ===== src/Options/Outcome.antt =====
-- How the options are read as numbers, with the ends that the callers of sb_options.c share.
pub mod Ensures
use Prim.Native.Nat.{bit_or}
use bits_on_demand_pte_te.Prelude.{
  ℕ, zero, suc, ◌-◌, ◌*◌, ◌/◌, ◌%◌, ◌^◌, Bool, true, false, ◌||◌, Option, none, some, List, [], ◌∷◌,
  ◌==◌, leb, ltb, if◌then◌else◌,
}
use bits_on_demand_pte_te.Pte.Machine.{ℤ, pos, negsuc}
use bits_on_demand_pte_te.Options.Names.{Text, text}
use bits_on_demand_pte_te.Options.Store.{Options}
use bits_on_demand_pte_te.Options.Set.{equal, sb_get_value_flag}
use bits_on_demand_pte_te.Options.Get.{sb_get_value_int, sb_get_value_size}
use bits_on_demand_pte_te.FileTest.Requests.{
  TestMode, mode_read, mode_write, mode_rewrite, mode_rnd_read, mode_rnd_write, mode_rnd_rw,
}

-- How the reading of options ends: with a value, with the result 1, with the end of the program
-- in `sb_opt_to_int`, or without a meaning in C.
pub data Outcome (A : Type 0) : Type 0 where
  parsed : A → Outcome A
  refused : Outcome A
  exited : Outcome A
  undefined : Outcome A

infixl 5 ◌>>=◌
abbrev pub ◌>>=◌ : {A B : Type 0} → Outcome A → (A → Outcome B) → Outcome B
parsed a >>= k = k a
refused >>= k = refused
exited >>= k = exited
undefined >>= k = undefined

abbrev pub value_or_exit : Option ℤ → Outcome ℤ
value_or_exit none = exited
value_or_exit (some n) = parsed n

-- A conversion to an unsigned int, and one of a size to an int.
abbrev pub unsigned_int : ℤ → ℕ
unsigned_int (pos n) = n % 2 ^ 32
unsigned_int (negsuc n) = 2 ^ 32 - 1 - n % 2 ^ 32

abbrev pub int_of : ℕ → ℤ
int_of n = if ltb (n % 2 ^ 32) (2 ^ 31) then pos (n % 2 ^ 32) else negsuc (2 ^ 32 - 1 - n % 2 ^ 32)

-- The checks `n <= 0` and `n < 0`.
abbrev pub positive : ℤ → Outcome ℕ
positive (pos zero) = refused
positive (pos (suc n)) = parsed (suc n)
positive (negsuc n) = refused

abbrev pub not_negative : ℤ → Outcome ℕ
not_negative (pos n) = parsed n
not_negative (negsuc n) = refused

abbrev pub refuse_if : Bool → Outcome Unit
refuse_if true = refused
refuse_if false = parsed tt
