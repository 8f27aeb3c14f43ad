-- ===== src/MemoryTest/Config.antt =====
-- The file-scope variables of sb_memory.c, the options that it reads, and the monad of
-- `memory_init`, which stops at its first error with status 1.
use Prim.Native.String.{String}
use bits_on_demand_pte_te.Prelude.{ℕ, Bool, Option, List}
use bits_on_demand_pte_te.Pte.Machine.{ℤ}

-- SB_MEM_OP_NONE, SB_MEM_OP_READ, SB_MEM_OP_WRITE
pub data MemoryOper : Type 0 where
  op_none op_read op_write : MemoryOper

-- SB_MEM_SCOPE_GLOBAL, SB_MEM_SCOPE_LOCAL
pub data MemoryScope : Type 0 where
  scope_global scope_local : MemoryScope

-- The value of `execute_event`.
pub data EventHandler : Type 0 where
  rnd_none rnd_read rnd_write seq_none seq_read seq_write : EventHandler

-- What the option functions return, and the number of threads. The two sizes are 64-bit words,
-- which the program stores in signed variables.
pub record Settings : Type 0 where
  pub block_size : ℕ
  pub total_size : ℕ
  pub scope : String
  pub oper : String
  pub access_mode : String
  pub pte_meta : Bool
  pub pte_meta_type : ℤ
  pub threads : ℕ

pub record Globals : Type 0 where
  pub memory_block_size : ℕ
  pub memory_total_size : ℕ
  pub memory_scope : MemoryScope
  pub memory_oper : MemoryOper
  pub memory_access_rnd : Bool
  pub pte_meta_enabled : Bool
  pub pte_meta_type : ℤ
  pub max_offset : ℕ
  pub buffers : List ℕ
  pub thread_counters : List ℕ
  pub execute_event : Option EventHandler
  pub max_events : ℕ

-- The platform below `memory_init`: `sb_memalign` and `malloc` may fail, `memset` clears a buffer,
-- and `enable_pte_meta` is the system call. `E` is their state.
pub record Platform : Type 1 where
  pub E : Type 0
  pub page_size : ℕ
  pub sb_memalign : (size alignment : ℕ) → E → Option ℕ × E
  pub malloc : ℕ → E → Option ℕ × E
  pub memset : (buffer value size : ℕ) → E → E
  pub enable_pte_meta : ℕ → E → ℤ × E

-- A step goes on, or ends `memory_init` with `return 1`, with the variables and the platform's
-- state at that point.
pub data Step (E A : Type 0) : Type 0 where
  next : A → Globals → E → Step E A
  failed : Globals → E → Step E A

abbrev pub Init : Type 0 → Type 0 → Type 0
Init E A = Globals → E → Step E A

module _ {E A : Type 0} where
  abbrev pub pure : A → Init E A
  pure a g e = next a g e

  abbrev pub return_1 : Init E A
  return_1 g e = failed g e

  abbrev pub platform : (E → A × E) → Init E A
  platform f g e = next (f e).0 g (f e).1

abbrev pub assign : {E : Type 0} → (Globals → Globals) → Init E (Unit {0})
assign f g e = next tt (f g) e

abbrev pub get_globals : {E : Type 0} → Init E Globals
get_globals g e = next g g e

module _ {E A B : Type 0} where
  abbrev pub and_then : Step E A → (A → Init E B) → Step E B
  and_then (next a g e) k = k a g e
  and_then (failed g e) k = failed g e

  infixl 5 ◌>>=◌ ◌>>◌
  abbrev pub ◌>>=◌ : Init E A → (A → Init E B) → Init E B
  m >>= k = λ g e. and_then (m g e) k

  abbrev pub ◌>>◌ : Init E A → Init E B → Init E B
  m >> n = m >>= λ _. n
