-- ===== src/MemoryTest/Init.antt =====
-- `memory_init`: the options are checked, the buffers allocated and the event handler chosen.
use Prim.Native.Nat.{bit_and}
use Prim.Native.String.{String}
use text.Mathlib.Text.{◌==◌ as str_eq}
use bits_on_demand_pte_te.Prelude.{
  ℕ, zero, suc, ◌-◌, ◌*◌, ◌/◌, ◌%◌, ◌^◌, Bool, true, false, ◌||◌, Option, none, some, [], ◌∷◌, ◌++◌,
  ltb, leb, ◌!=◌, if◌then◌else◌,
}
use bits_on_demand_pte_te.Pte.Machine.{ℤ, pos}
use bits_on_demand_pte_te.MemoryTest.Config.{
  MemoryOper, op_none, op_read, op_write, MemoryScope, scope_global, scope_local, EventHandler,
  rnd_none, rnd_read, rnd_write, seq_none, seq_read, seq_write, Settings, Globals, Platform, Init,
  pure, return_1, platform, assign, get_globals, ◌>>=◌, ◌>>◌,
}

abbrev pub sizeof_size_t : ℕ
sizeof_size_t = 8

-- `(memory_block_size & (memory_block_size - 1)) != 0` is false exactly for the powers of 2.
unfoldable pub not_power_of_2 : ℕ → Bool
not_power_of_2 n = bit_and n (n - 1) != 0

-- The block size is refused if it is too small, negative as a `ssize_t`, or not a power of 2.
unfoldable pub bad_block_size : ℕ → Bool
unfolding not_power_of_2
bad_block_size n = ltb n sizeof_size_t || (leb (2 ^ 63) n || not_power_of_2 n)

-- Two's complement on 64 bits.
abbrev pub neg64 : ℕ → ℕ
neg64 n = (2 ^ 64 - n) % 2 ^ 64

-- `memory_total_size / memory_block_size / sb_globals.threads`, a signed division, as the
-- `uint64_t` that it is stored in.
unfoldable pub events_per_thread : (total block threads : ℕ) → ℕ
events_per_thread total block threads =
    if ltb total (2 ^ 63)
    then total / block / threads
    else neg64 ((2 ^ 64 - total) / block / threads)

-- The values of the options with names.
unfoldable pub scope_of : String → Option MemoryScope
scope_of s =
    if str_eq s "global"
    then some scope_global
    else if str_eq s "local"
    then some scope_local
    else none

unfoldable pub oper_of : String → Option MemoryOper
oper_of s =
    if str_eq s "write"
    then some op_write
    else if str_eq s "read"
    then some op_read
    else if str_eq s "none"
    then some op_none
    else none

-- Whether the access is random.
unfoldable pub access_rnd_of : String → Option Bool
access_rnd_of s = if str_eq s "seq" then some false else if str_eq s "rnd" then some true else none

-- An unknown name is an error.
abbrev pub assign_option : {E A : Type 0} → Option A → (A → Globals → Globals) → Init E (Unit {0})
assign_option (some a) f = assign (f a)
assign_option none f = return_1

-- `pte_meta_type != 0 && pte_meta_type != 1` is an error.
unfoldable pub check_meta_type : {E : Type 0} → ℤ → Init E (Unit {0})
check_meta_type (pos zero) = pure tt
check_meta_type (pos (suc zero)) = pure tt
check_meta_type _ = return_1

-- The `switch` on `memory_oper`.
unfoldable pub handler : MemoryOper → Bool → EventHandler
handler op_none rnd = if rnd then rnd_none else seq_none
handler op_read rnd = if rnd then rnd_read else seq_read
handler op_write rnd = if rnd then rnd_write else seq_write

-- A null pointer from an allocation is an error.
abbrev pub allocated : {E : Type 0} → Option ℕ → Init E ℕ
allocated (some b) = pure b
allocated none = return_1

module _ (p : Platform) where
  open p use {E, page_size, sb_memalign, malloc, memset, enable_pte_meta}

  -- The page table of a buffer is expanded if that was asked for; a failure is only logged.
  unfoldable pub request_metadata : Bool → ℕ → Init E (Unit {0})
  request_metadata true buffer = platform (enable_pte_meta buffer) >> pure tt
  request_metadata false buffer = pure tt

  -- A buffer is allocated and cleared.
  unfoldable pub new_buffer : ℕ → Init E ℕ
  new_buffer size = do
    a ← platform (sb_memalign size page_size)
    buffer ← allocated a
    platform (λ e. (tt {0}, memset buffer 0 size e))
    g ← get_globals
    request_metadata g.pte_meta_enabled buffer
    pure buffer

  -- The buffer of one thread: the shared one, or one of its own.
  unfoldable pub thread_buffer : Option ℕ → ℕ → Init E ℕ
  thread_buffer (some b) size = pure b
  thread_buffer none size = new_buffer size

  -- The buffer that is allocated before the loop, with global scope.
  unfoldable pub shared_buffer : MemoryScope → ℕ → Init E (Option ℕ)
  shared_buffer scope_global size = do b ← new_buffer size; pure (some b)
  shared_buffer scope_local size = pure none

  -- The loop over the threads, with `n` of them left.
  unfoldable pub init_threads : ℕ → (shared : Option ℕ) → (threads : ℕ) → Init E (Unit {0})
  init_threads zero shared threads = pure tt
  init_threads (suc n) shared threads = do
    g ← get_globals
    buffer ← thread_buffer shared g.memory_block_size
    assign (λ g. record g {
      buffers = g.buffers ++ buffer ∷ [];
      thread_counters =
          g.thread_counters
          ++ events_per_thread g.memory_total_size g.memory_block_size threads ∷ [];
    })
    init_threads n shared threads

  unfoldable pub memory_init : Settings → Init E (Unit {0})
  memory_init o = do
    assign (λ g. record g { memory_block_size = o.block_size })
    if bad_block_size o.block_size then return_1 else pure tt
    assign (λ g. record g {
      max_offset = o.block_size / sizeof_size_t - 1;
      memory_total_size = o.total_size;
    })
    assign_option (scope_of o.scope) (λ x g. record g { memory_scope = x })
    assign (λ g. record g { pte_meta_enabled = o.pte_meta; pte_meta_type = o.pte_meta_type })
    check_meta_type o.pte_meta_type
    assign_option (oper_of o.oper) (λ x g. record g { memory_oper = x })
    assign_option (access_rnd_of o.access_mode) (λ x g. record g { memory_access_rnd = x })
    g ← get_globals
    shared ← shared_buffer g.memory_scope o.block_size
    counters ← platform (malloc (o.threads * 8))
    pointers ← platform (malloc (o.threads * 8))
    c ← allocated counters
    q ← allocated pointers
    assign (λ g. record g { buffers = []; thread_counters = [] })
    init_threads o.threads shared o.threads
    assign (λ g. record g {
      execute_event = some (handler g.memory_oper g.memory_access_rnd);
      max_events = 0;
    })
