-- ===== src/MemoryTest/Total.antt =====
-- The runs of `memory_init` of sb_memory.c on valid options.
use Prim.Native.Nat.{bit_and}
use Prim.Native.String.{String}
use bits_on_demand_pte_te.MemoryTest.Powers.{bit_and-power, pow_le, pow_lt}
use mathlib.Core.List.{append_assoc, append-nil}
use bits_on_demand_pte_te.Prelude.{
  ltb_of_lt, ◌^◌, ◌≤◌, ◌<◌, sym, ap, ◌∙◌, ℕ, zero, suc, ◌+◌, ◌-◌, ◌*◌, ◌/◌, ◌≡◌, refl, Bool, true,
  false, Option, none, some, [], ◌∷◌, ◌++◌, arith, ◌⊎◌, inl, inr,
}
use bits_on_demand_pte_te.Prelude.Lists.{length, replicate, length-append}
use bits_on_demand_pte_te.Pte.Machine.{ℤ, pos}
use bits_on_demand_pte_te.MemoryTest.Config.{
  MemoryOper, MemoryScope, scope_global, scope_local, Settings, EventHandler, op_none, op_read,
  op_write, rnd_none, rnd_read, rnd_write, seq_none, seq_read, seq_write, Globals, Platform, Step,
  next, and_then, Init,
}
use bits_on_demand_pte_te.MemoryTest.Init.{
  sizeof_size_t, not_power_of_2, bad_block_size, events_per_thread, scope_of, oper_of,
  access_rnd_of, check_meta_type, handler, request_metadata, new_buffer, thread_buffer,
  shared_buffer, init_threads, memory_init,
}

-- A step that goes on, in variables that meet a postcondition.
pub data Goes {E A : Type 0} (P : A → Globals → Type 0) : Step E A → Type 0 where
  goes : {a : A} {g : Globals} {e : E} → P a g → Goes P (next a g e)

Goes-bind :
    {E A B : Type 0} {P : A → Globals → Type 0} {Q : B → Globals → Type 0} {r : Step E A}
    {k : A → Init E B}
    → Goes P r
    → ((a : A) (g : Globals) (e : E) → P a g → Goes Q (k a g e))
    → Goes Q (and_then r k)
Goes-bind (goes p) f = f _ _ _ p

Goes-mono :
    {E A : Type 0} {P Q : A → Globals → Type 0} {r : Step E A}
    → Goes P r
    → ((a : A) (g : Globals) → P a g → Q a g)
    → Goes Q r
Goes-mono (goes p) weaken = goes (weaken _ _ p)

-- Every allocation succeeds.
pub record Allocating (p : Platform) : Type 0 where
  pub memalign :
      (size alignment : ℕ) (e : p.E) → (b : ℕ) × ((p.sb_memalign size alignment e).0 ≡ some b)
  pub malloc : (size : ℕ) (e : p.E) → (b : ℕ) × ((p.malloc size e).0 ≡ some b)

request_metadata-Goes :
    (p : Platform) (wanted : Bool) (buffer : ℕ) (g : Globals) (e : p.E)
    → Goes (λ _ h. h ≡ g) (request_metadata p wanted buffer g e)
unfolding request_metadata
request_metadata-Goes p true buffer g e = goes refl
request_metadata-Goes p false buffer g e = goes refl

-- The variables after the loop over the threads: each has a buffer and a counter.
pub record Filled (n q : ℕ) (g h : Globals) : Type 0 where
  pub buffers : length h.buffers ≡ length g.buffers + n
  pub counters : h.thread_counters ≡ g.thread_counters ++ replicate n q
  pub others : h ≡ record g { buffers = h.buffers; thread_counters = h.thread_counters }

Filled-step :
    (n q b : ℕ) (g h : Globals)
    → Filled n q
        (record g { buffers = g.buffers ++ b ∷ []; thread_counters = g.thread_counters ++ q ∷ [] })
        h
    → Filled (suc n) q g h
Filled-step n q b g h f = record {
  buffers = omega (arith, f.buffers, length-append g.buffers (b ∷ []));
  counters = f.counters ∙ append_assoc g.thread_counters (q ∷ []) (replicate n q);
  others = f.others;
}

module _ {p : Platform} (al : Allocating p) where
  -- No variable changes while a buffer is made.
  new_buffer-Goes : (size : ℕ) (g : Globals) (e : p.E) → Goes (λ _ h. h ≡ g) (new_buffer p size g e)
  unfolding new_buffer
  new_buffer-Goes size g e =
      rw ((al.memalign size p.page_size e).1)
        (Goes-bind (request_metadata-Goes p g.pte_meta_enabled _ g _) λ _ h f k. goes k)

  thread_buffer-Goes :
      (shared : Option ℕ) (size : ℕ) (g : Globals) (e : p.E)
      → Goes (λ _ h. h ≡ g) (thread_buffer p shared size g e)
  unfolding thread_buffer
  thread_buffer-Goes (some b) size g e = goes refl
  thread_buffer-Goes none size g e = new_buffer-Goes size g e

  shared_buffer-Goes :
      (sc : MemoryScope) (size : ℕ) (g : Globals) (e : p.E)
      → Goes (λ _ h. h ≡ g) (shared_buffer p sc size g e)
  unfolding shared_buffer
  shared_buffer-Goes scope_local size g e = goes refl
  shared_buffer-Goes scope_global size g e = Goes-bind (new_buffer-Goes size g e) λ _ h f k. goes k

  init_threads-Goes :
      (n : ℕ) (shared : Option ℕ) (threads : ℕ) (g : Globals) (e : p.E)
      → Goes
          (λ _ h. Filled n (events_per_thread g.memory_total_size g.memory_block_size threads) g h)
          (init_threads p n shared threads g e)
  unfolding init_threads
  init_threads-Goes zero shared threads g e = goes (record {
    buffers = omega arith;
    counters = sym (append-nil g.thread_counters);
    others = refl;
  })
  init_threads-Goes (suc n) shared threads g e =
      Goes-bind (thread_buffer-Goes shared g.memory_block_size g e) λ b h f k. rw k (
        Goes-mono
          (init_threads-Goes n shared threads
            (record g {
              buffers = g.buffers ++ b ∷ [];
              thread_counters =
                  g.thread_counters
                  ++ events_per_thread g.memory_total_size g.memory_block_size threads ∷ [];
            })
            f)
          (λ _ w. Filled-step n _ b g w))

-- The names of the scopes, of the operations and of the ways of access, where true is random access.
pub data IsScope : String → MemoryScope → Type 0 where
  global_scope : IsScope "global" scope_global
  local_scope : IsScope "local" scope_local

pub data IsOper : String → MemoryOper → Type 0 where
  no_oper : IsOper "none" op_none
  read_oper : IsOper "read" op_read
  write_oper : IsOper "write" op_write

pub data IsAccess : String → Bool → Type 0 where
  sequential : IsAccess "seq" false
  random : IsAccess "rnd" true

-- The event function for an operation and a way of access.
pub data IsHandler : MemoryOper → Bool → EventHandler → Type 0 where
  none_random : IsHandler op_none true rnd_none
  read_random : IsHandler op_read true rnd_read
  write_random : IsHandler op_write true rnd_write
  none_sequential : IsHandler op_none false seq_none
  read_sequential : IsHandler op_read false seq_read
  write_sequential : IsHandler op_write false seq_write

-- Options that are meant to be accepted, with what they stand for.
pub record Valid (o : Settings) (sc : MemoryScope) (mode : MemoryOper) (rnd : Bool) : Type 0 where
  pub exponent : ℕ
  pub block_size : o.block_size ≡ 2 ^ exponent
  pub word : 3 ≤ exponent
  pub small : exponent < 63
  pub total_size : o.total_size < 2 ^ 63
  pub scope : IsScope o.scope sc
  pub meta_type : (o.pte_meta_type ≡ pos 0) ⊎ (o.pte_meta_type ≡ pos 1)
  pub oper : IsOper o.oper mode
  pub access_mode : IsAccess o.access_mode rnd

scope_of-IsScope : {s : String} {sc : MemoryScope} → IsScope s sc → scope_of s ≡ some sc
unfolding scope_of
scope_of-IsScope global_scope = refl
scope_of-IsScope local_scope = refl

oper_of-IsOper : {s : String} {mode : MemoryOper} → IsOper s mode → oper_of s ≡ some mode
unfolding oper_of
oper_of-IsOper no_oper = refl
oper_of-IsOper read_oper = refl
oper_of-IsOper write_oper = refl

access_rnd_of-IsAccess : {s : String} {rnd : Bool} → IsAccess s rnd → access_rnd_of s ≡ some rnd
unfolding access_rnd_of
access_rnd_of-IsAccess sequential = refl
access_rnd_of-IsAccess random = refl

handler-IsHandler : (mode : MemoryOper) (rnd : Bool) → IsHandler mode rnd (handler mode rnd)
unfolding handler
handler-IsHandler op_none true = none_random
handler-IsHandler op_read true = read_random
handler-IsHandler op_write true = write_random
handler-IsHandler op_none false = none_sequential
handler-IsHandler op_read false = read_sequential
handler-IsHandler op_write false = write_sequential

bad_block_size-power :
    (o : Settings) (k : ℕ)
    → o.block_size ≡ 2 ^ k
    → 3 ≤ k
    → k < 63
    → bad_block_size o.block_size ≡ false
unfolding bad_block_size not_power_of_2
bad_block_size-power o k e l h =
    let low : 2 ^ 3 ≤ 2 ^ k = pow_le 3 k l in
    let high : 2 ^ k < 2 ^ 63 = pow_lt k 63 h in
    let digits : bit_and (2 ^ k) (2 ^ k - 1) ≡ 0 = bit_and-power k in
    rw (e, digits) (ground (arith, low, high))

-- The variables after `memory_init`.
pub record Initialised (o : Settings) (sc : MemoryScope) (mode : MemoryOper) (rnd : Bool)
    (g : Globals) : Type 0 where
  pub memory_block_size : g.memory_block_size ≡ o.block_size
  pub memory_total_size : g.memory_total_size ≡ o.total_size
  pub max_offset : g.max_offset ≡ o.block_size / 8 - 1
  pub pte_meta_enabled : g.pte_meta_enabled ≡ o.pte_meta
  pub pte_meta_type : g.pte_meta_type ≡ o.pte_meta_type
  pub memory_scope : g.memory_scope ≡ sc
  pub memory_oper : g.memory_oper ≡ mode
  pub memory_access_rnd : g.memory_access_rnd ≡ rnd
  pub buffers : length g.buffers ≡ o.threads
  pub thread_counters :
      g.thread_counters ≡ replicate o.threads (o.total_size / o.block_size / o.threads)
  pub chosen : EventHandler
  pub execute_event : g.execute_event ≡ some chosen
  pub is_handler : IsHandler mode rnd chosen
  pub max_events : g.max_events ≡ 0

meta_type-goes :
    {E : Type 0} (t : ℤ) (g : Globals) (e : E)
    → (t ≡ pos 0) ⊎ (t ≡ pos 1)
    → check_meta_type t g e ≡ next tt g e
unfolding check_meta_type
meta_type-goes t g e (inl h) = rw h
meta_type-goes t g e (inr h) = rw h

share :
    (total block threads : ℕ)
    → total < 2 ^ 63
    → events_per_thread total block threads ≡ total / block / threads
unfolding events_per_thread
share total block threads h = rw (ltb_of_lt total (2 ^ 63) h) refl

-- If every allocation succeeds, the block size is a power of 2 from 8 to 2^62, the total size is less
-- than 2^63, the names of the scope, the operation and the access are known and the type of metadata
-- is 0 or 1, then `memory_init` succeeds. It leaves the sizes, the modes and the event function that
-- the options stand for, as the last place of a block its number of 8-byte words less 1, no limit of
-- its own on the events (`max_events` is 0), and for each thread a buffer and its share of the events,
-- the total size divided by the block size and then by the number of threads.
pub memory_init-succeeds :
    {p : Platform} {o : Settings} {sc : MemoryScope} {mode : MemoryOper} {rnd : Bool} (g : Globals)
    (e : p.E)
    → Allocating p
    → Valid o sc mode rnd
    → Goes (λ _ h. Initialised o sc mode rnd h) (memory_init p o g e)
unfolding memory_init
memory_init-succeeds {p} {o} {sc} {mode} {rnd} g e al v =
    rw
      (
        bad_block_size-power o v.exponent v.block_size v.word v.small,
        scope_of-IsScope v.scope,
        meta_type-goes _ _ e v.meta_type,
        oper_of-IsOper v.oper,
        access_rnd_of-IsAccess v.access_mode,
      )
      (Goes-bind (shared_buffer-Goes al sc o.block_size (prepared g) e) λ shared h f k.
        rw (k, (al.malloc (o.threads * 8) f).1, (al.malloc (o.threads * 8) _).1)
          (Goes-bind
            (init_threads-Goes al o.threads shared o.threads
              (record (prepared g) { buffers = []; thread_counters = [] }) _)
            λ _ h w q. goes (record {
              memory_block_size = ap (λ k. k.memory_block_size) q.others;
              memory_total_size = ap (λ k. k.memory_total_size) q.others;
              max_offset = ap (λ k. k.max_offset) q.others;
              pte_meta_enabled = ap (λ k. k.pte_meta_enabled) q.others;
              pte_meta_type = ap (λ k. k.pte_meta_type) q.others;
              memory_scope = ap (λ k. k.memory_scope) q.others;
              memory_oper = ap (λ k. k.memory_oper) q.others;
              memory_access_rnd = ap (λ k. k.memory_access_rnd) q.others;
              buffers = omega (arith, q.buffers);
              thread_counters =
                  q.counters
                  ∙ ap (replicate o.threads)
                      (share o.total_size o.block_size o.threads v.total_size);
              chosen = handler mode rnd;
              execute_event = ap (λ k. some (handler k.memory_oper k.memory_access_rnd)) q.others;
              is_handler = handler-IsHandler mode rnd;
              max_events = refl;
            })))
  where
    prepared : Globals → Globals
    prepared g = record g {
      memory_block_size = o.block_size;
      memory_total_size = o.total_size;
      max_offset = o.block_size / sizeof_size_t - 1;
      pte_meta_enabled = o.pte_meta;
      pte_meta_type = o.pte_meta_type;
      memory_scope = sc;
      memory_oper = mode;
      memory_access_rnd = rnd;
    }
