-- ===== src/MemoryTest/Events/Quota.antt =====
-- How many events a thread gets from `memory_next_event`.
use native.Mathlib.Nat.{mul-le-mul_right, div-mul-le_self, lt-div-mul-add}
use bits_on_demand_pte_te.Prelude.{
  ℕ, zero, suc, ◌+◌, ◌-◌, ◌*◌, ◌/◌, ◌%◌, ◌^◌, ◌<◌, ◌≤◌, ◌≡◌, ap, ap₂, ◌∙◌, ltb_of_lt, Bool, true,
  false, List, [], ◌∷◌, ◌++◌, arith,
}
use bits_on_demand_pte_te.Prelude.Lists.{length, get_or, replicate, length-set, get_or-set}
use bits_on_demand_pte_te.MemoryTest.Config.{Globals}
use bits_on_demand_pte_te.MemoryTest.Init.{events_per_thread}
use bits_on_demand_pte_te.MemoryTest.Events.{memory_next_event}

-- The kinds of the next `n` requests of a thread.
unfoldable pub next_events : ℕ → Globals → ℕ → List Bool
next_events zero g tid = []
next_events (suc n) g tid =
    (memory_next_event g tid).0 ∷ next_events n (memory_next_event g tid).1 tid

-- A positive size, as a signed number.
pub record Limited (g : Globals) (tid : ℕ) : Type 0 where
  pub positive : 0 < g.memory_total_size
  pub signed : g.memory_total_size < 2 ^ 63
  pub thread : tid < length g.thread_counters

next_event-spent :
    (g : Globals) (tid : ℕ)
    → Limited g tid
    → get_or g.thread_counters tid 0 ≡ 0
    → (memory_next_event g tid).0 ≡ false
unfolding memory_next_event
next_event-spent g tid l e =
    rw (ltb_of_lt 0 g.memory_total_size l.positive, ltb_of_lt g.memory_total_size (2 ^ 63) l.signed)
      (ground arith)

next_event-Limited :
    (n : ℕ) (g : Globals) (tid : ℕ)
    → Limited g tid
    → suc n < 2 ^ 64
    → get_or g.thread_counters tid 0 ≡ suc n
    → ((memory_next_event g tid).0 ≡ true)
      × Limited (memory_next_event g tid).1 tid
      × (get_or (memory_next_event g tid).1.thread_counters tid 0 ≡ n)
unfolding memory_next_event
next_event-Limited n g tid l h e =
    let old = get_or g.thread_counters tid 0 in
    let new = (old + (2 ^ 64 - 1)) % 2 ^ 64 in
    let size = length-set g.thread_counters tid new in
    let value = get_or-set g.thread_counters tid new 0 l.thread in
    let down : new ≡ n = omega arith in
    rw (ltb_of_lt 0 g.memory_total_size l.positive, ltb_of_lt g.memory_total_size (2 ^ 63) l.signed)
      (
        ground arith,
        record { positive = l.positive; signed = l.signed; thread = omega (arith, size) },
        value ∙ down,
      )

-- A thread with counter `n`, below 2^64, gets `n` requests of type SB_REQ_TYPE_MEMORY and then one
-- of type SB_REQ_TYPE_NULL, if the total size is above 0 and below 2^63 and the thread has a
-- counter.
pub next_events-Limited :
    (n : ℕ) (g : Globals) (tid : ℕ)
    → Limited g tid
    → n < 2 ^ 64
    → get_or g.thread_counters tid 0 ≡ n
    → next_events (suc n) g tid ≡ replicate n true ++ false ∷ []
unfolding next_events
next_events-Limited zero g tid l h e = ap (λ (b : Bool). b ∷ []) (next_event-spent g tid l e)
next_events-Limited (suc n) g tid l h e =
    let (here, l', e') = next_event-Limited n g tid l h e in
    ap₂ ◌∷◌ here (next_events-Limited n (memory_next_event g tid).1 tid l' (omega arith) e')

-- The events of all threads together transfer no more than the total size, and fall short of it by
-- less than a block for each thread; for a total size below 2^63 and at least one thread and one
-- byte in a block.
pub events_per_thread-bounds :
    (total block threads : ℕ)
    → total < 2 ^ 63
    → 0 < block
    → 0 < threads
    → (events_per_thread total block threads * threads * block ≤ total)
      × (total < (events_per_thread total block threads + 1) * threads * block)
unfolding events_per_thread
events_per_thread-bounds total block threads small b t =
    let blocks = total / block in
    let q = blocks / threads in
    rw (ltb_of_lt total (2 ^ 63) small) (
      omega (
        arith,
        mul-le-mul_right block (div-mul-le_self blocks threads),
        div-mul-le_self total block,
      ),
      omega (
        arith,
        mul-le-mul_right block (lt-div-mul-add {a = blocks} t),
        lt-div-mul-add {a = total} b,
      ),
    )
