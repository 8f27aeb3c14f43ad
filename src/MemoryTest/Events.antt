-- ===== src/MemoryTest/Events.antt =====
-- The event handlers of sb_memory.c, each as the list of accesses that one call makes in order, and
-- `memory_next_event`. The results of the metadata calls are only logged, so they steer nothing.
pub mod Metadata
pub mod Coverage
pub mod Quota
use bits_on_demand_pte_te.Prelude.{
  ℕ, zero, suc, ◌+◌, ◌-◌, ◌*◌, ◌%◌, ◌^◌, Bool, true, false, ◌&&◌, not, Option, none, some, List, [],
  ◌∷◌, ◌++◌, ltb, ◌==◌, if◌then◌else◌,
}
use bits_on_demand_pte_te.Prelude.Lists.{get_or, set}
use bits_on_demand_pte_te.Prelude.Words.{to_bytes}
use bits_on_demand_pte_te.Pte.Machine.{ℤ, is_zero}
use bits_on_demand_pte_te.MemoryTest.Config.{
  Globals, EventHandler, rnd_none, rnd_read, rnd_write, seq_none, seq_read, seq_write,
}

-- `nop` is the empty round of the handlers for `none`; `meta_get a n` is `get_pte_meta` at address
-- `a` with a buffer of `n` bytes; `meta_set a mdp bytes` is `set_pte_meta` with a pointer to `bytes`.
pub data Access : Type 0 where
  nop : Access
  load : (a : ℕ) → Access
  store : (a value : ℕ) → Access
  meta_get : (a size : ℕ) → Access
  meta_set : (a mdp : ℕ) (bytes : List ℕ) → Access

-- `struct metadata_header` of pte_meta_syscalls.h: four 32-bit fields.
pub record MetadataHeader : Type 0 where
  pub version : ℕ
  pub type : ℕ
  pub length : ℕ
  pub reserved : ℕ

unfoldable pub header_bytes : MetadataHeader → List ℕ
header_bytes h =
    to_bytes 4 h.version ++ (to_bytes 4 h.type ++ (to_bytes 4 h.length ++ to_bytes 4 h.reserved))

unfoldable pub set_pte_meta_direct : ℕ → ℕ → List Access
set_pte_meta_direct addr value = meta_set addr 0 (to_bytes 8 value) ∷ []

-- `room` tells whether `malloc` succeeds; if not, no call is made.
unfoldable pub set_pte_meta_structured :
    (room : Bool) → (addr version type : ℕ) (payload : List ℕ) (payload_len : ℕ) → List Access
unfolding header_bytes
set_pte_meta_structured false addr version type payload payload_len = []
set_pte_meta_structured true addr version type payload payload_len =
    meta_set addr 1 (
      header_bytes (record { version = version; type = type; length = payload_len; reserved = 0 })
      ++ payload)
    ∷ []

-- The metadata call before a read: a number, or a buffer of a header and 64 bytes.
unfoldable pub read_meta : Globals → ℕ → List Access
read_meta g addr =
    if g.pte_meta_enabled
    then (if is_zero g.pte_meta_type then meta_get addr 8 ∷ [] else meta_get addr (16 + 64) ∷ [])
    else []

-- The metadata call before a write, with the loop's counter as the metadata.
unfoldable pub write_meta : Globals → (room : Bool) → (addr counter : ℕ) → List Access
unfolding set_pte_meta_direct set_pte_meta_structured
write_meta g room addr counter =
    if g.pte_meta_enabled
    then (if is_zero g.pte_meta_type
        then set_pte_meta_direct addr counter
        else set_pte_meta_structured room addr 1 0x1234 (to_bytes 8 counter) 8)
    else []

-- `rounds` repeats a body from index `i` on, with `n` rounds left.
unfoldable pub rounds : (ℕ → List Access) → (n i : ℕ) → List Access
rounds body zero i = []
rounds body (suc n) i = body i ++ rounds body n (i + 1)

-- `buffers[tid]`, and the word at an offset in it.
abbrev pub buffer_of : Globals → ℕ → ℕ
buffer_of g tid = get_or g.buffers tid 0

abbrev pub word_at : ℕ → ℕ → ℕ
word_at buf offset = buf + 8 * offset

-- `offset i` is what `sb_rand_default(0, max_offset)` returns in round `i`, and `room i` whether
-- `malloc` succeeds there.
module _ (g : Globals) (tid : ℕ) (offset : ℕ → ℕ) (room : ℕ → Bool) where
  unfoldable pub event_rnd_none : List Access
  unfolding rounds
  event_rnd_none = rounds (λ i. nop ∷ []) (g.max_offset + 1) 0

  unfoldable pub event_rnd_read : List Access
  unfolding rounds
  event_rnd_read =
      rounds
        (λ i.
          read_meta g (word_at (buffer_of g tid) (offset i))
          ++ load (word_at (buffer_of g tid) (offset i)) ∷ [])
        (g.max_offset + 1) 0

  unfoldable pub event_rnd_write : List Access
  unfolding rounds
  event_rnd_write =
      rounds
        (λ i.
          write_meta g (room i) (word_at (buffer_of g tid) (offset i)) i
          ++ store (word_at (buffer_of g tid) (offset i)) i ∷ [])
        (g.max_offset + 1) 0

  -- `buf <= end`
  unfoldable pub event_seq_none : List Access
  unfolding rounds
  event_seq_none = rounds (λ i. nop ∷ []) (g.max_offset + 1) 0

  -- `buf < end`
  unfoldable pub event_seq_read : List Access
  unfolding rounds
  event_seq_read =
      rounds
        (λ i. read_meta g (word_at (buffer_of g tid) i) ++ load (word_at (buffer_of g tid) i) ∷ [])
        g.max_offset 0

  unfoldable pub event_seq_write : List Access
  unfolding rounds
  event_seq_write =
      rounds
        (λ i.
          write_meta g (room i) (word_at (buffer_of g tid) i) i
          ++ store (word_at (buffer_of g tid) i) tid ∷ [])
        g.max_offset 0

  -- `memory_test.ops.execute_event`
  unfoldable pub execute_event : EventHandler → List Access
  unfolding event_rnd_none event_rnd_read event_rnd_write event_seq_none event_seq_read
      event_seq_write
  execute_event rnd_none = event_rnd_none
  execute_event rnd_read = event_rnd_read
  execute_event rnd_write = event_rnd_write
  execute_event seq_none = event_seq_none
  execute_event seq_read = event_seq_read
  execute_event seq_write = event_seq_write

-- True is a request of type SB_REQ_TYPE_MEMORY, false one of type SB_REQ_TYPE_NULL. The counter is
-- a `uint64_t`: it is taken down by one also when it is 0.
unfoldable pub memory_next_event : Globals → ℕ → Bool × Globals
memory_next_event g tid =
    if ltb 0 g.memory_total_size && ltb g.memory_total_size (2 ^ 63)
    then (
      not (get_or g.thread_counters tid 0 == 0),
      record g {
        thread_counters =
            set g.thread_counters tid ((get_or g.thread_counters tid 0 + (2 ^ 64 - 1)) % 2 ^ 64);
      },
    )
    else (true, g)
