-- ===== src/MemoryTest/Events/Coverage.antt =====
-- Which words of its buffer an event touches.
use bits_on_demand_pte_te.Prelude.{
  ℕ, zero, suc, ◌+◌, ◌*◌, ◌<◌, ◌≤◌, ◌≡◌, refl, ◌∙◌, Bool, List, [], ◌∷◌, ◌++◌, arith, ◌⊎◌, dec_lt,
}
use bits_on_demand_pte_te.Pte.Process.{update}
use bits_on_demand_pte_te.MemoryTest.Config.{
  Globals, EventHandler, rnd_none, rnd_read, rnd_write, seq_none, seq_read, seq_write,
}
use bits_on_demand_pte_te.MemoryTest.Events.{
  Access, nop, load, store, meta_get, meta_set, read_meta, write_meta, rounds, buffer_of, word_at,
  execute_event, event_seq_write,
}

-- All addresses of the accesses are those of whole words between `lo` and `hi`.
unfoldable pub Within : ℕ → ℕ → List Access → Type 0
Within lo hi [] = Unit
Within lo hi (nop ∷ r) = Within lo hi r
Within lo hi (load a ∷ r) = (lo ≤ a) × (a + 8 ≤ hi) × Within lo hi r
Within lo hi (store a v ∷ r) = (lo ≤ a) × (a + 8 ≤ hi) × Within lo hi r
Within lo hi (meta_get a n ∷ r) = (lo ≤ a) × (a + 8 ≤ hi) × Within lo hi r
Within lo hi (meta_set a mdp bytes ∷ r) = (lo ≤ a) × (a + 8 ≤ hi) × Within lo hi r

Within-rounds :
    (lo hi : ℕ) (body : ℕ → List Access) (n i : ℕ)
    → ((k : ℕ) (r : List Access) → k < n + i → Within lo hi r → Within lo hi (body k ++ r))
    → Within lo hi (rounds body n i)
unfolding rounds
Within-rounds lo hi body zero i h = unfold Within in tt
Within-rounds lo hi body (suc n) i h =
    h i (rounds body n (i + 1)) (omega arith)
      (Within-rounds lo hi body n (i + 1) (λ k r l p. h k r (omega arith) p))

Within-nop : (lo hi : ℕ) (r : List Access) → Within lo hi r → Within lo hi ((nop ∷ []) ++ r)
unfolding Within
Within-nop lo hi r p = p

Within-read :
    (lo hi : ℕ) (g : Globals) (a : ℕ) (r : List Access)
    → lo ≤ a
    → a + 8 ≤ hi
    → Within lo hi r
    → Within lo hi ((read_meta g a ++ load a ∷ []) ++ r)
unfolding Within read_meta
Within-read lo hi g a r l u p = ground arith

Within-write :
    (lo hi : ℕ) (g : Globals) (room : Bool) (a i v : ℕ) (r : List Access)
    → lo ≤ a
    → a + 8 ≤ hi
    → Within lo hi r
    → Within lo hi ((write_meta g room a i ++ store a v ∷ []) ++ r)
unfolding Within write_meta
Within-write lo hi g room a i v r l u p = ground arith

-- Every address that an event reads, writes or makes a metadata call for is that of a word inside
-- the thread's buffer of `max_offset + 1` words, if the random offsets are at most `max_offset`.
pub Within-execute_event :
    (g : Globals) (tid : ℕ) (offset : ℕ → ℕ) (room : ℕ → Bool) (h : EventHandler)
    → ((i : ℕ) → offset i ≤ g.max_offset)
    → Within
        (buffer_of g tid)
        (buffer_of g tid + 8 * (g.max_offset + 1))
        (execute_event g tid offset room h)
unfolding execute_event
Within-execute_event g tid offset room rnd_none low =
    Within-rounds _ _ (λ i. nop ∷ []) (g.max_offset + 1) 0 (λ k r l p. Within-nop _ _ r p)
Within-execute_event g tid offset room seq_none low =
    Within-rounds _ _ (λ i. nop ∷ []) (g.max_offset + 1) 0 (λ k r l p. Within-nop _ _ r p)
Within-execute_event g tid offset room rnd_read low =
    Within-rounds _ _ _ (g.max_offset + 1) 0
      (λ k r l p. Within-read _ _ g _ r (omega arith) (omega (arith, low k)) p)
Within-execute_event g tid offset room rnd_write low =
    Within-rounds _ _ _ (g.max_offset + 1) 0
      (λ k r l p. Within-write _ _ g (room k) _ k k r (omega arith) (omega (arith, low k)) p)
Within-execute_event g tid offset room seq_read low =
    Within-rounds _ _ _ g.max_offset 0
      (λ k r l p. Within-read _ _ g _ r (omega arith) (omega arith) p)
Within-execute_event g tid offset room seq_write low =
    Within-rounds _ _ _ g.max_offset 0
      (λ k r l p. Within-write _ _ g (room k) _ k tid r (omega arith) (omega arith) p)

-- Memory, a word at each address, after some accesses.
unfoldable pub run : List Access → (ℕ → ℕ) → ℕ → ℕ
run [] mem = mem
run (store a v ∷ r) mem = run r (update mem a v)
run (nop ∷ r) mem = run r mem
run (load a ∷ r) mem = run r mem
run (meta_get a n ∷ r) mem = run r mem
run (meta_set a mdp bytes ∷ r) mem = run r mem

run-write :
    (g : Globals) (room : Bool) (a i v : ℕ) (r : List Access) (mem : ℕ → ℕ)
    → run ((write_meta g room a i ++ store a v ∷ []) ++ r) mem ≡ run r (update mem a v)
unfolding run write_meta
run-write g room a i v r mem = ground arith

module _ (g : Globals) (room : ℕ → Bool) (buf tid : ℕ) where
  abbrev body : ℕ → List Access
  body i = write_meta g (room i) (word_at buf i) i ++ store (word_at buf i) tid ∷ []

  run-rounds-outside :
      (n i : ℕ) (mem : ℕ → ℕ) (j : ℕ)
      → (j < i) ⊎ (n + i ≤ j)
      → run (rounds body n i) mem (word_at buf j) ≡ mem (word_at buf j)
  unfolding rounds
  run-rounds-outside zero i mem j out = unfold run in refl
  run-rounds-outside (suc n) i mem j out =
      rw (run-write g (room i) (word_at buf i) i tid (rounds body n (i + 1)) mem) (
        run-rounds-outside n (i + 1) (update mem (word_at buf i) tid) j (omega arith)
        ∙ ground arith)

  run-rounds-inside :
      (n i : ℕ) (mem : ℕ → ℕ) (j : ℕ)
      → i ≤ j
      → j < n + i
      → run (rounds body n i) mem (word_at buf j) ≡ tid
  unfolding rounds
  run-rounds-inside zero i mem j low high = absurd (omega arith)
  run-rounds-inside (suc n) i mem j low high =
      rw (run-write g (room i) (word_at buf i) i tid (rounds body n (i + 1)) mem)
        (elim (dec_lt i j) [
          | yes later ↦
              run-rounds-inside n (i + 1) (update mem (word_at buf i) tid) j (omega arith)
                (omega arith)
          | no now ↦
              run-rounds-outside n (i + 1) (update mem (word_at buf i) tid) j (omega arith)
              ∙ ground arith
        ])

-- A sequential write event stores the thread's number in the words 0 to `max_offset - 1` of its
-- buffer, and leaves the last word, at `max_offset`, as it was.
pub run-event_seq_write :
    (g : Globals) (tid : ℕ) (offset : ℕ → ℕ) (room : ℕ → Bool) (mem : ℕ → ℕ)
    → ((j : ℕ)
        → j < g.max_offset
        → run (event_seq_write g tid offset room) mem (word_at (buffer_of g tid) j) ≡ tid)
      × (run (event_seq_write g tid offset room) mem (word_at (buffer_of g tid) g.max_offset)
          ≡ mem (word_at (buffer_of g tid) g.max_offset))
unfolding event_seq_write
run-event_seq_write g tid offset room mem = (
  λ j h.
      run-rounds-inside g room (buffer_of g tid) tid g.max_offset 0 mem j (omega arith)
        (omega arith),
  run-rounds-outside g room (buffer_of g tid) tid g.max_offset 0 mem g.max_offset (omega arith),
)
