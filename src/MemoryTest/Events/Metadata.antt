-- ===== src/MemoryTest/Events/Metadata.antt =====
-- What the metadata calls add to the accesses of an event, and the buffer that they send.
use bits_on_demand_pte_te.Prelude.{
  ℕ, zero, suc, ◌+◌, ◌^◌, ◌<◌, ◌≡◌, refl, ap, ap₂, sym, ◌∙◌, Bool, true, false, List, [], ◌∷◌, ◌++◌,
  arith,
}
use bits_on_demand_pte_te.Prelude.Lists.{length, take, drop, length-append}
use bits_on_demand_pte_te.Prelude.Words.{to_bytes, of_bytes, of_bytes-to_bytes}
use bits_on_demand_pte_te.MemoryTest.Config.{
  Globals, EventHandler, rnd_none, rnd_read, rnd_write, seq_none, seq_read, seq_write,
}
use bits_on_demand_pte_te.MemoryTest.Events.{
  Access, nop, load, store, meta_get, meta_set, MetadataHeader, header_bytes,
  set_pte_meta_structured, read_meta, write_meta, rounds, execute_event,
}

-- An event's accesses without the metadata calls.
unfoldable pub erase : List Access → List Access
erase [] = []
erase (meta_get a n ∷ r) = erase r
erase (meta_set a mdp bytes ∷ r) = erase r
erase (nop ∷ r) = nop ∷ erase r
erase (load a ∷ r) = load a ∷ erase r
erase (store a v ∷ r) = store a v ∷ erase r

erase-append : (xs ys : List Access) → erase (xs ++ ys) ≡ erase xs ++ erase ys
unfolding erase
erase-append [] ys = refl
erase-append (meta_get a n ∷ r) ys = erase-append r ys
erase-append (meta_set a mdp bytes ∷ r) ys = erase-append r ys
erase-append (nop ∷ r) ys = ap (λ l. nop ∷ l) (erase-append r ys)
erase-append (load a ∷ r) ys = ap (λ l. load a ∷ l) (erase-append r ys)
erase-append (store a v ∷ r) ys = ap (λ l. store a v ∷ l) (erase-append r ys)

erase-rounds :
    (body plain : ℕ → List Access) (n i : ℕ)
    → ((k : ℕ) → erase (body k) ≡ plain k)
    → erase (rounds body n i) ≡ rounds plain n i
unfolding rounds
erase-rounds body plain zero i h = unfold erase in refl
erase-rounds body plain (suc n) i h =
    erase-append (body i) (rounds body n (i + 1))
    ∙ ap₂ ◌++◌ (h i) (erase-rounds body plain n (i + 1) h)

abbrev pub without_meta : Globals → Globals
without_meta g = record g { pte_meta_enabled = false }

erase-nop : (i : ℕ) → erase (nop ∷ []) ≡ nop ∷ []
unfolding erase
erase-nop i = refl

erase-read : (g : Globals) (a : ℕ) → erase (read_meta g a ++ load a ∷ []) ≡ load a ∷ []
unfolding erase read_meta
erase-read g a = ground arith

erase-write :
    (g : Globals) (room : Bool) (a i v : ℕ)
    → erase (write_meta g room a i ++ store a v ∷ []) ≡ store a v ∷ []
unfolding erase write_meta
erase-write g room a i v = ground arith

plain-read : (g : Globals) (a : ℕ) → read_meta (without_meta g) a ++ load a ∷ [] ≡ load a ∷ []
unfolding read_meta
plain-read g a = refl

plain-write :
    (g : Globals) (room : Bool) (a i v : ℕ)
    → write_meta (without_meta g) room a i ++ store a v ∷ [] ≡ store a v ∷ []
unfolding write_meta
plain-write g room a i v = refl

-- With the metadata calls taken out, each event makes the accesses that it makes with
-- `--memory-pte-meta=off`.
pub erase-execute_event :
    (g : Globals) (tid : ℕ) (offset : ℕ → ℕ) (room : ℕ → Bool) (h : EventHandler)
    → erase (execute_event g tid offset room h) ≡ execute_event (without_meta g) tid offset room h
unfolding execute_event
erase-execute_event g tid offset room rnd_none = erase-rounds _ _ (g.max_offset + 1) 0 erase-nop
erase-execute_event g tid offset room seq_none = erase-rounds _ _ (g.max_offset + 1) 0 erase-nop
erase-execute_event g tid offset room rnd_read =
    erase-rounds _ _ (g.max_offset + 1) 0 (λ k. erase-read g _ ∙ sym (plain-read g _))
erase-execute_event g tid offset room seq_read =
    erase-rounds _ _ g.max_offset 0 (λ k. erase-read g _ ∙ sym (plain-read g _))
erase-execute_event g tid offset room rnd_write =
    erase-rounds _ _ (g.max_offset + 1) 0
      (λ k. erase-write g (room k) _ k k ∙ sym (plain-write g (room k) _ k k))
erase-execute_event g tid offset room seq_write =
    erase-rounds _ _ g.max_offset 0
      (λ k. erase-write g (room k) _ k tid ∙ sym (plain-write g (room k) _ k tid))

-- Each load and each store comes directly behind a metadata call at its address.
unfoldable pub Paired : List Access → Type 0
Paired [] = Unit
Paired (nop ∷ r) = Paired r
Paired (meta_get a n ∷ load b ∷ r) = (a ≡ b) × Paired r
Paired (meta_set a mdp bytes ∷ store b v ∷ r) = (a ≡ b) × Paired r
Paired _ = ⊥

Paired-rounds :
    (body : ℕ → List Access) (n i : ℕ)
    → ((k : ℕ) (r : List Access) → Paired r → Paired (body k ++ r))
    → Paired (rounds body n i)
unfolding rounds
Paired-rounds body zero i h = unfold Paired in tt
Paired-rounds body (suc n) i h = h i _ (Paired-rounds body n (i + 1) h)

Paired-nop : (i : ℕ) (r : List Access) → Paired r → Paired ((nop ∷ []) ++ r)
unfolding Paired
Paired-nop i r p = p

Paired-read :
    (g : Globals) (a : ℕ) (r : List Access)
    → g.pte_meta_enabled ≡ true
    → Paired r
    → Paired ((read_meta g a ++ load a ∷ []) ++ r)
unfolding Paired read_meta
Paired-read g a r on p = ground arith

Paired-write :
    (g : Globals) (a i v : ℕ) (r : List Access)
    → g.pte_meta_enabled ≡ true
    → Paired r
    → Paired ((write_meta g true a i ++ store a v ∷ []) ++ r)
unfolding Paired write_meta
Paired-write g a i v r on p = ground arith

-- With `--memory-pte-meta=on`, and while `malloc` succeeds, every load and every store of an event
-- comes directly behind one metadata call at the same address.
pub Paired-execute_event :
    (g : Globals) (tid : ℕ) (offset : ℕ → ℕ) (h : EventHandler)
    → g.pte_meta_enabled ≡ true
    → Paired (execute_event g tid offset (λ i. true) h)
unfolding execute_event
Paired-execute_event g tid offset rnd_none on =
    Paired-rounds (λ i. nop ∷ []) (g.max_offset + 1) 0 Paired-nop
Paired-execute_event g tid offset seq_none on =
    Paired-rounds (λ i. nop ∷ []) (g.max_offset + 1) 0 Paired-nop
Paired-execute_event g tid offset rnd_read on =
    Paired-rounds _ (g.max_offset + 1) 0 (λ k r p. Paired-read g _ r on p)
Paired-execute_event g tid offset seq_read on =
    Paired-rounds _ g.max_offset 0 (λ k r p. Paired-read g _ r on p)
Paired-execute_event g tid offset rnd_write on =
    Paired-rounds _ (g.max_offset + 1) 0 (λ k r p. Paired-write g _ k k r on p)
Paired-execute_event g tid offset seq_write on =
    Paired-rounds _ g.max_offset 0 (λ k r p. Paired-write g _ k tid r on p)

-- The header that a kernel finds at the start of a buffer.
unfoldable pub header_at : List ℕ → MetadataHeader
header_at b = record {
  version = of_bytes (take 4 b);
  type = of_bytes (take 4 (drop 4 b));
  length = of_bytes (take 4 (drop 8 b));
  reserved = of_bytes (take 4 (drop 12 b));
}

-- Every field fits in its 32 bits.
pub record Fits (h : MetadataHeader) : Type 0 where
  pub version : h.version < 2 ^ 32
  pub type : h.type < 2 ^ 32
  pub length : h.length < 2 ^ 32
  pub reserved : h.reserved < 2 ^ 32

header_at-header_bytes :
    (h : MetadataHeader) (payload : List ℕ) → Fits h → header_at (header_bytes h ++ payload) ≡ h
unfolding header_at header_bytes to_bytes
header_at-header_bytes h payload f = λ i. record {
  version = of_bytes-to_bytes 4 h.version f.version i;
  type = of_bytes-to_bytes 4 h.type f.type i;
  length = of_bytes-to_bytes 4 h.length f.length i;
  reserved = of_bytes-to_bytes 4 h.reserved f.reserved i;
}

length-header_bytes : (h : MetadataHeader) → length (header_bytes h) ≡ 16
unfolding header_bytes to_bytes
length-header_bytes h = refl

drop-header_bytes :
    (h : MetadataHeader) (payload : List ℕ) → drop 16 (header_bytes h ++ payload) ≡ payload
unfolding header_bytes to_bytes
drop-header_bytes h payload = refl

-- The structured call is the one call with MDP=1, at the given address, with a buffer of 16 bytes
-- more than the payload, at whose start the header reads back field by field, `reserved` being 0,
-- and whose rest is the payload; provided `malloc` succeeds, the version and the type fit in 32
-- bits, and the length is that of the payload and fits too.
pub set_pte_meta_structured-roundtrip :
    (addr version type : ℕ) (payload : List ℕ)
    → version < 2 ^ 32
    → type < 2 ^ 32
    → length payload < 2 ^ 32
    → (buffer : List ℕ) × (set_pte_meta_structured true addr version type payload (length payload)
        ≡ meta_set addr 1 buffer ∷ [])
      × (length buffer ≡ 16 + length payload)
      × (header_at buffer
          ≡ record { version = version; type = type; length = length payload; reserved = 0 })
      × (drop 16 buffer ≡ payload)
unfolding set_pte_meta_structured
set_pte_meta_structured-roundtrip addr version type payload v t n =
    let h : MetadataHeader = record {
      version = version;
      type = type;
      length = length payload;
      reserved = 0;
    } in
    (
      header_bytes h ++ payload,
      refl,
      omega (arith, length-append (header_bytes h) payload, length-header_bytes h),
      header_at-header_bytes h payload
          (record { version = v; type = t; length = n; reserved = omega arith }),
      drop-header_bytes h payload,
    )
