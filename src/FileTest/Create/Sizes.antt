-- ===== src/FileTest/Create/Sizes.antt =====
-- The sizes of the files that `create_files` of sb_fileio.c leaves.
use mathlib.Core.List.{append_assoc, append-nil}
use bits_on_demand_pte_te.Prelude.{
  ℕ, zero, suc, ◌+◌, ◌-◌, ◌≤◌, ◌<◌, ◌≡◌, refl, sym, ap, subst, ◌∙◌, true, false, Bool-cases, inl,
  inr, some, List, [], ◌∷◌, ◌++◌, leb, arith,
}
use bits_on_demand_pte_te.Prelude.Lists.{length, take, drop, get_or, length-append}
use bits_on_demand_pte_te.Prelude.Words.{to_bytes, length-to_bytes}
use bits_on_demand_pte_te.Options.Outcome.{Outcome, parsed}
use bits_on_demand_pte_te.FileTest.Requests.{Config}
use bits_on_demand_pte_te.FileTest.Buffer.{trailer, is_outside, random_bytes, file_fill_buffer}
use bits_on_demand_pte_te.FileTest.Create.{
  Disks, block_buffer, write_blocks, create_file, create_from, create_files,
}

length-take : (n : ℕ) (xs : List ℕ) → n ≤ length xs → length (take n xs) ≡ n
length-take zero xs h = refl
length-take (suc n) [] h = absurd (omega (arith, h))
length-take (suc n) (x ∷ xs) h = omega (arith, length-take n xs (omega (arith, h)))

length-drop : (n : ℕ) (xs : List ℕ) → length (drop n xs) ≡ length xs - n
length-drop zero xs = omega arith
length-drop (suc n) [] = omega arith
length-drop (suc n) (x ∷ xs) = omega (arith, length-drop n xs)

length-random_bytes : (random : ℕ → ℕ) (i n : ℕ) → length (random_bytes random i n) ≡ n
unfolding random_bytes
length-random_bytes random i zero = refl
length-random_bytes random i (suc n) = omega (arith, length-random_bytes random (i + 1) n)

-- A disk that takes every block.
pub record Works (c : Config) (d : Disks) : Type 0 where
  pub flags : d.known_flags ≡ true
  pub opening : (file : ℕ) → d.opens file ≡ true
  pub whole : (file offset : ℕ) → d.writes file offset ≡ some c.block_size

-- Blocks are not empty, and one for validation has room for the checksum and the offset.
pub record Blocked (c : Config) : Type 0 where
  pub some_bytes : 0 < c.block_size
  pub room : c.validate ≡ true → trailer ≤ c.block_size

module _ (c : Config) (d : Disks) (works : Works c d) (blocked : Blocked c) where
  Filled : (file offset : ℕ) → List ℕ → Type 0
  Filled file offset buf =
      (buf' : List ℕ) × (block_buffer c d file offset buf ≡ parsed buf')
      × (c.block_size ≤ length buf')

  block_buffer-Filled :
      (file offset : ℕ) (buf : List ℕ) → c.block_size ≤ length buf → Filled file offset buf
  unfolding Filled block_buffer file_fill_buffer
  block_buffer-Filled file offset buf h = elim (Bool-cases c.validate) [
    | inr plain ↦ (buf, rw plain refl, h)
    | inl validated ↦
        let room = blocked.room validated in
        let inside : is_outside buf c.block_size ≡ false = ground (arith, room, h) in
        let bytes = random_bytes (d.random file offset) 0 (c.block_size - trailer) in
        let tail = to_bytes 8 offset ++ drop c.block_size buf in
        let crc = to_bytes 4 (d.crc32 bytes) in
        (
          bytes ++ (crc ++ tail),
          rw (validated, inside) refl,
          omega (
            arith,
            room,
            h,
            length-append bytes (crc ++ tail),
            length-append crc tail,
            length-append (to_bytes 8 offset) (drop c.block_size buf),
            length-to_bytes 4 (d.crc32 bytes),
            length-to_bytes 8 offset,
            length-drop c.block_size buf,
            length-random_bytes (d.random file offset) 0 (c.block_size - trailer),
          ),
        )
  ]

  -- The old bytes stay in front, and the size of the file is reached.
  Reaches : List ℕ → Outcome (List ℕ × List ℕ) → Type 0
  Reaches bytes r =
      (more : List ℕ) × (buf : List ℕ) × (r ≡ parsed (bytes ++ more, buf))
      × (c.file_size ≤ length (bytes ++ more))
      × (c.block_size ≤ length buf)

  write_blocks-Reaches :
      (rounds file offset : ℕ) (bytes buf : List ℕ)
      → offset ≡ length bytes
      → c.file_size ≤ offset + rounds
      → c.block_size ≤ length buf
      → Reaches bytes (write_blocks c d rounds file offset bytes buf)
  unfolding Reaches write_blocks Filled
  write_blocks-Reaches zero file offset bytes buf o f h = (
    [],
    buf,
    ap (λ b. parsed (b, buf)) (sym (append-nil bytes)),
    omega (arith, o, f, length-append bytes []),
    h,
  )
  write_blocks-Reaches (suc rounds) file offset bytes buf o f h =
      elim (Bool-cases (leb c.file_size offset)) [
        | inl y ↦ (
          [],
          buf,
          rw y (ap (λ b. parsed (b, buf)) (sym (append-nil bytes))),
          ground (arith, o, y, length-append bytes []),
          h,
        )
        | inr n ↦
            let (buf', filled, h') = block_buffer-Filled file offset buf h in
            let block = take c.block_size buf' in
            let whole = take c.block_size block in
            let size : length whole ≡ c.block_size =
              length-take c.block_size block (omega (arith, length-take c.block_size buf' h')) in
            let (more, buf'', e, reached, h'') =
              write_blocks-Reaches rounds file (offset + c.block_size) (bytes ++ whole) buf'
                (omega (arith, o, size, length-append bytes whole))
                (omega (arith, f, blocked.some_bytes)) h' in
            (
              whole ++ more,
              buf'',
              rw (n, filled, works.whole file offset)
                  (e ∙ ap (λ b. parsed (b, buf'')) (append_assoc bytes whole more)),
              subst (λ b. c.file_size ≤ length b) (append_assoc bytes whole more) reached,
              h'',
            )
      ]

  create_file-Reaches :
      (file : ℕ) (bytes buf : List ℕ)
      → c.block_size ≤ length buf
      → Reaches bytes (create_file c d file bytes buf)
  unfolding create_file
  create_file-Reaches file bytes buf h =
      rw (works.opening file)
        (write_blocks-Reaches c.file_size file (length bytes) bytes buf refl (omega arith) h)

  -- Each of the first `n` files has its old bytes in front, if it was there, and the size of the test.
  pub data Extended : (n : ℕ) (old new : List (List ℕ)) → Type 0 where
    no_file : {files : List (List ℕ)} → Extended zero files files
    extended :
        {n : ℕ} (more : List ℕ) {old new : List (List ℕ)}
        → c.file_size ≤ length (get_or old 0 [] ++ more)
        → Extended n (drop 1 old) new
        → Extended (suc n) old ((get_or old 0 [] ++ more) ∷ new)

  create_from-Extended :
      (n file : ℕ) (files : List (List ℕ)) (buf : List ℕ)
      → c.block_size ≤ length buf
      → (new : List (List ℕ)) × (buf' : List ℕ) × (create_from c d n file files buf
          ≡ parsed (new, buf'))
        × Extended n files new
  unfolding create_from Reaches
  create_from-Extended zero file files buf h = (files, buf, refl, no_file)
  create_from-Extended (suc n) file files buf h =
      let (more, buf', e, reached, h') = create_file-Reaches file (get_or files 0 []) buf h in
      let (new, buf'', e', rest) = create_from-Extended n (file + 1) (drop 1 files) buf' h' in
      ((get_or files 0 [] ++ more) ∷ new, buf'', rw (e, e') refl, extended more reached rest)

  -- If the flags are known, every file can be opened and every block is written as a whole, blocks are not
  -- empty, with validation they have room for 12 bytes more, and the buffer has the size of a
  -- block: `create_files` ends and returns 0, each of the `num_files` first files has its old bytes, if it
  -- was there, in front of the new ones and at least the size of the test's files, and the others are as they were.
  pub create_files-Extended :
      (files : List (List ℕ)) (buf : List ℕ)
      → c.block_size ≤ length buf
      → (new : List (List ℕ)) × (buf' : List ℕ) × (create_files c d files buf ≡ parsed (new, buf'))
        × Extended c.num_files files new
  unfolding create_files
  create_files-Extended files buf h =
      rw works.flags (create_from-Extended c.num_files 0 files buf h)
