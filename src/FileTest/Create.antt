-- ===== src/FileTest/Create.antt =====
-- `create_files` of sb_fileio.c. A file is its bytes, with none where it is not there yet. The files are
-- those of the numbers from 0 on; what
-- stands behind the end of the list is not there.
pub mod Sizes
use bits_on_demand_pte_te.Prelude.{
  ℕ, zero, suc, ◌+◌, Bool, true, false, not, Option, none, some, List, [], ◌∷◌, ◌++◌, leb,
  if◌then◌else◌,
}
use bits_on_demand_pte_te.Prelude.Lists.{length, take, drop, get_or}
use bits_on_demand_pte_te.Options.Outcome.{
  Outcome, parsed, refused, exited, undefined, ◌>>=◌, refuse_if,
}
use bits_on_demand_pte_te.FileTest.Requests.{Config}
use bits_on_demand_pte_te.FileTest.Buffer.{file_fill_buffer}

-- What the system answers: whether the flags are known and a file can be opened, how many bytes
-- `write` writes, or none for an error, `crc32`, and the random bytes of a block.
pub record Disks : Type 0 where
  pub known_flags : Bool
  pub opens : ℕ → Bool
  pub writes : (file offset : ℕ) → Option ℕ
  pub crc32 : List ℕ → ℕ
  pub random : (file offset : ℕ) → ℕ → ℕ

abbrev pub or_refused : Option ℕ → Outcome ℕ
or_refused none = refused
or_refused (some n) = parsed n

abbrev pub or_outside : Option (List ℕ) → Outcome (List ℕ)
or_outside none = undefined
or_outside (some buf) = parsed buf

module _ (c : Config) (d : Disks) where
  -- With validation the buffer is filled anew.
  unfoldable pub block_buffer : (file offset : ℕ) → List ℕ → Outcome (List ℕ)
  unfolding file_fill_buffer
  block_buffer file offset buf =
      if c.validate
      then or_outside (file_fill_buffer d.crc32 (d.random file offset) buf c.block_size offset)
      else parsed buf

  -- The loop over the blocks of a file, with `rounds` for it.
  unfoldable pub write_blocks :
      (rounds file offset : ℕ) (bytes buf : List ℕ) → Outcome (List ℕ × List ℕ)
  unfolding block_buffer
  write_blocks zero file offset bytes buf = parsed (bytes, buf)
  write_blocks (suc rounds) file offset bytes buf =
      if leb c.file_size offset
      then parsed (bytes, buf)
      else (block_buffer file offset buf >>= λ buf'. or_refused (d.writes file offset) >>= λ n.
          write_blocks rounds file (offset + c.block_size)
            (bytes ++ take n (take c.block_size buf')) buf')

  -- The position is the end of the file.
  unfoldable pub create_file : (file : ℕ) (bytes buf : List ℕ) → Outcome (List ℕ × List ℕ)
  unfolding write_blocks
  create_file file bytes buf = do
    _ ← refuse_if (not (d.opens file))
    write_blocks c.file_size file (length bytes) bytes buf

  -- The loop `i < num_files`, with `n` files left, from the number `file` on, and the buffer of the
  -- first thread. The files behind them stay.
  unfoldable pub create_from :
      (n file : ℕ) → List (List ℕ) → List ℕ → Outcome (List (List ℕ) × List ℕ)
  unfolding create_file
  create_from zero file files buf = parsed (files, buf)
  create_from (suc n) file files buf = do
    (bytes', buf') ← create_file file (get_or files 0 []) buf
    (files', buf'') ← create_from n (file + 1) (drop 1 files) buf'
    parsed (bytes' ∷ files', buf'')

  unfoldable pub create_files : List (List ℕ) → List ℕ → Outcome (List (List ℕ) × List ℕ)
  unfolding create_from
  create_files files buf = do _ ← refuse_if (not d.known_flags); create_from c.num_files 0 files buf
