-- ===== src/FileTest/Buffer.antt =====
-- The blocks that sb_fileio.c writes and checks with validation: random bytes, their checksum and
-- the block's offset. `crc32` of tests/fileio/crc32.c, a copy of zlib's, and the random numbers are
-- parameters. None is an access outside of the buffer.
pub mod RoundTrip
use bits_on_demand_pte_te.Prelude.{
  ℕ, zero, suc, ◌+◌, ◌-◌, ◌%◌, ◌^◌, Bool, true, false, ◌||◌, Option, none, some, List, [], ◌∷◌,
  ◌++◌, ◌!=◌, ltb, if◌then◌else◌,
}
use bits_on_demand_pte_te.Prelude.Lists.{length, take, drop}
use bits_on_demand_pte_te.Prelude.Words.{to_bytes, of_bytes}

-- FILE_CHECKSUM_LENGTH + FILE_OFFSET_LENGTH
abbrev pub trailer : ℕ
trailer = 12

-- `n` rounds of the loop from `i` on, with the numbers of sb_rand_uniform_uint64 in order.
unfoldable pub random_bytes : (random : ℕ → ℕ) → (i n : ℕ) → List ℕ
random_bytes random i zero = []
random_bytes random i (suc n) = random i % 256 ∷ random_bytes random (i + 1) n

abbrev pub is_outside : List ℕ → ℕ → Bool
is_outside buf len = ltb len trailer || ltb (length buf) len

unfoldable pub file_fill_buffer :
    (crc32 : List ℕ → ℕ) → (random : ℕ → ℕ) → List ℕ → (len offset : ℕ) → Option (List ℕ)
unfolding random_bytes
file_fill_buffer crc32 random buf len offset =
    let bytes = random_bytes random 0 (len - trailer) in
    if is_outside buf len
    then none
    else some (bytes ++ (to_bytes 4 (crc32 bytes) ++ (to_bytes 8 offset ++ drop len buf)))

-- The result is 0 or 1.
unfoldable pub file_validate_buffer : (crc32 : List ℕ → ℕ) → List ℕ → (len offset : ℕ) → Option ℕ
file_validate_buffer crc32 buf len offset =
    let cs_offset = len - trailer in
    let checksum = crc32 (take cs_offset buf) % 2 ^ 32 in
    if is_outside buf len
    then none
    else if checksum != of_bytes (take 4 (drop cs_offset buf))
    then some 1
    else if offset != of_bytes (take 8 (drop (cs_offset + 4) buf))
    then some 1
    else some 0
