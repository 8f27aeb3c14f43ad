-- ===== src/FileTest/Buffer/RoundTrip.antt =====
-- What file_validate_buffer of sb_fileio.c says of a block that file_fill_buffer filled.
use mathlib.Core.List.{append_assoc}
use bits_on_demand_pte_te.Prelude.{
  not, ==-refl, ℕ, zero, suc, ◌+◌, ◌-◌, ◌%◌, ◌^◌, ◌≤◌, ◌<◌, ◌≡◌, refl, sym, ap, ◌∙◌, Bool, true,
  false, Option, none, some, List, [], ◌∷◌, ◌++◌, ◌==◌, ◌!=◌, if◌then◌else◌, arith,
}
use bits_on_demand_pte_te.Prelude.Lists.{length, take, drop, length-append}
use bits_on_demand_pte_te.Prelude.Words.{
  to_bytes, of_bytes, read-to_bytes, drop-to_bytes, length-to_bytes,
}
use bits_on_demand_pte_te.FileTest.Buffer.{
  random_bytes, is_outside, file_fill_buffer, file_validate_buffer,
}

take-append : (xs ys : List ℕ) → take (length xs) (xs ++ ys) ≡ xs
take-append [] ys = refl
take-append (x ∷ xs) ys = ap (λ t. x ∷ t) (take-append xs ys)

drop-append : (xs ys : List ℕ) (m : ℕ) → drop (length xs + m) (xs ++ ys) ≡ drop m ys
drop-append [] ys m = let e : 0 + m ≡ m = omega arith in ap (λ k. drop k ys) e
drop-append (x ∷ xs) ys m =
    let e : suc (length xs) + m ≡ suc (length xs + m) = omega arith in
    ap (λ k. drop k (x ∷ (xs ++ ys))) e ∙ drop-append xs ys m

pub length-take : (n : ℕ) (xs : List ℕ) → n ≤ length xs → length (take n xs) ≡ n
length-take zero xs h = refl
length-take (suc n) [] h = absurd (omega arith)
length-take (suc n) (x ∷ xs) h = omega (arith, length-take n xs (omega arith))

length-drop : (n : ℕ) (xs : List ℕ) → length (drop n xs) ≡ length xs - n
length-drop zero xs = omega arith
length-drop (suc n) [] = omega arith
length-drop (suc n) (x ∷ xs) = omega (arith, length-drop n xs)

pub length-random_bytes : (random : ℕ → ℕ) (i n : ℕ) → length (random_bytes random i n) ≡ n
unfolding random_bytes
length-random_bytes random i zero = refl
length-random_bytes random i (suc n) = omega (arith, length-random_bytes random (i + 1) n)

-- The three parts of a filled block.
unfoldable pub filled : (crc32 : List ℕ → ℕ) → List ℕ → (offset : ℕ) → List ℕ → List ℕ
filled crc32 bytes offset rest = bytes ++ (to_bytes 4 (crc32 bytes) ++ (to_bytes 8 offset ++ rest))

of_bytes_4 : (x : ℕ) (rest : List ℕ) → of_bytes (take 4 (to_bytes 4 x ++ rest)) ≡ x % 2 ^ 32
unfolding of_bytes to_bytes
of_bytes_4 x rest = omega arith

pub length-filled :
    (crc32 : List ℕ → ℕ) (bytes : List ℕ) (offset : ℕ) (rest : List ℕ)
    → length (filled crc32 bytes offset rest) ≡ length bytes + 12 + length rest
unfolding filled
length-filled crc32 bytes offset rest = omega (
  arith,
  length-append bytes (to_bytes 4 (crc32 bytes) ++ (to_bytes 8 offset ++ rest)),
  length-append (to_bytes 4 (crc32 bytes)) (to_bytes 8 offset ++ rest),
  length-append (to_bytes 8 offset) rest,
  length-to_bytes 4 (crc32 bytes),
  length-to_bytes 8 offset,
)

abbrev invalid : Option ℕ
invalid = some 1

abbrev valid : Option ℕ
valid = some 0

outcome :
    (outside same : Bool) (a b x y : ℕ)
    → outside ≡ false
    → a ≡ b
    → (x == y) ≡ same
    → (if outside then none else if a != b then invalid else if x != y then invalid else valid)
      ≡ some (if same then 0 else 1)
outcome outside same a b x y o e f = rw (o, e, ==-refl b, f) (by_same same)
  where
    by_same : (same : Bool) → (if not same then invalid else valid) ≡ some (if same then 0 else 1)
    by_same true = refl
    by_same false = refl

validate-filled :
    (crc32 : List ℕ → ℕ) (bytes : List ℕ) (offset : ℕ) (rest : List ℕ) (other : ℕ)
    → offset < 2 ^ 64
    → file_validate_buffer crc32 (filled crc32 bytes offset rest) (length bytes + 12) other
      ≡ some (if other == offset then 0 else 1)
unfolding file_validate_buffer filled
validate-filled crc32 bytes offset rest other h =
    let tail = to_bytes 4 (crc32 bytes) ++ (to_bytes 8 offset ++ rest) in
    let cut : length bytes + 12 - 12 ≡ length bytes = omega arith in
    let cut_0 : length bytes + 12 - 12 ≡ length bytes + 0 = omega arith in
    let cut_4 : length bytes + 12 - 12 + 4 ≡ length bytes + 4 = omega arith in
    let inside : is_outside (bytes ++ tail) (length bytes + 12) ≡ false =
      ground (arith, length-filled crc32 bytes offset rest) in
    let payload =
      ap (λ n. crc32 (take n (bytes ++ tail)) % 2 ^ 32) cut
      ∙ ap (λ t. crc32 t % 2 ^ 32) (take-append bytes tail) in
    let checksum : of_bytes (take 4 (drop (length bytes + 12 - 12) (bytes ++ tail)))
        ≡ crc32 bytes % 2 ^ 32 =
      ap (λ n. of_bytes (take 4 (drop n (bytes ++ tail)))) cut_0
      ∙ ap (λ t. of_bytes (take 4 t)) (drop-append bytes tail 0)
      ∙ of_bytes_4 (crc32 bytes) (to_bytes 8 offset ++ rest) in
    let stored : of_bytes (take 8 (drop (length bytes + 12 - 12 + 4) (bytes ++ tail))) ≡ offset =
      ap (λ n. of_bytes (take 8 (drop n (bytes ++ tail)))) cut_4
      ∙ ap (λ t. of_bytes (take 8 t)) (drop-append bytes tail 4)
      ∙ ap (λ t. of_bytes (take 8 t)) (drop-to_bytes 4 (crc32 bytes) (to_bytes 8 offset ++ rest))
      ∙ read-to_bytes 8 offset rest (omega (arith, h)) in
    outcome _ _ _ _ _ _ inside (payload ∙ sym checksum) (ap (λ n. other == n) stored)

-- A buffer after `file_fill_buffer`.
pub file_fill_buffer-filled :
    (crc32 : List ℕ → ℕ) (random : ℕ → ℕ) (buf : List ℕ) (len offset : ℕ)
    → 12 ≤ len
    → len ≤ length buf
    → file_fill_buffer crc32 random buf len offset
      ≡ some (filled crc32 (random_bytes random 0 (len - 12)) offset (drop len buf))
unfolding file_fill_buffer filled
file_fill_buffer-filled crc32 random buf len offset h k =
    let inside : is_outside buf len ≡ false = ground arith in rw inside refl

-- The bytes of a filled block in front of other bytes.
pub take-filled :
    (crc32 : List ℕ → ℕ) (random : ℕ → ℕ) (len offset : ℕ) (rest rest' : List ℕ)
    → 12 ≤ len
    → let bytes = random_bytes random 0 (len - 12) in
      take len (filled crc32 bytes offset rest) ++ rest' ≡ filled crc32 bytes offset rest'
unfolding filled
take-filled crc32 random len offset rest rest' h =
    let bytes = random_bytes random 0 (len - 12) in
    let sum = to_bytes 4 (crc32 bytes) in
    let block = bytes ++ (sum ++ to_bytes 8 offset) in
    let whole : (r : List ℕ) → block ++ r ≡ bytes ++ (sum ++ (to_bytes 8 offset ++ r)) = λ r.
      append_assoc bytes (sum ++ to_bytes 8 offset) r
      ∙ ap (λ t. bytes ++ t) (append_assoc sum (to_bytes 8 offset) r) in
    let size : len ≡ length block = omega (
      arith,
      h,
      length-append bytes (sum ++ to_bytes 8 offset),
      length-append sum (to_bytes 8 offset),
      length-to_bytes 4 (crc32 bytes),
      length-to_bytes 8 offset,
      length-random_bytes random 0 (len - 12),
    ) in
    ap (λ t. take len t ++ rest') (sym (whole rest))
    ∙ ap (λ n. take n (block ++ rest) ++ rest') size
    ∙ ap (λ t. t ++ rest') (take-append block rest)
    ∙ whole rest'

pub validate-random :
    (crc32 : List ℕ → ℕ) (random : ℕ → ℕ) (len offset : ℕ) (rest : List ℕ) (other : ℕ)
    → 12 ≤ len
    → offset < 2 ^ 64
    → file_validate_buffer crc32
        (filled crc32 (random_bytes random 0 (len - 12)) offset rest)
        len
        other
      ≡ some (if other == offset then 0 else 1)
validate-random crc32 random len offset rest other h k =
    let bytes = random_bytes random 0 (len - 12) in
    let size : length bytes + 12 ≡ len =
      omega (arith, length-random_bytes random 0 (len - 12), h) in
    ap (λ n. file_validate_buffer crc32 (filled crc32 bytes offset rest) n other) (sym size)
    ∙ validate-filled crc32 bytes offset rest other k

-- A buffer that holds a block of at least 12 bytes, with an offset of 64 bits: `file_fill_buffer`
-- fills it and keeps its length, and `file_validate_buffer` accepts the block at the offset it was
-- filled for and at no other, whatever the checksum and the random numbers are.
pub file_fill_buffer-validated :
    (crc32 : List ℕ → ℕ) (random : ℕ → ℕ) (buf : List ℕ) (len offset : ℕ)
    → 12 ≤ len
    → len ≤ length buf
    → offset < 2 ^ 64
    → (b : List ℕ) × (file_fill_buffer crc32 random buf len offset ≡ some b)
      × (length b ≡ length buf)
      × ((other : ℕ)
          → file_validate_buffer crc32 b len other ≡ some (if other == offset then 0 else 1))
file_fill_buffer-validated crc32 random buf len offset h k o =
    let bytes = random_bytes random 0 (len - 12) in
    (
      filled crc32 bytes offset (drop len buf),
      file_fill_buffer-filled crc32 random buf len offset h k,
      omega (
        arith,
        length-filled crc32 bytes offset (drop len buf),
        length-random_bytes random 0 (len - 12),
        length-drop len buf,
        h,
        k,
      ),
      λ other. validate-random crc32 random len offset (drop len buf) other h o,
    )
