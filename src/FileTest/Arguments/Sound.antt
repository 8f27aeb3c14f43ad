-- ===== src/FileTest/Arguments/Sound.antt =====
-- What `parse_arguments` of sb_fileio.c guarantees to the requests.
use native.Mathlib.Nat.{mul-le-mul}
use bits_on_demand_pte_te.Prelude.{
  ℕ, zero, suc, ◌+◌, ◌*◌, ◌/◌, ◌^◌, ◌≤◌, ◌<◌, ◌≡◌, refl, Bool, true, false, Bool-cases, inl, inr,
  not, ◌||◌, List, [], ◌∷◌, ◌==◌, leb, ltb, if◌then◌else◌, arith,
}
use bits_on_demand_pte_te.Prelude.Lists.{length, length-replicate}
use bits_on_demand_pte_te.Pte.Machine.{ℤ, pos, negsuc}
use bits_on_demand_pte_te.Options.Names.{text}
use bits_on_demand_pte_te.Options.Store.{Options}
use bits_on_demand_pte_te.Options.Set.{sb_get_value_flag}
use bits_on_demand_pte_te.Options.Get.{sb_get_value_int, sb_get_value_size}
use bits_on_demand_pte_te.FileTest.Arguments.{FileArgs, alloc_buffers}
use bits_on_demand_pte_te.FileTest.Values.{
  Sizes, Blocks, Syncs, sizes_of, parse_sizes, request_size_of, parse_blocks, parse_syncs, syncs_of,
}
use bits_on_demand_pte_te.Options.Outcome.{
  value_or_exit, unsigned_int, int_of, positive, not_negative, refuse_if,
}
use bits_on_demand_pte_te.Options.Outcome.Ensures.{
  Ensures, bind-Ensures, step-Ensures, unsigned_int_lt,
}

pub record GoodSizes (s : Sizes) : Type 0 where
  pub files : 0 < s.num_files
  pub counted : s.num_files < 2 ^ 32
  pub total : 0 < s.total_size
  pub signed : s.total_size < 2 ^ 63
  pub share : s.file_size ≡ s.total_size / s.num_files

sizes_of-GoodSizes : (n t : ℕ) → n < 2 ^ 32 → Ensures GoodSizes (sizes_of n t)
unfolding sizes_of
sizes_of-GoodSizes n t h = elim (Bool-cases (n == 0)) [
  | inl none_left ↦ rw none_left tt
  | inr some_files ↦ elim (Bool-cases (t == 0 || leb (2 ^ 63) t)) [
    | inl bad ↦ rw (some_files, bad) tt
    | inr good ↦
        rw (some_files, good)
          (record {
            files = ground (arith, some_files);
            counted = h;
            total = ground (arith, good);
            signed = ground (arith, good);
            share = refl;
          })
  ]
]

pub parse_sizes-GoodSizes : (options : Options) → Ensures GoodSizes (parse_sizes options)
unfolding parse_sizes
parse_sizes-GoodSizes options =
    let n = value_or_exit (sb_get_value_int options (text "file-num")) in
    let t = sb_get_value_size options (text "file-total-size") in
    step-Ensures GoodSizes n (λ m. sizes_of (unsigned_int m) t)
      (λ m. sizes_of-GoodSizes (unsigned_int m) t (unsigned_int_lt m))

-- The number of blocks of a request.
abbrev pub merged_or_one : ℕ → ℕ
merged_or_one merged = if merged == 0 then 1 else merged

pub record GoodBlocks (b : Blocks) : Type 0 where
  pub block : 0 < b.file_block_size
  pub whole : b.file_request_size ≡ b.file_block_size * merged_or_one b.file_merged_requests
  pub request : 0 < b.file_request_size

product_positive : (a b : ℕ) → 0 < a → 0 < b → 0 < a * b
product_positive a b p q = let least : 1 * 1 ≤ a * b = mul-le-mul p q in omega (arith, least)

request_size_of-whole :
    (merged block : ℕ)
    → 0 < block
    → Ensures (λ r. (r ≡ block * merged_or_one merged) × (0 < r)) (request_size_of merged block)
unfolding request_size_of
request_size_of-whole merged block h = elim (Bool-cases (merged == 0)) [
  | inl one ↦ rw one (omega arith, h)
  | inr more ↦ elim (Bool-cases (ltb (block * merged) (2 ^ 31))) [
    | inl fits ↦ rw (more, fits) (refl, product_positive block merged h (ground (arith, more)))
    | inr wraps ↦ rw (more, wraps) tt
  ]
]

positive-Ensures : (n : ℤ) → Ensures (λ m. 0 < m) (positive n)
positive-Ensures (pos zero) = tt
positive-Ensures (pos (suc n)) = omega arith
positive-Ensures (negsuc n) = tt

pub parse_blocks-GoodBlocks : (options : Options) → Ensures GoodBlocks (parse_blocks options)
unfolding parse_blocks
parse_blocks-GoodBlocks options =
    step-Ensures GoodBlocks (value_or_exit (sb_get_value_int options (text "file-merged-requests")))
      _
      (λ n. step-Ensures GoodBlocks (not_negative n) _ (λ merged.
        bind-Ensures (λ k. 0 < k) GoodBlocks
          (positive (int_of (sb_get_value_size options (text "file-block-size")))) _
          (positive-Ensures (int_of (sb_get_value_size options (text "file-block-size"))))
          (λ block h.
            bind-Ensures (λ r. (r ≡ block * merged_or_one merged) × (0 < r)) GoodBlocks
              (request_size_of merged block) _ (request_size_of-whole merged block h)
              (λ r (e, o). record { block = h; whole = e; request = o }))))

-- `file-fsync-all` takes the place of the two others.
pub GoodSyncs : Syncs → Type 0
GoodSyncs s = s.file_fsync_all ≡ true → (s.file_fsync_freq ≡ 0) × (s.file_fsync_end ≡ false)

syncs_of-GoodSyncs : (freq : ℕ) (end all : Bool) → GoodSyncs (syncs_of freq end all)
unfolding syncs_of GoodSyncs
syncs_of-GoodSyncs freq end all e = rw e (refl, refl)

pub parse_syncs-GoodSyncs : (options : Options) → Ensures GoodSyncs (parse_syncs options)
unfolding parse_syncs
parse_syncs-GoodSyncs options =
    step-Ensures GoodSyncs (value_or_exit (sb_get_value_int options (text "file-fsync-freq"))) _
      (λ n. step-Ensures GoodSyncs (not_negative n) _ (λ freq.
        syncs_of-GoodSyncs freq (sb_get_value_flag options (text "file-fsync-end"))
          (sb_get_value_flag options (text "file-fsync-all"))))

-- One buffer of the size of a request for each thread.
pub data BuffersOf (size : ℕ) : ℕ → List (List ℕ) → Type 0 where
  no_thread : BuffersOf size 0 []
  one_thread :
      {n : ℕ} {b : List ℕ} {bs : List (List ℕ)}
      → length b ≡ size
      → BuffersOf size n bs
      → BuffersOf size (suc n) (b ∷ bs)

pub alloc_buffers-BuffersOf :
    (allocates : ℕ → Bool) (size threads i : ℕ)
    → Ensures (BuffersOf size threads) (alloc_buffers allocates size threads i)
unfolding alloc_buffers
alloc_buffers-BuffersOf allocates size zero i = no_thread
alloc_buffers-BuffersOf allocates size (suc threads) i =
    let rest = alloc_buffers allocates size threads (i + 1) in
    step-Ensures (BuffersOf size (suc threads)) (refuse_if (not (allocates i))) _ (λ u.
      bind-Ensures (BuffersOf size threads) (BuffersOf size (suc threads)) rest _
        (alloc_buffers-BuffersOf allocates size threads (i + 1))
        (λ bs good. one_thread (length-replicate size 0) good))

-- What `parse_arguments` leaves.
pub record Sound (threads : ℕ) (a : FileArgs) : Type 0 where
  pub sizes : GoodSizes a.sizes
  pub blocks : GoodBlocks a.blocks
  pub syncs : GoodSyncs a.syncs
  pub buffers : BuffersOf a.blocks.file_request_size threads a.buffers
