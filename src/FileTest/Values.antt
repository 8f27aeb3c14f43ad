-- ===== src/FileTest/Values.antt =====
-- The values of the options of the file test, as `parse_arguments` of sb_fileio.c reads and checks
-- them.
use Prim.Native.Nat.{bit_or}
use bits_on_demand_pte_te.Prelude.{
  ℕ, ◌*◌, ◌/◌, ◌^◌, Bool, false, ◌||◌, Option, none, some, List, [], ◌∷◌, ◌==◌, leb, ltb,
  if◌then◌else◌,
}
use bits_on_demand_pte_te.Options.Names.{Text, text}
use bits_on_demand_pte_te.Options.Store.{Options}
use bits_on_demand_pte_te.Options.Set.{equal, sb_get_value_flag}
use bits_on_demand_pte_te.Options.Get.{sb_get_value_int, sb_get_value_size}
use bits_on_demand_pte_te.FileTest.Requests.{
  TestMode, mode_read, mode_write, mode_rewrite, mode_rnd_read, mode_rnd_write, mode_rnd_rw,
}
use bits_on_demand_pte_te.Options.Outcome.{
  Outcome, ◌>>=◌, value_or_exit, unsigned_int, int_of, positive, not_negative, parsed, refused,
  undefined,
}

-- file_io_mode_t and file_fsync_mode_t
pub data IoMode : Type 0 where
  io_mode_sync io_mode_async io_mode_mmap : IoMode

pub data FsyncMode : Type 0 where
  fsync_all fsync_data : FsyncMode

-- HAVE_LIBAIO, HAVE_MMAP and HAVE_FDATASYNC
pub record Build : Type 0 where
  pub libaio : Bool
  pub mmap : Bool
  pub fdatasync : Bool

pub record Sizes : Type 0 where
  pub num_files : ℕ
  pub total_size : ℕ
  pub file_size : ℕ

pub record Blocks : Type 0 where
  pub file_merged_requests : ℕ
  pub file_block_size : ℕ
  pub file_request_size : ℕ

pub record Syncs : Type 0 where
  pub file_fsync_freq : ℕ
  pub file_fsync_end : Bool
  pub file_fsync_all : Bool

-- `num_files` is compared without a sign, `total_size` as a long long.
unfoldable pub sizes_of : (num_files total_size : ℕ) → Outcome Sizes
sizes_of num_files total_size =
    if num_files == 0
    then refused
    else if total_size == 0 || leb (2 ^ 63) total_size
    then refused
    else parsed (record {
      num_files = num_files;
      total_size = total_size;
      file_size = total_size / num_files;
    })

unfoldable pub parse_sizes : Options → Outcome Sizes
unfolding sizes_of sb_get_value_int sb_get_value_size
parse_sizes options = do
  n ← value_or_exit (sb_get_value_int options (text "file-num"))
  sizes_of (unsigned_int n) (sb_get_value_size options (text "file-total-size"))

unfoldable pub test_mode_of : Text → Outcome TestMode
test_mode_of mode =
    if equal mode (text "seqwr")
    then parsed mode_write
    else if equal mode (text "seqrewr")
    then parsed mode_rewrite
    else if equal mode (text "seqrd")
    then parsed mode_read
    else if equal mode (text "rndrd")
    then parsed mode_rnd_read
    else if equal mode (text "rndwr")
    then parsed mode_rnd_write
    else if equal mode (text "rndrw")
    then parsed mode_rnd_rw
    else refused

-- Only the command `run` needs the mode; `mode_read` is 0, which the static variable has.
unfoldable pub parse_test_mode : (cmdname : Text) → Option Text → Outcome TestMode
unfolding test_mode_of
parse_test_mode cmdname none = if equal cmdname (text "run") then refused else parsed mode_read
parse_test_mode cmdname (some mode) =
    if equal cmdname (text "run") then test_mode_of mode else parsed mode_read

unfoldable pub io_mode_of : Build → Text → Outcome IoMode
io_mode_of build mode =
    if equal mode (text "sync")
    then parsed io_mode_sync
    else if equal mode (text "async")
    then if build.libaio then parsed io_mode_async else refused
    else if equal mode (text "mmap")
    then if build.mmap then parsed io_mode_mmap else refused
    else refused

abbrev pub parse_io_mode : Build → Option Text → Outcome IoMode
parse_io_mode build none = io_mode_of build (text "sync")
parse_io_mode build (some mode) = io_mode_of build mode

-- The product is one of ints.
unfoldable pub request_size_of : (merged block_size : ℕ) → Outcome ℕ
request_size_of merged block_size =
    if merged == 0
    then parsed block_size
    else if ltb (block_size * merged) (2 ^ 31)
    then parsed (block_size * merged)
    else undefined

unfoldable pub parse_blocks : Options → Outcome Blocks
unfolding sb_get_value_int sb_get_value_size request_size_of
parse_blocks options = do
  m ← value_or_exit (sb_get_value_int options (text "file-merged-requests"))
  merged ← not_negative m
  block_size ← positive (int_of (sb_get_value_size options (text "file-block-size")))
  request_size ← request_size_of merged block_size
  parsed (record {
    file_merged_requests = merged;
    file_block_size = block_size;
    file_request_size = request_size;
  })

unfoldable pub flag_of : Text → Outcome ℕ
flag_of val =
    if equal val (text "sync")
    then parsed 1
    else if equal val (text "dsync")
    then parsed 2
    else if equal val (text "direct")
    then parsed 4
    else refused

unfoldable pub parse_flags : List Text → (flags : ℕ) → Outcome ℕ
unfolding flag_of
parse_flags [] flags = parsed flags
parse_flags (val ∷ vals) flags = do flag ← flag_of val; parse_flags vals (bit_or flags flag)

abbrev pub parse_extra_flags : Option (List Text) → Outcome ℕ
parse_extra_flags none = undefined
parse_extra_flags (some vals) = parse_flags vals 0

-- `file-fsync-all` overrides the two others.
unfoldable pub syncs_of : (freq : ℕ) (end all : Bool) → Syncs
syncs_of freq end all = record {
  file_fsync_freq = if all then 0 else freq;
  file_fsync_end = if all then false else end;
  file_fsync_all = all;
}

unfoldable pub parse_syncs : Options → Outcome Syncs
unfolding sb_get_value_int sb_get_value_flag syncs_of
parse_syncs options = do
  f ← value_or_exit (sb_get_value_int options (text "file-fsync-freq"))
  freq ← not_negative f
  parsed (
      syncs_of freq (sb_get_value_flag options (text "file-fsync-end"))
        (sb_get_value_flag options (text "file-fsync-all")))

unfoldable pub fsync_mode_of : Build → Option Text → Outcome FsyncMode
fsync_mode_of build none = undefined
fsync_mode_of build (some mode) =
    if equal mode (text "fsync")
    then parsed fsync_all
    else if equal mode (text "fdatasync")
    then if build.fdatasync then parsed fsync_data else refused
    else refused
