-- ===== src/FileTest/Arguments.antt =====
-- The options of the file test in sb_fileio.c: `parse_arguments`.
pub mod Sound
pub mod Ready
pub mod Defaults
use Prim.Native.Nat.{bit_or}
use bits_on_demand_pte_te.Prelude.{
  ℕ, zero, suc, ◌+◌, ◌-◌, ◌*◌, ◌/◌, ◌%◌, ◌^◌, Bool, true, false, ◌&&◌, ◌||◌, not, Option, none,
  some, List, [], ◌∷◌, ◌==◌, leb, ltb, if◌then◌else◌,
}
use bits_on_demand_pte_te.Prelude.Lists.{replicate}
use bits_on_demand_pte_te.Pte.Machine.{ℤ, pos, negsuc}
use bits_on_demand_pte_te.Options.Names.{Text, text}
use bits_on_demand_pte_te.Options.Store.{Options}
use bits_on_demand_pte_te.Options.Set.{
  equal, sb_get_value_flag, sb_get_value_string, sb_get_value_list,
}
use bits_on_demand_pte_te.Options.Get.{sb_get_value_int, sb_get_value_size}
use bits_on_demand_pte_te.FileTest.Requests.{
  TestMode, mode_read, mode_write, mode_rewrite, mode_rnd_read, mode_rnd_write, mode_rnd_rw,
}
use bits_on_demand_pte_te.FileTest.Values.{
  IoMode, FsyncMode, Build, Sizes, Blocks, Syncs, sizes_of, parse_sizes, test_mode_of,
  parse_test_mode, io_mode_of, parse_io_mode, request_size_of, parse_blocks, flag_of, parse_flags,
  parse_extra_flags, syncs_of, parse_syncs, fsync_mode_of, io_mode_sync, io_mode_async,
  io_mode_mmap, fsync_all, fsync_data,
}
use bits_on_demand_pte_te.Options.Outcome.{
  Outcome, ◌>>=◌, value_or_exit, unsigned_int, int_of, positive, not_negative, refuse_if, parsed,
  refused, exited, undefined,
}

-- The command and the number of threads of `sb_globals`, the outcome of `file_rw_ratio < 0`, and
-- whether the allocation for a thread succeeds.
pub record Environment : Type 0 where
  pub cmdname : Text
  pub threads : ℕ
  pub rw_ratio_negative : Bool
  pub allocates : ℕ → Bool

-- The variables that `parse_arguments` sets.
pub record FileArgs : Type 0 where
  pub sizes : Sizes
  pub test_mode : TestMode
  pub file_io_mode : IoMode
  pub blocks : Blocks
  pub file_extra_flags : ℕ
  pub syncs : Syncs
  pub file_fsync_mode : FsyncMode
  pub buffers : List (List ℕ)

-- The buffers of the threads from `i` on, of zeros.
unfoldable pub alloc_buffers : (ℕ → Bool) → (size threads i : ℕ) → Outcome (List (List ℕ))
alloc_buffers allocates size zero i = parsed []
alloc_buffers allocates size (suc threads) i = do
  _ ← refuse_if (not (allocates i))
  buffers ← alloc_buffers allocates size threads (i + 1)
  parsed (replicate size 0 ∷ buffers)

unfoldable pub parse_arguments : Build → Environment → Options → Outcome FileArgs
unfolding parse_sizes parse_test_mode io_mode_of parse_blocks parse_flags parse_syncs fsync_mode_of
    alloc_buffers sb_get_value_string sb_get_value_list
parse_arguments build env options = do
  sizes ← parse_sizes options
  test_mode ← parse_test_mode env.cmdname (sb_get_value_string options (text "file-test-mode"))
  io_mode ← parse_io_mode build (sb_get_value_string options (text "file-io-mode"))
  blocks ← parse_blocks options
  flags ← parse_extra_flags (sb_get_value_list options (text "file-extra-flags"))
  syncs ← parse_syncs options
  fsync_mode ← fsync_mode_of build (sb_get_value_string options (text "file-fsync-mode"))
  _ ← refuse_if env.rw_ratio_negative
  buffers ← alloc_buffers env.allocates blocks.file_request_size env.threads 0
  parsed (record {
    sizes = sizes;
    test_mode = test_mode;
    file_io_mode = io_mode;
    blocks = blocks;
    file_extra_flags = flags;
    syncs = syncs;
    file_fsync_mode = fsync_mode;
    buffers = buffers;
  })
