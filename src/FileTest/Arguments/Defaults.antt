-- ===== src/FileTest/Arguments/Defaults.antt =====
-- The table of the options of the file test in sb_fileio.c, and `parse_arguments` with its defaults.
use bits_on_demand_pte_te.Prelude.{
  ℕ, zero, suc, ◌+◌, ◌≡◌, refl, ap, Bool, true, false, Option, none, some, List, [], ◌∷◌, ◌++◌,
  if◌then◌else◌, ◌∙◌,
}
use bits_on_demand_pte_te.Prelude.Lists.{replicate}
use bits_on_demand_pte_te.Options.Names.{Text, text, opt_name_cmp, convert_dashes}
use bits_on_demand_pte_te.Options.Store.{
  type_bool, type_int, type_size, type_double, type_string, type_list, Options, find_option,
  add_option, update_option,
}
use bits_on_demand_pte_te.Options.Size.{
  sb_opt_to_int, strtol, skip_space, signed_digits, scan_digits, sb_opt_to_size, size_of_text,
  scan_size, unit_factors, multiply,
}
use bits_on_demand_pte_te.Options.Get.{sb_get_value_int, sb_get_value_size}
use bits_on_demand_pte_te.Options.Set.{
  sb_opt, Arg, set_option, sb_register_arg_set, register_args, is_accepted, values_of, tokens,
  read_config_file, sb_get_value_flag, sb_get_value_string, sb_get_value_list,
}
use bits_on_demand_pte_te.FileTest.Requests.{
  TestMode, mode_read, mode_write, mode_rewrite, mode_rnd_read, mode_rnd_write, mode_rnd_rw,
}
use bits_on_demand_pte_te.FileTest.Arguments.{Environment, FileArgs, parse_arguments, alloc_buffers}
use bits_on_demand_pte_te.FileTest.Values.{
  Build, io_mode_sync, fsync_all, parse_sizes, sizes_of, parse_test_mode, test_mode_of, io_mode_of,
  parse_blocks, request_size_of, parse_flags, parse_syncs, syncs_of, fsync_mode_of,
}
use bits_on_demand_pte_te.Options.Outcome.{parsed, ◌>>=◌}

abbrev pub async_args : Bool → List Arg
async_args libaio =
    if libaio then sb_opt (text "file-async-backlog") (some (text "128")) type_int ∷ [] else []

abbrev pub fileio_args : Build → List Arg
fileio_args build =
    sb_opt (text "file-num") (some (text "128")) type_int
      ∷ sb_opt (text "file-block-size") (some (text "16384")) type_int
      ∷ sb_opt (text "file-total-size") (some (text "2G")) type_size
      ∷ sb_opt (text "file-test-mode") none type_string
      ∷ sb_opt (text "file-io-mode") (some (text "sync")) type_string
      ∷ async_args build.libaio
    ++ (sb_opt (text "file-extra-flags") (some (text "")) type_list
        ∷ sb_opt (text "file-fsync-freq") (some (text "100")) type_int
        ∷ sb_opt (text "file-fsync-all") (some (text "off")) type_bool
        ∷ sb_opt (text "file-fsync-end") (some (text "on")) type_bool
        ∷ sb_opt (text "file-fsync-mode") (some (text "fsync")) type_string
        ∷ sb_opt (text "file-merged-requests") (some (text "0")) type_int
        ∷ sb_opt (text "file-rw-ratio") (some (text "1.5")) type_double
        ∷ [])

-- The name of a mode on the command line.
abbrev pub mode_name : TestMode → Text
mode_name mode_write = text "seqwr"
mode_name mode_rewrite = text "seqrewr"
mode_name mode_read = text "seqrd"
mode_name mode_rnd_read = text "rndrd"
mode_name mode_rnd_write = text "rndwr"
mode_name mode_rnd_rw = text "rndrw"

-- The options after the table and `--file-test-mode`.
abbrev pub options_for : (Text → Option Text) → Build → TestMode → Options
options_for read_file build mode =
    (set_option read_file (sb_register_arg_set read_file (fileio_args build) []).0
      (text "file-test-mode") (some (mode_name mode)) type_string).0

abbrev pub running : ℕ → Environment
running threads = record {
  cmdname = text "run";
  threads = threads;
  rw_ratio_negative = false;
  allocates = λ i. true;
}

abbrev pub default_args : TestMode → List (List ℕ) → FileArgs
default_args mode buffers = record {
  sizes = record { num_files = 128; total_size = 2147483648; file_size = 16777216 };
  test_mode = mode;
  file_io_mode = io_mode_sync;
  blocks = record { file_merged_requests = 0; file_block_size = 16384; file_request_size = 16384 };
  file_extra_flags = 0;
  syncs = record { file_fsync_freq = 100; file_fsync_end = true; file_fsync_all = false };
  file_fsync_mode = fsync_all;
  buffers = buffers;
}

alloc_buffers-all :
    (size threads i : ℕ)
    → alloc_buffers (λ j. true) size threads i ≡ parsed (replicate threads (replicate size 0))
unfolding alloc_buffers
alloc_buffers-all size zero i = refl
alloc_buffers-all size (suc threads) i = rw (alloc_buffers-all size threads (i + 1)) refl

-- The parts before the buffers.
parsed_so_far :
    (read_file : Text → Option Text) (libaio mmap fdatasync : Bool) (mode : TestMode) (threads : ℕ)
    → let build : Build = record { libaio = libaio; mmap = mmap; fdatasync = fdatasync } in
      parse_arguments build (running threads) (options_for read_file build mode) ≡ (
        alloc_buffers (λ i. true) 16384 threads 0 >>= λ buffers. parsed (default_args mode buffers))
unfolding parse_arguments parse_sizes sizes_of parse_test_mode test_mode_of io_mode_of parse_blocks
    request_size_of parse_flags parse_syncs syncs_of fsync_mode_of sb_get_value_int
    sb_get_value_size sb_opt_to_int strtol skip_space signed_digits scan_digits sb_opt_to_size
    size_of_text scan_size unit_factors multiply set_option sb_register_arg_set register_args
    is_accepted values_of tokens read_config_file sb_get_value_flag sb_get_value_string
    sb_get_value_list find_option add_option update_option opt_name_cmp convert_dashes
parsed_so_far read_file true m f mode_write threads = refl
parsed_so_far read_file true m f mode_rewrite threads = refl
parsed_so_far read_file true m f mode_read threads = refl
parsed_so_far read_file true m f mode_rnd_read threads = refl
parsed_so_far read_file true m f mode_rnd_write threads = refl
parsed_so_far read_file true m f mode_rnd_rw threads = refl
parsed_so_far read_file false m f mode_write threads = refl
parsed_so_far read_file false m f mode_rewrite threads = refl
parsed_so_far read_file false m f mode_read threads = refl
parsed_so_far read_file false m f mode_rnd_read threads = refl
parsed_so_far read_file false m f mode_rnd_write threads = refl
parsed_so_far read_file false m f mode_rnd_rw threads = refl

-- With the defaults of the table of options, for the command `run`, each of the six modes and every
-- number of threads, if the allocations succeed, `parse_arguments` returns 0: there are 128 files of 16 MiB,
-- the requests are single blocks of 16 KiB, and each thread has a buffer of that size.
pub parse_arguments-defaults :
    (read_file : Text → Option Text) (build : Build) (mode : TestMode) (threads : ℕ)
    → parse_arguments build (running threads) (options_for read_file build mode)
      ≡ parsed (default_args mode (replicate threads (replicate 16384 0)))
parse_arguments-defaults read_file build mode threads =
    parsed_so_far read_file build.libaio build.mmap build.fdatasync mode threads
    ∙ ap (λ r. r >>= λ buffers. parsed (default_args mode buffers))
        (alloc_buffers-all 16384 threads 0)
