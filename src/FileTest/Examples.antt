-- ===== src/FileTest/Examples.antt =====
-- The theorems about the file test at two files of 20 bytes, and at a disk that holds the block
-- written last.
use bits_on_demand_pte_te.Prelude.{
  ℕ, ◌+◌, ◌<◌, ◌≡◌, refl, true, false, Option, none, some, List, [], ◌∷◌, ◌==◌, if◌then◌else◌,
  arith, inl, inr,
}
use bits_on_demand_pte_te.Prelude.Lists.{length, set, replicate}
use bits_on_demand_pte_te.Pte.Machine.{pos}
use bits_on_demand_pte_te.FileTest.Requests.{
  is_in_use, mode_write, mode_rnd_read, op_read, op_write, Request, Config, State, null_request,
  request_for, file_get_seq_request, file_get_rnd_request,
}
use bits_on_demand_pte_te.FileTest.Requests.Within.{
  Fits, Placed, Within, file_get_seq_request-Within,
}
use bits_on_demand_pte_te.FileTest.Requests.Order.{
  after_requests, rewinds_single_file, after_requests-warnings,
}
use bits_on_demand_pte_te.FileTest.Requests.Sync.{seq_requests, fsyncs, seq_requests-fsyncs}
use bits_on_demand_pte_te.FileTest.Requests.Random.{
  SomeFree, IsFree, rnd_op, file_get_rnd_request-IsFree,
}
use bits_on_demand_pte_te.Options.Names.{Text}
use bits_on_demand_pte_te.FileTest.Create.{Disks, create_files}
use bits_on_demand_pte_te.FileTest.Create.Sizes.{Works, Blocked, Extended, create_files-Extended}
use bits_on_demand_pte_te.FileTest.Arguments.{parse_arguments}
use bits_on_demand_pte_te.FileTest.Values.{Build}
use bits_on_demand_pte_te.Options.Outcome.{parsed}
use bits_on_demand_pte_te.Options.Outcome.Ensures.{Ensures}
use bits_on_demand_pte_te.FileTest.Arguments.Ready.{Ready, parse_arguments-Ready}
use bits_on_demand_pte_te.FileTest.Arguments.Defaults.{
  options_for, running, default_args, parse_arguments-defaults,
}
use bits_on_demand_pte_te.FileTest.Buffer.{file_fill_buffer, file_validate_buffer}
use bits_on_demand_pte_te.FileTest.Buffer.RoundTrip.{file_fill_buffer-validated}
use bits_on_demand_pte_te.FileTest.Execute.{Disk, Job, Sources, file_execute_event}
use bits_on_demand_pte_te.FileTest.Execute.Validated.{Keeps, file_execute_event-validated}

abbrev two_files : Config
two_files = record {
  test_mode = mode_write;
  num_files = 2;
  total_size = 40;
  file_size = 20;
  block_size = 14;
  request_size = 14;
  fsync_freq = 1;
  validate = true;
}

abbrev unset : State
unset = record {
  position = 0;
  current_file = 0;
  fsynced_file = 0;
  is_dirty = false;
  req_performed = 0;
  prev_req = null_request;
  per_thread = (0, 0) ∷ (0, 0) ∷ [];
  warnings = 0;
}

abbrev dirty : State
dirty = record unset { is_dirty = true }

two_files-Fits : Fits two_files
two_files-Fits = record {
  files = omega arith;
  counted = omega arith;
  size = omega arith;
  request = omega arith;
}

file_get_seq_request-Within_example :
    Within two_files (file_get_seq_request two_files dirty).0
    × Placed two_files (file_get_seq_request two_files dirty).1
file_get_seq_request-Within_example =
    file_get_seq_request-Within two_files dirty two_files-Fits
      (record { position = omega arith; file = omega arith; fsynced = omega arith })

after_requests-warnings_example : (after_requests 5 two_files unset).warnings ≡ (
    if rewinds_single_file two_files (after_requests 4 two_files unset)
    then (after_requests 4 two_files unset).warnings + 1
    else (after_requests 4 two_files unset).warnings)
after_requests-warnings_example = after_requests-warnings 4 two_files unset two_files-Fits refl

seq_requests-fsyncs_example :
    seq_requests 2 two_files dirty
    ≡ (fsyncs 0 2, record dirty { fsynced_file = 0; is_dirty = false })
seq_requests-fsyncs_example = seq_requests-fsyncs 1 two_files dirty refl (omega arith) refl refl

abbrev random_reads : Config
random_reads = record two_files { test_mode = mode_rnd_read }

second_free : SomeFree random_reads op_read 1 unset.per_thread (5 ∷ 35 ∷ [])
unfolding is_in_use request_for
second_free = inr (inl refl)

file_get_rnd_request-IsFree_example :
    (r : Request) × (st' : State) × (file_get_rnd_request random_reads true 1 (5 ∷ 35 ∷ []) unset
      ≡ some (r, st'))
    × (r.operation ≡ rnd_op random_reads true)
    × (st'.per_thread ≡ set unset.per_thread 1 (r.file_id, r.pos))
    × IsFree random_reads 1 unset.per_thread r
file_get_rnd_request-IsFree_example =
    file_get_rnd_request-IsFree random_reads true 1 (5 ∷ 35 ∷ []) unset (omega arith) (omega arith)
      (omega arith, (omega arith, tt)) second_free refl

abbrev sources : Sources
sources = record { crc32 = λ bytes. length bytes; random = λ i. i }

file_fill_buffer-validated_example :
    (b : List ℕ) × (file_fill_buffer sources.crc32 sources.random (replicate 20 0) 14 28 ≡ some b)
    × (length b ≡ 20)
    × ((other : ℕ)
        → file_validate_buffer sources.crc32 b 14 other ≡ some (if other == 28 then 0 else 1))
file_fill_buffer-validated_example =
    file_fill_buffer-validated sources.crc32 sources.random (replicate 20 0) 14 28 (omega arith)
      (omega arith) (omega arith)

abbrev last_block : Disk
last_block = record {
  World = List ℕ;
  pread = λ w file count p. (pos count, w);
  pwrite = λ w file bytes p. (pos (length bytes), bytes);
  fsync = λ w file. (pos 0, w);
}

last_block-Keeps : Keeps last_block
last_block-Keeps = record { written = λ w file bytes p. refl; kept = λ w file bytes p. refl }

abbrev job : Job last_block
job = record {
  world = [];
  buffers = replicate 20 0 ∷ replicate 20 0 ∷ [];
  counters = record {
    threads = 2;
    sb_counters = replicate 8 0 ∷ replicate 8 0 ∷ replicate 8 0 ∷ [];
    last_intermediate_counters = replicate 8 0;
    last_cumulative_counters = replicate 8 0;
  };
}

abbrev second_part : Request
second_part = record { operation = op_write; file_id = 1; pos = 4; size = 16 }

file_execute_event-validated_example :
    (job' : Job last_block) × (file_execute_event last_block sources two_files false 0 second_part
        job
      ≡ some (true, job'))
    × ((reader : ℕ) (later : Job last_block)
        → later.world ≡ job'.world
        → reader < length later.buffers
        → (job'' : Job last_block) × (file_execute_event last_block sources two_files false reader
              (record second_part { operation = op_read })
              later
            ≡ some (true, job'')))
file_execute_event-validated_example =
    file_execute_event-validated last_block sources two_files 0 second_part job last_block-Keeps
      refl (record { file = omega arith; end = omega arith; some_bytes = λ e. omega arith }) refl
      (omega arith) (omega arith) (omega arith) (omega arith)

abbrev no_files : Text → Option Text
no_files name = none

abbrev plain_build : Build
plain_build = record { libaio = false; mmap = true; fdatasync = true }

parse_arguments-Ready_example :
    Ensures
      (Ready 2)
      (parse_arguments plain_build (running 2) (options_for no_files plain_build mode_rnd_read))
parse_arguments-Ready_example =
    parse_arguments-Ready plain_build (running 2) (options_for no_files plain_build mode_rnd_read)

parse_arguments-defaults_example :
    parse_arguments plain_build (running 2) (options_for no_files plain_build mode_rnd_read)
    ≡ parsed (default_args mode_rnd_read (replicate 2 (replicate 16384 0)))
parse_arguments-defaults_example = parse_arguments-defaults no_files plain_build mode_rnd_read 2

abbrev good_disk : Disks
good_disk = record {
  known_flags = true;
  opens = λ file. true;
  writes = λ file offset. some 14;
  crc32 = λ bytes. length bytes;
  random = λ file offset i. file + offset + i;
}

good_disk-Works : Works two_files good_disk
good_disk-Works = record { flags = refl; opening = λ file. refl; whole = λ file offset. refl }

two_files-Blocked : Blocked two_files
two_files-Blocked = record { some_bytes = omega arith; room = λ e. omega arith }

-- The first file has five bytes already.
create_files-Extended_example :
    (new : List (List ℕ)) × (buf' : List ℕ) × (create_files two_files good_disk
        (replicate 5 1 ∷ [] ∷ [])
        (replicate 14 0)
      ≡ parsed (new, buf'))
    × Extended two_files good_disk good_disk-Works two_files-Blocked 2 (replicate 5 1 ∷ [] ∷ []) new
create_files-Extended_example =
    create_files-Extended two_files good_disk good_disk-Works two_files-Blocked
      (replicate 5 1 ∷ [] ∷ []) (replicate 14 0) (omega arith)
