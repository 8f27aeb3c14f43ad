-- ===== src/FileTest/Execute.antt =====
-- The events of the file test in sb_fileio.c: `file_execute_event` in the mode of synchronous input
-- and output. The files are a parameter.
pub mod Validated
use bits_on_demand_pte_te.Prelude.{
  ℕ, zero, suc, ◌+◌, ◌-◌, Bool, true, false, Option, none, some, List, [], ◌∷◌, ◌++◌, ◌==◌, ltb,
  if◌then◌else◌,
}
use bits_on_demand_pte_te.Prelude.Lists.{length, take, drop, get_or, set}
use bits_on_demand_pte_te.Pte.Machine.{ℤ, pos, negsuc, is_zero}
use bits_on_demand_pte_te.Counter.{
  Counters, CounterType, other, read, write, bytes_read, bytes_written, sb_counter_inc,
  sb_counter_add,
}
use bits_on_demand_pte_te.FileTest.Requests.{
  FileOp, op_null, op_read, op_write, op_fsync, Request, Config,
}
use bits_on_demand_pte_te.FileTest.Buffer.{file_fill_buffer, file_validate_buffer}

-- pread, pwrite and the call that `file_do_fsync` makes, on the open file of a number.
pub record Disk : Type 1 where
  pub World : Type 0
  pub pread : World → (file count pos : ℕ) → ℤ × List ℕ
  pub pwrite : World → (file : ℕ) → List ℕ → (pos : ℕ) → ℤ × World
  pub fsync : World → (file : ℕ) → ℤ × World

-- What an event reads and changes: the files, the buffers of the threads and the counters.
pub record Job (D : Disk) : Type 0 where
  pub world : D.World
  pub buffers : List (List ℕ)
  pub counters : Counters

-- `crc32`, and the random numbers of the event.
pub record Sources : Type 0 where
  pub crc32 : List ℕ → ℕ
  pub random : ℕ → ℕ

-- `n == (ssize_t) size`
abbrev pub is_whole : ℤ → ℕ → Bool
is_whole (pos n) size = n == size
is_whole (negsuc n) size = false

module _ (D : Disk) (sources : Sources) (c : Config) (fsync_all : Bool) (thread_id : ℕ) where
  abbrev pub buffer : Job D → List ℕ
  buffer job = get_or job.buffers thread_id []

  -- False is the result 1.
  unfoldable pub file_fsync : ℕ → Job D → Bool × Job D
  file_fsync file job =
      let (rc, world) = D.fsync job.world file in
      if is_zero rc
      then (
        true,
        record job { world = world; counters = sb_counter_inc job.counters thread_id other },
      )
      else (false, record job { world = world })

  abbrev pub counted : CounterType → CounterType → ℕ → Job D → Job D
  counted operations bytes size job = record job {
    counters =
        sb_counter_add (sb_counter_inc job.counters thread_id operations) thread_id bytes size;
  }

  -- `file_fsync` after each write with `file_fsync_all`
  abbrev pub synced : ℕ → Job D → Bool × Job D
  synced file job = if fsync_all then file_fsync file job else (true, job)

  unfoldable pub write_block : Request → Job D → Bool × Job D
  unfolding file_fsync
  write_block r job =
      let (n, world) = D.pwrite job.world r.file_id (take r.size (buffer job)) r.pos in
      let (ok, job') = synced r.file_id (record job { world = world }) in
      if is_whole n r.size
      then if ok then (true, counted write bytes_written r.size job') else (false, job')
      else (false, record job { world = world })

  -- The buffer for the write; none is an access outside of it.
  abbrev pub filled_job : Request → Job D → Option (Job D)
  filled_job r job =
      if c.validate
      then (elim (file_fill_buffer sources.crc32 sources.random (buffer job) r.size r.pos) [
        | none ↦ none
        | some b ↦ some (record job { buffers = set job.buffers thread_id b })
      ])
      else some job

  abbrev pub write_event : Request → Option (Job D) → Option (Bool × Job D)
  write_event r none = none
  write_event r (some job) = some (write_block r job)

  -- The result of `file_validate_buffer`, 0 without validation.
  abbrev pub validated : Request → Job D → Option ℕ
  validated r job =
      if c.validate then file_validate_buffer sources.crc32 (buffer job) r.size r.pos else some 0

  abbrev pub read_done : Request → Job D → Option ℕ → Option (Bool × Job D)
  read_done r job none = none
  read_done r job (some zero) = some (true, counted read bytes_read r.size job)
  read_done r job (some (suc n)) = some (false, job)

  unfoldable pub read_event : Request → Job D → Option (Bool × Job D)
  read_event r job =
      let (n, bytes) = D.pread job.world r.file_id r.size r.pos in
      let job' = record job {
        buffers = set job.buffers thread_id (bytes ++ drop (length bytes) (buffer job));
      } in
      if is_whole n r.size then read_done r job' (validated r job') else some (false, job')

  abbrev pub dispatch : FileOp → Request → Job D → Option (Bool × Job D)
  dispatch op_null r job = some (false, job)
  dispatch op_write r job = write_event r (filled_job r job)
  dispatch op_read r job = read_event r job
  dispatch op_fsync r job = some (if fsync_all then (true, job) else file_fsync r.file_id job)

  -- None is undefined behaviour: `files[num_files]`, or an access outside of the buffer. False is
  -- the result 1.
  unfoldable pub file_execute_event : Request → Job D → Option (Bool × Job D)
  unfolding write_block read_event
  file_execute_event r job =
      if ltb c.num_files r.file_id
      then some (false, job)
      else if ltb c.file_size (r.pos + r.size)
      then some (false, job)
      else if r.file_id == c.num_files
      then none
      else dispatch r.operation r job
