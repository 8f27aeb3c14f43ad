-- ===== src/FileTest/Execute/Validated.antt =====
-- A block that file_execute_event of sb_fileio.c writes with validation, and reads again.
use bits_on_demand_pte_te.Prelude.{
  ℕ, ◌+◌, ◌-◌, ◌^◌, ◌≤◌, ◌<◌, ◌≡◌, refl, sym, ap, ◌∙◌, true, false, some, List, [], ◌++◌, ◌==◌,
  ==-refl, ltb, arith,
}
use bits_on_demand_pte_te.Prelude.Lists.{length, take, drop, get_or, set, get_or-set}
use bits_on_demand_pte_te.Pte.Machine.{pos}
use bits_on_demand_pte_te.Counter.{read, bytes_read, write, bytes_written}
use bits_on_demand_pte_te.FileTest.Requests.{op_read, op_write, Request, Config}
use bits_on_demand_pte_te.FileTest.Requests.Within.{Within}
use bits_on_demand_pte_te.FileTest.Buffer.{random_bytes, file_validate_buffer}
use bits_on_demand_pte_te.FileTest.Buffer.RoundTrip.{
  filled, file_fill_buffer-filled, take-filled, validate-random, length-filled, length-take,
  length-random_bytes,
}
use bits_on_demand_pte_te.FileTest.Execute.{
  Disk, Job, Sources, is_whole, buffer, counted, dispatch, read_event, filled_job, validated,
  read_done, write_event, write_block, file_execute_event,
}

-- What is written is written whole, and a read of it gives it back.
pub record Keeps (D : Disk) : Type 0 where
  pub written :
      (w : D.World) (file : ℕ) (bytes : List ℕ) (p : ℕ)
      → (D.pwrite w file bytes p).0 ≡ pos (length bytes)
  pub kept :
      (w : D.World) (file : ℕ) (bytes : List ℕ) (p : ℕ)
      → D.pread (D.pwrite w file bytes p).1 file (length bytes) p ≡ (pos (length bytes), bytes)

module _ (D : Disk) (sources : Sources) (c : Config) (thread_id : ℕ) where
  -- The request passes the tests at the start.
  execute-dispatch :
      (r : Request) (job : Job D)
      → Within c r
      → file_execute_event D sources c false thread_id r job
        ≡ dispatch D sources c false thread_id r.operation r job
  unfolding file_execute_event
  execute-dispatch r job w =
      let known : ltb c.num_files r.file_id ≡ false = ground (arith, w.file) in
      let inside : ltb c.file_size (r.pos + r.size) ≡ false = ground (arith, w.end) in
      let open_file : (r.file_id == c.num_files) ≡ false = ground (arith, w.file) in
      rw (known, inside, open_file) refl

  -- The job behind a write of `b`.
  wrote : Request → List ℕ → Job D → Job D
  wrote r b job = counted D sources c false thread_id write bytes_written r.size (record job {
    world = (D.pwrite job.world r.file_id (take r.size b) r.pos).1;
    buffers = set job.buffers thread_id b;
  })

  write_block-filled :
      (r : Request) (b : List ℕ) (job : Job D)
      → Keeps D
      → thread_id < length job.buffers
      → r.size ≤ length b
      → write_block D sources c false thread_id r
          (record job { buffers = set job.buffers thread_id b })
        ≡ (true, wrote r b job)
  unfolding write_block wrote
  write_block-filled r b job k t s =
      let own : get_or (set job.buffers thread_id b) thread_id [] ≡ b =
        get_or-set job.buffers thread_id b [] t in
      let whole : is_whole (D.pwrite job.world r.file_id (take r.size b) r.pos).0 r.size ≡ true =
        ap (λ n. is_whole n r.size) (k.written job.world r.file_id (take r.size b) r.pos)
        ∙ ap (λ n. n == r.size) (length-take r.size b s)
        ∙ ==-refl r.size in
      rw (own, whole) refl

  -- The buffer as `file_fill_buffer` leaves it.
  block : Request → Job D → List ℕ
  block r job =
      filled sources.crc32 (random_bytes sources.random 0 (r.size - 12)) r.pos
        (drop r.size (buffer D sources c false thread_id job))

  fill :
      (r : Request) (job : Job D)
      → c.validate ≡ true
      → 12 ≤ r.size
      → r.size ≤ length (buffer D sources c false thread_id job)
      → filled_job D sources c false thread_id r job
        ≡ some (record job { buffers = set job.buffers thread_id (block r job) })
  unfolding block
  fill r job v h s =
      simp
        (
          v,
          file_fill_buffer-filled sources.crc32 sources.random
              (buffer D sources c false thread_id job) r.size r.pos h s,
        )
        refl

  execute-write :
      (r : Request) (job : Job D)
      → Keeps D
      → c.validate ≡ true
      → Within c r
      → r.operation ≡ op_write
      → 12 ≤ r.size
      → thread_id < length job.buffers
      → r.size ≤ length (buffer D sources c false thread_id job)
      → file_execute_event D sources c false thread_id r job
        ≡ some (true, wrote r (block r job) job)
  unfolding block
  execute-write r job k v w o h t s =
      let buf = buffer D sources c false thread_id job in
      let bytes = random_bytes sources.random 0 (r.size - 12) in
      let long : r.size ≤ length (block r job) = omega (
        arith,
        length-filled sources.crc32 bytes r.pos (drop r.size buf),
        length-random_bytes sources.random 0 (r.size - 12),
      ) in
      execute-dispatch r job w
      ∙ ap (λ op. dispatch D sources c false thread_id op r job) o
      ∙ ap (write_event D sources c false thread_id r) (fill r job v h s)
      ∙ ap some (write_block-filled r (block r job) job k t long)

  -- A read that gives back the block `b` leaves the buffer `b'` and counts.
  was_read : Request → List ℕ → (reader : ℕ) → Job D → Job D
  was_read r b reader job =
      counted D sources c false reader read bytes_read r.size
        (record job { buffers = set job.buffers reader b })

  read_event-block :
      (r : Request) (bs b' : List ℕ) (reader : ℕ) (job : Job D)
      → c.validate ≡ true
      → reader < length job.buffers
      → D.pread job.world r.file_id r.size r.pos ≡ (pos r.size, bs)
      → bs ++ drop (length bs) (buffer D sources c false reader job) ≡ b'
      → file_validate_buffer sources.crc32 b' r.size r.pos ≡ some 0
      → read_event D sources c false reader r job ≡ some (true, was_read r b' reader job)
  unfolding read_event was_read
  read_event-block r bs b' reader job v t e l ok =
      let own : get_or (set job.buffers reader b') reader [] ≡ b' =
        get_or-set job.buffers reader b' [] t in
      let job' = record job { buffers = set job.buffers reader b' } in
      let accepted : validated D sources c false reader r job' ≡ some 0 = simp (v, own) ok in
      rw (e, ==-refl r.size, l) (ap (read_done D sources c false reader r job') accepted)

-- A request of a write event with validation, for a part of an open file that has at least 12 bytes
-- and fits the thread's buffer, where the files keep what is written and no write is followed by its
-- own fsync: the event succeeds. A later event that reads the same part succeeds too, in any thread and
-- with any buffers and counters, while the files are the same: the block passes the validation.
pub file_execute_event-validated :
    (D : Disk) (sources : Sources) (c : Config) (thread_id : ℕ) (r : Request) (job : Job D)
    → Keeps D
    → c.validate ≡ true
    → Within c r
    → r.operation ≡ op_write
    → 12 ≤ r.size
    → r.pos < 2 ^ 64
    → thread_id < length job.buffers
    → r.size ≤ length (buffer D sources c false thread_id job)
    → (job' : Job D) × (file_execute_event D sources c false thread_id r job ≡ some (true, job'))
      × ((reader : ℕ) (later : Job D)
          → later.world ≡ job'.world
          → reader < length later.buffers
          → (job'' : Job D) × (file_execute_event D sources c false reader
                (record r { operation = op_read })
                later
              ≡ some (true, job'')))
unfolding wrote block
file_execute_event-validated D sources c thread_id r job k v w o h p t s =
    let r' = record r { operation = op_read } in
    let b = block D sources c thread_id r job in
    let bytes = random_bytes sources.random 0 (r.size - 12) in
    let buf = buffer D sources c false thread_id job in
    let long : r.size ≤ length b = omega (
      arith,
      length-filled sources.crc32 bytes r.pos (drop r.size buf),
      length-random_bytes sources.random 0 (r.size - 12),
    ) in
    let size : length (take r.size b) ≡ r.size = length-take r.size b long in
    (
      wrote D sources c thread_id r b job,
      execute-write D sources c thread_id r job k v w o h t s,
      λ reader later e t'.
          let rest = drop (length (take r.size b)) (buffer D sources c false reader later) in
          let again = filled sources.crc32 bytes r.pos rest in
          let given : D.pread later.world r.file_id r.size r.pos ≡ (pos r.size, take r.size b) =
            ap (λ x. D.pread x r.file_id r.size r.pos) e
            ∙ ap (λ m. D.pread (wrote D sources c thread_id r b job).world r.file_id m r.pos)
                (sym size)
            ∙ k.kept job.world r.file_id (take r.size b) r.pos
            ∙ ap (λ m. (pos m, take r.size b)) size in
          (
            was_read D sources c thread_id r' again reader later,
            execute-dispatch D sources c reader r' later
                  (record { file = w.file; end = w.end; some_bytes = λ e. omega (arith, h) })
                ∙ read_event-block D sources c thread_id r' (take r.size b) again reader later v t'
                    given
                    (take-filled sources.crc32 sources.random r.size r.pos (drop r.size buf) rest h)
                    (validate-random sources.crc32 sources.random r.size r.pos rest r.pos h p
                      ∙ rw (==-refl r.pos) refl),
          ),
    )
