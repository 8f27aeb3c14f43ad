-- ===== src/FileTest/Requests.antt =====
-- The requests of the file test in sb_fileio.c: `init_vars`, `check_seq_req` and the two functions
-- that make the next request. A `long long` that is not negative is a number.
pub mod Within
pub mod Order
pub mod Sync
pub mod Random
use bits_on_demand_pte_te.Prelude.{
  ℕ, ◌+◌, ◌-◌, ◌/◌, ◌%◌, ◌^◌, Bool, true, false, not, ◌&&◌, ◌||◌, Option, none, some, List, [], ◌∷◌,
  ◌==◌, ◌!=◌, ltb, if◌then◌else◌,
}
use bits_on_demand_pte_te.Prelude.Lists.{set}

-- file_test_mode_t, without MODE_MIXED, which is not used
pub data TestMode : Type 0 where
  mode_read mode_write mode_rewrite mode_rnd_read mode_rnd_write mode_rnd_rw : TestMode

-- sb_file_op_t
pub data FileOp : Type 0 where
  op_null op_read op_write op_fsync : FileOp

-- sb_file_request_t
pub record Request : Type 0 where
  pub operation : FileOp
  pub file_id : ℕ
  pub pos : ℕ
  pub size : ℕ

-- The options of the test, with `sb_globals.validate`.
pub record Config : Type 0 where
  pub test_mode : TestMode
  pub num_files : ℕ
  pub total_size : ℕ
  pub file_size : ℕ
  pub block_size : ℕ
  pub request_size : ℕ
  pub fsync_freq : ℕ
  pub validate : Bool

-- The static variables, with the file and the position in use by each thread and the number of
-- warnings that `check_seq_req` logs.
pub record State : Type 0 where
  pub position : ℕ
  pub current_file : ℕ
  pub fsynced_file : ℕ
  pub is_dirty : Bool
  pub req_performed : ℕ
  pub prev_req : Request
  pub per_thread : List (ℕ × ℕ)
  pub warnings : ℕ

abbrev pub min : ℕ → ℕ → ℕ
min a b = if ltb a b then a else b

abbrev pub inc32 : ℕ → ℕ
inc32 n = (n + 1) % 2 ^ 32

abbrev pub null_request : Request
null_request = record { operation = op_null; file_id = 0; pos = 0; size = 0 }

unfoldable pub init_vars : Config → State → State
init_vars c st = record st {
  position = 0;
  current_file = 0;
  fsynced_file = 0;
  req_performed = 0;
  is_dirty = false;
  prev_req = if c.validate then null_request else st.prev_req;
}

abbrev pub is_transfer : FileOp → Bool
is_transfer op_null = false
is_transfer op_fsync = false
is_transfer op_read = true
is_transfer op_write = true

abbrev pub is_null : FileOp → Bool
is_null op_null = true
is_null op_read = false
is_null op_write = false
is_null op_fsync = false

-- `r->file_id - prev_req->file_id > 1` on 32 bits without a sign
abbrev pub is_far : ℕ → ℕ → Bool
is_far file prev = ltb 1 ((file + (2 ^ 32 - prev)) % 2 ^ 32)

-- Whether a warning is logged for the request at `pos` of `file` behind one of `prev_file` that ends
-- at `end`. A difference of positions may be negative and is then not a size.
abbrev pub is_jump : Config → (prev_file end file pos : ℕ) → Bool
is_jump c prev_file end file pos =
    if is_far file prev_file && not (file == 0 && prev_file == c.num_files - 1)
    then true
    else if file == prev_file
    then pos != end
    else end != c.file_size || pos != 0

unfoldable pub check_seq_req : Config → (prev r : Request) → Bool
check_seq_req c prev r =
    if not (is_transfer r.operation) || is_null prev.operation
    then false
    else is_jump c prev.file_id (prev.pos + prev.size) r.file_id r.pos

abbrev pub is_write_mode : TestMode → Bool
is_write_mode mode_write = true
is_write_mode mode_rewrite = true
is_write_mode mode_read = false
is_write_mode mode_rnd_read = false
is_write_mode mode_rnd_write = false
is_write_mode mode_rnd_rw = false

abbrev pub is_fsync_time : Config → State → Bool
is_fsync_time c st = c.fsync_freq != 0 && (st.is_dirty && st.req_performed % c.fsync_freq == 0)

-- The request to synchronise the next file.
unfoldable pub fsync_request : Config → State → Request × State
fsync_request c st =
    let next = inc32 st.fsynced_file in
    (
      record { operation = op_fsync; file_id = st.fsynced_file; pos = 0; size = 0 },
      if next == c.num_files
          then record st { fsynced_file = 0; is_dirty = false }
          else record st { fsynced_file = next },
    )

-- Back to the first file behind the last one.
abbrev pub rewound : Config → State → State
rewound c st =
    if st.current_file == c.num_files then record st { position = 0; current_file = 0 } else st

-- The request at the position, and the position behind it.
abbrev pub request_at : Config → FileOp → State → Request
request_at c op st = record {
  operation = op;
  file_id = st.current_file;
  pos = st.position;
  size = min c.request_size (c.file_size - st.position);
}

abbrev pub advanced : Config → ℕ → State → State
advanced c size st =
    if st.position + size == c.file_size
    then record st { current_file = inc32 st.current_file; position = 0 }
    else record st { position = st.position + size }

abbrev pub remembered : (validate warned : Bool) → Request → State → State
remembered false warned r st = st
remembered true warned r st = record st {
  warnings = if warned then st.warnings + 1 else st.warnings;
  prev_req = r;
}

abbrev pub checked : Config → Request → State → State
checked c r st = remembered c.validate (check_seq_req c st.prev_req r) r st

abbrev pub performed : Bool → State → State
performed write st = record st {
  req_performed = inc32 st.req_performed;
  is_dirty = write || st.is_dirty;
}

unfoldable pub seq_transfer : Config → Bool → State → Request × State
unfolding check_seq_req
seq_transfer c write st =
    let st' = rewound c (performed write st) in
    let r = request_at c (if write then op_write else op_read) st' in
    (r, checked c r (advanced c r.size st'))

unfoldable pub file_get_seq_request : Config → State → Request × State
unfolding fsync_request seq_transfer
file_get_seq_request c st =
    let write = is_write_mode c.test_mode in
    if write && is_fsync_time c st then fsync_request c st else seq_transfer c write st

abbrev pub is_rnd_rw : TestMode → Bool
is_rnd_rw mode_rnd_rw = true
is_rnd_rw mode_read = false
is_rnd_rw mode_write = false
is_rnd_rw mode_rewrite = false
is_rnd_rw mode_rnd_read = false
is_rnd_rw mode_rnd_write = false

abbrev pub is_rnd_write : TestMode → Bool
is_rnd_write mode_rnd_write = true
is_rnd_write mode_rnd_rw = false
is_rnd_write mode_read = false
is_rnd_write mode_write = false
is_rnd_write mode_rewrite = false
is_rnd_write mode_rnd_read = false

-- The request for a position in all files taken together, `tmppos` rounded down to a block.
unfoldable pub request_for : Config → FileOp → (tmppos : ℕ) → Request
request_for c op tmppos =
    let start = tmppos - tmppos % c.block_size in
    let pos = start % c.file_size in
    record {
      operation = op;
      file_id = start / c.file_size;
      pos = pos;
      size = min c.block_size (c.file_size - pos);
    }

-- Whether a thread other than `thread_id` uses the file and the position; `i` is the number of the
-- first thread in the list.
unfoldable pub is_in_use : (i thread_id : ℕ) → List (ℕ × ℕ) → Request → Bool
is_in_use i thread_id [] r = false
is_in_use i thread_id (used ∷ rest) r =
    (i != thread_id && (used.0 == r.file_id && used.1 == r.pos))
    || is_in_use (i + 1) thread_id rest r

-- The rounds of `retry`: `draws` are the positions that the random numbers give. None if each one is
-- in use, where the loop goes on with further draws.
unfoldable pub draw_request :
    Config → FileOp → (thread_id : ℕ) → List (ℕ × ℕ) → (draws : List ℕ) → Option Request
unfolding request_for is_in_use
draw_request c op thread_id used [] = none
draw_request c op thread_id used (tmppos ∷ draws) =
    let r = request_for c op tmppos in
    let again = draw_request c op thread_id used draws in
    if c.validate && is_in_use 0 thread_id used r then again else some r

abbrev pub granted : Bool → (thread_id : ℕ) → State → Option Request → Option (Request × State)
granted write thread_id st none = none
granted write thread_id st (some r) =
    some (
      r,
      performed write (record st { per_thread = set st.per_thread thread_id (r.file_id, r.pos) }),
    )

-- `reads` is the outcome of the comparison of the thread's reads per write with `file_rw_ratio`.
unfoldable pub file_get_rnd_request :
    Config → (reads : Bool) → (thread_id : ℕ) → (draws : List ℕ) → State → Option (Request × State)
unfolding fsync_request draw_request
file_get_rnd_request c reads thread_id draws st =
    let write = if is_rnd_rw c.test_mode then not reads else is_rnd_write c.test_mode in
    if is_fsync_time c st
    then some (fsync_request c st)
    else granted write thread_id st
        (draw_request c (if write then op_write else op_read) thread_id st.per_thread draws)

abbrev pub is_sequential : TestMode → Bool
is_sequential mode_write = true
is_sequential mode_rewrite = true
is_sequential mode_read = true
is_sequential mode_rnd_read = false
is_sequential mode_rnd_write = false
is_sequential mode_rnd_rw = false

unfoldable pub file_next_event :
    Config → (reads : Bool) → (thread_id : ℕ) → (draws : List ℕ) → State → Option (Request × State)
unfolding file_get_seq_request file_get_rnd_request
file_next_event c reads thread_id draws st =
    if is_sequential c.test_mode
    then some (file_get_seq_request c st)
    else file_get_rnd_request c reads thread_id draws st
