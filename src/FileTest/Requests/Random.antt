-- ===== src/FileTest/Requests/Random.antt =====
-- Which part of which file a random request of sb_fileio.c is for.
use native.Mathlib.Nat.{div-lt_iff_lt-mul, mod-lt}
use bits_on_demand_pte_te.Prelude.{
  ℕ, ◌+◌, ◌-◌, ◌*◌, ◌%◌, ◌≤◌, ◌<◌, ◌≡◌, ◌↔◌, ◌⊎◌, refl, sym, ◌∙◌, Bool, true, false, not,
  true≢false, Bool-cases, inl, inr, some, List, [], ◌∷◌, if◌then◌else◌, arith, ◌&&◌,
}
use bits_on_demand_pte_te.Prelude.Lists.{set}
use bits_on_demand_pte_te.FileTest.Requests.{
  FileOp, op_read, op_write, Request, Config, State, is_rnd_rw, is_rnd_write, is_fsync_time,
  request_for, is_in_use, draw_request, performed, file_get_rnd_request,
}

abbrev pub start_of : Config → ℕ → ℕ
start_of c tmppos = tmppos - tmppos % c.block_size

-- A position drawn for a random request, rounded down to a block, where blocks and files are not
-- empty: the request ends inside its file and has at least one byte, and its file is one of the
-- files exactly if the rounded position is below the size of all files together. The total size of
-- which the position is drawn may be larger than that, by the remainder of its division by the number
-- of files.
pub request_for-Within :
    (c : Config) (op : FileOp) (tmppos : ℕ)
    → 0 < c.block_size
    → 0 < c.file_size
    → (((request_for c op tmppos).file_id < c.num_files)
        ↔ (start_of c tmppos < c.num_files * c.file_size))
      × ((request_for c op tmppos).pos + (request_for c op tmppos).size ≤ c.file_size)
      × (0 < (request_for c op tmppos).size)
unfolding request_for
request_for-Within c op tmppos b f =
    let below : start_of c tmppos % c.file_size < c.file_size = mod-lt (start_of c tmppos) f in
    (div-lt_iff_lt-mul f, ground (arith, below), ground (arith, below, b))

-- One of the drawn positions is not in use by another thread.
abbrev pub SomeFree : Config → FileOp → ℕ → List (ℕ × ℕ) → List ℕ → Type 0
SomeFree c op thread_id used [] = ⊥
SomeFree c op thread_id used (tmppos ∷ draws) =
    (is_in_use 0 thread_id used (request_for c op tmppos) ≡ false)
    ⊎ SomeFree c op thread_id used draws

abbrev pub AllBelow : Config → List ℕ → Type 0
AllBelow c [] = Unit
AllBelow c (tmppos ∷ draws) = (start_of c tmppos < c.num_files * c.file_size) × AllBelow c draws

-- A request inside one of the files that no other thread uses.
abbrev pub IsFree : Config → ℕ → List (ℕ × ℕ) → Request → Type 0
IsFree c thread_id used r =
    (r.file_id < c.num_files)
    × (r.pos + r.size ≤ c.file_size)
    × (0 < r.size)
    × (c.validate ≡ true → is_in_use 0 thread_id used r ≡ false)

not_used : (v u : Bool) → (v && u) ≡ false → v ≡ true → u ≡ false
not_used true u e h = e
not_used false u e h = absurd (true≢false (sym h))

is_used : (v u : Bool) → (v && u) ≡ true → u ≡ true
is_used true u e = e
is_used false u e = absurd (true≢false (sym e))

request_for-operation :
    (c : Config) (op : FileOp) (tmppos : ℕ) → (request_for c op tmppos).operation ≡ op
unfolding request_for
request_for-operation c op tmppos = refl

draw_request-IsFree :
    (c : Config) (op : FileOp) (thread_id : ℕ) (used : List (ℕ × ℕ)) (draws : List ℕ)
    → 0 < c.block_size
    → 0 < c.file_size
    → AllBelow c draws
    → SomeFree c op thread_id used draws
    → (r : Request) × (draw_request c op thread_id used draws ≡ some r)
      × (r.operation ≡ op)
      × IsFree c thread_id used r
unfolding draw_request
draw_request-IsFree c op thread_id used [] b f a s = absurd s
draw_request-IsFree c op thread_id used (tmppos ∷ draws) b f a s =
    let r = request_for c op tmppos in
    let (file, end, size) = request_for-Within c op tmppos b f in
    elim (Bool-cases (c.validate && is_in_use 0 thread_id used r)) [
      | inl e ↦ rw e (
          draw_request-IsFree c op thread_id used draws b f a.1 (elim s [
            | inl free ↦
                absurd
                  (true≢false (sym (is_used c.validate (is_in_use 0 thread_id used r) e) ∙ free))
            | inr more ↦ more
          ]))
      | inr e ↦ rw e (
        r,
        refl,
        request_for-operation c op tmppos,
        (file.1 a.0, end, size, λ v. not_used c.validate (is_in_use 0 thread_id used r) e v),
      )
    ]

abbrev pub rnd_op : Config → Bool → FileOp
rnd_op c reads =
    if (if is_rnd_rw c.test_mode then not reads else is_rnd_write c.test_mode)
    then op_write
    else op_read

-- A random request when it is not time to synchronise: if blocks and files are not empty, every drawn
-- position, rounded down to a block, lies in the files, and one of the drawn blocks is not in use by
-- another thread, then a request is made. It is the mode's operation, ends inside one of the files and
-- has at least one byte; with validation no other thread uses its block; and the thread's entry in
-- `per_thread` is the block of the request afterwards.
pub file_get_rnd_request-IsFree :
    (c : Config) (reads : Bool) (thread_id : ℕ) (draws : List ℕ) (st : State)
    → 0 < c.block_size
    → 0 < c.file_size
    → AllBelow c draws
    → SomeFree c (rnd_op c reads) thread_id st.per_thread draws
    → is_fsync_time c st ≡ false
    → (r : Request) × (st' : State) × (file_get_rnd_request c reads thread_id draws st
        ≡ some (r, st'))
      × (r.operation ≡ rnd_op c reads)
      × (st'.per_thread ≡ set st.per_thread thread_id (r.file_id, r.pos))
      × IsFree c thread_id st.per_thread r
unfolding file_get_rnd_request
file_get_rnd_request-IsFree c reads thread_id draws st b f a s t =
    let write = if is_rnd_rw c.test_mode then not reads else is_rnd_write c.test_mode in
    let (r, e, o, free) =
      draw_request-IsFree c (rnd_op c reads) thread_id st.per_thread draws b f a s in
    rw (t, e)
      (
        r,
        performed write (record st { per_thread = set st.per_thread thread_id (r.file_id, r.pos) }),
        refl,
        o,
        refl,
        free,
      )
