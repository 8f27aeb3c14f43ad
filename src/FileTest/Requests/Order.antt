-- ===== src/FileTest/Requests/Order.antt =====
-- The order of the sequential requests of sb_fileio.c and the warnings of `check_seq_req`.
use bits_on_demand_pte_te.Prelude.{
  ap₂, ℕ, zero, suc, ◌+◌, ◌-◌, ◌^◌, ◌<◌, ◌≡◌, ◌⊎◌, refl, ap, ◌∙◌, Bool, true, false, not,
  Bool-cases, inl, inr, ◌==◌, if◌then◌else◌, arith, ◌&&◌,
}
use bits_on_demand_pte_te.FileTest.Requests.{
  FileOp, op_read, op_write, Request, Config, State, min, inc32, init_vars, is_transfer, is_null,
  is_jump, check_seq_req, is_write_mode, is_fsync_time, fsync_request, rewound, request_at,
  advanced, performed, seq_transfer, file_get_seq_request,
}
use bits_on_demand_pte_te.FileTest.Requests.Within.{
  rewound-Placed, Fits, Placed, init_vars-Placed, file_get_seq_request-Within,
}

-- The request that `p` goes on from ends at the position, or it ends its file and the position is at
-- the start of the next one.
abbrev Continues : Config → Request → (file position : ℕ) → Type 0
Continues c p file position =
    (is_null p.operation ≡ false)
    × (p.file_id < c.num_files)
    × (((file ≡ p.file_id) × (position ≡ p.pos + p.size))
        ⊎ ((file ≡ p.file_id + 1) × (position ≡ 0) × (p.pos + p.size ≡ c.file_size)))

abbrev Follows : Config → State → Type 0
Follows c st =
    ((is_null st.prev_req.operation ≡ true) × (st.current_file ≡ 0))
    ⊎ Continues c st.prev_req st.current_file st.position

abbrev pub rewinds_alone : Config → State → Bool
rewinds_alone c st = st.current_file == c.num_files && c.num_files == 1

is_jump_same :
    (c : Config) (file pos : ℕ)
    → file < c.num_files
    → c.num_files < 2 ^ 32
    → is_jump c file pos file pos ≡ false
is_jump_same c file pos h k = ground arith

is_jump_next :
    (c : Config) (file : ℕ)
    → suc file < c.num_files
    → c.num_files < 2 ^ 32
    → is_jump c file c.file_size (file + 1) 0 ≡ false
is_jump_next c file h k = ground arith

is_jump_rewound :
    (c : Config) (file : ℕ)
    → file + 1 ≡ c.num_files
    → c.num_files < 2 ^ 32
    → 0 < c.file_size
    → is_jump c file c.file_size 0 0 ≡ (c.num_files == 1)
is_jump_rewound c file h k z = ground arith

check-jump :
    (c : Config) (prev r : Request)
    → is_transfer r.operation ≡ true
    → is_null prev.operation ≡ false
    → check_seq_req c prev r ≡ is_jump c prev.file_id (prev.pos + prev.size) r.file_id r.pos
unfolding check_seq_req
check-jump c prev r t n = rw (t, n) refl

check-null :
    (c : Config) (prev r : Request)
    → is_transfer r.operation ≡ true
    → is_null prev.operation ≡ true
    → check_seq_req c prev r ≡ false
unfolding check_seq_req
check-null c prev r t n = rw (t, n) refl

-- Where a state rewinds and where not.
rewound_here :
    (c : Config) (st : State) → (st.current_file == c.num_files) ≡ false → rewound c st ≡ st
rewound_here c st e = rw e refl

check-alone :
    (c : Config) (st : State) (op : FileOp)
    → Fits c
    → Placed c st
    → is_transfer op ≡ true
    → Follows c st
    → check_seq_req c st.prev_req (request_at c op (rewound c st)) ≡ rewinds_alone c st
check-alone c st op f p t (inl (n, z)) =
    check-null c st.prev_req (request_at c op (rewound c st)) t n ∙ ground (arith, z, f.files)
check-alone c st op f p t (inr (n, h, inl (same, pos))) =
    let stays : (st.current_file == c.num_files) ≡ false = ground (arith, same, h) in
    check-jump c st.prev_req (request_at c op (rewound c st)) t n
    ∙ rw (stays, same, pos)
        (is_jump_same c st.prev_req.file_id (st.prev_req.pos + st.prev_req.size) h f.counted)
check-alone c st op f p t (inr (n, h, inr (next, pos, end))) =
    check-jump c st.prev_req (request_at c op (rewound c st)) t n
    ∙ elim (Bool-cases (st.current_file == c.num_files)) [
      | inl e ↦
          rw (e, end)
            (is_jump_rewound c st.prev_req.file_id (ground (arith, next, e)) f.counted f.size)
      | inr e ↦
          rw (e, next, pos, end)
            (is_jump_next c st.prev_req.file_id (ground (arith, next, e, p.file)) f.counted)
    ]

-- What `rewound` and `advanced` leave alone.
abbrev Kept : State → State → Type 0
Kept st st' = (st'.prev_req ≡ st.prev_req) × (st'.warnings ≡ st.warnings)

rewound-Kept : (c : Config) (st : State) → Kept st (rewound c st)
rewound-Kept c st = elim (Bool-cases (st.current_file == c.num_files)) [
  | inl e ↦ rw e (refl, refl)
  | inr e ↦ rw e (refl, refl)
]

advanced-Kept : (c : Config) (n : ℕ) (st : State) → Kept st (advanced c n st)
advanced-Kept c n st = elim (Bool-cases (st.position + n == c.file_size)) [
  | inl e ↦ rw e (refl, refl)
  | inr e ↦ rw e (refl, refl)
]

transfer_op : Bool → FileOp
transfer_op write = if write then op_write else op_read

advanced-Continues :
    (c : Config) (write : Bool) (st : State)
    → Fits c
    → st.current_file < c.num_files
    → let r = request_at c (if write then op_write else op_read) st in
      let st' = advanced c r.size st in Continues c r st'.current_file st'.position
advanced-Continues c write st f h =
    let size = min c.request_size (c.file_size - st.position) in
    (
      not_null write,
      h,
      elim (Bool-cases (st.position + size == c.file_size)) [
        | inl e ↦ rw e (inr (ground (arith, h, f.counted), refl, ground (arith, e)))
        | inr e ↦ rw e (inl (refl, refl))
      ],
    )
  where
    not_null : (write : Bool) → is_null (if write then op_write else op_read) ≡ false
    not_null true = refl
    not_null false = refl

is_transfer-write : (write : Bool) → is_transfer (if write then op_write else op_read) ≡ true
is_transfer-write true = refl
is_transfer-write false = refl

seq_transfer-Follows :
    (c : Config) (write : Bool) (st : State)
    → Fits c
    → c.validate ≡ true
    → Placed c st
    → Follows c st
    → Follows c (seq_transfer c write st).1
      × ((seq_transfer c write st).1.warnings
          ≡ (if rewinds_alone c st then st.warnings + 1 else st.warnings))
unfolding seq_transfer
seq_transfer-Follows c write st f v p g =
    let begun = performed write st in
    let q : Placed c begun = record { position = p.position; file = p.file; fsynced = p.fsynced } in
    let st' = rewound c begun in
    let op = if write then op_write else op_read in
    let size = (request_at c op st').size in
    let (prev, warned) = advanced-Kept c size st' in
    let (prev', warned') = rewound-Kept c begun in
    let alone = check-alone c begun op f q (is_transfer-write write) g in
    simp v (
      inr (advanced-Continues c write st' f (rewound-Placed c begun f q).1),
      ap₂ (λ q w. if check_seq_req c q (request_at c op st') then w + 1 else w) (prev ∙ prev')
            (warned ∙ warned')
          ∙ ap (λ b. if b then st.warnings + 1 else st.warnings) alone,
    )

-- The states of a sequential test: `n` requests after `init_vars`.
unfoldable pub after_requests : ℕ → Config → State → State
unfolding init_vars file_get_seq_request
after_requests zero c st = init_vars c st
after_requests (suc n) c st = (file_get_seq_request c (after_requests n c st)).1

fsync_request-Follows :
    (c : Config) (st : State)
    → Follows c st
    → Follows c (fsync_request c st).1 × ((fsync_request c st).1.warnings ≡ st.warnings)
unfolding fsync_request
fsync_request-Follows c st g = elim (Bool-cases (inc32 st.fsynced_file == c.num_files)) [
  | inl e ↦ rw e (g, refl)
  | inr e ↦ rw e (g, refl)
]

-- Whether the next request is a transfer that goes back to the first file from itself.
abbrev pub rewinds_single_file : Config → State → Bool
rewinds_single_file c st =
    not (is_write_mode c.test_mode && is_fsync_time c st) && rewinds_alone c st

file_get_seq_request-Follows :
    (c : Config) (st : State)
    → Fits c
    → c.validate ≡ true
    → Placed c st
    → Follows c st
    → Follows c (file_get_seq_request c st).1
      × ((file_get_seq_request c st).1.warnings
          ≡ (if rewinds_single_file c st then st.warnings + 1 else st.warnings))
unfolding file_get_seq_request
file_get_seq_request-Follows c st f v p g =
    elim (Bool-cases (is_write_mode c.test_mode && is_fsync_time c st)) [
      | inl e ↦ rw e (fsync_request-Follows c st g)
      | inr e ↦ rw e (seq_transfer-Follows c (is_write_mode c.test_mode) st f v p g)
    ]

init_vars-Follows : (c : Config) (st : State) → c.validate ≡ true → Follows c (init_vars c st)
unfolding init_vars
init_vars-Follows c st v = inl (rw v refl, refl)

after_requests-Follows :
    (n : ℕ) (c : Config) (st : State)
    → Fits c
    → c.validate ≡ true
    → Placed c (after_requests n c st) × Follows c (after_requests n c st)
unfolding after_requests
after_requests-Follows zero c st f v = (init_vars-Placed c st f, init_vars-Follows c st v)
after_requests-Follows (suc n) c st f v =
    let (p, g) = after_requests-Follows n c st f v in
    (
      (file_get_seq_request-Within c (after_requests n c st) f p).1,
      (file_get_seq_request-Follows c (after_requests n c st) f v p g).0,
    )

-- In a sequential test with validation, with fewer than 2^32 files, none of them empty, and requests
-- that are not empty: after any number of requests the next one makes `check_seq_req` log a warning
-- in one case only, when it is a transfer that takes a test with a single file back to the start of
-- that file.
pub after_requests-warnings :
    (n : ℕ) (c : Config) (st : State)
    → Fits c
    → c.validate ≡ true
    → (after_requests (suc n) c st).warnings ≡ (
        if rewinds_single_file c (after_requests n c st)
        then (after_requests n c st).warnings + 1
        else (after_requests n c st).warnings)
unfolding after_requests
after_requests-warnings n c st f v =
    let (p, g) = after_requests-Follows n c st f v in
    (file_get_seq_request-Follows c (after_requests n c st) f v p g).1
