-- ===== src/FileTest/Requests/Within.antt =====
-- Which part of which file a sequential request of sb_fileio.c is for.
use bits_on_demand_pte_te.Prelude.{
  Bool, false, ◌&&◌, if◌then◌else◌, true≢false, sym, ◌+◌, ◌-◌, ◌^◌, ◌≤◌, ◌<◌, ◌≡◌, true, Bool-cases,
  inl, inr, ◌==◌, arith,
}
use bits_on_demand_pte_te.FileTest.Requests.{
  inc32, fsync_request, remembered, performed, seq_transfer, file_get_seq_request, is_write_mode,
  is_fsync_time, op_read, op_write, FileOp, Request, Config, State, min, init_vars, is_transfer,
  rewound, request_at, advanced,
}

-- There are files, and neither they nor the requests are empty.
pub record Fits (c : Config) : Type 0 where
  pub files : 0 < c.num_files
  pub counted : c.num_files < 2 ^ 32
  pub size : 0 < c.file_size
  pub request : 0 < c.request_size

pub record Placed (c : Config) (st : State) : Type 0 where
  pub position : st.position < c.file_size
  pub file : st.current_file ≤ c.num_files
  pub fsynced : st.fsynced_file < c.num_files

pub record Within (c : Config) (r : Request) : Type 0 where
  pub file : r.file_id < c.num_files
  pub end : r.pos + r.size ≤ c.file_size
  pub some_bytes : is_transfer r.operation ≡ true → 0 < r.size

pub init_vars-Placed : (c : Config) (st : State) → Fits c → Placed c (init_vars c st)
unfolding init_vars
init_vars-Placed c st f = record { position = f.size; file = omega arith; fsynced = f.files }

pub rewound-Placed :
    (c : Config) (st : State)
    → Fits c
    → Placed c st
    → Placed c (rewound c st) × ((rewound c st).current_file < c.num_files)
rewound-Placed c st f p = elim (Bool-cases (st.current_file == c.num_files)) [
  | inl e ↦ rw e (record { position = f.size; file = omega arith; fsynced = p.fsynced }, f.files)
  | inr e ↦ rw e (p, ground (arith, p.file))
]

advanced-Placed :
    (c : Config) (st : State)
    → Fits c
    → Placed c st
    → st.current_file < c.num_files
    → Placed c (advanced c (min c.request_size (c.file_size - st.position)) st)
advanced-Placed c st f p h =
    elim (Bool-cases
      (st.position + min c.request_size (c.file_size - st.position) == c.file_size)) [
        | inl e ↦
            rw e
              (record { position = f.size; file = ground (arith, f.counted); fsynced = p.fsynced })
        | inr e ↦
            rw e
              (record { position = ground (arith, p.position); file = p.file; fsynced = p.fsynced })
      ]

remembered-Placed :
    (c : Config) (validate warned : Bool) (r : Request) (st : State)
    → Placed c st
    → Placed c (remembered validate warned r st)
remembered-Placed c false warned r st p = p
remembered-Placed c true warned r st p = record {
  position = p.position;
  file = p.file;
  fsynced = p.fsynced;
}

request_at-Within :
    (c : Config) (op : FileOp) (st : State)
    → Fits c
    → Placed c st
    → st.current_file < c.num_files
    → Within c (request_at c op st)
request_at-Within c op st f p h = record {
  file = h;
  end = ground (arith, p.position);
  some_bytes = λ e. ground (arith, p.position, f.request);
}

seq_transfer-Within :
    (c : Config) (write : Bool) (st : State)
    → Fits c
    → Placed c st
    → Within c (seq_transfer c write st).0 × Placed c (seq_transfer c write st).1
unfolding seq_transfer
seq_transfer-Within c write st f p =
    let q : Placed c (performed write st) = record {
      position = p.position;
      file = p.file;
      fsynced = p.fsynced;
    } in
    let st' = rewound c (performed write st) in
    let (placed, file) = rewound-Placed c (performed write st) f q in
    let op = if write then op_write else op_read in
    let r = request_at c op st' in
    (
      request_at-Within c op st' f placed file,
      remembered-Placed c c.validate _ r (advanced c r.size st')
          (advanced-Placed c st' f placed file),
    )

fsync_request-Within :
    (c : Config) (st : State)
    → Fits c
    → Placed c st
    → Within c (fsync_request c st).0 × Placed c (fsync_request c st).1
unfolding fsync_request
fsync_request-Within c st f p = (
  record { file = p.fsynced; end = omega arith; some_bytes = λ e. absurd (true≢false (sym e)) },
  elim (Bool-cases (inc32 st.fsynced_file == c.num_files)) [
    | inl e ↦ rw e (record { position = p.position; file = p.file; fsynced = f.files })
    | inr e ↦ rw e (record {
      position = p.position;
      file = p.file;
      fsynced = ground (arith, p.fsynced, f.counted);
    })
  ],
)

-- The next sequential request, where there are fewer than 2^32 files, which are not empty, and a
-- request has a size, and the state is one with a file, a position and a file to synchronise within
-- the bounds, as `init_vars` and every such request leave it. The request is for one of the files and
-- for a part of it that ends inside it, and one to read or to write has at least one byte.
pub file_get_seq_request-Within :
    (c : Config) (st : State)
    → Fits c
    → Placed c st
    → Within c (file_get_seq_request c st).0 × Placed c (file_get_seq_request c st).1
unfolding file_get_seq_request
file_get_seq_request-Within c st f p =
    elim (Bool-cases (is_write_mode c.test_mode && is_fsync_time c st)) [
      | inl e ↦ rw e (fsync_request-Within c st f p)
      | inr e ↦ rw e (seq_transfer-Within c (is_write_mode c.test_mode) st f p)
    ]
