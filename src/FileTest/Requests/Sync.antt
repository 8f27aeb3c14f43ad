-- ===== src/FileTest/Requests/Sync.antt =====
-- The series of requests to synchronise the files in sb_fileio.c.
use bits_on_demand_pte_te.Prelude.{
  ℕ, zero, suc, ◌+◌, ◌^◌, ◌<◌, ◌≡◌, refl, ap, true, false, List, [], ◌∷◌, ◌==◌, arith,
}
use bits_on_demand_pte_te.FileTest.Requests.{
  op_fsync, Request, Config, State, inc32, is_write_mode, is_fsync_time, fsync_request,
  file_get_seq_request,
}

-- The next `n` requests and the state behind them.
unfoldable pub seq_requests : ℕ → Config → State → List Request × State
unfolding file_get_seq_request
seq_requests zero c st = ([], st)
seq_requests (suc n) c st =
    let (r, st') = file_get_seq_request c st in
    let (rs, last) = seq_requests n c st' in (r ∷ rs, last)

abbrev pub fsyncs : (first n : ℕ) → List Request
fsyncs first zero = []
fsyncs first (suc n) =
    record { operation = op_fsync; file_id = first; pos = 0; size = 0 } ∷ fsyncs (first + 1) n

fsync_request_more :
    (c : Config) (st : State)
    → suc st.fsynced_file < c.num_files
    → c.num_files < 2 ^ 32
    → (fsync_request c st).1 ≡ record st { fsynced_file = st.fsynced_file + 1 }
unfolding fsync_request
fsync_request_more c st h k =
    let differs : (inc32 st.fsynced_file == c.num_files) ≡ false = ground arith in
    let next : inc32 st.fsynced_file ≡ st.fsynced_file + 1 = omega arith in rw (differs, next) refl

fsync_request_last :
    (c : Config) (st : State)
    → suc st.fsynced_file ≡ c.num_files
    → c.num_files < 2 ^ 32
    → (fsync_request c st).1 ≡ record st { fsynced_file = 0; is_dirty = false }
unfolding fsync_request
fsync_request_last c st h k =
    let same : (inc32 st.fsynced_file == c.num_files) ≡ true = ground arith in rw same refl

fsync_request-first :
    (c : Config) (st : State)
    → (fsync_request c st).0
      ≡ record { operation = op_fsync; file_id = st.fsynced_file; pos = 0; size = 0 }
unfolding fsync_request
fsync_request-first c st = refl

in_time :
    (c : Config) (st : State)
    → is_write_mode c.test_mode ≡ true
    → is_fsync_time c st ≡ true
    → file_get_seq_request c st ≡ fsync_request c st
unfolding file_get_seq_request
in_time c st w t = rw (w, t) refl

-- When a sequential test that writes, with fewer than 2^32 files, comes to a request at which it is
-- time to synchronise and `k + 1` files are left in the series, the next `k + 1` requests synchronise
-- these files, one after the other and each once; after them the state is what it was, but for the
-- series, which starts again at the first file, and that no write counts as not synchronised.
pub seq_requests-fsyncs :
    (k : ℕ) (c : Config) (st : State)
    → st.fsynced_file + suc k ≡ c.num_files
    → c.num_files < 2 ^ 32
    → is_write_mode c.test_mode ≡ true
    → is_fsync_time c st ≡ true
    → seq_requests (suc k) c st
      ≡ (fsyncs st.fsynced_file (suc k), record st { fsynced_file = 0; is_dirty = false })
unfolding seq_requests
seq_requests-fsyncs zero c st h n w t =
    rw (in_time c st w t, fsync_request-first c st, fsync_request_last c st (omega (arith, h)) n)
      refl
seq_requests-fsyncs (suc k) c st h n w t =
    let st' = record st { fsynced_file = st.fsynced_file + 1 } in
    let rest = seq_requests-fsyncs k c st' (omega (arith, h)) n w t in
    rw (in_time c st w t, fsync_request-first c st, fsync_request_more c st (omega (arith, h)) n)
      (ap
        (λ (q : List Request × State). (
          record { operation = op_fsync; file_id = st.fsynced_file; pos = 0; size = 0 } ∷ q.0,
          q.1,
        ))
        rest)
