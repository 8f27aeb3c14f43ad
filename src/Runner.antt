-- ===== src/Runner.antt =====
-- test10/sysbench/src/sysbench.c: when a worker thread takes another event, `sb_more_events`, and its
-- main loop, `thread_run`, of several threads at once.
mod Examples
pub mod Limit
pub mod Exact
use bits_on_demand_pte_te.Prelude.{
  ℕ, zero, suc, ◌+◌, ◌-◌, ◌%◌, ◌^◌, ◌≡◌, Bool, true, false, not, ◌&&◌, ◌||◌, Option, none, some,
  List, [], ◌∷◌, ◌++◌, ltb, leb, if◌then◌else◌,
}
use bits_on_demand_pte_te.Prelude.Lists.{get_elem?, set}
use bits_on_demand_pte_te.Pte.Machine.{ℤ, pos, negsuc, is_zero}

-- The fields of `sb_globals` that the threads share.
pub record Globals : Type 0 where
  pub error : Bool
  pub max_time_ns : ℕ
  pub max_events : ℕ
  pub nevents : ℕ
  pub tx_rate : ℕ
  pub concurrency : ℕ

-- `now` is the value of `sb_exec_timer`.
abbrev pub is_late : Globals → (now : ℕ) → Bool
is_late g now = ltb 0 g.max_time_ns && leb g.max_time_ns now

-- The tests in front of the queue; the counter is fetched and added to in one step.
unfoldable pub within_limits : Globals → (now : ℕ) → Bool × Globals
within_limits g now =
    if g.error || is_late g now
    then (false, g)
    else if ltb 0 g.max_events
    then (not (leb g.max_events g.nevents), record g { nevents = (g.nevents + 1) % 2 ^ 64 })
    else (true, g)

-- The outcome of `sb_more_events`: false; true, with the time that the event waited in the queue; a
-- read through a null pointer; or a wait that has not ended.
pub data More : Type 0 where
  refused crashed unfinished : More
  granted : (queue_time : Option ℕ) → More

-- What other threads do around one wait on `queue_cond`: whether `error` is set when the loop tests it,
-- and when the wait is over, the time then, and the events that have come into the queue.
pub record Wake : Type 0 where
  pub error_before : Bool
  pub error_after : Bool
  pub now : ℕ
  pub arrived : List ℕ

abbrev pub elapsed : (now enqueued : ℕ) → ℕ
elapsed now enqueued = (now + (2 ^ 64 - enqueued)) % 2 ^ 64

-- The loop that takes an event from the queue; `now` is the time when one is taken.
unfoldable pub take_event :
    Globals → (now : ℕ) → (queue : List ℕ) → List Wake → More × Globals × List ℕ
take_event g now (event ∷ queue) wakes = (
  granted (some (elapsed now event)),
  record g { concurrency = (g.concurrency + 1) % 2 ^ 32 },
  queue,
)
take_event g now [] [] = (unfinished, g, [])
take_event g now [] (w ∷ wakes) =
    let later = take_event g w.now w.arrived wakes in
    if w.error_before
    then (crashed, record g { error = true }, [])
    else if w.error_after
    then (refused, record g { error = true }, w.arrived)
    else if is_late g w.now
    then (refused, g, w.arrived)
    else later

unfoldable pub sb_more_events :
    Globals → (now : ℕ) → (queue : List ℕ) → List Wake → More × Globals × List ℕ
unfolding within_limits take_event
sb_more_events g now queue wakes =
    let (more, g') = within_limits g now in
    let taken = take_event g' now queue wakes in
    if more
    then if ltb 0 g.tx_rate then taken else (granted none, g', queue)
    else (refused, g', queue)

-- Where a worker thread is in `thread_run`: in front of the test of its loop, with the result of the
-- last event; at an event; behind the loop; and returned from `worker_thread`.
pub data Phase : Type 0 where
  looping : (rc : ℤ) → Phase
  executing : Phase
  ended : (rc : ℤ) → Phase
  left : Phase

-- The threads, and the number of events that they have started.
pub record Pool : Type 0 where
  pub globals : Globals
  pub threads : List Phase
  pub started : ℕ

abbrev pub is_granted : More → Bool
is_granted refused = false
is_granted crashed = false
is_granted unfinished = false
is_granted (granted queue_time) = true

-- Behind the test of the loop; `is_null` is whether `next_event` gives SB_REQ_TYPE_NULL.
unfoldable pub begin : (i : ℕ) → (rc : ℤ) → (is_null : Bool) → More × Globals × List ℕ → Pool → Pool
begin i rc is_null (more, g, queue) p =
    if (is_granted more && is_zero rc) && not is_null
    then record p { globals = g; threads = set p.threads i executing; started = p.started + 1 }
    else record p { globals = g; threads = set p.threads i (ended rc) }

-- `if (rc != 0) sb_globals.error = 1;`
unfoldable pub leave : (i : ℕ) → (rc : ℤ) → Pool → Pool
leave i rc p = record p {
  globals = record p.globals { error = not (is_zero rc) || p.globals.error };
  threads = set p.threads i left;
}

-- A step of the thread `i`, without an event queue (`tx_rate` is 0).
pub data Step : Pool → Pool → Type 0 where
  test :
      {p : Pool} (i : ℕ) (rc : ℤ) (now : ℕ) (is_null : Bool)
      → get_elem? p.threads i ≡ some (looping rc)
      → Step p (begin i rc is_null (sb_more_events p.globals now [] []) p)
  execute :
      {p : Pool} (i : ℕ) (rc : ℤ)
      → get_elem? p.threads i ≡ some executing
      → Step p (record p { threads = set p.threads i (looping rc) })
  return :
      {p : Pool} (i : ℕ) (rc : ℤ) → get_elem? p.threads i ≡ some (ended rc) → Step p (leave i rc p)

-- `n` steps.
pub data Steps : ℕ → Pool → Pool → Type 0 where
  here : {p : Pool} → Steps 0 p p
  then_step : {n : ℕ} {p q r : Pool} → Steps n p q → Step q r → Steps (suc n) p r
