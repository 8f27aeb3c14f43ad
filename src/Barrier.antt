-- ===== src/Barrier.antt =====
-- test10/sysbench/src/sb_barrier.c: a barrier at which each `count` callers meet. The callers take
-- the mutex in turn, so that a call is one step, or several if it waits on the condition: the part
-- up to the wait, and one part for each time that the wait returns.
mod Examples
pub mod Counts
pub mod Results
pub mod Rounds
pub mod Tally
use bits_on_demand_pte_te.Prelude.{
  ℕ, zero, suc, ◌+◌, ◌-◌, ◌%◌, ◌^◌, Bool, true, false, ◌==◌, if◌then◌else◌, Option, none, some,
  List, [], ◌∷◌, ◌≡◌,
}
use bits_on_demand_pte_te.Prelude.Lists.{get_elem?, set}
use bits_on_demand_pte_te.Pte.Machine.{ℤ, pos, negsuc}

-- `callback` is whether the callback returns another value than 0, if there is one: it stands for
-- the function and its argument. The mutex and the condition are left out.
pub record Barrier : Type 0 where
  pub count : ℕ
  pub init_count : ℕ
  pub serial : ℕ
  pub callback : Option Bool
  pub error : Bool

-- `made` is whether the mutex and the condition are initialised. None is the result 1.
unfoldable pub sb_barrier_init : (count : ℕ) (callback : Option Bool) (made : Bool) → Option Barrier
sb_barrier_init count callback made =
    if count == 0
    then none
    else if made
    then some (record {
      count = count;
      init_count = count;
      serial = 0;
      callback = callback;
      error = false;
    })
    else none

-- A thread: before its call, in the wait with the serial number that it saw, or with its result.
pub data Caller : Type 0 where
  ready : Caller
  waiting : (serial : ℕ) → Caller
  returned : ℤ → Caller

-- SB_BARRIER_SERIAL_THREAD
abbrev pub serial_thread : ℤ
serial_thread = pos 1

-- `barrier->callback != NULL && barrier->callback(barrier->arg) != 0`
abbrev pub callback_fails : Option Bool → Bool
callback_fails none = false
callback_fails (some fails) = fails

-- The last caller of a round, up to its return.
unfoldable pub release : Barrier → Barrier × Caller
release b =
    let released = record b { serial = (b.serial + 1) % 2 ^ 32; count = b.init_count } in
    if callback_fails b.callback
    then (record released { error = true }, returned (negsuc 0))
    else (released, returned serial_thread)

-- The call up to the wait or, for the last caller of a round, to its end.
unfoldable pub sb_barrier_wait : Barrier → Barrier × Caller
unfolding release
sb_barrier_wait b =
    let count = (b.count + (2 ^ 32 - 1)) % 2 ^ 32 in
    if count == 0
    then release (record b { count = count })
    else (record b { count = count }, waiting b.serial)

-- The wait on the condition returns to a caller that saw `serial`.
unfoldable pub wake : Barrier → (serial : ℕ) → Caller
wake b serial =
    if serial == b.serial then waiting serial else returned (if b.error then negsuc 0 else pos 0)

pub record System : Type 0 where
  pub barrier : Barrier
  pub callers : List Caller

-- A step of one thread: it calls, or its wait returns, which may be for no reason.
pub data Step : System → System → Type 0 where
  calls :
      (b : Barrier) (callers : List Caller) (i : ℕ)
      → get_elem? callers i ≡ some ready
      → Step
          (record { barrier = b; callers = callers })
          (record {
            barrier = (sb_barrier_wait b).0;
            callers = set callers i (sb_barrier_wait b).1;
          })
  wakes :
      (b : Barrier) (callers : List Caller) (i serial : ℕ)
      → get_elem? callers i ≡ some (waiting serial)
      → Step
          (record { barrier = b; callers = callers })
          (record { barrier = b; callers = set callers i (wake b serial) })

pub data Steps : System → System → Type 0 where
  done : (s : System) → Steps s s
  step : (s t u : System) → Steps s t → Step t u → Steps s u
