-- ===== src/Timer.antt =====
-- test10/sysbench/src/sb_timer.c and the inline functions of sb_timer.h: timers that count events
-- and their total, least and greatest time. What the clock shows is an argument, and the spin lock
-- is left out: an operation is one step. The counters are 64-bit words, the seconds and
-- nanoseconds of a `struct timespec` are taken as they are.
use bits_on_demand_pte_te.Prelude.{
  ℕ, zero, suc, ◌+◌, ◌-◌, ◌*◌, ◌/◌, ◌%◌, ◌^◌, Bool, true, false, ◌==◌, ltb, leb, if◌then◌else◌,
  List, [], ◌∷◌,
}
mod Examples
pub mod Elapsed
pub mod Statistics

abbrev pub u64 : ℕ → ℕ
u64 n = n % 2 ^ 64

abbrev pub uint64_max : ℕ
uint64_max = 2 ^ 64 - 1

abbrev pub ns_per_sec : ℕ
ns_per_sec = 1_000_000_000

pub record Timespec : Type 0 where
  pub tv_sec : ℕ
  pub tv_nsec : ℕ

abbrev pub nanoseconds : Timespec → ℕ
nanoseconds t = t.tv_sec * ns_per_sec + t.tv_nsec

-- TIMESPEC_DIFF(a, b), as the 64-bit word that it is stored in.
unfoldable pub timespec_diff : Timespec → Timespec → ℕ
timespec_diff a b = (nanoseconds a % 2 ^ 64 + (2 ^ 64 - nanoseconds b % 2 ^ 64)) % 2 ^ 64

pub record Timer : Type 0 where
  pub time_start : Timespec
  pub time_end : Timespec
  pub events : ℕ
  pub queue_time : ℕ
  pub min_time : ℕ
  pub max_time : ℕ
  pub sum_time : ℕ

unfoldable pub sb_timer_reset : Timer → Timer
sb_timer_reset t = record t {
  min_time = uint64_max;
  max_time = 0;
  sum_time = 0;
  events = 0;
  queue_time = 0;
}

unfoldable pub sb_timer_init : Timer → Timer
unfolding sb_timer_reset
sb_timer_init t = sb_timer_reset (record t {
  time_start = record { tv_sec = 0; tv_nsec = 0 };
  time_end = record { tv_sec = 0; tv_nsec = 0 };
})

-- The clone; the original stays.
unfoldable pub sb_timer_copy : Timer → Timer
sb_timer_copy from = from

-- `TIMESPEC_DIFF(t->time_start, t->time_end) > 0`, where the difference is an unsigned word.
unfoldable pub sb_timer_running : Timer → Bool
unfolding timespec_diff
sb_timer_running t = ltb 0 (timespec_diff t.time_start t.time_end)

unfoldable pub sb_timer_start : Timespec → Timer → Timer
sb_timer_start now t = record t { time_start = now }

-- The new timer and the elapsed time.
unfoldable pub sb_timer_stop : Timespec → Timer → Timer × ℕ
unfolding timespec_diff
sb_timer_stop now t =
    let elapsed = u64 (timespec_diff now t.time_start + t.queue_time) in
    (
      record t {
        time_end = now;
        events = u64 (t.events + 1);
        sum_time = u64 (t.sum_time + elapsed);
        min_time = if ltb elapsed t.min_time then elapsed else t.min_time;
        max_time = if ltb t.max_time elapsed then elapsed else t.max_time;
      },
      elapsed,
    )

unfoldable pub sb_timer_value : Timespec → Timer → ℕ
unfolding timespec_diff
sb_timer_value now t = u64 (timespec_diff now t.time_start + t.queue_time)

unfoldable pub sb_timer_current : Timespec → Timer → Timer × ℕ
unfolding timespec_diff
sb_timer_current now t = (record t { time_start = now }, timespec_diff now t.time_start)

-- The timer after the call, and its state before, which goes into `old`.
unfoldable pub sb_timer_checkpoint : Timer → Timer × Timer
unfolding sb_timer_reset
sb_timer_checkpoint t = (sb_timer_reset t, t)

unfoldable pub sb_timer_avg : Timer → ℕ
sb_timer_avg t = if t.events == 0 then 0 else t.sum_time / t.events

unfoldable pub sb_timer_sum : Timer → ℕ
sb_timer_sum t = t.sum_time

unfoldable pub sb_timer_min : Timer → ℕ
sb_timer_min t = if t.events == 0 then 0 else t.min_time

unfoldable pub sb_timer_max : Timer → ℕ
sb_timer_max t = t.max_time

unfoldable pub sb_timer_merge : Timer → Timer → Timer
sb_timer_merge t1 t2 = record {
  time_start = record { tv_sec = 0; tv_nsec = 0 };
  time_end = record { tv_sec = 0; tv_nsec = 0 };
  events = u64 (t1.events + t2.events);
  queue_time = 0;
  min_time = if ltb t1.min_time t2.min_time then t1.min_time else t2.min_time;
  max_time = if ltb t2.max_time t1.max_time then t1.max_time else t2.max_time;
  sum_time = u64 (t1.sum_time + t2.sum_time);
}
