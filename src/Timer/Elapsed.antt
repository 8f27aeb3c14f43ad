-- ===== src/Timer/Elapsed.antt =====
-- The timers of sb_timer.c and the readings of the clock.
use bits_on_demand_pte_te.Prelude.{◌+◌, ◌-◌, ◌^◌, ◌<◌, ◌≤◌, ◌≡◌, refl, true, arith}
use bits_on_demand_pte_te.Timer.{
  Timespec, nanoseconds, timespec_diff, Timer, sb_timer_start, sb_timer_stop, sb_timer_value,
  sb_timer_current, sb_timer_running,
}

timespec_diff-lem :
    (a b : Timespec)
    → nanoseconds b ≤ nanoseconds a
    → nanoseconds a < 2 ^ 64
    → timespec_diff a b ≡ nanoseconds a - nanoseconds b
unfolding timespec_diff
timespec_diff-lem a b h k = omega arith

-- A timer that is started and then stopped at a later time returns the nanoseconds between the two
-- and the queue time, as it would have been read off without stopping it; if the clock's reading,
-- and the result, are below 2^64.
pub sb_timer_stop-start :
    (before now : Timespec) (t : Timer)
    → nanoseconds before ≤ nanoseconds now
    → nanoseconds now < 2 ^ 64
    → nanoseconds now - nanoseconds before + t.queue_time < 2 ^ 64
    → ((sb_timer_stop now (sb_timer_start before t)).1
        ≡ nanoseconds now - nanoseconds before + t.queue_time)
      × (sb_timer_value now (sb_timer_start before t)
          ≡ (sb_timer_stop now (sb_timer_start before t)).1)
unfolding sb_timer_stop sb_timer_start sb_timer_value
sb_timer_stop-start before now t h k small =
    (rw (timespec_diff-lem now before h k) (omega arith), refl)

-- Two readings by `sb_timer_current`, the first at a time in between, add up to the one reading
-- over both intervals, if the clock does not go back and stays below 2^64 nanoseconds.
pub sb_timer_current-split :
    (start middle now : Timespec) (t : Timer)
    → nanoseconds start ≤ nanoseconds middle
    → nanoseconds middle ≤ nanoseconds now
    → nanoseconds now < 2 ^ 64
    → (sb_timer_current middle (sb_timer_start start t)).1
        + (sb_timer_current now (sb_timer_current middle (sb_timer_start start t)).0).1
      ≡ (sb_timer_current now (sb_timer_start start t)).1
unfolding sb_timer_current sb_timer_start
sb_timer_current-split start middle now t h k small = omega (
  arith,
  timespec_diff-lem middle start h (omega arith),
  timespec_diff-lem now middle k small,
  timespec_diff-lem now start (omega arith) small,
)

-- A timer that was started, and stopped at a later time below 2^64 nanoseconds, is still said to
-- be running.
pub sb_timer_running-stop :
    (before now : Timespec) (t : Timer)
    → nanoseconds before < nanoseconds now
    → nanoseconds now < 2 ^ 64
    → sb_timer_running (sb_timer_stop now (sb_timer_start before t)).0 ≡ true
unfolding sb_timer_running sb_timer_stop sb_timer_start timespec_diff
sb_timer_running-stop before now t h k = ground arith
