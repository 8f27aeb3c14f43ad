-- ===== src/Timer/Examples.antt =====
-- The theorems about the timers at a timer that measured 5 seconds.
use bits_on_demand_pte_te.Prelude.{ℕ, ◌≡◌, refl, [], ◌∷◌}
use bits_on_demand_pte_te.Timer.{
  Timespec, timespec_diff, Timer, sb_timer_reset, sb_timer_init, sb_timer_start, sb_timer_stop,
}
use bits_on_demand_pte_te.Timer.Statistics.{
  Measures, sb_timer_init-Measures, sb_timer_stop-Measures,
}

abbrev at_second : ℕ → Timespec
at_second n = record { tv_sec = n; tv_nsec = 0 }

abbrev unset : Timer
unset = record {
  time_start = at_second 0;
  time_end = at_second 0;
  events = 0;
  queue_time = 0;
  min_time = 0;
  max_time = 0;
  sum_time = 0;
}

abbrev started : Timer
started = sb_timer_start (at_second 10) (sb_timer_init unset)

started-Measures : Measures started []
unfolding sb_timer_start
started-Measures =
    let m = sb_timer_init-Measures unset in
    record {
      events = m.events;
      sum_time = m.sum_time;
      min_time = m.min_time;
      max_time = m.max_time;
    }

abbrev stopped : Timer
stopped = (sb_timer_stop (at_second 15) started).0

abbrev elapsed : ℕ
elapsed = (sb_timer_stop (at_second 15) started).1

stopped-Measures : Measures stopped (elapsed ∷ [])
stopped-Measures = sb_timer_stop-Measures (at_second 15) started [] started-Measures

five_seconds : elapsed ≡ 5_000_000_000
unfolding sb_timer_start sb_timer_stop sb_timer_init sb_timer_reset timespec_diff
five_seconds = refl
