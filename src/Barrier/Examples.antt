-- ===== src/Barrier/Examples.antt =====
-- The theorems about the barrier, for two threads that meet and go on.
use bits_on_demand_pte_te.Prelude.{
  ℕ, ◌+◌, ◌-◌, ◌*◌, ◌<◌, ◌≤◌, ◌≡◌, refl, Bool, true, false, Option, none, some, List, [], ◌∷◌,
  arith,
}
use bits_on_demand_pte_te.Prelude.Lists.{get_elem?}
use bits_on_demand_pte_te.Pte.Machine.{ℤ}
use bits_on_demand_pte_te.Barrier.{
  Barrier, sb_barrier_init, release, Caller, ready, waiting, returned, sb_barrier_wait, wake,
  System, calls, wakes, Steps, done, step,
}
use bits_on_demand_pte_te.Barrier.Tally.{tally, called, answered, leads, fails, waits_in}
use bits_on_demand_pte_te.Barrier.Rounds.{
  start, fresh, sb_barrier_wait-rounds, sb_barrier_wait-all_released,
}
use bits_on_demand_pte_te.Barrier.Results.{sb_barrier_wait-one_serial_thread}

abbrev first : Option Bool → Barrier
first callback = fresh 2 callback

abbrev second : Option Bool → Barrier
second callback = (sb_barrier_wait (first callback)).0

abbrev third : Option Bool → Barrier
third callback = (sb_barrier_wait (second callback)).0

abbrev before : Option Bool → List Caller
before callback = (sb_barrier_wait (first callback)).1 ∷ ready ∷ []

abbrev between : Option Bool → List Caller
between callback = (sb_barrier_wait (first callback)).1 ∷ (sb_barrier_wait (second callback)).1 ∷ []

-- The first thread waits, the second ends the round, and the first goes on.
abbrev met : Option Bool → System
met callback = record {
  barrier = third callback;
  callers = wake (third callback) 0 ∷ (sb_barrier_wait (second callback)).1 ∷ [];
}

meeting : (callback : Option Bool) → Steps (start (fresh 2 callback) 2) (met callback)
unfolding start sb_barrier_wait release
meeting callback =
    step _ (record { barrier = third callback; callers = between callback }) _
      (step _ (record { barrier = second callback; callers = before callback }) _
        (step _ _ _ (done (start (fresh 2 callback) 2))
          (calls (first callback) (ready ∷ ready ∷ []) 0 refl))
        (calls (second callback) (before callback) 1 refl))
      (wakes (third callback) (between callback) 0 0 refl)

makes : (callback : Option Bool) → sb_barrier_init 2 callback true ≡ some (fresh 2 callback)
unfolding sb_barrier_init
makes callback = refl

sb_barrier_wait-rounds_example :
    (tally called (met none).callers
      ≡ (met none).barrier.serial * 2 + (2 - (met none).barrier.count))
    × (tally (waits_in (met none).barrier.serial) (met none).callers ≡ 2 - (met none).barrier.count)
    × (tally answered (met none).callers ≤ (met none).barrier.serial * 2)
    × (0 < (met none).barrier.count)
    × ((met none).barrier.count ≤ 2)
sb_barrier_wait-rounds_example =
    sb_barrier_wait-rounds 2 2 none (fresh 2 none) (met none) (omega arith) (omega arith)
      (makes none) (meeting none)

sb_barrier_wait-one_serial_thread_example :
    (tally leads (met (some false)).callers ≡ (met (some false)).barrier.serial)
    × (tally fails (met (some false)).callers ≡ 0)
sb_barrier_wait-one_serial_thread_example =
    sb_barrier_wait-one_serial_thread 2 2 (some false) (fresh 2 (some false)) (met (some false))
      (omega arith) (omega arith) refl (makes (some false)) (meeting (some false))

-- Both threads have their results, one of them that of the serial thread.
both : (tally answered (met none).callers ≡ 2) × (tally leads (met none).callers ≡ 1)
unfolding tally answered leads sb_barrier_wait release wake
both = (refl, refl)

called_twice : tally called (met none).callers ≡ 2
unfolding tally called sb_barrier_wait release wake
called_twice = refl

sb_barrier_wait-all_released_example :
    ((met none).barrier.serial ≡ 1)
    × ((i serial : ℕ)
        → get_elem? (met none).callers i ≡ some (waiting serial)
        → (r : ℤ) × (wake (met none).barrier serial ≡ returned r))
sb_barrier_wait-all_released_example =
    sb_barrier_wait-all_released 2 1 none (fresh 2 none) (met none) (omega arith) (omega arith)
      (makes none) (meeting none) called_twice
