-- ===== src/Runner/Examples.antt =====
-- The theorems about the runner at one thread and a limit of one event.
use bits_on_demand_pte_te.Prelude.{ℕ, ◌+◌, ◌*◌, ◌≤◌, ◌≡◌, refl, false, some, [], arith}
use bits_on_demand_pte_te.Prelude.Lists.{get_elem?, set}
use bits_on_demand_pte_te.Pte.Machine.{pos}
use bits_on_demand_pte_te.Runner.{
  Phase, looping, executing, Pool, sb_more_events, begin, test, execute, here, then_step,
}
use bits_on_demand_pte_te.Runner.Limit.{Steps-started}
use bits_on_demand_pte_te.Runner.Exact.{Smooth, tested, executed, initial, stopped, Smooth-exact}

abbrev test_of : Pool → Pool
test_of p = begin 0 (pos 0) false (sb_more_events p.globals 0 [] []) p

abbrev first : Pool
first = test_of (initial 1 1)

abbrev second : Pool
second = record first { threads = set first.threads 0 (looping (pos 0)) }

at_event : get_elem? first.threads 0 ≡ some executing
unfolding begin sb_more_events
at_event = refl

at_loop : get_elem? second.threads 0 ≡ some (looping (pos 0))
unfolding begin sb_more_events
at_loop = refl

Steps-started_example : (test_of second).started ≤ 1
Steps-started_example =
    Steps-started 3 (initial 1 1) (test_of second) (omega arith) refl refl refl (omega arith) (
      then_step
        (then_step (then_step here (test 0 (pos 0) 0 false refl)) (execute 0 (pos 0) at_event))
        (test 0 (pos 0) 0 false at_loop))

Smooth-exact_example :
    (3 ≤ 2 * 1 + 2 * 1)
    × ((i : ℕ) (ph : Phase)
        → get_elem? (test_of second).threads i ≡ some ph
        → stopped ph ≡ 1
        → (test_of second).started ≡ 1)
Smooth-exact_example =
    Smooth-exact 1 1 3 (test_of second) (omega arith) (omega arith)
      (tested 0 0 (executed 0 (tested 0 0 Smooth.here refl) at_event) at_loop)
