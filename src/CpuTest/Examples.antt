-- ===== src/CpuTest/Examples.antt =====
-- The theorem about the processor test at the limit 10, with an exact comparison.
use bits_on_demand_pte_te.Prelude.{ℕ, ◌*◌, ◌-◌, ◌≡◌, refl, some, leb}
use bits_on_demand_pte_te.CpuTest.{cpu_execute_event}
use bits_on_demand_pte_te.CpuTest.Primes.{PrimesFrom, cpu_execute_event-PrimesFrom}

cpu_execute_event-PrimesFrom_example :
    (n : ℕ) × (cpu_execute_event (λ l c. leb (l * l) c) 10 ≡ some n) × PrimesFrom 3 (10 - 3) n
cpu_execute_event-PrimesFrom_example =
    cpu_execute_event-PrimesFrom (λ l c. leb (l * l) c) 10 (λ l c. refl)

-- 3, 5 and 7
three_primes : cpu_execute_event (λ l c. leb (l * l) c) 10 ≡ some 3
unfolding cpu_execute_event
three_primes = refl
