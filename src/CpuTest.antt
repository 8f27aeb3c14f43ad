-- ===== src/CpuTest.antt =====
-- test10/sysbench/src/tests/cpu/sb_cpu.c: an event of the processor test searches for primes. A test
-- `l <= sqrt(c)` of the floating-point numbers is a parameter.
mod Examples
pub mod Primes
use bits_on_demand_pte_te.Prelude.{
  ℕ, zero, suc, ◌+◌, ◌-◌, ◌%◌, Bool, true, false, Option, none, some, ◌==◌, if◌then◌else◌,
}
use bits_on_demand_pte_te.Pte.Machine.{ℤ, pos, negsuc}

-- `max_prime`, or none for an option that is not positive.
unfoldable pub cpu_init : (prime_option : ℤ) → Option ℕ
cpu_init (pos zero) = none
cpu_init (pos (suc n)) = some (suc n)
cpu_init (negsuc n) = none

-- The loop from the divisor `l` on, in at most `rounds` rounds: whether `l > t` behind it.
unfoldable pub divide : (within_root : (l c : ℕ) → Bool) → (rounds l c : ℕ) → Option Bool
divide within_root zero l c = none
divide within_root (suc rounds) l c =
    let rest = divide within_root rounds (l + 1) c in
    if within_root l c then if c % l == 0 then some false else rest else some true

abbrev pub add_found : Option Bool → ℕ → Option ℕ
add_found none n = none
add_found (some found) n = some (if found then n + 1 else n)

abbrev pub if_found : Option ℕ → (ℕ → Option ℕ) → Option ℕ
if_found none f = none
if_found (some n) f = f n

-- `rounds` rounds of the outer loop from `c` on.
unfoldable pub count : (within_root : (l c : ℕ) → Bool) → (rounds c n : ℕ) → Option ℕ
unfolding divide
count within_root zero c n = some n
count within_root (suc rounds) c n =
    if_found (add_found (divide within_root c 2 c) n) (λ n'. count within_root rounds (c + 1) n')

-- The number that the event counts, `n`.
unfoldable pub cpu_execute_event : (within_root : (l c : ℕ) → Bool) → (max_prime : ℕ) → Option ℕ
unfolding count
cpu_execute_event within_root max_prime = count within_root (max_prime - 3) 3 0
