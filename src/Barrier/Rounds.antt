-- ===== src/Barrier/Rounds.antt =====
-- The rounds of the barrier of sb_barrier.c, for all orders of the callers' steps.
use bits_on_demand_pte_te.Prelude.{
  ℕ, zero, suc, ◌+◌, ◌-◌, ◌*◌, ◌^◌, ◌≤◌, ◌<◌, ◌≡◌, refl, subst, ◌==◌, Bool, true, false, Option,
  none, some, List, arith,
}
use mathlib.Core.Option.{some-injective, none-ne-some}
use bits_on_demand_pte_te.Prelude.Lists.{get_elem?, replicate, length-replicate}
use bits_on_demand_pte_te.Pte.Machine.{ℤ}
use bits_on_demand_pte_te.Barrier.{
  Barrier, sb_barrier_init, Caller, ready, waiting, returned, wake, System, Steps, done, step,
}
use bits_on_demand_pte_te.Barrier.Tally.{
  tally, called, answered, waits_in, waits_after, tally-set, tally-add, tally-ready, answered-waits,
}
use bits_on_demand_pte_te.Barrier.Counts.{Counts, if-elim, times-suc, Step-Counts}

-- A system of `threads` threads that are before their calls.
unfoldable pub start : Barrier → (threads : ℕ) → System
start b threads = record { barrier = b; callers = replicate threads ready }

abbrev pub fresh : (n : ℕ) → Option Bool → Barrier
fresh n callback = record {
  count = n;
  init_count = n;
  serial = 0;
  callback = callback;
  error = false;
}

pub start-Counts :
    (n threads : ℕ) (callback : Option Bool)
    → 0 < n
    → n < 2 ^ 32
    → threads < 2 ^ 32
    → Counts n (start (fresh n callback) threads)
unfolding start called waits_in waits_after
start-Counts n threads callback p b t = record {
  size = omega (arith, length-replicate threads ready);
  init = refl;
  positive = p;
  bound = omega arith;
  small = b;
  arrived = omega (arith, tally-ready called threads refl);
  current = omega (arith, tally-ready (waits_in 0) threads refl);
  ahead = tally-ready (waits_after 0) threads refl;
  low = omega arith;
}

Steps-Counts : (n : ℕ) {s t : System} → Steps s t → Counts n s → Counts n t
Steps-Counts n (done s) c = c
Steps-Counts n (step s t u r x) c = Step-Counts n (Steps-Counts n r c) x

-- A barrier that `sb_barrier_init` makes.
pub init-fresh :
    (n : ℕ) (callback : Option Bool) (b : Barrier)
    → sb_barrier_init n callback true ≡ some b
    → (0 < n) × (fresh n callback ≡ b)
unfolding sb_barrier_init
init-fresh n callback b =
    if-elim (λ (r : Option Barrier). r ≡ some b → (0 < n) × (fresh n callback ≡ b)) (n == 0) none
      (some (fresh n callback)) (λ z e. absurd (none-ne-some b e))
      (λ z e. (ground (arith, z), some-injective (fresh n callback) b e))

-- With fewer than 2^32 threads and a barrier that `sb_barrier_init` made for rounds of `n`
-- callers, `n` below 2^32, in every order of the threads' steps: the number of threads that have
-- called is `n` for each of the `serial` complete rounds and those of the round that is not
-- complete; these all wait; no more threads have their results than the complete rounds have
-- callers; and the count lies between 1 and `n`.
pub sb_barrier_wait-rounds :
    (n threads : ℕ) (callback : Option Bool) (b : Barrier) (s : System)
    → n < 2 ^ 32
    → threads < 2 ^ 32
    → sb_barrier_init n callback true ≡ some b
    → Steps (start b threads) s
    → (tally called s.callers ≡ s.barrier.serial * n + (n - s.barrier.count))
      × (tally (waits_in s.barrier.serial) s.callers ≡ n - s.barrier.count)
      × (tally answered s.callers ≤ s.barrier.serial * n)
      × (0 < s.barrier.count)
      × (s.barrier.count ≤ n)
sb_barrier_wait-rounds n threads callback b s l t e r =
    let made = init-fresh n callback b e in
    let c = Steps-Counts n r (
      subst (λ x. Counts n (start x threads)) made.1
        (start-Counts n threads callback made.0 l t)) in
    (
      c.arrived,
      c.current,
      omega (
        arith,
        c.arrived,
        c.current,
        tally-add answered (waits_in s.barrier.serial) called s.callers
            (answered-waits s.barrier.serial),
      ),
      c.positive,
      c.bound,
    )

-- A number of callers as rounds and a rest.
whole_rounds : (k q n r : ℕ) → k * n ≡ q * n + r → r < n → (k ≡ q) × (r ≡ 0)
whole_rounds zero zero n r e h = (refl, omega (arith, e))
whole_rounds zero (suc q) n r e h = absurd (omega (arith, e, times-suc q n, h))
whole_rounds (suc k) zero n r e h = absurd (omega (arith, e, times-suc k n, h))
whole_rounds (suc k) (suc q) n r e h =
    let rest = whole_rounds k q n r (omega (arith, e, times-suc k n, times-suc q n)) h in
    (omega (arith, rest.0), rest.1)

-- A caller that waits in a round in which none waits.
wake-returns :
    (b : Barrier) (cs : List Caller) (i serial : ℕ)
    → tally (waits_in b.serial) cs ≡ 0
    → get_elem? cs i ≡ some (waiting serial)
    → (r : ℤ) × (wake b serial ≡ returned r)
unfolding wake waits_in
wake-returns b cs i serial z e =
    if-elim (λ (w : Caller). (r : ℤ) × (w ≡ returned r)) (serial == b.serial) _ _
      (λ same.
        absurd
          (ground (arith, tally-set (waits_in b.serial) cs i (waiting serial) ready e, z, same)))
      (λ other. (_, refl))

-- With a barrier that `sb_barrier_init` made for rounds of `n` callers, `n` below 2^32, and as
-- many threads as `k` rounds have callers, fewer than 2^32, in every order of the threads' steps:
-- once all of them have called, `serial` is `k`, and a thread that still waits gets a result when
-- its wait on the condition returns.
pub sb_barrier_wait-all_released :
    (n k : ℕ) (callback : Option Bool) (b : Barrier) (s : System)
    → n < 2 ^ 32
    → k * n < 2 ^ 32
    → sb_barrier_init n callback true ≡ some b
    → Steps (start b (k * n)) s
    → tally called s.callers ≡ k * n
    → (s.barrier.serial ≡ k)
      × ((i serial : ℕ)
          → get_elem? s.callers i ≡ some (waiting serial)
          → (r : ℤ) × (wake s.barrier serial ≡ returned r))
sb_barrier_wait-all_released n k callback b s l t e r all =
    let c = sb_barrier_wait-rounds n (k * n) callback b s l t e r in
    let whole =
      whole_rounds k s.barrier.serial n (n - s.barrier.count) (omega (arith, all, c.0))
        (omega (arith, c.3, c.4)) in
    (
      omega (arith, whole.0),
      λ i serial w. wake-returns s.barrier s.callers i serial (omega (arith, c.1, whole.1)) w,
    )
