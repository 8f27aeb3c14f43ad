-- ===== src/Barrier/Results.antt =====
-- The results that the barrier of sb_barrier.c gives, for all orders of the callers' steps.
use bits_on_demand_pte_te.Prelude.{
  ℕ, ◌+◌, ◌-◌, ◌%◌, ◌^◌, ◌<◌, ◌≡◌, refl, sym, subst, ◌∙◌, ◌==◌, Bool, true, false, true≢false,
  Option, some, List, arith,
}
use bits_on_demand_pte_te.Prelude.Lists.{get_elem?, set, length-set}
use bits_on_demand_pte_te.Pte.Machine.{ℤ, pos, negsuc}
use bits_on_demand_pte_te.Barrier.{
  Barrier, sb_barrier_init, release, Caller, ready, waiting, returned, serial_thread,
  callback_fails, sb_barrier_wait, wake, System, Step, calls, wakes, Steps, done, step,
}
use bits_on_demand_pte_te.Barrier.Tally.{
  tally, called, answered, leads, fails, tally-set, tally-ready, tally-length, called-le,
}
use bits_on_demand_pte_te.Barrier.Counts.{Counts, if-elim, not_ahead, Step-Counts}
use bits_on_demand_pte_te.Barrier.Rounds.{start, fresh, start-Counts, init-fresh}

-- The results with a callback that does not fail.
record Succeeding (s : System) : Type 0 where
  good : callback_fails s.barrier.callback ≡ false
  clear : s.barrier.error ≡ false
  leaders : tally leads s.callers ≡ s.barrier.serial
  failures : tally fails s.callers ≡ 0

-- The results with a callback that fails.
record Failing (s : System) : Type 0 where
  bad : callback_fails s.barrier.callback ≡ true
  marked : 0 < s.barrier.serial → s.barrier.error ≡ true
  failures : tally fails s.callers ≡ tally answered s.callers

-- The next serial number does not wrap.
next_serial :
    (n : ℕ) (b : Barrier) (cs : List Caller) (i : ℕ)
    → Counts n (record { barrier = b; callers = cs })
    → get_elem? cs i ≡ some ready
    → (b.serial + 1) % 2 ^ 32 ≡ b.serial + 1
unfolding called
next_serial n b cs i c e =
    let new = set cs i (waiting 0) in
    omega (
      arith,
      c.low,
      tally-set called cs i ready (waiting 0) e,
      tally-length called new called-le,
      length-set cs i (waiting 0),
      c.size,
    )

wakes-Succeeding :
    (b : Barrier) (cs : List Caller) (i serial : ℕ) (w : Caller)
    → Succeeding (record { barrier = b; callers = cs })
    → get_elem? cs i ≡ some (waiting serial)
    → leads w ≡ 0
    → fails w ≡ 0
    → Succeeding (record { barrier = b; callers = set cs i w })
unfolding leads fails
wakes-Succeeding b cs i serial w g e p q = record {
  good = g.good;
  clear = g.clear;
  leaders = omega (arith, tally-set leads cs i (waiting serial) w e, p, g.leaders);
  failures = omega (arith, tally-set fails cs i (waiting serial) w e, q, g.failures);
}

Step-Succeeding : (n : ℕ) {s t : System} → Counts n s → Succeeding s → Step s t → Succeeding t
unfolding sb_barrier_wait release wake leads fails
Step-Succeeding n c g (calls b cs i e) =
    let P =
      λ (r : Barrier × Caller). Succeeding (record { barrier = r.0; callers = set cs i r.1 }) in
    let count = (b.count + (2 ^ 32 - 1)) % 2 ^ 32 in
    if-elim P (count == 0) (release (record b { count = count }))
      (record b { count = count }, waiting b.serial)
      (λ last.
        if-elim P (callback_fails b.callback) _ _ (λ f. absurd (true≢false (sym f ∙ g.good)))
          (λ f. record {
            good = g.good;
            clear = g.clear;
            leaders = omega (
              arith,
              tally-set leads cs i ready (returned serial_thread) e,
              g.leaders,
              next_serial n b cs i c e,
            );
            failures =
                omega (arith, tally-set fails cs i ready (returned serial_thread) e, g.failures);
          }))
      (λ more. record {
        good = g.good;
        clear = g.clear;
        leaders = omega (arith, tally-set leads cs i ready (waiting b.serial) e, g.leaders);
        failures = omega (arith, tally-set fails cs i ready (waiting b.serial) e, g.failures);
      })
Step-Succeeding n c g (wakes b cs i serial e) =
    let P = λ (w : Caller). Succeeding (record { barrier = b; callers = set cs i w }) in
    if-elim P (serial == b.serial) _ _
      (λ same. wakes-Succeeding b cs i serial (waiting serial) g e refl refl)
      (λ other.
        if-elim (λ (r : ℤ). P (returned r)) b.error (negsuc 0) (pos 0)
          (λ f. absurd (true≢false (sym f ∙ g.clear)))
          (λ f. wakes-Succeeding b cs i serial (returned (pos 0)) g e refl refl))

wakes-Failing :
    (b : Barrier) (cs : List Caller) (i serial : ℕ) (w : Caller)
    → Failing (record { barrier = b; callers = cs })
    → get_elem? cs i ≡ some (waiting serial)
    → fails w ≡ answered w
    → Failing (record { barrier = b; callers = set cs i w })
unfolding fails answered
wakes-Failing b cs i serial w g e p = record {
  bad = g.bad;
  marked = g.marked;
  failures = omega (
    arith,
    tally-set fails cs i (waiting serial) w e,
    tally-set answered cs i (waiting serial) w e,
    p,
    g.failures,
  );
}

Step-Failing : (n : ℕ) {s t : System} → Counts n s → Failing s → Step s t → Failing t
unfolding sb_barrier_wait release wake fails answered
Step-Failing n c g (calls b cs i e) =
    let P = λ (r : Barrier × Caller). Failing (record { barrier = r.0; callers = set cs i r.1 }) in
    let count = (b.count + (2 ^ 32 - 1)) % 2 ^ 32 in
    if-elim P (count == 0) (release (record b { count = count }))
      (record b { count = count }, waiting b.serial)
      (λ last.
        if-elim P (callback_fails b.callback) _ _
          (λ f. record {
            bad = g.bad;
            marked = λ p. refl;
            failures = omega (
              arith,
              tally-set fails cs i ready (returned (negsuc 0)) e,
              tally-set answered cs i ready (returned (negsuc 0)) e,
              g.failures,
            );
          })
          (λ f. absurd (true≢false (sym g.bad ∙ f))))
      (λ more. record {
        bad = g.bad;
        marked = g.marked;
        failures = omega (
          arith,
          tally-set fails cs i ready (waiting b.serial) e,
          tally-set answered cs i ready (waiting b.serial) e,
          g.failures,
        );
      })
Step-Failing n c g (wakes b cs i serial e) =
    let P = λ (w : Caller). Failing (record { barrier = b; callers = set cs i w }) in
    if-elim P (serial == b.serial) _ _
      (λ same. wakes-Failing b cs i serial (waiting serial) g e refl)
      (λ other.
        if-elim (λ (r : ℤ). P (returned r)) b.error (negsuc 0) (pos 0)
          (λ f. wakes-Failing b cs i serial (returned (negsuc 0)) g e refl)
          (λ f.
            let before : 0 < b.serial =
              ground (arith, not_ahead b.serial cs i serial e c.ahead, other) in
            absurd (true≢false (sym (g.marked before) ∙ f))))

Steps-Succeeding :
    (n : ℕ) {s t : System} → Steps s t → Counts n s → Succeeding s → Counts n t × Succeeding t
Steps-Succeeding n (done s) c g = (c, g)
Steps-Succeeding n (step s t u r x) c g =
    let before = Steps-Succeeding n r c g in
    (Step-Counts n before.0 x, Step-Succeeding n before.0 before.1 x)

Steps-Failing : (n : ℕ) {s t : System} → Steps s t → Counts n s → Failing s → Counts n t × Failing t
Steps-Failing n (done s) c g = (c, g)
Steps-Failing n (step s t u r x) c g =
    let before = Steps-Failing n r c g in
    (Step-Counts n before.0 x, Step-Failing n before.0 before.1 x)

-- With fewer than 2^32 threads and a barrier that `sb_barrier_init` made for rounds of `n`
-- callers, `n` below 2^32, whose callback, if there is one, does not fail, in every order of the
-- threads' steps: as many threads have the result of the serial thread as `serial` counts rounds,
-- and none has an error.
pub sb_barrier_wait-one_serial_thread :
    (n threads : ℕ) (callback : Option Bool) (b : Barrier) (s : System)
    → n < 2 ^ 32
    → threads < 2 ^ 32
    → callback_fails callback ≡ false
    → sb_barrier_init n callback true ≡ some b
    → Steps (start b threads) s
    → (tally leads s.callers ≡ s.barrier.serial) × (tally fails s.callers ≡ 0)
unfolding start leads fails
sb_barrier_wait-one_serial_thread n threads callback b s l t f e r =
    let made = init-fresh n callback b e in
    let first : Succeeding (start (fresh n callback) threads) = record {
      good = f;
      clear = refl;
      leaders = tally-ready leads threads refl;
      failures = tally-ready fails threads refl;
    } in
    let last =
      Steps-Succeeding n r
        (subst (λ x. Counts n (start x threads)) made.1
          (start-Counts n threads callback made.0 l t))
        (subst (λ x. Succeeding (start x threads)) made.1 first) in
    (last.1.leaders, last.1.failures)

-- With fewer than 2^32 threads and a barrier that `sb_barrier_init` made for rounds of `n`
-- callers, `n` below 2^32, whose callback fails each time, in every order of the threads' steps:
-- every thread that has a result has an error.
pub sb_barrier_wait-all_fail :
    (n threads : ℕ) (callback : Option Bool) (b : Barrier) (s : System)
    → n < 2 ^ 32
    → threads < 2 ^ 32
    → callback_fails callback ≡ true
    → sb_barrier_init n callback true ≡ some b
    → Steps (start b threads) s
    → tally fails s.callers ≡ tally answered s.callers
unfolding start fails answered
sb_barrier_wait-all_fail n threads callback b s l t f e r =
    let made = init-fresh n callback b e in
    let first : Failing (start (fresh n callback) threads) = record {
      bad = f;
      marked = λ p. absurd (omega (arith, p));
      failures = omega (arith, tally-ready fails threads refl, tally-ready answered threads refl);
    } in
    let last =
      Steps-Failing n r
        (subst (λ x. Counts n (start x threads)) made.1
          (start-Counts n threads callback made.0 l t))
        (subst (λ x. Failing (start x threads)) made.1 first) in
    last.1.failures
