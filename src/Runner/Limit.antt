-- ===== src/Runner/Limit.antt =====
-- How many events the worker threads of sysbench.c start under a limit.
use bits_on_demand_pte_te.Prelude.{
  ℕ, zero, suc, ◌+◌, ◌%◌, ◌^◌, ◌≤◌, ◌<◌, ◌≡◌, refl, Bool, true, false, not, ◌&&◌, ◌||◌, Bool-cases,
  ltb_of_lt, inl, inr, none, List, [], leb, if◌then◌else◌, arith,
}
use bits_on_demand_pte_te.Pte.Machine.{ℤ, is_zero}
use bits_on_demand_pte_te.Runner.{
  Globals, is_late, More, refused, granted, sb_more_events, Phase, Pool, begin, leave, Step, test,
  execute, return, Steps, here, then_step,
}

-- The result of `sb_more_events` at a limit of events and without a queue.
unfoldable pub limited : Globals → More × Globals × List ℕ
limited g = (
  if leb g.max_events g.nevents then refused else granted none,
  record g { nevents = (g.nevents + 1) % 2 ^ 64 },
  [],
)

sb_more_events-refused :
    (g : Globals) (now : ℕ)
    → (g.error || is_late g now) ≡ true
    → sb_more_events g now [] [] ≡ (refused, g, [])
unfolding sb_more_events
sb_more_events-refused g now e = simp e refl

pub sb_more_events-limited :
    (g : Globals) (now : ℕ)
    → g.tx_rate ≡ 0
    → 0 < g.max_events
    → (g.error || is_late g now) ≡ false
    → sb_more_events g now [] [] ≡ limited g
unfolding sb_more_events limited
sb_more_events-limited g now t m e = elim (Bool-cases (leb g.max_events g.nevents)) [
  | inl full ↦ simp (e, ltb_of_lt 0 g.max_events m, full) refl
  | inr more ↦ simp (e, ltb_of_lt 0 g.max_events m, more, t) refl
]

-- The limit `m` and the counts of events after `n` steps.
record Bounded (m n : ℕ) (p : Pool) : Type 0 where
  limit : p.globals.max_events ≡ m
  no_queue : p.globals.tx_rate ≡ 0
  fetched : p.globals.nevents ≤ n
  counted : p.started ≤ p.globals.nevents
  bounded : p.started ≤ m

begin-Bounded :
    (m n i : ℕ) (rc : ℤ) (now : ℕ) (is_null : Bool) (p : Pool)
    → 0 < m
    → suc n < 2 ^ 64
    → Bounded m n p
    → Bounded m (suc n) (begin i rc is_null (sb_more_events p.globals now [] []) p)
unfolding begin limited
begin-Bounded m n i rc now is_null p z w b =
    let g = p.globals in
    elim (Bool-cases (g.error || is_late g now)) [
      | inl e ↦ rw (sb_more_events-refused g now e) (record {
        limit = b.limit;
        no_queue = b.no_queue;
        fetched = omega (arith, b.fetched);
        counted = b.counted;
        bounded = b.bounded;
      })
      | inr e ↦
          rw (sb_more_events-limited g now b.no_queue (omega (arith, b.limit, z)) e)
            (elim (Bool-cases (leb g.max_events g.nevents)) [
              | inl full ↦ rw full (next b.bounded (omega (arith, b.counted, b.fetched, w)))
              | inr more ↦ rw more (elim (Bool-cases (is_zero rc && not is_null)) [
                | inl go ↦ rw go (
                    next (ground (arith, more, b.counted, b.limit))
                      (omega (arith, b.counted, b.fetched, w)))
                | inr stop ↦ rw stop (next b.bounded (omega (arith, b.counted, b.fetched, w)))
              ])
            ])
    ]
  where
    next :
        {threads : List Phase} {started : ℕ}
        → started ≤ m
        → started ≤ (p.globals.nevents + 1) % 2 ^ 64
        → Bounded m (suc n) (record {
          globals = record p.globals { nevents = (p.globals.nevents + 1) % 2 ^ 64 };
          threads = threads;
          started = started;
        })
    next {threads} {started} le counted = record {
      limit = b.limit;
      no_queue = b.no_queue;
      fetched = omega (arith, b.fetched, w);
      counted = counted;
      bounded = le;
    }

Step-Bounded :
    (m n : ℕ) (p q : Pool) → 0 < m → suc n < 2 ^ 64 → Bounded m n p → Step p q → Bounded m (suc n) q
unfolding leave
Step-Bounded m n p _ z w b (test i rc now is_null e) = begin-Bounded m n i rc now is_null p z w b
Step-Bounded m n p _ z w b (execute i rc e) = record {
  limit = b.limit;
  no_queue = b.no_queue;
  fetched = omega (arith, b.fetched);
  counted = b.counted;
  bounded = b.bounded;
}
Step-Bounded m n p _ z w b (return i rc e) = record {
  limit = b.limit;
  no_queue = b.no_queue;
  fetched = omega (arith, b.fetched);
  counted = b.counted;
  bounded = b.bounded;
}

Steps-Bounded :
    (n : ℕ) (p q : Pool)
    → 0 < p.globals.max_events
    → p.globals.tx_rate ≡ 0
    → p.globals.nevents ≡ 0
    → p.started ≡ 0
    → n < 2 ^ 64
    → Steps n p q
    → Bounded p.globals.max_events n q
Steps-Bounded zero p _ z t e s w here = record {
  limit = refl;
  no_queue = t;
  fetched = omega (arith, e);
  counted = omega (arith, s);
  bounded = omega (arith, s);
}
Steps-Bounded (suc n) p _ z t e s w (then_step {q = q} {r = r} steps last) =
    Step-Bounded p.globals.max_events n q r z w
      (Steps-Bounded n p q z t e s (omega (arith, w)) steps) last

-- With a limit on the number of events and no event queue, from a state in which no event is counted
-- or started: after fewer than 2^64 steps of the threads, in any order, whether or not events fail or
-- are missing or a time limit is over, no more events have been started than the limit.
pub Steps-started :
    (n : ℕ) (p q : Pool)
    → 0 < p.globals.max_events
    → p.globals.tx_rate ≡ 0
    → p.globals.nevents ≡ 0
    → p.started ≡ 0
    → n < 2 ^ 64
    → Steps n p q
    → q.started ≤ p.globals.max_events
Steps-started n p q z t e s w steps = (Steps-Bounded n p q z t e s w steps).bounded
