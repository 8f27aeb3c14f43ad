-- ===== src/Runner/Exact.antt =====
-- Runs of the worker threads of sysbench.c in which every event succeeds.
use bits_on_demand_pte_te.Prelude.{
  ℕ, zero, suc, ◌+◌, ◌*◌, ◌^◌, ◌≤◌, ◌<◌, ◌≡◌, refl, ◌∙◌, false, ◌||◌, Bool-cases, inl, inr, some,
  [], leb, arith,
}
use bits_on_demand_pte_te.Prelude.Lists.{
  length, get_elem?, set, replicate, length-set, length-replicate,
}
use bits_on_demand_pte_te.Prelude.Tally.{
  tally, tally-set, get-tally, tally_of_bits, tally-replicate,
}
use bits_on_demand_pte_te.Pte.Machine.{pos}
use bits_on_demand_pte_te.Runner.{
  is_late, sb_more_events, Phase, looping, executing, ended, left, Pool, begin, leave,
}
use bits_on_demand_pte_te.Runner.Limit.{limited, sb_more_events-limited}

-- `n` steps in which no event is missing or fails.
pub data Smooth : ℕ → Pool → Pool → Type 0 where
  here : {p : Pool} → Smooth 0 p p
  tested :
      {n : ℕ} {p q : Pool} (i now : ℕ)
      → Smooth n p q
      → get_elem? q.threads i ≡ some (looping (pos 0))
      → Smooth (suc n) p (begin i (pos 0) false (sb_more_events q.globals now [] []) q)
  executed :
      {n : ℕ} {p q : Pool} (i : ℕ)
      → Smooth n p q
      → get_elem? q.threads i ≡ some executing
      → Smooth (suc n) p (record q { threads = set q.threads i (looping (pos 0)) })
  returned :
      {n : ℕ} {p q : Pool} (i : ℕ)
      → Smooth n p q
      → get_elem? q.threads i ≡ some (ended (pos 0))
      → Smooth (suc n) p (leave i (pos 0) q)

-- 1 for a thread whose loop is over, for one at an event, and for one that has returned.
abbrev pub stopped : Phase → ℕ
stopped (looping rc) = 0
stopped executing = 0
stopped (ended rc) = 1
stopped left = 1

abbrev running : Phase → ℕ
running (looping rc) = 0
running executing = 1
running (ended rc) = 0
running left = 0

abbrev gone : Phase → ℕ
gone (looping rc) = 0
gone executing = 0
gone (ended rc) = 0
gone left = 1

-- The counts of events after `n` steps of `t` threads with the limit `m`.
record Exact (m t n : ℕ) (p : Pool) : Type 0 where
  fine : p.globals.error ≡ false
  no_time : p.globals.max_time_ns ≡ 0
  limit : p.globals.max_events ≡ m
  no_queue : p.globals.tx_rate ≡ 0
  threads : length p.threads ≡ t
  fetched : p.globals.nevents ≡ p.started + tally stopped p.threads
  bounded : p.started ≤ m
  full : 0 < tally stopped p.threads → p.started ≡ m
  steps : n + tally running p.threads ≡ p.globals.nevents + p.started + tally gone p.threads

stopped_bit : (ph : Phase) → stopped ph ≤ 1
stopped_bit (looping rc) = omega arith
stopped_bit executing = omega arith
stopped_bit (ended rc) = omega arith
stopped_bit left = omega arith

-- The limit is reached, and it is not.
all_started : (k s m : ℕ) → s ≤ m → m ≤ s + k → (0 < k → s ≡ m) → s ≡ m
all_started zero s m h r f = omega (arith, h, r)
all_started (suc k) s m h r f = f (omega arith)

none_stopped : (k s m : ℕ) → s + k < m → (0 < k → s ≡ m) → k ≡ 0
none_stopped zero s m r f = refl
none_stopped (suc k) s m r f = absurd (omega (arith, r, f (omega arith)))

begin-Exact :
    (m t n i now : ℕ) (p : Pool)
    → 0 < m
    → m + t + 1 < 2 ^ 64
    → Exact m t n p
    → get_elem? p.threads i ≡ some (looping (pos 0))
    → Exact m t (suc n) (begin i (pos 0) false (sb_more_events p.globals now [] []) p)
unfolding begin limited
begin-Exact m t n i now p z w b e =
    let g = p.globals in
    let change : (f : Phase → ℕ) (new : Phase)
        → tally f (set p.threads i new) + f (looping (pos 0)) ≡ tally f p.threads + f new =
      λ f new. tally-set f p.threads i (looping (pos 0)) new e in
    let kept : (new : Phase) → length (set p.threads i new) ≡ t =
      λ new. length-set p.threads i new ∙ b.threads in
    let free : (g.error || is_late g now) ≡ false = rw (b.fine, b.no_time) refl in
    let few : tally stopped p.threads ≤ t =
      omega (arith, tally_of_bits stopped p.threads stopped_bit, b.threads) in
    rw (sb_more_events-limited g now b.no_queue (omega (arith, b.limit, z)) free)
      (elim (Bool-cases (leb g.max_events g.nevents)) [
        | inl enough ↦
            let done =
              all_started (tally stopped p.threads) p.started m b.bounded
                (ground (arith, enough, b.limit, b.fetched)) b.full in
            rw enough (record {
              fine = b.fine;
              no_time = b.no_time;
              limit = b.limit;
              no_queue = b.no_queue;
              threads = kept (ended (pos 0));
              fetched = omega (arith, change stopped (ended (pos 0)), b.fetched, few, w, b.bounded);
              bounded = b.bounded;
              full = λ h. done;
              steps = omega (
                arith,
                change running (ended (pos 0)),
                change gone (ended (pos 0)),
                b.steps,
                b.fetched,
                few,
                w,
                b.bounded,
              );
            })
        | inr more ↦
            let room : p.started + tally stopped p.threads < m =
              ground (arith, more, b.limit, b.fetched) in
            let all_at_work = none_stopped (tally stopped p.threads) p.started m room b.full in
            rw more (record {
              fine = b.fine;
              no_time = b.no_time;
              limit = b.limit;
              no_queue = b.no_queue;
              threads = kept executing;
              fetched = omega (arith, change stopped executing, b.fetched, few, w, b.bounded);
              bounded = omega (arith, room);
              full = λ h. absurd (omega (arith, h, change stopped executing, all_at_work));
              steps = omega (
                arith,
                change running executing,
                change gone executing,
                b.steps,
                b.fetched,
                few,
                w,
                b.bounded,
              );
            })
      ])

executed-Exact :
    (m t n i : ℕ) (p : Pool)
    → Exact m t n p
    → get_elem? p.threads i ≡ some executing
    → Exact m t (suc n) (record p { threads = set p.threads i (looping (pos 0)) })
executed-Exact m t n i p b e =
    let change : (f : Phase → ℕ)
        → tally f (set p.threads i (looping (pos 0))) + f executing
          ≡ tally f p.threads + f (looping (pos 0)) =
      λ f. tally-set f p.threads i executing (looping (pos 0)) e in
    record {
      fine = b.fine;
      no_time = b.no_time;
      limit = b.limit;
      no_queue = b.no_queue;
      threads = length-set p.threads i (looping (pos 0)) ∙ b.threads;
      fetched = omega (arith, change stopped, b.fetched);
      bounded = b.bounded;
      full = λ h. b.full (omega (arith, h, change stopped));
      steps = omega (arith, change running, change gone, b.steps);
    }

returned-Exact :
    (m t n i : ℕ) (p : Pool)
    → Exact m t n p
    → get_elem? p.threads i ≡ some (ended (pos 0))
    → Exact m t (suc n) (leave i (pos 0) p)
unfolding leave
returned-Exact m t n i p b e =
    let change : (f : Phase → ℕ)
        → tally f (set p.threads i left) + f (ended (pos 0)) ≡ tally f p.threads + f left =
      λ f. tally-set f p.threads i (ended (pos 0)) left e in
    record {
      fine = b.fine;
      no_time = b.no_time;
      limit = b.limit;
      no_queue = b.no_queue;
      threads = length-set p.threads i left ∙ b.threads;
      fetched = omega (arith, change stopped, b.fetched);
      bounded = b.bounded;
      full = λ h. b.full (omega (arith, h, change stopped));
      steps = omega (arith, change running, change gone, b.steps);
    }

-- `t` worker threads in front of their loops, with a limit of events only.
abbrev pub initial : (m t : ℕ) → Pool
initial m t = record {
  globals = record {
    error = false;
    max_time_ns = 0;
    max_events = m;
    nevents = 0;
    tx_rate = 0;
    concurrency = 0;
  };
  threads = replicate t (looping (pos 0));
  started = 0;
}

initial-Exact : (m t : ℕ) → Exact m t 0 (initial m t)
initial-Exact m t =
    let none_of : (f : Phase → ℕ)
        → f (looping (pos 0)) ≡ 0
        → tally f (replicate t (looping (pos 0))) ≡ 0 =
      λ f e. tally-replicate f t (looping (pos 0)) e in
    record {
      fine = refl;
      no_time = refl;
      limit = refl;
      no_queue = refl;
      threads = length-replicate t (looping (pos 0));
      fetched = omega (arith, none_of stopped refl);
      bounded = omega arith;
      full = λ h. absurd (omega (arith, h, none_of stopped refl));
      steps = omega (arith, none_of running refl, none_of gone refl);
    }

Smooth-Exact :
    (m t n : ℕ) (p q : Pool)
    → 0 < m
    → m + t + 1 < 2 ^ 64
    → Exact m t 0 p
    → Smooth n p q
    → Exact m t n q
Smooth-Exact m t _ p _ z w b here = b
Smooth-Exact m t _ p _ z w b (tested {n = n} {q = q} i now s e) =
    begin-Exact m t n i now q z w (Smooth-Exact m t n p q z w b s) e
Smooth-Exact m t _ p _ z w b (executed {n = n} {q = q} i s e) =
    executed-Exact m t n i q (Smooth-Exact m t n p q z w b s) e
Smooth-Exact m t _ p _ z w b (returned {n = n} {q = q} i s e) =
    returned-Exact m t n i q (Smooth-Exact m t n p q z w b s) e

gone_bit : (ph : Phase) → gone ph ≤ 1
gone_bit (looping rc) = omega arith
gone_bit executing = omega arith
gone_bit (ended rc) = omega arith
gone_bit left = omega arith

-- With a limit of `m` events and no other, `m + t + 1` below 2^64, `t` threads whose events neither
-- fail nor are missing make no more than `2 * m + 2 * t` steps, in any order. As soon as one thread's
-- loop is over, exactly `m` events have been started.
pub Smooth-exact :
    (m t n : ℕ) (q : Pool)
    → 0 < m
    → m + t + 1 < 2 ^ 64
    → Smooth n (initial m t) q
    → (n ≤ 2 * m + 2 * t)
      × ((i : ℕ) (ph : Phase) → get_elem? q.threads i ≡ some ph → stopped ph ≡ 1 → q.started ≡ m)
Smooth-exact m t n q z w s =
    let b = Smooth-Exact m t n (initial m t) q z w (initial-Exact m t) s in
    let some_stopped = tally_of_bits stopped q.threads stopped_bit in
    (
      omega (
        arith,
        b.steps,
        b.fetched,
        b.bounded,
        b.threads,
        some_stopped,
        tally_of_bits gone q.threads gone_bit,
      ),
      λ i ph e h. b.full (omega (arith, h, get-tally stopped q.threads i ph e)),
    )
