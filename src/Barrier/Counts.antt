-- ===== src/Barrier/Counts.antt =====
-- The counters of the barrier of sb_barrier.c, along the steps of its callers.
use bits_on_demand_pte_te.Prelude.{
  ℕ, suc, ◌+◌, ◌-◌, ◌*◌, ◌%◌, ◌^◌, ◌≤◌, ◌<◌, ◌≡◌, refl, ap, ◌==◌, if◌then◌else◌, Bool, true, false,
  some, List, arith,
}
use bits_on_demand_pte_te.Prelude.Lists.{length, get_elem?, set, length-set}
use bits_on_demand_pte_te.Pte.Machine.{ℤ, negsuc}
use bits_on_demand_pte_te.Barrier.{
  Barrier, release, Caller, ready, waiting, returned, serial_thread, callback_fails,
  sb_barrier_wait, wake, System, Step, calls, wakes,
}
use bits_on_demand_pte_te.Barrier.Tally.{
  tally, called, waits_in, waits_after, tally-set, tally_mono, tally-length, called-le,
  waits_in-after, waits_after-after,
}

-- The counters, for rounds of `n` callers.
pub record Counts (n : ℕ) (s : System) : Type 0 where
  pub size : length s.callers < 2 ^ 32
  pub init : s.barrier.init_count ≡ n
  pub positive : 0 < s.barrier.count
  pub bound : s.barrier.count ≤ n
  pub small : n < 2 ^ 32
  pub arrived : tally called s.callers ≡ s.barrier.serial * n + (n - s.barrier.count)
  pub current : tally (waits_in s.barrier.serial) s.callers ≡ n - s.barrier.count
  pub ahead : tally (waits_after s.barrier.serial) s.callers ≡ 0
  pub low : s.barrier.serial ≤ tally called s.callers

pub if-elim :
    {A : Type 0} (P : A → Type 0) (c : Bool) (x y : A)
    → (c ≡ true → P x)
    → (c ≡ false → P y)
    → P (if c then x else y)
if-elim P true x y p q = p refl
if-elim P false x y p q = q refl

pub times-suc : (m n : ℕ) → (m + 1) * n ≡ m * n + n
times-suc m n = grind arith

pub waits_in_self : (k : ℕ) → waits_in k (waiting k) ≡ 1
unfolding waits_in
waits_in_self k = ground arith

waits_after_self : (k : ℕ) → waits_after k (waiting k) ≡ 0
unfolding waits_after
waits_after_self k = ground arith

-- A caller that waits in no later round.
pub not_ahead :
    (k : ℕ) (cs : List Caller) (i serial : ℕ)
    → get_elem? cs i ≡ some (waiting serial)
    → tally (waits_after k) cs ≡ 0
    → serial ≤ k
unfolding waits_after
not_ahead k cs i serial e z =
    ground (arith, tally-set (waits_after k) cs i (waiting serial) ready e, z)

calls-waits :
    (n : ℕ) (b : Barrier) (cs : List Caller) (i : ℕ)
    → Counts n (record { barrier = b; callers = cs })
    → get_elem? cs i ≡ some ready
    → 1 < b.count
    → Counts n (record {
      barrier = record b { count = (b.count + (2 ^ 32 - 1)) % 2 ^ 32 };
      callers = set cs i (waiting b.serial);
    })
unfolding called waits_in waits_after
calls-waits n b cs i c e more =
    let moved = tally-set called cs i ready (waiting b.serial) e in
    record {
      size = omega (arith, length-set cs i (waiting b.serial), c.size);
      init = c.init;
      positive = omega (arith, c.bound, c.small);
      bound = omega (arith, c.bound, c.small);
      small = c.small;
      arrived = omega (arith, moved, c.arrived, c.bound, c.small);
      current = omega (
        arith,
        tally-set (waits_in b.serial) cs i ready (waiting b.serial) e,
        waits_in_self b.serial,
        c.current,
        c.bound,
        c.small,
      );
      ahead = omega (
        arith,
        tally-set (waits_after b.serial) cs i ready (waiting b.serial) e,
        waits_after_self b.serial,
        c.ahead,
      );
      low = omega (arith, moved, c.low);
    }

calls-releases :
    (n : ℕ) (b : Barrier) (cs : List Caller) (i : ℕ) (error : Bool) (r : ℤ)
    → Counts n (record { barrier = b; callers = cs })
    → get_elem? cs i ≡ some ready
    → b.count ≡ 1
    → Counts n (record {
      barrier = record b { serial = (b.serial + 1) % 2 ^ 32; count = b.init_count; error = error };
      callers = set cs i (returned r);
    })
unfolding called waits_in waits_after
calls-releases n b cs i error r c e last =
    let new = set cs i (returned r) in
    let moved = tally-set called cs i ready (returned r) e in
    let size = length-set cs i (returned r) in
    let next : (b.serial + 1) % 2 ^ 32 ≡ suc b.serial =
      omega (arith, c.low, moved, tally-length called new called-le, size, c.size) in
    let next_round : (b.serial + 1) % 2 ^ 32 ≡ b.serial + 1 = omega (arith, next) in
    let ahead = tally-set (waits_after b.serial) cs i ready (returned r) e in
    record {
      size = omega (arith, size, c.size);
      init = c.init;
      positive = omega (arith, c.bound, c.init, last);
      bound = omega (arith, c.init);
      small = c.small;
      arrived = omega (
        arith,
        moved,
        c.arrived,
        c.init,
        c.bound,
        last,
        times-suc b.serial n,
        ap (λ k. k * n) next_round,
      );
      current = omega (
        arith,
        ap (λ k. tally (waits_in k) new) next,
        ahead,
        c.ahead,
        c.init,
        tally_mono (waits_in (suc b.serial)) (waits_after b.serial) new (waits_in-after b.serial),
      );
      ahead = omega (
        arith,
        ap (λ k. tally (waits_after k) new) next,
        ahead,
        c.ahead,
        tally_mono (waits_after (suc b.serial)) (waits_after b.serial) new
            (waits_after-after b.serial),
      );
      low = omega (arith, next, moved, c.low);
    }

calls-Counts :
    (n : ℕ) (b : Barrier) (cs : List Caller) (i : ℕ)
    → Counts n (record { barrier = b; callers = cs })
    → get_elem? cs i ≡ some ready
    → Counts n
        (record { barrier = (sb_barrier_wait b).0; callers = set cs i (sb_barrier_wait b).1 })
unfolding sb_barrier_wait release
calls-Counts n b cs i c e =
    let P = λ (r : Barrier × Caller). Counts n (record { barrier = r.0; callers = set cs i r.1 }) in
    let count = (b.count + (2 ^ 32 - 1)) % 2 ^ 32 in
    if-elim P (count == 0) (release (record b { count = count }))
      (record b { count = count }, waiting b.serial)
      (λ last.
        if-elim P (callback_fails b.callback) _ _
          (λ f.
            calls-releases n b cs i true (negsuc 0) c e
              (ground (arith, c.positive, c.bound, c.small, last)))
          (λ f.
            calls-releases n b cs i b.error serial_thread c e
              (ground (arith, c.positive, c.bound, c.small, last))))
      (λ more. calls-waits n b cs i c e (ground (arith, c.positive, c.bound, c.small, more)))

wakes_as :
    (n : ℕ) (b : Barrier) (cs : List Caller) (i serial : ℕ) (w : Caller)
    → Counts n (record { barrier = b; callers = cs })
    → get_elem? cs i ≡ some (waiting serial)
    → called w ≡ 1
    → waits_in b.serial w ≡ waits_in b.serial (waiting serial)
    → waits_after b.serial w ≤ waits_after b.serial (waiting serial)
    → Counts n (record { barrier = b; callers = set cs i w })
unfolding called
wakes_as n b cs i serial w c e p q r = record {
  size = omega (arith, length-set cs i w, c.size);
  init = c.init;
  positive = c.positive;
  bound = c.bound;
  small = c.small;
  arrived = omega (arith, tally-set called cs i (waiting serial) w e, p, c.arrived);
  current = omega (arith, tally-set (waits_in b.serial) cs i (waiting serial) w e, q, c.current);
  ahead = omega (arith, tally-set (waits_after b.serial) cs i (waiting serial) w e, r, c.ahead);
  low = omega (arith, tally-set called cs i (waiting serial) w e, p, c.low);
}

wakes-Counts :
    (n : ℕ) (b : Barrier) (cs : List Caller) (i serial : ℕ)
    → Counts n (record { barrier = b; callers = cs })
    → get_elem? cs i ≡ some (waiting serial)
    → Counts n (record { barrier = b; callers = set cs i (wake b serial) })
unfolding wake called waits_in waits_after
wakes-Counts n b cs i serial c e =
    if-elim (λ (w : Caller). Counts n (record { barrier = b; callers = set cs i w }))
      (serial == b.serial) _ _
      (λ same. wakes_as n b cs i serial (waiting serial) c e refl refl (omega arith))
      (λ other. wakes_as n b cs i serial _ c e refl (ground (arith, other)) (omega arith))

pub Step-Counts : (n : ℕ) {s t : System} → Counts n s → Step s t → Counts n t
Step-Counts n c (calls b cs i e) = calls-Counts n b cs i c e
Step-Counts n c (wakes b cs i serial e) = wakes-Counts n b cs i serial c e
