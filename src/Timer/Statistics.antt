-- ===== src/Timer/Statistics.antt =====
-- The timers of sb_timer.c and the list of the times that were measured.
use bits_on_demand_pte_te.Prelude.{
  ℕ, suc, ◌+◌, ◌/◌, ◌^◌, ◌<◌, ◌≤◌, ◌≡◌, refl, ltb, if◌then◌else◌, List, [], ◌∷◌, ◌++◌, arith,
}
use bits_on_demand_pte_te.Prelude.Lists.{length, length-append}
use bits_on_demand_pte_te.Timer.{
  u64, uint64_max, Timespec, Timer, sb_timer_init, sb_timer_stop, sb_timer_avg, sb_timer_sum,
  sb_timer_min, sb_timer_max, sb_timer_merge,
}

-- The total, the least (2^64 - 1 for none) and the greatest (0 for none) of some times.
unfoldable pub total : List ℕ → ℕ
total [] = 0
total (x ∷ xs) = x + total xs

unfoldable pub least : List ℕ → ℕ
least [] = uint64_max
least (x ∷ xs) = if ltb x (least xs) then x else least xs

unfoldable pub greatest : List ℕ → ℕ
greatest [] = 0
greatest (x ∷ xs) = if ltb (greatest xs) x then x else greatest xs

-- The timer has measured the times `xs`.
pub record Measures (t : Timer) (xs : List ℕ) : Type 0 where
  pub events : t.events ≡ u64 (length xs)
  pub sum_time : t.sum_time ≡ u64 (total xs)
  pub min_time : t.min_time ≡ least xs
  pub max_time : t.max_time ≡ greatest xs

pub sb_timer_init-Measures : (t : Timer) → Measures (sb_timer_init t) []
unfolding sb_timer_init total least greatest
sb_timer_init-Measures t = record {
  events = refl;
  sum_time = refl;
  min_time = refl;
  max_time = refl;
}

-- If a timer has measured the times `xs`, their number and their total modulo 2^64, the least and
-- the greatest, then after it is stopped it has measured these and the time that the call
-- returned.
pub sb_timer_stop-Measures :
    (now : Timespec) (t : Timer) (xs : List ℕ)
    → Measures t xs
    → Measures (sb_timer_stop now t).0 ((sb_timer_stop now t).1 ∷ xs)
unfolding sb_timer_stop total least greatest
sb_timer_stop-Measures now t xs m = record {
  events = omega (arith, m.events);
  sum_time = omega (arith, m.sum_time);
  min_time = rw m.min_time;
  max_time = rw m.max_time;
}

total-append : (xs ys : List ℕ) → total (xs ++ ys) ≡ total xs + total ys
unfolding total
total-append [] ys = omega arith
total-append (x ∷ xs) ys = omega (arith, total-append xs ys)

least-le : (xs : List ℕ) → least xs ≤ uint64_max
unfolding least
least-le [] = omega arith
least-le (x ∷ xs) = ground (arith, least-le xs)

least-append :
    (xs ys : List ℕ) → least (xs ++ ys) ≡ (if ltb (least xs) (least ys) then least xs else least ys)
unfolding least
least-append [] ys = ground (arith, least-le ys)
least-append (x ∷ xs) ys = ground (arith, least-append xs ys)

greatest-append :
    (xs ys : List ℕ)
    → greatest (xs ++ ys) ≡ (if ltb (greatest ys) (greatest xs) then greatest xs else greatest ys)
unfolding greatest
greatest-append [] ys = ground arith
greatest-append (x ∷ xs) ys = ground (arith, greatest-append xs ys)

-- If one timer has measured the times `xs` and another the times `ys`, the merged timer has
-- measured both, with the number and the total modulo 2^64.
pub sb_timer_merge-Measures :
    (t1 t2 : Timer) (xs ys : List ℕ)
    → Measures t1 xs
    → Measures t2 ys
    → Measures (sb_timer_merge t1 t2) (xs ++ ys)
unfolding sb_timer_merge
sb_timer_merge-Measures t1 t2 xs ys m n = record {
  events = omega (arith, m.events, n.events, length-append xs ys);
  sum_time = omega (arith, m.sum_time, n.sum_time, total-append xs ys);
  min_time = rw (m.min_time, n.min_time, least-append xs ys) refl;
  max_time = rw (m.max_time, n.max_time, greatest-append xs ys) refl;
}

-- What a timer that measured at least one time reports, if the number and the total of the times
-- are below 2^64: the mean, rounded down, the total, the least and the greatest.
pub Measures-report :
    (t : Timer) (x : ℕ) (xs : List ℕ)
    → Measures t (x ∷ xs)
    → length (x ∷ xs) < 2 ^ 64
    → total (x ∷ xs) < 2 ^ 64
    → (sb_timer_avg t ≡ total (x ∷ xs) / length (x ∷ xs))
      × (sb_timer_sum t ≡ total (x ∷ xs))
      × (sb_timer_min t ≡ least (x ∷ xs))
      × (sb_timer_max t ≡ greatest (x ∷ xs))
unfolding sb_timer_avg sb_timer_sum sb_timer_min sb_timer_max
Measures-report t x xs m few small =
    let count : t.events ≡ suc (length xs) = omega (arith, m.events) in
    let sum : t.sum_time ≡ total (x ∷ xs) = omega (arith, m.sum_time) in
    (rw (count, sum) (ground arith), sum, rw count (ground (arith, m.min_time)), m.max_time)
