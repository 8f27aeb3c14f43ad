-- ===== src/Histogram/Printed.antt =====
-- What `sb_histogram_print` does with the lock.
use bits_on_demand_pte_te.Prelude.{
  ℕ, ◌+◌, ◌^◌, ◌≤◌, ◌<◌, ◌≡◌, ◌∙◌, refl, sym, ap, subst, Bool, true, false, Option, none, some,
  List, [], ◌∷◌, ◌==◌, ltb, if◌then◌else◌, arith,
}
use bits_on_demand_pte_te.Histogram.{
  Histogram, max_count, merge_intermediate_into_cumulative, sb_histogram_print,
}
use bits_on_demand_pte_te.Histogram.Gather.{total}
use bits_on_demand_pte_te.Histogram.Invariant.{
  WellFormed, counted, Gathered, all_slots-Merged, merge_intermediate_into_cumulative-Gathered,
}
use bits_on_demand_pte_te.Histogram.Reports.{all_events}

max_count-above : (xs : List ℕ) (m : ℕ) → m ≤ max_count xs m
unfolding max_count
max_count-above [] m = omega arith
max_count-above (x ∷ xs) m = ground (arith, max_count-above xs (if ltb m x then x else m))

max_count-zero : (xs : List ℕ) (m : ℕ) → (max_count xs m == 0) ≡ (m + total xs == 0)
unfolding max_count total
max_count-zero [] m = ground arith
max_count-zero (x ∷ xs) m = ground (arith, max_count-zero xs (if ltb m x then x else m))

-- The histogram that a call of `sb_histogram_print` on `h` leaves; none is a call that waits for
-- ever.
unfoldable pub Prints : Histogram → Option Histogram → Type 0
unfolding all_events
Prints h none = ⊥
Prints h (some h') = Gathered h h' × (h'.locked ≡ (all_events h == 0))

Prints-if :
    (h h₁ h₂ : Histogram) (b : Bool)
    → b ≡ (all_events h == 0)
    → Gathered h h₁ × (h₁.locked ≡ true)
    → Gathered h h₂ × (h₂.locked ≡ false)
    → Prints h (if b then some h₁ else some h₂)
unfolding Prints
Prints-if h h₁ h₂ true e p q = (p.0, p.1 ∙ e)
Prints-if h h₁ h₂ false e p q = (q.0, q.1 ∙ e)

unlocked : {A : Type 0} (b : Bool) (x y : A) → b ≡ false → (if b then x else y) ≡ y
unlocked b x y e = rw e refl

lock-WellFormed : (h : Histogram) → WellFormed h → WellFormed (record h { locked = true })
lock-WellFormed h w = record {
  room = w.room;
  cumulative = w.cumulative;
  temp = w.temp;
  slots = w.slots;
  number = w.number;
  events = w.events;
}

unlock-Gathered :
    (h h' : Histogram) (b : Bool)
    → Gathered (record h { locked = true }) h'
    → Gathered h (record h' { locked = b })
unfolding counted
unlock-Gathered h h' b g = record {
  formed = record {
    room = g.formed.room;
    cumulative = g.formed.cumulative;
    temp = g.formed.temp;
    slots = g.formed.slots;
    number = g.formed.number;
    events = g.formed.events;
  };
  counts = g.counts;
  emptied = g.emptied;
}

-- On an unlocked and well-formed histogram of less than 2^64 events the printing returns; the
-- histogram then holds the same events, all of them gathered, and it is left locked exactly if
-- there are no events.
pub sb_histogram_print-Prints :
    (h : Histogram)
    → WellFormed h
    → h.locked ≡ false
    → all_events h < 2 ^ 64
    → Prints h (sb_histogram_print h)
unfolding sb_histogram_print merge_intermediate_into_cumulative all_events
sb_histogram_print-Prints h w free few =
    let hl : Histogram = record h { locked = true } in
    let wl = lock-WellFormed h w in
    let g = merge_intermediate_into_cumulative-Gathered hl wl in
    let m = all_slots-Merged hl wl in
    let merged = merge_intermediate_into_cumulative hl in
    let sum : 0 + total merged.cumulative_array ≡ all_events h = omega (arith, m.sum, m.small) in
    let empty = max_count-zero merged.cumulative_array 0 ∙ ap (λ n. n == 0) sum in
    subst (λ r. Prints h r)
      (sym (
        unlocked h.locked none
          (if max_count merged.cumulative_array 0 == 0
            then some merged
            else some (record merged { locked = false }))
          free))
      (Prints-if h merged (record merged { locked = false })
        (max_count merged.cumulative_array 0 == 0) empty (unlock-Gathered h merged true g, refl)
        (unlock-Gathered h merged false g, refl))
