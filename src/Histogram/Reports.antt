-- ===== src/Histogram/Reports.antt =====
-- The percentile calls of sb_histogram.c and the abstract view of a histogram.
use bits_on_demand_pte_te.Prelude.{
  ℕ, zero, suc, ◌+◌, ◌^◌, ◌≤◌, ◌<◌, ◌≡◌, refl, sym, subst, Bool, true, false, true≢false, Option,
  none, some, List, [], ◌∷◌, if◌then◌else◌, arith,
}
use bits_on_demand_pte_te.Prelude.Lists.{length, get_or, length-replicate}
use bits_on_demand_pte_te.Histogram.{
  u64, nslots, Histogram, merge_slot, merge_slots, gather_temp, merge_intermediate_into_cumulative,
  percentile_loop, get_pct_cumulative, sb_histogram_get_pct_intermediate,
  sb_histogram_get_pct_cumulative, sb_histogram_get_pct_checkpoint,
}
use bits_on_demand_pte_te.Histogram.Gather.{
  total, column, totals, Sized, merge_slots-Merged, events-merge_slot, length-merge_slot,
  get_or-merge_slot, total-merge_slot,
}
use bits_on_demand_pte_te.Histogram.Percentile.{Reaches, percentile_loop-Reaches}
use bits_on_demand_pte_te.Histogram.Invariant.{
  WellFormed, counted, Gathered, length-clear_slots, Sized-clear_slots, column-clear_slots,
  total-replicate, get_or-replicate, all_slots-Merged, merge_intermediate_into_cumulative-Gathered,
}

-- All of the events of `h`.
unfoldable pub all_events : Histogram → ℕ
unfolding total totals
all_events h = total h.cumulative_array + totals h.interm_slots

-- Bucket `k` is the first one with which the events of the buckets, which are those of `count`, add up
-- to the rank.
pub record Percentile (count : ℕ → ℕ) (rank k : ℕ) : Type 0 where
  pub array : List ℕ
  pub reaches : Reaches array rank k
  pub counts : (i : ℕ) → get_or array i 0 ≡ count i

-- What a call that reports a percentile gives: the bucket, and a histogram that satisfies `P`. No
-- result is a call that waits for ever.
unfoldable pub Reports :
    (count : ℕ → ℕ) (rank : ℕ) → (Histogram → Type 0) → Option (ℕ × Histogram) → Type 0
Reports count rank P none = ⊥
Reports count rank P (some (k, h')) = P h' × Percentile count rank k

Reports-if :
    (count : ℕ → ℕ) (rank : ℕ) (P : Histogram → Type 0) (b : Bool) (result : ℕ × Histogram)
    → b ≡ false
    → Reports count rank P (some result)
    → Reports count rank P (if b then none else some result)
Reports-if count rank P true result e r = absurd (true≢false e)
Reports-if count rank P false result e r = r

get_or_le_total : (xs : List ℕ) (i : ℕ) → get_or xs i 0 ≤ total xs
unfolding total
get_or_le_total [] i = omega arith
get_or_le_total (x ∷ xs) zero = omega arith
get_or_le_total (x ∷ xs) (suc i) = omega (arith, get_or_le_total xs i)

column_le_totals : (slots : List (List ℕ)) (i : ℕ) → column slots i ≤ totals slots
unfolding column totals
column_le_totals [] i = omega arith
column_le_totals (slot ∷ slots) i = omega (arith, get_or_le_total slot i, column_le_totals slots i)

-- Nothing wraps in a bucket of an array that is small as a whole.
exact_count :
    (xs : List ℕ) (i count n : ℕ)
    → total xs ≤ n
    → count ≤ n
    → n < 2 ^ 64
    → u64 (get_or xs i 0) ≡ u64 count
    → get_or xs i 0 ≡ count
exact_count xs i count n small low few h = omega (arith, get_or_le_total xs i)

gathered_count :
    (h : Histogram) (i : ℕ)
    → WellFormed h
    → all_events h < 2 ^ 64
    → get_or (merge_intermediate_into_cumulative h).cumulative_array i 0 ≡ counted h i
unfolding merge_intermediate_into_cumulative all_events counted
gathered_count h i w few =
    exact_count (merge_slots h.interm_slots h.cumulative_array h.cumulative_nevents).0 i
      (get_or h.cumulative_array i 0 + column h.interm_slots i) (all_events h)
      (all_slots-Merged h w).small
      (omega (arith, get_or_le_total h.cumulative_array i, column_le_totals h.interm_slots i)) few
      ((all_slots-Merged h w).counts i)

get_pct_cumulative-Reaches :
    (h : Histogram) (rank : ℕ → ℕ)
    → WellFormed h
    → all_events h < 2 ^ 64
    → rank (all_events h) ≤ all_events h
    → Reaches
        (merge_intermediate_into_cumulative h).cumulative_array
        (rank (all_events h))
        (get_pct_cumulative (merge_intermediate_into_cumulative h) rank)
unfolding get_pct_cumulative merge_intermediate_into_cumulative all_events
get_pct_cumulative-Reaches h rank w few low =
    let m = all_slots-Merged h w in
    let result = merge_slots h.interm_slots h.cumulative_array h.cumulative_nevents in
    let sum : total result.0 ≡ all_events h = omega (arith, m.sum, m.small) in
    let events : result.1 ≡ all_events h = omega (arith, m.events, w.events) in
    subst (λ n. Reaches result.0 (rank (all_events h)) (percentile_loop result.0 (rank n) 0 0))
      (sym events)
      (percentile_loop-Reaches result.0 (rank (all_events h))
        (omega (arith, m.size, w.cumulative, w.room)) (omega (arith, sum))
        (omega (arith, sum, low)))

-- On an unlocked and well-formed histogram of less than 2^64 events, with a rank of at most their
-- number, the cumulative percentile returns: its result is the first bucket with which the events
-- of all the buckets, gathered or not, add up to the rank, and the histogram then holds the same
-- events, all of them gathered.
pub sb_histogram_get_pct_cumulative-Reports :
    (h : Histogram) (rank : ℕ → ℕ)
    → WellFormed h
    → h.locked ≡ false
    → all_events h < 2 ^ 64
    → rank (all_events h) ≤ all_events h
    → Reports
        (λ i. counted h i)
        (rank (all_events h))
        (λ h'. Gathered h h')
        (sb_histogram_get_pct_cumulative h rank)
unfolding sb_histogram_get_pct_cumulative Reports
sb_histogram_get_pct_cumulative-Reports h rank w free few low =
    let gathered = merge_intermediate_into_cumulative-Gathered h w in
    Reports-if (λ i. counted h i) (rank (all_events h)) (λ h'. Gathered h h') h.locked _ free
      (
        gathered,
        record {
          array = (merge_intermediate_into_cumulative h).cumulative_array;
          reaches = get_pct_cumulative-Reaches h rank w few low;
          counts = λ i. gathered_count h i w few;
        },
      )

-- `h'` holds no events.
pub record Emptied (h' : Histogram) : Type 0 where
  pub formed : WellFormed h'
  pub counts : (i : ℕ) → counted h' i ≡ 0
  pub events : h'.cumulative_nevents ≡ 0

-- On an unlocked and well-formed histogram of less than 2^64 events, with a rank of at most their
-- number, the checkpoint returns: its result is the first bucket with which the events of all the
-- buckets, gathered or not, add up to the rank, and the histogram is then well formed and empty.
pub sb_histogram_get_pct_checkpoint-Reports :
    (h : Histogram) (rank : ℕ → ℕ)
    → WellFormed h
    → h.locked ≡ false
    → all_events h < 2 ^ 64
    → rank (all_events h) ≤ all_events h
    → Reports
        (λ i. counted h i)
        (rank (all_events h))
        Emptied
        (sb_histogram_get_pct_checkpoint h rank)
unfolding sb_histogram_get_pct_checkpoint Reports counted
sb_histogram_get_pct_checkpoint-Reports h rank w free few low =
    let merged = merge_intermediate_into_cumulative h in
    let gathered = merge_intermediate_into_cumulative-Gathered h w in
    Reports-if (λ i. counted h i) (rank (all_events h)) Emptied h.locked _ free
      (
        record {
          formed = record {
            room = gathered.formed.room;
            cumulative = length-replicate merged.array_size 0;
            temp = gathered.formed.temp;
            slots = gathered.formed.slots;
            number = gathered.formed.number;
            events = omega (arith, total-replicate merged.array_size);
          };
          counts = λ i. omega (arith, get_or-replicate merged.array_size i, gathered.emptied i);
          events = refl;
        },
        record {
          array = merged.cumulative_array;
          reaches = get_pct_cumulative-Reaches h rank w few low;
          counts = λ i. gathered_count h i w few;
        },
      )

-- The slots as `gather_temp` adds them up.
record Snapshot (slots : List (List ℕ)) (size : ℕ) (result : List ℕ × ℕ) : Type 0 where
  long : length result.0 ≡ size
  counts : (i : ℕ) → u64 (get_or result.0 i 0) ≡ u64 (column slots i)
  sum : u64 (total result.0) ≡ u64 (totals slots)
  small : total result.0 ≤ totals slots
  events : result.1 ≡ u64 (totals slots)

gather_temp-Snapshot :
    (slots : List (List ℕ)) (temp : List ℕ) (size : ℕ)
    → Sized slots size
    → length slots ≡ nslots
    → Snapshot slots size (gather_temp slots temp)
unfolding gather_temp Sized column totals
gather_temp-Snapshot [] temp size s n = absurd (omega (arith, n))
gather_temp-Snapshot (slot ∷ slots) temp size s n =
    let first = events-merge_slot slot slot 0 refl (omega arith) in
    let m =
      merge_slots-Merged slots slot (merge_slot slot slot 0).1
        (subst (λ k. Sized slots k) (sym s.0) s.1) (omega (arith, first)) in
    record {
      long = omega (arith, m.size, s.0);
      counts = λ i. m.counts i;
      sum = m.sum;
      small = m.small;
      events = omega (arith, m.events, first);
    }

-- On an unlocked and well-formed histogram with less than 2^64 events in its slots and a rank of at
-- most their number, the intermediate percentile returns: its result is the first bucket with which
-- the events of the slots alone add up to the rank, and the histogram then holds the same events,
-- all of them gathered.
pub sb_histogram_get_pct_intermediate-Reports :
    (h : Histogram) (rank : ℕ → ℕ)
    → WellFormed h
    → h.locked ≡ false
    → totals h.interm_slots < 2 ^ 64
    → rank (totals h.interm_slots) ≤ totals h.interm_slots
    → Reports
        (λ i. column h.interm_slots i)
        (rank (totals h.interm_slots))
        (λ h'. Gathered h h')
        (sb_histogram_get_pct_intermediate h rank)
unfolding sb_histogram_get_pct_intermediate Reports counted
sb_histogram_get_pct_intermediate-Reports h rank w free few low =
    let g = gather_temp h.interm_slots h.temp_array in
    let s = gather_temp-Snapshot h.interm_slots h.temp_array h.array_size w.slots w.number in
    let same : length g.0 ≡ length h.cumulative_array = omega (arith, s.long, w.cumulative) in
    let sum : total g.0 ≡ totals h.interm_slots = omega (arith, s.sum, s.small) in
    let events : totals h.interm_slots ≡ g.1 = omega (arith, s.events) in
    Reports-if (λ i. column h.interm_slots i) (rank (totals h.interm_slots)) (λ h'. Gathered h h')
      h.locked _ free
      (
        record {
          formed = record {
            room = w.room;
            cumulative = omega (arith, length-merge_slot g.0 h.cumulative_array 0, w.cumulative);
            temp = s.long;
            slots = Sized-clear_slots h.interm_slots h.array_size w.slots;
            number = omega (arith, length-clear_slots h.interm_slots, w.number);
            events = omega (
              arith,
              (total-merge_slot g.0 h.cumulative_array 0 same).0,
              w.events,
              s.events,
              sum,
            );
          };
          counts =
              λ i. omega (arith, get_or-merge_slot g.0 h.cumulative_array 0 i same, s.counts i);
          emptied = λ i. column-clear_slots h.interm_slots i;
        },
        record {
          array = g.0;
          reaches =
              subst
                (λ n. Reaches g.0 (rank (totals h.interm_slots)) (percentile_loop g.0 (rank n) 0 0))
                events
                (percentile_loop-Reaches g.0 (rank (totals h.interm_slots))
                  (omega (arith, s.long, w.room)) (omega (arith, sum)) (omega (arith, sum, low)));
          counts = λ i.
              exact_count g.0 i (column h.interm_slots i) (totals h.interm_slots) s.small
                (column_le_totals h.interm_slots i) few (s.counts i);
        },
      )
