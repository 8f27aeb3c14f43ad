-- ===== src/Histogram/Examples.antt =====
-- The theorems about the histogram, at one of four buckets.
use bits_on_demand_pte_te.Prelude.{ℕ, ◌+◌, ◌*◌, ◌/◌, ◌≡◌, refl, false, [], arith}
use bits_on_demand_pte_te.Pte.Machine.{pos}
use bits_on_demand_pte_te.Histogram.{
  Histogram, sb_histogram_init, clamp_index, inc_slot, inc_at, sb_histogram_update,
  sb_histogram_get_pct_intermediate, sb_histogram_get_pct_cumulative,
  sb_histogram_get_pct_checkpoint,
}
use bits_on_demand_pte_te.Histogram.Gather.{total, totals, column}
use bits_on_demand_pte_te.Histogram.Invariant.{
  WellFormed, counted, Gathered, sb_histogram_init-WellFormed, sb_histogram_update-counted,
}
use bits_on_demand_pte_te.Histogram.Reports.{
  all_events, Reports, Emptied, sb_histogram_get_pct_intermediate-Reports,
  sb_histogram_get_pct_cumulative-Reports, sb_histogram_get_pct_checkpoint-Reports,
}

abbrev cleared : Histogram
cleared = record {
  cumulative_array = [];
  temp_array = [];
  interm_slots = [];
  cumulative_nevents = 0;
  array_size = 0;
  locked = false;
}

abbrev empty : Histogram
empty = sb_histogram_init cleared 4

empty-WellFormed : WellFormed empty
empty-WellFormed = sb_histogram_init-WellFormed cleared 4 (omega arith) refl

-- One event, in the slot 72 of 128 and beyond the last bucket.
abbrev one_event : Histogram
one_event = sb_histogram_update empty 200 (pos 9)

one_event-WellFormed : WellFormed one_event
one_event-WellFormed = (sb_histogram_update-counted empty 200 (pos 9) empty-WellFormed).0

free : one_event.locked ≡ false
unfolding sb_histogram_update sb_histogram_init
free = refl

in_slots : totals one_event.interm_slots ≡ 1
unfolding totals total sb_histogram_update sb_histogram_init inc_slot inc_at clamp_index
in_slots = refl

in_all : all_events one_event ≡ 1
unfolding all_events totals total sb_histogram_update sb_histogram_init inc_slot inc_at clamp_index
in_all = refl

-- The rank of the percentile 95.
abbrev rank : ℕ → ℕ
rank n = (n * 95 + 50) / 100

sb_histogram_get_pct_intermediate-Reports_example :
    Reports
      (λ i. column one_event.interm_slots i)
      (rank (totals one_event.interm_slots))
      (λ h'. Gathered one_event h')
      (sb_histogram_get_pct_intermediate one_event rank)
sb_histogram_get_pct_intermediate-Reports_example =
    sb_histogram_get_pct_intermediate-Reports one_event rank one_event-WellFormed free
      (omega (arith, in_slots)) (omega (arith, in_slots))

sb_histogram_get_pct_checkpoint-Reports_example :
    Reports
      (λ i. counted one_event i)
      (rank (all_events one_event))
      Emptied
      (sb_histogram_get_pct_checkpoint one_event rank)
sb_histogram_get_pct_checkpoint-Reports_example =
    sb_histogram_get_pct_checkpoint-Reports one_event rank one_event-WellFormed free
      (omega (arith, in_all)) (omega (arith, in_all))

sb_histogram_get_pct_cumulative-Reports_example :
    Reports
      (λ i. counted one_event i)
      (rank (all_events one_event))
      (λ h'. Gathered one_event h')
      (sb_histogram_get_pct_cumulative one_event rank)
sb_histogram_get_pct_cumulative-Reports_example =
    sb_histogram_get_pct_cumulative-Reports one_event rank one_event-WellFormed free
      (omega (arith, in_all)) (omega (arith, in_all))
