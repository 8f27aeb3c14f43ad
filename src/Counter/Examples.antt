-- ===== src/Counter/Examples.antt =====
-- The theorems about the reports of the counters, for two threads.
use bits_on_demand_pte_te.Prelude.{◌≡◌, refl, List, [], ◌∷◌, arith}
use bits_on_demand_pte_te.Prelude.Lists.{get_or, replicate}
use bits_on_demand_pte_te.Counter.{
  u64, cnt_max, Counters, event, read, sb_counters_agg_intermediate,
}
use bits_on_demand_pte_te.Counter.Sums.{Rows, Formed}
use bits_on_demand_pte_te.Counter.Intervals.{
  Event, adds, reports, happen, added, Known, after_intermediate, after_cumulative,
  sb_counters_agg_intermediate-added,
}

abbrev two_threads : Counters
two_threads = record {
  threads = 2;
  sb_counters = replicate 3 (replicate cnt_max 0);
  last_intermediate_counters = replicate cnt_max 0;
  last_cumulative_counters = replicate cnt_max 0;
}

two_threads-Formed : Formed two_threads
unfolding Rows
two_threads-Formed = record {
  slots = refl;
  rows = (refl, (refl, (refl, tt)));
  intermediate = refl;
  cumulative = refl;
}

-- Thread 0 adds 2 events, thread 1 adds 3 and a background thread adds 9, with a report of the other
-- kind between.
abbrev five_events : List Event
five_events = adds 0 event 2 ∷ reports ∷ adds 1 event 3 ∷ adds 2 event 9 ∷ adds 1 read 7 ∷ []

five_events-Known : Known 2 five_events
unfolding Known
five_events-Known = (omega arith, (omega arith, (omega arith, (omega arith, tt))))

sb_counters_agg_intermediate-added_example :
    get_or
      (sb_counters_agg_intermediate
        (happen after_cumulative (after_intermediate two_threads) five_events)).0
      3
      0
    ≡ u64 (added 2 five_events 3)
sb_counters_agg_intermediate-added_example =
    sb_counters_agg_intermediate-added two_threads five_events 3 two_threads-Formed
      five_events-Known (omega arith)

five : u64 (added 2 five_events 3) ≡ 5
unfolding added
five = refl
