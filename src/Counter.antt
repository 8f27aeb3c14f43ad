-- ===== src/Counter.antt =====
-- test10/sysbench/src/sb_counter.c and the inline functions of sb_counter.h: counters that each
-- thread adds to, and the two reports that the main thread takes of their sums. The counters are
-- 64-bit words; each operation is one step.
mod Examples
pub mod Intervals
pub mod Sums
use bits_on_demand_pte_te.Prelude.{
  ℕ, zero, suc, ◌+◌, ◌-◌, ◌%◌, ◌^◌, Bool, true, false, Option, none, some, List, [], ◌∷◌,
}
use bits_on_demand_pte_te.Prelude.Lists.{get_or, set, replicate}

abbrev pub u64 : ℕ → ℕ
u64 n = n % 2 ^ 64

-- The constants of `sb_counter_type_t`, by their values.
pub data CounterType : Type 0 where
  other read write event error reconnect bytes_read bytes_written : CounterType

abbrev pub index : CounterType → ℕ
index other = 0
index read = 1
index write = 2
index event = 3
index error = 4
index reconnect = 5
index bytes_read = 6
index bytes_written = 7

-- SB_CNT_MAX
abbrev pub cnt_max : ℕ
cnt_max = 8

-- `sb_counters`, with an array of `cnt_max` words for each thread and one more for the background
-- threads, the values at the last reports, and `sb_globals.threads`.
pub record Counters : Type 0 where
  pub threads : ℕ
  pub sb_counters : List (List ℕ)
  pub last_intermediate_counters : List ℕ
  pub last_cumulative_counters : List ℕ

-- `sb_alloc_per_thread_array`, for arrays of `cnt_max` words: the number of the arrays is a sum of 32
-- bits. `allocated` is whether the memory is given.
unfoldable pub sb_alloc_per_thread_array : (allocated : Bool) (threads : ℕ) → Option (List (List ℕ))
sb_alloc_per_thread_array false threads = none
sb_alloc_per_thread_array true threads =
    some (replicate ((threads + 1) % 2 ^ 32) (replicate cnt_max 0))

-- None is no memory: the code has then written to a null pointer, before the test for the result 1.
unfoldable pub sb_counters_init : (allocated : Bool) (threads : ℕ) → Option Counters
unfolding sb_alloc_per_thread_array
sb_counters_init allocated threads = elim (sb_alloc_per_thread_array allocated threads) [
  | none ↦ none
  | some rows ↦ some (record {
    threads = threads;
    sb_counters = rows;
    last_intermediate_counters = replicate cnt_max 0;
    last_cumulative_counters = replicate cnt_max 0;
  })
]

unfoldable pub sb_counter_val : Counters → (thread_id : ℕ) → CounterType → ℕ
sb_counter_val c thread_id type = get_or (get_or c.sb_counters thread_id []) (index type) 0

unfoldable pub sb_counter_add : Counters → (thread_id : ℕ) → CounterType → (val : ℕ) → Counters
unfolding sb_counter_val
sb_counter_add c thread_id type val = record c {
  sb_counters = set c.sb_counters thread_id (
      set (get_or c.sb_counters thread_id []) (index type)
        (u64 (sb_counter_val c thread_id type + val)));
}

unfoldable pub sb_counter_inc : Counters → (thread_id : ℕ) → CounterType → Counters
unfolding sb_counter_add
sb_counter_inc c thread_id type = sb_counter_add c thread_id type 1

-- The loop `i < sb_globals.threads`, for the counter at `t`, over the arrays from the first one on.
unfoldable pub merge_threads : (threads : ℕ) → List (List ℕ) → (t dst : ℕ) → ℕ
merge_threads zero rows t dst = dst
merge_threads (suc threads) [] t dst = dst
merge_threads (suc threads) (row ∷ rows) t dst =
    merge_threads threads rows t (u64 (dst + get_or row t 0))

-- The loop over the types, from `t` on.
unfoldable pub sb_counters_merge : (threads : ℕ) → List (List ℕ) → (dst : List ℕ) (t : ℕ) → List ℕ
unfolding merge_threads
sb_counters_merge threads rows [] t = []
sb_counters_merge threads rows (d ∷ dst) t =
    merge_threads threads rows t d ∷ sb_counters_merge threads rows dst (suc t)

-- The differences, which go to `dst`, and the new `cp`.
unfoldable pub sb_counters_checkpoint : (dst cp : List ℕ) → List ℕ × List ℕ
sb_counters_checkpoint [] cp = ([], cp)
sb_counters_checkpoint (d ∷ dst) [] = (d ∷ dst, [])
sb_counters_checkpoint (d ∷ dst) (c ∷ cp) =
    let (dst', cp') = sb_counters_checkpoint dst cp in
    (u64 (d + (2 ^ 64 - c % 2 ^ 64)) ∷ dst', d ∷ cp')

unfoldable pub sb_counters_agg_intermediate : Counters → List ℕ × Counters
unfolding sb_counters_merge sb_counters_checkpoint
sb_counters_agg_intermediate c =
    let (val, cp) =
      sb_counters_checkpoint (sb_counters_merge c.threads c.sb_counters (replicate cnt_max 0) 0)
        c.last_intermediate_counters in
    (val, record c { last_intermediate_counters = cp })

unfoldable pub sb_counters_agg_cumulative : Counters → List ℕ × Counters
unfolding sb_counters_merge sb_counters_checkpoint
sb_counters_agg_cumulative c =
    let (val, cp) =
      sb_counters_checkpoint (sb_counters_merge c.threads c.sb_counters (replicate cnt_max 0) 0)
        c.last_cumulative_counters in
    (val, record c { last_cumulative_counters = cp })
