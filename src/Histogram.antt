-- ===== src/Histogram.antt =====
-- test10/sysbench/src/sb_histogram.c: a histogram whose updates go to one of 128 slots, which the
-- readers gather. The C library's floating-point functions are parameters: a caller of
-- `sb_histogram_update` gives the rounded index, and a reader the rank that it looks for. The read
-- and write lock is a flag; an operation that would wait for it gives `none`.
mod Examples
pub mod Gather
pub mod Invariant
pub mod Percentile
pub mod Printed
pub mod Reports
use bits_on_demand_pte_te.Prelude.{
  ℕ, zero, suc, ◌+◌, ◌-◌, ◌*◌, ◌%◌, ◌^◌, Bool, true, false, Option, none, some, List, [], ◌∷◌, map,
  ◌==◌, ltb, leb, if◌then◌else◌,
}
use bits_on_demand_pte_te.Prelude.Lists.{length, replicate}
use bits_on_demand_pte_te.Pte.Machine.{ℤ, pos, negsuc}

abbrev pub u64 : ℕ → ℕ
u64 n = n % 2 ^ 64

-- SB_HISTOGRAM_NSLOTS
abbrev pub nslots : ℕ
nslots = 128

pub record Histogram : Type 0 where
  pub cumulative_array : List ℕ
  pub temp_array : List ℕ
  pub interm_slots : List (List ℕ)
  pub cumulative_nevents : ℕ
  pub array_size : ℕ
  pub locked : Bool

-- `h` is the object that is initialised; `cumulative_nevents` is not among what is set.
unfoldable pub sb_histogram_init : Histogram → (size : ℕ) → Histogram
sb_histogram_init h size = record h {
  cumulative_array = replicate size 0;
  temp_array = replicate size 0;
  interm_slots = replicate nslots (replicate size 0);
  array_size = size;
  locked = false;
}

-- The two allocations: of the arrays, and of the table of slots.
unfoldable pub sb_histogram_new :
    (room rooms : Bool) (garbage : Histogram) (size : ℕ) → Option Histogram
unfolding sb_histogram_init
sb_histogram_new true true garbage size = some (sb_histogram_init garbage size)
sb_histogram_new _ _ garbage size = none

-- The index for a rounded value, which may lie outside the array.
unfoldable pub clamp_index : ℤ → ℕ → ℕ
clamp_index (negsuc n) size = 0
clamp_index (pos n) size = if leb size n then size - 1 else n

-- `ck_pr_inc_64(&array[i])`
unfoldable pub inc_at : List ℕ → ℕ → List ℕ
inc_at [] i = []
inc_at (x ∷ xs) zero = u64 (x + 1) ∷ xs
inc_at (x ∷ xs) (suc i) = x ∷ inc_at xs i

unfoldable pub inc_slot : List (List ℕ) → (slot i : ℕ) → List (List ℕ)
unfolding inc_at
inc_slot [] slot i = []
inc_slot (xs ∷ xss) zero i = inc_at xs i ∷ xss
inc_slot (xs ∷ xss) (suc slot) i = xs ∷ inc_slot xss slot i

-- `random` is what `sb_rand_uniform_uint64` returns.
unfoldable pub sb_histogram_update : Histogram → (random : ℕ) (index : ℤ) → Histogram
unfolding clamp_index inc_slot
sb_histogram_update h random index = record h {
  interm_slots = inc_slot h.interm_slots (random % nslots) (clamp_index index h.array_size);
}

-- `array[i] += t; nevents += t;` along one slot.
unfoldable pub merge_slot : (slot array : List ℕ) (nevents : ℕ) → List ℕ × ℕ
merge_slot [] array n = (array, n)
merge_slot (t ∷ slot) [] n = ([], n)
merge_slot (t ∷ slot) (a ∷ array) n =
    let (array', n') = merge_slot slot array (u64 (n + t)) in (u64 (a + t) ∷ array', n')

unfoldable pub merge_slots : List (List ℕ) → (array : List ℕ) (nevents : ℕ) → List ℕ × ℕ
unfolding merge_slot
merge_slots [] array n = (array, n)
merge_slots (slot ∷ slots) array n =
    let (array', n') = merge_slot slot array n in merge_slots slots array' n'

-- What the exchange with 0 leaves in the slots.
unfoldable pub clear_slot : List ℕ → List ℕ
clear_slot [] = []
clear_slot (t ∷ slot) = 0 ∷ clear_slot slot

unfoldable pub clear_slots : List (List ℕ) → List (List ℕ)
unfolding clear_slot
clear_slots = map clear_slot

-- The first index at which the running total reaches `nmax`, or the length.
unfoldable pub percentile_loop : List ℕ → (nmax ncur i : ℕ) → ℕ
percentile_loop [] nmax ncur i = i
percentile_loop (a ∷ array) nmax ncur i =
    let rest = percentile_loop array nmax (u64 (ncur + a)) (i + 1) in
    if leb nmax (u64 (ncur + a)) then i else rest

-- The first slot is copied to `temp_array`, the others are added.
unfoldable pub gather_temp : List (List ℕ) → List ℕ → List ℕ × ℕ
unfolding merge_slots merge_slot
gather_temp [] temp = (temp, 0)
gather_temp (slot ∷ slots) temp = merge_slots slots slot (merge_slot slot slot 0).1

-- `rank` is `floor(nevents * percentile / 100 + 0.5)` as a function of the number of events. The
-- result is the index that `exp` is applied to.
unfoldable pub sb_histogram_get_pct_intermediate :
    Histogram → (rank : ℕ → ℕ) → Option (ℕ × Histogram)
unfolding gather_temp clear_slots percentile_loop
sb_histogram_get_pct_intermediate h rank =
    if h.locked
    then none
    else let (array, nevents) = gather_temp h.interm_slots h.temp_array in
      some (
        percentile_loop array (rank nevents) 0 0,
        record h {
          temp_array = array;
          interm_slots = clear_slots h.interm_slots;
          cumulative_array = (merge_slot array h.cumulative_array 0).0;
          cumulative_nevents = u64 (h.cumulative_nevents + nevents);
        },
      )

unfoldable pub merge_intermediate_into_cumulative : Histogram → Histogram
unfolding merge_slots clear_slots
merge_intermediate_into_cumulative h =
    let (array, nevents) = merge_slots h.interm_slots h.cumulative_array h.cumulative_nevents in
    record h {
      cumulative_array = array;
      cumulative_nevents = nevents;
      interm_slots = clear_slots h.interm_slots;
    }

unfoldable pub get_pct_cumulative : Histogram → (rank : ℕ → ℕ) → ℕ
unfolding percentile_loop
get_pct_cumulative h rank = percentile_loop h.cumulative_array (rank h.cumulative_nevents) 0 0

unfoldable pub sb_histogram_get_pct_cumulative : Histogram → (rank : ℕ → ℕ) → Option (ℕ × Histogram)
unfolding merge_intermediate_into_cumulative get_pct_cumulative
sb_histogram_get_pct_cumulative h rank =
    if h.locked
    then none
    else let merged = merge_intermediate_into_cumulative h in
      some (get_pct_cumulative merged rank, merged)

unfoldable pub sb_histogram_get_pct_checkpoint : Histogram → (rank : ℕ → ℕ) → Option (ℕ × Histogram)
unfolding merge_intermediate_into_cumulative get_pct_cumulative
sb_histogram_get_pct_checkpoint h rank =
    if h.locked
    then none
    else let merged = merge_intermediate_into_cumulative h in
      some (
        get_pct_cumulative merged rank,
        record merged { cumulative_array = replicate merged.array_size 0; cumulative_nevents = 0 },
      )

unfoldable pub max_count : List ℕ → (maxcnt : ℕ) → ℕ
max_count [] maxcnt = maxcnt
max_count (a ∷ array) maxcnt = max_count array (if ltb maxcnt a then a else maxcnt)

-- The lines are left out. With no events the function returns before it unlocks.
unfoldable pub sb_histogram_print : Histogram → Option Histogram
unfolding merge_intermediate_into_cumulative max_count
sb_histogram_print h =
    if h.locked
    then none
    else let merged = merge_intermediate_into_cumulative (record h { locked = true }) in
      if max_count merged.cumulative_array 0 == 0
      then some merged
      else some (record merged { locked = false })
