-- ===== src/Histogram/Invariant.antt =====
-- The invariant of a histogram, its abstract view, the number of events in each bucket, and what an
-- update and the gathering of the slots do to them.
use bits_on_demand_pte_te.Prelude.{
  ℕ, zero, suc, ◌+◌, ◌%◌, ◌<◌, ◌≡◌, refl, sym, subst, List, [], ◌∷◌, ◌==◌, if◌then◌else◌, arith,
}
use bits_on_demand_pte_te.Prelude.Lists.{length, get_or, replicate, length-replicate}
use bits_on_demand_pte_te.Pte.Machine.{ℤ, pos, negsuc}
use bits_on_demand_pte_te.Histogram.{
  u64, nslots, Histogram, sb_histogram_init, clamp_index, sb_histogram_update, merge_slots,
  clear_slot, clear_slots, merge_intermediate_into_cumulative,
}
use bits_on_demand_pte_te.Histogram.Gather.{
  total, column, Sized, Merged, merge_slots-Merged, column-inc_slot, Sized-inc_slot,
  length-inc_slot,
}

-- The arrays have the size that the histogram says, and `cumulative_nevents` counts the events of
-- the cumulative array.
pub record WellFormed (h : Histogram) : Type 0 where
  pub room : 0 < h.array_size
  pub cumulative : length h.cumulative_array ≡ h.array_size
  pub temp : length h.temp_array ≡ h.array_size
  pub slots : Sized h.interm_slots h.array_size
  pub number : length h.interm_slots ≡ nslots
  pub events : h.cumulative_nevents ≡ u64 (total h.cumulative_array)

-- The events of bucket `i`, gathered or not.
unfoldable pub counted : Histogram → ℕ → ℕ
unfolding column
counted h i = get_or h.cumulative_array i 0 + column h.interm_slots i

pub clamp_index-inside : (i : ℤ) (size : ℕ) → 0 < size → clamp_index i size < size
unfolding clamp_index
clamp_index-inside (negsuc n) size h = h
clamp_index-inside (pos n) size h = ground arith

pub get_or-replicate : (n i : ℕ) → get_or {A = ℕ} (replicate n 0) i 0 ≡ 0
get_or-replicate zero i = refl
get_or-replicate (suc n) zero = refl
get_or-replicate (suc n) (suc i) = get_or-replicate n i

pub total-replicate : (n : ℕ) → total (replicate n 0) ≡ 0
unfolding total
total-replicate zero = refl
total-replicate (suc n) = omega (arith, total-replicate n)

pub length-clear_slot : (xs : List ℕ) → length (clear_slot xs) ≡ length xs
unfolding clear_slot
length-clear_slot [] = refl
length-clear_slot (x ∷ xs) = omega (arith, length-clear_slot xs)

get_or-clear_slot : (xs : List ℕ) (i : ℕ) → get_or (clear_slot xs) i 0 ≡ 0
unfolding clear_slot
get_or-clear_slot [] i = refl
get_or-clear_slot (x ∷ xs) zero = refl
get_or-clear_slot (x ∷ xs) (suc i) = get_or-clear_slot xs i

pub Sized-clear_slots :
    (slots : List (List ℕ)) (size : ℕ) → Sized slots size → Sized (clear_slots slots) size
unfolding Sized clear_slots
Sized-clear_slots [] size s = s
Sized-clear_slots (slot ∷ slots) size s =
    (omega (arith, length-clear_slot slot, s.0), Sized-clear_slots slots size s.1)

pub length-clear_slots : (slots : List (List ℕ)) → length (clear_slots slots) ≡ length slots
unfolding clear_slots
length-clear_slots [] = refl
length-clear_slots (slot ∷ slots) = omega (arith, length-clear_slots slots)

pub column-clear_slots : (slots : List (List ℕ)) (i : ℕ) → column (clear_slots slots) i ≡ 0
unfolding column clear_slots
column-clear_slots [] i = refl
column-clear_slots (slot ∷ slots) i =
    omega (arith, get_or-clear_slot slot i, column-clear_slots slots i)

-- An update of a well-formed histogram keeps it well formed and counts one more event, modulo
-- 2^64, in the bucket of the clamped index, whichever slot is drawn, and in no other.
pub sb_histogram_update-counted :
    (h : Histogram) (random : ℕ) (index : ℤ)
    → WellFormed h
    → WellFormed (sb_histogram_update h random index)
      × ((i : ℕ)
          → u64 (counted (sb_histogram_update h random index) i)
            ≡ u64 (counted h i + (if clamp_index index h.array_size == i then 1 else 0)))
unfolding sb_histogram_update counted
sb_histogram_update-counted h random index w =
    let slot = random % nslots in
    let bucket = clamp_index index h.array_size in
    (
      record {
        room = w.room;
        cumulative = w.cumulative;
        temp = w.temp;
        slots = Sized-inc_slot h.interm_slots slot bucket h.array_size w.slots;
        number = omega (arith, length-inc_slot h.interm_slots slot bucket, w.number);
        events = w.events;
      },
      λ i. omega (
        arith,
        column-inc_slot h.interm_slots slot bucket i h.array_size w.slots (omega (arith, w.number))
            (clamp_index-inside index h.array_size w.room),
      ),
    )

-- `h'` holds the events of `h`, all of them gathered.
pub record Gathered (h h' : Histogram) : Type 0 where
  pub formed : WellFormed h'
  pub counts : (i : ℕ) → u64 (get_or h'.cumulative_array i 0) ≡ u64 (counted h i)
  pub emptied : (i : ℕ) → column h'.interm_slots i ≡ 0

pub all_slots-Merged :
    (h : Histogram)
    → WellFormed h
    → Merged h.interm_slots h.cumulative_array h.cumulative_nevents
        (merge_slots h.interm_slots h.cumulative_array h.cumulative_nevents)
all_slots-Merged h w =
    merge_slots-Merged h.interm_slots h.cumulative_array h.cumulative_nevents
      (subst (λ n. Sized h.interm_slots n) (sym w.cumulative) w.slots) (omega (arith, w.events))

pub merge_intermediate_into_cumulative-Gathered :
    (h : Histogram) → WellFormed h → Gathered h (merge_intermediate_into_cumulative h)
unfolding merge_intermediate_into_cumulative counted
merge_intermediate_into_cumulative-Gathered h w =
    let m = all_slots-Merged h w in
    record {
      formed = record {
        room = w.room;
        cumulative = omega (arith, m.size, w.cumulative);
        temp = w.temp;
        slots = Sized-clear_slots h.interm_slots h.array_size w.slots;
        number = omega (arith, length-clear_slots h.interm_slots, w.number);
        events = omega (arith, m.events, m.sum, w.events);
      };
      counts = λ i. m.counts i;
      emptied = λ i. column-clear_slots h.interm_slots i;
    }

Sized-replicate : (n size : ℕ) → Sized (replicate n (replicate size 0)) size
unfolding Sized
Sized-replicate zero size = tt
Sized-replicate (suc n) size = (length-replicate size 0, Sized-replicate n size)

-- A histogram that is initialised, in memory that was cleared, is well formed.
pub sb_histogram_init-WellFormed :
    (h : Histogram) (size : ℕ)
    → 0 < size
    → h.cumulative_nevents ≡ 0
    → WellFormed (sb_histogram_init h size)
unfolding sb_histogram_init
sb_histogram_init-WellFormed h size room e = record {
  room = room;
  cumulative = length-replicate size 0;
  temp = length-replicate size 0;
  slots = Sized-replicate nslots size;
  number = length-replicate {A = List ℕ} nslots (replicate size 0);
  events = omega (arith, e, total-replicate size);
}
