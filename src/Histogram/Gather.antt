-- ===== src/Histogram/Gather.antt =====
-- What gathering the slots does to the count of a bucket: the events of a bucket are those in the
-- cumulative array and those in the slots, and the counters wrap at 2^64.
use bits_on_demand_pte_te.Prelude.{
  ℕ, zero, suc, ◌+◌, ◌^◌, ◌≤◌, ◌<◌, ◌≡◌, refl, sym, subst, List, [], ◌∷◌, ◌==◌, if◌then◌else◌,
  arith,
}
use bits_on_demand_pte_te.Prelude.Lists.{length, get_or}
use bits_on_demand_pte_te.Histogram.{u64, inc_at, inc_slot, merge_slot, merge_slots}

unfoldable pub total : List ℕ → ℕ
total [] = 0
total (x ∷ xs) = x + total xs

-- The events of a bucket in the slots.
unfoldable pub column : List (List ℕ) → ℕ → ℕ
column [] i = 0
column (slot ∷ slots) i = get_or slot i 0 + column slots i

unfoldable pub totals : List (List ℕ) → ℕ
unfolding total
totals [] = 0
totals (slot ∷ slots) = total slot + totals slots

-- Every slot has a counter for each bucket.
unfoldable pub Sized : List (List ℕ) → ℕ → Type 0
Sized [] size = Unit
Sized (slot ∷ slots) size = (length slot ≡ size) × Sized slots size

pub length-inc_at : (xs : List ℕ) (i : ℕ) → length (inc_at xs i) ≡ length xs
unfolding inc_at
length-inc_at [] i = refl
length-inc_at (x ∷ xs) zero = refl
length-inc_at (x ∷ xs) (suc i) = omega (arith, length-inc_at xs i)

suc-suc : (i j : ℕ) → (suc i == suc j) ≡ (i == j)
suc-suc i j = ground arith

get_or-inc_at :
    (xs : List ℕ) (i j : ℕ)
    → i < length xs
    → u64 (get_or (inc_at xs i) j 0) ≡ u64 (get_or xs j 0 + (if i == j then 1 else 0))
unfolding inc_at
get_or-inc_at [] i j h = absurd (omega arith)
get_or-inc_at (x ∷ xs) zero zero h = omega arith
get_or-inc_at (x ∷ xs) zero (suc j) h = ground arith
get_or-inc_at (x ∷ xs) (suc i) zero h = ground arith
get_or-inc_at (x ∷ xs) (suc i) (suc j) h = rw (suc-suc i j) (get_or-inc_at xs i j (omega arith))

pub column-inc_slot :
    (slots : List (List ℕ)) (slot i j size : ℕ)
    → Sized slots size
    → slot < length slots
    → i < size
    → u64 (column (inc_slot slots slot i) j) ≡ u64 (column slots j + (if i == j then 1 else 0))
unfolding inc_slot column Sized
column-inc_slot [] slot i j size s h b = absurd (omega arith)
column-inc_slot (xs ∷ xss) zero i j size s h b =
    omega (arith, get_or-inc_at xs i j (omega (arith, s.0)))
column-inc_slot (xs ∷ xss) (suc slot) i j size s h b =
    omega (arith, column-inc_slot xss slot i j size s.1 (omega arith) b)

pub Sized-inc_slot :
    (slots : List (List ℕ)) (slot i size : ℕ)
    → Sized slots size
    → Sized (inc_slot slots slot i) size
unfolding inc_slot Sized
Sized-inc_slot [] slot i size s = s
Sized-inc_slot (xs ∷ xss) zero i size s = (omega (arith, length-inc_at xs i, s.0), s.1)
Sized-inc_slot (xs ∷ xss) (suc slot) i size s = (s.0, Sized-inc_slot xss slot i size s.1)

pub length-inc_slot :
    (slots : List (List ℕ)) (slot i : ℕ) → length (inc_slot slots slot i) ≡ length slots
unfolding inc_slot
length-inc_slot [] slot i = refl
length-inc_slot (xs ∷ xss) zero i = refl
length-inc_slot (xs ∷ xss) (suc slot) i = omega (arith, length-inc_slot xss slot i)

pub length-merge_slot :
    (slot array : List ℕ) (n : ℕ) → length (merge_slot slot array n).0 ≡ length array
unfolding merge_slot
length-merge_slot [] array n = refl
length-merge_slot (t ∷ slot) [] n = refl
length-merge_slot (t ∷ slot) (a ∷ array) n =
    omega (arith, length-merge_slot slot array (u64 (n + t)))

pub get_or-merge_slot :
    (slot array : List ℕ) (n i : ℕ)
    → length slot ≡ length array
    → u64 (get_or (merge_slot slot array n).0 i 0) ≡ u64 (get_or array i 0 + get_or slot i 0)
unfolding merge_slot
get_or-merge_slot [] array n i h = omega arith
get_or-merge_slot (t ∷ slot) [] n i h = absurd (omega arith)
get_or-merge_slot (t ∷ slot) (a ∷ array) n zero h = omega arith
get_or-merge_slot (t ∷ slot) (a ∷ array) n (suc i) h =
    get_or-merge_slot slot array (u64 (n + t)) i (omega arith)

pub total-merge_slot :
    (slot array : List ℕ) (n : ℕ)
    → length slot ≡ length array
    → (u64 (total (merge_slot slot array n).0) ≡ u64 (total array + total slot))
      × (total (merge_slot slot array n).0 ≤ total array + total slot)
unfolding merge_slot total
total-merge_slot [] array n h = (omega arith, omega arith)
total-merge_slot (t ∷ slot) [] n h = absurd (omega arith)
total-merge_slot (t ∷ slot) (a ∷ array) n h =
    let rest = total-merge_slot slot array (u64 (n + t)) (omega arith) in
    (omega (arith, rest.0), omega (arith, rest.1))

pub events-merge_slot :
    (slot array : List ℕ) (n : ℕ)
    → length slot ≡ length array
    → n < 2 ^ 64
    → (merge_slot slot array n).1 ≡ u64 (n + total slot)
unfolding merge_slot total
events-merge_slot [] array n h b = omega arith
events-merge_slot (t ∷ slot) [] n h b = absurd (omega arith)
events-merge_slot (t ∷ slot) (a ∷ array) n h b =
    omega (arith, events-merge_slot slot array (u64 (n + t)) (omega arith) (omega arith))

-- What `merge_slots` gives for an array and a number of events.
pub record Merged (slots : List (List ℕ)) (array : List ℕ) (n : ℕ) (result : List ℕ × ℕ)
    : Type 0 where
  pub size : length result.0 ≡ length array
  pub counts : (i : ℕ) → u64 (get_or result.0 i 0) ≡ u64 (get_or array i 0 + column slots i)
  pub sum : u64 (total result.0) ≡ u64 (total array + totals slots)
  pub small : total result.0 ≤ total array + totals slots
  pub events : result.1 ≡ u64 (n + totals slots)

pub merge_slots-Merged :
    (slots : List (List ℕ)) (array : List ℕ) (n : ℕ)
    → Sized slots (length array)
    → n < 2 ^ 64
    → Merged slots array n (merge_slots slots array n)
unfolding merge_slots Sized column totals
merge_slots-Merged [] array n s b = record {
  size = refl;
  counts = λ i. omega arith;
  sum = omega arith;
  small = omega arith;
  events = omega arith;
}
merge_slots-Merged (slot ∷ slots) array n s b =
    let first = merge_slot slot array n in
    let events = events-merge_slot slot array n s.0 b in
    let long = length-merge_slot slot array n in
    let total_of = total-merge_slot slot array n s.0 in
    let rest =
      merge_slots-Merged slots first.0 first.1 (subst (λ m. Sized slots m) (sym long) s.1)
        (omega (arith, events)) in
    record {
      size = omega (arith, rest.size, long);
      counts = λ i. omega (arith, rest.counts i, get_or-merge_slot slot array n i s.0);
      sum = omega (arith, rest.sum, total_of.0);
      small = omega (arith, rest.small, total_of.1);
      events = omega (arith, rest.events, events);
    }
