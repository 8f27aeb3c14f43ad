-- ===== src/Counter/Sums.antt =====
-- The arrays of the counters: their sums over the threads, what an addition and a merge do to them,
-- and a checkpoint at one index.
use bits_on_demand_pte_te.Prelude.{
  ℕ, zero, suc, ◌+◌, ◌-◌, ◌%◌, ◌^◌, ◌<◌, ◌≡◌, refl, ap, List, [], ◌∷◌, ◌==◌, if◌then◌else◌, arith,
  false, true, some, ltb, ltb_of_lt,
}
use bits_on_demand_pte_te.Prelude.Lists.{
  length, get_or, set, replicate, length-set, length-replicate,
}
use bits_on_demand_pte_te.Counter.{
  u64, CounterType, other, read, write, event, error, reconnect, bytes_read, bytes_written, index,
  cnt_max, Counters, merge_threads, sb_counters_merge, sb_counters_init, sb_alloc_per_thread_array,
  sb_counters_checkpoint,
}

-- The sum over the first `threads` arrays of the counter at `t`.
unfoldable pub summed : (threads : ℕ) → List (List ℕ) → ℕ → ℕ
summed zero rows t = 0
summed (suc threads) [] t = 0
summed (suc threads) (row ∷ rows) t = get_or row t 0 + summed threads rows t

unfoldable pub Rows : List (List ℕ) → Type 0
Rows [] = Unit
Rows (row ∷ rows) = (length row ≡ cnt_max) × Rows rows

-- There is an array for each thread and one more, and every array has its `cnt_max` words.
pub record Formed (c : Counters) : Type 0 where
  pub slots : length c.sb_counters ≡ c.threads + 1
  pub rows : Rows c.sb_counters
  pub intermediate : length c.last_intermediate_counters ≡ cnt_max
  pub cumulative : length c.last_cumulative_counters ≡ cnt_max

Rows-replicate : (n : ℕ) → Rows (replicate n (replicate cnt_max 0))
unfolding Rows
Rows-replicate zero = tt
Rows-replicate (suc n) = (refl, Rows-replicate n)

-- The counters are formed from the start, if the number of the arrays does not wrap.
pub sb_counters_init-Formed :
    (threads : ℕ)
    → threads + 1 < 2 ^ 32
    → (c : Counters) × (sb_counters_init true threads ≡ some c) × (c.threads ≡ threads) × Formed c
unfolding sb_counters_init sb_alloc_per_thread_array
sb_counters_init-Formed threads h =
    let places = (threads + 1) % 2 ^ 32 in
    let long : length (replicate {A = List ℕ} places (replicate {A = ℕ} cnt_max 0)) ≡ places =
      length-replicate {A = List ℕ} places (replicate {A = ℕ} cnt_max 0) in
    (
      record {
        threads = threads;
        sb_counters = replicate places (replicate cnt_max 0);
        last_intermediate_counters = replicate cnt_max 0;
        last_cumulative_counters = replicate cnt_max 0;
      },
      refl,
      refl,
      record {
        slots = omega (arith, long, h);
        rows = Rows-replicate places;
        intermediate = refl;
        cumulative = refl;
      },
    )

pub index-inside : (type : CounterType) → index type < cnt_max
index-inside other = omega arith
index-inside read = omega arith
index-inside write = omega arith
index-inside event = omega arith
index-inside error = omega arith
index-inside reconnect = omega arith
index-inside bytes_read = omega arith
index-inside bytes_written = omega arith

ltb-zero : (i : ℕ) → ltb i 0 ≡ false
ltb-zero i = ground arith

ltb-suc : (i j : ℕ) → ltb (suc i) (suc j) ≡ ltb i j
ltb-suc i j = ground arith

suc-suc : (i j : ℕ) → (suc i == suc j) ≡ (i == j)
suc-suc i j = ground arith

add_at :
    (row : List ℕ) (i t v : ℕ)
    → i < length row
    → u64 (get_or (set row i (u64 (get_or row i 0 + v))) t 0)
      ≡ u64 (get_or row t 0 + (if i == t then v else 0))
add_at [] i t v h = absurd (omega arith)
add_at (x ∷ row) zero zero v h = omega arith
add_at (x ∷ row) zero (suc t) v h = ground arith
add_at (x ∷ row) (suc i) zero v h = ground arith
add_at (x ∷ row) (suc i) (suc t) v h = rw (suc-suc i t) (add_at row i t v (omega arith))

pub summed-add :
    (n : ℕ) (rows : List (List ℕ)) (thread i t v : ℕ)
    → Rows rows
    → thread < length rows
    → i < cnt_max
    → u64 (
        summed n
          (set rows thread
            (set (get_or rows thread []) i (u64 (get_or (get_or rows thread []) i 0 + v))))
          t)
      ≡ u64 (summed n rows t + (if ltb thread n then (if i == t then v else 0) else 0))
unfolding summed Rows
summed-add n [] thread i t v r h b = absurd (omega arith)
summed-add zero (row ∷ rows) thread i t v r h b = rw (ltb-zero thread) refl
summed-add (suc n) (row ∷ rows) zero i t v r h b =
    rw (ltb_of_lt 0 (suc n) (omega arith)) (omega (arith, add_at row i t v (omega (arith, r.0))))
summed-add (suc n) (row ∷ rows) (suc thread) i t v r h b =
    rw (ltb-suc thread n) (omega (arith, summed-add n rows thread i t v r.1 (omega arith) b))

pub Rows-add :
    (rows : List (List ℕ)) (thread i v : ℕ)
    → Rows rows
    → Rows (set rows thread (set (get_or rows thread []) i v))
unfolding Rows
Rows-add [] thread i v r = r
Rows-add (row ∷ rows) zero i v r = (omega (arith, length-set row i v, r.0), r.1)
Rows-add (row ∷ rows) (suc thread) i v r = (r.0, Rows-add rows thread i v r.1)

merge_threads-summed :
    (k : ℕ) (rows : List (List ℕ)) (t d : ℕ)
    → d < 2 ^ 64
    → merge_threads k rows t d ≡ u64 (d + summed k rows t)
unfolding merge_threads summed
merge_threads-summed zero rows t d h = omega arith
merge_threads-summed (suc k) [] t d h = omega arith
merge_threads-summed (suc k) (row ∷ rows) t d h =
    omega (arith, merge_threads-summed k rows t (u64 (d + get_or row t 0)) (omega arith))

get_or-sb_counters_merge :
    (k : ℕ) (rows : List (List ℕ)) (n s t : ℕ)
    → t < n
    → get_or (sb_counters_merge k rows (replicate n 0) s) t 0 ≡ u64 (summed k rows (s + t))
unfolding sb_counters_merge
get_or-sb_counters_merge k rows zero s t h = absurd (omega arith)
get_or-sb_counters_merge k rows (suc n) s zero h =
    let here : s ≡ s + 0 = omega arith in
    omega (arith, merge_threads-summed k rows s 0 (omega arith), ap (λ j. summed k rows j) here)
get_or-sb_counters_merge k rows (suc n) s (suc t) h =
    let here : suc s + t ≡ s + suc t = omega arith in
    omega (
      arith,
      get_or-sb_counters_merge k rows n (suc s) t (omega arith),
      ap (λ j. summed k rows j) here,
    )

pub merged-at :
    (k : ℕ) (rows : List (List ℕ)) (t : ℕ)
    → t < cnt_max
    → get_or (sb_counters_merge k rows (replicate cnt_max 0) 0) t 0 ≡ u64 (summed k rows t)
merged-at k rows t h =
    let here : 0 + t ≡ t = omega arith in
    omega (arith, get_or-sb_counters_merge k rows cnt_max 0 t h, ap (λ j. summed k rows j) here)

pub length-sb_counters_merge :
    (k : ℕ) (rows : List (List ℕ)) (dst : List ℕ) (s : ℕ)
    → length (sb_counters_merge k rows dst s) ≡ length dst
unfolding sb_counters_merge
length-sb_counters_merge k rows [] s = refl
length-sb_counters_merge k rows (d ∷ dst) s =
    omega (arith, length-sb_counters_merge k rows dst (suc s))

-- The two results of a checkpoint, at one index.
pub checkpoint-at :
    (dst cp : List ℕ) (t : ℕ)
    → length dst ≡ length cp
    → t < length dst
    → (get_or (sb_counters_checkpoint dst cp).0 t 0
        ≡ u64 (get_or dst t 0 + (2 ^ 64 - get_or cp t 0 % 2 ^ 64)))
      × (get_or (sb_counters_checkpoint dst cp).1 t 0 ≡ get_or dst t 0)
unfolding sb_counters_checkpoint
checkpoint-at [] cp t e h = absurd (omega arith)
checkpoint-at (d ∷ dst) [] t e h = absurd (omega arith)
checkpoint-at (d ∷ dst) (c ∷ cp) zero e h = (refl, refl)
checkpoint-at (d ∷ dst) (c ∷ cp) (suc t) e h = checkpoint-at dst cp t (omega arith) (omega arith)

pub length-checkpoint :
    (dst cp : List ℕ)
    → length dst ≡ length cp
    → length (sb_counters_checkpoint dst cp).1 ≡ length cp
unfolding sb_counters_checkpoint
length-checkpoint [] cp e = refl
length-checkpoint (d ∷ dst) [] e = refl
length-checkpoint (d ∷ dst) (c ∷ cp) e = omega (arith, length-checkpoint dst cp (omega arith))
