-- ===== src/Counter/Intervals.antt =====
-- The reports of sb_counter.c and the values that were added between them.
use bits_on_demand_pte_te.Prelude.{
  ℕ, ◌+◌, ◌-◌, ◌^◌, ◌≤◌, ◌<◌, ltb, ◌≡◌, refl, sym, ap, subst, ◌∙◌, List, [], ◌∷◌, ◌==◌,
  if◌then◌else◌, arith,
}
use bits_on_demand_pte_te.Prelude.Lists.{length, get_or, replicate, length-set}
use bits_on_demand_pte_te.Counter.{
  u64, CounterType, index, cnt_max, Counters, sb_counter_val, sb_counter_add, sb_counters_merge,
  sb_counters_checkpoint, sb_counters_agg_intermediate, sb_counters_agg_cumulative,
}
use bits_on_demand_pte_te.Counter.Sums.{
  summed, Rows, Formed, index-inside, summed-add, Rows-add, merged-at, length-sb_counters_merge,
  checkpoint-at, length-checkpoint,
}

-- What happens to the counters between two reports of one kind.
pub data Event : Type 0 where
  adds : (thread_id : ℕ) (type : CounterType) (val : ℕ) → Event
  reports : Event

-- `report` is the report of the other kind.
unfoldable pub happen : (report : Counters → Counters) → Counters → List Event → Counters
happen report c [] = c
happen report c (adds thread_id type val ∷ es) =
    happen report (sb_counter_add c thread_id type val) es
happen report c (reports ∷ es) = happen report (report c) es

-- What the events of the first `threads` threads add to the counters at `t`.
unfoldable pub added : (threads : ℕ) → List Event → ℕ → ℕ
added threads [] t = 0
added threads (adds thread_id type val ∷ es) t =
    (if ltb thread_id threads then (if index type == t then val else 0) else 0) + added threads es t
added threads (reports ∷ es) t = added threads es t

-- The threads that add are among the `threads`, or they are the background threads, behind them.
unfoldable pub Known : (threads : ℕ) → List Event → Type 0
Known threads [] = Unit
Known threads (adds thread_id type val ∷ es) = (thread_id ≤ threads) × Known threads es
Known threads (reports ∷ es) = Known threads es

module _ (report : Counters → Counters)
    (keeps : (c : Counters) → (report c).sb_counters ≡ c.sb_counters) where
  happen-summed :
      (n : ℕ) (c : Counters) (es : List Event) (t : ℕ)
      → Rows c.sb_counters
      → length c.sb_counters ≡ n + 1
      → Known n es
      → (u64 (summed n (happen report c es).sb_counters t)
          ≡ u64 (summed n c.sb_counters t + added n es t))
        × Rows (happen report c es).sb_counters
  unfolding happen added Known sb_counter_add sb_counter_val
  happen-summed n c [] t r l k = (omega arith, r)
  happen-summed n c (adds thread_id type val ∷ es) t r l k =
      let c' = sb_counter_add c thread_id type val in
      let size : length c'.sb_counters ≡ length c.sb_counters =
        length-set c.sb_counters thread_id _ in
      let rest =
        happen-summed n c' es t (Rows-add c.sb_counters thread_id (index type) _ r) (size ∙ l)
          k.1 in
      (
        omega (
          arith,
          rest.0,
          summed-add n c.sb_counters thread_id (index type) t val r (omega (arith, k.0, l))
              (index-inside type),
        ),
        rest.1,
      )
  happen-summed n c (reports ∷ es) t r l k =
      let same = sym (keeps c) in
      let rest =
        happen-summed n (report c) es t (subst (λ rows. Rows rows) same r)
          (ap (λ rows. length rows) (sym same) ∙ l) k in
      (omega (arith, rest.0, ap (λ rows. summed n rows t) same), rest.1)

  module _ {A : Type 0} (last : Counters → A)
      (adding : (c : Counters) (i : ℕ) (type : CounterType) (v : ℕ)
        → last (sb_counter_add c i type v) ≡ last c)
      (reporting : (c : Counters) → last (report c) ≡ last c) where
    happen-last : (c : Counters) (es : List Event) → last (happen report c es) ≡ last c
    unfolding happen
    happen-last c [] = refl
    happen-last c (adds thread_id type val ∷ es) =
        happen-last (sb_counter_add c thread_id type val) es ∙ adding c thread_id type val
    happen-last c (reports ∷ es) = happen-last (report c) es ∙ reporting c

-- A report at the sums `rows` after one at the sums `before`.
difference :
    (k : ℕ) (rows before : List (List ℕ)) (cp : List ℕ) (t : ℕ)
    → length cp ≡ cnt_max
    → t < cnt_max
    → get_or cp t 0 ≡ u64 (summed k before t)
    → get_or (sb_counters_checkpoint (sb_counters_merge k rows (replicate cnt_max 0) 0) cp).0 t 0
      ≡ u64 (u64 (summed k rows t) + (2 ^ 64 - u64 (summed k before t)))
difference k rows before cp t l h e =
    let long = length-sb_counters_merge k rows (replicate cnt_max 0) 0 in
    omega (
      arith,
      (checkpoint-at (sb_counters_merge k rows (replicate cnt_max 0) 0) cp t
          (omega (arith, long, l)) (omega (arith, long))).0,
      merged-at k rows t h,
      e,
    )

-- What a report leaves for the next one.
noted :
    (k : ℕ) (rows : List (List ℕ)) (cp : List ℕ) (t : ℕ)
    → length cp ≡ cnt_max
    → t < cnt_max
    → (get_or (sb_counters_checkpoint (sb_counters_merge k rows (replicate cnt_max 0) 0) cp).1 t 0
        ≡ u64 (summed k rows t))
      × (length (sb_counters_checkpoint (sb_counters_merge k rows (replicate cnt_max 0) 0) cp).1
          ≡ cnt_max)
noted k rows cp t l h =
    let long = length-sb_counters_merge k rows (replicate cnt_max 0) 0 in
    (
      omega (
        arith,
        (checkpoint-at (sb_counters_merge k rows (replicate cnt_max 0) 0) cp t
            (omega (arith, long, l)) (omega (arith, long))).1,
        merged-at k rows t h,
      ),
      omega (
        arith,
        length-checkpoint (sb_counters_merge k rows (replicate cnt_max 0) 0) cp
            (omega (arith, long, l)),
        l,
      ),
    )

unfoldable pub after_intermediate : Counters → Counters
unfolding sb_counters_agg_intermediate
after_intermediate c = (sb_counters_agg_intermediate c).1

unfoldable pub after_cumulative : Counters → Counters
unfolding sb_counters_agg_cumulative
after_cumulative c = (sb_counters_agg_cumulative c).1

-- An intermediate report gives, for each type, the sum modulo 2^64 of what the threads added since
-- the intermediate report before it, whatever cumulative reports came between; what the background
-- threads added is left out. The arrays have their sizes, with one array for each thread and one for
-- the background threads, and no other thread adds.
pub sb_counters_agg_intermediate-added :
    (c : Counters) (es : List Event) (t : ℕ)
    → Formed c
    → Known c.threads es
    → t < cnt_max
    → get_or
        (sb_counters_agg_intermediate (happen after_cumulative (after_intermediate c) es)).0
        t
        0
      ≡ u64 (added c.threads es t)
unfolding sb_counters_agg_intermediate after_intermediate after_cumulative
    sb_counters_agg_cumulative sb_counter_add
sb_counters_agg_intermediate-added c es t f k h =
    let c' = after_intermediate c in
    let e = happen after_cumulative c' es in
    let note = noted c.threads c.sb_counters c.last_intermediate_counters t f.intermediate h in
    let last : e.last_intermediate_counters ≡ c'.last_intermediate_counters =
      happen-last after_cumulative (λ x. refl) (λ x. x.last_intermediate_counters)
        (λ x i type v. refl) (λ x. refl) c' es in
    let threads : e.threads ≡ c.threads =
      happen-last after_cumulative (λ x. refl) (λ x. x.threads) (λ x i type v. refl) (λ x. refl) c'
        es in
    omega (
      arith,
      ap
          (λ k.
            get_or
              (sb_counters_checkpoint (sb_counters_merge k e.sb_counters (replicate cnt_max 0) 0)
                e.last_intermediate_counters).0
              t 0)
          threads,
      difference c.threads e.sb_counters c.sb_counters e.last_intermediate_counters t
          (ap (λ l. length l) last ∙ note.1) h (ap (λ l. get_or l t 0) last ∙ note.0),
      (happen-summed after_cumulative (λ x. refl) c.threads c' es t f.rows f.slots k).0,
    )

-- A cumulative report gives, for each type, the sum modulo 2^64 of what the threads added since
-- the cumulative report before it, whatever intermediate reports came between; what the background
-- threads added is left out. The arrays have their sizes, with one array for each thread and one for
-- the background threads, and no other thread adds.
pub sb_counters_agg_cumulative-added :
    (c : Counters) (es : List Event) (t : ℕ)
    → Formed c
    → Known c.threads es
    → t < cnt_max
    → get_or (sb_counters_agg_cumulative (happen after_intermediate (after_cumulative c) es)).0 t 0
      ≡ u64 (added c.threads es t)
unfolding sb_counters_agg_cumulative after_intermediate after_cumulative
    sb_counters_agg_intermediate sb_counter_add
sb_counters_agg_cumulative-added c es t f k h =
    let c' = after_cumulative c in
    let e = happen after_intermediate c' es in
    let note = noted c.threads c.sb_counters c.last_cumulative_counters t f.cumulative h in
    let last : e.last_cumulative_counters ≡ c'.last_cumulative_counters =
      happen-last after_intermediate (λ x. refl) (λ x. x.last_cumulative_counters)
        (λ x i type v. refl) (λ x. refl) c' es in
    let threads : e.threads ≡ c.threads =
      happen-last after_intermediate (λ x. refl) (λ x. x.threads) (λ x i type v. refl) (λ x. refl)
        c' es in
    omega (
      arith,
      ap
          (λ k.
            get_or
              (sb_counters_checkpoint (sb_counters_merge k e.sb_counters (replicate cnt_max 0) 0)
                e.last_cumulative_counters).0
              t 0)
          threads,
      difference c.threads e.sb_counters c.sb_counters e.last_cumulative_counters t
          (ap (λ l. length l) last ∙ note.1) h (ap (λ l. get_or l t 0) last ∙ note.0),
      (happen-summed after_intermediate (λ x. refl) c.threads c' es t f.rows f.slots k).0,
    )
