-- ===== src/Histogram/Percentile.antt =====
-- The search for a percentile: the first bucket at which the running total of the events reaches
-- a rank.
use bits_on_demand_pte_te.Prelude.{
  ℕ, zero, suc, ◌+◌, ◌^◌, ◌≤◌, ◌<◌, ◌≡◌, sym, subst, List, [], ◌∷◌, leb, arith, Bool-cases, inl,
  inr,
}
use bits_on_demand_pte_te.Prelude.Lists.{length, take}
use bits_on_demand_pte_te.Histogram.{u64, percentile_loop}
use bits_on_demand_pte_te.Histogram.Gather.{total}

-- Bucket `k` is the first one with which the counts add up to `nmax` events.
pub record Reaches (array : List ℕ) (nmax k : ℕ) : Type 0 where
  pub inside : k < length array
  pub before : (m : ℕ) → m < k → total (take (suc m) array) < nmax
  pub reached : nmax ≤ total (take (suc k) array)

-- The loop from index `i`, with `ncur` events before it.
record Ends (array : List ℕ) (nmax ncur i k : ℕ) : Type 0 where
  steps : ℕ
  at : k ≡ i + steps
  inside : steps < length array
  before : (m : ℕ) → m < steps → ncur + total (take (suc m) array) < nmax
  reached : nmax ≤ ncur + total (take (suc steps) array)

before-suc :
    (a : ℕ) (array : List ℕ) (nmax ncur steps : ℕ)
    → u64 (ncur + a) ≡ ncur + a
    → ncur + a < nmax
    → ((m : ℕ) → m < steps → u64 (ncur + a) + total (take (suc m) array) < nmax)
    → (m : ℕ) → m < suc steps
    → ncur + total (take (suc m) (a ∷ array)) < nmax
unfolding total
before-suc a array nmax ncur steps word above rest zero l = omega arith
before-suc a array nmax ncur steps word above rest (suc m) l =
    omega (arith, word, rest m (omega arith))

percentile_loop-Ends :
    (array : List ℕ) (nmax ncur i : ℕ)
    → 0 < length array
    → ncur + total array < 2 ^ 64
    → nmax ≤ ncur + total array
    → Ends array nmax ncur i (percentile_loop array nmax ncur i)
unfolding percentile_loop total
percentile_loop-Ends [] nmax ncur i e b h = absurd (omega arith)
percentile_loop-Ends (a ∷ []) nmax ncur i e b h = record {
  steps = 0;
  at = ground arith;
  inside = omega arith;
  before = λ m l. absurd (omega arith);
  reached = omega arith;
}
percentile_loop-Ends (a ∷ c ∷ array) nmax ncur i e b h =
    let word : u64 (ncur + a) ≡ ncur + a = omega arith in
    elim (Bool-cases (leb nmax (u64 (ncur + a)))) [
      | inl here ↦ record {
        steps = 0;
        at = rw here (omega arith);
        inside = omega arith;
        before = λ m l. absurd (omega arith);
        reached = ground (arith, word, here);
      }
      | inr above ↦
          let rest =
            percentile_loop-Ends (c ∷ array) nmax (u64 (ncur + a)) (i + 1) (omega arith)
              (omega arith) (omega arith) in
          record {
            steps = suc rest.steps;
            at = rw above (omega (arith, rest.at));
            inside = omega (arith, rest.inside);
            before =
                before-suc a (c ∷ array) nmax ncur rest.steps word (ground (arith, word, above))
                  rest.before;
            reached = omega (arith, word, rest.reached);
          }
    ]

-- If the array is not empty and its counts add up to less than 2^64 and to `nmax` at least, the
-- loop stops at the first bucket with which they add up to `nmax`.
pub percentile_loop-Reaches :
    (array : List ℕ) (nmax : ℕ)
    → 0 < length array
    → total array < 2 ^ 64
    → nmax ≤ total array
    → Reaches array nmax (percentile_loop array nmax 0 0)
percentile_loop-Reaches array nmax e b h =
    let ends = percentile_loop-Ends array nmax 0 0 e (omega (arith, b)) (omega (arith, h)) in
    let here : percentile_loop array nmax 0 0 ≡ ends.steps = omega (arith, ends.at) in
    record {
      inside = omega (arith, here, ends.inside);
      before = λ m l. omega (arith, ends.before m (omega (arith, here)));
      reached =
          subst (λ k. nmax ≤ total (take (suc k) array)) (sym here) (omega (arith, ends.reached));
    }
