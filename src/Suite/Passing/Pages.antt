-- ===== src/Suite/Passing/Pages.antt =====
-- The runs of test5/test5.c under the contract, for four pages under one page table.
use bits_on_demand_pte_te.Prelude.{
  ℕ, zero, suc, ◌+◌, ◌*◌, ◌/◌, ◌^◌, ◌≤◌, ◌<◌, ◌≡◌, ◌≢◌, refl, subst, ◌∙◌, Bool, true, false, some,
  arith, ==-refl, dec_lt, inl,
}
use bits_on_demand_pte_te.Prelude.Words.{to_bytes, length-to_bytes}
use bits_on_demand_pte_te.Pte.Machine.{State, Machine}
use bits_on_demand_pte_te.Pte.Process.{fill_loop}
use bits_on_demand_pte_te.Pte.Process.Triple.{Passes, passes, bind, mono}
use bits_on_demand_pte_te.Pte.Process.Pattern.{
  Pattern, fill_lem, fill_loop-Pattern, Pattern-fill_loop,
}
use bits_on_demand_pte_te.Pte.Contract.{View, Contract}
use bits_on_demand_pte_te.Pte.Contract.Calls.{
  Ready, enable-Passes, disable-Passes, set-Passes, get-ReadNumber, verify-Passes, Kept-Ready,
}
use bits_on_demand_pte_te.Pte.Contract.Frame.{Succeeds, release-Passes}
use native.Mathlib.Nat.{add-mul-div_right, mul-le-mul_right}
use bits_on_demand_pte_te.Suite.Pages.{
  num_pages, page_value, page_at, fill_pages, verify_pages, set_pages, get_pages,
  test_multiple_pages, test5,
}

page_value-lt : (i : ℕ) → i < num_pages → page_value i < 256 ^ 8
page_value-lt zero h = omega arith
page_value-lt (suc zero) h = omega arith
page_value-lt (suc (suc zero)) h = omega arith
page_value-lt (suc (suc (suc zero))) h = omega arith
page_value-lt (suc (suc (suc (suc i)))) h = absurd (omega arith)

-- Distinct pages do not overlap, and have distinct page numbers.
page_at-apart : (b ps i j : ℕ) → i < j → page_at b ps i + ps ≤ page_at b ps j
page_at-apart b ps i j h = omega (arith, mul-le-mul_right ps h)

page_at-zero : (b ps : ℕ) → page_at b ps 0 ≡ b
page_at-zero b ps = omega arith

page_number : (b ps i : ℕ) → 0 < ps → page_at b ps i / ps ≡ b / ps + i
page_number b ps i h = add-mul-div_right b i h

page_number-ne : (b ps i j : ℕ) → 0 < ps → i ≢ j → page_at b ps i / ps ≢ page_at b ps j / ps
page_number-ne b ps i j h ne e = ne (omega (arith, page_number b ps i h, page_number b ps j h))

-- The first `k` pages hold their patterns; all of them do.
abbrev pub Patterns : ℕ → ℕ → ℕ → (ℕ → ℕ) → Type 0
Patterns b ps k mem = (j : ℕ) → j < k → Pattern mem (page_at b ps j) ps

module _ {m : Machine} {v : View m} (c : Contract v) (b : ℕ) where
  abbrev PagesReady : ℕ → Bool → State m.Kern → Type 0
  PagesReady k e s = Ready v (Patterns b m.page_size k) b e s

  fill_pages-Passes :
      (n i : ℕ) {s : State m.Kern} {e : Bool}
      → PagesReady i e s
      → Passes (λ _ t. PagesReady (n + i) e t) (fill_pages m n i b m.page_size s)
  unfolding fill_pages
  fill_pages-Passes zero i r =
      passes (record { memory = λ j h. r.memory j (omega arith); expanded = r.expanded })
  fill_pages-Passes (suc n) i {s} {e} r = rw fill_lem (
      mono (fill_pages-Passes n (i + 1) next)
        λ _ t q. record { memory = λ j h. q.memory j (omega arith); expanded = q.expanded })
    where
      next :
          PagesReady
            (i + 1)
            e
            (record s { mem = fill_loop m.page_size 0 (page_at b m.page_size i) s.mem })
      next = record {
        memory = λ j h. elim (dec_lt j i) [
          | yes old ↦
              Pattern-fill_loop m.page_size (page_at b m.page_size i) m.page_size
                (page_at b m.page_size j) s.mem (inl (page_at-apart b m.page_size j i old))
                (r.memory j old)
          | no new ↦
              let same : i ≡ j = omega arith in
              subst
                (λ (k : ℕ).
                  Pattern (fill_loop m.page_size 0 (page_at b m.page_size i) s.mem)
                    (page_at b m.page_size k) m.page_size)
                same (fill_loop-Pattern m.page_size (page_at b m.page_size i) s.mem)
        ];
        expanded = r.expanded;
      }

  verify_pages-Passes :
      (n i : ℕ) {s : State m.Kern} {e : Bool}
      → n + i ≤ num_pages
      → PagesReady num_pages e s
      → Passes (λ _ t. PagesReady num_pages e t × (t ≡ s)) (verify_pages m n i b m.page_size s)
  unfolding verify_pages
  verify_pages-Passes zero i h r = passes (r, refl)
  verify_pages-Passes (suc n) i h r =
      bind (verify-Passes c b (page_at b m.page_size i) m.page_size (λ mem p. p i (omega arith)) r)
        λ _ t q. mono (verify_pages-Passes n (i + 1) (omega arith) q.0) λ _ u p. (p.0, p.1 ∙ q.1)

  -- Page `i` has the metadata that the program gives it, for the first `k` pages.
  abbrev StoredPages : ℕ → State m.Kern → Type 0
  StoredPages k s =
      (j : ℕ)
      → j < k
      → v.stored s.kern (page_at b m.page_size j / m.page_size) ≡ some (to_bytes 8 (page_value j))

  module _
      (together : (i : ℕ) → i < num_pages → v.table (page_at b m.page_size i) ≡ v.table b) where
    at_page :
        (i : ℕ) {s : State m.Kern}
        → i < num_pages
        → PagesReady num_pages true s
        → Ready v (Patterns b m.page_size num_pages) (page_at b m.page_size i) true s
    at_page i h r = record { memory = r.memory; expanded = rw (together i h) r.expanded }

    at_base :
        (i : ℕ) {s : State m.Kern}
        → i < num_pages
        → Ready v (Patterns b m.page_size num_pages) (page_at b m.page_size i) true s
        → PagesReady num_pages true s
    at_base i h r = record { memory = r.memory; expanded = rw (together i h) at r.expanded }

    set_pages-Passes :
        (n i : ℕ) {s : State m.Kern}
        → n + i ≤ num_pages
        → PagesReady num_pages true s
        → StoredPages i s
        → Passes
            (λ _ t. PagesReady num_pages true t × StoredPages (n + i) t)
            (set_pages m n i b m.page_size s)
    unfolding set_pages
    set_pages-Passes zero i h r q = passes (r, λ j l. q j (omega arith))
    set_pages-Passes (suc n) i h r q =
        bind
          (set-Passes c (page_at b m.page_size i) 0 _ (c.accepted_direct _ (length-to_bytes 8 _))
            (at_page i (omega arith) r))
          λ _ t r₁.
            bind
              (verify-Passes c (page_at b m.page_size i) (page_at b m.page_size i) m.page_size
                (λ mem p. p i (omega arith)) r₁.0)
              λ _ u r₂.
                mono
                  (set_pages-Passes n (i + 1) (omega arith) (at_base i (omega arith) r₂.0) (λ j l.
                    rw r₂.1 (elim (dec_lt j i) [
                      | yes old ↦
                          r₁.2 _ (page_number-ne b m.page_size j i c.page_size_pos (omega arith))
                          ∙ q j old
                      | no new ↦
                          let same : i ≡ j = omega arith in
                          subst
                            (λ (k : ℕ).
                              v.stored t.kern (page_at b m.page_size k / m.page_size)
                              ≡ some (to_bytes 8 (page_value k)))
                            same r₁.1
                    ])))
                  λ _ w o. (o.0, λ j l. o.1 j (omega arith))

    get_pages-Passes :
        (n i : ℕ) {s : State m.Kern}
        → n + i ≤ num_pages
        → PagesReady num_pages true s
        → StoredPages num_pages s
        → Passes (λ _ t. PagesReady num_pages true t) (get_pages m n i b m.page_size s)
    unfolding get_pages
    get_pages-Passes zero i h r q = passes r
    get_pages-Passes (suc n) i h r q =
        let g =
          get-ReadNumber c (page_at b m.page_size i) (page_value i) (m.garbage 8)
            (page_value-lt i (omega arith)) (omega (arith, c.garbage_length 8)) (q i (omega arith))
            (at_page i (omega arith) r) in
        rw (g.result, g.value, ==-refl (page_value i))
          (bind
            (verify-Passes c b (page_at b m.page_size i) m.page_size (λ mem p. p i (omega arith))
              (Kept-Ready g.kept r))
            λ _ u r₂. get_pages-Passes n (i + 1) (omega arith) r₂.0 (rw (r₂.1, g.kept.stored) q))

    test_multiple_pages-Passes :
        {s : State m.Kern}
        → PagesReady num_pages false s
        → Passes (λ _ t. PagesReady num_pages true t) (test_multiple_pages m b m.page_size s)
    unfolding test_multiple_pages
    test_multiple_pages-Passes r = rw (page_at-zero b m.page_size) (
        bind (enable-Passes c b r) λ _ t r₁.
          bind (set_pages-Passes num_pages 0 (omega arith) r₁ (λ j l. absurd (omega arith)))
            λ _ u q. get_pages-Passes num_pages 0 (omega arith) q.0 q.1)

-- `posix_memalign` gives four pages at `b`, under one page table, which is not expanded.
pub record AllocatesPages {m : Machine} (v : View m) (s : State m.Kern) (b : ℕ) : Type 0 where
  pub address : (m.posix_memalign m.page_size (m.page_size * num_pages) s).0 ≡ some b
  pub collapsed :
      v.expanded (m.posix_memalign m.page_size (m.page_size * num_pages) s).1.kern (v.table b)
      ≡ false
  pub together : (i : ℕ) → i < num_pages → v.table (page_at b m.page_size i) ≡ v.table b

-- On any machine that keeps the contract, test5 goes through and returns 0, with the page table of
-- its pages not expanded at the end, if the allocation succeeds with four pages under one page
-- table that is not expanded.
pub test5-Passes :
    {m : Machine} {v : View m} (c : Contract v) {b : ℕ} {s : State m.Kern}
    → AllocatesPages v s b
    → Passes (Succeeds v b) (test5 m s)
unfolding test5
test5-Passes {m} {v} c {b} {s} al =
    rw (al.address, page_at-zero b m.page_size)
      (bind (fill_pages-Passes c b num_pages 0 locked) λ _ t r.
        bind (verify_pages-Passes c b num_pages 0 (omega arith) r) λ _ u r₂.
          bind (test_multiple_pages-Passes c b al.together r₂.0) λ _ w r₃.
            bind (disable-Passes c b r₃) λ _ x r₄.
              bind (verify_pages-Passes c b num_pages 0 (omega arith) r₄)
                λ _ y r₅. release-Passes c (m.page_size * num_pages) r₅.0)
  where
    after : State m.Kern
    after = (m.posix_memalign m.page_size (m.page_size * num_pages) s).1

    locked : Ready v (Patterns b m.page_size 0) b false (m.mlock b (m.page_size * num_pages) after)
    locked = record {
      memory = λ j h. absurd (omega arith);
      expanded = rw (c.mlock_kept b (m.page_size * num_pages) after).expanded al.collapsed;
    }
