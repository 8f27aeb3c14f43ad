-- ===== src/Suite/Passing/Update.antt =====
-- The runs of test8/test8.c under the contract.
use bits_on_demand_pte_te.Prelude.{ℕ, ◌/◌, ◌≡◌, true, false, some, List, arith}
use bits_on_demand_pte_te.Prelude.Lists.{length}
use bits_on_demand_pte_te.Prelude.Words.{to_bytes, length-to_bytes}
use bits_on_demand_pte_te.Pte.Machine.{State, Machine, pos, sys_set_pte_meta}
use bits_on_demand_pte_te.Pte.Process.{call_or_die_3}
use bits_on_demand_pte_te.Pte.Process.Triple.{Passes, passes, bind}
use bits_on_demand_pte_te.Pte.Contract.{View, Contract, Allocates}
use bits_on_demand_pte_te.Pte.Contract.Calls.{
  disable-Passes, set-Passes, get-ReadNumber, verify-Passes, Kept-Ready,
}
use bits_on_demand_pte_te.Pte.Contract.Frame.{PageReady, Succeeds, checked-Passes, end-Passes}
use bits_on_demand_pte_te.Suite.Update.{first_meta, second_meta, test_timing_comparison, test8}

-- The kernel expands the page table at the first setting of metadata.
abbrev pub SetExpands : {m : Machine} → View m → Type 0
SetExpands {m} v =
    (a mdp : ℕ) (bytes : List ℕ) (s : State m.Kern)
    → v.accepted mdp bytes ≡ true
    → (v.expanded s.kern (v.table a) ≡ false)
    → ((m.syscall_set sys_set_pte_meta a mdp bytes s).0 ≡ pos 0)
      × ((m.syscall_set sys_set_pte_meta a mdp bytes s).1.mem ≡ s.mem)
      × (v.expanded (m.syscall_set sys_set_pte_meta a mdp bytes s).1.kern (v.table a) ≡ true)
      × (v.stored (m.syscall_set sys_set_pte_meta a mdp bytes s).1.kern (a / m.page_size)
          ≡ some bytes)

module _ {m : Machine} {v : View m} (c : Contract v) {b : ℕ} {s : State m.Kern} where
  first-Passes :
      SetExpands v
      → (bytes : List ℕ) → length bytes ≡ 8
      → PageReady v b false s
      → Passes
          (λ _ t. PageReady v b true t × (v.stored t.kern (b / m.page_size) ≡ some bytes))
          (call_or_die_3 m sys_set_pte_meta b 0 bytes s)
  unfolding call_or_die_3
  first-Passes expands bytes size r =
      let w = expands b 0 bytes s (c.accepted_direct bytes size) r.expanded in
      rw w.0 (passes (record { memory = rw w.1 r.memory; expanded = w.2 }, w.3))

  test_timing_comparison-Passes :
      SetExpands v
      → PageReady v b false s
      → Passes (λ _ t. PageReady v b true t) (test_timing_comparison m b m.page_size s)
  unfolding test_timing_comparison
  test_timing_comparison-Passes expands r =
      bind (first-Passes expands (to_bytes 8 first_meta) (length-to_bytes 8 _) r) λ _ t r₁.
        bind (verify-Passes c b b m.page_size (λ mem h. h) r₁.0) λ _ u r₂.
          let g =
            get-ReadNumber c b first_meta (m.garbage 8) (omega arith)
              (omega (arith, c.garbage_length 8)) (rw r₂.1 r₁.1) r₂.0 in
          rw (g.result, g.value)
            (bind
              (set-Passes c b 0 _ (c.accepted_direct _ (length-to_bytes 8 _))
                (Kept-Ready g.kept r₂.0))
              λ _ w r₃. bind (verify-Passes c b b m.page_size (λ mem h. h) r₃.0) λ _ x r₄.
                let k =
                  get-ReadNumber c b second_meta g.got (omega arith) g.size (rw r₄.1 r₃.1) r₄.0 in
                rw (k.result, k.value) (passes (Kept-Ready k.kept r₄.0)))

module _ {m : Machine} {v : View m} (c : Contract v) {b : ℕ} {s : State m.Kern} where
  -- On any machine that keeps the contract and expands the page table at the first setting of
  -- metadata, test8 goes through and returns 0, with the page table of its page not expanded at
  -- the end, if the allocation succeeds with a page whose table is not expanded.
  pub test8-Passes : SetExpands v → Allocates v m.page_size s b → Passes (Succeeds v b) (test8 m s)
  unfolding test8
  test8-Passes expands al = checked-Passes c _ al λ t r.
      bind (test_timing_comparison-Passes c expands r) λ _ u q.
        bind (disable-Passes c b q)
          λ _ w p. bind (verify-Passes c b b m.page_size (λ mem h. h) p) λ _ x h. end-Passes c h.0
