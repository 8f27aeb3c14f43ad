-- ===== src/Suite/Passing/Errors.antt =====
-- The runs of test4/test4.c, test6/test6.c and test7/test7.c under the contract.
use bits_on_demand_pte_te.Prelude.{ℕ, zero, suc, ◌≡◌, ap, true, false, arith}
use bits_on_demand_pte_te.Pte.Machine.{State, Machine, is_neg, is_zero, ℤ}
use bits_on_demand_pte_te.Pte.Process.Triple.{Passes, passes, bind, mono}
use bits_on_demand_pte_te.Pte.Contract.{View, Contract, Allocates}
use bits_on_demand_pte_te.Pte.Contract.Calls.{
  enable-Passes, disable-Passes, verify-Passes, Kept-Ready,
}
use bits_on_demand_pte_te.Pte.Contract.Frame.{
  PageReady, Succeeds, unchecked-Passes, checked-Passes, end-Passes,
}
use bits_on_demand_pte_te.Suite.Errors.{
  is_enodata, is_einval, is_eexist, test_get_without_expansion, test4, test_enable_disable_cycle,
  test_double_enable_error, test6, test_disable_without_enable, test7,
}

zero_of_neg : (r : ℤ) → is_neg r ≡ true → is_zero r ≡ false
zero_of_neg r h = ground arith

module _ {m : Machine} {v : View m} (c : Contract v) {b : ℕ} {s : State m.Kern} where
  test_get_without_expansion-Passes :
      PageReady v b false s
      → Passes (λ _ t. PageReady v b false t) (test_get_without_expansion m b m.page_size s)
  unfolding test_get_without_expansion
  test_get_without_expansion-Passes r =
      let w = c.get_collapsed b (m.garbage 8) s r.expanded in
      rw (zero_of_neg _ w.negative, w.negative, ap is_enodata w.errno)
        (mono (verify-Passes c b b m.page_size (λ mem p. p) (Kept-Ready w.kept r)) λ _ t h. h.0)

  test_disable_without_enable-Passes :
      PageReady v b false s
      → Passes (λ _ t. PageReady v b false t) (test_disable_without_enable m b m.page_size s)
  unfolding test_disable_without_enable
  test_disable_without_enable-Passes r =
      let w = c.disable_collapsed b s r.expanded in
      rw (zero_of_neg _ w.negative, w.negative, ap is_einval w.errno)
        (mono (verify-Passes c b b m.page_size (λ mem p. p) (Kept-Ready w.kept r)) λ _ t h. h.0)

  test_double_enable_error-Passes :
      PageReady v b false s
      → Passes (λ _ t. PageReady v b false t) (test_double_enable_error m b m.page_size s)
  unfolding test_double_enable_error
  test_double_enable_error-Passes r = bind (enable-Passes c b r) λ _ t r₁.
      let w = c.enable_expanded b t r₁.expanded in
      rw (zero_of_neg _ w.negative, ap is_eexist w.errno)
        (bind (verify-Passes c b b m.page_size (λ mem p. p) (Kept-Ready w.kept r₁))
          λ _ u r₂. disable-Passes c b r₂.0)

test_enable_disable_cycle-Passes :
    {m : Machine} {v : View m} (c : Contract v) {b : ℕ} (cycles : ℕ) {s : State m.Kern}
    → PageReady v b false s
    → Passes (λ _ t. PageReady v b false t) (test_enable_disable_cycle m cycles b m.page_size s)
unfolding test_enable_disable_cycle
test_enable_disable_cycle-Passes c zero r = passes r
test_enable_disable_cycle-Passes {m} c {b} (suc cycles) r = bind (enable-Passes c b r) λ _ t r₁.
    bind (verify-Passes c b b m.page_size (λ mem p. p) r₁) λ _ u r₂.
      bind (disable-Passes c b r₂.0) λ _ w r₃.
        bind (verify-Passes c b b m.page_size (λ mem p. p) r₃)
          λ _ x r₄. test_enable_disable_cycle-Passes c cycles r₄.0

module _ {m : Machine} {v : View m} (c : Contract v) {b : ℕ} {s : State m.Kern} where
  -- On any machine that keeps the contract, test4, which reads metadata before any enabling, goes
  -- through and returns 0, with the page table of its page not expanded, if the allocation
  -- succeeds with a page whose table is not expanded.
  pub test4-Passes : Allocates v m.page_size s b → Passes (Succeeds v b) (test4 m s)
  unfolding test4
  test4-Passes al =
      unchecked-Passes c _ al
        λ t r. bind (test_get_without_expansion-Passes c r) λ _ u q. end-Passes c q

  -- On any machine that keeps the contract, test6, with its three cycles and its second enabling
  -- call, goes through and returns 0, with the page table of its page not expanded at the end, if
  -- the allocation succeeds with a page whose table is not expanded.
  pub test6-Passes : Allocates v m.page_size s b → Passes (Succeeds v b) (test6 m s)
  unfolding test6
  test6-Passes al = unchecked-Passes c _ al λ t r.
      bind (test_enable_disable_cycle-Passes c 3 r) λ _ u q.
        bind (test_double_enable_error-Passes c q)
          λ _ w p. bind (verify-Passes c b b m.page_size (λ mem h. h) p) λ _ x h. end-Passes c h.0

  -- On any machine that keeps the contract, test7, which disables what was never enabled, goes
  -- through and returns 0, with the page table of its page not expanded, if the allocation
  -- succeeds with a page whose table is not expanded.
  pub test7-Passes : Allocates v m.page_size s b → Passes (Succeeds v b) (test7 m s)
  unfolding test7
  test7-Passes al = checked-Passes c _ al λ t r.
      bind (test_disable_without_enable-Passes c r)
        λ _ u q. bind (verify-Passes c b b m.page_size (λ mem h. h) q) λ _ x h. end-Passes c h.0
