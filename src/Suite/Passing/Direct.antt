-- ===== src/Suite/Passing/Direct.antt =====
-- The runs of test1/test1.c and test2/test2.c under the contract.
use bits_on_demand_pte_te.Prelude.{ℕ, true, false, arith}
use bits_on_demand_pte_te.Prelude.Words.{length-to_bytes}
use bits_on_demand_pte_te.Pte.Machine.{State, Machine}
use bits_on_demand_pte_te.Pte.Process.Triple.{Passes, passes, bind}
use bits_on_demand_pte_te.Pte.Contract.{View, Contract, Allocates}
use bits_on_demand_pte_te.Pte.Contract.Calls.{
  enable-Passes, disable-Passes, set-Passes, get-ReadNumber, verify-Passes, Kept-Ready,
}
use bits_on_demand_pte_te.Pte.Contract.Frame.{PageReady, Succeeds, unchecked-Passes, end-Passes}
use bits_on_demand_pte_te.Suite.Basic.{test1}
use bits_on_demand_pte_te.Suite.Direct.{meta_value_direct, test_mdp0, test2}

module _ {m : Machine} {v : View m} (c : Contract v) {b : ℕ} {s : State m.Kern} where
  test_mdp0-Passes :
      PageReady v b false s → Passes (λ _ t. PageReady v b true t) (test_mdp0 m b m.page_size s)
  unfolding test_mdp0
  test_mdp0-Passes r = bind (enable-Passes c b r) λ _ t r₁.
      bind (set-Passes c b 0 _ (c.accepted_direct _ (length-to_bytes 8 _)) r₁) λ _ u r₂.
        bind (verify-Passes c b b m.page_size (λ mem p. p) r₂.0) λ _ w r₃.
          let g =
            get-ReadNumber c b meta_value_direct (m.garbage 8) (omega arith)
              (omega (arith, c.garbage_length 8)) (rw r₃.1 r₂.1) r₃.0 in
          rw (g.result, g.value) (passes (Kept-Ready g.kept r₃.0))

module _ {m : Machine} {v : View m} (c : Contract v) {b : ℕ} {s : State m.Kern} where
  -- On any machine that keeps the contract, test1 goes through and returns 0, with the page table
  -- of its page not expanded at the end, if the allocation succeeds with a page whose table is not
  -- expanded.
  pub test1-Passes : Allocates v m.page_size s b → Passes (Succeeds v b) (test1 m s)
  unfolding test1
  test1-Passes al = unchecked-Passes c _ al λ t r. end-Passes c r

  -- On any machine that keeps the contract, test2 goes through and returns 0, with the page table
  -- of its page not expanded at the end, if the allocation succeeds with a page whose table is not
  -- expanded.
  pub test2-Passes : Allocates v m.page_size s b → Passes (Succeeds v b) (test2 m s)
  unfolding test2
  test2-Passes al = unchecked-Passes c _ al λ t r. bind (test_mdp0-Passes c r) λ _ u q.
      bind (disable-Passes c b q)
        λ _ w p. bind (verify-Passes c b b m.page_size (λ mem h. h) p) λ _ x h. end-Passes c h.0
