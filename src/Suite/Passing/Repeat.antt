-- ===== src/Suite/Passing/Repeat.antt =====
-- The runs of test9/test9.c under the contract.
use bits_on_demand_pte_te.Prelude.{ℕ, zero, suc, ◌+◌, ◌^◌, ◌<◌, true, arith, ==-refl}
use bits_on_demand_pte_te.Prelude.Words.{length-to_bytes}
use bits_on_demand_pte_te.Pte.Machine.{State, Machine}
use bits_on_demand_pte_te.Pte.Process.Triple.{Passes, passes, bind}
use bits_on_demand_pte_te.Pte.Contract.{View, Contract, Allocates}
use bits_on_demand_pte_te.Pte.Contract.Calls.{
  enable-Passes, disable-Passes, set-Passes, get-ReadNumber, verify-Passes, Kept-Ready,
}
use bits_on_demand_pte_te.Pte.Contract.Frame.{PageReady, Succeeds, checked-Passes, end-Passes}
use bits_on_demand_pte_te.Suite.Repeat.{iterations, meta_value, set_get_loop, test9}

meta_value-lt : (i : ℕ) → meta_value i < 256 ^ 8
meta_value-lt i = omega arith

-- Every round of the loop reads back what it has set.
set_get_loop-Passes :
    {m : Machine} {v : View m} (c : Contract v) {b : ℕ} (n i : ℕ) {s : State m.Kern}
    → PageReady v b true s
    → Passes (λ _ t. PageReady v b true t) (set_get_loop m n i b s)
unfolding set_get_loop
set_get_loop-Passes c zero i r = passes r
set_get_loop-Passes {m} c {b} (suc n) i r =
    bind (set-Passes c b 0 _ (c.accepted_direct _ (length-to_bytes 8 _)) r) λ _ u r₂.
      let g =
        get-ReadNumber c b (meta_value i) (m.garbage 8) (meta_value-lt i)
          (omega (arith, c.garbage_length 8)) r₂.1 r₂.0 in
      rw (g.result, g.value, ==-refl (meta_value i))
        (set_get_loop-Passes c n (i + 1) (Kept-Ready g.kept r₂.0))

-- On any machine that keeps the contract, test9 goes through its 10000 rounds and returns 0, with
-- the page table of its page not expanded at the end, if the allocation succeeds with a page whose
-- table is not expanded.
pub test9-Passes :
    {m : Machine} {v : View m} (c : Contract v) {b : ℕ} {s : State m.Kern}
    → Allocates v m.page_size s b
    → Passes (Succeeds v b) (test9 m s)
unfolding test9
test9-Passes {m} c {b} al = checked-Passes c _ al λ t r. bind (enable-Passes c b r) λ _ u q.
    bind (set_get_loop-Passes c iterations 0 q) λ _ w p.
      bind (disable-Passes c b p)
        λ _ x o. bind (verify-Passes c b b m.page_size (λ mem h. h) o) λ _ y h. end-Passes c h.0
