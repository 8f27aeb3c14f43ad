-- ===== src/Suite/Examples.antt =====
-- The theorems about the test programs at the sample machine.
use bits_on_demand_pte_te.Prelude.{◌≡◌, ◌↔◌, refl, Bool, true, false, arith}
use bits_on_demand_pte_te.Pte.Machine.{State}
use bits_on_demand_pte_te.Pte.Process.{done}
use bits_on_demand_pte_te.Pte.Process.Triple.{Passes}
use bits_on_demand_pte_te.Pte.Contract.{Allocates}
use bits_on_demand_pte_te.Pte.Contract.Frame.{Succeeds}
use bits_on_demand_pte_te.Suite.Reference.{
  Tables, sample_address, sample_machine, sample_view, sample_state, sample-Contract,
}
use bits_on_demand_pte_te.Suite.Detection.{Confirmed, was_read, test_mdp0-done_iff}
use bits_on_demand_pte_te.Suite.Direct.{test_mdp0}
use bits_on_demand_pte_te.Suite.Pages.{test5}
use bits_on_demand_pte_te.Suite.Update.{test8}
use bits_on_demand_pte_te.Suite.Passing.Pages.{AllocatesPages, test5-Passes}
use bits_on_demand_pte_te.Suite.Passing.Update.{SetExpands, test8-Passes}

allocates : (lazily : Bool) → Allocates (sample_view lazily) 4096 sample_state sample_address
allocates lazily = record { address = refl; collapsed = refl }

allocates_pages : AllocatesPages (sample_view false) sample_state sample_address
allocates_pages = record { address = refl; collapsed = refl; together = λ i h. omega arith }

expands : SetExpands (sample_view true)
expands a mdp bytes s ok h = rw h (refl, refl, ground arith, ground arith)

test5_example :
    Passes (Succeeds (sample_view false) sample_address) (test5 (sample_machine false) sample_state)
test5_example = test5-Passes (sample-Contract false) allocates_pages

test8_example :
    Passes (Succeeds (sample_view true) sample_address) (test8 (sample_machine true) sample_state)
test8_example = test8-Passes (sample-Contract true) expands (allocates true)

-- The state after the three calls.
abbrev read_state : State Tables
read_state = (was_read (sample_machine false) sample_address sample_state).2

test_mdp0-done_iff_example :
    (test_mdp0 (sample_machine false) sample_address 4096 sample_state ≡ done tt read_state)
    ↔ Confirmed (sample_machine false) sample_address sample_state 4096 read_state
test_mdp0-done_iff_example = test_mdp0-done_iff
