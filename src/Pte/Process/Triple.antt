-- ===== src/Pte/Process/Triple.antt =====
-- Total correctness of a process: it goes on, in a state that meets a postcondition.
use bits_on_demand_pte_te.Pte.Machine.{State}
use bits_on_demand_pte_te.Pte.Process.{Outcome, done, exited, Proc, and_then}

pub data Passes {K A : Type 0} (P : A → State K → Type 0) : Outcome K A → Type 0 where
  passes : {a : A} {s : State K} → P a s → Passes P (done a s)

-- A process that ends by `exit(EXIT_FAILURE)`.
pub data Exits {K A : Type 0} : Outcome K A → Type 0 where
  exits : {s : State K} → Exits (exited s)

pub Exits-bind :
    {K A B : Type 0} {P : A → State K → Type 0} {r : Outcome K A} {k : A → Proc K B}
    → Passes P r
    → ((a : A) (s : State K) → P a s → Exits (k a s))
    → Exits (and_then r k)
Exits-bind (passes p) next = next _ _ p

pub and_then-Exits :
    {K A B : Type 0} {r : Outcome K A} (k : A → Proc K B) → Exits r → Exits (and_then r k)
and_then-Exits k exits = exits

module _ {K A : Type 0} {P : A → State K → Type 0} where
  pub bind :
      {B : Type 0} {Q : B → State K → Type 0} {r : Outcome K A} {k : A → Proc K B}
      → Passes P r
      → ((a : A) (s : State K) → P a s → Passes Q (k a s))
      → Passes Q (and_then r k)
  bind (passes p) next = next _ _ p

  pub mono :
      {Q : A → State K → Type 0} {r : Outcome K A}
      → Passes P r
      → ((a : A) (s : State K) → P a s → Q a s)
      → Passes Q r
  mono (passes p) weaken = passes (weaken _ _ p)
