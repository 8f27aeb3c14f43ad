-- ===== src/Barrier/Tally.antt =====
-- Counting the callers of a barrier by what they are doing.
use bits_on_demand_pte_te.Prelude.{
  ℕ, zero, suc, ◌+◌, ◌≤◌, ◌≡◌, refl, ◌==◌, ltb, if◌then◌else◌, List, [], ◌∷◌, arith,
}
use bits_on_demand_pte_te.Prelude.Lists.{length, replicate}
use bits_on_demand_pte_te.Pte.Machine.{pos, negsuc}
unfoldable pub use bits_on_demand_pte_te.Prelude.Tally.{tally}
pub use bits_on_demand_pte_te.Prelude.Tally.{tally-set}
use bits_on_demand_pte_te.Barrier.{Caller, ready, waiting, returned}

-- 1 for a caller that has called.
unfoldable pub called : Caller → ℕ
called ready = 0
called (waiting serial) = 1
called (returned r) = 1

-- 1 for a caller that has its result.
unfoldable pub answered : Caller → ℕ
answered ready = 0
answered (waiting serial) = 0
answered (returned r) = 1

-- 1 for a caller that has the result of the serial thread.
unfoldable pub leads : Caller → ℕ
leads ready = 0
leads (waiting serial) = 0
leads (returned (pos n)) = if n == 1 then 1 else 0
leads (returned (negsuc n)) = 0

-- 1 for a caller that has a negative result.
unfoldable pub fails : Caller → ℕ
fails ready = 0
fails (waiting serial) = 0
fails (returned (pos n)) = 0
fails (returned (negsuc n)) = 1

-- 1 for a caller that waits in the round `k`, and in a later one.
unfoldable pub waits_in : ℕ → Caller → ℕ
waits_in k ready = 0
waits_in k (waiting serial) = if serial == k then 1 else 0
waits_in k (returned r) = 0

unfoldable pub waits_after : ℕ → Caller → ℕ
waits_after k ready = 0
waits_after k (waiting serial) = if ltb k serial then 1 else 0
waits_after k (returned r) = 0

pub tally_mono :
    (f g : Caller → ℕ) (cs : List Caller) → ((c : Caller) → f c ≤ g c) → tally f cs ≤ tally g cs
unfolding tally
tally_mono f g [] h = omega arith
tally_mono f g (c ∷ cs) h = omega (arith, h c, tally_mono f g cs h)

pub tally-add :
    (f g h : Caller → ℕ) (cs : List Caller)
    → ((c : Caller) → f c + g c ≤ h c)
    → tally f cs + tally g cs ≤ tally h cs
unfolding tally
tally-add f g h [] e = omega arith
tally-add f g h (c ∷ cs) e = omega (arith, e c, tally-add f g h cs e)

pub tally-ready : (f : Caller → ℕ) (n : ℕ) → f ready ≡ 0 → tally f (replicate n ready) ≡ 0
unfolding tally
tally-ready f zero e = refl
tally-ready f (suc n) e = omega (arith, e, tally-ready f n e)

pub tally-length :
    (f : Caller → ℕ) (cs : List Caller) → ((c : Caller) → f c ≤ 1) → tally f cs ≤ length cs
unfolding tally
tally-length f [] h = omega arith
tally-length f (c ∷ cs) h = omega (arith, h c, tally-length f cs h)

pub called-le : (c : Caller) → called c ≤ 1
unfolding called
called-le ready = omega arith
called-le (waiting serial) = omega arith
called-le (returned r) = omega arith

pub waits_in-after : (k : ℕ) (c : Caller) → waits_in (suc k) c ≤ waits_after k c
unfolding waits_in waits_after
waits_in-after k ready = omega arith
waits_in-after k (waiting serial) = ground arith
waits_in-after k (returned r) = omega arith

pub waits_after-after : (k : ℕ) (c : Caller) → waits_after (suc k) c ≤ waits_after k c
unfolding waits_after
waits_after-after k ready = omega arith
waits_after-after k (waiting serial) = ground arith
waits_after-after k (returned r) = omega arith

pub answered-waits : (k : ℕ) (c : Caller) → answered c + waits_in k c ≤ called c
unfolding answered waits_in called
answered-waits k ready = omega arith
answered-waits k (waiting serial) = ground arith
answered-waits k (returned r) = omega arith
