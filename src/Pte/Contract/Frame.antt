-- ===== src/Pte/Contract/Frame.antt =====
-- The frame that the test programs share: a page is allocated, locked, filled and checked, and
-- given back at the end.
use bits_on_demand_pte_te.Prelude.{ℕ, ◌≡◌, refl, Bool, false}
use bits_on_demand_pte_te.Pte.Machine.{State, Machine}
use bits_on_demand_pte_te.Pte.Process.{
  Proc, pure, modify, returning, unchecked, checked, ◌>>=◌, ◌>>◌, fill, verify_pattern,
}
use bits_on_demand_pte_te.Pte.Process.Pattern.{Pattern}
use bits_on_demand_pte_te.Pte.Process.Triple.{Passes, passes, bind, Exits, Exits-bind}
use bits_on_demand_pte_te.Pte.Contract.{View, Contract, Allocates}
use bits_on_demand_pte_te.Pte.Contract.Calls.{Ready, fill-Passes, verify-Passes}

-- The page at `b` holds its pattern, and its table is expanded (`e`).
abbrev pub PageReady : {m : Machine} → View m → ℕ → Bool → State m.Kern → Type 0
PageReady {m} v b e s = Ready v (λ mem. Pattern mem b m.page_size) b e s

-- The program returns 0, and leaves the page table of `b` as it was at first.
abbrev pub Succeeds : {m : Machine} → View m → ℕ → ℕ → State m.Kern → Type 0
Succeeds v b code t = (code ≡ 0) × (v.expanded t.kern (v.table b) ≡ false)

module _ {m : Machine} {v : View m} (c : Contract v) {s : State m.Kern} {b : ℕ} where
  locked-Ready :
      Allocates v m.page_size s b
      → Ready v
          (λ _. Unit {0})
          b
          false
          (m.mlock b m.page_size (m.posix_memalign m.page_size m.page_size s).1)
  locked-Ready al = record {
    memory = tt;
    expanded = rw (c.mlock_kept b m.page_size _).expanded al.collapsed;
  }

  module _ {Q : ℕ → State m.Kern → Type 0} (k : ℕ → Proc m.Kern ℕ)
      (al : Allocates v m.page_size s b)
      (next : (t : State m.Kern) → PageReady v b false t → Passes Q (k b t)) where
    begin-Passes : Passes Q (
        (do modify (m.mlock b m.page_size); fill b m.page_size; verify_pattern b m.page_size; k b)
          (m.posix_memalign m.page_size m.page_size s).1)
    begin-Passes =
        bind (fill-Passes c b m.page_size (locked-Ready al))
          λ _ t r. bind (verify-Passes c b b m.page_size (λ mem p. p) r) λ _ u q. next u q.0

    pub unchecked-Passes : Passes Q (
        (do
          a ← returning (m.posix_memalign m.page_size m.page_size)
          buf ← unchecked a
          modify (m.mlock buf m.page_size)
          fill buf m.page_size
          verify_pattern buf m.page_size
          k buf)
          s)
    unchecked-Passes = rw al.address begin-Passes

    pub checked-Passes : Passes Q (
        (do
          a ← returning (m.posix_memalign m.page_size m.page_size)
          buf ← checked a
          modify (m.mlock buf m.page_size)
          fill buf m.page_size
          verify_pattern buf m.page_size
          k buf)
          s)
    checked-Passes = rw al.address begin-Passes

  -- A program that fails behind its frame fails.
  pub checked-Exits :
      (k : ℕ → Proc m.Kern ℕ)
      → Allocates v m.page_size s b
      → ((t : State m.Kern) → PageReady v b false t → Exits (k b t))
      → Exits (
          (do
            a ← returning (m.posix_memalign m.page_size m.page_size)
            buf ← checked a
            modify (m.mlock buf m.page_size)
            fill buf m.page_size
            verify_pattern buf m.page_size
            k buf)
            s)
  checked-Exits k al next = rw al.address (
      Exits-bind (fill-Passes c b m.page_size (locked-Ready al))
        λ _ t r. Exits-bind (verify-Passes c b b m.page_size (λ mem p. p) r) λ _ u q. next u q.0)

  pub release-Passes :
      {M : (ℕ → ℕ) → Type 0} (n : ℕ)
      → Ready v M b false s
      → Passes (Succeeds v b) ((do modify (m.munlock b n); modify (m.free b); pure 0) s)
  release-Passes n r =
      passes (refl, rw (c.free_expanded b _) (rw (c.munlock_kept b n s).expanded r.expanded))

  pub end-Passes :
      PageReady v b false s
      → Passes (Succeeds v b) ((do modify (m.munlock b m.page_size); modify (m.free b); pure 0) s)
  end-Passes r = release-Passes m.page_size r
