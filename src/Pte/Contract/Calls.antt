-- ===== src/Pte/Contract/Calls.antt =====
-- The functions of a test program on a machine that keeps the contract. `Ready M b e` says of a
-- state that memory has the property `M` and that the table of address `b` is expanded (`e`).
use bits_on_demand_pte_te.Prelude.{
  ℕ, ◌/◌, ◌≤◌, ◌<◌, ◌^◌, ◌≡◌, ◌≢◌, refl, Bool, true, false, some, List, ◌++◌, arith,
}
use bits_on_demand_pte_te.Prelude.Lists.{length, take, drop, length-append}
use bits_on_demand_pte_te.Prelude.Words.{to_bytes, of_bytes, length-to_bytes, read-to_bytes}
use bits_on_demand_pte_te.Pte.Machine.{
  pos, State, Machine, sys_enable_pte_meta, sys_disable_pte_meta, sys_set_pte_meta,
  sys_get_pte_meta,
}
use bits_on_demand_pte_te.Pte.Process.{fill, verify_pattern, call_or_die_1, call_or_die_3}
use bits_on_demand_pte_te.Pte.Process.Pattern.{
  Pattern, fill_lem, fill_loop-Pattern, verify_pattern-done,
}
use bits_on_demand_pte_te.Pte.Process.Triple.{Passes, passes}
use bits_on_demand_pte_te.Pte.Contract.{View, Kept, Contract}

pub record Ready {m : Machine} (v : View m) (M : (ℕ → ℕ) → Type 0) (b : ℕ) (e : Bool)
    (s : State m.Kern) : Type 0 where
  pub memory : M s.mem
  pub expanded : v.expanded s.kern (v.table b) ≡ e

module _ {m : Machine} {v : View m} {M : (ℕ → ℕ) → Type 0} {b : ℕ} {s : State m.Kern} where
  pub Kept-Ready : {e : Bool} {t : State m.Kern} → Kept v s t → Ready v M b e s → Ready v M b e t
  Kept-Ready k r = record { memory = rw k.mem r.memory; expanded = rw k.expanded r.expanded }

module _ {m : Machine} {v : View m} (c : Contract v) {M : (ℕ → ℕ) → Type 0} (b : ℕ)
    {s : State m.Kern} where
  pub enable-Passes :
      Ready v M b false s
      → Passes (λ _ t. Ready v M b true t) (call_or_die_1 m sys_enable_pte_meta b s)
  unfolding call_or_die_1
  enable-Passes r =
      let w = c.enable_collapsed b s r.expanded in
      rw w.zero (passes (record { memory = rw w.mem r.memory; expanded = w.expanded }))

  pub disable-Passes :
      Ready v M b true s
      → Passes (λ _ t. Ready v M b false t) (call_or_die_1 m sys_disable_pte_meta b s)
  unfolding call_or_die_1
  disable-Passes r =
      let w = c.disable_expanded b s r.expanded in
      rw w.zero (passes (record { memory = rw w.mem r.memory; expanded = w.expanded }))

  pub set-Passes :
      (mdp : ℕ) (bytes : List ℕ)
      → v.accepted mdp bytes ≡ true
      → Ready v M b true s
      → Passes
          (λ _ t.
            Ready v M b true t
            × (v.stored t.kern (b / m.page_size) ≡ some bytes)
            × ((q : ℕ) → q ≢ b / m.page_size → v.stored t.kern q ≡ v.stored s.kern q))
          (call_or_die_3 m sys_set_pte_meta b mdp bytes s)
  unfolding call_or_die_3
  set-Passes mdp bytes h r =
      let w = c.set_expanded b mdp bytes s r.expanded h in
      rw w.zero (
        passes (
          record { memory = rw w.mem r.memory; expanded = rw w.expanded r.expanded },
          w.here,
          w.elsewhere,
        ))

  -- A successful `get` leaves the stored bytes at the start of the buffer.
  pub get-passes :
      (bytes buffer : List ℕ)
      → v.stored s.kern (b / m.page_size) ≡ some bytes
      → length bytes ≤ length buffer
      → Ready v M b true s
      → (t : State m.Kern) × (m.syscall_get sys_get_pte_meta b buffer s
          ≡ (pos 0, bytes ++ drop (length bytes) buffer, t))
        × Kept v s t
  get-passes bytes buffer held fits r =
      let w = c.get_expanded b bytes buffer s r.expanded held fits in
      ((m.syscall_get sys_get_pte_meta b buffer s).2, ground (arith, w.zero, w.copied), w.kept)

  pub fill-Passes :
      {e : Bool} (n : ℕ)
      → Ready v M b e s
      → Passes (λ _ t. Ready v (λ mem. Pattern mem b n) b e t) (fill b n s)
  fill-Passes n r =
      rw fill_lem (passes (record { memory = fill_loop-Pattern n b s.mem; expanded = r.expanded }))

  pub verify-Passes :
      {e : Bool} (a n : ℕ)
      → ((mem : ℕ → ℕ) → M mem → Pattern mem a n)
      → Ready v M b e s
      → Passes (λ _ t. Ready v M b e t × (t ≡ s)) (verify_pattern a n s)
  verify-Passes a n found r =
      rw (verify_pattern-done a n s (found s.mem r.memory)) (passes (r, refl))

-- A 64-bit number is read back from the metadata that it was stored in.
pub record ReadNumber {m : Machine} (v : View m) (a x : ℕ) (buffer : List ℕ) (s : State m.Kern)
    : Type 0 where
  pub after : State m.Kern
  pub got : List ℕ
  pub result : m.syscall_get sys_get_pte_meta a buffer s ≡ (pos 0, got, after)
  pub value : of_bytes (take 8 got) ≡ x
  pub size : 8 ≤ length got
  pub kept : Kept v s after

pub get-ReadNumber :
    {m : Machine} {v : View m} (c : Contract v) (b x : ℕ) (buffer : List ℕ) {s : State m.Kern}
    {M : (ℕ → ℕ) → Type 0}
    → x < 256 ^ 8
    → 8 ≤ length buffer
    → v.stored s.kern (b / m.page_size) ≡ some (to_bytes 8 x)
    → Ready v M b true s
    → ReadNumber v b x buffer s
get-ReadNumber c b x buffer small fits held r =
    let n : length (to_bytes 8 x) ≡ 8 = length-to_bytes 8 x in
    let g = get-passes c b (to_bytes 8 x) buffer held (omega arith) r in
    record {
      after = g.0;
      got = to_bytes 8 x ++ drop (length (to_bytes 8 x)) buffer;
      result = g.1;
      value = read-to_bytes 8 x _ small;
      size = omega (arith, n, length-append (to_bytes 8 x) (drop (length (to_bytes 8 x)) buffer));
      kept = g.2;
    }
