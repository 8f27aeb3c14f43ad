-- ===== src/Suite/Detection.antt =====
-- Runs of the calls of test2/test2.c on any machine, contract or not.
use bits_on_demand_pte_te.Prelude.{ℕ, ◌≡◌, ◌↔◌, ◌!=◌, if◌then◌else◌, refl, List, false, arith}
use bits_on_demand_pte_te.Prelude.Lists.{take}
use bits_on_demand_pte_te.Prelude.Words.{to_bytes, of_bytes}
use bits_on_demand_pte_te.Pte.Machine.{
  ℤ, is_neg, State, Machine, sys_enable_pte_meta, sys_set_pte_meta, sys_get_pte_meta,
}
use bits_on_demand_pte_te.Pte.Process.{
  Outcome, done, exited, or_die, exit_failure, pure, ◌>>◌, undefined, Proc, and_then, call_or_die_1,
  call_or_die_3, verify_pattern,
}
use bits_on_demand_pte_te.Pte.Process.Pattern.{Pattern, verify_pattern-done, verify_pattern_sound}
use bits_on_demand_pte_te.Suite.Direct.{meta_value_direct, test_mdp0}

and_then-eq-done :
    {K A B : Type 0} (r : Outcome K A) (k : A → Proc K B) {b : B} {t : State K}
    → and_then r k ≡ done b t
    → (a : A) × (s : State K) × (r ≡ done a s) × (k a s ≡ done b t)
and_then-eq-done (done a s) k e = (a, s, refl, e)
and_then-eq-done (exited s) k e = cc
and_then-eq-done undefined k e = cc

module _ (m : Machine) {s t : State m.Kern} {u : Unit {0}} (nr a : ℕ) where
  call_or_die_1_sound :
      call_or_die_1 m nr a s ≡ done u t
      → (is_neg (m.syscall_1 nr a s).0 ≡ false) × (t ≡ (m.syscall_1 nr a s).1)
  unfolding call_or_die_1
  call_or_die_1_sound e = ground arith

  call_or_die_3_sound :
      (mdp : ℕ) (bytes : List ℕ)
      → call_or_die_3 m nr a mdp bytes s ≡ done u t
      → (is_neg (m.syscall_set nr a mdp bytes s).0 ≡ false)
        × (t ≡ (m.syscall_set nr a mdp bytes s).1)
  unfolding call_or_die_3
  call_or_die_3_sound mdp bytes e = ground arith

compare_sound :
    {K : Type 0} (r : ℤ) (n x : ℕ) (s : State K) {t : State K}
    → (or_die r >> (if n != x then exit_failure else pure tt)) s ≡ done tt t
    → (is_neg r ≡ false) × (n ≡ x) × (t ≡ s)
compare_sound r n x s e = ground arith

-- The three calls of `test_mdp0` from state `s` on, as they have to come out.
module _ (m : Machine) (buf : ℕ) (s : State m.Kern) where
  abbrev pub enabled : ℤ × State m.Kern
  enabled = m.syscall_1 sys_enable_pte_meta buf s

  abbrev pub was_set : ℤ × State m.Kern
  was_set = m.syscall_set sys_set_pte_meta buf 0 (to_bytes 8 meta_value_direct) enabled.1

  abbrev pub was_read : ℤ × List ℕ × State m.Kern
  was_read = m.syscall_get sys_get_pte_meta buf (m.garbage 8) was_set.1

  pub record Confirmed (ps : ℕ) (t : State m.Kern) : Type 0 where
    pub enable_ok : is_neg enabled.0 ≡ false
    pub set_ok : is_neg was_set.0 ≡ false
    pub pattern : Pattern was_set.1.mem buf ps
    pub get_ok : is_neg was_read.0 ≡ false
    pub value : of_bytes (take 8 was_read.1) ≡ meta_value_direct
    pub last : t ≡ was_read.2

module _ {m : Machine} {buf ps : ℕ} {s t : State m.Kern} where
  test_mdp0_sound : test_mdp0 m buf ps s ≡ done tt t → Confirmed m buf s ps t
  unfolding test_mdp0
  test_mdp0_sound e =
      let (_, s₁, e₁, k₁) = and_then-eq-done (call_or_die_1 m sys_enable_pte_meta buf s) _ e in
      let (ok₁, at₁) = call_or_die_1_sound m sys_enable_pte_meta buf e₁ in
      let (_, s₂, e₂, k₂) =
        and_then-eq-done
          (call_or_die_3 m sys_set_pte_meta buf 0 (to_bytes 8 meta_value_direct)
            (enabled m buf s).1)
          _ (rw at₁ at k₁) in
      let (ok₂, at₂) = call_or_die_3_sound m sys_set_pte_meta buf 0 _ e₂ in
      let (_, s₃, e₃, k₃) =
        and_then-eq-done (verify_pattern buf ps (was_set m buf s).1) _ (rw at₂ at k₂) in
      let (found, at₃) = verify_pattern_sound buf ps (was_set m buf s).1 e₃ in
      let (ok₃, same, at₄) =
        compare_sound (was_read m buf s).0 (of_bytes (take 8 (was_read m buf s).1))
          meta_value_direct (was_read m buf s).2 (rw at₃ at k₃) in
      record {
        enable_ok = ok₁;
        set_ok = ok₂;
        pattern = found;
        get_ok = ok₃;
        value = same;
        last = at₄;
      }

  test_mdp0_complete : Confirmed m buf s ps t → test_mdp0 m buf ps s ≡ done tt t
  unfolding test_mdp0 call_or_die_1 call_or_die_3
  test_mdp0_complete c =
      rw
        (
          c.enable_ok,
          c.set_ok,
          verify_pattern-done buf ps (was_set m buf s).1 c.pattern,
          c.get_ok,
          c.value,
          c.last,
        )
        refl

  -- `test_mdp0` of test2 goes on, ending in state `t`, exactly when its three system calls report
  -- no error, the page holds its pattern after the second, and the 64-bit number that the third
  -- leaves in the buffer is the one that was set, `t` being the state after the third.
  pub test_mdp0-done_iff : (test_mdp0 m buf ps s ≡ done tt t) ↔ Confirmed m buf s ps t
  test_mdp0-done_iff = (test_mdp0_sound, test_mdp0_complete)
