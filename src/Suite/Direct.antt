-- ===== src/Suite/Direct.antt =====
-- test2/test2.c: metadata with MDP=0, a plain 64-bit number.
use bits_on_demand_pte_te.Prelude.{ℕ, ◌!=◌, if◌then◌else◌}
use bits_on_demand_pte_te.Prelude.Lists.{take}
use bits_on_demand_pte_te.Prelude.Words.{to_bytes, of_bytes}
use bits_on_demand_pte_te.Pte.Machine.{
  Machine, sys_enable_pte_meta, sys_disable_pte_meta, sys_set_pte_meta, sys_get_pte_meta,
}
use bits_on_demand_pte_te.Pte.Process.{
  Proc, pure, exit_failure, returning, modify, ◌>>=◌, ◌>>◌, fill, verify_pattern, or_die,
  call_or_die_1, call_or_die_3, returning_get, unchecked,
}

abbrev pub meta_value_direct : ℕ
meta_value_direct = 0xCAFEBABEDEADBEEF

module _ (m : Machine) where
  open m use {Kern, page_size, garbage, syscall_get, posix_memalign, mlock, munlock, free}

  unfoldable pub test_mdp0 : ℕ → ℕ → Proc Kern (Unit {0})
  test_mdp0 buf ps = do
    let meta_value = to_bytes 8 meta_value_direct
    call_or_die_1 m sys_enable_pte_meta buf
    call_or_die_3 m sys_set_pte_meta buf 0 meta_value
    verify_pattern buf ps
    (r, retrieved_meta) ← returning_get (syscall_get sys_get_pte_meta buf (garbage 8))
    or_die r
    if of_bytes (take 8 retrieved_meta) != meta_value_direct then exit_failure else pure tt

  unfoldable pub test2 : Proc Kern ℕ
  test2 = do
    a ← returning (posix_memalign page_size page_size)
    buf ← unchecked a
    modify (mlock buf page_size)
    fill buf page_size
    verify_pattern buf page_size
    test_mdp0 buf page_size
    call_or_die_1 m sys_disable_pte_meta buf
    verify_pattern buf page_size
    modify (munlock buf page_size)
    modify (free buf)
    pure 0
