-- ===== src/Suite/Update.antt =====
-- test8/test8.c: metadata is set and read twice, with no enabling call before.
use bits_on_demand_pte_te.Prelude.{ℕ, ◌!=◌, if◌then◌else◌}
use bits_on_demand_pte_te.Prelude.Lists.{take}
use bits_on_demand_pte_te.Prelude.Words.{to_bytes, of_bytes}
use bits_on_demand_pte_te.Pte.Machine.{
  Machine, sys_disable_pte_meta, sys_set_pte_meta, sys_get_pte_meta,
}
use bits_on_demand_pte_te.Pte.Process.{
  Proc, pure, exit_failure, returning, modify, ◌>>=◌, ◌>>◌, fill, verify_pattern, or_die,
  call_or_die_1, call_or_die_3, returning_get, checked,
}

abbrev pub first_meta : ℕ
first_meta = 0xCAFEBABE12345678

abbrev pub second_meta : ℕ
second_meta = 0xDEADBEEF87654321

module _ (m : Machine) where
  open m use {Kern, page_size, garbage, syscall_get, posix_memalign, mlock, munlock, free}

  unfoldable pub test_timing_comparison : ℕ → ℕ → Proc Kern (Unit {0})
  test_timing_comparison buf ps = do
    call_or_die_3 m sys_set_pte_meta buf 0 (to_bytes 8 first_meta)
    verify_pattern buf ps
    (r, retrieved_meta) ← returning_get (syscall_get sys_get_pte_meta buf (garbage 8))
    or_die r
    if of_bytes (take 8 retrieved_meta) != first_meta then exit_failure else pure tt
    call_or_die_3 m sys_set_pte_meta buf 0 (to_bytes 8 second_meta)
    verify_pattern buf ps
    (q, second_retrieved) ← returning_get (syscall_get sys_get_pte_meta buf retrieved_meta)
    or_die q
    if of_bytes (take 8 second_retrieved) != second_meta then exit_failure else pure tt

  unfoldable pub test8 : Proc Kern ℕ
  test8 = do
    a ← returning (posix_memalign page_size page_size)
    buf ← checked a
    modify (mlock buf page_size)
    fill buf page_size
    verify_pattern buf page_size
    test_timing_comparison buf page_size
    call_or_die_1 m sys_disable_pte_meta buf
    verify_pattern buf page_size
    modify (munlock buf page_size)
    modify (free buf)
    pure 0
