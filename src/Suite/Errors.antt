-- ===== src/Suite/Errors.antt =====
-- test4/test4.c, test6/test6.c and test7/test7.c: calls in the wrong state, and the errors that they report.
use bits_on_demand_pte_te.Prelude.{ℕ, zero, suc, Bool, true, false, if◌then◌else◌}
use bits_on_demand_pte_te.Pte.Machine.{
  is_neg, is_zero, Errno, enodata, einval, eexist, Machine, sys_enable_pte_meta,
  sys_disable_pte_meta, sys_get_pte_meta,
}
use bits_on_demand_pte_te.Pte.Process.{
  Proc, pure, exit_failure, returning, modify, get_state, ◌>>=◌, ◌>>◌, fill, verify_pattern,
  call_or_die_1, returning_get, unchecked, checked,
}

abbrev pub is_enodata : Errno → Bool
is_enodata enodata = true
is_enodata _ = false

abbrev pub is_einval : Errno → Bool
is_einval einval = true
is_einval _ = false

abbrev pub is_eexist : Errno → Bool
is_eexist eexist = true
is_eexist _ = false

module _ (m : Machine) where
  open m use {
    Kern, page_size, garbage, syscall_1, syscall_get, posix_memalign, mlock, munlock, free,
  }

  -- `errno` is looked at only if `r < 0`: a positive result passes.
  unfoldable pub test_get_without_expansion : ℕ → ℕ → Proc Kern (Unit {0})
  test_get_without_expansion buf ps = do
    (r, buffer) ← returning_get (syscall_get sys_get_pte_meta buf (garbage 8))
    if is_zero r then exit_failure else pure tt
    s ← get_state
    if is_neg r then (if is_enodata s.errno then pure tt else exit_failure) else pure tt
    verify_pattern buf ps

  unfoldable pub test4 : Proc Kern ℕ
  test4 = do
    a ← returning (posix_memalign page_size page_size)
    buf ← unchecked a
    modify (mlock buf page_size)
    fill buf page_size
    verify_pattern buf page_size
    test_get_without_expansion buf page_size
    modify (munlock buf page_size)
    modify (free buf)
    pure 0

  -- `cycles` is the number of rounds left of the loop.
  unfoldable pub test_enable_disable_cycle : (cycles : ℕ) → ℕ → ℕ → Proc Kern (Unit {0})
  test_enable_disable_cycle zero buf ps = pure tt
  test_enable_disable_cycle (suc cycles) buf ps = do
    call_or_die_1 m sys_enable_pte_meta buf
    verify_pattern buf ps
    call_or_die_1 m sys_disable_pte_meta buf
    verify_pattern buf ps
    test_enable_disable_cycle cycles buf ps

  unfoldable pub test_double_enable_error : ℕ → ℕ → Proc Kern (Unit {0})
  test_double_enable_error buf ps = do
    call_or_die_1 m sys_enable_pte_meta buf
    r ← returning (syscall_1 sys_enable_pte_meta buf)
    if is_zero r then exit_failure else pure tt
    s ← get_state
    if is_eexist s.errno then pure tt else exit_failure
    verify_pattern buf ps
    call_or_die_1 m sys_disable_pte_meta buf

  unfoldable pub test6 : Proc Kern ℕ
  test6 = do
    a ← returning (posix_memalign page_size page_size)
    buf ← unchecked a
    modify (mlock buf page_size)
    fill buf page_size
    verify_pattern buf page_size
    test_enable_disable_cycle 3 buf page_size
    test_double_enable_error buf page_size
    verify_pattern buf page_size
    modify (munlock buf page_size)
    modify (free buf)
    pure 0

  unfoldable pub test_disable_without_enable : ℕ → ℕ → Proc Kern (Unit {0})
  test_disable_without_enable buf ps = do
    r ← returning (syscall_1 sys_disable_pte_meta buf)
    if is_zero r then exit_failure else pure tt
    s ← get_state
    if is_neg r then (if is_einval s.errno then pure tt else exit_failure) else pure tt
    verify_pattern buf ps

  unfoldable pub test7 : Proc Kern ℕ
  test7 = do
    a ← returning (posix_memalign page_size page_size)
    buf ← checked a
    modify (mlock buf page_size)
    fill buf page_size
    verify_pattern buf page_size
    test_disable_without_enable buf page_size
    verify_pattern buf page_size
    modify (munlock buf page_size)
    modify (free buf)
    pure 0
