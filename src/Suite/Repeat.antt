-- ===== src/Suite/Repeat.antt =====
-- test9/test9.c: metadata is set and read back in 10000 rounds.
use bits_on_demand_pte_te.Prelude.{ℕ, zero, suc, ◌+◌, ◌%◌, ◌^◌, ◌!=◌, if◌then◌else◌}
use bits_on_demand_pte_te.Prelude.Lists.{take}
use bits_on_demand_pte_te.Prelude.Words.{to_bytes, of_bytes}
use bits_on_demand_pte_te.Pte.Machine.{
  Machine, sys_enable_pte_meta, sys_disable_pte_meta, sys_set_pte_meta, sys_get_pte_meta,
}
use bits_on_demand_pte_te.Pte.Process.{
  Proc, pure, exit_failure, returning, modify, ◌>>=◌, ◌>>◌, fill, verify_pattern, or_die,
  call_or_die_1, call_or_die_3, returning_get, checked,
}

abbrev pub iterations : ℕ
iterations = 10000

abbrev pub meta_value_base : ℕ
meta_value_base = 0xCAFEBABEDEADBEEF

-- `uint64_t meta_value = META_VALUE_BASE + i`
abbrev pub meta_value : ℕ → ℕ
meta_value i = (meta_value_base + i) % 2 ^ 64

module _ (m : Machine) where
  open m use {Kern, page_size, garbage, syscall_get, posix_memalign, mlock, munlock, free}

  -- The loop from round `i` on, with `n` rounds left.
  unfoldable pub set_get_loop : (n i : ℕ) → ℕ → Proc Kern (Unit {0})
  set_get_loop zero i buf = pure tt
  set_get_loop (suc n) i buf = do
    call_or_die_3 m sys_set_pte_meta buf 0 (to_bytes 8 (meta_value i))
    (r, retrieved_meta) ← returning_get (syscall_get sys_get_pte_meta buf (garbage 8))
    or_die r
    if of_bytes (take 8 retrieved_meta) != meta_value i then exit_failure else pure tt
    set_get_loop n (i + 1) buf

  unfoldable pub test9 : Proc Kern ℕ
  test9 = do
    a ← returning (posix_memalign page_size page_size)
    buf ← checked a
    modify (mlock buf page_size)
    fill buf page_size
    verify_pattern buf page_size
    call_or_die_1 m sys_enable_pte_meta buf
    set_get_loop iterations 0 buf
    call_or_die_1 m sys_disable_pte_meta buf
    verify_pattern buf page_size
    modify (munlock buf page_size)
    modify (free buf)
    pure 0
