-- ===== src/Suite/Pages.antt =====
-- test5/test5.c: metadata of four consecutive pages.
use Prim.Native.Nat.{bit_or}
use bits_on_demand_pte_te.Prelude.{ℕ, zero, suc, ◌+◌, ◌*◌, ◌!=◌, if◌then◌else◌}
use bits_on_demand_pte_te.Prelude.Lists.{take}
use bits_on_demand_pte_te.Prelude.Words.{to_bytes, of_bytes}
use bits_on_demand_pte_te.Pte.Machine.{
  Machine, sys_enable_pte_meta, sys_disable_pte_meta, sys_set_pte_meta, sys_get_pte_meta,
}
use bits_on_demand_pte_te.Pte.Process.{
  Proc, pure, exit_failure, returning, modify, ◌>>=◌, ◌>>◌, fill, verify_pattern, or_die,
  call_or_die_1, call_or_die_3, returning_get, checked,
}

abbrev pub num_pages : ℕ
num_pages = 4

-- `0xDEADBEEF00000000ULL | i`
abbrev pub page_value : ℕ → ℕ
page_value i = bit_or 0xDEADBEEF00000000 i

-- `pages[i] = base_addr + (i * ps)`
abbrev pub page_at : (base ps i : ℕ) → ℕ
page_at base ps i = base + i * ps

module _ (m : Machine) where
  open m use {Kern, page_size, garbage, syscall_get, posix_memalign, mlock, munlock, free}

  -- The loops of the program over its pages: page `i` on, `n` pages left.
  unfoldable pub fill_pages : (n i : ℕ) → ℕ → ℕ → Proc Kern (Unit {0})
  fill_pages zero i base ps = pure tt
  fill_pages (suc n) i base ps = do fill (page_at base ps i) ps; fill_pages n (i + 1) base ps

  unfoldable pub verify_pages : (n i : ℕ) → ℕ → ℕ → Proc Kern (Unit {0})
  verify_pages zero i base ps = pure tt
  verify_pages (suc n) i base ps = do
    verify_pattern (page_at base ps i) ps
    verify_pages n (i + 1) base ps

  unfoldable pub set_pages : (n i : ℕ) → ℕ → ℕ → Proc Kern (Unit {0})
  set_pages zero i base ps = pure tt
  set_pages (suc n) i base ps = do
    call_or_die_3 m sys_set_pte_meta (page_at base ps i) 0 (to_bytes 8 (page_value i))
    verify_pattern (page_at base ps i) ps
    set_pages n (i + 1) base ps

  unfoldable pub get_pages : (n i : ℕ) → ℕ → ℕ → Proc Kern (Unit {0})
  get_pages zero i base ps = pure tt
  get_pages (suc n) i base ps = do
    (r, retrieved_meta) ←
        returning_get (syscall_get sys_get_pte_meta (page_at base ps i) (garbage 8))
    or_die r
    if of_bytes (take 8 retrieved_meta) != page_value i then exit_failure else pure tt
    verify_pattern (page_at base ps i) ps
    get_pages n (i + 1) base ps

  unfoldable pub test_multiple_pages : ℕ → ℕ → Proc Kern (Unit {0})
  test_multiple_pages base ps = do
    call_or_die_1 m sys_enable_pte_meta (page_at base ps 0)
    set_pages num_pages 0 base ps
    get_pages num_pages 0 base ps

  unfoldable pub test5 : Proc Kern ℕ
  test5 = do
    a ← returning (posix_memalign page_size (page_size * num_pages))
    base ← checked a
    modify (mlock base (page_size * num_pages))
    fill_pages num_pages 0 base page_size
    verify_pages num_pages 0 base page_size
    test_multiple_pages base page_size
    call_or_die_1 m sys_disable_pte_meta (page_at base page_size 0)
    verify_pages num_pages 0 base page_size
    modify (munlock base (page_size * num_pages))
    modify (free base)
    pure 0
