-- ===== src/Suite/Basic.antt =====
-- test1/test1.c: a page is allocated, filled and read back.
use bits_on_demand_pte_te.Prelude.{ℕ}
use bits_on_demand_pte_te.Pte.Machine.{Machine}
use bits_on_demand_pte_te.Pte.Process.{
  Proc, pure, returning, modify, ◌>>=◌, ◌>>◌, fill, verify_pattern, unchecked,
}

module _ (m : Machine) where
  open m use {Kern, page_size, posix_memalign, mlock, munlock, free}

  unfoldable pub test1 : Proc Kern ℕ
  test1 = do
    a ← returning (posix_memalign page_size page_size)
    buf ← unchecked a
    modify (mlock buf page_size)
    fill buf page_size
    verify_pattern buf page_size
    modify (munlock buf page_size)
    modify (free buf)
    pure 0
