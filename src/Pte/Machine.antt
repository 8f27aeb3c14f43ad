-- ===== src/Pte/Machine.antt =====
-- The machine that the programs test1 to test9 run on: the PTE metadata system calls and the
-- functions of the C library that they call. None of these is in the repository, so all of them
-- are parameters. Only the numbers of the system calls are the programs' own (test2/test2.c).
use bits_on_demand_pte_te.Prelude.{ℕ, zero, suc, Bool, true, false, Option, List}

-- A C `long`; `negsuc n` is -(n + 1).
pub data ℤ : Type 0 where
  pos : ℕ → ℤ
  negsuc : ℕ → ℤ

-- `r < 0`
abbrev pub is_neg : ℤ → Bool
is_neg (pos n) = false
is_neg (negsuc n) = true

-- `r == 0`
abbrev pub is_zero : ℤ → Bool
is_zero (pos zero) = true
is_zero (pos (suc n)) = false
is_zero (negsuc n) = false

-- The values of `errno` that README.md names.
pub data Errno : Type 0 where
  enodata einval eperm eexist efault enomem : Errno
  unlisted : ℕ → Errno

abbrev pub sys_enable_pte_meta : ℕ
sys_enable_pte_meta = 469

abbrev pub sys_disable_pte_meta : ℕ
sys_disable_pte_meta = 470

abbrev pub sys_set_pte_meta : ℕ
sys_set_pte_meta = 471

abbrev pub sys_get_pte_meta : ℕ
sys_get_pte_meta = 472

-- What a call can read and change: the kernel's own state, the bytes of the process's data pages
-- and the process's `errno`.
pub record State (K : Type 0) : Type 0 where
  pub kern : K
  pub mem : ℕ → ℕ
  pub errno : Errno

-- `garbage n` is what an uninitialised local object of `n` bytes holds. `syscall_1 nr a` is
-- `syscall(nr, a)`; `syscall_set nr a mdp bytes` is `syscall(nr, a, mdp, p)` with `bytes` at `p`;
-- `syscall_get nr a buffer` is `syscall(nr, a, p)` with `buffer` at `p`, and also returns what is
-- at `p` afterwards. `posix_memalign` gives the address of the block, and `malloc` the bytes that
-- a new block holds; `none` is failure.
pub record Machine : Type 1 where
  pub Kern : Type 0
  pub page_size : ℕ
  pub garbage : ℕ → List ℕ
  pub syscall_1 : ℕ → ℕ → State Kern → ℤ × State Kern
  pub syscall_set : ℕ → ℕ → ℕ → List ℕ → State Kern → ℤ × State Kern
  pub syscall_get : ℕ → ℕ → List ℕ → State Kern → ℤ × List ℕ × State Kern
  pub posix_memalign : (alignment size : ℕ) → State Kern → Option ℕ × State Kern
  pub malloc : ℕ → State Kern → Option (List ℕ) × State Kern
  pub mlock : ℕ → ℕ → State Kern → State Kern
  pub munlock : ℕ → ℕ → State Kern → State Kern
  pub free : ℕ → State Kern → State Kern
