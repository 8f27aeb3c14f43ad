-- ===== src/Pte/Contract.antt =====
-- What README.md promises of the four system calls ("Overview", "Error Handling", "New
-- Buffer-Based Interface"), and what is used of the C library, as named hypotheses on a machine.
use bits_on_demand_pte_te.Prelude.{
  ℕ, ◌+◌, ◌/◌, ◌≤◌, ◌<◌, ◌≡◌, ◌≢◌, Bool, true, false, Option, none, some, List, ◌++◌,
}
use bits_on_demand_pte_te.Prelude.Lists.{length, drop}
use bits_on_demand_pte_te.Pte.Machine.{
  ℤ, pos, is_neg, Errno, enodata, einval, eexist, State, Machine, sys_enable_pte_meta,
  sys_disable_pte_meta, sys_set_pte_meta, sys_get_pte_meta,
}
pub mod Calls
pub mod Frame

-- What can be observed of the kernel: `table a` is the page table that holds the entry of address
-- `a`, `expanded k t` tells whether table `t` has been expanded from 4 KiB to 8 KiB, `stored k p`
-- is the metadata of page `p`, and `accepted mdp bytes` tells whether a buffer is well formed.
pub record View (m : Machine) : Type 0 where
  pub table : ℕ → ℕ
  pub expanded : m.Kern → ℕ → Bool
  pub stored : m.Kern → ℕ → Option (List ℕ)
  pub accepted : ℕ → List ℕ → Bool

-- A call that leaves the data pages and the metadata alone.
pub record Kept {m : Machine} (v : View m) (s t : State m.Kern) : Type 0 where
  pub mem : t.mem ≡ s.mem
  pub expanded : v.expanded t.kern ≡ v.expanded s.kern
  pub stored : v.stored t.kern ≡ v.stored s.kern

-- A call that is refused with an error, and has no other effect.
pub record Refused {m : Machine} (v : View m) (e : Errno) (s : State m.Kern) (r : ℤ)
    (t : State m.Kern) : Type 0 where
  pub negative : is_neg r ≡ true
  pub errno : t.errno ≡ e
  pub kept : Kept v s t

-- A call at address `a` that succeeds, leaves the page table of `a` expanded or not, and no other
-- table changed.
pub record Switched {m : Machine} (v : View m) (a : ℕ) (e : Bool) (s : State m.Kern) (r : ℤ)
    (t : State m.Kern) : Type 0 where
  pub zero : r ≡ pos 0
  pub mem : t.mem ≡ s.mem
  pub expanded : v.expanded t.kern (v.table a) ≡ e
  pub elsewhere : (q : ℕ) → q ≢ v.table a → v.expanded t.kern q ≡ v.expanded s.kern q

-- `bytes` have become the metadata of page `p`, and of no other page.
pub record Written {m : Machine} (v : View m) (p : ℕ) (bytes : List ℕ) (s : State m.Kern) (r : ℤ)
    (t : State m.Kern) : Type 0 where
  pub zero : r ≡ pos 0
  pub mem : t.mem ≡ s.mem
  pub expanded : v.expanded t.kern ≡ v.expanded s.kern
  pub here : v.stored t.kern p ≡ some bytes
  pub elsewhere : (q : ℕ) → q ≢ p → v.stored t.kern q ≡ v.stored s.kern q

-- `bytes` have been copied to the start of the buffer.
pub record Read {m : Machine} (v : View m) (bytes buffer : List ℕ) (s : State m.Kern)
    (o : ℤ × List ℕ × State m.Kern) : Type 0 where
  pub zero : o.0 ≡ pos 0
  pub copied : o.1 ≡ bytes ++ drop (length bytes) buffer
  pub kept : Kept v s o.2

pub record Contract {m : Machine} (v : View m) : Type 0 where
  pub page_size_pos : 0 < m.page_size
  pub garbage_length : (n : ℕ) → length (m.garbage n) ≡ n
  pub enable_collapsed :
      (a : ℕ) (s : State m.Kern)
      → v.expanded s.kern (v.table a) ≡ false
      → Switched v a true s
          (m.syscall_1 sys_enable_pte_meta a s).0
          (m.syscall_1 sys_enable_pte_meta a s).1
  pub enable_expanded :
      (a : ℕ) (s : State m.Kern)
      → v.expanded s.kern (v.table a) ≡ true
      → Refused v eexist s
          (m.syscall_1 sys_enable_pte_meta a s).0
          (m.syscall_1 sys_enable_pte_meta a s).1
  pub disable_expanded :
      (a : ℕ) (s : State m.Kern)
      → v.expanded s.kern (v.table a) ≡ true
      → Switched v a false s
          (m.syscall_1 sys_disable_pte_meta a s).0
          (m.syscall_1 sys_disable_pte_meta a s).1
  pub disable_collapsed :
      (a : ℕ) (s : State m.Kern)
      → v.expanded s.kern (v.table a) ≡ false
      → Refused v einval s
          (m.syscall_1 sys_disable_pte_meta a s).0
          (m.syscall_1 sys_disable_pte_meta a s).1
  -- A 64-bit number is a well-formed buffer for MDP=0.
  pub accepted_direct : (bytes : List ℕ) → length bytes ≡ 8 → v.accepted 0 bytes ≡ true
  pub set_expanded :
      (a mdp : ℕ) (bytes : List ℕ) (s : State m.Kern)
      → v.expanded s.kern (v.table a) ≡ true
      → v.accepted mdp bytes ≡ true
      → Written v
          (a / m.page_size)
          bytes
          s
          (m.syscall_set sys_set_pte_meta a mdp bytes s).0
          (m.syscall_set sys_set_pte_meta a mdp bytes s).1
  pub get_expanded :
      (a : ℕ) (bytes buffer : List ℕ) (s : State m.Kern)
      → v.expanded s.kern (v.table a) ≡ true
      → v.stored s.kern (a / m.page_size) ≡ some bytes
      → length bytes ≤ length buffer
      → Read v bytes buffer s (m.syscall_get sys_get_pte_meta a buffer s)
  pub get_collapsed :
      (a : ℕ) (buffer : List ℕ) (s : State m.Kern)
      → v.expanded s.kern (v.table a) ≡ false
      → Refused v enodata s
          (m.syscall_get sys_get_pte_meta a buffer s).0
          (m.syscall_get sys_get_pte_meta a buffer s).2
  pub mlock_kept : (a n : ℕ) (s : State m.Kern) → Kept v s (m.mlock a n s)
  pub munlock_kept : (a n : ℕ) (s : State m.Kern) → Kept v s (m.munlock a n s)
  pub malloc_kept : (n : ℕ) (s : State m.Kern) → Kept v s (m.malloc n s).1
  pub malloc_length :
      (n : ℕ) (s : State m.Kern) {block : List ℕ} → (m.malloc n s).0 ≡ some block → length block ≡ n
  -- The metadata outlive the block: `free` gives memory back, and collapses no table.
  pub free_expanded : (a : ℕ) (s : State m.Kern) → v.expanded (m.free a s).kern ≡ v.expanded s.kern

-- `posix_memalign` succeeds in state `s`, with a block at `b` whose page table is not expanded.
pub record Allocates {m : Machine} (v : View m) (size : ℕ) (s : State m.Kern) (b : ℕ) : Type 0 where
  pub address : (m.posix_memalign m.page_size size s).0 ≡ some b
  pub collapsed : v.expanded (m.posix_memalign m.page_size size s).1.kern (v.table b) ≡ false
