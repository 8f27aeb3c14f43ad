-- ===== src/Suite/Reference.antt =====
-- A machine that keeps the contract, for the examples: 4 KiB pages, 2 MiB to a page table, and
-- blocks that all lie at one address. With `lazily` true the first setting of metadata expands the
-- page table; with false it is refused.
use bits_on_demand_pte_te.Prelude.{
  ℕ, ◌/◌, ◌≡◌, refl, Bool, true, false, Option, none, some, List, ◌++◌, ◌==◌, if◌then◌else◌, arith,
}
use bits_on_demand_pte_te.Prelude.Lists.{drop, length, replicate, length-replicate}
use bits_on_demand_pte_te.Pte.Machine.{
  ℤ, pos, negsuc, Errno, enodata, einval, eexist, State, Machine, sys_enable_pte_meta,
}
use bits_on_demand_pte_te.Pte.Contract.{View, Kept, Refused, Switched, Written, Contract}

pub record Tables : Type 0 where
  pub expanded : ℕ → Bool
  pub stored : ℕ → Option (List ℕ)

abbrev set_at {ℓ} : {A : Type ℓ} → (ℕ → A) → ℕ → A → ℕ → A
set_at f i v j = if j == i then v else f j

abbrev table_of : ℕ → ℕ
table_of a = a / 2097152

abbrev refuse : Errno → State Tables → ℤ × State Tables
refuse e s = (negsuc 0, record s { errno = e })

abbrev expand : Bool → ℕ → State Tables → State Tables
expand e a s = record s {
  kern = record s.kern { expanded = set_at s.kern.expanded (table_of a) e };
}

abbrev store : ℕ → List ℕ → State Tables → State Tables
store a bytes s = record s {
  kern = record s.kern { stored = set_at s.kern.stored (a / 4096) (some bytes) };
}

abbrev switch : ℕ → ℕ → State Tables → ℤ × State Tables
switch nr a s =
    if nr == sys_enable_pte_meta
    then (if s.kern.expanded (table_of a) then refuse eexist s else (pos 0, expand true a s))
    else if s.kern.expanded (table_of a)
    then (pos 0, expand false a s)
    else refuse einval s

abbrev set_meta : Bool → ℕ → List ℕ → State Tables → ℤ × State Tables
set_meta lazily a bytes s =
    if s.kern.expanded (table_of a)
    then (pos 0, store a bytes s)
    else if lazily
    then (pos 0, store a bytes (expand true a s))
    else refuse enodata s

abbrev get_meta : ℕ → List ℕ → State Tables → ℤ × List ℕ × State Tables
get_meta a buffer s =
    if s.kern.expanded (table_of a)
    then elim (s.kern.stored (a / 4096)) [
      | some bytes ↦ (pos 0, bytes ++ drop (length bytes) buffer, s)
      | none ↦ (negsuc 0, buffer, record s { errno = enodata })
    ]
    else (negsuc 0, buffer, record s { errno = enodata })

abbrev pub sample_address : ℕ
sample_address = 0x400000

abbrev pub sample_machine : Bool → Machine
sample_machine lazily = record {
  Kern = Tables;
  page_size = 4096;
  garbage = λ n. replicate n 0xA5;
  syscall_1 = switch;
  syscall_set = λ nr a mdp bytes s. set_meta lazily a bytes s;
  syscall_get = λ nr a buffer s. get_meta a buffer s;
  posix_memalign = λ alignment size s. (some sample_address, s);
  malloc = λ n s. (some (replicate n 0), s);
  mlock = λ a n s. s;
  munlock = λ a n s. s;
  free = λ a s. s;
}

abbrev pub sample_view : (lazily : Bool) → View (sample_machine lazily)
sample_view lazily = record {
  table = table_of;
  expanded = λ k. k.expanded;
  stored = λ k. k.stored;
  accepted = λ mdp bytes. true;
}

-- No page table is expanded, and no page has metadata.
abbrev pub sample_state : State Tables
sample_state = record {
  kern = record { expanded = λ t. false; stored = λ p. none };
  mem = λ a. 0;
  errno = Errno.unlisted 0;
}

replicate_length : (n : ℕ) {block : List ℕ} → some (replicate n 0) ≡ some block → length block ≡ n
replicate_length n e = cc (length-replicate {A = ℕ} n 0)

module _ (lazily : Bool) where
  kept : (s : State Tables) → Kept (sample_view lazily) s s
  kept s = record { mem = refl; expanded = refl; stored = refl }

  switched :
      (a : ℕ) (e : Bool) (s : State Tables)
      → Switched (sample_view lazily) a e s (pos 0) (expand e a s)
  switched a e s = record {
    zero = refl;
    mem = refl;
    expanded = ground arith;
    elsewhere = λ q h. ground arith;
  }

  refused :
      (e : Errno) (s : State Tables)
      → Refused (sample_view lazily) e s (negsuc 0) (record s { errno = e })
  refused e s = record {
    negative = refl;
    errno = refl;
    kept = record { mem = refl; expanded = refl; stored = refl };
  }

  written :
      (a : ℕ) (bytes : List ℕ) (s : State Tables)
      → Written (sample_view lazily) (a / 4096) bytes s (pos 0) (store a bytes s)
  written a bytes s = record {
    zero = refl;
    mem = refl;
    expanded = refl;
    here = ground arith;
    elsewhere = λ q h. ground arith;
  }

  pub sample-Contract : Contract (sample_view lazily)
  sample-Contract = record {
    page_size_pos = omega arith;
    garbage_length = λ n. length-replicate n 0xA5;
    enable_collapsed = λ a s h. rw h (switched a true s);
    enable_expanded = λ a s h. rw h (refused eexist s);
    disable_expanded = λ a s h. rw h (switched a false s);
    disable_collapsed = λ a s h. rw h (refused einval s);
    accepted_direct = λ bytes h. refl;
    set_expanded = λ a mdp bytes s h g. rw h (written a bytes s);
    get_expanded =
        λ a bytes buffer s h g n. rw (h, g) (record { zero = refl; copied = refl; kept = kept s });
    get_collapsed = λ a buffer s h. rw h (refused enodata s);
    mlock_kept = λ a n s. kept s;
    munlock_kept = λ a n s. kept s;
    malloc_kept = λ n s. kept s;
    malloc_length = λ n s e. replicate_length n e;
    free_expanded = λ a s. refl;
  }
