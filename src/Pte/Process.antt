-- ===== src/Pte/Process.antt =====
-- A process on a machine: it goes on, ends by `exit(EXIT_FAILURE)`, or has run into undefined
-- behaviour; and the functions that the test programs share, as test2/test2.c has them.
-- Times and messages are left out: nothing that changes the state depends on them.
pub mod Pattern
pub mod Triple
use bits_on_demand_pte_te.Prelude.{
  ℕ, zero, suc, ◌+◌, ◌%◌, Bool, true, false, Option, none, some, List, ◌==◌, ◌!=◌, if◌then◌else◌,
}
use bits_on_demand_pte_te.Pte.Machine.{ℤ, is_neg, State, Machine}

pub data Outcome (K A : Type 0) : Type 0 where
  done : A → State K → Outcome K A
  exited : State K → Outcome K A
  undefined : Outcome K A

abbrev pub Proc : Type 0 → Type 0 → Type 0
Proc K A = State K → Outcome K A

module _ {K A : Type 0} where
  abbrev pub pure : A → Proc K A
  pure = done

  -- `perror(…); exit(EXIT_FAILURE)`
  abbrev pub exit_failure : Proc K A
  exit_failure = exited

  abbrev pub undefined_behaviour : Proc K A
  undefined_behaviour s = undefined

  -- A call that always returns.
  abbrev pub returning : (State K → A × State K) → Proc K A
  returning f s = done (f s).0 (f s).1

-- `syscall(SYS_get_pte_meta, …)`, with what it leaves in the buffer.
abbrev pub returning_get : {K : Type 0} → (State K → ℤ × List ℕ × State K) → Proc K (ℤ × List ℕ)
returning_get f s = done ((f s).0, (f s).1) (f s).2

abbrev pub modify : {K : Type 0} → (State K → State K) → Proc K (Unit {0})
modify f s = done tt (f s)

abbrev pub get_state : {K : Type 0} → Proc K (State K)
get_state s = done s s

module _ {K A B : Type 0} where
  abbrev pub and_then : Outcome K A → (A → Proc K B) → Outcome K B
  and_then (done a s) k = k a s
  and_then (exited s) k = exited s
  and_then undefined k = undefined

  infixl 5 ◌>>=◌ ◌>>◌
  abbrev pub ◌>>=◌ : Proc K A → (A → Proc K B) → Proc K B
  m >>= k = λ s. and_then (m s) k

  abbrev pub ◌>>◌ : Proc K A → Proc K B → Proc K B
  m >> n = m >>= λ _. n

abbrev pub update : (ℕ → ℕ) → ℕ → ℕ → ℕ → ℕ
update f i v j = if j == i then v else f j

-- `for (size_t i = 0; i < n; ++i) b[i] = (uint8_t)(i & 0xFF);` from index `i` with `n` rounds left
unfoldable pub fill_loop : ℕ → ℕ → ℕ → (ℕ → ℕ) → ℕ → ℕ
fill_loop zero i b mem = mem
fill_loop (suc n) i b mem = fill_loop n (i + 1) b (update mem (b + i) (i % 256))

-- The loop of `verify_pattern`: false at the first byte that differs.
unfoldable pub verify_loop : ℕ → ℕ → ℕ → (ℕ → ℕ) → Bool
verify_loop zero i b mem = true
verify_loop (suc n) i b mem =
    let rest = verify_loop n (i + 1) b mem in if mem (b + i) != i % 256 then false else rest

module _ {K : Type 0} where
  unfoldable pub fill : ℕ → ℕ → Proc K (Unit {0})
  unfolding fill_loop
  fill b n s = done tt (record s { mem = fill_loop n 0 b s.mem })

  unfoldable pub verify_pattern : ℕ → ℕ → Proc K (Unit {0})
  unfolding verify_loop
  verify_pattern b n s = if verify_loop n 0 b s.mem then done tt s else exited s

  -- What follows a system call: `if (r < 0) { perror(name); exit(EXIT_FAILURE); }`
  abbrev pub or_die : ℤ → Proc K (Unit {0})
  or_die r = if is_neg r then exit_failure else pure tt

module _ (m : Machine) where
  open m use {Kern, syscall_1, syscall_set}

  unfoldable pub call_or_die_1 : (nr a1 : ℕ) → Proc Kern (Unit {0})
  call_or_die_1 nr a1 = do r ← returning (syscall_1 nr a1); or_die r

  unfoldable pub call_or_die_3 : (nr a1 a2 : ℕ) (a3 : List ℕ) → Proc Kern (Unit {0})
  call_or_die_3 nr a1 a2 a3 = do r ← returning (syscall_set nr a1 a2 a3); or_die r

-- The block of `posix_memalign(&buf, …)` where the result is not looked at: after a failure `buf`
-- is not set, and its first use is undefined.
abbrev pub unchecked : {K : Type 0} → Option ℕ → Proc K ℕ
unchecked (some b) = pure b
unchecked none = undefined_behaviour

-- `if (posix_memalign(…) != 0) { perror(…); exit(EXIT_FAILURE); }`
abbrev pub checked : {K : Type 0} {A : Type 0} → Option A → Proc K A
checked (some b) = pure b
checked none = exit_failure
