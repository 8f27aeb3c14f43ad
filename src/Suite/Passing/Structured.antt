-- ===== src/Suite/Passing/Structured.antt =====
-- The runs of test3/test3.c under the contract.
use mathlib.Core.List.{append-nil}
use mathlib.Core.Bool.{not}
use bits_on_demand_pte_te.Prelude.{
  if◌then◌else◌, ℕ, zero, suc, ◌≡◌, refl, true, false, some, List, [], ◌∷◌, ◌++◌, arith,
}
use bits_on_demand_pte_te.Prelude.Lists.{length, take, drop}
use bits_on_demand_pte_te.Prelude.Words.{to_bytes, of_bytes}
use bits_on_demand_pte_te.Pte.Machine.{State, Machine}
use bits_on_demand_pte_te.Pte.Process.{exit_failure, pure, ◌>>◌, done}
use bits_on_demand_pte_te.Pte.Process.Triple.{Passes, passes, bind}
use bits_on_demand_pte_te.Pte.Contract.{View, Contract, Allocates}
use bits_on_demand_pte_te.Pte.Contract.Calls.{
  enable-Passes, disable-Passes, set-Passes, get-passes, verify-Passes, Kept-Ready,
}
use bits_on_demand_pte_te.Pte.Contract.Frame.{PageReady, Succeeds, unchecked-Passes, end-Passes}
use bits_on_demand_pte_te.Suite.Structured.{
  payload_size, sizeof_header, header_bytes, header_at, test_header, test_payload, equal_bytes,
  same_header, print_payload, test_mdp1, test3,
}

drop-length {ℓ} : {A : Type ℓ} (n : ℕ) (xs : List A) → length xs ≡ n → drop n xs ≡ []
drop-length zero [] h = refl
drop-length zero (x ∷ xs) h = absurd (omega (arith, h))
drop-length (suc n) [] h = refl
drop-length (suc n) (x ∷ xs) h = drop-length n xs (omega (arith, h))

-- What the program hands to the kernel.
abbrev pub test_buffer : List ℕ
test_buffer = header_bytes test_header ++ test_payload

-- `malloc` succeeds in every state.
abbrev pub MallocSucceeds : Machine → Type 0
MallocSucceeds m = (n : ℕ) (s : State m.Kern) → (block : List ℕ) × ((m.malloc n s).0 ≡ some block)

length-test_buffer : length test_buffer ≡ 24
unfolding header_bytes to_bytes
length-test_buffer = refl

-- What the program checks of the buffer that it gets back holds of the one that it has sent.
retrieved-done :
    {K : Type 0} (s : State K)
    → (print_payload (drop sizeof_header test_buffer) (header_at test_buffer).length
          >> ((if not (same_header (header_at test_buffer) test_header)
                then exit_failure
                else pure tt)
              >> (if not (
                    equal_bytes
                      (take test_header.length (drop sizeof_header test_buffer))
                      test_payload)
                  then exit_failure
                  else pure tt)))
        s
      ≡ done tt s
unfolding print_payload header_at header_bytes same_header equal_bytes to_bytes of_bytes
retrieved-done s = refl

sent-done : {K : Type 0} (s : State K) → print_payload test_payload payload_size s ≡ done tt s
unfolding print_payload
sent-done s = refl

module _ {m : Machine} {v : View m} (c : Contract v) (room : MallocSucceeds m) where
  malloc-empty :
      (t : State m.Kern)
      → (block : List ℕ) × ((m.malloc 24 t).0 ≡ some block)
        × (drop 24 block ≡ [])
        × (length block ≡ 24)
  malloc-empty t =
      let (block, e) = room 24 t in
      let n = c.malloc_length 24 t e in (block, e, drop-length 24 block n, n)

  test_mdp1-Passes :
      {b : ℕ} {s : State m.Kern}
      → v.accepted 1 test_buffer ≡ true
      → PageReady v b false s
      → Passes (λ _ t. PageReady v b true t) (test_mdp1 m b m.page_size s)
  unfolding test_mdp1
  test_mdp1-Passes {b} ok r = bind (enable-Passes c b r) λ _ t r₁.
      let (block, e, empty, n) = malloc-empty t in
      rw (e, empty, sent-done (m.malloc 24 t).1, append-nil test_buffer)
        (bind (set-Passes c b 1 test_buffer ok (Kept-Ready (c.malloc_kept 24 t) r₁)) λ _ u r₂.
          bind (verify-Passes c b b m.page_size (λ mem h. h) r₂.0) λ _ w r₃.
            let (fresh, f, blank, k) = malloc-empty w in
            let after = c.malloc_kept 24 w in
            let g =
              get-passes c b test_buffer fresh (rw after.stored (rw r₃.1 r₂.1))
                (omega (arith, length-test_buffer)) (Kept-Ready after r₃.0) in
            rw (f, g.1, length-test_buffer, blank, append-nil test_buffer, retrieved-done g.0)
              (passes (Kept-Ready g.2 (Kept-Ready after r₃.0))))

-- On any machine that keeps the contract and takes the program's buffer (a packed header of 8
-- bytes and 16 bytes of payload) for well-formed metadata, test3 goes through and returns 0, with
-- the page table of its page not expanded at the end, if `malloc` succeeds, and the allocation of
-- the page succeeds with one whose table is not expanded.
pub test3-Passes :
    {m : Machine} {v : View m} (c : Contract v) {b : ℕ} {s : State m.Kern}
    → MallocSucceeds m
    → v.accepted 1 test_buffer ≡ true
    → Allocates v m.page_size s b
    → Passes (Succeeds v b) (test3 m s)
unfolding test3
test3-Passes {m} c {b} room ok al = unchecked-Passes c _ al λ t r.
    bind (test_mdp1-Passes c room ok r) λ _ u q.
      bind (disable-Passes c b q)
        λ _ w p. bind (verify-Passes c b b m.page_size (λ mem h. h) p) λ _ x h. end-Passes c h.0
