-- ===== src/Pte/Process/Pattern.antt =====
-- What `fill` leaves in memory and what `verify_pattern` finds there.
use bits_on_demand_pte_te.Prelude.{
  ℕ, zero, suc, ◌+◌, ◌%◌, ◌≤◌, ◌<◌, ◌≡◌, refl, ◌⊎◌, inl, inr, true, arith, Bool-cases, ==-refl,
  dec_lt, ◌∙◌,
}
use bits_on_demand_pte_te.Pte.Machine.{State}
use bits_on_demand_pte_te.Pte.Process.{done, fill_loop, verify_loop, fill, verify_pattern, update}

-- The bytes at `b`, …, `b + n - 1` count up modulo 256.
abbrev pub Pattern : (ℕ → ℕ) → ℕ → ℕ → Type 0
Pattern mem b n = (i : ℕ) → i < n → mem (b + i) ≡ i % 256

fill_loop_outside :
    (n i b : ℕ) (mem : ℕ → ℕ) (a : ℕ)
    → (a < b + i) ⊎ (b + i + n ≤ a)
    → fill_loop n i b mem a ≡ mem a
unfolding fill_loop
fill_loop_outside zero i b mem a out = refl
fill_loop_outside (suc n) i b mem a out =
    fill_loop_outside n (i + 1) b (update mem (b + i) (i % 256)) a (omega arith) ∙ ground arith

fill_loop_inside :
    (n i b : ℕ) (mem : ℕ → ℕ) (j : ℕ) → i ≤ j → j < i + n → fill_loop n i b mem (b + j) ≡ j % 256
unfolding fill_loop
fill_loop_inside zero i b mem j low high = absurd (omega arith)
fill_loop_inside (suc n) i b mem j low high = elim (dec_lt i j) [
  | yes later ↦ fill_loop_inside n (i + 1) b _ j (omega arith) (omega arith)
  | no now ↦
      fill_loop_outside n (i + 1) b (update mem (b + i) (i % 256)) (b + j) (inl (omega arith))
      ∙ ground arith
]

pub fill_loop-Pattern : (n b : ℕ) (mem : ℕ → ℕ) → Pattern (fill_loop n 0 b mem) b n
fill_loop-Pattern n b mem i h = fill_loop_inside n 0 b mem i (omega arith) (omega arith)

-- A block that lies wholly beside the filled one keeps its pattern.
pub Pattern-fill_loop :
    (n b k a : ℕ) (mem : ℕ → ℕ)
    → (a + k ≤ b) ⊎ (b + n ≤ a)
    → Pattern mem a k
    → Pattern (fill_loop n 0 b mem) a k
Pattern-fill_loop n b k a mem apart p i h =
    fill_loop_outside n 0 b mem (a + i) (omega arith) ∙ p i h

verify_loop-true :
    (n i b : ℕ) (mem : ℕ → ℕ)
    → ((j : ℕ) → i ≤ j → j < i + n → mem (b + j) ≡ j % 256)
    → verify_loop n i b mem ≡ true
unfolding verify_loop
verify_loop-true zero i b mem p = refl
verify_loop-true (suc n) i b mem p =
    rw (p i (omega arith) (omega arith), ==-refl (i % 256))
      (verify_loop-true n (i + 1) b mem (λ j l h. p j (omega arith) (omega arith)))

verify_loop-suc :
    (n i b : ℕ) (mem : ℕ → ℕ)
    → verify_loop (suc n) i b mem ≡ true
    → (mem (b + i) ≡ i % 256) × (verify_loop n (i + 1) b mem ≡ true)
unfolding verify_loop
verify_loop-suc n i b mem e = ground arith

true_of_verify_loop :
    (n i b : ℕ) (mem : ℕ → ℕ)
    → verify_loop n i b mem ≡ true
    → (j : ℕ) → i ≤ j
    → j < i + n
    → mem (b + j) ≡ j % 256
true_of_verify_loop zero i b mem e j l h = absurd (omega arith)
true_of_verify_loop (suc n) i b mem e j l h =
    let (here, later) = verify_loop-suc n i b mem e in
    elim (dec_lt i j) [
      | yes after ↦ true_of_verify_loop n (i + 1) b mem later j (omega arith) (omega arith)
      | no now ↦ let same : i ≡ j = omega arith in rw same at here
    ]

module _ {K : Type 0} (b n : ℕ) (s : State K) where
  pub fill_lem : fill b n s ≡ done tt (record s { mem = fill_loop n 0 b s.mem })
  unfolding fill
  fill_lem = refl

  pub verify_pattern-done : Pattern s.mem b n → verify_pattern b n s ≡ done tt s
  unfolding verify_pattern
  verify_pattern-done p = rw (verify_loop-true n 0 b s.mem (λ j l h. p j (omega arith)))

  -- A check that goes on has found the pattern, and has changed nothing.
  pub verify_pattern_sound :
      {u : Unit {0}} {t : State K} → verify_pattern b n s ≡ done u t → Pattern s.mem b n × (t ≡ s)
  unfolding verify_pattern
  verify_pattern_sound e = elim (Bool-cases (verify_loop n 0 b s.mem)) [
    | inl found ↦
        (λ j h. true_of_verify_loop n 0 b s.mem found j (omega arith) (omega arith), ground arith)
    | inr differs ↦ absurd (ground arith)
  ]
