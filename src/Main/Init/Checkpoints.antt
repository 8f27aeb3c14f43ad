-- ===== src/Main/Init/Checkpoints.antt =====
-- The list of the checkpoints in `init` of sysbench.c: read, limited and sorted.
use mathlib.Core.List.{append_assoc, append-nil}
use bits_on_demand_pte_te.Prelude.{
  ℕ, zero, suc, ◌+◌, ◌-◌, ◌%◌, ◌^◌, ◌≤◌, ◌<◌, ◌≡◌, ◌⊎◌, refl, sym, ap, ◌∙◌, Bool, true, false,
  Bool-cases, inl, inr, ◌||◌, some, List, [], ◌∷◌, ◌++◌, ◌==◌, leb, ltb, if◌then◌else◌, arith,
}
use bits_on_demand_pte_te.Prelude.Lists.{length, length-append}
use bits_on_demand_pte_te.Pte.Machine.{ℤ, pos, negsuc}
use bits_on_demand_pte_te.Options.Names.{Text}
use bits_on_demand_pte_te.Options.Size.{strtol}
use bits_on_demand_pte_te.Options.Outcome.{parsed, ◌>>=◌}
use bits_on_demand_pte_te.Main.Init.{
  max_checkpoints, read_checkpoints, checkpoint_cmp, Qsort, parse_checkpoints,
}

pub data Perm : List ℕ → List ℕ → Type 0 where
  nothing : Perm [] []
  same : {x : ℕ} {xs ys : List ℕ} → Perm xs ys → Perm (x ∷ xs) (x ∷ ys)
  swapped : {x y : ℕ} {xs : List ℕ} → Perm (x ∷ y ∷ xs) (y ∷ x ∷ xs)
  joined : {xs ys zs : List ℕ} → Perm xs ys → Perm ys zs → Perm xs zs

abbrev pub Every : (ℕ → Type 0) → List ℕ → Type 0
Every P [] = Unit
Every P (x ∷ xs) = P x × Every P xs

pub Every-Perm : (P : ℕ → Type 0) {xs ys : List ℕ} → Perm xs ys → Every P ys → Every P xs
Every-Perm P nothing e = tt
Every-Perm P (same p) (e, es) = (e, Every-Perm P p es)
Every-Perm P swapped (e, (f, es)) = (f, (e, es))
Every-Perm P (joined p q) e = Every-Perm P p (Every-Perm P q e)

-- A comparison does not say that the first is larger.
abbrev pub not_above : ℤ → Bool
not_above (pos zero) = true
not_above (pos (suc n)) = false
not_above (negsuc n) = true

-- Each element is not above the next one.
abbrev pub Sorted : (ℕ → ℕ → Bool) → List ℕ → Type 0
Sorted le [] = Unit
Sorted le (x ∷ []) = Unit
Sorted le (x ∷ y ∷ xs) = (le x y ≡ true) × Sorted le (y ∷ xs)

-- What `qsort` promises: for a comparison that orders the elements, it sorts them.
abbrev pub IsQsort : Qsort → Type 1
IsQsort qsort =
    (cmp : ℕ → ℕ → ℤ) (P : ℕ → Type 0) (xs : List ℕ)
    → Every P xs
    → ((a b : ℕ) → P a → P b → (not_above (cmp a b) ≡ true) ⊎ (not_above (cmp b a) ≡ true))
    → ((a b c : ℕ)
        → P a
        → P b
        → P c
        → not_above (cmp a b) ≡ true
        → not_above (cmp b c) ≡ true
        → not_above (cmp a c) ≡ true)
    → Perm (qsort cmp xs) xs × Sorted (λ a b. not_above (cmp a b)) (qsort cmp xs)

-- The values fit an int.
abbrev pub Small : ℕ → Type 0
Small n = n < 2 ^ 31

not_above-int_of :
    (d n : ℕ) → not_above (if ltb d (2 ^ 31) then pos d else negsuc n) ≡ (d == 0 || leb (2 ^ 31) d)
not_above-int_of zero n = refl
not_above-int_of (suc d) n =
    let positive : (suc d == 0) ≡ false = ground arith in
    elim (Bool-cases (ltb (suc d) (2 ^ 31))) [
      | inl y ↦
          let large : leb (2 ^ 31) (suc d) ≡ false = ground (arith, y) in
          rw (y, positive, large) refl
      | inr y ↦
          let large : leb (2 ^ 31) (suc d) ≡ true = ground (arith, y) in
          rw (y, positive, large) refl
    ]

wrapped_difference :
    (a b d : ℕ)
    → Small a
    → Small b
    → d ≡ (a % 2 ^ 32 + (2 ^ 32 - b % 2 ^ 32)) % 2 ^ 32
    → (d == 0 || leb (2 ^ 31) d) ≡ leb a b
wrapped_difference a b d p q e = ground (arith, p, q, e)

-- Of numbers that fit an int the difference has the right sign.
checkpoint_cmp-leb : (a b : ℕ) → Small a → Small b → not_above (checkpoint_cmp a b) ≡ leb a b
unfolding checkpoint_cmp
checkpoint_cmp-leb a b p q =
    let d = (a % 2 ^ 32 + (2 ^ 32 - b % 2 ^ 32)) % 2 ^ 32 in
    not_above-int_of d (2 ^ 32 - 1 - d) ∙ wrapped_difference a b d p q refl

abbrev pub Ascending : List ℕ → Type 0
Ascending [] = Unit
Ascending (x ∷ []) = Unit
Ascending (x ∷ y ∷ xs) = (x ≤ y) × Ascending (y ∷ xs)

le_of_leb : (a b : ℕ) → leb a b ≡ true → a ≤ b
le_of_leb a b h = ground (arith, h)

Ascending-of_Sorted :
    (xs : List ℕ)
    → Every Small xs
    → Sorted (λ a b. not_above (checkpoint_cmp a b)) xs
    → Ascending xs
Ascending-of_Sorted [] e s = tt
Ascending-of_Sorted (x ∷ []) e s = tt
Ascending-of_Sorted (x ∷ y ∷ xs) (e, (f, es)) (h, s) =
    (le_of_leb x y (sym (checkpoint_cmp-leb x y e f) ∙ h), Ascending-of_Sorted (y ∷ xs) (f, es) s)

leb_total : (a b : ℕ) → (leb a b ≡ true) ⊎ (leb b a ≡ true)
leb_total a b = elim (Bool-cases (leb a b)) [ inl y ↦ inl y | inr n ↦ inr (ground (arith, n)) ]

leb_trans : (a b c : ℕ) → leb a b ≡ true → leb b c ≡ true → leb a c ≡ true
leb_trans a b c p q = ground (arith, p, q)

-- The strings are decimal numbers that fit an int, and these are the numbers.
pub data Reads : List Text → List ℕ → Type 0 where
  no_more : Reads [] []
  number :
      {val : Text} {vals : List Text} {n : ℕ} {ns : List ℕ}
      → strtol val ≡ (pos n, [])
      → Small n
      → Reads vals ns
      → Reads (val ∷ vals) (n ∷ ns)

Every-Reads : {vals : List Text} {ns : List ℕ} → Reads vals ns → Every Small ns
Every-Reads no_more = tt
Every-Reads (number e h r) = (h, Every-Reads r)

room : (a b n : ℕ) → a + suc b ≤ n → ltb n (a + 1) ≡ false
room a b n h = ground (arith, h)

read_checkpoints-Reads :
    {vals : List Text} {ns : List ℕ} (found : List ℕ)
    → Reads vals ns
    → length found + length ns ≤ max_checkpoints
    → read_checkpoints vals found ≡ parsed (found ++ ns)
unfolding read_checkpoints
read_checkpoints-Reads found no_more h = ap parsed (sym (append-nil found))
read_checkpoints-Reads found (number {n = n} {ns = ns} e small r) h =
    let fits : ltb n (2 ^ 31) ≡ true = ground (arith, small) in
    let free = room (length found) (length ns) max_checkpoints h in
    let longer : length (found ++ n ∷ []) + length ns ≤ max_checkpoints =
      omega (arith, h, length-append found (n ∷ [])) in
    rw (e, fits, free)
      (read_checkpoints-Reads (found ++ n ∷ []) r longer
        ∙ ap parsed (append_assoc found (n ∷ []) ns))

pub Perm-refl : (xs : List ℕ) → Perm xs xs
Perm-refl [] = nothing
Perm-refl (x ∷ xs) = same (Perm-refl xs)

module _ (qsort : Qsort) (sorts : IsQsort qsort) where
  qsort-Ascending :
      (xs : List ℕ)
      → Every Small xs
      → Perm (qsort checkpoint_cmp xs) xs × Ascending (qsort checkpoint_cmp xs)
  qsort-Ascending xs e =
      let (perm, sorted) =
        sorts checkpoint_cmp Small xs e
          (λ a b p q. elim (leb_total a b) [
            | inl y ↦ inl (checkpoint_cmp-leb a b p q ∙ y)
            | inr y ↦ inr (checkpoint_cmp-leb b a q p ∙ y)
          ])
          (λ a b c p q r h k.
            checkpoint_cmp-leb a c p r
            ∙ leb_trans a b c (sym (checkpoint_cmp-leb a b p q) ∙ h)
                (sym (checkpoint_cmp-leb b c q r) ∙ k)) in
      (perm, Ascending-of_Sorted (qsort checkpoint_cmp xs) (Every-Perm Small perm e) sorted)

  sorted_or_empty :
      (ns : List ℕ)
      → Every Small ns
      → let cs = if length ns == 0 then [] else qsort checkpoint_cmp ns in Perm cs ns × Ascending cs
  sorted_or_empty [] e = (nothing, tt)
  sorted_or_empty (n ∷ ns) e =
      let some_left : (suc (length ns) == 0) ≡ false = ground arith in
      rw some_left (qsort-Ascending (n ∷ ns) e)

  -- If the values of --report-checkpoints are at most 256 decimal numbers that fit an int, and `qsort`
  -- sorts by comparisons that order the elements, the checkpoints are these numbers in ascending
  -- order.
  pub parse_checkpoints-Ascending :
      (vals : List Text) (ns : List ℕ)
      → Reads vals ns
      → length ns ≤ max_checkpoints
      → (cs : List ℕ) × (parse_checkpoints qsort (some vals) ≡ parsed cs)
        × Perm cs ns
        × Ascending cs
  unfolding parse_checkpoints
  parse_checkpoints-Ascending vals ns r h =
      let found = read_checkpoints-Reads [] r (omega (arith, h)) in
      let (perm, ascending) = sorted_or_empty ns (Every-Reads r) in
      (
        if length ns == 0 then [] else qsort checkpoint_cmp ns,
        ap
            (λ o.
              o >>= λ found. parsed (if length found == 0 then [] else qsort checkpoint_cmp found))
            found,
        perm,
        ascending,
      )
