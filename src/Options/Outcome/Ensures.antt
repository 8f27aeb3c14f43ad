-- ===== src/Options/Outcome/Ensures.antt =====
-- Properties of the value that is read, if there is one.
use bits_on_demand_pte_te.Prelude.{
  ◌^◌, ◌<◌, ◌≡◌, refl, Bool, true, false, Option, none, some, arith,
}
use bits_on_demand_pte_te.Pte.Machine.{ℤ, pos, negsuc}
use bits_on_demand_pte_te.Options.Outcome.{
  Outcome, ◌>>=◌, parsed, refused, exited, undefined, value_or_exit, unsigned_int, not_negative,
  refuse_if,
}

-- A value has a property if there is one.
abbrev pub Ensures : {A : Type 0} → (A → Type 0) → Outcome A → Type 0
Ensures P (parsed a) = P a
Ensures P refused = Unit
Ensures P exited = Unit
Ensures P undefined = Unit

-- Nothing is said of the value.
pub any : {A : Type 0} (m : Outcome A) → Ensures (λ a. Unit) m
any (parsed a) = tt
any refused = tt
any exited = tt
any undefined = tt

pub bind-Ensures :
    {A B : Type 0} (P : A → Type 0) (Q : B → Type 0) (m : Outcome A) (k : A → Outcome B)
    → Ensures P m
    → ((a : A) → P a → Ensures Q (k a))
    → Ensures Q (m >>= k)
bind-Ensures P Q (parsed a) k p q = q a p
bind-Ensures P Q refused k p q = tt
bind-Ensures P Q exited k p q = tt
bind-Ensures P Q undefined k p q = tt

-- A step whose value does not matter.
pub step-Ensures :
    {A B : Type 0} (Q : B → Type 0) (m : Outcome A) (k : A → Outcome B)
    → ((a : A) → Ensures Q (k a))
    → Ensures Q (m >>= k)
step-Ensures Q m k q = bind-Ensures (λ a. Unit) Q m k (any m) (λ a _. q a)

pub weaken-Ensures :
    {A : Type 0} (P Q : A → Type 0) (m : Outcome A)
    → Ensures P m
    → ((a : A) → P a → Q a)
    → Ensures Q m
weaken-Ensures P Q (parsed a) p q = q a p
weaken-Ensures P Q refused p q = tt
weaken-Ensures P Q exited p q = tt
weaken-Ensures P Q undefined p q = tt

pub value_or_exit-some : (r : Option ℤ) → Ensures (λ n. r ≡ some n) (value_or_exit r)
value_or_exit-some none = tt
value_or_exit-some (some n) = refl

pub not_negative-pos : (n : ℤ) → Ensures (λ k. n ≡ pos k) (not_negative n)
not_negative-pos (pos n) = refl
not_negative-pos (negsuc n) = tt

pub refuse_if-false : (b : Bool) → Ensures (λ u. b ≡ false) (refuse_if b)
refuse_if-false true = tt
refuse_if-false false = refl

pub unsigned_int_lt : (n : ℤ) → unsigned_int n < 2 ^ 32
unsigned_int_lt (pos n) = omega arith
unsigned_int_lt (negsuc n) = omega arith
