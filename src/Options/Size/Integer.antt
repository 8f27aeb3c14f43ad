-- ===== src/Options/Size/Integer.antt =====
-- The number that sb_opt_to_int of sb_options.c takes a string for.
use bits_on_demand_pte_te.Prelude.{
  if◌then◌else◌, ◌==◌, ℕ, zero, suc, ◌+◌, ◌-◌, ◌*◌, ◌≡◌, refl, ap, ◌∙◌, Bool, true, false, Option,
  none, some, List, [], ◌∷◌, ◌++◌, arith, leb, ltb, ◌^◌,
}
use bits_on_demand_pte_te.Pte.Machine.{ℤ, pos, negsuc}
use bits_on_demand_pte_te.Options.Names.{Text}
use bits_on_demand_pte_te.Options.Config.{is_space}
use bits_on_demand_pte_te.Options.Size.{
  after_space, in_long, is_digit, scan_digits, skip_space, starts_digit, signed, clamped,
  long_bound, signed_digits, strtol, whole_int, sb_opt_to_int,
}
use bits_on_demand_pte_te.Options.Size.Value.{AllDigits, decimal}

scan_digits-digits :
    (ds r : Text) (n : ℕ)
    → AllDigits ds
    → starts_digit r ≡ false
    → scan_digits (ds ++ r) n ≡ (decimal n ds, r)
unfolding scan_digits
scan_digits-digits [] [] n p h = refl
scan_digits-digits [] (c ∷ r) n p h = rw h refl
scan_digits-digits (d ∷ ds) r n p h = rw p.0 (scan_digits-digits ds r (n * 10 + (d - b'0')) p.1 h)

signed_digits-digits :
    (whole : Text) (negative : Bool) (d : ℕ) (ds r : Text)
    → AllDigits (d ∷ ds)
    → starts_digit r ≡ false
    → signed_digits whole negative ((d ∷ ds) ++ r)
      ≡ (signed negative (clamped (long_bound negative) (decimal 0 (d ∷ ds))), r)
unfolding signed_digits
signed_digits-digits whole negative d ds r p h =
    ap (λ b. if b then in_long negative (scan_digits ((d ∷ ds) ++ r) 0) else (pos 0, whole)) p.0
    ∙ ap (in_long negative) (scan_digits-digits (d ∷ ds) r 0 p h)

not_space : (d : ℕ) → is_digit d ≡ true → is_space d ≡ false
not_space d h = ground arith

not_minus : (d : ℕ) → is_digit d ≡ true → (d == b'-') ≡ false
not_minus d h = ground arith

not_plus : (d : ℕ) → is_digit d ≡ true → (d == b'+') ≡ false
not_plus d h = ground arith

skip_space-digit : (d : ℕ) (t : Text) → is_digit d ≡ true → skip_space (d ∷ t) ≡ d ∷ t
unfolding skip_space
skip_space-digit d t h = rw (not_space d h) refl

after_space-digit :
    (whole : Text) (d : ℕ) (t : Text)
    → is_digit d ≡ true
    → after_space whole (d ∷ t) ≡ signed_digits whole false (d ∷ t)
after_space-digit whole d t h = rw (not_minus d h, not_plus d h) refl

-- A string of digits, with a minus sign or without one.
abbrev pub with_sign : Bool → Text → Text
with_sign true t = b'-' ∷ t
with_sign false t = t

strtol-digits :
    (negative : Bool) (d : ℕ) (ds r : Text)
    → AllDigits (d ∷ ds)
    → starts_digit r ≡ false
    → strtol (with_sign negative ((d ∷ ds) ++ r))
      ≡ (signed negative (clamped (long_bound negative) (decimal 0 (d ∷ ds))), r)
unfolding strtol skip_space
strtol-digits true d ds r p h = signed_digits-digits (b'-' ∷ ((d ∷ ds) ++ r)) true d ds r p h
strtol-digits false d ds r p h =
    let whole = (d ∷ ds) ++ r in
    ap (after_space whole) (skip_space-digit d (ds ++ r) p.0)
    ∙ after_space-digit whole d (ds ++ r) p.0
    ∙ signed_digits-digits whole false d ds r p h

-- A number that does not fit a `long` does not fit an `int` either.
whole_int-clamped :
    (negative : Bool) (n : ℕ) (r : Text)
    → whole_int (signed negative (clamped (long_bound negative) n), r)
      ≡ whole_int (signed negative n, r)
whole_int-clamped negative n (c ∷ r) = refl
whole_int-clamped true zero [] = refl
whole_int-clamped false zero [] = refl
whole_int-clamped true (suc n) [] = ground arith
whole_int-clamped false (suc n) [] = ground arith

-- The largest absolute value that an `int` of 32 bits has with this sign.
abbrev pub int_limit : Bool → ℕ
int_limit true = 2147483648
int_limit false = 2147483647

-- The integer with a sign and an absolute value, the sign of 0 being none.
abbrev pub integer : Bool → ℕ → ℤ
integer negative zero = pos 0
integer true (suc n) = negsuc n
integer false (suc n) = pos (suc n)

-- The result for a number and the text behind it; none is the end of the program.
abbrev pub int_value : Bool → ℕ → Text → Option ℤ
int_value negative n (c ∷ r) = none
int_value negative n [] = if leb n (int_limit negative) then some (integer negative n) else none

whole_int-int_value :
    (negative : Bool) (n : ℕ) (r : Text) → whole_int (signed negative n, r) ≡ int_value negative n r
whole_int-int_value negative n (c ∷ r) = refl
whole_int-int_value true zero [] = refl
whole_int-int_value false zero [] = refl
whole_int-int_value true (suc n) [] =
    let fits : ltb n (2 ^ 31) ≡ leb (suc n) 2147483648 = ground arith in rw fits refl
whole_int-int_value false (suc n) [] =
    let fits : ltb (suc n) (2 ^ 31) ≡ leb (suc n) 2147483647 = ground arith in rw fits refl

-- An integer option whose string is an optional minus sign, digits, at least one, and a text behind
-- them that starts with no digit, has the number of the digits with that sign, if the text behind
-- them is empty and the number is at most 2147483647, or 2147483648 with the minus sign; otherwise
-- the program exits with a failure.
pub sb_opt_to_int-digits :
    (negative : Bool) (d : ℕ) (ds r : Text) (vs : List Text)
    → AllDigits (d ∷ ds)
    → starts_digit r ≡ false
    → sb_opt_to_int (with_sign negative ((d ∷ ds) ++ r) ∷ vs)
      ≡ int_value negative (decimal 0 (d ∷ ds)) r
unfolding sb_opt_to_int
sb_opt_to_int-digits negative d ds r vs p h =
    ap whole_int (strtol-digits negative d ds r p h)
    ∙ whole_int-clamped negative (decimal 0 (d ∷ ds)) r
    ∙ whole_int-int_value negative (decimal 0 (d ∷ ds)) r
