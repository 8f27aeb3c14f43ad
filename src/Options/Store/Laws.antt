-- ===== src/Options/Store/Laws.antt =====
-- The list of options as a map from names to options.
use mathlib.Core.Option
use bits_on_demand_pte_te.Prelude.{
  ◌≡◌, refl, sym, ap, subst, ◌∙◌, Bool, true, false, true≢false, Bool-cases, inl, inr, Option, none,
  some, [], ◌∷◌, ◌++◌, if◌then◌else◌, arith,
}
use bits_on_demand_pte_te.Options.Names.{Text, convert_dashes}
use bits_on_demand_pte_te.Options.Names.Laws.{NoNull, same_name, same_name-convert_dashes}
use bits_on_demand_pte_te.Options.Store.{
  Entry, Options, new_option, find_option, add_option, update_option,
}

abbrev pub Named : Options → Type 0
Named [] = Unit
Named (opt ∷ options) = NoNull opt.name × Named options

-- Two tests that hold together.
Bool-ext : (a b : Bool) → (a ≡ true → b ≡ true) → (b ≡ true → a ≡ true) → a ≡ b
Bool-ext true true f g = refl
Bool-ext true false f g = absurd (true≢false (sym (f refl)))
Bool-ext false true f g = absurd (true≢false (sym (g refl)))
Bool-ext false false f g = refl

pub convert_dashes_idem : (s : Text) → convert_dashes (convert_dashes s) ≡ convert_dashes s
unfolding convert_dashes
convert_dashes_idem [] = refl
convert_dashes_idem (c ∷ s) = ground (arith, convert_dashes_idem s)

pub NoNull-convert_dashes : (s : Text) → NoNull s → NoNull (convert_dashes s)
unfolding convert_dashes
NoNull-convert_dashes [] n = n
NoNull-convert_dashes (c ∷ s) n = (ground arith, NoNull-convert_dashes s n.1)

-- A name may be replaced by one with the same conversion, on the left and on the right.
pub same_name-left :
    (s t u : Text)
    → NoNull s
    → NoNull t
    → NoNull u
    → convert_dashes s ≡ convert_dashes t
    → same_name s u ≡ same_name t u
same_name-left s t u p q r e =
    Bool-ext (same_name s u) (same_name t u)
      (λ h. (same_name-convert_dashes t u q r).1 (sym e ∙ (same_name-convert_dashes s u p r).0 h))
      (λ h. (same_name-convert_dashes s u p r).1 (e ∙ (same_name-convert_dashes t u q r).0 h))

pub same_name_sym : (s t : Text) → NoNull s → NoNull t → same_name s t ≡ same_name t s
same_name_sym s t p q =
    Bool-ext (same_name s t) (same_name t s)
      (λ h. (same_name-convert_dashes t s q p).1 (sym ((same_name-convert_dashes s t p q).0 h)))
      (λ h. (same_name-convert_dashes s t p q).1 (sym ((same_name-convert_dashes t s q p).0 h)))

pub same_name-right :
    (s t u : Text)
    → NoNull s
    → NoNull t
    → NoNull u
    → convert_dashes t ≡ convert_dashes u
    → same_name s t ≡ same_name s u
same_name-right s t u p q r e =
    same_name_sym s t p q ∙ same_name-left t u s q r p e ∙ same_name_sym u s r p

pub same_name_refl : (s : Text) → NoNull s → same_name s s ≡ true
same_name_refl s p = (same_name-convert_dashes s s p p).1 refl

pub find_option-same :
    (options : Options) (n m : Text)
    → Named options
    → NoNull n
    → NoNull m
    → same_name n m ≡ true
    → find_option options n ≡ find_option options m
unfolding find_option
find_option-same [] n m a p q e = refl
find_option-same (opt ∷ options) n m a p q e =
    rw
      (
        same_name-right opt.name n m a.0 p q ((same_name-convert_dashes n m p q).0 e),
        find_option-same options n m a.1 p q e,
      )
      refl

-- A write to the option of a name that keeps its name.
pub find_option-update_option :
    (options : Options) (n m : Text) (f : Entry → Entry)
    → ((opt : Entry) → (f opt).name ≡ opt.name)
    → Named options
    → NoNull n
    → NoNull m
    → find_option (update_option options n f) m
      ≡ (if same_name n m then Option.map f (find_option options m) else find_option options m)
unfolding find_option update_option
find_option-update_option [] n m f k a p q = ground arith
find_option-update_option (opt ∷ options) n m f k a p q =
    let same = same_name-convert_dashes in
    elim (Bool-cases (same_name opt.name n)) [
      | inl here ↦
          let e = same_name-left opt.name n m a.0 p q ((same opt.name n a.0 p).0 here) in
          let kept = ap (λ s. same_name s m) (k opt) in
          elim (Bool-cases (same_name opt.name m)) [
            | inl hit ↦ rw (here, kept ∙ hit, sym e ∙ hit, hit) refl
            | inr miss ↦ rw (here, kept ∙ miss, sym e ∙ miss, miss) refl
          ]
      | inr there ↦ elim (Bool-cases (same_name n m)) [
        | inl alike ↦
            let e = same_name-right opt.name n m a.0 p q ((same n m p q).0 alike) in
            rw (there, alike, ← e, there)
              (find_option-update_option options n m f k a.1 p q ∙ rw alike refl)
        | inr apart ↦ elim (Bool-cases (same_name opt.name m)) [
          | inl hit ↦ rw (there, apart, hit) refl
          | inr miss ↦
              rw (there, apart, miss)
                (find_option-update_option options n m f k a.1 p q ∙ rw apart refl)
        ]
      ]
    ]

abbrev pub or_else : Option Entry → Option Entry → Option Entry
or_else (some o) x = some o
or_else none x = x

pub find_option-append :
    (options : Options) (opt : Entry) (m : Text)
    → find_option (options ++ opt ∷ []) m
      ≡ or_else (find_option options m) (if same_name opt.name m then some opt else none)
unfolding find_option
find_option-append [] opt m = refl
find_option-append (o ∷ options) opt m = elim (Bool-cases (same_name o.name m)) [
  | inl here ↦ rw here refl
  | inr there ↦ rw there (find_option-append options opt m)
]

pub new_option-name : (n : Text) → (new_option n).name ≡ n
unfolding new_option
new_option-name n = refl

Named-append :
    (options : Options) (opt : Entry)
    → Named options
    → NoNull opt.name
    → Named (options ++ opt ∷ [])
Named-append [] opt a p = (p, tt)
Named-append (o ∷ options) opt a p = (a.0, Named-append options opt a.1 p)

-- The option that `add_option` gives a pointer to.
abbrev pub found_or_new : Options → Text → Entry
found_or_new options n = elim (find_option options n) [
  | some opt ↦ opt
  | none ↦ new_option (convert_dashes n)
]

or_else-none : (r : Option Entry) → or_else r none ≡ r
or_else-none none = refl
or_else-none (some o) = refl

-- A new option behind the others.
find_option-append_new :
    (options : Options) (n m : Text)
    → Named options
    → NoNull n
    → NoNull m
    → find_option options n ≡ none
    → find_option (options ++ new_option (convert_dashes n) ∷ []) m
      ≡ (if same_name n m then some (new_option (convert_dashes n)) else find_option options m)
find_option-append_new options n m a p q e =
    let named : same_name (new_option (convert_dashes n)).name m ≡ same_name n m =
      ap (λ s. same_name s m) (new_option-name (convert_dashes n))
      ∙ same_name-left (convert_dashes n) n m (NoNull-convert_dashes n p) p q
          (convert_dashes_idem n) in
    let last = find_option-append options (new_option (convert_dashes n)) m in
    elim (Bool-cases (same_name n m)) [
      | inl alike ↦
          rw alike
            (last ∙ rw (sym (find_option-same options n m a p q alike) ∙ e, named ∙ alike) refl)
      | inr apart ↦ rw apart (last ∙ rw (named ∙ apart) (or_else-none (find_option options m)))
    ]

pub find_option-add_option :
    (options : Options) (n m : Text)
    → Named options
    → NoNull n
    → NoNull m
    → find_option (add_option options n) m
      ≡ (if same_name n m then some (found_or_new options n) else find_option options m)
unfolding add_option
find_option-add_option options n m a p q = by_found (find_option options n) refl
  where
    by_found :
        (r : Option Entry)
        → find_option options n ≡ r
        → find_option
            (elim r [ some opt ↦ options | none ↦ options ++ new_option (convert_dashes n) ∷ [] ])
            m
          ≡ (if same_name n m
              then some (elim r [ some opt ↦ opt | none ↦ new_option (convert_dashes n) ])
              else find_option options m)
    by_found (some opt) e = elim (Bool-cases (same_name n m)) [
      | inl alike ↦ rw alike (sym (find_option-same options n m a p q alike) ∙ e)
      | inr apart ↦ rw apart refl
    ]
    by_found none e = find_option-append_new options n m a p q e

pub Named-add_option :
    (options : Options) (n : Text) → Named options → NoNull n → Named (add_option options n)
unfolding add_option
Named-add_option options n a p = by_found (find_option options n)
  where
    by_found :
        (r : Option Entry)
        → Named
            (elim r [ some opt ↦ options | none ↦ options ++ new_option (convert_dashes n) ∷ [] ])
    by_found (some opt) = a
    by_found none = Named-append options (new_option (convert_dashes n)) a (
        subst (λ s. NoNull s) (sym (new_option-name (convert_dashes n)))
          (NoNull-convert_dashes n p))

pub Named-update_option :
    (options : Options) (n : Text) (f : Entry → Entry)
    → ((opt : Entry) → (f opt).name ≡ opt.name)
    → Named options
    → Named (update_option options n f)
unfolding update_option
Named-update_option [] n f k a = a
Named-update_option (opt ∷ options) n f k a = elim (Bool-cases (same_name opt.name n)) [
  | inl here ↦ rw here (subst (λ s. NoNull s) (sym (k opt)) a.0, a.1)
  | inr there ↦ rw there (a.0, Named-update_option options n f k a.1)
]
