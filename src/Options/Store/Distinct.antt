-- ===== src/Options/Store/Distinct.antt =====
-- The list of options as a list without two options of the same name.
use mathlib.Core.Option
use bits_on_demand_pte_te.Prelude.{
  ◌≡◌, refl, sym, ap, subst, ◌∙◌, Bool, true, false, true≢false, arith, Bool-cases, inl, inr,
  Option, none, some, [], ◌∷◌, ◌++◌, if◌then◌else◌,
}
use bits_on_demand_pte_te.Options.Names.{Text, convert_dashes}
use bits_on_demand_pte_te.Options.Names.Laws.{NoNull, same_name, same_name-convert_dashes}
use bits_on_demand_pte_te.Options.Store.{
  remove_option, Entry, Options, new_option, find_option, add_option, update_option,
}
use bits_on_demand_pte_te.Options.Store.Laws.{
  same_name-right, same_name-left, Named, convert_dashes_idem, NoNull-convert_dashes, same_name_sym,
  new_option-name, find_option-append, find_option-same, find_option-update_option,
}

-- No two options have the same name, and no name has a byte 0.
abbrev pub IsMap : Options → Type 0
IsMap [] = Unit
IsMap (opt ∷ options) = NoNull opt.name × (find_option options opt.name ≡ none) × IsMap options

pub Named-of_IsMap : (options : Options) → IsMap options → Named options
Named-of_IsMap [] a = tt
Named-of_IsMap (opt ∷ options) a = (a.0, Named-of_IsMap options a.2)

some≢none : (opt : Entry) → some opt ≡ none → ⊥
some≢none opt e =
    absurd (true≢false (ap (λ (r : Option Entry). elim r [ some o ↦ true | none ↦ false ]) e))

-- A name that is not found is not that of the first option.
not_found :
    (opt : Entry) (options : Options) (m : Text)
    → find_option (opt ∷ options) m ≡ none
    → (same_name opt.name m ≡ false) × (find_option options m ≡ none)
unfolding find_option
not_found opt options m e = elim (Bool-cases (same_name opt.name m)) [
  | inl here ↦ absurd (some≢none opt (rw (← e, here) refl))
  | inr there ↦ (there, rw (← e, there) refl)
]

mapped-none :
    (b : Bool) (f : Entry → Entry) (r : Option Entry)
    → r ≡ none
    → (if b then Option.map f r else r) ≡ none
mapped-none true f r e = rw e refl
mapped-none false f r e = e

pub IsMap-update_option :
    (options : Options) (n : Text) (f : Entry → Entry)
    → ((opt : Entry) → (f opt).name ≡ opt.name)
    → NoNull n
    → IsMap options
    → IsMap (update_option options n f)
unfolding update_option
IsMap-update_option [] n f k p a = a
IsMap-update_option (opt ∷ options) n f k p a = elim (Bool-cases (same_name opt.name n)) [
  | inl here ↦ rw here (subst (λ s. NoNull s) (sym (k opt)) a.0, rw (k opt) a.1, a.2)
  | inr there ↦ rw there (
    a.0,
    find_option-update_option options n opt.name f k (Named-of_IsMap options a.2) p a.0
        ∙ mapped-none (same_name n opt.name) f (find_option options opt.name) a.1,
    IsMap-update_option options n f k p a.2,
  )
]

IsMap-append :
    (options : Options) (opt : Entry)
    → IsMap options
    → NoNull opt.name
    → find_option options opt.name ≡ none
    → IsMap (options ++ opt ∷ [])
unfolding find_option
IsMap-append [] opt a p e = (p, refl, tt)
IsMap-append (o ∷ options) opt a p e =
    let (differs, later) = not_found o options opt.name e in
    let last : find_option (options ++ opt ∷ []) o.name ≡ none =
      find_option-append options opt o.name
      ∙ rw (a.1, same_name_sym opt.name o.name p a.0, differs) refl in
    (a.0, last, IsMap-append options opt a.2 p later)

pub IsMap-add_option :
    (options : Options) (n : Text) → NoNull n → IsMap options → IsMap (add_option options n)
unfolding add_option
IsMap-add_option options n p a = by_found (find_option options n) refl
  where
    by_found :
        (r : Option Entry)
        → find_option options n ≡ r
        → IsMap
            (elim r [ some opt ↦ options | none ↦ options ++ new_option (convert_dashes n) ∷ [] ])
    by_found (some opt) e = a
    by_found none e =
        let name = new_option-name (convert_dashes n) in
        let p' = NoNull-convert_dashes n p in
        let alike =
          (same_name-convert_dashes (convert_dashes n) n p' p).1 (convert_dashes_idem n) in
        IsMap-append options (new_option (convert_dashes n)) a (subst (λ s. NoNull s) (sym name) p')
          (ap (find_option options) name
            ∙ find_option-same options (convert_dashes n) n (Named-of_IsMap options a) p' p alike
            ∙ e)

remove_option-none :
    (options : Options) (n m : Text)
    → find_option options m ≡ none
    → find_option (remove_option options n).0 m ≡ none
unfolding find_option remove_option
remove_option-none [] n m e = refl
remove_option-none (opt ∷ options) n m e =
    let (differs, later) = not_found opt options m e in
    elim (Bool-cases (same_name opt.name n)) [
      | inl here ↦ rw here later
      | inr there ↦ rw (there, differs) (remove_option-none options n m later)
    ]

pub IsMap-remove_option :
    (options : Options) (n : Text) → IsMap options → IsMap (remove_option options n).0
unfolding remove_option
IsMap-remove_option [] n a = tt
IsMap-remove_option (opt ∷ options) n a = elim (Bool-cases (same_name opt.name n)) [
  | inl here ↦ rw here a.2
  | inr there ↦
      rw there (a.0, remove_option-none options n opt.name a.1, IsMap-remove_option options n a.2)
]

-- In a list of options that `remove_option` works on, where names differ and have no byte 0, a name
-- without a byte 0 finds nothing afterwards if it is the same as the removed option's, and what it
-- found before if it is not; the call succeeds exactly if there was such an option.
pub find_option-remove_option :
    (options : Options) (n m : Text)
    → IsMap options
    → NoNull n
    → NoNull m
    → (find_option (remove_option options n).0 m
        ≡ (if same_name n m then none else find_option options m))
      × ((remove_option options n).1
          ≡ (elim (find_option options n) [ none ↦ false | some opt ↦ true ]))
unfolding find_option remove_option
find_option-remove_option [] n m a p q = (ground arith, refl)
find_option-remove_option (opt ∷ options) n m a p q =
    let same = same_name-convert_dashes in
    let rest = find_option-remove_option options n m a.2 p q in
    elim (Bool-cases (same_name opt.name n)) [
      | inl here ↦
          let e = same_name-left opt.name n m a.0 p q ((same opt.name n a.0 p).0 here) in
          elim (Bool-cases (same_name n m)) [
            | inl alike ↦ (
              rw (here, alike)
                  (sym (
                      find_option-same options opt.name m (Named-of_IsMap options a.2) a.0 q
                        (e ∙ alike))
                    ∙ a.1),
              rw here refl,
            )
            | inr apart ↦ (rw (here, apart, e, apart) refl, rw here refl)
          ]
      | inr there ↦ elim (Bool-cases (same_name opt.name m)) [
        | inl hit ↦ (
          elim (Bool-cases (same_name n m)) [
            | inl alike ↦ absurd (
                true≢false (
                  sym hit
                  ∙ same_name-right opt.name m n a.0 q p (sym ((same n m p q).0 alike))
                  ∙ there))
            | inr apart ↦ rw (there, hit, apart) refl
          ],
          rw there rest.1,
        )
        | inr miss ↦ (rw (there, miss) rest.0, rw there rest.1)
      ]
    ]
