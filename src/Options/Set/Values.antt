-- ===== src/Options/Set/Values.antt =====
-- The values that set_option of sb_options.c gives an option for a string, apart from the code.
use mathlib.Core.List.{append_assoc, append-nil}
use bits_on_demand_pte_te.Prelude.{
  ℕ, ◌≡◌, ◌≢◌, refl, sym, ap, subst, ◌∙◌, Bool, true, false, true≢false, Bool-cases, inl, inr,
  Option, none, some, List, [], ◌∷◌, ◌++◌, ◌==◌, ◌&&◌, ◌||◌, if◌then◌else◌, arith,
}
use bits_on_demand_pte_te.Options.Names.{Text, text}
use bits_on_demand_pte_te.Options.Names.Laws.{NoNull, same_name}
use bits_on_demand_pte_te.Options.Set.Equal.{equal_sound}
use bits_on_demand_pte_te.Options.Store.{
  ArgType, type_null, type_bool, type_int, type_size, type_double, type_string, type_list,
  type_file, Validate, Entry, Options, find_option,
}
use bits_on_demand_pte_te.Options.Store.Laws.{Named, found_or_new}
use bits_on_demand_pte_te.Options.Set.{
  equal, is_on, is_off, with_token, tokens, values_of, is_accepted, set_option,
}
use bits_on_demand_pte_te.Options.Set.Lookup.{
  with_values, is_some, emptied, assigned, is_assigned, find_option-set_option,
}

-- Some bytes and no comma.
abbrev pub NoComma : Text → Type 0
NoComma [] = Unit
NoComma (c ∷ t) = (c ≢ b',') × NoComma t

-- The parts of a text between commas, without the empty ones.
pub data Parts : Text → List Text → Type 0 where
  no_part : Parts [] []
  skipped : {t : Text} {parts : List Text} → Parts t parts → Parts (b',' ∷ t) parts
  last_part : {c : ℕ} {part : Text} → NoComma (c ∷ part) → Parts (c ∷ part) ((c ∷ part) ∷ [])
  part :
      {c : ℕ} {first t : Text} {parts : List Text}
      → NoComma (c ∷ first)
      → Parts t parts
      → Parts ((c ∷ first) ++ (b',' ∷ t)) ((c ∷ first) ∷ parts)

-- The words for a flag that is on or off.
pub data IsFlag : Text → Bool → Type 0 where
  on_word : IsFlag (text "on") true
  true_word : IsFlag (text "true") true
  one_word : IsFlag (text "1") true
  off_word : IsFlag (text "off") false
  false_word : IsFlag (text "false") false
  zero_word : IsFlag (text "0") false

-- The types whose string is kept as one value.
pub data IsWhole : ArgType → Type 0 where
  whole_int : IsWhole type_int
  whole_size : IsWhole type_size
  whole_double : IsWhole type_double
  whole_string : IsWhole type_string

abbrev pub IsOther : ArgType → Type 0
IsOther type_bool = ⊥
IsOther type = Unit

-- The values for a type and a string, where no string is a null pointer; none, if the string is none of
-- the type.
pub data HasValues : ArgType → Option Text → Option (List Text) → Type 0 where
  flag_alone : HasValues type_bool none (some (text "on" ∷ []))
  flag_on : {v : Text} → IsFlag v true → HasValues type_bool (some v) (some (text "on" ∷ []))
  flag_off : {v : Text} → IsFlag v false → HasValues type_bool (some v) (some [])
  no_flag : {v : Text} → ((b : Bool) → IsFlag v b → ⊥) → HasValues type_bool (some v) none
  no_string : {type : ArgType} → IsOther type → HasValues type none (some [])
  empty_string : {type : ArgType} → IsOther type → HasValues type (some []) (some [])
  no_type : {c : ℕ} {v : Text} → HasValues type_null (some (c ∷ v)) none
  whole :
      {type : ArgType} {c : ℕ} {v : Text}
      → IsWhole type
      → HasValues type (some (c ∷ v)) (some ((c ∷ v) ∷ []))
  list :
      {c : ℕ} {v : Text} {parts : List Text}
      → Parts (c ∷ v) parts
      → HasValues type_list (some (c ∷ v)) (some parts)
  file : {c : ℕ} {v : Text} → HasValues type_file (some (c ∷ v)) (some [])

NoComma-append : (s : Text) (c : ℕ) → NoComma s → c ≢ b',' → NoComma (s ++ c ∷ [])
NoComma-append [] c n h = (h, tt)
NoComma-append (d ∷ s) c n h = (n.0, NoComma-append s c n.1 h)

-- The next comma, behind the bytes of a part that has begun or behind none.
Parts-comma :
    (begun t : Text) (parts : List Text)
    → NoComma begun
    → Parts t parts
    → Parts (begun ++ (b',' ∷ t)) (with_token begun parts)
Parts-comma [] t parts n p = skipped p
Parts-comma (c ∷ begun) t parts n p = part n p

Parts-tokens : (t begun : Text) → NoComma begun → Parts (begun ++ t) (tokens t begun)
unfolding tokens
Parts-tokens [] [] n = no_part
Parts-tokens [] (c ∷ begun) n =
    subst (λ t. Parts t ((c ∷ begun) ∷ [])) (sym (append-nil (c ∷ begun))) (last_part n)
Parts-tokens (d ∷ t) begun n = elim (Bool-cases (d == b',')) [
  | inl comma ↦
      let same : d ≡ b',' = ground (arith, comma) in
      rw comma (
        subst (λ e. Parts (begun ++ (e ∷ t)) (with_token begun (tokens t []))) (sym same)
          (Parts-comma begun t (tokens t []) n (Parts-tokens t [] tt)))
  | inr other ↦
      let apart : d ≢ b',' = λ e. absurd (ground (arith, other, e)) in
      rw other (
        subst (λ s. Parts s (tokens t (begun ++ d ∷ []))) (append_assoc begun (d ∷ []) t)
          (Parts-tokens t (begun ++ d ∷ []) (NoComma-append begun d n apart)))
]

flag : (w v : Text) (b : Bool) → IsFlag w b → equal v w ≡ true → IsFlag v b
flag w v b word e = subst (λ t. IsFlag t b) (sym (equal_sound v w e)) word

no_word :
    (v : Text)
    → (equal v (text "on") || (equal v (text "true") || equal v (text "1"))) ≡ false
    → (equal v (text "off") || (equal v (text "false") || equal v (text "0"))) ≡ false
    → (b : Bool) → IsFlag v b
    → ⊥
no_word _ m n _ on_word = true≢false m
no_word _ m n _ true_word = true≢false m
no_word _ m n _ one_word = true≢false m
no_word _ m n _ off_word = true≢false n
no_word _ m n _ false_word = true≢false n
no_word _ m n _ zero_word = true≢false n

-- One of three words.
three :
    (v a b c : Text) (on : Bool)
    → IsFlag a on
    → IsFlag b on
    → IsFlag c on
    → (equal v a || (equal v b || equal v c)) ≡ true
    → IsFlag v on
three v a b c on f g h e = elim (Bool-cases (equal v a)) [
  | inl y ↦ flag a v on f y
  | inr n ↦ elim (Bool-cases (equal v b)) [
    | inl y ↦ flag b v on g y
    | inr m ↦ flag c v on h (rw (n, m) at e)
  ]
]

HasValues-flag : (v : Text) → HasValues type_bool (some v) (values_of type_bool (some v))
unfolding values_of
HasValues-flag v = elim (Bool-cases (is_on v)) [
  | inl y ↦
      rw y
        (flag_on (three v (text "on") (text "true") (text "1") true on_word true_word one_word y))
  | inr n ↦ elim (Bool-cases (is_off v)) [
    | inl y ↦
        rw (n, y)
          (flag_off
            (three v (text "off") (text "false") (text "0") false off_word false_word zero_word y))
    | inr m ↦ rw (n, m) (no_flag (no_word v n m))
  ]
]

HasValues-values_of :
    (type : ArgType) (value : Option Text) → HasValues type value (values_of type value)
unfolding values_of
HasValues-values_of type_bool none = flag_alone
HasValues-values_of type_bool (some v) = HasValues-flag v
HasValues-values_of type_null none = no_string tt
HasValues-values_of type_int none = no_string tt
HasValues-values_of type_size none = no_string tt
HasValues-values_of type_double none = no_string tt
HasValues-values_of type_string none = no_string tt
HasValues-values_of type_list none = no_string tt
HasValues-values_of type_file none = no_string tt
HasValues-values_of type_null (some []) = empty_string tt
HasValues-values_of type_int (some []) = empty_string tt
HasValues-values_of type_size (some []) = empty_string tt
HasValues-values_of type_double (some []) = empty_string tt
HasValues-values_of type_string (some []) = empty_string tt
HasValues-values_of type_list (some []) = empty_string tt
HasValues-values_of type_file (some []) = empty_string tt
HasValues-values_of type_null (some (c ∷ v)) = no_type
HasValues-values_of type_int (some (c ∷ v)) = whole whole_int
HasValues-values_of type_size (some (c ∷ v)) = whole whole_size
HasValues-values_of type_double (some (c ∷ v)) = whole whole_double
HasValues-values_of type_string (some (c ∷ v)) = whole whole_string
HasValues-values_of type_list (some (c ∷ v)) = list (Parts-tokens (c ∷ v) [] tt)
HasValues-values_of type_file (some (c ∷ v)) = file

-- What a validator says; without one every string is allowed.
abbrev pub allows : Option Validate → Text → Option Text → Bool
allows none name value = true
allows (some validate) name value = validate name value

-- The entry with its new type, and the values if there are some and they are allowed.
abbrev pub entry_after : Entry → ArgType → (allowed : Bool) → Option (List Text) → Entry
entry_after opt type true (some values) = record opt { values = values; type = type }
entry_after opt type true none = record opt { values = []; type = type }
entry_after opt type false r = record opt { values = []; type = type }

abbrev pub succeeds : (allowed : Bool) → Option (List Text) → Bool
succeeds true (some values) = true
succeeds true none = false
succeeds false r = false

assigned-entry_after :
    (opt : Entry) (name : Text) (value : Option Text) (type : ArgType)
    → (assigned opt name value type
        ≡ entry_after opt type (allows opt.validate name value) (values_of type value))
      × (is_assigned opt name value type
          ≡ succeeds (allows opt.validate name value) (values_of type value))
unfolding is_accepted
assigned-entry_after opt name value type =
    by_case (allows opt.validate name value) (values_of type value) (is_accepted opt name value)
      (same opt.validate)
  where
    same :
        (v : Option Validate)
        → (elim v [ none ↦ true | some validate ↦ validate name value ]) ≡ allows v name value
    same none = refl
    same (some validate) = refl

    by_case :
        (b : Bool) (r : Option (List Text)) (c : Bool)
        → c ≡ b
        → ((if c then with_values r (emptied type opt) else emptied type opt)
            ≡ entry_after opt type b r)
          × ((c && is_some r) ≡ succeeds b r)
    by_case true (some values) c e = rw e (refl, refl)
    by_case true none c e = rw e (refl, refl)
    by_case false r c e = rw e (refl, refl)

-- `set_option` for a type other than a file, where the options' names, the option's name and the name
-- looked up are strings without a byte 0. The string has values `r` for the type: a flag has "on" for
-- the words on, true and 1 or no string, nothing for the words off, false and 0, and is refused for
-- any other string; without a string or with an empty one another type has none; a list has the parts
-- between commas that are not empty, a number or string type the whole string, and the unknown type is
-- refused. Afterwards a name that is the same as the option's finds the entry that was there, or a new
-- one, with the new type, and with the values if the entry's validator allows the string and it is not
-- refused, otherwise with none, and the call fails exactly then. Every other name finds what it found
-- before.
pub set_option-HasValues :
    (read_file : Text → Option Text) (options : Options) (n m : Text) (value : Option Text)
    (type : ArgType)
    → type ≢ type_file
    → Named options
    → NoNull n
    → NoNull m
    → (r : Option (List Text)) × HasValues type value r
      × (find_option (set_option read_file options n value type).0 m ≡ (
          if same_name n m
          then some (
              let opt = found_or_new options n in
              entry_after opt type (allows opt.validate n value) r)
          else find_option options m))
      × ((set_option read_file options n value type).1
          ≡ succeeds (allows (found_or_new options n).validate n value) r)
set_option-HasValues read_file options n m value type h a p q =
    let found = find_option-set_option read_file options n m value type h a p q in
    let opt = found_or_new options n in
    let spec = assigned-entry_after opt n value type in
    (
      values_of type value,
      HasValues-values_of type value,
      found.0 ∙ ap (λ e. if same_name n m then some e else find_option options m) spec.0,
      found.1 ∙ spec.1,
    )
