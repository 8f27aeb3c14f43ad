-- ===== src/Options/Set/Unique.antt =====
-- The states of the list of options that the calls of sb_options.c reach.
use bits_on_demand_pte_te.Prelude.{
  ℕ, zero, suc, ◌-◌, ◌≡◌, refl, Bool, true, false, Bool-cases, inl, inr, Option, none, some, List,
  [], ◌∷◌, ◌==◌, if◌then◌else◌,
}
use bits_on_demand_pte_te.Prelude.Lists.{length}
use bits_on_demand_pte_te.Options.Names.{Text}
use bits_on_demand_pte_te.Options.Names.Laws.{NoNull}
use bits_on_demand_pte_te.Options.Store.{
  ArgType, type_null, type_bool, type_int, type_size, type_double, type_string, type_list,
  type_file, Validate, Entry, Options, find_option, add_option, update_option, remove_option,
}
use bits_on_demand_pte_te.Options.Store.Distinct.{
  IsMap, IsMap-update_option, IsMap-add_option, IsMap-remove_option,
}
use bits_on_demand_pte_te.Options.Config.{
  break_at, read_pair, read_line, read_buffers, fgets, file_buffers, read_config, maxstrlen,
}
use bits_on_demand_pte_te.Options.Set.{
  values_of, accepted_by, read_config_file, set_option, Arg, register_args, sb_register_arg_set,
  first_of, sb_opt_copy,
}

abbrev pub AllNoNull : List Text → Type 0
AllNoNull [] = Unit
AllNoNull (t ∷ ts) = NoNull t × AllNoNull ts

abbrev pub ArgNames : List Arg → Type 0
ArgNames [] = Unit
ArgNames (arg ∷ args) = NoNull arg.name × ArgNames args

-- The files hold no byte 0.
abbrev pub FileNoNull : (Text → Option Text) → Type 0
FileNoNull read_file = (name file : Text) → read_file name ≡ some file → NoNull file

NoNull-break_at : (p : ℕ → Bool) (t : Text) → NoNull t → NoNull (break_at p t).0
unfolding break_at
NoNull-break_at p [] n = tt
NoNull-break_at p (c ∷ t) n = elim (Bool-cases (p c)) [
  | inl e ↦ rw e tt
  | inr e ↦ rw e (n.0, NoNull-break_at p t n.1)
]

IsMap-write :
    (options : Options) (n : Text) (f : Entry → Entry)
    → ((opt : Entry) → (f opt).name ≡ opt.name)
    → NoNull n
    → IsMap options
    → IsMap (update_option (add_option options n) n f)
IsMap-write options n f k p a =
    IsMap-update_option (add_option options n) n f k p (IsMap-add_option options n p a)

IsMap-read_pair :
    (pair : Text × Text) (options : Options)
    → NoNull pair.0
    → IsMap options
    → IsMap (read_pair pair options).0
unfolding read_pair
IsMap-read_pair (name, []) options p a = a
IsMap-read_pair (name, d ∷ t) options p a = IsMap-write options name _ (λ opt. refl) p a

IsMap-read_buffers :
    (lines : List Text) (options : Options)
    → AllNoNull lines
    → IsMap options
    → IsMap (read_buffers lines options).0
unfolding read_buffers read_line
IsMap-read_buffers [] options n a = a
IsMap-read_buffers (line ∷ lines) options n a =
    let first =
      IsMap-read_pair (break_at (λ c. c == b'=') line) options
        (NoNull-break_at (λ c. c == b'=') line n.0) a in
    elim (Bool-cases (read_line line options).1) [
      | inl e ↦ rw e (IsMap-read_buffers lines (read_line line options).0 n.1 first)
      | inr e ↦ rw e first
    ]

NoNull-fgets : (room : ℕ) (t : Text) → NoNull t → NoNull (fgets room t).0 × NoNull (fgets room t).1
unfolding fgets
NoNull-fgets zero t n = (tt, n)
NoNull-fgets (suc room) [] n = (tt, tt)
NoNull-fgets (suc room) (c ∷ t) n =
    let rest = NoNull-fgets room t n.1 in
    elim (Bool-cases (c == 10)) [
      | inl e ↦ rw e ((n.0, tt), n.1)
      | inr e ↦ rw e ((n.0, rest.0), rest.1)
    ]

AllNoNull-file_buffers : (rounds : ℕ) (t : Text) → NoNull t → AllNoNull (file_buffers rounds t)
unfolding file_buffers
AllNoNull-file_buffers zero t n = tt
AllNoNull-file_buffers (suc rounds) [] n = tt
AllNoNull-file_buffers (suc rounds) (c ∷ t) n =
    let buf = NoNull-fgets (maxstrlen - 1) (c ∷ t) n in
    (buf.0, AllNoNull-file_buffers rounds (fgets (maxstrlen - 1) (c ∷ t)).1 buf.1)

IsMap-read_config :
    (file : Text) (options : Options)
    → NoNull file
    → IsMap options
    → IsMap (read_config file options).0
unfolding read_config
IsMap-read_config file options n a =
    IsMap-read_buffers (file_buffers (length file) file) options
      (AllNoNull-file_buffers (length file) file n) a

IsMap-read_config_file :
    (read_file : Text → Option Text) (type : ArgType) (value : Option Text) (options : Options)
    → FileNoNull read_file
    → IsMap options
    → IsMap (read_config_file read_file type value options)
unfolding read_config_file
IsMap-read_config_file read_file type_file (some (c ∷ v)) options h a =
    by_file (read_file (c ∷ v)) refl
  where
    by_file :
        (r : Option Text)
        → read_file (c ∷ v) ≡ r
        → IsMap (elim r [ none ↦ options | some file ↦ (read_config file options).0 ])
    by_file none e = a
    by_file (some file) e = IsMap-read_config file options (h (c ∷ v) file e) a
IsMap-read_config_file read_file type_file (some []) options h a = a
IsMap-read_config_file read_file type_file none options h a = a
IsMap-read_config_file read_file type_null value options h a = a
IsMap-read_config_file read_file type_bool value options h a = a
IsMap-read_config_file read_file type_int value options h a = a
IsMap-read_config_file read_file type_size value options h a = a
IsMap-read_config_file read_file type_double value options h a = a
IsMap-read_config_file read_file type_string value options h a = a
IsMap-read_config_file read_file type_list value options h a = a

pub IsMap-set_option :
    (read_file : Text → Option Text) (options : Options) (n : Text) (value : Option Text)
    (type : ArgType)
    → FileNoNull read_file
    → NoNull n
    → IsMap options
    → IsMap (set_option read_file options n value type).0
unfolding set_option
IsMap-set_option read_file options n value type h p a =
    let added =
      update_option (add_option options n) n (λ opt. record opt { values = []; type = type }) in
    by_result (accepted_by (find_option added n) n value) (values_of type value)
  where
    emptied :
        IsMap
          (update_option (add_option options n) n (λ opt. record opt { values = []; type = type }))
    emptied = IsMap-write options n _ (λ opt. refl) p a

    by_result :
        (b : Bool) (r : Option (List Text))
        → let added =
            update_option
              (add_option options n)
              n
              (λ opt. record opt { values = []; type = type }) in
          let result : Options × Bool =
            if b
            then (elim r [
              | none ↦ (added, false)
              | some values ↦ (
                read_config_file read_file type value
                    (update_option added n (λ opt. record opt { values = values })),
                true,
              )
            ])
            else (added, false) in
          IsMap result.0
    by_result false r = emptied
    by_result true none = emptied
    by_result true (some values) =
        IsMap-read_config_file read_file type value _ h
          (IsMap-update_option _ n _ (λ opt. refl) p emptied)

IsMap-register_args :
    (read_file : Text → Option Text) (validate : Option Validate) (args : List Arg)
    (options : Options)
    → FileNoNull read_file
    → ArgNames args
    → IsMap options
    → IsMap (register_args read_file validate args options).0
unfolding register_args
IsMap-register_args read_file validate [] options h n a = a
IsMap-register_args read_file validate (arg ∷ args) options h n a =
    let set = set_option read_file options arg.name arg.value arg.type in
    let first = IsMap-set_option read_file options arg.name arg.value arg.type h n.0 a in
    elim (Bool-cases set.1) [
      | inl e ↦ rw e (
          IsMap-register_args read_file validate args
            (update_option set.0 arg.name (λ opt. record opt { validate = validate })) h n.1
            (IsMap-update_option set.0 arg.name _ (λ opt. refl) n.0 first))
      | inr e ↦ rw e first
    ]

IsMap-sb_register_arg_set :
    (read_file : Text → Option Text) (args : List Arg) (options : Options)
    → FileNoNull read_file
    → ArgNames args
    → IsMap options
    → IsMap (sb_register_arg_set read_file args options).0
unfolding sb_register_arg_set
IsMap-sb_register_arg_set read_file [] options h n a = a
IsMap-sb_register_arg_set read_file (arg ∷ args) options h n a =
    IsMap-register_args read_file arg.validate (arg ∷ args) options h n a

IsMap-sb_opt_copy :
    (read_file : Text → Option Text) (options : Options) (to from : Text)
    → FileNoNull read_file
    → NoNull to
    → IsMap options
    → IsMap (sb_opt_copy read_file options to from).0
unfolding sb_opt_copy
IsMap-sb_opt_copy read_file options to from h p a = by_found (find_option options from)
  where
    by_found :
        (r : Option Entry)
        → let result : Options × Bool = elim r [
          | none ↦ (options, false)
          | some opt ↦ ((set_option read_file options to (first_of opt.values) opt.type).0, true)
        ] in
          IsMap result.0
    by_found none = a
    by_found (some opt) = IsMap-set_option read_file options to (first_of opt.values) opt.type h p a

-- The states of `options`: empty by `sb_options_init`, and then after each call that changes it.
pub data Reachable (read_file : Text → Option Text) : Options → Type 0 where
  initial : Reachable read_file []
  registered :
      {options : Options} (args : List Arg)
      → ArgNames args
      → Reachable read_file options
      → Reachable read_file (sb_register_arg_set read_file args options).0
  set :
      {options : Options} (name : Text) (value : Option Text) (type : ArgType)
      → NoNull name
      → Reachable read_file options
      → Reachable read_file (set_option read_file options name value type).0
  copied :
      {options : Options} (to from : Text)
      → NoNull to
      → Reachable read_file options
      → Reachable read_file (sb_opt_copy read_file options to from).0
  configured :
      {options : Options} (file : Text)
      → NoNull file
      → Reachable read_file options
      → Reachable read_file (read_config file options).0
  removed :
      {options : Options} (name : Text)
      → Reachable read_file options
      → Reachable read_file (remove_option options name).0

-- In every list of options that calls of `sb_register_arg_set`, `set_option`, `sb_opt_copy`,
-- `read_config` and `remove_option` reach from the empty one, in any order and with failures, no two
-- options have the same name, a dash and an underscore being the same; where the names and the
-- files that are given to them have no byte 0.
pub Reachable-IsMap :
    (read_file : Text → Option Text) (options : Options)
    → FileNoNull read_file
    → Reachable read_file options
    → IsMap options
Reachable-IsMap read_file _ h initial = tt
Reachable-IsMap read_file _ h (registered args n r) =
    IsMap-sb_register_arg_set read_file args _ h n (Reachable-IsMap read_file _ h r)
Reachable-IsMap read_file _ h (set name value type n r) =
    IsMap-set_option read_file _ name value type h n (Reachable-IsMap read_file _ h r)
Reachable-IsMap read_file _ h (copied to from n r) =
    IsMap-sb_opt_copy read_file _ to from h n (Reachable-IsMap read_file _ h r)
Reachable-IsMap read_file _ h (configured file n r) =
    IsMap-read_config file _ n (Reachable-IsMap read_file _ h r)
Reachable-IsMap read_file _ h (removed name r) =
    IsMap-remove_option _ name (Reachable-IsMap read_file _ h r)
