-- ===== src/Options/Config/RoundTrip.antt =====
-- What `read_config` makes of a line that `write_config` wrote.
use mathlib.Core.List.{append_assoc, append-nil}
use bits_on_demand_pte_te.Prelude.{
  ℕ, zero, suc, ◌+◌, ◌≤◌, ◌<◌, ◌≡◌, refl, sym, subst, ap, ◌∙◌, ◌≢◌, Bool, true, false, List, [],
  ◌∷◌, ◌++◌, ◌==◌, arith,
}
use bits_on_demand_pte_te.Prelude.Lists.{length, length-append}
use bits_on_demand_pte_te.Options.Names.{Text}
use bits_on_demand_pte_te.Options.Store.{Entry, Options, add_option, update_option}
use bits_on_demand_pte_te.Options.Config.{
  break_at, ends_value, read_values, read_pair, read_line, write_values, write_line, fgets,
  file_buffers, read_buffers, read_config, maxstrlen,
}

abbrev pub NoneOf : (ℕ → Bool) → Text → Type 0
NoneOf p [] = Unit
NoneOf p (c ∷ t) = (p c ≡ false) × NoneOf p t

-- A value that needs no quotation marks.
abbrev pub Plain : Text → Type 0
Plain [] = ⊥
Plain (c ∷ t) = (c ≢ b'#') × (c ≢ 39) × (c ≢ 34) × NoneOf ends_value (c ∷ t)

abbrev pub AllPlain : List Text → Type 0
AllPlain [] = Unit
AllPlain (v ∷ vs) = Plain v × AllPlain vs

pub break_at-append :
    (p : ℕ → Bool) (t : Text) (d : ℕ) (r : Text)
    → NoneOf p t
    → p d ≡ true
    → break_at p (t ++ d ∷ r) ≡ (t, d ∷ r)
unfolding break_at
break_at-append p [] d r n e = rw e
break_at-append p (c ∷ t) d r n e = rw (n.0, break_at-append p t d r n.1 e)

read_values-nil : (f : ℕ) (vs : List Text) → read_values f [] vs ≡ (vs, true)
unfolding read_values
read_values-nil zero vs = refl
read_values-nil (suc f) vs = refl

-- A plain value in front of its end.
read_values-Plain :
    (f c d : ℕ) (t r : Text) (vs : List Text)
    → Plain (c ∷ t)
    → ends_value d ≡ true
    → read_values (suc f) (c ∷ (t ++ d ∷ r)) vs ≡ read_values f r (vs ++ (c ∷ t) ∷ [])
unfolding read_values
read_values-Plain f c d t r vs p e =
    rw (break_at-append ends_value (c ∷ t) d r p.3 e) (ground (arith, p))

read_values-space :
    (f : ℕ) (r : Text) (vs : List Text) → read_values (suc f) (32 ∷ r) vs ≡ read_values f r vs
unfolding read_values
read_values-space f r vs = refl

read_newline : (f : ℕ) (vs : List Text) → read_values (suc f) (10 ∷ []) vs ≡ (vs, true)
unfolding read_values
read_newline f vs = read_values-nil f vs

NoneOf-blank : (t : Text) → NoneOf (λ c. c == b'=') t → NoneOf (λ c. c == b'=') (t ++ 32 ∷ [])
NoneOf-blank [] n = (refl, tt)
NoneOf-blank (c ∷ t) n = (n.0, NoneOf-blank t n.1)

read_values-write_values :
    (f : ℕ) (vs acc : List Text)
    → length (write_values vs ++ 10 ∷ []) ≤ f
    → AllPlain vs
    → read_values f (write_values vs ++ 10 ∷ []) acc ≡ (acc ++ vs, true)
unfolding write_values
read_values-write_values zero vs acc h p =
    absurd (omega (arith, length-append (write_values vs) (10 ∷ []), h))
read_values-write_values (suc f) [] acc h p = rw (read_newline f acc, append-nil acc)
read_values-write_values f ([] ∷ vs) acc h p = absurd p.0
read_values-write_values (suc f) ((c ∷ t) ∷ []) acc h p =
    read_values-Plain f c 10 t [] acc p.0 refl ∙ read_values-nil f (acc ++ (c ∷ t) ∷ [])
read_values-write_values (suc zero) ((c ∷ t) ∷ w ∷ vs) acc h p =
    absurd (omega (arith, h, length-append (t ++ (b',' ∷ 32 ∷ write_values (w ∷ vs))) (10 ∷ [])))
read_values-write_values (suc (suc f)) ((c ∷ t) ∷ w ∷ vs) acc h p =
    let end : Text = 10 ∷ [] in
    let more = write_values (w ∷ vs) in
    let split = append_assoc t (b',' ∷ 32 ∷ more) end in
    let left : length ((t ++ (b',' ∷ 32 ∷ more)) ++ end)
        ≡ length t + suc (suc (length (more ++ end))) =
      ap (λ r. length r) split ∙ length-append t (b',' ∷ 32 ∷ (more ++ end)) in
    ap (λ r. read_values (suc (suc f)) (c ∷ r) acc) split
    ∙ read_values-Plain (suc f) c b',' t (32 ∷ (more ++ end)) acc p.0 refl
    ∙ read_values-space f (more ++ end) (acc ++ (c ∷ t) ∷ [])
    ∙ read_values-write_values f (w ∷ vs) (acc ++ (c ∷ t) ∷ []) (omega (arith, h, left)) p.1
    ∙ ap (λ a. (a, true)) (append_assoc acc ((c ∷ t) ∷ []) (w ∷ vs))

read_values-blank :
    (t : Text) → read_values (length (32 ∷ t)) (32 ∷ t) [] ≡ read_values (length t) t []
read_values-blank t = read_values-space (length t) t []

read_line-write_line :
    (opt : Entry) (options : Options)
    → NoneOf (λ c. c == b'=') opt.name
    → AllPlain opt.values
    → read_line (write_line opt) options ≡ (
      update_option
          (add_option options (opt.name ++ 32 ∷ []))
          (opt.name ++ 32 ∷ [])
          (λ o. record o { values = opt.values }),
      true,
    )
unfolding read_line read_pair write_line
read_line-write_line opt options n p =
    let t = write_values opt.values ++ 10 ∷ [] in
    let named =
      break_at-append (λ c. c == b'=') (opt.name ++ 32 ∷ []) b'=' (32 ∷ t) (NoneOf-blank opt.name n)
        refl in
    let line = append_assoc opt.name (32 ∷ []) (b'=' ∷ 32 ∷ t) in
    ap (λ l. read_line l options) (sym line)
    ∙ ap (λ q. read_pair q options) named
    ∙ ap
        (λ (r : List Text × Bool). (
          update_option (add_option options (opt.name ++ 32 ∷ [])) (opt.name ++ 32 ∷ [])
              (λ o. record o { values = r.0 }),
          r.1,
        ))
        (read_values-blank t ∙ read_values-write_values (length t) opt.values [] (omega arith) p)

abbrev pub is_newline : ℕ → Bool
is_newline c = c == 10

-- A line that has room is one buffer.
fgets-line :
    (room : ℕ) (t : Text)
    → NoneOf is_newline t
    → length t < room
    → fgets room (t ++ 10 ∷ []) ≡ (t ++ 10 ∷ [], [])
unfolding fgets
fgets-line zero t n h = absurd (omega (arith, h))
fgets-line (suc room) [] n h = refl
fgets-line (suc room) (c ∷ t) n h = rw (n.0, fgets-line room t n.1 (omega (arith, h))) refl

file_buffers-newline : file_buffers 1 (10 ∷ []) ≡ (10 ∷ []) ∷ []
unfolding file_buffers fgets
file_buffers-newline = refl

file_buffers-line :
    (t : Text)
    → NoneOf is_newline t
    → length (t ++ 10 ∷ []) < maxstrlen
    → file_buffers (length (t ++ 10 ∷ [])) (t ++ 10 ∷ []) ≡ (t ++ 10 ∷ []) ∷ []
unfolding file_buffers
file_buffers-line [] n h = file_buffers-newline
file_buffers-line (c ∷ t) n h =
    let long = length-append t (10 ∷ []) in
    rw (fgets-line 255 (c ∷ t) n (omega (arith, h, long))) (no_more (length (t ++ 10 ∷ [])))
  where
    no_more :
        (rounds : ℕ)
        → Path
            (List Text)
            ((c ∷ (t ++ 10 ∷ [])) ∷ file_buffers rounds [])
            ((c ∷ (t ++ 10 ∷ [])) ∷ [])
    no_more zero = refl
    no_more (suc rounds) = refl

NoneOf-append : (p : ℕ → Bool) (s t : Text) → NoneOf p s → NoneOf p t → NoneOf p (s ++ t)
NoneOf-append p [] t m n = n
NoneOf-append p (c ∷ s) t m n = (m.0, NoneOf-append p s t m.1 n)

NoneOf-mono :
    (p q : ℕ → Bool) → ((c : ℕ) → p c ≡ false → q c ≡ false) → (t : Text) → NoneOf p t → NoneOf q t
NoneOf-mono p q f [] n = tt
NoneOf-mono p q f (c ∷ t) n = (f c n.0, NoneOf-mono p q f t n.1)

no_newline : (c : ℕ) → ends_value c ≡ false → is_newline c ≡ false
no_newline c h = ground arith

NoneOf-Plain : (t : Text) → Plain t → NoneOf is_newline t
NoneOf-Plain [] p = absurd p
NoneOf-Plain (c ∷ t) p = NoneOf-mono ends_value is_newline no_newline (c ∷ t) p.3

NoneOf-write_values : (vs : List Text) → AllPlain vs → NoneOf is_newline (write_values vs)
unfolding write_values
NoneOf-write_values [] p = tt
NoneOf-write_values (v ∷ []) p = NoneOf-Plain v p.0
NoneOf-write_values (v ∷ w ∷ vs) p =
    NoneOf-append is_newline v (b',' ∷ 32 ∷ write_values (w ∷ vs)) (NoneOf-Plain v p.0)
      (refl, (refl, NoneOf-write_values (w ∷ vs) p.1))

read_buffers-line :
    (line : Text) (options : Options) (result : Options)
    → read_line line options ≡ (result, true)
    → read_buffers (line ∷ []) options ≡ (result, true)
unfolding read_buffers
read_buffers-line line options result h = rw h refl

-- A file of one line of at most 255 bytes that `write_config` writes for an option, whose name has no
-- `=` and no line end and whose values are not empty and hold no blank, no comma and no mark at the
-- start, is read by `read_config` as exactly these values; but for the option whose name has a blank
-- more at its end.
pub read_config-write_line :
    (opt : Entry) (options : Options)
    → NoneOf (λ c. c == b'=') opt.name
    → NoneOf is_newline opt.name
    → AllPlain opt.values
    → length (write_line opt) ≤ 255
    → read_config (write_line opt) options ≡ (
      update_option
          (add_option options (opt.name ++ 32 ∷ []))
          (opt.name ++ 32 ∷ [])
          (λ o. record o { values = opt.values }),
      true,
    )
unfolding read_config write_line
read_config-write_line opt options n m p h =
    let body = opt.name ++ (32 ∷ b'=' ∷ 32 ∷ write_values opt.values) in
    let line : body ++ 10 ∷ [] ≡ write_line opt =
      append_assoc opt.name (32 ∷ b'=' ∷ 32 ∷ write_values opt.values) (10 ∷ []) in
    let plain : NoneOf is_newline body =
      NoneOf-append is_newline opt.name (32 ∷ b'=' ∷ 32 ∷ write_values opt.values) m
        (refl, (refl, (refl, NoneOf-write_values opt.values p))) in
    let small : length (body ++ 10 ∷ []) < maxstrlen = omega (arith, h, ap (λ t. length t) line) in
    let one : file_buffers (length (write_line opt)) (write_line opt) ≡ write_line opt ∷ [] =
      subst (λ t. file_buffers (length t) t ≡ t ∷ []) line (file_buffers-line body plain small) in
    ap (λ bs. read_buffers bs options) one
    ∙ read_buffers-line (write_line opt) options _ (read_line-write_line opt options n p)
