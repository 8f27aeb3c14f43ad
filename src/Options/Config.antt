-- ===== src/Options/Config.antt =====
-- Configuration files in sb_options.c: `read_config` and `write_config`. A file is its bytes.
pub mod RoundTrip
use bits_on_demand_pte_te.Prelude.{
  ℕ, zero, suc, ◌+◌, ◌-◌, Bool, true, false, ◌&&◌, ◌||◌, Option, none, some, List, [], ◌∷◌, ◌++◌,
  ◌==◌, leb, if◌then◌else◌,
}
use bits_on_demand_pte_te.Prelude.Lists.{length, drop}
use bits_on_demand_pte_te.Options.Names.{Text}
use bits_on_demand_pte_te.Options.Store.{
  Entry, Options, add_option, update_option, free_values, add_value,
}

-- `isspace`: blank, and 9 to 13
abbrev pub is_space : ℕ → Bool
is_space c = c == 32 || leb 9 c && leb c 13

-- The bytes up to the first one that passes the test, and the rest from there on.
unfoldable pub break_at : (ℕ → Bool) → Text → Text × Text
break_at p [] = ([], [])
break_at p (c ∷ t) =
    let (before, rest) = break_at p t in if p c then ([], c ∷ t) else (c ∷ before, rest)

abbrev pub is_separator : ℕ → Bool
is_separator c = c == b','

abbrev pub ends_value : ℕ → Bool
ends_value c = is_separator c || is_space c

-- The values behind the `=` of a line, with `rounds` for the loop, and false for a quotation mark
-- that is not closed.
unfoldable pub read_values : (rounds : ℕ) → Text → List Text → List Text × Bool
unfolding break_at
read_values zero t values = (values, true)
read_values (suc rounds) [] values = (values, true)
read_values (suc rounds) (c ∷ t) values =
    let blank = read_values rounds t values in
    let quoted = break_at (λ d. d == c) t in
    let after_quoted =
      read_values rounds (drop 1 (break_at is_separator (drop 1 quoted.1)).1)
        (values ++ quoted.0 ∷ []) in
    let plain = break_at ends_value (c ∷ t) in
    let after_plain = read_values rounds (drop 1 plain.1) (values ++ plain.0 ∷ []) in
    if is_space c
    then blank
    else if c == b'#'
    then (values, true)
    else if c == 39 || c == 34
    then (elim quoted.1 [ [] ↦ (values, false) | d ∷ r ↦ after_quoted ])
    else after_plain

-- The name and what stands from the `=` on.
unfoldable pub read_pair : Text × Text → Options → Options × Bool
unfolding read_values add_option update_option
read_pair (name, []) options = (options, true)
read_pair (name, d ∷ t) options =
    let (values, complete) = read_values (length t) t [] in
    (update_option (add_option options name) name (λ opt. record opt { values = values }), complete)

-- One buffer, a line or a part of one; false ends `read_config` with a null pointer.
unfoldable pub read_line : Text → Options → Options × Bool
unfolding break_at read_pair
read_line line options = read_pair (break_at (λ c. c == b'=') line) options

-- The loop over the buffers that `fgets` returns.
unfoldable pub read_buffers : List Text → Options → Options × Bool
unfolding read_line
read_buffers [] options = (options, true)
read_buffers (line ∷ lines) options =
    let (options', go) = read_line line options in
    let rest = read_buffers lines options' in if go then rest else (options', false)

-- MAXSTRLEN
abbrev pub maxstrlen : ℕ
maxstrlen = 256

-- `fgets`, with room for so many bytes in front of the byte 0: the bytes up to the end of the line, as
-- far as there is room, and the rest of the file.
unfoldable pub fgets : (room : ℕ) → Text → Text × Text
fgets zero t = ([], t)
fgets (suc room) [] = ([], [])
fgets (suc room) (c ∷ t) =
    let (buf, rest) = fgets room t in if c == 10 then (c ∷ [], t) else (c ∷ buf, rest)

-- The buffers, with `rounds` for the loop.
unfoldable pub file_buffers : (rounds : ℕ) → Text → List Text
unfolding fgets
file_buffers zero t = []
file_buffers (suc rounds) [] = []
file_buffers (suc rounds) (c ∷ t) =
    let (buf, rest) = fgets (maxstrlen - 1) (c ∷ t) in buf ∷ file_buffers rounds rest

-- Each buffer takes a byte of the file at least.
unfoldable pub read_config : (file : Text) → Options → Options × Bool
unfolding read_buffers file_buffers
read_config file options = read_buffers (file_buffers (length file) file) options

unfoldable pub write_values : List Text → Text
write_values [] = []
write_values (value ∷ []) = value
write_values (value ∷ values) = value ++ (b',' ∷ 32 ∷ write_values values)

unfoldable pub write_line : Entry → Text
unfolding write_values
write_line opt = opt.name ++ (32 ∷ b'=' ∷ 32 ∷ (write_values opt.values ++ 10 ∷ []))

-- The lines that are written, and the options, each of which is then passed over in later calls.
unfoldable pub write_config : Options → List Text × Options
unfolding write_line
write_config [] = ([], [])
write_config (opt ∷ options) =
    let (lines, rest) = write_config options in
    if opt.ignore
    then (lines, opt ∷ rest)
    else (write_line opt ∷ lines, record opt { ignore = true } ∷ rest)
