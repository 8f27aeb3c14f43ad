-- ===== src/Main/Init.antt =====
-- `init` of sysbench.c, which sets the variables of `sb_globals` from the options.
pub mod Checkpoints
pub mod TimeLimit
use bits_on_demand_pte_te.Prelude.{
  ℕ, zero, suc, ◌+◌, ◌-◌, ◌*◌, ◌%◌, ◌^◌, Bool, true, false, not, ◌||◌, Option, none, some, List, [],
  ◌∷◌, ◌++◌, map, ◌==◌, leb, ltb, if◌then◌else◌,
}
use bits_on_demand_pte_te.Prelude.Lists.{length, replicate}
use bits_on_demand_pte_te.Pte.Machine.{ℤ, pos, negsuc}
use bits_on_demand_pte_te.Timer.{Timer, sb_timer_init}
use bits_on_demand_pte_te.Options.Names.{Text, text}
use bits_on_demand_pte_te.Options.Store.{Entry, Options, find_option}
use bits_on_demand_pte_te.Options.Size.{strtol, to_upper}
use bits_on_demand_pte_te.Options.Set.{
  equal, set_option, sb_get_value_flag, sb_get_value_string, sb_get_value_list,
}
use bits_on_demand_pte_te.Options.Get.{sb_get_value_int, sb_get_value_size}
use bits_on_demand_pte_te.Options.Outcome.{
  Outcome, parsed, refused, exited, undefined, ◌>>=◌, value_or_exit, unsigned_int, int_of, positive,
  not_negative, refuse_if,
}

-- MAX_CHECKPOINTS
abbrev pub max_checkpoints : ℕ
max_checkpoints = 256

-- One value of --report-checkpoints, which `strtol` has read.
abbrev pub checkpoint_of : ℤ × Text → Outcome ℕ
checkpoint_of (pos n, []) = if ltb n (2 ^ 31) then parsed n else refused
checkpoint_of (pos n, c ∷ end) = refused
checkpoint_of (negsuc n, end) = refused

-- The values behind those that were found.
unfoldable pub read_checkpoints : List Text → (found : List ℕ) → Outcome (List ℕ)
unfolding strtol
read_checkpoints [] found = parsed found
read_checkpoints (val ∷ vals) found = do
  n ← checkpoint_of (strtol val)
  _ ← refuse_if (ltb max_checkpoints (length found + 1))
  read_checkpoints vals (found ++ n ∷ [])

-- `(int) (a - b)` on 32 bits
unfoldable pub checkpoint_cmp : ℕ → ℕ → ℤ
checkpoint_cmp a b = int_of (a % 2 ^ 32 + (2 ^ 32 - b % 2 ^ 32))

-- `qsort`, for a comparison.
abbrev pub Qsort : Type 0
Qsort = (ℕ → ℕ → ℤ) → List ℕ → List ℕ

unfoldable pub parse_checkpoints : Qsort → Option (List Text) → Outcome (List ℕ)
unfolding read_checkpoints checkpoint_cmp
parse_checkpoints qsort none = undefined
parse_checkpoints qsort (some vals) = do
  found ← read_checkpoints vals []
  parsed (if length found == 0 then [] else qsort checkpoint_cmp found)

-- What `init` asks of the system: the conversions of --forced-shutdown in doubles (a twentieth of the
-- time limit in seconds, and a percentage of it), and whether the allocations and `sb_rand_init`
-- succeed.
pub record InitSystem : Type 0 where
  pub twentieth : (max_time_ns : ℕ) → ℕ
  pub percent : (timeout max_time_ns : ℕ) → ℕ
  pub allocates_threads : Bool
  pub allocates_timers : Bool
  pub rand_init : Options → Bool
  pub qsort : Qsort

-- `--time`, `--warmup-time` and `--forced-shutdown`.
pub record Limits : Type 0 where
  pub warmup_time : ℕ
  pub max_time_ns : ℕ
  pub force_shutdown : Bool
  pub timeout : ℕ

-- The variables that `init` sets.
pub record Variables : Type 0 where
  pub threads : ℕ
  pub max_events : ℕ
  pub limits : Limits
  pub debug : Bool
  pub validate : Bool
  pub tx_rate : ℕ
  pub report_interval : ℕ
  pub checkpoints : List ℕ
  pub timers : List Timer
  pub timers_copy : List Timer
  pub luajit_cmd : Option Text
  pub options : Options

-- The conversion of an int to 64 bits without a sign.
abbrev pub uint64 : ℤ → ℕ
uint64 (pos n) = n % 2 ^ 64
uint64 (negsuc n) = 2 ^ 64 - 1 - n % 2 ^ 64

abbrev pub sec2ns : ℤ → ℕ
sec2ns sec = uint64 sec * 1000000000 % 2 ^ 64

-- `!strcasecmp(tmp, "off")`
abbrev pub is_off_word : Text → Bool
is_off_word tmp = equal (map to_upper tmp) (text "OFF")

abbrev pub starts_with : ℕ → Text → Bool
starts_with c [] = false
starts_with c (d ∷ t) = c == d

abbrev pub is_empty : Text → Bool
is_empty [] = true
is_empty (c ∷ t) = false

-- The timeout of --forced-shutdown, from what `strtol` has read of `tmp`.
abbrev pub timeout_of : InitSystem → (max_time_ns : ℕ) → (tmp : Text) → ℤ × Text → Outcome ℕ
timeout_of system max_time_ns tmp (n, end) =
    if starts_with b'%' end
    then parsed (system.percent (unsigned_int n) max_time_ns)
    else if is_empty tmp || not (is_empty end)
    then refused
    else parsed (unsigned_int n)

abbrev pub forced : (warmup max_time_ns : ℕ) → Bool → ℕ → Limits
forced warmup max_time_ns force timeout = record {
  warmup_time = warmup;
  max_time_ns = max_time_ns;
  force_shutdown = force;
  timeout = timeout;
}

unfoldable pub parse_shutdown : InitSystem → (warmup max_time_ns : ℕ) → Option Text → Outcome Limits
unfolding strtol
parse_shutdown system warmup max_time_ns none =
    parsed (forced warmup max_time_ns true (system.twentieth max_time_ns))
parse_shutdown system warmup max_time_ns (some tmp) =
    if is_off_word tmp
    then parsed (forced warmup max_time_ns false 0)
    else (timeout_of system max_time_ns tmp (strtol tmp) >>= λ timeout.
        parsed (forced warmup max_time_ns true timeout))

-- The warmup time is added to a limit only.
unfoldable pub limits_of : InitSystem → (warmup : ℕ) → (max_time : ℤ) → Option Text → Outcome Limits
unfolding parse_shutdown
limits_of system warmup max_time tmp =
    let max_time_ns = sec2ns max_time in
    if max_time_ns == 0
    then parsed (forced warmup 0 false 0)
    else parse_shutdown system warmup
        (if warmup == 0 then max_time_ns else (max_time_ns + sec2ns (pos warmup)) % 2 ^ 64) tmp

unfoldable pub sb_thread_init : InitSystem → Options → Outcome ℕ
unfolding sb_get_value_size
sb_thread_init system options = do
  stack_size ← positive (int_of (sb_get_value_size options (text "thread-stack-size")))
  _ ← refuse_if (not system.allocates_threads)
  parsed stack_size

-- With --debug, the verbosity is 5 if there is such an option.
unfoldable pub verbose : (Text → Option Text) → Bool → Options → Options
unfolding set_option find_option
verbose read_file debug options = elim (find_option options (text "verbosity")) [
  | none ↦ options
  | some opt ↦
      if debug
      then (set_option read_file options opt.name (some (text "5")) opt.type).0
      else options
]

-- A timer of zeros.
abbrev pub no_timer : Timer
no_timer = record {
  time_start = record { tv_sec = 0; tv_nsec = 0 };
  time_end = record { tv_sec = 0; tv_nsec = 0 };
  events = 0;
  queue_time = 0;
  min_time = 0;
  max_time = 0;
  sum_time = 0;
}

-- `sb_alloc_per_thread_array` writes to the memory before anybody looks whether there is some.
abbrev pub or_undefined : Bool → Outcome Unit
or_undefined true = parsed tt
or_undefined false = undefined

-- The places that `sb_alloc_per_thread_array` makes, one more than threads, for the background threads,
-- as a sum of 32 bits.
abbrev pub per_thread_places : (threads : ℕ) → ℕ
per_thread_places threads = (threads + 1) % 2 ^ 32

-- The loop that sets a timer for each thread, over the places of the array. Without a place for a
-- thread it writes behind the array.
unfoldable pub init_timers : (threads : ℕ) → List Timer → Outcome (List Timer)
unfolding sb_timer_init
init_timers zero places = parsed places
init_timers (suc threads) [] = undefined
init_timers (suc threads) (timer ∷ places) = do
  rest ← init_timers threads places
  parsed (sb_timer_init timer ∷ rest)

-- The end of `init`, behind the limits.
unfoldable pub finish_init :
    (Text → Option Text)
    → InitSystem
    → Options
    → (threads max_events : ℕ) → Limits
    → Outcome Variables
unfolding sb_get_value_int sb_get_value_flag sb_get_value_string sb_get_value_list sb_thread_init
    verbose parse_checkpoints init_timers
finish_init read_file system options threads max_events limits = do
  _ ← sb_thread_init system options
  let options' = verbose read_file (sb_get_value_flag options (text "debug")) options
  _ ← refuse_if (system.rand_init options')
  rate ← value_or_exit (sb_get_value_int options' (text "rate"))
  interval ← value_or_exit (sb_get_value_int options' (text "report-interval"))
  checkpoints ←
      parse_checkpoints system.qsort (sb_get_value_list options' (text "report-checkpoints"))
  _ ← or_undefined system.allocates_timers
  timers ← init_timers threads (replicate (per_thread_places threads) no_timer)
  parsed (record {
    threads = threads;
    max_events = max_events;
    limits = limits;
    debug = sb_get_value_flag options (text "debug");
    validate = sb_get_value_flag options' (text "validate");
    tx_rate = unsigned_int rate;
    report_interval = unsigned_int interval;
    checkpoints = checkpoints;
    timers = timers;
    timers_copy = replicate (per_thread_places threads) no_timer;
    luajit_cmd = sb_get_value_string options' (text "luajit-cmd");
    options = options';
  })

unfoldable pub init : (Text → Option Text) → InitSystem → Options → Outcome Variables
unfolding sb_get_value_int sb_get_value_flag sb_get_value_string sb_get_value_list limits_of
    finish_init
init read_file system options = do
  n ← value_or_exit (sb_get_value_int options (text "threads"))
  _ ← value_or_exit (sb_get_value_int options (text "thread-init-timeout"))
  _ ← refuse_if (unsigned_int n == 0)
  events ← value_or_exit (sb_get_value_int options (text "events"))
  w ← value_or_exit (sb_get_value_int options (text "warmup-time"))
  warmup ← not_negative w
  time ← value_or_exit (sb_get_value_int options (text "time"))
  limits ← limits_of system warmup time (sb_get_value_string options (text "forced-shutdown"))
  finish_init read_file system options (unsigned_int n) (uint64 events) limits
