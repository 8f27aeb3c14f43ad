-- ===== src/Main/Init/TimeLimit.antt =====
-- The threads, the timers and the time limit that `init` of sysbench.c sets.
use bits_on_demand_pte_te.Prelude.{
  ℕ, zero, suc, ◌≤◌, ◌+◌, ◌*◌, ◌%◌, ◌^◌, ◌<◌, ◌≡◌, refl, sym, ap, subst, ◌∙◌, false, Bool-cases,
  inl, inr, Option, none, some, List, [], ◌∷◌, ◌==◌, if◌then◌else◌, arith,
}
use bits_on_demand_pte_te.Prelude.Lists.{length, replicate, length-replicate}
use bits_on_demand_pte_te.Pte.Machine.{ℤ, pos, negsuc}
use bits_on_demand_pte_te.Timer.{Timer}
use bits_on_demand_pte_te.Options.Names.{Text, text}
use bits_on_demand_pte_te.Options.Store.{Options}
use bits_on_demand_pte_te.Options.Size.{strtol}
use bits_on_demand_pte_te.Options.Set.{sb_get_value_flag, sb_get_value_string, sb_get_value_list}
use bits_on_demand_pte_te.Options.Get.{sb_get_value_int}
use bits_on_demand_pte_te.Options.Outcome.{value_or_exit, unsigned_int, not_negative, refuse_if}
use bits_on_demand_pte_te.Options.Outcome.Ensures.{
  Ensures, bind-Ensures, step-Ensures, weaken-Ensures, value_or_exit-some, not_negative-pos,
  refuse_if-false, unsigned_int_lt,
}
use bits_on_demand_pte_te.Main.Init.{
  InitSystem, Limits, Variables, uint64, finish_init, sec2ns, is_off_word, timeout_of,
  parse_shutdown, limits_of, sb_thread_init, verbose, parse_checkpoints, or_undefined, init_timers,
  init, no_timer, per_thread_places,
}

-- The limit that the code computes.
wrapped_limit : (warmup : ℕ) → ℤ → ℕ
wrapped_limit warmup time =
    if sec2ns time == 0
    then 0
    else if warmup == 0
    then sec2ns time
    else (sec2ns time + sec2ns (pos warmup)) % 2 ^ 64

parse_shutdown-limit :
    (system : InitSystem) (warmup limit : ℕ) (tmp : Option Text)
    → Ensures
        (λ l. (l.max_time_ns ≡ limit) × (l.warmup_time ≡ warmup))
        (parse_shutdown system warmup limit tmp)
unfolding parse_shutdown
parse_shutdown-limit system warmup limit none = (refl, refl)
parse_shutdown-limit system warmup limit (some tmp) = elim (Bool-cases (is_off_word tmp)) [
  | inl y ↦ rw y (refl, refl)
  | inr n ↦ rw n (
      step-Ensures (λ l. (l.max_time_ns ≡ limit) × (l.warmup_time ≡ warmup))
        (timeout_of system limit tmp (strtol tmp)) _ (λ timeout. (refl, refl)))
]

limits_of-limit :
    (system : InitSystem) (warmup : ℕ) (time : ℤ) (tmp : Option Text)
    → Ensures
        (λ l. (l.max_time_ns ≡ wrapped_limit warmup time) × (l.warmup_time ≡ warmup))
        (limits_of system warmup time tmp)
unfolding limits_of wrapped_limit
limits_of-limit system warmup time tmp = elim (Bool-cases (sec2ns time == 0)) [
  | inl y ↦ rw y (refl, refl)
  | inr n ↦ rw n (
      parse_shutdown-limit system warmup
        (if warmup == 0 then sec2ns time else (sec2ns time + sec2ns (pos warmup)) % 2 ^ 64) tmp)
]

-- The limit in seconds, as nanoseconds.
abbrev pub limit_ns : (time warmup : ℕ) → ℕ
limit_ns time warmup = if time == 0 then 0 else (time + warmup) * 1000000000

wrapped_limit-limit_ns :
    (t w : ℕ) → t < 2 ^ 31 → w < 2 ^ 31 → wrapped_limit w (pos t) ≡ limit_ns t w
unfolding wrapped_limit
wrapped_limit-limit_ns t w p q =
    let time : sec2ns (pos t) ≡ t * 1000000000 = omega (arith, p) in
    let warm : sec2ns (pos w) ≡ w * 1000000000 = omega (arith, q) in
    rw (time, warm) (ground (arith, p, q))

-- The int of an option.
number : Option ℤ → ℕ
number none = 0
number (some (pos n)) = n
number (some (negsuc n)) = 0

-- The options `--time` and `--warmup-time` as seconds.
abbrev pub IsLimit : Options → Variables → Type 0
IsLimit options s =
    (t w : ℕ)
    → sb_get_value_int options (text "time") ≡ some (pos t)
    → sb_get_value_int options (text "warmup-time") ≡ some (pos w)
    → t < 2 ^ 31
    → w < 2 ^ 31
    → (s.limits.max_time_ns ≡ limit_ns t w) × (s.limits.warmup_time ≡ w)

-- What `init` leaves.
pub record Good (options : Options) (s : Variables) : Type 0 where
  pub threads : 0 < s.threads
  pub counted : s.threads + 1 < 2 ^ 32
  pub timers : length s.timers ≡ s.threads + 1
  pub copies : length s.timers_copy ≡ s.threads + 1
  pub limit : IsLimit options s

-- The loop over the threads stays within the places and keeps their number.
Holds : (threads : ℕ) (places timers : List Timer) → Type 0
Holds threads places timers = (threads ≤ length places) × (length timers ≡ length places)

init_timers-Holds : (n : ℕ) (places : List Timer) → Ensures (Holds n places) (init_timers n places)
unfolding init_timers Holds
init_timers-Holds zero places = (omega arith, refl)
init_timers-Holds (suc n) [] = tt
init_timers-Holds (suc n) (timer ∷ places) =
    bind-Ensures (Holds n places) (Holds (suc n) (timer ∷ places)) (init_timers n places) _
      (init_timers-Holds n places) (λ rest h. (omega (arith, h.0), omega (arith, h.1)))

limit-IsLimit :
    (options : Options) (s : Variables) (warm time : ℤ) (k : ℕ)
    → sb_get_value_int options (text "warmup-time") ≡ some warm
    → warm ≡ pos k
    → sb_get_value_int options (text "time") ≡ some time
    → (s.limits.max_time_ns ≡ wrapped_limit k time) × (s.limits.warmup_time ≡ k)
    → IsLimit options s
unfolding number
limit-IsLimit options s warm time k a b c (d, e) t w x y p q =
    let same_time : some time ≡ some (pos t) = sym c ∙ x in
    let same_warm : k ≡ w = ap number (ap some (sym b) ∙ sym a ∙ y) in
    let time_is : time ≡ pos t = ap from_some same_time in
    (
      d
          ∙ ap (λ n. wrapped_limit n time) same_warm
          ∙ ap (wrapped_limit w) time_is
          ∙ wrapped_limit-limit_ns t w p q,
      e ∙ same_warm,
    )
  where
    from_some : Option ℤ → ℤ
    from_some none = pos 0
    from_some (some n) = n

-- The variables that are set before the end.
abbrev IsKept : (threads : ℕ) → Limits → Variables → Type 0
IsKept threads limits s =
    (s.threads ≡ threads)
    × (s.limits ≡ limits)
    × (threads + 1 < 2 ^ 32)
    × (length s.timers ≡ threads + 1)
    × (length s.timers_copy ≡ threads + 1)

-- For fewer than 2 ^ 32 threads, the loop finds its places only if their number does not wrap.
kept_places :
    (threads : ℕ) (timers : List Timer)
    → threads < 2 ^ 32
    → Holds threads (replicate (per_thread_places threads) no_timer) timers
    → 0 < threads
    → (threads + 1 < 2 ^ 32)
      × (length timers ≡ threads + 1)
      × (length (replicate (per_thread_places threads) no_timer) ≡ threads + 1)
unfolding Holds
kept_places threads timers few h some_threads =
    let places = length-replicate (per_thread_places threads) no_timer in
    let room : threads + 1 < 2 ^ 32 = omega (arith, h.0, places) in
    (room, omega (arith, h.1, places), omega (arith, places))

finish_init-IsKept :
    (read_file : Text → Option Text) (system : InitSystem) (options : Options)
    (threads max_events : ℕ) (limits : Limits)
    → threads < 2 ^ 32
    → 0 < threads
    → Ensures
        (IsKept threads limits)
        (finish_init read_file system options threads max_events limits)
unfolding finish_init
finish_init-IsKept read_file system options threads max_events limits few some_threads =
    let K = IsKept threads limits in
    let options' = verbose read_file (sb_get_value_flag options (text "debug")) options in
    step-Ensures K (sb_thread_init system options) _ (λ u1.
      step-Ensures K (refuse_if (system.rand_init options')) _ (λ u2.
        step-Ensures K (value_or_exit (sb_get_value_int options' (text "rate"))) _ (λ rate.
          step-Ensures K (value_or_exit (sb_get_value_int options' (text "report-interval"))) _
            (λ interval.
              step-Ensures K
                (parse_checkpoints system.qsort
                  (sb_get_value_list options' (text "report-checkpoints")))
                _
                (λ checkpoints. step-Ensures K (or_undefined system.allocates_timers) _ (λ u3.
                  bind-Ensures (Holds threads (places threads)) K
                    (init_timers threads (places threads)) _
                    (init_timers-Holds threads (places threads))
                    (λ timers h.
                      let kept = kept_places threads timers few h some_threads in
                      (refl, refl, kept.0, kept.1, kept.2))))))))
  where
    places : ℕ → List Timer
    places n = replicate (per_thread_places n) no_timer

Good-of_IsKept :
    (options : Options) (n warm time : ℤ) (k : ℕ) (limits : Limits) (s : Variables)
    → (unsigned_int n == 0) ≡ false
    → sb_get_value_int options (text "warmup-time") ≡ some warm
    → warm ≡ pos k
    → sb_get_value_int options (text "time") ≡ some time
    → (limits.max_time_ns ≡ wrapped_limit k time) × (limits.warmup_time ≡ k)
    → IsKept (unsigned_int n) limits s
    → Good options s
Good-of_IsKept options n warm time k limits s z a b c (d, e)
      (same, same_limits, room, timers, copies) =
    record {
      threads = subst (λ m. 0 < m) (sym same) (ground (arith, z));
      counted = subst (λ m. m + 1 < 2 ^ 32) (sym same) room;
      timers = timers ∙ ap (λ m. m + 1) (sym same);
      copies = copies ∙ ap (λ m. m + 1) (sym same);
      limit =
          limit-IsLimit options s warm time k a b c
            (ap (λ l. l.max_time_ns) same_limits ∙ d, ap (λ l. l.warmup_time) same_limits ∙ e);
    }

-- If `init` returns 0, there are threads, fewer than 2 ^ 32 - 1, and for each a timer and a copy of it,
-- with one more for the background threads. Where --time and --warmup-time are numbers that fit an int and
-- are not negative, the time limit is their sum in nanoseconds, and there is none if --time is 0.
pub init-Good :
    (read_file : Text → Option Text) (system : InitSystem) (options : Options)
    → Ensures (Good options) (init read_file system options)
unfolding init
init-Good read_file system options =
    let G = Good options in
    let warm = sb_get_value_int options (text "warmup-time") in
    let time = sb_get_value_int options (text "time") in
    step-Ensures G (value_or_exit (sb_get_value_int options (text "threads"))) _ (λ n.
      step-Ensures G (value_or_exit (sb_get_value_int options (text "thread-init-timeout"))) _
        (λ u1.
          bind-Ensures (λ u. (unsigned_int n == 0) ≡ false) G (refuse_if (unsigned_int n == 0)) _
            (refuse_if-false (unsigned_int n == 0))
            (λ u2 some_threads.
              step-Ensures G (value_or_exit (sb_get_value_int options (text "events"))) _ (λ events.
                bind-Ensures (λ w. warm ≡ some w) G (value_or_exit warm) _ (value_or_exit-some warm)
                  (λ w is_warm.
                    bind-Ensures (λ k. w ≡ pos k) G (not_negative w) _ (not_negative-pos w)
                      (λ k is_k.
                        bind-Ensures (λ t. time ≡ some t) G (value_or_exit time) _
                          (value_or_exit-some time)
                          (λ t is_time.
                            bind-Ensures
                              (λ l. (l.max_time_ns ≡ wrapped_limit k t) × (l.warmup_time ≡ k)) G
                              (limits_of system k t
                                (sb_get_value_string options (text "forced-shutdown")))
                              _
                              (limits_of-limit system k t
                                (sb_get_value_string options (text "forced-shutdown")))
                              (λ limits good_limits.
                                weaken-Ensures (IsKept (unsigned_int n) limits) G
                                  (finish_init read_file system options (unsigned_int n)
                                    (uint64 events) limits)
                                  (finish_init-IsKept read_file system options (unsigned_int n)
                                    (uint64 events) limits (unsigned_int_lt n)
                                    (ground (arith, some_threads)))
                                  (λ s kept.
                                    Good-of_IsKept options n w t k limits s some_threads is_warm
                                      is_k is_time good_limits kept)))))))))
