-- ===== src/FileTest/Arguments/Ready.antt =====
-- The variables that `parse_arguments` of sb_fileio.c sets are such that the requests can be made.
use native.Mathlib.Nat.{mod-add-div, mod-lt}
use bits_on_demand_pte_te.Prelude.{
  ℕ, zero, suc, ◌+◌, ◌*◌, ◌/◌, ◌%◌, ◌≤◌, ◌<◌, ◌≡◌, sym, subst, Bool, arith,
}
use bits_on_demand_pte_te.Options.Names.{text}
use bits_on_demand_pte_te.Options.Store.{Options}
use bits_on_demand_pte_te.Options.Set.{sb_get_value_string, sb_get_value_list}
use bits_on_demand_pte_te.FileTest.Requests.{Config}
use bits_on_demand_pte_te.FileTest.Requests.Within.{Fits}
use bits_on_demand_pte_te.FileTest.Arguments.{Environment, FileArgs, alloc_buffers, parse_arguments}
use bits_on_demand_pte_te.FileTest.Values.{
  Build, Sizes, parse_sizes, parse_test_mode, parse_io_mode, parse_blocks, parse_extra_flags,
  parse_syncs, fsync_mode_of,
}
use bits_on_demand_pte_te.Options.Outcome.{refuse_if}
use bits_on_demand_pte_te.FileTest.Arguments.Sound.{
  Sound, GoodSizes, GoodBlocks, GoodSyncs, BuffersOf, parse_sizes-GoodSizes,
  parse_blocks-GoodBlocks, parse_syncs-GoodSyncs, alloc_buffers-BuffersOf,
}
use bits_on_demand_pte_te.Options.Outcome.Ensures.{Ensures, bind-Ensures, step-Ensures}

-- The variables as the requests read them, with `sb_globals.validate`.
abbrev pub config_of : FileArgs → Bool → Config
config_of a validate = record {
  test_mode = a.test_mode;
  num_files = a.sizes.num_files;
  total_size = a.sizes.total_size;
  file_size = a.sizes.file_size;
  block_size = a.blocks.file_block_size;
  request_size = a.blocks.file_request_size;
  fsync_freq = a.syncs.file_fsync_freq;
  validate = validate;
}

quotient_positive : (t n : ℕ) → 0 < n → n ≤ t → 0 < t / n
quotient_positive t n o l = go (t / n) (mod-add-div t n)
  where
    go : (q : ℕ) → t % n + n * q ≡ t → 0 < q
    go zero e = absurd (omega (arith, e, mod-lt t o, l))
    go (suc q) e = omega arith

share_positive : (s : Sizes) → GoodSizes s → s.num_files ≤ s.total_size → 0 < s.file_size
share_positive s g l =
    subst (λ x. 0 < x) (sym g.share) (quotient_positive s.total_size s.num_files g.files l)

-- What the requests need of the variables.
abbrev pub Ready : ℕ → FileArgs → Type 0
Ready threads a =
    Sound threads a
    × ((validate : Bool) → a.sizes.num_files ≤ a.sizes.total_size → Fits (config_of a validate))

Ready-of_Sound : (threads : ℕ) (a : FileArgs) → Sound threads a → Ready threads a
Ready-of_Sound threads a s = (
  s,
  λ validate l. record {
    files = s.sizes.files;
    counted = s.sizes.counted;
    size = share_positive a.sizes s.sizes l;
    request = s.blocks.request;
  },
)

-- If `parse_arguments` returns 0, there are files, fewer than 2 ^ 32, that share a total size which is
-- positive as a long long; a request is as many blocks as are merged, or one, and has some bytes; each
-- thread has a buffer of the size of a request; and where every write is followed by a
-- synchronisation, the two other kinds are off. If there are not more files than bytes, the
-- variables are as the requests need them.
pub parse_arguments-Ready :
    (build : Build) (env : Environment) (options : Options)
    → Ensures (Ready env.threads) (parse_arguments build env options)
unfolding parse_arguments
parse_arguments-Ready build env options =
    let Q = Ready env.threads in
    bind-Ensures GoodSizes Q (parse_sizes options) _ (parse_sizes-GoodSizes options)
      (λ sizes good_sizes.
        step-Ensures Q
          (parse_test_mode env.cmdname (sb_get_value_string options (text "file-test-mode"))) _
          (λ mode.
            step-Ensures Q (parse_io_mode build (sb_get_value_string options (text "file-io-mode")))
              _
              (λ io_mode.
                bind-Ensures GoodBlocks Q (parse_blocks options) _ (parse_blocks-GoodBlocks options)
                  (λ blocks good_blocks.
                    step-Ensures Q
                      (parse_extra_flags (sb_get_value_list options (text "file-extra-flags"))) _
                      (λ flags.
                        bind-Ensures GoodSyncs Q (parse_syncs options) _
                          (parse_syncs-GoodSyncs options)
                          (λ syncs good_syncs.
                            step-Ensures Q
                              (fsync_mode_of build
                                (sb_get_value_string options (text "file-fsync-mode")))
                              _
                              (λ fsync_mode.
                                step-Ensures Q (refuse_if env.rw_ratio_negative) _ (λ u.
                                  bind-Ensures (BuffersOf blocks.file_request_size env.threads) Q
                                    (alloc_buffers env.allocates blocks.file_request_size
                                      env.threads 0)
                                    _
                                    (alloc_buffers-BuffersOf env.allocates blocks.file_request_size
                                      env.threads 0)
                                    (λ buffers good_buffers. Ready-of_Sound env.threads _ (record {
                                      sizes = good_sizes;
                                      blocks = good_blocks;
                                      syncs = good_syncs;
                                      buffers = good_buffers;
                                    }))))))))))
