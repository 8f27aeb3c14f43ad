-- ===== src/MemoryTest/Examples.antt =====
-- The theorems about the memory test, for two threads that write 10 KiB in blocks of 1 KiB.
use bits_on_demand_pte_te.Prelude.{
  ℕ, ◌+◌, ◌≡◌, refl, Bool, true, false, some, [], ◌∷◌, ◌++◌, arith, inr,
}
use bits_on_demand_pte_te.Prelude.Lists.{replicate}
use bits_on_demand_pte_te.Pte.Machine.{pos}
use bits_on_demand_pte_te.MemoryTest.Config.{
  op_write, scope_global, seq_write, Settings, Globals, Platform,
}
use bits_on_demand_pte_te.MemoryTest.Init.{memory_init}
use bits_on_demand_pte_te.MemoryTest.Total.{
  Goes, Allocating, Valid, Initialised, memory_init-succeeds, global_scope, write_oper, sequential,
}
use bits_on_demand_pte_te.MemoryTest.Events.{execute_event}
use bits_on_demand_pte_te.MemoryTest.Events.Metadata.{Paired, Paired-execute_event}
use bits_on_demand_pte_te.MemoryTest.Events.Quota.{next_events, next_events-Limited}

-- The state is the next free address.
abbrev sample_platform : Platform
sample_platform = record {
  E = ℕ;
  page_size = 4096;
  sb_memalign = λ size alignment e. (some e, e + size);
  malloc = λ size e. (some e, e + size);
  memset = λ buffer value size e. e;
  enable_pte_meta = λ a e. (pos 0, e);
}

abbrev sample_settings : Settings
sample_settings = record {
  block_size = 1024;
  total_size = 10240;
  scope = "global";
  oper = "write";
  access_mode = "seq";
  pte_meta = true;
  pte_meta_type = pos 1;
  threads = 2;
}

abbrev sample_globals : Globals
sample_globals = record {
  memory_block_size = 1024;
  memory_total_size = 10240;
  memory_scope = scope_global;
  memory_oper = op_write;
  memory_access_rnd = false;
  pte_meta_enabled = true;
  pte_meta_type = pos 1;
  max_offset = 127;
  buffers = 4096 ∷ 4096 ∷ [];
  thread_counters = 5 ∷ 5 ∷ [];
  execute_event = some seq_write;
  max_events = 0;
}

allocating : Allocating sample_platform
allocating = record { memalign = λ size alignment e. (e, refl); malloc = λ size e. (e, refl) }

sample_settings-Valid : Valid sample_settings scope_global op_write false
sample_settings-Valid = record {
  exponent = 10;
  block_size = refl;
  word = omega arith;
  small = omega arith;
  total_size = omega arith;
  scope = global_scope;
  meta_type = inr refl;
  oper = write_oper;
  access_mode = sequential;
}

memory_init-succeeds_example :
    Goes
      (λ _ h. Initialised sample_settings scope_global op_write false h)
      (memory_init sample_platform sample_settings sample_globals 4096)
memory_init-succeeds_example =
    memory_init-succeeds sample_globals 4096 allocating sample_settings-Valid

next_events-Limited_example : next_events 6 sample_globals 1 ≡ replicate 5 true ++ false ∷ []
next_events-Limited_example =
    next_events-Limited 5 sample_globals 1
      (record { positive = omega arith; signed = omega arith; thread = omega arith }) (omega arith)
      refl

abbrev no_offset : ℕ → ℕ
no_offset i = 0

abbrev has_room : ℕ → Bool
has_room i = true

Paired-execute_event_example :
    Paired (execute_event sample_globals 1 no_offset (λ i. true) seq_write)
Paired-execute_event_example = Paired-execute_event sample_globals 1 no_offset seq_write refl
