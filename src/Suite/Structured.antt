-- ===== src/Suite/Structured.antt =====
-- test3/test3.c: metadata with MDP=1, a header and a payload in one buffer.
use bits_on_demand_pte_te.Prelude.{
  ℕ, ◌+◌, Bool, true, false, not, ◌&&◌, List, [], ◌∷◌, ◌++◌, ◌==◌, ltb, if◌then◌else◌,
}
use bits_on_demand_pte_te.Prelude.Lists.{length, take, drop}
use bits_on_demand_pte_te.Prelude.Words.{to_bytes, of_bytes}
use bits_on_demand_pte_te.Pte.Machine.{
  Machine, sys_enable_pte_meta, sys_disable_pte_meta, sys_set_pte_meta, sys_get_pte_meta,
}
use bits_on_demand_pte_te.Pte.Process.{
  Proc, pure, exit_failure, undefined_behaviour, returning, modify, ◌>>=◌, ◌>>◌, fill,
  verify_pattern, or_die, call_or_die_1, call_or_die_3, returning_get, unchecked, checked,
}

-- `struct metadata_header`, packed: two 16-bit fields and a 32-bit field.
pub record MetadataHeader : Type 0 where
  pub version : ℕ
  pub type : ℕ
  pub length : ℕ

abbrev pub sizeof_header : ℕ
sizeof_header = 8

-- The bytes of a header, as `memcpy` copies them.
unfoldable pub header_bytes : MetadataHeader → List ℕ
header_bytes h = to_bytes 2 h.version ++ (to_bytes 2 h.type ++ to_bytes 4 h.length)

-- A buffer read through a `struct metadata_header *`.
unfoldable pub header_at : List ℕ → MetadataHeader
header_at b = record {
  version = of_bytes (take 2 b);
  type = of_bytes (take 2 (drop 2 b));
  length = of_bytes (take 4 (drop 4 b));
}

abbrev pub payload_size : ℕ
payload_size = 16

abbrev pub test_header : MetadataHeader
test_header = record { version = 1; type = 0x1234; length = payload_size }

abbrev pub test_payload : List ℕ
test_payload =
    0xDE ∷ 0xAD ∷ 0xBE ∷ 0xEF ∷ 0xCA ∷ 0xFE ∷ 0xBA ∷ 0xBE ∷ 0x01 ∷ 0x23 ∷ 0x45 ∷ 0x67 ∷ 0x89 ∷ 0xAB
    ∷ 0xCD ∷ 0xEF ∷ []

-- `memcmp(…) == 0` over two stretches of the same length
unfoldable pub equal_bytes : List ℕ → List ℕ → Bool
equal_bytes [] [] = true
equal_bytes (x ∷ xs) (y ∷ ys) = x == y && equal_bytes xs ys
equal_bytes _ _ = false

unfoldable pub same_header : MetadataHeader → MetadataHeader → Bool
same_header h k = h.version == k.version && (h.type == k.type && h.length == k.length)

-- `print_payload` reads `length` bytes, whatever the size of the block that they lie in.
unfoldable pub print_payload : {K : Type 0} → List ℕ → ℕ → Proc K (Unit {0})
print_payload payload n = if ltb (length payload) n then undefined_behaviour else pure tt

module _ (m : Machine) where
  open m use {Kern, page_size, malloc, syscall_get, posix_memalign, mlock, munlock, free}

  unfoldable pub test_mdp1 : ℕ → ℕ → Proc Kern (Unit {0})
  test_mdp1 buf ps = do
    call_or_die_1 m sys_enable_pte_meta buf
    let total_size = sizeof_header + test_header.length
    a ← returning (malloc total_size)
    block ← checked a
    let meta_buffer = (header_bytes test_header ++ test_payload) ++ drop total_size block
    print_payload test_payload test_header.length
    call_or_die_3 m sys_set_pte_meta buf 1 meta_buffer
    verify_pattern buf ps
    c ← returning (malloc total_size)
    retrieved_block ← checked c
    (r, retrieved_buffer) ← returning_get (syscall_get sys_get_pte_meta buf retrieved_block)
    or_die r
    let retrieved_header = header_at retrieved_buffer
    let retrieved_payload = drop sizeof_header retrieved_buffer
    print_payload retrieved_payload retrieved_header.length
    if not (same_header retrieved_header test_header) then exit_failure else pure tt
    if not (equal_bytes (take test_header.length retrieved_payload) test_payload)
        then exit_failure
        else pure tt

  unfoldable pub test3 : Proc Kern ℕ
  test3 = do
    a ← returning (posix_memalign page_size page_size)
    buf ← unchecked a
    modify (mlock buf page_size)
    fill buf page_size
    verify_pattern buf page_size
    test_mdp1 buf page_size
    call_or_die_1 m sys_disable_pte_meta buf
    verify_pattern buf page_size
    modify (munlock buf page_size)
    modify (free buf)
    pure 0
