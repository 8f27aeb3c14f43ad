-- ===== src/Rand/Unique.antt =====
-- The generator of unique numbers in sb_rand.c: `rand_unique_permute`, `rand_unique_seed` and
-- `sb_rand_unique`. Words of 32 bits are numbers below `2 ^ 32`.
pub mod Permute
pub mod Distinct
use Prim.Native.Nat.{bit_xor}
use bits_on_demand_pte_te.Prelude.{
  ℕ, zero, suc, ◌+◌, ◌-◌, ◌*◌, ◌/◌, ◌%◌, ◌^◌, Bool, true, false, leb, if◌then◌else◌,
}

abbrev pub prime : ℕ
prime = 4294967291

unfoldable pub rand_unique_permute : ℕ → ℕ
rand_unique_permute x =
    if leb prime x
    then x
    else let residue = (x * x) % 2 ^ 64 % prime in
      if leb x (prime / 2) then residue else prime - residue

-- `rand_unique_index` and `rand_unique_offset`
pub record Unique : Type 0 where
  pub index : ℕ
  pub offset : ℕ

unfoldable pub rand_unique_seed : (index offset : ℕ) → Unique
unfolding rand_unique_permute
rand_unique_seed index offset = record {
  index = rand_unique_permute ((rand_unique_permute index + 0x682f0161) % 2 ^ 32);
  offset = rand_unique_permute ((rand_unique_permute offset + 0x46790905) % 2 ^ 32);
}

-- The value for an index.
unfoldable pub unique_value : (index offset : ℕ) → ℕ
unfolding rand_unique_permute
unique_value index offset =
    rand_unique_permute (bit_xor ((rand_unique_permute index + offset) % 2 ^ 32) 0x5bf03635)

-- The value, and the state behind the atomic increment.
unfoldable pub sb_rand_unique : Unique → ℕ × Unique
unfolding unique_value
sb_rand_unique st = (unique_value st.index st.offset, record st { index = (st.index + 1) % 2 ^ 32 })

-- The state after `n` calls.
unfoldable pub unique_calls : ℕ → Unique → Unique
unfolding sb_rand_unique
unique_calls zero st = st
unique_calls (suc n) st = (sb_rand_unique (unique_calls n st)).1

-- What the call after `n` others returns.
unfoldable pub unique_draw : ℕ → Unique → ℕ
unfolding sb_rand_unique unique_calls
unique_draw n st = (sb_rand_unique (unique_calls n st)).0
