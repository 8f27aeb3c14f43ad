-- ===== src/Rand/Unique/Distinct.antt =====
-- The values that the calls of `sb_rand_unique` of sb_rand.c return one behind the other.
use Prim.Native.Nat.{bit_xor}
use bits_on_demand_pte_te.Prelude.{
  ℕ, zero, suc, ◌+◌, ◌%◌, ◌^◌, ◌<◌, ◌≡◌, ◌≢◌, refl, sym, ◌∙◌, arith,
}
use bits_on_demand_pte_te.Rand.Bits.{bit_xor_lt, bit_xor-injective}
use bits_on_demand_pte_te.Rand.Unique.{
  rand_unique_permute, Unique, rand_unique_seed, unique_value, sb_rand_unique, unique_calls,
  unique_draw,
}
use bits_on_demand_pte_te.Rand.Unique.Permute.{
  rand_unique_permute_lt, rand_unique_permute-injective,
}

-- Both fields are words of 32 bits.
abbrev pub IsWords : Unique → Type 0
IsWords st = (st.index < 2 ^ 32) × (st.offset < 2 ^ 32)

word_lt : (x : ℕ) → x % 2 ^ 32 < 2 ^ 32
word_lt x = omega arith

add-injective : (a b o : ℕ) → a < 2 ^ 32 → b < 2 ^ 32 → (a + o) % 2 ^ 32 ≡ (b + o) % 2 ^ 32 → a ≡ b
add-injective a b o p q e = omega (arith, p, q, e)

mask_lt : 0x5bf03635 < 2 ^ 32
mask_lt = omega arith

unique_value-injective :
    (a b o : ℕ) → a < 2 ^ 32 → b < 2 ^ 32 → unique_value a o ≡ unique_value b o → a ≡ b
unfolding unique_value
unique_value-injective a b o p q e = rand_unique_permute-injective a b (
    add-injective (rand_unique_permute a) (rand_unique_permute b) o (rand_unique_permute_lt a p)
      (rand_unique_permute_lt b q)
      (bit_xor-injective 32 ((rand_unique_permute a + o) % 2 ^ 32)
        ((rand_unique_permute b + o) % 2 ^ 32) 0x5bf03635 (word_lt (rand_unique_permute a + o))
        (word_lt (rand_unique_permute b + o))
        (rand_unique_permute-injective (bit_xor ((rand_unique_permute a + o) % 2 ^ 32) 0x5bf03635)
          (bit_xor ((rand_unique_permute b + o) % 2 ^ 32) 0x5bf03635) e)))

unique_value_lt : (a o : ℕ) → unique_value a o < 2 ^ 32
unfolding unique_value
unique_value_lt a o =
    rand_unique_permute_lt (bit_xor ((rand_unique_permute a + o) % 2 ^ 32) 0x5bf03635) (
      bit_xor_lt 32 ((rand_unique_permute a + o) % 2 ^ 32) 0x5bf03635
        (word_lt (rand_unique_permute a + o)) mask_lt)

pub rand_unique_seed-IsWords : (index offset : ℕ) → IsWords (rand_unique_seed index offset)
unfolding rand_unique_seed
rand_unique_seed-IsWords i o = (
  rand_unique_permute_lt ((rand_unique_permute i + 0x682f0161) % 2 ^ 32)
      (word_lt (rand_unique_permute i + 0x682f0161)),
  rand_unique_permute_lt ((rand_unique_permute o + 0x46790905) % 2 ^ 32)
      (word_lt (rand_unique_permute o + 0x46790905)),
)

-- The index counts the calls, and the offset stays.
unique_calls-index :
    (n : ℕ) (st : Unique) → st.index < 2 ^ 32 → (unique_calls n st).index ≡ (st.index + n) % 2 ^ 32
unfolding unique_calls sb_rand_unique
unique_calls-index zero st h = omega (arith, h)
unique_calls-index (suc n) st h = omega (arith, unique_calls-index n st h)

unique_calls-offset : (n : ℕ) (st : Unique) → (unique_calls n st).offset ≡ st.offset
unfolding unique_calls sb_rand_unique
unique_calls-offset zero st = refl
unique_calls-offset (suc n) st = unique_calls-offset n st

unique_draw-value :
    (n : ℕ) (st : Unique)
    → st.index < 2 ^ 32
    → unique_draw n st ≡ unique_value ((st.index + n) % 2 ^ 32) st.offset
unfolding unique_draw sb_rand_unique
unique_draw-value n st h = rw (unique_calls-index n st h, unique_calls-offset n st) refl

unwrap : (s i j : ℕ) → i < j → j < 2 ^ 32 → (s + i) % 2 ^ 32 ≢ (s + j) % 2 ^ 32
unwrap s i j l h e = omega (arith, l, h, e)

-- Of 2 ^ 32 calls of the generator one behind the other no two return the same number, for every index
-- and offset that are words of 32 bits.
pub unique_draw-distinct :
    (st : Unique) (i j : ℕ) → IsWords st → i < j → j < 2 ^ 32 → unique_draw i st ≢ unique_draw j st
unique_draw-distinct st i j (w, _) l h e = unwrap st.index i j l h (
    unique_value-injective ((st.index + i) % 2 ^ 32) ((st.index + j) % 2 ^ 32) st.offset
      (word_lt (st.index + i)) (word_lt (st.index + j))
      (sym (unique_draw-value i st w) ∙ e ∙ unique_draw-value j st w))
