-- ===== src/Prelude/Words.antt =====
-- Little-endian byte strings and the numbers that they stand for.
use Prim.Native.Nat.{ℕ, zero, suc, ◌+◌, ◌*◌, ◌/◌, ◌%◌, ◌^◌, ◌<◌}
use mathlib.Core.Path.{◌≡◌, refl}
use mathlib.Core.List.{List, [], ◌∷◌, ◌++◌}
use bits_on_demand_pte_te.Prelude.Lists.{length, take, drop}
use native.Mathlib.Omega.{arith}
use native.Mathlib.Nat.{pow-suc}

-- The `n` low bytes of `x`, the lowest first: an integer of `n` bytes as it lies in memory.
unfoldable pub to_bytes : ℕ → ℕ → List ℕ
to_bytes zero x = []
to_bytes (suc n) x = x % 256 ∷ to_bytes n (x / 256)

unfoldable pub of_bytes : List ℕ → ℕ
of_bytes [] = 0
of_bytes (b ∷ bs) = b % 256 + 256 * of_bytes bs

-- Reading back what was written gives the value, wrapped to the width.
pub of_bytes-to_bytes : (n x : ℕ) → x < 256 ^ n → of_bytes (to_bytes n x) ≡ x
unfolding of_bytes to_bytes
of_bytes-to_bytes zero x h = omega arith
of_bytes-to_bytes (suc n) x h =
    omega (arith, of_bytes-to_bytes n (x / 256) (omega (arith, pow-suc 256 n)))

pub length-to_bytes : (n x : ℕ) → length (to_bytes n x) ≡ n
unfolding to_bytes
length-to_bytes zero x = refl
length-to_bytes (suc n) x = omega (arith, length-to_bytes n (x / 256))

take-to_bytes : (n x : ℕ) (rest : List ℕ) → take n (to_bytes n x ++ rest) ≡ to_bytes n x
unfolding to_bytes
take-to_bytes zero x rest = refl
take-to_bytes (suc n) x rest = rw (take-to_bytes n (x / 256) rest)

-- A number is read back from the start of a longer buffer.
pub read-to_bytes :
    (n x : ℕ) (rest : List ℕ) → x < 256 ^ n → of_bytes (take n (to_bytes n x ++ rest)) ≡ x
read-to_bytes n x rest h = rw take-to_bytes (of_bytes-to_bytes n x h)

pub drop-to_bytes : (n x : ℕ) (rest : List ℕ) → drop n (to_bytes n x ++ rest) ≡ rest
unfolding to_bytes
drop-to_bytes zero x rest = refl
drop-to_bytes (suc n) x rest = drop-to_bytes n (x / 256) rest
