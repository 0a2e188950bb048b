-- ===== src/Memory/Words.antt =====
-- Numbers of 64 bits in the memory of a little-endian host.
use mochi_yokan.Prelude.{
  ℕ, zero, suc, ◌+◌, ◌*◌, ◌/◌, ◌%◌, ◌^◌, ◌<◌, ◌≡◌, refl, ap, ◌++◌, List, [], ◌∷◌, arith, length,
  take, drop,
}
use mochi_yokan.Common.{Bytes}

-- The bytes of a number in the memory of a little-endian host: `std::memcpy(dst, &x, n)`.
unfoldable pub le_bytes : ℕ → ℕ → Bytes
le_bytes zero x = []
le_bytes (suc n) x = (x % 256) ∷ le_bytes n (x / 256)

unfoldable pub le_value : Bytes → ℕ
le_value [] = 0
le_value (b ∷ bs) = b + 256 * le_value bs

-- The bytes of an array of 64-bit numbers, and the array of so many numbers with such bytes.
unfoldable pub bytes_of : List ℕ → Bytes
unfolding le_bytes
bytes_of [] = []
bytes_of (x ∷ xs) = le_bytes 8 x ++ bytes_of xs

unfoldable pub words_of : ℕ → Bytes → List ℕ
unfolding le_value
words_of zero bs = []
words_of (suc n) bs = le_value (take 8 bs) ∷ words_of n (drop 8 bs)

pub le_value-le_bytes : (x : ℕ) → x < 2 ^ 64 → le_value (le_bytes 8 x) ≡ x
unfolding le_value le_bytes
le_value-le_bytes x h = omega arith

pub length-le_bytes : (n x : ℕ) → length (le_bytes n x) ≡ n
unfolding le_bytes
length-le_bytes zero x = refl
length-le_bytes (suc n) x = ap suc (length-le_bytes n (x / 256))
