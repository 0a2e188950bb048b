-- ===== src/Docs/Ids.antt =====
-- The big-endian identifiers of documents: `_ensureBigEndian`, on a little-endian host.
pub mod Order
use mochi_yokan.Prelude.{
  ℕ, zero, suc, ◌+◌, ◌*◌, ◌/◌, ◌%◌, ◌^◌, ◌≤◌, ◌<◌, ◌≡◌, refl, sym, ap, ◌∙◌, ◌++◌, List, [], ◌∷◌,
  arith, length,
}
use mochi_yokan.Common.{Bytes}
use mochi_yokan.Memory.{le_bytes, le_value}

-- `(x >> k) & (2^w - 1)`, a field of the word. The masks of the source select such fields, and its
-- shifted parts do not overlap, so that "or" is addition.
abbrev field : ℕ → ℕ → ℕ → ℕ
field x k w = x / 2 ^ k % 2 ^ w

-- (x & 0x00000000FFFFFFFF) << 32 | (x & 0xFFFFFFFF00000000) >> 32
swap_halves : ℕ → ℕ
swap_halves x = field x 0 32 * 2 ^ 32 + field x 32 32

-- (x & 0x0000FFFF0000FFFF) << 16 | (x & 0xFFFF0000FFFF0000) >> 16
swap_quarters : ℕ → ℕ
swap_quarters x =
    (field x 32 16 * 2 ^ 32 + field x 0 16) * 2 ^ 16 + (field x 48 16 * 2 ^ 32 + field x 16 16)

-- (x & 0x00FF00FF00FF00FF) << 8 | (x & 0xFF00FF00FF00FF00) >> 8
swap_bytes : ℕ → ℕ
swap_bytes x =
    (field x 48 8 * 2 ^ 48 + field x 32 8 * 2 ^ 32 + field x 16 8 * 2 ^ 16 + field x 0 8) * 2 ^ 8
    + (field x 56 8 * 2 ^ 48 + field x 40 8 * 2 ^ 32 + field x 24 8 * 2 ^ 16 + field x 8 8)

unfoldable pub ensure_big_endian : ℕ → ℕ
unfolding swap_halves swap_quarters swap_bytes
ensure_big_endian x = swap_bytes (swap_quarters (swap_halves x))

-- The word with the given bytes, lowest first.
abbrev pub word_of : ℕ → ℕ → ℕ → ℕ → ℕ → ℕ → ℕ → ℕ → ℕ
word_of a b c d e f g h =
    a + 256 * (b + 256 * (c + 256 * (d + 256 * (e + 256 * (f + 256 * (g + 256 * h))))))

-- A swap of each pair of bytes, of 16-bit halves and of 32-bit halves, on the bytes of a word.
module _ (a b c d e f g h : ℕ) (ha : a < 256) (hb : b < 256) (hc : c < 256) (hd : d < 256)
    (he : e < 256) (hf : f < 256) (hg : g < 256) (hh : h < 256) where
  swap_halves-word_of : swap_halves (word_of a b c d e f g h) ≡ word_of e f g h a b c d
  unfolding swap_halves
  swap_halves-word_of = omega arith

  swap_quarters-word_of : swap_quarters (word_of a b c d e f g h) ≡ word_of c d a b g h e f
  unfolding swap_quarters
  swap_quarters-word_of = omega arith

  swap_bytes-word_of : swap_bytes (word_of a b c d e f g h) ≡ word_of b a d c f e h g
  unfolding swap_bytes
  swap_bytes-word_of = omega arith

-- The bytes of a word.
abbrev digit : ℕ → ℕ → ℕ
digit x k = x / 2 ^ k % 256

-- The swaps reverse the bytes of a word.
pub ensure_big_endian-word_of :
    (a b c d e f g h : ℕ)
    → (a < 256) × (b < 256) × (c < 256) × (d < 256) × (e < 256) × (f < 256) × (g < 256) × (h < 256)
    → ensure_big_endian (word_of a b c d e f g h) ≡ word_of h g f e d c b a
unfolding ensure_big_endian
ensure_big_endian-word_of a b c d e f g h (ha, hb, hc, hd, he, hf, hg, hh) = rw (
  swap_halves-word_of a b c d e f g h ha hb hc hd he hf hg hh,
  swap_quarters-word_of e f g h a b c d he hf hg hh ha hb hc hd,
  swap_bytes-word_of g h e f c d a b hg hh he hf hc hd ha hb,
)

word_of_digits :
    (x : ℕ)
    → x < 2 ^ 64
    → x
      ≡ word_of
          (digit x 0)
          (digit x 8)
          (digit x 16)
          (digit x 24)
          (digit x 32)
          (digit x 40)
          (digit x 48)
          (digit x 56)
word_of_digits x h = omega arith

ensure_big_endian_digits :
    (x : ℕ)
    → x < 2 ^ 64
    → ensure_big_endian x
      ≡ word_of
          (digit x 56)
          (digit x 48)
          (digit x 40)
          (digit x 32)
          (digit x 24)
          (digit x 16)
          (digit x 8)
          (digit x 0)
ensure_big_endian_digits x h =
    ap ensure_big_endian (word_of_digits x h)
    ∙ ensure_big_endian-word_of (digit x 0) (digit x 8) (digit x 16) (digit x 24) (digit x 32)
        (digit x 40) (digit x 48) (digit x 56) (omega arith)

-- The conversion is its own inverse on 64-bit identifiers.
pub ensure_big_endian-ensure_big_endian :
    (x : ℕ) → x < 2 ^ 64 → ensure_big_endian (ensure_big_endian x) ≡ x
ensure_big_endian-ensure_big_endian x h = rw (ensure_big_endian_digits x h) (
    ensure_big_endian-word_of (digit x 56) (digit x 48) (digit x 40) (digit x 32) (digit x 24)
      (digit x 16) (digit x 8) (digit x 0) (omega arith)
    ∙ sym (word_of_digits x h))

abbrev pub rev : Bytes → Bytes
rev [] = []
rev (b ∷ bs) = rev bs ++ b ∷ []

-- In memory the converted identifier starts with its highest byte.
pub le_bytes-ensure_big_endian :
    (x : ℕ) → x < 2 ^ 64 → le_bytes 8 (ensure_big_endian x) ≡ rev (le_bytes 8 x)
unfolding le_bytes
le_bytes-ensure_big_endian x h = rw (ensure_big_endian_digits x h) (ground arith)

pub ensure_big_endian-lt : (x : ℕ) → x < 2 ^ 64 → ensure_big_endian x < 2 ^ 64
ensure_big_endian-lt x h = rw (ensure_big_endian_digits x h) (omega arith)
