-- ===== src/Docs/Ids/Order.antt =====
-- The order of the keys of documents, and that of their identifiers.
use mochi_yokan.Memory.{le_bytes, le_value, le_value-le_bytes, length-le_bytes}
use mochi_yokan.Prelude.{
  ℕ, zero, suc, ◌/◌, ◌^◌, ◌<◌, ◌≡◌, refl, sym, ◌∙◌, true, false, [], ◌∷◌, ◌++◌, arith, ltb, length,
  length-append, if◌then◌else◌,
}
use mochi_yokan.Common.{Bytes}
use mochi_yokan.KeyOrder.{lex, default_mem_cmp, default_mem_cmp-eq-lex}
use mochi_yokan.BitField.{AllBytes}
use mochi_yokan.Docs.Ids.{ensure_big_endian, rev, le_bytes-ensure_big_endian}

lex-snoc :
    (xs ys : Bytes) (a b : ℕ)
    → length xs ≡ length ys
    → lex (xs ++ a ∷ []) (ys ++ b ∷ [])
      ≡ (if lex xs ys then true else if lex ys xs then false else ltb a b)
unfolding lex
lex-snoc [] [] a b e = ground arith
lex-snoc [] (y ∷ ys) a b e = absurd (omega arith)
lex-snoc (x ∷ xs) [] a b e = absurd (omega arith)
lex-snoc (x ∷ xs) (y ∷ ys) a b e = ground (arith, lex-snoc xs ys a b (omega arith))

pub lex-append_same : (p xs ys : Bytes) → lex (p ++ xs) (p ++ ys) ≡ lex xs ys
unfolding lex
lex-append_same [] xs ys = refl
lex-append_same (x ∷ p) xs ys = ground (arith, lex-append_same p xs ys)

length-rev : (xs : Bytes) → length (rev xs) ≡ length xs
length-rev [] = refl
length-rev (x ∷ xs) = omega (arith, length-append (rev xs) (x ∷ []), length-rev xs)

lex-rev :
    (xs ys : Bytes)
    → length xs ≡ length ys
    → AllBytes xs
    → AllBytes ys
    → (lex (rev xs) (rev ys) ≡ ltb (le_value xs) (le_value ys))
      × (lex (rev ys) (rev xs) ≡ ltb (le_value ys) (le_value xs))
unfolding lex le_value
lex-rev [] [] e a b = (ground arith, ground arith)
lex-rev [] (y ∷ ys) e a b = absurd (omega arith)
lex-rev (x ∷ xs) [] e a b = absurd (omega arith)
lex-rev (x ∷ xs) (y ∷ ys) e a b =
    let (forth, back) = lex-rev xs ys (omega arith) a.1 b.1 in
    let same : length (rev xs) ≡ length (rev ys) = omega (arith, length-rev xs, length-rev ys) in
    (
      rw (lex-snoc (rev xs) (rev ys) x y same, forth, back) (ground arith),
      rw (lex-snoc (rev ys) (rev xs) y x (sym same), forth, back) (ground arith),
    )

le_bytes-AllBytes : (n x : ℕ) → AllBytes (le_bytes n x)
unfolding le_bytes
le_bytes-AllBytes zero x = tt
le_bytes-AllBytes (suc n) x = (omega arith, le_bytes-AllBytes n (x / 256))

-- For two documents of a collection, the key of one comes before the key of the other in the default
-- order exactly when its identifier is the smaller one.
pub id_order :
    (prefix : Bytes) (x y : ℕ)
    → x < 2 ^ 64
    → y < 2 ^ 64
    → default_mem_cmp
        (prefix ++ le_bytes 8 (ensure_big_endian x))
        (prefix ++ le_bytes 8 (ensure_big_endian y))
      ≡ ltb x y
id_order prefix x y hx hy = rw (
  default_mem_cmp-eq-lex,
  lex-append_same,
  le_bytes-ensure_big_endian x hx,
  le_bytes-ensure_big_endian y hy,
  (lex-rev (le_bytes 8 x) (le_bytes 8 y) (length-le_bytes 8 x ∙ sym (length-le_bytes 8 y))
      (le_bytes-AllBytes 8 x) (le_bytes-AllBytes 8 y)).0,
  le_value-le_bytes x hx,
  le_value-le_bytes y hy,
)
