-- ===== src/KeyOrder/Total.antt =====
-- The comparison of src/backends/map.cpp beside the lexicographic order of byte strings.
use Prim.Native.Nat.{min}
use mochi_yokan.Prelude.{
  ℕ, suc, ◌≡◌, refl, ◌↔◌, ◌⊎◌, inl, inr, Bool, true, false, [], ◌∷◌, arith, ltb, length,
  if◌then◌else◌,
}
use mathlib.Core.Path.{fun_ext}
use mochi_yokan.Common.{Bytes}
use mochi_yokan.OrderedMap.{IsStrictWeak, same}
use mochi_yokan.KeyOrder.Defs.{memcmp, default_mem_cmp}

unfoldable pub lex : Bytes → Bytes → Bool
lex [] [] = false
lex [] (y ∷ b) = true
lex (x ∷ a) [] = false
lex (x ∷ a) (y ∷ b) = if ltb x y then true else if ltb y x then false else lex a b

min-suc : (a b : ℕ) → min (suc a) (suc b) ≡ suc (min a b)
min-suc a b = omega arith

zero-min : (b : ℕ) → min 0 b ≡ 0
zero-min b = omega arith

min-zero : (a : ℕ) → min a 0 ≡ 0
min-zero a = omega arith

-- The comparator decides as the lexicographic order does, for all byte strings.
pub default_mem_cmp-eq-lex : (a b : Bytes) → default_mem_cmp a b ≡ lex a b
unfolding default_mem_cmp memcmp lex
default_mem_cmp-eq-lex [] [] = refl
default_mem_cmp-eq-lex [] (y ∷ b) = rw (zero-min (length (y ∷ b)), default_mem_cmp) (ground arith)
default_mem_cmp-eq-lex (x ∷ a) [] = rw (min-zero (length (x ∷ a)), default_mem_cmp) (ground arith)
default_mem_cmp-eq-lex (x ∷ a) (y ∷ b) =
    rw (min-suc (length a) (length b), default_mem_cmp) (ground (arith, default_mem_cmp-eq-lex a b))

lex_irrefl : (a : Bytes) → lex a a ≡ false
unfolding lex
lex_irrefl [] = refl
lex_irrefl (x ∷ a) = ground (arith, lex_irrefl a)

lex_trans : (a b c : Bytes) → lex a b ≡ true → lex b c ≡ true → lex a c ≡ true
unfolding lex
lex_trans [] [] c p q = cc
lex_trans [] (y ∷ b) [] p q = cc
lex_trans [] (y ∷ b) (z ∷ c) p q = refl
lex_trans (x ∷ a) [] c p q = cc
lex_trans (x ∷ a) (y ∷ b) [] p q = cc
lex_trans (x ∷ a) (y ∷ b) (z ∷ c) p q = ground (arith, lex_trans a b c)

lex_cotrans : (a b c : Bytes) → lex a c ≡ true → (lex a b ≡ true) ⊎ (lex b c ≡ true)
unfolding lex
lex_cotrans a b [] p = absurd (lex-nil a p)
  where
    lex-nil : (a : Bytes) → lex a [] ≡ true → ⊥
    lex-nil [] h = cc
    lex-nil (x ∷ a) h = cc
lex_cotrans [] [] (z ∷ c) p = inr refl
lex_cotrans [] (y ∷ b) (z ∷ c) p = inl refl
lex_cotrans (x ∷ a) [] (z ∷ c) p = inr refl
lex_cotrans (x ∷ a) (y ∷ b) (z ∷ c) p = ground (arith, lex_cotrans a b c)

pub lex-IsStrictWeak : IsStrictWeak lex
lex-IsStrictWeak = record { irrefl = lex_irrefl; trans = lex_trans; cotrans = lex_cotrans }

pub eq_of_same-lex : (a b : Bytes) → same lex a b ≡ true → a ≡ b
unfolding lex same
eq_of_same-lex [] [] h = refl
eq_of_same-lex [] (y ∷ b) h = cc
eq_of_same-lex (x ∷ a) [] h = cc
eq_of_same-lex (x ∷ a) (y ∷ b) h = ground (arith, eq_of_same-lex a b)

pub default-eq-lex : default_mem_cmp ≡ lex
default-eq-lex = fun_ext (λ a. fun_ext (λ b. default_mem_cmp-eq-lex a b))

-- The comparator is a strict weak order, which a `std::map` wants, and two keys that neither comes
-- before the other are equal.
pub default_mem_cmp-IsTotal :
    IsStrictWeak default_mem_cmp × ((a b : Bytes) → (same default_mem_cmp a b ≡ true) ↔ (a ≡ b))
unfolding same
default_mem_cmp-IsTotal =
    rw default-eq-lex (lex-IsStrictWeak, λ a b. (eq_of_same-lex a b, λ e. rw (e, lex_irrefl b)))

pub default-IsStrictWeak : IsStrictWeak default_mem_cmp
default-IsStrictWeak = default_mem_cmp-IsTotal.0
