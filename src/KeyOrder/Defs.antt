-- ===== src/KeyOrder/Defs.antt =====
-- The comparison itself.
use Prim.Native.Nat.{min, compare, Ordering}
use mochi_yokan.Prelude.{ℕ, zero, suc, Bool, true, false, [], ◌∷◌, ltb, length}
use mochi_yokan.Common.{Bytes}

-- The sign of `std::memcmp(a, b, n)`, for an n within both.
unfoldable pub memcmp : ℕ → Bytes → Bytes → Ordering
memcmp zero a b = Ordering.eq
memcmp (suc n) [] b = Ordering.eq
memcmp (suc n) (x ∷ a) [] = Ordering.eq
memcmp (suc n) (x ∷ a) (y ∷ b) =
    let rest = memcmp n a b in
    elim (compare x y) [
      | Ordering.lt ↦ Ordering.lt
      | Ordering.gt ↦ Ordering.gt
      | Ordering.eq ↦ rest
    ]

unfoldable pub default_mem_cmp : Bytes → Bytes → Bool
default_mem_cmp l r = elim (memcmp (min (length l) (length r)) l r) [
  | Ordering.lt ↦ true
  | Ordering.gt ↦ false
  | Ordering.eq ↦ ltb (length l) (length r)
]
