-- ===== src/Memory/Written.antt =====
-- Consecutive copies into a buffer.
use native.Mathlib.Nat.{zero-add, suc-add}
use mochi_yokan.Prelude.{
  ℕ, zero, suc, ◌+◌, ◌≤◌, ◌≡◌, refl, ap, [], ◌∷◌, ◌++◌, arith, length, take, drop, length-append,
  done, le→ltb, lt→ltb, ◌<◌,
}
use mochi_yokan.Common.{Bytes, size_too_small}
use mochi_yokan.Memory.Defs.{write, val_copy}
use mochi_yokan.Memory.Layout.{drop-nil}

-- A buffer with bytes copied to an offset.
abbrev pub written : ℕ → Bytes → Bytes → Bytes
written offset src mem = take offset mem ++ (src ++ drop (offset + length src) mem)

pub length-written :
    (offset : ℕ) (src mem : Bytes)
    → offset + length src ≤ length mem
    → length (written offset src mem) ≡ length mem
length-written zero src mem h =
    omega
      (arith, length-append src (drop (0 + length src) mem), length-drop_le (0 + length src) mem)
  where
    length-drop_le : (n : ℕ) (xs : Bytes) → n ≤ length xs → length (drop n xs) + n ≡ length xs
    length-drop_le zero xs h = omega arith
    length-drop_le (suc n) [] h = elim h [ ]
    length-drop_le (suc n) (x ∷ xs) h = omega (arith, length-drop_le n xs (omega arith))
length-written (suc off) src [] h = absurd (omega arith)
length-written (suc off) src (m ∷ mem) h =
    rw suc-add (omega (arith, length-written off src mem (omega arith)))

pub written-nil : (offset : ℕ) (mem : Bytes) → written offset [] mem ≡ mem
written-nil zero mem = refl
written-nil (suc off) [] = rw (drop-nil (suc off + 0))
written-nil (suc off) (m ∷ mem) = rw suc-add (ap (◌∷◌ m) (written-nil off mem))

written-append :
    (x p mem : Bytes)
    → length x + length p ≤ length mem
    → written (length x) p (x ++ drop (length x) mem) ≡ (x ++ p) ++ drop (length x + length p) mem
written-append [] p mem h = refl
written-append (a ∷ x) p [] h = absurd (omega arith)
written-append (a ∷ x) p (m ∷ mem) h =
    rw suc-add (ap (◌∷◌ a) (written-append x p mem (omega arith)))

-- Two copies, the second right behind the first, are one.
pub written-written :
    (offset : ℕ) (x p mem : Bytes)
    → offset + (length x + length p) ≤ length mem
    → written (offset + length x) p (written offset x mem) ≡ written offset (x ++ p) mem
written-written zero x p mem h =
    rw (zero-add (length x), zero-add (length (x ++ p)), length-append x p)
      (written-append x p mem (omega arith))
written-written (suc off) x p [] h = absurd (omega arith)
written-written (suc off) x p (m ∷ mem) h =
    rw (suc-add, suc-add, suc-add) (ap (◌∷◌ m) (written-written off x p mem (omega arith)))

pub write-written :
    (mem : Bytes) (offset : ℕ) (src : Bytes)
    → offset + length src ≤ length mem
    → write mem offset src ≡ done (written offset src mem)
unfolding write
write-written mem offset src h = rw (le→ltb (length mem) (offset + length src) h)

pub val_copy_short :
    (mem : Bytes) (offset room : ℕ) (x : Bytes)
    → room < length x
    → val_copy mem offset room x ≡ done (size_too_small, mem)
unfolding val_copy
val_copy_short mem offset room x h = rw (lt→ltb room (length x) h)

pub val_copy_fits :
    (mem : Bytes) (offset room : ℕ) (x : Bytes)
    → length x ≤ room
    → offset + length x ≤ length mem
    → val_copy mem offset room x ≡ done (length x, written offset x mem)
unfolding val_copy
val_copy_fits mem offset room x h k =
    rw (le→ltb room (length x) h, le→ltb (length mem) (offset + length x) k)
