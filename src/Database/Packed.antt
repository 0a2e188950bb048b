-- ===== src/Database/Packed.antt =====
-- The sizes of a packed reply, DatabaseInterface::get of include/yokan/backend.hpp.
use mochi_yokan.Prelude.{
  ℕ, suc, ◌-◌, ◌≤◌, ◌≡◌, refl, ap, Bool, true, false, Option, none, some, List, [], ◌∷◌, arith, ltb,
  length, length-append, Bool-cases, inl, inr,
}
use mochi_yokan.Common.{Bytes}
use mochi_yokan.Database.Spec.{packed_sizes, packed_bytes}

pub length-packed_bytes :
    (room : ℕ) (os : List (Option Bytes)) → length (packed_bytes room os) ≤ room
unfolding packed_bytes
length-packed_bytes room [] = omega arith
length-packed_bytes room (none ∷ os) = length-packed_bytes room os
length-packed_bytes room (some x ∷ os) = elim (Bool-cases (ltb room (length x))) [
  | inl e ↦ rw e (omega arith)
  | inr e ↦ rw e (
      ground (
        arith,
        length-append x (packed_bytes (room - length x) os),
        length-packed_bytes (room - length x) os,
      ))
]

pub length-packed_sizes :
    (room : ℕ) (full : Bool) (os : List (Option Bytes))
    → length (packed_sizes room full os) ≡ length os
unfolding packed_sizes
length-packed_sizes room full [] = refl
length-packed_sizes room true (none ∷ os) = ap suc (length-packed_sizes room true os)
length-packed_sizes room false (none ∷ os) = ap suc (length-packed_sizes room false os)
length-packed_sizes room true (some x ∷ os) = ap suc (length-packed_sizes room true os)
length-packed_sizes room false (some x ∷ os) = elim (Bool-cases (ltb room (length x))) [
  | inl e ↦ rw e (ap suc (length-packed_sizes room true os))
  | inr e ↦ rw e (ap suc (length-packed_sizes (room - length x) false os))
]
