-- ===== src/BitField/Laws.antt =====
-- What an assignment to a bit of a bit field does to the others.
use mochi_yokan.Prelude.{
  ℕ, ◌*◌, ◌/◌, ◌%◌, ◌≤◌, ◌<◌, ◌≡◌, refl, Bool, List, [], ◌∷◌, arith, ◌==◌, length, get_or, set,
  length-set, get_or-set_self, get_or-set_ne, if◌then◌else◌, done, lt→ltb, zero, suc,
}
use mathlib.Core.Path.{sym}
use native.Mathlib.Decide.{ℕ_discrete}
use mochi_yokan.BitField.Defs.{BitField, test, assign, test_bit, assign_bit}
use mochi_yokan.BitField.Masks.{test_bit-assign_bit, assign_bit-lt}

abbrev pub AllBytes : List ℕ → Type 0
AllBytes [] = Unit
AllBytes (x ∷ xs) = (x < 256) × AllBytes xs

get_or-lt : (xs : List ℕ) (i : ℕ) → AllBytes xs → get_or xs i 0 < 256
get_or-lt [] i h = omega arith
get_or-lt (x ∷ xs) zero h = h.0
get_or-lt (x ∷ xs) (suc i) h = get_or-lt xs i h.1

AllBytes-set : (xs : List ℕ) (i v : ℕ) → AllBytes xs → v < 256 → AllBytes (set xs i v)
AllBytes-set [] i v h b = tt
AllBytes-set (x ∷ xs) zero v h b = (b, h.1)
AllBytes-set (x ∷ xs) (suc i) v h b = (h.0, AllBytes-set xs i v h.1 b)

bit_of_set :
    (xs : List ℕ) (i j : ℕ) (b : Bool)
    → get_or xs (i / 8) 0 < 256
    → i / 8 < length xs
    → test_bit
        (get_or (set xs (i / 8) (assign_bit (get_or xs (i / 8) 0) (i % 8) b)) (j / 8) 0)
        (j % 8)
      ≡ (if i == j then b else test_bit (get_or xs (j / 8) 0) (j % 8))
bit_of_set xs i j b hx hi = elim (ℕ_discrete (j / 8) (i / 8)) [
  | yes e ↦
      rw
        (
          e,
          get_or-set_self xs (i / 8) (assign_bit (get_or xs (i / 8) 0) (i % 8) b) 0 hi,
          test_bit-assign_bit b (get_or xs (i / 8) 0) (i % 8) (j % 8) hx (omega arith)
              (omega arith),
        )
        (ground arith)
  | no e ↦
      rw
        (get_or-set_ne xs (i / 8) (j / 8) (assign_bit (get_or xs (i / 8) 0) (i % 8) b) 0
          (λ p. e (sym p)))
        (ground arith)
]

-- The bytes are bytes, and there are enough of them for the bits.
pub record IsValid (f : BitField) : Type 0 where
  pub bytes : AllBytes f.bytes
  pub room : f.size ≤ 8 * length f.bytes

-- In a valid bit field, whose bytes are bytes and have room for its bits, the assignment of a bit
-- below the size succeeds, leaves the field valid and of that size, sets that bit to the value
-- given, and leaves every other bit as it was.
pub assign_lem :
    (f : BitField) (i : ℕ) (b : Bool)
    → IsValid f
    → i < f.size
    → (f' : BitField) × (assign f i b ≡ done f')
      × IsValid f'
      × (f'.size ≡ f.size)
      × ((j : ℕ) → test f' j ≡ (if i == j then b else test f j))
unfolding test assign
assign_lem f i b v h =
    let x = get_or f.bytes (i / 8) 0 in
    let hx : x < 256 = get_or-lt f.bytes (i / 8) v.bytes in
    let hi : i / 8 < length f.bytes = omega (arith, v.room) in
    let y = assign_bit x (i % 8) b in
    let bs = set f.bytes (i / 8) y in
    (
      record f { bytes = bs },
      rw (lt→ltb (i / 8) (length f.bytes) hi),
      record {
        bytes = AllBytes-set f.bytes (i / 8) y v.bytes (assign_bit-lt b x (i % 8) hx (omega arith));
        room = omega (arith, v.room, length-set f.bytes (i / 8) y);
      },
      refl,
      λ j. bit_of_set f.bytes i j b hx hi,
    )

-- An assignment keeps the number of bytes.
pub length-assign :
    (f f' : BitField) (i : ℕ) (b : Bool) → assign f i b ≡ done f' → length f'.bytes ≡ length f.bytes
unfolding assign
length-assign f f' i b h =
    ground (arith, h, length-set f.bytes (i / 8) (assign_bit (get_or f.bytes (i / 8) 0) (i % 8) b))
