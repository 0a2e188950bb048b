-- ===== src/BitField/Defs.antt =====
-- The accessor that `operator[]` returns, its conversion to `bool` and its assignment.
use Prim.Native.Nat.{bit_and, bit_or}
use mochi_yokan.Prelude.{
  ℕ, ◌-◌, ◌/◌, ◌%◌, ◌^◌, Bool, not, List, ltb, ◌==◌, length, get_or, set, if◌then◌else◌, Outcome,
  done, fault,
}

pub record BitField : Type 0 where
  -- the bytes at `data`
  pub bytes : List ℕ
  -- the number of bits
  pub size : ℕ

-- `*data & mask`
unfoldable pub test_bit : ℕ → ℕ → Bool
test_bit x s = not (bit_and x (2 ^ s) == 0)

-- `*data |= mask` and `*data &= ~mask`, on a byte
unfoldable pub assign_bit : ℕ → ℕ → Bool → ℕ
assign_bit x s b = if b then bit_or x (2 ^ s) else bit_and x (255 - 2 ^ s)

unfoldable pub test : BitField → ℕ → Bool
unfolding test_bit
test f i = test_bit (get_or f.bytes (i / 8) 0) (i % 8)

unfoldable pub assign : BitField → ℕ → Bool → Outcome BitField
unfolding assign_bit
assign f i b =
    if ltb (i / 8) (length f.bytes)
    then done
        (record f { bytes = set f.bytes (i / 8) (assign_bit (get_or f.bytes (i / 8) 0) (i % 8) b) })
    else fault
