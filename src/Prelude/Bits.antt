-- ===== src/Prelude/Bits.antt =====
-- Sixty-four-bit words.
use Prim.Native.Nat.{ℕ, ◌%◌, ◌^◌}

-- The values of a size_t lie below this.
abbrev pub word : ℕ
word = 2 ^ 64

-- The value that a size_t keeps of a number.
abbrev pub wrap : ℕ → ℕ
wrap n = n % word
