-- ===== src/BitField/Masks.antt =====
-- The effect of a mask on each bit of a byte, checked for every byte.
use mochi_yokan.Prelude.{
  ℕ, zero, suc, ◌<◌, ◌≡◌, refl, Bool, true, not, ◌&&◌, arith, ltb, ◌==◌, if◌then◌else◌,
}
use mochi_yokan.BitField.Defs.{test_bit, assign_bit}

-- A test passes on every number under a bound.
passes : (ℕ → Bool) → ℕ → Bool
passes test zero = true
passes test (suc bound) = passes test bound && test bound

-- Such a run of tests decides each number under the bound.
passes_at : (test : ℕ → Bool) (bound i : ℕ) → i < bound → passes test bound ≡ true → test i ≡ true
unfolding passes
passes_at test zero i less run = absurd (omega arith)
passes_at test (suc bound) i less run = ground (arith, passes_at test bound i)

agree : Bool → Bool → Bool
agree a b = if a then b else not b

agree→eq : (a b : Bool) → agree a b ≡ true → a ≡ b
unfolding agree
agree→eq a b h = ground arith

bit_ok : Bool → ℕ → ℕ → ℕ → Bool
bit_ok b x s t =
    agree (test_bit (assign_bit x s b) t) (if s == t then b else test_bit x t)
    && ltb (assign_bit x s b) 256

table : Bool → Bool
table b = passes (λ x. passes (λ s. passes (bit_ok b x s) 8) 8) 256

table_on : table true ≡ true
unfolding table passes bit_ok agree test_bit assign_bit
table_on = refl

table_off : table Bool.false ≡ true
unfolding table passes bit_ok agree test_bit assign_bit
table_off = refl

table_all : (b : Bool) → table b ≡ true
table_all true = table_on
table_all Bool.false = table_off

bit_ok_all : (b : Bool) (x s t : ℕ) → x < 256 → s < 8 → t < 8 → bit_ok b x s t ≡ true
unfolding table
bit_ok_all b x s t hx hs ht =
    passes_at _ 8 t ht (passes_at _ 8 s hs (passes_at _ 256 x hx (table_all b)))

pub test_bit-assign_bit :
    (b : Bool) (x s t : ℕ)
    → x < 256
    → s < 8
    → t < 8
    → test_bit (assign_bit x s b) t ≡ (if s == t then b else test_bit x t)
unfolding bit_ok
test_bit-assign_bit b x s t hx hs ht = agree→eq _ _ (ground (arith, bit_ok_all b x s t hx hs ht))

pub assign_bit-lt : (b : Bool) (x s : ℕ) → x < 256 → s < 8 → assign_bit x s b < 256
unfolding bit_ok
assign_bit-lt b x s hx hs = ground (arith, bit_ok_all b x s 0 hx hs (omega arith))
