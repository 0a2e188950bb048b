-- ===== src/Memory/Layout.antt =====
-- How consecutive items lie in a view: the items that sizes cut it into.
use mochi_yokan.Prelude.{
  ℕ, zero, suc, ◌+◌, ◌≤◌, ◌<◌, ◌≡◌, refl, ap, List, [], ◌∷◌, arith, length, take, drop, word, wrap,
  done, le→ltb,
}
use mochi_yokan.Common.{Bytes}
use native.Mathlib.Nat.{zero-add, suc-add}
use mochi_yokan.Memory.Defs.{slice, total}

abbrev pub sum : List ℕ → ℕ
sum [] = 0
sum (s ∷ ss) = s + sum ss

-- The items that sizes cut a view into, from its start.
abbrev pub cut : List ℕ → Bytes → List Bytes
cut [] mem = []
cut (s ∷ ss) mem = take s mem ∷ cut ss (drop s mem)

pub drop-nil {ℓ} : {A : Type ℓ} (n : ℕ) → drop {A = A} n [] ≡ []
drop-nil zero = refl
drop-nil (suc n) = refl

pub drop-drop {ℓ} : {A : Type ℓ} (m n : ℕ) (xs : List A) → drop n (drop m xs) ≡ drop (m + n) xs
drop-drop zero n xs = rw zero-add
drop-drop (suc m) n [] = rw (drop-nil n, drop-nil (suc m + n))
drop-drop (suc m) n (x ∷ xs) = rw suc-add (drop-drop m n xs)

-- Inside of the view, a slice returns.
pub slice_within :
    (mem : Bytes) (offset size : ℕ)
    → offset + size ≤ length mem
    → slice mem offset size ≡ done (take size (drop offset mem))
unfolding slice
slice_within mem offset size h = rw (le→ltb (length mem) (offset + size) h)

pub length-cut : (ss : List ℕ) (mem : Bytes) → length (cut ss mem) ≡ length ss
length-cut [] mem = refl
length-cut (s ∷ ss) mem = ap suc (length-cut ss (drop s mem))

-- A sum below the word size does not wrap.
pub total-sum : (ss : List ℕ) (acc : ℕ) → acc + sum ss < word → total ss acc ≡ acc + sum ss
unfolding total
total-sum [] acc h = omega arith
total-sum (s ∷ ss) acc h =
    let e : wrap (acc + s) ≡ acc + s = omega arith in rw e (omega (arith, total-sum ss (acc + s)))

-- The items of the given sizes lie within the view.
pub record Fits (sizes : List ℕ) (mem : Bytes) : Type 0 where
  pub within : sum sizes ≤ length mem
  pub below_word : length mem < word
