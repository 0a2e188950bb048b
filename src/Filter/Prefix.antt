-- ===== src/Filter/Prefix.antt =====
-- The prefix filter of src/server/util/filters.cpp: what it accepts, and when it stops a listing.
use Prim.Native.Nat.{min}
use mathlib.Core.Path.{ap₂}
use mochi_yokan.Prelude.{
  ℕ, suc, ◌≡◌, refl, Bool, true, false, [], ◌∷◌, ◌++◌, arith, ltb, length, drop, if◌then◌else◌, ◌↔◌,
}
use mochi_yokan.Common.{Bytes}
use mochi_yokan.KeyOrder.{memcmp, lex}
use mochi_yokan.Filter.Defs.{is_prefix, is_gt}

is_prefix-cons :
    (p : ℕ) (ps : Bytes) (k : ℕ) (ks : Bytes)
    → is_prefix (p ∷ ps) (k ∷ ks)
      ≡ (if ltb k p then false else if ltb p k then false else is_prefix ps ks)
unfolding is_prefix memcmp
is_prefix-cons p ps k ks = ground arith

is_prefix-nil : (key : Bytes) → is_prefix [] key ≡ true
unfolding is_prefix memcmp
is_prefix-nil key = ground arith

not-is_prefix-nil : (p : ℕ) (ps : Bytes) → is_prefix (p ∷ ps) [] ≡ false
unfolding is_prefix
not-is_prefix-nil p ps = ground arith

prefix_is_prefix : (prefix rest : Bytes) → is_prefix prefix (prefix ++ rest) ≡ true
prefix_is_prefix [] rest = is_prefix-nil rest
prefix_is_prefix (p ∷ ps) rest =
    ground (arith, is_prefix-cons p ps p (ps ++ rest), prefix_is_prefix ps rest)

split_prefix :
    (prefix key : Bytes) → is_prefix prefix key ≡ true → key ≡ prefix ++ drop (length prefix) key
split_prefix [] key h = refl
split_prefix (p ∷ ps) [] h = absurd (ground (arith, not-is_prefix-nil p ps))
split_prefix (p ∷ ps) (k ∷ ks) h = let (e, t) = both in ap₂ ◌∷◌ e (split_prefix ps ks t)
  where
    both : (k ≡ p) × (is_prefix ps ks ≡ true)
    both = ground (arith, is_prefix-cons p ps k ks)

-- The filter accepts a key exactly when the key is the prefix and some rest.
pub is_prefix_iff :
    (prefix key : Bytes) → (is_prefix prefix key ≡ true) ↔ ((rest : Bytes) × (key ≡ prefix ++ rest))
is_prefix_iff prefix key = (
  λ h. (drop (length prefix) key, split_prefix prefix key h),
  λ r. rw r.1 (prefix_is_prefix prefix r.0),
)

min-suc : (a b : ℕ) → min (suc a) (suc b) ≡ suc (min a b)
min-suc a b = omega arith

min-zero : (a : ℕ) → min a 0 ≡ 0
min-zero a = omega arith

zero-min : (a : ℕ) → min 0 a ≡ 0
zero-min a = omega arith

-- The test by which the filter stops.
unfoldable pub beyond : Bytes → Bytes → Bool
beyond prefix key = is_gt (memcmp (min (length key) (length prefix)) key prefix)

beyond-cons :
    (p : ℕ) (ps : Bytes) (k : ℕ) (ks : Bytes)
    → beyond (p ∷ ps) (k ∷ ks) ≡ (if ltb p k then true else if ltb k p then false else beyond ps ks)
unfolding beyond memcmp
beyond-cons p ps k ks = rw (min-suc (length ks) (length ps), beyond) (ground arith)

not-beyond-nil : (key : Bytes) → beyond [] key ≡ false
unfolding beyond memcmp
not-beyond-nil key = rw (min-zero (length key))

nil-not-beyond : (prefix : Bytes) → beyond prefix [] ≡ false
unfolding beyond memcmp
nil-not-beyond prefix = rw (zero-min (length prefix))

-- Once the filter says "stop" at a key, it refuses every key that does not come before that one in
-- the lexicographic order, which is the default order of the map.
pub stop_sound :
    (prefix key later : Bytes)
    → beyond prefix key ≡ true
    → lex later key ≡ false
    → is_prefix prefix later ≡ false
unfolding lex
stop_sound [] key later s h = absurd (ground (arith, not-beyond-nil key))
stop_sound (p ∷ ps) [] later s h = absurd (ground (arith, nil-not-beyond (p ∷ ps)))
stop_sound (p ∷ ps) (k ∷ ks) [] s h = not-is_prefix-nil p ps
stop_sound (p ∷ ps) (k ∷ ks) (l ∷ ls) s h =
    ground (arith, is_prefix-cons p ps l ls, beyond-cons p ps k ks, stop_sound ps ks ls)
