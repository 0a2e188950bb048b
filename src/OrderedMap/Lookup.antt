-- ===== src/OrderedMap/Lookup.antt =====
-- What `find` returns after each operation.
use mochi_yokan.Prelude.{◌≡◌, true, false, Option, none, some, [], ◌∷◌, arith, if◌then◌else◌}
use mochi_yokan.Common.{Bytes}
use mochi_yokan.OrderedMap.Defs.{Comparator, Map, IsStrictWeak, same, find, emplace, assign}

abbrev pub or_else : Option Bytes → Bytes → Bytes
or_else none d = d
or_else (some v) d = v

module _ {lt : Comparator} (o : IsStrictWeak lt) where
  pub asym : (a b : Bytes) → lt a b ≡ true → lt b a ≡ false
  asym a b h = ground (arith, o.irrefl a, o.trans a b a)

  -- Keys that a key is the same as lie on the same side of every other key.
  pub before_same : (a b c : Bytes) → lt a c ≡ true → same lt a b ≡ true → lt b c ≡ true
  unfolding same
  before_same a b c h s = ground (arith, o.cotrans a b c)

  pub same_before : (a b c : Bytes) → lt a c ≡ true → same lt b c ≡ true → lt a b ≡ true
  unfolding same
  same_before a b c h s = ground (arith, o.cotrans a b c)

  pub find-emplace :
      (k j v : Bytes) (m : Map)
      → find lt j (emplace lt k v m)
        ≡ (if same lt k j then some (or_else (find lt k m) v) else find lt j m)
  unfolding find emplace same
  find-emplace k j v [] = ground arith
  find-emplace k j v ((i, w) ∷ m) = ground (
    arith,
    find-emplace k j v m,
    o.trans j k i,
    o.trans j i k,
    asym j i,
    asym k i,
    o.cotrans i j k,
    o.cotrans i k j,
    o.cotrans j k i,
    o.cotrans k j i,
    o.cotrans k i j,
    o.cotrans j i k,
  )

  pub find-same : (k j : Bytes) (m : Map) → same lt k j ≡ true → find lt j m ≡ find lt k m
  unfolding find same
  find-same k j [] h = ground arith
  find-same k j ((i, w) ∷ m) h =
      ground (
        arith,
        find-same k j m h,
        o.cotrans i j k,
        o.cotrans i k j,
        o.cotrans j k i,
        o.cotrans k j i,
      )

  pub find-assign :
      (k j v w : Bytes) (m : Map)
      → find lt k m ≡ some w
      → find lt j (assign lt k v m) ≡ (if same lt k j then some v else find lt j m)
  unfolding find assign same
  find-assign k j v w [] h = ground arith
  find-assign k j v w ((i, u) ∷ m) h = ground (
    arith,
    find-assign k j v w m,
    o.trans j k i,
    o.trans j i k,
    asym j i,
    asym k i,
    o.cotrans i j k,
    o.cotrans i k j,
    o.cotrans j k i,
    o.cotrans k j i,
    o.cotrans k i j,
    o.cotrans j i k,
  )
