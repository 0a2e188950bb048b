-- ===== src/OrderedMap/Sorted.antt =====
-- The order of the keys in a map, under each operation.
use mochi_yokan.Prelude.{suc, ◌≡◌, refl, true, none, some, [], ◌∷◌, arith, length, if◌then◌else◌}
use mochi_yokan.Common.{Bytes}
use mochi_yokan.OrderedMap.Defs.{Comparator, Map, IsStrictWeak, same, find, emplace, assign, erase}
use mochi_yokan.OrderedMap.Lookup.{asym}

-- The key is before the first key of the map.
abbrev pub Below : Comparator → Bytes → Map → Type 0
Below lt k [] = Unit
Below lt k ((j, v) ∷ m) = lt k j ≡ true

abbrev pub IsSorted : Comparator → Map → Type 0
IsSorted lt [] = Unit
IsSorted lt ((k, v) ∷ m) = Below lt k m × IsSorted lt m

module _ {lt : Comparator} (o : IsStrictWeak lt) where
  Below-emplace :
      (i k v : Bytes) (m : Map) → lt i k ≡ true → Below lt i m → Below lt i (emplace lt k v m)
  unfolding emplace
  Below-emplace i k v [] h b = h
  Below-emplace i k v ((j, w) ∷ m) h b = ground arith

  pub emplace-IsSorted : (k v : Bytes) (m : Map) → IsSorted lt m → IsSorted lt (emplace lt k v m)
  unfolding emplace
  emplace-IsSorted k v [] s = (tt, tt)
  emplace-IsSorted k v ((j, w) ∷ m) s =
      ground (arith, emplace-IsSorted k v m s.1, Below-emplace j k v m)

  Below-assign : (i k v : Bytes) (m : Map) → Below lt i m → Below lt i (assign lt k v m)
  unfolding assign
  Below-assign i k v [] b = tt
  Below-assign i k v ((j, w) ∷ m) b = ground arith

  pub assign-IsSorted : (k v : Bytes) (m : Map) → IsSorted lt m → IsSorted lt (assign lt k v m)
  unfolding assign
  assign-IsSorted k v [] s = tt
  assign-IsSorted k v ((j, w) ∷ m) s =
      ground (arith, assign-IsSorted k v m s.1, Below-assign j k v m)

  -- A key before the first one is before them all.
  pub Below-trans : (i j : Bytes) (m : Map) → lt i j ≡ true → Below lt j m → Below lt i m
  Below-trans i j [] h b = tt
  Below-trans i j ((k, v) ∷ m) h b = o.trans i j k h b

  Below-erase : (i k : Bytes) (m : Map) → IsSorted lt m → Below lt i m → Below lt i (erase lt k m)
  unfolding erase
  Below-erase i k [] s b = tt
  Below-erase i k ((j, w) ∷ m) s b = ground (arith, Below-trans i j m b s.0)

  pub erase-IsSorted : (k : Bytes) (m : Map) → IsSorted lt m → IsSorted lt (erase lt k m)
  unfolding erase
  erase-IsSorted k [] s = tt
  erase-IsSorted k ((j, w) ∷ m) s =
      ground (arith, erase-IsSorted k m s.1, Below-erase j k m s.1 s.0)

  -- No key of a map is the same as one before its first key.
  pub find_of_Below : (k : Bytes) (m : Map) → Below lt k m → find lt k m ≡ none
  unfolding find
  find_of_Below k [] b = refl
  find_of_Below k ((j, w) ∷ m) b = ground (arith, asym o k j b)

  Below-same : (k j : Bytes) (m : Map) → same lt k j ≡ true → Below lt k m → Below lt j m
  unfolding same
  Below-same k j [] h b = tt
  Below-same k j ((i, w) ∷ m) h b = ground (arith, o.cotrans k j i b)

  pub find-erase :
      (k j : Bytes) (m : Map)
      → IsSorted lt m
      → find lt j (erase lt k m) ≡ (if same lt k j then none else find lt j m)
  unfolding find erase same
  find-erase k j [] s = ground arith
  find-erase k j ((i, w) ∷ m) s = ground (
    arith,
    find-erase k j m s.1,
    find_of_Below j m,
    Below-same i j m,
    Below-trans j i m,
    o.trans j k i,
    o.trans j i k,
    asym o j i,
    asym o k i,
    o.cotrans i j k,
    o.cotrans i k j,
    o.cotrans j k i,
    o.cotrans k j i,
    o.cotrans k i j,
    o.cotrans j i k,
  )

  -- An erased key that was there makes the map one entry shorter.
  pub length-erase :
      (k v : Bytes) (m : Map) → find lt k m ≡ some v → suc (length (erase lt k m)) ≡ length m
  unfolding find erase
  length-erase k v [] h = ground arith
  length-erase k v ((j, w) ∷ m) h = ground (arith, length-erase k v m)

  pub erase_absent : (k : Bytes) (m : Map) → find lt k m ≡ none → erase lt k m ≡ m
  unfolding find erase
  erase_absent k [] h = refl
  erase_absent k ((j, w) ∷ m) h = ground (arith, erase_absent k m)
