-- ===== src/OrderedMap/Defs.antt =====
-- The operations of `std::map` that the backend calls, over any comparator.
use mochi_yokan.Prelude.{
  ◌≡◌, ◌⊎◌, Bool, true, false, not, ◌&&◌, Option, none, some, List, [], ◌∷◌, if◌then◌else◌,
}
use mochi_yokan.Common.{Bytes}

-- "Is the first key before the second?"
abbrev pub Comparator : Type 0
Comparator = Bytes → Bytes → Bool

abbrev pub Map : Type 0
Map = List (Bytes × Bytes)

-- What the standard asks of the comparator of a map.
pub record IsStrictWeak (lt : Comparator) : Type 0 where
  pub irrefl : (a : Bytes) → lt a a ≡ false
  pub trans : (a b c : Bytes) → lt a b ≡ true → lt b c ≡ true → lt a c ≡ true
  pub cotrans : (a b c : Bytes) → lt a c ≡ true → (lt a b ≡ true) ⊎ (lt b c ≡ true)

module _ (lt : Comparator) where
  unfoldable pub same : Bytes → Bytes → Bool
  same a b = not (lt a b) && not (lt b a)

  unfoldable pub find : Bytes → Map → Option Bytes
  find k [] = none
  find k ((j, v) ∷ m) = if lt j k then find k m else if lt k j then none else some v

  -- The entries from the iterator that `lower_bound` returns on.
  unfoldable pub lower_bound : Bytes → Map → Map
  lower_bound k [] = []
  lower_bound k ((j, v) ∷ m) = if lt j k then lower_bound k m else (j, v) ∷ m

  unfoldable pub upper_bound : Bytes → Map → Map
  upper_bound k [] = []
  upper_bound k ((j, v) ∷ m) = if lt k j then (j, v) ∷ m else upper_bound k m

  -- `emplace` changes nothing if the key is there.
  unfoldable pub emplace : Bytes → Bytes → Map → Map
  emplace k v [] = (k, v) ∷ []
  emplace k v ((j, w) ∷ m) =
      if lt j k then (j, w) ∷ emplace k v m else if lt k j then (k, v) ∷ (j, w) ∷ m else (j, w) ∷ m

  -- `find(k)->second.assign(v)`, for a key that is there.
  unfoldable pub assign : Bytes → Bytes → Map → Map
  assign k v [] = []
  assign k v ((j, w) ∷ m) =
      if lt j k then (j, w) ∷ assign k v m else if lt k j then (j, w) ∷ m else (j, v) ∷ m

  -- `erase(find(k))`, for a key that is there.
  unfoldable pub erase : Bytes → Map → Map
  erase k [] = []
  erase k ((j, w) ∷ m) = if lt j k then (j, w) ∷ erase k m else if lt k j then (j, w) ∷ m else m
