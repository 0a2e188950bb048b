-- ===== src/MapDb/Listing/Start.antt =====
-- Where the listings of src/backends/map.cpp start.
use mochi_yokan.Prelude.{
  ℕ, ◌≡◌, refl, sym, ◌∙◌, Bool, true, not, [], ◌∷◌, arith, ◌==◌, length, if◌then◌else◌, Bool-cases,
  inl, inr,
}
use mochi_yokan.Common.{Bytes, mode_inclusive, has}
use mochi_yokan.OrderedMap.{
  Comparator, Map, IsStrictWeak, IsSorted, Below, Below-trans, lower_bound, upper_bound,
}
use mochi_yokan.MapDb.Listing.{start}

-- The entries that a test selects, in order.
unfoldable pub select : (Bytes → Bool) → Map → Map
select p [] = []
select p ((k, v) ∷ m) = let rest = select p m in if p k then (k, v) ∷ rest else rest

-- The keys from which a listing may start: all for an empty start key, else those behind it, and
-- under INCLUSIVE the start key itself.
unfoldable pub in_range : Comparator → ℕ → Bytes → Bytes → Bool
in_range lt mode from_key k =
    if length from_key == 0
    then true
    else if has mode mode_inclusive
    then not (lt k from_key)
    else lt from_key k

select_ext : {p q : Bytes → Bool} (m : Map) → ((k : Bytes) → p k ≡ q k) → select p m ≡ select q m
unfolding select
select_ext [] h = refl
select_ext ((k, v) ∷ m) h = rw (h k, select_ext m h)

module _ {lt : Comparator} (o : IsStrictWeak lt) where
  select_all : (p : Bytes → Bool) (m : Map) → ((k : Bytes) → p k ≡ true) → select p m ≡ m
  unfolding select
  select_all p [] h = refl
  select_all p ((k, v) ∷ m) h = rw (h k, select_all p m h)

  select_later :
      (p : Bytes → Bool) (i : Bytes) (m : Map)
      → ((k : Bytes) → lt i k ≡ true → p k ≡ true)
      → Below lt i m
      → IsSorted lt m
      → select p m ≡ m
  unfolding select
  select_later p i [] h b s = refl
  select_later p i ((k, v) ∷ m) h b s =
      rw (h k b, select_later p i m h (Below-trans o i k m b s.0) s.1)

  lower_bound-select :
      (from_key : Bytes) (m : Map)
      → IsSorted lt m
      → lower_bound lt from_key m ≡ select (λ k. not (lt k from_key)) m
  unfolding lower_bound select
  lower_bound-select a [] s = refl
  lower_bound-select a ((k, v) ∷ m) s = elim (Bool-cases (lt k a)) [
    | inl b ↦ rw b (lower_bound-select a m s.1)
    | inr b ↦
        rw
          (b, select_later (λ j. not (lt j a)) k m (λ j h. ground (arith, o.trans k j a h)) s.0 s.1)
  ]

  upper_bound-select :
      (from_key : Bytes) (m : Map)
      → IsSorted lt m
      → upper_bound lt from_key m ≡ select (λ k. lt from_key k) m
  unfolding upper_bound select
  upper_bound-select a [] s = refl
  upper_bound-select a ((k, v) ∷ m) s = elim (Bool-cases (lt a k)) [
    | inl b ↦ rw (b, select_later (λ j. lt a j) k m (λ j h. o.trans a k j b h) s.0 s.1)
    | inr b ↦ rw b (upper_bound-select a m s.1)
  ]

  lower_bound-IsSorted : (a : Bytes) (m : Map) → IsSorted lt m → IsSorted lt (lower_bound lt a m)
  unfolding lower_bound
  lower_bound-IsSorted a [] s = tt
  lower_bound-IsSorted a ((k, v) ∷ m) s = ground (arith, lower_bound-IsSorted a m s.1)

  upper_bound-IsSorted : (a : Bytes) (m : Map) → IsSorted lt m → IsSorted lt (upper_bound lt a m)
  unfolding upper_bound
  upper_bound-IsSorted a [] s = tt
  upper_bound-IsSorted a ((k, v) ∷ m) s = ground (arith, upper_bound-IsSorted a m s.1)

  -- In a map that is in order by a strict weak order, a listing goes through the entries in range,
  -- and through no others, in the order of the map: those from the start key on, or behind it
  -- without INCLUSIVE, and all of them for an empty start key.
  pub start_contract :
      (mode : ℕ) (from_key : Bytes) (m : Map)
      → IsSorted lt m
      → start lt mode from_key m ≡ select (in_range lt mode from_key) m
  unfolding start in_range
  start_contract mode a m s = elim (Bool-cases (length a == 0)) [
    | inl e ↦ rw e (sym (select_all (in_range lt mode a) m (λ k. rw (in_range, e))))
    | inr e ↦ elim (Bool-cases (has mode mode_inclusive)) [
      | inl i ↦ rw (e, i) (lower_bound-select a m s ∙ select_ext m (λ k. rw (in_range, e, i)))
      | inr i ↦ rw (e, i) (upper_bound-select a m s ∙ select_ext m (λ k. rw (in_range, e, i)))
    ]
  ]

  -- The entries of a listing are in order, as those of the map.
  pub start-IsSorted :
      (mode : ℕ) (from_key : Bytes) (m : Map)
      → IsSorted lt m
      → IsSorted lt (start lt mode from_key m)
  unfolding start
  start-IsSorted mode a m s = ground (arith, lower_bound-IsSorted a m s, upper_bound-IsSorted a m s)
