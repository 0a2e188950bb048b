-- ===== src/Rpc/ListKeys/OverMap.antt =====
-- A packed listing by prefix of the map backend of src/backends/map.cpp, as its clients see it.
use mochi_yokan.Prelude.{
  ℕ, ◌-◌, ◌≤◌, ◌<◌, ◌≡◌, refl, sym, ap, ◌∙◌, Bool, true, false, Option, some, List, [], ◌∷◌, arith,
  length, length-map, word, replicate, length-replicate, Option-cases, inl, inr,
}
use mochi_yokan.Common.{
  Bytes, size_too_small, no_more_keys, last_valid_size, mode_ignore_keys, mode_no_prefix, has,
}
use mochi_yokan.OrderedMap.{IsSorted}
use mochi_yokan.KeyOrder.{default_mem_cmp}
use mochi_yokan.Filter.{prefix_filter}
use mochi_yokan.MapDb.State.{World}
use mochi_yokan.MapDb.Listing.Start.{select, in_range}
use mochi_yokan.MapDb.Listing.Items.{items, fit, fit-bounded}
use mochi_yokan.MapDb.Listing.Packed.{
  listed_sizes, listed_bytes, listed_sizes-none, listed_sizes-some, listed_bytes-none,
  listed_bytes-some, length-listed_bytes,
}
use mochi_yokan.MapDb.Listing.Prefix.{list_prefix_contract}
use mochi_yokan.MapDb.AsDatabase.{map_database}
use mochi_yokan.Rpc.Layout.{AllWords}
use mochi_yokan.Rpc.ListKeys.Direct.{IsListing}

-- A listing reads of its slots only how many there are.
module _ (copy : ℕ → Bytes → Option Bytes) where
  listed_sizes_slots :
      (room : ℕ) (full : Bool) (ks : List Bytes) (ss ss' : List ℕ)
      → length ss ≡ length ss'
      → listed_sizes copy room full ks ss ≡ listed_sizes copy room full ks ss'
  unfolding listed_sizes
  listed_sizes_slots room full ks [] [] e = refl
  listed_sizes_slots room full ks [] (s ∷ ss) e = absurd (omega arith)
  listed_sizes_slots room full ks (s ∷ ss) [] e = absurd (omega arith)
  listed_sizes_slots room full [] (s ∷ ss) (s' ∷ ss') e =
      ap (◌∷◌ no_more_keys) (listed_sizes_slots room full [] ss ss' (omega arith))
  listed_sizes_slots room true (k ∷ ks) (s ∷ ss) (s' ∷ ss') e =
      ap (◌∷◌ size_too_small) (listed_sizes_slots room true ks ss ss' (omega arith))
  listed_sizes_slots room false (k ∷ ks) (s ∷ ss) (s' ∷ ss') e = elim (Option-cases (copy room k)) [
    | inl h ↦
        rw (listed_sizes-none copy room k ks s ss h, listed_sizes-none copy room k ks s' ss' h)
          (ap (◌∷◌ size_too_small) (listed_sizes_slots room true ks ss ss' (omega arith)))
    | inr (x, h) ↦
        rw (listed_sizes-some copy room k x ks s ss h, listed_sizes-some copy room k x ks s' ss' h)
          (ap (◌∷◌ (length x)) (listed_sizes_slots (room - length x) false ks ss ss' (omega arith)))
  ]

  listed_bytes_slots :
      (room : ℕ) (ks : List Bytes) (ss ss' : List ℕ)
      → length ss ≡ length ss'
      → listed_bytes copy room ks ss ≡ listed_bytes copy room ks ss'
  unfolding listed_bytes
  listed_bytes_slots room [] ss ss' e = refl
  listed_bytes_slots room (k ∷ ks) [] [] e = refl
  listed_bytes_slots room (k ∷ ks) [] (s ∷ ss) e = absurd (omega arith)
  listed_bytes_slots room (k ∷ ks) (s ∷ ss) [] e = absurd (omega arith)
  listed_bytes_slots room (k ∷ ks) (s ∷ ss) (s' ∷ ss') e = elim (Option-cases (copy room k)) [
    | inl h ↦
        rw (listed_bytes-none copy room k ks s ss h, listed_bytes-none copy room k ks s' ss' h) refl
    | inr (x, h) ↦
        rw
          (
            listed_bytes-some copy room k x ks s ss h,
            listed_bytes-some copy room k x ks s' ss' h,
            listed_bytes_slots (room - length x) ks ss ss' (omega arith),
          )
          refl
  ]

  length-listed_sizes :
      (room : ℕ) (full : Bool) (ks : List Bytes) (ss : List ℕ)
      → length (listed_sizes copy room full ks ss) ≡ length ss
  unfolding listed_sizes
  length-listed_sizes room full [] ss = length-map (λ s. no_more_keys) ss
  length-listed_sizes room full (k ∷ ks) [] = refl
  length-listed_sizes room true (k ∷ ks) (s ∷ ss) =
      omega (arith, length-listed_sizes room true ks ss)
  length-listed_sizes room false (k ∷ ks) (s ∷ ss) = elim (Option-cases (copy room k)) [
    | inl h ↦
        rw (listed_sizes-none copy room k ks s ss h)
          (omega (arith, length-listed_sizes room true ks ss))
    | inr (x, h) ↦
        rw (listed_sizes-some copy room k x ks s ss h)
          (omega (arith, length-listed_sizes (room - length x) false ks ss))
  ]

  listed_sizes-AllWords :
      ((room : ℕ) (k x : Bytes) → copy room k ≡ some x → length x ≤ room)
      → (room : ℕ) (full : Bool) (ks : List Bytes) (ss : List ℕ) → room < word
      → AllWords (listed_sizes copy room full ks ss)
  unfolding listed_sizes
  listed_sizes-AllWords bounded room full [] [] h = tt
  listed_sizes-AllWords bounded room full [] (s ∷ ss) h =
      (omega arith, listed_sizes-AllWords bounded room full [] ss h)
  listed_sizes-AllWords bounded room full (k ∷ ks) [] h = tt
  listed_sizes-AllWords bounded room true (k ∷ ks) (s ∷ ss) h =
      (omega arith, listed_sizes-AllWords bounded room true ks ss h)
  listed_sizes-AllWords bounded room false (k ∷ ks) (s ∷ ss) h = elim (Option-cases (copy room k)) [
    | inl e ↦
        rw (listed_sizes-none copy room k ks s ss e)
          (omega arith, listed_sizes-AllWords bounded room true ks ss h)
    | inr (x, e) ↦ rw (listed_sizes-some copy room k x ks s ss e) (
      omega (arith, bounded room k x e),
      listed_sizes-AllWords bounded (room - length x) false ks ss (omega arith),
    )
  ]

module _ (has_lua : Bool) (mode : ℕ) (from prefix : Bytes) (count room : ℕ) (w : World)
    (with_keys : has mode mode_ignore_keys ≡ false) (sorted : IsSorted default_mem_cmp w.entries)
    (short : room ≤ last_valid_size) where
  pub map_database-IsListing :
      let f = prefix_filter mode prefix in
      let ks =
        items
          (has mode mode_no_prefix)
          prefix
          (select (in_range default_mem_cmp mode from) w.entries) in
      IsListing
        (map_database has_lua)
        mode
        from
        f
        count
        room
        w
        (listed_sizes fit room false ks (replicate count 0))
        (listed_bytes fit room ks (replicate count 0))
  map_database-IsListing =
      let f = prefix_filter mode prefix in
      let ks =
        items (has mode mode_no_prefix) prefix
          (select (in_range default_mem_cmp mode from) w.entries) in
      let bounded = fit-bounded in
      record {
        lists = λ keys slots e n.
            let same_count : length (replicate {A = ℕ} count 0) ≡ length slots =
              length-replicate {A = ℕ} count 0 ∙ sym n in
            rw
              (
                listed_sizes_slots fit room false ks (replicate count 0) slots same_count,
                listed_bytes_slots fit room ks (replicate count 0) slots same_count,
                sym e,
              )
              (list_prefix_contract mode prefix from keys slots w with_keys sorted (omega arith));
        size_count =
            length-listed_sizes fit room false ks (replicate count 0)
            ∙ length-replicate {A = ℕ} count 0;
        fits = length-listed_bytes fit bounded room ks (replicate count 0);
        words = listed_sizes-AllWords fit bounded room false ks (replicate count 0) (omega arith);
      }
