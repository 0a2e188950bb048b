-- ===== src/MapDb/Listing/Prefix.antt =====
-- `listKeys` with the prefix filter, in the default order of the keys.
use mochi_yokan.Prelude.{ℕ, ◌≤◌, ◌≡◌, refl, sym, true, false, List, [], ◌∷◌, arith, length, done}
use mochi_yokan.Common.{Bytes, ok, last_valid_size, mode_ignore_keys, mode_no_prefix, has}
use mochi_yokan.OrderedMap.{Map, IsSorted, Below, Below-trans, asym}
use mochi_yokan.KeyOrder.{
  lex, lex-IsStrictWeak, default_mem_cmp, default-eq-lex, default-IsStrictWeak,
}
use mochi_yokan.Filter.{prefix_filter, beyond, stop_sound, copy_bounded}
use mochi_yokan.Memory.{written}
use mochi_yokan.MapDb.State.{World}
use mochi_yokan.MapDb.Listing.{list_keys}
use mochi_yokan.MapDb.Listing.Packed.{accepted, StopSound, IsBounded, listed_sizes, listed_bytes}
use mochi_yokan.MapDb.Listing.Start.{select, in_range, start_contract, start-IsSorted}
use mochi_yokan.MapDb.Listing.Items.{items, fit, sizes_of_items, bytes_of_items}
use mochi_yokan.MapDb.Listing.Keys.{list_keys_contract}

module _ (mode : ℕ) (prefix : Bytes) where
  none_later :
      (key : Bytes) (m : Map)
      → beyond prefix key ≡ true
      → Below lex key m
      → IsSorted lex m
      → accepted (prefix_filter mode prefix) m ≡ []
  unfolding accepted prefix_filter
  none_later key [] b l s = refl
  none_later key ((k, v) ∷ m) b l s =
      rw (stop_sound prefix key k b (asym lex-IsStrictWeak key k l))
        (none_later key m b (Below-trans lex-IsStrictWeak key k m l s.0) s.1)

  lex-StopSound : (m : Map) → IsSorted lex m → StopSound (prefix_filter mode prefix) m
  unfolding prefix_filter beyond
  lex-StopSound [] s = tt
  lex-StopSound ((k, v) ∷ m) s = (λ c p. none_later k m p s.0 s.1, lex-StopSound m s.1)

  -- In a map that is in the default order, the prefix filter says "stop" at no entry before one
  -- that it accepts.
  pub prefix_filter-StopSound :
      (m : Map) → IsSorted default_mem_cmp m → StopSound (prefix_filter mode prefix) m
  prefix_filter-StopSound m s = lex-StopSound m (rw default-eq-lex at s)

  pub prefix_filter-IsBounded : IsBounded (prefix_filter mode prefix)
  unfolding prefix_filter copy_bounded
  prefix_filter-IsBounded room k x h = ground arith

module _ (mode : ℕ) (prefix : Bytes) where
  -- In a map that is in the default order, a packed listing by the prefix filter that keeps its
  -- keys returns OK and lists, in the order of the map, exactly the keys in range that have the
  -- prefix: whole, or under NO_PREFIX what is behind the prefix. In range are all keys for an empty
  -- start key, else those behind it, and under INCLUSIVE those not before it. In its slots are the sizes
  -- of the items as long as they have room, YOKAN_SIZE_TOO_SMALL behind that and YOKAN_NO_MORE_KEYS in
  -- the slots left, in the buffer the items with nothing between; the size of the buffer is theirs.
  pub list_prefix_contract :
      (from_key keys : Bytes) (slots : List ℕ) (w : World)
      → has mode mode_ignore_keys ≡ false
      → IsSorted default_mem_cmp w.entries
      → length keys ≤ last_valid_size
      → list_keys default_mem_cmp mode true from_key (prefix_filter mode prefix) keys slots w ≡ (
          let ks =
            items
              (has mode mode_no_prefix)
              prefix
              (select (in_range default_mem_cmp mode from_key) w.entries) in
          let p = listed_bytes fit (length keys) ks slots in
          done (ok, listed_sizes fit (length keys) false ks slots, written 0 p keys, length p))
  list_prefix_contract from_key keys slots w with_keys s b =
      let m = select (in_range default_mem_cmp mode from_key) w.entries in
      let e = start_contract default-IsStrictWeak mode from_key w.entries s in
      let stops : StopSound (prefix_filter mode prefix) m =
        prefix_filter-StopSound mode prefix m
          (rw (sym e) (start-IsSorted default-IsStrictWeak mode from_key w.entries s)) in
      rw
        (
          sym (sizes_of_items mode prefix m (length keys) false slots),
          sym (bytes_of_items mode prefix m (length keys) slots),
        )
        (list_keys_contract mode with_keys (prefix_filter mode prefix) default_mem_cmp from_key keys
          slots w default-IsStrictWeak s (prefix_filter-IsBounded mode prefix) stops b)
