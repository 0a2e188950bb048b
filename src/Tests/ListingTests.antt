-- ===== src/Tests/ListingTests.antt =====
-- Listings of a map of three entries, in the default order and by a prefix.
use mochi_yokan.Prelude.{ℕ, ◌≡◌, refl, true, false, List, [], ◌∷◌, ◌++◌, arith, length, done}
use mochi_yokan.Common.{Bytes, ok, no_more_keys, mode_ignore_keys, mode_no_prefix, has}
use mochi_yokan.OrderedMap.{IsSorted, find}
use mochi_yokan.KeyOrder.{memcmp, default_mem_cmp as cmp, default-IsStrictWeak}
use mochi_yokan.Memory.{written}
use mochi_yokan.Filter.{prefix_filter}
use mochi_yokan.MapDb.State.{World, Wake, key_present, timeout, hit, timed_out, stuck, await}
use mochi_yokan.MapDb.Read.Await.{await_waits}
use mochi_yokan.MapDb.Listing.Start.{select, in_range}
use mochi_yokan.MapDb.Listing.Items.{items, behind, fit}
use mochi_yokan.MapDb.Listing.{list_keys}
use mochi_yokan.MapDb.Listing.Packed.{accepted, StopSound, listed_sizes, listed_bytes}
use mochi_yokan.MapDb.Listing.Keys.{list_keys_contract}
use mochi_yokan.MapDb.Listing.Prefix.{
  prefix_filter-StopSound, prefix_filter-IsBounded, list_prefix_contract,
}

abbrev three : World
three = record {
  entries = (1 ∷ [], 10 ∷ []) ∷ (2 ∷ 5 ∷ [], 20 ∷ []) ∷ (3 ∷ [], 30 ∷ []) ∷ [];
  notified = [];
  wakes = [];
  gaps = [];
}

three-IsSorted : IsSorted cmp three.entries
unfolding cmp memcmp
three-IsSorted = (refl, (refl, (tt, tt)))

abbrev two_prefix : Bytes
two_prefix = 2 ∷ []

with_keys : has 0 mode_ignore_keys ≡ false
unfolding has
with_keys = refl

abbrev slots : List ℕ
slots = 0 ∷ 0 ∷ 0 ∷ []

abbrev buffer : Bytes
buffer = 90 ∷ 91 ∷ 92 ∷ []

abbrev in_two : List Bytes
in_two = accepted (prefix_filter 0 two_prefix) (select (in_range cmp 0 (1 ∷ [])) three.entries)

two_prefix_stops :
    StopSound (prefix_filter 0 two_prefix) (select (in_range cmp 0 (1 ∷ [])) three.entries)
unfolding select in_range cmp memcmp has
two_prefix_stops =
    prefix_filter-StopSound 0 two_prefix (select (in_range cmp 0 (1 ∷ [])) three.entries)
      (refl, (tt, tt))

list_keys_contract_example :
    list_keys cmp 0 true (1 ∷ []) (prefix_filter 0 two_prefix) buffer slots three ≡ (
      let f = prefix_filter 0 two_prefix in
      let p = listed_bytes f.key_copy 3 in_two slots in
      done (ok, listed_sizes f.key_copy 3 false in_two slots, written 0 p buffer, length p))
list_keys_contract_example =
    list_keys_contract 0 with_keys (prefix_filter 0 two_prefix) cmp (1 ∷ []) buffer slots three
      default-IsStrictWeak three-IsSorted (prefix_filter-IsBounded 0 two_prefix) two_prefix_stops
      (omega arith)

-- The size of the one key with the prefix, and what is behind the prefix under NO_PREFIX.
list_prefix_contract_example :
    list_keys cmp mode_no_prefix true
      (1 ∷ [])
      (prefix_filter mode_no_prefix two_prefix)
      buffer
      slots
      three
    ≡ done (ok, 1 ∷ no_more_keys ∷ no_more_keys ∷ [], 5 ∷ 91 ∷ 92 ∷ [], 1)
unfolding items behind select in_range fit listed_sizes listed_bytes cmp memcmp has
list_prefix_contract_example =
    list_prefix_contract mode_no_prefix two_prefix (1 ∷ []) buffer slots three refl three-IsSorted
      (omega arith)

abbrev vain : List Wake
vain = record { status = key_present; entries = (8 ∷ [], 7 ∷ []) ∷ [] } ∷ []

-- The key 9 comes with the second wake.
await_waits_example :
    (await cmp true (9 ∷ []) (record three {
      wakes = vain ++ record { status = key_present; entries = (9 ∷ [], 6 ∷ []) ∷ [] } ∷ [];
    })
      ≡ hit (6 ∷ []) (record three { entries = (9 ∷ [], 6 ∷ []) ∷ []; wakes = [] }))
    × (await cmp true
          (9 ∷ [])
          (record three { wakes = vain ++ record { status = timeout; entries = [] } ∷ [] })
        ≡ timed_out (record three { entries = []; wakes = [] }))
    × (await cmp true (9 ∷ []) (record three { wakes = vain }) ≡ stuck)
unfolding find cmp memcmp
await_waits_example =
    await_waits cmp (9 ∷ []) (6 ∷ []) three vain [] ((9 ∷ [], 6 ∷ []) ∷ []) [] refl (refl, refl, tt)
      refl
