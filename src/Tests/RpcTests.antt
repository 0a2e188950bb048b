-- ===== src/Tests/RpcTests.antt =====
-- Calls of a client on a map of two entries, over a network that copies.
use mochi_yokan.Database.Spec.{is_some, flags_from, size_of, packed_sizes, packed_bytes}
use mochi_yokan.Prelude.{
  ℕ, ◌+◌, ◌≤◌, ◌≡◌, refl, true, false, ◌&&◌, Option, none, some, List, [], ◌∷◌, ◌++◌, map, arith,
  ltb, ◌||◌, length, take, drop, replicate, le→ltb, inl, done, ◌>>=◌, if◌then◌else◌,
}
use mochi_yokan.Common.{Bytes, mode_wait, mode_consume, has}
use mochi_yokan.OrderedMap.{IsSorted, find}
use mochi_yokan.KeyOrder.{default_mem_cmp as cmp, memcmp}
use mochi_yokan.Memory.{cut, written}
use mochi_yokan.Database.{Database}
use mochi_yokan.Database.Laws.{Laws}
use mochi_yokan.MapDb.State.{World, supports_mode}
use mochi_yokan.MapDb.AsDatabase.{map_database, map_database_laws}
use mochi_yokan.Rpc.Codes.{success, cast}
use mochi_yokan.Rpc.Call.{
  Transfer, IsCopy, Arrival, Network, is_mode_valid, has_empty_key, min_size,
}
use mochi_yokan.Rpc.Sound.{IsSound}
use mochi_yokan.Rpc.Layout.{IsKeys, IsCall}
use mochi_yokan.Rpc.Put.{put_packed, put_one_pair}
use mochi_yokan.Rpc.Put.Remote.{put_packed_remote}
use mochi_yokan.Rpc.Erase.{erase_packed}
use mochi_yokan.Rpc.Erase.Remote.{erase_packed_remote}
use mochi_yokan.Rpc.Length.{length_packed}
use mochi_yokan.Rpc.Length.Remote.{length_packed_remote}
use mochi_yokan.Rpc.Exists.{flags_size, exists_packed}
use mochi_yokan.Rpc.Exists.Remote.{exists_packed_remote}
use mochi_yokan.Rpc.Get.{get_packed, get_one}
use mochi_yokan.Rpc.Get.Remote.{get_packed_remote}
use mochi_yokan.Filter.{Makers}
use mochi_yokan.Memory.{le_bytes}
use mochi_yokan.Docs.Keys.{Metadata, encode, keys_from_ids, key_from_id}
use mochi_yokan.Docs.Store.{Store, cached, same_bytes}
use mochi_yokan.Docs.Documents.Numbers.{numbered, upto}
use mochi_yokan.Database.Spec.{updated}
use mochi_yokan.Rpc.Documents.{doc_store_packed}
use mochi_yokan.Rpc.Documents.Layout.{IsDocuments}
use mochi_yokan.Rpc.Documents.OverStore.{doc_store_remote}
use mochi_yokan.Docs.Documents.{doc_update}
use mochi_yokan.Rpc.Documents.Update.{doc_update_packed}
use mochi_yokan.Rpc.Documents.Update.Remote.{doc_update_packed_remote}
use mochi_yokan.Rpc.Collections.{
  collection_create, collection_drop, collection_exists, collection_last_id, collection_size,
}
use mochi_yokan.Docs.Store.Create.{is_collection}
use mochi_yokan.Rpc.Codes.{err_mode}
use mochi_yokan.Rpc.Collections.Lifecycle.{collections_lifecycle}
use mochi_yokan.Rpc.Roundtrip.{IsPlain, IsReady, put-get}

abbrev db : Database World
db = map_database false

abbrev two : World
two = record {
  entries = (1 ∷ [], 10 ∷ 11 ∷ []) ∷ (2 ∷ [], 20 ∷ []) ∷ [];
  notified = [];
  wakes = [];
  gaps = [];
}

two-IsSorted : IsSorted cmp two.entries
unfolding cmp memcmp
two-IsSorted = (refl, (tt, tt))

abbrev copy : Transfer
copy src src_offset dst dst_offset size =
    if ltb (length src) (src_offset + size) || ltb (length dst) (dst_offset + size)
    then none
    else some (written dst_offset (take size (drop src_offset src)) dst)

copy-IsCopy : IsCopy copy
copy-IsCopy src src_offset dst dst_offset size h k =
    rw (le→ltb (length src) (src_offset + size) h, le→ltb (length dst) (dst_offset + size) k) refl

abbrev net : Network
net = record {
  bulk_created = true;
  created = true;
  handled = true;
  forwarded = true;
  output_decoded = true;
  output_freed = true;
}

-- The buffer comes with the bytes of a call before.
abbrev recycled : Bytes
recycled = replicate 64 99

abbrev arrival : Arrival
arrival = record {
  instance_found = true;
  provider_found = true;
  input_decoded = true;
  address_found = true;
  database_found = true;
  buffer = some recycled;
}

net-IsSound : IsSound net arrival
net-IsSound = record {
  bulk_created = refl;
  created = refl;
  handled = refl;
  forwarded = refl;
  output_decoded = refl;
  output_freed = refl;
  instance_found = refl;
  provider_found = refl;
  input_decoded = refl;
  address_found = refl;
  database_found = refl;
}

abbrev keys : Bytes
keys = 1 ∷ 3 ∷ []

abbrev ones : List ℕ
ones = 1 ∷ 1 ∷ []

keys-IsKeys : IsKeys 2 keys ones
unfolding has_empty_key min_size
keys-IsKeys = record {
  key_count = refl;
  keys_whole = refl;
  keys_nonempty = refl;
  below_word = omega arith;
}

pair-IsCall : IsCall 2 keys ones (30 ∷ 31 ∷ []) ones
pair-IsCall = record {
  of_keys = keys-IsKeys;
  value_count = refl;
  values_whole = refl;
  below_word = omega arith;
}

supported : db.supports_mode 0 ≡ true
unfolding supports_mode
supported = refl

valid : is_mode_valid 0 ≡ true
unfolding is_mode_valid has
valid = refl

put_packed_remote_example :
    put_packed copy db net arrival 0 2 (some keys) (some ones) (some (30 ∷ 31 ∷ [])) (some ones) two
    ≡ (do (status, s') ← db.put 0 keys ones (30 ∷ 31 ∷ []) ones two; done (cast status, s'))
put_packed_remote_example =
    put_packed_remote copy db net arrival 0 2 keys ones (30 ∷ 31 ∷ []) ones two copy-IsCopy
      net-IsSound supported pair-IsCall recycled refl (omega arith) (omega arith) valid

erase_packed_remote_example :
    erase_packed copy db net arrival 0 2 (some keys) (some ones) two
    ≡ (do (status, s') ← db.erase 0 keys ones two; done (cast status, s'))
erase_packed_remote_example =
    erase_packed_remote copy db net arrival 0 2 keys ones two copy-IsCopy net-IsSound supported
      keys-IsKeys recycled refl (omega arith) (omega arith) valid

abbrev laws : Laws db
laws = map_database_laws false

no_wait : has 0 mode_wait ≡ false
unfolding has
no_wait = refl

no_consume : has 0 mode_consume ≡ false
unfolding has
no_consume = refl

length_packed_remote_example :
    length_packed copy db net arrival 0 2 (some keys) (some ones) (some ones) two
    ≡ done (success, (some (map (λ k. size_of (laws.view two k)) (cut ones keys)), two))
unfolding map_database_laws find cmp memcmp
length_packed_remote_example =
    length_packed_remote copy db laws net arrival 0 2 keys ones ones two copy-IsCopy net-IsSound
      supported no_wait keys-IsKeys refl recycled refl (omega arith) valid (omega arith)
      (omega arith, (omega arith, tt))

exists_packed_remote_example :
    (fs : Bytes) × (exists_packed copy db net arrival 0 2
        (some keys)
        (some ones)
        (some (7 ∷ 7 ∷ []))
        two
      ≡ done (success, (some (fs ++ drop (flags_size 2) (7 ∷ 7 ∷ [])), two)))
    × (length fs ≡ flags_size 2)
    × (flags_from (record { bytes = fs; size = 2 }) 0 2
        ≡ map (λ k. is_some (laws.view two k)) (cut ones keys))
exists_packed_remote_example =
    exists_packed_remote copy db laws net arrival 0 2 keys ones (7 ∷ 7 ∷ []) two copy-IsCopy
      net-IsSound supported no_wait keys-IsKeys refl recycled refl (omega arith) valid (omega arith)

get_packed_remote_example :
    (rest : Bytes) × (get_packed copy db net arrival 0 2
        (some keys)
        (some ones)
        3
        (some (7 ∷ 7 ∷ 7 ∷ []))
        (some ones)
        two
      ≡ done (
        success,
        (
          (
            some (packed_sizes 3 false (map (laws.view two) (cut ones keys))),
            some (packed_bytes 3 (map (laws.view two) (cut ones keys)) ++ rest),
          ),
          two,
        ),
      ))
unfolding map_database_laws packed_sizes find cmp memcmp
get_packed_remote_example =
    get_packed_remote copy db laws net arrival 0 2 keys ones (7 ∷ 7 ∷ 7 ∷ []) ones two copy-IsCopy
      net-IsSound supported no_wait no_consume keys-IsKeys refl (omega arith) (omega arith) recycled
      refl (omega arith) valid (omega arith) (omega arith, (omega arith, tt))

plain : IsPlain 0
unfolding has
plain = record { no_append = refl; no_new_only = refl; no_exist_only = refl }

ready : (n : ℕ) → n ≤ 64 → IsReady db net arrival 0 n
ready n h = record {
  sound = net-IsSound;
  buffer = recycled;
  given = refl;
  long = h;
  small = omega arith;
  supported = supported;
  valid = valid;
}

put-get_example :
    (s' : World) × (rest : Bytes) × (put_one_pair copy db net arrival 0
        (some (3 ∷ []))
        1
        (some (30 ∷ 31 ∷ []))
        2
        two
      ≡ done (success, s'))
    × (get_one copy db net arrival 0 (some (3 ∷ [])) 1 (some (7 ∷ 7 ∷ 7 ∷ [])) 3 s'
        ≡ done (success, ((2, some (30 ∷ 31 ∷ rest)), s')))
unfolding map_database_laws
put-get_example =
    put-get copy db laws net net arrival arrival 0 0 (3 ∷ []) (30 ∷ 31 ∷ []) (7 ∷ 7 ∷ 7 ∷ []) two
      copy-IsCopy (omega arith) (ready 19 (omega arith)) (ready 20 (omega arith)) plain no_wait
      no_consume (omega arith) (omega arith) two-IsSorted

abbrev makers : Makers
makers = record { lua = none; registered = λ lib_name filter_name. none }

-- The collection "a" with two documents stored before, and metadata in the cache.
abbrev before : Metadata
before = record { size = 2; last_id = 2 }

abbrev store : Store World
store = record { db = two; metadata = (97 ∷ [], before) ∷ [] }

documents : IsDocuments 2 (30 ∷ 31 ∷ 32 ∷ []) (1 ∷ 2 ∷ []) ones
documents = record {
  size_count = refl;
  id_count = refl;
  docs_whole = refl;
  below_word = omega arith;
}

doc_store_remote_example :
    (let stored : Metadata = record { size = 4; last_id = 4 } in
      (st' : Store World) × (doc_store_packed copy db
          (some (97 ∷ []))
          net
          arrival
          0
          2
          (some (30 ∷ 31 ∷ 32 ∷ []))
          (some (1 ∷ 2 ∷ []))
          ones
          store
        ≡ done (success, (2 ∷ 3 ∷ [], st')))
      × ((j : Bytes)
          → laws.view st'.db j ≡ (
              if laws.same_key (97 ∷ []) j
              then some (encode stored)
              else updated laws.same_key 0
                  ((key_from_id (97 ∷ []) 2, 30 ∷ [])
                    ∷ (key_from_id (97 ∷ []) 3, 31 ∷ 32 ∷ [])
                    ∷ [])
                  j
                  (laws.view two j)))
      × (cached (97 ∷ []) st'.metadata ≡ some stored)
      × laws.IsValid st'.db)
unfolding map_database_laws has keys_from_ids numbered upto le_bytes cached same_bytes
doc_store_remote_example =
    doc_store_remote laws copy net arrival (97 ∷ []) 0 before (30 ∷ 31 ∷ 32 ∷ []) (1 ∷ 2 ∷ []) ones
      recycled store refl (omega arith) copy-IsCopy net-IsSound supported valid refl refl documents
      (omega arith) (inl refl) two-IsSorted refl (omega arith) (omega arith)

doc_update_packed_remote_example :
    doc_update_packed copy db
      (some (97 ∷ []))
      net
      arrival
      0
      2
      (some ones)
      (some (30 ∷ 31 ∷ 32 ∷ []))
      (some (1 ∷ 2 ∷ []))
      store
    ≡ (do
      (status, st') ← doc_update db (some (97 ∷ [])) 0 ones (30 ∷ 31 ∷ 32 ∷ []) (1 ∷ 2 ∷ []) store
      done (cast status, st'))
doc_update_packed_remote_example =
    doc_update_packed_remote copy db (some (97 ∷ [])) net arrival 0 2 (30 ∷ 31 ∷ 32 ∷ [])
      (1 ∷ 2 ∷ []) ones store copy-IsCopy net-IsSound supported documents recycled refl
      (omega arith) (omega arith) valid

-- A database without the collection "b".
abbrev empty_store : Store World
empty_store = record { db = two; metadata = [] }

no_collection : is_collection laws (98 ∷ []) empty_store ≡ false
unfolding map_database_laws find cmp memcmp
no_collection = refl

-- NEW_ONLY and EXIST_ONLY exclude each other.
both_refused : (is_mode_valid 48 && db.supports_mode 48) ≡ false
unfolding is_mode_valid has
both_refused = refl

collections_lifecycle_example :
    (let name : Option Bytes = some (98 ∷ []) in
      (st₁ : Store World) × (st₂ : Store World) × (collection_create db net arrival 0 name
          empty_store
        ≡ done (success, st₁))
      × (collection_exists db net arrival 0 name (some false) st₁
          ≡ done (success, (some true, st₁)))
      × (collection_size db net arrival 0 name (some 7) st₁ ≡ done (success, (some 0, st₁)))
      × (collection_last_id db net arrival 0 name (some 8) st₁ ≡ done (success, (some 0, st₁)))
      × (collection_drop db net arrival 0 name st₁ ≡ done (success, st₂))
      × (collection_exists db net arrival 0 name (some false) st₂
          ≡ done (success, (some false, st₂)))
      × (collection_create db net arrival 48 name st₁ ≡ done (err_mode, st₁))
      × (collection_drop db net arrival 48 name st₁ ≡ done (err_mode, st₁))
      × (collection_exists db net arrival 48 name (some false) st₁
          ≡ done (err_mode, (some false, st₁)))
      × (collection_last_id db net arrival 48 name (some 8) st₁ ≡ done (err_mode, (some 8, st₁)))
      × (collection_size db net arrival 48 name (some 7) st₁ ≡ done (err_mode, (some 7, st₁))))
unfolding map_database_laws
collections_lifecycle_example =
    collections_lifecycle laws (98 ∷ []) refl (omega arith) net arrival 0 48 empty_store false 7 8
      net-IsSound valid supported no_wait both_refused no_collection two-IsSorted
