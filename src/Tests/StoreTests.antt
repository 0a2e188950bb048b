-- ===== src/Tests/StoreTests.antt =====
-- A collection named "a" in a map, with its metadata in the cache.
use mochi_yokan.Memory.{le_bytes}
use mochi_yokan.Database.Spec.{updated, pairs, among}
use mochi_yokan.Prelude.{
  ℕ, ◌+◌, ◌≡◌, ◌<◌, refl, inl, true, false, none, some, List, [], ◌∷◌, ◌++◌, map, arith, length,
  take, word, wrap, done, if◌then◌else◌,
}
use mochi_yokan.Common.{
  Bytes, ok, invalid_id, mode_new_only, mode_exist_only, mode_append, mode_wait, mode_consume, has,
}
use mochi_yokan.Memory.{cut, Fits, written}
use mochi_yokan.Database.{Database}
use mochi_yokan.Database.Laws.{Laws}
use mochi_yokan.MapDb.State.{World}
use mochi_yokan.MapDb.AsDatabase.{map_database, map_database_laws}
use mochi_yokan.Docs.Keys.{keys_from_ids, Metadata, no_metadata, encode, key_from_id}
use mochi_yokan.Docs.Store.{
  Store, cached, same_bytes, coll_get_metadata, coll_put_metadata, coll_drop,
}
use mochi_yokan.Docs.Store.Durable.{metadata_durable}
use mochi_yokan.Docs.Store.Drop.{coll_drop_contract}
use mochi_yokan.Docs.Documents.{ids_from, any_unused, doc_store, doc_update, doc_load}
use mochi_yokan.Docs.Documents.Numbers.{upto, numbered}
use mochi_yokan.Docs.Documents.Storing.{Known, doc_store_contract}
use mochi_yokan.Docs.Documents.Access.{doc_update_refuses, doc_update_contract}
use mochi_yokan.Docs.Documents.Roundtrip.{store_load}

abbrev db : Database World
db = map_database false

abbrev laws : Laws db
laws = map_database_laws false

abbrev name : Bytes
name = 97 ∷ []

abbrev three_given : Metadata
three_given = record { size = 2; last_id = 3 }

abbrev st : Store World
st = record {
  db = record { entries = (name, encode three_given) ∷ []; notified = []; wakes = []; gaps = [] };
  metadata = (name, three_given) ∷ [];
}

abbrev docs : Bytes
docs = 10 ∷ 20 ∷ 21 ∷ []

abbrev sizes : List ℕ
sizes = 1 ∷ 2 ∷ []

docs-Fits : Fits sizes docs
docs-Fits = record { within = omega arith; below_word = omega arith }

st-IsValid : laws.IsValid st.db
unfolding map_database_laws
st-IsValid = (tt, tt)

st-Known : Known laws name three_given st
unfolding cached same_bytes
st-Known = inl refl

plain :
    (has 0 mode_new_only ≡ false)
    × (has 0 mode_exist_only ≡ false)
    × (has 0 mode_append ≡ false)
    × (has 0 mode_wait ≡ false)
    × (has 0 mode_consume ≡ false)
unfolding has
plain = (refl, refl, refl, refl, refl)

given-short : length (keys_from_ids name (ids_from 3 2)) < word
unfolding keys_from_ids ids_from le_bytes key_from_id
given-short = omega arith

used-short : length (keys_from_ids name (1 ∷ 1 ∷ [])) < word
unfolding keys_from_ids le_bytes key_from_id
used-short = omega arith

dropped-short : length (keys_from_ids name (upto 3) ++ name) < word
unfolding keys_from_ids upto le_bytes key_from_id
dropped-short = omega arith

ones_are_used : any_unused 3 (1 ∷ 1 ∷ []) ≡ false
unfolding any_unused
ones_are_used = refl

store_load_example :
    (st' : Store World) × (doc_store db (some name) 0 docs sizes (0 ∷ 0 ∷ []) st
      ≡ done (ok, ids_from 3 2, st'))
    × (doc_load db (some name) 0 true (ids_from 3 2) (0 ∷ 0 ∷ 0 ∷ 9 ∷ []) (7 ∷ 7 ∷ []) st'
        ≡ done (
          ok,
          record {
            vals = written 0 (take 3 docs) (0 ∷ 0 ∷ 0 ∷ 9 ∷ []);
            vals_size = 3;
            vsizes = sizes;
          },
          st',
        ))
store_load_example =
    store_load laws name refl (omega arith) 0 0 three_given docs sizes (0 ∷ 0 ∷ [])
      (0 ∷ 0 ∷ 0 ∷ 9 ∷ []) (7 ∷ 7 ∷ []) st plain.0 plain.1 plain.2 plain.3 plain.4 refl docs-Fits
      (omega arith) given-short st-Known st-IsValid refl (omega arith) (omega arith)

numbered-short : length (keys_from_ids name (3 ∷ 4 ∷ [])) < word
unfolding keys_from_ids le_bytes key_from_id
numbered-short = omega arith

doc_store_contract_example :
    (let stored : Metadata = record { size = wrap (2 + 2); last_id = wrap (3 + 2) } in
      (st' : Store World) × (doc_store db (some name) 0 docs sizes (0 ∷ 0 ∷ []) st
        ≡ done (ok, 3 ∷ 4 ∷ [], st'))
      × ((j : Bytes)
          → laws.view st'.db j ≡ (
              if laws.same_key name j
              then some (encode stored)
              else updated laws.same_key 0
                  ((key_from_id name 3, 10 ∷ []) ∷ (key_from_id name 4, 20 ∷ 21 ∷ []) ∷ [])
                  j
                  (laws.view st.db j)))
      × (cached name st'.metadata ≡ some stored)
      × laws.IsValid st'.db)
unfolding numbered upto
doc_store_contract_example =
    doc_store_contract laws name refl (omega arith) 0 three_given docs sizes (0 ∷ 0 ∷ []) st plain.0
      plain.1 refl docs-Fits numbered-short st-Known st-IsValid

doc_update_refuses_example :
    (st' : Store World) × (doc_update db (some name) 0 (1 ∷ 3 ∷ []) docs sizes st
      ≡ done (invalid_id, st'))
    × (st'.db ≡ st.db)
doc_update_refuses_example =
    doc_update_refuses laws name refl (omega arith) 0 three_given (1 ∷ []) [] 3 docs sizes st
      st-Known (omega arith)

doc_update_contract_example :
    (st' : Store World) × (doc_update db (some name) 0 (1 ∷ 1 ∷ []) docs sizes st ≡ done (ok, st'))
    × ((j : Bytes)
        → laws.view st'.db j
          ≡ updated laws.same_key 0
              (pairs (map (key_from_id name) (1 ∷ 1 ∷ [])) (cut sizes docs))
              j
              (laws.view st.db j))
    × laws.IsValid st'.db
doc_update_contract_example =
    doc_update_contract laws name refl (omega arith) 0 three_given (1 ∷ 1 ∷ []) docs sizes st
      plain.0 plain.1 refl docs-Fits used-short st-Known ones_are_used st-IsValid

-- The collection with a document of identifier 1.
abbrev held : Store World
held = record {
  db = record st.db { entries = (name, encode three_given) ∷ (key_from_id name 1, 50 ∷ []) ∷ [] };
  metadata = (name, three_given) ∷ [];
}

coll_drop_contract_example :
    (st' : Store World) × (coll_drop db 0 (some name) st ≡ done (ok, st'))
    × ((j : Bytes)
        → laws.view st'.db j ≡ (
            if among laws.same_key
              (key_from_id name 0 ∷ key_from_id name 1 ∷ key_from_id name 2 ∷ name ∷ [])
              j
            then none
            else laws.view st.db j))
    × (cached name st'.metadata ≡ none)
    × laws.IsValid st'.db
unfolding upto
coll_drop_contract_example =
    coll_drop_contract laws name refl (omega arith) 0 three_given st plain.3 dropped-short st-Known
      st-IsValid

metadata_durable_example :
    (st' : Store World) × (coll_put_metadata db name three_given true st ≡ done (ok, st'))
    × (let restarted : Store World = record st' { metadata = [] } in
        coll_get_metadata db name no_metadata restarted
        ≡ done (ok, three_given, record { db = st'.db; metadata = (name, three_given) ∷ [] }))
metadata_durable_example =
    metadata_durable laws name refl (omega arith) three_given no_metadata st
      (omega arith, omega arith) st-IsValid
