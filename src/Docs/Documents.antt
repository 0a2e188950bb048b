-- ===== src/Docs/Documents.antt =====
-- The operations of `DocumentStoreMixin` on documents. Each part of an operation under the lock of
-- the mixin is one definition; `doc_store` takes the lock twice, and is made of three parts.
pub mod Numbers
pub mod Storing
pub mod Access
pub mod Roundtrip
use Prim.Native.Nat.{bit_and, bit_or}
use mochi_yokan.Memory.{bytes_of, words_of, le_bytes, le_value}
use mochi_yokan.Prelude.{
  ℕ, zero, suc, ◌+◌, ◌-◌, ◌/◌, Bool, true, false, not, ◌&&◌, ◌||◌, Option, none, some, List, [],
  ◌∷◌, ◌++◌, map, ltb, ◌==◌, length, take, drop, replicate, word, wrap, if◌then◌else◌, Outcome,
  done, ◌>>=◌,
}
use mochi_yokan.Common.{
  Bytes, Status, ok, invalid_arg, invalid_id, not_found, not_supported, no_more_keys,
  mode_inclusive, mode_no_prefix, has,
}
use mochi_yokan.BitField.{BitField}
use mochi_yokan.MapDb.State.{is_ok}
use mochi_yokan.Filter.{Filter, prefix_filter}
use mochi_yokan.Database.{Database, Reply, Sized}
use mochi_yokan.Database.Spec.{flags_from}
use mochi_yokan.Docs.Ids.{ensure_big_endian}
use mochi_yokan.Docs.Keys.{key_from_id, keys_from_ids, Metadata, no_metadata, id_from_key}
use mochi_yokan.Docs.Store.{
  Store, is_unnamed, name_of, c_string, doc_ksizes, coll_exists_flag, coll_get_metadata,
  coll_put_metadata,
}

-- `ids[i] = metadata.last_id + i`
unfoldable pub ids_from : ℕ → ℕ → List ℕ
ids_from id zero = []
ids_from id (suc count) = wrap id ∷ ids_from (suc id) count

-- "Has any identifier not been given to a document yet?"
unfoldable pub any_unused : ℕ → List ℕ → Bool
any_unused last_id [] = false
any_unused last_id (id ∷ ids) = not (ltb id last_id) || any_unused last_id ids

-- `num_keys_to_erase`
unfoldable pub count_set : List Bool → ℕ
count_set [] = 0
count_set (b ∷ bs) = if b then suc (count_set bs) else count_set bs

-- The last loop of `docList`; YOKAN_NO_MORE_DOCS is YOKAN_NO_MORE_KEYS.
unfoldable pub listed_ids : List ℕ → List ℕ → List ℕ
listed_ids [] ids = ids
listed_ids (k ∷ ks) [] = []
listed_ids (k ∷ ks) (id ∷ ids) =
    (if k == no_more_keys then no_more_keys else ensure_big_endian id) ∷ listed_ids ks ids

-- `CollectionFilterWrapper` of src/server/util/filters.cpp; none is a null `DocFilter`.
unfoldable pub collection_filter : Bytes → Option (ℕ → Bytes → Bool) → Filter
collection_filter name doc_filter =
    let prefix = name ++ 0 ∷ [] in
    let f = prefix_filter mode_no_prefix prefix in
    record f {
      check = λ key val.
          if not (f.check key val)
          then false
          else if not (length key == length prefix + 8)
          then false
          else elim doc_filter [
            | none ↦ true
            | some check ↦ check (id_from_key (length name) key) val
          ];
    }

module _ {S : Type 0} (d : Database S) where
  unfoldable pub doc_size :
      Option Bytes → ℕ → List ℕ → List ℕ → Store S → Outcome (Status × List ℕ × Store S)
  doc_size collection mode ids sizes st =
      if is_unnamed collection then done (invalid_arg, sizes, st) else do
        let name = name_of collection
        (status, sizes', db) ←
            d.value_lengths mode (keys_from_ids name ids) (doc_ksizes (length ids) name) sizes st.db
        done (status, sizes', record st { db = db })

  -- The first part of `docStore`, under the lock: it takes an identifier for each place in `ids`, and
  -- the metadata that it leaves are in the variable for them.
  unfoldable pub doc_reserve :
      Bytes → List ℕ → Store S → Outcome (Status × List ℕ × Metadata × Store S)
  doc_reserve name ids st = do
    (status, m, st₁) ← coll_get_metadata d name no_metadata st
    if not (is_ok status) then done (status, ids, m, st₁) else do
      let count = length ids
      let m' = record m { last_id = wrap (m.last_id + count) }
      (status, st₂) ← coll_put_metadata d name m' false st₁
      done (status, ids_from m.last_id count, m', st₂)

  -- The part without the lock.
  unfoldable pub doc_put :
      Bytes → ℕ → List ℕ → Bytes → List ℕ → Store S → Outcome (Status × Store S)
  doc_put name mode ids documents sizes st = do
    (status, db) ←
        d.put mode (keys_from_ids name ids) (doc_ksizes (length ids) name) documents sizes st.db
    done (status, record st { db = db })

  -- The last part, under the lock again. The status of the first call is not looked at; the variable
  -- for the metadata holds what the first part left there.
  unfoldable pub doc_count : Bytes → Metadata → ℕ → Store S → Outcome (Status × Store S)
  doc_count name m count st = do
    (status, m', st₁) ← coll_get_metadata d name m st
    coll_put_metadata d name (record m' { size = wrap (m'.size + count) }) true st₁

  -- The parts in a row, as without another thread in between.
  unfoldable pub doc_store :
      Option Bytes → ℕ → Bytes → List ℕ → List ℕ → Store S → Outcome (Status × List ℕ × Store S)
  unfolding doc_reserve doc_put doc_count
  doc_store collection mode documents sizes ids st = do
    name ← c_string collection
    (status, ids', m, st₁) ← doc_reserve name ids st
    if not (is_ok status) then done (status, ids', st₁) else do
      (status, st₂) ← doc_put name mode ids' documents sizes st₁
      if not (is_ok status)
          then done (status, ids', st₂)
          else do (status, st₃) ← doc_count name m (length ids') st₂; done (status, ids', st₃)

  unfoldable pub doc_update :
      Option Bytes → ℕ → List ℕ → Bytes → List ℕ → Store S → Outcome (Status × Store S)
  unfolding doc_put
  doc_update collection mode ids documents sizes st =
      if is_unnamed collection then done (invalid_arg, st) else do
        let name = name_of collection
        (status, m, st₁) ← coll_get_metadata d name no_metadata st
        let updated =
            if any_unused m.last_id ids
            then done (invalid_id, st₁)
            else doc_put name mode ids documents sizes st₁
        if is_ok status then updated else done (status, st₁)

  unfoldable pub doc_load :
      Option Bytes
      → ℕ
      → Bool
      → List ℕ
      → Bytes
      → List ℕ
      → Store S
      → Outcome (Status × Reply × Store S)
  doc_load collection mode packed ids documents sizes st =
      let untouched : Reply = record {
        vals = documents;
        vals_size = length documents;
        vsizes = sizes;
      } in
      if is_unnamed collection then done (invalid_arg, untouched, st) else do
        let name = name_of collection
        (status, e, st₁) ← coll_exists_flag d name false st
        if not (is_ok status) then done (status, untouched, st₁) else do
          let ksizes = doc_ksizes (length ids) name
          let loaded : Outcome (Status × Reply × Store S) = (do
            (status, r, db) ←
                d.get mode packed (keys_from_ids name ids) ksizes documents sizes st₁.db
            done (status, r, record st₁ { db = db }))
          if e then loaded else done (not_found, untouched, st₁)

  unfoldable pub doc_erase : Option Bytes → ℕ → List ℕ → Store S → Outcome (Status × Store S)
  unfolding count_set
  doc_erase collection mode ids st = if is_unnamed collection then done (invalid_arg, st) else do
    let name = name_of collection
    let keys = keys_from_ids name ids
    let ksizes = doc_ksizes (length ids) name
    let flags : BitField = record { bytes = replicate (1 + length ids / 8) 0; size = length ids }
    (status, flags', db) ← d.exists mode keys ksizes flags st.db
    let st₁ = record st { db = db }
    if not (is_ok status) then done (status, st₁) else do
      let num_keys_to_erase = count_set (flags_from flags' 0 (length ids))
      (status, m, st₂) ← coll_get_metadata d name no_metadata st₁
      if not (is_ok status) then done (status, st₂) else do
        (status, db') ← d.erase mode keys ksizes st₂.db
        let st₃ = record st₂ { db = db' }
        let m' = record m { size = wrap (m.size + word - num_keys_to_erase) }
        let counted = coll_put_metadata d name m' true st₃
        if is_ok status then counted else done (status, st₃)

  -- The identifiers are listed into their own array, as the bytes of the keys behind the prefix.
  -- The result is the array, the sizes, and the buffer of documents.
  unfoldable pub doc_list :
      Option Bytes
      → ℕ
      → Bool
      → ℕ
      → Option (ℕ → Bytes → Bool)
      → List ℕ
      → Bytes
      → List ℕ
      → Store S
      → Outcome (Status × List ℕ × List ℕ × Sized)
  unfolding collection_filter listed_ids words_of bytes_of
  doc_list collection mode packed from_id doc_filter ids documents sizes st =
      let buffer : Sized = (documents, length documents) in
      if is_unnamed collection
      then done (invalid_arg, ids, sizes, buffer)
      else if not (d.supports_mode mode_no_prefix)
      then done (not_supported, ids, sizes, buffer)
      else do
        let name = name_of collection
        let count = length ids
        let new_mode = bit_or (bit_and mode mode_inclusive) mode_no_prefix
        (status, ksizes, sizes', keys, docs) ←
            d.list_key_values new_mode packed (key_from_id name from_id)
              (collection_filter name doc_filter) (bytes_of ids) (replicate count 8) documents sizes
              st.db
        let ids' = words_of count keys.0
        done (status, (if is_ok status then listed_ids ksizes ids' else ids'), sizes', docs)
