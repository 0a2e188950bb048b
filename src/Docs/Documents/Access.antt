-- ===== src/Docs/Documents/Access.antt =====
-- `docUpdate`, `docLoad` and `docErase`.
use mochi_yokan.Database.Spec.{updated, pairs, packed_reply}
use mochi_yokan.Prelude.{
  ℕ, ◌+◌, ◌≤◌, ◌<◌, ◌≡◌, ◌∙◌, true, false, some, List, ◌∷◌, ◌++◌, map, length, replicate, word,
  if◌then◌else◌, done, length-replicate,
}
use mochi_yokan.Common.{
  Bytes, ok, invalid_id, not_found, last_valid_size, mode_new_only, mode_exist_only, mode_wait,
  mode_consume, has,
}
use mochi_yokan.BitField.{BitField}
use mochi_yokan.BitField
use mochi_yokan.Memory.{cut, Fits}
use mochi_yokan.Database.{Database}
use mochi_yokan.Database.Laws.{Laws}
use mochi_yokan.Docs.Keys.{key_from_id, keys_from_ids, Metadata, no_metadata}
use mochi_yokan.Docs.Keys.Layout.{cut_keys, keys_from_ids-Fits}
use mochi_yokan.Docs.Store.{Store, is_nil}
use mochi_yokan.Docs.Store.Create.{is_collection, exists_flag_lem}
use mochi_yokan.Docs.Documents.{any_unused, doc_put, doc_update, doc_load}
use mochi_yokan.Docs.Documents.Numbers.{any_unused-beyond}
use mochi_yokan.Docs.Documents.Storing.{Known, get-Known, put_status_ok}

module _ {S : Type 0} {d : Database S} (L : Laws d) where
  module _ (name : Bytes) (named : is_nil name ≡ false) (short : length name < word) where
    -- `docUpdate` in a collection whose metadata are known refuses the whole call if any identifier in
    -- it, wherever it stands, is not below the last one, and so has not been given to a document yet. It
    -- leaves the database as it was.
    pub doc_update_refuses :
        (mode : ℕ) (m : Metadata) (before after : List ℕ) (id : ℕ) (documents : Bytes)
        (sizes : List ℕ) (st : Store S)
        → Known L name m st
        → m.last_id ≤ id
        → (st' : Store S) × (doc_update d (some name) mode (before ++ id ∷ after) documents sizes st
            ≡ done (invalid_id, st'))
          × (st'.db ≡ st.db)
    unfolding doc_update
    doc_update_refuses mode m before after id documents sizes st k u =
        let (st', returned, same_db, known) = get-Known L name named short m no_metadata st k in
        (st', rw (named, returned, any_unused-beyond m.last_id id before after u), same_db)

    -- `docUpdate` in a collection whose metadata are known, of identifiers all below the last one,
    -- in a mode that stores every pair and with buffers in range, returns OK. The database then
    -- holds the documents under the keys of their identifiers, a later one of the same identifier
    -- over an earlier one; every other key reads as before.
    pub doc_update_contract :
        (mode : ℕ) (m : Metadata) (ids : List ℕ) (documents : Bytes) (sizes : List ℕ) (st : Store S)
        → has mode mode_new_only ≡ false
        → has mode mode_exist_only ≡ false
        → length ids ≡ length sizes
        → Fits sizes documents
        → length (keys_from_ids name ids) < word
        → Known L name m st
        → any_unused m.last_id ids ≡ false
        → L.IsValid st.db
        → (st' : Store S) × (doc_update d (some name) mode ids documents sizes st ≡ done (ok, st'))
          × ((j : Bytes)
              → L.view st'.db j
                ≡ updated L.same_key mode
                    (pairs (map (key_from_id name) ids) (cut sizes documents))
                    j
                    (L.view st.db j))
          × L.IsValid st'.db
    unfolding doc_update doc_put
    doc_update_contract mode m ids documents sizes st n e same_length fits b k u v =
        let (st₁, returned, same_db, known) = get-Known L name named short m no_metadata st k in
        let ksizes = replicate (length ids) (length name + 9) in
        let keys = keys_from_ids name ids in
        let (db', put, reads, valid) =
          L.put_law mode keys ksizes documents sizes st₁.db
            (length-replicate (length ids) (length name + 9) ∙ same_length)
            (keys_from_ids-Fits name ids b) fits (rw same_db v) in
        (
          record st₁ { db = db' },
          rw (named, returned, u, put, put_status_ok mode ksizes keys (L.view st₁.db) n e),
          (λ j. reads j ∙ rw (cut_keys name ids, same_db)),
          valid,
        )

    -- A packed `docLoad`, without WAIT and CONSUME and with buffers in range, answers NotFound for a
    -- name that is not one of a collection, and else returns the documents as a packed `get` of their
    -- keys does; it changes nothing.
    pub doc_load_contract :
        (mode : ℕ) (ids : List ℕ) (documents : Bytes) (sizes : List ℕ) (st : Store S)
        → has mode mode_wait ≡ false
        → has mode mode_consume ≡ false
        → length ids ≡ length sizes
        → length (keys_from_ids name ids) < word
        → length documents ≤ last_valid_size
        → doc_load d (some name) mode true ids documents sizes st ≡ (
            if is_collection L name st
            then done (
              ok,
              packed_reply documents 0
                  (length documents)
                  (map (L.view st.db) (map (key_from_id name) ids)),
              st,
            )
            else done (
              not_found,
              record { vals = documents; vals_size = length documents; vsizes = sizes },
              st,
            ))
    unfolding doc_load
    doc_load_contract mode ids documents sizes st nowait keep same_length b room =
        let ksizes = replicate (length ids) (length name + 9) in
        let law =
          L.get_law mode (keys_from_ids name ids) ksizes documents sizes st.db nowait keep
            (length-replicate (length ids) (length name + 9) ∙ same_length)
            (keys_from_ids-Fits name ids b) room in
        rw (named, exists_flag_lem L name named short false st, law, cut_keys name ids)
