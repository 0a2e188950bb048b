-- ===== src/Docs/Documents/Storing.antt =====
-- `docStore`: the identifiers that it gives, and what the database holds after it.
use mochi_yokan.Database.Spec.{updated, pairs, put_status, refusal, is_written}
use mochi_yokan.Prelude.{
  ℕ, zero, suc, ◌+◌, ◌<◌, ◌≡◌, refl, sym, ap, ◌∙◌, false, Option, none, some, List, [], ◌∷◌, map,
  length, replicate, word, wrap, if◌then◌else◌, done, ◌⊎◌, inl, inr, length-replicate,
}
use mochi_yokan.Common.{Bytes, ok, mode_new_only, mode_exist_only, has}
use mochi_yokan.Memory.{cut, Fits}
use mochi_yokan.Database.{Database}
use mochi_yokan.Database.Laws.{Laws}
use mochi_yokan.Docs.Keys.{key_from_id, keys_from_ids, Metadata, no_metadata, encode}
use mochi_yokan.Docs.Keys.Layout.{cut_keys, keys_from_ids-Fits}
use mochi_yokan.Docs.Store.{Store, is_nil, cached, cache, coll_get_metadata, coll_put_metadata}
use mochi_yokan.Docs.Store.Durable.{
  IsWords, cached-cache, get_metadata_stored, put_metadata_contract,
}
use mochi_yokan.Docs.Documents.Numbers.{numbered, ids_from-eq-numbered}
use mochi_yokan.Docs.Documents.{ids_from, doc_reserve, doc_put, doc_count, doc_store}

pub length-ids_from : (id n : ℕ) → length (ids_from id n) ≡ n
unfolding ids_from
length-ids_from id zero = refl
length-ids_from id (suc n) = ap suc (length-ids_from (suc id) n)

-- Modes that store every pair report OK.
pub put_status_ok :
    (mode : ℕ) (ks : List ℕ) (keys : Bytes) (view : Bytes → Option Bytes)
    → has mode mode_new_only ≡ false
    → has mode mode_exist_only ≡ false
    → put_status mode ks keys view ≡ ok
unfolding put_status refusal is_written
put_status_ok mode [] keys view n e = refl
put_status_ok mode (k ∷ []) keys view n e = rw (n, e)
put_status_ok mode (k ∷ l ∷ ks) keys view n e = refl

module _ {S : Type 0} {d : Database S} (L : Laws d) where
  -- The metadata of a collection: those in the cache, else those in the database.
  abbrev pub Known : Bytes → Metadata → Store S → Type 0
  Known name m st =
      (cached name st.metadata ≡ some m)
      ⊎ ((cached name st.metadata ≡ none) × IsWords m × (L.view st.db name ≡ some (encode m)))

  module _ (name : Bytes) (named : is_nil name ≡ false) (short : length name < word) where
    pub get-Known :
        (m m₀ : Metadata) (st : Store S)
        → Known name m st
        → (st' : Store S) × (coll_get_metadata d name m₀ st ≡ done (ok, m, st'))
          × (st'.db ≡ st.db)
          × (cached name st'.metadata ≡ some m)
    unfolding coll_get_metadata
    get-Known m m₀ st (inl c) = (st, rw (named, c), refl, c)
    get-Known m m₀ st (inr k) = (
      record { db = st.db; metadata = cache name m st.metadata },
      get_metadata_stored L name named short m m₀ st k.1 k.0 k.2,
      refl,
      cached-cache name m st.metadata,
    )

    -- A reservation in a collection whose metadata are known gives, for each place in `ids`, an
    -- identifier: those from the last one on, in order. It moves the last identifier behind them in
    -- the cache, and does not touch the database.
    pub doc_reserve_contract :
        (m : Metadata) (ids : List ℕ) (st : Store S)
        → Known name m st
        → (st' : Store S) × (doc_reserve d name ids st
            ≡ done (
              ok,
              ids_from m.last_id (length ids),
              record m { last_id = wrap (m.last_id + length ids) },
              st',
            ))
          × (st'.db ≡ st.db)
          × (cached name st'.metadata ≡ some (record m { last_id = wrap (m.last_id + length ids) }))
    unfolding doc_reserve coll_put_metadata
    doc_reserve_contract m ids st k =
        let (st₁, returned, same_db, known) = get-Known m no_metadata st k in
        (
          record st₁ {
            metadata =
                cache name (record m { last_id = wrap (m.last_id + length ids) }) st₁.metadata;
          },
          rw (returned, named),
          same_db,
          cached-cache name _ st₁.metadata,
        )

    -- The documents of one call, under the keys of the identifiers given.
    abbrev pub documents_of : ℕ → Bytes → List ℕ → List (Bytes × Bytes)
    documents_of last_id documents sizes =
        pairs (map (key_from_id name) (ids_from last_id (length sizes))) (cut sizes documents)

    -- The put of documents, as the laws of the database tell.
    put_documents :
        (mode : ℕ) (first : ℕ) (documents : Bytes) (sizes : List ℕ) (st : Store S)
        → has mode mode_new_only ≡ false
        → has mode mode_exist_only ≡ false
        → Fits sizes documents
        → length (keys_from_ids name (ids_from first (length sizes))) < word
        → L.IsValid st.db
        → (st' : Store S) × (doc_put d name mode (ids_from first (length sizes)) documents sizes st
            ≡ done (ok, st'))
          × ((j : Bytes)
              → L.view st'.db j
                ≡ updated L.same_key mode (documents_of first documents sizes) j (L.view st.db j))
          × L.IsValid st'.db
          × (st'.metadata ≡ st.metadata)
    unfolding doc_put
    put_documents mode first documents sizes st n e fits b v =
        let ids = ids_from first (length sizes) in
        let keys = keys_from_ids name ids in
        let (db', returned, reads, valid) =
          L.put_law mode keys (replicate (length ids) (length name + 9)) documents sizes st.db
            (length-replicate (length ids) (length name + 9) ∙ length-ids_from first (length sizes))
            (keys_from_ids-Fits name ids b) fits v in
        (
          record st { db = db' },
          rw (
            returned,
            put_status_ok mode (replicate (length ids) (length name + 9)) keys (L.view st.db) n e,
          ),
          (λ j. reads j ∙ rw (cut_keys name ids)),
          valid,
          refl,
        )

    -- `docStore`, with the identifiers as its loop makes them.
    pub doc_store_lem :
        (mode : ℕ) (m : Metadata) (documents : Bytes) (sizes ids : List ℕ) (st : Store S)
        → has mode mode_new_only ≡ false
        → has mode mode_exist_only ≡ false
        → length ids ≡ length sizes
        → Fits sizes documents
        → length (keys_from_ids name (ids_from m.last_id (length sizes))) < word
        → Known name m st
        → L.IsValid st.db
        → (let count = length sizes in
            let stored : Metadata = record {
              size = wrap (m.size + count);
              last_id = wrap (m.last_id + count);
            } in
            (st' : Store S) × (doc_store d (some name) mode documents sizes ids st
              ≡ done (ok, ids_from m.last_id count, st'))
            × ((j : Bytes)
                → L.view st'.db j ≡ (
                    if L.same_key name j
                    then some (encode stored)
                    else updated L.same_key mode
                        (documents_of m.last_id documents sizes)
                        j
                        (L.view st.db j)))
            × (cached name st'.metadata ≡ some stored)
            × L.IsValid st'.db)
    unfolding doc_store doc_count
    doc_store_lem mode m documents sizes ids st n e same_length fits b k v =
        let count = length sizes in
        let (st₁, reserved, same_db, known) = doc_reserve_contract m ids st k in
        let (st₂, put, reads₂, valid₂, same_cache) =
          put_documents mode m.last_id documents sizes st₁ n e fits b (rw same_db v) in
        let m₁ : Metadata = record m { last_id = wrap (m.last_id + count) } in
        let known₂ : cached name st₂.metadata ≡ some m₁ = rw (same_cache, sym same_length) known in
        let (st₃, got, same_db₃, known₃) = get-Known m₁ m₁ st₂ (inl known₂) in
        let m₂ : Metadata = record m₁ { size = wrap (m.size + count) } in
        let (st₄, counted, caches, reads₄, valid₄) =
          put_metadata_contract L name named short m₂ st₃ (rw same_db₃ valid₂) in
        (
          st₄,
          rw (reserved, same_length, put, length-ids_from m.last_id count, got) (rw counted),
          (λ j. reads₄ j ∙ rw (same_db₃, reads₂ j, same_db)),
          rw (caches, cached-cache name m₂ st₃.metadata),
          valid₄,
        )

    -- Documents under the keys of their identifiers.
    abbrev pub documents_under : List ℕ → Bytes → List ℕ → List (Bytes × Bytes)
    documents_under ids documents sizes = pairs (map (key_from_id name) ids) (cut sizes documents)

    -- `docStore` into a collection whose metadata are known, in a mode that stores every pair, with
    -- a place in `ids` for each document and with buffers in range: it returns OK and the identifiers
    -- from the last one of the metadata on, in a row, as words. The database then holds the documents under the keys of their
    -- identifiers, and under the name of the collection the metadata with as many more documents and
    -- the last identifier behind those given; every other key reads as before.
    pub doc_store_contract :
        (mode : ℕ) (m : Metadata) (documents : Bytes) (sizes ids : List ℕ) (st : Store S)
        → has mode mode_new_only ≡ false
        → has mode mode_exist_only ≡ false
        → length ids ≡ length sizes
        → Fits sizes documents
        → length (keys_from_ids name (numbered m.last_id (length sizes))) < word
        → Known name m st
        → L.IsValid st.db
        → (let count = length sizes in
            let stored : Metadata = record {
              size = wrap (m.size + count);
              last_id = wrap (m.last_id + count);
            } in
            (st' : Store S) × (doc_store d (some name) mode documents sizes ids st
              ≡ done (ok, numbered m.last_id count, st'))
            × ((j : Bytes)
                → L.view st'.db j ≡ (
                    if L.same_key name j
                    then some (encode stored)
                    else updated L.same_key mode
                        (documents_under (numbered m.last_id count) documents sizes)
                        j
                        (L.view st.db j)))
            × (cached name st'.metadata ≡ some stored)
            × L.IsValid st'.db)
    doc_store_contract mode m documents sizes ids st n e same_length fits b k v =
        let e' = ids_from-eq-numbered m.last_id (length sizes) in
        rw (sym e') (doc_store_lem mode m documents sizes ids st n e same_length fits (rw e' b) k v)
