-- ===== src/Docs/Store/Durable.antt =====
-- `_collPutMetadata` and `_collGetMetadata`, over the cache and over the database.
use mochi_yokan.Memory.{le_bytes}
use mochi_yokan.Database.Spec.{
  updated, is_written, new_value, put_status, refusal, packed_reply, packed_sizes, packed_bytes,
}
use mochi_yokan.Prelude.{
  take_all, ℕ, ◌<◌, ◌≡◌, refl, ◌∙◌, Bool, true, false, Option, none, some, [], ◌∷◌, arith, length,
  take, word, if◌then◌else◌, done, Bool-cases, inl, inr,
}
use mochi_yokan.Common.{Bytes, ok, mode_wait, mode_consume, has}
use mochi_yokan.Memory.{Fits}
use mochi_yokan.Database.{Database, Reply}
use mochi_yokan.Database.Laws.{Laws}
use mochi_yokan.Docs.Keys.{Metadata, encode, decode-encode}
use mochi_yokan.Docs.Store.{
  same_bytes, Cache, cached, uncache, cache, Store, is_nil, coll_get_metadata, coll_put_metadata,
}

pub same_bytes_refl : (a : Bytes) → same_bytes a a ≡ true
unfolding same_bytes
same_bytes_refl [] = refl
same_bytes_refl (x ∷ a) = ground (arith, same_bytes_refl a)

pub same_bytes-eq : (a b : Bytes) → same_bytes a b ≡ true → a ≡ b
unfolding same_bytes
same_bytes-eq [] [] h = refl
same_bytes-eq [] (y ∷ b) h = cc
same_bytes-eq (x ∷ a) [] h = cc
same_bytes-eq (x ∷ a) (y ∷ b) h = ground (arith, same_bytes-eq a b)

pub cached-cache : (name : Bytes) (m : Metadata) (c : Cache) → cached name (cache name m c) ≡ some m
unfolding cached cache
cached-cache name m c = rw (same_bytes_refl name)

pub cached-uncache : (name : Bytes) (c : Cache) → cached name (uncache name c) ≡ none
unfolding cached uncache
cached-uncache name [] = refl
cached-uncache name ((n, m) ∷ c) = elim (Bool-cases (same_bytes n name)) [
  | inl e ↦ rw e (cached-uncache name c)
  | inr e ↦ rw (e, cached, e) (cached-uncache name c)
]

pub plain_wait : has 0 mode_wait ≡ false
unfolding has
plain_wait = refl

pub plain_consume : has 0 mode_consume ≡ false
unfolding has
plain_consume = refl

pub length-encode : (m : Metadata) → length (encode m) ≡ 16
unfolding encode le_bytes
length-encode m = refl

-- A plain `put` writes the value given, whatever there was.
updated_plain :
    (same : Bytes → Bytes → Bool) (k v j : Bytes) (old : Option Bytes)
    → updated same 0 ((k, v) ∷ []) j old ≡ (if same k j then some v else old)
unfolding updated is_written new_value has
updated_plain same k v j old = ground arith

put_status_plain :
    (k : ℕ) (keys : Bytes) (view : Bytes → Option Bytes) → put_status 0 (k ∷ []) keys view ≡ ok
unfolding put_status refusal is_written has
put_status_plain k keys view = refl

take_sixteen : (m : Metadata) → take 16 (encode m) ≡ encode m
unfolding encode le_bytes
take_sixteen m = refl

-- Metadata in the range of their type.
abbrev pub IsWords : Metadata → Type 0
IsWords m = (m.size < word) × (m.last_id < word)

module _ {S : Type 0} {d : Database S} (L : Laws d) where
  module _ (name : Bytes) (named : is_nil name ≡ false) (short : length name < word) where
    pub name-Fits : Fits (length name ∷ []) name
    name-Fits = record { within = omega arith; below_word = short }

    encode-Fits : (m : Metadata) → Fits (16 ∷ []) (encode m)
    encode-Fits m = record {
      within = omega (arith, length-encode m);
      below_word = omega (arith, length-encode m);
    }

    -- Metadata that are put with a flush are in the cache then, and in the database under the name of
    -- the collection; every other key of the database reads as before.
    pub put_metadata_contract :
        (m : Metadata) (st : Store S)
        → L.IsValid st.db
        → (st' : Store S) × (coll_put_metadata d name m true st ≡ done (ok, st'))
          × (st'.metadata ≡ cache name m st.metadata)
          × ((j : Bytes)
              → L.view st'.db j ≡ (if L.same_key name j then some (encode m) else L.view st.db j))
          × L.IsValid st'.db
    unfolding coll_put_metadata
    put_metadata_contract m st v =
        let (db', returned, reads, valid) =
          L.put_law 0 name (length name ∷ []) (encode m) (16 ∷ []) st.db refl name-Fits
            (encode-Fits m) v in
        (
          record { db = db'; metadata = cache name m st.metadata },
          rw (named, returned, put_status_plain (length name) name (L.view st.db)),
          refl,
          (λ j.
              reads j
              ∙ rw (take_all name, take_sixteen m)
                  (updated_plain L.same_key name (encode m) j (L.view st.db j))),
          valid,
        )

    -- The reply of the database for the metadata of a collection.
    abbrev stored_reply : Metadata → Reply
    stored_reply m = record { vals = encode m; vals_size = 16; vsizes = 16 ∷ [] }

    packed_metadata :
        (m m₀ : Metadata) → packed_reply (encode m₀) 0 16 (some (encode m) ∷ []) ≡ stored_reply m
    unfolding packed_bytes packed_sizes encode le_bytes
    packed_metadata m m₀ = refl

    -- Metadata that are not in the cache are read from the database, where they are whole, and go
    -- into the cache.
    pub get_metadata_stored :
        (m m₀ : Metadata) (st : Store S)
        → IsWords m
        → cached name st.metadata ≡ none
        → L.view st.db name ≡ some (encode m)
        → coll_get_metadata d name m₀ st
          ≡ done (ok, m, record { db = st.db; metadata = cache name m st.metadata })
    unfolding coll_get_metadata
    get_metadata_stored m m₀ st w c h =
        let law =
          L.get_law 0 name (length name ∷ []) (encode m₀) (16 ∷ []) st.db plain_wait plain_consume
            refl name-Fits (omega (arith, length-encode m₀)) in
        let reply : d.get 0 true name (length name ∷ []) (encode m₀) (16 ∷ []) st.db
            ≡ done (ok, stored_reply m, st.db) =
          law ∙ rw (take_all name, h, length-encode m₀, packed_metadata m m₀) in
        rw (named, c, reply, decode-encode m w.0 w.1)

    -- Metadata that are 64-bit words and were put with a flush, under a name that is not empty, are
    -- got back when the cache has been lost, as by a new process on the same database.
    pub metadata_durable :
        (m m₀ : Metadata) (st : Store S)
        → IsWords m
        → L.IsValid st.db
        → (st' : Store S) × (coll_put_metadata d name m true st ≡ done (ok, st'))
          × (let restarted = record st' { metadata = [] } in
              coll_get_metadata d name m₀ restarted
              ≡ done (ok, m, record { db = st'.db; metadata = (name, m) ∷ [] }))
    unfolding cached cache uncache
    metadata_durable m m₀ st w v =
        let (st', returned, caches, reads, valid) = put_metadata_contract m st v in
        let here : L.same_key name name ≡ true = (L.same_key_iff name name).1 refl in
        (
          st',
          returned,
          get_metadata_stored m m₀ (record st' { metadata = [] }) w refl (reads name ∙ rw here),
        )
