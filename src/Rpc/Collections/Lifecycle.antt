-- ===== src/Rpc/Collections/Lifecycle.antt =====
-- The life of a collection, as a client sees it through its calls.
use mochi_yokan.Prelude.{
  ℕ, ◌<◌, ◌≡◌, refl, ◌∙◌, Bool, true, false, ◌&&◌, none, some, length, word, done, inl,
}
use mochi_yokan.Common.{Bytes, ok, mode_wait, has}
use mochi_yokan.Database.{Database}
use mochi_yokan.Database.Laws.{Laws}
use mochi_yokan.Docs.Keys.{keys_from_ids, no_metadata, encode}
use mochi_yokan.Docs.Store.{
  Store, is_nil, cached, coll_get_metadata, coll_create, coll_drop, coll_exists, coll_last_id,
  coll_size,
}
use mochi_yokan.Docs.Store.Durable.{put_metadata_contract, cached-cache, length-encode}
use mochi_yokan.Docs.Store.Create.{is_collection, exists_flag_lem}
use mochi_yokan.Docs.Store.Drop.{coll_drop_contract}
use mochi_yokan.Docs.Documents.Numbers.{upto}
use mochi_yokan.Rpc.Codes.{success, err_mode}
use mochi_yokan.Rpc.Call.{Arrival, Network, is_mode_valid}
use mochi_yokan.Rpc.Sound.{IsSound}
use mochi_yokan.Rpc.Collections.{
  collection_create, collection_drop, collection_exists, collection_last_id, collection_size,
}
use mochi_yokan.Rpc.Collections.Remote.{collections_remote}

module _ {S : Type 0} {d : Database S} (L : Laws d) (name : Bytes) (named : is_nil name ≡ false)
    (short : length name < word) where
  here : L.same_key name name ≡ true
  here = (L.same_key_iff name name).1 refl

  -- The store behind the creation of a collection.
  created :
      (st : Store S)
      → is_collection L name st ≡ false
      → L.IsValid st.db
      → (st' : Store S) × (coll_create d (some name) st ≡ done (ok, st'))
        × (cached name st'.metadata ≡ some no_metadata)
        × (is_collection L name st' ≡ true)
        × L.IsValid st'.db
  unfolding coll_create
  created st fresh v =
      let (st', returned, caches, reads, valid) =
        put_metadata_contract L name named short no_metadata st v in
      let stored : L.view st'.db name ≡ some (encode no_metadata) = reads name ∙ rw here in
      (
        st',
        rw (exists_flag_lem L name named short false st, fresh) returned,
        rw caches (cached-cache name no_metadata st.metadata),
        rw (stored, length-encode no_metadata),
        valid,
      )

  known_metadata :
      (st : Store S)
      → cached name st.metadata ≡ some no_metadata
      → coll_get_metadata d name no_metadata st ≡ done (ok, no_metadata, st)
  unfolding coll_get_metadata
  known_metadata st c = rw (coll_get_metadata, named, c) refl

  found :
      (st : Store S) (there : Bool)
      → is_collection L name st ≡ there
      → coll_exists d (some name) false st ≡ done (ok, there, st)
  unfolding coll_exists
  found st there e = exists_flag_lem L name named short false st ∙ rw e refl

  -- The store behind the drop of one that has had no documents.
  dropped :
      (mode : ℕ) (st : Store S)
      → has mode mode_wait ≡ false
      → cached name st.metadata ≡ some no_metadata
      → L.IsValid st.db
      → (st' : Store S) × (coll_drop d mode (some name) st ≡ done (ok, st'))
        × (is_collection L name st' ≡ false)
  unfolding upto keys_from_ids
  dropped mode st nowait c v =
      let (st', returned, reads, _, _) =
        coll_drop_contract L name named short mode no_metadata st nowait short (inl c) v in
      let gone : L.view st'.db name ≡ none = reads name ∙ rw here refl in
      (st', returned, rw gone refl)

  -- Over a sound network, in a mode that client and database accept, without WAIT, and for a name that is
  -- not empty and not one of a collection: `yk_collection_create` succeeds. Then `yk_collection_exists`
  -- answers true, and the size and the last identifier are 0. A `yk_collection_drop` succeeds, and behind
  -- it `yk_collection_exists` answers false. In another mode, which client or database do not accept, each of
  -- the calls on the new collection returns ERR_MODE, and changes neither it nor the memory of the caller.
  pub collections_lifecycle :
      (net : Network) (a : Arrival) (mode other : ℕ) (st : Store S) (b : Bool) (i j : ℕ)
      → IsSound net a
      → is_mode_valid mode ≡ true
      → d.supports_mode mode ≡ true
      → has mode mode_wait ≡ false
      → (is_mode_valid other && d.supports_mode other) ≡ false
      → is_collection L name st ≡ false
      → L.IsValid st.db
      → (st₁ : Store S) × (st₂ : Store S) × (collection_create d net a mode (some name) st
          ≡ done (success, st₁))
        × (collection_exists d net a mode (some name) (some b) st₁
            ≡ done (success, (some true, st₁)))
        × (collection_size d net a mode (some name) (some i) st₁ ≡ done (success, (some 0, st₁)))
        × (collection_last_id d net a mode (some name) (some j) st₁ ≡ done (success, (some 0, st₁)))
        × (collection_drop d net a mode (some name) st₁ ≡ done (success, st₂))
        × (collection_exists d net a mode (some name) (some b) st₂
            ≡ done (success, (some false, st₂)))
        × (collection_create d net a other (some name) st₁ ≡ done (err_mode, st₁))
        × (collection_drop d net a other (some name) st₁ ≡ done (err_mode, st₁))
        × (collection_exists d net a other (some name) (some b) st₁
            ≡ done (err_mode, (some b, st₁)))
        × (collection_last_id d net a other (some name) (some j) st₁
            ≡ done (err_mode, (some j, st₁)))
        × (collection_size d net a other (some name) (some i) st₁ ≡ done (err_mode, (some i, st₁)))
  unfolding coll_size coll_last_id
  collections_lifecycle net a mode other st b i j sound accepted supported nowait e fresh v =
      let (st₁, creates, c, is_there, v₁) = created st fresh v in
      let (st₂, drops, is_gone) = dropped mode st₁ nowait c v₁ in
      let (create, _, _, _, _) = collections_remote d net a mode (some name) st sound in
      let (_, drop, exists, last_id, size) =
        collections_remote d net a mode (some name) st₁ sound in
      let (_, _, exists₂, _, _) = collections_remote d net a mode (some name) st₂ sound in
      let (create', drop', exists', last_id', size') =
        collections_remote d net a other (some name) st₁ sound in
      let got = known_metadata st₁ c in
      (
        st₁,
        st₂,
        create ∙ rw (accepted, supported, creates) refl,
        exists b ∙ rw (accepted, supported, found st₁ true is_there) refl,
        size i ∙ rw (accepted, supported, got) refl,
        last_id j ∙ rw (accepted, supported, got) refl,
        drop ∙ rw (accepted, supported, drops) refl,
        exists₂ b ∙ rw (accepted, supported, found st₂ false is_gone) refl,
        create' ∙ rw e refl,
        drop' ∙ rw e refl,
        exists' b ∙ rw e refl,
        last_id' j ∙ rw e refl,
        size' i ∙ rw e refl,
      )
