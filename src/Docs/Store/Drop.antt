-- ===== src/Docs/Store/Drop.antt =====
-- `collDrop`.
use mochi_yokan.Database.Spec.{among}
use mochi_yokan.Prelude.{
  take_all, ℕ, zero, suc, ◌+◌, ◌<◌, ◌≡◌, refl, sym, ap, ◌∙◌, false, none, some, List, [], ◌∷◌, ◌++◌,
  map, arith, length, replicate, word, if◌then◌else◌, done, length-append,
}
use mochi_yokan.Common.{Bytes, ok, mode_wait, has}
use mochi_yokan.Memory.{cut, sum, Fits}
use mochi_yokan.Database.{Database}
use mochi_yokan.Database.Laws.{Laws}
use mochi_yokan.Docs.Keys.{key_from_id, keys_from_ids, Metadata, no_metadata}
use mochi_yokan.Docs.Keys.Layout.{cut-keys_from_ids, length-keys_from_ids}
use mochi_yokan.Docs.Store.{Store, is_nil, cached, uncache, first_ids, coll_drop}
use mochi_yokan.Docs.Store.Create.{exists_flag_lem}
use mochi_yokan.Docs.Store.Durable.{cached-uncache}
use mochi_yokan.Docs.Documents.Numbers.{upto, first_ids-eq-upto}
use mochi_yokan.Docs.Documents.Storing.{Known, get-Known}

pub length-first_ids : (n : ℕ) → length (first_ids n) ≡ n
unfolding first_ids
length-first_ids zero = refl
length-first_ids (suc n) = omega (arith, length-append (first_ids n) (n ∷ []), length-first_ids n)

sum-append : (xs ys : List ℕ) → sum (xs ++ ys) ≡ sum xs + sum ys
sum-append [] ys = omega arith
sum-append (x ∷ xs) ys = omega (arith, sum-append xs ys)

module _ {S : Type 0} {d : Database S} (L : Laws d) where
  module _ (name : Bytes) (named : is_nil name ≡ false) (short : length name < word) where
    -- `collDrop`, with the identifiers as its loop makes them.
    coll_drop_lem :
        (mode : ℕ) (m : Metadata) (st : Store S)
        → has mode mode_wait ≡ false
        → length (keys_from_ids name (first_ids m.last_id) ++ name) < word
        → Known L name m st
        → L.IsValid st.db
        → (st' : Store S) × (coll_drop d mode (some name) st ≡ done (ok, st'))
          × ((j : Bytes)
              → L.view st'.db j ≡ (
                  if among L.same_key (map (key_from_id name) (first_ids m.last_id) ++ name ∷ []) j
                  then none
                  else L.view st.db j))
          × (cached name st'.metadata ≡ none)
          × L.IsValid st'.db
    unfolding coll_drop
    coll_drop_lem mode m st nowait b k v =
        let ids = first_ids m.last_id in
        let size = length name + 9 in
        let ksizes = replicate m.last_id size ++ length name ∷ [] in
        let keys = keys_from_ids name ids ++ name in
        let sized : sum (replicate (length ids) size) ≡ sum (replicate m.last_id size) =
          ap (λ n. sum (replicate n size)) (length-first_ids m.last_id) in
        let fits : Fits ksizes keys = record {
          within = omega (
            arith,
            sum-append (replicate m.last_id size) (length name ∷ []),
            length-append (keys_from_ids name ids) name,
            length-keys_from_ids name ids,
            sized,
          );
          below_word = b;
        } in
        let cuts : cut ksizes keys ≡ map (key_from_id name) ids ++ name ∷ [] =
          ap (λ n. cut (replicate n size ++ length name ∷ []) keys)
            (sym (length-first_ids m.last_id))
          ∙ cut-keys_from_ids name ids name (length name ∷ [])
          ∙ rw (take_all name) in
        let (st₂, got, same_db, known) = get-Known L name named short m no_metadata st k in
        let (db₃, gone, reads, valid) =
          L.erase_law mode keys ksizes st₂.db nowait fits (rw same_db v) in
        (
          record { db = db₃; metadata = uncache name st₂.metadata },
          rw (exists_flag_lem L name named short false st, got, gone),
          (λ j. reads j ∙ rw (cuts, same_db)),
          cached-uncache name st₂.metadata,
          valid,
        )

    -- `collDrop` of a collection whose metadata are known, without WAIT and with the keys in range,
    -- returns OK. Gone are its documents, those with an identifier below the last one, and its
    -- metadata, from the database and from the cache; every other key reads as before.
    pub coll_drop_contract :
        (mode : ℕ) (m : Metadata) (st : Store S)
        → has mode mode_wait ≡ false
        → length (keys_from_ids name (upto m.last_id) ++ name) < word
        → Known L name m st
        → L.IsValid st.db
        → (st' : Store S) × (coll_drop d mode (some name) st ≡ done (ok, st'))
          × ((j : Bytes)
              → L.view st'.db j ≡ (
                  if among L.same_key (map (key_from_id name) (upto m.last_id) ++ name ∷ []) j
                  then none
                  else L.view st.db j))
          × (cached name st'.metadata ≡ none)
          × L.IsValid st'.db
    coll_drop_contract mode m st nowait b k v =
        let e = first_ids-eq-upto m.last_id in
        rw (sym e) (coll_drop_lem mode m st nowait (rw e b) k v)
