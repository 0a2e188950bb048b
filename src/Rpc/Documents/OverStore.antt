-- ===== src/Rpc/Documents/OverStore.antt =====
-- What a client of `doc_store` observes of a collection.
use mochi_yokan.Database.Spec.{updated}
use mochi_yokan.Prelude.{
  ℕ, ◌+◌, ◌*◌, ◌≤◌, ◌<◌, ◌≡◌, arith, false, true, some, List, length, length-replicate, replicate,
  word, wrap, if◌then◌else◌, done,
}
use mochi_yokan.Common.{Bytes, mode_new_only, mode_exist_only, has}
use mochi_yokan.Memory.{Fits}
use mochi_yokan.Database.{Database}
use mochi_yokan.Database.Laws.{Laws}
use mochi_yokan.Docs.Keys.{keys_from_ids, Metadata, encode}
use mochi_yokan.Docs.Store.{Store, is_nil, cached}
use mochi_yokan.Docs.Documents.Numbers.{numbered, length-numbered}
use mochi_yokan.Docs.Documents.Storing.{Known, documents_under, doc_store_contract}
use mochi_yokan.Rpc.Codes.{success}
use mochi_yokan.Rpc.Call.{Transfer, IsCopy, Arrival, Network, is_mode_valid}
use mochi_yokan.Rpc.Sound.{IsSound}
use mochi_yokan.Rpc.Documents.{doc_store_packed}
use mochi_yokan.Rpc.Documents.Layout.{IsDocuments}
use mochi_yokan.Rpc.Documents.Remote.{doc_store_packed_remote}

module _ {S : Type 0} {d : Database S} (L : Laws d) where
  -- Over a sound network whose transfers copy, with room in the buffer of the handler and a mode that
  -- client and database accept, without NEW_ONLY and EXIST_ONLY, a packed `doc_store` of at least one
  -- document into a collection whose metadata are known, of documents in memory of just their sizes,
  -- succeeds. The client has the identifiers from the last one of the metadata on, in a row, as words; the database holds the
  -- documents under the keys of their identifiers, and under the name of the collection the metadata with
  -- as many more documents and the last identifier behind them; every other key reads as before.
  pub doc_store_remote :
      (transfer : Transfer) (net : Network) (a : Arrival) (name : Bytes) (mode : ℕ) (m : Metadata)
      (docs : Bytes) (sizes ids : List ℕ) (buffer : Bytes) (st : Store S)
      (named : is_nil name ≡ false) (short : length name < word)
      → IsCopy transfer
      → IsSound net a
      → d.supports_mode mode ≡ true
      → is_mode_valid mode ≡ true
      → has mode mode_new_only ≡ false
      → has mode mode_exist_only ≡ false
      → IsDocuments (length sizes) docs sizes ids
      → length (keys_from_ids name (numbered m.last_id (length sizes))) < word
      → Known L name m st
      → L.IsValid st.db
      → a.buffer ≡ some buffer
      → 8 * (length sizes) + length docs ≤ length buffer
      → 0 < (length sizes)
      → (let stored : Metadata = record {
        size = wrap (m.size + (length sizes));
        last_id = wrap (m.last_id + (length sizes));
      } in
          (st' : Store S) × (doc_store_packed transfer d
              (some name)
              net
              a
              mode
              (length sizes)
              (some docs)
              (some sizes)
              ids
              st
            ≡ done (success, (numbered m.last_id (length sizes), st')))
          × ((j : Bytes)
              → L.view st'.db j ≡ (
                  if L.same_key name j
                  then some (encode stored)
                  else updated L.same_key mode
                      (documents_under L name named short
                        (numbered m.last_id (length sizes))
                        docs
                        sizes)
                      j
                      (L.view st.db j)))
          × (cached name st'.metadata ≡ some stored)
          × L.IsValid st'.db)
  doc_store_remote transfer net a name mode m docs sizes ids buffer st named short copies sound
        supported valid n e call b k v given room positive =
      let places : length (replicate {A = ℕ} (length sizes) 0) ≡ length sizes =
        length-replicate {A = ℕ} (length sizes) 0 in
      let fits : Fits sizes docs = record {
        within = omega (arith, call.docs_whole);
        below_word = omega (arith, call.below_word);
      } in
      let (st', ran, reads, known, valid') =
        doc_store_contract L name named short mode m docs sizes (replicate (length sizes) 0) st n e
          places fits b k v in
      (
        st',
        doc_store_packed_remote transfer d (some name) net a mode (length sizes) docs sizes ids
            (numbered m.last_id (length sizes)) st st' copies sound supported call
            (length-numbered m.last_id (length sizes)) ran buffer given room positive valid,
        reads,
        known,
        valid',
      )
