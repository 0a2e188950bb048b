-- ===== src/Rpc/Documents/Remote.antt =====
-- A `doc_store` by a client, and the `docStore` of the database at the other end.
use mochi_yokan.Prelude.{
  ℕ, ◌+◌, ◌*◌, ◌≤◌, ◌<◌, ◌≡◌, refl, ◌∙◌, true, not, Option, some, List, [], ◌++◌, arith, ◌==◌,
  length, replicate, drop, done, Bool-cases, inl, inr,
}
use mochi_yokan.Common.{Bytes, ok, mode_no_rdma, has}
use mochi_yokan.Memory.{bytes_of}
use mochi_yokan.Database.{Database}
use mochi_yokan.Docs.Store.{Store}
use mochi_yokan.Docs.Documents.{doc_store}
use mochi_yokan.Rpc.Codes.{success}
use mochi_yokan.Rpc.Call.{Transfer, IsCopy, Arrival, Network, is_mode_valid}
use mochi_yokan.Rpc.Sound.{IsSound, exposed, found, buffered}
use mochi_yokan.Rpc.Wire.{received, decode_items, decode_items_same}
use mochi_yokan.Rpc.Layout.{pulled, slice_whole, positive_count}
use mochi_yokan.Rpc.Documents.Layout.{
  IsDocuments, not_lost, total_of_docs, sizes_whole, array_ids, length-bulk, not_short, whole,
  read_sizes, read_docs,
}
use mochi_yokan.Rpc.Documents.{
  doc_store_ult, doc_store_direct_ult, doc_store_direct, doc_store_bulk, doc_store_packed,
}

module _ (transfer : Transfer) {S : Type 0} (d : Database S) (collection : Option Bytes)
    (net : Network) (a : Arrival) (mode count : ℕ) (docs : Bytes) (sizes ids ids' : List ℕ)
    (st st' : Store S) (copies : IsCopy transfer) (sound : IsSound net a)
    (supported : d.supports_mode mode ≡ true) (call : IsDocuments count docs sizes ids)
    (answers : length ids' ≡ count)
    (stored : doc_store d collection mode docs sizes (replicate count 0) st
      ≡ done (ok, ids', st')) where
  abbrev size : ℕ
  size = 8 * count + length docs

  abbrev bulk : Bytes
  bulk = bytes_of sizes ++ docs

  handled :
      (buffer : Bytes)
      → a.buffer ≡ some buffer
      → size ≤ length buffer
      → doc_store_ult transfer d collection a
          (record { mode = mode; count = count; offset = 0; size = size })
          bulk
          st
        ≡ done (success, (ids', st'))
  unfolding doc_store_ult
  handled buffer given room =
      rw
        (
          doc_store_ult,
          buffered {S = List ℕ × Store S} net a (d.supports_mode mode) buffer _ ([], st) sound
              supported given,
          pulled transfer bulk buffer size copies (length-bulk call) room,
        )
        (rw
          (
            read_sizes call (drop size buffer),
            total_of_docs call,
            not_short call,
            read_docs call (drop size buffer),
            stored,
          )
          refl)

  decoded : decode_items ids' ids ≡ some ids'
  decoded = decode_items_same ids' ids (omega (arith, answers, call.id_count))

  sent :
      (buffer : Bytes)
      → a.buffer ≡ some buffer
      → size ≤ length buffer
      → is_mode_valid mode ≡ true
      → doc_store_bulk transfer d collection net a
          (record { mode = mode; count = count; offset = 0; size = size })
          bulk
          ids
          st
        ≡ done (success, (ids', st'))
  unfolding doc_store_bulk
  sent buffer given room valid =
      rw (doc_store_bulk, valid, array_ids call)
        (received net a decode_items
          (doc_store_ult transfer d collection a
            (record { mode = mode; count = count; offset = 0; size = size }) bulk)
          ids ids' st st' success ids' sound (handled buffer given room) decoded)

  directly :
      doc_store_direct_ult transfer d collection a mode docs sizes st ≡ done (success, (ids', st'))
  unfolding doc_store_direct_ult
  directly =
      rw
        (
          doc_store_direct_ult,
          found {S = List ℕ × Store S} net a true (d.supports_mode mode) _ ([], st) sound refl
              supported,
          call.size_count,
          stored,
        )
        refl

  direct :
      0 < count
      → doc_store_direct transfer d collection net a mode count (some docs) (some sizes) ids st
        ≡ done (success, (ids', st'))
  unfolding doc_store_direct
  direct positive =
      rw
        (
          doc_store_direct,
          positive_count positive,
          sizes_whole call,
          array_ids call,
          total_of_docs call,
          slice_whole docs,
        )
        (received net a decode_items (doc_store_direct_ult transfer d collection a mode docs sizes)
          ids ids' st st' success ids' sound directly decoded)

  -- Over a sound network whose transfers copy, with room in the buffer of the handler and a mode that
  -- client and database accept, a packed `doc_store` of at least one document, in memory of just their
  -- sizes, that the `docStore` of the database would store with OK, succeeds, gives the client the
  -- identifiers, and leaves the database as `docStore` does.
  pub doc_store_packed_remote :
      (buffer : Bytes)
      → a.buffer ≡ some buffer
      → 8 * count + length docs ≤ length buffer
      → 0 < count
      → is_mode_valid mode ≡ true
      → doc_store_packed transfer d collection net a mode count (some docs) (some sizes) ids st
        ≡ done (success, (ids', st'))
  unfolding doc_store_packed
  doc_store_packed_remote buffer given room positive valid =
      elim (Bool-cases (has mode mode_no_rdma)) [
        | inl e ↦ rw (doc_store_packed, e) (direct positive)
        | inr e ↦
            rw
              (
                doc_store_packed,
                e,
                positive_count positive,
                sizes_whole call,
                total_of_docs call,
                slice_whole docs,
                whole call,
              )
              (rw (not_lost (not (length docs == 0)) docs) (
                exposed net a
                  (doc_store_bulk transfer d collection net a
                    (record { mode = mode; count = count; offset = 0; size = size }) bulk ids st)
                  (ids, st) sound
                ∙ sent buffer given room valid))
      ]
