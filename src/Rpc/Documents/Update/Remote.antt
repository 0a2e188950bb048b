-- ===== src/Rpc/Documents/Update/Remote.antt =====
-- A `doc_update` by a client, and the `docUpdate` of the database at the other end.
use mochi_yokan.Prelude.{
  ℕ, ◌+◌, ◌*◌, ◌≤◌, ◌<◌, ◌≡◌, refl, ◌∙◌, true, not, Option, some, List, ◌++◌, ◌==◌, length, drop,
  Outcome, done, ◌>>=◌, Bool-cases, inl, inr,
}
use mochi_yokan.Common.{Bytes, mode_no_rdma, has}
use mochi_yokan.Memory.{bytes_of}
use mochi_yokan.Database.{Database}
use mochi_yokan.Docs.Store.{Store}
use mochi_yokan.Docs.Documents.{doc_update}
use mochi_yokan.Rpc.Codes.{Return, cast}
use mochi_yokan.Rpc.Call.{Transfer, IsCopy, Arrival, Network, is_mode_valid}
use mochi_yokan.Rpc.Sound.{IsSound, forwarded, exposed, found, buffered}
use mochi_yokan.Rpc.Layout.{pulled, slice_whole, positive_count}
use mochi_yokan.Rpc.Documents.Layout.{
  IsDocuments, not_lost, total_of_docs, sizes_whole, array_ids, length-bulk, not_short, whole,
  read_sizes, read_docs,
}
use mochi_yokan.Rpc.Documents.Update.{
  doc_update_ult, doc_update_direct_ult, doc_update_direct, doc_update_bulk, doc_update_packed,
}

module _ (transfer : Transfer) {S : Type 0} (d : Database S) (collection : Option Bytes)
    (net : Network) (a : Arrival) (mode count : ℕ) (docs : Bytes) (sizes ids : List ℕ)
    (st : Store S) (copies : IsCopy transfer) (sound : IsSound net a)
    (supported : d.supports_mode mode ≡ true) (call : IsDocuments count docs sizes ids) where
  called : Outcome (Return × Store S)
  called = do
    (status, st') ← doc_update d collection mode ids docs sizes st
    done (cast status, st')

  abbrev size : ℕ
  size = 8 * count + length docs

  abbrev bulk : Bytes
  bulk = bytes_of sizes ++ docs

  -- The buffer is had before the database is looked for.
  early : IsSound net (record a { database_found = true })
  early = record {
    bulk_created = sound.bulk_created;
    created = sound.created;
    handled = sound.handled;
    forwarded = sound.forwarded;
    output_decoded = sound.output_decoded;
    output_freed = sound.output_freed;
    instance_found = sound.instance_found;
    provider_found = sound.provider_found;
    input_decoded = sound.input_decoded;
    address_found = sound.address_found;
    database_found = refl;
  }

  handled :
      (buffer : Bytes)
      → a.buffer ≡ some buffer
      → size ≤ length buffer
      → doc_update_ult transfer d collection a
          (record { mode = mode; count = count; offset = 0; size = size })
          ids
          bulk
          st
        ≡ called
  unfolding doc_update_ult called
  handled buffer given room =
      rw
        (
          doc_update_ult,
          buffered net (record a { database_found = true }) true buffer _ st early refl given,
          pulled transfer bulk buffer size copies (length-bulk call) room,
          found net a a.address_found (d.supports_mode mode) _ st sound sound.address_found
              supported,
          call.id_count,
        )
        (rw
          (
            read_sizes call (drop size buffer),
            total_of_docs call,
            not_short call,
            read_docs call (drop size buffer),
          )
          refl)

  sent :
      (buffer : Bytes)
      → a.buffer ≡ some buffer
      → size ≤ length buffer
      → is_mode_valid mode ≡ true
      → doc_update_bulk transfer d collection net a
          (record { mode = mode; count = count; offset = 0; size = size })
          ids
          bulk
          st
        ≡ called
  unfolding doc_update_bulk
  sent buffer given room valid =
      rw (doc_update_bulk, valid, array_ids call)
        (forwarded net a
            (doc_update_ult transfer d collection a
              (record { mode = mode; count = count; offset = 0; size = size }) ids bulk)
            st sound
          ∙ handled buffer given room)

  direct :
      0 < count
      → is_mode_valid mode ≡ true
      → doc_update_direct transfer d collection net a mode count
          (some ids)
          (some docs)
          (some sizes)
          st
        ≡ called
  unfolding doc_update_direct doc_update_direct_ult called
  direct positive valid =
      rw
        (
          doc_update_direct,
          positive_count positive,
          valid,
          array_ids call,
          sizes_whole call,
          total_of_docs call,
          slice_whole docs,
        )
        (forwarded net a (doc_update_direct_ult transfer d collection a mode ids docs sizes) st
            sound
          ∙ found net a true (d.supports_mode mode) called st sound refl supported)

  -- Over a sound network whose transfers copy, with room in the buffer of the handler and a mode that
  -- client and database accept, a packed `doc_update` of at least one document, in memory of just their
  -- sizes, does what `docUpdate` of the database does on those documents, and returns its status: by
  -- exposed memory, or inline under NO_RDMA.
  pub doc_update_packed_remote :
      (buffer : Bytes)
      → a.buffer ≡ some buffer
      → 8 * count + length docs ≤ length buffer
      → 0 < count
      → is_mode_valid mode ≡ true
      → doc_update_packed transfer d collection net a mode count
          (some ids)
          (some docs)
          (some sizes)
          st
        ≡ (do
          (status, st') ← doc_update d collection mode ids docs sizes st
          done (cast status, st'))
  unfolding doc_update_packed called
  doc_update_packed_remote buffer given room positive valid =
      elim (Bool-cases (has mode mode_no_rdma)) [
        | inl e ↦ rw (doc_update_packed, e) (direct positive valid)
        | inr e ↦
            rw
              (
                doc_update_packed,
                e,
                positive_count positive,
                sizes_whole call,
                total_of_docs call,
                slice_whole docs,
                whole call,
              )
              (rw (not_lost (not (length docs == 0)) docs) (
                exposed net a
                  (doc_update_bulk transfer d collection net a
                    (record { mode = mode; count = count; offset = 0; size = size }) ids bulk st)
                  st sound
                ∙ sent buffer given room valid))
      ]
