-- ===== src/Rpc/Documents.antt =====
-- `doc_store`, `doc_length` and `doc_erase` from a client to a database with collections:
-- src/client/doc_store.cpp, doc_length.cpp and doc_erase.cpp, and their handlers in src/server.
pub mod Layout
pub mod Remote
pub mod OverStore
pub mod Update
pub mod Load
pub mod Listing
use mochi_yokan.Prelude.{
  ℕ, ◌+◌, ◌*◌, Bool, true, false, not, ◌&&◌, Option, none, some, List, [], ◌∷◌, ◌++◌, ltb, ◌==◌,
  length, replicate, wrap, if◌then◌else◌, Outcome, done, ◌>>=◌,
}
use mochi_yokan.Common.{Bytes, key_not_found, mode_no_rdma, has}
use mochi_yokan.Memory.{slice, total, bytes_of}
use mochi_yokan.Database.{Database}
use mochi_yokan.Docs.Store.{Store}
use mochi_yokan.Docs.Documents.{doc_store, doc_size, doc_erase}
use mochi_yokan.Rpc.Codes.{
  Return, success, err_invalid_args, err_from_mercury, err_key_not_found, err_mode, cast,
  is_success,
}
use mochi_yokan.Rpc.Call.{
  Transfer, Arrival, Network, Request, with_database, with_buffer, transferred, sizes_at, forward,
  expose, array, both, gather, first, is_null, bytes_at, is_mode_valid,
}
use mochi_yokan.Rpc.Wire.{decode_items, forward_out}

-- A document store answers with the identifiers, which only a success has.
abbrev pub if_success : Return → List ℕ → List ℕ
if_success ret xs = if is_success ret then xs else []

module _ (transfer : Transfer) {S : Type 0} (d : Database S) (collection : Option Bytes) where
  unfoldable pub doc_store_ult :
      Arrival → Request → Bytes → Store S → Outcome (Return × (List ℕ × Store S))
  doc_store_ult a r bulk st =
      with_buffer a (d.supports_mode r.mode)
        (λ buffer.
          transferred (transfer bulk r.offset buffer 0 r.size)
            (λ memory. do
              sizes ← sizes_at r.count 0 memory
              let total_doc_size = total sizes 0
              let called : Outcome (Return × (List ℕ × Store S)) = (do
                docs ← slice memory (8 * r.count) total_doc_size
                (status, ids, st') ←
                    doc_store d collection r.mode docs sizes (replicate r.count 0) st
                done (cast status, (if_success (cast status) ids, st')))
              if ltb r.size (wrap (8 * r.count + total_doc_size))
                  then done (err_invalid_args, ([], st))
                  else called)
            ([], st))
        ([], st)

  unfoldable pub doc_store_direct_ult :
      Arrival → ℕ → Bytes → List ℕ → Store S → Outcome (Return × (List ℕ × Store S))
  doc_store_direct_ult a mode docs sizes st =
      with_database a true (d.supports_mode mode)
        (do
          (status, ids, st') ←
              doc_store d collection mode docs sizes (replicate (length sizes) 0) st
          done (cast status, (if_success (cast status) ids, st')))
        ([], st)

  unfoldable pub doc_length_ult :
      Arrival → ℕ → List ℕ → Store S → Outcome (Return × (List ℕ × Store S))
  doc_length_ult a mode ids st =
      with_database a true (d.supports_mode mode)
        (do
          (status, sizes, st') ← doc_size d collection mode ids (replicate (length ids) 0) st
          done (cast status, (if_success (cast status) sizes, st')))
        ([], st)

  unfoldable pub doc_erase_ult : Arrival → ℕ → List ℕ → Store S → Outcome (Return × Store S)
  doc_erase_ult a mode ids st =
      with_database a true (d.supports_mode mode)
        (do (status, st') ← doc_erase d collection mode ids st; done (cast status, st')) st

  module _ (net : Network) (a : Arrival) where
    -- `ids`, the memory for `count` identifiers, is part of the result. The mode is not checked here.
    unfoldable pub doc_store_direct :
        ℕ
        → ℕ
        → Option Bytes
        → Option (List ℕ)
        → List ℕ
        → Store S
        → Outcome (Return × (List ℕ × Store S))
    doc_store_direct mode count records rsizes ids st =
        if count == 0 then done (success, (ids, st)) else elim rsizes [
          | none ↦ done (err_invalid_args, (ids, st))
          | some sizes ↦ do
            sizes' ← array count sizes
            ids' ← array count ids
            let sent : Outcome (Return × (List ℕ × Store S)) = (do
              docs ← slice (bytes_at records) 0 (total sizes' 0)
              forward_out net decode_items (doc_store_direct_ult a mode docs sizes') ids' st)
            if is_null records && not (total sizes' 0 == 0)
                then done (err_invalid_args, (ids, st))
                else sent
        ]

    unfoldable pub doc_store_bulk :
        Request → Bytes → List ℕ → Store S → Outcome (Return × (List ℕ × Store S))
    doc_store_bulk r bulk ids st =
        if not (is_mode_valid r.mode) then done (err_mode, (ids, st)) else do
          ids' ← array r.count ids
          forward_out net decode_items (doc_store_ult a r bulk) ids' st

    unfoldable pub doc_store_packed :
        ℕ
        → ℕ
        → Option Bytes
        → Option (List ℕ)
        → List ℕ
        → Store S
        → Outcome (Return × (List ℕ × Store S))
    doc_store_packed mode count records rsizes ids st =
        if has mode mode_no_rdma
        then doc_store_direct mode count records rsizes ids st
        else if count == 0
        then done (success, (ids, st))
        else elim rsizes [
          | none ↦ done (err_invalid_args, (ids, st))
          | some sizes ↦ do
            sizes' ← array count sizes
            let size = wrap (8 * count + total sizes' 0)
            let sent : Outcome (Return × (List ℕ × Store S)) = (do
              docs ← slice (bytes_at records) 0 (total sizes' 0)
              doc_store_bulk (record { mode = mode; count = count; offset = 0; size = size })
                  (bytes_of sizes' ++ docs) ids st)
            if not (total sizes' 0 == 0) && is_null records
                then done (err_invalid_args, (ids, st))
                else expose net sent (ids, st)
        ]

    unfoldable pub doc_store_multi :
        ℕ
        → ℕ
        → Option (List (Option Bytes))
        → Option (List ℕ)
        → List ℕ
        → Store S
        → Outcome (Return × (List ℕ × Store S))
    doc_store_multi mode count records rsizes ids st =
        if count == 0 then done (success, (ids, st)) else elim (both records rsizes) [
          | none ↦ done (err_invalid_args, (ids, st))
          | some (ps, sizes) ↦ do
            sizes' ← array count sizes
            let packed : Outcome (Return × (List ℕ × Store S)) = (do
              docs ← gather ps sizes'
              doc_store_direct mode count (some docs) (some sizes) ids st)
            let one : Outcome (Return × (List ℕ × Store S)) = (do
              p ← first ps
              doc_store_direct mode count p (some sizes) ids st)
            let size = wrap (8 * count + total sizes' 0)
            let exposed : Outcome (Return × (List ℕ × Store S)) = (do
              docs ← gather ps sizes'
              expose net
                  (doc_store_bulk (record { mode = mode; count = count; offset = 0; size = size })
                    (bytes_of sizes' ++ docs) ids st)
                  (ids, st))
            if has mode mode_no_rdma then if ltb 1 count then packed else one else exposed
        ]

    -- `yk_doc_store`
    unfoldable pub doc_store_one :
        ℕ → Option Bytes → ℕ → ℕ → Store S → Outcome (Return × (List ℕ × Store S))
    doc_store_one mode document size id st =
        doc_store_packed mode 1 document (some (size ∷ [])) (id ∷ []) st

    unfoldable pub doc_length_multi :
        ℕ
        → ℕ
        → Option (List ℕ)
        → Option (List ℕ)
        → Store S
        → Outcome (Return × (Option (List ℕ) × Store S))
    doc_length_multi mode count ids rsizes st =
        if count == 0 then done (success, (rsizes, st)) else elim (both ids rsizes) [
          | none ↦ done (err_invalid_args, (rsizes, st))
          | some (is, sizes) ↦
              if not (is_mode_valid mode) then done (err_mode, (rsizes, st)) else do
                ids' ← array count is
                sizes' ← array count sizes
                (ret, (received, st')) ←
                    forward_out net decode_items (doc_length_ult a mode ids') sizes' st
                done (ret, (some received, st'))
        ]

    -- `yk_doc_length`, whose pointer is not null
    unfoldable pub doc_length_one : ℕ → ℕ → ℕ → Store S → Outcome (Return × (ℕ × Store S))
    doc_length_one mode id size st = do
      (ret, (sizes, st')) ← doc_length_multi mode 1 (some (id ∷ [])) (some (size ∷ [])) st
      size' ← first (elim sizes [ none ↦ [] | some xs ↦ xs ])
      let missing = is_success ret && (size' == key_not_found)
      done ((if missing then err_key_not_found else ret), (size', st'))

    unfoldable pub doc_erase_multi : ℕ → ℕ → Option (List ℕ) → Store S → Outcome (Return × Store S)
    doc_erase_multi mode count ids st = if count == 0 then done (success, st) else elim ids [
      | none ↦ done (err_invalid_args, st)
      | some is ↦
          if not (is_mode_valid mode)
          then done (err_mode, st)
          else do ids' ← array count is; forward net (doc_erase_ult a mode ids') st
    ]

    -- `yk_doc_erase`
    unfoldable pub doc_erase_one : ℕ → ℕ → Store S → Outcome (Return × Store S)
    doc_erase_one mode id st = doc_erase_multi mode 1 (some (id ∷ [])) st
