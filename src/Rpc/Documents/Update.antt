-- ===== src/Rpc/Documents/Update.antt =====
-- `doc_update` from a client to a database with collections: src/client/doc_update.cpp and
-- src/server/doc_update.cpp.
pub mod Remote
use mochi_yokan.Prelude.{
  ℕ, ◌+◌, ◌*◌, true, not, ◌&&◌, Option, none, some, List, [], ◌∷◌, ◌++◌, ltb, ◌==◌, length, wrap,
  if◌then◌else◌, Outcome, done, ◌>>=◌,
}
use mochi_yokan.Common.{Bytes, mode_no_rdma, has}
use mochi_yokan.Memory.{slice, total, bytes_of}
use mochi_yokan.Database.{Database}
use mochi_yokan.Docs.Store.{Store}
use mochi_yokan.Docs.Documents.{doc_update}
use mochi_yokan.Rpc.Codes.{Return, success, err_invalid_args, err_mode, cast}
use mochi_yokan.Rpc.Call.{
  Transfer, Arrival, Network, Request, with_database, with_buffer, transferred, sizes_at, forward,
  expose, array, both, all_three, gather, first, is_null, bytes_at, is_mode_valid,
}

module _ (transfer : Transfer) {S : Type 0} (d : Database S) (collection : Option Bytes) where
  -- The handler has its buffer, and pulls, before it looks for the database.
  unfoldable pub doc_update_ult :
      Arrival → Request → List ℕ → Bytes → Store S → Outcome (Return × Store S)
  doc_update_ult a r ids bulk st =
      with_buffer (record a { database_found = true }) true
        (λ buffer.
          transferred (transfer bulk r.offset buffer 0 r.size)
            (λ memory.
              with_database a a.address_found (d.supports_mode r.mode)
                (do
                  sizes ← sizes_at (length ids) 0 memory
                  let total_doc_size = total sizes 0
                  let called : Outcome (Return × Store S) = (do
                    docs ← slice memory (8 * length ids) total_doc_size
                    (status, st') ← doc_update d collection r.mode ids docs sizes st
                    done (cast status, st'))
                  if ltb r.size (wrap (8 * length ids + total_doc_size))
                      then done (err_invalid_args, st)
                      else called)
                st)
            st)
        st

  unfoldable pub doc_update_direct_ult :
      Arrival → ℕ → List ℕ → Bytes → List ℕ → Store S → Outcome (Return × Store S)
  doc_update_direct_ult a mode ids docs sizes st =
      with_database a true (d.supports_mode mode)
        (do (status, st') ← doc_update d collection mode ids docs sizes st; done (cast status, st'))
        st

  module _ (net : Network) (a : Arrival) where
    unfoldable pub doc_update_direct :
        ℕ
        → ℕ
        → Option (List ℕ)
        → Option Bytes
        → Option (List ℕ)
        → Store S
        → Outcome (Return × Store S)
    doc_update_direct mode count ids records rsizes st =
        if count == 0 then done (success, st) else elim (both ids rsizes) [
          | none ↦ done (err_invalid_args, st)
          | some (is, sizes) ↦ if not (is_mode_valid mode) then done (err_mode, st) else do
            ids' ← array count is
            sizes' ← array count sizes
            let sent : Outcome (Return × Store S) = (do
              docs ← slice (bytes_at records) 0 (total sizes' 0)
              forward net (doc_update_direct_ult a mode ids' docs sizes') st)
            if is_null records && not (total sizes' 0 == 0)
                then done (err_invalid_args, st)
                else sent
        ]

    -- The count of the request is that of the identifiers.
    unfoldable pub doc_update_bulk : Request → List ℕ → Bytes → Store S → Outcome (Return × Store S)
    doc_update_bulk r ids bulk st =
        if not (is_mode_valid r.mode)
        then done (err_mode, st)
        else do ids' ← array r.count ids; forward net (doc_update_ult a r ids' bulk) st

    unfoldable pub doc_update_packed :
        ℕ
        → ℕ
        → Option (List ℕ)
        → Option Bytes
        → Option (List ℕ)
        → Store S
        → Outcome (Return × Store S)
    doc_update_packed mode count ids records rsizes st =
        if has mode mode_no_rdma
        then doc_update_direct mode count ids records rsizes st
        else if count == 0
        then done (success, st)
        else elim (both ids rsizes) [
          | none ↦ done (err_invalid_args, st)
          | some (is, sizes) ↦ do
            sizes' ← array count sizes
            let size = wrap (8 * count + total sizes' 0)
            let sent : Outcome (Return × Store S) = (do
              docs ← slice (bytes_at records) 0 (total sizes' 0)
              expose net
                  (doc_update_bulk (record { mode = mode; count = count; offset = 0; size = size })
                    is (bytes_of sizes' ++ docs) st)
                  st)
            if not (total sizes' 0 == 0) && is_null records
                then done (err_invalid_args, st)
                else sent
        ]

    unfoldable pub doc_update_multi :
        ℕ
        → ℕ
        → Option (List ℕ)
        → Option (List (Option Bytes))
        → Option (List ℕ)
        → Store S
        → Outcome (Return × Store S)
    doc_update_multi mode count ids records rsizes st =
        if count == 0 then done (success, st) else elim (all_three records rsizes ids) [
          | none ↦ done (err_invalid_args, st)
          | some (ps, sizes, is) ↦ do
            sizes' ← array count sizes
            let packed : Outcome (Return × Store S) = (do
              docs ← gather ps sizes'
              doc_update_direct mode count (some is) (some docs) (some sizes) st)
            let one : Outcome (Return × Store S) = (do
              p ← first ps
              doc_update_direct mode count (some is) p (some sizes) st)
            let size = wrap (8 * count + total sizes' 0)
            let exposed : Outcome (Return × Store S) = (do
              docs ← gather ps sizes'
              expose net
                  (doc_update_bulk (record { mode = mode; count = count; offset = 0; size = size })
                    is (bytes_of sizes' ++ docs) st)
                  st)
            if has mode mode_no_rdma then if count == 1 then one else packed else exposed
        ]

    -- `yk_doc_update`
    unfoldable pub doc_update_one : ℕ → ℕ → Option Bytes → ℕ → Store S → Outcome (Return × Store S)
    doc_update_one mode id document size st =
        doc_update_packed mode 1 (some (id ∷ [])) document (some (size ∷ [])) st
