-- ===== src/Rpc/Documents/Load.antt =====
-- `doc_load` from a client to a database with collections: src/client/doc_load.cpp and
-- src/server/doc_load.cpp.
use mochi_yokan.Prelude.{
  ℕ, ◌+◌, ◌-◌, ◌*◌, Bool, true, false, not, ◌&&◌, Option, none, some, List, [], ◌∷◌, ◌++◌, ◌==◌,
  length, take, drop, replicate, word, wrap, if◌then◌else◌, Outcome, done, ◌>>=◌,
}
use mochi_yokan.Common.{Bytes, key_not_found, size_too_small, mode_no_rdma, has}
use mochi_yokan.Memory.{slice, cut, write, bytes_of}
use mochi_yokan.Database.{Database}
use mochi_yokan.Docs.Store.{Store}
use mochi_yokan.Docs.Documents.{doc_load}
use mochi_yokan.Rpc.Codes.{
  Return, success, err_invalid_args, err_key_not_found, err_buffer_size, err_mode, cast, is_success,
}
use mochi_yokan.Rpc.Call.{
  Transfer, Arrival, Network, Request, with_database, with_buffer, transferred, sizes_at, forward,
  expose, array, both, all_three, gather, first, sizes_of, is_null, bytes_at, is_mode_valid,
}
use mochi_yokan.Rpc.Wire.{forward_out, Values, decode_values}

module _ (transfer : Transfer) {S : Type 0} (d : Database S) (collection : Option Bytes) where
  -- What the handler does once it has the sizes: it pushes all of the memory behind them, and the sizes.
  -- The two pushes are concurrent there; one that fails does so here when it is issued.
  unfoldable pub doc_load_values :
      Request → Bool → List ℕ → Bytes → Store S → Bytes → Outcome (Return × (Bytes × Store S))
  doc_load_values r packed ids bulk st memory =
      let docs_offset = wrap (8 * length ids) in
      let remaining = wrap (r.size + word - docs_offset) in
      do
        sizes ← sizes_at (length ids) 0 memory
        docs ← slice memory docs_offset remaining
        (status, reply, st') ← doc_load d collection r.mode packed ids docs sizes st
        with_sizes ← write memory 0 (bytes_of reply.vsizes)
        memory' ← write with_sizes docs_offset reply.vals
        let push_sizes : Bytes → Outcome (Return × (Bytes × Store S)) = (λ bulk₁.
            transferred (transfer memory' 0 bulk₁ r.offset docs_offset)
              (λ bulk₂. done (success, (bulk₂, st'))) (bulk₁, st'))
        let pushed : Outcome (Return × (Bytes × Store S)) =
            (if reply.vals_size == 0
              then push_sizes bulk
              else transferred
                  (transfer memory' docs_offset bulk (wrap (r.offset + docs_offset)) remaining)
                  push_sizes (bulk, st'))
        if is_success (cast status) then pushed else done (cast status, (bulk, st'))

  unfoldable pub doc_load_ult :
      Arrival → Request → Bool → List ℕ → Bytes × Store S → Outcome (Return × (Bytes × Store S))
  doc_load_ult a r packed ids (bulk, st) =
      with_buffer a (d.supports_mode r.mode)
        (λ buffer.
          if packed
          then doc_load_values r packed ids bulk st buffer
          else transferred (transfer bulk r.offset buffer 0 (wrap (8 * length ids)))
              (doc_load_values r packed ids bulk st) (bulk, st))
        (bulk, st)

  -- Only a successful answer has documents.
  unfoldable pub doc_load_direct_ult :
      Arrival → ℕ → List ℕ → ℕ → Store S → Outcome (Return × (Values × Store S))
  doc_load_direct_ult a mode ids bufsize st =
      with_database a true (d.supports_mode mode)
        (do
          (status, reply, st') ←
              doc_load d collection mode true ids (replicate bufsize 0) (replicate (length ids) 0)
                st
          let answer : Values =
              (if is_success (cast status)
                then (reply.vsizes, take reply.vals_size reply.vals)
                else ([], []))
          done (cast status, (answer, st')))
        (([], []), st)

  module _ (net : Network) (a : Arrival) where
    -- The memory for the sizes and the documents, of which the first `rbufsize` bytes are used, is part
    -- of the result.
    unfoldable pub doc_load_direct :
        ℕ
        → ℕ
        → Option (List ℕ)
        → ℕ
        → Option Bytes
        → Option (List ℕ)
        → Store S
        → Outcome (Return × ((Option (List ℕ) × Option Bytes) × Store S))
    doc_load_direct mode count ids rbufsize records rsizes st =
        if count == 0 then done (success, ((rsizes, records), st)) else elim (both ids rsizes) [
          | none ↦ done (err_invalid_args, ((rsizes, records), st))
          | some (is, ss) ↦
              if is_null records && not (rbufsize == 0)
              then done (err_invalid_args, ((rsizes, records), st))
              else if not (is_mode_valid mode)
              then done (err_mode, ((rsizes, records), st))
              else do
                ids' ← array count is
                ss' ← array count ss
                memory ← slice (bytes_at records) 0 rbufsize
                let kept = drop rbufsize (bytes_at records)
                let place : Option Bytes = (if is_null records then none else some memory)
                (ret, ((ss'', place'), st')) ←
                    forward_out net decode_values (doc_load_direct_ult a mode ids' rbufsize)
                      (ss', place) st
                let records' : Option Bytes =
                    (if is_null records then none else some (bytes_at place' ++ kept))
                done (ret, ((some ss'', records'), st'))
        ]

    unfoldable pub doc_load_bulk :
        Request → Bool → List ℕ → Bytes × Store S → Outcome (Return × (Bytes × Store S))
    doc_load_bulk r packed ids m =
        if not (is_mode_valid r.mode)
        then done (err_mode, m)
        else do ids' ← array r.count ids; forward net (doc_load_ult a r packed ids') m

    -- The call on exposed sizes and memory for documents, and what it leaves there.
    unfoldable pub doc_load_exposed :
        ℕ → ℕ → Bool → List ℕ → List ℕ → Bytes → Store S → Outcome (Return × (Values × Store S))
    doc_load_exposed mode count packed ids ss doc_data st = do
      let size = wrap (8 * count + length doc_data)
      let bulk = bytes_of ss ++ doc_data
      (ret, (bulk', st')) ←
          expose net
            (doc_load_bulk (record { mode = mode; count = count; offset = 0; size = size }) packed
              ids (bulk, st))
            (bulk, st)
      ss' ← sizes_at count 0 bulk'
      doc_data' ← slice bulk' (8 * count) (length doc_data)
      done (ret, ((ss', doc_data'), st'))

    unfoldable pub doc_load_packed :
        ℕ
        → ℕ
        → Option (List ℕ)
        → ℕ
        → Option Bytes
        → Option (List ℕ)
        → Store S
        → Outcome (Return × ((Option (List ℕ) × Option Bytes) × Store S))
    doc_load_packed mode count ids rbufsize records rsizes st =
        if has mode mode_no_rdma
        then doc_load_direct mode count ids rbufsize records rsizes st
        else if count == 0
        then done (success, ((rsizes, records), st))
        else elim (both ids rsizes) [
          | none ↦ done (err_invalid_args, ((rsizes, records), st))
          | some (is, ss) ↦
              if is_null records && not (rbufsize == 0)
              then done (err_invalid_args, ((rsizes, records), st))
              else do
                ss' ← array count ss
                memory ← slice (bytes_at records) 0 rbufsize
                (ret, ((ss'', memory'), st')) ← doc_load_exposed mode count true is ss' memory st
                let kept = drop rbufsize (bytes_at records)
                let records' : Option Bytes =
                    (if is_null records then none else some (memory' ++ kept))
                done (ret, ((some ss'', records'), st'))
        ]

    -- The segments for the documents are where the pointers say; their bytes are part of the result.
    unfoldable pub doc_load_multi :
        ℕ
        → ℕ
        → Option (List ℕ)
        → Option (List (Option Bytes))
        → Option (List ℕ)
        → Store S
        → Outcome (Return × ((Option (List ℕ) × List Bytes) × Store S))
    doc_load_multi mode count ids records rsizes st =
        if count == 0
        then done (success, ((rsizes, []), st))
        else elim (all_three ids rsizes records) [
          | none ↦ done (err_invalid_args, ((rsizes, []), st))
          | some (is, ss, ps) ↦ do
            ss' ← array count ss
            memory ← gather ps ss'
            (ret, ((ss'', memory'), st')) ← doc_load_exposed mode count false is ss' memory st
            done (ret, ((some ss'', cut ss' memory'), st'))
        ]

    -- `yk_doc_load`, whose pointer to the size is not null
    unfoldable pub doc_load_one :
        ℕ → ℕ → Option Bytes → ℕ → Store S → Outcome (Return × ((ℕ × Option Bytes) × Store S))
    doc_load_one mode id document size st = do
      (ret, ((sizes, document'), st')) ←
          doc_load_packed mode 1 (some (id ∷ [])) size document (some (size ∷ [])) st
      size' ← first (sizes_of sizes)
      let found =
          if size' == size_too_small
          then err_buffer_size
          else if size' == key_not_found
          then err_key_not_found
          else success
      done ((if is_success ret then found else ret), ((size', document'), st'))
