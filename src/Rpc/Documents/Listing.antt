-- ===== src/Rpc/Documents/Listing.antt =====
-- `doc_list` from a client to a database with collections: src/client/doc_list.cpp and
-- src/server/doc_list.cpp.
use mochi_yokan.Prelude.{
  ℕ, ◌+◌, ◌*◌, Bool, true, false, not, ◌&&◌, Option, none, some, List, [], ◌++◌, ◌==◌, length, take,
  drop, replicate, wrap, if◌then◌else◌, Outcome, done, ◌>>=◌,
}
use mochi_yokan.Common.{Bytes, mode_no_rdma, has}
use mochi_yokan.Memory.{slice, cut, write, bytes_of}
use mochi_yokan.Filter.{DocFilter, DocMakers, make_doc_filter}
use mochi_yokan.Database.{Database}
use mochi_yokan.Docs.Store.{Store}
use mochi_yokan.Docs.Documents.{doc_list}
use mochi_yokan.Rpc.Codes.{
  Return, success, err_invalid_args, err_invalid_filter, err_mode, cast, is_success,
}
use mochi_yokan.Rpc.Call.{
  Transfer, Arrival, Network, with_database, with_buffer, transferred, sizes_at, forward, expose,
  array, all_three, both, gather, is_null, bytes_at, is_mode_valid,
}
use mochi_yokan.Rpc.ListKeys.{pulled_if, is_lost}
use mochi_yokan.Rpc.Wire.{forward_out, Values, Room, decode_items, decode_values}

-- `doc_list_in_t`, without the identifiers of the database and the collection.
pub record DocListRequest : Type 0 where
  pub mode : ℕ
  pub packed : Bool
  pub count : ℕ
  pub from_id : ℕ
  pub filter_size : ℕ
  pub offset : ℕ
  pub docs_buf_size : ℕ

-- The output is decoded in the order of its fields: the identifiers, the sizes, the documents.
unfoldable pub decode_listed : List ℕ × Values → List ℕ × Room → Option (List ℕ × Room)
decode_listed (ids, values) (ids_memory, room) = elim (decode_items ids ids_memory) [
  | none ↦ none
  | some ids' ↦ elim (decode_values values room) [ none ↦ none | some room' ↦ some (ids', room') ]
]

-- What the caller has: the identifiers, the sizes and the bytes.
abbrev Listed : Type 0
Listed = Option (List ℕ) × (Option (List ℕ) × Option Bytes)

module _ (transfer : Transfer) (makers : DocMakers) {S : Type 0} (d : Database S)
    (collection : Option Bytes) where
  -- What the handler does with the memory that it pulled. It pushes the buffer of documents whole.
  unfoldable pub doc_list_listed :
      DocListRequest → Bytes → Store S → Bytes → Outcome (Return × (Bytes × Store S))
  doc_list_listed r bulk st memory =
      let doc_ids_offset = wrap (r.filter_size + wrap (8 * r.count)) in
      let docs_offset = wrap (doc_ids_offset + wrap (8 * r.count)) in
      do
        filter_data ← slice memory 0 r.filter_size
        let listed : DocFilter → Outcome (Return × (Bytes × Store S)) = (λ f. do
          sizes ← sizes_at r.count r.filter_size memory
          ids ← sizes_at r.count doc_ids_offset memory
          docs ← slice memory docs_offset r.docs_buf_size
          (status, ids', sizes', (docs', docs_size)) ←
              doc_list d collection r.mode r.packed r.from_id (some f) ids docs sizes st
          with_sizes ← write memory r.filter_size (bytes_of sizes')
          with_ids ← write with_sizes doc_ids_offset (bytes_of ids')
          memory' ← write with_ids docs_offset docs'
          let size = wrap (wrap (8 * r.count) + wrap (8 * r.count) + r.docs_buf_size)
          let pushed : Outcome (Return × (Bytes × Store S)) =
              transferred
                (transfer memory' r.filter_size bulk (wrap (r.offset + r.filter_size)) size)
                (λ bulk'. done (success, (bulk', st))) (bulk, st)
          if is_success (cast status) then pushed else done (cast status, (bulk, st)))
        elim (make_doc_filter makers r.mode filter_data) [
          | none ↦ done (err_invalid_filter, (bulk, st))
          | some f ↦ listed f
        ]

  unfoldable pub doc_list_ult :
      Arrival → DocListRequest → Bytes × Store S → Outcome (Return × (Bytes × Store S))
  doc_list_ult a r (bulk, st) =
      with_buffer a (d.supports_mode r.mode)
        (λ buffer.
          let size = wrap (r.filter_size + (if r.packed then 0 else wrap (8 * r.count))) in
          pulled_if size (transfer bulk r.offset buffer 0 size) buffer (doc_list_listed r bulk st)
            (bulk, st))
        (bulk, st)

  unfoldable pub doc_list_direct_ult :
      Arrival → ℕ → ℕ → ℕ → Bytes → ℕ → Store S → Outcome (Return × ((List ℕ × Values) × Store S))
  doc_list_direct_ult a mode count from_id filter_data bufsize st =
      with_database a true (d.supports_mode mode)
        (elim (make_doc_filter makers mode filter_data) [
          | none ↦ done (err_invalid_filter, (([], ([], [])), st))
          | some f ↦ do
            (status, ids, sizes, (docs, docs_size)) ←
                doc_list d collection mode true from_id (some f) (replicate count 0)
                  (replicate bufsize 0) (replicate count 0) st
            let answer : List ℕ × Values =
                (if is_success (cast status)
                  then (ids, (sizes, take docs_size docs))
                  else ([], ([], [])))
            done (cast status, (answer, st))
        ])
        (([], ([], [])), st)

  module _ (net : Network) (a : Arrival) where
    unfoldable pub doc_list_direct :
        ℕ
        → ℕ
        → Option Bytes
        → ℕ
        → ℕ
        → Option (List ℕ)
        → ℕ
        → Option Bytes
        → Option (List ℕ)
        → Store S
        → Outcome (Return × (Listed × Store S))
    doc_list_direct mode from_id filter filter_size count ids bufsize docs doc_sizes st =
        if count == 0
        then done (success, ((ids, (doc_sizes, docs)), st))
        else if is_lost filter filter_size
        then done (err_invalid_args, ((ids, (doc_sizes, docs)), st))
        else elim (both ids doc_sizes) [
          | none ↦ done (err_invalid_args, ((ids, (doc_sizes, docs)), st))
          | some (is, ss) ↦
              if is_null docs && not (bufsize == 0)
              then done (err_invalid_args, ((ids, (doc_sizes, docs)), st))
              else if not (is_mode_valid mode)
              then done (err_mode, ((ids, (doc_sizes, docs)), st))
              else do
                filter_data ← slice (bytes_at filter) 0 filter_size
                is' ← array count is
                ss' ← array count ss
                memory ← slice (bytes_at docs) 0 bufsize
                let place : Option Bytes = (if is_null docs then none else some memory)
                (ret, ((is'', (ss'', place')), st')) ←
                    forward_out net decode_listed
                      (doc_list_direct_ult a mode count from_id filter_data bufsize)
                      (is', (ss', place)) st
                let kept = drop bufsize (bytes_at docs)
                let docs' : Option Bytes =
                    (if is_null docs then none else some (bytes_at place' ++ kept))
                done (
                  ret,
                  ((some (is'' ++ drop count is), (some (ss'' ++ drop count ss), docs')), st'),
                )
        ]

    unfoldable pub doc_list_bulk :
        DocListRequest → Bytes × Store S → Outcome (Return × (Bytes × Store S))
    doc_list_bulk r m =
        if r.count == 0
        then done (success, m)
        else if not (is_mode_valid r.mode)
        then done (err_mode, m)
        else forward net (doc_list_ult a r) m

    -- The call on an exposed filter, and what it leaves in the memory for identifiers, sizes and
    -- documents.
    unfoldable pub doc_list_exposed :
        ℕ
        → Bool
        → ℕ
        → Bytes
        → ℕ
        → List ℕ
        → List ℕ
        → Bytes
        → Store S
        → Outcome (Return × ((List ℕ × Values) × Store S))
    doc_list_exposed mode packed from_id filter_data count is ss doc_data st = do
      let bulk = filter_data ++ (bytes_of ss ++ (bytes_of is ++ doc_data))
      let r : DocListRequest = record {
        mode = mode;
        packed = packed;
        count = count;
        from_id = from_id;
        filter_size = length filter_data;
        offset = 0;
        docs_buf_size = length doc_data;
      }
      (ret, (bulk', st')) ← expose net (doc_list_bulk r (bulk, st)) (bulk, st)
      ss' ← sizes_at count (length filter_data) bulk'
      is' ← sizes_at count (length filter_data + 8 * count) bulk'
      doc_data' ← slice bulk' (length filter_data + 16 * count) (length doc_data)
      done (ret, ((is', (ss', doc_data')), st'))

    unfoldable pub doc_list_packed :
        ℕ
        → ℕ
        → Option Bytes
        → ℕ
        → ℕ
        → Option (List ℕ)
        → ℕ
        → Option Bytes
        → Option (List ℕ)
        → Store S
        → Outcome (Return × (Listed × Store S))
    doc_list_packed mode from_id filter filter_size count ids bufsize docs doc_sizes st =
        if has mode mode_no_rdma
        then doc_list_direct mode from_id filter filter_size count ids bufsize docs doc_sizes st
        else if count == 0
        then done (success, ((ids, (doc_sizes, docs)), st))
        else if is_lost filter filter_size
        then done (err_invalid_args, ((ids, (doc_sizes, docs)), st))
        else elim (both ids doc_sizes) [
          | none ↦ done (err_invalid_args, ((ids, (doc_sizes, docs)), st))
          | some (is, ss) ↦
              if is_null docs && not (bufsize == 0)
              then done (err_invalid_args, ((ids, (doc_sizes, docs)), st))
              else do
                filter_data ← slice (bytes_at filter) 0 filter_size
                is' ← array count is
                ss' ← array count ss
                memory ← slice (bytes_at docs) 0 bufsize
                (ret, ((is'', (ss'', memory')), st')) ←
                    doc_list_exposed mode true from_id filter_data count is' ss' memory st
                let kept = drop bufsize (bytes_at docs)
                let docs' : Option Bytes = (if is_null docs then none else some (memory' ++ kept))
                done (
                  ret,
                  ((some (is'' ++ drop count is), (some (ss'' ++ drop count ss), docs')), st'),
                )
        ]

    -- `yk_doc_list`: the segments for the documents are where the pointers say, and their bytes part of
    -- the result. One of no bytes is left out.
    unfoldable pub doc_list_each :
        ℕ
        → ℕ
        → Option Bytes
        → ℕ
        → ℕ
        → Option (List ℕ)
        → Option (List (Option Bytes))
        → Option (List ℕ)
        → Store S
        → Outcome (Return × ((Option (List ℕ) × (Option (List ℕ) × List Bytes)) × Store S))
    doc_list_each mode from_id filter filter_size count ids docs doc_sizes st =
        if count == 0
        then done (success, ((ids, (doc_sizes, [])), st))
        else if is_lost filter filter_size
        then done (err_invalid_args, ((ids, (doc_sizes, [])), st))
        else elim (all_three ids docs doc_sizes) [
          | none ↦ done (err_invalid_args, ((ids, (doc_sizes, [])), st))
          | some (is, ps, ss) ↦ do
            filter_data ← slice (bytes_at filter) 0 filter_size
            is' ← array count is
            ss' ← array count ss
            memory ← gather ps ss'
            (ret, ((is'', (ss'', memory')), st')) ←
                doc_list_exposed mode false from_id filter_data count is' ss' memory st
            done (
              ret,
              (
                (some (is'' ++ drop count is), (some (ss'' ++ drop count ss), cut ss' memory')),
                st',
              ),
            )
        ]
