-- ===== src/Rpc/ListKeys.antt =====
-- `list_keys` from a client to a database: src/client/list_keys.cpp and src/server/list_keys.cpp.
pub mod Direct
pub mod Remote
pub mod OverMap
use mochi_yokan.Prelude.{
  ℕ, ◌+◌, ◌*◌, Bool, true, false, not, ◌&&◌, ◌||◌, Option, none, some, List, [], ◌++◌, ltb, ◌==◌,
  length, take, drop, replicate, wrap, if◌then◌else◌, Outcome, done, ◌>>=◌,
}
use mochi_yokan.Common.{Bytes, mode_no_rdma, has}
use mochi_yokan.Memory.{slice, cut, write, total, bytes_of}
use mochi_yokan.Filter.{Filter, Makers, make_filter}
use mochi_yokan.Database.{Database}
use mochi_yokan.Rpc.Codes.{
  Return, success, err_invalid_args, err_invalid_filter, err_mode, cast, is_success,
}
use mochi_yokan.Rpc.Call.{
  Transfer, Arrival, Network, with_database, with_buffer, transferred, sizes_at, forward, expose,
  array, gather, has_zero, is_null, bytes_at, is_mode_valid,
}
use mochi_yokan.Rpc.Wire.{forward_out, Values, Room, decode_values}

-- `list_keys_in_t`, without the identifiers.
pub record ListRequest : Type 0 where
  pub mode : ℕ
  pub packed : Bool
  pub count : ℕ
  pub from_ksize : ℕ
  pub filter_size : ℕ
  pub offset : ℕ
  pub keys_buf_size : ℕ

-- A pull of no bytes is left out.
abbrev pub pulled_if {ℓ} :
    {S : Type ℓ}
    → ℕ
    → Option Bytes
    → Bytes
    → (Bytes → Outcome (Return × S))
    → S
    → Outcome (Return × S)
pulled_if size result buffer call s = if ltb 0 size then transferred result call s else call buffer

-- A key or a filter that is null must have no bytes.
abbrev pub is_lost : Option Bytes → ℕ → Bool
is_lost pointed size = is_null pointed && ltb 0 size

module _ (transfer : Transfer) (makers : Makers) {S : Type 0} (d : Database S) where
  -- What the handler does with the memory that it pulled.
  unfoldable pub list_keys_listed : ListRequest → Bytes → S → Bytes → Outcome (Return × (Bytes × S))
  list_keys_listed r bulk s memory =
      let ksizes_offset = wrap (r.from_ksize + r.filter_size) in
      let keys_offset = wrap (ksizes_offset + wrap (8 * r.count)) in
      do
        from_key ← slice memory 0 r.from_ksize
        filter_data ← slice memory r.from_ksize r.filter_size
        let listed : Filter → Outcome (Return × (Bytes × S)) = (λ f. do
          ksizes ← sizes_at r.count ksizes_offset memory
          keys ← slice memory keys_offset r.keys_buf_size
          (status, ksizes', keys', keys_size) ← d.list_keys r.mode r.packed from_key f keys ksizes s
          with_sizes ← write memory ksizes_offset (bytes_of ksizes')
          memory' ← write with_sizes keys_offset keys'
          let pushed : Outcome (Return × (Bytes × S)) =
              transferred
                (transfer memory' ksizes_offset bulk (wrap (r.offset + ksizes_offset))
                  (wrap (wrap (8 * r.count) + keys_size)))
                (λ bulk'. done (success, (bulk', s))) (bulk, s)
          if is_success (cast status) then pushed else done (cast status, (bulk, s)))
        elim (make_filter makers r.mode filter_data) [
          | none ↦ done (err_invalid_filter, (bulk, s))
          | some f ↦ listed f
        ]

  unfoldable pub list_keys_ult : Arrival → ListRequest → Bytes × S → Outcome (Return × (Bytes × S))
  list_keys_ult a r (bulk, s) =
      with_buffer a (d.supports_mode r.mode)
        (λ buffer.
          let sizes_size = if r.packed then 0 else wrap (8 * r.count) in
          let size = wrap (wrap (r.from_ksize + r.filter_size) + sizes_size) in
          pulled_if size (transfer bulk r.offset buffer 0 size) buffer (list_keys_listed r bulk s)
            (bulk, s))
        (bulk, s)

  unfoldable pub list_keys_direct_ult :
      Arrival → ℕ → ℕ → Bytes → Bytes → ℕ → S → Outcome (Return × (Values × S))
  list_keys_direct_ult a mode count from_key filter_data keys_buf_size s =
      with_database a true (d.supports_mode mode)
        (elim (make_filter makers mode filter_data) [
          | none ↦ done (err_invalid_filter, (([], []), s))
          | some f ↦ do
            (status, ksizes, keys, keys_size) ←
                d.list_keys mode true from_key f (replicate keys_buf_size 0) (replicate count 0) s
            let answer : Values =
                (if is_success (cast status) then (ksizes, take keys_size keys) else ([], []))
            done (cast status, (answer, s))
        ])
        (([], []), s)

  module _ (net : Network) (a : Arrival) where
    -- The first `keys_buf_size` bytes at `keys` and the first `count` sizes are for the answer. They are
    -- part of the result; a null `keys` stays null.
    unfoldable pub list_keys_direct :
        ℕ
        → Option Bytes
        → ℕ
        → Option Bytes
        → ℕ
        → ℕ
        → Option Bytes
        → ℕ
        → List ℕ
        → S
        → Outcome (Return × (Room × S))
    list_keys_direct mode from_key from_ksize filter filter_size count keys keys_buf_size ksizes s =
        if count == 0
        then done (success, ((ksizes, keys), s))
        else if is_lost from_key from_ksize || is_lost filter filter_size
        then done (err_invalid_args, ((ksizes, keys), s))
        else if not (is_mode_valid mode)
        then done (err_mode, ((ksizes, keys), s))
        else do
          from ← slice (bytes_at from_key) 0 from_ksize
          filter_data ← slice (bytes_at filter) 0 filter_size
          ks ← array count ksizes
          memory ← slice (bytes_at keys) 0 keys_buf_size
          let place : Option Bytes = (if is_null keys then none else some memory)
          (ret, ((ks', place'), s')) ←
              forward_out net decode_values
                (list_keys_direct_ult a mode count from filter_data keys_buf_size) (ks, place) s
          let kept = drop keys_buf_size (bytes_at keys)
          let keys' : Option Bytes = (if is_null keys then none else some (bytes_at place' ++ kept))
          done (ret, ((ks' ++ drop count ksizes, keys'), s'))

    unfoldable pub list_keys_bulk : ListRequest → Bytes × S → Outcome (Return × (Bytes × S))
    list_keys_bulk r m =
        if r.count == 0
        then done (success, m)
        else if not (is_mode_valid r.mode)
        then done (err_mode, m)
        else forward net (list_keys_ult a r) m

    -- The call on an exposed start and filter, and what it leaves in the memory for sizes and keys.
    unfoldable pub list_keys_exposed :
        ℕ → Bool → Bytes → Bytes → ℕ → List ℕ → Bytes → S → Outcome (Return × (Values × S))
    list_keys_exposed mode packed from filter_data count ks key_data s = do
      let bulk = from ++ (filter_data ++ (bytes_of ks ++ key_data))
      let r : ListRequest = record {
        mode = mode;
        packed = packed;
        count = count;
        from_ksize = length from;
        filter_size = length filter_data;
        offset = 0;
        keys_buf_size = length key_data;
      }
      (ret, (bulk', s')) ← expose net (list_keys_bulk r (bulk, s)) (bulk, s)
      ks' ← sizes_at count (length from + length filter_data) bulk'
      key_data' ← slice bulk' (length from + length filter_data + 8 * count) (length key_data)
      done (ret, ((ks', key_data'), s'))

    unfoldable pub list_keys_packed :
        ℕ
        → Option Bytes
        → ℕ
        → Option Bytes
        → ℕ
        → ℕ
        → Option Bytes
        → ℕ
        → List ℕ
        → S
        → Outcome (Return × (Room × S))
    list_keys_packed mode from_key from_ksize filter filter_size count keys keys_buf_size ksizes s =
        if has mode mode_no_rdma
        then list_keys_direct mode from_key from_ksize filter filter_size count keys keys_buf_size
            ksizes s
        else if count == 0
        then done (success, ((ksizes, keys), s))
        else if is_lost from_key from_ksize || is_lost filter filter_size
        then done (err_invalid_args, ((ksizes, keys), s))
        else do
          from ← slice (bytes_at from_key) 0 from_ksize
          filter_data ← slice (bytes_at filter) 0 filter_size
          ks ← array count ksizes
          memory ← slice (bytes_at keys) 0 keys_buf_size
          (ret, ((ks', memory'), s')) ←
              list_keys_exposed mode true from filter_data count ks memory s
          let kept = drop keys_buf_size (bytes_at keys)
          let keys' : Option Bytes = (if is_null keys then none else some (memory' ++ kept))
          done (ret, ((ks' ++ drop count ksizes, keys'), s'))

    -- `yk_list_keys`: the segments for the keys are where the pointers say, and their bytes part of the
    -- result.
    unfoldable pub list_keys_each :
        ℕ
        → Option Bytes
        → ℕ
        → Option Bytes
        → ℕ
        → ℕ
        → List (Option Bytes)
        → List ℕ
        → S
        → Outcome (Return × ((List ℕ × List Bytes) × S))
    list_keys_each mode from_key from_ksize filter filter_size count keys ksizes s =
        if count == 0
        then done (success, ((ksizes, []), s))
        else if is_lost from_key from_ksize || is_lost filter filter_size
        then done (err_invalid_args, ((ksizes, []), s))
        else do
          from ← slice (bytes_at from_key) 0 from_ksize
          filter_data ← slice (bytes_at filter) 0 filter_size
          ks ← array count ksizes
          let sent : Outcome (Return × ((List ℕ × List Bytes) × S)) = (do
            memory ← gather keys ks
            (ret, ((ks', memory'), s')) ←
                list_keys_exposed mode false from filter_data count ks memory s
            done (ret, ((ks' ++ drop count ksizes, cut ks memory'), s')))
          if has_zero ks then done (err_invalid_args, ((ksizes, []), s)) else sent
