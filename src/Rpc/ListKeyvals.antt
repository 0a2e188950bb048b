-- ===== src/Rpc/ListKeyvals.antt =====
-- `list_keyvals` from a client to a database: src/client/list_keyvals.cpp and
-- src/server/list_keyvals.cpp.
use mochi_yokan.Prelude.{
  ℕ, ◌+◌, ◌*◌, Bool, true, false, not, ◌||◌, Option, none, some, List, [], ◌++◌, ◌==◌, length, take,
  drop, replicate, wrap, if◌then◌else◌, Outcome, done, ◌>>=◌,
}
use mochi_yokan.Common.{Bytes, mode_no_rdma, has}
use mochi_yokan.Memory.{slice, cut, write, bytes_of}
use mochi_yokan.Filter.{Filter, Makers, make_filter}
use mochi_yokan.Database.{Database}
use mochi_yokan.Rpc.Codes.{
  Return, success, err_invalid_args, err_invalid_filter, err_mode, cast, is_success,
}
use mochi_yokan.Rpc.Call.{
  Transfer, Arrival, Network, with_database, with_buffer, transferred, sizes_at, forward, expose,
  array, gather, is_null, bytes_at, is_mode_valid,
}
use mochi_yokan.Rpc.Wire.{forward_out, Values, Room, decode_items, decode_values}
use mochi_yokan.Rpc.ListKeys.{ListRequest, pulled_if, is_lost}

-- The output is decoded in the order of its fields: both arrays of sizes, the keys, the values.
unfoldable pub decode_pairs : Values × Values → Room × Room → Option (Room × Room)
unfolding decode_values
decode_pairs ((ksizes, keys), (vsizes, vals)) ((ks, keys_memory), (vs, vals_memory)) =
    elim (decode_items ksizes ks) [
      | none ↦ none
      | some ks' ↦ elim (decode_items vsizes vs) [
        | none ↦ none
        | some vs' ↦ elim (decode_values ([], keys) (ks', keys_memory)) [
          | none ↦ none
          | some k ↦ elim (decode_values ([], vals) (vs', vals_memory)) [
            | none ↦ none
            | some v ↦ some (k, v)
          ]
        ]
      ]
    ]

abbrev no_pairs : Values × Values
no_pairs = (([], []), ([], []))

-- A pointer of the caller after a call that used the first `size` bytes there.
abbrev kept_behind : ℕ → Option Bytes → Bytes → Option Bytes
kept_behind size pointed memory =
    if is_null pointed then none else some (memory ++ drop size (bytes_at pointed))

module _ (transfer : Transfer) (makers : Makers) {S : Type 0} (d : Database S) where
  -- What the handler does with the memory that it pulled. It pushes the buffers whole.
  unfoldable pub list_keyvals_listed :
      ListRequest → ℕ → Bytes → S → Bytes → Outcome (Return × (Bytes × S))
  list_keyvals_listed r vals_buf_size bulk s memory =
      let ksizes_offset = wrap (r.from_ksize + r.filter_size) in
      let vsizes_offset = wrap (ksizes_offset + wrap (8 * r.count)) in
      let keys_offset = wrap (vsizes_offset + wrap (8 * r.count)) in
      let vals_offset = wrap (keys_offset + r.keys_buf_size) in
      do
        from_key ← slice memory 0 r.from_ksize
        filter_data ← slice memory r.from_ksize r.filter_size
        let listed : Filter → Outcome (Return × (Bytes × S)) = (λ f. do
          ksizes ← sizes_at r.count ksizes_offset memory
          vsizes ← sizes_at r.count vsizes_offset memory
          keys ← slice memory keys_offset r.keys_buf_size
          vals ← slice memory vals_offset vals_buf_size
          (status, ksizes', vsizes', (keys', keys_size), (vals', vals_size)) ←
              d.list_key_values r.mode r.packed from_key f keys ksizes vals vsizes s
          with_ksizes ← write memory ksizes_offset (bytes_of ksizes')
          with_vsizes ← write with_ksizes vsizes_offset (bytes_of vsizes')
          with_keys ← write with_vsizes keys_offset keys'
          memory' ← write with_keys vals_offset vals'
          let size = wrap (wrap (wrap (2 * r.count) * 8) + r.keys_buf_size + vals_buf_size)
          let pushed : Outcome (Return × (Bytes × S)) =
              transferred
                (transfer memory' ksizes_offset bulk (wrap (r.offset + ksizes_offset)) size)
                (λ bulk'. done (success, (bulk', s))) (bulk, s)
          if is_success (cast status) then pushed else done (cast status, (bulk, s)))
        elim (make_filter makers r.mode filter_data) [
          | none ↦ done (err_invalid_filter, (bulk, s))
          | some f ↦ listed f
        ]

  unfoldable pub list_keyvals_ult :
      Arrival → ListRequest → ℕ → Bytes × S → Outcome (Return × (Bytes × S))
  list_keyvals_ult a r vals_buf_size (bulk, s) =
      with_buffer a (d.supports_mode r.mode)
        (λ buffer.
          let sizes_size = if r.packed then 0 else wrap (wrap (2 * r.count) * 8) in
          let size = wrap (wrap (r.from_ksize + r.filter_size) + sizes_size) in
          pulled_if size (transfer bulk r.offset buffer 0 size) buffer
            (list_keyvals_listed r vals_buf_size bulk s) (bulk, s))
        (bulk, s)

  unfoldable pub list_keyvals_direct_ult :
      Arrival → ℕ → ℕ → Bytes → Bytes → ℕ → ℕ → S → Outcome (Return × ((Values × Values) × S))
  list_keyvals_direct_ult a mode count from_key filter_data keys_buf_size vals_buf_size s =
      with_database a true (d.supports_mode mode)
        (elim (make_filter makers mode filter_data) [
          | none ↦ done (err_invalid_filter, (no_pairs, s))
          | some f ↦ do
            (status, ksizes, vsizes, (keys, keys_size), (vals, vals_size)) ←
                d.list_key_values mode true from_key f (replicate keys_buf_size 0)
                  (replicate count 0) (replicate vals_buf_size 0) (replicate count 0) s
            let answer : Values × Values =
                (if is_success (cast status)
                  then ((ksizes, take keys_size keys), (vsizes, take vals_size vals))
                  else no_pairs)
            done (cast status, (answer, s))
        ])
        (no_pairs, s)

  module _ (net : Network) (a : Arrival) where
    -- The memory for the sizes, the keys and the values is part of the result.
    unfoldable pub list_keyvals_direct :
        ℕ
        → Option Bytes
        → ℕ
        → Option Bytes
        → ℕ
        → ℕ
        → Option Bytes
        → ℕ
        → List ℕ
        → Option Bytes
        → ℕ
        → List ℕ
        → S
        → Outcome (Return × ((Room × Room) × S))
    list_keyvals_direct mode from_key from_ksize filter filter_size count keys keys_buf_size ksizes
          values vals_buf_size vsizes s =
        let kept : Room × Room = ((ksizes, keys), (vsizes, values)) in
        if count == 0
        then done (success, (kept, s))
        else if is_lost from_key from_ksize || is_lost filter filter_size
        then done (err_invalid_args, (kept, s))
        else if not (is_mode_valid mode)
        then done (err_mode, (kept, s))
        else do
          from ← slice (bytes_at from_key) 0 from_ksize
          filter_data ← slice (bytes_at filter) 0 filter_size
          ks ← array count ksizes
          vs ← array count vsizes
          key_memory ← slice (bytes_at keys) 0 keys_buf_size
          val_memory ← slice (bytes_at values) 0 vals_buf_size
          let key_place : Option Bytes = (if is_null keys then none else some key_memory)
          let val_place : Option Bytes = (if is_null values then none else some val_memory)
          (ret, (((ks', key_place'), (vs', val_place')), s')) ←
              forward_out net decode_pairs
                (list_keyvals_direct_ult a mode count from filter_data keys_buf_size vals_buf_size)
                ((ks, key_place), (vs, val_place)) s
          done (
            ret,
            (
              (
                (ks' ++ drop count ksizes, kept_behind keys_buf_size keys (bytes_at key_place')),
                (vs' ++ drop count vsizes, kept_behind vals_buf_size values (bytes_at val_place')),
              ),
              s',
            ),
          )

    unfoldable pub list_keyvals_bulk : ListRequest → ℕ → Bytes × S → Outcome (Return × (Bytes × S))
    list_keyvals_bulk r vals_buf_size m =
        if r.count == 0
        then done (success, m)
        else if not (is_mode_valid r.mode)
        then done (err_mode, m)
        else forward net (list_keyvals_ult a r vals_buf_size) m

    -- The call on an exposed start and filter, and what it leaves in the memory for sizes, keys and
    -- values.
    unfoldable pub list_keyvals_exposed :
        ℕ
        → Bool
        → Bytes
        → Bytes
        → ℕ
        → Values
        → Values
        → S
        → Outcome (Return × ((Values × Values) × S))
    list_keyvals_exposed mode packed from filter_data count (ks, key_data) (vs, val_data) s = do
      let bulk = from ++ (filter_data ++ (bytes_of ks ++ (bytes_of vs ++ (key_data ++ val_data))))
      let r : ListRequest = record {
        mode = mode;
        packed = packed;
        count = count;
        from_ksize = length from;
        filter_size = length filter_data;
        offset = 0;
        keys_buf_size = length key_data;
      }
      (ret, (bulk', s')) ← expose net (list_keyvals_bulk r (length val_data) (bulk, s)) (bulk, s)
      let sizes_offset = length from + length filter_data
      ks' ← sizes_at count sizes_offset bulk'
      vs' ← sizes_at count (sizes_offset + 8 * count) bulk'
      key_data' ← slice bulk' (sizes_offset + 16 * count) (length key_data)
      val_data' ← slice bulk' (sizes_offset + 16 * count + length key_data) (length val_data)
      done (ret, (((ks', key_data'), (vs', val_data')), s'))

    unfoldable pub list_keyvals_packed :
        ℕ
        → Option Bytes
        → ℕ
        → Option Bytes
        → ℕ
        → ℕ
        → Option Bytes
        → ℕ
        → List ℕ
        → Option Bytes
        → ℕ
        → List ℕ
        → S
        → Outcome (Return × ((Room × Room) × S))
    list_keyvals_packed mode from_key from_ksize filter filter_size count keys keys_buf_size ksizes
          values vals_buf_size vsizes s =
        let kept : Room × Room = ((ksizes, keys), (vsizes, values)) in
        if has mode mode_no_rdma
        then list_keyvals_direct mode from_key from_ksize filter filter_size count keys
            keys_buf_size ksizes values vals_buf_size vsizes s
        else if count == 0
        then done (success, (kept, s))
        else if is_lost from_key from_ksize || is_lost filter filter_size
        then done (err_invalid_args, (kept, s))
        else do
          from ← slice (bytes_at from_key) 0 from_ksize
          filter_data ← slice (bytes_at filter) 0 filter_size
          ks ← array count ksizes
          vs ← array count vsizes
          key_memory ← slice (bytes_at keys) 0 keys_buf_size
          val_memory ← slice (bytes_at values) 0 vals_buf_size
          (ret, (((ks', key_memory'), (vs', val_memory')), s')) ←
              list_keyvals_exposed mode true from filter_data count (ks, key_memory)
                (vs, val_memory) s
          done (
            ret,
            (
              (
                (ks' ++ drop count ksizes, kept_behind keys_buf_size keys key_memory'),
                (vs' ++ drop count vsizes, kept_behind vals_buf_size values val_memory'),
              ),
              s',
            ),
          )

    -- `yk_list_keyvals`: the segments for keys and values are where the pointers say, and their bytes
    -- part of the result. One of no bytes is left out.
    unfoldable pub list_keyvals_each :
        ℕ
        → Option Bytes
        → ℕ
        → Option Bytes
        → ℕ
        → ℕ
        → List (Option Bytes)
        → List ℕ
        → List (Option Bytes)
        → List ℕ
        → S
        → Outcome (Return × (((List ℕ × List Bytes) × (List ℕ × List Bytes)) × S))
    list_keyvals_each mode from_key from_ksize filter filter_size count keys ksizes values vsizes
          s =
        if count == 0
        then done (success, (((ksizes, []), (vsizes, [])), s))
        else if is_lost from_key from_ksize || is_lost filter filter_size
        then done (err_invalid_args, (((ksizes, []), (vsizes, [])), s))
        else do
          from ← slice (bytes_at from_key) 0 from_ksize
          filter_data ← slice (bytes_at filter) 0 filter_size
          ks ← array count ksizes
          vs ← array count vsizes
          key_memory ← gather keys ks
          val_memory ← gather values vs
          (ret, (((ks', key_memory'), (vs', val_memory')), s')) ←
              list_keyvals_exposed mode false from filter_data count (ks, key_memory)
                (vs, val_memory) s
          done (
            ret,
            (
              (
                (ks' ++ drop count ksizes, cut ks key_memory'),
                (vs' ++ drop count vsizes, cut vs val_memory'),
              ),
              s',
            ),
          )
