-- ===== src/Rpc/Get.antt =====
-- `get` from a client to a database: src/client/get.cpp and src/server/get.cpp.
pub mod Remote
use mochi_yokan.Prelude.{
  ℕ, ◌+◌, ◌-◌, ◌*◌, Bool, true, false, not, ◌&&◌, Option, none, some, List, [], ◌∷◌, ◌++◌, ltb,
  ◌==◌, length, take, drop, replicate, wrap, if◌then◌else◌, Outcome, done, ◌>>=◌,
}
use mochi_yokan.Common.{Bytes, key_not_found, size_too_small, mode_no_rdma, has}
use mochi_yokan.Memory.{slice, cut, write, total, bytes_of}
use mochi_yokan.Database.{Database, Reply}
use mochi_yokan.Rpc.Codes.{
  Return, success, err_invalid_args, err_from_mercury, err_key_not_found, err_buffer_size, err_mode,
  cast, is_success,
}
use mochi_yokan.Rpc.Call.{
  Transfer, Arrival, Network, Request, with_database, with_buffer, transferred, pull_keys,
  has_empty_key, sizes_at, forward, expose, array, all_three, both, gather, has_zero, first,
  sizes_of, is_null, bytes_at, is_mode_valid,
}
use mochi_yokan.Rpc.Wire.{forward_out, Values, Room, decode_values}

module _ (transfer : Transfer) {S : Type 0} (d : Database S) where
  -- Whether the memory is too small for what precedes the values, or, if they are not packed, for the
  -- sizes that they are given.
  unfoldable pub get_short : Request → Bool → Bytes → ℕ → Outcome Bool
  get_short r packed memory total_ksize =
      let vals_offset = wrap (wrap (wrap (8 * r.count) * 2) + total_ksize) in
      if ltb r.size vals_offset then done true else if packed then done false else do
        vsizes ← sizes_at r.count (wrap (8 * r.count)) memory
        done (ltb r.size (wrap (vals_offset + total vsizes 0)))

  -- What `yk_get_ult` does once it has the keys: it pushes all of the memory behind the keys, and the
  -- sizes. The two pushes are concurrent there; one that fails does so here when it is issued.
  unfoldable pub get_values :
      Request → Bool → Bytes → S → Bytes → List ℕ → ℕ → Outcome (Return × (Bytes × S))
  get_values r packed bulk s memory ksizes total_ksize =
      let vsizes_offset = wrap (8 * r.count) in
      let keys_offset = wrap (wrap (8 * r.count) * 2) in
      let vals_offset = keys_offset + total_ksize in
      let remaining = r.size - vals_offset in
      do
        keys ← slice memory keys_offset total_ksize
        vals ← slice memory vals_offset remaining
        vsizes ← sizes_at r.count vsizes_offset memory
        (status, reply, s') ← d.get r.mode packed keys ksizes vals vsizes s
        with_vals ← write memory vals_offset reply.vals
        memory' ← write with_vals vsizes_offset (bytes_of reply.vsizes)
        let push_sizes : Bytes → Outcome (Return × (Bytes × S)) = (λ bulk₁.
            transferred
              (transfer memory' vsizes_offset bulk₁ (wrap (r.offset + vsizes_offset))
                (wrap (8 * r.count)))
              (λ bulk₂. done (success, (bulk₂, s'))) (bulk₁, s'))
        let pushed : Outcome (Return × (Bytes × S)) =
            (if reply.vals_size == 0
              then push_sizes bulk
              else transferred
                  (transfer memory' vals_offset bulk (wrap (r.offset + vals_offset)) remaining)
                  push_sizes (bulk, s'))
        if is_success (cast status) then pushed else done (cast status, (bulk, s'))

  unfoldable pub get_ult : Arrival → Request → Bool → Bytes × S → Outcome (Return × (Bytes × S))
  get_ult a r packed (bulk, s) =
      with_buffer a (d.supports_mode r.mode)
        (λ buffer.
          let sizes_size = if packed then wrap (8 * r.count) else wrap (wrap (8 * r.count) * 2) in
          pull_keys transfer r sizes_size (wrap (wrap (8 * r.count) * 2)) (get_short r packed)
            buffer bulk (get_values r packed bulk s) (bulk, s))
        (bulk, s)

  -- Only a successful answer has values.
  unfoldable pub get_direct_ult :
      Arrival → ℕ → Bytes → List ℕ → ℕ → S → Outcome (Return × (Values × S))
  get_direct_ult a mode keys ksizes vbufsize s =
      with_database a true (d.supports_mode mode)
        (if has_empty_key ksizes then done (err_invalid_args, (([], []), s)) else do
          (status, reply, s') ←
              d.get mode true keys ksizes (replicate vbufsize 0) (replicate (length ksizes) 0) s
          let answer : Values =
              (if is_success (cast status)
                then (reply.vsizes, take reply.vals_size reply.vals)
                else ([], []))
          done (cast status, (answer, s')))
        (([], []), s)

  module _ (net : Network) (a : Arrival) where
    -- The memory for the sizes and the values, of which the first `vbufsize` bytes are used, is part of
    -- the result.
    unfoldable pub get_direct :
        ℕ
        → ℕ
        → Option Bytes
        → Option (List ℕ)
        → ℕ
        → Option Bytes
        → Option (List ℕ)
        → S
        → Outcome (Return × ((Option (List ℕ) × Option Bytes) × S))
    get_direct mode count keys ksizes vbufsize values vsizes s =
        if count == 0
        then done (success, ((vsizes, values), s))
        else elim (all_three keys ksizes vsizes) [
          | none ↦ done (err_invalid_args, ((vsizes, values), s))
          | some (k, ks, vs) ↦
              if is_null values && not (vbufsize == 0)
              then done (err_invalid_args, ((vsizes, values), s))
              else if not (is_mode_valid mode)
              then done (err_mode, ((vsizes, values), s))
              else do
                ks' ← array count ks
                vs' ← array count vs
                key_data ← slice k 0 (total ks' 0)
                memory ← slice (bytes_at values) 0 vbufsize
                let kept = drop vbufsize (bytes_at values)
                let place : Option Bytes = (if is_null values then none else some memory)
                (ret, ((vs'', place'), s')) ←
                    forward_out net decode_values (get_direct_ult a mode key_data ks' vbufsize)
                      (vs', place) s
                let values' : Option Bytes =
                    (if is_null values then none else some (bytes_at place' ++ kept))
                done (ret, ((some vs'', values'), s'))
        ]

    unfoldable pub get_bulk : Request → Bool → Bytes × S → Outcome (Return × (Bytes × S))
    get_bulk r packed m =
        if not (r.count == 0) && (r.size == 0)
        then done (err_invalid_args, m)
        else if not (is_mode_valid r.mode)
        then done (err_mode, m)
        else forward net (get_ult a r packed) m

    -- The call on exposed keys, and what it leaves in the memory for the sizes and the values.
    unfoldable pub get_exposed :
        ℕ → ℕ → Bool → Bytes → List ℕ → Bytes → List ℕ → S → Outcome (Return × (Values × S))
    get_exposed mode count packed key_data ks val_data vs s = do
      let size = wrap (8 * count + 8 * count + total ks 0 + length val_data)
      let bulk = bytes_of ks ++ (bytes_of vs ++ (key_data ++ val_data))
      (ret, (bulk', s')) ←
          expose net
            (get_bulk (record { mode = mode; count = count; offset = 0; size = size }) packed
              (bulk, s))
            (bulk, s)
      vs' ← sizes_at count (8 * count) bulk'
      val_data' ← slice bulk' (16 * count + total ks 0) (length val_data)
      done (ret, ((vs', val_data'), s'))

    unfoldable pub get_packed :
        ℕ
        → ℕ
        → Option Bytes
        → Option (List ℕ)
        → ℕ
        → Option Bytes
        → Option (List ℕ)
        → S
        → Outcome (Return × ((Option (List ℕ) × Option Bytes) × S))
    get_packed mode count keys ksizes vbufsize values vsizes s =
        if has mode mode_no_rdma
        then get_direct mode count keys ksizes vbufsize values vsizes s
        else if count == 0
        then done (success, ((vsizes, values), s))
        else elim (all_three keys ksizes vsizes) [
          | none ↦ done (err_invalid_args, ((vsizes, values), s))
          | some (k, ks, vs) ↦
              if is_null values && not (vbufsize == 0)
              then done (err_invalid_args, ((vsizes, values), s))
              else do
                ks' ← array count ks
                vs' ← array count vs
                let sent : Outcome (Return × ((Option (List ℕ) × Option Bytes) × S)) = (do
                  key_data ← slice k 0 (total ks' 0)
                  memory ← slice (bytes_at values) 0 vbufsize
                  (ret, ((vs'', memory'), s')) ←
                      get_exposed mode count true key_data ks' memory vs' s
                  let kept = drop vbufsize (bytes_at values)
                  let values' : Option Bytes =
                      (if is_null values then none else some (memory' ++ kept))
                  done (ret, ((some vs'', values'), s')))
                if total ks' 0 == 0 then done (err_invalid_args, ((vsizes, values), s)) else sent
        ]

    -- The segments for the values are where the pointers say; their bytes are part of the result.
    unfoldable pub get_multi :
        ℕ
        → ℕ
        → Option (List (Option Bytes))
        → Option (List ℕ)
        → Option (List (Option Bytes))
        → Option (List ℕ)
        → S
        → Outcome (Return × ((Option (List ℕ) × List Bytes) × S))
    get_multi mode count keys ksizes values vsizes s =
        if count == 0
        then done (success, ((vsizes, []), s))
        else elim (both (both keys ksizes) (both values vsizes)) [
          | none ↦ done (err_invalid_args, ((vsizes, []), s))
          | some ((ps, ks), (qs, vs)) ↦ do
            ks' ← array count ks
            vs' ← array count vs
            let sent : Outcome (Return × ((Option (List ℕ) × List Bytes) × S)) = (do
              key_data ← gather ps ks'
              memory ← gather qs vs'
              (ret, ((vs'', memory'), s')) ← get_exposed mode count false key_data ks' memory vs' s
              done (ret, ((some vs'', cut vs' memory'), s')))
            if has_zero ks' then done (err_invalid_args, ((vsizes, []), s)) else sent
        ]

    -- `yk_get`
    unfoldable pub get_one :
        ℕ → Option Bytes → ℕ → Option Bytes → ℕ → S → Outcome (Return × ((ℕ × Option Bytes) × S))
    get_one mode key ksize value vsize s =
        if ksize == 0 then done (err_invalid_args, ((vsize, value), s)) else do
          (ret, ((vsizes, value'), s')) ←
              get_packed mode 1 key (some (ksize ∷ [])) vsize value (some (vsize ∷ [])) s
          vsize' ← first (sizes_of vsizes)
          let found =
              if vsize' == size_too_small
              then err_buffer_size
              else if vsize' == key_not_found
              then err_key_not_found
              else success
          done ((if is_success ret then found else ret), ((vsize', value'), s'))
