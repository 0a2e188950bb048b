-- ===== src/Rpc/Length.antt =====
-- `length` from a client to a database: src/client/length.cpp and src/server/length.cpp.
pub mod Remote
use mochi_yokan.Prelude.{
  ℕ, ◌+◌, ◌*◌, Bool, true, not, ◌&&◌, Option, none, some, List, [], ◌∷◌, ◌++◌, ltb, ◌==◌, length,
  replicate, wrap, if◌then◌else◌, Outcome, done, ◌>>=◌,
}
use mochi_yokan.Common.{Bytes, key_not_found, mode_no_rdma, has}
use mochi_yokan.Memory.{slice, write, total, bytes_of}
use mochi_yokan.Database.{Database}
use mochi_yokan.Rpc.Codes.{
  Return, success, err_invalid_args, err_from_mercury, err_key_not_found, err_mode, cast,
  is_success,
}
use mochi_yokan.Rpc.Call.{
  Transfer, Arrival, Network, Request, with_database, with_buffer, transferred, pull_keys,
  has_empty_key, sizes_at, forward, expose, array, all_three, gather, has_zero, first, sizes_of,
  is_mode_valid,
}
use mochi_yokan.Rpc.Wire.{decode_items, forward_out}

module _ (transfer : Transfer) {S : Type 0} (d : Database S) where
  -- The state of the call is the memory that the client exposes and that of the database.
  unfoldable pub length_ult : Arrival → Request → Bytes × S → Outcome (Return × (Bytes × S))
  length_ult a r (bulk, s) =
      with_buffer a (d.supports_mode r.mode)
        (λ buffer.
          pull_keys transfer r (wrap (8 * r.count)) (wrap (8 * r.count))
            (λ memory total_ksize.
              done
                (ltb r.size (wrap (wrap (wrap (8 * r.count) + total_ksize) + wrap (8 * r.count)))))
            buffer bulk
            (λ memory ksizes total_ksize. do
              let vsizes_offset = wrap (8 * r.count) + total_ksize
              keys ← slice memory (wrap (8 * r.count)) total_ksize
              vsizes ← sizes_at r.count vsizes_offset memory
              (status, vsizes', s') ← d.value_lengths r.mode keys ksizes vsizes s
              memory' ← write memory vsizes_offset (bytes_of vsizes')
              let pushed : Outcome (Return × (Bytes × S)) =
                  transferred
                    (transfer memory' vsizes_offset bulk (wrap (r.offset + vsizes_offset))
                      (wrap (8 * r.count)))
                    (λ bulk'. done (success, (bulk', s'))) (bulk, s')
              if is_success (cast status) then pushed else done (cast status, (bulk, s')))
            (bulk, s))
        (bulk, s)

  -- The output is the sizes, none of them unless the input was read.
  unfoldable pub length_direct_ult :
      Arrival → ℕ → Bytes → List ℕ → S → Outcome (Return × (List ℕ × S))
  length_direct_ult a mode keys ksizes s =
      let fresh : List ℕ = replicate (length ksizes) 0 in
      let early : List ℕ =
        if a.instance_found && (a.provider_found && a.input_decoded) then fresh else [] in
      with_database a true (d.supports_mode mode)
        (if has_empty_key ksizes then done (err_invalid_args, (fresh, s)) else do
          (status, vsizes, s') ← d.value_lengths mode keys ksizes fresh s
          done (cast status, (vsizes, s')))
        (early, s)

  module _ (net : Network) (a : Arrival) where
    -- The memory for the sizes of the values is part of the result.
    unfoldable pub length_direct :
        ℕ
        → ℕ
        → Option Bytes
        → Option (List ℕ)
        → Option (List ℕ)
        → S
        → Outcome (Return × (Option (List ℕ) × S))
    length_direct mode count keys ksizes vsizes s =
        if count == 0 then done (success, (vsizes, s)) else elim (all_three keys ksizes vsizes) [
          | none ↦ done (err_invalid_args, (vsizes, s))
          | some (k, ks, vs) ↦ if not (is_mode_valid mode) then done (err_mode, (vsizes, s)) else do
            ks' ← array count ks
            vs' ← array count vs
            key_data ← slice k 0 (total ks' 0)
            (ret, (vs'', s')) ←
                forward_out net decode_items (length_direct_ult a mode key_data ks') vs' s
            done (ret, (some vs'', s'))
        ]

    unfoldable pub length_bulk : Request → Bytes × S → Outcome (Return × (Bytes × S))
    length_bulk r m =
        if not (r.count == 0) && (r.size == 0)
        then done (err_invalid_args, m)
        else if not (is_mode_valid r.mode)
        then done (err_mode, m)
        else forward net (length_ult a r) m

    -- The call on exposed keys, and the sizes of the values that it leaves behind them.
    unfoldable pub length_exposed :
        ℕ → ℕ → Bytes → List ℕ → List ℕ → S → Outcome (Return × (Option (List ℕ) × S))
    length_exposed mode count key_data ks vs s = do
      let size = wrap (8 * count + total ks 0 + 8 * count)
      let bulk = bytes_of ks ++ (key_data ++ bytes_of vs)
      (ret, (bulk', s')) ←
          expose net
            (length_bulk (record { mode = mode; count = count; offset = 0; size = size }) (bulk, s))
            (bulk, s)
      vs' ← sizes_at count (8 * count + total ks 0) bulk'
      done (ret, (some vs', s'))

    unfoldable pub length_packed :
        ℕ
        → ℕ
        → Option Bytes
        → Option (List ℕ)
        → Option (List ℕ)
        → S
        → Outcome (Return × (Option (List ℕ) × S))
    length_packed mode count keys ksizes vsizes s =
        if has mode mode_no_rdma
        then length_direct mode count keys ksizes vsizes s
        else if count == 0
        then done (success, (vsizes, s))
        else elim (all_three keys ksizes vsizes) [
          | none ↦ done (err_invalid_args, (vsizes, s))
          | some (k, ks, vs) ↦ do
            ks' ← array count ks
            vs' ← array count vs
            let sent : Outcome (Return × (Option (List ℕ) × S)) = (do
              key_data ← slice k 0 (total ks' 0)
              length_exposed mode count key_data ks' vs' s)
            if total ks' 0 == 0 then done (err_invalid_args, (vsizes, s)) else sent
        ]

    unfoldable pub length_multi :
        ℕ
        → ℕ
        → Option (List (Option Bytes))
        → Option (List ℕ)
        → Option (List ℕ)
        → S
        → Outcome (Return × (Option (List ℕ) × S))
    length_multi mode count keys ksizes vsizes s =
        if count == 0 then done (success, (vsizes, s)) else elim (all_three keys ksizes vsizes) [
          | none ↦ done (err_invalid_args, (vsizes, s))
          | some (ps, ks, vs) ↦ do
            ks' ← array count ks
            vs' ← array count vs
            let one : Outcome (Return × (Option (List ℕ) × S)) = (do
              p ← first ps
              length_direct mode count p (some ks) (some vs) s)
            let packed : Outcome (Return × (Option (List ℕ) × S)) = (do
              key_data ← gather ps ks'
              length_direct mode count (some key_data) (some ks) (some vs) s)
            let sent : Outcome (Return × (Option (List ℕ) × S)) = (do
              key_data ← gather ps ks'
              length_exposed mode count key_data ks' vs' s)
            if has mode mode_no_rdma
                then if count == 1 then one else packed
                else if has_zero ks'
                then done (err_invalid_args, (vsizes, s))
                else sent
        ]

    -- `yk_length`
    unfoldable pub length_one : ℕ → Option Bytes → ℕ → ℕ → S → Outcome (Return × (ℕ × S))
    length_one mode key ksize vsize s =
        if ksize == 0 then done (err_invalid_args, (vsize, s)) else do
          (ret, (vsizes, s')) ← length_packed mode 1 key (some (ksize ∷ [])) (some (vsize ∷ [])) s
          vsize' ← first (sizes_of vsizes)
          let missing = is_success ret && (vsize' == key_not_found)
          done ((if missing then err_key_not_found else ret), (vsize', s'))
