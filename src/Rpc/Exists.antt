-- ===== src/Rpc/Exists.antt =====
-- `exists` from a client to a database: src/client/exists.cpp and src/server/exists.cpp.
pub mod Remote
use mochi_yokan.Prelude.{
  ℕ, ◌+◌, ◌*◌, ◌/◌, Bool, true, not, ◌&&◌, Option, none, some, List, [], ◌∷◌, ◌++◌, ltb, ◌==◌,
  length, take, drop, replicate, wrap, if◌then◌else◌, Outcome, done, ◌>>=◌,
}
use mochi_yokan.Common.{Bytes, mode_no_rdma, has}
use mochi_yokan.BitField.{BitField}
use mochi_yokan.Memory.{slice, write, total, bytes_of}
use mochi_yokan.Database.{Database}
use mochi_yokan.Rpc.Codes.{
  Return, success, err_invalid_args, err_from_mercury, err_mode, cast, is_success,
}
use mochi_yokan.Rpc.Call.{
  Transfer, Arrival, Network, Request, with_database, with_buffer, transferred, pull_keys,
  has_empty_key, forward, expose, array, all_three, gather, has_zero, first, is_mode_valid,
}
use mochi_yokan.Rpc.Wire.{decode_items, forward_out}

-- `std::ceil(((double)count)/8.0)`, for a count that a double has exactly.
abbrev pub flags_size : ℕ → ℕ
flags_size count = (count + 7) / 8

module _ (transfer : Transfer) {S : Type 0} (d : Database S) where
  unfoldable pub exists_ult : Arrival → Request → Bytes × S → Outcome (Return × (Bytes × S))
  exists_ult a r (bulk, s) =
      with_buffer a (d.supports_mode r.mode)
        (λ buffer.
          pull_keys transfer r (wrap (8 * r.count)) (wrap (8 * r.count))
            (λ memory total_ksize.
              done
                (ltb r.size (wrap (wrap (wrap (8 * r.count) + total_ksize) + flags_size r.count))))
            buffer bulk
            (λ memory ksizes total_ksize. do
              let flags_offset = wrap (8 * r.count) + total_ksize
              keys ← slice memory (wrap (8 * r.count)) total_ksize
              blank ← write memory flags_offset (replicate (flags_size r.count) 0)
              flags ← slice blank flags_offset (flags_size r.count)
              (status, f, s') ←
                  d.exists r.mode keys ksizes (record { bytes = flags; size = r.count }) s
              memory' ← write blank flags_offset f.bytes
              let pushed : Outcome (Return × (Bytes × S)) =
                  transferred
                    (transfer memory' flags_offset bulk (wrap (r.offset + flags_offset))
                      (flags_size r.count))
                    (λ bulk'. done (success, (bulk', s'))) (bulk, s')
              if is_success (cast status) then pushed else done (cast status, (bulk, s')))
            (bulk, s))
        (bulk, s)

  unfoldable pub exists_direct_ult :
      Arrival → ℕ → Bytes → List ℕ → S → Outcome (Return × (Bytes × S))
  exists_direct_ult a mode keys ksizes s =
      with_database a true (d.supports_mode mode)
        (if has_empty_key ksizes then done (err_invalid_args, ([], s)) else do
          let count = length ksizes
          (status, f, s') ←
              d.exists mode keys ksizes
                (record { bytes = replicate (flags_size count) 0; size = count }) s
          done (cast status, (f.bytes, s')))
        ([], s)

  module _ (net : Network) (a : Arrival) where
    -- `flags` is what the client has at the pointer, of which `flags_size` bytes are for the answer.
    unfoldable pub exists_direct :
        ℕ
        → ℕ
        → Option Bytes
        → Option (List ℕ)
        → Option Bytes
        → S
        → Outcome (Return × (Option Bytes × S))
    exists_direct mode count keys ksizes flags s =
        if count == 0 then done (success, (flags, s)) else elim (all_three keys ksizes flags) [
          | none ↦ done (err_invalid_args, (flags, s))
          | some (k, ks, fs) ↦ if not (is_mode_valid mode) then done (err_mode, (flags, s)) else do
            ks' ← array count ks
            fs' ← array (flags_size count) fs
            key_data ← slice k 0 (total ks' 0)
            (ret, (fs'', s')) ←
                forward_out net decode_items (exists_direct_ult a mode key_data ks') fs' s
            done (ret, (some (fs'' ++ drop (flags_size count) fs), s'))
        ]

    unfoldable pub exists_bulk : Request → Bytes × S → Outcome (Return × (Bytes × S))
    exists_bulk r m =
        if not (r.count == 0) && (r.size == 0)
        then done (err_invalid_args, m)
        else if not (is_mode_valid r.mode)
        then done (err_mode, m)
        else forward net (exists_ult a r) m

    -- The call on exposed keys and `count` bytes of flags, and what it leaves in them.
    unfoldable pub exists_exposed :
        ℕ → ℕ → Bytes → List ℕ → Bytes → S → Outcome (Return × (Bytes × S))
    exists_exposed mode count key_data ks flag_data s = do
      let size = wrap (8 * count + total ks 0 + count)
      let bulk = bytes_of ks ++ (key_data ++ flag_data)
      (ret, (bulk', s')) ←
          expose net
            (exists_bulk (record { mode = mode; count = count; offset = 0; size = size }) (bulk, s))
            (bulk, s)
      flag_data' ← slice bulk' (8 * count + total ks 0) count
      done (ret, (flag_data', s'))

    unfoldable pub exists_packed :
        ℕ
        → ℕ
        → Option Bytes
        → Option (List ℕ)
        → Option Bytes
        → S
        → Outcome (Return × (Option Bytes × S))
    exists_packed mode count keys ksizes flags s =
        if has mode mode_no_rdma
        then exists_direct mode count keys ksizes flags s
        else if count == 0
        then done (success, (flags, s))
        else elim (all_three keys ksizes flags) [
          | none ↦ done (err_invalid_args, (flags, s))
          | some (k, ks, fs) ↦ do
            ks' ← array count ks
            fs' ← array count fs
            let sent : Outcome (Return × (Option Bytes × S)) = (do
              key_data ← slice k 0 (total ks' 0)
              (ret, (fs'', s')) ← exists_exposed mode count key_data ks' fs' s
              done (ret, (some (fs'' ++ drop count fs), s')))
            if total ks' 0 == 0 then done (err_invalid_args, (flags, s)) else sent
        ]

    unfoldable pub exists_multi :
        ℕ
        → ℕ
        → Option (List (Option Bytes))
        → Option (List ℕ)
        → Option Bytes
        → S
        → Outcome (Return × (Option Bytes × S))
    exists_multi mode count keys ksizes flags s =
        if count == 0 then done (success, (flags, s)) else elim (all_three keys ksizes flags) [
          | none ↦ done (err_invalid_args, (flags, s))
          | some (ps, ks, fs) ↦ do
            ks' ← array count ks
            let one : Outcome (Return × (Option Bytes × S)) = (do
              p ← first ps
              exists_direct mode count p (some ks) (some fs) s)
            let packed : Outcome (Return × (Option Bytes × S)) = (do
              key_data ← gather ps ks'
              exists_direct mode count (some key_data) (some ks) (some fs) s)
            let sent : Outcome (Return × (Option Bytes × S)) = (do
              key_data ← gather ps ks'
              fs' ← array count fs
              (ret, (fs'', s')) ← exists_exposed mode count key_data ks' fs' s
              done (ret, (some (fs'' ++ drop count fs), s')))
            if has mode mode_no_rdma
                then if count == 1 then one else packed
                else if has_zero ks'
                then done (err_invalid_args, (flags, s))
                else sent
        ]

    -- `yk_exists`
    unfoldable pub exists_one :
        ℕ → Option Bytes → ℕ → Option Bytes → S → Outcome (Return × (Option Bytes × S))
    exists_one mode key ksize flag s =
        if ksize == 0
        then done (err_invalid_args, (flag, s))
        else exists_packed mode 1 key (some (ksize ∷ [])) flag s
