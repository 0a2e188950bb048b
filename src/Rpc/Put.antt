-- ===== src/Rpc/Put.antt =====
-- `put` from a client to a database: src/client/put.cpp and src/server/put.cpp.
pub mod Remote
use mochi_yokan.Prelude.{
  ℕ, zero, suc, ◌+◌, ◌*◌, Bool, true, false, not, ◌&&◌, Option, none, some, List, [], ◌∷◌, ◌++◌,
  ltb, ◌==◌, length, take, wrap, if◌then◌else◌, Outcome, done, fault, ◌>>=◌,
}
use mochi_yokan.Common.{Bytes, Status, mode_no_rdma, has}
use mochi_yokan.Memory.{slice, total, bytes_of}
use mochi_yokan.Database.{Database}
use mochi_yokan.Rpc.Codes.{
  Return, success, err_allocation, err_invalid_args, err_from_mercury, err_mode, cast,
}
use mochi_yokan.Rpc.Call.{
  Transfer, Arrival, Network, Request, with_database, with_buffer, transferred, has_empty_key,
  sizes_at, forward, expose, array, all_three, both, gather, has_zero, first, is_null, bytes_at,
  is_mode_valid,
}

module _ (transfer : Transfer) {S : Type 0} (d : Database S) where
  -- The memory that the client exposes comes last before the state. A handler reads its views when it
  -- calls the database; here it reads them when it makes them.
  unfoldable pub put_ult : Arrival → Request → Bytes → S → Outcome (Return × S)
  put_ult a r bulk s =
      with_buffer a (d.supports_mode r.mode)
        (λ buffer.
          transferred (transfer bulk r.offset buffer 0 r.size)
            (λ memory. do
              ksizes ← sizes_at r.count 0 memory
              vsizes ← sizes_at r.count (8 * r.count) memory
              let total_ksize = total ksizes 0
              let total_vsize = total vsizes 0
              let called : Outcome (Return × S) = (do
                keys ← slice memory (16 * r.count) total_ksize
                vals ← slice memory (16 * r.count + total_ksize) total_vsize
                (status, s') ← d.put r.mode keys ksizes vals vsizes s
                done (cast status, s'))
              let short = ltb r.size (wrap (16 * r.count + total_ksize + total_vsize))
              if has_empty_key ksizes
                  then done (err_invalid_args, s)
                  else if short
                  then done (err_invalid_args, s)
                  else called)
            s)
        s

  unfoldable pub put_direct_ult :
      Arrival → ℕ → Bytes → List ℕ → Bytes → List ℕ → S → Outcome (Return × S)
  put_direct_ult a mode keys ksizes vals vsizes s =
      with_database a true (d.supports_mode mode)
        (if has_empty_key ksizes
          then done (err_invalid_args, s)
          else do (status, s') ← d.put mode keys ksizes vals vsizes s; done (cast status, s'))
        s

  module _ (net : Network) (a : Arrival) where
    unfoldable pub put_direct :
        ℕ
        → ℕ
        → Option Bytes
        → Option (List ℕ)
        → Option Bytes
        → Option (List ℕ)
        → S
        → Outcome (Return × S)
    put_direct mode count keys ksizes values vsizes s =
        if count == 0 then done (success, s) else elim (all_three keys ksizes vsizes) [
          | none ↦ done (err_invalid_args, s)
          | some (k, ks, vs) ↦ if not (is_mode_valid mode) then done (err_mode, s) else do
            ks' ← array count ks
            vs' ← array count vs
            let sent : Outcome (Return × S) = (do
              key_data ← slice k 0 (total ks' 0)
              val_data ← slice (bytes_at values) 0 (total vs' 0)
              forward net (put_direct_ult a mode key_data ks' val_data vs') s)
            if is_null values && not (total vs' 0 == 0) then done (err_invalid_args, s) else sent
        ]

    -- `bulk` is the memory that the handle exposes.
    unfoldable pub put_bulk : Request → Bytes → S → Outcome (Return × S)
    put_bulk r bulk s =
        if not (r.count == 0) && (r.size == 0)
        then done (err_invalid_args, s)
        else if not (is_mode_valid r.mode)
        then done (err_mode, s)
        else forward net (put_ult a r bulk) s

    unfoldable pub put_packed :
        ℕ
        → ℕ
        → Option Bytes
        → Option (List ℕ)
        → Option Bytes
        → Option (List ℕ)
        → S
        → Outcome (Return × S)
    put_packed mode count keys ksizes values vsizes s =
        if has mode mode_no_rdma
        then put_direct mode count keys ksizes values vsizes s
        else if count == 0
        then done (success, s)
        else elim (all_three keys ksizes vsizes) [
          | none ↦ done (err_invalid_args, s)
          | some (k, ks, vs) ↦ do
            ks' ← array count ks
            vs' ← array count vs
            let tk = total ks' 0
            let tv = total vs' 0
            let size = wrap (8 * count + 8 * count + tk + tv)
            let sent : Outcome (Return × S) = (do
              key_data ← slice k 0 tk
              val_data ← slice (bytes_at values) 0 tv
              let bulk = bytes_of ks' ++ (bytes_of vs' ++ (key_data ++ val_data))
              put_bulk (record { mode = mode; count = count; offset = 0; size = size }) bulk s)
            if tk == 0
                then done (err_invalid_args, s)
                else if not (tv == 0) && is_null values
                then done (err_invalid_args, s)
                else expose net sent s
        ]

    unfoldable pub put_multi :
        ℕ
        → ℕ
        → Option (List (Option Bytes))
        → Option (List ℕ)
        → Option (List (Option Bytes))
        → Option (List ℕ)
        → S
        → Outcome (Return × S)
    put_multi mode count keys ksizes values vsizes s =
        if count == 0
        then done (success, s)
        else elim (both (both keys ksizes) (both values vsizes)) [
          | none ↦ done (err_invalid_args, s)
          | some ((ps, ks), (qs, vs)) ↦ do
            ks' ← array count ks
            vs' ← array count vs
            let packed : Outcome (Return × S) = (do
              key_data ← gather ps ks'
              val_data ← gather qs vs'
              put_direct mode count (some key_data) (some ks) (some val_data) (some vs) s)
            let one : Outcome (Return × S) = (do
              p ← first ps
              q ← first qs
              put_direct mode count p (some ks) q (some vs) s)
            let exposed : Outcome (Return × S) = (do
              key_data ← gather ps ks'
              val_data ← gather qs vs'
              let size = wrap (8 * count + 8 * count + total ks' 0 + total vs' 0)
              let bulk = bytes_of ks' ++ (bytes_of vs' ++ (key_data ++ val_data))
              expose net
                  (put_bulk (record { mode = mode; count = count; offset = 0; size = size }) bulk s)
                  s)
            if has mode mode_no_rdma
                then if count == 1 then one else packed
                else if has_zero ks'
                then done (err_invalid_args, s)
                else exposed
        ]

    -- `yk_put`
    unfoldable pub put_one_pair : ℕ → Option Bytes → ℕ → Option Bytes → ℕ → S → Outcome (Return × S)
    put_one_pair mode key ksize value vsize s =
        if ksize == 0
        then done (err_invalid_args, s)
        else put_packed mode 1 key (some (ksize ∷ [])) value (some (vsize ∷ [])) s
