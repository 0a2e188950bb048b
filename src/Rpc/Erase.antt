-- ===== src/Rpc/Erase.antt =====
-- `erase` from a client to a database: src/client/erase.cpp and src/server/erase.cpp.
pub mod Remote
use mochi_yokan.Prelude.{
  ℕ, ◌+◌, ◌*◌, Bool, true, not, ◌&&◌, Option, none, some, List, [], ◌∷◌, ◌++◌, ltb, ◌==◌, wrap,
  if◌then◌else◌, Outcome, done, ◌>>=◌,
}
use mochi_yokan.Common.{Bytes, mode_no_rdma, has}
use mochi_yokan.Memory.{slice, total, bytes_of}
use mochi_yokan.Database.{Database}
use mochi_yokan.Rpc.Codes.{Return, success, err_invalid_args, err_mode, cast}
use mochi_yokan.Rpc.Call.{
  Transfer, Arrival, Network, Request, with_database, with_buffer, transferred, has_empty_key,
  sizes_at, forward, expose, array, both, gather, has_zero, first, is_mode_valid,
}

module _ (transfer : Transfer) {S : Type 0} (d : Database S) where
  unfoldable pub erase_ult : Arrival → Request → Bytes → S → Outcome (Return × S)
  erase_ult a r bulk s =
      with_buffer a (d.supports_mode r.mode)
        (λ buffer.
          transferred (transfer bulk r.offset buffer 0 r.size)
            (λ memory. do
              ksizes ← sizes_at r.count 0 memory
              let total_ksize = total ksizes 0
              let called : Outcome (Return × S) = (do
                keys ← slice memory (8 * r.count) total_ksize
                (status, s') ← d.erase r.mode keys ksizes s
                done (cast status, s'))
              let short = ltb r.size (wrap (8 * r.count + total_ksize))
              if has_empty_key ksizes
                  then done (err_invalid_args, s)
                  else if short
                  then done (err_invalid_args, s)
                  else called)
            s)
        s

  unfoldable pub erase_direct_ult : Arrival → ℕ → Bytes → List ℕ → S → Outcome (Return × S)
  erase_direct_ult a mode keys ksizes s =
      with_database a true (d.supports_mode mode)
        (if has_empty_key ksizes
          then done (err_invalid_args, s)
          else do (status, s') ← d.erase mode keys ksizes s; done (cast status, s'))
        s

  module _ (net : Network) (a : Arrival) where
    unfoldable pub erase_direct : ℕ → ℕ → Option Bytes → Option (List ℕ) → S → Outcome (Return × S)
    erase_direct mode count keys ksizes s =
        if count == 0 then done (success, s) else elim (both keys ksizes) [
          | none ↦ done (err_invalid_args, s)
          | some (k, ks) ↦ if not (is_mode_valid mode) then done (err_mode, s) else do
            ks' ← array count ks
            key_data ← slice k 0 (total ks' 0)
            forward net (erase_direct_ult a mode key_data ks') s
        ]

    unfoldable pub erase_bulk : Request → Bytes → S → Outcome (Return × S)
    erase_bulk r bulk s =
        if not (r.count == 0) && (r.size == 0)
        then done (err_invalid_args, s)
        else if not (is_mode_valid r.mode)
        then done (err_mode, s)
        else forward net (erase_ult a r bulk) s

    unfoldable pub erase_packed : ℕ → ℕ → Option Bytes → Option (List ℕ) → S → Outcome (Return × S)
    erase_packed mode count keys ksizes s =
        if has mode mode_no_rdma
        then erase_direct mode count keys ksizes s
        else if count == 0
        then done (success, s)
        else elim (both keys ksizes) [
          | none ↦ done (err_invalid_args, s)
          | some (k, ks) ↦ do
            ks' ← array count ks
            let size = wrap (8 * count + total ks' 0)
            let sent : Outcome (Return × S) = (do
              key_data ← slice k 0 (total ks' 0)
              erase_bulk (record { mode = mode; count = count; offset = 0; size = size })
                  (bytes_of ks' ++ key_data) s)
            if total ks' 0 == 0 then done (err_invalid_args, s) else expose net sent s
        ]

    unfoldable pub erase_multi :
        ℕ → ℕ → Option (List (Option Bytes)) → Option (List ℕ) → S → Outcome (Return × S)
    erase_multi mode count keys ksizes s =
        if count == 0 then done (success, s) else elim (both keys ksizes) [
          | none ↦ done (err_invalid_args, s)
          | some (ps, ks) ↦ do
            ks' ← array count ks
            let packed : Outcome (Return × S) = (do
              key_data ← gather ps ks'
              erase_direct mode count (some key_data) (some ks) s)
            let one : Outcome (Return × S) = (do p ← first ps; erase_direct mode 1 p (some ks) s)
            let exposed : Outcome (Return × S) = (do
              key_data ← gather ps ks'
              let size = wrap (8 * count + total ks' 0)
              expose net
                  (erase_bulk (record { mode = mode; count = count; offset = 0; size = size })
                    (bytes_of ks' ++ key_data) s)
                  s)
            if has mode mode_no_rdma
                then if count == 1 then one else packed
                else if has_zero ks'
                then done (err_invalid_args, s)
                else exposed
        ]

    -- `yk_erase`
    unfoldable pub erase_one : ℕ → Option Bytes → ℕ → S → Outcome (Return × S)
    erase_one mode key ksize s =
        if ksize == 0
        then done (err_invalid_args, s)
        else erase_packed mode 1 key (some (ksize ∷ [])) s
