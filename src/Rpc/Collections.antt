-- ===== src/Rpc/Collections.antt =====
-- The calls without exposed memory: `count` and those on collections, src/client/coll_create.cpp,
-- coll_drop.cpp, coll_exists.cpp, coll_last_id.cpp, coll_size.cpp and their handlers in src/server.
pub mod Remote
pub mod Lifecycle
use mochi_yokan.Prelude.{
  ℕ, Bool, true, false, not, Option, none, some, if◌then◌else◌, Outcome, done, ◌>>=◌,
}
use mochi_yokan.Common.{Bytes}
use mochi_yokan.Database.{Database}
use mochi_yokan.Docs.Store.{Store, coll_create, coll_drop, coll_exists, coll_last_id, coll_size}
use mochi_yokan.MapDb.State.{World, count}
use mochi_yokan.Rpc.Codes.{Return, success, err_mode, cast, is_success}
use mochi_yokan.Rpc.Call.{Arrival, Network, with_database, forward, is_mode_valid}
use mochi_yokan.Rpc.Wire.{forward_out}

-- An answer that is stored where a pointer says, unless that is null, if the call was a success.
abbrev pub receive {ℓ} : {A : Type ℓ} → Return × A → Option A → Option (Option A)
receive (ret, v) none = some none
receive (ret, v) (some old) = some (some (if is_success ret then v else old))

-- The output of such a handler holds the code as well, also that of a check that fails.
abbrev pub coded {ℓ κ} :
    {A : Type ℓ} {S : Type κ} → Outcome (Return × (A × S)) → Outcome (Return × ((Return × A) × S))
coded call = do (ret, (v, s)) ← call; done (ret, ((ret, v), s))

-- The `count` of the map backend, which is the one modelled.
module _ (supported : ℕ → Bool) where
  unfoldable pub count_ult : Arrival → ℕ → World → Outcome (Return × ((Return × ℕ) × World))
  count_ult a mode w = coded (
      with_database a true (supported mode)
        (let (status, n) = count w in done (cast status, (n, w))) (0, w))

  -- `yk_count`, whose pointer is not null
  unfoldable pub count_entries :
      Network → Arrival → ℕ → ℕ → World → Outcome (Return × (Option ℕ × World))
  count_entries net a mode n w =
      if not (is_mode_valid mode)
      then done (err_mode, (some n, w))
      else forward_out net receive (count_ult a mode) (some n) w

module _ {S : Type 0} (d : Database S) where
  unfoldable pub coll_create_ult : Arrival → ℕ → Option Bytes → Store S → Outcome (Return × Store S)
  coll_create_ult a mode name st =
      with_database a true (d.supports_mode mode)
        (do (status, st') ← coll_create d name st; done (cast status, st')) st

  unfoldable pub coll_drop_ult : Arrival → ℕ → Option Bytes → Store S → Outcome (Return × Store S)
  coll_drop_ult a mode name st =
      with_database a true (d.supports_mode mode)
        (do (status, st') ← coll_drop d mode name st; done (cast status, st')) st

  -- The variable for the answer has no value before the call: it is false here, and 0 below.
  unfoldable pub coll_exists_ult :
      Arrival → ℕ → Option Bytes → Store S → Outcome (Return × ((Return × Bool) × Store S))
  coll_exists_ult a mode name st = coded (
      with_database a true (d.supports_mode mode)
        (do (status, flag, st') ← coll_exists d name false st; done (cast status, (flag, st')))
        (false, st))

  unfoldable pub coll_last_id_ult :
      Arrival → ℕ → Option Bytes → Store S → Outcome (Return × ((Return × ℕ) × Store S))
  coll_last_id_ult a mode name st = coded (
      with_database a true (d.supports_mode mode)
        (do (status, id, st') ← coll_last_id d name 0 st; done (cast status, (id, st'))) (0, st))

  unfoldable pub coll_size_ult :
      Arrival → ℕ → Option Bytes → Store S → Outcome (Return × ((Return × ℕ) × Store S))
  coll_size_ult a mode name st = coded (
      with_database a true (d.supports_mode mode)
        (do (status, size, st') ← coll_size d name 0 st; done (cast status, (size, st'))) (0, st))

  module _ (net : Network) (a : Arrival) (mode : ℕ) (name : Option Bytes) where
    unfoldable pub collection_create : Store S → Outcome (Return × Store S)
    collection_create st =
        if not (is_mode_valid mode)
        then done (err_mode, st)
        else forward net (coll_create_ult a mode name) st

    unfoldable pub collection_drop : Store S → Outcome (Return × Store S)
    collection_drop st =
        if not (is_mode_valid mode)
        then done (err_mode, st)
        else forward net (coll_drop_ult a mode name) st

    unfoldable pub collection_exists :
        Option Bool → Store S → Outcome (Return × (Option Bool × Store S))
    collection_exists flag st =
        if not (is_mode_valid mode)
        then done (err_mode, (flag, st))
        else forward_out net receive (coll_exists_ult a mode name) flag st

    unfoldable pub collection_last_id : Option ℕ → Store S → Outcome (Return × (Option ℕ × Store S))
    collection_last_id id st =
        if not (is_mode_valid mode)
        then done (err_mode, (id, st))
        else forward_out net receive (coll_last_id_ult a mode name) id st

    unfoldable pub collection_size : Option ℕ → Store S → Outcome (Return × (Option ℕ × Store S))
    collection_size size st =
        if not (is_mode_valid mode)
        then done (err_mode, (size, st))
        else forward_out net receive (coll_size_ult a mode name) size st
