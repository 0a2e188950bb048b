-- ===== src/MapDb/Read.antt =====
-- `MapDatabase::exists` and `MapDatabase::length`.
pub mod Await
pub mod Contract
use mochi_yokan.Prelude.{
  ℕ, suc, ◌+◌, Bool, true, false, not, Option, none, some, List, [], ◌∷◌, ltb, ◌==◌, length, wrap,
  if◌then◌else◌, Outcome, done, blocked, fault, ◌>>=◌,
}
use mochi_yokan.Common.{Bytes, Status, ok, invalid_arg, timed_out, key_not_found, mode_wait, has}
use mochi_yokan.OrderedMap.{Comparator}
use mochi_yokan.BitField.{BitField, assign}
use mochi_yokan.Memory.{slice}
use mochi_yokan.MapDb.State.{World, Awaited, hit, miss, stuck, await}

-- `vsizes[i] = size`, and the rest of the loop.
unfoldable pub cons_size : ℕ → Outcome (Status × List ℕ × World) → Outcome (Status × List ℕ × World)
cons_size size rest = do (status, sizes, w) ← rest; done (status, size ∷ sizes, w)

module _ (lt : Comparator) where
  unfoldable pub exists_loop :
      Bool → Bytes → ℕ → List ℕ → ℕ → BitField → World → Outcome (Status × BitField × World)
  exists_loop wait keys offset [] i flags w = done (ok, flags, w)
  exists_loop wait keys offset (k ∷ ks) i flags w =
      if ltb (length keys) (wrap (offset + k)) then done (invalid_arg, flags, w) else do
        key ← slice keys offset k
        elim (await lt wait key w) [
          | hit v w' ↦ do
            flags' ← assign flags i true
            exists_loop wait keys (wrap (offset + k)) ks (suc i) flags' w'
          | miss w' ↦ do
            flags' ← assign flags i false
            exists_loop wait keys (wrap (offset + k)) ks (suc i) flags' w'
          | Awaited.timed_out w' ↦ done (timed_out, flags, w')
          | stuck ↦ blocked
        ]

  unfoldable pub exists :
      ℕ → Bytes → List ℕ → BitField → World → Outcome (Status × BitField × World)
  exists mode keys ksizes flags w =
      if ltb flags.size (length ksizes)
      then done (invalid_arg, flags, w)
      else exists_loop (has mode mode_wait) keys 0 ksizes 0 flags w

  -- The sizes that the loop has not reached keep what the caller put there.
  unfoldable pub length_loop :
      Bool → Bytes → ℕ → List ℕ → List ℕ → World → Outcome (Status × List ℕ × World)
  length_loop wait keys offset [] vsizes w = done (ok, vsizes, w)
  length_loop wait keys offset (k ∷ ks) [] w = fault
  length_loop wait keys offset (k ∷ ks) (v ∷ vs) w =
      if ltb (length keys) (wrap (offset + k)) then done (invalid_arg, v ∷ vs, w) else do
        key ← slice keys offset k
        elim (await lt wait key w) [
          | hit x w' ↦ cons_size (length x) (length_loop wait keys (wrap (offset + k)) ks vs w')
          | miss w' ↦ cons_size key_not_found (length_loop wait keys (wrap (offset + k)) ks vs w')
          | Awaited.timed_out w' ↦ done (timed_out, v ∷ vs, w')
          | stuck ↦ blocked
        ]

  unfoldable pub value_lengths :
      ℕ → Bytes → List ℕ → List ℕ → World → Outcome (Status × List ℕ × World)
  value_lengths mode keys ksizes vsizes w =
      if not (length ksizes == length vsizes)
      then done (invalid_arg, vsizes, w)
      else length_loop (has mode mode_wait) keys 0 ksizes vsizes w
