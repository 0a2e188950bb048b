-- ===== src/MapDb/Erase.antt =====
-- `MapDatabase::erase`.
pub mod Contract
use mochi_yokan.Prelude.{
  ℕ, ◌+◌, Bool, List, [], ◌∷◌, ltb, length, wrap, if◌then◌else◌, Outcome, done, blocked, ◌>>=◌,
}
use mochi_yokan.Common.{Bytes, Status, ok, invalid_arg, timed_out, mode_wait, has}
use mochi_yokan.OrderedMap
use mochi_yokan.OrderedMap.{Comparator}
use mochi_yokan.Memory.{slice}
use mochi_yokan.MapDb.State.{World, Awaited, hit, miss, stuck, await}

module _ (lt : Comparator) where
  unfoldable pub erase_loop : Bool → Bytes → ℕ → List ℕ → World → Outcome (Status × World)
  erase_loop wait keys offset [] w = done (ok, w)
  erase_loop wait keys offset (k ∷ ks) w =
      if ltb (length keys) (wrap (offset + k)) then done (invalid_arg, w) else do
        key ← slice keys offset k
        elim (await lt wait key w) [
          | hit v w' ↦
              erase_loop wait keys (wrap (offset + k)) ks
                (record w' { entries = OrderedMap.erase lt key w'.entries })
          | miss w' ↦ erase_loop wait keys (wrap (offset + k)) ks w'
          | Awaited.timed_out w' ↦ done (timed_out, w')
          | stuck ↦ blocked
        ]

  unfoldable pub erase : ℕ → Bytes → List ℕ → World → Outcome (Status × World)
  erase mode keys ksizes w = erase_loop (has mode mode_wait) keys 0 ksizes w
