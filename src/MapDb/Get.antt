-- ===== src/MapDb/Get.antt =====
-- `MapDatabase::get`, with its two layouts of the values.
pub mod Packed
pub mod Consume
use mochi_yokan.Prelude.{
  ℕ, ◌+◌, ◌-◌, Bool, true, false, not, List, [], ◌∷◌, ltb, ◌==◌, length, wrap, if◌then◌else◌,
  Outcome, done, blocked, fault, ◌>>=◌,
}
use mochi_yokan.Common.{
  Bytes, Status, ok, invalid_arg, timed_out, key_not_found, size_too_small, mode_wait, mode_consume,
  has,
}
use mochi_yokan.OrderedMap.{Comparator}
use mochi_yokan.Database.{Reply}
use mochi_yokan.Memory.{slice, val_copy}
use mochi_yokan.MapDb.State.{World, Awaited, hit, miss, stuck, await, is_ok, relock}
use mochi_yokan.MapDb.Erase.{erase}

-- `vsizes[i] = size`, and the rest of the loop.
unfoldable pub with_size : ℕ → Outcome (Status × Reply × World) → Outcome (Status × Reply × World)
with_size size rest = do
  (status, r, w) ← rest
  done (status, record r { vsizes = size ∷ r.vsizes }, w)

module _ (lt : Comparator) where
  unfoldable pub get_unpacked :
      ℕ → Bytes → ℕ → List ℕ → Bytes → ℕ → List ℕ → World → Outcome (Status × Reply × World)
  get_unpacked mode keys key_offset [] vals val_offset vsizes w =
      done (ok, record { vals = vals; vals_size = length vals; vsizes = vsizes }, w)
  get_unpacked mode keys key_offset (k ∷ ks) vals val_offset [] w = fault
  get_unpacked mode keys key_offset (k ∷ ks) vals val_offset (v ∷ vs) w = do
    key ← slice keys key_offset k
    elim (await lt (has mode mode_wait) key w) [
      | hit x w' ↦ do
        (size, vals') ← val_copy vals val_offset v x
        with_size size
            (get_unpacked mode keys (wrap (key_offset + k)) ks vals' (wrap (val_offset + v)) vs w')
      | miss w' ↦
          with_size key_not_found
            (get_unpacked mode keys (wrap (key_offset + k)) ks vals (wrap (val_offset + v)) vs w')
      | Awaited.timed_out w' ↦
          done (timed_out, record { vals = vals; vals_size = length vals; vsizes = v ∷ vs }, w')
      | stuck ↦ blocked
    ]

  -- `room` is `val_remaining_size`; the size of the buffer is set behind the loop alone, so a call
  -- that times out leaves it.
  unfoldable pub get_packed :
      ℕ
      → Bytes
      → ℕ
      → List ℕ
      → Bytes
      → ℕ
      → ℕ
      → Bool
      → List ℕ
      → World
      → Outcome (Status × Reply × World)
  get_packed mode keys key_offset [] vals val_offset room too_small vsizes w =
      done (ok, record { vals = vals; vals_size = length vals - room; vsizes = vsizes }, w)
  get_packed mode keys key_offset (k ∷ ks) vals val_offset room too_small [] w = fault
  get_packed mode keys key_offset (k ∷ ks) vals val_offset room too_small (v ∷ vs) w = do
    key ← slice keys key_offset k
    elim (await lt (has mode mode_wait) key w) [
      | hit x w' ↦
          if too_small
          then with_size size_too_small
              (get_packed mode keys (wrap (key_offset + k)) ks vals val_offset room true vs w')
          else do
            (size, vals') ← val_copy vals val_offset room x
            let full = size == size_too_small
            let offset' = if full then val_offset else wrap (val_offset + size)
            let room' = if full then room else room - size
            with_size size
                (get_packed mode keys (wrap (key_offset + k)) ks vals' offset' room' full vs w')
      | miss w' ↦
          with_size key_not_found
            (get_packed mode keys (wrap (key_offset + k)) ks vals val_offset room too_small vs w')
      | Awaited.timed_out w' ↦
          done (timed_out, record { vals = vals; vals_size = length vals; vsizes = v ∷ vs }, w')
      | stuck ↦ blocked
    ]

  -- The end of `get`: with CONSUME the lock is released, and the keys are erased.
  unfoldable pub get_end : ℕ → Bytes → List ℕ → Reply → World → Outcome (Status × Reply × World)
  unfolding relock
  get_end mode keys ksizes r w =
      if has mode mode_consume
      then (do (status, w') ← erase lt mode keys ksizes (relock w); done (status, r, w'))
      else done (ok, r, w)

  unfoldable pub get :
      ℕ → Bool → Bytes → List ℕ → Bytes → List ℕ → World → Outcome (Status × Reply × World)
  unfolding get_end
  get mode packed keys ksizes vals vsizes w =
      if not (length ksizes == length vsizes)
      then done (invalid_arg, record { vals = vals; vals_size = length vals; vsizes = vsizes }, w)
      else do
        (status, r, w') ←
            if packed
            then get_packed mode keys 0 ksizes vals 0 (length vals) false vsizes w
            else get_unpacked mode keys 0 ksizes vals 0 vsizes w
        if is_ok status then get_end mode keys ksizes r w' else done (status, r, w')
