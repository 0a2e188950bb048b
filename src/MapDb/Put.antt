-- ===== src/MapDb/Put.antt =====
-- `MapDatabase::put`.
pub mod Pairs
pub mod Contract
use mochi_yokan.Prelude.{
  ℕ, ◌+◌, Bool, true, false, not, ◌&&◌, Option, none, some, List, [], ◌∷◌, ◌++◌, ltb, ◌==◌, length,
  wrap, if◌then◌else◌, Outcome, done, fault, ◌>>=◌,
}
use mochi_yokan.Common.{
  Bytes, Status, ok, invalid_arg, key_exists, not_found, mode_append, mode_new_only,
  mode_exist_only, has,
}
use mochi_yokan.OrderedMap.{Comparator, Map, find, emplace, assign}
use mochi_yokan.Memory.{slice, total}
use mochi_yokan.MapDb.State.{World, is_ok, notify}

abbrev pub has_entries : Map → Bool
has_entries [] = false
has_entries (e ∷ m) = true

module _ (lt : Comparator) where
  -- The body of the loop for one pair; `single` is `ksizes.size == 1`. A status other than `ok` is a
  -- `return`.
  unfoldable pub put_one : ℕ → Bool → Bytes → Bytes → ℕ → ℕ → World → Outcome (Status × World)
  unfolding notify
  put_one mode single key vals val_offset vsize w =
      let old = find lt key w.entries in
      let stored : Map → Status × World = λ m. (ok, notify mode key (record w { entries = m })) in
      if has mode mode_new_only
      then (elim old [
        | none ↦ do v ← slice vals val_offset vsize; done (stored (emplace lt key v w.entries))
        | some u ↦ done (if single then key_exists else ok, w)
      ])
      else if has mode mode_exist_only
      then (elim old [
        | none ↦ done (if single then not_found else ok, w)
        | some u ↦ do
          v ← slice vals val_offset vsize
          done (stored (assign lt key (if has mode mode_append then u ++ v else v) w.entries))
      ])
      else if has mode mode_append
      then (elim old [
        | none ↦ do v ← slice vals val_offset vsize; done (stored (emplace lt key v w.entries))
        | some u ↦ do
          v ← slice vals val_offset vsize
          done (stored (assign lt key (u ++ v) w.entries))
      ])
      else (elim old [
        | none ↦ do v ← slice vals val_offset vsize; done (stored (emplace lt key v w.entries))
        | some u ↦ do v ← slice vals val_offset vsize; done (stored (assign lt key v w.entries))
      ])

  -- The same for a key that is given by its place. A view reads nothing; it is read by `emplace`, and by
  -- `find` in a map that has entries. So EXIST_ONLY, without NEW_ONLY, reads no key of an empty map. In one
  -- with entries the comparator may read less of a key than all of it; here it is read whole.
  unfoldable pub put_at :
      ℕ → Bool → Bytes → Bytes → ℕ → ℕ → ℕ → ℕ → World → Outcome (Status × World)
  unfolding put_one
  put_at mode single keys vals key_offset ksize val_offset vsize w =
      let looked_up : Outcome (Status × World) = (do
        key ← slice keys key_offset ksize
        put_one mode single key vals val_offset vsize w) in
      if has mode mode_exist_only && not (has mode mode_new_only) && not (has_entries w.entries)
      then done (if single then not_found else ok, w)
      else looked_up

  unfoldable pub put_loop :
      ℕ → Bool → Bytes → Bytes → ℕ → ℕ → List ℕ → List ℕ → World → Outcome (Status × World)
  put_loop mode single keys vals key_offset val_offset [] vs w = done (ok, w)
  put_loop mode single keys vals key_offset val_offset (k ∷ ks) [] w = fault
  put_loop mode single keys vals key_offset val_offset (k ∷ ks) (v ∷ vs) w = do
    (status, w') ← put_at mode single keys vals key_offset k val_offset v w
    let rest =
        put_loop mode single keys vals (wrap (key_offset + k)) (wrap (val_offset + v)) ks vs w'
    if is_ok status then rest else done (status, w')

  unfoldable pub put : ℕ → Bytes → List ℕ → Bytes → List ℕ → World → Outcome (Status × World)
  unfolding total
  put mode keys ksizes vals vsizes w =
      if not (length ksizes == length vsizes)
      then done (invalid_arg, w)
      else if ltb (length keys) (total ksizes 0)
      then done (invalid_arg, w)
      else if ltb (length vals) (total vsizes 0)
      then done (invalid_arg, w)
      else put_loop mode (length ksizes == 1) keys vals 0 0 ksizes vsizes w
