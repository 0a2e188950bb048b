-- ===== src/MapDb/Listing.antt =====
-- `MapDatabase::listKeys` and `MapDatabase::listKeyValues`.
pub mod Start
pub mod Packed
pub mod Keys
pub mod Items
pub mod Prefix
use mochi_yokan.Prelude.{
  ℕ, ◌+◌, ◌-◌, Bool, true, false, not, ◌&&◌, ◌||◌, Option, none, some, List, [], ◌∷◌, map, ltb,
  ◌==◌, length, word, wrap, if◌then◌else◌, Outcome, done, ◌>>=◌,
}
use mochi_yokan.Common.{
  Bytes, Status, ok, size_too_small, no_more_keys, mode_inclusive, mode_keep_last, has,
}
use mochi_yokan.OrderedMap.{Comparator, Map, lower_bound, upper_bound}
use mochi_yokan.Memory.{write}
use mochi_yokan.Filter.{Filter, key_copy}
use mochi_yokan.MapDb.State.{World}

-- A buffer that a listing fills, where it goes on, and whether an item has found no room.
pub record Out : Type 0 where
  pub bytes : Bytes
  pub offset : ℕ
  pub too_small : Bool

abbrev pub is_empty {ℓ} : {A : Type ℓ} → List A → Bool
is_empty [] = true
is_empty (x ∷ xs) = false

-- The size returned by a copy to the place that `out` has come to, and the buffer after it.
unfoldable pub copy_out : Out → Option Bytes → Outcome (ℕ × Bytes)
copy_out out none = done (size_too_small, out.bytes)
copy_out out (some x) = do bytes ← write out.bytes out.offset x; done (length x, bytes)

-- One item: its size, and the buffer for the next one. `slot` is the size that the caller allots to
-- it, `copy` the filter's copy into the room given.
unfoldable pub emit : Bool → (ℕ → Option Bytes) → ℕ → Out → Outcome (ℕ × Out)
unfolding copy_out
emit packed copy slot out =
    if not packed
    then (do
      (size, bytes) ← copy_out out (copy slot)
      done (size, record out { bytes = bytes; offset = wrap (out.offset + slot) }))
    else if out.too_small
    then done (size_too_small, out)
    else do
      (size, bytes) ← copy_out out (copy (wrap (length out.bytes + word - out.offset)))
      let full = size == size_too_small
      let offset' = if full then out.offset else wrap (out.offset + size)
      done (size, record { bytes = bytes; offset = offset'; too_small = full })

unfoldable pub start : Comparator → ℕ → Bytes → Map → Map
start lt mode from_key m =
    if length from_key == 0
    then m
    else if has mode mode_inclusive
    then lower_bound lt from_key m
    else upper_bound lt from_key m

-- The bookkeeping of `is_last`.
unfoldable pub last_item : ℕ → List ℕ → Map → Bool
last_item mode slots m = has mode mode_keep_last && (is_empty slots || is_empty m)

-- The last loop, over the sizes of the keys and of the values at once.
unfoldable pub fill : List ℕ → List ℕ → Outcome (List ℕ × List ℕ)
fill [] vslots = done ([], vslots)
fill (s ∷ ss) [] = Outcome.fault
fill (s ∷ ss) (t ∷ ts) = do
  (sizes, vsizes) ← fill ss ts
  done (no_more_keys ∷ sizes, no_more_keys ∷ vsizes)

module _ (mode : ℕ) (packed : Bool) (f : Filter) where
  -- The sizes of the slots that are left stand for the index; what no key takes is filled up.
  unfoldable pub keys_loop : Map → List ℕ → Out → Outcome (List ℕ × Out)
  unfolding last_item
  keys_loop [] slots out = done (map (λ s. no_more_keys) slots, out)
  keys_loop ((k, v) ∷ m) [] out = done ([], out)
  keys_loop ((k, v) ∷ m) (s ∷ ss) out =
      let skipped =
        if f.should_stop k v
        then done (map (λ t. no_more_keys) (s ∷ ss), out)
        else keys_loop m (s ∷ ss) out in
      let listed : Outcome (List ℕ × Out) = (do
        (size, out') ← emit packed (λ room. key_copy mode (last_item mode ss m) f room k) s out
        (sizes, out'') ← keys_loop m ss out'
        done (size ∷ sizes, out'')) in
      if f.check k v then listed else skipped

  unfoldable pub keyvals_loop :
      Map → List ℕ → List ℕ → Out → Out → Outcome (List ℕ × List ℕ × Out × Out)
  unfolding last_item fill
  keyvals_loop [] slots vslots out vout = do
    (sizes, vsizes) ← fill slots vslots
    done (sizes, vsizes, out, vout)
  keyvals_loop ((k, v) ∷ m) [] vslots out vout = done ([], vslots, out, vout)
  keyvals_loop ((k, v) ∷ m) (s ∷ ss) [] out vout = Outcome.fault
  keyvals_loop ((k, v) ∷ m) (s ∷ ss) (t ∷ ts) out vout =
      let filled : Outcome (List ℕ × List ℕ × Out × Out) = (do
        (sizes, vsizes) ← fill (s ∷ ss) (t ∷ ts)
        done (sizes, vsizes, out, vout)) in
      let skipped =
        if f.should_stop k v then filled else keyvals_loop m (s ∷ ss) (t ∷ ts) out vout in
      let listed : Outcome (List ℕ × List ℕ × Out × Out) = (do
        (size, out') ← emit packed (λ room. key_copy mode (last_item mode ss m) f room k) s out
        (vsize, vout') ← emit packed (λ room. f.val_copy room v) t vout
        (sizes, vsizes, out'', vout'') ← keyvals_loop m ss ts out' vout'
        done (size ∷ sizes, vsize ∷ vsizes, out'', vout'')) in
      if f.check k v then listed else skipped

abbrev pub empty_out : Bytes → Out
empty_out bytes = record { bytes = bytes; offset = 0; too_small = false }

module _ (lt : Comparator) where
  -- The last part of the result is the new size of the buffer.
  unfoldable pub list_keys :
      ℕ → Bool → Bytes → Filter → Bytes → List ℕ → World → Outcome (Status × List ℕ × Bytes × ℕ)
  unfolding start
  list_keys mode packed from_key f keys slots w = do
    (sizes, out) ← keys_loop mode packed f (start lt mode from_key w.entries) slots (empty_out keys)
    done (ok, sizes, out.bytes, out.offset)

  unfoldable pub list_key_values :
      ℕ
      → Bool
      → Bytes
      → Filter
      → Bytes
      → List ℕ
      → Bytes
      → List ℕ
      → World
      → Outcome (Status × List ℕ × List ℕ × (Bytes × ℕ) × (Bytes × ℕ))
  unfolding start
  list_key_values mode packed from_key f keys slots vals vslots w = do
    (sizes, vsizes, out, vout) ←
        keyvals_loop mode packed f (start lt mode from_key w.entries) slots vslots (empty_out keys)
          (empty_out vals)
    done (ok, sizes, vsizes, (out.bytes, out.offset), (vout.bytes, vout.offset))
