-- ===== src/MapDb/Get/Consume.antt =====
-- `get` with CONSUME: the lock is released between the reads and the erasures.
use mochi_yokan.Database.Spec.{packed_sizes, packed_reply, among}
use mochi_yokan.Prelude.{
  ℕ, ◌≤◌, ◌<◌, ◌≡◌, refl, ap, true, false, none, some, List, [], ◌∷◌, map, arith, length, take,
  word, if◌then◌else◌, done, lt→ltb,
}
use mochi_yokan.Common.{Bytes, ok, size_too_small, last_valid_size, mode_wait, mode_consume, has}
use mochi_yokan.OrderedMap.{Comparator, IsStrictWeak, IsSorted, same, find}
use mochi_yokan.Memory.{cut, Fits}
use mochi_yokan.MapDb.State.{World, relock}
use mochi_yokan.MapDb.Erase.Contract.{erase_contract}
use mochi_yokan.Database.{Reply}
use mochi_yokan.MapDb.Get.{get_end, get}
use mochi_yokan.MapDb.Get.Packed.{get_packed-end}

take-length : (xs : Bytes) → take (length xs) xs ≡ xs
take-length [] = refl
take-length (x ∷ xs) = ap (◌∷◌ x) (take-length xs)

module _ {lt : Comparator} (o : IsStrictWeak lt) where
  -- With CONSUME and without WAIT, and with sizes within the buffer of keys, a packed `get` replies
  -- from the map that it reads. It then erases each key that it was given, from the map as it finds
  -- it when it has the lock again, if that is in order, and leaves every other key of that map.
  pub get_consume_contract :
      (mode : ℕ) (keys : Bytes) (ksizes : List ℕ) (vals : Bytes) (vsizes : List ℕ) (w : World)
      → has mode mode_wait ≡ false
      → has mode mode_consume ≡ true
      → length ksizes ≡ length vsizes
      → Fits ksizes keys
      → length vals ≤ last_valid_size
      → IsSorted lt (relock w).entries
      → (w' : World) × (get lt mode true keys ksizes vals vsizes w
          ≡ done (
            ok,
            packed_reply vals 0 (length vals) (map (λ k. find lt k w.entries) (cut ksizes keys)),
            w',
          ))
        × ((j : Bytes)
            → find lt j w'.entries ≡ (
                if among (same lt) (cut ksizes keys) j then none else find lt j (relock w).entries))
  unfolding get_end
  get_consume_contract mode keys ksizes vals vsizes w nowait consume e f b s =
      let (w', erased, reads, s') = erase_contract o mode keys ksizes (relock w) nowait f s in
      (
        w',
        rw (get_packed-end lt mode nowait keys ksizes vals vsizes w e f b, consume, erased),
        reads,
      )

  -- A packed `get` of one key, with CONSUME and without WAIT, whose value has no room in the buffer
  -- reports YOKAN_SIZE_TOO_SMALL, and the key is gone after it, where the map that it erases from
  -- is in order.
  pub get_consume_drops :
      (mode : ℕ) (key vals x : Bytes) (v : ℕ) (w : World)
      → has mode mode_wait ≡ false
      → has mode mode_consume ≡ true
      → length key < word
      → length vals ≤ last_valid_size
      → length vals < length x
      → find lt key w.entries ≡ some x
      → IsSorted lt (relock w).entries
      → (r : Reply) × (w' : World) × (get lt mode true key (length key ∷ []) vals (v ∷ []) w
          ≡ done (ok, r, w'))
        × (r.vsizes ≡ size_too_small ∷ [])
        × (find lt key w'.entries ≡ none)
  unfolding packed_sizes same
  get_consume_drops mode key vals x v w nowait consume c b long m s =
      let k : take (length key) key ≡ key = take-length key in
      let (w', returned, reads) =
        get_consume_contract mode key (length key ∷ []) vals (v ∷ []) w nowait consume refl
          (record { within = omega arith; below_word = c }) b s in
      (
        packed_reply vals 0 (length vals)
            (map (λ j. find lt j w.entries) (cut (length key ∷ []) key)),
        w',
        returned,
        rw (k, m, lt→ltb (length vals) (length x) long),
        rw (reads key, k, o.irrefl key),
      )
