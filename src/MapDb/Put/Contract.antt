-- ===== src/MapDb/Put/Contract.antt =====
-- `put` as its clients see it: the status, and what every key reads as afterwards.
use mochi_yokan.Database.Spec.{is_written, new_value, updated, put_status, pairs}
use mochi_yokan.Prelude.{
  ℕ, ◌+◌, ◌≤◌, ◌<◌, ◌≡◌, refl, some, List, [], ◌∷◌, arith, length, word, wrap, false, if◌then◌else◌,
  done, fault, ◌⊎◌, inl, inr, ◌≢◌, Option-cases, ◌&&◌,
}
use mochi_yokan.Common.{Bytes, invalid_arg, mode_new_only, mode_exist_only, mode_append, has}
use mochi_yokan.OrderedMap.{
  Comparator, Map, IsStrictWeak, same, find, find-emplace, find-assign, find-same, IsSorted,
  emplace-IsSorted, assign-IsSorted,
}
use mochi_yokan.Memory.{slice, total, sum, cut, total-sum, Fits}
use mochi_yokan.MapDb.State.{World, notify}
use mochi_yokan.MapDb.Put.{put_at, put_loop, put}
use mochi_yokan.MapDb.Put.Pairs.{store, put_pair, put_pairs, put-pairs}

module _ {lt : Comparator} (o : IsStrictWeak lt) where
  find-store :
      (k j v : Bytes) (m : Map)
      → find lt j (store lt k v m) ≡ (if same lt k j then some v else find lt j m)
  unfolding store
  find-store k j v m = elim (Option-cases (find lt k m)) [
    | inl e ↦ ground (arith, find-emplace o k j v m)
    | inr (u, e) ↦ ground (arith, find-assign o k j v u m e)
  ]

  find-put_pair :
      (mode : ℕ) (k j v : Bytes) (w : World)
      → find lt j (put_pair lt mode k v w).entries ≡ (
          if same lt k j && is_written mode (find lt j w.entries)
          then some (new_value mode (find lt j w.entries) v)
          else find lt j w.entries)
  unfolding put_pair notify
  find-put_pair mode k j v w = ground (
    arith,
    find-same o k j w.entries,
    find-store k j (new_value mode (find lt k w.entries) v) w.entries,
  )

  find-put_pairs :
      (mode : ℕ) (ps : List (Bytes × Bytes)) (j : Bytes) (w : World)
      → find lt j (put_pairs lt mode ps w).entries
        ≡ updated (same lt) mode ps j (find lt j w.entries)
  unfolding put_pairs updated
  find-put_pairs mode [] j w = refl
  find-put_pairs mode ((k, v) ∷ ps) j w =
      rw (find-put_pairs mode ps j (put_pair lt mode k v w), find-put_pair mode k j v w)

  put_pair-IsSorted :
      (mode : ℕ) (k v : Bytes) (w : World)
      → IsSorted lt w.entries
      → IsSorted lt (put_pair lt mode k v w).entries
  unfolding put_pair notify store
  put_pair-IsSorted mode k v w s =
      let x = new_value mode (find lt k w.entries) v in
      ground (arith, emplace-IsSorted o k x w.entries s, assign-IsSorted o k x w.entries s)

  put_pairs-IsSorted :
      (mode : ℕ) (ps : List (Bytes × Bytes)) (w : World)
      → IsSorted lt w.entries
      → IsSorted lt (put_pairs lt mode ps w).entries
  unfolding put_pairs
  put_pairs-IsSorted mode [] w s = s
  put_pairs-IsSorted mode ((k, v) ∷ ps) w s =
      put_pairs-IsSorted mode ps (put_pair lt mode k v w) (put_pair-IsSorted mode k v w s)

  -- With sizes that pair up and lie within the two buffers, `put` returns. Every key then reads as
  -- the pairs of the call, in order, make it by the mode: NEW_ONLY stores under absent keys alone,
  -- EXIST_ONLY under present ones, APPEND (without NEW_ONLY) behind the old value. Only a call with
  -- one pair reports a pair that was not stored. The map stays in order.
  pub put_contract :
      (mode : ℕ) (keys : Bytes) (ksizes : List ℕ) (vals : Bytes) (vsizes : List ℕ) (w : World)
      → length ksizes ≡ length vsizes
      → Fits ksizes keys
      → Fits vsizes vals
      → IsSorted lt w.entries
      → (w' : World) × (put lt mode keys ksizes vals vsizes w
          ≡ done (put_status mode ksizes keys (λ k. find lt k w.entries), w'))
        × ((j : Bytes)
            → find lt j w'.entries
              ≡ updated
                  (same lt)
                  mode
                  (pairs (cut ksizes keys) (cut vsizes vals))
                  j
                  (find lt j w.entries))
        × IsSorted lt w'.entries
  put_contract mode keys ksizes vals vsizes w e fk fv s =
      let ps = pairs (cut ksizes keys) (cut vsizes vals) in
      (
        put_pairs lt mode ps w,
        put-pairs lt mode keys ksizes vals vsizes w e fk fv,
        λ j. find-put_pairs mode ps j w,
        put_pairs-IsSorted mode ps w s,
      )

module _ (lt : Comparator) where
  -- If the sums of the sizes do not wrap, `put` refuses sizes that do not pair up or that reach
  -- beyond a buffer, and changes nothing.
  pub put_refuses :
      (mode : ℕ) (keys : Bytes) (ksizes : List ℕ) (vals : Bytes) (vsizes : List ℕ) (w : World)
      → sum ksizes < word
      → sum vsizes < word
      → (length ksizes ≢ length vsizes) ⊎ ((length keys < sum ksizes) ⊎ (length vals < sum vsizes))
      → put lt mode keys ksizes vals vsizes w ≡ done (invalid_arg, w)
  unfolding put
  put_refuses mode keys ksizes vals vsizes w bk bv bad =
      ground (arith, total-sum ksizes 0 (omega arith), total-sum vsizes 0 (omega arith))

  -- Two key sizes, the first beyond the buffer of keys, whose sum wraps round to one within it pass
  -- the check. Without NEW_ONLY, EXIST_ONLY and APPEND, where `emplace` copies every key, the copy of the
  -- first one leaves the buffer, in any state of the map, where the two values lie within theirs.
  pub put_overflow :
      (mode : ℕ) (keys : Bytes) (k l : ℕ) (vals : Bytes) (u v : ℕ) (w : World)
      → has mode mode_new_only ≡ false
      → has mode mode_exist_only ≡ false
      → has mode mode_append ≡ false
      → length keys < k
      → wrap (k + l) ≤ length keys
      → k < word
      → Fits (u ∷ v ∷ []) vals
      → put lt mode keys (k ∷ l ∷ []) vals (u ∷ v ∷ []) w ≡ fault
  unfolding put put_loop put_at total slice
  put_overflow mode keys k l vals u v w n e p long short b f =
      ground (arith, f.within, f.below_word, total-sum (u ∷ v ∷ []) 0 (omega arith))
