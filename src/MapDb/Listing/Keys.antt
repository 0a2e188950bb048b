-- ===== src/MapDb/Listing/Keys.antt =====
-- `listKeys` in the packed layout, against the list of the keys that the filter accepts.
use native.Mathlib.Nat.{zero-add}
use mochi_yokan.Prelude.{
  ℕ, ◌+◌, ◌-◌, ◌≤◌, ◌≡◌, refl, sym, ◌∙◌, Bool, true, false, Option, List, [], ◌∷◌, map, arith,
  length, word, wrap, done, ◌>>=◌, length-append, Option-cases, Bool-cases, inl, inr,
}
use mochi_yokan.Common.{Bytes, ok, no_more_keys, last_valid_size, mode_ignore_keys, has}
use mochi_yokan.OrderedMap.{Comparator, Map, IsStrictWeak, IsSorted}
use mochi_yokan.Memory.{written, length-written, written-nil, written-written}
use mochi_yokan.Filter.{Filter, key_copy}
use mochi_yokan.MapDb.State.{World}
use mochi_yokan.MapDb.Listing.{Out, start, keys_loop, list_keys, last_item}
use mochi_yokan.MapDb.Listing.Start.{select, in_range, start_contract}
use mochi_yokan.MapDb.Listing.Packed.{
  accepted, StopSound, listed_sizes, listed_bytes, IsBounded, out_at, emit_full, emit-none,
  emit-some, listed_sizes-nil, listed_sizes-none, listed_sizes-some, listed_bytes-nil,
  listed_bytes-none, listed_bytes-some, length-listed_bytes,
}

module _ (mode : ℕ) (with_keys : has mode mode_ignore_keys ≡ false) (f : Filter) where
  plain_copy :
      (last : Bool) (room : ℕ) (k : Bytes) → key_copy mode last f room k ≡ f.key_copy room k
  unfolding key_copy
  plain_copy last room k = rw with_keys

  -- The copy of one key, as the loop calls it.
  abbrev copied : Map → List ℕ → Bytes → ℕ → Option Bytes
  copied m ss k room = key_copy mode (last_item mode ss m) f room k

  loop_rejected :
      (m : Map) (slots : List ℕ) (out : Out)
      → accepted f m ≡ []
      → keys_loop mode true f m slots out ≡ done (map (λ s. no_more_keys) slots, out)
  unfolding keys_loop accepted
  loop_rejected [] slots out h = refl
  loop_rejected ((k, v) ∷ m) [] out h = refl
  loop_rejected ((k, v) ∷ m) (s ∷ ss) out h = elim (Bool-cases (f.check k v)) [
    | inl c ↦ absurd (ground arith)
    | inr c ↦ elim (Bool-cases (f.should_stop k v)) [
      | inl p ↦ rw (c, p)
      | inr p ↦ rw (c, p) (loop_rejected m (s ∷ ss) out (ground arith))
    ]
  ]

  loop_full :
      (m : Map) (slots : List ℕ) (bytes : Bytes) (vo room : ℕ)
      → StopSound f m
      → keys_loop mode true f m slots (out_at bytes vo true)
        ≡ done (listed_sizes f.key_copy room true (accepted f m) slots, out_at bytes vo true)
  unfolding keys_loop accepted listed_sizes
  loop_full [] slots bytes vo room h = refl
  loop_full ((k, v) ∷ m) [] bytes vo room h =
      rw (listed_sizes-nil f.key_copy room true (accepted f ((k, v) ∷ m)))
  loop_full ((k, v) ∷ m) (s ∷ ss) bytes vo room h = elim (Bool-cases (f.check k v)) [
    | inl c ↦ rw (c, emit_full, ◌>>=◌, loop_full m ss bytes vo room h.1)
    | inr c ↦ elim (Bool-cases (f.should_stop k v)) [
      | inl p ↦ rw (c, p, h.0 c p)
      | inr p ↦ rw (c, p) (loop_full m (s ∷ ss) bytes vo room h.1)
    ]
  ]

  packed_loop :
      (bounded : IsBounded f) (m : Map) (slots : List ℕ) (bytes : Bytes) (vo room : ℕ)
      → StopSound f m
      → vo + room ≡ length bytes
      → length bytes ≤ last_valid_size
      → (out : Out) × (keys_loop mode true f m slots (out_at bytes vo false)
          ≡ done (listed_sizes f.key_copy room false (accepted f m) slots, out))
        × (out.bytes ≡ written vo (listed_bytes f.key_copy room (accepted f m) slots) bytes)
        × (out.offset ≡ vo + length (listed_bytes f.key_copy room (accepted f m) slots))
  unfolding keys_loop accepted listed_sizes listed_bytes
  packed_loop bounded [] slots bytes vo room h r b =
      (out_at bytes vo false, refl, rw (written-nil vo bytes), omega arith)
  packed_loop bounded ((k, v) ∷ m) [] bytes vo room h r b = (
    out_at bytes vo false,
    rw (listed_sizes-nil f.key_copy room false (accepted f ((k, v) ∷ m))),
    rw (listed_bytes-nil f.key_copy room (accepted f ((k, v) ∷ m)), written-nil vo bytes),
    rw (listed_bytes-nil f.key_copy room (accepted f ((k, v) ∷ m))) (omega arith),
  )
  packed_loop bounded ((k, v) ∷ m) (s ∷ ss) bytes vo room h r b =
      let wr : wrap (length bytes + word - vo) ≡ room = omega arith in
      elim (Bool-cases (f.check k v)) [
        | inl c ↦ elim (Option-cases (f.key_copy room k)) [
          | inl n ↦ (
            out_at bytes vo true,
            rw (
              c,
              emit-none (copied m ss k) s bytes vo room wr
                  (plain_copy (last_item mode ss m) room k ∙ n),
              ◌>>=◌,
              loop_full m ss bytes vo room h.1,
              listed_sizes-none f.key_copy room k (accepted f m) s ss n,
            ),
            rw (c, listed_bytes-none f.key_copy room k (accepted f m) s ss n, written-nil vo bytes),
            rw (c, listed_bytes-none f.key_copy room k (accepted f m) s ss n) (omega arith),
          )
          | inr (x, e) ↦
              let fits : length x ≤ room = bounded room k x e in
              let left = room - length x in
              let p = listed_bytes f.key_copy left (accepted f m) ss in
              let bound : length p ≤ left =
                length-listed_bytes f.key_copy bounded left (accepted f m) ss in
              let kept = length-written vo x bytes (omega arith) in
              let (out, returned, stored, next) =
                packed_loop bounded m ss (written vo x bytes) (vo + length x) left h.1 (omega arith)
                  (omega arith) in
              (
                out,
                rw (
                  c,
                  emit-some (copied m ss k) s bytes vo room x wr r b fits
                      (plain_copy (last_item mode ss m) room k ∙ e),
                  ◌>>=◌,
                  returned,
                  listed_sizes-some f.key_copy room k x (accepted f m) s ss e,
                ),
                rw (c, listed_bytes-some f.key_copy room k x (accepted f m) s ss e)
                    (stored ∙ written-written vo x p bytes (omega arith)),
                rw
                    (
                      c,
                      listed_bytes-some f.key_copy room k x (accepted f m) s ss e,
                      length-append x p,
                      next,
                    )
                    (omega arith),
              )
        ]
        | inr c ↦ elim (Bool-cases (f.should_stop k v)) [
          | inl p ↦ (
            out_at bytes vo false,
            rw (c, p, h.0 c p),
            rw (c, h.0 c p, written-nil vo bytes),
            rw (c, h.0 c p) (omega arith),
          )
          | inr p ↦ rw (c, p) (packed_loop bounded m (s ∷ ss) bytes vo room h.1 r b)
        ]
      ]

  list_keys_lem :
      (lt : Comparator) (from_key keys : Bytes) (slots : List ℕ) (w : World)
      → IsBounded f
      → StopSound f (start lt mode from_key w.entries)
      → length keys ≤ last_valid_size
      → list_keys lt mode true from_key f keys slots w ≡ (
          let ks = accepted f (start lt mode from_key w.entries) in
          let p = listed_bytes f.key_copy (length keys) ks slots in
          done
            (ok, listed_sizes f.key_copy (length keys) false ks slots, written 0 p keys, length p))
  unfolding list_keys
  list_keys_lem lt from_key keys slots w bounded h b =
      let m = start lt mode from_key w.entries in
      let (out, returned, stored, next) =
        packed_loop bounded m slots keys 0 (length keys) h (zero-add (length keys)) b in
      rw (returned, ◌>>=◌, stored, next, zero-add)

  -- A packed listing with its keys, of a map in order by a strict weak order, by a filter that keeps
  -- within the room it is given and says "stop" at no entry in range before one that it accepts,
  -- returns OK. In range are all keys for an empty start key, else those behind it, and under INCLUSIVE
  -- those that are not before it. Its slots are, in the order of the map, the accepted keys in range:
  -- their sizes as long as they have room, YOKAN_SIZE_TOO_SMALL behind that, and YOKAN_NO_MORE_KEYS in
  -- the slots left. The buffer starts with the copied keys, with nothing between, and its size is theirs.
  pub list_keys_contract :
      (lt : Comparator) (from_key keys : Bytes) (slots : List ℕ) (w : World)
      → IsStrictWeak lt
      → IsSorted lt w.entries
      → IsBounded f
      → StopSound f (select (in_range lt mode from_key) w.entries)
      → length keys ≤ last_valid_size
      → list_keys lt mode true from_key f keys slots w ≡ (
          let ks = accepted f (select (in_range lt mode from_key) w.entries) in
          let p = listed_bytes f.key_copy (length keys) ks slots in
          done
            (ok, listed_sizes f.key_copy (length keys) false ks slots, written 0 p keys, length p))
  list_keys_contract lt from_key keys slots w o s bounded h b =
      let e = start_contract o mode from_key w.entries s in
      rw (sym e) (list_keys_lem lt from_key keys slots w bounded (rw e h) b)
