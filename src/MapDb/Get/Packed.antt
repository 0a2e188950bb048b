-- ===== src/MapDb/Get/Packed.antt =====
-- `get` of src/backends/map.cpp in the packed layout.
use mochi_yokan.Database.Spec.{packed_sizes, packed_bytes, packed_reply}
use mochi_yokan.Database.Packed.{length-packed_bytes}
use native.Mathlib.Nat.{zero-add, add-zero, add_assoc}
use mochi_yokan.Prelude.{
  ℕ, ◌+◌, ◌-◌, ◌≤◌, ◌<◌, ◌≡◌, Bool, true, false, Option, none, some, List, [], ◌∷◌, map, arith, ltb,
  ◌==◌, length, take, drop, word, wrap, done, ◌>>=◌, length-append, ==_refl, Option-cases,
  Bool-cases, inl, inr, ltb→lt,
}
use mochi_yokan.Common.{
  Bytes, ok, key_not_found, size_too_small, last_valid_size, mode_wait, mode_consume, has,
}
use mochi_yokan.OrderedMap.{Comparator, find}
use mochi_yokan.Memory.{
  sum, cut, drop-drop, slice_within, Fits, written, length-written, written-nil, written-written,
  val_copy_short, val_copy_fits,
}
use mochi_yokan.MapDb.State.{World}
use mochi_yokan.MapDb.Read.Await.{await_present, await_absent}
use mochi_yokan.MapDb.Get.{with_size, get_packed, get_end, get}

-- The values found for the keys from an offset on.
abbrev pub found : Comparator → Bytes → ℕ → List ℕ → World → List (Option Bytes)
found lt keys off ks w = map (λ k. find lt k w.entries) (cut ks (drop off keys))

module _ (lt : Comparator) (mode : ℕ) (nowait : has mode mode_wait ≡ false) where
  packed_miss :
      (keys : Bytes) (off k : ℕ) (ks : List ℕ) (vals : Bytes) (vo room : ℕ) (full : Bool) (v : ℕ)
      (vs : List ℕ) (w : World)
      → length keys < word
      → off + k ≤ length keys
      → find lt (take k (drop off keys)) w.entries ≡ none
      → get_packed lt mode keys off (k ∷ ks) vals vo room full (v ∷ vs) w
        ≡ with_size key_not_found (get_packed lt mode keys (off + k) ks vals vo room full vs w)
  unfolding get_packed
  packed_miss keys off k ks vals vo room full v vs w c h m =
      let wk : wrap (off + k) ≡ off + k = omega arith in
      rw
        (slice_within keys off k h, ◌>>=◌, nowait, await_absent lt (take k (drop off keys)) w m, wk)

  packed_full :
      (keys : Bytes) (off k : ℕ) (ks : List ℕ) (vals : Bytes) (vo room v : ℕ) (vs : List ℕ)
      (w : World) (x : Bytes)
      → length keys < word
      → off + k ≤ length keys
      → find lt (take k (drop off keys)) w.entries ≡ some x
      → get_packed lt mode keys off (k ∷ ks) vals vo room true (v ∷ vs) w
        ≡ with_size size_too_small (get_packed lt mode keys (off + k) ks vals vo room true vs w)
  unfolding get_packed
  packed_full keys off k ks vals vo room v vs w x c h m =
      let wk : wrap (off + k) ≡ off + k = omega arith in
      rw (
        slice_within keys off k h,
        ◌>>=◌,
        nowait,
        await_present lt false (take k (drop off keys)) x w m,
        wk,
      )

  packed_long :
      (keys : Bytes) (off k : ℕ) (ks : List ℕ) (vals : Bytes) (vo room v : ℕ) (vs : List ℕ)
      (w : World) (x : Bytes)
      → length keys < word
      → off + k ≤ length keys
      → find lt (take k (drop off keys)) w.entries ≡ some x
      → room < length x
      → get_packed lt mode keys off (k ∷ ks) vals vo room false (v ∷ vs) w
        ≡ with_size size_too_small (get_packed lt mode keys (off + k) ks vals vo room true vs w)
  unfolding get_packed
  packed_long keys off k ks vals vo room v vs w x c h m long =
      let wk : wrap (off + k) ≡ off + k = omega arith in
      rw (
        slice_within keys off k h,
        ◌>>=◌,
        nowait,
        await_present lt false (take k (drop off keys)) x w m,
        val_copy_short vals vo room x long,
        ◌>>=◌,
        wk,
      )

  packed_fits :
      (keys : Bytes) (off k : ℕ) (ks : List ℕ) (vals : Bytes) (vo room v : ℕ) (vs : List ℕ)
      (w : World) (x : Bytes)
      → length keys < word
      → off + k ≤ length keys
      → find lt (take k (drop off keys)) w.entries ≡ some x
      → length x ≤ room
      → vo + room ≡ length vals
      → length vals ≤ last_valid_size
      → get_packed lt mode keys off (k ∷ ks) vals vo room false (v ∷ vs) w
        ≡ with_size (length x) (
            get_packed lt mode keys
              (off + k)
              ks
              (written vo x vals)
              (vo + length x)
              (room - length x)
              false
              vs
              w)
  unfolding get_packed
  packed_fits keys off k ks vals vo room v vs w x c h m fits e valid =
      let wk : wrap (off + k) ≡ off + k = omega arith in
      let wv : wrap (vo + length x) ≡ vo + length x = omega arith in
      let plain : (length x == size_too_small) ≡ false = ground arith in
      rw (
        slice_within keys off k h,
        ◌>>=◌,
        nowait,
        await_present lt false (take k (drop off keys)) x w m,
        val_copy_fits vals vo room x fits (omega arith),
        ◌>>=◌,
        plain,
        wk,
        wv,
      )

  packed_rest_full :
      (keys : Bytes) (off : ℕ) (ks : List ℕ) (vals : Bytes) (vo room : ℕ) (vs : List ℕ) (w : World)
      → length keys < word
      → off + sum ks ≤ length keys
      → length ks ≡ length vs
      → vo + room ≡ length vals
      → get_packed lt mode keys off ks vals vo room true vs w
        ≡ done (
          ok,
          record {
            vals = vals;
            vals_size = vo;
            vsizes = packed_sizes room true (found lt keys off ks w);
          },
          w,
        )
  unfolding get_packed packed_sizes with_size
  packed_rest_full keys off [] vals vo room [] w c h e r =
      let s : length vals - room ≡ vo = omega arith in rw s
  packed_rest_full keys off [] vals vo room (v ∷ vs) w c h e r = absurd (omega arith)
  packed_rest_full keys off (k ∷ ks) vals vo room [] w c h e r = absurd (omega arith)
  packed_rest_full keys off (k ∷ ks) vals vo room (v ∷ vs) w c h e r =
      let key = take k (drop off keys) in
      let ih =
        packed_rest_full keys (off + k) ks vals vo room vs w c (omega arith) (omega arith) r in
      rw (drop-drop off k keys) (elim (Option-cases (find lt key w.entries)) [
        | inl m ↦ rw (packed_miss keys off k ks vals vo room true v vs w c (omega arith) m, ih, m)
        | inr (x, m) ↦ rw (packed_full keys off k ks vals vo room v vs w x c (omega arith) m, ih, m)
      ])

  packed_loop :
      (keys : Bytes) (off : ℕ) (ks : List ℕ) (vals : Bytes) (vo room : ℕ) (vs : List ℕ) (w : World)
      → length keys < word
      → off + sum ks ≤ length keys
      → length ks ≡ length vs
      → vo + room ≡ length vals
      → length vals ≤ last_valid_size
      → get_packed lt mode keys off ks vals vo room false vs w
        ≡ done (ok, packed_reply vals vo room (found lt keys off ks w), w)
  unfolding get_packed packed_sizes packed_bytes with_size
  packed_loop keys off [] vals vo room [] w c h e r b =
      let s : length vals - room ≡ vo + 0 = omega arith in rw (s, written-nil vo vals)
  packed_loop keys off [] vals vo room (v ∷ vs) w c h e r b = absurd (omega arith)
  packed_loop keys off (k ∷ ks) vals vo room [] w c h e r b = absurd (omega arith)
  packed_loop keys off (k ∷ ks) vals vo room (v ∷ vs) w c h e r b =
      let key = take k (drop off keys) in
      rw (drop-drop off k keys) (elim (Option-cases (find lt key w.entries)) [
        | inl m ↦ rw (
          packed_miss keys off k ks vals vo room false v vs w c (omega arith) m,
          packed_loop keys (off + k) ks vals vo room vs w c (omega arith) (omega arith) r b,
          m,
        )
        | inr (x, m) ↦ elim (Bool-cases (ltb room (length x))) [
          | inl long ↦ rw (
            packed_long keys off k ks vals vo room v vs w x c (omega arith) m
                (ltb→lt room (length x) long),
            packed_rest_full keys (off + k) ks vals vo room vs w c (omega arith) (omega arith) r,
            m,
            long,
            written-nil vo vals,
            add-zero vo,
          )
          | inr short ↦
              let fits : length x ≤ room = ground arith in
              let left = room - length x in
              let p = packed_bytes left (found lt keys (off + k) ks w) in
              let bound = length-packed_bytes left (found lt keys (off + k) ks w) in
              let same = length-written vo x vals (omega arith) in
              rw (
                packed_fits keys off k ks vals vo room v vs w x c (omega arith) m fits r b,
                packed_loop keys (off + k) ks (written vo x vals) (vo + length x) left vs w c
                    (omega arith) (omega arith) (omega arith) (omega arith),
                m,
                short,
                written-written vo x p vals (omega arith),
                length-append x p,
                add_assoc vo (length x) (length p),
              )
        ]
      ])

  pub get_packed-end :
      (keys : Bytes) (ksizes : List ℕ) (vals : Bytes) (vsizes : List ℕ) (w : World)
      → length ksizes ≡ length vsizes
      → Fits ksizes keys
      → length vals ≤ last_valid_size
      → get lt mode true keys ksizes vals vsizes w
        ≡ get_end lt mode keys ksizes
            (packed_reply vals 0 (length vals) (map (λ k. find lt k w.entries) (cut ksizes keys)))
            w
  unfolding get
  get_packed-end keys ksizes vals vsizes w e f b = rw (
    e,
    ==_refl (length vsizes),
    packed_loop keys 0 ksizes vals 0 (length vals) vsizes w f.below_word (omega (arith, f.within)) e
        (zero-add (length vals)) b,
  )

  -- Without WAIT and CONSUME, and with sizes within the buffer of keys, a packed `get` returns OK and
  -- changes no entry. The buffer starts with the values found, in the order of the keys and with
  -- nothing between, up to the first that has no room left; its size is that of these values. Each
  -- size is the value's, YOKAN_KEY_NOT_FOUND for a missing key, or YOKAN_SIZE_TOO_SMALL for a value
  -- that had no room and for all values behind it.
  pub get_packed_contract :
      (keys : Bytes) (ksizes : List ℕ) (vals : Bytes) (vsizes : List ℕ) (w : World)
      → has mode mode_consume ≡ false
      → length ksizes ≡ length vsizes
      → Fits ksizes keys
      → length vals ≤ last_valid_size
      → get lt mode true keys ksizes vals vsizes w
        ≡ done (
          ok,
          packed_reply vals 0 (length vals) (map (λ k. find lt k w.entries) (cut ksizes keys)),
          w,
        )
  unfolding get_end
  get_packed_contract keys ksizes vals vsizes w keep e f b =
      rw (get_packed-end keys ksizes vals vsizes w e f b, keep)
