-- ===== src/Rpc/Roundtrip.antt =====
-- A client that puts a pair, and one that gets it: src/client/put.cpp and src/client/get.cpp over the
-- handlers of src/server and any database that keeps the laws.
use mochi_yokan.Prelude.{
  ℕ, ◌+◌, ◌≤◌, ◌<◌, ◌≡◌, refl, ◌∙◌, true, false, some, [], ◌∷◌, ◌++◌, arith, ltb, map, ◌==◌, length,
  take_all, word, done, append-nil, le→ltb, if◌then◌else◌, Bool-cases, inl, inr,
}
use mochi_yokan.Common.{
  Bytes, last_valid_size, key_not_found, size_too_small, mode_wait, mode_consume, mode_append,
  mode_new_only, mode_exist_only, has,
}
use mochi_yokan.Memory.{Fits, cut}
use mochi_yokan.Database.{Database}
use mochi_yokan.Database.Laws.{Laws}
use mochi_yokan.Database.Spec.{
  updated, is_written, new_value, put_status, refusal, packed_sizes, packed_bytes,
}
use mochi_yokan.Rpc.Codes.{success}
use mochi_yokan.Rpc.Call.{
  Transfer, IsCopy, Arrival, Network, is_mode_valid, has_empty_key, min_size,
}
use mochi_yokan.Rpc.Sound.{IsSound}
use mochi_yokan.Rpc.Layout.{AllWords, IsKeys, IsCall, positive_count}
use mochi_yokan.Rpc.Put.{put_one_pair}
use mochi_yokan.Rpc.Put.Remote.{put_packed_remote}
use mochi_yokan.Rpc.Get.{get_one}
use mochi_yokan.Rpc.Get.Remote.{get_packed_remote}

nonempty : (n : ℕ) → 0 < n → has_empty_key (n ∷ []) ≡ false
unfolding has_empty_key min_size
nonempty n h = ground arith

one_key : (key : Bytes) → 0 < length key → 16 + length key < word → IsKeys 1 key (length key ∷ [])
one_key key positive small = record {
  key_count = refl;
  keys_whole = omega arith;
  keys_nonempty = nonempty (length key) positive;
  below_word = omega arith;
}

-- A mode that stores a value whatever was there.
pub record IsPlain (mode : ℕ) : Type 0 where
  pub no_append : has mode mode_append ≡ false
  pub no_new_only : has mode mode_new_only ≡ false
  pub no_exist_only : has mode mode_exist_only ≡ false

not_special : (n m : ℕ) → n < m → (n == m) ≡ false
not_special n m h = ground arith

module _ (transfer : Transfer) {S : Type 0} (d : Database S) (laws : Laws d)
    (copies : IsCopy transfer) (key : Bytes) (positive : 0 < length key) where
  one_pair :
      (value : Bytes)
      → 16 + length key + length value < word
      → IsCall 1 key (length key ∷ []) value (length value ∷ [])
  one_pair value small = record {
    of_keys = one_key key positive (omega arith);
    value_count = refl;
    values_whole = omega arith;
    below_word = omega arith;
  }

  -- A sound `yk_put` in a plain mode stores the value under the key, and only there.
  pub put_one_pair_stores :
      (net : Network) (a : Arrival) (mode : ℕ) (value buffer : Bytes) (s : S)
      → IsSound net a
      → a.buffer ≡ some buffer
      → 16 + length key + length value ≤ length buffer
      → 16 + length key + length value < word
      → d.supports_mode mode ≡ true
      → is_mode_valid mode ≡ true
      → IsPlain mode
      → laws.IsValid s
      → (s' : S) × (put_one_pair transfer d net a mode
            (some key)
            (length key)
            (some value)
            (length value)
            s
          ≡ done (success, s'))
        × ((j : Bytes)
            → laws.view s' j ≡ (if laws.same_key key j then some value else laws.view s j))
        × laws.IsValid s'
  unfolding put_one_pair updated is_written new_value put_status refusal
  put_one_pair_stores net a mode value buffer s sound given long small supported valid plain w =
      let fits : Fits (length key ∷ []) key = record {
        within = omega arith;
        below_word = omega arith;
      } in
      let fits' : Fits (length value ∷ []) value = record {
        within = omega arith;
        below_word = omega arith;
      } in
      let (s', stored, reads, w') =
        laws.put_law mode key (length key ∷ []) value (length value ∷ []) s refl fits fits' w in
      (
        s',
        rw (put_one_pair, positive_count positive)
            (put_packed_remote transfer d net a mode 1 key (length key ∷ []) value
                (length value ∷ []) s copies sound supported (one_pair value small) buffer given
                (omega arith) (omega arith) valid
              ∙ rw (stored, plain.no_new_only, plain.no_exist_only) refl),
        λ j.
            reads j
            ∙ rw
                (
                  take_all key,
                  take_all value,
                  plain.no_new_only,
                  plain.no_exist_only,
                  plain.no_append,
                )
                (elim (Bool-cases (laws.same_key key j)) [ inl e ↦ rw e refl | inr e ↦ rw e refl ]),
        w',
      )

  -- A sound `yk_get` with room for the value of a key brings it, and its size.
  pub get_one_finds :
      (net : Network) (a : Arrival) (mode : ℕ) (value memory buffer : Bytes) (s : S)
      → IsSound net a
      → a.buffer ≡ some buffer
      → 16 + length key + length memory ≤ length buffer
      → 16 + length key + length memory < word
      → length memory ≤ last_valid_size
      → d.supports_mode mode ≡ true
      → is_mode_valid mode ≡ true
      → has mode mode_wait ≡ false
      → has mode mode_consume ≡ false
      → laws.view s key ≡ some value
      → length value ≤ length memory
      → (rest : Bytes) × (get_one transfer d net a mode
            (some key)
            (length key)
            (some memory)
            (length memory)
            s
          ≡ done (success, ((length value, some (value ++ rest)), s)))
  unfolding get_one packed_sizes packed_bytes
  get_one_finds net a mode value memory buffer s sound given long small short supported valid
        no_wait no_consume there fits =
      let ample : ltb (length memory) (length value) ≡ false =
        le→ltb (length memory) (length value) fits in
      let sizes : packed_sizes (length memory) false (map (laws.view s) (cut (length key ∷ []) key))
          ≡ length value ∷ [] =
        rw (take_all key, there, ample) refl in
      let bytes : packed_bytes (length memory) (map (laws.view s) (cut (length key ∷ []) key))
          ≡ value =
        rw (take_all key, there, ample, append-nil) refl in
      let words : AllWords
          (packed_sizes (length memory) false (map (laws.view s) (cut (length key ∷ []) key))) =
        rw sizes (omega arith, tt) in
      let (rest, got) =
        get_packed_remote transfer d laws net a mode 1 key (length key ∷ []) memory
          (length memory ∷ []) s copies sound supported no_wait no_consume
          (one_key key positive (omega arith)) refl (omega arith) short buffer given (omega arith)
          valid (omega arith) words in
      (
        rest,
        rw
            (
              get_one,
              positive_count positive,
              got,
              sizes,
              bytes,
              not_special (length value) size_too_small (omega arith),
              not_special (length value) key_not_found (omega arith),
            )
            refl,
      )

-- What a call of a mode needs on its way: a sound network, room for its bytes, and a mode that client
-- and database accept.
pub record IsReady {S : Type 0} (d : Database S) (net : Network) (a : Arrival) (mode size : ℕ)
    : Type 0 where
  pub sound : IsSound net a
  pub buffer : Bytes
  pub given : a.buffer ≡ some buffer
  pub long : size ≤ length buffer
  pub small : size < word
  pub supported : d.supports_mode mode ≡ true
  pub valid : is_mode_valid mode ≡ true

-- Over a database that keeps the laws, sound networks whose transfers copy, buffers with room and modes
-- that client and database accept, `yk_put` of a value under a non-empty key in a mode without APPEND,
-- NEW_ONLY and EXIST_ONLY succeeds, and then `yk_get` of that key by any client, in a mode that neither
-- waits nor consumes and with room for the value, succeeds and brings the size of the value and, at the
-- start of its memory, the value.
pub put-get :
    (transfer : Transfer) {S : Type 0} (d : Database S) (laws : Laws d) (net net' : Network)
    (a a' : Arrival) (mode mode' : ℕ) (key value memory : Bytes) (s : S)
    → IsCopy transfer
    → 0 < length key
    → IsReady d net a mode (16 + length key + length value)
    → IsReady d net' a' mode' (16 + length key + length memory)
    → IsPlain mode
    → has mode' mode_wait ≡ false
    → has mode' mode_consume ≡ false
    → length value ≤ length memory
    → length memory ≤ last_valid_size
    → laws.IsValid s
    → (s' : S) × (rest : Bytes) × (put_one_pair transfer d net a mode
          (some key)
          (length key)
          (some value)
          (length value)
          s
        ≡ done (success, s'))
      × (get_one transfer d net' a' mode' (some key) (length key) (some memory) (length memory) s'
          ≡ done (success, ((length value, some (value ++ rest)), s')))
put-get transfer d laws net net' a a' mode mode' key value memory s copies positive r r' plain
      no_wait no_consume fits short w =
    let (s', stored, reads, w') =
      put_one_pair_stores transfer d laws copies key positive net a mode value r.buffer s r.sound
        r.given r.long r.small r.supported r.valid plain w in
    let there : laws.view s' key ≡ some value =
      reads key ∙ rw ((laws.same_key_iff key key).1 refl) refl in
    let (rest, got) =
      get_one_finds transfer d laws copies key positive net' a' mode' value memory r'.buffer s'
        r'.sound r'.given r'.long r'.small short r'.supported r'.valid no_wait no_consume there
        fits in
    (s', rest, stored, got)
