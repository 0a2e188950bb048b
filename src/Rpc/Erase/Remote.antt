-- ===== src/Rpc/Erase/Remote.antt =====
-- An `erase` by a client, and the `erase` of the database at the other end.
use mochi_yokan.Prelude.{
  ℕ, ◌+◌, ◌*◌, ◌≤◌, ◌<◌, ◌≡◌, refl, ◌∙◌, true, false, some, List, [], ◌++◌, arith, ltb, length,
  drop, wrap, Outcome, done, ◌>>=◌, length-append, append_assoc, le→ltb, Bool-cases, inl, inr,
}
use mochi_yokan.Common.{Bytes, mode_no_rdma, has}
use mochi_yokan.Memory.{slice, bytes_of}
use mochi_yokan.Database.{Database}
use mochi_yokan.Rpc.Codes.{Return, cast}
use mochi_yokan.Rpc.Call.{Transfer, IsCopy, Arrival, Network, sizes_at, is_mode_valid}
use mochi_yokan.Rpc.Sound.{IsSound, forwarded, exposed, found, buffered}
use mochi_yokan.Rpc.Layout.{
  IsKeys, sizes_at_part, slice_part, pulled, slice_whole, positive_count, key_words,
  length-key_words, total_of_keys, array_keys, some_key,
}
use mochi_yokan.Rpc.Erase.{erase_ult, erase_direct_ult, erase_direct, erase_bulk, erase_packed}

module _ (transfer : Transfer) {S : Type 0} (d : Database S) (net : Network) (a : Arrival)
    (mode count : ℕ) (keys : Bytes) (ksizes : List ℕ) (s : S) (copies : IsCopy transfer)
    (sound : IsSound net a) (supported : d.supports_mode mode ≡ true)
    (call : IsKeys count keys ksizes) where
  called : Outcome (Return × S)
  called = do (status, s') ← d.erase mode keys ksizes s; done (cast status, s')

  size : ℕ
  size = 8 * count + length keys

  bulk : Bytes
  bulk = bytes_of ksizes ++ keys

  length-bulk : length bulk ≡ size
  unfolding bulk size
  length-bulk = omega (arith, length-append (bytes_of ksizes) keys, length-key_words call)

  not_short : ltb size (wrap size) ≡ false
  unfolding size
  not_short = le→ltb size (wrap size) (omega (arith, call.below_word))

  read_ksizes : (rest : Bytes) → sizes_at count 0 (bulk ++ rest) ≡ done ksizes
  unfolding bulk
  read_ksizes rest =
      rw (append_assoc (bytes_of ksizes) keys rest)
        (sizes_at_part [] (keys ++ rest) ksizes 0 count (key_words call) refl call.key_count)

  read_keys : (rest : Bytes) → slice (bulk ++ rest) (8 * count) (length keys) ≡ done keys
  unfolding bulk
  read_keys rest = rw (append_assoc (bytes_of ksizes) keys rest) (
      slice_part (bytes_of ksizes) keys rest (8 * count) (length keys) (length-key_words call) refl)

  handled :
      (buffer : Bytes)
      → a.buffer ≡ some buffer
      → size ≤ length buffer
      → erase_ult transfer d a
          (record { mode = mode; count = count; offset = 0; size = size })
          bulk
          s
        ≡ called
  unfolding erase_ult size called
  handled buffer given room =
      rw
        (
          erase_ult,
          buffered net a (d.supports_mode mode) buffer _ s sound supported given,
          pulled transfer bulk buffer size copies length-bulk room,
        )
        (rw
          (
            read_ksizes (drop size buffer),
            call.keys_nonempty,
            total_of_keys call,
            not_short,
            read_keys (drop size buffer),
          )
          refl)

  positive_size : 0 < count → 0 < size
  unfolding size
  positive_size h = omega arith

  sent :
      (buffer : Bytes)
      → a.buffer ≡ some buffer
      → size ≤ length buffer
      → 0 < count
      → is_mode_valid mode ≡ true
      → erase_bulk transfer d net a
          (record { mode = mode; count = count; offset = 0; size = size })
          bulk
          s
        ≡ called
  unfolding erase_bulk
  sent buffer given room positive valid =
      rw (erase_bulk, positive_count positive, positive_count (positive_size positive), valid)
        (forwarded net a
            (erase_ult transfer d a (record { mode = mode; count = count; offset = 0; size = size })
              bulk)
            s sound
          ∙ handled buffer given room)

  direct :
      0 < count
      → is_mode_valid mode ≡ true
      → erase_direct transfer d net a mode count (some keys) (some ksizes) s ≡ called
  unfolding erase_direct erase_direct_ult called
  direct positive valid =
      rw
        (
          erase_direct,
          positive_count positive,
          valid,
          array_keys call,
          total_of_keys call,
          slice_whole keys,
        )
        (forwarded net a (erase_direct_ult transfer d a mode keys ksizes) s sound
          ∙ rw
              (
                erase_direct_ult,
                found net a true (d.supports_mode mode) _ s sound refl supported,
                call.keys_nonempty,
              )
              refl)

  whole : wrap (8 * count + length keys) ≡ size
  unfolding size
  whole = omega (arith, call.below_word)

  -- Over a sound network whose transfers copy, with room in the buffer of the handler and a mode that
  -- client and database accept, a packed `erase` of at least one key, of non-empty keys in memory of just
  -- their sizes, does what the `erase` of the database does on those keys, and returns its status: by
  -- exposed memory, or inline under NO_RDMA.
  pub erase_packed_remote :
      (buffer : Bytes)
      → a.buffer ≡ some buffer
      → 8 * count + length keys ≤ length buffer
      → 0 < count
      → is_mode_valid mode ≡ true
      → erase_packed transfer d net a mode count (some keys) (some ksizes) s
        ≡ (do (status, s') ← d.erase mode keys ksizes s; done (cast status, s'))
  unfolding erase_packed bulk called size
  erase_packed_remote buffer given room positive valid = elim (Bool-cases (has mode mode_no_rdma)) [
    | inl e ↦ rw (erase_packed, e) (direct positive valid)
    | inr e ↦
        rw
          (
            erase_packed,
            e,
            positive_count positive,
            array_keys call,
            total_of_keys call,
            slice_whole keys,
            positive_count (some_key ksizes call positive),
            whole,
          )
          (exposed net a
              (erase_bulk transfer d net a
                (record { mode = mode; count = count; offset = 0; size = size }) bulk s)
              s sound
            ∙ sent buffer given room positive valid)
  ]
