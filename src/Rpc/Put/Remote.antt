-- ===== src/Rpc/Put/Remote.antt =====
-- A `put` by a client, and the `put` of the database at the other end.
use mathlib.Core.Bool.{and-false}
use mochi_yokan.Prelude.{
  ℕ, ◌+◌, ◌*◌, ◌≤◌, ◌<◌, ◌≡◌, refl, sym, ap, ◌∙◌, true, false, not, some, List, [], ◌++◌, arith,
  ltb, ◌==◌, length, drop, wrap, Outcome, done, ◌>>=◌, length-append, le→ltb, Bool-cases, inl, inr,
}
use mochi_yokan.Common.{Bytes, mode_no_rdma, has}
use mochi_yokan.Memory.{slice, total, total-sum, bytes_of}
use mochi_yokan.Database.{Database}
use mochi_yokan.Rpc.Codes.{Return, cast}
use mochi_yokan.Rpc.Call.{Transfer, IsCopy, Arrival, Network, sizes_at, array, is_mode_valid}
use mochi_yokan.Rpc.Sound.{IsSound, forwarded, exposed, found, buffered}
use mochi_yokan.Rpc.Layout.{
  length-bytes_of, sum-AllWords, slice_part, sizes_at_part, pulled, array_whole, slice_whole,
  IsCall, behind_one, behind_two, behind_three, array_keys, total_of_keys, key_words,
  positive_count, some_key,
}
use mochi_yokan.Rpc.Put.{put_ult, put_direct_ult, put_direct, put_bulk, put_packed}

module _ (transfer : Transfer) {S : Type 0} (d : Database S) (net : Network) (a : Arrival)
    (mode count : ℕ) (keys : Bytes) (ksizes : List ℕ) (vals : Bytes) (vsizes : List ℕ) (s : S)
    (copies : IsCopy transfer) (sound : IsSound net a) (supported : d.supports_mode mode ≡ true)
    (call : IsCall count keys ksizes vals vsizes) where
  called : Outcome (Return × S)
  called = do (status, s') ← d.put mode keys ksizes vals vsizes s; done (cast status, s')

  size : ℕ
  size = 16 * count + length keys + length vals

  bulk : Bytes
  bulk = bytes_of ksizes ++ (bytes_of vsizes ++ (keys ++ vals))

  length-bulk : length bulk ≡ size
  unfolding bulk size
  length-bulk = omega (
    arith,
    length-append (bytes_of ksizes) (bytes_of vsizes ++ (keys ++ vals)),
    length-append (bytes_of vsizes) (keys ++ vals),
    length-append keys vals,
    length-bytes_of ksizes,
    length-bytes_of vsizes,
    call.of_keys.key_count,
    call.value_count,
  )

  total_vals : total vsizes 0 ≡ length vals
  total_vals =
      total-sum vsizes 0 (omega (arith, call.values_whole, call.below_word))
      ∙ omega (arith, call.values_whole)

  -- What the handler reads of the memory that it pulled, whatever is behind it.
  module _ (rest : Bytes) where
    read_ksizes : sizes_at count 0 (bulk ++ rest) ≡ done ksizes
    unfolding bulk
    read_ksizes = rw (behind_one (bytes_of ksizes) (bytes_of vsizes) keys vals rest) (
        sizes_at_part [] (bytes_of vsizes ++ (keys ++ (vals ++ rest))) ksizes 0 count
          (key_words call.of_keys) refl call.of_keys.key_count)

    read_vsizes : sizes_at count (8 * count) (bulk ++ rest) ≡ done vsizes
    unfolding bulk
    read_vsizes = rw (behind_one (bytes_of ksizes) (bytes_of vsizes) keys vals rest) (
        sizes_at_part (bytes_of ksizes) (keys ++ (vals ++ rest)) vsizes (8 * count) count
          (sum-AllWords vsizes (omega (arith, call.values_whole, call.below_word)))
          (length-bytes_of ksizes ∙ ap (λ n. 8 * n) call.of_keys.key_count) call.value_count)

    read_keys : slice (bulk ++ rest) (16 * count) (length keys) ≡ done keys
    unfolding bulk
    read_keys = rw (behind_two (bytes_of ksizes) (bytes_of vsizes) keys vals rest) (
        slice_part (bytes_of ksizes ++ bytes_of vsizes) keys (vals ++ rest) (16 * count)
          (length keys)
          (omega (
            arith,
            length-append (bytes_of ksizes) (bytes_of vsizes),
            length-bytes_of ksizes,
            length-bytes_of vsizes,
            call.of_keys.key_count,
            call.value_count,
          ))
          refl)

    read_vals : slice (bulk ++ rest) (16 * count + length keys) (length vals) ≡ done vals
    unfolding bulk
    read_vals = rw (behind_three (bytes_of ksizes) (bytes_of vsizes) keys vals rest) (
        slice_part ((bytes_of ksizes ++ bytes_of vsizes) ++ keys) vals rest
          (16 * count + length keys) (length vals)
          (omega (
            arith,
            length-append (bytes_of ksizes ++ bytes_of vsizes) keys,
            length-append (bytes_of ksizes) (bytes_of vsizes),
            length-bytes_of ksizes,
            length-bytes_of vsizes,
            call.of_keys.key_count,
            call.value_count,
          ))
          refl)

  not_short : ltb size (wrap size) ≡ false
  unfolding size
  not_short = le→ltb size (wrap size) (omega (arith, call.below_word))

  handled :
      (buffer : Bytes)
      → a.buffer ≡ some buffer
      → size ≤ length buffer
      → put_ult transfer d a (record { mode = mode; count = count; offset = 0; size = size }) bulk s
        ≡ called
  unfolding put_ult size called
  handled buffer given room =
      rw
        (
          put_ult,
          buffered net a (d.supports_mode mode) buffer _ s sound supported given,
          pulled transfer bulk buffer size copies length-bulk room,
        )
        (rw
          (
            read_ksizes (drop size buffer),
            read_vsizes (drop size buffer),
            call.of_keys.keys_nonempty,
            total_of_keys call.of_keys,
            total_vals,
            not_short,
            read_keys (drop size buffer),
            read_vals (drop size buffer),
          )
          refl)

  handled_direct : put_direct_ult transfer d a mode keys ksizes vals vsizes s ≡ called
  unfolding put_direct_ult called
  handled_direct =
      rw
        (
          put_direct_ult,
          found net a true (d.supports_mode mode) _ s sound refl supported,
          call.of_keys.keys_nonempty,
        )
        refl

  array_vsizes : array count vsizes ≡ done vsizes
  array_vsizes = rw (sym call.value_count) (array_whole vsizes)

  direct :
      0 < count
      → is_mode_valid mode ≡ true
      → put_direct transfer d net a mode count (some keys) (some ksizes) (some vals) (some vsizes) s
        ≡ called
  unfolding put_direct
  direct positive valid =
      rw
        (
          put_direct,
          positive_count positive,
          valid,
          array_keys call.of_keys,
          array_vsizes,
          total_of_keys call.of_keys,
          total_vals,
          slice_whole keys,
          slice_whole vals,
        )
        (forwarded net a (put_direct_ult transfer d a mode keys ksizes vals vsizes) s sound
          ∙ handled_direct)

  positive_size : 0 < count → 0 < size
  unfolding size
  positive_size h = omega arith

  sent :
      (buffer : Bytes)
      → a.buffer ≡ some buffer
      → size ≤ length buffer
      → 0 < count
      → is_mode_valid mode ≡ true
      → put_bulk transfer d net a
          (record { mode = mode; count = count; offset = 0; size = size })
          bulk
          s
        ≡ called
  unfolding put_bulk
  sent buffer given room positive valid =
      rw (put_bulk, positive_count positive, positive_count (positive_size positive), valid)
        (forwarded net a
            (put_ult transfer d a (record { mode = mode; count = count; offset = 0; size = size })
              bulk)
            s sound
          ∙ handled buffer given room)

  whole : wrap (8 * count + 8 * count + length keys + length vals) ≡ size
  unfolding size
  whole = omega (arith, call.below_word)

  -- Over a sound network whose transfers copy, with room in the buffer of the handler and a mode that
  -- client and database accept, a packed `put` of at least one pair, of non-empty keys in memory of just
  -- their sizes, does what the `put` of the database does on those keys and values, and returns its
  -- status: by exposed memory, or inline under NO_RDMA.
  pub put_packed_remote :
      (buffer : Bytes)
      → a.buffer ≡ some buffer
      → 16 * count + length keys + length vals ≤ length buffer
      → 0 < count
      → is_mode_valid mode ≡ true
      → put_packed transfer d net a mode count (some keys) (some ksizes) (some vals) (some vsizes) s
        ≡ (do (status, s') ← d.put mode keys ksizes vals vsizes s; done (cast status, s'))
  unfolding put_packed bulk called size
  put_packed_remote buffer given room positive valid = elim (Bool-cases (has mode mode_no_rdma)) [
    | inl e ↦ rw (put_packed, e) (direct positive valid)
    | inr e ↦
        rw
          (
            put_packed,
            e,
            positive_count positive,
            array_keys call.of_keys,
            array_vsizes,
            total_of_keys call.of_keys,
            total_vals,
            slice_whole keys,
            slice_whole vals,
            positive_count (some_key ksizes call.of_keys positive),
            whole,
            and-false (not (length vals == 0)),
          )
          (exposed net a
              (put_bulk transfer d net a
                (record { mode = mode; count = count; offset = 0; size = size }) bulk s)
              s sound
            ∙ sent buffer given room positive valid)
  ]
