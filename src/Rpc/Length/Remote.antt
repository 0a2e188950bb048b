-- ===== src/Rpc/Length/Remote.antt =====
-- A `length` by a client, and the values of the keys in the database at the other end.
use mochi_yokan.Prelude.{
  ℕ, ◌+◌, ◌*◌, ◌≤◌, ◌<◌, ◌≡◌, refl, sym, ap, ◌∙◌, true, false, some, List, [], ◌++◌, arith, ltb,
  map, length, wrap, replicate, length-replicate, done, length-append, append-nil, le→ltb,
  Bool-cases, length-map, inl, inr,
}
use mochi_yokan.Common.{Bytes, ok, mode_no_rdma, mode_wait, has}
use mochi_yokan.Memory.{
  slice, bytes_of, cut, Fits, written, write-written, length-cut, length-written,
}
use mochi_yokan.Database.{Database}
use mochi_yokan.Database.Laws.{Laws}
use mochi_yokan.Database.Spec.{size_of}
use mochi_yokan.Rpc.Codes.{success}
use mochi_yokan.Rpc.Call.{Transfer, IsCopy, Arrival, Network, sizes_at, array, is_mode_valid}
use mochi_yokan.Rpc.Sound.{IsSound, forwarded, exposed, found, buffered}
use mochi_yokan.Rpc.Wire.{decode_items, decode_items_same, received}
use mochi_yokan.Rpc.Layout.{
  AllWords, length-bytes_of, IsKeys, array_whole, slice_whole, positive_count, length-key_words,
  total_of_keys, array_keys, some_key,
}
use mochi_yokan.Rpc.Exchange.{
  sizes_at_within, slice-written, sizes_at-written, pushed, pulled_keys, memory_of_sizes,
  length-memory_of_sizes,
}
use mochi_yokan.Rpc.Length.{
  length_ult, length_direct_ult, length_direct, length_bulk, length_exposed, length_packed,
}

module _ (transfer : Transfer) {S : Type 0} (d : Database S) (laws : Laws d) (net : Network)
    (a : Arrival) (mode count : ℕ) (keys : Bytes) (ksizes vsizes : List ℕ) (s : S)
    (copies : IsCopy transfer) (sound : IsSound net a) (supported : d.supports_mode mode ≡ true)
    (no_wait : has mode mode_wait ≡ false) (call : IsKeys count keys ksizes)
    (room : length vsizes ≡ count) where
  answer : List ℕ
  answer = map (λ k. size_of (laws.view s k)) (cut ksizes keys)

  fits : Fits ksizes keys
  fits = record {
    within = omega (arith, call.keys_whole);
    below_word = omega (arith, call.below_word);
  }

  answered :
      (vs : List ℕ)
      → length vs ≡ count
      → d.value_lengths mode keys ksizes vs s ≡ done (ok, answer, s)
  unfolding answer
  answered vs e = laws.value_lengths_law mode keys ksizes vs s no_wait (call.key_count ∙ sym e) fits

  size : ℕ
  size = 8 * count + length keys + 8 * count

  bulk : Bytes
  bulk = bytes_of ksizes ++ (keys ++ bytes_of vsizes)

  bulk_shape : bulk ≡ (bytes_of ksizes ++ []) ++ ([] ++ (keys ++ bytes_of vsizes))
  unfolding bulk
  bulk_shape = ap (λ xs. xs ++ (keys ++ bytes_of vsizes)) (sym (append-nil (bytes_of ksizes)))

  vsizes_offset : ℕ
  vsizes_offset = 8 * count + length keys

  answer_count : length answer ≡ count
  unfolding answer
  answer_count = omega (
    arith,
    length-map (λ k. size_of (laws.view s k)) (cut ksizes keys),
    length-cut ksizes keys,
    call.key_count,
  )

  array_room : array count vsizes ≡ done vsizes
  array_room = rw (sym room) (array_whole vsizes)

  length-answer : length (bytes_of answer) ≡ 8 * count
  length-answer = length-bytes_of answer ∙ ap (λ n. 8 * n) answer_count

  length-bulk : vsizes_offset + 8 * count ≡ length bulk
  unfolding bulk vsizes_offset
  length-bulk = omega (
    arith,
    length-append (bytes_of ksizes) (keys ++ bytes_of vsizes),
    length-append keys (bytes_of vsizes),
    length-key_words call,
    length-bytes_of vsizes,
    room,
  )

  sizes_wrap : wrap (8 * count) ≡ 8 * count
  sizes_wrap = omega (arith, call.below_word)

  offset_wrap : wrap (0 + (8 * count + length keys)) ≡ 8 * count + length keys
  offset_wrap = omega (arith, call.below_word)

  not_short : ltb size (wrap (wrap (8 * count + length keys) + 8 * count)) ≡ false
  unfolding size
  not_short =
      le→ltb (8 * count + length keys + 8 * count)
        (wrap (wrap (8 * count + length keys) + 8 * count)) (omega (arith, call.below_word))

  -- The handler behind the pull of the keys, with the memory that it has them in.
  module _ (before : Bytes) (long : size ≤ length before) where
    memory : Bytes
    memory = written (8 * count) keys before

    length-memory : length memory ≡ length before
    unfolding memory size
    length-memory = length-written (8 * count) keys before (omega arith)

    keys_in_memory : slice memory (8 * count) (length keys) ≡ done keys
    unfolding memory size
    keys_in_memory = slice-written (8 * count) keys before (omega arith) (length keys) refl

    memory_sizes :
        (vs : List ℕ) × (sizes_at count vsizes_offset memory ≡ done vs) × (length vs ≡ count)
    unfolding size vsizes_offset
    memory_sizes = sizes_at_within count vsizes_offset memory (omega (arith, length-memory))

    memory_pushed :
        transfer
          (written vsizes_offset (bytes_of answer) memory)
          vsizes_offset
          bulk
          vsizes_offset
          (8 * count)
        ≡ some (written vsizes_offset (bytes_of answer) bulk)
    unfolding size vsizes_offset
    memory_pushed =
        pushed vsizes_offset (bytes_of answer) memory (omega (arith, length-memory, length-answer))
          transfer bulk (8 * count) copies length-answer (omega (arith, length-bulk, length-answer))

  module _ (buffer : Bytes) (given : a.buffer ≡ some buffer)
      (long : 8 * count + length keys + 8 * count ≤ length buffer)
      (valid : is_mode_valid mode ≡ true) (positive : 0 < count) where
    pulled_before : Bytes
    pulled_before = memory_of_sizes ksizes [] (8 * count) buffer

    pulled_long : size ≤ length pulled_before
    unfolding pulled_before size
    pulled_long = omega (
      arith,
      length-memory_of_sizes ksizes [] buffer (8 * count) (omega (arith, call.key_count))
          (omega arith),
    )

    pulled_room :
        vsizes_offset + length (bytes_of answer) ≤ length (memory pulled_before pulled_long)
    unfolding vsizes_offset size
    pulled_room = omega (arith, length-memory pulled_before pulled_long, pulled_long, length-answer)

    handled :
        length_ult transfer d a
          (record { mode = mode; count = count; offset = 0; size = size })
          (bulk, s)
        ≡ done (success, (written vsizes_offset (bytes_of answer) bulk, s))
    unfolding length_ult vsizes_offset size memory pulled_before
    handled =
        rw
          (
            length_ult,
            buffered {S = Bytes × S} net a (d.supports_mode mode) buffer _ (bulk, s) sound supported
                given,
            sizes_wrap,
            bulk_shape,
          )
          (pulled_keys transfer copies call [] [] (bytes_of vsizes) buffer (8 * count) (8 * count)
              (omega arith) (omega arith) (omega (arith, call.below_word)) (omega arith)
              {S = Bytes × S} mode size _ _ _ (ap done not_short)
            ∙ (let (vs, read, e) = memory_sizes pulled_before pulled_long in
                rw
                  (
                    keys_in_memory pulled_before pulled_long,
                    read,
                    answered vs e,
                    write-written (memory pulled_before pulled_long) vsizes_offset (bytes_of answer)
                        pulled_room,
                    offset_wrap,
                    sym bulk_shape,
                    memory_pushed pulled_before pulled_long,
                  )
                  refl))

    positive_size : 0 < size
    unfolding size
    positive_size = omega arith

    sent :
        length_bulk transfer d net a
          (record { mode = mode; count = count; offset = 0; size = size })
          (bulk, s)
        ≡ done (success, (written vsizes_offset (bytes_of answer) bulk, s))
    unfolding length_bulk
    sent =
        rw (length_bulk, positive_count positive, positive_count positive_size, valid)
          (forwarded net a
              (length_ult transfer d a
                (record { mode = mode; count = count; offset = 0; size = size }))
              (bulk, s) sound
            ∙ handled)

    whole : wrap (8 * count + length keys + 8 * count) ≡ size
    unfolding size
    whole = omega (arith, call.below_word)

    exposed_call :
        AllWords answer
        → length_exposed transfer d net a mode count keys ksizes vsizes s
          ≡ done (success, (some answer, s))
    unfolding length_exposed bulk size vsizes_offset
    exposed_call words =
        rw
          (
            length_exposed,
            total_of_keys call,
            whole,
            exposed {S = Bytes × S} net a _ (bulk, s) sound,
            sent,
            sizes_at-written vsizes_offset count answer bulk words answer_count
                (omega (arith, length-bulk)),
          )
          refl

    handled_direct : length_direct_ult transfer d a mode keys ksizes s ≡ done (success, (answer, s))
    unfolding length_direct_ult
    handled_direct =
        rw
          (
            length_direct_ult,
            found {S = List ℕ × S} net a true (d.supports_mode mode) _ _ sound refl supported,
            call.keys_nonempty,
            answered (replicate (length ksizes) 0)
                (length-replicate (length ksizes) 0 ∙ call.key_count),
          )
          refl

    direct :
        length_direct transfer d net a mode count (some keys) (some ksizes) (some vsizes) s
        ≡ done (success, (some answer, s))
    unfolding length_direct
    direct =
        rw
          (
            length_direct,
            positive_count positive,
            valid,
            array_keys call,
            array_room,
            total_of_keys call,
            slice_whole keys,
            received net a decode_items (length_direct_ult transfer d a mode keys ksizes) vsizes
                answer s s success answer sound handled_direct
                (decode_items_same answer vsizes (answer_count ∙ sym room)),
          )
          refl

    -- Over a sound network whose transfers copy, with room in the buffer of the handler and a mode that
    -- client and database accept and that does not wait, and over a database that keeps the laws and has
    -- values below a word, a packed `length` of at least one non-empty key succeeds, leaves in the memory
    -- of the client for each key the size of its value or YOKAN_KEY_NOT_FOUND, and changes nothing.
    pub length_packed_remote :
        AllWords (map (λ k. size_of (laws.view s k)) (cut ksizes keys))
        → length_packed transfer d net a mode count (some keys) (some ksizes) (some vsizes) s
          ≡ done (success, (some (map (λ k. size_of (laws.view s k)) (cut ksizes keys)), s))
    unfolding length_packed answer
    length_packed_remote words = elim (Bool-cases (has mode mode_no_rdma)) [
      | inl e ↦ rw (length_packed, e) direct
      | inr e ↦
          rw
            (
              length_packed,
              e,
              positive_count positive,
              array_keys call,
              array_room,
              total_of_keys call,
              positive_count (some_key ksizes call positive),
              slice_whole keys,
            )
            (exposed_call words)
    ]
