-- ===== src/Rpc/Exists/Remote.antt =====
-- An `exists` by a client, and the keys of the database at the other end.
use mochi_yokan.Prelude.{
  ℕ, zero, suc, ◌+◌, ◌*◌, ◌≤◌, ◌<◌, ◌≡◌, refl, sym, ap, ◌∙◌, true, false, some, List, [], ◌∷◌, ◌++◌,
  arith, ltb, map, length, take, drop, take_all, drop_all, length-take, wrap, replicate,
  length-replicate, done, length-append, length-drop, append-nil, append_assoc, le→ltb, Bool-cases,
  inl, inr,
}
use mochi_yokan.Common.{Bytes, ok, mode_no_rdma, mode_wait, has}
use mochi_yokan.BitField.{BitField, test, AllBytes, IsValid}
use mochi_yokan.Memory.{slice, bytes_of, cut, Fits, written, write-written, length-written}
use mochi_yokan.Database.{Database}
use mochi_yokan.Database.Laws.{Laws}
use mochi_yokan.Database.Spec.{is_some, flags_from}
use mochi_yokan.Rpc.Codes.{success}
use mochi_yokan.Rpc.Call.{Transfer, IsCopy, Arrival, Network, is_mode_valid}
use mochi_yokan.Rpc.Sound.{IsSound, forwarded, exposed, found, buffered}
use mochi_yokan.Rpc.Wire.{decode_items, decode_items_same, received}
use mochi_yokan.Rpc.Layout.{
  IsKeys, slice_last, array_within, slice_whole, positive_count, length-key_words, total_of_keys,
  array_keys, some_key,
}
use mochi_yokan.Rpc.Exchange.{
  slice-written, pushed, pulled_keys, memory_of_sizes, length-memory_of_sizes, written-behind,
}
use mochi_yokan.Rpc.Exists.{
  flags_size, exists_ult, exists_direct_ult, exists_direct, exists_bulk, exists_exposed,
  exists_packed,
}

AllBytes-replicate : (n : ℕ) → AllBytes (replicate n 0)
AllBytes-replicate zero = tt
AllBytes-replicate (suc n) = (omega arith, AllBytes-replicate n)

-- The size of a bit field plays no part in its bits.
sized :
    (m : ℕ) (f : BitField) (i n : ℕ)
    → flags_from (record { bytes = f.bytes; size = m }) i n ≡ flags_from f i n
unfolding flags_from test
sized m f i zero = refl
sized m f i (suc n) = ap (◌∷◌ (test f i)) (sized m f (suc i) n)

module _ (transfer : Transfer) {S : Type 0} (d : Database S) (laws : Laws d) (net : Network)
    (a : Arrival) (mode count : ℕ) (keys : Bytes) (ksizes : List ℕ) (flags : Bytes) (s : S)
    (copies : IsCopy transfer) (sound : IsSound net a) (supported : d.supports_mode mode ≡ true)
    (no_wait : has mode mode_wait ≡ false) (call : IsKeys count keys ksizes)
    (room : length flags ≡ count) where
  fits : Fits ksizes keys
  fits = record {
    within = omega (arith, call.keys_whole);
    below_word = omega (arith, call.below_word);
  }

  zeros : Bytes
  zeros = replicate (flags_size count) 0

  answer :
      (f : BitField) × (d.exists mode keys ksizes (record { bytes = zeros; size = count }) s
        ≡ done (ok, f, s))
      × (flags_from f 0 count ≡ map (λ k. is_some (laws.view s k)) (cut ksizes keys))
      × (length f.bytes ≡ flags_size count)
  unfolding zeros
  answer =
      let valid : IsValid (record { bytes = replicate (flags_size count) 0; size = count }) =
        record {
          bytes = AllBytes-replicate (flags_size count);
          room = omega (arith, length-replicate {A = ℕ} (flags_size count) 0);
        } in
      let (f, got, flagged, size) =
        laws.exists_law mode keys ksizes
          (record { bytes = replicate (flags_size count) 0; size = count }) s no_wait valid
          (omega (arith, call.key_count)) fits in
      (
        f,
        got,
        rw (sym call.key_count) flagged,
        size ∙ length-replicate {A = ℕ} (flags_size count) 0,
      )

  bulk : Bytes
  bulk = bytes_of ksizes ++ (keys ++ flags)

  bulk_shape : bulk ≡ (bytes_of ksizes ++ []) ++ ([] ++ (keys ++ flags))
  unfolding bulk
  bulk_shape = ap (λ xs. xs ++ (keys ++ flags)) (sym (append-nil (bytes_of ksizes)))

  size : ℕ
  size = 8 * count + length keys + count

  flags_offset : ℕ
  flags_offset = 8 * count + length keys

  length-bulk : flags_offset + count ≡ length bulk
  unfolding bulk flags_offset
  length-bulk = omega (
    arith,
    length-append (bytes_of ksizes) (keys ++ flags),
    length-append keys flags,
    length-key_words call,
    room,
  )

  sizes_wrap : wrap (8 * count) ≡ 8 * count
  sizes_wrap = omega (arith, call.below_word)

  offset_wrap : wrap (0 + (8 * count + length keys)) ≡ 8 * count + length keys
  offset_wrap = omega (arith, call.below_word)

  whole : wrap (8 * count + length keys + count) ≡ size
  unfolding size
  whole = omega (arith, call.below_word)

  take_most : take count flags ≡ flags
  take_most = rw (sym room) (take_all flags)

  few : 0 < count → flags_size count ≤ count
  few h = omega arith

  not_short :
      0 < count → ltb size (wrap (wrap (8 * count + length keys) + flags_size count)) ≡ false
  unfolding size
  not_short h =
      le→ltb (8 * count + length keys + count)
        (wrap (wrap (8 * count + length keys) + flags_size count)) (omega (arith, call.below_word))

  module _ (before : Bytes)
      (long : 8 * count + length keys + flags_size count ≤ length before) where
    memory : Bytes
    memory = written (8 * count) keys before

    length-memory : length memory ≡ length before
    unfolding memory
    length-memory = length-written (8 * count) keys before (omega arith)

    keys_in_memory : slice memory (8 * count) (length keys) ≡ done keys
    unfolding memory
    keys_in_memory = slice-written (8 * count) keys before (omega arith) (length keys) refl

    zeros_room : flags_offset + length zeros ≤ length memory
    unfolding flags_offset zeros
    zeros_room = omega (arith, length-memory, length-replicate {A = ℕ} (flags_size count) 0)

    blank : Bytes
    blank = written flags_offset zeros memory

    length-blank : length blank ≡ length before
    unfolding blank
    length-blank = length-written flags_offset zeros memory zeros_room ∙ length-memory

    blank_flags : slice blank flags_offset (flags_size count) ≡ done zeros
    unfolding blank zeros
    blank_flags =
        slice-written flags_offset zeros memory zeros_room (flags_size count)
          (length-replicate {A = ℕ} (flags_size count) 0)

    module _ (fs : Bytes) (fs_size : length fs ≡ flags_size count) (positive : 0 < count) where
      fs_room : flags_offset + length fs ≤ length blank
      unfolding flags_offset
      fs_room = omega (arith, length-blank)

      fs_pushed :
          transfer (written flags_offset fs blank) flags_offset bulk flags_offset (flags_size count)
          ≡ some (written flags_offset fs bulk)
      fs_pushed =
          pushed flags_offset fs blank fs_room transfer bulk (flags_size count) copies fs_size
            (omega (arith, length-bulk, few positive))

  module _ (buffer : Bytes) (given : a.buffer ≡ some buffer)
      (long : 8 * count + length keys + count ≤ length buffer) (valid : is_mode_valid mode ≡ true)
      (positive : 0 < count) where
    pulled_before : Bytes
    pulled_before = memory_of_sizes ksizes [] (8 * count) buffer

    pulled_long : 8 * count + length keys + flags_size count ≤ length pulled_before
    unfolding pulled_before
    pulled_long = omega (
      arith,
      length-memory_of_sizes ksizes [] buffer (8 * count) (omega (arith, call.key_count))
          (omega arith),
      few positive,
    )

    module _ (f : BitField)
        (got : d.exists mode keys ksizes (record { bytes = zeros; size = count }) s
          ≡ done (ok, f, s))
        (f_size : length f.bytes ≡ flags_size count) where
      handled :
          exists_ult transfer d a
            (record { mode = mode; count = count; offset = 0; size = size })
            (bulk, s)
          ≡ done (success, (written flags_offset f.bytes bulk, s))
      unfolding exists_ult flags_offset size memory pulled_before blank zeros
      handled =
          rw
            (
              exists_ult,
              buffered {S = Bytes × S} net a (d.supports_mode mode) buffer _ (bulk, s) sound
                  supported given,
              sizes_wrap,
              bulk_shape,
            )
            (pulled_keys transfer copies call [] [] flags buffer (8 * count) (8 * count)
                (omega arith) (omega arith) (omega (arith, call.below_word)) (omega arith)
                {S = Bytes × S} mode size _ _ _ (ap done (not_short positive))
              ∙ rw
                  (
                    keys_in_memory pulled_before pulled_long,
                    write-written (memory pulled_before pulled_long) flags_offset zeros
                        (zeros_room pulled_before pulled_long),
                    blank_flags pulled_before pulled_long,
                    got,
                    write-written (blank pulled_before pulled_long) flags_offset f.bytes
                        (fs_room pulled_before pulled_long f.bytes f_size positive),
                    offset_wrap,
                    sym bulk_shape,
                    fs_pushed pulled_before pulled_long f.bytes f_size positive,
                  )
                  refl)

      positive_size : 0 < size
      unfolding size
      positive_size = omega arith

      sent :
          exists_bulk transfer d net a
            (record { mode = mode; count = count; offset = 0; size = size })
            (bulk, s)
          ≡ done (success, (written flags_offset f.bytes bulk, s))
      unfolding exists_bulk
      sent =
          rw (exists_bulk, positive_count positive, positive_count positive_size, valid)
            (forwarded net a
                (exists_ult transfer d a
                  (record { mode = mode; count = count; offset = 0; size = size }))
                (bulk, s) sound
              ∙ handled)

      result : Bytes
      result = f.bytes ++ drop (flags_size count) flags

      length-result : length result ≡ count
      unfolding result
      length-result = omega (
        arith,
        length-append f.bytes (drop (flags_size count) flags),
        length-drop (flags_size count) flags,
        few positive,
      )

      length-front : length (bytes_of ksizes ++ keys) ≡ flags_offset
      unfolding flags_offset
      length-front = omega (arith, length-append (bytes_of ksizes) keys, length-key_words call)

      read_back :
          slice (written flags_offset f.bytes bulk) (8 * count + length keys) count ≡ done result
      unfolding bulk result flags_offset
      read_back =
          rw
            (
              sym (append_assoc (bytes_of ksizes) keys flags),
              written-behind flags_offset (bytes_of ksizes ++ keys) f.bytes flags length-front,
              f_size,
            )
            (slice_last (bytes_of ksizes ++ keys) result flags_offset count length-front
              length-result)

      exposed_call :
          exists_exposed transfer d net a mode count keys ksizes flags s
          ≡ done (success, (result, s))
      unfolding exists_exposed bulk size flags_offset result
      exposed_call =
          rw
            (
              exists_exposed,
              total_of_keys call,
              whole,
              exposed {S = Bytes × S} net a _ (bulk, s) sound,
              sent,
              read_back,
            )
            refl

      handled_direct :
          exists_direct_ult transfer d a mode keys ksizes s ≡ done (success, (f.bytes, s))
      unfolding exists_direct_ult zeros
      handled_direct =
          rw
            (
              exists_direct_ult,
              found {S = Bytes × S} net a true (d.supports_mode mode) _ _ sound refl supported,
              call.keys_nonempty,
              call.key_count,
              got,
            )
            refl

      direct :
          exists_direct transfer d net a mode count (some keys) (some ksizes) (some flags) s
          ≡ done (success, (some result, s))
      unfolding exists_direct result
      direct =
          rw
            (
              exists_direct,
              positive_count positive,
              valid,
              array_keys call,
              array_within (flags_size count) flags (omega (arith, few positive)),
              total_of_keys call,
              slice_whole keys,
              received net a decode_items (exists_direct_ult transfer d a mode keys ksizes)
                  (take (flags_size count) flags) f.bytes s s success f.bytes sound handled_direct
                  (decode_items_same f.bytes (take (flags_size count) flags)
                    (omega (arith, length-take (flags_size count) flags, few positive))),
            )
            refl

      packed :
          exists_packed transfer d net a mode count (some keys) (some ksizes) (some flags) s
          ≡ done (success, (some result, s))
      unfolding exists_packed
      packed = elim (Bool-cases (has mode mode_no_rdma)) [
        | inl e ↦ rw (exists_packed, e) direct
        | inr e ↦
            rw
              (
                exists_packed,
                e,
                positive_count positive,
                array_keys call,
                array_within count flags (omega arith),
                take_most,
                total_of_keys call,
                positive_count (some_key ksizes call positive),
                slice_whole keys,
                exposed_call,
                drop_all count flags room,
                append-nil,
              )
              refl
      ]

    -- Over a sound network whose transfers copy, with room in the buffer of the handler and a mode that
    -- client and database accept and that does not wait, and over a database that keeps the laws, a packed
    -- `exists` of at least one non-empty key succeeds, changes nothing in the database, and leaves in the
    -- memory of the client as many bytes as the flags need, whose bits say which keys are there, in front
    -- of the rest of what it had, for which it must have given a byte for each key.
    pub exists_packed_remote :
        (fs : Bytes) × (exists_packed transfer d net a mode count
            (some keys)
            (some ksizes)
            (some flags)
            s
          ≡ done (success, (some (fs ++ drop (flags_size count) flags), s)))
        × (length fs ≡ flags_size count)
        × (flags_from (record { bytes = fs; size = count }) 0 count
            ≡ map (λ k. is_some (laws.view s k)) (cut ksizes keys))
    unfolding result
    exists_packed_remote =
        let (f, got, flagged, f_size) = answer in
        (f.bytes, packed f got f_size, f_size, sized count f 0 count ∙ flagged)
