-- ===== src/Rpc/Get/Remote.antt =====
-- A packed `get` by a client, and the values of the database at the other end.
use native.Mathlib.Nat.{zero-add}
use mochi_yokan.Prelude.{
  ℕ, ◌+◌, ◌-◌, ◌*◌, ◌≤◌, ◌<◌, ◌≡◌, refl, sym, ap, ◌∙◌, true, false, Option, some, List, [], ◌∷◌,
  ◌++◌, arith, map, ◌==◌, length, take, drop, take_all, drop_all, word, wrap, replicate,
  length-replicate, length-take, length-drop, length-map, done, length-append, append-nil,
  append_assoc, take-append, drop-append, le→ltb, ==_iff, if◌then◌else◌, Bool-cases, inl, inr,
}
use mochi_yokan.Common.{Bytes, ok, last_valid_size, mode_no_rdma, mode_wait, mode_consume, has}
use mochi_yokan.Memory.{
  slice, slice_within, bytes_of, cut, Fits, written, write-written, length-cut, length-written,
}
use mochi_yokan.Database.{Database}
use mochi_yokan.Database.Laws.{Laws}
use mochi_yokan.Database.Spec.{packed_sizes, packed_bytes}
use mochi_yokan.Database.Packed.{length-packed_bytes, length-packed_sizes}
use mochi_yokan.Rpc.Codes.{success}
use mochi_yokan.Rpc.Call.{Transfer, IsCopy, Arrival, Network, sizes_at, array, is_mode_valid}
use mochi_yokan.Rpc.Sound.{IsSound, forwarded, exposed, found, buffered}
use mochi_yokan.Rpc.Wire.{decode_values, decode_items_same, decode_items_within, received}
use mochi_yokan.Rpc.Layout.{
  AllWords, length-bytes_of, IsKeys, array_whole, slice_whole, positive_count, length-key_words,
  total_of_keys, array_keys, some_key,
}
use mochi_yokan.Rpc.Exchange.{
  slice-written, take-drop-written, pushed, pulled_keys, memory_of_sizes, length-memory_of_sizes,
  written-behind, drop-written, sizes_at_within, sizes_at-written,
}
use mochi_yokan.Rpc.Get.{
  get_short, get_values, get_ult, get_direct_ult, get_direct, get_bulk, get_exposed, get_packed,
}

nothing : (xs : Bytes) → length xs ≡ 0 → xs ≡ []
nothing [] e = refl
nothing (x ∷ xs) e = absurd (omega arith)

module _ (transfer : Transfer) {S : Type 0} (d : Database S) (laws : Laws d) (net : Network)
    (a : Arrival) (mode count : ℕ) (keys : Bytes) (ksizes : List ℕ) (values : Bytes)
    (vsizes : List ℕ) (s : S) (copies : IsCopy transfer) (sound : IsSound net a)
    (supported : d.supports_mode mode ≡ true) (no_wait : has mode mode_wait ≡ false)
    (no_consume : has mode mode_consume ≡ false) (call : IsKeys count keys ksizes)
    (room : length vsizes ≡ count) (below_word : 16 * count + length keys + length values < word)
    (short : length values ≤ last_valid_size) where
  fits : Fits ksizes keys
  fits = record {
    within = omega (arith, call.keys_whole);
    below_word = omega (arith, call.below_word);
  }

  found_values : List (Option Bytes)
  found_values = map (laws.view s) (cut ksizes keys)

  answer : List ℕ
  answer = packed_sizes (length values) false found_values

  payload : Bytes
  payload = packed_bytes (length values) found_values

  -- What the database makes of memory for the values.
  filled : Bytes → Bytes
  filled vals = written 0 payload vals

  answered :
      (vals : Bytes) (vs : List ℕ)
      → length vals ≡ length values
      → length vs ≡ count
      → d.get mode true keys ksizes vals vs s
        ≡ done
            (ok, record { vals = filled vals; vals_size = 0 + length payload; vsizes = answer }, s)
  unfolding filled payload answer found_values
  answered vals vs e h = rw (sym e) (
      laws.get_law mode keys ksizes vals vs s no_wait no_consume (call.key_count ∙ sym h) fits
        (omega arith))

  answer_count : length answer ≡ count
  unfolding answer found_values
  answer_count = omega (
    arith,
    length-packed_sizes (length values) false (map (laws.view s) (cut ksizes keys)),
    length-map (laws.view s) (cut ksizes keys),
    length-cut ksizes keys,
    call.key_count,
  )

  length-answer : length (bytes_of answer) ≡ 8 * count
  length-answer = length-bytes_of answer ∙ ap (λ n. 8 * n) answer_count

  payload_room : length payload ≤ length values
  unfolding payload
  payload_room = length-packed_bytes (length values) found_values

  length-filled :
      (vals : Bytes) → length vals ≡ length values → length (filled vals) ≡ length values
  unfolding filled
  length-filled vals e = length-written 0 payload vals (omega (arith, payload_room)) ∙ e

  size : ℕ
  size = 16 * count + length keys + length values

  vals_offset : ℕ
  vals_offset = 16 * count + length keys

  bulk : Bytes
  bulk = bytes_of ksizes ++ (bytes_of vsizes ++ (keys ++ values))

  bulk_shape : bulk ≡ (bytes_of ksizes ++ []) ++ (bytes_of vsizes ++ (keys ++ values))
  unfolding bulk
  bulk_shape =
      ap (λ xs. xs ++ (bytes_of vsizes ++ (keys ++ values))) (sym (append-nil (bytes_of ksizes)))

  length-vsizes : length (bytes_of vsizes) ≡ 8 * count
  length-vsizes = length-bytes_of vsizes ∙ ap (λ n. 8 * n) room

  length-bulk : size ≡ length bulk
  unfolding bulk size
  length-bulk = omega (
    arith,
    length-append (bytes_of ksizes) (bytes_of vsizes ++ (keys ++ values)),
    length-append (bytes_of vsizes) (keys ++ values),
    length-append keys values,
    length-key_words call,
    length-vsizes,
  )

  sizes_wrap : wrap (8 * count) ≡ 8 * count
  sizes_wrap = omega (arith, call.below_word)

  keys_wrap : wrap (8 * count * 2) ≡ 16 * count
  keys_wrap = omega (arith, call.below_word)

  vals_wrap : wrap (16 * count + length keys) ≡ 16 * count + length keys
  vals_wrap = omega (arith, call.below_word)

  push_sizes_wrap : wrap (0 + 8 * count) ≡ 8 * count
  push_sizes_wrap = omega (arith, call.below_word)

  push_vals_wrap : wrap (0 + (16 * count + length keys)) ≡ 16 * count + length keys
  push_vals_wrap = omega (arith, call.below_word)

  whole : wrap (8 * count + 8 * count + length keys + length values) ≡ size
  unfolding size
  whole = omega (arith, below_word)

  remaining : size - (16 * count + length keys) ≡ length values
  unfolding size
  remaining = omega arith

  not_short :
      (memory : Bytes)
      → get_short transfer d
          (record { mode = mode; count = count; offset = 0; size = size })
          true
          memory
          (length keys)
        ≡ done false
  unfolding get_short size
  not_short memory =
      rw
        (
          get_short,
          sizes_wrap,
          keys_wrap,
          vals_wrap,
          le→ltb (16 * count + length keys + length values) (16 * count + length keys)
              (omega arith),
        )
        refl

  front : Bytes
  front = bytes_of ksizes ++ (bytes_of vsizes ++ keys)

  length-front : length front ≡ 16 * count + length keys
  unfolding front
  length-front = omega (
    arith,
    length-append (bytes_of ksizes) (bytes_of vsizes ++ keys),
    length-append (bytes_of vsizes) keys,
    length-key_words call,
    length-vsizes,
  )

  bulk_in_parts : bulk ≡ front ++ values
  unfolding bulk front
  bulk_in_parts =
      rw
        (
          append_assoc (bytes_of ksizes) (bytes_of vsizes ++ keys) values,
          append_assoc (bytes_of vsizes) keys values,
        )
        refl

  -- The memory of the client, and of the handler once it has the keys.
  module _ (before : Bytes) (long : 16 * count + length keys + length values ≤ length before) where
    memory : Bytes
    memory = written (16 * count) keys before

    length-memory : length memory ≡ length before
    unfolding memory
    length-memory = length-written (16 * count) keys before (omega arith)

    keys_in_memory : slice memory (16 * count) (length keys) ≡ done keys
    unfolding memory
    keys_in_memory = slice-written (16 * count) keys before (omega arith) (length keys) refl

    stale : Bytes
    stale = take (length values) (drop vals_offset memory)

    length-stale : length stale ≡ length values
    unfolding stale vals_offset
    length-stale = omega (
      arith,
      length-take (length values) (drop (16 * count + length keys) memory),
      length-drop (16 * count + length keys) memory,
      length-memory,
    )

    memory_vals : slice memory (16 * count + length keys) (length values) ≡ done stale
    unfolding stale vals_offset
    memory_vals =
        slice_within memory (16 * count + length keys) (length values)
          (omega (arith, length-memory))

    memory_sizes :
        (vs : List ℕ) × (sizes_at count (8 * count) memory ≡ done vs) × (length vs ≡ count)
    memory_sizes = sizes_at_within count (8 * count) memory (omega (arith, length-memory))

    reply : Bytes
    reply = filled stale

    length-reply : length reply ≡ length values
    unfolding reply
    length-reply = length-filled stale length-stale

    reply_room : vals_offset + length reply ≤ length memory
    unfolding vals_offset
    reply_room = omega (arith, length-reply, length-memory)

    with_vals : Bytes
    with_vals = written vals_offset reply memory

    length-with_vals : length with_vals ≡ length before
    unfolding with_vals
    length-with_vals = length-written vals_offset reply memory reply_room ∙ length-memory

    sizes_room : 8 * count + length (bytes_of answer) ≤ length with_vals
    sizes_room = omega (arith, length-with_vals, length-answer)

    memory' : Bytes
    memory' = written (8 * count) (bytes_of answer) with_vals

    length-memory' : length memory' ≡ length before
    unfolding memory'
    length-memory' =
        length-written (8 * count) (bytes_of answer) with_vals sizes_room ∙ length-with_vals

    vals_there : take (length values) (drop vals_offset memory') ≡ reply
    unfolding memory' with_vals vals_offset
    vals_there =
        rw
          (drop-written (8 * count) (16 * count + length keys) (bytes_of answer) with_vals
            (omega (arith, length-with_vals)) (omega (arith, length-answer)))
          (ap (λ n. take n (drop (16 * count + length keys) with_vals)) (sym length-reply)
            ∙ take-drop-written (16 * count + length keys) reply memory reply_room)

    vals_pushed :
        transfer memory' vals_offset bulk vals_offset (length values) ≡ some (front ++ reply)
    unfolding vals_offset size
    vals_pushed =
        copies memory' (16 * count + length keys) bulk (16 * count + length keys) (length values)
          (omega (arith, length-memory')) (omega (arith, length-bulk))
        ∙ rw
            (
              vals_there,
              bulk_in_parts,
              written-behind (16 * count + length keys) front reply values length-front,
              drop_all (length reply) values (sym length-reply),
              append-nil,
            )
            refl

    sizes_pushed :
        (rest : Bytes)
        → length rest ≡ length values
        → transfer memory' (8 * count) (front ++ rest) (8 * count) (8 * count)
          ≡ some (written (8 * count) (bytes_of answer) (front ++ rest))
    unfolding memory'
    sizes_pushed rest e =
        pushed (8 * count) (bytes_of answer) with_vals sizes_room transfer (front ++ rest)
          (8 * count) copies length-answer
          (omega (arith, length-append front rest, length-front, length-answer))

    -- What the client has of the values: theirs, if there are any, and else what it had.
    after : Bytes
    after = if 0 + length payload == 0 then values else reply

    length-after : length after ≡ length values
    unfolding after
    length-after = elim (Bool-cases (0 + length payload == 0)) [
      | inl e ↦ rw e refl
      | inr e ↦ rw e length-reply
    ]

    after_shape : (rest : Bytes) × (after ≡ payload ++ rest)
    unfolding after reply filled
    after_shape = elim (Bool-cases (0 + length payload == 0)) [
      | inl e ↦ (
        values,
        rw e (
            ap (λ xs. xs ++ values)
              (sym (nothing payload (omega (arith, (==_iff (0 + length payload) 0).0 e))))),
      )
      | inr e ↦ (drop (0 + length payload) stale, rw e refl)
    ]

    stored :
        get_values transfer d
          (record { mode = mode; count = count; offset = 0; size = size })
          true
          bulk
          s
          memory
          ksizes
          (length keys)
        ≡ done (success, (written (8 * count) (bytes_of answer) (front ++ after), s))
    unfolding get_values after with_vals memory' vals_offset reply
    stored =
        let (vs, read, e) = memory_sizes in
        rw
          (
            get_values,
            sizes_wrap,
            keys_wrap,
            remaining,
            keys_in_memory,
            memory_vals,
            read,
            answered stale vs length-stale e,
            write-written memory (16 * count + length keys) reply reply_room,
            write-written with_vals (8 * count) (bytes_of answer) sizes_room,
            push_sizes_wrap,
            push_vals_wrap,
          )
          (elim (Bool-cases (0 + length payload == 0)) [
            | inl h ↦ rw (h, bulk_in_parts, sizes_pushed values refl) refl
            | inr h ↦ rw (h, vals_pushed, sizes_pushed reply length-reply) refl
          ])

    -- What the client reads of it.
    read_sizes :
        AllWords answer
        → sizes_at count (8 * count) (written (8 * count) (bytes_of answer) (front ++ after))
          ≡ done answer
    read_sizes words =
        sizes_at-written (8 * count) count answer (front ++ after) words answer_count
          (omega (arith, length-append front after, length-front))

    read_vals :
        slice
          (written (8 * count) (bytes_of answer) (front ++ after))
          (16 * count + length keys)
          (length values)
        ≡ done after
    read_vals =
        let space : 8 * count + length (bytes_of answer) ≤ length (front ++ after) =
          omega (arith, length-append front after, length-front, length-answer) in
        slice_within (written (8 * count) (bytes_of answer) (front ++ after))
          (16 * count + length keys) (length values)
          (omega (
            arith,
            length-written (8 * count) (bytes_of answer) (front ++ after) space,
            length-append front after,
            length-front,
            length-after,
          ))
        ∙ rw
            (
              drop-written (8 * count) (16 * count + length keys) (bytes_of answer) (front ++ after)
                  (omega arith) (omega (arith, length-answer)),
              drop-append (16 * count + length keys) front after length-front,
              sym length-after,
              take_all after,
            )
            refl

  module _ (buffer : Bytes) (given : a.buffer ≡ some buffer)
      (long : 16 * count + length keys + length values ≤ length buffer)
      (valid : is_mode_valid mode ≡ true) (positive : 0 < count) where
    pulled_before : Bytes
    pulled_before = memory_of_sizes ksizes [] (8 * count) buffer

    pulled_long : 16 * count + length keys + length values ≤ length pulled_before
    unfolding pulled_before
    pulled_long = omega (
      arith,
      length-memory_of_sizes ksizes [] buffer (8 * count) (omega (arith, call.key_count))
          (omega arith),
    )

    left : Bytes
    left = written (8 * count) (bytes_of answer) (front ++ after pulled_before pulled_long)

    handled :
        get_ult transfer d a
          (record { mode = mode; count = count; offset = 0; size = size })
          true
          (bulk, s)
        ≡ done (success, (left, s))
    unfolding get_ult left memory pulled_before
    handled =
        rw
          (
            get_ult,
            buffered {S = Bytes × S} net a (d.supports_mode mode) buffer _ (bulk, s) sound supported
                given,
            sizes_wrap,
            keys_wrap,
          )
          (rw bulk_shape (
            pulled_keys transfer copies call [] (bytes_of vsizes) values buffer (8 * count)
              (16 * count) (omega arith) (omega (arith, length-vsizes))
              (omega (arith, call.below_word)) (omega arith) {S = Bytes × S} mode size _ _ _
              (not_short (memory_of_sizes ksizes [] (8 * count) buffer))
            ∙ rw (sym bulk_shape) (stored pulled_before pulled_long)))

    positive_size : 0 < size
    unfolding size
    positive_size = omega arith

    sent :
        get_bulk transfer d net a
          (record { mode = mode; count = count; offset = 0; size = size })
          true
          (bulk, s)
        ≡ done (success, (left, s))
    unfolding get_bulk
    sent =
        rw (get_bulk, positive_count positive, positive_count positive_size, valid)
          (forwarded net a
              (get_ult transfer d a (record { mode = mode; count = count; offset = 0; size = size })
                true)
              (bulk, s) sound
            ∙ handled)

    exposed_call :
        AllWords answer
        → get_exposed transfer d net a mode count true keys ksizes values vsizes s
          ≡ done (success, ((answer, after pulled_before pulled_long), s))
    unfolding get_exposed bulk size left
    exposed_call words =
        rw
          (
            get_exposed,
            total_of_keys call,
            whole,
            exposed {S = Bytes × S} net a _ (bulk, s) sound,
            sent,
            read_sizes pulled_before pulled_long words,
            read_vals pulled_before pulled_long,
          )
          refl

    handled_direct :
        get_direct_ult transfer d a mode keys ksizes (length values) s
        ≡ done (success, ((answer, payload), s))
    unfolding get_direct_ult filled
    handled_direct =
        let zeros : Bytes = replicate (length values) 0 in
        rw
          (
            get_direct_ult,
            found {S = (List ℕ × Bytes) × S} net a true (d.supports_mode mode) _ _ sound refl
                supported,
            call.keys_nonempty,
            answered zeros (replicate (length ksizes) 0)
                (length-replicate {A = ℕ} (length values) 0)
                (length-replicate {A = ℕ} (length ksizes) 0 ∙ call.key_count),
            zero-add,
          )
          (ap (λ xs. done (success, ((answer, xs), s)))
            (take-append (length payload) payload (drop (length payload) zeros) refl))

    kept : Bytes
    kept = drop (length payload) values

    decoded :
        decode_values (answer, payload) (vsizes, some values)
        ≡ some (answer, some (payload ++ kept))
    unfolding decode_values kept
    decoded =
        rw
          (
            decode_values,
            decode_items_same answer vsizes (answer_count ∙ sym room),
            decode_items_within payload values payload_room,
          )
          refl

    array_room : array count vsizes ≡ done vsizes
    array_room = rw (sym room) (array_whole vsizes)

    direct :
        get_direct transfer d net a mode count
          (some keys)
          (some ksizes)
          (length values)
          (some values)
          (some vsizes)
          s
        ≡ done (success, ((some answer, some (payload ++ kept)), s))
    unfolding get_direct
    direct =
        rw
          (
            get_direct,
            positive_count positive,
            valid,
            array_keys call,
            array_room,
            total_of_keys call,
            slice_whole keys,
            slice_whole values,
            received net a decode_values
                (get_direct_ult transfer d a mode keys ksizes (length values)) (vsizes, some values)
                (answer, some (payload ++ kept)) s s success (answer, payload) sound handled_direct
                decoded,
            drop_all (length values) values refl,
            append-nil,
          )
          refl

    packed :
        AllWords answer
        → (rest : Bytes) × (get_packed transfer d net a mode count
              (some keys)
              (some ksizes)
              (length values)
              (some values)
              (some vsizes)
              s
            ≡ done (success, ((some answer, some (payload ++ rest)), s)))
    unfolding get_packed
    packed words = elim (Bool-cases (has mode mode_no_rdma)) [
      | inl e ↦ (kept, rw (get_packed, e) direct)
      | inr e ↦
          (let (rest, shape) = after_shape pulled_before pulled_long in
            (
              rest,
              rw
                  (
                    get_packed,
                    e,
                    positive_count positive,
                    array_keys call,
                    array_room,
                    total_of_keys call,
                    positive_count (some_key ksizes call positive),
                    slice_whole keys,
                    slice_whole values,
                    exposed_call words,
                    drop_all (length values) values refl,
                    append-nil,
                    shape,
                  )
                  refl,
            ))
    ]

    -- Over a sound network whose transfers copy, with room in the buffer of the handler and a mode that
    -- client and database accept and that neither waits nor consumes, and over a database that keeps the
    -- laws and has values below a word, a packed `get` of at least one non-empty key succeeds, changes
    -- nothing in the database, and leaves in the memory of the client the sizes by which the contract
    -- answers and, at its start, the bytes of the values that fit; what the rest holds is not said.
    pub get_packed_remote :
        AllWords (packed_sizes (length values) false (map (laws.view s) (cut ksizes keys)))
        → (rest : Bytes) × (get_packed transfer d net a mode count
              (some keys)
              (some ksizes)
              (length values)
              (some values)
              (some vsizes)
              s
            ≡ done (
              success,
              (
                (
                  some (packed_sizes (length values) false (map (laws.view s) (cut ksizes keys))),
                  some (packed_bytes (length values) (map (laws.view s) (cut ksizes keys)) ++ rest),
                ),
                s,
              ),
            ))
    unfolding answer payload found_values
    get_packed_remote words = packed words
