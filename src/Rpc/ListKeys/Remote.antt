-- ===== src/Rpc/ListKeys/Remote.antt =====
-- A packed listing by a client, and the listing of the database at the other end.
use native.Mathlib.Nat.{zero-add}
use mochi_yokan.Prelude.{
  ℕ, ◌+◌, ◌*◌, ◌≤◌, ◌<◌, ◌≡◌, refl, sym, ap, ◌∙◌, true, false, some, List, [], ◌∷◌, ◌++◌, arith,
  ltb, length, take, drop, drop_all, word, wrap, length-take, length-drop, Outcome, done, ◌>>=◌,
  length-append, append-nil, append_assoc, take-append, drop-append, Bool-cases, inl, inr,
}
use mochi_yokan.Common.{Bytes, mode_no_rdma, has}
use mochi_yokan.Memory.{
  slice, slice_within, bytes_of, written, write-written, written-written, length-written, drop-drop,
}
use mochi_yokan.Filter.{Filter, Makers, make_filter}
use mochi_yokan.Database.{Database}
use mochi_yokan.Rpc.Codes.{Return, success}
use mochi_yokan.Rpc.Call.{Transfer, IsCopy, Arrival, Network, sizes_at, is_mode_valid}
use mochi_yokan.Rpc.Sound.{IsSound, forwarded, exposed, buffered}
use mochi_yokan.Rpc.Layout.{
  length-bytes_of, slice_part, slice_last, sizes_at_part, slice_whole, positive_count,
}
use mochi_yokan.Rpc.Exchange.{written-behind, sizes_at_within}
use mochi_yokan.Rpc.ListKeys.Direct.{IsListing, array_room, direct}
use mochi_yokan.Rpc.ListKeys.{
  ListRequest, pulled_if, list_keys_listed, list_keys_ult, list_keys_bulk, list_keys_exposed,
  list_keys_packed,
}

regroup : (x p r t : Bytes) → (x ++ (p ++ r)) ++ t ≡ (x ++ p) ++ (r ++ t)
regroup x p r t = rw (sym (append_assoc x p r), append_assoc (x ++ p) r t) refl

no_less : (n : ℕ) → ltb 0 n ≡ false → n ≡ 0
no_less n h = ground arith

nothing_in_front :
    (x y buffer : Bytes) (n : ℕ)
    → length x + length y ≡ n
    → n ≡ 0
    → buffer ≡ x ++ (y ++ drop n buffer)
nothing_in_front [] [] buffer n e z = rw z refl
nothing_in_front (x ∷ xs) y buffer n e z = absurd (omega arith)
nothing_in_front [] (y ∷ ys) buffer n e z = absurd (omega arith)

module _ (transfer : Transfer) (makers : Makers) {S : Type 0} (d : Database S) (net : Network)
    (a : Arrival) (mode count : ℕ) (from descriptor : Bytes) (f : Filter) (keys : Bytes)
    (ksizes : List ℕ) (s : S) (sizes : List ℕ) (listed : Bytes) (copies : IsCopy transfer)
    (sound : IsSound net a) (supported : d.supports_mode mode ≡ true)
    (made : make_filter makers mode descriptor ≡ some f)
    (answer : IsListing d mode from f count (length keys) s sizes listed)
    (room : length ksizes ≡ count)
    (below_word : length from + length descriptor + 8 * count + length keys < word) where
  abbrev request : ListRequest
  request = record {
    mode = mode;
    packed = true;
    count = count;
    from_ksize = length from;
    filter_size = length descriptor;
    offset = 0;
    keys_buf_size = length keys;
  }

  ksizes_offset : ℕ
  ksizes_offset = length from + length descriptor

  length-ksizes_offset : length from + length descriptor ≡ ksizes_offset
  unfolding ksizes_offset
  length-ksizes_offset = refl

  bulk : Bytes
  bulk = from ++ (descriptor ++ (bytes_of ksizes ++ keys))

  length-ksizes : length (bytes_of ksizes) ≡ 8 * count
  length-ksizes = length-bytes_of ksizes ∙ ap (λ n. 8 * n) room

  length-sizes : length (bytes_of sizes) ≡ 8 * count
  length-sizes = length-bytes_of sizes ∙ ap (λ n. 8 * n) answer.size_count

  length-bulk : length bulk ≡ ksizes_offset + 8 * count + length keys
  unfolding bulk ksizes_offset
  length-bulk = omega (
    arith,
    length-append from (descriptor ++ (bytes_of ksizes ++ keys)),
    length-append descriptor (bytes_of ksizes ++ keys),
    length-append (bytes_of ksizes) keys,
    length-ksizes,
  )

  length-front : length (from ++ descriptor) ≡ ksizes_offset
  unfolding ksizes_offset
  length-front = length-append from descriptor

  bulk_parts : bulk ≡ (from ++ descriptor) ++ (bytes_of ksizes ++ keys)
  unfolding bulk
  bulk_parts = sym (append_assoc from descriptor (bytes_of ksizes ++ keys))

  -- What the handler has once it pulled the start and the filter.
  memory : Bytes → Bytes
  memory buffer = from ++ (descriptor ++ drop ksizes_offset buffer)

  pulled_front :
      {T : Type 0} (buffer : Bytes) (call : Bytes → Outcome (Return × T)) (t : T)
      → ksizes_offset ≤ length buffer
      → pulled_if ksizes_offset (transfer bulk 0 buffer 0 ksizes_offset) buffer call t
        ≡ call (memory buffer)
  unfolding memory
  pulled_front {T} buffer call t h = elim (Bool-cases (ltb 0 ksizes_offset)) [
    | inl e ↦
        rw
          (
            e,
            copies bulk 0 buffer 0 ksizes_offset (omega (arith, length-bulk)) (omega arith),
            bulk_parts,
            take-append ksizes_offset (from ++ descriptor) (bytes_of ksizes ++ keys) length-front,
            zero-add,
            length-front,
            append_assoc from descriptor (drop ksizes_offset buffer),
          )
          refl
    | inr e ↦ rw e (
        ap call (
          nothing_in_front from descriptor buffer ksizes_offset (length-ksizes_offset)
            (no_less ksizes_offset e)))
  ]

  front_wrap : wrap (length from + length descriptor) ≡ length from + length descriptor
  front_wrap = omega (arith, below_word)

  no_sizes : wrap (length from + length descriptor + 0) ≡ length from + length descriptor
  no_sizes = omega (arith, below_word)

  push_wrap : wrap (0 + (length from + length descriptor)) ≡ length from + length descriptor
  push_wrap = omega (arith, below_word)

  sizes_wrap : wrap (8 * count) ≡ 8 * count
  sizes_wrap = omega (arith, below_word)

  keys_wrap :
      wrap (length from + length descriptor + 8 * count)
      ≡ length from + length descriptor + 8 * count
  keys_wrap = omega (arith, below_word)

  size_wrap : wrap (8 * count + length listed) ≡ 8 * count + length listed
  size_wrap = omega (arith, below_word, answer.fits)

  -- The handler behind the pull.
  module _ (buffer : Bytes)
      (long : length from + length descriptor + 8 * count + length keys ≤ length buffer) where
    length-memory : length (memory buffer) ≡ length buffer
    unfolding memory ksizes_offset
    length-memory = omega (
      arith,
      length-append from (descriptor ++ drop (length from + length descriptor) buffer),
      length-append descriptor (drop (length from + length descriptor) buffer),
      length-drop (length from + length descriptor) buffer,
    )

    read_from : slice (memory buffer) 0 (length from) ≡ done from
    unfolding memory
    read_from =
        slice_part [] from (descriptor ++ drop ksizes_offset buffer) 0 (length from) refl refl

    read_descriptor : slice (memory buffer) (length from) (length descriptor) ≡ done descriptor
    unfolding memory
    read_descriptor =
        slice_part from descriptor (drop ksizes_offset buffer) (length from) (length descriptor)
          refl refl

    keys_offset : ℕ
    keys_offset = ksizes_offset + 8 * count

    stale_sizes :
        (slots : List ℕ) × (sizes_at count ksizes_offset (memory buffer) ≡ done slots)
        × (length slots ≡ count)
    unfolding ksizes_offset
    stale_sizes =
        sizes_at_within count (length from + length descriptor) (memory buffer)
          (omega (arith, length-memory))

    stale : Bytes
    stale = take (length keys) (drop keys_offset (memory buffer))

    leftover : slice (memory buffer) keys_offset (length keys) ≡ done stale
    unfolding stale keys_offset ksizes_offset
    leftover =
        slice_within (memory buffer) (length from + length descriptor + 8 * count) (length keys)
          (omega (arith, length-memory))

    length-stale : length stale ≡ length keys
    unfolding stale keys_offset ksizes_offset
    length-stale = omega (
      arith,
      length-take (length keys)
          (drop (length from + length descriptor + 8 * count) (memory buffer)),
      length-drop (length from + length descriptor + 8 * count) (memory buffer),
      length-memory,
    )

    reply : Bytes
    reply = written 0 listed stale

    length-reply : length reply ≡ length keys
    unfolding reply
    length-reply =
        length-written 0 listed stale (omega (arith, answer.fits, length-stale)) ∙ length-stale

    sizes_room : ksizes_offset + length (bytes_of sizes) ≤ length (memory buffer)
    unfolding ksizes_offset
    sizes_room = omega (arith, length-memory, length-sizes)

    with_sizes : Bytes
    with_sizes = written ksizes_offset (bytes_of sizes) (memory buffer)

    keys_room : keys_offset + length reply ≤ length with_sizes
    unfolding with_sizes keys_offset ksizes_offset
    keys_room = omega (
      arith,
      length-written (length from + length descriptor) (bytes_of sizes) (memory buffer)
          (omega (arith, length-memory, length-sizes)),
      length-memory,
      length-reply,
    )

    reply_room : ksizes_offset + (length (bytes_of sizes) + length reply) ≤ length (memory buffer)
    unfolding ksizes_offset
    reply_room = omega (arith, length-memory, length-sizes, length-reply)

    memory' : Bytes
    memory' = written keys_offset reply with_sizes

    memory'_parts : memory' ≡ written ksizes_offset (bytes_of sizes ++ reply) (memory buffer)
    unfolding memory' with_sizes keys_offset
    memory'_parts =
        rw (sym length-sizes)
          (written-written ksizes_offset (bytes_of sizes) reply (memory buffer) reply_room)

    -- What is pushed: the sizes and the keys.
    pushed : Bytes
    pushed = bytes_of sizes ++ listed

    length-pushed : length pushed ≡ 8 * count + length listed
    unfolding pushed
    length-pushed = length-append (bytes_of sizes) listed ∙ omega (arith, length-sizes)

    pushed_there : take (8 * count + length listed) (drop ksizes_offset memory') ≡ pushed
    unfolding reply pushed
    pushed_there =
        rw
          (
            memory'_parts,
            drop-append ksizes_offset (take ksizes_offset (memory buffer))
                ((bytes_of sizes ++ reply)
                  ++ drop (ksizes_offset + length (bytes_of sizes ++ reply)) (memory buffer))
                (omega (arith, length-take ksizes_offset (memory buffer), sizes_room)),
            regroup (bytes_of sizes) listed (drop (0 + length listed) stale)
                (drop (ksizes_offset + length (bytes_of sizes ++ reply)) (memory buffer)),
          )
          (take-append (8 * count + length listed) pushed
            (drop (0 + length listed) stale
              ++ drop (ksizes_offset + length (bytes_of sizes ++ reply)) (memory buffer))
            length-pushed)

    length-memory' : length memory' ≡ length buffer
    unfolding memory' with_sizes
    length-memory' =
        length-written keys_offset reply with_sizes keys_room
        ∙ length-written ksizes_offset (bytes_of sizes) (memory buffer) sizes_room
        ∙ length-memory

    pushed_fits : ksizes_offset + (8 * count + length listed) ≤ length buffer
    unfolding ksizes_offset
    pushed_fits = omega (arith, answer.fits)

    kept :
        pushed ++ drop (8 * count + length listed) (bytes_of ksizes ++ keys)
        ≡ bytes_of sizes ++ written 0 listed keys
    unfolding pushed
    kept =
        rw
          (
            sym (drop-drop (8 * count) (length listed) (bytes_of ksizes ++ keys)),
            drop-append (8 * count) (bytes_of ksizes) keys length-ksizes,
            append_assoc (bytes_of sizes) listed (drop (length listed) keys),
            zero-add,
          )
          refl

    bulk_after :
        transfer memory' ksizes_offset bulk ksizes_offset (8 * count + length listed)
        ≡ some ((from ++ descriptor) ++ (bytes_of sizes ++ written 0 listed keys))
    bulk_after =
        copies memory' ksizes_offset bulk ksizes_offset (8 * count + length listed)
          (omega (arith, length-memory', pushed_fits)) (omega (arith, length-bulk, answer.fits))
        ∙ rw
            (
              pushed_there,
              bulk_parts,
              written-behind ksizes_offset (from ++ descriptor) pushed (bytes_of ksizes ++ keys)
                  length-front,
              length-pushed,
            )
            (ap (λ xs. some ((from ++ descriptor) ++ xs)) kept)

    bulk' : Bytes
    bulk' = (from ++ descriptor) ++ (bytes_of sizes ++ written 0 listed keys)

    handled_memory :
        list_keys_listed transfer makers d request bulk s (memory buffer)
        ≡ done (success, (bulk', s))
    unfolding list_keys_listed ksizes_offset keys_offset memory' with_sizes reply bulk'
    handled_memory =
        let (slots, read, e) = stale_sizes in
        rw
          (
            list_keys_listed,
            read_from,
            read_descriptor,
            ◌>>=◌,
            made,
            front_wrap,
            sizes_wrap,
            keys_wrap,
            read,
            leftover,
            answer.lists stale slots length-stale e,
            write-written (memory buffer) (length from + length descriptor) (bytes_of sizes)
                sizes_room,
            write-written with_sizes (length from + length descriptor + 8 * count) reply keys_room,
            push_wrap,
            size_wrap,
            bulk_after,
          )
          refl

  module _ (buffer : Bytes) (given : a.buffer ≡ some buffer)
      (long : length from + length descriptor + 8 * count + length keys ≤ length buffer)
      (valid : is_mode_valid mode ≡ true) (positive : 0 < count) where
    front_room : ksizes_offset ≤ length buffer
    unfolding ksizes_offset
    front_room = omega arith

    handled :
        list_keys_ult transfer makers d a request (bulk, s) ≡ done (success, (bulk' buffer long, s))
    unfolding list_keys_ult ksizes_offset
    handled =
        rw
          (
            list_keys_ult,
            buffered {S = Bytes × S} net a (d.supports_mode mode) buffer _ (bulk, s) sound supported
                given,
            front_wrap,
            no_sizes,
            pulled_front buffer (list_keys_listed transfer makers d request bulk s) (bulk, s)
                front_room,
          )
          (handled_memory buffer long)

    sent :
        list_keys_bulk transfer makers d net a request (bulk, s)
        ≡ done (success, (bulk' buffer long, s))
    unfolding list_keys_bulk
    sent =
        rw (list_keys_bulk, positive_count positive, valid)
          (forwarded net a (list_keys_ult transfer makers d a request) (bulk, s) sound ∙ handled)

    read_sizes : sizes_at count (length from + length descriptor) (bulk' buffer long) ≡ done sizes
    unfolding bulk'
    read_sizes =
        sizes_at_part (from ++ descriptor) (written 0 listed keys) sizes
          (length from + length descriptor) count answer.words (length-append from descriptor)
          answer.size_count

    read_keys :
        slice (bulk' buffer long) (length from + length descriptor + 8 * count) (length keys)
        ≡ done (written 0 listed keys)
    unfolding bulk'
    read_keys =
        rw (sym (append_assoc (from ++ descriptor) (bytes_of sizes) (written 0 listed keys))) (
          slice_last ((from ++ descriptor) ++ bytes_of sizes) (written 0 listed keys)
            (length from + length descriptor + 8 * count) (length keys)
            (omega (
              arith,
              length-append (from ++ descriptor) (bytes_of sizes),
              length-append from descriptor,
              length-sizes,
            ))
            (length-written 0 listed keys (omega (arith, answer.fits))))

    exposed_call :
        list_keys_exposed transfer makers d net a mode true from descriptor count ksizes keys s
        ≡ done (success, ((sizes, written 0 listed keys), s))
    unfolding list_keys_exposed bulk
    exposed_call =
        rw
          (
            list_keys_exposed,
            exposed {S = Bytes × S} net a _ (bulk, s) sound,
            sent,
            read_sizes,
            read_keys,
          )
          refl

    -- Over a sound network whose transfers copy, with room in the buffer of the handler, a mode that client
    -- and database accept, a descriptor that makes a filter, and a database whose packed listing does not
    -- depend on what the memory for it holds, a packed `list_keys` of at least one key succeeds, leaves in
    -- the memory of the client the sizes of the listing and, at its start, the bytes of its keys with what
    -- the client had behind them, and changes nothing else: by exposed memory, or inline under NO_RDMA.
    pub list_keys_packed_remote :
        list_keys_packed transfer makers d net a mode
          (some from)
          (length from)
          (some descriptor)
          (length descriptor)
          count
          (some keys)
          (length keys)
          ksizes
          s
        ≡ done (success, ((sizes, some (written 0 listed keys)), s))
    unfolding list_keys_packed
    list_keys_packed_remote = elim (Bool-cases (has mode mode_no_rdma)) [
      | inl e ↦
          rw (list_keys_packed, e)
            (direct transfer makers d net a mode count from descriptor f keys ksizes s sizes listed
              sound supported made answer room valid positive)
      | inr e ↦
          rw
            (
              list_keys_packed,
              e,
              positive_count positive,
              slice_whole from,
              slice_whole descriptor,
              array_room transfer makers d net a mode count from descriptor f keys ksizes s sizes
                  listed sound supported made answer room,
              slice_whole keys,
              exposed_call,
              drop_all (length keys) keys refl,
              drop_all count ksizes room,
              append-nil,
              append-nil,
            )
            refl
    ]
