-- ===== src/Rpc/Exchange.antt =====
-- The exchange of a handler with the memory of its caller: what it pulls, and what it pushes back.
use native.Mathlib.Nat.{zero-add}
use mochi_yokan.Prelude.{
  ℕ, ◌+◌, ◌-◌, ◌*◌, ◌≤◌, ◌<◌, ◌≡◌, refl, sym, ap, ◌∙◌, Bool, false, List, [], ◌++◌, some, arith,
  length, take, drop, word, wrap, Outcome, done, length-append, length-take, length-drop,
  append_assoc, take-append, drop-append,
}
use mochi_yokan.Common.{Bytes}
use mochi_yokan.Memory.{slice, slice_within, drop-drop, written, length-written, bytes_of, words_of}
use mochi_yokan.Rpc.Codes.{Return}
use mochi_yokan.Rpc.Call.{Transfer, IsCopy, sizes_at, pull_keys}
use mochi_yokan.Rpc.Layout.{
  length-bytes_of, AllWords, IsKeys, slice_part, sizes_at_part, key_words, length-key_words,
  total_of_keys,
}

pub length-words_of : (n : ℕ) (bs : Bytes) → length (words_of n bs) ≡ n
unfolding words_of
length-words_of ℕ.zero bs = refl
length-words_of (ℕ.suc n) bs = ap ℕ.suc (length-words_of n (drop 8 bs))

-- Sizes within a memory can be read, whatever they are.
pub sizes_at_within :
    (count offset : ℕ) (memory : Bytes)
    → offset + 8 * count ≤ length memory
    → (xs : List ℕ) × (sizes_at count offset memory ≡ done xs) × (length xs ≡ count)
unfolding sizes_at
sizes_at_within count offset memory h =
    let bytes = take (8 * count) (drop offset memory) in
    (
      words_of count bytes,
      rw (slice_within memory offset (8 * count) h) refl,
      length-words_of count bytes,
    )

length-take_le : (n : ℕ) (xs : Bytes) → n ≤ length xs → length (take n xs) ≡ n
length-take_le n xs h = omega (arith, length-take n xs)

-- What is written to a memory is read there, as bytes and as sizes.
module _ (offset : ℕ) (src memory : Bytes) (room : offset + length src ≤ length memory) where
  pub slice-written :
      (size : ℕ) → length src ≡ size → slice (written offset src memory) offset size ≡ done src
  slice-written size e =
      slice_part (take offset memory) src (drop (offset + length src) memory) offset size
        (length-take_le offset memory (omega arith)) e

  pub take-drop-written : take (length src) (drop offset (written offset src memory)) ≡ src
  take-drop-written =
      rw
        (drop-append offset (take offset memory) (src ++ drop (offset + length src) memory)
          (length-take_le offset memory (omega arith)))
        (take-append (length src) src (drop (offset + length src) memory) refl)

  -- A push of what was written, to the same place of the other memory.
  pub pushed :
      (transfer : Transfer) (bulk : Bytes) (size : ℕ)
      → IsCopy transfer
      → length src ≡ size
      → offset + length src ≤ length bulk
      → transfer (written offset src memory) offset bulk offset size
        ≡ some (written offset src bulk)
  pushed transfer bulk size copies e h = rw (sym e) (
      copies (written offset src memory) offset bulk offset (length src)
        (omega (arith, length-written offset src memory room)) h
      ∙ rw take-drop-written refl)

-- What is written behind a part of a memory.
pub written-behind :
    (offset : ℕ) (before src after : Bytes)
    → length before ≡ offset
    → written offset src (before ++ after) ≡ before ++ (src ++ drop (length src) after)
written-behind offset before src after e =
    rw
      (
        sym (drop-drop offset (length src) (before ++ after)),
        take-append offset before after e,
        drop-append offset before after e,
      )
      refl

-- A write leaves what is behind it.
pub drop-written :
    (offset k : ℕ) (src memory : Bytes)
    → offset ≤ length memory
    → offset + length src ≤ k
    → drop k (written offset src memory) ≡ drop k memory
drop-written offset k src memory h below =
    let parts : drop k (written offset src memory)
        ≡ drop (k - (offset + length src)) (drop (offset + length src) memory) =
      ap (λ n. drop n (written offset src memory)) (split k (offset + length src) below)
      ∙ sym
          (drop-drop (offset + length src) (k - (offset + length src)) (written offset src memory))
      ∙ ap (drop (k - (offset + length src))) (behind offset src memory h) in
    parts
    ∙ drop-drop (offset + length src) (k - (offset + length src)) memory
    ∙ ap (λ n. drop n memory) (sym (split k (offset + length src) below))
  where
    split : (k m : ℕ) → m ≤ k → k ≡ m + (k - m)
    split k m h = omega arith

    behind :
        (offset : ℕ) (src memory : Bytes)
        → offset ≤ length memory
        → drop (offset + length src) (written offset src memory) ≡ drop (offset + length src) memory
    behind offset src memory h =
        sym (drop-drop offset (length src) (written offset src memory))
        ∙ ap (drop (length src)) (
            drop-append offset (take offset memory) (src ++ drop (offset + length src) memory)
              (length-take_le offset memory h))
        ∙ drop-append (length src) src (drop (offset + length src) memory) refl

pub sizes_at-written :
    (offset count : ℕ) (xs : List ℕ) (memory : Bytes)
    → AllWords xs
    → length xs ≡ count
    → offset ≤ length memory
    → sizes_at count offset (written offset (bytes_of xs) memory) ≡ done xs
sizes_at-written offset count xs memory w e h =
    sizes_at_part (take offset memory) (drop (offset + length (bytes_of xs)) memory) xs offset count
      w (length-take_le offset memory h) e

-- A memory that is exposed, and a buffer into which its start was pulled.
abbrev pub exposed_memory : List ℕ → Bytes → Bytes → Bytes → Bytes → Bytes
exposed_memory ksizes more gap keys after = (bytes_of ksizes ++ more) ++ (gap ++ (keys ++ after))

abbrev pub memory_of_sizes : List ℕ → Bytes → ℕ → Bytes → Bytes
memory_of_sizes ksizes more sizes_size buffer = (bytes_of ksizes ++ more) ++ drop sizes_size buffer

pub length-memory_of_sizes :
    (ksizes : List ℕ) (more buffer : Bytes) (sizes_size : ℕ)
    → 8 * length ksizes + length more ≡ sizes_size
    → sizes_size ≤ length buffer
    → length (memory_of_sizes ksizes more sizes_size buffer) ≡ length buffer
length-memory_of_sizes ksizes more buffer sizes_size e h = omega (
  arith,
  length-append (bytes_of ksizes ++ more) (drop sizes_size buffer),
  length-append (bytes_of ksizes) more,
  length-bytes_of ksizes,
  length-drop sizes_size buffer,
)

-- A handler that pulls the keys has them behind what it pulled first. `head` is the sizes of the keys
-- and what is pulled with them, `gap` what lies between that and the keys.
module _ (transfer : Transfer) (copies : IsCopy transfer) {count : ℕ} {keys : Bytes}
    {ksizes : List ℕ} (ks : IsKeys count keys ksizes) (more gap after buffer : Bytes)
    (sizes_size keys_offset : ℕ) (head_size : 8 * count + length more ≡ sizes_size)
    (gap_size : sizes_size + length gap ≡ keys_offset) (below_word : keys_offset < word)
    (room : keys_offset + length keys ≤ length buffer) where
  length-head : length (bytes_of ksizes ++ more) ≡ sizes_size
  length-head = omega (arith, length-append (bytes_of ksizes) more, length-key_words ks)

  bulk : Bytes
  bulk = exposed_memory ksizes more gap keys after

  pulled_memory : Bytes
  pulled_memory = memory_of_sizes ksizes more sizes_size buffer

  length-pulled_memory : length pulled_memory ≡ length buffer
  unfolding pulled_memory
  length-pulled_memory =
      length-memory_of_sizes ksizes more buffer sizes_size (rw ks.key_count head_size) (omega arith)

  length-bulk : keys_offset + length keys ≤ length bulk
  unfolding bulk
  length-bulk = omega (
    arith,
    length-append (bytes_of ksizes ++ more) (gap ++ (keys ++ after)),
    length-append gap (keys ++ after),
    length-append keys after,
    length-head,
  )

  pulled_sizes : transfer bulk 0 buffer 0 sizes_size ≡ some pulled_memory
  unfolding bulk pulled_memory
  pulled_sizes =
      copies bulk 0 buffer 0 sizes_size (omega (arith, length-bulk)) (omega arith)
      ∙ rw
          (
            take-append sizes_size (bytes_of ksizes ++ more) (gap ++ (keys ++ after)) length-head,
            zero-add,
            length-head,
          )
          refl

  read_sizes : sizes_at count 0 pulled_memory ≡ done ksizes
  unfolding pulled_memory
  read_sizes = rw (append_assoc (bytes_of ksizes) more (drop sizes_size buffer)) (
      sizes_at_part [] (more ++ drop sizes_size buffer) ksizes 0 count (key_words ks) refl
        ks.key_count)

  keys_there : take (length keys) (drop keys_offset bulk) ≡ keys
  unfolding bulk
  keys_there = rw (sym (append_assoc (bytes_of ksizes ++ more) gap (keys ++ after))) (
      rw
        (drop-append keys_offset ((bytes_of ksizes ++ more) ++ gap) (keys ++ after)
          (omega (arith, length-append (bytes_of ksizes ++ more) gap, length-head)))
        (take-append (length keys) keys after refl))

  pulled_bytes :
      transfer bulk (wrap (0 + keys_offset)) pulled_memory keys_offset (length keys)
      ≡ some (written keys_offset keys pulled_memory)
  pulled_bytes =
      let e : wrap (0 + keys_offset) ≡ keys_offset = omega arith in
      rw
        (
          e,
          copies bulk keys_offset pulled_memory keys_offset (length keys) length-bulk
              (omega (arith, length-pulled_memory)),
          keys_there,
        )
        refl

  pub pulled_keys {ℓ} :
      {S : Type ℓ} (mode size : ℕ) (short : Bytes → ℕ → Outcome Bool)
      (call : Bytes → List ℕ → ℕ → Outcome (Return × S)) (s : S)
      → short (memory_of_sizes ksizes more sizes_size buffer) (length keys) ≡ done false
      → pull_keys transfer
          (record { mode = mode; count = count; offset = 0; size = size })
          sizes_size
          keys_offset
          short
          buffer
          (exposed_memory ksizes more gap keys after)
          call
          s
        ≡ call
            (written keys_offset keys (memory_of_sizes ksizes more sizes_size buffer))
            ksizes
            (length keys)
  unfolding pull_keys bulk pulled_memory
  pulled_keys mode size short call s long =
      rw
        (
          pull_keys,
          pulled_sizes,
          read_sizes,
          ks.keys_nonempty,
          total_of_keys ks,
          long,
          pulled_bytes,
        )
        refl
