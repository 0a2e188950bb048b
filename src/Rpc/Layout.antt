-- ===== src/Rpc/Layout.antt =====
-- The layout of exposed memory: arrays of sizes, and the bytes behind them.
use native.Mathlib.Nat.{zero-add}
use mathlib.Core.Path.{ap₂}
use mochi_yokan.Prelude.{
  ℕ, zero, suc, ◌+◌, ◌*◌, ◌≤◌, ◌<◌, ◌≡◌, refl, sym, ap, ◌∙◌, false, some, List, [], ◌∷◌, ◌++◌,
  arith, ltb, ◌==◌, length, take, drop, word, done, length-append, append_assoc, append-nil,
  take-append, drop-append, take_all, le→ltb,
}
use mochi_yokan.Common.{Bytes}
use mochi_yokan.Memory.{
  slice, sum, total, total-sum, bytes_of, words_of, le_bytes, le_value, length-le_bytes,
  le_value-le_bytes,
}
use mochi_yokan.Rpc.Call.{Transfer, IsCopy, sizes_at, array, has_empty_key, min_size}

pub length-bytes_of : (xs : List ℕ) → length (bytes_of xs) ≡ 8 * length xs
unfolding bytes_of
length-bytes_of [] = refl
length-bytes_of (x ∷ xs) =
    omega
      (arith, length-append (le_bytes 8 x) (bytes_of xs), length-le_bytes 8 x, length-bytes_of xs)

abbrev pub AllWords : List ℕ → Type 0
AllWords [] = Unit
AllWords (x ∷ xs) = (x < word) × AllWords xs

pub sum-AllWords : (xs : List ℕ) → sum xs < word → AllWords xs
sum-AllWords [] h = tt
sum-AllWords (x ∷ xs) h = (omega arith, sum-AllWords xs (omega arith))

pub words_of-bytes_of : (xs : List ℕ) → AllWords xs → words_of (length xs) (bytes_of xs) ≡ xs
unfolding words_of bytes_of
words_of-bytes_of [] h = refl
words_of-bytes_of (x ∷ xs) h =
    ap₂ ◌∷◌
      (ap le_value (take-append 8 (le_bytes 8 x) (bytes_of xs) (length-le_bytes 8 x))
        ∙ le_value-le_bytes x h.0)
      (ap (words_of (length xs)) (drop-append 8 (le_bytes 8 x) (bytes_of xs) (length-le_bytes 8 x))
        ∙ words_of-bytes_of xs h.1)

-- The part of a memory between two others.
pub slice_part :
    (before part after : Bytes) (offset size : ℕ)
    → length before ≡ offset
    → length part ≡ size
    → slice (before ++ (part ++ after)) offset size ≡ done part
unfolding slice
slice_part before part after offset size ho hs =
    let long : ltb (length (before ++ (part ++ after))) (offset + size) ≡ false =
      le→ltb (length (before ++ (part ++ after))) (offset + size)
        (omega (arith, length-append before (part ++ after), length-append part after)) in
    rw (long, drop-append offset before (part ++ after) ho, take-append size part after hs)

pub slice_last :
    (before part : Bytes) (offset size : ℕ)
    → length before ≡ offset
    → length part ≡ size
    → slice (before ++ part) offset size ≡ done part
slice_last before part offset size ho hs =
    ap (λ mem. slice (before ++ mem) offset size) (sym (append-nil part))
    ∙ slice_part before part [] offset size ho hs

-- The sizes that were put into a part are read there.
pub sizes_at_part :
    (before after : Bytes) (xs : List ℕ) (offset count : ℕ)
    → AllWords xs
    → length before ≡ offset
    → length xs ≡ count
    → sizes_at count offset (before ++ (bytes_of xs ++ after)) ≡ done xs
unfolding sizes_at
sizes_at_part before after xs offset count w ho hc =
    rw
      (slice_part before (bytes_of xs) after offset (8 * count) ho
        (omega (arith, length-bytes_of xs)))
      (rw (sym hc) (ap done (words_of-bytes_of xs w)))

-- A transfer of a whole memory to the start of a buffer with room for it.
pub pulled :
    (transfer : Transfer) (bulk buffer : Bytes) (size : ℕ)
    → IsCopy transfer
    → length bulk ≡ size
    → size ≤ length buffer
    → transfer bulk 0 buffer 0 size ≡ some (bulk ++ drop size buffer)
pulled transfer bulk buffer size copies e room =
    copies bulk 0 buffer 0 size (omega arith) (omega arith)
    ∙ rw (sym e) (rw (take_all bulk, zero-add) refl)

pub array_whole {ℓ} : {A : Type ℓ} (xs : List A) → array (length xs) xs ≡ done xs
unfolding array
array_whole xs = rw (le→ltb (length xs) (length xs) (omega arith), take_all xs)

pub array_within {ℓ} :
    {A : Type ℓ} (count : ℕ) (xs : List A)
    → count ≤ length xs
    → array count xs ≡ done (take count xs)
unfolding array
array_within count xs h = rw (le→ltb (length xs) count h) refl

pub slice_whole : (xs : Bytes) → slice xs 0 (length xs) ≡ done xs
unfolding slice
slice_whole xs = rw (zero-add, le→ltb (length xs) (length xs) (omega arith), take_all xs)

-- What a client may pass to a call on `count` keys: an array of that many sizes, none of them zero, and
-- memory of just those sizes, all within a word.
pub record IsKeys (count : ℕ) (keys : Bytes) (ksizes : List ℕ) : Type 0 where
  pub key_count : length ksizes ≡ count
  pub keys_whole : sum ksizes ≡ length keys
  pub keys_nonempty : has_empty_key ksizes ≡ false
  pub below_word : 16 * count + length keys < word

-- The same for a call that takes their values.
pub record IsCall (count : ℕ) (keys : Bytes) (ksizes : List ℕ) (vals : Bytes) (vsizes : List ℕ)
    : Type 0 where
  pub of_keys : IsKeys count keys ksizes
  pub value_count : length vsizes ≡ count
  pub values_whole : sum vsizes ≡ length vals
  pub below_word : 16 * count + length keys + length vals < word

min_size_zero : (ss : List ℕ) → min_size ss 0 ≡ 0
unfolding min_size
min_size_zero [] = refl
min_size_zero (s ∷ ss) = rw (le→ltb s 0 (omega arith)) (min_size_zero ss)

module _ {count : ℕ} {keys : Bytes} {ksizes : List ℕ} (ks : IsKeys count keys ksizes) where
  pub key_words : AllWords ksizes
  key_words = sum-AllWords ksizes (omega (arith, ks.keys_whole, ks.below_word))

  pub length-key_words : length (bytes_of ksizes) ≡ 8 * count
  length-key_words = length-bytes_of ksizes ∙ ap (λ n. 8 * n) ks.key_count

  pub total_of_keys : total ksizes 0 ≡ length keys
  total_of_keys =
      total-sum ksizes 0 (omega (arith, ks.keys_whole, ks.below_word))
      ∙ omega (arith, ks.keys_whole)

  pub array_keys : array count ksizes ≡ done ksizes
  array_keys = rw (sym ks.key_count) (array_whole ksizes)

-- Four parts in front of a rest.
module _ (a b c d t : Bytes) where
  pub behind_one : (a ++ (b ++ (c ++ d))) ++ t ≡ a ++ (b ++ (c ++ (d ++ t)))
  behind_one = rw (append_assoc, append_assoc, append_assoc) refl

  pub behind_two : (a ++ (b ++ (c ++ d))) ++ t ≡ (a ++ b) ++ (c ++ (d ++ t))
  behind_two = behind_one ∙ sym (append_assoc a b (c ++ (d ++ t)))

  pub behind_three : (a ++ (b ++ (c ++ d))) ++ t ≡ ((a ++ b) ++ c) ++ (d ++ t)
  behind_three = behind_two ∙ sym (append_assoc (a ++ b) c (d ++ t))

-- A call on keys has bytes of keys.
pub some_key :
    {count : ℕ} {keys : Bytes} (ksizes : List ℕ)
    → IsKeys count keys ksizes
    → 0 < count
    → 0 < length keys
unfolding has_empty_key min_size
some_key [] ks h = absurd (omega (arith, ks.key_count))
some_key (zero ∷ ss) ks h = absurd (ground (arith, min_size_zero ss, ks.keys_nonempty))
some_key (suc s ∷ ss) ks h = omega (arith, ks.keys_whole)

pub positive_count : {n : ℕ} → 0 < n → (n == 0) ≡ false
positive_count h = ground arith
