-- ===== src/Rpc/Documents/Layout.antt =====
-- The memory that a client exposes for documents: their sizes, and the documents behind them.
use mochi_yokan.Prelude.{
  ℕ, ◌+◌, ◌*◌, ◌≡◌, ◌<◌, refl, sym, ap, ◌∙◌, Bool, true, false, ◌&&◌, some, List, [], ◌++◌, arith,
  ltb, length, word, wrap, done, length-append, append_assoc, le→ltb,
}
use mochi_yokan.Common.{Bytes}
use mochi_yokan.Memory.{slice, sum, total, total-sum, bytes_of}
use mochi_yokan.Rpc.Call.{sizes_at, array, is_null}
use mochi_yokan.Rpc.Layout.{sum-AllWords, length-bytes_of, sizes_at_part, slice_part, array_whole}

-- What a client may pass: an array of `count` sizes, memory of just those sizes, and memory for as many
-- identifiers, all within a word.
pub record IsDocuments (count : ℕ) (docs : Bytes) (sizes ids : List ℕ) : Type 0 where
  pub size_count : length sizes ≡ count
  pub id_count : length ids ≡ count
  pub docs_whole : sum sizes ≡ length docs
  pub below_word : 8 * count + length docs < word

-- A pointer that is not null is no error, whatever the documents have for bytes.
pub not_lost : (b : Bool) (docs : Bytes) → (b && is_null (some docs)) ≡ false
not_lost true docs = refl
not_lost false docs = refl

module _ {count : ℕ} {docs : Bytes} {sizes ids : List ℕ}
    (call : IsDocuments count docs sizes ids) where
  pub length-size_words : length (bytes_of sizes) ≡ 8 * count
  length-size_words = length-bytes_of sizes ∙ ap (λ n. 8 * n) call.size_count

  pub total_of_docs : total sizes 0 ≡ length docs
  total_of_docs =
      total-sum sizes 0 (omega (arith, call.docs_whole, call.below_word))
      ∙ omega (arith, call.docs_whole)

  pub sizes_whole : array count sizes ≡ done sizes
  sizes_whole = rw (sym call.size_count) (array_whole sizes)

  pub array_ids : array count ids ≡ done ids
  array_ids = rw (sym call.id_count) (array_whole ids)

  pub length-bulk : length (bytes_of sizes ++ docs) ≡ (8 * count + length docs)
  length-bulk = omega (arith, length-append (bytes_of sizes) docs, length-size_words)

  pub not_short : ltb (8 * count + length docs) (wrap (8 * count + length docs)) ≡ false
  not_short =
      le→ltb (8 * count + length docs) (wrap (8 * count + length docs))
        (omega (arith, call.below_word))

  pub whole : wrap (8 * count + length docs) ≡ (8 * count + length docs)
  whole = omega (arith, call.below_word)

  pub read_sizes : (rest : Bytes) → sizes_at count 0 ((bytes_of sizes ++ docs) ++ rest) ≡ done sizes
  read_sizes rest = rw (append_assoc (bytes_of sizes) docs rest) (
      sizes_at_part [] (docs ++ rest) sizes 0 count
        (sum-AllWords sizes (omega (arith, call.docs_whole, call.below_word))) refl call.size_count)

  pub read_docs :
      (rest : Bytes)
      → slice ((bytes_of sizes ++ docs) ++ rest) (8 * count) (length docs) ≡ done docs
  read_docs rest =
      rw (append_assoc (bytes_of sizes) docs rest)
        (slice_part (bytes_of sizes) docs rest (8 * count) (length docs) length-size_words refl)
