-- ===== src/Docs/Keys/Layout.antt =====
-- How the keys of documents lie in the buffer that `_keysFromIds` returns.
use mochi_yokan.Prelude.{
  ℕ, ◌+◌, ◌<◌, ◌≡◌, refl, List, [], ◌∷◌, ◌++◌, map, arith, length, replicate, word, length-append,
  take-append, drop-append, append_assoc,
}
use mochi_yokan.Common.{Bytes}
use mochi_yokan.Memory.{cut, sum, Fits}
use mochi_yokan.Docs.Keys.{key_from_id, keys_from_ids, length-key_from_id}

module _ (name : Bytes) where
  -- The sizes that the operations on documents give cut the buffer into the keys of the documents.
  pub cut-keys_from_ids :
      (ids : List ℕ) (rest : Bytes) (more : List ℕ)
      → cut (replicate (length ids) (length name + 9) ++ more) (keys_from_ids name ids ++ rest)
        ≡ map (key_from_id name) ids ++ cut more rest
  unfolding keys_from_ids
  cut-keys_from_ids [] rest more = refl
  cut-keys_from_ids (id ∷ ids) rest more =
      let k = key_from_id name id in
      let tail = keys_from_ids name ids ++ rest in
      rw (
        append_assoc k (keys_from_ids name ids) rest,
        take-append (length name + 9) k tail (length-key_from_id name id),
        drop-append (length name + 9) k tail (length-key_from_id name id),
        cut-keys_from_ids ids rest more,
      )

  pub length-keys_from_ids :
      (ids : List ℕ)
      → length (keys_from_ids name ids) ≡ sum (replicate (length ids) (length name + 9))
  unfolding keys_from_ids
  length-keys_from_ids [] = refl
  length-keys_from_ids (id ∷ ids) = omega (
    arith,
    length-append (key_from_id name id) (keys_from_ids name ids),
    length-key_from_id name id,
    length-keys_from_ids ids,
  )

  pub keys_from_ids-Fits :
      (ids : List ℕ)
      → length (keys_from_ids name ids) < word
      → Fits (replicate (length ids) (length name + 9)) (keys_from_ids name ids)
  keys_from_ids-Fits ids h = record {
    within = omega (arith, length-keys_from_ids ids);
    below_word = h;
  }

  pub cut_keys :
      (ids : List ℕ)
      → cut (replicate (length ids) (length name + 9)) (keys_from_ids name ids)
        ≡ map (key_from_id name) ids
  unfolding keys_from_ids
  cut_keys [] = refl
  cut_keys (id ∷ ids) =
      let k = key_from_id name id in
      rw (
        take-append (length name + 9) k (keys_from_ids name ids) (length-key_from_id name id),
        drop-append (length name + 9) k (keys_from_ids name ids) (length-key_from_id name id),
        cut_keys ids,
      )
