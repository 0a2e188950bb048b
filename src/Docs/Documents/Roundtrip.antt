-- ===== src/Docs/Documents/Roundtrip.antt =====
-- `docLoad` behind `docStore`.
use native.Mathlib.Nat.{zero-add, suc-add}
use mathlib.Core.Path.{ap₂}
use mochi_yokan.Database.Spec.{
  updated, is_written, new_value, pairs, among, packed_sizes, packed_bytes,
}
use mochi_yokan.Prelude.{
  ℕ, zero, suc, ◌+◌, ◌-◌, ◌≤◌, ◌<◌, ◌≡◌, refl, sym, ap, ◌∙◌, Bool, true, false, Option, some, List,
  [], ◌∷◌, ◌++◌, map, arith, length, take, drop, word, wrap, if◌then◌else◌, done, le→ltb,
  Bool-cases, inl, inr, length-take, length-drop,
}
use mochi_yokan.Common.{
  Bytes, ok, last_valid_size, mode_append, mode_new_only, mode_exist_only, mode_wait, mode_consume,
  has,
}
use mochi_yokan.Memory.{cut, length-cut, sum, Fits, written}
use mochi_yokan.Database.{Database}
use mochi_yokan.Database.Laws.{Laws}
use mochi_yokan.Docs.Keys.{
  key_from_id, keys_from_ids, Metadata, id_from_key-key_from_id, length-key_from_id, id_from_key,
}
use mochi_yokan.Docs.Store.{Store, is_nil}
use mochi_yokan.Docs.Store.Create.{is_collection}
use mochi_yokan.Docs.Store.Durable.{length-encode}
use mochi_yokan.Docs.Documents.{ids_from, doc_store, doc_load}
use mochi_yokan.Docs.Documents.Storing.{Known, length-ids_from, doc_store_lem}
use mochi_yokan.Docs.Documents.Access.{doc_load_contract}

-- The values of which all have room are returned, with their sizes.
packed_sizes_fit :
    (room : ℕ) (vs : List Bytes)
    → sum (map length vs) ≤ room
    → packed_sizes room false (map some vs) ≡ map length vs
unfolding packed_sizes
packed_sizes_fit room [] h = refl
packed_sizes_fit room (v ∷ vs) h =
    rw (le→ltb room (length v) (omega arith), packed_sizes_fit (room - length v) vs (omega arith))

concat : List Bytes → Bytes
concat [] = []
concat (v ∷ vs) = v ++ concat vs

packed_bytes_fit :
    (room : ℕ) (vs : List Bytes)
    → sum (map length vs) ≤ room
    → packed_bytes room (map some vs) ≡ concat vs
unfolding packed_bytes concat
packed_bytes_fit room [] h = refl
packed_bytes_fit room (v ∷ vs) h =
    rw (le→ltb room (length v) (omega arith), packed_bytes_fit (room - length v) vs (omega arith))

sizes-cut :
    (sizes : List ℕ) (mem : Bytes) → sum sizes ≤ length mem → map length (cut sizes mem) ≡ sizes
sizes-cut [] mem h = refl
sizes-cut (s ∷ ss) mem h =
    let e : length (take s mem) ≡ s = omega (arith, length-take s mem) in
    rw (e, sizes-cut ss (drop s mem) (omega (arith, length-drop s mem)))

take-nil : (n : ℕ) → take {A = ℕ} n [] ≡ []
take-nil zero = refl
take-nil (suc n) = refl

take_plus : (m n : ℕ) (xs : Bytes) → take (m + n) xs ≡ take m xs ++ take n (drop m xs)
take_plus zero n xs = rw zero-add
take_plus (suc m) n [] = take-nil (suc m + n) ∙ sym (take-nil n)
take_plus (suc m) n (x ∷ xs) = rw suc-add (ap (λ ys. x ∷ ys) (take_plus m n xs))

concat-cut : (sizes : List ℕ) (mem : Bytes) → concat (cut sizes mem) ≡ take (sum sizes) mem
unfolding concat
concat-cut [] mem = refl
concat-cut (s ∷ ss) mem = rw (concat-cut ss (drop s mem)) (sym (take_plus s (sum ss) mem))

-- No key is the same as a later one.
abbrev Distinct : (Bytes → Bytes → Bool) → List Bytes → Type 0
Distinct same [] = Unit
Distinct same (k ∷ ks) = (among same ks k ≡ false) × Distinct same ks

module _ (same : Bytes → Bytes → Bool) (mode : ℕ) (not_new : has mode mode_new_only ≡ false)
    (not_exist : has mode mode_exist_only ≡ false) (not_append : has mode mode_append ≡ false) where
  updated_absent :
      (ks vs : List Bytes) (j : Bytes) (old : Option Bytes)
      → among same ks j ≡ false
      → updated same mode (pairs ks vs) j old ≡ old
  unfolding updated
  updated_absent [] vs j old h = refl
  updated_absent (k ∷ ks) [] j old h = refl
  updated_absent (k ∷ ks) (v ∷ vs) j old h = ground (arith, updated_absent ks vs j old)

  -- Every key that is stored once reads as its value.
  updated-Distinct :
      (reflexive : (k : Bytes) → same k k ≡ true) (ks vs : List Bytes) (old : Bytes → Option Bytes)
      → length ks ≡ length vs
      → Distinct same ks
      → map (λ k. updated same mode (pairs ks vs) k (old k)) ks ≡ map some vs
  unfolding updated is_written new_value
  updated-Distinct r [] [] old e t = refl
  updated-Distinct r [] (v ∷ vs) old e t = absurd (omega arith)
  updated-Distinct r (k ∷ ks) [] old e t = absurd (omega arith)
  updated-Distinct r (k ∷ ks) (v ∷ vs) old e t =
      ap₂ ◌∷◌
        (rw (updated, r k, is_written, not_new, not_exist, new_value, not_append)
          (updated_absent ks vs k (some v) t.0))
        (updated-Distinct r ks vs _ (omega arith) t.1)

module _ {S : Type 0} {d : Database S} (L : Laws d) where
  module _ (name : Bytes) (named : is_nil name ≡ false) (short : length name < word) where
    key_from_id-injective :
        (x y : ℕ) → x < word → y < word → key_from_id name x ≡ key_from_id name y → x ≡ y
    key_from_id-injective x y hx hy e =
        sym (id_from_key-key_from_id name x hx)
        ∙ ap (id_from_key (length name)) e
        ∙ id_from_key-key_from_id name y hy

    not_same : (j k : Bytes) → (j ≡ k → ⊥) → L.same_key j k ≡ false
    not_same j k ne = elim (Bool-cases (L.same_key j k)) [
      | inl e ↦ absurd (ne ((L.same_key_iff j k).0 e))
      | inr e ↦ e
    ]

    later_ids :
        (id first n : ℕ)
        → id < first
        → first + n ≤ word
        → among L.same_key (map (key_from_id name) (ids_from first n)) (key_from_id name id) ≡ false
    unfolding ids_from
    later_ids id first zero less b = refl
    later_ids id first (suc n) less b =
        let e : wrap first ≡ first = omega arith in
        let other : L.same_key (key_from_id name first) (key_from_id name id) ≡ false =
          not_same _ _
            (λ h. omega (arith, key_from_id-injective first id (omega arith) (omega arith) h)) in
        rw (e, other) (later_ids id (suc first) n (omega arith) (omega arith))

    ids_from-Distinct :
        (first n : ℕ)
        → first + n ≤ word
        → Distinct L.same_key (map (key_from_id name) (ids_from first n))
    unfolding ids_from
    ids_from-Distinct first zero b = tt
    ids_from-Distinct first (suc n) b =
        let e : wrap first ≡ first = omega arith in
        rw e (
          later_ids first (suc first) n (omega arith) (omega arith),
          ids_from-Distinct (suc first) n (omega arith),
        )

    -- The name of the collection is no key of a document.
    name_apart : (id : ℕ) → L.same_key name (key_from_id name id) ≡ false
    name_apart id = not_same _ _ (λ h. omega (arith, length-key_from_id name id, ap length h))

    views-documents :
        (f g : Bytes → Option Bytes) (o : Option Bytes) (ids : List ℕ)
        → ((j : Bytes) → f j ≡ (if L.same_key name j then o else g j))
        → map f (map (key_from_id name) ids) ≡ map g (map (key_from_id name) ids)
    views-documents f g o [] h = refl
    views-documents f g o (id ∷ ids) h =
        ap₂ ◌∷◌ (h (key_from_id name id) ∙ rw (name_apart id)) (views-documents f g o ids h)

    length-map_key : (ids : List ℕ) → length (map (key_from_id name) ids) ≡ length ids
    length-map_key [] = refl
    length-map_key (id ∷ ids) = ap suc (length-map_key ids)

    -- Documents that `docStore` takes, in a mode that stores every pair and replaces what there is,
    -- are what `docLoad` then returns for the identifiers given: into a buffer with room for all of
    -- them and without WAIT and CONSUME, their bytes one behind the other, and their sizes. The
    -- metadata of the collection are known, the identifiers stay in their range, and the buffers
    -- too.
    pub store_load :
        (mode mode' : ℕ) (m : Metadata) (documents : Bytes) (sizes ids : List ℕ) (buffer : Bytes)
        (slots : List ℕ) (st : Store S)
        → has mode mode_new_only ≡ false
        → has mode mode_exist_only ≡ false
        → has mode mode_append ≡ false
        → has mode' mode_wait ≡ false
        → has mode' mode_consume ≡ false
        → length ids ≡ length sizes
        → Fits sizes documents
        → m.last_id + length sizes ≤ word
        → length (keys_from_ids name (ids_from m.last_id (length sizes))) < word
        → Known L name m st
        → L.IsValid st.db
        → length slots ≡ length sizes
        → sum sizes ≤ length buffer
        → length buffer ≤ last_valid_size
        → (let stored = ids_from m.last_id (length sizes) in
            let bytes = take (sum sizes) documents in
            (st' : Store S) × (doc_store d (some name) mode documents sizes ids st
              ≡ done (ok, stored, st'))
            × (doc_load d (some name) mode' true stored buffer slots st'
                ≡ done (
                  ok,
                  record { vals = written 0 bytes buffer; vals_size = sum sizes; vsizes = sizes },
                  st',
                )))
    store_load mode mode' m documents sizes ids buffer slots st n e a nowait keep same_length fits
          last b k v same_slots room bounded =
        let count = length sizes in
        let stored = ids_from m.last_id count in
        let ks = map (key_from_id name) stored in
        let vs = cut sizes documents in
        let (st', returned, reads, known, valid) =
          doc_store_lem L name named short mode m documents sizes ids st n e same_length fits b k
            v in
        let here : L.same_key name name ≡ true = (L.same_key_iff name name).1 refl in
        let collection : is_collection L name st' ≡ true = rw (reads name, here, length-encode) in
        let counts : length ks ≡ length vs =
          length-map_key stored
          ∙ length-ids_from m.last_id count
          ∙ sym (length-cut sizes documents) in
        let values : map (L.view st'.db) ks ≡ map some vs =
          views-documents _ _ _ stored reads
          ∙ updated-Distinct L.same_key mode n e a (λ k. (L.same_key_iff k k).1 refl) ks vs
              (L.view st.db) counts (ids_from-Distinct m.last_id count last) in
        let lengths : map length vs ≡ sizes = sizes-cut sizes documents fits.within in
        let enough : sum (map length vs) ≤ length buffer = rw lengths room in
        let taken : length (take (sum sizes) documents) ≡ sum sizes =
          omega (arith, length-take (sum sizes) documents, fits.within) in
        (
          st',
          returned,
          doc_load_contract L name named short mode' stored buffer slots st' nowait keep
                (length-ids_from m.last_id count ∙ sym same_slots) b bounded
              ∙ rw (
                collection,
                values,
                packed_sizes_fit (length buffer) vs enough,
                packed_bytes_fit (length buffer) vs enough,
                concat-cut sizes documents,
                lengths,
                taken,
                zero-add,
              ),
        )
