-- ===== src/Docs/Keys.antt =====
-- The keys of documents, and the bytes of the metadata of a collection.
pub mod Layout
use native.Mathlib.Nat.{suc-add}
use mochi_yokan.Memory.{le_bytes, le_value, le_value-le_bytes, length-le_bytes}
use mochi_yokan.Prelude.{
  ℕ, ◌+◌, ◌^◌, ◌<◌, ◌≡◌, refl, sym, ap, List, [], ◌∷◌, ◌++◌, arith, ltb, length, take, drop,
  length-append,
}
use mochi_yokan.Common.{Bytes}
use mochi_yokan.Docs.Ids.{
  ensure_big_endian, ensure_big_endian-ensure_big_endian, ensure_big_endian-lt,
}
use mochi_yokan.Docs.Ids.Order.{id_order}
use mochi_yokan.KeyOrder.{default_mem_cmp}

-- `_keyFromId`: the name, its NUL byte, and the identifier.
unfoldable pub key_from_id : Bytes → ℕ → Bytes
key_from_id name id = name ++ (0 ∷ le_bytes 8 (ensure_big_endian id))

-- `_keysFromIds`
unfoldable pub keys_from_ids : Bytes → List ℕ → Bytes
unfolding key_from_id
keys_from_ids name [] = []
keys_from_ids name (id ∷ ids) = key_from_id name id ++ keys_from_ids name ids

-- `_idFromKey`
unfoldable pub id_from_key : ℕ → Bytes → ℕ
id_from_key coll_name_len key = ensure_big_endian (le_value (take 8 (drop (coll_name_len + 1) key)))

-- `CollectionMetadata`
pub record Metadata : Type 0 where
  pub size : ℕ
  pub last_id : ℕ

abbrev pub no_metadata : Metadata
no_metadata = record { size = 0; last_id = 0 }

-- The 16 bytes of the structure, and the structure that such bytes are read as.
unfoldable pub encode : Metadata → Bytes
encode m = le_bytes 8 m.size ++ le_bytes 8 m.last_id

unfoldable pub decode : Bytes → Metadata
decode bs = record { size = le_value (take 8 bs); last_id = le_value (take 8 (drop 8 bs)) }

drop-past {ℓ} :
    {A : Type ℓ} (xs : List A) (y : A) (ys : List A) → drop (length xs + 1) (xs ++ y ∷ ys) ≡ ys
drop-past [] y ys = refl
drop-past (x ∷ xs) y ys = rw suc-add (drop-past xs y ys)

take-le_bytes : (x : ℕ) → take 8 (le_bytes 8 x) ≡ le_bytes 8 x
unfolding le_bytes
take-le_bytes x = refl

-- Metadata of a collection whose two numbers are 64-bit words is read back from its bytes.
pub decode-encode : (m : Metadata) → m.size < 2 ^ 64 → m.last_id < 2 ^ 64 → decode (encode m) ≡ m
unfolding decode encode le_bytes le_value
decode-encode m hs hl =
    let p : le_value (take 8 (le_bytes 8 m.size ++ le_bytes 8 m.last_id)) ≡ m.size = omega arith in
    let q : le_value (take 8 (drop 8 (le_bytes 8 m.size ++ le_bytes 8 m.last_id))) ≡ m.last_id =
      omega arith in
    λ i. record { size = p i; last_id = q i }

-- The 64-bit identifier of a document is read back from its key.
pub id_from_key-key_from_id :
    (name : Bytes) (id : ℕ) → id < 2 ^ 64 → id_from_key (length name) (key_from_id name id) ≡ id
unfolding id_from_key key_from_id
id_from_key-key_from_id name id h =
    rw
      (
        drop-past name 0 (le_bytes 8 (ensure_big_endian id)),
        take-le_bytes (ensure_big_endian id),
        le_value-le_bytes (ensure_big_endian id) (ensure_big_endian-lt id h),
      )
      (ensure_big_endian-ensure_big_endian id h)

pub length-key_from_id : (name : Bytes) (id : ℕ) → length (key_from_id name id) ≡ length name + 9
unfolding key_from_id
length-key_from_id name id = omega (
  arith,
  length-append name (0 ∷ le_bytes 8 (ensure_big_endian id)),
  length-le_bytes 8 (ensure_big_endian id),
)

append-snoc {ℓ} :
    {A : Type ℓ} (xs : List A) (y : A) (ys : List A) → (xs ++ y ∷ []) ++ ys ≡ xs ++ y ∷ ys
append-snoc [] y ys = refl
append-snoc (x ∷ xs) y ys = ap (λ zs. x ∷ zs) (append-snoc xs y ys)

-- For two documents of a collection with 64-bit identifiers, the key of one comes before the key of
-- the other in the default order exactly when its identifier is the smaller one.
pub key_from_id-order :
    (name : Bytes) (x y : ℕ)
    → x < 2 ^ 64
    → y < 2 ^ 64
    → default_mem_cmp (key_from_id name x) (key_from_id name y) ≡ ltb x y
unfolding key_from_id
key_from_id-order name x y hx hy =
    rw
      (
        sym (append-snoc name 0 (le_bytes 8 (ensure_big_endian x))),
        sym (append-snoc name 0 (le_bytes 8 (ensure_big_endian y))),
      )
      (id_order (name ++ 0 ∷ []) x y hx hy)
