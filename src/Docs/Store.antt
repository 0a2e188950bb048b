-- ===== src/Docs/Store.antt =====
-- The operations of `DocumentStoreMixin` on collections and documents. A collection is the bytes in
-- front of the NUL byte of the `const char*`, or none for a null pointer.
pub mod Durable
pub mod Create
pub mod Drop
use mochi_yokan.Memory.{le_bytes, le_value}
use mochi_yokan.Prelude.{
  ℕ, zero, suc, ◌+◌, ◌-◌, ◌*◌, ◌/◌, Bool, true, false, not, ◌&&◌, ◌||◌, Option, none, some, List,
  [], ◌∷◌, ◌++◌, ltb, ◌==◌, length, take, drop, replicate, get_or, word, wrap, if◌then◌else◌,
  Outcome, done, fault, ◌>>=◌,
}
use mochi_yokan.Common.{
  Bytes, Status, ok, invalid_arg, invalid_id, not_found, key_exists, not_supported, corruption,
  key_not_found, no_more_keys, mode_inclusive, mode_no_prefix, has,
}
use mochi_yokan.BitField.{BitField, test}
use mochi_yokan.MapDb.State.{is_ok}
use mochi_yokan.Filter.{Filter, prefix_filter}
use mochi_yokan.Database.{Database, Reply}
use mochi_yokan.Docs.Ids.{ensure_big_endian}
use mochi_yokan.Docs.Keys.{key_from_id, keys_from_ids, Metadata, no_metadata, encode, decode}

-- `std::string::operator==`
unfoldable pub same_bytes : Bytes → Bytes → Bool
same_bytes [] [] = true
same_bytes [] (y ∷ b) = false
same_bytes (x ∷ a) [] = false
same_bytes (x ∷ a) (y ∷ b) = x == y && same_bytes a b

-- `m_cached_metadata`
abbrev pub Cache : Type 0
Cache = List (Bytes × Metadata)

unfoldable pub cached : Bytes → Cache → Option Metadata
cached name [] = none
cached name ((n, m) ∷ c) = if same_bytes n name then some m else cached name c

unfoldable pub uncache : Bytes → Cache → Cache
uncache name [] = []
uncache name ((n, m) ∷ c) =
    let rest = uncache name c in if same_bytes n name then rest else (n, m) ∷ rest

-- `m_cached_metadata[name] = m`
unfoldable pub cache : Bytes → Metadata → Cache → Cache
unfolding uncache
cache name m c = (name, m) ∷ uncache name c

pub record Store (S : Type 0) : Type 0 where
  pub db : S
  pub metadata : Cache

abbrev pub is_nil : Bytes → Bool
is_nil [] = true
is_nil (x ∷ xs) = false

-- `strlen` reads a null pointer.
abbrev pub c_string : Option Bytes → Outcome Bytes
c_string none = fault
c_string (some name) = done name

-- `collection == nullptr || collection[0] == 0`
abbrev pub is_unnamed : Option Bytes → Bool
is_unnamed none = true
is_unnamed (some name) = is_nil name

-- The name, behind that guard.
abbrev pub name_of : Option Bytes → Bytes
name_of none = []
name_of (some name) = name

abbrev pub metadata_size : ℕ
metadata_size = 16

-- `std::vector<size_t> ksizes(count, name_len+1+sizeof(yk_id_t))`
abbrev pub doc_ksizes : ℕ → Bytes → List ℕ
doc_ksizes count name = replicate count (length name + 9)

-- The identifiers from 0 on, below the given number.
unfoldable pub first_ids : ℕ → List ℕ
first_ids zero = []
first_ids (suc n) = first_ids n ++ n ∷ []

module _ {S : Type 0} (d : Database S) where
  -- `_collExists`. The flag is written for OK alone.
  unfoldable pub coll_exists_flag : Bytes → Bool → Store S → Outcome (Status × Bool × Store S)
  coll_exists_flag name e st = if is_nil name then done (invalid_arg, e, st) else do
    (status, vlen, db) ← d.value_lengths 0 name (length name ∷ []) (0 ∷ []) st.db
    done (
      status,
      (if is_ok status then get_or vlen 0 0 == metadata_size else e),
      record st { db = db },
    )

  -- `_collGetMetadata` with `from_disk` at its default, as all its callers leave it, into a variable
  -- that holds `m`.
  unfoldable pub coll_get_metadata :
      Bytes → Metadata → Store S → Outcome (Status × Metadata × Store S)
  coll_get_metadata name m st =
      let from_disk : Outcome (Status × Metadata × Store S) = (do
        (status, r, db) ← d.get 0 true name (length name ∷ []) (encode m) (metadata_size ∷ []) st.db
        let read = decode r.vals
        let vlen = get_or r.vsizes 0 0
        done (
            if not (is_ok status)
            then (status, read, record st { db = db })
            else if vlen == key_not_found
            then (not_found, read, record st { db = db })
            else if not (vlen == metadata_size)
            then (corruption, read, record st { db = db })
            else (ok, read, record { db = db; metadata = cache name read st.metadata }))) in
      if is_nil name
      then done (invalid_arg, m, st)
      else elim (cached name st.metadata) [ some c ↦ done (ok, c, st) | none ↦ from_disk ]

  -- `_collPutMetadata`
  unfoldable pub coll_put_metadata : Bytes → Metadata → Bool → Store S → Outcome (Status × Store S)
  coll_put_metadata name m flush_to_disk st =
      if is_nil name
      then done (invalid_arg, st)
      else if flush_to_disk
      then (do
        (status, db) ← d.put 0 name (length name ∷ []) (encode m) (metadata_size ∷ []) st.db
        done (
            if is_ok status
            then (ok, record { db = db; metadata = cache name m st.metadata })
            else (status, record st { db = db })))
      else done (ok, record st { metadata = cache name m st.metadata })

  unfoldable pub coll_create : Option Bytes → Store S → Outcome (Status × Store S)
  unfolding coll_exists_flag coll_put_metadata
  coll_create collection st = do
    name ← c_string collection
    (status, e, st₁) ← coll_exists_flag name false st
    let created = if e then done (key_exists, st₁) else coll_put_metadata name no_metadata true st₁
    if is_ok status then created else done (status, st₁)

  unfoldable pub coll_drop : ℕ → Option Bytes → Store S → Outcome (Status × Store S)
  unfolding coll_exists_flag coll_get_metadata first_ids
  coll_drop mode collection st = do
    name ← c_string collection
    (status, e, st₁) ← coll_exists_flag name false st
    if not (is_ok status) then done (status, st₁) else do
      (status, m, st₂) ← coll_get_metadata name no_metadata st₁
      if not (is_ok status) then done (status, st₂) else do
        let keys = keys_from_ids name (first_ids m.last_id) ++ name
        let ksizes = doc_ksizes m.last_id name ++ length name ∷ []
        (status, db) ← d.erase mode keys ksizes st₂.db
        done (status, record { db = db; metadata = uncache name st₂.metadata })

  unfoldable pub coll_exists : Option Bytes → Bool → Store S → Outcome (Status × Bool × Store S)
  unfolding coll_exists_flag
  coll_exists collection flag st = do name ← c_string collection; coll_exists_flag name flag st

  unfoldable pub coll_last_id : Option Bytes → ℕ → Store S → Outcome (Status × ℕ × Store S)
  unfolding coll_get_metadata
  coll_last_id collection id st = do
    name ← c_string collection
    (status, m, st₁) ← coll_get_metadata name no_metadata st
    done (status, (if is_ok status then m.last_id else id), st₁)

  unfoldable pub coll_size : Option Bytes → ℕ → Store S → Outcome (Status × ℕ × Store S)
  unfolding coll_get_metadata
  coll_size collection size st = do
    name ← c_string collection
    (status, m, st₁) ← coll_get_metadata name no_metadata st
    done (status, (if is_ok status then m.size else size), st₁)
