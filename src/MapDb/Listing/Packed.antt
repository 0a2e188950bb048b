-- ===== src/MapDb/Listing/Packed.antt =====
-- `listKeys` in the packed layout: the keys that the filter accepts, in the order of the map.
use mochi_yokan.Prelude.{
  ℕ, ◌+◌, ◌-◌, ◌≤◌, ◌≡◌, refl, Bool, true, false, Option, none, some, List, [], ◌∷◌, ◌++◌, map,
  arith, ◌==◌, length, word, wrap, if◌then◌else◌, done, ◌>>=◌, length-append, Option-cases, inl,
  inr,
}
use mochi_yokan.Common.{Bytes, size_too_small, no_more_keys, last_valid_size}
use mochi_yokan.OrderedMap.{Map}
use mochi_yokan.Memory.{written, write-written}
use mochi_yokan.Filter.{Filter}
use mochi_yokan.MapDb.Listing.{Out, emit, copy_out}

-- The keys of the entries that the filter accepts.
unfoldable pub accepted : Filter → Map → List Bytes
accepted f [] = []
accepted f ((k, v) ∷ m) = let rest = accepted f m in if f.check k v then k ∷ rest else rest

-- Behind an entry at which the filter says "stop" it accepts none.
abbrev pub StopSound : Filter → Map → Type 0
StopSound f [] = Unit
StopSound f ((k, v) ∷ m) =
    (f.check k v ≡ false → f.should_stop k v ≡ true → accepted f m ≡ []) × StopSound f m

-- The sizes for the keys to list: those that have room, YOKAN_SIZE_TOO_SMALL from the first one on
-- that has none, and YOKAN_NO_MORE_KEYS in the slots that are left.
unfoldable pub listed_sizes : (ℕ → Bytes → Option Bytes) → ℕ → Bool → List Bytes → List ℕ → List ℕ
listed_sizes copy room full [] slots = map (λ s. no_more_keys) slots
listed_sizes copy room full (k ∷ ks) [] = []
listed_sizes copy room true (k ∷ ks) (s ∷ ss) = size_too_small ∷ listed_sizes copy room true ks ss
listed_sizes copy room false (k ∷ ks) (s ∷ ss) = elim (copy room k) [
  | none ↦ size_too_small ∷ listed_sizes copy room true ks ss
  | some x ↦ length x ∷ listed_sizes copy (room - length x) false ks ss
]

unfoldable pub listed_bytes : (ℕ → Bytes → Option Bytes) → ℕ → List Bytes → List ℕ → Bytes
listed_bytes copy room [] slots = []
listed_bytes copy room (k ∷ ks) [] = []
listed_bytes copy room (k ∷ ks) (s ∷ ss) = elim (copy room k) [
  | none ↦ []
  | some x ↦ x ++ listed_bytes copy (room - length x) ks ss
]

-- A filter's copy stays within the room that it is given.
abbrev pub IsBounded : Filter → Type 0
IsBounded f = (room : ℕ) (k x : Bytes) → f.key_copy room k ≡ some x → length x ≤ room

module _ (copy : ℕ → Bytes → Option Bytes) where
  pub listed_sizes-nil :
      (room : ℕ) (full : Bool) (ks : List Bytes) → listed_sizes copy room full ks [] ≡ []
  unfolding listed_sizes
  listed_sizes-nil room full [] = refl
  listed_sizes-nil room full (k ∷ ks) = refl

  pub listed_bytes-nil : (room : ℕ) (ks : List Bytes) → listed_bytes copy room ks [] ≡ []
  unfolding listed_bytes
  listed_bytes-nil room [] = refl
  listed_bytes-nil room (k ∷ ks) = refl

  pub listed_sizes-none :
      (room : ℕ) (k : Bytes) (ks : List Bytes) (s : ℕ) (ss : List ℕ)
      → copy room k ≡ none
      → listed_sizes copy room false (k ∷ ks) (s ∷ ss)
        ≡ size_too_small ∷ listed_sizes copy room true ks ss
  unfolding listed_sizes
  listed_sizes-none room k ks s ss e = rw (e, listed_sizes)

  pub listed_sizes-some :
      (room : ℕ) (k x : Bytes) (ks : List Bytes) (s : ℕ) (ss : List ℕ)
      → copy room k ≡ some x
      → listed_sizes copy room false (k ∷ ks) (s ∷ ss)
        ≡ length x ∷ listed_sizes copy (room - length x) false ks ss
  unfolding listed_sizes
  listed_sizes-some room k x ks s ss e = rw (e, listed_sizes)

  pub listed_bytes-none :
      (room : ℕ) (k : Bytes) (ks : List Bytes) (s : ℕ) (ss : List ℕ)
      → copy room k ≡ none
      → listed_bytes copy room (k ∷ ks) (s ∷ ss) ≡ []
  unfolding listed_bytes
  listed_bytes-none room k ks s ss e = rw (e, listed_bytes)

  pub listed_bytes-some :
      (room : ℕ) (k x : Bytes) (ks : List Bytes) (s : ℕ) (ss : List ℕ)
      → copy room k ≡ some x
      → listed_bytes copy room (k ∷ ks) (s ∷ ss) ≡ x ++ listed_bytes copy (room - length x) ks ss
  unfolding listed_bytes
  listed_bytes-some room k x ks s ss e = rw (e, listed_bytes)

  pub length-listed_bytes :
      ((room : ℕ) (k x : Bytes) → copy room k ≡ some x → length x ≤ room)
      → (room : ℕ) (ks : List Bytes) (slots : List ℕ)
      → length (listed_bytes copy room ks slots) ≤ room
  unfolding listed_bytes
  length-listed_bytes bounded room [] slots = omega arith
  length-listed_bytes bounded room (k ∷ ks) [] = omega arith
  length-listed_bytes bounded room (k ∷ ks) (s ∷ ss) = elim (Option-cases (copy room k)) [
    | inl e ↦ rw (listed_bytes-none room k ks s ss e) (omega arith)
    | inr (x, e) ↦ rw (listed_bytes-some room k x ks s ss e) (
        omega (
          arith,
          length-append x (listed_bytes copy (room - length x) ks ss),
          length-listed_bytes bounded (room - length x) ks ss,
          bounded room k x e,
        ))
  ]

abbrev pub out_at : Bytes → ℕ → Bool → Out
out_at bytes offset full = record { bytes = bytes; offset = offset; too_small = full }

pub emit_full :
    (copy : ℕ → Option Bytes) (slot : ℕ) (bytes : Bytes) (vo : ℕ)
    → emit true copy slot (out_at bytes vo true) ≡ done (size_too_small, out_at bytes vo true)
unfolding emit
emit_full copy slot bytes vo = refl

pub emit-none :
    (copy : ℕ → Option Bytes) (slot : ℕ) (bytes : Bytes) (vo room : ℕ)
    → wrap (length bytes + word - vo) ≡ room
    → copy room ≡ none
    → emit true copy slot (out_at bytes vo false) ≡ done (size_too_small, out_at bytes vo true)
unfolding emit
emit-none copy slot bytes vo room e c = rw (e, c)

pub emit-some :
    (copy : ℕ → Option Bytes) (slot : ℕ) (bytes : Bytes) (vo room : ℕ) (x : Bytes)
    → wrap (length bytes + word - vo) ≡ room
    → vo + room ≡ length bytes
    → length bytes ≤ last_valid_size
    → length x ≤ room
    → copy room ≡ some x
    → emit true copy slot (out_at bytes vo false)
      ≡ done (length x, out_at (written vo x bytes) (vo + length x) false)
unfolding emit
emit-some copy slot bytes vo room x e r b fits c =
    let wv : wrap (vo + length x) ≡ vo + length x = omega arith in
    let plain : (length x == size_too_small) ≡ false = ground arith in
    rw (e, c, copy_out, write-written bytes vo x (omega arith), ◌>>=◌, plain, wv)
