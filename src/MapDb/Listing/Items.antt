-- ===== src/MapDb/Listing/Items.antt =====
-- The items of a listing by a prefix, and the prefix filter of src/server/util/filters.cpp against them.
use mathlib.Core.Path.{ap₂}
use mochi_yokan.Prelude.{
  ℕ, ◌-◌, ◌≤◌, ◌≡◌, refl, sym, ap, ◌∙◌, Bool, true, false, Option, none, some, List, [], ◌∷◌, ◌++◌,
  arith, ltb, ◌==◌, length, if◌then◌else◌, length-append, drop-append, le→ltb, Option-cases,
  Bool-cases, inl, inr,
}
use mochi_yokan.Common.{Bytes, size_too_small, mode_no_prefix, has}
use mochi_yokan.OrderedMap.{Map}
use mochi_yokan.Filter.{prefix_filter, copy_bounded, is_prefix, is_prefix_iff}
use mochi_yokan.MapDb.Listing.Packed.{
  accepted, listed_sizes, listed_bytes, listed_sizes-nil, listed_sizes-none, listed_sizes-some,
  listed_bytes-nil, listed_bytes-none, listed_bytes-some,
}

-- What is behind a prefix, byte by byte.
unfoldable pub behind : Bytes → Bytes → Option Bytes
behind [] key = some key
behind (p ∷ ps) [] = none
behind (p ∷ ps) (k ∷ ks) = let rest = behind ps ks in if p == k then rest else none

-- The items of a listing by a prefix: the keys that have it, whole or without it.
unfoldable pub items : Bool → Bytes → Map → List Bytes
items cut prefix [] = []
items cut prefix ((k, v) ∷ m) =
    let rest = items cut prefix m in
    elim (behind prefix k) [ none ↦ rest | some r ↦ (if cut then r else k) ∷ rest ]

-- An item is listed if there is room for it.
unfoldable pub fit : ℕ → Bytes → Option Bytes
fit room x = if ltb room (length x) then none else some x

pub behind-append : (prefix rest : Bytes) → behind prefix (prefix ++ rest) ≡ some rest
unfolding behind
behind-append [] rest = refl
behind-append (p ∷ ps) rest = ground (arith, behind-append ps rest)

behind-some : (prefix key r : Bytes) → behind prefix key ≡ some r → key ≡ prefix ++ r
unfolding behind
behind-some [] key r h = ground arith
behind-some (p ∷ ps) [] r h = absurd (ground arith)
behind-some (p ∷ ps) (k ∷ ks) r h = elim (Bool-cases (p == k)) [
  | inl e ↦ ap₂ ◌∷◌ (ground arith) (behind-some ps ks r (ground arith))
  | inr e ↦ absurd (ground arith)
]

behind-none : (prefix key : Bytes) → behind prefix key ≡ none → is_prefix prefix key ≡ false
behind-none prefix key h = elim (Bool-cases (is_prefix prefix key)) [
  | inl c ↦
      let (rest, e) = (is_prefix_iff prefix key).0 c in
      absurd (ground (arith, behind-append prefix rest, h, ap (behind prefix) e))
  | inr c ↦ c
]

module _ (mode : ℕ) (prefix : Bytes) where
  -- The filter copies an item where there is room.
  item_copy :
      (room : ℕ) (rest : Bytes)
      → (prefix_filter mode prefix).key_copy room (prefix ++ rest)
        ≡ fit room (if has mode mode_no_prefix then rest else prefix ++ rest)
  unfolding prefix_filter copy_bounded fit
  item_copy room rest =
      let long : ltb (length (prefix ++ rest)) (length prefix) ≡ false =
        le→ltb (length (prefix ++ rest)) (length prefix)
          (omega (arith, length-append prefix rest)) in
      elim (Bool-cases (has mode mode_no_prefix)) [
        | inl e ↦ rw (e, long, drop-append (length prefix) prefix rest refl) refl
        | inr e ↦ rw e refl
      ]

  accepts :
      (key v : Bytes) (r : Bytes)
      → key ≡ prefix ++ r
      → (prefix_filter mode prefix).check key v ≡ true
  unfolding prefix_filter
  accepts key v r e = (is_prefix_iff prefix key).1 (r, e)

  refuses :
      (key v : Bytes) → behind prefix key ≡ none → (prefix_filter mode prefix).check key v ≡ false
  unfolding prefix_filter
  refuses key v h = behind-none prefix key h

  abbrev copies : ℕ → Bytes → Option Bytes
  copies = (prefix_filter mode prefix).key_copy

  abbrev cut : Bool
  cut = has mode mode_no_prefix

  items-nil : items cut prefix [] ≡ []
  unfolding items
  items-nil = refl

  items-none :
      (k v : Bytes) (m : Map)
      → behind prefix k ≡ none
      → items cut prefix ((k, v) ∷ m) ≡ items cut prefix m
  unfolding items
  items-none k v m e = rw (items, e) refl

  items-some :
      (k v r : Bytes) (m : Map)
      → behind prefix k ≡ some r
      → items cut prefix ((k, v) ∷ m) ≡ (if cut then r else k) ∷ items cut prefix m
  unfolding items
  items-some k v r m e = rw (items, e) refl

  copied :
      (room : ℕ) (k r : Bytes) → k ≡ prefix ++ r → copies room k ≡ fit room (if cut then r else k)
  copied room k r e = rw e (item_copy room r)

  pub sizes_of_items :
      (m : Map) (room : ℕ) (full : Bool) (slots : List ℕ)
      → listed_sizes copies room full (accepted (prefix_filter mode prefix) m) slots
        ≡ listed_sizes fit room full (items cut prefix m) slots
  unfolding accepted listed_sizes
  sizes_of_items [] room full slots = rw items-nil refl
  sizes_of_items ((k, v) ∷ m) room full [] =
      listed_sizes-nil copies room full (accepted (prefix_filter mode prefix) ((k, v) ∷ m))
      ∙ sym (listed_sizes-nil fit room full (items cut prefix ((k, v) ∷ m)))
  sizes_of_items ((k, v) ∷ m) room full (s ∷ ss) = elim (Option-cases (behind prefix k)) [
    | inl e ↦ rw (refuses k v e, items-none k v m e) (sizes_of_items m room full (s ∷ ss))
    | inr (r, e) ↦
        let whole = behind-some prefix k r e in
        let item = if cut then r else k in
        let ks = accepted (prefix_filter mode prefix) m in
        let rest = items cut prefix m in
        let at_full = ap (◌∷◌ size_too_small) (sizes_of_items m room true ss) in
        rw (accepts k v r whole, items-some k v r m e)
          (elim (Bool-cases full) [
            | inl f ↦ rw f at_full
            | inr f ↦ elim (Option-cases (fit room item)) [
              | inl n ↦
                  rw
                    (
                      f,
                      listed_sizes-none copies room k ks s ss (copied room k r whole ∙ n),
                      listed_sizes-none fit room item rest s ss n,
                    )
                    at_full
              | inr (x, h) ↦
                  rw
                    (
                      f,
                      listed_sizes-some copies room k x ks s ss (copied room k r whole ∙ h),
                      listed_sizes-some fit room item x rest s ss h,
                    )
                    (ap (◌∷◌ (length x)) (sizes_of_items m (room - length x) false ss))
            ]
          ])
  ]

  pub bytes_of_items :
      (m : Map) (room : ℕ) (slots : List ℕ)
      → listed_bytes copies room (accepted (prefix_filter mode prefix) m) slots
        ≡ listed_bytes fit room (items cut prefix m) slots
  unfolding accepted listed_bytes
  bytes_of_items [] room slots = rw items-nil refl
  bytes_of_items ((k, v) ∷ m) room [] =
      listed_bytes-nil copies room (accepted (prefix_filter mode prefix) ((k, v) ∷ m))
      ∙ sym (listed_bytes-nil fit room (items cut prefix ((k, v) ∷ m)))
  bytes_of_items ((k, v) ∷ m) room (s ∷ ss) = elim (Option-cases (behind prefix k)) [
    | inl e ↦ rw (refuses k v e, items-none k v m e) (bytes_of_items m room (s ∷ ss))
    | inr (r, e) ↦
        let whole = behind-some prefix k r e in
        let item = if cut then r else k in
        let ks = accepted (prefix_filter mode prefix) m in
        let rest = items cut prefix m in
        rw (accepts k v r whole, items-some k v r m e)
          (elim (Option-cases (fit room item)) [
            | inl n ↦
                rw
                  (
                    listed_bytes-none copies room k ks s ss (copied room k r whole ∙ n),
                    listed_bytes-none fit room item rest s ss n,
                  )
                  refl
            | inr (x, h) ↦
                rw
                  (
                    listed_bytes-some copies room k x ks s ss (copied room k r whole ∙ h),
                    listed_bytes-some fit room item x rest s ss h,
                  )
                  (ap (◌++◌ x) (bytes_of_items m (room - length x) ss))
          ])
  ]

-- An item fits in the room that it is given.
pub fit-bounded : (room : ℕ) (k x : Bytes) → fit room k ≡ some x → length x ≤ room
unfolding fit
fit-bounded room k x h = ground arith
