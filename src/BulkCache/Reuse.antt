-- ===== src/BulkCache/Reuse.antt =====
-- What the cache gives out, what it keeps, and what it counts.
use mochi_yokan.Prelude.{
  ℕ, suc, ◌+◌, ◌-◌, ◌≤◌, ◌<◌, ◌≡◌, ◌≢◌, refl, ap, true, false, some, List, [], ◌∷◌, ltb, ◌==◌,
  arith, length, word, wrap, Option-cases, Bool-cases, inl, inr, ==_refl,
}
use mochi_yokan.BulkCache.Defs.{
  BulkMode, read_only, write_only, read_write, Buffer, BulkCache, Answer, erase_buffer,
  emplace_buffer, first_of_size, same_mode, with_shelf, without_oldest, cache_get, cache_release,
}

first_of_size-large :
    (size : ℕ) (bs : List Buffer) (b : Buffer) → first_of_size size bs ≡ some b → size ≤ b.size
unfolding first_of_size
first_of_size-large size [] b h = cc
first_of_size-large size (c ∷ cs) b h = ground (arith, first_of_size-large size cs b)

-- Where the allocation succeeds, and the margin does not make a size smaller, a request for a size
-- other than 0 is answered by a buffer of at least that size, from the cache or new.
pub cache_get_large :
    (grow : ℕ → ℕ) (address size : ℕ) (mode : BulkMode) (c : BulkCache)
    → size ≢ 0
    → size ≤ grow size
    → (b : Buffer) × (c' : BulkCache) × (cache_get grow
          (record { data_at = some address; created = true })
          size
          mode
          c
        ≡ (some b, c'))
      × (size ≤ b.size)
unfolding cache_get
cache_get_large grow address size mode c nonzero grows =
    let zero_no : (size == 0) ≡ false = ground arith in
    elim (Option-cases (first_of_size size ((c.shelf mode).set))) [
      | inl e ↦ (
        record { size = grow size; mode = mode; address = address },
        record c { num_allocated = wrap (c.num_allocated + 1) },
        rw (zero_no, e),
        grows,
      )
      | inr p ↦
          let (b, e) = p in
          let s = c.shelf mode in
          (
            b,
            with_shelf mode
                (record {
                  queue = erase_buffer b.address s.queue;
                  set = erase_buffer b.address s.set;
                })
                c,
            rw (zero_no, e),
            first_of_size-large size ((c.shelf mode).set) b e,
          )
    ]

length-without_oldest : (b : Buffer) (bs : List Buffer) → length (without_oldest b bs) ≡ length bs
unfolding without_oldest
length-without_oldest b [] = refl
length-without_oldest b (c ∷ cs) = ap suc (length-without_oldest c cs)

length-erase_buffer :
    (address : ℕ) (bs : List Buffer) → length (erase_buffer address bs) ≤ length bs
unfolding erase_buffer
length-erase_buffer address [] = omega arith
length-erase_buffer address (c ∷ cs) = ground (arith, length-erase_buffer address cs)

-- No queue is longer than the capacity.
abbrev pub IsBounded : BulkCache → Type 0
IsBounded c = (m : BulkMode) → length ((c.shelf m).queue) ≤ c.capacity

-- A release keeps every queue within the capacity, if it is so before.
pub cache_release-IsBounded :
    (b : Buffer) (c : BulkCache) → IsBounded c → IsBounded (cache_release b c)
unfolding cache_release
cache_release-IsBounded b c h m = elim (Bool-cases (same_mode m b.mode)) [
  | inl e ↦ elim (Bool-cases (ltb c.capacity (length (b ∷ (c.shelf b.mode).queue)))) [
    | inl full ↦
        rw (cache_release, e, full, length-without_oldest b ((c.shelf b.mode).queue)) (h b.mode)
    | inr room ↦ rw (cache_release, e, room) (ground arith)
  ]
  | inr e ↦ rw (cache_release, e) (h m)
]

same_mode_refl : (m : BulkMode) → same_mode m m ≡ true
same_mode_refl read_only = refl
same_mode_refl write_only = refl
same_mode_refl read_write = refl

-- A buffer that is released while no other is kept for its mode, the capacity not being 0, is given
-- out again for any size up to its own other than 0, and the cache of its mode is empty again. The
-- release has taken one from the number of buffers that are out, and the request has not added one.
pub cache_get-cache_release :
    (grow : ℕ → ℕ) (answer : Answer) (size : ℕ) (b : Buffer) (c : BulkCache)
    → c.shelf b.mode ≡ record { queue = []; set = [] }
    → 0 < c.capacity
    → size ≢ 0
    → size ≤ b.size
    → (c' : BulkCache) × (cache_get grow answer size b.mode (cache_release b c) ≡ (some b, c'))
      × (c'.shelf b.mode ≡ record { queue = []; set = [] })
      × (c'.num_allocated ≡ wrap (c.num_allocated + word - 1))
unfolding cache_get cache_release emplace_buffer first_of_size erase_buffer
cache_get-cache_release grow answer size b c empty room nonzero small =
    let zero_no : (size == 0) ≡ false = ground arith in
    let fits : ltb c.capacity 1 ≡ false = ground arith in
    let large : ltb b.size size ≡ false = ground arith in
    let hit : first_of_size size (b ∷ []) ≡ some b = rw (first_of_size, large) in
    let gone : erase_buffer b.address (b ∷ []) ≡ [] = rw (erase_buffer, ==_refl b.address) in
    let released = cache_release b c in
    let kept : released.shelf b.mode ≡ record { queue = b ∷ []; set = b ∷ [] } =
      rw (cache_release, same_mode_refl b.mode, empty, fits) in
    (
      with_shelf b.mode (record { queue = []; set = [] }) released,
      rw (cache_get, zero_no, kept, hit, kept, gone),
      rw (same_mode_refl b.mode),
      refl,
    )
