-- ===== src/BulkCache/KeepAll.antt =====
-- `keep_all_bulk_cache` of src/buffer/keep_all_bulk_cache.cpp, the cache without a capacity.
use mathlib.Core.Path.{fun_ext}
use mochi_yokan.Prelude.{
  ℕ, suc, ◌+◌, ◌-◌, ◌≤◌, ◌≡◌, refl, ap, sym, Bool, true, false, Option, none, some, List, ◌∷◌, ltb,
  ◌==◌, arith, length, word, wrap, if◌then◌else◌, Option-cases, Bool-cases, inl, inr,
}
use mochi_yokan.BulkCache.Defs.{
  BulkMode, Buffer, Shelf, BulkCache, Answer, erase_buffer, emplace_buffer, first_of_size,
  same_mode, with_shelf, cache_get, cache_release,
}

pub record KeepAllCache : Type 0 where
  pub num_allocated : ℕ
  -- `buffer_set_…`
  pub set : BulkMode → List Buffer

abbrev pub with_set : BulkMode → List Buffer → KeepAllCache → KeepAllCache
with_set mode s c = record c { set = λ m. if same_mode m mode then s else c.set m }

unfoldable pub keep_get :
    (ℕ → ℕ) → Answer → ℕ → BulkMode → KeepAllCache → Option Buffer × KeepAllCache
keep_get grow answer size mode c =
    let c' = record c { num_allocated = wrap (c.num_allocated + 1) } in
    if size == 0 then (none, c) else elim (first_of_size size (c.set mode)) [
      | some b ↦ (some b, with_set mode (erase_buffer b.address (c.set mode)) c)
      | none ↦ elim answer.data_at [
        | none ↦ (none, c')
        | some address ↦ (
          (if answer.created
              then some (record { size = grow size; mode = mode; address = address })
              else none),
          c',
        )
      ]
    ]

unfoldable pub keep_release : Buffer → KeepAllCache → KeepAllCache
keep_release b c =
    with_set b.mode (emplace_buffer b (c.set b.mode))
      (record c { num_allocated = wrap (c.num_allocated + word - 1) })

-- The LRU cache without its queues and its capacity.
abbrev pub forget : BulkCache → KeepAllCache
forget c = record { num_allocated = c.num_allocated; set = λ m. (c.shelf m).set }

forget-with_shelf :
    (mode : BulkMode) (s : Shelf) (c : BulkCache)
    → forget (with_shelf mode s c) ≡ with_set mode s.set (forget c)
forget-with_shelf mode s c i = record {
  num_allocated = c.num_allocated;
  set =
      fun_ext {f = λ m. ((with_shelf mode s c).shelf m).set}
        {g = λ m. if same_mode m mode then s.set else (c.shelf m).set}
        (λ m. choose m (same_mode m mode)) i;
}
  where
    choose :
        (m : BulkMode) (b : Bool)
        → (if b then s else c.shelf m).set ≡ (if b then s.set else (c.shelf m).set)
    choose m true = refl
    choose m false = refl

-- The two caches give out the same buffers: a request does the same to both, and so does a release
-- for which the LRU cache has room.
pub keep_all-eq-lru :
    (grow : ℕ → ℕ) (answer : Answer) (size : ℕ) (mode : BulkMode) (b : Buffer) (c : BulkCache)
    → length ((c.shelf b.mode).queue) + 1 ≤ c.capacity
    → (keep_get grow answer size mode (forget c)
        ≡ (let (given, c') = cache_get grow answer size mode c in (given, forget c')))
      × (keep_release b (forget c) ≡ forget (cache_release b c))
unfolding keep_get keep_release cache_get cache_release
keep_all-eq-lru grow answer size mode b c room = (got, released)
  where
    got :
        keep_get grow answer size mode (forget c)
        ≡ (let (given, c') = cache_get grow answer size mode c in (given, forget c'))
    got = elim (Bool-cases (size == 0)) [
      | inl z ↦ rw (keep_get, cache_get, z)
      | inr z ↦ elim (Option-cases (first_of_size size ((c.shelf mode).set))) [
        | inl e ↦ elim (Option-cases answer.data_at) [
          | inl n ↦ rw (keep_get, cache_get, z, e, n)
          | inr n ↦ rw (keep_get, cache_get, z, e, n.1)
        ]
        | inr p ↦
            rw (keep_get, cache_get, z, p.1)
              (ap (λ k. (some p.0, k)) (sym (forget-with_shelf mode _ c)))
      ]
    ]

    released : keep_release b (forget c) ≡ forget (cache_release b c)
    released =
        let full : ltb c.capacity (suc (length ((c.shelf b.mode).queue))) ≡ false = ground arith in
        rw (keep_release, cache_release, full)
          (sym (
            forget-with_shelf b.mode
              (record {
                queue = b ∷ (c.shelf b.mode).queue;
                set = emplace_buffer b ((c.shelf b.mode).set);
              })
              (record c { num_allocated = wrap (c.num_allocated + word - 1) })))
