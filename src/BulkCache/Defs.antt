-- ===== src/BulkCache/Defs.antt =====
-- `lru_bulk_cache_get` and `lru_bulk_cache_release`, each under its mutex. What the allocator and
-- Margo answer is an argument. A mode other than the three of Mercury has no set of buffers in the
-- source, and is left out.
use mochi_yokan.Prelude.{
  ℕ, ◌+◌, ◌-◌, Bool, true, false, Option, none, some, List, [], ◌∷◌, ltb, ◌==◌, length, word, wrap,
  if◌then◌else◌,
}

-- HG_BULK_READ_ONLY, HG_BULK_WRITE_ONLY, HG_BULK_READWRITE
pub data BulkMode : Type 0 where
  read_only write_only read_write : BulkMode

-- `yk_buffer_t`; `address` is its `data`.
pub record Buffer : Type 0 where
  pub size : ℕ
  pub mode : BulkMode
  pub address : ℕ

-- `bulk_less`
unfoldable pub bulk_less : Buffer → Buffer → Bool
bulk_less a b = if a.size == b.size then ltb a.address b.address else ltb a.size b.size

-- The buffers of a mode: `buffer_queue_…`, the newest in front, and the keys of `buffer_set_…` in
-- its order. The iterator that the map has for a key is the place of the same buffer in the queue.
pub record Shelf : Type 0 where
  pub queue : List Buffer
  pub set : List Buffer

pub record BulkCache : Type 0 where
  pub num_allocated : ℕ
  pub shelf : BulkMode → Shelf
  pub capacity : ℕ

-- `map.emplace`, which keeps an equivalent key.
unfoldable pub emplace_buffer : Buffer → List Buffer → List Buffer
emplace_buffer b [] = b ∷ []
emplace_buffer b (c ∷ cs) =
    if bulk_less c b then c ∷ emplace_buffer b cs else if bulk_less b c then b ∷ c ∷ cs else c ∷ cs

-- The erasure of the buffer at an address.
unfoldable pub erase_buffer : ℕ → List Buffer → List Buffer
erase_buffer address [] = []
erase_buffer address (c ∷ cs) =
    let rest = c ∷ erase_buffer address cs in if c.address == address then cs else rest

-- `map->lower_bound(&lbound)`, where `lbound` has the size and a null pointer.
unfoldable pub first_of_size : ℕ → List Buffer → Option Buffer
first_of_size size [] = none
first_of_size size (c ∷ cs) = if ltb c.size size then first_of_size size cs else some c

abbrev pub same_mode : BulkMode → BulkMode → Bool
same_mode read_only read_only = true
same_mode write_only write_only = true
same_mode read_write read_write = true
same_mode _ _ = false

abbrev pub with_shelf : BulkMode → Shelf → BulkCache → BulkCache
with_shelf mode s c = record c { shelf = λ m. if same_mode m mode then s else c.shelf m }

-- What the environment answers to an allocation: the address of `new (std::nothrow) char[buf_size]`
-- and whether `margo_bulk_create` succeeds.
pub record Answer : Type 0 where
  pub data_at : Option ℕ
  pub created : Bool

-- `grow` is the product with `1.0 + margin`. A null pointer is none.
unfoldable pub cache_get : (ℕ → ℕ) → Answer → ℕ → BulkMode → BulkCache → Option Buffer × BulkCache
unfolding first_of_size erase_buffer
cache_get grow answer size mode c =
    let s = c.shelf mode in
    let c' = record c { num_allocated = wrap (c.num_allocated + 1) } in
    if size == 0 then (none, c) else elim (first_of_size size s.set) [
      | some b ↦ (
        some b,
        with_shelf mode
            (record { queue = erase_buffer b.address s.queue; set = erase_buffer b.address s.set })
            c,
      )
      | none ↦ elim answer.data_at [
        | none ↦ (none, c')
        | some address ↦ (
          (if answer.created
              then some (record { size = grow size; mode = mode; address = address })
              else none),
          c',
        )
      ]
    ]

-- `list.back()`
unfoldable pub oldest : Buffer → List Buffer → Buffer
oldest b [] = b
oldest b (c ∷ cs) = oldest c cs

-- `list.pop_back()` of a list with this first buffer.
unfoldable pub without_oldest : Buffer → List Buffer → List Buffer
without_oldest b [] = []
without_oldest b (c ∷ cs) = b ∷ without_oldest c cs

unfoldable pub cache_release : Buffer → BulkCache → BulkCache
unfolding emplace_buffer oldest without_oldest erase_buffer
cache_release b c =
    let s = c.shelf b.mode in
    let set = emplace_buffer b s.set in
    let queue = b ∷ s.queue in
    let kept : Shelf =
      (if ltb c.capacity (length queue)
        then record {
          queue = without_oldest b s.queue;
          set = erase_buffer ((oldest b s.queue).address) set;
        }
        else record { queue = queue; set = set }) in
    with_shelf b.mode kept (record c { num_allocated = wrap (c.num_allocated + word - 1) })
