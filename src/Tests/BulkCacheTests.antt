-- ===== src/Tests/BulkCacheTests.antt =====
-- A cache of capacity 2 without buffers.
use mochi_yokan.Prelude.{
  ℕ, ◌+◌, ◌-◌, ◌≤◌, ◌≡◌, refl, true, false, none, some, [], arith, word, wrap,
}
use mochi_yokan.BulkCache.Defs.{read_only, Buffer, BulkCache, Answer, cache_get, cache_release}
use mochi_yokan.BulkCache.Reuse.{
  IsBounded, cache_get_large, cache_release-IsBounded, cache_get-cache_release,
}
use mochi_yokan.BulkCache.KeepAll.{keep_get, keep_release, forget, keep_all-eq-lru}

abbrev no_buffers : BulkCache
no_buffers = record {
  num_allocated = 0;
  shelf = λ m. record { queue = []; set = [] };
  capacity = 2;
}

abbrev buffer : Buffer
buffer = record { size = 100; mode = read_only; address = 4096 }

abbrev grow : ℕ → ℕ
grow n = n + 8

abbrev refused : Answer
refused = record { data_at = none; created = false }

cache_get_large_example :
    (b : Buffer) × (c' : BulkCache) × (cache_get grow
        (record { data_at = some 4096; created = true })
        100
        read_only
        no_buffers
      ≡ (some b, c'))
    × (100 ≤ b.size)
cache_get_large_example =
    cache_get_large grow 4096 100 read_only no_buffers (omega arith) (omega arith)

no_buffers-IsBounded : IsBounded no_buffers
no_buffers-IsBounded m = omega arith

cache_release-IsBounded_example : IsBounded (cache_release buffer no_buffers)
cache_release-IsBounded_example = cache_release-IsBounded buffer no_buffers no_buffers-IsBounded

cache_get-cache_release_example :
    (c' : BulkCache) × (cache_get grow refused 60 read_only (cache_release buffer no_buffers)
      ≡ (some buffer, c'))
    × (c'.shelf read_only ≡ record { queue = []; set = [] })
    × (c'.num_allocated ≡ wrap (0 + word - 1))
cache_get-cache_release_example =
    cache_get-cache_release grow refused 60 buffer no_buffers refl (omega arith) (omega arith)
      (omega arith)

keep_all-eq-lru_example :
    (keep_get grow refused 60 read_only (forget no_buffers)
      ≡ (let (given, c') = cache_get grow refused 60 read_only no_buffers in (given, forget c')))
    × (keep_release buffer (forget no_buffers) ≡ forget (cache_release buffer no_buffers))
keep_all-eq-lru_example = keep_all-eq-lru grow refused 60 read_only buffer no_buffers (omega arith)
