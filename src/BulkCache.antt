-- ===== src/BulkCache.antt =====
-- The caches of transfer buffers of src/buffer/lru_bulk_cache.cpp and keep_all_bulk_cache.cpp.
pub mod Defs
pub mod Reuse
pub mod KeepAll
