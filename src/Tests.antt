-- ===== src/Tests.antt =====
-- The theorems of the library at concrete inputs.
mod BitFieldTests
mod MapDbTests
mod ListingTests
mod DocsTests
mod StoreTests
mod WatcherTests
mod BulkCacheTests
mod RpcTests
