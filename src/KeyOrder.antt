-- ===== src/KeyOrder.antt =====
-- `MapDatabaseCompare::DefaultMemCmp` of src/backends/map.cpp, the order of the keys of a map when
-- no other comparator is configured.
mod Defs
mod Total
unfoldable pub use Defs.{memcmp, default_mem_cmp}
unfoldable pub use Total.{lex}
pub use Total.*
