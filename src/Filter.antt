-- ===== src/Filter.antt =====
-- The filters of a listing: src/server/util/filters.cpp and src/backends/util/key-copy.hpp.
mod Defs
mod Prefix
mod Factory
pub use Defs.{Filter}
unfoldable pub use Defs.{prefix_filter, suffix_filter, key_copy, copy_bounded, is_prefix}
pub use Prefix.*
unfoldable pub use Prefix.{beyond}
pub use Factory.{Makers, DocFilter, DocMakers}
unfoldable pub use Factory.{at_colon, make_filter, make_doc_filter}
