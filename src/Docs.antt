-- ===== src/Docs.antt =====
-- `DocumentStoreMixin` of include/yokan/doc-mixin.hpp: collections of documents over a key/value
-- database.
pub mod Ids
pub mod Keys
pub mod Store
pub mod Documents
