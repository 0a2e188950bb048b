-- ===== src/BitField.antt =====
-- `BitField` of include/yokan/backend.hpp: an array of bits in bytes, written through a mask.
mod Defs
mod Masks
mod Laws
pub use Defs.{BitField}
unfoldable pub use Defs.{test, assign}
pub use Laws.*
