-- ===== src/Memory.antt =====
-- The views of memory that a backend is given: `UserMem` of include/yokan/usermem.hpp, and the copy
-- of a value, src/common/modes.hpp.
mod Defs
mod Layout
mod Written
mod Words
unfoldable pub use Defs.{slice, write, val_copy, total}
pub use Layout.*
pub use Written.*
pub use Words.*
unfoldable pub use Words.{le_bytes, le_value, bytes_of, words_of}
