-- ===== src/OrderedMap.antt =====
-- `std::map` with a comparator, as the backend of src/backends/map.cpp uses it: an association list
-- in the comparator's order. Two keys are one key if neither is before the other.
mod Defs
mod Lookup
mod Sorted
pub use Defs.{IsStrictWeak}
unfoldable pub use Defs.{Comparator, Map, same, find, lower_bound, upper_bound}
unfoldable pub use Defs.{emplace, assign, erase}
pub use Lookup.*
pub use Sorted.*
