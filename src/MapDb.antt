-- ===== src/MapDb.antt =====
-- `MapDatabase` of src/backends/map.cpp: the key/value backend over `std::map`.
pub mod State
pub mod Put
pub mod Read
pub mod Erase
pub mod Get
pub mod Listing
pub mod AsDatabase
