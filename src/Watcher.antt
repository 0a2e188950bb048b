-- ===== src/Watcher.antt =====
-- `KeyWatcher` of include/yokan/watcher.hpp: the threads that wait for a key.
pub mod Defs
pub mod Waking
pub mod Spinning
