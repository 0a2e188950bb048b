-- ===== src/Rpc.antt =====
-- The remote calls: the handlers of src/server and the functions of src/client.
pub mod Codes
pub mod Call
pub mod Sound
pub mod Wire
pub mod Layout
pub mod Exchange
pub mod Put
pub mod Erase
pub mod Length
pub mod Exists
pub mod Get
pub mod ListKeys
pub mod ListKeyvals
pub mod Collections
pub mod Documents
pub mod Roundtrip
