-- ===== src/Lib.antt =====
-- Yokan: the key/value and document store of the Mochi services, as functions on its state.
--
-- A provider (src/server) answers remote calls by operations of a backend, a class that implements
-- `DatabaseInterface` (include/yokan/backend.hpp). The keys and the values of a call lie in buffers
-- of bytes, one behind the other, beside an array of sizes; a bit field answers `exists`, and a
-- filter (include/yokan/filters.hpp) chooses what a listing returns. `DocumentStoreMixin`
-- (include/yokan/doc-mixin.hpp) makes collections of documents out of any such database. The
-- backend modelled here is `MapDatabase` (src/backends/map.cpp), over `std::map`.
--
-- The files and the code that they are about:
--   Prelude        words of 64 bits, lists measured by the native numbers, and `Outcome`, what a
--                  call does: return (`done`), wait for ever (`blocked`), or reach out of a buffer
--                  (`fault`)
--   Common         `Status` of include/yokan/backend.hpp; the sentinel sizes and the flags of a mode
--                  of include/yokan/common.h
--   Memory         `UserMem` of include/yokan/usermem.hpp: slices, copies and the sums of sizes;
--                  `valCopy` of src/common/modes.hpp; words of 64 bits as bytes (Words)
--   BitField       `BitField` of include/yokan/backend.hpp
--   OrderedMap     what the backend uses of `std::map`: find, emplace, erase, lower_bound,
--                  upper_bound, by any comparator that is a strict weak order
--   KeyOrder       `DefaultMemCmp` of src/backends/map.cpp
--   Filter         `KeyValueFilter`, and the prefix and suffix filters of
--                  src/server/util/filters.cpp; `keyCopy` of src/backends/util/key-copy.hpp; the
--                  factory of filters (Factory)
--   Database       `DatabaseInterface` as a record of operations; Database/Spec says what they
--                  promise, Database/Laws is the contract, a record of laws
--   MapDb          `MapDatabase`: its state (State), `put` (Put), `exists` and `length` (Read), `get`
--                  (Get), `erase` (Erase), `listKeys` and `listKeyValues` (Listing), each with its
--                  theorems below it; what a listing returns is said by filters on the entries
--                  (Listing/Items), without the loops of the code; AsDatabase fills the contract
--   Docs           `DocumentStoreMixin`: the identifiers (Ids), the keys of documents and the stored
--                  metadata (Keys), the operations on collections with the cache of metadata
--                  (Store), and those on documents (Documents), over any database that fulfils the
--                  contract; the parts of `docStore`, which releases its lock, run in a row. The
--                  identifiers that they give are spelt out in Documents/Numbers
--   Watcher        `KeyWatcher` of include/yokan/watcher.hpp: the entries of the waiters (Defs), what
--                  wakes one (Waking), and when its search ends (Spinning)
--   BulkCache      the cache of transfer buffers of src/buffer/lru_bulk_cache.cpp: get and release
--                  (Defs), what they give out, keep and count (Reuse), and the cache of
--                  src/buffer/keep_all_bulk_cache.cpp beside it (KeepAll)
--   Rpc            the functions of src/client, `put_packed` for `yk_put_packed`, and the handlers of
--                  src/server, `put_ult` for `yk_put_ult`, over any database: the codes (Codes), what
--                  a call passes through (Call), the answers that carry data (Wire), a call on which
--                  nothing goes wrong (Sound), the layout of exposed memory (Layout) and its exchange
--                  (Exchange); an operation to a module (Put, Get, Length, Exists, Erase, ListKeys,
--                  ListKeyvals; Collections, with a collection from its creation to its drop in
--                  Lifecycle; Documents, with Update, Load and Listing below it), with
--                  what its client observes in Remote below it, and of the map or of a collection in
--                  OverMap and OverStore; a put and a get together (Roundtrip)
--   Tests          the theorems at concrete inputs
--
-- The state of `MapDatabase` is the record `World`: the entries of `m_db` in its order, the keys
-- that the watcher was told of, and a schedule. A wait for a key releases the lock of the database,
-- and a `get` that consumes releases it once more before it erases; what other threads make of the
-- map meanwhile is an input of the model: `wakes` has, for each wait, the result of
-- `KeyWatcher::waitKey` and the map after it, and `gaps` the map at each other such place. A wait
-- without a wake in the schedule lasts for ever. Within its lock an operation runs alone.
--
-- Sizes and offsets are 64-bit words: sums wrap round, by `wrap`, and differences have the word
-- added first. Loops go down the array of sizes, the entries of the map, or the schedule, without fuel;
-- the search of `waitKey` alone is given a number of rounds, as it need not end: one round is enough
-- where it does. A buffer is the list of its bytes, and its `size` the length of the list, so that a
-- theorem that says `done` also says that no access leaves a buffer. A key is read whole where the map
-- is searched for it; a comparator may read less. `put` under EXIST_ONLY in an empty map reads no key,
-- as nothing is compared. A host is little-endian.
--
-- Margo is not part of the repository, and is a parameter of the calls: `Network` and `Arrival` have
-- what it answers to a client and to a handler, and `Transfer` is `margo_bulk_transfer`, of which the
-- theorems assume `IsCopy`, that between ranges inside of both memories it copies the bytes. The
-- memory that a client exposes is part of the state of its call. The buffer of a handler is whatever
-- the bulk cache gives it, with any bytes in it.
--
-- Not modelled: the allocators and the locks as such; the set, unordered and null
-- backends and those over other libraries; the default bulk cache; the
-- custom comparators, Lua and dynamically loaded filters, which are parameters; the administration of
-- a provider, which is JSON and the factories of backends; the bindings. A call names its database by
-- an identifier and its origin by an address: both are among what `Arrival` answers.
pub mod Prelude
pub mod Common
pub mod Memory
pub mod BitField
pub mod OrderedMap
pub mod KeyOrder
pub mod Filter
pub mod Database
pub mod MapDb
pub mod Docs
pub mod Watcher
pub mod BulkCache
pub mod Rpc
pub mod Tests
