-- ===== src/MapDb/State.antt =====
-- The state of a `MapDatabase`, and the loop by which its operations wait for a key.
-- A wait releases the lock: what the other threads have made of the map when the lock is taken again
-- comes from a schedule in the state, one entry for each wait.
use Prim.Native.Nat.{bit_and}
use mochi_yokan.Prelude.{
  ℕ, Bool, true, false, none, some, List, [], ◌∷◌, ◌++◌, ◌+◌, ◌==◌, length, if◌then◌else◌,
}
use mochi_yokan.Common.{Bytes, Status, ok, mode_notify, has}
use mochi_yokan.OrderedMap.{Comparator, Map, find}

-- `KeyWatcher::Status`, as `waitKey` returns it.
pub data WaitStatus : Type 0 where
  key_present timeout logic_error : WaitStatus

pub record Wake : Type 0 where
  pub status : WaitStatus
  -- the map when the lock is held again
  pub entries : Map

pub record World : Type 0 where
  -- `*m_db`
  pub entries : Map
  -- the keys that `m_watcher.notifyKey` was called on, in order
  pub notified : List Bytes
  -- the waits of the future
  pub wakes : List Wake
  -- the map at each later place where an operation releases the lock and takes it again
  pub gaps : List Map

-- What the search for a key comes to: `it->second`, `end()`, TimedOut, or a wait for ever.
pub data Awaited : Type 0 where
  hit : Bytes → World → Awaited
  miss : World → Awaited
  timed_out : World → Awaited
  stuck : Awaited

abbrev pub is_present : WaitStatus → Bool
is_present key_present = true
is_present timeout = false
is_present logic_error = false

abbrev pub is_ok : Status → Bool
is_ok ok = true
is_ok _ = false

-- Under the lock again after `lock.unlock()`.
unfoldable pub relock : World → World
relock w = elim w.gaps [ [] ↦ w | m ∷ ms ↦ record w { entries = m; gaps = ms } ]

unfoldable pub notify : ℕ → Bytes → World → World
notify mode key w =
    if has mode mode_notify then record w { notified = w.notified ++ key ∷ [] } else w

module _ (lt : Comparator) where
  -- From the label `retry:` on.
  unfoldable pub await_from : Bool → Bytes → World → List Wake → Awaited
  await_from wait key w [] = elim (find lt key w.entries) [
    | some v ↦ hit v (record w { wakes = [] })
    | none ↦ if wait then stuck else miss (record w { wakes = [] })
  ]
  await_from wait key w (a ∷ ws) =
      let retry = await_from wait key (record w { entries = a.entries }) ws in
      let failed = timed_out (record w { entries = a.entries; wakes = ws }) in
      elim (find lt key w.entries) [
        | some v ↦ hit v (record w { wakes = a ∷ ws })
        | none ↦
            if wait
            then (if is_present a.status then retry else failed)
            else miss (record w { wakes = a ∷ ws })
      ]

  unfoldable pub await : Bool → Bytes → World → Awaited
  unfolding await_from
  await wait key w = await_from wait key w w.wakes

-- `count` and `destroy`
unfoldable pub count : World → Status × ℕ
count w = (ok, length w.entries)

unfoldable pub destroy : World → World
destroy w = record w { entries = [] }

-- `supportsMode`; a build without YOKAN_HAS_LUA leaves LUA_FILTER out. NOTIFY is the bit of WAIT.
unfoldable pub supports_mode : Bool → ℕ → Bool
supports_mode has_lua mode =
    let lua = if has_lua then 1024 else 0 in
    let mask = 1 + 2 + 4 + 8 + 16 + 32 + 64 + 128 + 256 + 512 + lua + 2048 + 4096 + 8192 + 16384 in
    mode == bit_and mode mask
