-- ===== src/Tests/WatcherTests.antt =====
-- Waiters for the keys "a" and "b".
use mochi_yokan.Prelude.{ℕ, ◌≡◌, ◌↔◌, refl, true, false, none, some, [], ◌∷◌}
use mochi_yokan.Common.{Bytes}
use mochi_yokan.KeyOrder.{lex}
use mochi_yokan.Docs.Store.{same_bytes}
use mochi_yokan.MapDb.State.{key_present, timeout}
use mochi_yokan.Watcher.Defs.{
  Expected, Entry, add_key, range_first, notify_key, time_out_all, returned, sleeping, spinning,
  wait_key,
}
use mochi_yokan.Watcher.Waking.{is_expected, wait_key-notify_key}
use mochi_yokan.Watcher.Spinning.{at_other, wait_key-spins_iff, wait_key-steals}

abbrev a : Bytes
a = 97 ∷ []

abbrev b : Bytes
b = 98 ∷ []

abbrev waits_for_b : Entry
waits_for_b = record { address = 4096; key = b; status = none }

abbrev told_of_b : Entry
told_of_b = record { address = 4096; key = b; status = some key_present }

abbrev one : Expected
one = waits_for_b ∷ []

no_other : is_expected a one ≡ false
unfolding is_expected same_bytes
no_other = refl

wait_key-notify_key_example :
    (wait_key 1 8192 a (add_key 8192 a one) ≡ sleeping)
    × (wait_key 1 8192 a (notify_key a (add_key 8192 a one)) ≡ returned key_present one)
    × (wait_key 1 8192 a (time_out_all (add_key 8192 a one))
        ≡ returned timeout (record waits_for_b { status = some timeout } ∷ []))
wait_key-notify_key_example = wait_key-notify_key 0 8192 a one no_other

wait_key-spins_iff_example :
    ((rounds : ℕ) → wait_key rounds 8192 b one ≡ spinning)
    ↔ (at_other 8192 b (range_first b one) ≡ true)
wait_key-spins_iff_example = wait_key-spins_iff 8192 b one

abbrev waits_for_a : Entry
waits_for_a = record { address = 512; key = a; status = none }

-- A wait for "ab", between the waiters for "a" and for "b".
wait_key-steals_example :
    wait_key 1 8192 (97 ∷ 98 ∷ []) (waits_for_a ∷ told_of_b ∷ [])
    ≡ returned key_present (waits_for_a ∷ [])
unfolding lex same_bytes
wait_key-steals_example =
    wait_key-steals 0 8192 (97 ∷ 98 ∷ []) (waits_for_a ∷ []) [] told_of_b key_present (refl, tt)
      refl refl refl
