-- ===== src/Tests/MapDbTests.antt =====
-- A map of two entries in the default order.
use mochi_yokan.Database.Spec.{updated, put_status, pairs, size_of, packed_reply, among}
use mochi_yokan.Prelude.{
  ℕ, ◌≡◌, refl, inl, inr, true, false, none, some, List, [], ◌∷◌, map, arith, done, fault,
  if◌then◌else◌,
}
use mochi_yokan.Common.{Bytes, ok, invalid_arg, size_too_small, mode_wait, mode_consume, has}
use mochi_yokan.OrderedMap.{IsStrictWeak, IsSorted, same, find}
use mochi_yokan.KeyOrder.{default_mem_cmp as cmp, default_mem_cmp-IsTotal, memcmp}
use mochi_yokan.Memory.{cut, Fits}
use mochi_yokan.BitField.{BitField, IsValid}
use mochi_yokan.MapDb.State.{World, relock}
use mochi_yokan.MapDb.Put.{put}
use mochi_yokan.MapDb.Put.Contract.{put_contract, put_refuses, put_overflow}
use mochi_yokan.MapDb.Read.{exists, value_lengths}
use mochi_yokan.MapDb.Read.Contract.{Flagged, exists_contract, length_contract}
use mochi_yokan.MapDb.Erase.{erase}
use mochi_yokan.MapDb.Erase.Contract.{erase_contract, erase_partial}
use mochi_yokan.Database.{Reply}
use mochi_yokan.MapDb.Get.{get}
use mochi_yokan.MapDb.Get.Packed.{get_packed_contract}
use mochi_yokan.MapDb.Get.Consume.{get_consume_contract, get_consume_drops}

order : IsStrictWeak cmp
order = default_mem_cmp-IsTotal.0

abbrev two : World
two = record {
  entries = (1 ∷ [], 10 ∷ 11 ∷ []) ∷ (2 ∷ [], 20 ∷ []) ∷ [];
  notified = [];
  wakes = [];
  gaps = [];
}

two-IsSorted : IsSorted cmp two.entries
unfolding cmp memcmp
two-IsSorted = (refl, (tt, tt))

abbrev keys : Bytes
keys = 1 ∷ 3 ∷ []

abbrev ones : List ℕ
ones = 1 ∷ 1 ∷ []

abbrev vals : Bytes
vals = 30 ∷ 31 ∷ []

keys-Fits : Fits ones keys
keys-Fits = record { within = omega arith; below_word = omega arith }

vals-Fits : Fits ones vals
vals-Fits = record { within = omega arith; below_word = omega arith }

put_contract_example :
    (w' : World) × (put cmp 16 keys ones vals ones two
      ≡ done (put_status 16 ones keys (λ k. find cmp k two.entries), w'))
    × ((j : Bytes)
        → find cmp j w'.entries
          ≡ updated
              (same cmp)
              16
              (pairs (cut ones keys) (cut ones vals))
              j
              (find cmp j two.entries))
    × IsSorted cmp w'.entries
put_contract_example =
    put_contract order 16 keys ones vals ones two refl keys-Fits vals-Fits two-IsSorted

put_refuses_example : put cmp 0 keys (1 ∷ 2 ∷ []) vals ones two ≡ done (invalid_arg, two)
put_refuses_example =
    put_refuses cmp 0 keys (1 ∷ 2 ∷ []) vals ones two (omega arith) (omega arith)
      (inr (inl (omega arith)))

put_overflow_example : put cmp 0 keys (5 ∷ 18446744073709551613 ∷ []) vals (1 ∷ 1 ∷ []) two ≡ fault
unfolding has
put_overflow_example =
    put_overflow cmp 0 keys 5 18446744073709551613 vals 1 1 two refl refl refl (omega arith)
      (omega arith) (omega arith) vals-Fits

no_wait : has 0 mode_wait ≡ false
unfolding has
no_wait = refl

consume_no_wait : has 4 mode_wait ≡ false
unfolding has
consume_no_wait = refl

consumes : has 4 mode_consume ≡ true
unfolding has
consumes = refl

keeps : has 0 mode_consume ≡ false
unfolding has
keeps = refl

length_contract_example :
    value_lengths cmp 0 keys ones (7 ∷ 7 ∷ []) two
    ≡ done (ok, map (λ k. size_of (find cmp k two.entries)) (cut ones keys), two)
length_contract_example = length_contract cmp 0 keys ones (7 ∷ 7 ∷ []) two no_wait refl keys-Fits

abbrev flags : BitField
flags = record { bytes = 0 ∷ []; size = 2 }

flags-IsValid : IsValid flags
flags-IsValid = record { bytes = omega arith; room = omega arith }

exists_contract_example :
    (f' : BitField) × (exists cmp 0 keys ones flags two ≡ done (ok, f', two))
    × Flagged cmp 0 (cut ones keys) two flags f'
exists_contract_example =
    exists_contract cmp 0 keys ones flags two no_wait flags-IsValid (omega arith) keys-Fits

erase_contract_example :
    (w' : World) × (erase cmp 0 keys ones two ≡ done (ok, w'))
    × ((j : Bytes)
        → find cmp j w'.entries
          ≡ (if among (same cmp) (cut ones keys) j then none else find cmp j two.entries))
    × IsSorted cmp w'.entries
erase_contract_example = erase_contract order 0 keys ones two no_wait keys-Fits two-IsSorted

erase_partial_example :
    (w' : World) × (erase cmp 0 keys (1 ∷ 1 ∷ 3 ∷ []) two ≡ done (invalid_arg, w'))
    × ((j : Bytes)
        → find cmp j w'.entries
          ≡ (if among (same cmp) (cut ones keys) j then none else find cmp j two.entries))
erase_partial_example =
    erase_partial order 0 keys ones 3 two no_wait (omega arith) (omega arith) keys-Fits two-IsSorted

get_packed_contract_example :
    get cmp 0 true keys ones vals ones two
    ≡ done (ok, packed_reply vals 0 2 (map (λ k. find cmp k two.entries) (cut ones keys)), two)
get_packed_contract_example =
    get_packed_contract cmp 0 no_wait keys ones vals ones two keeps refl keys-Fits (omega arith)

relocked-IsSorted : IsSorted cmp (relock two).entries
unfolding relock
relocked-IsSorted = two-IsSorted

get_consume_contract_example :
    (w' : World) × (get cmp 4 true keys ones vals ones two
      ≡ done (ok, packed_reply vals 0 2 (map (λ k. find cmp k two.entries) (cut ones keys)), w'))
    × ((j : Bytes)
        → find cmp j w'.entries
          ≡ (if among (same cmp) (cut ones keys) j then none else find cmp j (relock two).entries))
get_consume_contract_example =
    get_consume_contract order 4 keys ones vals ones two consume_no_wait consumes refl keys-Fits
      (omega arith) relocked-IsSorted

finds_one : find cmp (1 ∷ []) two.entries ≡ some (10 ∷ 11 ∷ [])
unfolding find cmp memcmp
finds_one = refl

get_consume_drops_example :
    (r : Reply) × (w' : World) × (get cmp 4 true (1 ∷ []) (1 ∷ []) (0 ∷ []) (9 ∷ []) two
      ≡ done (ok, r, w'))
    × (r.vsizes ≡ size_too_small ∷ [])
    × (find cmp (1 ∷ []) w'.entries ≡ none)
get_consume_drops_example =
    get_consume_drops order 4 (1 ∷ []) (0 ∷ []) (10 ∷ 11 ∷ []) 9 two consume_no_wait consumes
      (omega arith) (omega arith) (omega arith) finds_one relocked-IsSorted
