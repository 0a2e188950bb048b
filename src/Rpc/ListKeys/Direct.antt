-- ===== src/Rpc/ListKeys/Direct.antt =====
-- A packed listing by a client whose mode has NO_RDMA: the answer comes inline.
use native.Mathlib.Nat.{zero-add}
use mochi_yokan.Prelude.{
  ℕ, ◌≤◌, ◌<◌, ◌≡◌, refl, sym, ap, ◌∙◌, true, some, List, length, drop, drop_all, replicate,
  length-replicate, done, append-nil, take-append,
}
use mochi_yokan.Common.{Bytes, ok}
use mochi_yokan.Memory.{written}
use mochi_yokan.Filter.{Filter, Makers, make_filter}
use mochi_yokan.Database.{Database}
use mochi_yokan.Rpc.Codes.{success}
use mochi_yokan.Rpc.Call.{Transfer, Arrival, Network, array, is_mode_valid}
use mochi_yokan.Rpc.Sound.{IsSound, found}
use mochi_yokan.Rpc.Wire.{Values, decode_items_same, decode_items_within, decode_values, received}
use mochi_yokan.Rpc.Layout.{AllWords, array_whole, slice_whole, positive_count}
use mochi_yokan.Rpc.ListKeys.{list_keys_direct_ult, list_keys_direct}

-- A packed listing of a database has these sizes and keys, whatever the memory for them holds.
pub record IsListing {S : Type 0} (d : Database S) (mode : ℕ) (from : Bytes) (f : Filter)
    (count room : ℕ) (s : S) (sizes : List ℕ) (listed : Bytes) : Type 0 where
  pub lists :
      (keys : Bytes) (slots : List ℕ)
      → length keys ≡ room
      → length slots ≡ count
      → d.list_keys mode true from f keys slots s
        ≡ done (ok, sizes, written 0 listed keys, length listed)
  pub size_count : length sizes ≡ count
  pub fits : length listed ≤ room
  pub words : AllWords sizes

module _ (transfer : Transfer) (makers : Makers) {S : Type 0} (d : Database S) (net : Network)
    (a : Arrival) (mode count : ℕ) (from descriptor : Bytes) (f : Filter) (keys : Bytes)
    (ksizes : List ℕ) (s : S) (sizes : List ℕ) (listed : Bytes) (sound : IsSound net a)
    (supported : d.supports_mode mode ≡ true) (made : make_filter makers mode descriptor ≡ some f)
    (answer : IsListing d mode from f count (length keys) s sizes listed)
    (room : length ksizes ≡ count) where
  handled_direct :
      list_keys_direct_ult transfer makers d a mode count from descriptor (length keys) s
      ≡ done (success, ((sizes, listed), s))
  unfolding list_keys_direct_ult
  handled_direct =
      let zeros : Bytes = replicate (length keys) 0 in
      rw
        (
          list_keys_direct_ult,
          found {S = Values × S} net a true (d.supports_mode mode) _ _ sound refl supported,
          made,
          answer.lists zeros (replicate count 0) (length-replicate {A = ℕ} (length keys) 0)
              (length-replicate {A = ℕ} count 0),
          zero-add,
        )
        (ap (λ xs. done (success, ((sizes, xs), s)))
          (take-append (length listed) listed (drop (length listed) zeros) refl))

  decoded :
      decode_values (sizes, listed) (ksizes, some keys) ≡ some (sizes, some (written 0 listed keys))
  unfolding decode_values
  decoded =
      rw
        (
          decode_values,
          decode_items_same sizes ksizes (answer.size_count ∙ sym room),
          decode_items_within listed keys answer.fits,
          zero-add,
        )
        refl

  pub array_room : array count ksizes ≡ done ksizes
  array_room = rw (sym room) (array_whole ksizes)

  pub direct :
      is_mode_valid mode ≡ true
      → 0 < count
      → list_keys_direct transfer makers d net a mode
          (some from)
          (length from)
          (some descriptor)
          (length descriptor)
          count
          (some keys)
          (length keys)
          ksizes
          s
        ≡ done (success, ((sizes, some (written 0 listed keys)), s))
  unfolding list_keys_direct
  direct valid positive =
      rw
        (
          list_keys_direct,
          positive_count positive,
          valid,
          slice_whole from,
          slice_whole descriptor,
          array_room,
          slice_whole keys,
          received net a decode_values
              (list_keys_direct_ult transfer makers d a mode count from descriptor (length keys))
              (ksizes, some keys) (sizes, some (written 0 listed keys)) s s success (sizes, listed)
              sound handled_direct decoded,
          drop_all (length keys) keys refl,
          drop_all count ksizes room,
          append-nil,
          append-nil,
        )
        refl
