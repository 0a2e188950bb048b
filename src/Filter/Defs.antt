-- ===== src/Filter/Defs.antt =====
-- `KeyValueFilter`, `KeyPrefixFilter`, `KeySuffixFilter` and the wrapper `keyCopy`. A copy into a
-- buffer is what it returns: the bytes that it writes, or none for YOKAN_SIZE_TOO_SMALL.
use Prim.Native.Nat.{min, Ordering}
use mochi_yokan.Prelude.{
  ℕ, ◌-◌, Bool, true, false, not, ◌&&◌, Option, none, some, [], ltb, length, take, drop,
  if◌then◌else◌,
}
use mochi_yokan.Common.{Bytes, mode_no_prefix, mode_ignore_keys, mode_keep_last, has}
use mochi_yokan.KeyOrder.{memcmp}

-- The virtual methods, over whole byte strings.
pub record Filter : Type 0 where
  pub check : Bytes → Bytes → Bool
  pub should_stop : Bytes → Bytes → Bool
  -- the room in the destination, and the key or the value
  pub key_copy : ℕ → Bytes → Option Bytes
  pub val_copy : ℕ → Bytes → Option Bytes

-- `if(max_dst_size < size) return YOKAN_SIZE_TOO_SMALL; memcpy; return size;`
unfoldable pub copy_bounded : ℕ → Bytes → Option Bytes
copy_bounded room x = if ltb room (length x) then none else some x

abbrev pub is_eq : Ordering → Bool
is_eq Ordering.eq = true
is_eq _ = false

abbrev pub is_gt : Ordering → Bool
is_gt Ordering.gt = true
is_gt _ = false

-- Under NO_PREFIX both copies subtract the filter's size from the key's. Where that wraps round, the
-- result is more than any buffer has room for, so that nothing is copied.

-- `KeyPrefixFilter::check`
unfoldable pub is_prefix : Bytes → Bytes → Bool
is_prefix prefix key =
    if ltb (length key) (length prefix) then false else is_eq (memcmp (length prefix) key prefix)

unfoldable pub prefix_filter : ℕ → Bytes → Filter
unfolding is_prefix copy_bounded
prefix_filter mode prefix = record {
  check = λ key val. is_prefix prefix key;
  should_stop = λ key val. is_gt (memcmp (min (length key) (length prefix)) key prefix);
  key_copy = λ room key.
      if not (has mode mode_no_prefix)
      then copy_bounded room key
      else if ltb (length key) (length prefix)
      then none
      else copy_bounded room (drop (length prefix) key);
  val_copy = λ room val. copy_bounded room val;
}

-- `KeySuffixFilter` inherits a `shouldStop` that never stops.
unfoldable pub suffix_filter : ℕ → Bytes → Filter
unfolding copy_bounded
suffix_filter mode suffix = record {
  check = λ key val.
      if ltb (length key) (length suffix)
      then false
      else is_eq (memcmp (length suffix) (drop (length key - length suffix) key) suffix);
  should_stop = λ key val. false;
  key_copy = λ room key.
      if not (has mode mode_no_prefix)
      then copy_bounded room key
      else if ltb (length key) (length suffix)
      then none
      else copy_bounded room (take (length key - length suffix) key);
  val_copy = λ room val. copy_bounded room val;
}

-- `keyCopy` of key-copy.hpp, which keeps the keys back under IGNORE_KEYS.
unfoldable pub key_copy : ℕ → Bool → Filter → ℕ → Bytes → Option Bytes
key_copy mode is_last f room key =
    if has mode mode_ignore_keys && not (is_last && has mode mode_keep_last)
    then some []
    else f.key_copy room key
