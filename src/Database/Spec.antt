-- ===== src/Database/Spec.antt =====
-- What a database promises: how each operation answers, and what it makes of the value of a key, in
-- terms of a view of its state that gives each key its value.
use mochi_yokan.Prelude.{
  ℕ, zero, suc, ◌+◌, ◌-◌, Bool, true, false, not, ◌&&◌, ◌||◌, Option, none, some, List, [], ◌∷◌,
  ◌++◌, ltb, length, take, if◌then◌else◌,
}
use mochi_yokan.Common.{
  Bytes, Status, ok, key_exists, not_found, key_not_found, size_too_small, mode_append,
  mode_new_only, mode_exist_only, has,
}
use mochi_yokan.BitField.{BitField, test}
use mochi_yokan.Memory.{written}
use mochi_yokan.Database.{Reply}

abbrev pub is_absent : Option Bytes → Bool
is_absent none = true
is_absent (some v) = false

-- NEW_ONLY stores under absent keys, EXIST_ONLY under present ones, any other mode always.
unfoldable pub is_written : ℕ → Option Bytes → Bool
is_written mode old =
    if has mode mode_new_only
    then is_absent old
    else if has mode mode_exist_only
    then not (is_absent old)
    else true

abbrev pub extend : Option Bytes → Bytes → Bytes
extend none v = v
extend (some u) v = u ++ v

-- APPEND, unless NEW_ONLY is given too, puts the old value in front.
unfoldable pub new_value : ℕ → Option Bytes → Bytes → Bytes
new_value mode old v =
    if has mode mode_new_only then v else if has mode mode_append then extend old v else v

-- The status for a pair that is alone in its call.
unfoldable pub refusal : ℕ → Option Bytes → Status
unfolding is_written
refusal mode old =
    if is_written mode old then ok else if has mode mode_new_only then key_exists else not_found

-- The value of a key after the pairs of a call, from the value before it.
unfoldable pub updated :
    (Bytes → Bytes → Bool) → ℕ → List (Bytes × Bytes) → Bytes → Option Bytes → Option Bytes
updated same_key mode [] j old = old
updated same_key mode ((k, v) ∷ ps) j old =
    updated same_key mode ps j
      (if same_key k j && is_written mode old then some (new_value mode old v) else old)

-- The status of a call: only a call with one pair reports that it stored nothing.
unfoldable pub put_status : ℕ → List ℕ → Bytes → (Bytes → Option Bytes) → Status
unfolding refusal
put_status mode [] keys view = ok
put_status mode (k ∷ []) keys view = refusal mode (view (take k keys))
put_status mode (k ∷ l ∷ ks) keys view = ok

abbrev pub pairs : List Bytes → List Bytes → List (Bytes × Bytes)
pairs [] vs = []
pairs (k ∷ ks) [] = []
pairs (k ∷ ks) (v ∷ vs) = (k, v) ∷ pairs ks vs

abbrev pub is_some : Option Bytes → Bool
is_some none = false
is_some (some v) = true

-- The bits from `i` on.
unfoldable pub flags_from : BitField → ℕ → ℕ → List Bool
flags_from f i zero = []
flags_from f i (suc n) = test f i ∷ flags_from f (suc i) n

-- The size reported for a key: that of its value, or YOKAN_KEY_NOT_FOUND.
abbrev pub size_of : Option Bytes → ℕ
size_of none = key_not_found
size_of (some v) = length v

-- The sizes for the values found, with `room` bytes left: once a value does not fit, no later one is
-- returned, whatever its size.
unfoldable pub packed_sizes : ℕ → Bool → List (Option Bytes) → List ℕ
packed_sizes room full [] = []
packed_sizes room full (none ∷ os) = key_not_found ∷ packed_sizes room full os
packed_sizes room true (some x ∷ os) = size_too_small ∷ packed_sizes room true os
packed_sizes room false (some x ∷ os) =
    if ltb room (length x)
    then size_too_small ∷ packed_sizes room true os
    else length x ∷ packed_sizes (room - length x) false os

-- The bytes of the values that fit.
unfoldable pub packed_bytes : ℕ → List (Option Bytes) → Bytes
packed_bytes room [] = []
packed_bytes room (none ∷ os) = packed_bytes room os
packed_bytes room (some x ∷ os) =
    if ltb room (length x) then [] else x ++ packed_bytes (room - length x) os

-- The reply of a packed `get` that stores from an offset on.
abbrev pub packed_reply : Bytes → ℕ → ℕ → List (Option Bytes) → Reply
packed_reply vals vo room os = record {
  vals = written vo (packed_bytes room os) vals;
  vals_size = vo + length (packed_bytes room os);
  vsizes = packed_sizes room false os;
}

-- Whether a key is the same as one of those given.
abbrev pub among : (Bytes → Bytes → Bool) → List Bytes → Bytes → Bool
among same_key [] j = false
among same_key (k ∷ ks) j = same_key k j || among same_key ks j
