-- ===== src/Rpc/Call.antt =====
-- What a remote call passes through: the checks of src/common/checks.h, and what Margo answers to
-- client and server, which is an argument.
use mochi_yokan.Prelude.{
  ℕ, ◌+◌, ◌-◌, ◌*◌, ◌≤◌, ◌≡◌, Bool, true, false, not, ◌&&◌, ◌||◌, Option, none, some, List, [], ◌∷◌,
  ◌++◌, ltb, ◌==◌, length, take, drop, word, wrap, if◌then◌else◌, Outcome, done, ◌>>=◌,
}
use mochi_yokan.Common.{
  Bytes, mode_append, mode_new_only, mode_exist_only, mode_suffix, mode_lua_filter, mode_lib_filter,
  has,
}
use mochi_yokan.Memory.{slice, total, words_of, written}
use mochi_yokan.Rpc.Codes.{
  Return, err_allocation, err_invalid_mid, err_invalid_provider, err_invalid_database,
  err_from_mercury, err_mode, err_invalid_args,
}

-- `CHECK_MODE_VALID`, over a table without its last row, which ends the loop.
unfoldable pub is_mode_valid_from : List (ℕ × ℕ) → ℕ → Bool
is_mode_valid_from [] mode = true
is_mode_valid_from ((a, b) ∷ rows) mode =
    not (has mode a && has mode b) && is_mode_valid_from rows mode

abbrev pub incompatible_modes : List (ℕ × ℕ)
incompatible_modes =
    (mode_append, mode_new_only)
    ∷ (mode_new_only, mode_exist_only)
    ∷ (mode_suffix, mode_lua_filter)
    ∷ (mode_lib_filter, mode_suffix)
    ∷ (mode_lua_filter, mode_lib_filter)
    ∷ []

unfoldable pub is_mode_valid : ℕ → Bool
unfolding is_mode_valid_from
is_mode_valid mode = is_mode_valid_from incompatible_modes mode

-- `margo_bulk_transfer`: the memory and the offset that it copies from, those that it copies to, and
-- the size. The memory that it leaves is the result, none an error.
abbrev pub Transfer : Type 0
Transfer = Bytes → ℕ → Bytes → ℕ → ℕ → Option Bytes

-- Between ranges that lie in their memory a transfer copies, where the network does not fail.
abbrev pub IsCopy : Transfer → Type 0
IsCopy transfer =
    (src : Bytes) (src_offset : ℕ) (dst : Bytes) (dst_offset size : ℕ)
    → src_offset + size ≤ length src
    → dst_offset + size ≤ length dst
    → transfer src src_offset dst dst_offset size
      ≡ some (written dst_offset (take size (drop src_offset src)) dst)

-- What a handler is answered: whether it has its Margo instance, its provider, its input and the
-- address of its origin, whether `find_database` finds the database, and the buffer that the bulk
-- cache gives it, with the bytes that it comes with.
pub record Arrival : Type 0 where
  pub instance_found : Bool
  pub provider_found : Bool
  pub input_decoded : Bool
  pub address_found : Bool
  pub database_found : Bool
  pub buffer : Option Bytes

-- The arguments of a call that exposes memory: `in` of the handlers, without the identifiers.
pub record Request : Type 0 where
  pub mode : ℕ
  pub count : ℕ
  pub offset : ℕ
  pub size : ℕ

-- The checks in front of every handler, in their order: what they return instead of the call.
unfoldable pub check_arrival : Arrival → Bool → Bool → Option Return
check_arrival a address supported =
    if not a.instance_found
    then some err_invalid_mid
    else if not a.provider_found
    then some err_invalid_provider
    else if not a.input_decoded
    then some err_from_mercury
    else if not address
    then some err_from_mercury
    else if not a.database_found
    then some err_invalid_database
    else if not supported
    then some err_mode
    else none

-- The checks, the bulk cache, and the rest of a handler behind them.
module _ {ℓ} {S : Type ℓ} where
  unfoldable pub with_database :
      Arrival → Bool → Bool → Outcome (Return × S) → S → Outcome (Return × S)
  with_database a address supported call s = elim (check_arrival a address supported) [
    | some ret ↦ done (ret, s)
    | none ↦ call
  ]

  unfoldable pub with_buffer :
      Arrival → Bool → (Bytes → Outcome (Return × S)) → S → Outcome (Return × S)
  with_buffer a supported call s =
      with_database a a.address_found supported
        (elim a.buffer [ none ↦ done (err_allocation, s) | some buffer ↦ call buffer ]) s

-- `std::accumulate` of the minimum.
unfoldable pub min_size : List ℕ → ℕ → ℕ
min_size [] acc = acc
min_size (s ∷ ss) acc = min_size ss (if ltb s acc then s else acc)

-- "Is there a key of size 0?"
unfoldable pub has_empty_key : List ℕ → Bool
unfolding min_size
has_empty_key ksizes = min_size ksizes (word - 1) == 0

-- The array of `count` sizes at an offset of a buffer.
unfoldable pub sizes_at : ℕ → ℕ → Bytes → Outcome (List ℕ)
sizes_at count offset buffer = do
  bytes ← slice buffer offset (8 * count)
  done (words_of count bytes)

-- What a client is answered: to `margo_bulk_create`, to `margo_create`, to the call forwarded, to
-- `margo_get_output` and `margo_free_output`; and whether the handler ran, which it may have though
-- the call failed.
pub record Network : Type 0 where
  pub bulk_created : Bool
  pub created : Bool
  pub handled : Bool
  pub forwarded : Bool
  pub output_decoded : Bool
  pub output_freed : Bool

-- `margo_create`, `margo_provider_forward`, `margo_get_output` and `margo_free_output` around a
-- handler.
unfoldable pub forward {ℓ} :
    {S : Type ℓ} → Network → (S → Outcome (Return × S)) → S → Outcome (Return × S)
forward net handler s = if not (net.created && net.handled) then done (err_from_mercury, s) else do
  (ret, s') ← handler s
  let arrived = net.forwarded && (net.output_decoded && net.output_freed)
  done ((if arrived then ret else err_from_mercury), s')

-- `margo_bulk_create` in front of a call that exposes memory.
unfoldable pub expose {ℓ} : {S : Type ℓ} → Network → Outcome (Return × S) → S → Outcome (Return × S)
expose net call s = if net.bulk_created then call else done (err_from_mercury, s)

-- The first `count` items of an array.
unfoldable pub array {ℓ} : {A : Type ℓ} → ℕ → List A → Outcome (List A)
array count xs = if ltb (length xs) count then Outcome.fault else done (take count xs)

-- The pointers that a call must be given, if none is null.
abbrev pub both {ℓ κ} : {A : Type ℓ} {B : Type κ} → Option A → Option B → Option (A × B)
both none b = none
both (some a) none = none
both (some a) (some b) = some (a, b)

abbrev pub all_three {ℓ κ μ} :
    {A : Type ℓ} {B : Type κ} {C : Type μ} → Option A → Option B → Option C → Option (A × B × C)
all_three none b c = none
all_three (some a) none c = none
all_three (some a) (some b) none = none
all_three (some a) (some b) (some c) = some (a, b, c)

abbrev pub is_null {ℓ} : {A : Type ℓ} → Option A → Bool
is_null none = true
is_null (some a) = false

-- The array at a pointer.
abbrev pub sizes_of : Option (List ℕ) → List ℕ
sizes_of none = []
sizes_of (some sizes) = sizes

abbrev pub bytes_at : Option Bytes → Bytes
bytes_at none = []
bytes_at (some bytes) = bytes

-- A transfer, or the error of a handler that it fails.
abbrev pub transferred {ℓ} :
    {S : Type ℓ} → Option Bytes → (Bytes → Outcome (Return × S)) → S → Outcome (Return × S)
transferred none call s = done (err_from_mercury, s)
transferred (some memory) call s = call memory

-- How `get`, `length` and `exists` begin: they pull the sizes of the keys, and the keys if `short`,
-- from the memory and the total of the sizes, says that `in.size` is enough.
unfoldable pub pull_keys {ℓ} :
    {S : Type ℓ}
    → Transfer
    → Request
    → ℕ
    → ℕ
    → (Bytes → ℕ → Outcome Bool)
    → Bytes
    → Bytes
    → (Bytes → List ℕ → ℕ → Outcome (Return × S))
    → S
    → Outcome (Return × S)
pull_keys transfer r sizes_size keys_offset short buffer bulk call s =
    transferred (transfer bulk r.offset buffer 0 sizes_size)
      (λ memory. do
        ksizes ← sizes_at r.count 0 memory
        let total_ksize = total ksizes 0
        if has_empty_key ksizes then done (err_invalid_args, s) else do
          is_short ← short memory total_ksize
          if is_short
              then done (err_invalid_args, s)
              else transferred
                  (transfer bulk (wrap (r.offset + keys_offset)) memory keys_offset total_ksize)
                  (λ memory'. call memory' ksizes total_ksize) s)
      s

-- The segments of given sizes at the pointers of an array, one behind the other. A segment of no
-- bytes may be at a null pointer.
unfoldable pub gather : List (Option Bytes) → List ℕ → Outcome Bytes
gather ps [] = done []
gather [] (s ∷ ss) = Outcome.fault
gather (p ∷ ps) (s ∷ ss) = do
  part ← slice (bytes_at p) 0 s
  parts ← gather ps ss
  done (part ++ parts)

-- The check in the loops that make the segments.
unfoldable pub has_zero : List ℕ → Bool
has_zero [] = false
has_zero (s ∷ ss) = (s == 0) || has_zero ss

-- `keys[0]`
abbrev pub first {ℓ} : {A : Type ℓ} → List A → Outcome A
first [] = Outcome.fault
first (x ∷ xs) = done x
