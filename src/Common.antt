-- ===== src/Common.antt =====
-- include/yokan/common.h and the status codes of include/yokan/backend.hpp.
use Prim.Native.Nat.{bit_and}
use mochi_yokan.Prelude.{ℕ, ◌-◌, ◌^◌, Bool, not, List, ◌==◌}

-- Bytes of a key, a value or a buffer.
abbrev pub Bytes : Type 0
Bytes = List ℕ

-- `enum class Status`.
pub data Status : Type 0 where
  ok invalid_type invalid_conf invalid_arg invalid_id not_found size_error : Status
  key_exists not_supported corruption io_error incomplete timed_out aborted : Status
  busy expired try_again system canceled permission invalid_mode other : Status

-- YOKAN_KEY_NOT_FOUND, YOKAN_SIZE_TOO_SMALL, YOKAN_NO_MORE_KEYS, YOKAN_LAST_VALID_SIZE
abbrev pub key_not_found : ℕ
key_not_found = 2 ^ 64 - 1

abbrev pub size_too_small : ℕ
size_too_small = 2 ^ 64 - 2

abbrev pub no_more_keys : ℕ
no_more_keys = 2 ^ 64 - 3

abbrev pub last_valid_size : ℕ
last_valid_size = 2 ^ 64 - 4

-- The flags of a mode.
abbrev pub mode_inclusive : ℕ
mode_inclusive = 1

abbrev pub mode_append : ℕ
mode_append = 2

abbrev pub mode_consume : ℕ
mode_consume = 4

abbrev pub mode_wait : ℕ
mode_wait = 8

abbrev pub mode_notify : ℕ
mode_notify = 8

abbrev pub mode_new_only : ℕ
mode_new_only = 16

abbrev pub mode_exist_only : ℕ
mode_exist_only = 32

abbrev pub mode_no_prefix : ℕ
mode_no_prefix = 64

abbrev pub mode_ignore_keys : ℕ
mode_ignore_keys = 128

abbrev pub mode_keep_last : ℕ
mode_keep_last = 384

abbrev pub mode_suffix : ℕ
mode_suffix = 512

abbrev pub mode_lua_filter : ℕ
mode_lua_filter = 1024

abbrev pub mode_lib_filter : ℕ
mode_lib_filter = 8192

abbrev pub mode_no_rdma : ℕ
mode_no_rdma = 16384

-- The test `mode & flag` of an `if`.
unfoldable pub has : ℕ → ℕ → Bool
has mode flag = not (bit_and mode flag == 0)
