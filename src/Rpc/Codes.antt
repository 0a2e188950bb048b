-- ===== src/Rpc/Codes.antt =====
-- `yk_return_t` of include/yokan/common.h, and the casts between it and `Status`.
use mochi_yokan.Prelude.{Bool, true, false}
use mochi_yokan.Common.{Status}

pub data Return : Type 0 where
  success err_allocation err_invalid_mid err_invalid_args err_invalid_provider : Return
  err_invalid_database err_invalid_backend err_invalid_config err_invalid_token : Return
  err_invalid_id err_invalid_filter err_from_mercury err_from_argobots : Return
  err_op_unsupported err_op_forbidden err_key_not_found err_buffer_size : Return
  err_key_exists err_corruption err_io err_incomplete err_timeout err_aborted : Return
  err_busy err_expired err_try_again err_system err_canceled err_permission : Return
  err_mode err_noncontig err_readonly err_other : Return

-- `static_cast<yk_return_t>`, by the values that the enumerators of `Status` are given.
abbrev pub cast : Status → Return
cast Status.ok = success
cast Status.invalid_type = err_invalid_backend
cast Status.invalid_conf = err_invalid_config
cast Status.invalid_arg = err_invalid_args
cast Status.invalid_id = err_invalid_id
cast Status.not_found = err_key_not_found
cast Status.size_error = err_buffer_size
cast Status.key_exists = err_key_exists
cast Status.not_supported = err_op_unsupported
cast Status.corruption = err_corruption
cast Status.io_error = err_io
cast Status.incomplete = err_incomplete
cast Status.timed_out = err_timeout
cast Status.aborted = err_aborted
cast Status.busy = err_busy
cast Status.expired = err_expired
cast Status.try_again = err_try_again
cast Status.system = err_system
cast Status.canceled = err_canceled
cast Status.permission = err_permission
cast Status.invalid_mode = err_mode
cast Status.other = err_other

abbrev pub is_success : Return → Bool
is_success success = true
is_success _ = false
