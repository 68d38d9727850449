-- ===== src/Daemon/Error.antt =====
-- The daemon's errors, and the codes that clients see of them (device/rsdbd/src/main.rs).
-- An `anyhow::Error` is the chain of its causes, the outermost first.
use rsdb.Base.{ℕ, Bool, false, ◌||◌, none, some, List, [], ◌∷◌, any, ◌==◌, if◌then◌else◌}
use rsdb.Base.Texts.{Text}
use rsdb.Proto.Wire.{
  IoErrorKind, IoError, ProtocolError, io, not_found, permission_denied, already_exists,
  unexpected_eof, broken_pipe, connection_reset, connection_refused, storage_full, other,
}
use rsdb.Proto.Messages.{
  ErrorCode, invalid_request, fs_precondition_failed, fs_not_found, fs_permission_denied,
  fs_no_space, internal, file_transfer_failed,
}
use rsdb.Proto.Messages

pub data Cause : Type 0 where
  message : Text → Cause
  io_cause : IoError → Cause
  protocol : ProtocolError → Cause
  fs_precondition : Text → Cause
  fs_invalid_request : Text → Cause
  -- Not Rust's: a loop of the model was given too little fuel.
  out_of_fuel : Cause

abbrev pub Error : Type 0
Error = List Cause

-- `bail!`, `anyhow!`
abbrev pub bail : Text → Error
bail text = message text ∷ []

-- `with_context`
abbrev pub with_context : Text → Error → Error
with_context text error = message text ∷ error

abbrev pub from_io : IoError → Error
from_io error = io_cause error ∷ []

-- The I/O error is the source of `ProtocolError::Io`.
abbrev pub from_protocol : ProtocolError → Error
from_protocol (io error) = protocol (io error) ∷ io_cause error ∷ []
from_protocol error = protocol error ∷ []

abbrev pub fs_precondition_failed_error : Text → Error
fs_precondition_failed_error text = fs_precondition text ∷ []

abbrev pub invalid_request_error : Text → Error
invalid_request_error text = fs_invalid_request text ∷ []

abbrev io_kind_code : IoErrorKind → ℕ
io_kind_code not_found = 0
io_kind_code permission_denied = 1
io_kind_code already_exists = 2
io_kind_code unexpected_eof = 3
io_kind_code broken_pipe = 4
io_kind_code connection_reset = 5
io_kind_code storage_full = 6
io_kind_code other = 7
io_kind_code connection_refused = 8

-- `==` of `ErrorKind`
abbrev pub io_kind_eq : IoErrorKind → IoErrorKind → Bool
io_kind_eq a b = io_kind_code a == io_kind_code b

abbrev is_io_kind : IoErrorKind → Cause → Bool
is_io_kind expected (io_cause error) = io_kind_eq error.kind expected
is_io_kind expected _ = false

unfoldable pub has_io_error_kind : Error → IoErrorKind → Bool
has_io_error_kind error expected = any (is_io_kind expected) error

-- `StorageFull`, or `ENOSPC`.
abbrev is_full : IoError → Bool
is_full error =
    io_kind_eq error.kind storage_full
    || elim error.raw_os_error [ none ↦ false | some code ↦ code == 28 ]

abbrev is_storage_full : Cause → Bool
is_storage_full (io_cause error) = is_full error
is_storage_full _ = false

unfoldable pub has_storage_full_error : Error → Bool
has_storage_full_error error = any is_storage_full error

abbrev is_precondition : Cause → Bool
is_precondition (fs_precondition text) = Bool.true
is_precondition _ = false

unfoldable pub is_precondition_error : Error → Bool
is_precondition_error error = any is_precondition error

abbrev is_invalid_request : Cause → Bool
is_invalid_request (fs_invalid_request text) = Bool.true
is_invalid_request _ = false

unfoldable pub is_invalid_request_error : Error → Bool
is_invalid_request_error error = any is_invalid_request error

unfoldable pub classify_pull_error : Error → ErrorCode
unfolding has_io_error_kind
classify_pull_error error =
    if has_io_error_kind error not_found then Messages.not_found else file_transfer_failed

unfoldable pub classify_fs_error : Error → ErrorCode
unfolding is_invalid_request_error is_precondition_error has_io_error_kind has_storage_full_error
classify_fs_error error =
    if is_invalid_request_error error
    then invalid_request
    else if is_precondition_error error
    then fs_precondition_failed
    else if has_io_error_kind error not_found
    then fs_not_found
    else if has_io_error_kind error permission_denied
    then fs_permission_denied
    else if has_storage_full_error error
    then fs_no_space
    else internal
