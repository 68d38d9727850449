-- ===== src/Client/Failures.antt =====
-- What an agent is told of an error: map_operation_error, map_transport_error and map_remote_error
-- (crates/rsdb-cli/src/main.rs). `details`, a `serde_json::Value`, is of any type.
pub mod Retry
use rsdb.Base.{
  ℕ, ℤ, pos, Bool, true, false, ◌||◌, ◌&&◌, Option, none, some, List, [], ◌∷◌, ◌++◌, any, map,
  if◌then◌else◌, ◌==◌,
}
use rsdb.Base.Texts.{Text, codes}
use rsdb.Proto.Wire.{
  IoErrorKind, IoError, ProtocolError, unsupported_version, not_found, permission_denied,
  connection_refused, storage_full,
}
use rsdb.Proto.Messages.{
  ErrorCode, invalid_request, capability_missing, exec_failed, exec_start_failed, exec_timeout,
  file_transfer_failed, fs_not_found, fs_permission_denied, fs_precondition_failed, fs_no_space,
  transfer_interrupted, transfer_verification_failed, internal,
}
use rsdb.Proto.Messages
use rsdb.Daemon.Error.{io_kind_eq}

-- A cause of an `anyhow::Error` of the client; `elapsed` is `tokio::time::error::Elapsed`.
pub data ClientCause : Type 0 where
  context : Text → ClientCause
  io_cause : IoError → ClientCause
  protocol : ProtocolError → ClientCause
  elapsed : ClientCause
  remote : ErrorCode → Text → ClientCause

-- The chain of causes, the outermost first, and what `to_string` gives of it.
pub record ClientError : Type 0 where
  pub chain : List ClientCause
  pub text : Text

pub record AgentCommandFailure (D : Type 0) : Type 0 where
  pub code : Text
  pub message : Text
  pub target : Option Text
  pub retryable : Bool
  pub details : D
  pub exit_code : ℤ

-- `starts_with`
abbrev pub starts_with : Text → Text → Bool
starts_with text [] = true
starts_with [] (p ∷ ps) = false
starts_with (c ∷ cs) (p ∷ ps) = (c == p) && starts_with cs ps

-- `contains` of a string
abbrev pub contains_text : Text → Text → Bool
contains_text [] part = starts_with [] part
contains_text (c ∷ cs) part = starts_with (c ∷ cs) part || contains_text cs part

abbrev has_kind : IoErrorKind → ClientCause → Bool
has_kind expected (io_cause e) = io_kind_eq e.kind expected
has_kind expected cause = false

unfoldable pub error_has_io_kind : ClientError → IoErrorKind → Bool
error_has_io_kind e expected = any (has_kind expected) e.chain

abbrev is_elapsed : ClientCause → Bool
is_elapsed elapsed = true
is_elapsed cause = false

unfoldable pub error_has_elapsed : ClientError → Bool
error_has_elapsed e = any is_elapsed e.chain

abbrev is_mismatch : ClientCause → Bool
is_mismatch (protocol (unsupported_version version)) = true
is_mismatch cause = false

unfoldable pub error_has_protocol_mismatch : ClientError → Bool
error_has_protocol_mismatch e = any is_mismatch e.chain

-- `StorageFull`, or `ENOSPC`.
abbrev pub is_full : ClientCause → Bool
is_full (io_cause e) =
    io_kind_eq e.kind storage_full || elim e.raw_os_error [ none ↦ false | some code ↦ code == 28 ]
is_full cause = false

abbrev find_remote : List ClientCause → Option (ErrorCode × Text)
find_remote [] = none
find_remote (remote code text ∷ causes) = some (code, text)
find_remote (cause ∷ causes) = find_remote causes

unfoldable pub remote_control_error : ClientError → Option (ErrorCode × Text)
remote_control_error e = find_remote e.chain

abbrev pub is_transfer : Text → Bool
is_transfer command = starts_with command (codes "transfer")

-- The code and whether a retry makes sense.
unfoldable pub remote_code : Text → ErrorCode → Text → Text × Bool
remote_code command invalid_request message = (codes "invalid.request", false)
remote_code command capability_missing message = (codes "capability.missing", false)
remote_code command exec_failed message =
    if contains_text message (codes "timed out")
    then (codes "exec.timeout", true)
    else (codes "exec.start_failed", false)
remote_code command exec_start_failed message = (codes "exec.start_failed", false)
remote_code command exec_timeout message = (codes "exec.timeout", true)
remote_code command Messages.ErrorCode.not_found message = (codes "fs.not_found", false)
remote_code command fs_not_found message = (codes "fs.not_found", false)
remote_code command fs_permission_denied message = (codes "fs.permission_denied", false)
remote_code command fs_precondition_failed message = (codes "fs.precondition_failed", false)
remote_code command fs_no_space message = (codes "fs.no_space", false)
remote_code command transfer_interrupted message = (codes "transfer.interrupted", true)
remote_code command transfer_verification_failed message =
    (codes "transfer.verification_failed", false)
remote_code command file_transfer_failed message =
    if is_transfer command then (codes "transfer.failed", false) else (codes "daemon.error", false)
remote_code command internal message = (codes "daemon.error", false)

abbrev or_default : Option Text → Text
or_default none = []
or_default (some text) = text

-- The code of an error that did not come from the daemon.
unfoldable pub transport_code : Text → ClientError → Text × Bool
unfolding error_has_elapsed error_has_io_kind error_has_protocol_mismatch
transport_code command e =
    if error_has_elapsed e
    then (codes "connection.timeout", true)
    else if error_has_io_kind e connection_refused
    then (codes "connection.refused", true)
    else if error_has_protocol_mismatch e
    then (codes "connection.protocol_mismatch", false)
    else if is_transfer command && error_has_io_kind e not_found
    then (codes "fs.not_found", false)
    else if error_has_io_kind e permission_denied
    then (codes "fs.permission_denied", false)
    else (codes "internal.error", false)

module _ {D : Type 0} where
  -- A failure with the exit code 1.
  abbrev failure : Text × Bool → Text → Option Text → D → AgentCommandFailure D
  failure (code, retryable) message target details = record {
    code = code;
    message = message;
    target = target;
    retryable = retryable;
    details = details;
    exit_code = pos 1;
  }

  unfoldable pub map_remote_error : Text → Text → ErrorCode → Text → D → AgentCommandFailure D
  unfolding remote_code
  map_remote_error command target code message details =
      failure (remote_code command code message) message (some target) details

  -- The last argument is `json!({})`.
  unfoldable pub map_transport_error : Text → Option Text → ClientError → D → AgentCommandFailure D
  unfolding remote_control_error map_remote_error transport_code
  map_transport_error command target e no_details = elim (remote_control_error e) [
    | some (code, message) ↦ map_remote_error command (or_default target) code message no_details
    | none ↦ failure (transport_code command e) e.text target no_details
  ]

  unfoldable pub map_operation_error :
      Text → Option Text → ClientError → D → D → AgentCommandFailure D
  unfolding remote_control_error map_remote_error map_transport_error error_has_io_kind
  map_operation_error command target e details no_details = elim (remote_control_error e) [
    | some (code, message) ↦ map_remote_error command (or_default target) code message details
    | none ↦
        if error_has_io_kind e permission_denied
        then failure (codes "fs.permission_denied", false) e.text target details
        else if any is_full e.chain
        then failure (codes "fs.no_space", false) e.text target details
        else record (map_transport_error command target e no_details) { details = details }
  ]
