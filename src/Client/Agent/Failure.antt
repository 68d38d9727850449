-- ===== src/Client/Agent/Failure.antt =====
-- The failures that agent commands report, and the errors of the client behind them
-- (crates/rsdb-cli/src/main.rs).
use rsdb.Base.{
  ℕ, ◌+◌, ℤ, pos, negsuc, Bool, true, false, Option, none, some, List, [], ◌∷◌, ◌++◌, map, Result,
  err, map_err, if◌then◌else◌,
}
use rsdb.Base.Texts.{Text, codes, decimal, is_empty}
use rsdb.Proto.Messages.{
  ErrorCode, invalid_request, capability_missing, exec_failed, exec_start_failed, exec_timeout,
  file_transfer_failed, fs_not_found, fs_permission_denied, fs_precondition_failed, fs_no_space,
  transfer_interrupted, transfer_verification_failed, internal,
}
use rsdb.Proto.Messages
use rsdb.Daemon.Error.{
  Error, Cause, message, io_cause, protocol, fs_precondition, fs_invalid_request, out_of_fuel,
}
use rsdb.Daemon.Host.{Host, to_string}
use rsdb.Client.Addresses.{Net, normalize_target_addr}
use rsdb.Client.Failures.{ClientCause, ClientError, context, remote, AgentCommandFailure}
use rsdb.Client.Failures
use rsdb.Client.Batch.Exchange.{Fault, remote_control, failed}

-- A `serde_json::Value` of the details, and the object of them, in its order.
pub data Json : Type 0 where
  null : Json
  flag : Bool → Json
  count : ℕ → Json
  number : ℤ → Json
  text : Text → Json
  texts : List Text → Json

abbrev pub Details : Type 0
Details = List (Text × Json)

abbrev pub Failure : Type 0
Failure = AgentCommandFailure Details

abbrev pub or_null : Option Text → Json
or_null none = null
or_null (some t) = text t

-- `{}` of a signed integer.
abbrev pub signed : ℤ → Text
signed (pos n) = decimal n
signed (negsuc n) = codes "-" ++ decimal (n + 1)

-- `{:?}` of an error code.
unfoldable pub error_code_name : ErrorCode → Text
error_code_name invalid_request = codes "InvalidRequest"
error_code_name capability_missing = codes "CapabilityMissing"
error_code_name exec_failed = codes "ExecFailed"
error_code_name exec_start_failed = codes "ExecStartFailed"
error_code_name exec_timeout = codes "ExecTimeout"
error_code_name file_transfer_failed = codes "FileTransferFailed"
error_code_name Messages.ErrorCode.not_found = codes "NotFound"
error_code_name fs_not_found = codes "FsNotFound"
error_code_name fs_permission_denied = codes "FsPermissionDenied"
error_code_name fs_precondition_failed = codes "FsPreconditionFailed"
error_code_name fs_no_space = codes "FsNoSpace"
error_code_name transfer_interrupted = codes "TransferInterrupted"
error_code_name transfer_verification_failed = codes "TransferVerificationFailed"
error_code_name internal = codes "Internal"

abbrev client_cause : Cause → ClientCause
client_cause (message t) = context t
client_cause (io_cause e) = Failures.io_cause e
client_cause (protocol e) = Failures.protocol e
client_cause (fs_precondition t) = context t
client_cause (fs_invalid_request t) = context t
client_cause out_of_fuel = context []

-- `anyhow!`, `bail!` of the client.
abbrev pub client_bail : Text → ClientError
client_bail t = record { chain = context t ∷ []; text = t }

abbrev pub client_context : Text → ClientError → ClientError
client_context t e = record { chain = context t ∷ e.chain; text = t }

-- A `RemoteControlError` and its `Display`.
unfoldable pub remote_error : ErrorCode → Text → ClientError
unfolding error_code_name
remote_error code reason = record {
  chain = remote code reason ∷ [];
  text = codes "remote error " ++ (error_code_name code ++ (codes ": " ++ reason));
}

module _ {S : Type 0} (host : Host S) where
  -- An error of the functions that the client shares with the daemon.
  abbrev pub client_error : Error → ClientError
  client_error e = record { chain = map client_cause e; text = to_string host e }

  abbrev pub client_fault : Fault → ClientError
  client_fault (remote_control code reason) = remote_error code reason
  client_fault (failed e) = client_error e

unfoldable pub invalid_request_failure : Text → Option Text → Details → Failure
invalid_request_failure reason target details = record {
  code = codes "invalid.request";
  message = reason;
  target = target;
  retryable = false;
  details = details;
  exit_code = pos 1;
}

unfoldable pub transfer_verification_failure : Text → Text → Details → Failure
transfer_verification_failure target reason details = record {
  code = codes "transfer.verification_failed";
  message = reason;
  target = some target;
  retryable = false;
  details = details;
  exit_code = pos 1;
}

unfoldable pub internal_agent_failure : ClientError → Failure
internal_agent_failure e = record {
  code = codes "internal.error";
  message = e.text;
  target = none;
  retryable = false;
  details = [];
  exit_code = pos 1;
}

abbrev target_required : Failure
target_required = record {
  code = codes "target.required";
  message = codes "agent command requires --target <addr>";
  target = none;
  retryable = false;
  details = [];
  exit_code = pos 1;
}

module _ {A I S : Type 0} (net : Net A I) (host : Host S) where
  unfoldable pub require_agent_target : Option Text → Result Failure Text
  unfolding normalize_target_addr internal_agent_failure
  require_agent_target none = err target_required
  require_agent_target (some value) =
      map_err (λ e. internal_agent_failure (client_error host e)) (normalize_target_addr net value)

unfoldable pub agent_response_target : Option Text → Text → Option Text
agent_response_target none resolved_target = some resolved_target
agent_response_target (some value) resolved_target = none

abbrev if_flag : Bool → Details → Details
if_flag b details = if b then details else []

abbrev if_text : Text → Option Text → Details
if_text key none = []
if_text key (some t) = if is_empty t then [] else (key, text t) ∷ []

unfoldable pub exec_failure_details : ℤ → Bool → Option Text → Option Text → Details
exec_failure_details status timed_out stdout stderr =
    (codes "status", number status)
    ∷ (if_flag timed_out ((codes "timed_out", flag true) ∷ [])
        ++ (if_text (codes "stdout") stdout ++ if_text (codes "stderr") stderr))

pub record AgentExecData : Type 0 where
  pub target : Option Text
  pub status : ℤ
  pub timed_out : Bool
  pub stdout : Option Text
  pub stderr : Option Text

pub record AgentExecCompletionData : Type 0 where
  pub target : Option Text
  pub status : ℤ
  pub timed_out : Bool

-- The failure of a command that was asked to succeed.
abbrev nonzero : Text → ℤ → Details → Failure
nonzero target status details = record {
  code = codes "exec.nonzero";
  message = codes "remote command exited with status " ++ signed status;
  target = some target;
  retryable = false;
  details = details;
  exit_code = status;
}

unfoldable pub exec_nonzero_failure : Text → AgentExecData → Failure
unfolding exec_failure_details
exec_nonzero_failure target result =
    nonzero target result.status
      (exec_failure_details result.status result.timed_out result.stdout result.stderr)

unfoldable pub exec_nonzero_failure_from_completion : Text → AgentExecCompletionData → Failure
unfolding exec_failure_details
exec_nonzero_failure_from_completion target result =
    nonzero target result.status (exec_failure_details result.status result.timed_out none none)
