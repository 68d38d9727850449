-- ===== src/Client/Failures/Retry.antt =====
-- Which failures an agent may retry (crates/rsdb-cli/src/main.rs).
use rsdb.Base.{
  pos, Bool, ◌≡◌, refl, arith, Option, List, [], ◌∷◌, Option-cases, Bool-cases, inl, inr,
}
use rsdb.Base.Texts.{Text, codes, contains}
use rsdb.Proto.Messages.{
  ErrorCode, invalid_request, capability_missing, exec_failed, exec_start_failed, exec_timeout,
  file_transfer_failed, fs_not_found, fs_permission_denied, fs_precondition_failed, fs_no_space,
  transfer_interrupted, transfer_verification_failed, internal,
}
use rsdb.Proto.Messages
use rsdb.Client.Failures.{
  ClientError, remote_code, transport_code, remote_control_error, map_operation_error,
  contains_text, is_transfer,
}

-- Timeouts, a refused connection and an interrupted transfer.
abbrev pub retryable_codes : List Text
retryable_codes =
    codes "connection.timeout"
    ∷ codes "connection.refused"
    ∷ codes "exec.timeout"
    ∷ codes "transfer.interrupted"
    ∷ []

abbrev IsRetryRule : Text × Bool → Type 0
IsRetryRule rule = rule.1 ≡ contains retryable_codes rule.0

remote_code-IsRetryRule :
    (command : Text) (code : ErrorCode) (message : Text)
    → IsRetryRule (remote_code command code message)
unfolding remote_code
remote_code-IsRetryRule command invalid_request message = refl
remote_code-IsRetryRule command capability_missing message = refl
remote_code-IsRetryRule command exec_failed message =
    elim (Bool-cases (contains_text message (codes "timed out"))) [ inl e ↦ rw e | inr e ↦ rw e ]
remote_code-IsRetryRule command exec_start_failed message = refl
remote_code-IsRetryRule command exec_timeout message = refl
remote_code-IsRetryRule command Messages.ErrorCode.not_found message = refl
remote_code-IsRetryRule command fs_not_found message = refl
remote_code-IsRetryRule command fs_permission_denied message = refl
remote_code-IsRetryRule command fs_precondition_failed message = refl
remote_code-IsRetryRule command fs_no_space message = refl
remote_code-IsRetryRule command transfer_interrupted message = refl
remote_code-IsRetryRule command transfer_verification_failed message = refl
remote_code-IsRetryRule command file_transfer_failed message =
    elim (Bool-cases (is_transfer command)) [ inl e ↦ rw e | inr e ↦ rw e ]
remote_code-IsRetryRule command internal message = refl

transport_code-IsRetryRule :
    (command : Text) (e : ClientError) → IsRetryRule (transport_code command e)
unfolding transport_code
transport_code-IsRetryRule command e = ground arith

module _ {D : Type 0} where
  -- For every command, target and error, what an agent is told of a failed operation is marked as
  -- worth a retry exactly when its code is that of a timeout, a refused connection or an interrupted
  -- transfer; it has the details it was given, and the exit code 1.
  pub map_operation_error-retryable :
      (command : Text) (target : Option Text) (e : ClientError) (details no_details : D)
      → ((map_operation_error command target e details no_details).retryable
          ≡ contains retryable_codes (map_operation_error command target e details no_details).code)
        × ((map_operation_error command target e details no_details).details ≡ details)
        × ((map_operation_error command target e details no_details).exit_code ≡ pos 1)
  unfolding map_operation_error
  map_operation_error-retryable command target e details no_details =
      elim (Option-cases (remote_control_error e)) [
        | inl r ↦ ground (arith, r, transport_code-IsRetryRule command e)
        | inr ((code, message), r) ↦ ground (arith, r, remote_code-IsRetryRule command code message)
      ]
