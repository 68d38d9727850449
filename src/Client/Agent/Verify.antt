-- ===== src/Client/Agent/Verify.antt =====
-- The verification of a push: what is on the device against what was pushed
-- (crates/rsdb-cli/src/main.rs). The fuel bounds how deep local directories are nested.
use rsdb.Base.{ℕ, Bool, true, false, not, Option, none, some, List, [], ◌∷◌, ◌++◌, if◌then◌else◌}
use rsdb.Base.Exec.{Exec, pure, throw, map_error, ◌>>=◌}
use rsdb.Base.Texts.{Text, codes}
use rsdb.Daemon.Host.{Host}
use rsdb.Client.States.{StateMap, transfer_states_match}
use rsdb.Client.Failures.{ClientError, map_operation_error}
use rsdb.Client.Agent.Failure.{Details, Failure, text, client_error, transfer_verification_failure}
use rsdb.Client.Agent.Local.{collect_local_transfer_state}
use rsdb.Client.Agent.Remote.{Remote, collect_remote_transfer_state}

pub data CliTransferVerifyMode : Type 0 where
  size sha256 : CliTransferVerifyMode

abbrev pub transfer_verify_name : CliTransferVerifyMode → Text
transfer_verify_name size = codes "size"
transfer_verify_name sha256 = codes "sha256"

abbrev pub verify_uses_hash : CliTransferVerifyMode → Bool
verify_uses_hash size = false
verify_uses_hash sha256 = true

-- `verify.map(transfer_verify_name)`
abbrev pub verify_name : Option CliTransferVerifyMode → Option Text
verify_name none = none
verify_name (some mode) = some (transfer_verify_name mode)

abbrev pub is_some : {A : Type 0} → Option A → Bool
is_some none = false
is_some (some a) = true

-- The `source` and the `destination` of a failure.
abbrev pub ends_details : Text → Text → Details
ends_details source destination =
    (codes "source", text source) ∷ (codes "destination", text destination) ∷ []

abbrev pub verified_details : Text → Text → CliTransferVerifyMode → Details
verified_details source destination mode =
    (codes "source", text source)
    ∷ (codes "destination", text destination)
    ∷ (codes "verification", text (transfer_verify_name mode))
    ∷ []

-- `is_some_and` of a comparison with what was expected.
abbrev pub matches : StateMap → Option StateMap → Bool
matches expected none = false
matches expected (some actual) = transfer_states_match expected actual

module _ {S : Type 0} (host : Host S) (remote : Remote S) (target : Text) where
  abbrev pub push_failure : Details → ClientError → Failure
  push_failure details e = map_operation_error (codes "transfer.push") (some target) e details []

  abbrev pub local_state : ℕ → Text → Text → Bool → Exec S Failure StateMap
  local_state fuel source remote_root include_hash =
      map_error (λ e. push_failure (ends_details source remote_root) (client_error host e))
        (collect_local_transfer_state host fuel source include_hash)

  abbrev pub not_verified : Text → Text → CliTransferVerifyMode → Failure
  not_verified source remote_root mode =
      transfer_verification_failure target
        (codes "remote destination does not match pushed content: " ++ remote_root)
        (verified_details source remote_root mode)

  -- The loop that compares what is on the device with what was pushed, one root in each round.
  unfoldable pub verify_pushed :
      ℕ → CliTransferVerifyMode → List Text → List Text → Exec S Failure (Unit {0})
  unfolding collect_local_transfer_state collect_remote_transfer_state transfer_states_match
      transfer_verification_failure map_operation_error
  verify_pushed fuel mode [] final_roots = pure tt
  verify_pushed fuel mode (source ∷ sources) [] = pure tt
  verify_pushed fuel mode (source ∷ sources) (remote_root ∷ final_roots) = do
    expected ← local_state fuel source remote_root (verify_uses_hash mode)
    actual ← collect_remote_transfer_state remote host target remote_root (verify_uses_hash mode)
    if not (matches expected actual)
        then throw (not_verified source remote_root mode)
        else verify_pushed fuel mode sources final_roots

  abbrev pub verify_if :
      ℕ → Option CliTransferVerifyMode → List Text → List Text → Exec S Failure (Unit {0})
  verify_if fuel none sources final_roots = pure tt
  verify_if fuel (some mode) sources final_roots = verify_pushed fuel mode sources final_roots
