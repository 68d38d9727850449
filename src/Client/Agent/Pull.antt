-- ===== src/Client/Agent/Pull.antt =====
-- `rsdb agent transfer pull`: run_agent_transfer_pull and what it calls
-- (crates/rsdb-cli/src/main.rs). The fuel bounds how deep local directories are nested.
use rsdb.Base.{
  ℕ, ◌+◌, true, false, not, ◌&&◌, Option, none, some, List, [], ◌∷◌, ◌++◌, length, Result, ok, err,
  ◌==◌, if◌then◌else◌,
}
use rsdb.Base.Exec.{Exec, pure, throw, lift, map_error, ◌>>=◌, ◌>>◌}
use rsdb.Base.Texts.{Text, codes}
use rsdb.Proto.Messages.{TransferRoot, TransferEntry}
use rsdb.Paths.Transfer.{has_glob_pattern}
use rsdb.Daemon.Error.{Error, bail}
use rsdb.Daemon.Host.{Host, to_string}
use rsdb.Client.States.{StateMap, transfer_states_match, expected_transfer_state_for_root}
use rsdb.Client.Failures.{map_operation_error}
use rsdb.Client.Batch.Receive.{resolve_local_batch_roots}
use rsdb.Client.Batch.Exchange.{PullSummary}
use rsdb.Client.Agent.Failure.{
  Details, Failure, or_null, text, texts, client_bail, client_error, internal_agent_failure,
  invalid_request_failure, transfer_verification_failure,
}
use rsdb.Client.Agent.Local.{collect_local_transfer_state}
use rsdb.Client.Agent.Remote.{Remote, remote_fs_stat_request, collect_remote_transfer_state}
use rsdb.Client.Agent.Verify.{
  CliTransferVerifyMode, size, sha256, transfer_verify_name, verify_name, is_some, verified_details,
}

module _ {S : Type 0} (host : Host S) where
  -- The loop over the roots, from the root `index`.
  unfoldable pub verify_local_roots :
      ℕ → List TransferEntry → ℕ → List Text → Exec S Error (Unit {0})
  unfolding expected_transfer_state_for_root collect_local_transfer_state transfer_states_match
  verify_local_roots fuel entries index [] = pure tt
  verify_local_roots fuel entries index (local_root ∷ local_roots) = do
    actual ← collect_local_transfer_state host fuel local_root false
    if not (transfer_states_match (expected_transfer_state_for_root entries index) actual)
        then throw (bail (codes "local destination does not match pulled manifest: " ++ local_root))
        else verify_local_roots fuel entries (index + 1) local_roots

  unfoldable pub verify_local_pull_against_manifest :
      ℕ → Text → Text → List TransferRoot → List TransferEntry → Exec S Error (Unit {0})
  unfolding resolve_local_batch_roots verify_local_roots
  verify_local_pull_against_manifest fuel destination destination_arg roots entries = do
    local_root_paths ← resolve_local_batch_roots host destination destination_arg roots
    verify_local_roots fuel entries 0 local_root_paths

module _ {S : Type 0} (host : Host S) (remote : Remote S) (target : Text) where
  -- The loop over the sources.
  unfoldable pub resolve_sha256_pull_sources : List Text → Exec S Failure (List Text)
  unfolding remote_fs_stat_request has_glob_pattern invalid_request_failure
  resolve_sha256_pull_sources [] = pure []
  resolve_sha256_pull_sources (source ∷ sources) = do
    stat ← remote_fs_stat_request remote target source none
    if not stat.exists && has_glob_pattern source
        then throw (
            invalid_request_failure
              (codes "sha256 verification requires literal remote sources; wildcard source `"
                ++ (source ++ codes "` is ambiguous"))
              (some target) ((codes "source", text source) ∷ []))
        else do concrete ← resolve_sha256_pull_sources sources; pure (source ∷ concrete)

  abbrev sources_details : List Text → Text → CliTransferVerifyMode → Details
  sources_details source_specs destination mode =
      (codes "sources", texts source_specs)
      ∷ (codes "destination", text destination)
      ∷ (codes "verification", text (transfer_verify_name mode))
      ∷ []

  abbrev or_disappeared : Text → Details → Option StateMap → Result Failure StateMap
  or_disappeared remote_root details none = err (
      transfer_verification_failure target
        (codes "remote source disappeared during verification: " ++ remote_root) details)
  or_disappeared remote_root details (some states) = ok states

  -- The loop that compares what was pulled with what is on the device.
  unfoldable pub verify_pulled : ℕ → List Text → List Text → Exec S Failure (Unit {0})
  unfolding collect_remote_transfer_state collect_local_transfer_state transfer_states_match
      transfer_verification_failure
  verify_pulled fuel [] local_roots = pure tt
  verify_pulled fuel (remote_root ∷ remote_roots) [] = pure tt
  verify_pulled fuel (remote_root ∷ remote_roots) (local_root ∷ local_roots) = do
    let details = verified_details remote_root local_root sha256
    found ← collect_remote_transfer_state remote host target remote_root true
    expected ← lift (or_disappeared remote_root details found)
    actual ←
        map_error (λ e. transfer_verification_failure target (to_string host e) details)
          (collect_local_transfer_state host fuel local_root true)
    if not (transfer_states_match expected actual)
        then throw (
            transfer_verification_failure target
              (codes "local destination does not match remote source: " ++ remote_root) details)
        else verify_pulled fuel remote_roots local_roots

  -- The roots that a verification by hashes compares with.
  abbrev verify_roots :
      Option CliTransferVerifyMode → List Text → Exec S Failure (Option (List Text))
  verify_roots (some sha256) source_specs = do
    roots ← resolve_sha256_pull_sources source_specs
    pure (some roots)
  verify_roots verify source_specs = pure none

  abbrev roots_or_internal : Option (List Text) → Result Failure (List Text)
  roots_or_internal none =
      err (internal_agent_failure (client_bail (codes "missing remote verify roots")))
  roots_or_internal (some roots) = ok roots

  abbrev verify_pull :
      ℕ
      → List Text
      → Text
      → Option CliTransferVerifyMode
      → Option (List Text)
      → PullSummary
      → Exec S Failure (Unit {0})
  verify_pull fuel source_specs destination none remote_verify_roots summary = pure tt
  verify_pull fuel source_specs destination (some size) remote_verify_roots summary =
      map_error
        (λ e.
          transfer_verification_failure target (to_string host e)
            (sources_details source_specs destination size))
        (verify_local_pull_against_manifest host fuel destination destination summary.roots
          summary.entries)
  verify_pull fuel source_specs destination (some sha256) remote_verify_roots summary = do
    remote_roots ← lift (roots_or_internal remote_verify_roots)
    local_root_paths ←
        map_error (λ e. internal_agent_failure (client_error host e))
          (resolve_local_batch_roots host destination destination summary.roots)
    if not (length remote_roots == length local_root_paths)
        then throw (
            transfer_verification_failure target
              (codes "pull root count did not match requested sources")
              (sources_details source_specs destination sha256))
        else verify_pulled fuel remote_roots local_root_paths

  abbrev pull_details : List Text → Text → Option CliTransferVerifyMode → Details
  pull_details source_specs destination verify =
      (codes "sources", texts source_specs)
      ∷ (codes "destination", text destination)
      ∷ (codes "verify", or_null (verify_name verify))
      ∷ []

  unfoldable pub run_agent_transfer_pull :
      ℕ → List Text → Text → Option CliTransferVerifyMode → Exec S Failure PullSummary
  unfolding resolve_sha256_pull_sources verify_pulled verify_local_pull_against_manifest
      resolve_local_batch_roots map_operation_error internal_agent_failure
      transfer_verification_failure
  run_agent_transfer_pull fuel source_specs destination verify = do
    remote_verify_roots ← verify_roots verify source_specs
    summary ←
        map_error
          (λ e.
            map_operation_error (codes "transfer.pull") (some target) e
              (pull_details source_specs destination verify) [])
          (remote.pull target source_specs destination)
    verify_pull fuel source_specs destination verify remote_verify_roots summary
    pure (record summary { verification = verify_name verify; verified = is_some verify })
