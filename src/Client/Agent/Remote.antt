-- ===== src/Client/Agent/Remote.antt =====
-- The requests of the agent commands, and what is at a path of the device: agent_request, the
-- remote_fs_* requests, cleanup_remote_path and collect_remote_transfer_state
-- (crates/rsdb-cli/src/main.rs).
use rsdb.Base.{
  Bool, true, false, Option, none, some, List, [], ◌∷◌, ◌++◌, Result, ok, err, map_err, not,
  if◌then◌else◌,
}
use rsdb.Base.Exec.{Exec, pure, throw, lift, map_error, ◌>>=◌}
use rsdb.Base.Texts.{Text, codes}
use rsdb.Proto.Messages.{
  ControlRequest, ControlResponse, HashAlgorithm, sha256, AgentFsStat, AgentFsListEntry,
  FsEntryKind, directory, fs_rm, fs_move, fs_rm_result, fs_move_result, error,
}
use rsdb.Daemon.Error.{Error}
use rsdb.Daemon.Host.{Host}
use rsdb.Client.States.{StateMap, insert_state, transfer_state_from_stat, transfer_state_from_entry}
use rsdb.Client.Failures.{ClientError, map_transport_error, map_remote_error}
use rsdb.Client.Batch.Manifest.{LocalBatchManifest}
use rsdb.Client.Batch.Exchange.{PushSummary, PullSummary}
use rsdb.Client.Agent.Failure.{
  Details, Failure, text, client_bail, client_error, internal_agent_failure,
}
use rsdb.Client.Agent.Local.{relative_transfer_path}

-- The device as the commands see it, each operation over a connection of its own: `request`,
-- `execute_push_manifest` and `execute_pull`, with the target first, and `{:?}` of a response.
pub record Remote (S : Type 0) : Type 0 where
  pub request : Text → ControlRequest → Exec S ClientError ControlResponse
  pub push : Text → LocalBatchManifest → Text → Exec S ClientError PushSummary
  pub pull : Text → List Text → Text → Exec S ClientError PullSummary
  pub show : ControlResponse → Text

-- `include_hash.then_some(HashAlgorithm::Sha256)`
abbrev hash_if : Bool → Option HashAlgorithm
hash_if include_hash = if include_hash then some sha256 else none

abbrev pub path_details : Text → Details
path_details path = (codes "path", text path) ∷ []

abbrev pub is_directory : Option FsEntryKind → Bool
is_directory (some directory) = true
is_directory kind = false

module _ {S : Type 0} (host : Host S) where
  abbrev pub internal_error : {A : Type 0} → Result Error A → Result Failure A
  internal_error r = map_err (λ e. internal_agent_failure (client_error host e)) r

  -- The entries of a listing, each under its path below the root.
  unfoldable pub insert_remote_entries :
      Text → List AgentFsListEntry → StateMap → Result Failure StateMap
  unfolding internal_agent_failure relative_transfer_path transfer_state_from_entry
  insert_remote_entries root [] states = ok states
  insert_remote_entries root (entry ∷ entries) states =
      elim (internal_error (relative_transfer_path root entry.path)) [
        | err e ↦ err e
        | ok relative ↦
            insert_remote_entries root entries
              (insert_state relative (transfer_state_from_entry entry) states)
      ]

module _ {S : Type 0} (remote : Remote S) where
  abbrev pub unexpected : {A : Type 0} → ControlResponse → Exec S Failure A
  unexpected other = throw (
      internal_agent_failure
        (client_bail (codes "unexpected response from daemon: " ++ remote.show other)))

  abbrev pub reply_or_failure :
      Text → Text → Details → ControlResponse → Result Failure ControlResponse
  reply_or_failure command target details (error code message) =
      err (map_remote_error command target code message details)
  reply_or_failure command target details response = ok response

  unfoldable pub agent_request :
      Text → Text → ControlRequest → Details → Exec S Failure ControlResponse
  unfolding map_transport_error map_remote_error
  agent_request command target request details = do
    response ←
        map_error (λ e. map_transport_error command (some target) e [])
          (remote.request target request)
    lift (reply_or_failure command target details response)

  abbrev pub expect_stat : ControlResponse → Exec S Failure AgentFsStat
  expect_stat (ControlResponse.fs_stat stat) = pure stat
  expect_stat other = unexpected other

  unfoldable pub remote_fs_stat_request :
      Text → Text → Option HashAlgorithm → Exec S Failure AgentFsStat
  unfolding agent_request internal_agent_failure
  remote_fs_stat_request target path hash = do
    response ←
        agent_request (codes "fs.stat") target (ControlRequest.fs_stat path hash)
          (path_details path)
    expect_stat response

  abbrev pub expect_list : ControlResponse → Exec S Failure (List AgentFsListEntry)
  expect_list (ControlResponse.fs_list entries) = pure entries
  expect_list other = unexpected other

  unfoldable pub remote_fs_list_request :
      Text → Text → Option HashAlgorithm → Exec S Failure (List AgentFsListEntry)
  unfolding agent_request internal_agent_failure
  remote_fs_list_request target path hash = do
    response ←
        agent_request (codes "fs.list") target (ControlRequest.fs_list path true none true hash)
          (path_details path)
    expect_list response

  abbrev pub expect_moved : ControlResponse → Exec S Failure (Unit {0})
  expect_moved (fs_move_result result) = pure tt
  expect_moved other = unexpected other

  unfoldable pub remote_fs_move_request : Text → Text → Text → Bool → Exec S Failure (Unit {0})
  unfolding agent_request internal_agent_failure
  remote_fs_move_request target source destination overwrite = do
    response ←
        agent_request (codes "fs.move") target (fs_move source destination overwrite)
          ((codes "source", text source) ∷ (codes "destination", text destination) ∷ [])
    expect_moved response

  abbrev pub expect_removed : ControlResponse → Exec S Failure (Unit {0})
  expect_removed (fs_rm_result result) = pure tt
  expect_removed other = unexpected other

  unfoldable pub cleanup_remote_path : Text → Text → Exec S Failure (Unit {0})
  unfolding agent_request internal_agent_failure
  cleanup_remote_path target path = do
    response ← agent_request (codes "fs.rm") target (fs_rm path true true true) (path_details path)
    expect_removed response

  module _ (host : Host S) where
    -- What lies below a directory is listed.
    abbrev pub collect_below :
        Text → Text → Bool → Option FsEntryKind → StateMap → Exec S Failure StateMap
    collect_below target root include_hash kind states =
        if is_directory kind
        then (do
          entries ← remote_fs_list_request target root (hash_if include_hash)
          lift (insert_remote_entries host root entries states))
        else pure states

    -- What there is, or nothing.
    unfoldable pub collect_remote_transfer_state :
        Text → Text → Bool → Exec S Failure (Option StateMap)
    unfolding remote_fs_stat_request remote_fs_list_request insert_remote_entries
        transfer_state_from_stat internal_agent_failure
    collect_remote_transfer_state target root include_hash = do
      stat ← remote_fs_stat_request target root (hash_if include_hash)
      if not stat.exists then pure none else do
        state ← lift (internal_error host (transfer_state_from_stat stat))
        states ← collect_below target root include_hash stat.kind (insert_state [] state [])
        pure (some states)
