-- ===== src/Client/Agent/Push.antt =====
-- `rsdb agent transfer push`: run_agent_transfer_push and what it calls
-- (crates/rsdb-cli/src/main.rs). The fuel bounds how deep local directories are nested.
use rsdb.Base.{
  ℕ, ◌+◌, ◌%◌, ◌^◌, Bool, true, false, not, ◌&&◌, ◌||◌, Option, none, some, List, [], ◌∷◌, ◌++◌,
  map, Result, ok, err, map_err, ◌==◌, if◌then◌else◌,
}
use rsdb.Base.Exec.{Exec, pure, lift, map_error, ◌>>=◌, ◌>>◌}
use rsdb.Base.Texts.{Text, codes, decimal}
use rsdb.Proto.Messages.{TransferRoot, AgentFsStat}
use rsdb.Paths.Components.{join, parent, file_name, ends_with_slash}
use rsdb.Paths.Transfer.{ensure_unique_root_names}
use rsdb.Daemon.Host.{Host}
use rsdb.Daemon.Transfer.Roots.{from_path_error}
use rsdb.Client.States.{transfer_states_match}
use rsdb.Client.Failures.{map_operation_error}
use rsdb.Client.Batch.Manifest.{LocalBatchManifest, filter_local_batch_manifest}
use rsdb.Client.Batch.Build.{build_local_batch_manifest}
use rsdb.Client.Batch.Exchange.{PushSummary}
use rsdb.Client.Agent.Failure.{
  Details, Failure, or_null, flag, text, texts, client_error, internal_agent_failure,
  invalid_request_failure,
}
use rsdb.Client.Agent.Local.{collect_local_transfer_state}
use rsdb.Client.Agent.Remote.{
  Remote, is_directory, internal_error, remote_fs_stat_request, remote_fs_move_request,
  cleanup_remote_path, collect_remote_transfer_state,
}
use rsdb.Client.Agent.Verify.{
  CliTransferVerifyMode, verify_name, is_some, ends_details, matches, push_failure, local_state,
  verify_pushed, verify_if,
}

-- The parent of a path, `.` where it has none to name.
abbrev staging_parent : Option Text → Text
staging_parent none = codes "."
staging_parent (some []) = codes "."
staging_parent (some (c ∷ dir)) = c ∷ dir

abbrev staging_name : Option Text → Text
staging_name none = codes "rsdb-transfer"
staging_name (some name) = name

-- `nonce` is the time in nanoseconds.
unfoldable pub staged_remote_transfer_path : ℕ → Text → ℕ → Text
unfolding parent file_name join
staged_remote_transfer_path nonce final_root index = join (staging_parent (parent final_root)) (
    codes "."
    ++ (staging_name (file_name final_root)
        ++ (codes ".rsdb-transfer-" ++ (decimal nonce ++ (codes "-" ++ decimal index)))))

-- The base of each root on the device, given what is known of the destination.
unfoldable pub remote_root_bases :
    Text → Text → List TransferRoot → AgentFsStat → Result Failure (List Text)
unfolding invalid_request_failure join
remote_root_bases target destination (root ∷ []) stat = ok (
    (if (stat.exists && is_directory stat.kind) || ends_with_slash destination
      then join destination root.source_name
      else destination)
    ∷ [])
remote_root_bases target destination roots stat =
    if stat.exists && not (is_directory stat.kind)
    then err (
        invalid_request_failure (codes "remote destination is not a directory: " ++ destination)
          (some target) ((codes "destination", text destination) ∷ []))
    else ok (map (λ root. join destination root.source_name) roots)

-- What the loop counts.
pub record Pushed : Type 0 where
  pub entries_written : ℕ
  pub bytes_written : ℕ
  pub changed_roots : ℕ

abbrev pub none_pushed : Pushed
none_pushed = record { entries_written = 0; bytes_written = 0; changed_roots = 0 }

module _ {S : Type 0} (host : Host S) (remote : Remote S) (target : Text) where
  unfoldable pub resolve_remote_batch_roots : Text → List TransferRoot → Exec S Failure (List Text)
  unfolding remote_fs_stat_request remote_root_bases ensure_unique_root_names internal_agent_failure
  resolve_remote_batch_roots destination roots = do
    lift (internal_error host (map_err from_path_error (ensure_unique_root_names roots)))
    stat ← remote_fs_stat_request remote target destination none
    lift (remote_root_bases target destination roots stat)

  -- `if_changed`: whether the root is on the device already.
  abbrev pub is_unchanged : ℕ → Bool → Text → Text → Exec S Failure Bool
  is_unchanged fuel if_changed source remote_root = if not if_changed then pure false else do
    expected ← local_state host remote target fuel source remote_root true
    actual ← collect_remote_transfer_state remote host target remote_root true
    pure (matches expected actual)

  -- `let _ = cleanup_remote_path(..).await; return Err(err);`
  abbrev pub clean_up : {A : Type 0} → Text → Failure → Exec S Failure A
  clean_up temp_root failure s = (err failure, (cleanup_remote_path remote target temp_root s).1)

  abbrev pub or_clean_up : {A : Type 0} → Text → Exec S Failure A → Exec S Failure A
  or_clean_up temp_root m s = elim (m s).0 [
    | ok a ↦ (ok a, (m s).1)
    | err failure ↦ clean_up temp_root failure (m s).1
  ]

  -- A root is pushed beside its place, and then moved there.
  unfoldable pub push_staged : LocalBatchManifest → Text → Text → Text → Exec S Failure PushSummary
  unfolding remote_fs_move_request cleanup_remote_path map_operation_error
  push_staged single source remote_root temp_root = do
    summary ← or_clean_up temp_root (
        map_error (push_failure host remote target (ends_details source remote_root))
          (remote.push target single temp_root))
    or_clean_up temp_root (remote_fs_move_request remote target temp_root remote_root true)
    pure summary

  -- The rest of a round where the root is not skipped.
  unfoldable pub push_changed :
      LocalBatchManifest → ℕ → Text → Text → Exec S Failure (Option PushSummary)
  unfolding push_staged filter_local_batch_manifest staged_remote_transfer_path map_operation_error
  push_changed manifest index source remote_root = do
    nonce ← (λ s. (ok (host.nonce s), s))
    single ← lift (
        map_err
          (λ e.
            push_failure host remote target (ends_details source remote_root) (client_error host e))
          (filter_local_batch_manifest manifest ((index % 2 ^ 32) ∷ [])))
    summary ←
        push_staged single source remote_root (staged_remote_transfer_path nonce remote_root index)
    pure (some summary)

  -- One round of the loop: nothing where the root is skipped.
  unfoldable pub push_root :
      ℕ → LocalBatchManifest → Bool → ℕ → Text → Text → Exec S Failure (Option PushSummary)
  unfolding push_changed collect_local_transfer_state collect_remote_transfer_state
      transfer_states_match map_operation_error
  push_root fuel manifest if_changed index source remote_root = do
    unchanged ← is_unchanged fuel if_changed source remote_root
    if unchanged then pure none else push_changed manifest index source remote_root

  abbrev pub add_summary : Option PushSummary → Pushed → Pushed
  add_summary none counts = counts
  add_summary (some summary) counts = record {
    entries_written = counts.entries_written + summary.entries_written;
    bytes_written = counts.bytes_written + summary.bytes_written;
    changed_roots = counts.changed_roots + 1;
  }

  -- The loop over the roots, from the root `index`.
  unfoldable pub push_roots :
      ℕ → LocalBatchManifest → Bool → ℕ → List Text → List Text → Pushed → Exec S Failure Pushed
  unfolding push_root
  push_roots fuel manifest if_changed index [] final_roots counts = pure counts
  push_roots fuel manifest if_changed index (source ∷ sources) [] counts = pure counts
  push_roots fuel manifest if_changed index (source ∷ sources) (remote_root ∷ final_roots) counts =
      do
        summary ← push_root fuel manifest if_changed index source remote_root
        push_roots fuel manifest if_changed (index + 1) sources final_roots
            (add_summary summary counts)

  -- What both ways end with.
  abbrev pub verified_summary :
      ℕ
      → Option CliTransferVerifyMode
      → List Text
      → List Text
      → Bool
      → ℕ
      → ℕ
      → Exec S Failure PushSummary
  verified_summary fuel verify sources final_roots skipped entries_written bytes_written = do
    verify_if host remote target fuel verify sources final_roots
    pure (record {
      entries_written = entries_written;
      bytes_written = bytes_written;
      skipped = skipped;
      verification = verify_name verify;
      verified = is_some verify;
    })

  abbrev pub push_details : List Text → Text → Option CliTransferVerifyMode → Bool → Bool → Details
  push_details source_specs destination verify atomic if_changed =
      (codes "sources", texts source_specs)
      ∷ (codes "destination", text destination)
      ∷ (codes "verify", or_null (verify_name verify))
      ∷ (codes "atomic", flag atomic)
      ∷ (codes "if_changed", flag if_changed)
      ∷ []

  -- Neither `atomic` nor `if_changed`: all roots in one push, to where they belong.
  unfoldable pub push_directly :
      ℕ
      → Option CliTransferVerifyMode
      → Details
      → Text
      → LocalBatchManifest
      → List Text
      → Exec S Failure PushSummary
  unfolding verify_pushed map_operation_error
  push_directly fuel verify details destination manifest final_roots = do
    summary ←
        map_error (push_failure host remote target details)
          (remote.push target manifest destination)
    verified_summary fuel verify manifest.sources final_roots false summary.entries_written
        summary.bytes_written

  unfoldable pub push_by_roots :
      ℕ
      → Option CliTransferVerifyMode
      → Bool
      → LocalBatchManifest
      → List Text
      → Exec S Failure PushSummary
  unfolding push_roots verify_pushed
  push_by_roots fuel verify if_changed manifest final_roots = do
    counts ← push_roots fuel manifest if_changed 0 manifest.sources final_roots none_pushed
    verified_summary fuel verify manifest.sources final_roots
        (if_changed && (counts.changed_roots == 0)) counts.entries_written counts.bytes_written

  unfoldable pub run_agent_transfer_push :
      ℕ → List Text → Text → Option CliTransferVerifyMode → Bool → Bool → Exec S Failure PushSummary
  unfolding build_local_batch_manifest resolve_remote_batch_roots push_directly push_by_roots
      map_operation_error
  run_agent_transfer_push fuel source_specs destination verify atomic if_changed = do
    let details = push_details source_specs destination verify atomic if_changed
    manifest ← (λ s. (
      map_err (λ e. push_failure host remote target details (client_error host e))
          (build_local_batch_manifest host s fuel source_specs),
      s,
    ))
    final_roots ← resolve_remote_batch_roots destination manifest.roots
    if not atomic && not if_changed
        then push_directly fuel verify details destination manifest final_roots
        else push_by_roots fuel verify if_changed manifest final_roots
