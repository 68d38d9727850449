-- ===== src/Client/Agent/Proceeds.antt =====
-- How run_agent_transfer_push proceeds as a whole, where roots are staged
-- (crates/rsdb-cli/src/main.rs).
use rsdb.Base.{
  ℕ, ◌+◌, arith, Bool, true, false, not, ◌||◌, ◌&&◌, Option, none, List, Result, ok, err, map_err,
  ◌≡◌, refl, inl, inr, Result-cases, ◌==◌, if◌then◌else◌,
}
use rsdb.Base.Exec.{continue, ◌>>=◌}
use rsdb.Base.Texts.{Text}
use rsdb.Proto.Messages.{TransferRoot, AgentFsStat}
use rsdb.Paths.Transfer.{ensure_unique_root_names}
use rsdb.Daemon.Error.{Error}
use rsdb.Daemon.Host.{Host}
use rsdb.Daemon.Transfer.Roots.{from_path_error}
use rsdb.Client.Batch.Manifest.{LocalBatchManifest}
use rsdb.Client.Batch.Build.{build_local_batch_manifest}
use rsdb.Client.Batch.Exchange.{PushSummary}
use rsdb.Client.Agent.Failure.{Details, Failure, client_error}
use rsdb.Client.Agent.Remote.{Remote, remote_fs_stat_request}
use rsdb.Client.Agent.Push.{
  remote_root_bases, resolve_remote_batch_roots, push_by_roots, run_agent_transfer_push,
  push_details, push_directly, push_roots, none_pushed, verified_summary,
}
use rsdb.Client.Agent.Verify.{CliTransferVerifyMode, push_failure}
use rsdb.Client.Agent.Staged.{Action, IsLogged, Reads, Phase, idle, Follows, here}
use rsdb.Client.Agent.Quiet.{
  IsQuiet, remote_fs_stat_request-IsQuiet, verify_if-IsQuiet, quiet_rules,
}
use rsdb.Client.Agent.Beside.{push_roots-Stays}
use rsdb.Client.Agent.Stays.{IsEnd, rounds, Stays, Stays-bind, Stays-quiet, Follows-Reads}

-- A success has done all roots and leaves nothing beside its place, a failure nothing but what could not be removed.
abbrev pub EndsIn : ℕ → Result Failure PushSummary → Phase → Type 0
EndsIn k (ok summary) phase = phase ≡ idle k
EndsIn k (err failure) phase = IsEnd phase

module _ {S : Type 0} {host : Host S} {remote : Remote S} {log : S → List Action}
    (logged : IsLogged host remote log) (target : Text) where
  verified_summary-IsQuiet :
      (fuel : ℕ) (verify : Option CliTransferVerifyMode) (sources final_roots : List Text)
      (skipped : Bool) (entries_written bytes_written : ℕ)
      → IsQuiet log (
          verified_summary host remote target fuel verify sources final_roots skipped
            entries_written bytes_written)
  verified_summary-IsQuiet fuel verify sources final_roots skipped entries_written bytes_written =
      search (quiet_rules, verify_if-IsQuiet logged)

  push_by_roots-Stays :
      (manifest : LocalBatchManifest) (final_roots : List Text) (before : List Action) (fuel : ℕ)
      (verify : Option CliTransferVerifyMode) (if_changed : Bool) (s : S)
      → Follows manifest final_roots if_changed before (idle 0) (log s)
      → Stays log manifest final_roots if_changed before
          (rounds manifest.sources final_roots)
          (push_by_roots host remote target fuel verify if_changed manifest final_roots s).0
          (push_by_roots host remote target fuel verify if_changed manifest final_roots s).1
  unfolding push_by_roots
  push_by_roots-Stays manifest final_roots before fuel verify if_changed s h =
      let all = rounds manifest.sources final_roots in
      let count : 0 + all ≡ all = omega arith in
      Stays-bind log manifest final_roots if_changed before all all
        (push_roots host remote target fuel manifest if_changed 0 manifest.sources final_roots
          none_pushed)
        _ s
        (rw count at (
          push_roots-Stays logged target manifest final_roots if_changed before fuel 0
            manifest.sources final_roots none_pushed s refl h))
        (λ counts t g.
          Stays-quiet log manifest final_roots if_changed before all _ t
            (verified_summary-IsQuiet fuel verify manifest.sources final_roots
              (if_changed && (counts.changed_roots == 0)) counts.entries_written
              counts.bytes_written)
            g)

  resolve_remote_batch_roots-IsQuiet :
      (destination : Text) (roots : List TransferRoot)
      → IsQuiet log (resolve_remote_batch_roots host remote target destination roots)
  unfolding resolve_remote_batch_roots
  resolve_remote_batch_roots-IsQuiet destination roots =
      search (quiet_rules, remote_fs_stat_request-IsQuiet logged)

  resolve_remote_batch_roots-bases :
      (destination : Text) (roots : List TransferRoot) (s : S) (final_roots : List Text)
      → (resolve_remote_batch_roots host remote target destination roots s).0 ≡ ok final_roots
      → (stat : AgentFsStat) × (remote_root_bases target destination roots stat ≡ ok final_roots)
  unfolding resolve_remote_batch_roots
  resolve_remote_batch_roots-bases destination roots s final_roots e =
      elim (Result-cases (map_err from_path_error (ensure_unique_root_names roots))) [
        | inl (u, names) ↦
            elim (Result-cases (remote_fs_stat_request remote target destination none s).0) [
              | inl (stat, found) ↦ (stat, rw (names, found) at e)
              | inr (f, lost) ↦ cc (rw (names, lost) at e)
            ]
        | inr (f, names) ↦ cc (rw names at e)
      ]

module _ {S : Type 0} (host : Host S) (remote : Remote S) (log : S → List Action) (target : Text)
    (fuel : ℕ) (source_specs : List Text) (destination : Text) (if_changed : Bool) (s : S) where
  -- A push from the state `s` that ended with a result in a state: it asked questions only and
  -- failed, or it followed the steps of a staged push for the manifest of the sources and the roots
  -- that their names and the device determine.
  pub data Proceeds (r : Result Failure PushSummary) (s' : S) : Type 0 where
    refused : (failure : Failure) → r ≡ err failure → Reads (log s) (log s') → Proceeds r s'
    ran :
        (manifest : LocalBatchManifest) (stat : AgentFsStat) (final_roots : List Text)
        (phase : Phase)
        → build_local_batch_manifest host s fuel source_specs ≡ ok manifest
        → remote_root_bases target destination manifest.roots stat ≡ ok final_roots
        → Follows manifest final_roots if_changed (log s) phase (log s')
        → EndsIn (rounds manifest.sources final_roots) r phase
        → Proceeds r s'

  Stays-Proceeds :
      (r : Result Failure PushSummary) (s' : S) (manifest : LocalBatchManifest) (stat : AgentFsStat)
      (final_roots : List Text)
      → build_local_batch_manifest host s fuel source_specs ≡ ok manifest
      → remote_root_bases target destination manifest.roots stat ≡ ok final_roots
      → Stays log manifest final_roots if_changed (log s) (rounds manifest.sources final_roots) r s'
      → Proceeds r s'
  Stays-Proceeds (ok a) s' manifest stat final_roots built bases h =
      ran manifest stat final_roots (idle (rounds manifest.sources final_roots)) built bases h refl
  Stays-Proceeds (err e) s' manifest stat final_roots built bases (phase, end, h) =
      ran manifest stat final_roots phase built bases h end

  module _ (logged : IsLogged host remote log) (verify : Option CliTransferVerifyMode) where
    -- After the manifest was built.
    built-Proceeds :
        (manifest : LocalBatchManifest)
        → build_local_batch_manifest host s fuel source_specs ≡ ok manifest
        → let m =
            resolve_remote_batch_roots host remote target destination manifest.roots
            >>= (λ final_roots.
                push_by_roots host remote target fuel verify if_changed manifest final_roots) in
          Proceeds (m s).0 (m s).1
    built-Proceeds manifest built =
        let quiet = resolve_remote_batch_roots-IsQuiet logged target destination manifest.roots in
        resolved-Proceeds
          (resolve_remote_batch_roots host remote target destination manifest.roots s).0
          (resolve_remote_batch_roots host remote target destination manifest.roots s).1 refl
          (quiet.at s)
      where
        resolved-Proceeds :
            (r : Result Failure (List Text)) (t : S)
            → (resolve_remote_batch_roots host remote target destination manifest.roots s).0 ≡ r
            → Reads (log s) (log t)
            → let m =
                continue r
                  (λ final_roots.
                    push_by_roots host remote target fuel verify if_changed manifest final_roots)
                  t in
              Proceeds m.0 m.1
        resolved-Proceeds (ok final_roots) t e reads =
            let (stat, bases) =
              resolve_remote_batch_roots-bases logged target destination manifest.roots s
                final_roots e in
            Stays-Proceeds _ _ manifest stat final_roots built bases (
              push_by_roots-Stays logged target manifest final_roots (log s) fuel verify if_changed
                t (Follows-Reads log manifest final_roots if_changed (log s) here reads))
        resolved-Proceeds (err f) t e reads = refused f refl reads

  pushed-Proceeds :
      (logged : IsLogged host remote log) (verify : Option CliTransferVerifyMode)
      (details : Details) (atomic changed : Bool) (built : Result Error LocalBatchManifest)
      → build_local_batch_manifest host s fuel source_specs ≡ built
      → changed ≡ if_changed
      → atomic || changed ≡ true
      → let m =
          continue
            (map_err (λ e. push_failure host remote target details (client_error host e)) built)
            (λ manifest.
              resolve_remote_batch_roots host remote target destination manifest.roots
              >>= (λ final_roots.
                  if not atomic && not changed
                  then push_directly host remote target fuel verify details destination manifest
                      final_roots
                  else push_by_roots host remote target fuel verify changed manifest final_roots))
            s in
        Proceeds m.0 m.1
  pushed-Proceeds logged verify details atomic changed (err e) built same h =
      refused _ refl Reads.here
  pushed-Proceeds logged verify details true changed (ok manifest) built same h =
      rw same (built-Proceeds logged verify manifest built)
  pushed-Proceeds logged verify details false true (ok manifest) built same h =
      rw same (built-Proceeds logged verify manifest built)
  pushed-Proceeds logged verify details false false (ok manifest) built same h = cc

  -- A push with `atomic` or `if_changed` asks questions only and fails, or follows the steps of a
  -- staged push from the state between two roots: a root, with what the manifest of the sources holds
  -- of it, is pushed to a path of its own beside its place; what was pushed completely, and only
  -- that, is moved onto the root; what was not, or could not be moved, is removed, and nothing follows
  -- that. Roots are taken in their order, and where it succeeds all of them are done, each moved to its
  -- place or, with `if_changed`, passed over, and nothing is left beside its place. It changes nothing
  -- else on the device. The log is one that records what is asked of the device and pushed to it.
  pub run_agent_transfer_push-Proceeds :
      IsLogged host remote log
      → (verify : Option CliTransferVerifyMode) (atomic : Bool) → atomic || if_changed ≡ true
      → let (r, s') =
          run_agent_transfer_push host remote target fuel source_specs destination verify atomic
            if_changed s in
        Proceeds r s'
  unfolding run_agent_transfer_push
  run_agent_transfer_push-Proceeds logged verify atomic h =
      pushed-Proceeds logged verify
        (push_details host remote target source_specs destination verify atomic if_changed) atomic
        if_changed (build_local_batch_manifest host s fuel source_specs) refl refl h
