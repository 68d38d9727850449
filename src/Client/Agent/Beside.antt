-- ===== src/Client/Agent/Beside.antt =====
-- A staged push changes what is on the device only as the phases of Staged allow
-- (crates/rsdb-cli/src/main.rs).
use rsdb.Base.{
  ℕ, suc, ◌+◌, drop, ◌%◌, ◌^◌, Bool, true, false, Option, none, some, List, [], ◌∷◌, get_elem?,
  Result, ok, err, map_err, ◌≡◌, refl, sym, ap, ◌∙◌, arith, inl, inr, Result-cases,
}
use rsdb.Base.Exec.{Exec, pure, lift, map_error, continue, ◌>>=◌, ◌>>◌}
use rsdb.Base.Texts.{Text, codes}
use rsdb.Proto.Messages.{ControlResponse, fs_rm, fs_move, fs_rm_result, fs_move_result, error}
use rsdb.Daemon.Error.{Error}
use rsdb.Daemon.Host.{Host}
use rsdb.Client.Batch.Manifest.{LocalBatchManifest, filter_local_batch_manifest}
use rsdb.Client.Batch.Exchange.{PushSummary}
use rsdb.Client.Agent.Failure.{Details, Failure, client_error}
use rsdb.Client.Agent.Remote.{
  Remote, path_details, agent_request, cleanup_remote_path, remote_fs_move_request,
  reply_or_failure, expect_moved, expect_removed,
}
use rsdb.Client.Agent.Push.{
  Pushed, staged_remote_transfer_path, or_clean_up, push_staged, push_changed, push_root,
  push_roots, add_summary, is_unchanged,
}
use rsdb.Client.Agent.Verify.{push_failure, ends_details}
use rsdb.Client.Agent.Staged.{
  Action, asked, pushed, IsLogged, is_moved, is_ok, idle, staged, spoiled, over, push_beside,
  move_there, remove, Follows, next, pass_over,
}
use rsdb.Client.Agent.Quiet.{is_unchanged-IsQuiet}
use rsdb.Client.Agent.Stays.{drop-eq-cons, rounds, Stays, Stays-quiet, Stays-if, Stays-bind}

is_ok-map_err : {E F A : Type 0} (f : E → F) (r : Result E A) → is_ok (map_err f r) ≡ is_ok r
is_ok-map_err f (ok a) = refl
is_ok-map_err f (err e) = refl

module _ {S : Type 0} {host : Host S} {remote : Remote S} {log : S → List Action}
    (logged : IsLogged host remote log) (target : Text) where
  moved_of_reply :
      (command : Text) (details : Details) (r : ControlResponse) (s : S)
      → is_ok
          (continue (reply_or_failure remote command target details r) (expect_moved remote) s).0
        ≡ is_moved (ok r)
  moved_of_reply command details (error code message) s = refl
  moved_of_reply command details (fs_move_result result) s = refl
  moved_of_reply command details _ s = refl

  log_of_reply :
      (command : Text) (details : Details) (r : ControlResponse) (s : S)
      → (continue (reply_or_failure remote command target details r) (expect_moved remote) s).1 ≡ s
  log_of_reply command details (error code message) s = refl
  log_of_reply command details (fs_move_result result) s = refl
  log_of_reply command details _ s = refl

  removed_of_reply :
      (command : Text) (details : Details) (r : ControlResponse) (s : S)
      → (continue (reply_or_failure remote command target details r) (expect_removed remote) s).1
        ≡ s
  removed_of_reply command details (error code message) s = refl
  removed_of_reply command details (fs_rm_result result) s = refl
  removed_of_reply command details _ s = refl

  module _ (temp final : Text) (s : S) where
    pub remote_fs_move_request-log :
        log (remote_fs_move_request remote target temp final true s).1
        ≡ asked
            (fs_move temp final true)
            (is_ok (remote_fs_move_request remote target temp final true s).0)
          ∷ log s
    unfolding remote_fs_move_request agent_request
    remote_fs_move_request-log =
        elim (Result-cases (remote.request target (fs_move temp final true) s).0) [
          | inl (c, e) ↦ ground (
            arith,
            e,
            logged.request-log target (fs_move temp final true) s,
            log_of_reply (codes "fs.move") (ends_details temp final) c
                (remote.request target (fs_move temp final true) s).1,
            moved_of_reply (codes "fs.move") (ends_details temp final) c
                (remote.request target (fs_move temp final true) s).1,
          )
          | inr (f, e) ↦ rw e (rw e at (logged.request-log target (fs_move temp final true) s))
        ]

    pub cleanup_remote_path-log :
        log (cleanup_remote_path remote target temp s).1
        ≡ asked
            (fs_rm temp true true true)
            (is_moved (remote.request target (fs_rm temp true true true) s).0)
          ∷ log s
    unfolding cleanup_remote_path agent_request
    cleanup_remote_path-log =
        elim (Result-cases (remote.request target (fs_rm temp true true true) s).0) [
          | inl (c, e) ↦ ground (
            arith,
            e,
            logged.request-log target (fs_rm temp true true true) s,
            removed_of_reply (codes "fs.rm") (path_details temp) c
                (remote.request target (fs_rm temp true true true) s).1,
          )
          | inr (f, e) ↦ ground (arith, e, logged.request-log target (fs_rm temp true true true) s)
        ]

module _ {S : Type 0} {host : Host S} {remote : Remote S} {log : S → List Action}
    (logged : IsLogged host remote log) (target : Text) (manifest : LocalBatchManifest)
    (final_roots : List Text) (if_changed : Bool) (before : List Action) where
  -- With something beside its place that is of no use, the clean-up is the end.
  clean_up-Stays :
      (temp : Text) (failure : Failure) (s : S)
      → Follows manifest final_roots if_changed before (spoiled temp) (log s)
      → Stays log manifest final_roots if_changed before {A = Unit {0}} 0
          (err failure)
          (cleanup_remote_path remote target temp s).1
  clean_up-Stays temp failure s h =
      (over, tt, rw (cleanup_remote_path-log logged target temp [] s) (next h (remove temp _)))

  -- The move, which ended in the state `t`.
  move-Stays :
      (index : ℕ) (temp final : Text) (summary : PushSummary) (r : Result Failure (Unit {0}))
      (s t : S)
      → Follows manifest final_roots if_changed before (staged index temp final) (log s)
      → log t ≡ asked (fs_move temp final true) (is_ok r) ∷ log s
      → Stays log manifest final_roots if_changed before
          (suc index)
          ((or_clean_up host remote target temp (λ s. (r, t)) >> pure summary) s).0
          ((or_clean_up host remote target temp (λ s. (r, t)) >> pure summary) s).1
  move-Stays index temp final summary (ok a) s t h e =
      rw e (next h (move_there index temp final true))
  move-Stays index temp final summary (err f) s t h e =
      clean_up-Stays temp f t (rw e (next h (move_there index temp final false)))

  module _ (source final temp : Text) (nonce index : ℕ) (single : LocalBatchManifest)
      (placed : get_elem? final_roots index ≡ some final)
      (beside : temp ≡ staged_remote_transfer_path nonce final index)
      (part : filter_local_batch_manifest manifest ((index % 2 ^ 32) ∷ []) ≡ ok single) where
    abbrev move_then : PushSummary → Exec S Failure PushSummary
    move_then summary =
        or_clean_up host remote target temp (remote_fs_move_request remote target temp final true)
        >> pure summary

    -- The push, which ended in the state `t`, and what follows.
    push-Stays :
        (r : Result Failure PushSummary) (s t : S)
        → Follows manifest final_roots if_changed before (idle index) (log s)
        → log t ≡ pushed single temp (is_ok r) ∷ log s
        → Stays log manifest final_roots if_changed before
            (suc index)
            ((or_clean_up host remote target temp (λ s. (r, t)) >>= move_then) s).0
            ((or_clean_up host remote target temp (λ s. (r, t)) >>= move_then) s).1
    push-Stays (ok summary) s t h e =
        let (moved, u) = remote_fs_move_request remote target temp final true t in
        move-Stays index temp final summary moved t u
          (rw e (next h (push_beside nonce index final temp single true placed beside part)))
          (remote_fs_move_request-log logged target temp final t)
    push-Stays (err f) s t h e =
        clean_up-Stays temp f t
          (rw e (next h (push_beside nonce index final temp single false placed beside part)))

    push_staged-Stays :
        (s : S)
        → Follows manifest final_roots if_changed before (idle index) (log s)
        → Stays log manifest final_roots if_changed before
            (suc index)
            (push_staged host remote target single source final temp s).0
            (push_staged host remote target single source final temp s).1
    unfolding push_staged
    push_staged-Stays s h =
        let (r, t) =
          map_error (push_failure host remote target (ends_details source final))
            (remote.push target single temp) s in
        push-Stays r s t h (
          logged.push-log target single temp s
          ∙ ap (λ b. pushed single temp b ∷ log s)
              (sym (is_ok-map_err _ (remote.push target single temp s).0)))

  abbrev push_part : Text → Text → ℕ → ℕ → LocalBatchManifest → Exec S Failure (Option PushSummary)
  push_part source final nonce index single =
      push_staged host remote target single source final
        (staged_remote_transfer_path nonce final index)
      >>= (λ summary. pure (some summary))

  push_part-Stays :
      (index nonce : ℕ) (source final : Text) (r : Result Error LocalBatchManifest) (s : S)
      → get_elem? final_roots index ≡ some final
      → filter_local_batch_manifest manifest ((index % 2 ^ 32) ∷ []) ≡ r
      → Follows manifest final_roots if_changed before (idle index) (log s)
      → Stays log manifest final_roots if_changed before
          (suc index)
          ((lift (
                map_err
                  (λ e.
                    push_failure host remote target
                      (ends_details source final)
                      (client_error host e))
                  r)
              >>= push_part source final nonce index)
            s).0
          ((lift (
                map_err
                  (λ e.
                    push_failure host remote target
                      (ends_details source final)
                      (client_error host e))
                  r)
              >>= push_part source final nonce index)
            s).1
  push_part-Stays index nonce source final (err e) s placed part h = (idle index, tt, h)
  push_part-Stays index nonce source final (ok single) s placed part h =
      Stays-bind log manifest final_roots if_changed before (suc index) (suc index)
        (push_staged host remote target single source final
          (staged_remote_transfer_path nonce final index))
        (λ summary. pure (some summary)) s
        (push_staged-Stays source final (staged_remote_transfer_path nonce final index) nonce index
          single placed refl part s h)
        (λ summary t g. g)

  push_changed-Stays :
      (index : ℕ) (source final : Text) (s : S)
      → get_elem? final_roots index ≡ some final
      → Follows manifest final_roots if_changed before (idle index) (log s)
      → Stays log manifest final_roots if_changed before
          (suc index)
          (push_changed host remote target manifest index source final s).0
          (push_changed host remote target manifest index source final s).1
  unfolding push_changed
  push_changed-Stays index source final s placed h =
      push_part-Stays index (host.nonce s) source final
        (filter_local_batch_manifest manifest ((index % 2 ^ 32) ∷ [])) s placed refl h

  -- `changed` is `if_changed`, as the code is given it.
  push_root-Stays :
      (fuel : ℕ) (changed : Bool) (index : ℕ) (source final : Text) (s : S)
      → changed ≡ if_changed
      → get_elem? final_roots index ≡ some final
      → Follows manifest final_roots if_changed before (idle index) (log s)
      → Stays log manifest final_roots if_changed before
          (suc index)
          (push_root host remote target fuel manifest changed index source final s).0
          (push_root host remote target fuel manifest changed index source final s).1
  unfolding push_root
  push_root-Stays fuel true index source final s same placed h =
      Stays-bind log manifest final_roots if_changed before index (suc index)
        (is_unchanged host remote target fuel true source final) _ s
        (Stays-quiet log manifest final_roots if_changed before index _ s
          (is_unchanged-IsQuiet logged target fuel true source final) h)
        (λ unchanged t g.
          Stays-if log manifest final_roots if_changed before (suc index) unchanged (pure none)
            (push_changed host remote target manifest index source final) t (pass_over (sym same) g)
            (push_changed-Stays index source final t placed g))
  push_root-Stays fuel false index source final s same placed h =
      push_changed-Stays index source final s placed h

  pub push_roots-Stays :
      (fuel index : ℕ) (sources finals : List Text) (counts : Pushed) (s : S)
      → drop index final_roots ≡ finals
      → Follows manifest final_roots if_changed before (idle index) (log s)
      → Stays log manifest final_roots if_changed before
          (index + rounds sources finals)
          (push_roots host remote target fuel manifest if_changed index sources finals counts s).0
          (push_roots host remote target fuel manifest if_changed index sources finals counts s).1
  unfolding push_roots
  push_roots-Stays fuel index [] finals counts s rest h =
      let none_left : index + 0 ≡ index = omega arith in rw none_left h
  push_roots-Stays fuel index (source ∷ sources) [] counts s rest h =
      let none_left : index + 0 ≡ index = omega arith in rw none_left h
  push_roots-Stays fuel index (source ∷ sources) (final ∷ finals) counts s rest h =
      let (placed, rest') = drop-eq-cons index final_roots final finals rest in
      let shift : index + suc (rounds sources finals) ≡ index + 1 + rounds sources finals =
        omega arith in
      let one_more : suc index ≡ index + 1 = omega arith in
      rw shift (
        Stays-bind log manifest final_roots if_changed before (suc index)
          (index + 1 + rounds sources finals)
          (push_root host remote target fuel manifest if_changed index source final) _ s
          (push_root-Stays fuel if_changed index source final s refl placed h)
          (λ summary t g.
            push_roots-Stays fuel (index + 1) sources finals
              (add_summary host remote target summary counts) t rest' (rw (← one_more) g)))
