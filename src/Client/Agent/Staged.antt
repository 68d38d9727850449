-- ===== src/Client/Agent/Staged.antt =====
-- How a staged push proceeds (crates/rsdb-cli/src/main.rs): the operations on the device, one after
-- the other, as the steps of a machine with four phases.
use rsdb.Base.{
  ℕ, suc, ◌%◌, ◌^◌, Bool, true, false, some, List, [], ◌∷◌, get_elem?, Result, ok, err, ◌≡◌,
}
use rsdb.Base.Texts.{Text}
use rsdb.Proto.Messages.{
  ControlRequest, ControlResponse, fs_stat, fs_list, fs_rm, fs_move, fs_move_result,
}
use rsdb.Daemon.Host.{Host}
use rsdb.Client.Failures.{ClientError}
use rsdb.Client.Batch.Manifest.{LocalBatchManifest, filter_local_batch_manifest}
use rsdb.Client.Agent.Remote.{Remote}
use rsdb.Client.Agent.Push.{staged_remote_transfer_path}

-- What was asked of the device, and whether the reply was that something was moved; what was pushed
-- to which path, and whether that succeeded.
pub data Action : Type 0 where
  asked : ControlRequest → Bool → Action
  pushed : LocalBatchManifest → Text → Bool → Action

-- The reply that a file was moved.
abbrev pub is_moved : Result ClientError ControlResponse → Bool
is_moved (ok (fs_move_result result)) = true
is_moved (ok response) = false
is_moved (err e) = false

abbrev pub is_ok : {E A : Type 0} → Result E A → Bool
is_ok (ok a) = true
is_ok (err e) = false

-- A record of what is done on the device, the newest first: each request and each push is put on
-- it, and opening a local file for reading leaves it alone.
pub record IsLogged {S : Type 0} (host : Host S) (remote : Remote S) (log : S → List Action)
    : Type 0 where
  pub request-log :
      (target : Text) (q : ControlRequest) (s : S)
      → log (remote.request target q s).1 ≡ asked q (is_moved (remote.request target q s).0) ∷ log s
  pub push-log :
      (target : Text) (m : LocalBatchManifest) (path : Text) (s : S)
      → log (remote.push target m path s).1
        ≡ pushed m path (is_ok (remote.push target m path s).0) ∷ log s
  pub open_read-log : (path : Text) (s : S) → log (host.open_read path s).1 ≡ log s

-- Between two roots, with so many of them done; with a root beside its place, still to be moved; with
-- something beside its place that is of no use; and over.
pub data Phase : Type 0 where
  idle : ℕ → Phase
  staged : ℕ → Text → Text → Phase
  spoiled : Text → Phase
  over : Phase

abbrev pub IsRead : ControlRequest → Type 0
IsRead (fs_stat path hash) = Unit
IsRead (fs_list path recursive max_depth include_hidden hash) = Unit
IsRead request = ⊥

abbrev pub after_push : ℕ → Text → Text → Bool → Phase
after_push index temp final true = staged index temp final
after_push index temp final false = spoiled temp

abbrev pub after_move : ℕ → Text → Bool → Phase
after_move index temp true = idle (suc index)
after_move index temp false = spoiled temp

-- Only questions were asked in between.
pub data Reads (before : List Action) : List Action → Type 0 where
  here : Reads before before
  next :
      {log : List Action} (q : ControlRequest) (moved : Bool)
      → IsRead q
      → Reads before log
      → Reads before (asked q moved ∷ log)

module _ (manifest : LocalBatchManifest) (final_roots : List Text) (if_changed : Bool) where
  -- A push of the next root goes to its staging path; only what was pushed is moved, and onto that
  -- root; what is of no use is removed.
  pub data Step : Phase → Action → Phase → Type 0 where
    look :
        (k : ℕ) (q : ControlRequest) (moved : Bool)
        → IsRead q
        → Step (idle k) (asked q moved) (idle k)
    push_beside :
        (nonce index : ℕ) (final temp : Text) (single : LocalBatchManifest) (complete : Bool)
        → get_elem? final_roots index ≡ some final
        → temp ≡ staged_remote_transfer_path nonce final index
        → filter_local_batch_manifest manifest ((index % 2 ^ 32) ∷ []) ≡ ok single
        → Step (idle index) (pushed single temp complete) (after_push index temp final complete)
    move_there :
        (index : ℕ) (temp final : Text) (moved : Bool)
        → Step
            (staged index temp final)
            (asked (fs_move temp final true) moved)
            (after_move index temp moved)
    remove :
        (temp : Text) (moved : Bool)
        → Step (spoiled temp) (asked (fs_rm temp true true true) moved) over

  -- The phase after the actions of a log that are newer than `before`. A root is done when it was
  -- moved to its place, or with `if_changed` when it was passed over.
  pub data Follows (before : List Action) : Phase → List Action → Type 0 where
    here : Follows before (idle 0) before
    next :
        {p q : Phase} {a : Action} {log : List Action}
        → Follows before p log
        → Step p a q
        → Follows before q (a ∷ log)
    pass_over :
        {k : ℕ} {log : List Action}
        → if_changed ≡ true
        → Follows before (idle k) log
        → Follows before (idle (suc k)) log
