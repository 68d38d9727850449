-- ===== src/Client/Agent/Quiet.antt =====
-- What only asks questions of the device (crates/rsdb-cli/src/main.rs).
use rsdb.Base.{
  ℕ, zero, suc, Bool, true, false, not, Option, none, some, List, [], ◌∷◌, Result, ok, err,
  if◌then◌else◌,
}
use rsdb.Base.Exec.{Exec, pure, throw, lift, map_error, continue, ◌>>=◌}
use rsdb.Base.Texts.{Text, codes}
use rsdb.Proto.Messages.{
  FsEntryKind, ControlRequest, ControlResponse, HashAlgorithm, AgentFsStat, AgentFsListEntry,
}
use rsdb.Proto.Messages
use rsdb.Daemon.Error.{Error}
use rsdb.Daemon.Host.{Host, Metadata}
use rsdb.Client.States.{StateMap}
use rsdb.Client.Agent.Failure.{Details}
use rsdb.Client.Agent.Local.{
  sha256_local_path, collect_children, collect_local_transfer_state_recursive,
  collect_local_transfer_state, hash_if_file,
}
use rsdb.Client.Agent.Remote.{
  Remote, agent_request, remote_fs_stat_request, remote_fs_list_request,
  collect_remote_transfer_state, path_details, collect_below, expect_stat, expect_list,
}
use rsdb.Client.Agent.Push.{is_unchanged}
use rsdb.Client.Agent.Verify.{
  CliTransferVerifyMode, verify_uses_hash, matches, verify_pushed, verify_if,
}
use rsdb.Client.Agent.Staged.{Action, IsLogged, IsRead, Reads, here, next}

Reads-trans : {a b c : List Action} → Reads a b → Reads b c → Reads a c
Reads-trans h here = h
Reads-trans h (next q moved r g) = next q moved r (Reads-trans h g)

module _ {S : Type 0} (log : S → List Action) where
  pub record IsQuiet {E A : Type 0} (m : Exec S E A) : Type 0 where
    pub at : (s : S) → Reads (log s) (log (m s).1)

module _ {S : Type 0} {log : S → List Action} where
  module _ {E A : Type 0} where
    -- An action that leaves the state alone.
    pub IsQuiet-still : (f : S → Result E A) → IsQuiet log {A = A} (λ s. (f s, s))
    IsQuiet-still f = record { at = λ s. here }

    pub IsQuiet-pure : (a : A) → IsQuiet log {E = E} (pure a)
    IsQuiet-pure a = record { at = λ s. here }

    pub IsQuiet-throw : (e : E) → IsQuiet log {A = A} (throw e)
    IsQuiet-throw e = record { at = λ s. here }

    pub IsQuiet-lift : (r : Result E A) → IsQuiet log (lift r)
    IsQuiet-lift r = record { at = λ s. here }

    pub IsQuiet-if :
        (b : Bool) (m n : Exec S E A)
        → IsQuiet log m
        → IsQuiet log n
        → IsQuiet log (if b then m else n)
    IsQuiet-if true m n hm hn = hm
    IsQuiet-if false m n hm hn = hn

  pub IsQuiet-map_error :
      {E F A : Type 0} (f : E → F) (m : Exec S E A) → IsQuiet log m → IsQuiet log (map_error f m)
  IsQuiet-map_error f m h = record { at = λ s. h.at s }

  module _ {E A B : Type 0} where
    IsQuiet-continue :
        (r : Result E A) (f : A → Exec S E B) (s : S)
        → ((a : A) → IsQuiet log (f a))
        → Reads (log s) (log (continue r f s).1)
    IsQuiet-continue (ok a) f s h = (h a).at s
    IsQuiet-continue (err e) f s h = here

    pub IsQuiet-bind :
        (m : Exec S E A) (f : A → Exec S E B)
        → IsQuiet log m
        → ((a : A) → IsQuiet log (f a))
        → IsQuiet log (m >>= f)
    IsQuiet-bind m f hm hf = record {
      at = λ s. Reads-trans (hm.at s) (IsQuiet-continue (m s).0 f (m s).1 hf);
    }

pub ruleset quiet_rules = (
  IsQuiet-still, IsQuiet-pure, IsQuiet-throw, IsQuiet-lift, IsQuiet-if, IsQuiet-map_error,
  IsQuiet-bind,
)

module _ {S : Type 0} {host : Host S} {remote : Remote S} {log : S → List Action}
    (logged : IsLogged host remote log) where
  open_read-IsQuiet : (path : Text) → IsQuiet log (host.open_read path)
  open_read-IsQuiet path = record { at = λ s. rw (logged.open_read-log path s) here }

  sha256_local_path-IsQuiet : (path : Text) → IsQuiet log (sha256_local_path host path)
  unfolding sha256_local_path
  sha256_local_path-IsQuiet path = search (quiet_rules, open_read-IsQuiet)

  hash_if_file-IsQuiet :
      (b : Bool) (path : Text) (metadata : Metadata)
      → IsQuiet log (hash_if_file host b path metadata)
  hash_if_file-IsQuiet b path metadata = search (quiet_rules, sha256_local_path-IsQuiet)

  collect_children-IsQuiet :
      (collect : Text → Metadata → StateMap → Exec S Error StateMap)
      → ((p : Text) (m : Metadata) (t : StateMap) → IsQuiet log (collect p m t))
      → (children : List Text) (states : StateMap)
      → IsQuiet log (collect_children host collect children states)
  unfolding collect_children
  collect_children-IsQuiet collect h [] states = IsQuiet-pure states
  collect_children-IsQuiet collect h (child ∷ children) states =
      search (quiet_rules, h, collect_children-IsQuiet collect h children)

  collect_local_transfer_state_recursive-IsQuiet :
      (fuel : ℕ) (root : Text) (b : Bool) (p : Text) (m : Metadata) (t : StateMap)
      → IsQuiet log (collect_local_transfer_state_recursive host fuel root b p m t)
  unfolding collect_local_transfer_state_recursive
  collect_local_transfer_state_recursive-IsQuiet zero root b p m t = search quiet_rules
  collect_local_transfer_state_recursive-IsQuiet (suc fuel) root b p m t = search (
    quiet_rules,
    hash_if_file-IsQuiet,
    collect_children-IsQuiet,
    collect_local_transfer_state_recursive-IsQuiet fuel root b,
  )

  pub collect_local_transfer_state-IsQuiet :
      (fuel : ℕ) (root : Text) (b : Bool)
      → IsQuiet log (collect_local_transfer_state host fuel root b)
  unfolding collect_local_transfer_state
  collect_local_transfer_state-IsQuiet fuel root b =
      search (quiet_rules, collect_local_transfer_state_recursive-IsQuiet)

  request-IsQuiet :
      (target : Text) (q : ControlRequest) → IsRead q → IsQuiet log (remote.request target q)
  request-IsQuiet target q r = record {
    at = λ s. rw (logged.request-log target q s) (next q _ r here);
  }

  agent_request-IsQuiet :
      (command target : Text) (q : ControlRequest) (details : Details)
      → IsRead q
      → IsQuiet log (agent_request remote command target q details)
  unfolding agent_request
  agent_request-IsQuiet command target q details r =
      IsQuiet-bind _ _ (IsQuiet-map_error _ _ (request-IsQuiet target q r)) (λ c. IsQuiet-lift _)

  expect_stat-IsQuiet : (c : ControlResponse) → IsQuiet log (expect_stat remote c)
  expect_stat-IsQuiet (Messages.ControlResponse.fs_stat stat) = IsQuiet-pure stat
  expect_stat-IsQuiet _ = IsQuiet-throw _

  expect_list-IsQuiet : (c : ControlResponse) → IsQuiet log (expect_list remote c)
  expect_list-IsQuiet (Messages.ControlResponse.fs_list entries) = IsQuiet-pure entries
  expect_list-IsQuiet _ = IsQuiet-throw _

  pub remote_fs_stat_request-IsQuiet :
      (target path : Text) (hash : Option HashAlgorithm)
      → IsQuiet log (remote_fs_stat_request remote target path hash)
  unfolding remote_fs_stat_request
  remote_fs_stat_request-IsQuiet target path hash =
      IsQuiet-bind _ _
        (agent_request-IsQuiet (codes "fs.stat") target (ControlRequest.fs_stat path hash)
          (path_details path) tt)
        expect_stat-IsQuiet

  remote_fs_list_request-IsQuiet :
      (target path : Text) (hash : Option HashAlgorithm)
      → IsQuiet log (remote_fs_list_request remote target path hash)
  unfolding remote_fs_list_request
  remote_fs_list_request-IsQuiet target path hash =
      IsQuiet-bind _ _
        (agent_request-IsQuiet (codes "fs.list") target
          (ControlRequest.fs_list path true none true hash) (path_details path) tt)
        expect_list-IsQuiet

  collect_below-IsQuiet :
      (target root : Text) (b : Bool) (kind : Option FsEntryKind) (states : StateMap)
      → IsQuiet log (collect_below remote host target root b kind states)
  collect_below-IsQuiet target root b kind states =
      search (quiet_rules, remote_fs_list_request-IsQuiet)

  pub collect_remote_transfer_state-IsQuiet :
      (target root : Text) (b : Bool)
      → IsQuiet log (collect_remote_transfer_state remote host target root b)
  unfolding collect_remote_transfer_state
  collect_remote_transfer_state-IsQuiet target root b =
      search (quiet_rules, remote_fs_stat_request-IsQuiet, collect_below-IsQuiet)

  pub is_unchanged-IsQuiet :
      (target : Text) (fuel : ℕ) (b : Bool) (source final : Text)
      → IsQuiet log (is_unchanged host remote target fuel b source final)
  is_unchanged-IsQuiet target fuel b source final =
      search
        (quiet_rules, collect_local_transfer_state-IsQuiet, collect_remote_transfer_state-IsQuiet)

  verify_pushed-IsQuiet :
      (target : Text) (fuel : ℕ) (mode : CliTransferVerifyMode) (sources finals : List Text)
      → IsQuiet log (verify_pushed host remote target fuel mode sources finals)
  unfolding verify_pushed
  verify_pushed-IsQuiet target fuel mode [] finals = IsQuiet-pure tt
  verify_pushed-IsQuiet target fuel mode (source ∷ sources) [] = IsQuiet-pure tt
  verify_pushed-IsQuiet target fuel mode (source ∷ sources) (final ∷ finals) =
      IsQuiet-bind _ _
        (IsQuiet-map_error _ _
          (collect_local_transfer_state-IsQuiet fuel source (verify_uses_hash mode)))
        (λ expected.
          IsQuiet-bind _ _
            (collect_remote_transfer_state-IsQuiet target final (verify_uses_hash mode))
            (λ actual.
              IsQuiet-if (not (matches expected actual)) _ _ (IsQuiet-throw _)
                (verify_pushed-IsQuiet target fuel mode sources finals)))

  pub verify_if-IsQuiet :
      (target : Text) (fuel : ℕ) (verify : Option CliTransferVerifyMode)
      (sources finals : List Text)
      → IsQuiet log (verify_if host remote target fuel verify sources finals)
  verify_if-IsQuiet target fuel none sources finals = IsQuiet-pure tt
  verify_if-IsQuiet target fuel (some mode) sources finals =
      verify_pushed-IsQuiet target fuel mode sources finals
