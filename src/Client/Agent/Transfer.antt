-- ===== src/Client/Agent/Transfer.antt =====
-- `rsdb agent transfer`: agent_transfer_push_command and agent_transfer_pull_command, up to the line
-- that they print (crates/rsdb-cli/src/main.rs). The fuel bounds how deep local directories are nested.
use rsdb.Base.{ℕ, Bool, Option, none, some, List, [], ◌∷◌, ◌++◌, Result, ok, err, map_err}
use rsdb.Base.Exec.{Exec, pure, lift, ◌>>=◌}
use rsdb.Base.Texts.{Text, codes}
use rsdb.Daemon.Host.{Host}
use rsdb.Client.Addresses.{Net}
use rsdb.Client.Failures.{ClientError}
use rsdb.Client.Agent.Failure.{
  Failure, client_bail, invalid_request_failure, require_agent_target, agent_response_target,
}
use rsdb.Client.Agent.Remote.{Remote}
use rsdb.Client.Agent.Verify.{CliTransferVerifyMode}
use rsdb.Client.Agent.Push.{run_agent_transfer_push}
use rsdb.Client.Agent.Pull.{run_agent_transfer_pull}

-- The last element, and those before it.
abbrev split_last : {A : Type 0} → List A → Option (A × List A)
split_last [] = none
split_last (a ∷ rest) = elim (split_last rest) [
  | none ↦ some (a, [])
  | some (last, before) ↦ some (last, a ∷ before)
]

abbrev too_few_paths : Text → ClientError
too_few_paths command =
    client_bail
      (codes "`rsdb " ++ (command ++ codes "` requires at least one source and one destination"))

-- The sources and the destination of the paths on the command line.
unfoldable pub split_sources_and_destination :
    List Text → Text → Result ClientError (List Text × Text)
split_sources_and_destination paths command = elim (split_last paths) [
  | some (destination, source ∷ sources) ↦ ok (source ∷ sources, destination)
  | _ ↦ err (too_few_paths command)
]

pub record AgentTransferPushData : Type 0 where
  pub target : Option Text
  pub skipped : Bool
  pub verification : Option Text
  pub verified : Bool
  pub atomic : Bool

pub record AgentTransferPullData : Type 0 where
  pub target : Option Text
  pub verification : Option Text
  pub verified : Bool

module _ {A I S : Type 0} (net : Net A I) (host : Host S) (remote : Remote S) (fuel : ℕ)
    (target_arg : Option Text) where
  -- The target is checked before the paths.
  abbrev target_and_paths : Text → List Text → Exec S Failure (Text × (List Text × Text))
  target_and_paths command paths = do
    target ← lift (require_agent_target net host target_arg)
    parts ← lift (
        map_err (λ e. invalid_request_failure e.text (some target) [])
          (split_sources_and_destination paths command))
    pure (target, parts)

  unfoldable pub agent_transfer_push_command :
      List Text → Option CliTransferVerifyMode → Bool → Bool → Exec S Failure AgentTransferPushData
  unfolding split_sources_and_destination require_agent_target agent_response_target
      invalid_request_failure run_agent_transfer_push
  agent_transfer_push_command paths verify atomic if_changed = do
    (target, (sources, destination)) ← target_and_paths (codes "agent transfer push") paths
    summary ←
        run_agent_transfer_push host remote target fuel sources destination verify atomic if_changed
    pure (record {
      target = agent_response_target target_arg target;
      skipped = summary.skipped;
      verification = summary.verification;
      verified = summary.verified;
      atomic = atomic;
    })

  unfoldable pub agent_transfer_pull_command :
      List Text → Option CliTransferVerifyMode → Exec S Failure AgentTransferPullData
  unfolding split_sources_and_destination require_agent_target agent_response_target
      invalid_request_failure run_agent_transfer_pull
  agent_transfer_pull_command paths verify = do
    (target, (sources, destination)) ← target_and_paths (codes "agent transfer pull") paths
    summary ← run_agent_transfer_pull host remote target fuel sources destination verify
    pure (record {
      target = agent_response_target target_arg target;
      verification = summary.verification;
      verified = summary.verified;
    })
