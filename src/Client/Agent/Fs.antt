-- ===== src/Client/Agent/Fs.antt =====
-- `rsdb agent fs`: the commands on files of the device, and what they
-- report (crates/rsdb-cli/src/main.rs). The error of a printing is left out.
use rsdb.Base.{ℕ, ℤ, pos, Bool, Option, none, some, List, [], ◌∷◌, map, Result, ok, err}
use rsdb.Base.Exec.{Exec, pure, lift, ◌>>=◌, ◌>>◌}
use rsdb.Base.Texts.{Text, codes}
use rsdb.Proto.Messages.{
  ControlRequest, ControlResponse, HashAlgorithm, ContentEncoding, utf8, base64, FsEntryKind,
  AgentFsStat, AgentFsListEntry, AgentFsReadResult, AgentFsWriteResult,
}
use rsdb.Proto.Messages
use rsdb.Daemon.Host.{Host}
use rsdb.Client.Addresses.{Net}
use rsdb.Client.Agent.Failure.{Details, Failure, text, require_agent_target, internal_agent_failure}
use rsdb.Client.Agent.Input.{
  Console, parse_mode, parse_optional_mode, read_fs_write_input, encode_local_content,
}
use rsdb.Client.Agent.Remote.{Remote, agent_request, unexpected, path_details}

-- What a command reports of its success.
pub record AgentFsStatData : Type 0 where
  pub exists : Bool
  pub kind : Option FsEntryKind
  pub size : Option ℕ
  pub sha256 : Option Text

pub record AgentFsReadData : Type 0 where
  pub content : Text
  pub bytes : ℕ
  pub truncated : Bool

pub record AgentFsWriteData : Type 0 where
  pub bytes_written : ℕ
  pub sha256 : Option Text
  pub changed : Bool

pub record AgentFsListEntryData : Type 0 where
  pub path : Text
  pub kind : FsEntryKind
  pub size : ℕ
  pub sha256 : Option Text

-- The conversions `From`.
abbrev pub stat_data : AgentFsStat → AgentFsStatData
stat_data stat = record {
  exists = stat.exists;
  kind = stat.kind;
  size = stat.size;
  sha256 = stat.sha256;
}

abbrev pub list_entry_data : AgentFsListEntry → AgentFsListEntryData
list_entry_data entry = record {
  path = entry.path;
  kind = entry.kind;
  size = entry.size;
  sha256 = entry.sha256;
}

abbrev pub read_data : AgentFsReadResult → AgentFsReadData
read_data result = record {
  content = result.content;
  bytes = result.bytes;
  truncated = result.truncated;
}

abbrev pub write_data : AgentFsWriteResult → AgentFsWriteData
write_data result = record {
  bytes_written = result.bytes_written;
  sha256 = result.sha256;
  changed = result.changed;
}

-- The line that is printed and the exit code: `emit_agent_success`, or `emit_agent_failure`.
pub data Envelope (T : Type 0) : Type 0 where
  success : T → Envelope T
  failure : Failure → Envelope T

abbrev pub report : {T : Type 0} → Result Failure T → Envelope T × ℤ
report (ok value) = (success value, pos 0)
report (err e) = (failure e, e.exit_code)

module _ {A I S : Type 0} (net : Net A I) (host : Host S) (remote : Remote S)
    (target_arg : Option Text) where
  -- What all commands do: the target, the request, and its reply where `data` takes it.
  abbrev ask_target :
      {T : Type 0}
      → Text
      → ControlRequest
      → Details
      → (ControlResponse → Option T)
      → Exec S Failure T
  ask_target command request details accept = do
    target ← lift (require_agent_target net host target_arg)
    response ← agent_request remote command target request details
    elim (accept response) [ none ↦ unexpected remote response | some value ↦ pure value ]

  abbrev stat_reply : ControlResponse → Option AgentFsStatData
  stat_reply (Messages.ControlResponse.fs_stat stat) = some (stat_data stat)
  stat_reply other = none

  unfoldable pub agent_fs_stat_command :
      Text → Option HashAlgorithm → Exec S Failure AgentFsStatData
  unfolding require_agent_target agent_request internal_agent_failure
  agent_fs_stat_command path hash =
      ask_target (codes "fs.stat") (ControlRequest.fs_stat path hash) (path_details path) stat_reply

  abbrev list_reply : ControlResponse → Option (List AgentFsListEntryData)
  list_reply (Messages.ControlResponse.fs_list entries) = some (map list_entry_data entries)
  list_reply other = none

  unfoldable pub agent_fs_list_command :
      Text
      → Bool
      → Option ℕ
      → Bool
      → Option HashAlgorithm
      → Exec S Failure (List AgentFsListEntryData)
  unfolding require_agent_target agent_request internal_agent_failure
  agent_fs_list_command path recursive max_depth include_hidden hash =
      ask_target (codes "fs.list")
        (ControlRequest.fs_list path recursive max_depth include_hidden hash) (path_details path)
        list_reply

  abbrev read_reply : ControlResponse → Option AgentFsReadData
  read_reply (Messages.fs_read_result result) = some (read_data result)
  read_reply other = none

  unfoldable pub agent_fs_read_command :
      Text → ContentEncoding → Option ℕ → Exec S Failure AgentFsReadData
  unfolding require_agent_target agent_request internal_agent_failure
  agent_fs_read_command path encoding max_bytes =
      ask_target (codes "fs.read") (ControlRequest.fs_read path encoding max_bytes)
        (path_details path) read_reply

  abbrev mkdir_reply : ControlResponse → Option Bool
  mkdir_reply (Messages.fs_mkdir_result result) = some result.created
  mkdir_reply other = none

  -- The target is checked before the mode.
  unfoldable pub agent_fs_mkdir_command : Text → Bool → Option Text → Exec S Failure Bool
  unfolding require_agent_target agent_request internal_agent_failure parse_mode
  agent_fs_mkdir_command path parents mode = do
    lift (require_agent_target net host target_arg)
    mode' ← lift (parse_optional_mode mode)
    ask_target (codes "fs.mkdir") (Messages.fs_mkdir path parents mode') (path_details path)
        mkdir_reply

  abbrev rm_reply : ControlResponse → Option Bool
  rm_reply (Messages.fs_rm_result result) = some result.removed
  rm_reply other = none

  unfoldable pub agent_fs_rm_command : Text → Bool → Bool → Bool → Exec S Failure Bool
  unfolding require_agent_target agent_request internal_agent_failure
  agent_fs_rm_command path recursive force if_exists =
      ask_target (codes "fs.rm") (Messages.fs_rm path recursive force if_exists) (path_details path)
        rm_reply

  abbrev move_reply : ControlResponse → Option Bool
  move_reply (Messages.fs_move_result result) = some result.overwritten
  move_reply other = none

  unfoldable pub agent_fs_move_command : Text → Text → Bool → Exec S Failure Bool
  unfolding require_agent_target agent_request internal_agent_failure
  agent_fs_move_command source destination overwrite =
      ask_target (codes "fs.move") (Messages.fs_move source destination overwrite)
        ((codes "source", text source) ∷ (codes "destination", text destination) ∷ []) move_reply

  abbrev write_reply : ControlResponse → Option AgentFsWriteData
  write_reply (Messages.fs_write_result result) = some (write_data result)
  write_reply other = none

  -- The target and the mode are checked before anything is read.
  unfoldable pub agent_fs_write_command :
      Console S
      → Text
      → Option Text
      → Bool
      → ContentEncoding
      → Option Text
      → Bool
      → Bool
      → Bool
      → Option Text
      → Exec S Failure AgentFsWriteData
  unfolding require_agent_target agent_request internal_agent_failure parse_mode read_fs_write_input
      encode_local_content
  agent_fs_write_command console path input_file stdin encoding mode create_parent atomic if_missing
        if_sha256 =
      do
        lift (require_agent_target net host target_arg)
        mode' ← lift (parse_optional_mode mode)
        bytes ← read_fs_write_input host console input_file stdin
        content ← lift (encode_local_content host console bytes encoding)
        ask_target (codes "fs.write")
            (Messages.fs_write path content encoding mode' create_parent atomic if_missing
              if_sha256)
            (path_details path) write_reply
