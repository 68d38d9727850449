-- ===== src/Proto/Messages.antt =====
-- The control messages and what they carry (crates/rsdb-proto/src/lib.rs). An integer field is a
-- number; its width is stated where a theorem needs it.
use rsdb.Base.{ℕ, Bool, Option, List, ℤ}
use rsdb.Base.Texts.{Text}

pub record CapabilitySet : Type 0 where
  pub protocol_version : ℕ
  pub transports : List Text
  pub security : List Text
  pub features : List Text

pub data DiscoveryRequest : Type 0 where
  probe : ℕ → DiscoveryRequest

pub record DiscoveryResponse : Type 0 where
  pub nonce : ℕ
  pub server_id : Text
  pub device_name : Text
  pub platform : Text
  pub tcp_port : ℕ
  pub protocol_version : ℕ
  pub features : List Text

pub data ErrorCode : Type 0 where
  invalid_request capability_missing exec_failed exec_start_failed exec_timeout : ErrorCode
  file_transfer_failed not_found fs_not_found fs_permission_denied : ErrorCode
  fs_precondition_failed fs_no_space transfer_interrupted : ErrorCode
  transfer_verification_failed internal : ErrorCode

pub data TransferEntryKind : Type 0 where
  file directory : TransferEntryKind

pub record TransferRoot : Type 0 where
  pub source_name : Text
  pub kind : TransferEntryKind
  pub mode : ℕ

pub record TransferEntry : Type 0 where
  pub root_index : ℕ
  pub relative_path : Text
  pub kind : TransferEntryKind
  pub mode : ℕ
  pub size : ℕ

pub data FsEntryKind : Type 0 where
  file directory symlink other : FsEntryKind

pub data HashAlgorithm : Type 0 where
  sha256 : HashAlgorithm

pub data ContentEncoding : Type 0 where
  utf8 base64 : ContentEncoding

pub record AgentFsStat : Type 0 where
  pub path : Text
  pub exists : Bool
  pub kind : Option FsEntryKind
  pub size : Option ℕ
  pub mode : Option ℕ
  pub mtime_unix_ms : Option ℕ
  pub sha256 : Option Text

pub record AgentFsListEntry : Type 0 where
  pub path : Text
  pub kind : FsEntryKind
  pub size : ℕ
  pub sha256 : Option Text

pub record AgentFsReadResult : Type 0 where
  pub path : Text
  pub encoding : ContentEncoding
  pub content : Text
  pub bytes : ℕ
  pub truncated : Bool

pub record AgentFsWriteResult : Type 0 where
  pub path : Text
  pub bytes_written : ℕ
  pub mode : Option ℕ
  pub sha256 : Option Text
  pub changed : Bool

pub record AgentFsMkdirResult : Type 0 where
  pub path : Text
  pub created : Bool

pub record AgentFsRmResult : Type 0 where
  pub path : Text
  pub removed : Bool

pub record AgentFsMoveResult : Type 0 where
  pub source : Text
  pub destination : Text
  pub overwritten : Bool

-- The fields of each constructor stand in the source's order.
pub data ControlRequest : Type 0 where
  ping get_capabilities : ControlRequest
  exec :
      (command : Text) (args : List Text) (cwd : Option Text) (timeout_secs : Option ℕ)
      (stream : Bool)
      → ControlRequest
  fs_stat : (path : Text) (hash : Option HashAlgorithm) → ControlRequest
  fs_list :
      (path : Text) (recursive : Bool) (max_depth : Option ℕ) (include_hidden : Bool)
      (hash : Option HashAlgorithm)
      → ControlRequest
  fs_read : (path : Text) (encoding : ContentEncoding) (max_bytes : Option ℕ) → ControlRequest
  fs_write :
      (path content : Text) (encoding : ContentEncoding) (mode : Option ℕ)
      (create_parent atomic if_missing : Bool) (if_sha256 : Option Text)
      → ControlRequest
  fs_mkdir : (path : Text) (parents : Bool) (mode : Option ℕ) → ControlRequest
  fs_rm : (path : Text) (recursive force if_exists : Bool) → ControlRequest
  fs_move : (source destination : Text) (overwrite : Bool) → ControlRequest
  push : (path : Text) (mode : ℕ) (source_name : Option Text) → ControlRequest
  pull : (path : Text) → ControlRequest
  push_batch :
      (destination : Text) (roots : List TransferRoot) (entries : List TransferEntry)
      → ControlRequest
  pull_batch : (sources : List Text) → ControlRequest
  shell :
      (command : Option Text) (args : List Text) (pty : Bool) (term : Option Text)
      (rows cols : Option ℕ)
      → ControlRequest

pub data ControlResponse : Type 0 where
  pong : (server_id : Text) (protocol_version : ℕ) → ControlResponse
  capabilities : (server_id : Text) (capability : CapabilitySet) → ControlResponse
  exec_result : (status : ℤ) (stdout stderr : Text) (timed_out : Bool) → ControlResponse
  fs_stat : AgentFsStat → ControlResponse
  fs_list : List AgentFsListEntry → ControlResponse
  fs_read_result : AgentFsReadResult → ControlResponse
  fs_write_result : AgentFsWriteResult → ControlResponse
  fs_mkdir_result : AgentFsMkdirResult → ControlResponse
  fs_rm_result : AgentFsRmResult → ControlResponse
  fs_move_result : AgentFsMoveResult → ControlResponse
  push_ready : ControlResponse
  push_complete : (bytes_written : ℕ) → ControlResponse
  pull_metadata : (size mode : ℕ) → ControlResponse
  pull_complete : (bytes_sent : ℕ) → ControlResponse
  push_batch_ready : ControlResponse
  push_batch_complete : (entries_written bytes_written : ℕ) → ControlResponse
  pull_batch_metadata :
      (roots : List TransferRoot) (entries : List TransferEntry) (total_bytes : ℕ) → ControlResponse
  pull_batch_complete : (entries_sent bytes_sent : ℕ) → ControlResponse
  shell_started : (command : Text) → ControlResponse
  shell_exit : (status : ℤ) → ControlResponse
  error : (code : ErrorCode) (message : Text) → ControlResponse
