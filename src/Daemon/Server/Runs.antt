-- ===== src/Daemon/Server/Runs.antt =====
-- Whole connections at concrete requests.
use rsdb.Base.{Option, ◌≡◌, ◌++◌, refl, arith, true, none, some, [], ok, err}
use rsdb.Base.Texts.{Bytes, codes}
use rsdb.Proto.Wire.{request}
use rsdb.Proto.Messages.{
  ControlRequest, ControlResponse, error, ping, get_capabilities, exec, fs_stat, fs_list, fs_read,
  fs_write, fs_mkdir, fs_rm, fs_move, push, pull, push_batch, pull_batch, shell,
}
use rsdb.Proto.Io.{memory_writer}
use rsdb.Proto.Frames.{Serde, IsSerde, write_json_frame}
use rsdb.Daemon.Buffer.{BufWriter}
use rsdb.Daemon.Host.{Host}
use rsdb.Daemon.Memory.{Memory, memory_host_with, empty_memory, missing}
use rsdb.Daemon.Session.Process.{ServerState, Processes}
use rsdb.Daemon.Server.{handle_connection}
use rsdb.Daemon.Server.Replies.{Outcome}
use rsdb.Daemon.Server.Answered.{handle_connection-Outcome}

-- A serde that knows one kind of message: the path of a stat without a hash.
abbrev stat_path : ControlRequest → Option Bytes
stat_path (fs_stat path none) = some path
stat_path _ = none

abbrev stat_serde : Serde ControlRequest
stat_serde = record { to_vec = stat_path; from_slice = λ bytes. some (fs_stat bytes none) }

stat_reads_back :
    (message : ControlRequest) (bytes : Bytes)
    → stat_path message ≡ some bytes
    → some (fs_stat bytes none) ≡ some message
stat_reads_back (fs_stat path none) bytes h = ground arith
stat_reads_back (fs_stat path (some hash)) bytes h = ground arith
stat_reads_back ping bytes h = ground arith
stat_reads_back get_capabilities bytes h = ground arith
stat_reads_back (exec command args cwd timeout_secs stream_output) bytes h = ground arith
stat_reads_back (fs_list path recursive max_depth include_hidden hash) bytes h = ground arith
stat_reads_back (fs_read path encoding max_bytes) bytes h = ground arith
stat_reads_back (fs_write path content encoding mode create_parent atomic if_missing if_sha256)
      bytes h =
    ground arith
stat_reads_back (fs_mkdir path parents mode) bytes h = ground arith
stat_reads_back (fs_rm path recursive force if_exists) bytes h = ground arith
stat_reads_back (fs_move source destination overwrite) bytes h = ground arith
stat_reads_back (push path mode source_name) bytes h = ground arith
stat_reads_back (pull path) bytes h = ground arith
stat_reads_back (push_batch destination roots entries) bytes h = ground arith
stat_reads_back (pull_batch sources) bytes h = ground arith
stat_reads_back (shell command args pty term rows cols) bytes h = ground arith

stat_serde-IsSerde : IsSerde stat_serde
stat_serde-IsSerde = record { reads_back = stat_reads_back }

abbrev direct : BufWriter Bytes Bytes
direct = record {
  with_capacity = λ n sent. sent;
  writer = memory_writer;
  flush = λ sent. (ok tt, sent);
  inner = λ sent. sent;
}

-- A machine on which no program can be started.
abbrev no_processes : Processes Memory
no_processes = record {
  run = λ command args cwd secs m. (some (err missing), m);
  spawn = λ command args cwd secs m. (err missing, m);
  spawn_shell = λ shell argv home m. (err missing, m);
  openpty = λ winsize m. (err missing, m);
  spawn_pty = λ shell argv home term m. (err missing, m);
  from_utf8_lossy = λ bytes. bytes;
}

abbrev server : ServerState
server = record {
  server_id = codes "id";
  device_name = codes "device";
  platform = codes "linux";
  shell_path = codes "/bin/sh";
  home_path = codes "/root";
  exec_timeout = 30;
  tcp_port = 27101;
}

-- Error replies as their texts, as long as they are.
abbrev write_reply : ControlResponse → Option Bytes
write_reply (error code text) = some text
write_reply _ = some []

abbrev text_host : Host Memory
text_host = memory_host_with (record { to_vec = write_reply; from_slice = λ bytes. none })

handle_connection-Outcome_example : Outcome text_host 7 (
    handle_connection direct text_host no_processes server 0 stat_serde true (record {
      inbox = (write_json_frame stat_serde request 7 (fs_stat (codes "/notes") none) []).1 ++ [];
      out = [];
      fs = empty_memory;
    }))
handle_connection-Outcome_example =
    handle_connection-Outcome direct text_host no_processes server 0 stat_serde stat_serde-IsSerde
      (record {
        errors = λ code text short. (text, refl, omega (arith, short));
        pongs = ([], refl, omega arith);
        own = ([], refl, omega arith);
      })
      7 (fs_stat (codes "/notes") none) (codes "/notes") [] empty_memory tt refl (omega arith)
      (omega arith)
