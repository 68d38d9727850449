-- ===== src/Client/Agent/Runs.antt =====
-- A staged push and a streamed command at concrete inputs.
use rsdb.Base.{
  suc, ◌≡◌, refl, arith, pos, true, false, Option, none, some, List, [], ◌∷◌, map, length, Result,
  ok, err,
}
use rsdb.Base.Texts.{Text, Bytes, codes}
use rsdb.Proto.Io.{memory_writer}
use rsdb.Proto.Messages.{
  ControlRequest, ControlResponse, internal, AgentFsStat, exec_result, fs_move_result, fs_rm_result,
  error,
}
use rsdb.Proto.Messages
use rsdb.Proto.Frames.{Serde}
use rsdb.Daemon.Host.{Host, World}
use rsdb.Daemon.Memory.{Memory, empty_memory, missing}
use rsdb.Daemon.Session.Pump.{OutputEvent, stdout, stderr, exited}
use rsdb.Daemon.Session.Trace.{stdout_reads, stderr_reads}
use rsdb.Client.Batch.Exchange.{PushSummary}
use rsdb.Client.Failures.{ClientError}
use rsdb.Client.Agent.Failure.{client_bail}
use rsdb.Client.Agent.Remote.{Remote}
use rsdb.Client.Agent.Push.{run_agent_transfer_push}
use rsdb.Daemon.Memory.{memory_host_with}
use rsdb.Daemon.Session.Process.{Processes}
use rsdb.Daemon.Session.Command.{ExecRequest, handle_exec_request}
use rsdb.Client.Batch.Conversation.Setting.{no_processes, server}
use rsdb.Client.Agent.Transfer.{split_sources_and_destination}
use rsdb.Client.Agent.Staged.{Action, asked, pushed, is_moved, IsLogged}
use rsdb.Client.Agent.Proceeds.{Proceeds, run_agent_transfer_push-Proceeds}
use rsdb.Client.Agent.Exec.{AgentEvent, Reading, print_first, finish, exec_stream_loop}
use rsdb.Client.Agent.Relayed.{stdout_chunks, stderr_chunks, written, exec_stream_loop-relays}

abbrev Log : Type 0
Log = List Action

-- A client with one local file, and a device that does what it is asked. The state is the log.
abbrev plain_host : Host Log
plain_host = record {
  symlink_metadata = λ p s. ok (record {
    file_type = Messages.FsEntryKind.file;
    len = 0;
    mode_bits = 0o644;
    mtime_ms = none;
  });
  metadata = λ p s. err missing;
  read_dir = λ p s. ok [];
  canonicalize = λ p s. ok p;
  glob = λ options p s. ok [];
  create_dir_all = λ p s. (ok tt, s);
  create_dir = λ p s. (ok tt, s);
  remove_dir_all = λ p s. (ok tt, s);
  remove_dir = λ p s. (ok tt, s);
  remove_file = λ p s. (ok tt, s);
  rename = λ p q s. (ok tt, s);
  set_permissions = λ p mode s. (ok tt, s);
  open_write = λ o p s. (ok 0, s);
  write_all = λ handle bytes s. (ok tt, s);
  flush = λ handle s. (ok tt, s);
  open_read = λ p s. (ok 0, s);
  reads = λ handle size s. [];
  nonce = λ s. 7;
  sha256 = λ bytes. bytes;
  valid_utf8 = λ bytes. true;
  base64_encode = λ bytes. bytes;
  base64_decode = λ text. ok text;
  show_io = λ e. [];
  show_protocol = λ e. [];
  responses = record { to_vec = λ reply. some []; from_slice = λ bytes. none };
}

abbrev nothing_there : Text → AgentFsStat
nothing_there path = record {
  path = path;
  exists = false;
  kind = none;
  size = none;
  mode = none;
  mtime_unix_ms = none;
  sha256 = none;
}

abbrev reply_to : ControlRequest → Result ClientError ControlResponse
reply_to (Messages.ControlRequest.fs_stat path hash) =
    ok (Messages.ControlResponse.fs_stat (nothing_there path))
reply_to (Messages.fs_move source destination overwrite) =
    ok (fs_move_result (record { source = source; destination = destination; overwritten = false }))
reply_to (Messages.fs_rm path recursive force if_exists) =
    ok (fs_rm_result (record { path = path; removed = true }))
reply_to request = ok (error internal [])

abbrev one_entry : PushSummary
one_entry = record {
  entries_written = 1;
  bytes_written = 0;
  skipped = false;
  verification = none;
  verified = false;
}

abbrev plain_remote : Remote Log
plain_remote = record {
  request = λ target q s. (reply_to q, asked q (is_moved (reply_to q)) ∷ s);
  push = λ target m path s. (ok one_entry, pushed m path true ∷ s);
  pull = λ target sources destination s. (err (client_bail (codes "no pulls")), s);
  show = λ reply. [];
}

plain-IsLogged : IsLogged plain_host plain_remote (λ s. s)
plain-IsLogged = record {
  request-log = λ target q s. refl;
  push-log = λ target m path s. refl;
  open_read-log = λ path s. refl;
}

abbrev notes : List Text
notes = codes "/notes" ∷ []

run_agent_transfer_push-Proceeds_example :
    Proceeds plain_host plain_remote
      (λ s. s)
      (codes "tv:1")
      2
      notes
      (codes "/data/notes")
      false
      []
      (run_agent_transfer_push plain_host plain_remote
        (codes "tv:1")
        2
        notes
        (codes "/data/notes")
        none
        true
        false
        []).0
      (run_agent_transfer_push plain_host plain_remote
        (codes "tv:1")
        2
        notes
        (codes "/data/notes")
        none
        true
        false
        []).1
run_agent_transfer_push-Proceeds_example =
    run_agent_transfer_push-Proceeds plain_host plain_remote (λ s. s) (codes "tv:1") 2 notes
      (codes "/data/notes") false [] plain-IsLogged none true refl

-- A serde that knows one kind of message: a status without output.
abbrev status_bytes : ControlResponse → Option Bytes
status_bytes (exec_result (pos n) [] [] false) = some (n ∷ [])
status_bytes reply = none

abbrev status_of : Bytes → Option ControlResponse
status_of [] = none
status_of (n ∷ rest) = some (exec_result (pos n) [] [] false)

abbrev status_serde : Serde ControlResponse
status_serde = record { to_vec = status_bytes; from_slice = status_of }

abbrev plain_reading : Reading
plain_reading = record {
  responses = status_serde;
  show_protocol = λ e. [];
  lossy = λ bytes. bytes;
  show = λ reply. [];
  show_kind = λ kind. [];
}

abbrev build_events : List OutputEvent
build_events =
    stdout (ok (codes "a"))
    ∷ stderr (ok (codes "x"))
    ∷ exited (ok (some (pos 3)))
    ∷ stdout (ok (codes "bc"))
    ∷ stderr (ok [])
    ∷ stdout (ok [])
    ∷ []

abbrev quiet : World Bytes Memory
quiet = record { inbox = []; out = []; fs = empty_memory }

-- A machine that runs one command.
abbrev build_machine : Processes Memory
build_machine = record no_processes { spawn = λ command args cwd secs m. (ok build_events, m) }

abbrev status_host : Host Memory
status_host = memory_host_with status_serde

abbrev make : ExecRequest
make = record {
  command = codes "make";
  args = [];
  cwd = none;
  timeout_secs = none;
  stream_output = true;
}

abbrev arrived : Bytes
arrived = (handle_exec_request status_host build_machine server 1 make quiet).1.out

exec_stream_loop-relays_example :
    (printed : List AgentEvent) × (exec_stream_loop plain_reading
        (codes "tv:1")
        none
        true
        []
        (suc (length arrived))
        arrived
      ≡ print_first printed (
          some (
            finish plain_reading
              (codes "tv:1")
              none
              true
              []
              (record { target = none; status = pos 3; timed_out = false }))))
    × (stdout_chunks printed ≡ map (λ b. b) (written (stdout_reads build_events)))
    × (stderr_chunks printed ≡ map (λ b. b) (written (stderr_reads build_events)))
exec_stream_loop-relays_example =
    exec_stream_loop-relays plain_reading (codes "tv:1") none true [] status_host build_machine
      server make build_events (some (pos 3)) (3 ∷ []) quiet refl refl refl
      (omega arith, (omega arith, (tt, (omega arith, (omega arith, (omega arith, tt)))))) refl refl
      refl refl refl (omega arith) refl

split-two :
    split_sources_and_destination (codes "a" ∷ codes "b" ∷ codes "/d" ∷ []) (codes "push")
    ≡ ok (codes "a" ∷ codes "b" ∷ [], codes "/d")
unfolding split_sources_and_destination
split-two = refl

split-alone :
    split_sources_and_destination (codes "/d" ∷ []) (codes "push")
    ≡ err (client_bail (codes "`rsdb push` requires at least one source and one destination"))
unfolding split_sources_and_destination
split-alone = refl
