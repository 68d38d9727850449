-- ===== src/Client/Batch/Conversation/Setting.antt =====
-- What both conversations run with: a writer, a machine, a server and a disk.
use rsdb.Base.{refl, arith, some, [], ok, err}
use rsdb.Base.Texts.{Text, Bytes, codes}
use rsdb.Proto.Io.{memory_writer}
use rsdb.Proto.Messages.{ControlResponse}
use rsdb.Proto.Frames.{Serde}
use rsdb.Daemon.Buffer.{BufWriter, IsFlushing}
use rsdb.Daemon.Memory.{Memory, memory_host_with, memory_volume_with, missing}
use rsdb.Daemon.Session.Process.{ServerState, Processes}
use rsdb.Client.Batch.Kept.{NeverFails}

-- A writer that passes everything on at once.
abbrev pub direct : BufWriter Bytes Bytes
direct = record {
  with_capacity = λ n sent. sent;
  writer = memory_writer;
  flush = λ sent. (ok tt, sent);
  inner = λ sent. sent;
}

pub direct-IsFlushing : IsFlushing direct
direct-IsFlushing = record {
  taken = λ sent. sent;
  appending = record { takes = λ bytes sent. refl; appends = λ bytes sent. refl };
  starts = λ n sent. refl;
  flushes = λ sent. refl;
  passes = λ sent. refl;
}

-- A machine on which no program can be started.
abbrev pub no_processes : Processes Memory
no_processes = record {
  run = λ command args cwd secs m. (some (err missing), m);
  spawn = λ command args cwd secs m. (err missing, m);
  spawn_shell = λ shell argv home m. (err missing, m);
  openpty = λ winsize m. (err missing, m);
  spawn_pty = λ shell argv home term m. (err missing, m);
  from_utf8_lossy = λ bytes. bytes;
}

abbrev pub server : ServerState
server = record {
  server_id = codes "id";
  device_name = codes "device";
  platform = codes "linux";
  shell_path = codes "/bin/sh";
  home_path = codes "/root";
  exec_timeout = 30;
  tcp_port = 27101;
}

-- Replies are not shown.
abbrev pub unshown : ControlResponse → Text
unshown reply = []

pub memory-NeverFails :
    (responses : Serde ControlResponse)
    → NeverFails (memory_host_with responses) (memory_volume_with responses)
unfolding memory_volume_with
memory-NeverFails responses = record {
  opens = λ o p s. (s.next, refl);
  creates = λ p s. refl;
  create_keeps = λ p q s. refl;
  writes = λ handle p b old s t c. ground arith;
  flushes = λ handle s. refl;
  sets_permissions = λ p mode s. refl;
}
