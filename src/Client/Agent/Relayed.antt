-- ===== src/Client/Agent/Relayed.antt =====
-- What `rsdb agent exec --stream` prints of a command's output, from the child's writes over the
-- daemon's loop to the client's (crates/rsdb-cli/src/main.rs, device/rsdbd/src/main.rs).
use rsdb.Base.{
  suc, ◌+◌, ◌-◌, ◌≤◌, true, false, all, ok, ℤ, Bool, Option, some, List, [], ◌∷◌, ◌++◌, map, length,
  length-append, All, ◌≡◌, refl, ap, ◌∙◌, arith,
}
use rsdb.Base.Texts.{Text, Bytes, codes}
use rsdb.Proto.Wire.{StreamChannel, max_payload_len, response}
use rsdb.Proto.Wire
use rsdb.Proto.Io.{memory_writer}
use rsdb.Proto.Messages.{exec_result}
use rsdb.Daemon.Host.{Host, World, Daemon}
use rsdb.Daemon.Transfer.Roots.{is_blank}
use rsdb.Daemon.Session.Process.{ServerState, Processes}
use rsdb.Daemon.Session.Command.{
  ExecRequest, timeout_of, code_or_minus_one, stream_command_output, handle_exec_request,
  or_exec_failed,
}
use rsdb.Daemon.Session.Pump.{OutputEvent, start, is_running}
use rsdb.Daemon.Session.Trace.{
  Sent, wires, stdout_reads, stderr_reads, until_end, on_channel, IsClean, has_end, first_exit,
}
use rsdb.Daemon.Session.Ordered.{
  final, final-IsFinal, sent_log, sent_log-Fits, drive-clean, stdout-sent_log, stderr-sent_log,
}
use rsdb.Client.Batch.Replies.{message_wire, respond-sent}
use rsdb.Client.Batch.Receive.{client_request_id}
use rsdb.Client.Agent.Failure.{Details}
use rsdb.Client.Agent.Exec.{
  AgentEvent, stdout_chunk, stderr_chunk, print_first, Reading, finish, exec_response,
  exec_stream_loop,
}
use rsdb.Client.Agent.Shown.{length-wires, shown, exec_stream_loop-wires, exec_stream_loop-response}

-- The chunks of one stream that are printed.
abbrev pub stdout_chunks : List AgentEvent → List Text
stdout_chunks [] = []
stdout_chunks (stdout_chunk target chunk ∷ events) = chunk ∷ stdout_chunks events
stdout_chunks (event ∷ events) = stdout_chunks events

abbrev pub stderr_chunks : List AgentEvent → List Text
stderr_chunks [] = []
stderr_chunks (stderr_chunk target chunk ∷ events) = chunk ∷ stderr_chunks events
stderr_chunks (event ∷ events) = stderr_chunks events

-- What a child wrote on a stream: its reads up to the end.
abbrev pub written : List Bytes → List Bytes
written [] = []
written ([] ∷ reads) = []
written ((b ∷ read) ∷ reads) = (b ∷ read) ∷ written reads

abbrev payloads : List (Bool × Bytes) → List Bytes
payloads [] = []
payloads ((eof, []) ∷ frames) = payloads frames
payloads ((eof, b ∷ payload) ∷ frames) = (b ∷ payload) ∷ payloads frames

payloads-until_end : (reads : List Bytes) → payloads (until_end reads) ≡ written reads
payloads-until_end [] = refl
payloads-until_end ([] ∷ reads) = refl
payloads-until_end ((b ∷ read) ∷ reads) = ap (λ t. (b ∷ read) ∷ t) (payloads-until_end reads)

or_exec_failed-ok :
    {S : Type 0} (host : Host S) (action : Daemon Bytes S (Unit {0})) (world world' : World Bytes S)
    → action world ≡ (ok tt, world')
    → or_exec_failed host client_request_id action world ≡ (ok tt, world')
or_exec_failed-ok host action world world' e = rw (e, or_exec_failed) (ap (λ r. (ok tt, r.1)) e)

module _ {S : Type 0} (host : Host S) (processes : Processes S) (state : ServerState)
    (exec_request : ExecRequest) (events : List OutputEvent) (code : Option ℤ) (bytes : Bytes) where
  -- What the daemon sends of a command whose output is streamed and ends, as its exit does.
  handle_exec_request-sent :
      (world : World Bytes S)
      → exec_request.stream_output ≡ true
      → all is_blank exec_request.command ≡ false
      → (processes.spawn exec_request.command exec_request.args exec_request.cwd
          (timeout_of exec_request.timeout_secs state.exec_timeout)
          world.fs).0
        ≡ ok events
      → All IsClean events
      → has_end (stdout_reads events) ≡ true
      → has_end (stderr_reads events) ≡ true
      → first_exit events ≡ some code
      → host.responses.to_vec (exec_result (code_or_minus_one code) [] [] false) ≡ some bytes
      → length bytes ≤ max_payload_len
      → world.out ≡ []
      → (handle_exec_request host processes state client_request_id exec_request world).1.out
        ≡ wires client_request_id (sent_log events start) ++ message_wire response bytes
  unfolding handle_exec_request stream_command_output
  handle_exec_request-sent world streamed named spawned clean out error exit v n fresh =
      let secs = timeout_of exec_request.timeout_secs state.exec_timeout in
      let log = sent_log events start in
      let spawn =
        processes.spawn exec_request.command exec_request.args exec_request.cwd secs world.fs in
      let w1 : World Bytes S = record world { fs = spawn.1 } in
      let w2 : World Bytes S = record w1 { out = world.out ++ wires client_request_id log } in
      let pump = final events start in
      let stands = final-IsFinal events start clean in
      let ended : is_running pump ≡ false = ground (arith, stands, out, error, exit) in
      let known : pump.exit_status ≡ some code = stands.exit ∙ exit in
      let run =
        drive-clean client_request_id (codes "failed to wait for exec process") events start w1
          clean in
      let status = exec_result (code_or_minus_one code) [] [] false in
      let w3 : World Bytes S = record w2 { out = w2.out ++ message_wire response bytes } in
      let streams : stream_command_output host processes state client_request_id exec_request world
          ≡ (ok tt, w3) =
        rw (named, spawned, run, ended, known, respond-sent host status bytes w2 v n) in
      rw streamed (
        ap (λ r. r.1.out)
          (or_exec_failed-ok host
            (stream_command_output host processes state client_request_id exec_request) world w3
            streams)
        ∙ ap (λ o. o ++ wires client_request_id log ++ message_wire response bytes) fresh)

module _ (reading : Reading) (target : Text) (response_target : Option Text) (check : Bool)
    (details : Details) where
  stdout_chunks-shown :
      (log : List Sent)
      → stdout_chunks (shown reading target response_target check details log)
        ≡ map reading.lossy (payloads (on_channel Wire.stdout log))
  stdout_chunks-shown [] = refl
  stdout_chunks-shown (f ∷ log) = shown_one f.channel f.eof f.payload (stdout_chunks-shown log)
    where
      shown_one :
          (c : StreamChannel) (eof : Bool) (payload : Bytes)
          → stdout_chunks (shown reading target response_target check details log)
            ≡ map reading.lossy (payloads (on_channel Wire.stdout log))
          → let g : Sent = record { channel = c; eof = eof; payload = payload } in
            stdout_chunks (shown reading target response_target check details (g ∷ log))
            ≡ map reading.lossy (payloads (on_channel Wire.stdout (g ∷ log)))
      shown_one Wire.stdout eof [] ih = ih
      shown_one Wire.stdout eof (b ∷ payload) ih = ap (λ t. reading.lossy (b ∷ payload) ∷ t) ih
      shown_one Wire.stderr eof [] ih = ih
      shown_one Wire.stderr eof (b ∷ payload) ih = ih
      shown_one Wire.stdin eof [] ih = ih
      shown_one Wire.stdin eof (b ∷ payload) ih = ih
      shown_one Wire.file eof [] ih = ih
      shown_one Wire.file eof (b ∷ payload) ih = ih

  stderr_chunks-shown :
      (log : List Sent)
      → stderr_chunks (shown reading target response_target check details log)
        ≡ map reading.lossy (payloads (on_channel Wire.stderr log))
  stderr_chunks-shown [] = refl
  stderr_chunks-shown (f ∷ log) = shown_one f.channel f.eof f.payload (stderr_chunks-shown log)
    where
      shown_one :
          (c : StreamChannel) (eof : Bool) (payload : Bytes)
          → stderr_chunks (shown reading target response_target check details log)
            ≡ map reading.lossy (payloads (on_channel Wire.stderr log))
          → let g : Sent = record { channel = c; eof = eof; payload = payload } in
            stderr_chunks (shown reading target response_target check details (g ∷ log))
            ≡ map reading.lossy (payloads (on_channel Wire.stderr (g ∷ log)))
      shown_one Wire.stdout eof [] ih = ih
      shown_one Wire.stdout eof (b ∷ payload) ih = ih
      shown_one Wire.stderr eof [] ih = ih
      shown_one Wire.stderr eof (b ∷ payload) ih = ap (λ t. reading.lossy (b ∷ payload) ∷ t) ih
      shown_one Wire.stdin eof [] ih = ih
      shown_one Wire.stdin eof (b ∷ payload) ih = ih
      shown_one Wire.file eof [] ih = ih
      shown_one Wire.file eof (b ∷ payload) ih = ih

  -- What `rsdb agent exec --stream` prints, where the daemon handles the request for a command that it
  -- can start, whose reads do not fail and fit in frames, in whatever order they and the exit become
  -- ready before the deadline, and whose two streams and exit come to their end; and where the status
  -- serializes within 16 MiB and is read back by the client. From exactly what the daemon sends, the
  -- client's loop prints one chunk for each read of either stream up to the stream's end, in their
  -- order, and ends with the daemon's status. Each read is decoded on its own, by
  -- `String::from_utf8_lossy`, which keeps no character that falls into two reads. The loop needs no
  -- more rounds than bytes have arrived.
  pub exec_stream_loop-relays :
      {S : Type 0} (host : Host S) (processes : Processes S) (state : ServerState)
      (exec_request : ExecRequest) (events : List OutputEvent) (code : Option ℤ) (bytes : Bytes)
      (world : World Bytes S)
      → exec_request.stream_output ≡ true
      → all is_blank exec_request.command ≡ false
      → (processes.spawn exec_request.command exec_request.args exec_request.cwd
          (timeout_of exec_request.timeout_secs state.exec_timeout)
          world.fs).0
        ≡ ok events
      → All IsClean events
      → has_end (stdout_reads events) ≡ true
      → has_end (stderr_reads events) ≡ true
      → first_exit events ≡ some code
      → host.responses.to_vec (exec_result (code_or_minus_one code) [] [] false) ≡ some bytes
      → reading.responses.from_slice bytes ≡ some (exec_result (code_or_minus_one code) [] [] false)
      → length bytes ≤ max_payload_len
      → world.out ≡ []
      → let inbox =
          (handle_exec_request host processes state client_request_id exec_request world).1.out in
        (printed : List AgentEvent) × (exec_stream_loop reading target response_target check details
            (suc (length inbox))
            inbox
          ≡ print_first printed (
              some (
                finish reading target response_target check details (record {
                  target = response_target;
                  status = code_or_minus_one code;
                  timed_out = false;
                }))))
        × (stdout_chunks printed ≡ map reading.lossy (written (stdout_reads events)))
        × (stderr_chunks printed ≡ map reading.lossy (written (stderr_reads events)))
  unfolding exec_response
  exec_stream_loop-relays host processes state exec_request events code bytes world streamed named
        spawned clean out error exit v reads n fresh =
      let log = sent_log events start in
      let tail = message_wire response bytes in
      let sent =
        handle_exec_request-sent host processes state exec_request events code bytes world streamed
          named spawned clean out error exit v n fresh in
      let left = length (wires client_request_id log ++ tail) - length log in
      let enough : suc (length (wires client_request_id log ++ tail)) ≡ length log + suc left =
        omega (
          arith,
          length-append (wires client_request_id log) tail,
          length-wires client_request_id log,
        ) in
      (
        shown reading target response_target check details log,
        rw (
          sent,
          enough,
          exec_stream_loop-wires reading target response_target check details log (suc left) tail
              (sent_log-Fits events start clean),
          exec_stream_loop-response reading target response_target check details
              (exec_result (code_or_minus_one code) [] [] false) bytes left reads n,
        ),
        stdout_chunks-shown log
            ∙ ap (λ t. map reading.lossy (payloads t)) (stdout-sent_log events start clean)
            ∙ ap (map reading.lossy) (payloads-until_end (stdout_reads events)),
        stderr_chunks-shown log
            ∙ ap (λ t. map reading.lossy (payloads t)) (stderr-sent_log events start clean)
            ∙ ap (map reading.lossy) (payloads-until_end (stderr_reads events)),
      )
