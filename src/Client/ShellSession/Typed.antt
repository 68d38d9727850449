-- ===== src/Client/ShellSession/Typed.antt =====
-- What is typed into `rsdb shell` reaches the child: from the reads of the local input, over the
-- client's loop and the connection, to the daemon's tasks (crates/rsdb-cli/src/main.rs,
-- device/rsdbd/src/main.rs).
use mathlib.Core.List.{append_assoc}
use rsdb.Base.{
  ℕ, ◌≤◌, ◌<◌, ◌≡◌, ap, ◌∙◌, arith, true, false, some, List, [], ◌∷◌, ◌++◌, map, ok, length, All,
  concat,
}
use rsdb.Base.Texts.{Text, Bytes}
use rsdb.Proto.Wire.{FrameKind, IoError, stream, stdin, max_payload_len}
use rsdb.Proto.Messages.{ControlResponse}
use rsdb.Proto.Io.{memory_writer}
use rsdb.Proto.RoundTrip.{wire, frame_header, write_stream_frame-wire}
use rsdb.Proto.Frames.{stream_flags}
use rsdb.Daemon.Host.{Host, World}
use rsdb.Daemon.Session.Input.{over, feed_stdin, feed_pty, write_pty}
use rsdb.Daemon.Session.Trace.{wires, wires-one}
use rsdb.Daemon.Session.Delivered.{input_frames, IsFrameSized, memory_stdin, input-delivered}
use rsdb.Client.Batch.Receive.{client_request_id}
use rsdb.Client.ShellSession.{
  SessionEvent, chunk, running, start_stdin_pump, on_chunk, drive_session,
}

-- A read of the local input: not empty, and within a frame.
abbrev pub IsRead : Bytes → Type 0
IsRead [] = ⊥
IsRead (b ∷ read) = length (b ∷ read) ≤ max_payload_len

-- What the pump sends of these reads and the end of the input, as events of the loop.
abbrev pub typed_events : (IoError → Text) → List Bytes → List SessionEvent
typed_events show_io reads =
    map (λ c. chunk (some c))
      (start_stdin_pump show_io (map (λ read. ok read) reads ++ (ok [] ∷ [])))

IsRead-IsFrameSized : (reads : List Bytes) → All IsRead reads → All IsFrameSized reads
IsRead-IsFrameSized [] h = tt
IsRead-IsFrameSized ([] ∷ reads) (h, hs) = absurd h
IsRead-IsFrameSized ((b ∷ read) ∷ reads) (h, hs) = (h, IsRead-IsFrameSized reads hs)

module _ {S : Type 0} (host : Host S) (show : ControlResponse → Text) (show_kind : FrameKind → Text)
    (show_io : IoError → Text) where
  drive_session-typed :
      (reads : List Bytes) (world : World Bytes S)
      → All IsRead reads
      → drive_session host show show_kind (typed_events show_io reads) true world ≡ (
        ok (running false),
        record world { out = world.out ++ wires client_request_id (input_frames reads) },
      )
  unfolding drive_session on_chunk start_stdin_pump
  drive_session-typed [] world h = rw (
    wires-one client_request_id stdin true [],
    write_stream_frame-wire client_request_id stdin true [] world.out (omega arith),
  )
  drive_session-typed ([] ∷ reads) world (h, hs) = absurd h
  drive_session-typed ((b ∷ read) ∷ reads) world (h, hs) =
      let frame =
        wire (frame_header stream (stream_flags stdin false) client_request_id (length (b ∷ read)))
          (b ∷ read) in
      rw (
        write_stream_frame-wire client_request_id stdin false (b ∷ read) world.out h,
        drive_session-typed reads (record world { out = world.out ++ frame }) hs,
        append_assoc world.out frame (wires client_request_id (input_frames reads)),
      )

  typed_bytes :
      (reads : List Bytes) (world : World Bytes S)
      → All IsRead reads
      → world.out ≡ []
      → (drive_session host show show_kind (typed_events show_io reads) true world).1.out
        ≡ wires client_request_id (input_frames reads)
  typed_bytes reads world h fresh =
      ap (λ r. r.1.out) (drive_session-typed reads world h)
      ∙ ap (λ t. t ++ wires client_request_id (input_frames reads)) fresh

  -- The reads of the local input, none of them empty and each within a frame, with its end after
  -- them: the client's loop sends them over a connection on which nothing was sent yet and closes its
  -- input; what arrives, whatever comes after it, the daemon's task of a piped shell writes to the
  -- standard input of the child, byte for byte and in order, where the child takes it all, and the
  -- task ends; so does a terminal's, with what its pump writes of the task's messages. The fuel is a
  -- round more than there are reads.
  pub typed-delivered :
      (reads : List Bytes) (world : World Bytes S) (fuel : ℕ) (rest : Bytes)
      → All IsRead reads
      → world.out ≡ []
      → length reads < fuel
      → let (turn, world') =
          drive_session host show show_kind (typed_events show_io reads) true world in
        (turn ≡ ok (running false))
        × (feed_stdin memory_stdin client_request_id fuel (world'.out ++ rest) []
            ≡ (over, concat reads))
        × ((feed_pty client_request_id fuel (world'.out ++ rest)).0 ≡ over)
        × (write_pty memory_stdin.write_all
              (feed_pty client_request_id fuel (world'.out ++ rest)).1
              []
            ≡ concat reads)
  typed-delivered reads world fuel rest h fresh enough =
      let (piped, ended, typed) =
        input-delivered client_request_id (omega arith) rest fuel reads []
          (IsRead-IsFrameSized reads h) enough in
      (
        ap (λ r. r.0) (drive_session-typed reads world h),
        rw (typed_bytes reads world h fresh) piped,
        rw (typed_bytes reads world h fresh) ended,
        rw (typed_bytes reads world h fresh) typed,
      )
