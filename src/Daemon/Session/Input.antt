-- ===== src/Daemon/Session/Input.antt =====
-- The client's input: the tasks of handle_pipe_shell and handle_pty_shell that read it from the
-- connection, and start_pty_input_pump (device/rsdbd/src/main.rs). A message of `io::Error::other` is
-- left out, as everywhere.
use rsdb.Base.{
  ℕ, zero, suc, Bool, false, not, none, List, [], ◌∷◌, ◌++◌, Result, ok, err, ◌==◌, if◌then◌else◌,
}
use rsdb.Base.Exec.{Exec}
use rsdb.Base.Texts.{Bytes, is_empty}
use rsdb.Proto.Wire.{
  IoError, other, unexpected_eof, stdin, StreamFrameHeader, channel_eq, ProtocolError, io,
}
use rsdb.Proto.Frames.{read_stream_frame_into}
use rsdb.Daemon.Error.{io_kind_eq}
use rsdb.Daemon.Session.Process.{PtyInput, written, close}

-- The standard input of a child.
pub record ChildStdin (C : Type 0) : Type 0 where
  pub write_all : Bytes → Exec C IoError (Unit {0})
  pub flush : Exec C IoError (Unit {0})
  pub shutdown : C → C

-- How such a task ends: the input is over, the task reports an error, or it goes on.
pub data Turn : Type 0 where
  over : Turn
  failed : ProtocolError → Turn
  goes_on : Turn

-- `std::io::Error::other(..)`
abbrev pub other_error : ProtocolError
other_error = io (record { kind = other; raw_os_error = none })

-- The checks on the header of an input frame.
abbrev pub is_input : ℕ → StreamFrameHeader → Bool
is_input request_id header =
    if not (header.request_id == request_id) then false else channel_eq header.channel stdin

-- Whether the connection was closed.
abbrev pub is_closed : ProtocolError → Bool
is_closed (io e) = io_kind_eq e.kind unexpected_eof
is_closed e = false

module _ {C : Type 0} (child : ChildStdin C) (request_id : ℕ) where
  -- After a frame was written: `if header.eof { shutdown; break; }`
  abbrev after_frame : Bool → C → Turn × C
  after_frame eof c = if eof then (over, child.shutdown c) else (goes_on, c)

  abbrev write_input : Bytes → Bool → C → Turn × C
  write_input payload eof c = elim (child.write_all payload c).0 [
    | err e ↦ (failed (io e), (child.write_all payload c).1)
    | ok done ↦
        let wrote = (child.write_all payload c).1 in
        elim (child.flush wrote).0 [
          | err e ↦ (failed (io e), (child.flush wrote).1)
          | ok done ↦ after_frame eof (child.flush wrote).1
        ]
  ]

  -- One round of the task of `handle_pipe_shell`, over what was read.
  unfoldable pub on_input : Result ProtocolError (StreamFrameHeader × Bytes) → C → Turn × C
  on_input (err e) c = if is_closed e then (over, child.shutdown c) else (failed e, c)
  on_input (ok (header, payload)) c =
      if not (is_input request_id header)
      then (failed other_error, c)
      else if is_empty payload
      then after_frame header.eof c
      else write_input payload header.eof c

  -- The task. Each round takes a frame from the inbox, so its length is fuel enough.
  unfoldable pub feed_stdin : ℕ → Bytes → C → Turn × C
  unfolding on_input
  feed_stdin zero inbox c = (goes_on, c)
  feed_stdin (suc fuel) inbox c =
      let turn = on_input (read_stream_frame_into inbox).0 c in
      let next = feed_stdin fuel (read_stream_frame_into inbox).1 turn.1 in
      elim turn.0 [ over ↦ turn | failed e ↦ turn | goes_on ↦ next ]

module _ (request_id : ℕ) where
  -- `if header.eof { send(PtyInput::Close); break; }`
  abbrev close_at : Bool → Turn × List PtyInput
  close_at eof = if eof then (over, close ∷ []) else (goes_on, [])

  -- One round of the task of `handle_pty_shell`: the messages to the terminal.
  unfoldable pub on_pty_input :
      Result ProtocolError (StreamFrameHeader × Bytes) → Turn × List PtyInput
  on_pty_input (err e) = if is_closed e then (over, close ∷ []) else (failed e, close ∷ [])
  on_pty_input (ok (header, payload)) =
      if not (is_input request_id header)
      then (failed other_error, close ∷ [])
      else if is_empty payload
      then close_at header.eof
      else ((close_at header.eof).0, written payload ∷ (close_at header.eof).1)

  -- The task, as long as the terminal takes its messages.
  unfoldable pub feed_pty : ℕ → Bytes → Turn × List PtyInput
  unfolding on_pty_input
  feed_pty zero inbox = (goes_on, [])
  feed_pty (suc fuel) inbox =
      let turn = on_pty_input (read_stream_frame_into inbox).0 in
      let next = feed_pty fuel (read_stream_frame_into inbox).1 in
      elim turn.0 [ over ↦ turn | failed e ↦ turn | goes_on ↦ (next.0, turn.1 ++ next.1) ]

module _ {C : Type 0} (write_all : Bytes → Exec C IoError (Unit {0})) where
  -- `start_pty_input_pump`: what it writes to the terminal of the messages.
  unfoldable pub write_pty : List PtyInput → C → C
  write_pty [] c = c
  write_pty (written [] ∷ inputs) c = write_pty inputs c
  write_pty (written (b ∷ payload) ∷ inputs) c =
      let next = write_pty inputs (write_all (b ∷ payload) c).1 in
      elim (write_all (b ∷ payload) c).0 [ ok done ↦ next | err e ↦ (write_all (b ∷ payload) c).1 ]
  write_pty (close ∷ inputs) c = c
