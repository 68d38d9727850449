-- ===== src/Daemon/Session/Delivered.antt =====
-- What a client types reaches the child (the input tasks of device/rsdbd/src/main.rs).
use mathlib.Core.List.{append_assoc, append-nil}
use rsdb.Base.{
  ℕ, zero, suc, Bool, ◌^◌, ◌≤◌, ◌<◌, ◌≡◌, arith, true, false, List, [], ◌∷◌, ◌++◌, ok, length, All,
  concat, ==_iff,
}
use rsdb.Base.Texts.{Bytes}
use rsdb.Proto.Wire.{stdin, stream, max_payload_len}
use rsdb.Proto.Frames.{stream_flags, read_stream_frame_into}
use rsdb.Proto.RoundTrip.{wire, frame_header}
use rsdb.Proto.StreamFrames.{read_stream_frame_into-wire}
use rsdb.Daemon.Session.Input.{ChildStdin, over, feed_stdin, feed_pty, write_pty}
use rsdb.Daemon.Session.Trace.{Sent, wires}

-- The input of a client: a frame for each chunk, and the end mark.
abbrev pub input_frames : List Bytes → List Sent
input_frames [] = record { channel = stdin; eof = true; payload = [] } ∷ []
input_frames (chunk ∷ chunks) =
    record { channel = stdin; eof = false; payload = chunk } ∷ input_frames chunks

abbrev pub IsFrameSized : Bytes → Type 0
IsFrameSized chunk = length chunk ≤ max_payload_len

-- A child's input that keeps everything.
abbrev pub memory_stdin : ChildStdin Bytes
memory_stdin = record {
  write_all = λ bytes sent. (ok tt, sent ++ bytes);
  flush = λ sent. (ok tt, sent);
  shutdown = λ sent. sent;
}

module _ (request_id : ℕ) (small : request_id < 2 ^ 32) (rest : Bytes) where
  read-wires :
      (eof : Bool) (payload : Bytes) (log : List Sent)
      → IsFrameSized payload
      → read_stream_frame_into (
          wires request_id (record { channel = stdin; eof = eof; payload = payload } ∷ log) ++ rest)
        ≡ (
          ok (record { request_id = request_id; channel = stdin; eof = eof }, payload),
          wires request_id log ++ rest,
        )
  read-wires eof payload log h =
      rw
        (append_assoc
          (wire (frame_header stream (stream_flags stdin eof) request_id (length payload)) payload)
          (wires request_id log) rest)
        (read_stream_frame_into-wire request_id stdin eof payload (wires request_id log ++ rest)
          small h)

  feed_stdin-delivers :
      (fuel : ℕ) (chunks : List Bytes) (sent : Bytes)
      → All IsFrameSized chunks
      → length chunks < fuel
      → feed_stdin memory_stdin request_id fuel
          (wires request_id (input_frames chunks) ++ rest)
          sent
        ≡ (over, sent ++ concat chunks)
  unfolding feed_stdin
  feed_stdin-delivers zero chunks sent h n = ground arith
  feed_stdin-delivers (suc fuel) [] sent h n =
      ground
        (arith, read-wires true [] [] (omega arith), ==_iff request_id request_id, append-nil sent)
  feed_stdin-delivers (suc fuel) ([] ∷ chunks) sent (h, hs) n = ground (
    arith,
    read-wires false [] (input_frames chunks) h,
    ==_iff request_id request_id,
    feed_stdin-delivers fuel chunks sent hs (omega arith),
  )
  feed_stdin-delivers (suc fuel) ((b ∷ chunk) ∷ chunks) sent (h, hs) n = ground (
    arith,
    read-wires false (b ∷ chunk) (input_frames chunks) h,
    ==_iff request_id request_id,
    feed_stdin-delivers fuel chunks (sent ++ (b ∷ chunk)) hs (omega arith),
    append_assoc sent (b ∷ chunk) (concat chunks),
  )

  feed_pty-delivers :
      (fuel : ℕ) (chunks : List Bytes) (sent : Bytes)
      → All IsFrameSized chunks
      → length chunks < fuel
      → (feed_pty request_id fuel (wires request_id (input_frames chunks) ++ rest)).0 ≡ over
        × (write_pty memory_stdin.write_all
              (feed_pty request_id fuel (wires request_id (input_frames chunks) ++ rest)).1
              sent
            ≡ sent ++ concat chunks)
  unfolding feed_pty write_pty
  feed_pty-delivers zero chunks sent h n = ground arith
  feed_pty-delivers (suc fuel) [] sent h n =
      ground
        (arith, read-wires true [] [] (omega arith), ==_iff request_id request_id, append-nil sent)
  feed_pty-delivers (suc fuel) ([] ∷ chunks) sent (h, hs) n = ground (
    arith,
    read-wires false [] (input_frames chunks) h,
    ==_iff request_id request_id,
    feed_pty-delivers fuel chunks sent hs (omega arith),
  )
  feed_pty-delivers (suc fuel) ((b ∷ chunk) ∷ chunks) sent (h, hs) n = ground (
    arith,
    read-wires false (b ∷ chunk) (input_frames chunks) h,
    ==_iff request_id request_id,
    feed_pty-delivers fuel chunks (sent ++ (b ∷ chunk)) hs (omega arith),
    append_assoc sent (b ∷ chunk) (concat chunks),
  )

  -- The chunks that a client sends as input frames, of at most 16 MiB each, reach the standard input
  -- of the child in their order where it takes them all, and the task of a piped shell ends with
  -- them; so does a terminal's, with what its pump writes of the task's messages. The fuel is a round
  -- more than there are chunks, and the request id has 32 bits.
  pub input-delivered :
      (fuel : ℕ) (chunks : List Bytes) (sent : Bytes)
      → All IsFrameSized chunks
      → length chunks < fuel
      → (feed_stdin memory_stdin request_id fuel
            (wires request_id (input_frames chunks) ++ rest)
            sent
          ≡ (over, sent ++ concat chunks))
        × ((feed_pty request_id fuel (wires request_id (input_frames chunks) ++ rest)).0 ≡ over)
        × (write_pty memory_stdin.write_all
              (feed_pty request_id fuel (wires request_id (input_frames chunks) ++ rest)).1
              sent
            ≡ sent ++ concat chunks)
  input-delivered fuel chunks sent h n =
      let terminal = feed_pty-delivers fuel chunks sent h n in
      (feed_stdin-delivers fuel chunks sent h n, terminal.0, terminal.1)
