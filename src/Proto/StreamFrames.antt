-- ===== src/Proto/StreamFrames.antt =====
-- Stream frames: the channel and the end mark in the flags (crates/rsdb-proto/src/lib.rs).
use rsdb.Base.{ℕ, ◌^◌, ◌≤◌, ◌<◌, ◌≡◌, refl, arith, Bool, true, false, [], ◌++◌, ok}
use rsdb.Base.{length}
use rsdb.Base.Texts.{Bytes}
use rsdb.Proto.Wire.{
  stream, StreamChannel, file, stdin, stdout, stderr, max_payload_len, channel_from_u32,
}
use rsdb.Proto.Frames.{
  stream_flags, write_stream_frame, read_stream_frame_into, decode_stream_frame_header,
}
use rsdb.Proto.Io.{memory_writer}
use rsdb.Proto.RoundTrip.{
  wire, frame_header, frame_header-IsSendable, read_frame_into-wire, write_stream_frame-wire,
}

pub stream_flags_fit : (channel : StreamChannel) (eof : Bool) → stream_flags channel eof < 2 ^ 32
stream_flags_fit file true = omega arith
stream_flags_fit file false = omega arith
stream_flags_fit stdin true = omega arith
stream_flags_fit stdin false = omega arith
stream_flags_fit stdout true = omega arith
stream_flags_fit stdout false = omega arith
stream_flags_fit stderr true = omega arith
stream_flags_fit stderr false = omega arith

pub decode_stream_flags :
    (channel : StreamChannel) (eof : Bool) (request_id n : ℕ)
    → decode_stream_frame_header (frame_header stream (stream_flags channel eof) request_id n)
      ≡ ok (record { request_id = request_id; channel = channel; eof = eof })
unfolding decode_stream_frame_header channel_from_u32
decode_stream_flags file true request_id n = refl
decode_stream_flags file false request_id n = refl
decode_stream_flags stdin true request_id n = refl
decode_stream_flags stdin false request_id n = refl
decode_stream_flags stdout true request_id n = refl
decode_stream_flags stdout false request_id n = refl
decode_stream_flags stderr true request_id n = refl
decode_stream_flags stderr false request_id n = refl

pub read_stream_frame_into-wire :
    (request_id : ℕ) (channel : StreamChannel) (eof : Bool) (payload rest : Bytes)
    → request_id < 2 ^ 32
    → length payload ≤ max_payload_len
    → read_stream_frame_into (
        wire (frame_header stream (stream_flags channel eof) request_id (length payload)) payload
        ++ rest)
      ≡ (ok (record { request_id = request_id; channel = channel; eof = eof }, payload), rest)
unfolding read_stream_frame_into
read_stream_frame_into-wire request_id channel eof payload rest r n =
    let flags = stream_flags channel eof in
    rw (
      read_frame_into-wire (frame_header stream flags request_id (length payload)) payload rest
          (frame_header-IsSendable stream flags request_id (length payload)
            (stream_flags_fit channel eof) r n)
          refl,
      decode_stream_flags channel eof request_id (length payload),
    )

-- Reading what `write_stream_frame` wrote of a payload of at most 16 MiB, under a request id of 32
-- bits, gives the request id, the channel, the end mark and the payload, and leaves what follows the
-- frame unread.
pub read_stream_frame_into-write_stream_frame :
    (request_id : ℕ) (channel : StreamChannel) (eof : Bool) (payload rest : Bytes)
    → request_id < 2 ^ 32
    → length payload ≤ max_payload_len
    → read_stream_frame_into ((write_stream_frame request_id channel eof payload []).1 ++ rest)
      ≡ (ok (record { request_id = request_id; channel = channel; eof = eof }, payload), rest)
read_stream_frame_into-write_stream_frame request_id channel eof payload rest r n =
    rw (write_stream_frame-wire request_id channel eof payload [] n)
      (read_stream_frame_into-wire request_id channel eof payload rest r n)
