-- ===== src/Proto/RoundTrip.antt =====
-- What the frame writers write and what the frame readers make of it
-- (crates/rsdb-proto/src/lib.rs).
use rsdb.Base.{ℕ, ◌%◌, ◌^◌, ◌≤◌, ◌<◌, ◌≡◌, refl, arith, Bool}
use rsdb.Base.{[], ◌++◌, ok, length, le→not_ltb}
use rsdb.Base.{length-append, take-length-append, drop-length-append}
use mathlib.Core.List.{append_assoc}
use rsdb.Base.Texts.{Bytes}
use rsdb.Proto.Wire.{
  FrameKind, stream, StreamChannel, FrameHeader, encode, max_payload_len, protocol_version,
  header_len,
}
use rsdb.Proto.Header.{IsSendable, length-encode, decode-encode}
use rsdb.Proto.Io.{memory_writer, read_exact}
use rsdb.Proto.Frames.{write_frame, write_stream_frame, read_frame_into, read_frame, stream_flags}

read_exact_ok :
    (n : ℕ) (front rest : Bytes)
    → length front ≡ n
    → read_exact n (front ++ rest) ≡ (ok front, rest)
unfolding read_exact
read_exact_ok n front rest h = rw (
  ← h,
  le→not_ltb (length (front ++ rest)) (length front) (omega (arith, length-append front rest)),
  take-length-append,
  drop-length-append,
)

-- What a frame is on the wire.
abbrev pub wire : FrameHeader → Bytes → Bytes
wire header payload = encode header ++ payload

pub read_frame_into-wire :
    (header : FrameHeader) (payload rest : Bytes)
    → IsSendable header
    → length payload ≡ header.payload_len
    → read_frame_into (wire header payload ++ rest) ≡ (ok (header, payload), rest)
unfolding read_frame_into
read_frame_into-wire header payload rest s n = rw (
  append_assoc (encode header) payload rest,
  read_exact_ok header_len (encode header) (payload ++ rest) (length-encode header),
  decode-encode header s,
  read_exact_ok header.payload_len payload rest n,
)

pub small_len :
    (payload : Bytes) → length payload ≤ max_payload_len → length payload % 2 ^ 32 ≡ length payload
small_len payload n = omega arith

-- A header as `write_frame` fills it in.
abbrev pub frame_header : FrameKind → ℕ → ℕ → ℕ → FrameHeader
frame_header kind flags request_id payload_len = record {
  version = protocol_version;
  kind = kind;
  flags = flags;
  request_id = request_id;
  payload_len = payload_len;
}

pub frame_header-IsSendable :
    (kind : FrameKind) (flags request_id payload_len : ℕ)
    → flags < 2 ^ 32
    → request_id < 2 ^ 32
    → payload_len ≤ max_payload_len
    → IsSendable (frame_header kind flags request_id payload_len)
frame_header-IsSendable kind flags request_id payload_len f r p = record {
  version = refl;
  flags = f;
  request_id = r;
  payload_len = p;
}

-- In memory a frame that is not too large is its header and its payload, behind what was there.
pub write_frame-wire :
    (kind : FrameKind) (request_id : ℕ) (payload sent : Bytes)
    → length payload ≤ max_payload_len
    → write_frame kind request_id payload sent
      ≡ (ok tt, sent ++ wire (frame_header kind 0 request_id (length payload)) payload)
unfolding write_frame
write_frame-wire kind request_id payload sent n =
    rw (le→not_ltb max_payload_len (length payload) n, small_len payload n, append_assoc)

pub write_stream_frame-wire :
    (request_id : ℕ) (channel : StreamChannel) (eof : Bool) (payload sent : Bytes)
    → length payload ≤ max_payload_len
    → write_stream_frame request_id channel eof payload sent ≡ (
      ok tt,
      sent
          ++ wire
              (frame_header stream (stream_flags channel eof) request_id (length payload))
              payload,
    )
unfolding write_stream_frame
write_stream_frame-wire request_id channel eof payload sent n =
    rw (le→not_ltb max_payload_len (length payload) n, small_len payload n, append_assoc)

-- Reading what `write_frame` wrote of a payload of at most 16 MiB, under a request id of 32 bits,
-- gives the frame, and leaves what follows it unread.
pub read_frame-write_frame :
    (kind : FrameKind) (request_id : ℕ) (payload rest : Bytes)
    → request_id < 2 ^ 32
    → length payload ≤ max_payload_len
    → read_frame ((write_frame kind request_id payload []).1 ++ rest) ≡ (
      ok (record { header = frame_header kind 0 request_id (length payload); payload = payload }),
      rest,
    )
unfolding read_frame
read_frame-write_frame kind request_id payload rest r n = rw (
  write_frame-wire kind request_id payload [] n,
  read_frame_into-wire (frame_header kind 0 request_id (length payload)) payload rest
      (frame_header-IsSendable kind 0 request_id (length payload) (omega arith) r n) refl,
)
