-- ===== src/Proto/Frames.antt =====
-- Reading and writing frames, JSON messages and discovery datagrams
-- (crates/rsdb-proto/src/lib.rs). `serde_json` is the interface `Serde`.
use Prim.Native.Nat.{bit_and, bit_or}
use rsdb.Base.{ℕ, ◌%◌, ◌^◌, Bool, true, false, not, ◌||◌, Option, none, some, ◌++◌}
use rsdb.Base.{Result, ok, err, length, take, drop, ltb, ◌==◌, if◌then◌else◌}
use rsdb.Base.{and_then, ◌≡◌}
use rsdb.Base.Exec.{Exec, pure, throw, lift, map_error, ◌>>=◌, ◌>>◌}
use rsdb.Base.Texts.{Bytes, text_eq}
use rsdb.Proto.Wire.{
  FrameKind, stream, StreamChannel, FrameHeader, Frame, StreamFrame, StreamFrameHeader,
  ProtocolError, io, json, payload_too_large, invalid_discovery_magic, discovery_payload_too_large,
  unexpected_frame_kind, encode, decode, channel_from_u32, kind_eq, channel_code, protocol_version,
  header_len, max_payload_len, max_discovery_payload_len, discovery_magic, stream_eof_flag,
  stream_channel_mask,
}
use rsdb.Proto.Io.{AsyncWrite, read_exact}

-- serde's `to_vec` and `from_slice` of a message type.
pub record Serde (T : Type 0) : Type 0 where
  pub to_vec : T → Option Bytes
  pub from_slice : Bytes → Option T

-- serde_json reads back what it wrote.
pub record IsSerde {T : Type 0} (s : Serde T) : Type 0 where
  pub reads_back :
      (message : T) (bytes : Bytes)
      → s.to_vec message ≡ some bytes
      → s.from_slice bytes ≡ some message

-- A `serde_json::Error` as a protocol error.
abbrev pub or_json : {A : Type 0} → Option A → Result ProtocolError A
or_json none = err json
or_json (some a) = ok a

-- `let mut flags = channel as u32; if eof { flags |= STREAM_EOF_FLAG; }`
abbrev pub stream_flags : StreamChannel → Bool → ℕ
stream_flags channel true = bit_or (channel_code channel) stream_eof_flag
stream_flags channel false = channel_code channel

module _ {W : Type 0} ⦃w : AsyncWrite W⦄ where
  -- The header and then the payload, each by one `write_all`.
  abbrev pub write_parts : FrameHeader → Bytes → Exec W ProtocolError (Unit {0})
  write_parts header payload = do
    map_error io (w.write_all (encode header))
    map_error io (w.write_all payload)

  unfoldable pub write_frame : FrameKind → ℕ → Bytes → Exec W ProtocolError (Unit {0})
  write_frame kind request_id payload =
      if ltb max_payload_len (length payload)
      then throw (payload_too_large (length payload))
      else write_parts
          (record {
            version = protocol_version;
            kind = kind;
            flags = 0;
            request_id = request_id;
            payload_len = length payload % 2 ^ 32;
          })
          payload

  unfoldable pub write_stream_frame :
      ℕ → StreamChannel → Bool → Bytes → Exec W ProtocolError (Unit {0})
  write_stream_frame request_id channel eof payload =
      if ltb max_payload_len (length payload)
      then throw (payload_too_large (length payload))
      else write_parts
          (record {
            version = protocol_version;
            kind = stream;
            flags = stream_flags channel eof;
            request_id = request_id;
            payload_len = length payload % 2 ^ 32;
          })
          payload

  unfoldable pub write_json_frame :
      {T : Type 0} → Serde T → FrameKind → ℕ → T → Exec W ProtocolError (Unit {0})
  write_json_frame s kind request_id message = do
    payload ← lift (or_json (s.to_vec message))
    write_frame kind request_id payload

-- The header, and the payload buffer as the read leaves it.
unfoldable pub read_frame_into : Exec Bytes ProtocolError (FrameHeader × Bytes)
read_frame_into = do
  header_bytes ← map_error io (read_exact header_len)
  header ← lift (decode header_bytes)
  payload ← map_error io (read_exact header.payload_len)
  pure (header, payload)

unfoldable pub read_frame : Exec Bytes ProtocolError Frame
unfolding read_frame_into
read_frame = do
  (header, payload) ← read_frame_into
  pure (record { header = header; payload = payload })

unfoldable pub decode_stream_frame_header : FrameHeader → Result ProtocolError StreamFrameHeader
decode_stream_frame_header header =
    if not (kind_eq header.kind stream)
    then err (unexpected_frame_kind stream header.kind)
    else and_then (channel_from_u32 (bit_and header.flags stream_channel_mask)) λ channel.
      ok (record {
        request_id = header.request_id;
        channel = channel;
        eof = not (bit_and header.flags stream_eof_flag == 0);
      })

unfoldable pub read_stream_frame_into : Exec Bytes ProtocolError (StreamFrameHeader × Bytes)
unfolding read_frame_into decode_stream_frame_header
read_stream_frame_into = do
  (header, payload) ← read_frame_into
  stream_header ← lift (decode_stream_frame_header header)
  pure (stream_header, payload)

unfoldable pub decode_stream_frame : Frame → Result ProtocolError StreamFrame
unfolding decode_stream_frame_header
decode_stream_frame frame = and_then (decode_stream_frame_header frame.header) λ header.
    ok (record {
      request_id = header.request_id;
      channel = header.channel;
      eof = header.eof;
      payload = frame.payload;
    })

module _ {T : Type 0} (s : Serde T) where
  unfoldable pub decode_json_payload : FrameHeader → Bytes → FrameKind → Result ProtocolError T
  decode_json_payload header payload expected_kind =
      if not (kind_eq header.kind expected_kind)
      then err (unexpected_frame_kind expected_kind header.kind)
      else or_json (s.from_slice payload)

  unfoldable pub decode_json : Frame → FrameKind → Result ProtocolError T
  unfolding decode_json_payload
  decode_json frame expected_kind = decode_json_payload frame.header frame.payload expected_kind

  -- `encode_discovery_message` after `to_vec`.
  abbrev discovery_message : Bytes → Result ProtocolError Bytes
  discovery_message payload =
      if ltb max_discovery_payload_len (length payload)
      then err (discovery_payload_too_large (length payload))
      else ok (discovery_magic ++ payload)

  unfoldable pub encode_discovery_message : T → Result ProtocolError Bytes
  encode_discovery_message message = and_then (or_json (s.to_vec message)) discovery_message

  unfoldable pub decode_discovery_message : Bytes → Result ProtocolError T
  decode_discovery_message bytes =
      if ltb (length bytes) (length discovery_magic)
        || not (text_eq (take (length discovery_magic) bytes) discovery_magic)
      then err invalid_discovery_magic
      else let payload = drop (length discovery_magic) bytes in
        if ltb max_discovery_payload_len (length payload)
        then err (discovery_payload_too_large (length payload))
        else or_json (s.from_slice payload)
