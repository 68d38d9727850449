-- ===== src/Proto/Runs.antt =====
-- Concrete runs of the frame codec, and the theorems about it at concrete inputs.
use rsdb.Base.{◌+◌, ◌≡◌, refl, arith, true, [], ◌∷◌, ◌++◌, ok, err, some, length, take, and_then}
use rsdb.Base.Bits.{to_le}
use rsdb.Base.Texts.{Bytes, codes}
use rsdb.Proto.Wire.{
  unexpected_frame_kind, FrameHeader, request, response, event, file, kind_from_u16, encode, decode,
  io, unsupported_version, header_len,
}
use rsdb.Proto.Header.{IsSendable, decode-encode, encode-decode}
use rsdb.Proto.Io.{memory_writer, read_exact, eof_error}
use rsdb.Proto.Frames.{
  Serde, IsSerde, write_frame, write_stream_frame, write_json_frame, read_frame_into, read_frame,
  read_stream_frame_into, decode_json, encode_discovery_message, decode_discovery_message,
}
use rsdb.Proto.RoundTrip.{wire, frame_header, read_frame-write_frame}
use rsdb.Proto.StreamFrames.{read_stream_frame_into-write_stream_frame}
use rsdb.Proto.Failures.{read_frame_into_ok, read_frame_truncated}
use rsdb.Proto.Json.{
  decode_json_other_kind, decode_json-write_json_frame, decode-encode_discovery_message,
}

abbrev header : FrameHeader
header = frame_header request 7 41 128

header-IsSendable : IsSendable header
header-IsSendable = omega arith

decode-encode_example : decode (encode header) ≡ ok header
decode-encode_example = decode-encode header header-IsSendable

abbrev header_bytes : Bytes
header_bytes =
    codes "RSDB"
    ++ (2 ∷ 0 ∷ 1 ∷ 0 ∷ 7 ∷ 0 ∷ 0 ∷ 0 ∷ 41 ∷ 0 ∷ 0 ∷ 0 ∷ 128 ∷ 0 ∷ 0 ∷ 0 ∷ 9 ∷ 9 ∷ 9 ∷ 9 ∷ [])

decode-header_bytes : decode header_bytes ≡ ok header
unfolding decode kind_from_u16
decode-header_bytes = refl

encode-decode_example : IsSendable header × (encode header ≡ take 20 header_bytes ++ to_le 4 0)
encode-decode_example = encode-decode header_bytes header refl (omega arith) decode-header_bytes

wrong_version : decode (encode (record header { version = 1 })) ≡ err (unsupported_version 1)
unfolding decode encode kind_from_u16
wrong_version = refl

read_frame-write_frame_example :
    read_frame ((write_frame response 3 (codes "hi") []).1 ++ (1 ∷ []))
    ≡ (ok (record { header = frame_header response 0 3 2; payload = codes "hi" }), 1 ∷ [])
read_frame-write_frame_example =
    read_frame-write_frame response 3 (codes "hi") (1 ∷ []) (omega arith) (omega arith)

read_stream_frame_into-write_stream_frame_example :
    read_stream_frame_into ((write_stream_frame 5 file true (codes "chunk-data") []).1 ++ [])
    ≡ (ok (record { request_id = 5; channel = file; eof = true }, codes "chunk-data"), [])
read_stream_frame_into-write_stream_frame_example =
    read_stream_frame_into-write_stream_frame 5 file true (codes "chunk-data") [] (omega arith)
      (omega arith)

abbrev short_header : FrameHeader
short_header = frame_header event 0 1 2

abbrev short_input : Bytes
short_input =
    codes "RSDB"
    ++ (2 ∷ 0 ∷ 3 ∷ 0 ∷ 0 ∷ 0 ∷ 0 ∷ 0 ∷ 1 ∷ 0 ∷ 0 ∷ 0 ∷ 2 ∷ 0 ∷ 0 ∷ 0 ∷ 0 ∷ 0 ∷ 0 ∷ 0 ∷ 65 ∷ 66 ∷ 67
        ∷ [])

read_short_input : read_frame_into short_input ≡ (ok (short_header, 65 ∷ 66 ∷ []), 67 ∷ [])
unfolding read_frame_into read_exact decode kind_from_u16
read_short_input = refl

read_frame_into_ok_example :
    IsSendable short_header
    × (2 ≡ short_header.payload_len)
    × (length short_input ≡ header_len + 2 + 1)
    × (short_input ≡ take header_len short_input ++ (65 ∷ 66 ∷ 67 ∷ []))
read_frame_into_ok_example =
    read_frame_into_ok short_input (67 ∷ []) (65 ∷ 66 ∷ []) short_header (omega arith)
      read_short_input

short_wire : wire short_header (65 ∷ 66 ∷ []) ≡ take 25 short_input ++ (66 ∷ [])
unfolding encode
short_wire = refl

read_frame_truncated_example : read_frame (take 25 short_input) ≡ (err (io eof_error), [])
read_frame_truncated_example =
    read_frame_truncated short_header (65 ∷ 66 ∷ []) (take 25 short_input) (66 ∷ []) (omega arith)
      refl short_wire (omega arith)

-- Byte strings as messages of their own.
abbrev raw_serde : Serde Bytes
raw_serde = record { to_vec = λ message. some message; from_slice = λ bytes. some bytes }

raw_serde-IsSerde : IsSerde raw_serde
raw_serde-IsSerde = record { reads_back = λ message bytes h. ground arith }

decode_json-write_json_frame_example :
    (read_frame ((write_json_frame raw_serde request 9 (codes "{}") []).1 ++ [])
      ≡ (ok (record { header = frame_header request 0 9 2; payload = codes "{}" }), []))
    × (decode_json raw_serde
          (record { header = frame_header request 0 9 2; payload = codes "{}" })
          request
        ≡ ok (codes "{}"))
decode_json-write_json_frame_example =
    decode_json-write_json_frame raw_serde raw_serde-IsSerde request 9 (codes "{}") (codes "{}") []
      refl (omega arith) (omega arith)

decode-encode_discovery_message_example :
    and_then
      (encode_discovery_message raw_serde (codes "probe"))
      (decode_discovery_message raw_serde)
    ≡ ok (codes "probe")
decode-encode_discovery_message_example =
    decode-encode_discovery_message raw_serde raw_serde-IsSerde (codes "probe") (codes "probe") refl
      (omega arith)

decode_probe : decode_discovery_message raw_serde (codes "RSDBDISCprobe") ≡ ok (codes "probe")
unfolding decode_discovery_message
decode_probe = refl

decode_json_other_kind_example :
    decode_json raw_serde
      (record { header = frame_header event 0 9 2; payload = codes "{}" })
      request
    ≡ err (unexpected_frame_kind request event)
decode_json_other_kind_example =
    decode_json_other_kind raw_serde
      (record { header = frame_header event 0 9 2; payload = codes "{}" }) request refl
