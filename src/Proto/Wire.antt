-- ===== src/Proto/Wire.antt =====
-- Constants, frame kinds, stream channels, the frame header and the protocol's errors
-- (crates/rsdb-proto/src/lib.rs).
use rsdb.Base.{Option, ℕ, ◌*◌, ◌-◌, ◌^◌, Bool, not, ◌++◌}
use rsdb.Base.{Result, ok, err, ◌>>=◌, ltb, ◌==◌, if◌then◌else◌, take, drop}
use rsdb.Base.Bits.{to_le, from_le}
use rsdb.Base.Texts.{Bytes, codes, text_eq}

abbrev pub magic : Bytes
magic = codes "RSDB"

abbrev pub discovery_magic : Bytes
discovery_magic = codes "RSDBDISC"

abbrev pub protocol_version : ℕ
protocol_version = 2

abbrev pub header_len : ℕ
header_len = 24

abbrev pub max_payload_len : ℕ
max_payload_len = 16 * 1024 * 1024

abbrev pub max_discovery_payload_len : ℕ
max_discovery_payload_len = 16 * 1024

abbrev pub stream_eof_flag : ℕ
stream_eof_flag = 2 ^ 31

abbrev pub stream_channel_mask : ℕ
stream_channel_mask = 0xff

abbrev pub default_stream_chunk_size : ℕ
default_stream_chunk_size = 64 * 1024

pub data FrameKind : Type 0 where
  request response event stream : FrameKind

-- `self.kind as u16`
abbrev pub kind_code : FrameKind → ℕ
kind_code request = 1
kind_code response = 2
kind_code event = 3
kind_code stream = 4

-- `==` of the derived `PartialEq`.
abbrev pub kind_eq : FrameKind → FrameKind → Bool
kind_eq a b = kind_code a == kind_code b

pub data StreamChannel : Type 0 where
  file stdin stdout stderr : StreamChannel

-- `channel as u32`
abbrev pub channel_code : StreamChannel → ℕ
channel_code file = 1
channel_code stdin = 2
channel_code stdout = 3
channel_code stderr = 4

abbrev pub channel_eq : StreamChannel → StreamChannel → Bool
channel_eq a b = channel_code a == channel_code b

-- The kinds of `std::io::Error` that the source names; `other` is any other.
pub data IoErrorKind : Type 0 where
  not_found permission_denied already_exists unexpected_eof broken_pipe connection_reset :
      IoErrorKind
  connection_refused storage_full other : IoErrorKind

-- `std::io::Error`: its kind, and the number of the operating system where there is one.
pub record IoError : Type 0 where
  pub kind : IoErrorKind
  pub raw_os_error : Option ℕ

-- `Io` keeps the error, `Json` nothing: its message comes from serde_json.
pub data ProtocolError : Type 0 where
  io : IoError → ProtocolError
  json : ProtocolError
  invalid_magic : Bytes → ProtocolError
  unsupported_version : ℕ → ProtocolError
  unknown_frame_kind : ℕ → ProtocolError
  unknown_stream_channel : ℕ → ProtocolError
  invalid_discovery_magic : ProtocolError
  payload_too_large : ℕ → ProtocolError
  discovery_payload_too_large : ℕ → ProtocolError
  unexpected_frame_kind : FrameKind → FrameKind → ProtocolError

-- `FrameKind::from_u16`
unfoldable pub kind_from_u16 : ℕ → Result ProtocolError FrameKind
kind_from_u16 value =
    if value == 1
    then ok request
    else if value == 2
    then ok response
    else if value == 3
    then ok event
    else if value == 4
    then ok stream
    else err (unknown_frame_kind value)

-- `StreamChannel::from_u32`
unfoldable pub channel_from_u32 : ℕ → Result ProtocolError StreamChannel
channel_from_u32 value =
    if value == 1
    then ok file
    else if value == 2
    then ok stdin
    else if value == 3
    then ok stdout
    else if value == 4
    then ok stderr
    else err (unknown_stream_channel value)

pub record FrameHeader : Type 0 where
  pub version : ℕ
  pub kind : FrameKind
  pub flags : ℕ
  pub request_id : ℕ
  pub payload_len : ℕ

-- `&bytes[from..to]`
abbrev pub slice : ℕ → ℕ → Bytes → Bytes
slice from to bytes = take (to - from) (drop from bytes)

-- `FrameHeader::encode`: the six fields and four reserved zero bytes, one after the other.
unfoldable pub encode : FrameHeader → Bytes
encode h =
    magic
    ++ (to_le 2 h.version
        ++ (to_le 2 (kind_code h.kind)
            ++ (to_le 4 h.flags ++ (to_le 4 h.request_id ++ (to_le 4 h.payload_len ++ to_le 4 0)))))

-- The last two checks of `FrameHeader::decode`.
abbrev pub check_header : FrameHeader → Result ProtocolError FrameHeader
check_header h =
    if not (h.version == protocol_version)
    then err (unsupported_version h.version)
    else if ltb max_payload_len h.payload_len
    then err (payload_too_large h.payload_len)
    else ok h

-- `FrameHeader::decode`, of 24 bytes.
unfoldable pub decode : Bytes → Result ProtocolError FrameHeader
decode bytes =
    if not (text_eq (slice 0 4 bytes) magic) then err (invalid_magic (slice 0 4 bytes)) else do
      kind ← kind_from_u16 (from_le (slice 6 8 bytes))
      check_header (record {
        version = from_le (slice 4 6 bytes);
        kind = kind;
        flags = from_le (slice 8 12 bytes);
        request_id = from_le (slice 12 16 bytes);
        payload_len = from_le (slice 16 20 bytes);
      })

pub record Frame : Type 0 where
  pub header : FrameHeader
  pub payload : Bytes

pub record StreamFrame : Type 0 where
  pub request_id : ℕ
  pub channel : StreamChannel
  pub eof : Bool
  pub payload : Bytes

pub record StreamFrameHeader : Type 0 where
  pub request_id : ℕ
  pub channel : StreamChannel
  pub eof : Bool
