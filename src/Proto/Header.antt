-- ===== src/Proto/Header.antt =====
-- The frame header's encoding and its decoder (crates/rsdb-proto/src/lib.rs).
use rsdb.Base.{ℕ, ◌+◌, ◌^◌, ◌≤◌, ◌<◌, ◌≡◌, refl, arith}
use rsdb.Base.{[], ◌∷◌, ◌++◌, ok, length, take, drop, All}
use rsdb.Base.{length-take, length-drop, All-take, All-drop}
use rsdb.Base.Bits.{to_le, from_le, from_le_bound, from_le-to_le, to_le-from_le}
use rsdb.Base.Texts.{Bytes, IsByte, text_eq_iff}
use rsdb.Proto.Wire.{FrameKind, FrameHeader, request, response, event, stream, kind_code}
use rsdb.Proto.Wire.{encode, decode, kind_from_u16, slice, protocol_version}
use rsdb.Proto.Wire.{max_payload_len, magic, header_len}
use rsdb.Base.{◌-◌, sym, ◌∙◌}
use mathlib.Core.List.{append_assoc}

-- What a header holds that this version of the protocol can send.
pub record IsSendable (h : FrameHeader) : Type 0 where
  pub version : h.version ≡ protocol_version
  pub flags : h.flags < 2 ^ 32
  pub request_id : h.request_id < 2 ^ 32
  pub payload_len : h.payload_len ≤ max_payload_len

pub length-encode : (h : FrameHeader) → length (encode h) ≡ header_len
unfolding encode
length-encode h = refl

kind_from_u16-kind_code : (k : FrameKind) → kind_from_u16 (from_le (to_le 2 (kind_code k))) ≡ ok k
unfolding kind_from_u16
kind_from_u16-kind_code request = refl
kind_from_u16-kind_code response = refl
kind_from_u16-kind_code event = refl
kind_from_u16-kind_code stream = refl

-- Decoding the encoding of a sendable header gives the header back.
pub decode-encode : (h : FrameHeader) → IsSendable h → decode (encode h) ≡ ok h
unfolding encode decode
decode-encode h s =
    rw
      (
        kind_from_u16-kind_code h.kind,
        from_le-to_le 2 h.version (omega arith),
        from_le-to_le 4 h.flags s.flags,
        from_le-to_le 4 h.request_id s.request_id,
        from_le-to_le 4 h.payload_len (omega arith),
      )
      (ground arith)

kind_from_u16_ok : (n : ℕ) (k : FrameKind) → kind_from_u16 n ≡ ok k → n ≡ kind_code k
unfolding kind_from_u16
kind_from_u16_ok n k h = ground arith

-- A successful decode, taken apart.
record IsDecoded (bytes : Bytes) (h : FrameHeader) : Type 0 where
  magic : slice 0 4 bytes ≡ magic
  version : from_le (slice 4 6 bytes) ≡ h.version
  kind : from_le (slice 6 8 bytes) ≡ kind_code h.kind
  flags : from_le (slice 8 12 bytes) ≡ h.flags
  request_id : from_le (slice 12 16 bytes) ≡ h.request_id
  payload_len : from_le (slice 16 20 bytes) ≡ h.payload_len
  current : h.version ≡ protocol_version
  small : h.payload_len ≤ max_payload_len

decode-IsDecoded : (bytes : Bytes) (h : FrameHeader) → decode bytes ≡ ok h → IsDecoded bytes h
unfolding decode
decode-IsDecoded bytes h e = ground (
  arith,
  text_eq_iff (slice 0 4 bytes) magic,
  kind_from_u16_ok (from_le (slice 6 8 bytes)) h.kind,
)

-- The first twenty bytes of a header are its fields.
cut_fields :
    (bytes : Bytes)
    → length bytes ≡ header_len
    → slice 0 4 bytes
        ++ (slice 4 6 bytes
            ++ (slice 6 8 bytes ++ (slice 8 12 bytes ++ (slice 12 16 bytes ++ slice 16 20 bytes))))
      ≡ take 20 bytes
cut_fields
      (b0 ∷ b1 ∷ b2 ∷ b3 ∷ b4 ∷ b5 ∷ b6 ∷ b7 ∷ b8 ∷ b9 ∷ b10 ∷ b11 ∷ b12 ∷ b13 ∷ b14 ∷ b15 ∷ b16
        ∷ b17 ∷ b18 ∷ b19 ∷ b20 ∷ b21 ∷ b22 ∷ b23 ∷ [])
      h =
    refl
cut_fields _ h = absurd (omega arith)

length-slice :
    (from to : ℕ) (bytes : Bytes) → to ≤ length bytes → length (slice from to bytes) ≡ to - from
length-slice from to bytes h =
    omega (arith, length-take (to - from) (drop from bytes), length-drop from bytes)

-- Writing back a field that was read gives its bytes.
rewrite_field :
    (from to : ℕ) (bytes : Bytes)
    → All IsByte bytes
    → to ≤ length bytes
    → to_le (to - from) (from_le (slice from to bytes)) ≡ slice from to bytes
rewrite_field from to bytes hb h = rw (length-slice from to bytes h) at (
    to_le-from_le (slice from to bytes)
      (All-take IsByte (to - from) (drop from bytes) (All-drop IsByte from bytes hb)))

-- A field of four bytes is below 2 ^ 32.
field_bound :
    (from : ℕ) (bytes : Bytes)
    → All IsByte bytes
    → length (slice from (from + 4) bytes) ≡ 4
    → from_le (slice from (from + 4) bytes) < 2 ^ 32
field_bound from bytes hb h =
    let bound =
      from_le_bound (slice from (from + 4) bytes)
        (All-take IsByte _ (drop from bytes) (All-drop IsByte from bytes hb)) in
    rw h at bound

-- The layout of `encode`.
layout : Bytes → Bytes → Bytes → Bytes → Bytes → Bytes → Bytes → Bytes
layout m v k f r p z = m ++ (v ++ (k ++ (f ++ (r ++ (p ++ z)))))

module _ (bytes : Bytes) (h : FrameHeader) (n : length bytes ≡ header_len) (b : All IsByte bytes)
    (d : IsDecoded bytes h) where
  field :
      (from to : ℕ)
      → to ≤ header_len
      → to_le (to - from) (from_le (slice from to bytes)) ≡ slice from to bytes
  field from to le = rewrite_field from to bytes b (omega arith)

  encode_fields :
      encode h
      ≡ layout
          (slice 0 4 bytes)
          (slice 4 6 bytes)
          (slice 6 8 bytes)
          (slice 8 12 bytes)
          (slice 12 16 bytes)
          (slice 16 20 bytes)
          (to_le 4 0)
  unfolding encode layout
  encode_fields i =
      layout (sym d.magic i) ((rw d.version at (field 4 6 (omega arith))) i)
        ((rw d.kind at (field 6 8 (omega arith))) i) ((rw d.flags at (field 8 12 (omega arith))) i)
        ((rw d.request_id at (field 12 16 (omega arith))) i)
        ((rw d.payload_len at (field 16 20 (omega arith))) i) (to_le 4 0)

  layout_fields :
      layout
        (slice 0 4 bytes)
        (slice 4 6 bytes)
        (slice 6 8 bytes)
        (slice 8 12 bytes)
        (slice 12 16 bytes)
        (slice 16 20 bytes)
        (to_le 4 0)
      ≡ take 20 bytes ++ to_le 4 0
  unfolding layout
  layout_fields = rw (← cut_fields bytes n) (simp append_assoc)

  decoded-IsSendable : IsSendable h
  decoded-IsSendable = record {
    version = d.current;
    flags = rw d.flags at (field_bound 8 bytes b (length-slice 8 12 bytes (omega arith)));
    request_id =
        rw d.request_id at (field_bound 12 bytes b (length-slice 12 16 bytes (omega arith)));
    payload_len = d.small;
  }

-- When the decoder accepts 24 bytes, it returns a sendable header, whose encoding has the same
-- first twenty bytes and four zero bytes behind them.
pub encode-decode :
    (bytes : Bytes) (h : FrameHeader)
    → length bytes ≡ header_len
    → All IsByte bytes
    → decode bytes ≡ ok h
    → IsSendable h × (encode h ≡ take 20 bytes ++ to_le 4 0)
encode-decode bytes h n b e =
    let d = decode-IsDecoded bytes h e in
    (decoded-IsSendable bytes h n b d, encode_fields bytes h n b d ∙ layout_fields bytes h n b d)
