-- ===== src/Proto/Failures.antt =====
-- The error paths of the frame readers and writers (crates/rsdb-proto/src/lib.rs).
use rsdb.Base.{Result-cases, ℕ, ◌+◌, ◌≤◌, ◌<◌, ◌≡◌, sym, ap, ◌∙◌, arith, [], ◌++◌}
use rsdb.Base.{ok, err, length, take, drop, ltb, All, length-take, length-drop}
use rsdb.Base.{take-append-drop, take-append_le, lt→ltb, le→not_ltb, All-take, Bool-cases, inl, inr}
use rsdb.Base.{take-length-append}
use rsdb.Base.Texts.{Bytes, IsByte}
use rsdb.Proto.Wire.{StreamFrameHeader, FrameHeader, io, encode, decode, header_len}
use rsdb.Proto.Header.{IsSendable, decode-encode, encode-decode, length-encode}
use rsdb.Proto.Io.{memory_writer, read_exact, eof_error}
use rsdb.Proto.Frames.{read_stream_frame_into, read_frame_into, read_frame}
use rsdb.Proto.RoundTrip.{wire}

read_exact_short :
    (n : ℕ) (input : Bytes) → length input < n → read_exact n input ≡ (err eof_error, [])
unfolding read_exact
read_exact_short n input h = rw (lt→ltb (length input) n h)

read_exact_long :
    (n : ℕ) (input : Bytes)
    → n ≤ length input
    → read_exact n input ≡ (ok (take n input), drop n input)
unfolding read_exact
read_exact_long n input h = rw (le→not_ltb (length input) n h)

-- A successful frame read, taken apart.
record IsRead (input rest payload : Bytes) (header : FrameHeader) : Type 0 where
  long : header_len ≤ length input
  decoded : decode (take header_len input) ≡ ok header
  enough : header.payload_len ≤ length (drop header_len input)
  taken : payload ≡ take header.payload_len (drop header_len input)
  left : rest ≡ drop header.payload_len (drop header_len input)

read_frame_into_parts :
    (input rest payload : Bytes) (header : FrameHeader)
    → read_frame_into input ≡ (ok (header, payload), rest)
    → IsRead input rest payload header
unfolding read_frame_into read_exact
read_frame_into_parts input rest payload header e = ground arith

-- A frame read that succeeds has taken a sendable header and exactly the payload that the header
-- announces, and what it leaves is the rest of the input.
pub read_frame_into_ok :
    (input rest payload : Bytes) (header : FrameHeader)
    → All IsByte input
    → read_frame_into input ≡ (ok (header, payload), rest)
    → IsSendable header
      × (length payload ≡ header.payload_len)
      × (length input ≡ header_len + length payload + length rest)
      × (input ≡ take header_len input ++ (payload ++ rest))
read_frame_into_ok input rest payload header hb e =
    let r = read_frame_into_parts input rest payload header e in
    (
      (encode-decode (take header_len input) header
          (omega (arith, r.long, length-take header_len input))
          (All-take IsByte header_len input hb) r.decoded).0,
      omega (
        arith,
        ap length r.taken,
        length-take header.payload_len (drop header_len input),
        r.enough,
      ),
      omega (
        arith,
        r.long,
        r.enough,
        ap length r.taken,
        ap length r.left,
        length-drop header_len input,
        length-take header.payload_len (drop header_len input),
        length-drop header.payload_len (drop header_len input),
      ),
      rw (r.taken, r.left, take-append-drop header.payload_len (drop header_len input))
          (sym (take-append-drop header_len input)),
    )

-- Of a frame with a sendable header and the payload that it announces, any proper beginning is read
-- to its end and ends in `UnexpectedEof`.
pub read_frame_truncated :
    (header : FrameHeader) (payload front back : Bytes)
    → IsSendable header
    → length payload ≡ header.payload_len
    → wire header payload ≡ front ++ back
    → length front < header_len + length payload
    → read_frame front ≡ (err (io eof_error), [])
unfolding read_frame read_frame_into
read_frame_truncated header payload front back s n w short =
    elim (Bool-cases (ltb (length front) header_len)) [
      | inl h ↦ rw (read_exact_short header_len front (ground arith))
      | inr h ↦
          let long : header_len ≤ length front = ground arith in
          let start : take header_len front ≡ encode header =
            sym (take-append_le header_len front back long)
            ∙ ap (take header_len) (sym w)
            ∙ rw (length-encode header) at (take-length-append (encode header) payload) in
          rw (
            read_exact_long header_len front long,
            start,
            decode-encode header s,
            read_exact_short header.payload_len (drop header_len front)
                (omega (arith, length-drop header_len front)),
          )
    ]

-- A frame that was read was taken from the input, header and payload.
pub read_stream_frame_into_shrinks :
    (input rest payload : Bytes) (header : StreamFrameHeader)
    → read_stream_frame_into input ≡ (ok (header, payload), rest)
    → length input ≡ header_len + length payload + length rest
unfolding read_stream_frame_into
read_stream_frame_into_shrinks input rest payload header e =
    elim (Result-cases (read_frame_into input).0) [
      | inl ((frame, bytes), f) ↦
          let r = read_frame_into_parts input rest payload frame (ground arith) in
          omega (
            arith,
            r.long,
            r.enough,
            ap length r.taken,
            ap length r.left,
            length-drop header_len input,
            length-take frame.payload_len (drop header_len input),
            length-drop frame.payload_len (drop header_len input),
          )
      | inr (x, f) ↦ ground arith
    ]
