-- ===== src/Client/Agent/Shown.antt =====
-- What the client prints of the frames of a streamed command, and of the response that ends it
-- (crates/rsdb-cli/src/main.rs).
use mathlib.Core.List.{append-nil, append_assoc}
use rsdb.Base.{
  ℕ, suc, ◌+◌, ◌≤◌, Bool, Option, none, some, List, [], ◌∷◌, ◌++◌, length, length-append, All, ◌≡◌,
  refl, sym, ap, arith, inl, inr, Bool-cases, if◌then◌else◌,
}
use rsdb.Base.Texts.{Text, Bytes, is_empty}
use rsdb.Proto.Wire.{max_payload_len, stream, response}
use rsdb.Proto.Wire
use rsdb.Proto.Io.{memory_writer}
use rsdb.Proto.Header.{length-encode}
use rsdb.Proto.Messages.{ControlResponse}
use rsdb.Proto.Frames.{stream_flags, read_frame_into, decode_json_payload}
use rsdb.Proto.RoundTrip.{wire, frame_header, frame_header-IsSendable, read_frame_into-wire}
use rsdb.Proto.StreamFrames.{decode_stream_flags, stream_flags_fit}
use rsdb.Daemon.Session.Trace.{Sent, wires, Fits}
use rsdb.Client.Batch.Replies.{message_wire}
use rsdb.Client.Batch.Receive.{client_request_id, ensure_request_id}
use rsdb.Client.Agent.Failure.{Details}
use rsdb.Client.Agent.Exec.{
  AgentEvent, output_event, Printed, print_first, Reading, exec_response, exec_round,
  exec_stream_loop,
}

-- The frames cost at least a header each.
pub length-wires : (request_id : ℕ) (log : List Sent) → length log ≤ length (wires request_id log)
length-wires request_id [] = omega arith
length-wires request_id (f ∷ log) =
    let header = frame_header stream (stream_flags f.channel f.eof) request_id (length f.payload) in
    omega (
      arith,
      length-wires request_id log,
      length-encode header,
      length-append (wire header f.payload) (wires request_id log),
      length-append (Wire.encode header) f.payload,
    )

print_first_twice :
    (xs ys : List AgentEvent) (p : Printed)
    → print_first xs (print_first ys p) ≡ print_first (xs ++ ys) p
print_first_twice xs ys none = refl
print_first_twice xs ys (some (later, code)) =
    ap (λ t. some (t, code)) (sym (append_assoc xs ys later))

print_first_nil : (p : Printed) → print_first [] p ≡ p
print_first_nil none = refl
print_first_nil (some (later, code)) = refl

module _ (reading : Reading) (target : Text) (response_target : Option Text) (check : Bool)
    (details : Details) where
  -- What is printed of the frames.
  abbrev pub shown : List Sent → List AgentEvent
  shown [] = []
  shown (f ∷ log) =
      let rest = shown log in
      if is_empty f.payload
      then rest
      else output_event f.channel response_target (reading.lossy f.payload) ++ rest

  shown_step :
      (f : Sent) (log : List Sent) (p : Printed)
      → (if is_empty f.payload
          then print_first (shown log) p
          else print_first
              (output_event f.channel response_target (reading.lossy f.payload))
              (print_first (shown log) p))
        ≡ print_first (shown (f ∷ log)) p
  shown_step f log p = elim (Bool-cases (is_empty f.payload)) [
    | inl e ↦ rw e
    | inr e ↦ rw e (print_first_twice _ (shown log) p)
  ]

  exec_stream_loop-suc :
      (fuel : ℕ) (inbox : Bytes)
      → exec_stream_loop reading target response_target check details (suc fuel) inbox
        ≡ exec_round reading target response_target check details (read_frame_into inbox).0 (
            exec_stream_loop reading target response_target check details fuel
              (read_frame_into inbox).1)
  unfolding exec_stream_loop
  exec_stream_loop-suc fuel inbox = refl

  -- One frame.
  exec_stream_loop-wire :
      (f : Sent) (fuel : ℕ) (rest : Bytes)
      → Fits f
      → exec_stream_loop reading target response_target check details (suc fuel) (
          wire
            (frame_header stream
              (stream_flags f.channel f.eof)
              client_request_id
              (length f.payload))
            f.payload
          ++ rest)
        ≡ (let later = exec_stream_loop reading target response_target check details fuel rest in
            if is_empty f.payload
            then later
            else print_first
                (output_event f.channel response_target (reading.lossy f.payload))
                later)
  unfolding ensure_request_id
  exec_stream_loop-wire f fuel rest h =
      let flags = stream_flags f.channel f.eof in
      let header = frame_header stream flags client_request_id (length f.payload) in
      rw (
        exec_stream_loop-suc,
        read_frame_into-wire header f.payload rest
            (frame_header-IsSendable stream flags client_request_id (length f.payload)
              (stream_flags_fit f.channel f.eof) (omega arith) h)
            refl,
        decode_stream_flags f.channel f.eof client_request_id (length f.payload),
      )

  -- The loop prints the frames, and goes on with what follows them.
  pub exec_stream_loop-wires :
      (log : List Sent) (fuel : ℕ) (rest : Bytes)
      → All Fits log
      → exec_stream_loop reading target response_target check details
          (length log + fuel)
          (wires client_request_id log ++ rest)
        ≡ print_first
            (shown log)
            (exec_stream_loop reading target response_target check details fuel rest)
  exec_stream_loop-wires [] fuel rest h =
      let same : 0 + fuel ≡ fuel = omega arith in
      rw same (
        sym (
          print_first_nil
            (exec_stream_loop reading target response_target check details fuel rest)))
  exec_stream_loop-wires (f ∷ log) fuel rest (h, hs) =
      let shift : suc (length log) + fuel ≡ suc (length log + fuel) = omega arith in
      let header =
        frame_header stream (stream_flags f.channel f.eof) client_request_id (length f.payload) in
      rw
        (
          shift,
          append_assoc (wire header f.payload) (wires client_request_id log) rest,
          exec_stream_loop-wire f (length log + fuel) (wires client_request_id log ++ rest) h,
          exec_stream_loop-wires log fuel rest hs,
        )
        (shown_step f log (exec_stream_loop reading target response_target check details fuel rest))

  -- The response that ends the command.
  pub exec_stream_loop-response :
      (reply : ControlResponse) (bytes : Bytes) (fuel : ℕ)
      → reading.responses.from_slice bytes ≡ some reply
      → length bytes ≤ max_payload_len
      → exec_stream_loop reading target response_target check details
          (suc fuel)
          (message_wire response bytes)
        ≡ some (exec_response reading target response_target check details reply)
  unfolding decode_json_payload
  exec_stream_loop-response reply bytes fuel v n =
      let header = frame_header response 0 client_request_id (length bytes) in
      let alone =
        read_frame_into-wire header bytes []
          (frame_header-IsSendable response 0 client_request_id (length bytes) (omega arith)
            (omega arith) n)
          refl in
      rw (exec_stream_loop-suc, rw (append-nil (wire header bytes)) at alone, v)
