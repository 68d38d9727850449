-- ===== src/Daemon/Session/Trace.antt =====
-- What a client sees of a child process: its reads, and the frames that went out
-- (stream_command_output and handle_pipe_shell of device/rsdbd/src/main.rs).
use mathlib.Core.List.{append-nil, append_assoc}
use rsdb.Base.{
  ℕ, ◌≤◌, Bool, true, false, not, ◌&&◌, Option, none, some, List, [], ◌∷◌, ◌++◌, ok, err, ℤ, length,
  any, if◌then◌else◌,
}
use rsdb.Base.{◌≡◌, refl, sym, ap, ◌∙◌, arith}
use rsdb.Base.Texts.{Bytes, is_empty}
use rsdb.Proto.Wire.{StreamChannel, max_payload_len, stream}
use rsdb.Proto.Wire
use rsdb.Proto.Io.{memory_writer}
use rsdb.Proto.Frames.{stream_flags}
use rsdb.Proto.RoundTrip.{wire, frame_header}
use rsdb.Daemon.Session.Pump.{OutputEvent, stdout, stderr, exited, Pump}

-- A stream frame that went out.
pub record Sent : Type 0 where
  pub channel : StreamChannel
  pub eof : Bool
  pub payload : Bytes

abbrev pub Fits : Sent → Type 0
Fits f = length f.payload ≤ max_payload_len

-- The bytes of these frames.
abbrev pub wires : ℕ → List Sent → Bytes
wires request_id [] = []
wires request_id (f ∷ log) =
    wire (frame_header stream (stream_flags f.channel f.eof) request_id (length f.payload))
      f.payload
    ++ wires request_id log

-- What the child wrote on one stream, read by read.
abbrev pub stdout_reads : List OutputEvent → List Bytes
stdout_reads [] = []
stdout_reads (stdout (ok read) ∷ events) = read ∷ stdout_reads events
stdout_reads (stdout (err e) ∷ events) = stdout_reads events
stdout_reads (stderr read ∷ events) = stdout_reads events
stdout_reads (exited status ∷ events) = stdout_reads events

abbrev pub stderr_reads : List OutputEvent → List Bytes
stderr_reads [] = []
stderr_reads (stderr (ok read) ∷ events) = read ∷ stderr_reads events
stderr_reads (stderr (err e) ∷ events) = stderr_reads events
stderr_reads (stdout read ∷ events) = stderr_reads events
stderr_reads (exited status ∷ events) = stderr_reads events

abbrev pub first_exit : List OutputEvent → Option (Option ℤ)
first_exit [] = none
first_exit (exited (ok code) ∷ events) = some code
first_exit (exited (err e) ∷ events) = first_exit events
first_exit (stdout read ∷ events) = first_exit events
first_exit (stderr read ∷ events) = first_exit events

-- What a client should see of a stream: its reads up to the end, which is marked.
abbrev pub until_end : List Bytes → List (Bool × Bytes)
until_end [] = []
until_end ([] ∷ reads) = (true, []) ∷ []
until_end ((b ∷ read) ∷ reads) = (false, b ∷ read) ∷ until_end reads

abbrev channel_eq : StreamChannel → StreamChannel → Bool
channel_eq Wire.stdout Wire.stdout = true
channel_eq Wire.stderr Wire.stderr = true
channel_eq a b = false

-- The frames of one channel.
abbrev pub on_channel : StreamChannel → List Sent → List (Bool × Bytes)
on_channel channel [] = []
on_channel channel (f ∷ log) =
    let rest = on_channel channel log in
    if channel_eq f.channel channel then (f.eof, f.payload) ∷ rest else rest

-- Nothing fails, and the reads are within a frame.
abbrev pub IsClean : OutputEvent → Type 0
IsClean (stdout (ok read)) = length read ≤ max_payload_len
IsClean (stderr (ok read)) = length read ≤ max_payload_len
IsClean (exited (ok code)) = Unit {0}
IsClean event = ⊥

abbrev pub or_else : Option (Option ℤ) → Option (Option ℤ) → Option (Option ℤ)
or_else none other = other
or_else (some code) other = some code

-- Whether the child's stream has ended.
abbrev pub has_end : List Bytes → Bool
has_end reads = any is_empty reads

-- How the loop stands after the events.
pub record IsFinal (events : List OutputEvent) (p q : Pump) : Type 0 where
  pub out : q.stdout_open ≡ (p.stdout_open && not (has_end (stdout_reads events)))
  pub error : q.stderr_open ≡ (p.stderr_open && not (has_end (stderr_reads events)))
  pub exit : q.exit_status ≡ or_else p.exit_status (first_exit events)

pub wires-one :
    (request_id : ℕ) (channel : StreamChannel) (eof : Bool) (payload : Bytes)
    → wires request_id (record { channel = channel; eof = eof; payload = payload } ∷ [])
      ≡ wire (frame_header stream (stream_flags channel eof) request_id (length payload)) payload
wires-one request_id channel eof payload = append-nil _

pub wires-append :
    (request_id : ℕ) (xs ys : List Sent)
    → wires request_id (xs ++ ys) ≡ wires request_id xs ++ wires request_id ys
wires-append request_id [] ys = refl
wires-append request_id (f ∷ xs) ys =
    ap
      (λ t.
        wire (frame_header stream (stream_flags f.channel f.eof) request_id (length f.payload))
          f.payload
        ++ t)
      (wires-append request_id xs ys)
    ∙ sym (append_assoc _ (wires request_id xs) (wires request_id ys))

pub on_channel-append :
    (channel : StreamChannel) (xs ys : List Sent)
    → on_channel channel (xs ++ ys) ≡ on_channel channel xs ++ on_channel channel ys
on_channel-append channel [] ys = refl
on_channel-append channel (f ∷ xs) ys = ground (arith, on_channel-append channel xs ys)
