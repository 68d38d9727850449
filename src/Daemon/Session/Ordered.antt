-- ===== src/Daemon/Session/Ordered.antt =====
-- The output of a child process arrives whole and in order, in whatever order its two streams and
-- its exit become ready (stream_command_output and handle_pipe_shell of device/rsdbd/src/main.rs).
use mathlib.Core.List.{append-nil, append_assoc}
use rsdb.Base.{
  ℕ, ◌≤◌, true, false, not, some, List, [], ◌∷◌, ◌++◌, ok, err, length, All, All-append,
  if◌then◌else◌,
}
use rsdb.Base.{◌≡◌, arith, inl, inr, Bool-cases}
use rsdb.Base.Texts.{Text, Bytes, is_empty}
use rsdb.Proto.Wire.{StreamChannel, max_payload_len, stream}
use rsdb.Proto.Wire
use rsdb.Proto.Io.{memory_writer}
use rsdb.Proto.RoundTrip.{write_stream_frame-wire}
use rsdb.Daemon.Host.{World}
use rsdb.Daemon.Session.Pump.{
  OutputEvent, stdout, stderr, exited, Pump, is_none, is_running, forward, on_event, drive,
}
use rsdb.Daemon.Session.Trace.{
  Sent, wires, stdout_reads, stderr_reads, until_end, on_channel, Fits, IsClean, IsFinal, wires-one,
  wires-append, on_channel-append,
}

-- The variables after an event, and the frame that it sends.
advance : OutputEvent → Pump → Pump
advance (stdout (ok read)) p =
    if p.stdout_open then record p { stdout_open = not (is_empty read) } else p
advance (stderr (ok read)) p =
    if p.stderr_open then record p { stderr_open = not (is_empty read) } else p
advance (exited (ok code)) p =
    if is_none p.exit_status then record p { exit_status = some code } else p
advance event p = p

emitted : OutputEvent → Pump → List Sent
emitted (stdout (ok read)) p =
    if p.stdout_open
    then record { channel = Wire.stdout; eof = is_empty read; payload = read } ∷ []
    else []
emitted (stderr (ok read)) p =
    if p.stderr_open
    then record { channel = Wire.stderr; eof = is_empty read; payload = read } ∷ []
    else []
emitted event p = []

pub final : List OutputEvent → Pump → Pump
final [] p = p
final (event ∷ events) p =
    let next = final events (advance event p) in if is_running p then next else p

pub sent_log : List OutputEvent → Pump → List Sent
sent_log [] p = []
sent_log (event ∷ events) p =
    let next = emitted event p ++ sent_log events (advance event p) in
    if is_running p then next else []

emitted-Fits : (event : OutputEvent) (p : Pump) → IsClean event → All Fits (emitted event p)
unfolding emitted
emitted-Fits (stdout (ok read)) p h = ground arith
emitted-Fits (stderr (ok read)) p h = ground arith
emitted-Fits (stdout (err e)) p h = absurd h
emitted-Fits (stderr (err e)) p h = absurd h
emitted-Fits (exited status) p h = tt

-- No frame is too large.
pub sent_log-Fits :
    (events : List OutputEvent) (p : Pump) → All IsClean events → All Fits (sent_log events p)
unfolding sent_log
sent_log-Fits [] p h = tt
sent_log-Fits (event ∷ events) p (h, hs) = elim (Bool-cases (is_running p)) [
  | inl e ↦ rw e (
      All-append Fits (emitted event p) (sent_log events (advance event p)) (emitted-Fits event p h)
        (sent_log-Fits events (advance event p) hs))
  | inr e ↦ rw e tt
]

-- Each channel gets the reads of its stream, as long as it is open.
pub stdout-sent_log :
    (events : List OutputEvent) (p : Pump)
    → All IsClean events
    → on_channel Wire.stdout (sent_log events p)
      ≡ (if p.stdout_open then until_end (stdout_reads events) else [])
unfolding sent_log emitted advance
stdout-sent_log [] p h = ground arith
stdout-sent_log (stdout (ok []) ∷ events) p (h, hs) = ground (
  arith,
  on_channel-append Wire.stdout (emitted (stdout (ok [])) p)
      (sent_log events (advance (stdout (ok [])) p)),
  stdout-sent_log events (advance (stdout (ok [])) p) hs,
)
stdout-sent_log (stdout (ok (b ∷ read)) ∷ events) p (h, hs) = ground (
  arith,
  on_channel-append Wire.stdout (emitted (stdout (ok (b ∷ read))) p)
      (sent_log events (advance (stdout (ok (b ∷ read))) p)),
  stdout-sent_log events (advance (stdout (ok (b ∷ read))) p) hs,
)
stdout-sent_log (stdout (err e) ∷ events) p (h, hs) = absurd h
stdout-sent_log (stderr (ok read) ∷ events) p (h, hs) = ground (
  arith,
  on_channel-append Wire.stdout (emitted (stderr (ok read)) p)
      (sent_log events (advance (stderr (ok read)) p)),
  stdout-sent_log events (advance (stderr (ok read)) p) hs,
)
stdout-sent_log (stderr (err e) ∷ events) p (h, hs) = absurd h
stdout-sent_log (exited (ok code) ∷ events) p (h, hs) =
    ground (arith, stdout-sent_log events (advance (exited (ok code)) p) hs)
stdout-sent_log (exited (err e) ∷ events) p (h, hs) = absurd h

pub stderr-sent_log :
    (events : List OutputEvent) (p : Pump)
    → All IsClean events
    → on_channel Wire.stderr (sent_log events p)
      ≡ (if p.stderr_open then until_end (stderr_reads events) else [])
unfolding sent_log emitted advance
stderr-sent_log [] p h = ground arith
stderr-sent_log (stderr (ok []) ∷ events) p (h, hs) = ground (
  arith,
  on_channel-append Wire.stderr (emitted (stderr (ok [])) p)
      (sent_log events (advance (stderr (ok [])) p)),
  stderr-sent_log events (advance (stderr (ok [])) p) hs,
)
stderr-sent_log (stderr (ok (b ∷ read)) ∷ events) p (h, hs) = ground (
  arith,
  on_channel-append Wire.stderr (emitted (stderr (ok (b ∷ read))) p)
      (sent_log events (advance (stderr (ok (b ∷ read))) p)),
  stderr-sent_log events (advance (stderr (ok (b ∷ read))) p) hs,
)
stderr-sent_log (stderr (err e) ∷ events) p (h, hs) = absurd h
stderr-sent_log (stdout (ok read) ∷ events) p (h, hs) = ground (
  arith,
  on_channel-append Wire.stderr (emitted (stdout (ok read)) p)
      (sent_log events (advance (stdout (ok read)) p)),
  stderr-sent_log events (advance (stdout (ok read)) p) hs,
)
stderr-sent_log (stdout (err e) ∷ events) p (h, hs) = absurd h
stderr-sent_log (exited (ok code) ∷ events) p (h, hs) =
    ground (arith, stderr-sent_log events (advance (exited (ok code)) p) hs)
stderr-sent_log (exited (err e) ∷ events) p (h, hs) = absurd h

final-IsFinal_step :
    (event : OutputEvent) (events : List OutputEvent) (p : Pump)
    → IsClean event
    → IsFinal events (advance event p) (final events (advance event p))
    → IsFinal (event ∷ events) p (final (event ∷ events) p)
unfolding final advance
final-IsFinal_step (stdout (ok [])) events p h r = ground arith
final-IsFinal_step (stdout (ok (b ∷ read))) events p h r = ground arith
final-IsFinal_step (stdout (err e)) events p h r = absurd h
final-IsFinal_step (stderr (ok [])) events p h r = ground arith
final-IsFinal_step (stderr (ok (b ∷ read))) events p h r = ground arith
final-IsFinal_step (stderr (err e)) events p h r = absurd h
final-IsFinal_step (exited (ok code)) events p h r = ground arith
final-IsFinal_step (exited (err e)) events p h r = absurd h

pub final-IsFinal :
    (events : List OutputEvent) (p : Pump) → All IsClean events → IsFinal events p (final events p)
unfolding final
final-IsFinal [] p h = record { out = ground arith; error = ground arith; exit = ground arith }
final-IsFinal (event ∷ events) p (h, hs) =
    final-IsFinal_step event events p h (final-IsFinal events (advance event p) hs)

module _ {S : Type 0} (request_id : ℕ) (failed : Text) where
  forward-clean :
      (channel : StreamChannel) (read : Bytes) (world : World Bytes S)
      → length read ≤ max_payload_len
      → forward request_id channel (ok read) world ≡ (
        ok (not (is_empty read)),
        record world {
          out =
              world.out
              ++ wires request_id
                  (record { channel = channel; eof = is_empty read; payload = read } ∷ []);
        },
      )
  unfolding forward
  forward-clean channel [] world h = ground (
    arith,
    write_stream_frame-wire request_id channel true [] world.out h,
    wires-one request_id channel true [],
  )
  forward-clean channel (b ∷ read) world h = ground (
    arith,
    write_stream_frame-wire request_id channel false (b ∷ read) world.out h,
    wires-one request_id channel false (b ∷ read),
  )

  on_event-clean :
      (event : OutputEvent) (p : Pump) (world : World Bytes S)
      → IsClean event
      → on_event request_id failed event p world ≡ (
        ok (advance event p),
        record world { out = world.out ++ wires request_id (emitted event p) },
      )
  unfolding on_event advance emitted
  on_event-clean (stdout (ok read)) p world h = elim (Bool-cases p.stdout_open) [
    | inl e ↦ ground (arith, forward-clean Wire.stdout read world h)
    | inr e ↦ ground (arith, append-nil world.out)
  ]
  on_event-clean (stdout (err e)) p world h = absurd h
  on_event-clean (stderr (ok read)) p world h = elim (Bool-cases p.stderr_open) [
    | inl e ↦ ground (arith, forward-clean Wire.stderr read world h)
    | inr e ↦ ground (arith, append-nil world.out)
  ]
  on_event-clean (stderr (err e)) p world h = absurd h
  on_event-clean (exited (ok code)) p world h = ground (arith, append-nil world.out)
  on_event-clean (exited (err e)) p world h = absurd h

  pub drive-clean :
      (events : List OutputEvent) (p : Pump) (world : World Bytes S)
      → All IsClean events
      → drive request_id failed events p world ≡ (
        ok (final events p),
        record world { out = world.out ++ wires request_id (sent_log events p) },
      )
  unfolding drive final sent_log
  drive-clean [] p world h = ground (arith, append-nil world.out)
  drive-clean (event ∷ events) p world (h, hs) = elim (Bool-cases (is_running p)) [
    | inl e ↦ ground (
      arith,
      on_event-clean event p world h,
      drive-clean events (advance event p)
          (record world { out = world.out ++ wires request_id (emitted event p) }) hs,
      wires-append request_id (emitted event p) (sent_log events (advance event p)),
      append_assoc world.out (wires request_id (emitted event p))
          (wires request_id (sent_log events (advance event p))),
    )
    | inr e ↦ ground (arith, append-nil world.out)
  ]

  -- Whatever the order in which the two streams and the exit become ready, where nothing fails the
  -- loop sends each stream on its channel, read by read up to the end, which is marked once; it
  -- closes a stream when its end was read, and keeps the first exit code.
  pub drive-ordered :
      (events : List OutputEvent) (p : Pump) (world : World Bytes S)
      → All IsClean events
      → (log : List Sent) × (q : Pump) × (drive request_id failed events p world
          ≡ (ok q, record world { out = world.out ++ wires request_id log }))
        × (on_channel Wire.stdout log
            ≡ (if p.stdout_open then until_end (stdout_reads events) else []))
        × (on_channel Wire.stderr log
            ≡ (if p.stderr_open then until_end (stderr_reads events) else []))
        × IsFinal events p q
  drive-ordered events p world h = (
    sent_log events p,
    final events p,
    drive-clean events p world h,
    stdout-sent_log events p h,
    stderr-sent_log events p h,
    final-IsFinal events p h,
  )
