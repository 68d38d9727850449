-- ===== src/Daemon/Session/Runs.antt =====
-- A command and a shell at concrete events.
use rsdb.Base.{◌≡◌, ◌++◌, arith, true, some, List, [], ◌∷◌, ok, pos, if◌then◌else◌}
use rsdb.Base.Texts.{Bytes, codes}
use rsdb.Proto.Wire
use rsdb.Proto.Io.{memory_writer}
use rsdb.Daemon.Host.{World}
use rsdb.Daemon.Memory.{Memory, empty_memory}
use rsdb.Daemon.Session.Pump.{OutputEvent, stdout, stderr, exited, Pump, start, drive}
use rsdb.Daemon.Session.Trace.{
  Sent, wires, stdout_reads, stderr_reads, until_end, on_channel, IsFinal,
}
use rsdb.Daemon.Session.Ordered.{drive-ordered}

abbrev run : List OutputEvent
run =
    stdout (ok (codes "a"))
    ∷ stderr (ok (codes "x"))
    ∷ exited (ok (some (pos 3)))
    ∷ stdout (ok (codes "bc"))
    ∷ stderr (ok [])
    ∷ stdout (ok [])
    ∷ []

abbrev quiet : World Bytes Memory
quiet = record { inbox = []; out = []; fs = empty_memory }

drive-ordered_example :
    (log : List Sent) × (q : Pump) × (drive 7 (codes "failed") run start quiet
      ≡ (ok q, record quiet { out = [] ++ wires 7 log }))
    × (on_channel Wire.stdout log ≡ (if true then until_end (stdout_reads run) else []))
    × (on_channel Wire.stderr log ≡ (if true then until_end (stderr_reads run) else []))
    × IsFinal run start q
drive-ordered_example =
    drive-ordered 7 (codes "failed") run start quiet
      (omega arith, (omega arith, (tt, (omega arith, (omega arith, (omega arith, tt))))))
