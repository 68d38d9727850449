-- ===== src/Client/ShellSession/Runs.antt =====
-- Typed input of `rsdb shell` at concrete reads.
use rsdb.Base.{◌≡◌, refl, arith, false, true, List, [], ◌∷◌, ◌++◌, ok, concat}
use rsdb.Base.Texts.{Text, Bytes, codes}
use rsdb.Proto.Io.{memory_writer}
use rsdb.Daemon.Host.{World}
use rsdb.Daemon.Memory.{Memory, empty_memory, memory_host}
use rsdb.Daemon.Session.Input.{over, feed_stdin, feed_pty, write_pty}
use rsdb.Daemon.Session.Delivered.{memory_stdin}
use rsdb.Client.Batch.Receive.{client_request_id}
use rsdb.Client.ShellSession.{running, drive_session}
use rsdb.Client.ShellSession.Typed.{typed_events, typed-delivered}

abbrev lines : List Bytes
lines = codes "ls" ∷ codes "\n" ∷ []

abbrev quiet : World Bytes Memory
quiet = record { inbox = []; out = []; fs = empty_memory }

-- Messages are not shown.
abbrev unshown : {A : Type 0} → A → Text
unshown value = []

typed-delivered_example :
    let (turn, world) =
      drive_session memory_host unshown unshown (typed_events unshown lines) true quiet in
    (turn ≡ ok (running false))
    × (feed_stdin memory_stdin client_request_id 3 (world.out ++ codes "rest") []
        ≡ (over, concat lines))
    × ((feed_pty client_request_id 3 (world.out ++ codes "rest")).0 ≡ over)
    × (write_pty memory_stdin.write_all
          (feed_pty client_request_id 3 (world.out ++ codes "rest")).1
          []
        ≡ concat lines)
typed-delivered_example =
    typed-delivered memory_host unshown unshown unshown lines quiet 3 (codes "rest")
      (omega arith, (omega arith, tt)) refl (omega arith)
