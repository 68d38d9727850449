-- ===== src/Daemon/Buffer.antt =====
-- `tokio::io::BufWriter`, as an interface: what the daemon uses of it, and what it relies on.
use rsdb.Base.{ℕ, ◌+◌, ◌≤◌, ◌<◌, ◌≡◌, ok, length}
use rsdb.Base.Exec.{Exec}
use rsdb.Base.Texts.{Bytes}
use rsdb.Proto.Wire.{IoError}
use rsdb.Proto.Io.{AsyncWrite}
use rsdb.Proto.Writers.{IsAppending}
use rsdb.Daemon.Host.{World, Daemon}

-- A buffered writer `B` around a writer `W`. `inner` is what the inner writer has received; when
-- the buffered writer is dropped, what it still holds is lost.
pub record BufWriter (B W : Type 0) : Type 0 where
  pub with_capacity : ℕ → W → B
  pub writer : AsyncWrite B
  pub flush : Exec B IoError (Unit {0})
  pub inner : B → W

-- While what was written fits, it stays in the buffer.
pub record IsBufWriter {B W : Type 0} (buf : BufWriter B W) : Type 0 where
  pub held : B → ℕ
  pub capacity : B → ℕ
  pub inner-with_capacity : (n : ℕ) (w : W) → buf.inner (buf.with_capacity n w) ≡ w
  pub held-with_capacity : (n : ℕ) (w : W) → held (buf.with_capacity n w) ≡ 0
  pub capacity-with_capacity : (n : ℕ) (w : W) → capacity (buf.with_capacity n w) ≡ n
  pub keeps :
      (bytes : Bytes) (b : B)
      → held b + length bytes ≤ capacity b
      → length bytes < capacity b
      → (buf.writer.write_all bytes b).0 ≡ ok tt
  pub keeps_inner :
      (bytes : Bytes) (b : B)
      → held b + length bytes ≤ capacity b
      → length bytes < capacity b
      → buf.inner (buf.writer.write_all bytes b).1 ≡ buf.inner b
  pub keeps_held :
      (bytes : Bytes) (b : B)
      → held b + length bytes ≤ capacity b
      → length bytes < capacity b
      → held (buf.writer.write_all bytes b).1 ≡ held b + length bytes
  pub keeps_capacity :
      (bytes : Bytes) (b : B) → capacity (buf.writer.write_all bytes b).1 ≡ capacity b

-- Around a connection that takes everything: what was written stays in order, and a flush passes it
-- on.
pub record IsFlushing {B : Type 0} (buf : BufWriter B Bytes) : Type 0 where
  pub taken : B → Bytes
  pub appending : IsAppending buf.writer taken
  pub starts : (n : ℕ) (sent : Bytes) → taken (buf.with_capacity n sent) ≡ sent
  pub flushes : (b : B) → (buf.flush b).0 ≡ ok tt
  pub passes : (b : B) → buf.inner (buf.flush b).1 ≡ taken b

module _ {B W S A : Type 0} (buf : BufWriter B W) where
  -- A block with a buffered writer of its own around the connection, dropped at the end.
  abbrev pub buffered : ℕ → Daemon B S A → Daemon W S A
  buffered size block world =
      let start : World B S = record {
        inbox = world.inbox;
        out = buf.with_capacity size world.out;
        fs = world.fs;
      } in
      let end = block start in
      (end.0, record { inbox = end.1.inbox; out = buf.inner end.1.out; fs = end.1.fs })
