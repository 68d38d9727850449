-- ===== src/Proto/Io.antt =====
-- The byte streams that the protocol reads and writes. tokio's `AsyncWrite` is an interface; what a
-- reader will deliver before its end of file is a byte string.
use rsdb.Base.{ℕ, [], none, ◌++◌, ok, err, length, take, drop, ltb, if◌then◌else◌}
use rsdb.Base.Exec.{Exec}
use rsdb.Base.Texts.{Bytes}
use rsdb.Proto.Wire.{IoError, unexpected_eof}

-- `write_all` of a writer, with the writer it leaves.
pub record AsyncWrite (W : Type 0) : Type 0 where
  pub write_all : Bytes → Exec W IoError (Unit {0})

-- A writer that keeps everything, as the duplex pipe of the tests does.
instance abbrev pub memory_writer : AsyncWrite Bytes
memory_writer = record { write_all = λ bytes sent. (ok tt, sent ++ bytes) }

abbrev pub eof_error : IoError
eof_error = record { kind = unexpected_eof; raw_os_error = none }

-- `read_exact` into a buffer of `n` bytes: at the end of file what was left is consumed.
unfoldable pub read_exact : ℕ → Exec Bytes IoError Bytes
read_exact n input =
    if ltb (length input) n then (err eof_error, []) else (ok (take n input), drop n input)
