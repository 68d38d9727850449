-- ===== src/Daemon/Host.antt =====
-- What the daemon uses of the operating system and of other crates, as one interface, and the state
-- that a request handler works on (device/rsdbd/src/main.rs).
use rsdb.Base.{ℕ, Bool, Option, List, [], ◌∷◌, Result, map_err}
use rsdb.Base.Exec.{Exec}
use rsdb.Base.Texts.{Text, Bytes}
use rsdb.Proto.Wire.{response, IoError, ProtocolError}
use rsdb.Proto.Messages.{FsEntryKind, ControlResponse}
use rsdb.Proto.Io.{AsyncWrite}
use rsdb.Proto.Frames.{Serde, write_json_frame}
use rsdb.Daemon.Error.{
  Error, message, io_cause, protocol, fs_precondition, fs_invalid_request, out_of_fuel, from_io,
  from_protocol, with_context,
}

-- `std::fs::Metadata`: the file type, the size, the raw mode bits, and the modification time in
-- milliseconds after the epoch where there is one.
pub record Metadata : Type 0 where
  pub file_type : FsEntryKind
  pub len : ℕ
  pub mode_bits : ℕ
  pub mtime_ms : Option ℕ

-- `OpenOptions` for writing: always `write` and `truncate`; a new file has `mode`, where given.
pub record OpenOptions : Type 0 where
  pub create_new : Bool
  pub mode : Option ℕ

-- `glob::MatchOptions`
pub record MatchOptions : Type 0 where
  pub case_sensitive : Bool
  pub require_literal_separator : Bool
  pub require_literal_leading_dot : Bool

-- A file system with the state `S`. An open file is a number. `reads` gives what the successive
-- reads with a buffer of that size will return; a read of nothing is the end of the file. `glob`
-- gives the paths of `glob_with`, or the messages of its errors.
pub record Host (S : Type 0) : Type 0 where
  pub symlink_metadata : Text → S → Result IoError Metadata
  pub metadata : Text → S → Result IoError Metadata
  pub read_dir : Text → S → Result IoError (List Text)
  pub canonicalize : Text → S → Result IoError Text
  pub glob : MatchOptions → Text → S → Result Text (List (Result Text Text))
  pub create_dir_all : Text → Exec S IoError (Unit {0})
  pub create_dir : Text → Exec S IoError (Unit {0})
  pub remove_dir_all : Text → Exec S IoError (Unit {0})
  pub remove_dir : Text → Exec S IoError (Unit {0})
  pub remove_file : Text → Exec S IoError (Unit {0})
  pub rename : Text → Text → Exec S IoError (Unit {0})
  pub set_permissions : Text → ℕ → Exec S IoError (Unit {0})
  pub open_write : OpenOptions → Text → Exec S IoError ℕ
  pub write_all : ℕ → Bytes → Exec S IoError (Unit {0})
  pub flush : ℕ → Exec S IoError (Unit {0})
  pub open_read : Text → Exec S IoError ℕ
  pub reads : ℕ → ℕ → S → List (Result IoError Bytes)
  pub nonce : S → ℕ
  pub sha256 : Bytes → Text
  pub valid_utf8 : Bytes → Bool
  pub base64_encode : Bytes → Text
  pub base64_decode : Text → Result Text Bytes
  pub show_io : IoError → Text
  pub show_protocol : ProtocolError → Text
  pub responses : Serde ControlResponse

-- What has arrived on the connection and was not read, the writing half, and the file system.
pub record World (W S : Type 0) : Type 0 where
  pub inbox : Bytes
  pub out : W
  pub fs : S

abbrev pub Daemon : Type 0 → Type 0 → Type 0 → Type 0
Daemon W S A = Exec (World W S) Error A

module _ {W S A : Type 0} where
  -- An operation of the file system, with its error turned into one of the daemon.
  abbrev pub on_fs : (IoError → Error) → Exec S IoError A → Daemon W S A
  on_fs convert op world = (map_err convert (op world.fs).0, record world { fs = (op world.fs).1 })

  -- `run_blocking_fs` of an operation that does not panic.
  abbrev pub run_blocking_fs : Exec S Error A → Daemon W S A
  run_blocking_fs op world = ((op world.fs).0, record world { fs = (op world.fs).1 })

  -- A question to the file system, which changes nothing.
  abbrev pub ask_fs : (IoError → Error) → (S → Result IoError A) → Daemon W S A
  ask_fs convert op world = (map_err convert (op world.fs), world)

  abbrev pub on_out : Exec W ProtocolError A → Daemon W S A
  on_out op world =
      (map_err from_protocol (op world.out).0, record world { out = (op world.out).1 })

  abbrev pub on_inbox : (ProtocolError → Error) → Exec Bytes ProtocolError A → Daemon W S A
  on_inbox convert op world =
      (map_err convert (op world.inbox).0, record world { inbox = (op world.inbox).1 })

-- The context of an I/O error.
abbrev pub io_context : Text → IoError → Error
io_context text e = with_context text (from_io e)

module _ {W S : Type 0} ⦃w : AsyncWrite W⦄ (host : Host S) where
  -- `write_json_frame(stream, FrameKind::Response, request_id, &response).await?`
  abbrev pub respond : ℕ → ControlResponse → Daemon W S (Unit {0})
  respond request_id reply = on_out (write_json_frame host.responses response request_id reply)

module _ {S : Type 0} (host : Host S) where
  -- `err.to_string()`: the outermost cause.
  abbrev pub to_string : Error → Text
  to_string [] = []
  to_string (message text ∷ causes) = text
  to_string (io_cause e ∷ causes) = host.show_io e
  to_string (protocol e ∷ causes) = host.show_protocol e
  to_string (fs_precondition text ∷ causes) = text
  to_string (fs_invalid_request text ∷ causes) = text
  to_string (out_of_fuel ∷ causes) = []
