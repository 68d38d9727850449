-- ===== src/Daemon/Memory.antt =====
-- A file system in memory: it shows that what is assumed of a host can be met, and runs the tests.
use rsdb.Base.{
  ℕ, suc, ◌==◌, true, Option, none, some, List, [], ◌∷◌, ◌++◌, Result, ok, err, refl, arith,
}
use rsdb.Base.{length, if◌then◌else◌, ==_iff}
use rsdb.Base.Exec.{Exec}
use rsdb.Base.Texts.{Text, Bytes, text_eq, text_eq_refl}
use rsdb.Proto.Wire.{IoError, not_found}
use rsdb.Proto.Messages.{ControlResponse, file}
use rsdb.Proto.Frames.{Serde}
use rsdb.Daemon.Host.{Host, Metadata}
use rsdb.Daemon.Fs.Volume.{IsVolume}

pub record Memory : Type 0 where
  pub files : Text → Option Bytes
  pub handles : ℕ → Option Text
  pub next : ℕ

abbrev pub missing : IoError
missing = record { kind = not_found; raw_os_error = some 2 }

abbrev put : Text → Option Bytes → Memory → Memory
put p value m = record m { files = λ q. if text_eq p q then value else m.files q }

abbrev found : Option Bytes → Result IoError Metadata
found none = err missing
found (some bytes) =
    ok (record { file_type = file; len = length bytes; mode_bits = 0o644; mtime_ms = none })

abbrev stat : Text → Memory → Result IoError Metadata
stat p m = found (m.files p)

abbrev done : Exec Memory IoError (Unit {0})
done m = (ok tt, m)

abbrev open_handle : Text → Exec Memory IoError ℕ
open_handle p m = (
  ok m.next,
  record m { handles = λ k. if k == m.next then some p else m.handles k; next = suc m.next },
)

abbrev append_to : Option Text → Bytes → Memory → Result IoError (Unit {0}) × Memory
append_to none bytes m = (err missing, m)
append_to (some p) bytes m = elim (m.files p) [
  | none ↦ (err missing, m)
  | some old ↦ (ok tt, put p (some (old ++ bytes)) m)
]

abbrev move : Text → Text → Option Bytes → Memory → Result IoError (Unit {0}) × Memory
move p q none m = (err missing, m)
move p q (some bytes) m = (ok tt, put q (some bytes) (put p none m))

abbrev one_read : Option Bytes → List (Result IoError Bytes)
one_read none = []
one_read (some bytes) = ok bytes ∷ []

abbrev read_all : Option Text → Memory → List (Result IoError Bytes)
read_all none m = []
read_all (some p) m = one_read (m.files p)

-- With these replies.
abbrev pub memory_host_with : Serde ControlResponse → Host Memory
memory_host_with responses = record {
  symlink_metadata = stat;
  metadata = stat;
  read_dir = λ p m. ok [];
  canonicalize = λ p m. ok p;
  glob = λ options p m. ok [];
  create_dir_all = λ p. done;
  create_dir = λ p. done;
  remove_dir_all = λ p. done;
  remove_dir = λ p. done;
  remove_file = λ p m. (ok tt, put p none m);
  rename = λ p q m. move p q (m.files p) m;
  set_permissions = λ p mode. done;
  open_write = λ o p m. open_handle p (put p (some []) m);
  write_all = λ handle bytes m. append_to (m.handles handle) bytes m;
  flush = λ handle. done;
  open_read = λ p m. elim (m.files p) [ none ↦ (err missing, m) | some bytes ↦ open_handle p m ];
  reads = λ handle size m. read_all (m.handles handle) m;
  nonce = λ m. m.next;
  sha256 = λ bytes. bytes;
  valid_utf8 = λ bytes. true;
  base64_encode = λ bytes. bytes;
  base64_decode = λ text. ok text;
  show_io = λ e. [];
  show_protocol = λ e. [];
  responses = responses;
}

abbrev pub memory_host : Host Memory
memory_host = memory_host_with (record { to_vec = λ reply. some []; from_slice = λ bytes. none })

abbrev pub empty_memory : Memory
empty_memory = record { files = λ p. none; handles = λ k. none; next = 0 }

unfoldable pub memory_volume_with :
    (responses : Serde ControlResponse) → IsVolume (memory_host_with responses)
memory_volume_with responses = record {
  content = λ p m. m.files p;
  target = λ handle m. m.handles handle;
  opened = λ o p s handle e. ground (arith, text_eq_refl p, ==_iff s.next s.next);
  open_keeps = λ o p q s ne. ground arith;
  written = λ handle bytes old p s t c e. ground (arith, text_eq_refl p);
  write_keeps = λ handle bytes p q s t ne. ground arith;
  write_target = λ handle bytes s. ground arith;
  flush_keeps = λ handle q s. refl;
  chmod_keeps = λ p q mode s. refl;
  renamed = λ p q s e. ground (arith, text_eq_refl q);
  rename_failed = λ p q r s e f. ground arith;
  remove_keeps = λ p q s ne. ground arith;
}

abbrev pub memory_volume : IsVolume memory_host
memory_volume = memory_volume_with memory_host.responses
