-- ===== src/Client/Agent/Input.antt =====
-- How the arguments of `rsdb agent fs` are read: parse_mode, read_fs_write_input and
-- encode_local_content (crates/rsdb-cli/src/main.rs).
use rsdb.Base.{
  ℕ, ◌+◌, ◌*◌, ◌-◌, ◌^◌, pos, Bool, true, false, ◌&&◌, Option, none, some, [], ◌∷◌, ◌++◌, Result,
  ok, err, ltb, leb, ◌==◌, if◌then◌else◌,
}
use rsdb.Base.Exec.{Exec, throw, map_error}
use rsdb.Base.Texts.{Text, Bytes, codes, is_empty}
use rsdb.Proto.Wire.{IoError}
use rsdb.Proto.Messages.{ContentEncoding, utf8, base64}
use rsdb.Daemon.Host.{Host}
use rsdb.Daemon.Transfer.Roots.{is_blank}
use rsdb.Daemon.Error.{from_io}
use rsdb.Client.Agent.Failure.{
  Failure, text, client_error, internal_agent_failure, invalid_request_failure,
}
use rsdb.Client.Agent.Remote.{path_details}

-- `trim`, of ASCII white space.
abbrev pub trim_start : Text → Text
trim_start [] = []
trim_start (c ∷ cs) = let rest = trim_start cs in if is_blank c then rest else c ∷ cs

abbrev pub trim_end : Text → Text
trim_end [] = []
trim_end (c ∷ cs) = elim (trim_end cs) [
  | [] ↦ if is_blank c then [] else c ∷ []
  | d ∷ ds ↦ c ∷ d ∷ ds
]

-- `strip_prefix(..).unwrap_or(value)`
abbrev pub without_prefix : Text → Text → Option Text
without_prefix [] value = some value
without_prefix (p ∷ ps) [] = none
without_prefix (p ∷ ps) (c ∷ cs) = let rest = without_prefix ps cs in if c == p then rest else none

abbrev pub strip_text : Text → Text → Text
strip_text prefix value = elim (without_prefix prefix value) [ none ↦ value | some rest ↦ rest ]

-- The octal digits of a number below 2^32, after those that were read.
abbrev pub octal_digits : ℕ → Text → Option ℕ
octal_digits n [] = some n
octal_digits n (c ∷ cs) =
    let rest = octal_digits (n * 8 + (c - b'0')) cs in
    if leb b'0' c && (leb c b'7' && ltb (n * 8 + (c - b'0')) (2 ^ 32)) then rest else none

-- `u32::from_str_radix(.., 8)`
abbrev pub from_octal : Text → Option ℕ
from_octal [] = none
from_octal (c ∷ cs) =
    if c == b'+' then (if is_empty cs then none else octal_digits 0 cs) else octal_digits 0 (c ∷ cs)

abbrev pub or_zero_digit : Text → Text
or_zero_digit [] = codes "0"
or_zero_digit (c ∷ cs) = c ∷ cs

abbrev pub invalid_mode : Text → Failure
invalid_mode value =
    invalid_request_failure
      (codes "invalid mode `" ++ (value ++ codes "`; use an octal value like 755 or 0644")) none
      ((codes "field", text (codes "mode")) ∷ [])

abbrev pub mode_or_fail : Text → Option ℕ → Result Failure ℕ
mode_or_fail value none = err (invalid_mode value)
mode_or_fail value (some mode) = ok mode

unfoldable pub parse_mode : Text → Result Failure ℕ
unfolding invalid_request_failure
parse_mode value =
    let trimmed = strip_text (codes "0") (strip_text (codes "0o") (trim_end (trim_start value))) in
    mode_or_fail value (from_octal (or_zero_digit trimmed))

-- `mode.map(parse_mode)`, with `?`.
abbrev pub parse_optional_mode : Option Text → Result Failure (Option ℕ)
parse_optional_mode none = ok none
parse_optional_mode (some value) = elim (parse_mode value) [
  | ok mode ↦ ok (some mode)
  | err e ↦ err e
]

-- The files and the standard input of the client: `fs::read` and `read_to_end`.
pub record Console (S : Type 0) : Type 0 where
  pub read_file : Text → Exec S IoError Bytes
  pub read_stdin : Exec S IoError Bytes

module _ {S : Type 0} (host : Host S) (console : Console S) where
  abbrev unread_file : Text → IoError → Failure
  unread_file path e = record {
    code = codes "fs.not_found";
    message = host.show_io e;
    target = none;
    retryable = false;
    details = path_details path;
    exit_code = pos 1;
  }

  unfoldable pub read_fs_write_input : Option Text → Bool → Exec S Failure Bytes
  unfolding invalid_request_failure internal_agent_failure
  read_fs_write_input (some path) true =
      throw (invalid_request_failure (codes "use either --input-file or --stdin, not both") none [])
  read_fs_write_input none false =
      throw
        (invalid_request_failure (codes "fs.write requires --input-file <path> or --stdin") none [])
  read_fs_write_input (some path) false = map_error (unread_file path) (console.read_file path)
  read_fs_write_input none true =
      map_error (λ e. internal_agent_failure (client_error host (from_io e))) console.read_stdin

  unfoldable pub encode_local_content : Bytes → ContentEncoding → Result Failure Text
  unfolding invalid_request_failure
  encode_local_content bytes utf8 =
      if host.valid_utf8 bytes
      then ok bytes
      else err (
          invalid_request_failure (codes "input is not valid UTF-8; use --encoding base64 instead")
            none [])
  encode_local_content bytes base64 = ok (host.base64_encode bytes)
