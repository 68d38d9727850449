-- ===== src/Daemon/Fs/Write.antt =====
-- `fs.write`: the preconditions, and the direct and the atomic way to write
-- (device/rsdbd/src/main.rs).
use rsdb.Base.{
  ℕ, Bool, true, false, not, ◌&&◌, ◌||◌, Option, none, some, [], ◌∷◌, ◌++◌, Result, ok, err,
}
use rsdb.Base.{length, ltb, ◌==◌, if◌then◌else◌}
use rsdb.Base.Exec.{Exec, pure, throw, lift, map_error, ◌>>=◌, ◌>>◌}
use rsdb.Base.Texts.{Text, Bytes, codes, is_empty, text_eq, decimal_digits}
use rsdb.Proto.Wire.{IoError, not_found}
use rsdb.Proto.Messages.{ContentEncoding, fs_write_result}
use rsdb.Proto.Io.{AsyncWrite}
use rsdb.Paths.Components.{file_name, parent, join}
use rsdb.Daemon.Error.{
  Error, from_io, invalid_request_error, fs_precondition_failed_error, io_kind_eq,
}
use rsdb.Daemon.Host.{Host, Metadata, Daemon, io_context, run_blocking_fs, respond}
use rsdb.Daemon.Fs.Entries.{
  is_file, is_dir, validate_fs_path, decode_fs_content, sha256_path, max_agent_fs_bytes,
  normalize_mode, file_mode,
}

-- `options.mode(normalize_mode(mode))`, where a mode is given.
abbrev pub wanted_mode : Option ℕ → Option ℕ
wanted_mode none = none
wanted_mode (some mode) = some (normalize_mode mode)

-- `parent().filter(|parent| !parent.is_empty()).unwrap_or(".")`
abbrev parent_or_dot : Option Text → Text
parent_or_dot none = codes "."
parent_or_dot (some []) = codes "."
parent_or_dot (some (c ∷ p)) = c ∷ p

abbrev name_or_default : Option Text → Text
name_or_default none = codes "rsdb-temp"
name_or_default (some name) = name

unfoldable pub atomic_temp_path : ℕ → Text → Text
atomic_temp_path nonce path = join (parent_or_dot (parent path)) (
    codes "."
    ++ (name_or_default (file_name path) ++ (codes ".rsdb-tmp-" ++ decimal_digits 39 nonce)))

module _ {S : Type 0} (host : Host S) where
  abbrev pub set_mode : Text → Option ℕ → Exec S Error (Unit {0})
  set_mode path none = pure tt
  set_mode path (some mode) =
      map_error (io_context (codes "failed to set permissions on " ++ path))
        (host.set_permissions path (normalize_mode mode))

  -- Open, write, flush, and set the mode: what both ways to write do to their file.
  unfoldable pub fill_file : Bool → Text → Bytes → Option ℕ → Exec S Error (Unit {0})
  fill_file create_new path bytes mode = do
    handle ←
        map_error (io_context (codes "failed to open " ++ path))
          (host.open_write (record { create_new = create_new; mode = wanted_mode mode }) path)
    map_error from_io (host.write_all handle bytes)
    map_error from_io (host.flush handle)
    set_mode path mode

  unfoldable pub write_direct_file : Text → Bytes → Option ℕ → Exec S Error (Unit {0})
  write_direct_file path bytes mode = fill_file false path bytes mode

  abbrev pub fill_and_rename : Text → Text → Bytes → Option ℕ → Exec S Error (Unit {0})
  fill_and_rename temp_path path bytes mode = do
    fill_file true temp_path bytes mode
    map_error (io_context (codes "failed to rename " ++ (temp_path ++ (codes " to " ++ path))))
        (host.rename temp_path path)

  -- `if result.is_err() { let _ = remove_file(&temp_path); } result`
  abbrev pub clean_up : Text → Result Error (Unit {0}) → S → Result Error (Unit {0}) × S
  clean_up temp_path (ok done) s = (ok done, s)
  clean_up temp_path (err e) s = (err e, (host.remove_file temp_path s).1)

  unfoldable pub write_atomic_file : Text → Bytes → Option ℕ → Exec S Error (Unit {0})
  write_atomic_file path bytes mode s =
      let temp_path = atomic_temp_path (host.nonce s) path in
      let (result, s') = fill_and_rename temp_path path bytes mode s in clean_up temp_path result s'

  -- `symlink_metadata`, with a missing file told apart from the errors.
  unfoldable pub stat_optional : Text → Exec S Error (Option Metadata)
  stat_optional path s = elim (host.symlink_metadata path s) [
    | ok metadata ↦ (ok (some metadata), s)
    | err e ↦
        if io_kind_eq e.kind not_found
        then (ok none, s)
        else (err (io_context (codes "failed to stat " ++ path) e), s)
  ]

  -- `create_dir_all(parent)` where a parent was asked for and there is one.
  abbrev pub create_if : Bool → Option Text → Exec S Error (Unit {0})
  create_if create_parent none = pure tt
  create_if create_parent (some dir) =
      if not (is_empty dir) && create_parent
      then map_error (io_context (codes "failed to create " ++ dir)) (host.create_dir_all dir)
      else pure tt

  abbrev pub ensure_parent : Bool → Text → Exec S Error (Unit {0})
  ensure_parent create_parent path = create_if create_parent (parent path)

abbrev exists_as_dir : Option Metadata → Bool
exists_as_dir none = false
exists_as_dir (some metadata) = is_dir metadata

abbrev exists : Option Metadata → Bool
exists none = false
exists (some metadata) = true

-- The checks between the `stat` and the hash precondition.
unfoldable pub check_target : Text → Bool → Option Metadata → Result Error (Unit {0})
check_target path if_missing existing =
    if exists_as_dir existing
    then err (invalid_request_error (codes "path is a directory: " ++ path))
    else if if_missing && exists existing
    then err (fs_precondition_failed_error (codes "path already exists: " ++ path))
    else ok tt

module _ {S : Type 0} (host : Host S) where
  abbrev same_hash : Text → Text → Text → Exec S Error (Option Text)
  same_hash path expected actual =
      if text_eq actual expected
      then pure (some actual)
      else throw (fs_precondition_failed_error (codes "sha256 precondition failed for " ++ path))

  -- The hash precondition, with the hash of the old content where it was computed.
  unfoldable pub check_sha256 : Text → Option Text → Option Metadata → Exec S Error (Option Text)
  check_sha256 path none existing = pure none
  check_sha256 path (some expected) none =
      throw (fs_precondition_failed_error (codes "path does not exist: " ++ path))
  check_sha256 path (some expected) (some metadata) =
      if is_file metadata
      then (do actual ← sha256_path host path; same_hash path expected actual)
      else throw (fs_precondition_failed_error (codes "path is not a regular file: " ++ path))

  abbrev previous_hash : Text → Option Text → Exec S Error Text
  previous_hash path none = sha256_path host path
  previous_hash path (some hash) = pure hash

  -- Whether the write changes the content of a regular file, or makes one.
  unfoldable pub content_changes : Text → Bytes → Option Text → Option Metadata → Exec S Error Bool
  content_changes path bytes previous none = pure true
  content_changes path bytes previous (some metadata) =
      if not (is_file metadata) || not (metadata.len == length bytes)
      then pure true
      else (do old ← previous_hash path previous; pure (not (text_eq old (host.sha256 bytes))))

  abbrev mode_of : Result IoError Metadata → Option ℕ
  mode_of (ok metadata) = some (file_mode metadata)
  mode_of (err e) = none

  -- `symlink_metadata(&requested).ok().map(|metadata| file_mode(&metadata))`
  abbrev pub final_mode : Text → Exec S Error (Option ℕ)
  final_mode path s = (ok (mode_of (host.symlink_metadata path s)), s)

  unfoldable pub write_file : Bool → Text → Bytes → Option ℕ → Exec S Error (Unit {0})
  write_file true path bytes mode = write_atomic_file host path bytes mode
  write_file false path bytes mode = write_direct_file host path bytes mode

  abbrev pub within_limit : Bytes → Result Error (Unit {0})
  within_limit bytes =
      if ltb max_agent_fs_bytes (length bytes)
      then err (invalid_request_error (codes "write exceeds maximum payload of 4194304 bytes"))
      else ok tt

module _ {W S : Type 0} ⦃w : AsyncWrite W⦄ (host : Host S) (request_id : ℕ) where
  unfoldable pub handle_fs_write :
      (path content : Text) (encoding : ContentEncoding) (mode : Option ℕ)
      (create_parent atomic if_missing : Bool) (if_sha256 : Option Text)
      → Daemon W S (Unit {0})
  unfolding validate_fs_path decode_fs_content stat_optional check_target check_sha256
      content_changes write_file
  handle_fs_write path content encoding mode create_parent atomic if_missing if_sha256 = do
    requested ← lift (validate_fs_path path)
    bytes ← lift (decode_fs_content host content encoding)
    lift (within_limit host bytes)
    run_blocking_fs (ensure_parent host create_parent requested)
    existing ← run_blocking_fs (stat_optional host requested)
    lift (check_target requested if_missing existing)
    previous ← run_blocking_fs (check_sha256 host requested if_sha256 existing)
    changed ← run_blocking_fs (content_changes host requested bytes previous existing)
    run_blocking_fs (write_file host atomic requested bytes mode)
    mode' ← run_blocking_fs (final_mode host requested)
    respond host request_id (
        fs_write_result (record {
          path = requested;
          bytes_written = length bytes;
          mode = mode';
          sha256 = some (host.sha256 bytes);
          changed = changed;
        }))
