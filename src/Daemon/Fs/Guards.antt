-- ===== src/Daemon/Fs/Guards.antt =====
-- The preconditions of the changing requests: a refused request leaves the file system and the
-- connection as they were (device/rsdbd/src/main.rs).
use rsdb.Base.{
  ℕ, ◌<◌, ◌≤◌, Bool, true, false, Option, none, some, [], ◌∷◌, ◌++◌, Result, ok, err, ◌≡◌, refl,
  arith,
}
use rsdb.Base.{length, lt→ltb}
use rsdb.Base.Texts.{Text, Bytes, is_empty, codes}
use rsdb.Proto.Messages.{ContentEncoding, ErrorCode, invalid_request, fs_precondition_failed}
use rsdb.Proto.Io.{AsyncWrite}
use rsdb.Paths.Components.{parent}
use rsdb.Daemon.Error.{
  Error, classify_fs_error, invalid_request_error, fs_precondition_failed_error,
}
use rsdb.Daemon.Host.{Host, Metadata, World}
use rsdb.Daemon.Fs.Entries.{decode_fs_content, is_dir, max_agent_fs_bytes}
use rsdb.Daemon.Fs.Write.{handle_fs_write, ensure_parent, create_if}
use rsdb.Daemon.Fs.Tree.{handle_fs_mkdir, handle_fs_move}

-- The outcome is an error that clients see as `code`, and the world is the given one.
abbrev pub Refused :
    {W S : Type 0} → Result Error (Unit {0}) × World W S → ErrorCode → World W S → Type 0
Refused outcome code world = (e : Error) × (outcome ≡ (err e, world)) × (classify_fs_error e ≡ code)

skip_parent :
    {S : Type 0} (host : Host S) (dir : Option Text) (s : S)
    → create_if host false dir s ≡ (ok tt, s)
skip_parent host none s = refl
skip_parent host (some []) s = refl
skip_parent host (some (c ∷ dir)) s = refl

no_parent :
    {S : Type 0} (host : Host S) (path : Text) (s : S)
    → ensure_parent host false path s ≡ (ok tt, s)
no_parent host path s = skip_parent host (parent path) s

module _ {W S : Type 0} ⦃w : AsyncWrite W⦄ (host : Host S) (request_id : ℕ)
    (world : World W S) where
  -- A write to a path that is not empty, of content that decodes to more than 4 MiB, is refused as
  -- an invalid request before anything is touched, whatever its other options.
  pub handle_fs_write_too_large :
      (path content : Text) (encoding : ContentEncoding) (mode : Option ℕ)
      (create_parent atomic if_missing : Bool) (if_sha256 : Option Text) (bytes : Bytes)
      → is_empty path ≡ false
      → decode_fs_content host content encoding ≡ ok bytes
      → max_agent_fs_bytes < length bytes
      → Refused
          (handle_fs_write host request_id path content encoding mode create_parent atomic
            if_missing if_sha256 world)
          invalid_request
          world
  unfolding handle_fs_write
  handle_fs_write_too_large path content encoding mode create_parent atomic if_missing if_sha256
        bytes p d n =
      (
        invalid_request_error (codes "write exceeds maximum payload of 4194304 bytes"),
        rw (p, d, lt→ltb max_agent_fs_bytes (length bytes) n),
        unfold classify_fs_error in refl,
      )

  -- A write within the limit that must create its file, and may not create parents, is refused with
  -- a failed precondition where something is there that is no directory, and changes nothing.
  pub handle_fs_write_if_missing :
      (path content : Text) (encoding : ContentEncoding) (mode : Option ℕ) (atomic : Bool)
      (if_sha256 : Option Text) (bytes : Bytes) (metadata : Metadata)
      → is_empty path ≡ false
      → decode_fs_content host content encoding ≡ ok bytes
      → length bytes ≤ max_agent_fs_bytes
      → host.symlink_metadata path world.fs ≡ ok metadata
      → is_dir metadata ≡ false
      → Refused
          (handle_fs_write host request_id path content encoding mode false atomic true if_sha256
            world)
          fs_precondition_failed
          world
  unfolding handle_fs_write
  handle_fs_write_if_missing path content encoding mode atomic if_sha256 bytes metadata p d n m k =
      (
        fs_precondition_failed_error (codes "path already exists: " ++ path),
        ground (arith, no_parent host path world.fs),
        unfold classify_fs_error in refl,
      )

  -- A move between paths that are not empty, from something onto something that is there, is refused
  -- with a failed precondition where it may not overwrite, and changes nothing.
  pub handle_fs_move_guarded :
      (source destination : Text) (from to : Metadata)
      → is_empty source ≡ false
      → is_empty destination ≡ false
      → host.symlink_metadata source world.fs ≡ ok from
      → host.symlink_metadata destination world.fs ≡ ok to
      → Refused
          (handle_fs_move host request_id source destination false world)
          fs_precondition_failed
          world
  unfolding handle_fs_move
  handle_fs_move_guarded source destination from to p q m k = (
    fs_precondition_failed_error (codes "destination already exists: " ++ destination),
    ground arith,
    unfold classify_fs_error in refl,
  )

  -- A directory is not made over something that is no directory: the request, for a path that is not
  -- empty, is refused with a failed precondition, and changes nothing.
  pub handle_fs_mkdir_guarded :
      (path : Text) (parents : Bool) (mode : Option ℕ) (metadata : Metadata)
      → is_empty path ≡ false
      → host.symlink_metadata path world.fs ≡ ok metadata
      → is_dir metadata ≡ false
      → Refused
          (handle_fs_mkdir host request_id path parents mode world)
          fs_precondition_failed
          world
  unfolding handle_fs_mkdir
  handle_fs_mkdir_guarded path parents mode metadata p m k = (
    fs_precondition_failed_error (codes "path exists and is not a directory: " ++ path),
    ground arith,
    unfold classify_fs_error in refl,
  )
