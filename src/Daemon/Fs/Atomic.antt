-- ===== src/Daemon/Fs/Atomic.antt =====
-- `write_atomic_file` replaces a file as a whole (device/rsdbd/src/main.rs).
use rsdb.Base.{
  Result-cases, Bool, ℕ, false, true, Option, none, some, [], ◌++◌, ok, err, ◌≡◌, ◌⊎◌, inl, inr,
  refl, arith,
}
use rsdb.Base.Texts.{Text, Bytes, text_eq, codes}
use rsdb.Daemon.Error.{Error}
use rsdb.Daemon.Host.{Host, OpenOptions, io_context}
use rsdb.Daemon.Fs.Volume.{IsVolume}
use rsdb.Daemon.Fs.Write.{fill_file, write_atomic_file, atomic_temp_path, set_mode, wanted_mode}

module _ {S : Type 0} (host : Host S) (volume : IsVolume host) where
  open volume use {content, target}

  set_mode_keeps :
      (p q : Text) (mode : Option ℕ) (s : S) → content q (set_mode host p mode s).1 ≡ content q s
  set_mode_keeps p q none s = refl
  set_mode_keeps p q (some mode) s = volume.chmod_keeps p q _ s

  module _ (create_new : Bool) (p : Text) (bytes : Bytes) (mode : Option ℕ) (s : S) where
    options : OpenOptions
    options = record { create_new = create_new; mode = wanted_mode mode }

    -- Filling one file leaves the others as they are, wherever it stops.
    fill_file_keeps :
        (q : Text)
        → text_eq p q ≡ false
        → content q (fill_file host create_new p bytes mode s).1 ≡ content q s
    unfolding fill_file options
    fill_file_keeps q ne =
        let s1 = (host.open_write options p s).1 in
        elim (Result-cases (host.open_write options p s).0) [
          | inl (handle, e) ↦
              let s2 = (host.write_all handle bytes s1).1 in
              ground (
                arith,
                volume.opened options p s handle e,
                volume.open_keeps options p q s ne,
                volume.write_keeps handle bytes p q s1,
                volume.flush_keeps handle q s2,
                set_mode_keeps p q mode (host.flush handle s2).1,
              )
          | inr (_, e) ↦ ground (arith, volume.open_keeps options p q s ne)
        ]

    -- A file that was filled to the end holds the bytes.
    fill_file_ok :
        (fill_file host create_new p bytes mode s).0 ≡ ok tt
        → content p (fill_file host create_new p bytes mode s).1 ≡ some bytes
    unfolding fill_file options
    fill_file_ok done =
        let s1 = (host.open_write options p s).1 in
        elim (Result-cases (host.open_write options p s).0) [
          | inl (handle, e) ↦
              let s2 = (host.write_all handle bytes s1).1 in
              ground (
                arith,
                volume.opened options p s handle e,
                volume.written handle bytes [] p s1,
                volume.flush_keeps handle p s2,
                set_mode_keeps p p mode (host.flush handle s2).1,
              )
          | inr (_, e) ↦ ground arith
        ]

  -- On a file system with the laws of `IsVolume`, an atomic write whose temporary file is not the
  -- file itself ends in one of two ways: it succeeds, and the file holds exactly the new bytes; or
  -- it fails, and the file holds what it held before.
  pub write_atomic_file_all_or_nothing :
      (path : Text) (bytes : Bytes) (mode : Option ℕ) (s : S)
      → text_eq (atomic_temp_path (host.nonce s) path) path ≡ false
      → (((write_atomic_file host path bytes mode s).0 ≡ ok tt)
          × (content path (write_atomic_file host path bytes mode s).1 ≡ some bytes))
        ⊎ ((e : Error) × ((write_atomic_file host path bytes mode s).0 ≡ err e)
            × (content path (write_atomic_file host path bytes mode s).1 ≡ content path s))
  unfolding write_atomic_file
  write_atomic_file_all_or_nothing path bytes mode s ne =
      let temp = atomic_temp_path (host.nonce s) path in
      let filled = fill_file host true temp bytes mode s in
      elim (Result-cases filled.0) [
        | inl (tt, e) ↦ elim (Result-cases (host.rename temp path filled.1).0) [
          | inl (tt, r) ↦ inl (
            ground arith,
            ground
                (arith, volume.renamed temp path filled.1 r, fill_file_ok true temp bytes mode s e),
          )
          | inr (io, r) ↦ inr (
            io_context (codes "failed to rename " ++ (temp ++ (codes " to " ++ path))) io,
            ground arith,
            ground (
              arith,
              volume.rename_failed temp path path filled.1 io r,
              volume.remove_keeps temp path (host.rename temp path filled.1).1 ne,
              fill_file_keeps true temp bytes mode s path ne,
            ),
          )
        ]
        | inr (error, e) ↦ inr (
          error,
          ground arith,
          ground (
            arith,
            volume.remove_keeps temp path filled.1 ne,
            fill_file_keeps true temp bytes mode s path ne,
          ),
        )
      ]
