-- ===== src/Daemon/Fs/Volume.antt =====
-- What the daemon relies on of a file system: the contents of its files, by path, under the
-- operations of `Host`. No file has two names.
use rsdb.Base.{ℕ, false, Option, some, [], ◌++◌, ok, err, ◌≡◌}
use rsdb.Base.Texts.{Text, Bytes, text_eq}
use rsdb.Proto.Wire.{IoError}
use rsdb.Daemon.Host.{Host, OpenOptions}

pub record IsVolume {S : Type 0} (host : Host S) : Type 0 where
  pub content : Text → S → Option Bytes
  -- The path behind an open file.
  pub target : ℕ → S → Option Text
  -- A file opened for writing is empty.
  pub opened :
      (o : OpenOptions) (p : Text) (s : S) (handle : ℕ)
      → (host.open_write o p s).0 ≡ ok handle
      → (content p (host.open_write o p s).1 ≡ some [])
        × (target handle (host.open_write o p s).1 ≡ some p)
  pub open_keeps :
      (o : OpenOptions) (p q : Text) (s : S)
      → text_eq p q ≡ false
      → content q (host.open_write o p s).1 ≡ content q s
  -- Bytes are written behind what the file holds, and to no other file.
  pub written :
      (handle : ℕ) (bytes old : Bytes) (p : Text) (s : S)
      → target handle s ≡ some p
      → content p s ≡ some old
      → (host.write_all handle bytes s).0 ≡ ok tt
      → content p (host.write_all handle bytes s).1 ≡ some (old ++ bytes)
  pub write_keeps :
      (handle : ℕ) (bytes : Bytes) (p q : Text) (s : S)
      → target handle s ≡ some p
      → text_eq p q ≡ false
      → content q (host.write_all handle bytes s).1 ≡ content q s
  pub write_target :
      (handle : ℕ) (bytes : Bytes) (s : S)
      → target handle (host.write_all handle bytes s).1 ≡ target handle s
  pub flush_keeps :
      (handle : ℕ) (q : Text) (s : S) → content q (host.flush handle s).1 ≡ content q s
  pub chmod_keeps :
      (p q : Text) (mode : ℕ) (s : S) → content q (host.set_permissions p mode s).1 ≡ content q s
  -- A rename gives the new name the content, or fails and changes nothing.
  pub renamed :
      (p q : Text) (s : S)
      → (host.rename p q s).0 ≡ ok tt
      → content q (host.rename p q s).1 ≡ content p s
  pub rename_failed :
      (p q r : Text) (s : S) (e : IoError)
      → (host.rename p q s).0 ≡ err e
      → content r (host.rename p q s).1 ≡ content r s
  pub remove_keeps :
      (p q : Text) (s : S) → text_eq p q ≡ false → content q (host.remove_file p s).1 ≡ content q s
