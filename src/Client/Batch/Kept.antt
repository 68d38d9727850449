-- ===== src/Client/Batch/Kept.antt =====
-- A file system on which nothing fails, and the steps of a receiver that leave all files as they are
-- (device/rsdbd/src/main.rs).
use rsdb.Base.{
  ℕ, ◌≡◌, refl, ◌∙◌, Option, none, some, List, [], ◌∷◌, ok, concat, ◌==◌, Bool-cases, inl, inr,
}
use rsdb.Base.Texts.{Text, Bytes}
use rsdb.Daemon.Host.{Host, World, OpenOptions}
use rsdb.Daemon.Fs.Volume.{IsVolume}
use rsdb.Daemon.Transfer.Push.{create_dirs, create_parent, chmod_unless_zero}
use rsdb.Client.Batch.Receive.{client_request_id}

module _ {S : Type 0} (host : Host S) (volume : IsVolume host) where
  open volume use {content, target}

  -- A file system on which nothing fails that a push does, and where a new directory leaves files as
  -- they are.
  pub record NeverFails : Type 0 where
    pub opens :
        (o : OpenOptions) (p : Text) (s : S)
        → (handle : ℕ) × ((host.open_write o p s).0 ≡ ok handle)
    pub creates : (p : Text) (s : S) → (host.create_dir_all p s).0 ≡ ok tt
    pub create_keeps : (p q : Text) (s : S) → content q (host.create_dir_all p s).1 ≡ content q s
    pub writes :
        (handle : ℕ) (p : Text) (b old : Bytes) (s : S)
        → target handle s ≡ some p
        → content p s ≡ some old
        → (host.write_all handle b s).0 ≡ ok tt
    pub flushes : (handle : ℕ) (s : S) → (host.flush handle s).0 ≡ ok tt
    pub sets_permissions : (p : Text) (mode : ℕ) (s : S) → (host.set_permissions p mode s).0 ≡ ok tt

  -- A file is on the device with its bytes.
  abbrev pub HasArrived : Text → Option (Text × List Bytes) → S → Type 0
  HasArrived path none s = Unit
  HasArrived path (some (local, chunks)) s = content path s ≡ some (concat chunks)

  pub HasArrived-kept :
      (path : Text) (source : Option (Text × List Bytes)) (s s' : S)
      → content path s' ≡ content path s
      → HasArrived path source s
      → HasArrived path source s'
  HasArrived-kept path none s s' same h = tt
  HasArrived-kept path (some (local, chunks)) s s' same h = same ∙ h

module _ {W S : Type 0} (host : Host S) (volume : IsVolume host)
    (never : NeverFails host volume) where
  open volume use {content, target}

  -- Nothing was read, and no file is different.
  abbrev pub Kept : World W S → World W S → Type 0
  Kept world world' =
      (world'.inbox ≡ world.inbox)
      × (world'.out ≡ world.out)
      × ((q : Text) → content q world'.fs ≡ content q world.fs)

  pub chmod-Kept :
      (path : Text) (mode bits : ℕ) (world : World W S)
      → (world' : World W S) × (chmod_unless_zero host client_request_id path mode bits world
          ≡ (ok tt, world'))
        × Kept world world'
  chmod-Kept path mode bits world = elim (Bool-cases (mode == 0)) [
    | inl e ↦ (world, rw e, (refl, refl, λ q. refl))
    | inr e ↦ (
      record world { fs = (host.set_permissions path bits world.fs).1 },
      rw (e, never.sets_permissions path bits world.fs),
      (refl, refl, λ q. volume.chmod_keeps path q bits world.fs),
    )
  ]

  pub create_dirs-Kept :
      (path : Text) (world : World W S)
      → (world' : World W S) × (create_dirs host client_request_id path world ≡ (ok tt, world'))
        × Kept world world'
  create_dirs-Kept path world = (
    record world { fs = (host.create_dir_all path world.fs).1 },
    rw (never.creates path world.fs),
    (refl, refl, λ q. never.create_keeps path q world.fs),
  )

  pub create_parent-Kept :
      (dir : Option Text) (world : World W S)
      → (world' : World W S) × (create_parent host client_request_id dir world ≡ (ok tt, world'))
        × Kept world world'
  create_parent-Kept none world = (world, refl, (refl, refl, λ q. refl))
  create_parent-Kept (some []) world = (world, refl, (refl, refl, λ q. refl))
  create_parent-Kept (some (c ∷ dir)) world = create_dirs-Kept (c ∷ dir) world
