-- ===== src/Client/Batch/Mirrored.antt =====
-- The client receives and sends the files of a batch as the daemon does, but for the text of errors
-- (crates/rsdb-cli/src/main.rs, device/rsdbd/src/main.rs).
use Prim.Native.Nat.{bit_and}
use rsdb.Base.{
  ℕ, ◌+◌, ◌≡◌, refl, arith, false, ◌==◌, Option, none, some, List, [], ◌∷◌, ◌++◌, Result, ok, err,
  Result-cases, Bool-cases, inl, inr, All,
}
use rsdb.Base.Exec.{Exec, continue, pure, ◌>>=◌, ◌>>◌}
use rsdb.Base.Texts.{Text, codes}
use rsdb.Proto.Wire.{IoError}
use rsdb.Proto.Messages.{TransferEntry, TransferEntryKind, directory, file}
use rsdb.Paths.Components.{parent}
use rsdb.Daemon.Error.{Error, from_io}
use rsdb.Daemon.Host.{Host, World, Daemon, on_fs, io_context}
use rsdb.Daemon.Fs.Entries.{normalize_mode}
use rsdb.Daemon.Transfer.Push.{receive_entry, receive_entries, create_parent, chmod_unless_zero}
use rsdb.Client.Batch.Receive.{
  client_request_id, receive_local_entry, receive_local_entries, create_local_output_file,
  receive_local_file, create_local_parent, local_chmod_unless_zero,
}
use rsdb.Client.Batch.Pulled.{IsLike, same-IsLike, continue-IsLike, receive_local_file-IsLike}

-- Its mode is permission bits only, as the daemon's manifest has it.
abbrev pub HasPlainMode : ℕ → Type 0
HasPlainMode mode = bit_and mode 0o7777 ≡ mode

normalize_mode-plain :
    (mode : ℕ) → HasPlainMode mode → (mode == 0) ≡ false → normalize_mode mode ≡ bit_and mode 0o7777
unfolding normalize_mode
normalize_mode-plain mode plain e = rw (plain, e) refl

module _ {W S : Type 0} (host : Host S) where
  pub on_fs-IsLike :
      {A : Type 0} (f g : IoError → Error) (op : Exec S IoError A) (world : World W S)
      → IsLike host (on_fs f op world) (on_fs g op world)
  on_fs-IsLike f g op world = elim (Result-cases (op world.fs).0) [
    | inl (a, e) ↦ record { same_value = ground (arith, e); same_world = refl }
    | inr (x, e) ↦ record { same_value = ground (arith, e); same_world = refl }
  ]

  parent-IsLike :
      (dir : Option Text) (world : World W S)
      → IsLike host
          (create_local_parent host dir world)
          (create_parent host client_request_id dir world)
  parent-IsLike none world = same-IsLike host _
  parent-IsLike (some []) world = same-IsLike host _
  parent-IsLike (some (c ∷ dir)) world = on_fs-IsLike _ _ (host.create_dir_all (c ∷ dir)) world

  chmod-IsLike :
      (path : Text) (mode bits : ℕ) (world : World W S)
      → ((mode == 0) ≡ false → bits ≡ bit_and mode 0o7777)
      → IsLike host
          (local_chmod_unless_zero host path mode world)
          (chmod_unless_zero host client_request_id path mode bits world)
  chmod-IsLike path mode bits world same = elim (Bool-cases (mode == 0)) [
    | inl e ↦ rw e (same-IsLike host _)
    | inr e ↦
        rw (e, same e) (on_fs-IsLike _ _ (host.set_permissions path (bit_and mode 0o7777)) world)
  ]

  assoc-IsLike :
      {A B C : Type 0} (r : Result Error A) (k : A → Daemon W S B) (l : B → Daemon W S C)
      (world : World W S) (q : Result Error C × World W S)
      → IsLike host (continue r (λ a s. continue (k a s).0 l (k a s).1) world) q
      → IsLike host (continue (continue r k world).0 l (continue r k world).1) q
  assoc-IsLike (ok a) k l world q h = h
  assoc-IsLike (err e) k l world q h = h

  receive_local_entry-IsLike :
      (fuel : ℕ) (root_paths : List Text) (root_index : ℕ) (relative_path : Text)
      (kind : TransferEntryKind) (mode size n : ℕ) (world : World W S)
      → HasPlainMode mode
      → let entry : TransferEntry = record {
        root_index = root_index;
        relative_path = relative_path;
        kind = kind;
        mode = mode;
        size = size;
      } in
        IsLike host
          (receive_local_entry host fuel root_paths entry n world)
          (receive_entry host client_request_id fuel root_paths entry n world)
  unfolding receive_local_entry receive_entry create_local_output_file
  receive_local_entry-IsLike fuel root_paths root_index relative_path directory mode size n world
        plain =
      continue-IsLike host _ _ _ _ _ _ (same-IsLike host _) λ path w1.
        continue-IsLike host _ _ _ _ _ _ (on_fs-IsLike _ _ (host.create_dir_all path) w1) λ done w2.
          continue-IsLike host _ _ _ _ _ _
            (chmod-IsLike path mode (bit_and mode 0o7777) w2 (λ e. refl))
            λ set w3. same-IsLike host _
  receive_local_entry-IsLike fuel root_paths root_index relative_path file mode size n world plain =
      continue-IsLike host _ _ _ _ _ _ (same-IsLike host _) λ path w1.
        let open_output : Daemon W S ℕ =
          on_fs (io_context (codes "failed to open local output " ++ path)) (
            host.open_write (record { create_new = false; mode = some (normalize_mode mode) })
              path) in
        let fill : ℕ → Daemon W S ℕ = λ handle.
          receive_local_file host fuel handle path size n >>= λ received.
          on_fs from_io (host.flush handle)
          >> (local_chmod_unless_zero host path mode >> pure received) in
        assoc-IsLike (create_local_parent host (parent path) w1).0 (λ made. open_output) fill
          (create_local_parent host (parent path) w1).1 _
          (continue-IsLike host _ _ _ _ _ _ (parent-IsLike (parent path) w1) λ made w2.
            continue-IsLike host _ _ _ _ _ _ (on_fs-IsLike _ _ (host.open_write _ path) w2)
              λ handle w3.
                continue-IsLike host _ _ _ _ _ _
                  (receive_local_file-IsLike host fuel handle path size n w3)
                  λ received w4.
                    continue-IsLike host _ _ _ _ _ _
                      (on_fs-IsLike from_io from_io (host.flush handle) w4)
                      λ flushed w5.
                        continue-IsLike host _ _ _ _ _ _
                          (chmod-IsLike path mode (normalize_mode mode) w5
                            (normalize_mode-plain mode plain))
                          λ set w6. same-IsLike host _)

  pub receive_local_entries-IsLike :
      (fuel : ℕ) (root_paths : List Text) (entries : List TransferEntry) (k n : ℕ)
      (world : World W S)
      → All (λ e. HasPlainMode e.mode) entries
      → IsLike host
          (receive_local_entries host fuel root_paths entries k n world)
          (receive_entries host client_request_id fuel root_paths entries k n world)
  unfolding receive_local_entries receive_entries
  receive_local_entries-IsLike fuel root_paths [] k n world plain = same-IsLike host _
  receive_local_entries-IsLike fuel root_paths (e ∷ entries) k n world (plain, all_plain) =
      continue-IsLike host _ _ _ _ _ _
        (receive_local_entry-IsLike fuel root_paths e.root_index e.relative_path e.kind e.mode
          e.size n world plain)
        λ m next. receive_local_entries-IsLike fuel root_paths entries (k + 1) m next all_plain
