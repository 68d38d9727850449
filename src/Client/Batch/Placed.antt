-- ===== src/Client/Batch/Placed.antt =====
-- The daemon receives the entries of a batch, each at its place (device/rsdbd/src/main.rs).
use Prim.Native.Nat.{bit_and}
use mathlib.Core.List.{append_assoc}
use rsdb.Base.{
  ℕ, ◌+◌, ◌≤◌, ◌≡◌, refl, ◌∙◌, arith, false, Option, none, some, List, [], ◌∷◌, ◌++◌, map, ok,
  length, concat, All,
}
use rsdb.Base.Texts.{Text, Bytes, text_eq}
use rsdb.Paths.Transfer.{resolve_transfer_entry_path}
use rsdb.Daemon.Host.{Host, World, OpenOptions}
use rsdb.Daemon.Fs.Volume.{IsVolume}
use rsdb.Paths.Components.{parent}
use rsdb.Daemon.Fs.Entries.{normalize_mode}
use rsdb.Daemon.Transfer.Push.{receive_entry, receive_entries}
use rsdb.Daemon.Transfer.Delivery.{IsChunk, frames, receive_file-frames}
use rsdb.Client.Batch.Receive.{client_request_id}
use rsdb.Client.Batch.Items.{
  Item, chunks_of, bytes_of, entry_of, total_of, AreApart, item_frames, IsPlaced,
}
use rsdb.Client.Batch.Kept.{NeverFails, HasArrived, HasArrived-kept, chmod-Kept, create_parent-Kept}

module _ {W S : Type 0} (host : Host S) (volume : IsVolume host)
    (never : NeverFails host volume) where
  open volume use {content, target}

  -- An entry that was received: what follows its frames is left, and other files are as they were.
  record Received (item : Item) (rest : Bytes) (world world' : World W S) : Type 0 where
    pub left : world'.inbox ≡ rest
    pub kept : world'.out ≡ world.out
    pub arrived : HasArrived host volume item.path item.source world'.fs
    pub others : (q : Text) → text_eq item.path q ≡ false → content q world'.fs ≡ content q world.fs

  module _ (fuel : ℕ) (root_paths : List Text) where
    receive_file_item :
        (root_index : ℕ) (relative_path : Text) (mode : ℕ) (path local : Text) (chunks : List Bytes)
        (n : ℕ) (rest : Bytes) (world : World W S)
        → let item : Item = record {
          root_index = root_index;
          relative_path = relative_path;
          mode = mode;
          path = path;
          source = some (local, chunks);
        } in
          resolve_transfer_entry_path root_paths (entry_of item) ≡ ok path
          → All IsChunk chunks
          → length chunks ≤ fuel
          → world.inbox ≡ frames client_request_id chunks ++ rest
          → (world' : World W S) × (receive_entry host client_request_id fuel root_paths
                (entry_of item)
                n
                world
              ≡ (ok (n + length (concat chunks)), world'))
            × Received item rest world world'
    unfolding receive_entry
    receive_file_item root_index relative_path mode path local chunks n rest world resolved fit
          enough e =
        let (w1, made, (e1, o1, same1)) =
          create_parent-Kept host volume never (parent path) world in
        let options : OpenOptions = record {
          create_new = false;
          mode = some (normalize_mode mode);
        } in
        let (handle, found) = never.opens options path w1.fs in
        let w2 : World W S = record w1 { fs = (host.open_write options path w1.fs).1 } in
        let (empty, at) = volume.opened options path w1.fs handle found in
        let (w3, run, left, grown, others, kept) =
          receive_file-frames client_request_id (omega arith) host volume never.writes chunks fuel
            handle path path [] rest n w2 fit enough (e1 ∙ e) at empty in
        let w4 : World W S = record w3 { fs = (host.flush handle w3.fs).1 } in
        let (w5, set, (e5, o5, same5)) =
          chmod-Kept host volume never path mode (normalize_mode mode) w4 in
        (
          w5,
          rw (resolved, made, found, run, never.flushes handle w3.fs, set),
          record {
            left = e5 ∙ left;
            kept = o5 ∙ kept ∙ o1;
            arrived = same5 path ∙ volume.flush_keeps handle path w3.fs ∙ grown;
            others = λ q ne.
                same5 q
                ∙ volume.flush_keeps handle q w3.fs
                ∙ others q ne
                ∙ volume.open_keeps options path q w1.fs ne
                ∙ same1 q;
          },
        )

    receive_folder_item :
        (root_index : ℕ) (relative_path : Text) (mode : ℕ) (path : Text) (n : ℕ) (rest : Bytes)
        (world : World W S)
        → let item : Item = record {
          root_index = root_index;
          relative_path = relative_path;
          mode = mode;
          path = path;
          source = none;
        } in
          resolve_transfer_entry_path root_paths (entry_of item) ≡ ok path
          → world.inbox ≡ rest
          → (world' : World W S) × (receive_entry host client_request_id fuel root_paths
                (entry_of item)
                n
                world
              ≡ (ok (n + 0), world'))
            × Received item rest world world'
    unfolding receive_entry
    receive_folder_item root_index relative_path mode path n rest world resolved e =
        let w1 : World W S = record world { fs = (host.create_dir_all path world.fs).1 } in
        let (w2, set, (e2, o2, same2)) =
          chmod-Kept host volume never path mode (bit_and mode 0o7777) w1 in
        let n_add : n + 0 ≡ n = omega arith in
        (
          w2,
          rw (resolved, never.creates path world.fs, set, n_add),
          record {
            left = e2 ∙ e;
            kept = o2;
            arrived = tt;
            others = λ q ne. same2 q ∙ never.create_keeps path q world.fs;
          },
        )

    receive_item :
        (root_index : ℕ) (relative_path : Text) (mode : ℕ) (path : Text)
        (source : Option (Text × List Bytes)) (n : ℕ) (rest : Bytes) (world : World W S)
        → let item : Item = record {
          root_index = root_index;
          relative_path = relative_path;
          mode = mode;
          path = path;
          source = source;
        } in
          IsPlaced fuel root_paths item
          → world.inbox ≡ frames client_request_id (chunks_of source) ++ rest
          → (world' : World W S) × (receive_entry host client_request_id fuel root_paths
                (entry_of item)
                n
                world
              ≡ (ok (n + length (bytes_of item)), world'))
            × Received item rest world world'
    receive_item root_index relative_path mode path none n rest world placed e =
        receive_folder_item root_index relative_path mode path n rest world placed.resolved e
    receive_item root_index relative_path mode path (some (local, chunks)) n rest world placed e =
        receive_file_item root_index relative_path mode path local chunks n rest world
          placed.resolved placed.fits placed.enough e

    pub receive_entries-items :
        (items : List Item) (k n : ℕ) (rest : Bytes) (world : World W S)
        → All (IsPlaced fuel root_paths) items
        → AreApart items
        → world.inbox ≡ item_frames items ++ rest
        → (world' : World W S) × (receive_entries host client_request_id fuel root_paths
              (map entry_of items)
              k
              n
              world
            ≡ (ok (k + length items, n + total_of items), world'))
          × (world'.inbox ≡ rest)
          × (world'.out ≡ world.out)
          × All (λ i. HasArrived host volume i.path i.source world'.fs) items
          × ((q : Text)
              → All (λ i. text_eq i.path q ≡ false) items
              → content q world'.fs ≡ content q world.fs)
    unfolding receive_entries
    receive_entries-items [] k n rest world placed apart e =
        (world, ground arith, e, refl, tt, λ q ne. refl)
    receive_entries-items (item ∷ items) k n rest world (placed, all_placed) (alone, apart) e =
        let (w1, one, got) =
          receive_item item.root_index item.relative_path item.mode item.path item.source n
            (item_frames items ++ rest) world placed
            (e
              ∙ append_assoc (frames client_request_id (chunks_of item.source)) (item_frames items)
                  rest) in
        let (w2, more, left, kept, arrived, others) =
          receive_entries-items items (k + 1) (n + length (bytes_of item)) rest w1 all_placed apart
            got.left in
        let entries : k + 1 + length items ≡ k + length (item ∷ items) = omega arith in
        let bytes : n + length (bytes_of item) + total_of items ≡ n + total_of (item ∷ items) =
          omega arith in
        (
          w2,
          rw (one, more, entries, bytes),
          left,
          kept ∙ got.kept,
          (
            HasArrived-kept host volume item.path item.source w1.fs w2.fs (others item.path alone)
                got.arrived,
            arrived,
          ),
          λ q (ne, all_ne). others q all_ne ∙ got.others q ne,
        )
