-- ===== src/Client/Batch/Items.antt =====
-- The entries of a batch, and how the client sends their files: stream_local_batch_files
-- (crates/rsdb-cli/src/main.rs).
use mathlib.Core.List.{append-nil, append_assoc}
use rsdb.Base.{
  ℕ, ◌+◌, ◌≤◌, ◌≡◌, refl, sym, ap, ◌∙◌, arith, false, Option, none, some, List, [], ◌∷◌, ◌++◌, map,
  ok, length, length-append, concat, All, ==_iff,
}
use rsdb.Base.Texts.{Text, Bytes, text_eq}
use rsdb.Proto.Wire.{file, default_stream_chunk_size}
use rsdb.Proto.Messages.{TransferEntry, TransferEntryKind, directory}
use rsdb.Proto.Messages
use rsdb.Proto.Io.{AsyncWrite}
use rsdb.Proto.Writers.{IsAppending, write_stream_frame-sent}
use rsdb.Paths.Transfer.{resolve_transfer_entry_path}
use rsdb.Daemon.Host.{Host, World}
use rsdb.Daemon.Transfer.Delivery.{IsChunk, frames}
use rsdb.Client.Batch.Manifest.{LocalBatchFile}
use rsdb.Client.Batch.Receive.{client_request_id}
use rsdb.Client.Batch.Exchange.{send_local_reads, send_local_file, send_local_files}

-- An entry of a batch with its path on the device and, for a file, its local path and the chunks that
-- its reads return.
pub record Item : Type 0 where
  pub root_index : ℕ
  pub relative_path : Text
  pub mode : ℕ
  pub path : Text
  pub source : Option (Text × List Bytes)

abbrev pub chunks_of : Option (Text × List Bytes) → List Bytes
chunks_of none = []
chunks_of (some (local, chunks)) = chunks

abbrev kind_of : Option (Text × List Bytes) → TransferEntryKind
kind_of none = directory
kind_of (some source) = Messages.TransferEntryKind.file

-- The bytes of an item.
abbrev pub bytes_of : Item → Bytes
bytes_of item = concat (chunks_of item.source)

abbrev pub entry_of : Item → TransferEntry
entry_of item = record {
  root_index = item.root_index;
  relative_path = item.relative_path;
  kind = kind_of item.source;
  mode = item.mode;
  size = length (bytes_of item);
}

abbrev pub file_of : ℕ → Option (Text × List Bytes) → List LocalBatchFile
file_of root_index none = []
file_of root_index (some (local, chunks)) =
    record { root_index = root_index; path = local; size = length (concat chunks) } ∷ []

abbrev pub files_of : List Item → List LocalBatchFile
files_of [] = []
files_of (item ∷ items) = file_of item.root_index item.source ++ files_of items

abbrev pub total_of : List Item → ℕ
total_of [] = 0
total_of (item ∷ items) = length (bytes_of item) + total_of items

-- No entry goes to the path of an earlier one.
abbrev pub AreApart : List Item → Type 0
AreApart [] = Unit
AreApart (item ∷ items) = All (λ later. text_eq later.path item.path ≡ false) items × AreApart items

abbrev pub item_frames : List Item → Bytes
item_frames [] = []
item_frames (item ∷ items) = frames client_request_id (chunks_of item.source) ++ item_frames items

-- Where an entry goes, with fuel enough for its chunks.
pub record IsPlaced (fuel : ℕ) (root_paths : List Text) (item : Item) : Type 0 where
  pub resolved : resolve_transfer_entry_path root_paths (entry_of item) ≡ ok item.path
  pub fits : All IsChunk (chunks_of item.source)
  pub enough : length (chunks_of item.source) ≤ fuel

module _ {T : Type 0} (sender : Host T) where
  -- The client can read the file whenever it comes to it, in chunks that are not empty and fit in
  -- frames.
  abbrev pub IsReadable : Option (Text × List Bytes) → Type 0
  IsReadable none = Unit
  IsReadable (some (local, chunks)) =
      All IsChunk chunks
      × ((s : T)
          → (handle : ℕ) × ((sender.open_read local s).0 ≡ ok handle)
            × (sender.reads handle default_stream_chunk_size (sender.open_read local s).1
                ≡ map (λ c. ok c) chunks))

  module _ {W : Type 0} ⦃w : AsyncWrite W⦄ {taken : W → Bytes} (law : IsAppending w taken) where
    send_local_reads-frames :
        (chunks : List Bytes) (n : ℕ) (world : World W T)
        → All IsChunk chunks
        → (out : W) × (send_local_reads sender (map (λ c. ok c) chunks) n world
            ≡ (ok (n + length (concat chunks)), record world { out = out }))
          × (taken out ≡ taken world.out ++ frames client_request_id chunks)
    unfolding send_local_reads
    send_local_reads-frames [] n world h =
        (world.out, ground arith, sym (append-nil (taken world.out)))
    send_local_reads-frames ([] ∷ chunks) n world h = cc (h.0.0)
    send_local_reads-frames ((b ∷ chunk) ∷ chunks) n world (h, hs) =
        let (out, one, grown) =
          write_stream_frame-sent law client_request_id file false (b ∷ chunk) world.out h.1 in
        let (out', more, grown') =
          send_local_reads-frames chunks (n + length (b ∷ chunk)) (record world { out = out }) hs in
        let count : n + length (b ∷ chunk) + length (concat chunks)
            ≡ n + length (concat ((b ∷ chunk) ∷ chunks)) =
          omega (arith, length-append (b ∷ chunk) (concat chunks)) in
        (
          out',
          rw (one, more, count),
          grown'
              ∙ ap (λ t. t ++ frames client_request_id chunks) grown
              ∙ append_assoc (taken world.out) _ (frames client_request_id chunks),
        )

    send_local_file-frames :
        (root_index : ℕ) (local : Text) (chunks : List Bytes) (world : World W T)
        → IsReadable (some (local, chunks))
        → (out : W) × (s : T) × (send_local_file sender
              (record { root_index = root_index; path = local; size = length (concat chunks) })
              world
            ≡ (ok (length (concat chunks)), record world { out = out; fs = s }))
          × (taken out ≡ taken world.out ++ frames client_request_id chunks)
    unfolding send_local_file
    send_local_file-frames root_index local chunks world (fit, readable) =
        let (handle, found, reads) = readable world.fs in
        let (out, sent, grown) =
          send_local_reads-frames chunks 0
            (record world { fs = (sender.open_read local world.fs).1 }) fit in
        let zero_add : 0 + length (concat chunks) ≡ length (concat chunks) = omega arith in
        (
          out,
          (sender.open_read local world.fs).1,
          rw (
            found,
            reads,
            sent,
            zero_add,
            (==_iff (length (concat chunks)) (length (concat chunks))).1 refl,
          ),
          grown,
        )

    pub send_local_files-frames :
        (items : List Item) (n : ℕ) (world : World W T)
        → All (λ i. IsReadable i.source) items
        → (out : W) × (s : T) × (send_local_files sender (files_of items) n world
            ≡ (ok (n + total_of items), record world { out = out; fs = s }))
          × (taken out ≡ taken world.out ++ item_frames items)
    unfolding send_local_files
    send_local_files-frames [] n world h =
        (world.out, world.fs, ground arith, sym (append-nil (taken world.out)))
    send_local_files-frames (item ∷ items) n world (h, hs) =
        sent item.source h (λ m next. send_local_files-frames items m next hs)
      where
        sent :
            (source : Option (Text × List Bytes))
            → IsReadable source
            → ((m : ℕ) (next : World W T)
                → (out : W) × (s : T) × (send_local_files sender (files_of items) m next
                    ≡ (ok (m + total_of items), record next { out = out; fs = s }))
                  × (taken out ≡ taken next.out ++ item_frames items))
            → (out : W) × (s : T) × (send_local_files sender
                  (file_of item.root_index source ++ files_of items)
                  n
                  world
                ≡ (
                  ok (n + (length (concat (chunks_of source)) + total_of items)),
                  record world { out = out; fs = s },
                ))
              × (taken out
                  ≡ taken world.out
                    ++ (frames client_request_id (chunks_of source) ++ item_frames items))
        sent none readable others =
            let (out, s, run, grown) = others n world in (out, s, ground (arith, run), grown)
        sent (some (local, chunks)) readable others =
            let (out, s, one, grown) =
              send_local_file-frames item.root_index local chunks world readable in
            let (out', s', more, grown') =
              others (n + length (concat chunks)) (record world { out = out; fs = s }) in
            (
              out',
              s',
              ground (arith, one, more),
              grown'
                  ∙ ap (λ t. t ++ item_frames items) grown
                  ∙ append_assoc (taken world.out) (frames client_request_id chunks)
                      (item_frames items),
            )

IsReadable-chunks :
    {T : Type 0} (sender : Host T) (source : Option (Text × List Bytes))
    → IsReadable sender source
    → All IsChunk (chunks_of source)
IsReadable-chunks sender none h = tt
IsReadable-chunks sender (some (local, chunks)) h = h.0

pub All-IsReadable-chunks :
    {T : Type 0} (sender : Host T) (items : List Item)
    → All (λ i. IsReadable sender i.source) items
    → All (λ i. All IsChunk (chunks_of i.source)) items
All-IsReadable-chunks sender [] readable = tt
All-IsReadable-chunks sender (item ∷ items) (h, hs) =
    (IsReadable-chunks sender item.source h, All-IsReadable-chunks sender items hs)

pub All-IsPlaced :
    (fuel : ℕ) (root_paths : List Text) (items : List Item)
    → All (λ i. All IsChunk (chunks_of i.source)) items
    → All (λ i. resolve_transfer_entry_path root_paths (entry_of i) ≡ ok i.path) items
    → All (λ i. length (chunks_of i.source) ≤ fuel) items
    → All (IsPlaced fuel root_paths) items
All-IsPlaced fuel root_paths [] chunked resolved enough = tt
All-IsPlaced fuel root_paths (item ∷ items) (h, hs) (r, rs) (n, ns) =
    (record { resolved = r; fits = h; enough = n }, All-IsPlaced fuel root_paths items hs rs ns)
