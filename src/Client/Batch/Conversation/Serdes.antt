-- ===== src/Client/Batch/Conversation/Serdes.antt =====
-- Serdes that know what one push needs: the request for a root with two entries, and both replies.
use rsdb.Base.{
  ℕ, ◌≡◌, refl, arith, take, drop, Option, none, some, [], ◌∷◌, ◌++◌, length, ◌==◌, if◌then◌else◌,
  take-length-append, drop-length-append,
}
use rsdb.Base.Texts.{Text, Bytes}
use rsdb.Proto.Messages.{
  ControlRequest, ControlResponse, TransferEntryKind, TransferRoot, TransferEntry, file, directory,
  ping, get_capabilities, exec, fs_stat, fs_list, fs_read, fs_write, fs_mkdir, fs_rm, fs_move, push,
  pull, push_batch, pull_batch, shell, push_batch_ready, push_batch_complete,
}
use rsdb.Proto.Frames.{Serde, IsSerde}

abbrev number : TransferEntryKind → ℕ
number file = 0
number directory = 1

abbrev kind_of : ℕ → TransferEntryKind
kind_of n = if n == 0 then file else directory

kind_of-number : (k : TransferEntryKind) → kind_of (number k) ≡ k
kind_of-number file = refl
kind_of-number directory = refl

abbrev texts_of : Text → Text → Text → Text → Bytes
texts_of destination name folder song = destination ++ (name ++ (folder ++ song))

-- The numbers of the message, the lengths of all texts but the last, then the texts.
abbrev write_push : ControlRequest → Option Bytes
write_push (push_batch destination (root ∷ []) (folder ∷ song ∷ [])) = some (
    number root.kind
    ∷ root.mode
    ∷ folder.root_index
    ∷ number folder.kind
    ∷ folder.mode
    ∷ folder.size
    ∷ song.root_index
    ∷ number song.kind
    ∷ song.mode
    ∷ song.size
    ∷ length destination
    ∷ length root.source_name
    ∷ length folder.relative_path
    ∷ texts_of destination root.source_name folder.relative_path song.relative_path)
write_push _ = none

abbrev read_push : Bytes → Option ControlRequest
read_push (rk ∷ rm ∷ fi ∷ fk ∷ fm ∷ fs ∷ si ∷ sk ∷ sm ∷ ss ∷ d ∷ n ∷ f ∷ texts) = some (
    push_batch (take d texts)
      (record { source_name = take n (drop d texts); kind = kind_of rk; mode = rm } ∷ [])
      (record {
        root_index = fi;
        relative_path = take f (drop n (drop d texts));
        kind = kind_of fk;
        mode = fm;
        size = fs;
      }
        ∷ record {
          root_index = si;
          relative_path = drop f (drop n (drop d texts));
          kind = kind_of sk;
          mode = sm;
          size = ss;
        }
        ∷ []))
read_push _ = none

push_reads_back :
    (destination : Text) (root : TransferRoot) (folder song : TransferEntry) (bytes : Bytes)
    → write_push (push_batch destination (root ∷ []) (folder ∷ song ∷ [])) ≡ some bytes
    → read_push bytes ≡ some (push_batch destination (root ∷ []) (folder ∷ song ∷ []))
push_reads_back destination root folder song bytes h = grind (
  arith,
  kind_of-number root.kind,
  kind_of-number folder.kind,
  kind_of-number song.kind,
  take-length-append destination (root.source_name ++ (folder.relative_path ++ song.relative_path)),
  drop-length-append destination (root.source_name ++ (folder.relative_path ++ song.relative_path)),
  take-length-append root.source_name (folder.relative_path ++ song.relative_path),
  drop-length-append root.source_name (folder.relative_path ++ song.relative_path),
  take-length-append folder.relative_path song.relative_path,
  drop-length-append folder.relative_path song.relative_path,
)

reads_back :
    (message : ControlRequest) (bytes : Bytes)
    → write_push message ≡ some bytes
    → read_push bytes ≡ some message
reads_back (push_batch destination (root ∷ []) (folder ∷ song ∷ [])) bytes h =
    push_reads_back destination root folder song bytes h
reads_back (push_batch destination [] entries) bytes h = ground arith
reads_back (push_batch destination (root ∷ other ∷ roots) entries) bytes h = ground arith
reads_back (push_batch destination (root ∷ []) []) bytes h = ground arith
reads_back (push_batch destination (root ∷ []) (entry ∷ [])) bytes h = ground arith
reads_back (push_batch destination (root ∷ []) (a ∷ b ∷ c ∷ entries)) bytes h = ground arith
reads_back ping bytes h = ground arith
reads_back get_capabilities bytes h = ground arith
reads_back (exec command args cwd timeout_secs stream_output) bytes h = ground arith
reads_back (fs_stat path hash) bytes h = ground arith
reads_back (fs_list path recursive max_depth include_hidden hash) bytes h = ground arith
reads_back (fs_read path encoding max_bytes) bytes h = ground arith
reads_back (fs_write path content encoding mode create_parent atomic if_missing if_sha256) bytes h =
    ground arith
reads_back (fs_mkdir path parents mode) bytes h = ground arith
reads_back (fs_rm path recursive force if_exists) bytes h = ground arith
reads_back (fs_move source destination overwrite) bytes h = ground arith
reads_back (push path mode source_name) bytes h = ground arith
reads_back (pull path) bytes h = ground arith
reads_back (pull_batch sources) bytes h = ground arith
reads_back (shell command args pty term rows cols) bytes h = ground arith

abbrev pub requests : Serde ControlRequest
requests = record { to_vec = write_push; from_slice = read_push }

pub requests-IsSerde : IsSerde requests
requests-IsSerde = record { reads_back = reads_back }

abbrev write_reply : ControlResponse → Option Bytes
write_reply push_batch_ready = some []
write_reply (push_batch_complete entries_written bytes_written) =
    some (entries_written ∷ bytes_written ∷ [])
write_reply _ = none

abbrev read_reply : Bytes → Option ControlResponse
read_reply [] = some push_batch_ready
read_reply (entries ∷ bytes ∷ []) = some (push_batch_complete entries bytes)
read_reply _ = none

abbrev pub replies : Serde ControlResponse
replies = record { to_vec = write_reply; from_slice = read_reply }
