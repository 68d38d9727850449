-- ===== src/Client/States.antt =====
-- What a transfer should leave and what is there: transfer_states_match and the states that it compares
-- (crates/rsdb-cli/src/main.rs). A `BTreeMap` is a list of its pairs, each key once.
use rsdb.Base.{
  ℕ, Bool, true, false, ◌&&◌, Option, none, some, List, [], ◌∷◌, ◌++◌, all, Result, ok, err, ◌==◌,
  if◌then◌else◌,
}
use rsdb.Base.Texts.{Text, codes, text_eq}
use rsdb.Proto.Messages.{
  TransferEntryKind, TransferEntry, FsEntryKind, AgentFsStat, AgentFsListEntry,
}
use rsdb.Daemon.Error.{Error, bail}

pub record TransferPathState : Type 0 where
  pub kind : FsEntryKind
  pub size : Option ℕ
  pub sha256 : Option Text

abbrev pub StateMap : Type 0
StateMap = List (Text × TransferPathState)

abbrev without : Text → StateMap → StateMap
without path [] = []
without path ((key, value) ∷ states) =
    let rest = without path states in if text_eq key path then rest else (key, value) ∷ rest

-- `insert`
abbrev pub insert_state : Text → TransferPathState → StateMap → StateMap
insert_state path value states = (path, value) ∷ without path states

-- `get`
abbrev pub get_state : Text → StateMap → Option TransferPathState
get_state path [] = none
get_state path ((key, value) ∷ states) =
    let rest = get_state path states in if text_eq key path then some value else rest

abbrev kind_code : FsEntryKind → ℕ
kind_code FsEntryKind.file = 0
kind_code FsEntryKind.directory = 1
kind_code FsEntryKind.symlink = 2
kind_code FsEntryKind.other = 3

abbrev same_size : Option ℕ → Option ℕ → Bool
same_size none none = true
same_size (some a) (some b) = a == b
same_size a b = false

-- A hash that is expected has to be there; one that is not is not compared.
abbrev same_hash : Option Text → Option Text → Bool
same_hash (some expected) (some actual) = text_eq expected actual
same_hash (some expected) none = false
same_hash none actual = true

abbrev state_matches : TransferPathState → Option TransferPathState → Bool
state_matches expected none = false
state_matches expected (some actual) =
    (kind_code expected.kind == kind_code actual.kind)
    && (same_size expected.size actual.size && same_hash expected.sha256 actual.sha256)

unfoldable pub transfer_states_match : StateMap → StateMap → Bool
transfer_states_match expected actual =
    all (λ state. state_matches state.1 (get_state state.0 actual)) expected

abbrev pub transfer_entry_kind_to_fs_kind : TransferEntryKind → FsEntryKind
transfer_entry_kind_to_fs_kind TransferEntryKind.file = FsEntryKind.file
transfer_entry_kind_to_fs_kind TransferEntryKind.directory = FsEntryKind.directory

abbrev entry_size : TransferEntryKind → ℕ → Option ℕ
entry_size TransferEntryKind.file size = some size
entry_size TransferEntryKind.directory size = none

abbrev entry_state : TransferEntry → TransferPathState
entry_state entry = record {
  kind = transfer_entry_kind_to_fs_kind entry.kind;
  size = entry_size entry.kind entry.size;
  sha256 = none;
}

abbrev insert_entries : ℕ → List TransferEntry → StateMap → StateMap
insert_entries root_index [] states = states
insert_entries root_index (entry ∷ entries) states =
    if entry.root_index == root_index
    then insert_entries root_index entries
        (insert_state entry.relative_path (entry_state entry) states)
    else insert_entries root_index entries states

unfoldable pub expected_transfer_state_for_root : List TransferEntry → ℕ → StateMap
expected_transfer_state_for_root entries root_index = insert_entries root_index entries []

abbrev pub size_of_file : FsEntryKind → ℕ → Option ℕ
size_of_file FsEntryKind.file size = some size
size_of_file kind size = none

abbrev or_zero : Option ℕ → ℕ
or_zero none = 0
or_zero (some n) = n

-- The error becomes an internal failure of the agent command.
unfoldable pub transfer_state_from_stat : AgentFsStat → Result Error TransferPathState
transfer_state_from_stat stat = elim stat.kind [
  | none ↦ err (bail (codes "fs.stat returned no kind for existing path " ++ stat.path))
  | some kind ↦
      ok
        (record { size = size_of_file kind (or_zero stat.size); sha256 = stat.sha256; kind = kind })
]

unfoldable pub transfer_state_from_entry : AgentFsListEntry → TransferPathState
transfer_state_from_entry entry = record {
  kind = entry.kind;
  size = size_of_file entry.kind entry.size;
  sha256 = entry.sha256;
}
