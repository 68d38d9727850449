-- ===== src/Daemon/Runs.antt =====
-- Concrete requests, and the theorems about the daemon at concrete inputs.
use rsdb.Base.{
  ℕ, ◌+◌, ◌≡◌, ◌≢◌, ◌⊎◌, if◌then◌else◌, refl, arith, ◌==◌, true, false, none, some, List, [], ◌∷◌,
  ◌++◌, ok, err, length, map, replicate, length-replicate,
}
use rsdb.Base.Texts.{Bytes, Text, codes, text_eq}
use rsdb.Proto.Messages.{
  file, directory, AgentFsListEntry, utf8, invalid_request, fs_precondition_failed, fs_read_result,
}
use rsdb.Proto.Io.{memory_writer}
use rsdb.Daemon.Transfer.Chunks.{read_file_stream_chunk_into}
use rsdb.Proto.Frames.{
  read_stream_frame_into, decode_stream_frame_header, write_stream_frame, write_frame,
}
use rsdb.Proto.Io.{read_exact}
use rsdb.Proto.Wire.{decode, encode, kind_from_u16, channel_from_u32}
use rsdb.Daemon.Error.{Error, out_of_fuel}
use rsdb.Daemon.Host.{Host, World, respond}
use rsdb.Daemon.Memory.{Memory, memory_host, empty_memory, memory_volume, memory_volume_with}
use rsdb.Daemon.Fs.Guards.{
  handle_fs_write_too_large, Refused, handle_fs_write_if_missing, handle_fs_move_guarded,
}
use rsdb.Daemon.Fs.Write.{write_atomic_file, handle_fs_write, atomic_temp_path}
use rsdb.Paths.Components.{join, parent, file_name}
use rsdb.Paths.Components.{components}
use rsdb.Daemon.Fs.Entries.{decode_fs_content, encode_fs_content, build_fs_entry, fs_entry_kind}
use rsdb.Daemon.Fs.Inspect.{handle_fs_read, collect_fs_entries, blocking_fs_list, is_hidden}
use rsdb.Daemon.Fs.Order.{sort_paths, insert_path, path_le, IsSorted}
use rsdb.Daemon.Fs.Listing.{visible, collect_fs_entries-visible}
use rsdb.Daemon.Fs.Depth.{blocking_fs_list_ends}
use rsdb.Daemon.Fs.Reads.{handle_fs_read-first_bytes}
use rsdb.Daemon.Fs.Tree.{handle_fs_move}
use rsdb.Daemon.Fs.Atomic.{write_atomic_file_all_or_nothing}
use rsdb.Daemon.Transfer.Exact.{receive_file_exact}
use rsdb.Daemon.Transfer.Push.{receive_file}
use rsdb.Daemon.Transfer.Stream.{send_reads}

abbrev notes : Text
notes = codes "/notes"

abbrev two_files : Memory
two_files = record empty_memory {
  files = λ p.
      if text_eq p notes
      then some (codes "old")
      else if text_eq p (codes "/b")
      then some []
      else none;
}

abbrev world_with : Memory → World Bytes Memory
world_with m = record { inbox = []; out = []; fs = m }

write_atomic_file_all_or_nothing_example :
    (((write_atomic_file memory_host notes (codes "new") none two_files).0 ≡ ok tt)
      × ((write_atomic_file memory_host notes (codes "new") none two_files).1.files notes
          ≡ some (codes "new")))
    ⊎ ((e : Error) × ((write_atomic_file memory_host notes (codes "new") none two_files).0 ≡ err e)
        × ((write_atomic_file memory_host notes (codes "new") none two_files).1.files notes
            ≡ two_files.files notes))
unfolding memory_volume_with atomic_temp_path join parent file_name
write_atomic_file_all_or_nothing_example =
    write_atomic_file_all_or_nothing memory_host memory_volume notes (codes "new") none two_files
      refl

handle_fs_write_if_missing_example :
    Refused
      (handle_fs_write memory_host 5 notes
        (codes "new")
        utf8
        none
        false
        true
        true
        none
        (world_with two_files))
      fs_precondition_failed
      (world_with two_files)
unfolding decode_fs_content
handle_fs_write_if_missing_example =
    handle_fs_write_if_missing memory_host 5 (world_with two_files) notes (codes "new") utf8 none
      true none (codes "new")
      (record { file_type = file; len = 3; mode_bits = 0o644; mtime_ms = none }) refl refl
      (omega arith) refl refl

handle_fs_move_guarded_example :
    Refused
      (handle_fs_move memory_host 5 notes (codes "/b") false (world_with two_files))
      fs_precondition_failed
      (world_with two_files)
handle_fs_move_guarded_example =
    handle_fs_move_guarded memory_host 5 (world_with two_files) notes (codes "/b")
      (record { file_type = file; len = 3; mode_bits = 0o644; mtime_ms = none })
      (record { file_type = file; len = 0; mode_bits = 0o644; mtime_ms = none }) refl refl refl refl

abbrev opened : Memory
opened = record empty_memory {
  files = λ p. if text_eq p notes then some [] else none;
  handles = λ k. if k == 4 then some notes else none;
}

abbrev two_chunks : List Bytes
two_chunks = codes "abc" ∷ codes "de" ∷ []

abbrev sent : Bytes
sent = (send_reads 9 (map (λ c. ok c) two_chunks) 0 (world_with empty_memory)).1.out

abbrev arrived : World Bytes Memory
arrived = record { inbox = sent ++ codes "tail"; out = []; fs = opened }

writes_to_open :
    (h : ℕ) (p : Text) (b old : Bytes) (s : Memory)
    → s.handles h ≡ some p
    → s.files p ≡ some old
    → (memory_host.write_all h b s).0 ≡ ok tt
writes_to_open h p b old s t c = ground arith

abbrev after : World Bytes Memory
after = (receive_file memory_host 9 2 4 notes 5 0 arrived).1

receive_file-arrived : receive_file memory_host 9 2 4 notes 5 0 arrived ≡ (ok 5, after)
unfolding receive_file read_file_stream_chunk_into read_stream_frame_into read_exact decode encode
    kind_from_u16 channel_from_u32 decode_stream_frame_header send_reads write_stream_frame
    write_frame
receive_file-arrived = refl

receive_file_exact_example :
    (5 ≡ 0 + 5)
    × ((received : Bytes) × (length received ≡ 5) × (after.fs.files notes ≡ some ([] ++ received)))
unfolding memory_volume_with
receive_file_exact_example =
    receive_file_exact memory_host 9 memory_volume 2 4 notes notes [] 5 0 5 arrived after refl refl
      receive_file-arrived

abbrev long_text : Text
long_text = replicate 4194305 65

decode_long_text : decode_fs_content memory_host long_text utf8 ≡ ok long_text
unfolding decode_fs_content
decode_long_text = refl

handle_fs_write_too_large_example :
    Refused
      (handle_fs_write memory_host 5 notes long_text utf8 none true true false none
        (world_with two_files))
      invalid_request
      (world_with two_files)
handle_fs_write_too_large_example =
    handle_fs_write_too_large memory_host 5 (world_with two_files) notes long_text utf8 none true
      true false none long_text refl decode_long_text
      (omega (arith, length-replicate {A = ℕ} 4194305 65))

-- Every file reads as `abcde`, in two chunks.
abbrev chunked_host : Host Memory
chunked_host = record memory_host { reads = λ handle size m. map (λ c. ok c) two_chunks }

handle_fs_read-first_bytes_example :
    handle_fs_read chunked_host 5 notes utf8 (some 4) (world_with two_files)
    ≡ respond chunked_host 5
        (fs_read_result (record {
          path = notes;
          encoding = utf8;
          content = codes "abcd";
          bytes = 4;
          truncated = true;
        }))
        (record (world_with two_files) { fs = (memory_host.open_read notes two_files).1 })
unfolding encode_fs_content
handle_fs_read-first_bytes_example =
    handle_fs_read-first_bytes chunked_host 5 notes utf8 (some 4) 0 two_chunks (codes "abcd")
      (record { file_type = file; len = 3; mode_bits = 0o644; mtime_ms = none })
      (world_with two_files) refl refl refl refl refl (refl, (refl, tt)) refl

-- A disk with one directory.
abbrev listing_host : Host Memory
listing_host = record memory_host {
  read_dir = λ p m. ok (codes "/d/b" ∷ codes "/d/.x" ∷ codes "/d/a" ∷ []);
  symlink_metadata = λ p m. ok (record {
    file_type = if text_eq p (codes "/d") then directory else file;
    len = 3;
    mode_bits = 0o644;
    mtime_ms = none;
  });
}

abbrev entry : Text → AgentFsListEntry
entry path = record { path = path; kind = file; size = 3; sha256 = none }

list_d :
    (collect_fs_entries listing_host false none false none 1 (codes "/d") 0 empty_memory).0
    ≡ ok (entry (codes "/d/a") ∷ entry (codes "/d/b") ∷ [])
unfolding collect_fs_entries build_fs_entry is_hidden file_name sort_paths insert_path path_le
    fs_entry_kind components
list_d = refl

collect_fs_entries-visible_example :
    (codes "/d/a" ∷ codes "/d/b" ∷ []
      ≡ visible false (sort_paths (codes "/d/b" ∷ codes "/d/.x" ∷ codes "/d/a" ∷ [])))
    × IsSorted (sort_paths (codes "/d/b" ∷ codes "/d/.x" ∷ codes "/d/a" ∷ []))
collect_fs_entries-visible_example =
    collect_fs_entries-visible listing_host false none none 0 0 (codes "/d") empty_memory
      (codes "/d/b" ∷ codes "/d/.x" ∷ codes "/d/a" ∷ [])
      (entry (codes "/d/a") ∷ entry (codes "/d/b") ∷ []) refl list_d

blocking_fs_list_ends_example :
    (blocking_fs_list listing_host true (some 5) true none 6 (codes "/d") empty_memory).0
    ≢ err (out_of_fuel ∷ [])
blocking_fs_list_ends_example =
    blocking_fs_list_ends listing_host true true none 5 6 (codes "/d") empty_memory (omega arith)
