-- ===== src/Daemon/Transfer/Ends.antt =====
-- The receiving loops of the daemon end: each round takes a frame of at least 24 bytes from what
-- has arrived (device/rsdbd/src/main.rs).
use rsdb.Base.{ℕ, zero, suc, ◌+◌, ◌-◌, ◌<◌, [], ◌∷◌, ok, err}
use rsdb.Base.{◌≡◌, ◌≢◌, refl, arith, inl, inr, length, Result-cases}
use rsdb.Base.Texts.{Text, Bytes, codes}
use rsdb.Proto.Frames.{read_stream_frame_into}
use rsdb.Proto.Failures.{read_stream_frame_into_shrinks}
use rsdb.Proto.Wire.{StreamFrameHeader}
use rsdb.Daemon.Error.{out_of_fuel}
use rsdb.Daemon.Host.{Host, World}
use rsdb.Daemon.Transfer.Chunks.{read_file_stream_chunk_into}
use rsdb.Daemon.Transfer.Push.{receive_file, receive_push, write_chunk}

module _ {W S : Type 0} (host : Host S) (request_id : ℕ) where
  read_chunk_shrinks :
      (name : Text) (world : World W S) (chunk : StreamFrameHeader) (payload : Bytes)
      → (read_file_stream_chunk_into request_id name world).0 ≡ ok (chunk, payload)
      → length (read_file_stream_chunk_into request_id name world).1.inbox < length world.inbox
  unfolding read_file_stream_chunk_into
  read_chunk_shrinks name world chunk payload e =
      elim (Result-cases (read_stream_frame_into world.inbox).0) [
        | inl ((header, bytes), f) ↦ ground (
          arith,
          read_stream_frame_into_shrinks world.inbox (read_stream_frame_into world.inbox).1 bytes
              header,
        )
        | inr (x, f) ↦ ground arith
      ]

  read_chunk_error :
      (name : Text) (world : World W S)
      → (read_file_stream_chunk_into request_id name world).0 ≢ err (out_of_fuel ∷ [])
  unfolding read_file_stream_chunk_into
  read_chunk_error name world e = ground arith

  write_chunk_error :
      (handle : ℕ) (payload : Bytes) (world : World W S)
      → (write_chunk host request_id handle payload world).0 ≢ err (out_of_fuel ∷ [])
  write_chunk_error handle [] world e = cc
  write_chunk_error handle (b ∷ payload) world e = ground arith

  write_chunk_inbox :
      (handle : ℕ) (payload : Bytes) (world : World W S)
      → (write_chunk host request_id handle payload world).1.inbox ≡ world.inbox
  write_chunk_inbox handle [] world = refl
  write_chunk_inbox handle (b ∷ payload) world = refl

  receive_file_ends :
      (fuel handle : ℕ) (path : Text) (remaining written : ℕ) (world : World W S)
      → length world.inbox < fuel
      → (receive_file host request_id fuel handle path remaining written world).0
        ≢ err (out_of_fuel ∷ [])
  unfolding receive_file
  receive_file_ends zero handle path remaining written world h e = elim h [ ]
  receive_file_ends (suc fuel) handle path zero written world h e = cc
  receive_file_ends (suc fuel) handle path (suc remaining) written world h e =
      let w1 = (read_file_stream_chunk_into request_id (codes "push") world).1 in
      elim (Result-cases (read_file_stream_chunk_into request_id (codes "push") world).0) [
        | inl ((chunk, payload), f) ↦ ground (
          arith,
          read_chunk_shrinks (codes "push") world chunk payload f,
          write_chunk_error handle payload w1,
          write_chunk_inbox handle payload w1,
          receive_file_ends fuel handle path (suc remaining - length payload)
              (written + length payload) (write_chunk host request_id handle payload w1).1,
        )
        | inr (x, f) ↦ ground (arith, read_chunk_error (codes "push") world)
      ]

  receive_push_ends :
      (fuel handle written : ℕ) (world : World W S)
      → length world.inbox < fuel
      → (receive_push host request_id fuel handle written world).0 ≢ err (out_of_fuel ∷ [])
  unfolding receive_push
  receive_push_ends zero handle written world h e = elim h [ ]
  receive_push_ends (suc fuel) handle written world h e =
      let w1 = (read_file_stream_chunk_into request_id (codes "push") world).1 in
      elim (Result-cases (read_file_stream_chunk_into request_id (codes "push") world).0) [
        | inl ((chunk, payload), f) ↦ ground (
          arith,
          read_chunk_shrinks (codes "push") world chunk payload f,
          write_chunk_error handle payload w1,
          write_chunk_inbox handle payload w1,
          receive_push_ends fuel handle (written + length payload)
              (write_chunk host request_id handle payload w1).1,
        )
        | inr (x, f) ↦ ground (arith, read_chunk_error (codes "push") world)
      ]

  -- With more fuel than bytes that have arrived, neither the loop over one file of a batch nor that
  -- of a single push runs out of it: each succeeds or reports one of the program's own errors.
  pub receive_loops_end :
      (fuel handle : ℕ) (path : Text) (remaining written : ℕ) (world : World W S)
      → length world.inbox < fuel
      → ((receive_file host request_id fuel handle path remaining written world).0
          ≢ err (out_of_fuel ∷ []))
        × ((receive_push host request_id fuel handle written world).0 ≢ err (out_of_fuel ∷ []))
  receive_loops_end fuel handle path remaining written world h = (
    receive_file_ends fuel handle path remaining written world h,
    receive_push_ends fuel handle written world h,
  )
