-- ===== src/Daemon/Transfer/Exact.antt =====
-- A file that a batch push receives gets exactly the announced number of bytes
-- (`handle_push_batch` of device/rsdbd/src/main.rs).
use mathlib.Core.List.{append-nil, append_assoc}
use rsdb.Base.{ℕ, zero, suc, ◌+◌, ◌-◌, ◌≤◌, some, [], ◌∷◌, ◌++◌, ok, err}
use rsdb.Base.{◌≡◌, refl, sym, ap, ◌∙◌, arith, inl, inr, length, length-append, Result-cases}
use rsdb.Base.Texts.{Text, Bytes, codes}
use rsdb.Daemon.Error.{out_of_fuel}
use rsdb.Daemon.Host.{Host, World}
use rsdb.Daemon.Fs.Volume.{IsVolume}
use rsdb.Daemon.Transfer.Chunks.{read_file_stream_chunk_into}
use rsdb.Daemon.Transfer.Push.{receive_file, write_chunk}

module _ {W S : Type 0} (host : Host S) (request_id : ℕ) where
  -- Reading a chunk does not touch the file system.
  fs-read_chunk :
      (name : Text) (world : World W S)
      → (read_file_stream_chunk_into request_id name world).1.fs ≡ world.fs
  unfolding read_file_stream_chunk_into
  fs-read_chunk name world = ground arith

  record IsStep (fuel handle : ℕ) (path : Text) (remaining written n : ℕ) (world world' : World W S)
      (payload : Bytes) : Type 0 where
    fits : length payload ≤ remaining
    wrote :
        (write_chunk host request_id handle payload
          (read_file_stream_chunk_into request_id (codes "push") world).1).0
        ≡ ok tt
    went_on :
        receive_file host request_id fuel handle path
          (remaining - length payload)
          (written + length payload)
          (write_chunk host request_id handle payload
            (read_file_stream_chunk_into request_id (codes "push") world).1).1
        ≡ (ok n, world')

  receive_file-IsStep :
      (fuel handle : ℕ) (path : Text) (remaining written n : ℕ) (world world' : World W S)
      → receive_file host request_id (suc fuel) handle path (suc remaining) written world
        ≡ (ok n, world')
      → (payload : Bytes) × IsStep fuel handle path (suc remaining) written n world world' payload
  unfolding receive_file
  receive_file-IsStep fuel handle path remaining written n world world' e =
      elim (Result-cases (read_file_stream_chunk_into request_id (codes "push") world).0) [
        | inl ((chunk, payload), f) ↦ (
          payload,
          elim (Result-cases
              (write_chunk host request_id handle payload
                (read_file_stream_chunk_into request_id (codes "push") world).1).0) [
                  | inl (tt, g) ↦ ground arith
                  | inr (x, g) ↦ ground arith
                ],
        )
        | inr (x, f) ↦ ground arith
      ]

  receive_file_done :
      (fuel handle : ℕ) (path : Text) (written : ℕ) (world : World W S)
      → receive_file host request_id fuel handle path 0 written world ≡ (ok written, world)
  unfolding receive_file
  receive_file_done zero handle path written world = refl
  receive_file_done (suc fuel) handle path written world = refl

  receive_file_out :
      (handle : ℕ) (path : Text) (remaining written : ℕ) (world : World W S)
      → receive_file host request_id zero handle path (suc remaining) written world
        ≡ (err (out_of_fuel ∷ []), world)
  unfolding receive_file
  receive_file_out handle path remaining written world = ground arith

  module _ (volume : IsVolume host) where
    open volume use {content, target}

    -- What a chunk's write leaves in the file, and that the handle stays what it is.
    written_chunk :
        (handle : ℕ) (p : Text) (old payload : Bytes) (world : World W S)
        → target handle world.fs ≡ some p
        → content p world.fs ≡ some old
        → (write_chunk host request_id handle payload world).0 ≡ ok tt
        → (content p (write_chunk host request_id handle payload world).1.fs
            ≡ some (old ++ payload))
          × (target handle (write_chunk host request_id handle payload world).1.fs ≡ some p)
    written_chunk handle p old [] world t c e = (c ∙ ap some (sym (append-nil old)), t)
    written_chunk handle p old (b ∷ payload) world t c e = (
      volume.written handle (b ∷ payload) old p world.fs t c (ground arith),
      volume.write_target handle (b ∷ payload) world.fs ∙ t,
    )

    nothing_received :
        (fuel handle : ℕ) (path p : Text) (old : Bytes) (written n : ℕ) (world world' : World W S)
        → content p world.fs ≡ some old
        → receive_file host request_id fuel handle path 0 written world ≡ (ok n, world')
        → (n ≡ written + 0)
          × ((received : Bytes) × (length received ≡ 0)
              × (content p world'.fs ≡ some (old ++ received)))
    nothing_received fuel handle path p old written n world world' c e =
        let done = receive_file_done fuel handle path written world in
        let same : n ≡ written = cc (done, e) in
        let stays : world ≡ world' = cc (done, e) in
        (
          omega (arith, same),
          (
            [],
            refl,
            ap (λ (v : World W S). content p v.fs) (sym stays) ∙ c ∙ ap some (sym (append-nil old)),
          ),
        )

    -- On a file system with the laws of `IsVolume`, when the loop over the chunks of an open file
    -- succeeds, whatever the peer sent, the file has grown by exactly the announced number of bytes,
    -- and the count of written bytes by the same.
    pub receive_file_exact :
        (fuel handle : ℕ) (path p : Text) (old : Bytes) (remaining written n : ℕ)
        (world world' : World W S)
        → target handle world.fs ≡ some p
        → content p world.fs ≡ some old
        → receive_file host request_id fuel handle path remaining written world ≡ (ok n, world')
        → (n ≡ written + remaining)
          × ((received : Bytes) × (length received ≡ remaining)
              × (content p world'.fs ≡ some (old ++ received)))
    receive_file_exact zero handle path p old zero written n world world' t c e =
        nothing_received zero handle path p old written n world world' c e
    receive_file_exact zero handle path p old (suc remaining) written n world world' t c e =
        cc (receive_file_out handle path remaining written world, e)
    receive_file_exact (suc fuel) handle path p old zero written n world world' t c e =
        nothing_received (suc fuel) handle path p old written n world world' c e
    receive_file_exact (suc fuel) handle path p old (suc remaining) written n world world' t c e =
        let (payload, step) =
          receive_file-IsStep fuel handle path remaining written n world world' e in
        let w1 = (read_file_stream_chunk_into request_id (codes "push") world).1 in
        let (c2, t2) =
          written_chunk handle p old payload w1
            (ap (target handle) (fs-read_chunk (codes "push") world) ∙ t)
            (ap (content p) (fs-read_chunk (codes "push") world) ∙ c) step.wrote in
        let (count, inner) =
          receive_file_exact fuel handle path p (old ++ payload) (suc remaining - length payload)
            (written + length payload) n (write_chunk host request_id handle payload w1).1 world' t2
            c2 step.went_on in
        let (received, len, grown) = inner in
        (
          omega (arith, step.fits, count),
          (
            payload ++ received,
            omega (arith, length-append payload received, step.fits, len),
            grown ∙ ap some (append_assoc old payload received),
          ),
        )
