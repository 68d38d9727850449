-- ===== src/Daemon/Transfer/Delivery.antt =====
-- What one side sends of a file is what the other side writes (device/rsdbd/src/main.rs).
use mathlib.Core.List.{append-nil, append_assoc}
use rsdb.Base.{ℕ, zero, suc, ◌+◌, ◌-◌, ◌^◌, ◌≤◌, ◌<◌, false, some, List, [], ◌∷◌, ◌++◌, ok}
use rsdb.Base.{◌≡◌, refl, sym, ap, ◌∙◌, arith, length, length-append, concat, All}
use rsdb.Base.Texts.{Text, Bytes, codes, is_empty, text_eq}
use rsdb.Proto.Wire.{file, stream, max_payload_len}
use rsdb.Proto.Io.{memory_writer}
use rsdb.Proto.Frames.{stream_flags}
use rsdb.Proto.RoundTrip.{wire, frame_header}
use rsdb.Proto.StreamFrames.{read_stream_frame_into-wire}
use rsdb.Daemon.Host.{Host, World}
use rsdb.Daemon.Fs.Volume.{IsVolume}
use rsdb.Daemon.Transfer.Chunks.{read_file_stream_chunk_into}
use rsdb.Daemon.Transfer.Push.{receive_file}

-- A chunk as the loops send it: not empty, and within a frame.
abbrev pub IsChunk : Bytes → Type 0
IsChunk chunk = (is_empty chunk ≡ false) × (length chunk ≤ max_payload_len)

abbrev pub frames : ℕ → List Bytes → Bytes
frames request_id [] = []
frames request_id (chunk ∷ chunks) =
    wire (frame_header stream (stream_flags file false) request_id (length chunk)) chunk
    ++ frames request_id chunks

received_nothing :
    {W S : Type 0} (host : Host S) (request_id fuel handle : ℕ) (path : Text) (written : ℕ)
    (world : World W S)
    → receive_file host request_id fuel handle path 0 written world ≡ (ok (written + 0), world)
unfolding receive_file
received_nothing host request_id zero handle path written world = ground arith
received_nothing host request_id (suc fuel) handle path written world = ground arith

module _ {W S : Type 0} (request_id : ℕ) (fits : request_id < 2 ^ 32) where
  pub read_chunk-frame :
      (name : Text) (chunk rest : Bytes) (world : World W S)
      → length chunk ≤ max_payload_len
      → world.inbox
        ≡ wire (frame_header stream (stream_flags file false) request_id (length chunk)) chunk
          ++ rest
      → read_file_stream_chunk_into request_id name world ≡ (
        ok (record { request_id = request_id; channel = file; eof = false }, chunk),
        record world { inbox = rest },
      )
  unfolding read_file_stream_chunk_into
  read_chunk-frame name chunk rest world n e =
      ground (arith, read_stream_frame_into-wire request_id file false chunk rest fits n)

  module _ (host : Host S) where
    receive_file_next :
        (fuel handle : ℕ) (path : Text) (b : ℕ) (chunk rest : Bytes) (remaining written : ℕ)
        (world : World W S)
        → length (b ∷ chunk) ≤ max_payload_len
        → length (b ∷ chunk) ≤ remaining
        → world.inbox
          ≡ wire
              (frame_header stream (stream_flags file false) request_id (length (b ∷ chunk)))
              (b ∷ chunk)
            ++ rest
        → (host.write_all handle (b ∷ chunk) world.fs).0 ≡ ok tt
        → receive_file host request_id (suc fuel) handle path remaining written world
          ≡ receive_file host request_id fuel handle path
              (remaining - length (b ∷ chunk))
              (written + length (b ∷ chunk))
              (record {
                inbox = rest;
                out = world.out;
                fs = (host.write_all handle (b ∷ chunk) world.fs).1;
              })
    unfolding receive_file
    receive_file_next fuel handle path b chunk rest remaining written world n m e w =
        ground (arith, read_chunk-frame (codes "push") (b ∷ chunk) rest world n e)

    module _ (volume : IsVolume host)
        (writes : (h : ℕ) (p : Text) (b old : Bytes) (s : S)
          → volume.target h s ≡ some p
          → volume.content p s ≡ some old
          → (host.write_all h b s).0 ≡ ok tt) where
      open volume use {content, target}

      pub receive_file-frames :
          (chunks : List Bytes) (fuel handle : ℕ) (path p : Text) (old rest : Bytes) (written : ℕ)
          (world : World W S)
          → All IsChunk chunks
          → length chunks ≤ fuel
          → world.inbox ≡ frames request_id chunks ++ rest
          → target handle world.fs ≡ some p
          → content p world.fs ≡ some old
          → (world' : World W S) × (receive_file host request_id fuel handle path
                (length (concat chunks))
                written
                world
              ≡ (ok (written + length (concat chunks)), world'))
            × (world'.inbox ≡ rest)
            × (content p world'.fs ≡ some (old ++ concat chunks))
            × ((q : Text) → text_eq p q ≡ false → content q world'.fs ≡ content q world.fs)
            × (world'.out ≡ world.out)
      receive_file-frames [] fuel handle path p old rest written world h f e t c = (
        world,
        received_nothing host request_id fuel handle path written world,
        e,
        c ∙ ap some (sym (append-nil old)),
        λ q ne. refl,
        refl,
      )
      receive_file-frames ([] ∷ chunks) fuel handle path p old rest written world h f e t c =
          cc (h.0.0)
      receive_file-frames ((b ∷ chunk) ∷ chunks) zero handle path p old rest written world h f e t
            c =
          elim f [ ]
      receive_file-frames ((b ∷ chunk) ∷ chunks) (suc fuel) handle path p old rest written world h f
            e t c =
          let next : World W S = record {
            inbox = frames request_id chunks ++ rest;
            out = world.out;
            fs = (host.write_all handle (b ∷ chunk) world.fs).1;
          } in
          let frame =
            wire (frame_header stream (stream_flags file false) request_id (length (b ∷ chunk)))
              (b ∷ chunk) in
          let arrived : world.inbox ≡ frame ++ (frames request_id chunks ++ rest) =
            e ∙ append_assoc frame (frames request_id chunks) rest in
          let ok_write = writes handle p (b ∷ chunk) old world.fs t c in
          let shorter : length ((b ∷ chunk) ++ concat chunks) - length (b ∷ chunk)
              ≡ length (concat chunks) =
            omega (arith, length-append (b ∷ chunk) (concat chunks)) in
          let longer : written + length ((b ∷ chunk) ++ concat chunks)
              ≡ written + length (b ∷ chunk) + length (concat chunks) =
            omega (arith, length-append (b ∷ chunk) (concat chunks)) in
          let (world', run, left, grown, others, kept) =
            receive_file-frames chunks fuel handle path p (old ++ (b ∷ chunk)) rest
              (written + length (b ∷ chunk)) next h.1 (omega arith) refl
              (volume.write_target handle (b ∷ chunk) world.fs ∙ t)
              (volume.written handle (b ∷ chunk) old p world.fs t c ok_write) in
          (
            world',
            receive_file_next fuel handle path b chunk (frames request_id chunks ++ rest)
                  (length (concat ((b ∷ chunk) ∷ chunks))) written world h.0.1
                  (omega (arith, length-append (b ∷ chunk) (concat chunks))) arrived ok_write
                ∙ rw (shorter, longer) run,
            left,
            grown ∙ ap some (append_assoc old (b ∷ chunk) (concat chunks)),
            λ q ne. others q ne ∙ volume.write_keeps handle (b ∷ chunk) p q world.fs t ne,
            kept,
          )
