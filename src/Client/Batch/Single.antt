-- ===== src/Client/Batch/Single.antt =====
-- A single push on the daemon: handle_push and receive_push (device/rsdbd/src/main.rs).
use mathlib.Core.List.{append_assoc, append-nil}
use rsdb.Base.{
  ℕ, zero, suc, ◌+◌, ◌≤◌, ◌<◌, ◌≡◌, refl, sym, ap, ◌∙◌, arith, true, false, Option, some, List, [],
  ◌∷◌, ◌++◌, ok, length, length-append, concat, All,
}
use rsdb.Base.Exec.{◌>>=◌, ◌>>◌}
use rsdb.Base.Texts.{Text, Bytes, codes}
use rsdb.Proto.Wire.{file, stream, response, max_payload_len}
use rsdb.Proto.Io.{memory_writer}
use rsdb.Proto.Frames.{stream_flags}
use rsdb.Proto.Messages.{push_ready, push_complete}
use rsdb.Proto.RoundTrip.{wire, frame_header, write_stream_frame-wire}
use rsdb.Proto.StreamFrames.{read_stream_frame_into-wire}
use rsdb.Daemon.Host.{Host, World, Daemon, OpenOptions, respond, on_fs}
use rsdb.Daemon.Error.{from_io}
use rsdb.Daemon.Fs.Entries.{normalize_mode}
use rsdb.Daemon.Fs.Volume.{IsVolume}
use rsdb.Daemon.Transfer.Chunks.{read_file_stream_chunk_into}
use rsdb.Daemon.Transfer.Roots.{resolve_push_destination}
use rsdb.Daemon.Transfer.Push.{receive_push, handle_push, chmod_unless_zero}
use rsdb.Daemon.Transfer.Delivery.{IsChunk, frames, read_chunk-frame}
use rsdb.Client.Batch.Receive.{client_request_id}
use rsdb.Client.Batch.Kept.{NeverFails, chmod-Kept}
use rsdb.Client.Batch.Pushed.{length-frames}
use rsdb.Client.Batch.Replies.{message_wire, end_mark, continue-ok, respond-sent}

read_chunk-end_mark :
    {W S : Type 0} (name : Text) (rest : Bytes) (world : World W S)
    → world.inbox ≡ end_mark ++ rest
    → read_file_stream_chunk_into client_request_id name world ≡ (
      ok (record { request_id = client_request_id; channel = file; eof = true }, []),
      record world { inbox = rest },
    )
unfolding read_file_stream_chunk_into
read_chunk-end_mark name rest world e = ground (
  arith,
  e,
  write_stream_frame-wire client_request_id file true [] [] (omega arith),
  read_stream_frame_into-wire client_request_id file true [] rest (omega arith) (omega arith),
)

module _ {W S : Type 0} (host : Host S) where
  receive_push_last :
      (fuel handle n : ℕ) (rest : Bytes) (world : World W S)
      → world.inbox ≡ end_mark ++ rest
      → receive_push host client_request_id (suc fuel) handle n world
        ≡ (ok (n + 0), record world { inbox = rest })
  unfolding receive_push
  receive_push_last fuel handle n rest world e =
      ground (arith, read_chunk-end_mark (codes "push") rest world e)

  receive_push_next :
      (fuel handle b : ℕ) (chunk rest : Bytes) (n : ℕ) (world : World W S)
      → length (b ∷ chunk) ≤ max_payload_len
      → world.inbox
        ≡ wire
            (frame_header stream (stream_flags file false) client_request_id (length (b ∷ chunk)))
            (b ∷ chunk)
          ++ rest
      → (host.write_all handle (b ∷ chunk) world.fs).0 ≡ ok tt
      → receive_push host client_request_id (suc fuel) handle n world
        ≡ receive_push host client_request_id fuel handle (n + length (b ∷ chunk)) (record {
          inbox = rest;
          out = world.out;
          fs = (host.write_all handle (b ∷ chunk) world.fs).1;
        })
  unfolding receive_push
  receive_push_next fuel handle b chunk rest n world fits e written = ground (
    arith,
    read_chunk-frame client_request_id (omega arith) (codes "push") (b ∷ chunk) rest world fits e,
  )

module _ {W S : Type 0} (host : Host S) (volume : IsVolume host)
    (never : NeverFails host volume) where
  open volume use {content, target}

  receive_push-frames :
      (chunks : List Bytes) (fuel handle : ℕ) (p : Text) (old rest : Bytes) (n : ℕ)
      (world : World W S)
      → All IsChunk chunks
      → length chunks < fuel
      → world.inbox ≡ frames client_request_id chunks ++ (end_mark ++ rest)
      → target handle world.fs ≡ some p
      → content p world.fs ≡ some old
      → (world' : World W S) × (receive_push host client_request_id fuel handle n world
          ≡ (ok (n + length (concat chunks)), world'))
        × (world'.inbox ≡ rest)
        × (world'.out ≡ world.out)
        × (content p world'.fs ≡ some (old ++ concat chunks))
  receive_push-frames chunks zero handle p old rest n world h f e t c = elim f [ ]
  receive_push-frames [] (suc fuel) handle p old rest n world h f e t c = (
    record world { inbox = rest },
    receive_push_last host fuel handle n rest world e,
    refl,
    refl,
    c ∙ ap some (sym (append-nil old)),
  )
  receive_push-frames ([] ∷ chunks) (suc fuel) handle p old rest n world h f e t c = cc (h.0.0)
  receive_push-frames ((b ∷ chunk) ∷ chunks) (suc fuel) handle p old rest n world h f e t c =
      let left = frames client_request_id chunks ++ (end_mark ++ rest) in
      let frame =
        wire (frame_header stream (stream_flags file false) client_request_id (length (b ∷ chunk)))
          (b ∷ chunk) in
      let next : World W S = record {
        inbox = left;
        out = world.out;
        fs = (host.write_all handle (b ∷ chunk) world.fs).1;
      } in
      let ok_write = never.writes handle p (b ∷ chunk) old world.fs t c in
      let count : n + length (b ∷ chunk) + length (concat chunks)
          ≡ n + length (concat ((b ∷ chunk) ∷ chunks)) =
        omega (arith, length-append (b ∷ chunk) (concat chunks)) in
      let (world', run, rests, kept, grown) =
        receive_push-frames chunks fuel handle p (old ++ (b ∷ chunk)) rest (n + length (b ∷ chunk))
          next h.1 (omega arith) refl (volume.write_target handle (b ∷ chunk) world.fs ∙ t)
          (volume.written handle (b ∷ chunk) old p world.fs t c ok_write) in
      (
        world',
        receive_push_next host fuel handle b chunk left n world h.0.1
              (e ∙ append_assoc frame (frames client_request_id chunks) (end_mark ++ rest)) ok_write
            ∙ rw (← count) run,
        rests,
        kept,
        grown ∙ ap some (append_assoc old (b ∷ chunk) (concat chunks)),
      )

module _ {S : Type 0} (host : Host S) (volume : IsVolume host)
    (never : NeverFails host volume) where
  open volume use {content}

  -- A single push on a file system with the laws of `IsVolume` on which nothing fails, where the place
  -- of the file is found, with its chunks and then the end mark to come, none of the chunks empty and
  -- each within a frame: handle_push succeeds, has sent that it is ready and then how many bytes it
  -- wrote, and the file at that place has exactly the bytes of the chunks. What follows the end mark is
  -- left unread. The request id is the client's, and both replies serialize within 16 MiB.
  pub handle_push-delivers :
      (path : Text) (mode : ℕ) (source_name : Option Text) (resolved : Text) (chunks : List Bytes)
      (ready complete rest : Bytes) (world : World Bytes S)
      → (resolve_push_destination host path source_name world.fs).0 ≡ ok resolved
      → All IsChunk chunks
      → world.inbox ≡ frames client_request_id chunks ++ (end_mark ++ rest)
      → host.responses.to_vec push_ready ≡ some ready
      → length ready ≤ max_payload_len
      → host.responses.to_vec (push_complete (length (concat chunks))) ≡ some complete
      → length complete ≤ max_payload_len
      → (world' : World Bytes S) × (handle_push host client_request_id path mode source_name world
          ≡ (ok tt, world'))
        × (world'.inbox ≡ rest)
        × (world'.out
            ≡ world.out ++ (message_wire response ready ++ message_wire response complete))
        × (content resolved world'.fs ≡ some (concat chunks))
  unfolding handle_push
  handle_push-delivers path mode source_name resolved chunks ready complete rest world placed fits e
        ready_bytes ready_fits complete_bytes complete_fits =
      let options : OpenOptions = record {
        create_new = false;
        mode = some (normalize_mode mode);
      } in
      let complete_reply : ℕ → Daemon Bytes S (Unit {0}) =
        λ n. respond host client_request_id (push_complete n) in
      let s0 = (resolve_push_destination host path source_name world.fs).1 in
      let (handle, found) = never.opens options resolved s0 in
      let receive : Daemon Bytes S ℕ =
        λ w. receive_push host client_request_id (suc (length w.inbox)) handle 0 w in
      let finish : ℕ → Daemon Bytes S (Unit {0}) = λ n.
        on_fs from_io (host.flush handle)
        >> (chmod_unless_zero host client_request_id resolved mode (normalize_mode mode)
            >> complete_reply n) in
      let w1 : World Bytes S = record world { fs = (host.open_write options resolved s0).1 } in
      let (empty, at) = volume.opened options resolved s0 handle found in
      let w2 : World Bytes S = record w1 { out = world.out ++ message_wire response ready } in
      let enough : length chunks < suc (length world.inbox) = rw e (
        omega (
          arith,
          length-frames client_request_id chunks,
          length-append (frames client_request_id chunks) (end_mark ++ rest),
        )) in
      let (w3, run, left, kept, grown) =
        receive_push-frames host volume never chunks (suc (length world.inbox)) handle resolved []
          rest 0 w2 fits enough e at empty in
      let w4 : World Bytes S = record w3 { fs = (host.flush handle w3.fs).1 } in
      let (w5, set, (e5, o5, same5)) =
        chmod-Kept host volume never resolved mode (normalize_mode mode) w4 in
      let total : 0 + length (concat chunks) ≡ length (concat chunks) = omega arith in
      (
        record w5 { out = w5.out ++ message_wire response complete },
        rw (placed, found)
            (continue-ok (λ done. receive >>= finish)
              (respond-sent host push_ready ready w1 ready_bytes ready_fits)
              (continue-ok finish run (
                rw (never.flushes handle w3.fs) (
                  continue-ok (λ done. complete_reply (0 + length (concat chunks))) set
                    (respond-sent host (push_complete (0 + length (concat chunks))) complete w5
                      (rw total complete_bytes) complete_fits))))),
        e5 ∙ left,
        ap (λ o. o ++ message_wire response complete) (o5 ∙ kept)
            ∙ append_assoc world.out (message_wire response ready) (message_wire response complete),
        same5 resolved ∙ volume.flush_keeps handle resolved w3.fs ∙ grown,
      )
