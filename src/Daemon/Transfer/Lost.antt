-- ===== src/Daemon/Transfer/Lost.antt =====
-- A single pull of a small file sends nothing (`handle_pull` of device/rsdbd/src/main.rs).
use rsdb.Base.{
  ℕ, ◌+◌, ◌≤◌, ◌<◌, Bool, true, false, List, [], ◌∷◌, length, map, All, concat, length-append, some,
  ok,
}
use rsdb.Base.{◌≡◌, refl, ◌∙◌, arith, le→not_ltb}
use rsdb.Base.Texts.{Text, Bytes}
use rsdb.Proto.Wire.{
  FrameHeader, FrameKind, StreamChannel, encode, header_len, max_payload_len,
  default_stream_chunk_size, file, response,
}
use rsdb.Proto.Messages.{pull_metadata, pull_complete, ControlResponse}
use rsdb.Proto.Header.{length-encode}
use rsdb.Proto.Frames.{write_parts, write_frame, write_stream_frame, write_json_frame}
use rsdb.Daemon.Host.{Host, World, Metadata, respond}
use rsdb.Daemon.Buffer.{BufWriter, IsBufWriter}
use rsdb.Daemon.Fs.Entries.{is_file, file_mode}
use rsdb.Daemon.Transfer.Stream.{send_reads}
use rsdb.Daemon.Transfer.Pull.{handle_pull, send_pulled}
use rsdb.Daemon.Fs.Reads.{IsRead}

module _ {B W : Type 0} (buf : BufWriter B W) (law : IsBufWriter buf) where
  open law use {held, capacity}

  -- The frame of a payload of `n` bytes went into the buffer.
  record IsHeld (n : ℕ) (b b' : B) : Type 0 where
    inner : buf.inner b' ≡ buf.inner b
    more : held b' ≡ held b + (24 + n)
    same : capacity b' ≡ capacity b

  module _ (payload : Bytes) (b : B) (room : held b + (24 + length payload) ≤ capacity b)
      (big : 24 < capacity b) (small : length payload ≤ max_payload_len) where
    write_parts-IsHeld :
        (header : FrameHeader)
        → (b' : B) × (write_parts ⦃w = buf.writer⦄ header payload b ≡ (ok tt, b'))
          × IsHeld (length payload) b b'
    write_parts-IsHeld header =
        let b1 = (buf.writer.write_all (encode header) b).1 in
        let b2 = (buf.writer.write_all payload b1).1 in
        let h = length-encode header in
        let room1 : held b + length (encode header) ≤ capacity b = omega (arith, h) in
        let big1 : length (encode header) < capacity b = omega (arith, h) in
        let held1 = law.keeps_held (encode header) b room1 big1 in
        let same1 = law.keeps_capacity (encode header) b in
        let room2 : held b1 + length payload ≤ capacity b1 = omega (arith, h, held1, same1) in
        let big2 : length payload < capacity b1 = omega (arith, same1) in
        (
          b2,
          ground (arith, law.keeps (encode header) b room1 big1, law.keeps payload b1 room2 big2),
          record {
            inner =
                law.keeps_inner payload b1 room2 big2
                ∙ law.keeps_inner (encode header) b room1 big1;
            more = omega (arith, h, held1, law.keeps_held payload b1 room2 big2);
            same = law.keeps_capacity payload b1 ∙ same1;
          },
        )

    write_frame-IsHeld :
        (kind : FrameKind) (request_id : ℕ)
        → (b' : B) × (write_frame ⦃w = buf.writer⦄ kind request_id payload b ≡ (ok tt, b'))
          × IsHeld (length payload) b b'
    unfolding write_frame
    write_frame-IsHeld kind request_id =
        rw (le→not_ltb max_payload_len (length payload) small) (write_parts-IsHeld _)

    write_stream_frame-IsHeld :
        (request_id : ℕ) (channel : StreamChannel) (eof : Bool)
        → (b' : B) × (write_stream_frame ⦃w = buf.writer⦄ request_id channel eof payload b
            ≡ (ok tt, b'))
          × IsHeld (length payload) b b'
    unfolding write_stream_frame
    write_stream_frame-IsHeld request_id channel eof =
        rw (le→not_ltb max_payload_len (length payload) small) (write_parts-IsHeld _)

  module _ {S : Type 0} (host : Host S) (request_id : ℕ) where
    respond-IsHeld :
        (reply : ControlResponse) (payload : Bytes) (world : World B S)
        → host.responses.to_vec reply ≡ some payload
        → held world.out + (24 + length payload) ≤ capacity world.out
        → 24 < capacity world.out
        → length payload ≤ max_payload_len
        → (b' : B) × (respond ⦃w = buf.writer⦄ host request_id reply world
            ≡ (ok tt, record world { out = b' }))
          × IsHeld (length payload) world.out b'
    unfolding write_json_frame
    respond-IsHeld reply payload world v room big small =
        let (b', e, k) = write_frame-IsHeld payload world.out room big small response request_id in
        (b', ground (arith, e), k)

    -- What the chunks of a file take in the buffer.
    abbrev pub framed : List Bytes → ℕ
    framed [] = 0
    framed (chunk ∷ chunks) = 24 + length chunk + framed chunks

    send_reads-IsHeld :
        (chunks : List Bytes) (n : ℕ) (world : World B S)
        → All IsRead chunks
        → held world.out + framed chunks ≤ capacity world.out
        → 24 < capacity world.out
        → capacity world.out ≤ max_payload_len
        → (b' : B) × (send_reads ⦃w = buf.writer⦄ request_id (map (λ c. ok c) chunks) n world
            ≡ (ok (n + length (concat chunks)), record world { out = b' }))
          × (buf.inner b' ≡ buf.inner world.out)
          × (held b' ≡ held world.out + framed chunks)
          × (capacity b' ≡ capacity world.out)
    unfolding send_reads
    send_reads-IsHeld [] n world h room big small =
        (world.out, ground arith, refl, omega arith, refl)
    send_reads-IsHeld ([] ∷ chunks) n world h room big small = cc (h.0)
    send_reads-IsHeld ((b ∷ chunk) ∷ chunks) n world h room big small =
        let (b1, e1, k1) =
          write_stream_frame-IsHeld (b ∷ chunk) world.out (omega arith) big (omega arith) request_id
            file false in
        let (b2, e2, i2, h2, c2) =
          send_reads-IsHeld chunks (n + length (b ∷ chunk)) (record world { out = b1 }) h.1
            (omega (arith, k1.more, k1.same)) (omega (arith, k1.same)) (omega (arith, k1.same)) in
        (
          b2,
          ground (arith, e1, e2, length-append (b ∷ chunk) (concat chunks)),
          i2 ∙ k1.inner,
          omega (arith, h2, k1.more),
          c2 ∙ k1.same,
        )

    -- The replies and the frames of a small file all stay in the buffer.
    send_pulled-IsHeld :
        (handle size mode : ℕ) (chunks : List Bytes) (meta done : Bytes) (world : World B S)
        → All IsRead chunks
        → host.reads handle default_stream_chunk_size world.fs ≡ map (λ c. ok c) chunks
        → host.responses.to_vec (pull_metadata size mode) ≡ some meta
        → host.responses.to_vec (pull_complete (length (concat chunks))) ≡ some done
        → held world.out ≡ 0
        → capacity world.out ≡ header_len + default_stream_chunk_size
        → length meta + framed chunks + length done + 72 ≤ header_len + default_stream_chunk_size
        → (b' : B) × (send_pulled buf host request_id handle size mode world
            ≡ (ok tt, record world { out = b' }))
          × (buf.inner b' ≡ buf.inner world.out)
    unfolding send_pulled
    send_pulled-IsHeld handle size mode chunks meta done world h r m d empty cap room =
        let (b1, e1, k1) =
          respond-IsHeld (pull_metadata size mode) meta world m (omega (arith, empty, cap))
            (omega (arith, cap)) (omega arith) in
        let (b2, e2, i2, h2, c2) =
          send_reads-IsHeld chunks 0 (record world { out = b1 }) h
            (omega (arith, k1.more, k1.same, empty, cap)) (omega (arith, k1.same, cap))
            (omega (arith, k1.same, cap)) in
        let (b3, e3, k3) =
          write_stream_frame-IsHeld [] b2 (omega (arith, h2, c2, k1.more, k1.same, empty, cap))
            (omega (arith, c2, k1.same, cap)) (omega arith) request_id file true in
        let (b4, e4, k4) =
          respond-IsHeld (pull_complete (length (concat chunks))) done (record world { out = b3 }) d
            (omega (arith, k3.more, k3.same, h2, c2, k1.more, k1.same, empty, cap))
            (omega (arith, k3.same, c2, k1.same, cap)) (omega arith) in
        (b4, ground (arith, e1, r, e2, e3, e4), cc (k4.inner, k3.inner, i2, k1.inner))

    -- A pull of a regular file that can be opened and read, whose replies and frames together fit in
    -- the buffer of 64 KiB and a header, succeeds and sends nothing: the connection is as it was.
    pub handle_pull_lost :
        (path : Text) (file_meta : Metadata) (handle : ℕ) (chunks : List Bytes) (meta done : Bytes)
        (fs' : S) (world : World W S)
        → host.metadata path world.fs ≡ ok file_meta
        → is_file file_meta ≡ true
        → host.open_read path world.fs ≡ (ok handle, fs')
        → All IsRead chunks
        → host.reads handle default_stream_chunk_size fs' ≡ map (λ c. ok c) chunks
        → host.responses.to_vec (pull_metadata file_meta.len (file_mode file_meta)) ≡ some meta
        → host.responses.to_vec (pull_complete (length (concat chunks))) ≡ some done
        → length meta + framed chunks + length done + 72 ≤ header_len + default_stream_chunk_size
        → handle_pull buf host request_id path world ≡ (ok tt, record world { fs = fs' })
    unfolding handle_pull
    handle_pull_lost path file_meta handle chunks meta done fs' world f k o h r m d room =
        let size = header_len + default_stream_chunk_size in
        let start : World B S = record {
          inbox = world.inbox;
          out = buf.with_capacity size world.out;
          fs = fs';
        } in
        let (b', e, i) =
          send_pulled-IsHeld handle file_meta.len (file_mode file_meta) chunks meta done start h r m
            d (law.held-with_capacity size world.out) (law.capacity-with_capacity size world.out)
            room in
        ground (arith, f, k, o, e, i, law.inner-with_capacity size world.out)
