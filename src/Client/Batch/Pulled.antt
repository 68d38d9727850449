-- ===== src/Client/Batch/Pulled.antt =====
-- Runs that end alike but for the text of an error; the client's receiving loop does what the daemon's
-- does (crates/rsdb-cli/src/main.rs, device/rsdbd/src/main.rs).
use rsdb.Base.{
  ℕ, zero, suc, ◌+◌, ◌-◌, ◌≡◌, Bool, refl, arith, ◌==◌, ltb, Option, none, some, [], ◌∷◌, ok, err,
  Result, length, Result-cases, inl, inr,
}
use rsdb.Base.{if◌then◌else◌, true, false}
use rsdb.Base.Exec.{continue}
use rsdb.Base.Texts.{Text, Bytes, codes}
use rsdb.Proto.Io.{memory_writer}
use rsdb.Proto.Frames.{read_stream_frame_into}
use rsdb.Daemon.Error.{Error}
use rsdb.Daemon.Host.{Host, World, Daemon}
use rsdb.Daemon.Transfer.Chunks
use rsdb.Daemon.Transfer.Push.{receive_file, write_chunk}
use rsdb.Client.Batch.Receive.{
  client_request_id, read_file_stream_chunk_into, write_local_chunk, receive_local_file,
}

-- The value of a result, without its error.
abbrev pub value : {A : Type 0} → Result Error A → Option A
value (ok a) = some a
value (err e) = none

pub value_ok :
    {A T : Type 0}
    → (run : Result Error A × T) (a : A) (world : T) → value run.0 ≡ some a
    → run.1 ≡ world
    → run ≡ (ok a, world)
value_ok (ok b, other) a world v w = ground (arith, v, w)
value_ok (err e, other) a world v w = ground (arith, v)

module _ {W S : Type 0} (host : Host S) where
  -- Two runs that end alike, but for the text of an error.
  pub record IsLike {A : Type 0} (r q : Result Error A × World W S) : Type 0 where
    pub same_value : value r.0 ≡ value q.0
    pub same_world : r.1 ≡ q.1

  pub same-IsLike : {A : Type 0} → (r : Result Error A × World W S) → IsLike r r
  same-IsLike r = record { same_value = refl; same_world = refl }

  pub throw-IsLike :
      {A : Type 0}
      → (e f : Error) (world : World W S) → IsLike {A = A} (err e, world) (err f, world)
  throw-IsLike e f world = record { same_value = refl; same_world = refl }

  pub if-IsLike :
      {A : Type 0}
      → (b : Bool) (m n q r : Daemon W S A) (world : World W S) → IsLike (m world) (q world)
      → IsLike (n world) (r world)
      → IsLike ((if b then m else n) world) ((if b then q else r) world)
  if-IsLike true m n q r world h k = h
  if-IsLike false m n q r world h k = k

  pub continue-IsLike :
      {A B : Type 0}
      → (r q : Result Error A) (k l : A → Daemon W S B) (world other : World W S)
      → IsLike (r, world) (q, other)
      → ((a : A) (next : World W S) → IsLike (k a next) (l a next))
      → IsLike (continue r k world) (continue q l other)
  continue-IsLike (ok a) (ok b) k l world other h step =
      let same : a ≡ b = ground (arith, h.same_value) in rw (← same, ← h.same_world) (step a world)
  continue-IsLike (ok a) (err e) k l world other h step =
      let bad : ⊥ = ground (arith, h.same_value) in absurd bad
  continue-IsLike (err e) (ok b) k l world other h step =
      let bad : ⊥ = ground (arith, h.same_value) in absurd bad
  continue-IsLike (err e) (err f) k l world other h step = record {
    same_value = refl;
    same_world = h.same_world;
  }

  read_chunk-IsLike :
      (name other : Text) (world : World W S)
      → IsLike
          (read_file_stream_chunk_into name world)
          (Chunks.read_file_stream_chunk_into client_request_id other world)
  unfolding read_file_stream_chunk_into Chunks.read_file_stream_chunk_into
  read_chunk-IsLike name other world = elim (Result-cases (read_stream_frame_into world.inbox).0) [
    | inl ((chunk, payload), e) ↦ record {
      same_value = ground (arith, e);
      same_world = ground (arith, e);
    }
    | inr (x, e) ↦ record { same_value = ground (arith, e); same_world = ground (arith, e) }
  ]

  write_chunk-IsLike :
      (handle : ℕ) (path : Text) (payload : Bytes) (world : World W S)
      → IsLike
          (write_local_chunk host handle path payload world)
          (write_chunk host client_request_id handle payload world)
  write_chunk-IsLike handle path [] world = same-IsLike _
  write_chunk-IsLike handle path (b ∷ payload) world =
      elim (Result-cases (host.write_all handle (b ∷ payload) world.fs).0) [
        | inl (done, e) ↦ record { same_value = ground (arith, e); same_world = ground (arith, e) }
        | inr (x, e) ↦ record { same_value = ground (arith, e); same_world = ground (arith, e) }
      ]

  -- On every inbox the loop of the client and that of the daemon have the same outcome: the same
  -- bytes counted and the same world, or both an error and the same world.
  pub receive_local_file-IsLike :
      (fuel handle : ℕ) (path : Text) (remaining received : ℕ) (world : World W S)
      → IsLike
          (receive_local_file host fuel handle path remaining received world)
          (receive_file host client_request_id fuel handle path remaining received world)
  unfolding receive_local_file receive_file
  receive_local_file-IsLike zero handle path remaining received world =
      if-IsLike (remaining == 0) _ _ _ _ world (same-IsLike _) (same-IsLike _)
  receive_local_file-IsLike (suc fuel) handle path remaining received world =
      if-IsLike (remaining == 0) _ _ _ _ world (same-IsLike _) (
        continue-IsLike _ _ _ _ _ _ (read_chunk-IsLike (codes "pull") (codes "push") world)
          λ read next. if-IsLike read.0.eof _ _ _ _ next (throw-IsLike _ _ next) (
            if-IsLike (ltb remaining (length read.1)) _ _ _ _ next (throw-IsLike _ _ next) (
              continue-IsLike _ _ _ _ _ _ (write_chunk-IsLike handle path read.1 next) λ done after.
                receive_local_file-IsLike fuel handle path (remaining - length read.1)
                  (received + length read.1) after)))
