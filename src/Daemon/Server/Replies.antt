-- ===== src/Daemon/Server/Replies.antt =====
-- When a handler has sent a reply: rules over the actions that handlers are made of
-- (device/rsdbd/src/main.rs).
use rsdb.Base.{
  ℕ, ◌%◌, ◌^◌, ◌*◌, ◌≤◌, ◌<◌, Bool, true, false, some, ◌++◌, Result, ok, err, if◌then◌else◌, length,
  ltb, inl, inr,
}
use rsdb.Base.{◌≡◌, refl, arith, Result-cases, Bool-cases, Option-cases, le→not_ltb}
use native.Mathlib.Decide.{dec_lt}
use mathlib.Core.List.{append_assoc}
use rsdb.Base.Exec.{continue}
use rsdb.Base.Texts.{Text, Bytes}
use rsdb.Proto.Wire.{response, encode, protocol_version, max_payload_len}
use rsdb.Proto.Messages.{ControlResponse, ErrorCode, error, exec_failed}
use rsdb.Proto.Io.{memory_writer}
use rsdb.Proto.Frames.{write_frame, write_json_frame}
use rsdb.Daemon.Error.{Error}
use rsdb.Daemon.Host.{Host, World, Daemon, respond}
use rsdb.Daemon.Session.Command.{or_exec_failed}
use rsdb.Daemon.Session.Shell.{send_error}
use rsdb.Daemon.Server.{or_error}

-- The frame of a reply.
abbrev pub reply_frame : ℕ → Bytes → Bytes
reply_frame request_id payload =
    encode (record {
      version = protocol_version;
      kind = response;
      flags = 0;
      request_id = request_id;
      payload_len = length payload % 2 ^ 32;
    })
    ++ payload

abbrev pub max_error_text : ℕ
max_error_text = 2 * 1024 * 1024

module _ {S : Type 0} (host : Host S) where
  -- A reply that serializes to what a frame holds.
  abbrev pub Fits : ControlResponse → Type 0
  Fits reply =
      (payload : Bytes) × (host.responses.to_vec reply ≡ some payload)
      × (length payload ≤ max_payload_len)

  -- Error replies with texts of up to 2 MiB serialize to what a frame holds: JSON writes a byte of a
  -- text as six at most.
  abbrev pub ErrorsFit : Type 0
  ErrorsFit =
      (code : ErrorCode) (text : Text) → length text ≤ max_error_text → Fits (error code text)

module _ {S : Type 0} (host : Host S) (request_id : ℕ) where
  -- What was sent ends with the frame of a reply.
  abbrev pub EndsInReply : Bytes → Type 0
  EndsInReply out =
      (before : Bytes) × (reply : ControlResponse) × (payload : Bytes) × (host.responses.to_vec
          reply
        ≡ some payload)
      × (out ≡ before ++ reply_frame request_id payload)

  abbrev pub Run : Type 0
  Run = Result Error (Unit {0}) × World Bytes S

  -- A run that has sent its reply where it succeeds.
  pub record Answers (run : Run) : Type 0 where
    pub reply : run.0 ≡ ok tt → EndsInReply run.1.out

  -- A run that has succeeded and has sent its reply.
  pub record Answered (run : Run) : Type 0 where
    pub succeeds : run.0 ≡ ok tt
    pub replied : EndsInReply run.1.out

  pub continue-Answers :
      {A : Type 0}
      → (r : Result Error A) (k : A → Daemon Bytes S (Unit {0})) (world : World Bytes S)
      → ((a : A) (next : World Bytes S) → Answers (k a next))
      → Answers (continue r k world)
  continue-Answers r k world h = elim (Result-cases r) [
    | inl (a, e) ↦ rw e (h a world)
    | inr (x, e) ↦ record { reply = ground (arith, e) }
  ]

  pub if-Answers :
      (b : Bool) (m n : Daemon Bytes S (Unit {0})) (world : World Bytes S)
      → Answers (m world)
      → Answers (n world)
      → Answers ((if b then m else n) world)
  if-Answers true m n world h k = h
  if-Answers false m n world h k = k

  pub err-Answers : (e : Error) (world : World Bytes S) → Answers (err e, world)
  err-Answers e world = record { reply = ground arith }

  respond_fitting :
      (reply : ControlResponse) (payload : Bytes) (world : World Bytes S)
      → host.responses.to_vec reply ≡ some payload
      → ltb max_payload_len (length payload) ≡ false
      → Answered (respond host request_id reply world)
  unfolding write_json_frame write_frame
  respond_fitting reply payload world v n =
      rw (v, n)
        (record {
          succeeds = refl;
          replied = (world.out, reply, payload, v, append_assoc world.out _ payload);
        })

  pub respond-Answered :
      (reply : ControlResponse) (world : World Bytes S)
      → Fits host reply
      → Answered (respond host request_id reply world)
  respond-Answered reply world (payload, v, n) =
      respond_fitting reply payload world v (le→not_ltb max_payload_len (length payload) n)

  pub Answered-Answers : (run : Run) → Answered run → Answers run
  Answered-Answers run a = record { reply = λ e. a.replied }

  pub respond-Answers :
      (reply : ControlResponse) (world : World Bytes S)
      → Answers (respond host request_id reply world)
  unfolding write_json_frame write_frame
  respond-Answers reply world = elim (Option-cases (host.responses.to_vec reply)) [
    | inl e ↦ record { reply = ground (arith, e) }
    | inr (payload, e) ↦ elim (Bool-cases (ltb max_payload_len (length payload))) [
      | inl n ↦ record { reply = ground (arith, e, n) }
      | inr n ↦ Answered-Answers _ (respond_fitting reply payload world e n)
    ]
  ]

  -- A run that is answered, or whose answer would be an error with a text of more than 2 MiB.
  pub data Outcome (run : Run) : Type 0 where
    answered : Answered run → Outcome run
    overlong :
        (code : ErrorCode) (text : Text) (world : World Bytes S)
        → max_error_text < length text
        → run ≡ respond host request_id (error code text) world
        → Outcome run

  error-Outcome :
      (code : ErrorCode) (text : Text) (world : World Bytes S)
      → ErrorsFit host
      → Outcome (respond host request_id (error code text) world)
  error-Outcome code text world fits = elim (dec_lt max_error_text (length text)) [
    | yes long ↦ overlong code text world long refl
    | no short ↦ answered (respond-Answered _ world (fits code text (omega arith)))
  ]

  -- `Err` is turned into an error reply.
  pub or_error-Outcome :
      (classify : Error → ErrorCode) (action : Daemon Bytes S (Unit {0})) (world : World Bytes S)
      → ErrorsFit host
      → Answers (action world)
      → Outcome (or_error host request_id classify action world)
  unfolding send_error
  or_error-Outcome classify action world fits h = elim (Result-cases (action world).0) [
    | inl (done, e) ↦ rw (e, or_error) (answered (record { succeeds = refl; replied = h.reply e }))
    | inr (x, e) ↦ rw (e, or_error) (error-Outcome (classify x) _ _ fits)
  ]

  pub or_exec_failed-Outcome :
      (action : Daemon Bytes S (Unit {0})) (world : World Bytes S)
      → ErrorsFit host
      → Answers (action world)
      → Outcome (or_exec_failed host request_id action world)
  or_exec_failed-Outcome action world fits h = elim (Result-cases (action world).0) [
    | inl (done, e) ↦
        rw (e, or_exec_failed) (answered (record { succeeds = refl; replied = h.reply e }))
    | inr (x, e) ↦ rw (e, or_exec_failed) (error-Outcome exec_failed _ _ fits)
  ]
