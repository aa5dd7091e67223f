-- ===== src/Audio/Session.antt =====
-- `OpusEncoder.encode` and the methods of `SiriSession`. A method that awaits something other than a
-- send is split there: `finish` into its first lock, its flush and its timeout, `cancel` into what
-- stands before and after the wait for the open task, `_open` after the response.
use atv_homekit_remote.Prelude.{
  ℕ, zero, suc, ◌+◌, Bool, true, false, not, Option, none, some, List, [], ◌∷◌, ◌++◌, leb, ◌==◌,
  ◌&&◌, ◌||◌, if◌then◌else◌, length, take, drop, min, Bytes, Result, ok, err, Error, value_error,
  runtime_error, connection_error, out_of_fuel,
}
use atv_homekit_remote.Prelude.Int.{ℤ}

abbrev pub frame_bytes : ℕ
frame_bytes = 640

abbrev pub frames_per_hds_event : ℕ
frames_per_hds_event = 5

-- `HDSCloseReason`: 0 to 9 are its members.
abbrev pub normal_reason : ℕ
normal_reason = 0

abbrev pub unexpected_failure_reason : ℕ
unexpected_failure_reason = 5

abbrev pub timeout_reason : ℕ
timeout_reason = 6

-- libopus, an encoder with a state that may raise, and the root mean square of a frame, a float.
pub record Codec : Type 1 where
  pub Encoder : Type 0
  pub Rms : Type 0
  pub opus : Encoder → Bytes → Result Bytes × Encoder
  pub rms : Bytes → Rms

module _ (cd : Codec) where
  open cd use {Encoder, Rms, opus, rms}

  pub record AudioFrame : Type 0 where
    pub data_ : Bytes
    pub level : Rms

  abbrev pub frame_of : Bytes → Result Bytes × Encoder → Result AudioFrame × Encoder
  frame_of pcm (ok encoded, e) = (ok (record { data_ = encoded; level = rms pcm }), e)
  frame_of pcm (err x, e) = (err x, e)

  -- `OpusEncoder.encode`
  unfoldable pub encode_frame : Encoder → Bytes → Result AudioFrame × Encoder
  encode_frame e pcm =
      if length pcm == frame_bytes then frame_of pcm (opus e pcm) else (err value_error, e)

  -- A packet's data, `rms` and `sequenceNumber`.
  pub record Packet : Type 0 where
    pub frame : AudioFrame
    pub number : ℕ

  -- What the session hands to `send_event`: dataSend/data and dataSend/close.
  pub data Event : Type 0 where
    data_event : List Packet → ℤ → Bool → Event
    close_event : ℤ → ℕ → Event

  -- `log` holds every event handed to the connection, and whether the call returned.
  pub record Session : Type 0 where
    pub encoder : Encoder
    pub stream_id : Option ℤ
    pub sequence : ℕ
    pub pcm_buffer : Bytes
    pub frames : List AudioFrame
    pub error : Option Error
    pub ending : Bool
    pub closed : Bool
    pub eos_sent : Bool
    pub close_sent : Bool
    pub cancel_reason : Option ℕ
    pub connection_closed : Bool
    pub log : List (Event × Bool)

  -- The state that `SiriSession.__init__` sets up.
  unfoldable pub new_session : Encoder → Session
  new_session e = record {
    encoder = e;
    stream_id = none;
    sequence = 0;
    pcm_buffer = [];
    frames = [];
    error = none;
    ending = false;
    closed = false;
    eos_sent = false;
    close_sent = false;
    cancel_reason = none;
    connection_closed = false;
    log = [];
  }

  abbrev pub Ended : Type 0
  Ended = Result (Unit {0}) × Session

  -- `_mark_done`
  unfoldable pub mark_done : Session → Session
  mark_done s = record s { closed = true }

  -- `await self.connection.send_event(...)`; `fault` is how the connection fails on an event, if it does.
  unfoldable pub send_event : (Event → Option Error) → Event → Session → Ended
  send_event fault event s =
      if s.connection_closed
      then (err connection_error, record s { log = s.log ++ ((event, false) ∷ []) })
      else elim (fault event) [
        | none ↦ (ok tt, record s { log = s.log ++ ((event, true) ∷ []) })
        | some x ↦ (err x, record s { log = s.log ++ ((event, false) ∷ []) })
      ]

  -- The packets of some frames, numbered from `sequence` on.
  unfoldable pub number_packets : ℕ → List AudioFrame → List Packet
  number_packets sequence [] = []
  number_packets sequence (f ∷ fs) =
      record { frame = f; number = sequence } ∷ number_packets (suc sequence) fs

  abbrev pub is_empty {ℓ} : {A : Type ℓ} → List A → Bool
  is_empty [] = true
  is_empty (x ∷ xs) = false

  abbrev pub after_close : Ended → Ended
  after_close (err x, s) = (err x, s)
  after_close (ok x, s) = (ok tt, record s { close_sent = true })

  abbrev pub after_data : Bool → Ended → (Session → Ended) → Ended
  after_data is_eos (err x, s) more = (err x, s)
  after_data true (ok x, s) more = (ok tt, record s { eos_sent = true })
  after_data false (ok x, s) more = more s

  abbrev pub done : Ended → Ended
  done (x, s) = (x, record s { closed = true })

  abbrev pub failed : Ended → Ended
  failed (ok x, s) = (ok x, s)
  failed (err x, s) = (err x, record s { error = some x })

  abbrev pub after_frame : Result AudioFrame × Encoder → Session → (Session → Ended) → Ended
  after_frame (err x, e) s more = (err x, record s { encoder = e })
  after_frame (ok f, e) s more = more (record s { encoder = e; frames = s.frames ++ (f ∷ []) })

  module _ (fault : Event → Option Error) where
    -- One round of the loop of `_flush_locked`, up to the send.
    unfoldable pub send_frames : ℤ → Bool → Session → Ended
    unfolding send_event number_packets
    send_frames stream is_eos s =
        let count = min frames_per_hds_event (length s.frames) in
        let packets = number_packets s.sequence (take count s.frames) in
        send_event fault (data_event packets stream is_eos)
          (record s { frames = drop count s.frames; sequence = s.sequence + count })

    -- The loop. The last round of a forced flush is the one that takes all frames that are left.
    unfoldable pub flush_loop : ℕ → Bool → ℤ → Session → Ended
    unfolding send_frames
    flush_loop zero force stream s = (err out_of_fuel, s)
    flush_loop (suc fuel) force stream s =
        let is_eos = force && leb (length s.frames) frames_per_hds_event in
        let round =
          after_data is_eos (send_frames stream is_eos s) (flush_loop fuel force stream) in
        if leb frames_per_hds_event (length s.frames) || (force && not (is_empty s.frames))
        then round
        else (ok tt, s)

    -- The end of stream without packets, if the loop has not sent it.
    unfoldable pub flush_tail : Bool → ℤ → Ended → Ended
    unfolding send_event
    flush_tail force stream (err x, s) = (err x, s)
    flush_tail force stream (ok x, s) =
        if force && is_empty s.frames && not s.eos_sent
        then after_data true (send_event fault (data_event [] stream true) s) (λ s'. (ok tt, s'))
        else (ok tt, s)

    -- `_flush_locked`. A round takes a frame at least.
    unfoldable pub flush_locked : Bool → Session → Ended
    unfolding flush_loop flush_tail
    flush_locked force s = elim s.stream_id [
      | none ↦ (ok tt, s)
      | some stream ↦
          if s.closed
          then (ok tt, s)
          else if force && s.eos_sent
          then (ok tt, s)
          else flush_tail force stream (flush_loop (suc (length s.frames)) force stream s)
    ]

    -- `while len(self._pcm_buffer) >= FRAME_BYTES`
    unfoldable pub cut_frames : ℕ → Session → Ended
    unfolding encode_frame
    cut_frames zero s = (err out_of_fuel, s)
    cut_frames (suc fuel) s =
        let round =
          after_frame (encode_frame s.encoder (take frame_bytes s.pcm_buffer))
            (record s { pcm_buffer = drop frame_bytes s.pcm_buffer }) (cut_frames fuel) in
        if leb frame_bytes (length s.pcm_buffer) then round else (ok tt, s)

    abbrev pub then_flush : Ended → Ended
    then_flush (err x, s) = (err x, s)
    then_flush (ok x, s) = flush_locked false s

    -- `write`. Each round of `cut_frames` takes a byte at least.
    unfoldable pub write : Bytes → Session → Ended
    unfolding cut_frames flush_locked
    write [] s = (ok tt, s)
    write (b ∷ bs) s =
        let buffer = s.pcm_buffer ++ (b ∷ bs) in
        if s.ending || s.closed
        then (err runtime_error, s)
        else then_flush (cut_frames (suc (length buffer)) (record s { pcm_buffer = buffer }))

    -- `_send_close`
    unfoldable pub send_close : ℕ → Session → Ended
    unfolding send_event
    send_close reason s = elim s.stream_id [
      | none ↦ (ok tt, s)
      | some stream ↦
          if s.close_sent || s.connection_closed
          then (ok tt, s)
          else after_close (send_event fault (close_event stream reason) s)
    ]
