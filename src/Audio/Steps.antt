-- ===== src/Audio/Steps.antt =====
-- The calls that end or close a `SiriSession` of audio.py, and the session's life as steps, in any order.
-- A step runs to its end: no other call is taken up while a send waits.
use atv_homekit_remote.Prelude.{
  ℕ, ◌-◌, Bool, true, not, Option, none, some, [], ◌∷◌, ◌++◌, leb, ◌==◌, ◌||◌, if◌then◌else◌, ◌≡◌,
  length, replicate, Bytes, Result, ok, err, Error, runtime_error, timeout_error,
}
use atv_homekit_remote.Prelude.Int.{ℤ, pos, negsuc}
use atv_homekit_remote.Audio.Session.{
  Codec, AudioFrame, Event, Session, Ended, new_session, mark_done, encode_frame, flush_locked,
  write, send_close, done, failed, frame_bytes, normal_reason, unexpected_failure_reason,
  timeout_reason,
}

module _ (cd : Codec) where
  open cd use {Encoder}

  abbrev pub padded_frame : Result (AudioFrame cd) × Encoder → Session cd → Ended cd
  padded_frame (err x, e) s = (err x, record s { encoder = e })
  padded_frame (ok f, e) s =
      (ok tt, record s { encoder = e; frames = s.frames ++ (f ∷ []); pcm_buffer = [] })

  -- `finish`, its first lock: the rest of the buffer, filled up with zeros, becomes the last frame.
  unfoldable pub finish_input : Bool → Session cd → Ended cd
  unfolding encode_frame
  finish_input pad_final_frame s =
      let s' = record s { ending = true } in
      let filled = s.pcm_buffer ++ replicate (frame_bytes - length s.pcm_buffer) 0 in
      let last =
        padded_frame (encode_frame cd s.encoder filled) (record s' { pcm_buffer = filled }) in
      if s.ending
      then (ok tt, s)
      else if length s.pcm_buffer == 0
      then (ok tt, s')
      else if pad_final_frame
      then last
      else (ok tt, record s' { pcm_buffer = [] })

  -- `HDSCloseReason(int(reason))`
  unfoldable pub close_reason : ℤ → ℕ
  close_reason (pos n) = if leb n 9 then n else unexpected_failure_reason
  close_reason (negsuc n) = unexpected_failure_reason

  unfoldable pub handle_close : ℤ → Session cd → Session cd
  unfolding close_reason mark_done
  handle_close reason s =
      if s.closed
      then s
      else if close_reason reason == normal_reason
      then mark_done cd s
      else mark_done cd (record s { error = some runtime_error })

  -- `cancel`, up to the wait for the open task.
  unfoldable pub cancel_input : ℕ → Session cd → Session cd
  cancel_input reason s =
      if s.closed then s else record s { ending = true; cancel_reason = some reason }

  abbrev pub timed_out_end : Ended cd → Ended cd
  timed_out_end (ok x, s) =
      (err timeout_error, record s { error = some timeout_error; closed = true })
  timed_out_end (err x, s) = (err x, record s { error = some timeout_error; closed = true })

  abbrev pub failed_open : Ended cd → Ended cd
  failed_open (ok x, s) = (ok x, s)
  failed_open (err x, s) = (err x, record s { error = some x; closed = true })

  abbrev pub cancelled_open : Ended cd → Ended cd
  cancelled_open (ok x, s) = (ok tt, record s { closed = true })
  cancelled_open (err x, s) = (err x, s)

  module _ (fault : Event cd → Option Error) where
    -- `finish`, its last lock.
    unfoldable pub finish_output : Session cd → Ended cd
    unfolding flush_locked
    finish_output s = if s.closed then (ok tt, s) else flush_locked cd fault true s

    -- `finish`, when the wait for the acknowledgement times out.
    unfoldable pub finish_timeout : Session cd → Ended cd
    unfolding send_close
    finish_timeout s = timed_out_end (send_close cd fault timeout_reason s)

    unfoldable pub handle_ack : Bool → Session cd → Ended cd
    unfolding send_close
    handle_ack end_of_stream s = elim s.stream_id [
      | none ↦ (ok tt, s)
      | some stream ↦
          if s.closed || not end_of_stream
          then (ok tt, s)
          else done cd (failed cd (send_close cd fault normal_reason s))
    ]

    -- `cancel`, after that wait.
    unfoldable pub cancel_output : ℕ → Session cd → Ended cd
    unfolding send_close mark_done
    cancel_output reason s = elim s.stream_id [
      | none ↦ (ok tt, mark_done cd s)
      | some stream ↦ done cd (send_close cd fault reason s)
    ]

    abbrev pub opened_stream : Option Error → Session cd → Ended cd
    opened_stream (some x) s = (err x, s)
    opened_stream none s = elim s.cancel_reason [
      | none ↦ flush_locked cd fault s.ending s
      | some reason ↦ cancelled_open (send_close cd fault reason s)
    ]

    abbrev pub take_stream : Option Error → ℕ → Option ℤ → Session cd → Ended cd
    take_stream callback status none s = (err runtime_error, s)
    take_stream callback status (some (negsuc n)) s =
        if not (status == 0)
        then (err runtime_error, s)
        else (err runtime_error, record s { stream_id = some (negsuc n) })
    take_stream callback status (some (pos n)) s =
        if not (status == 0)
        then (err runtime_error, s)
        else opened_stream callback (record s { stream_id = some (pos n) })

    -- `_open`, on the response to dataSend/open: its status, its `streamId` if it has one, and what
    -- the callback `on_open` raises.
    unfoldable pub opened : ℕ → Option ℤ → Option Error → Session cd → Ended cd
    unfolding send_close flush_locked
    opened status stream callback s = failed_open (take_stream callback status stream s)

  -- One call of the session's life.
  pub data Step : Session cd → Session cd → Type 0 where
    open_response :
        (fault : Event cd → Option Error) (status : ℕ) (stream : Option ℤ) (callback : Option Error)
        (s : Session cd)
        → Step s (opened fault status stream callback s).1
    written :
        (fault : Event cd → Option Error) (pcm : Bytes) (s : Session cd)
        → Step s (write cd fault pcm s).1
    finishing : (pad : Bool) (s : Session cd) → Step s (finish_input pad s).1
    flushed :
        (fault : Event cd → Option Error) (s : Session cd)
        → s.ending ≡ true
        → Step s (finish_output fault s).1
    ack_missed :
        (fault : Event cd → Option Error) (s : Session cd) → Step s (finish_timeout fault s).1
    acknowledged :
        (fault : Event cd → Option Error) (end_of_stream : Bool) (s : Session cd)
        → Step s (handle_ack fault end_of_stream s).1
    closed_by_peer : (reason : ℤ) (s : Session cd) → Step s (handle_close reason s)
    cancelling : (reason : ℕ) (s : Session cd) → Step s (cancel_input reason s)
    cancelled :
        (fault : Event cd → Option Error) (reason : ℕ) (s : Session cd)
        → Step s (cancel_output fault reason s).1
    connection_lost : (s : Session cd) → Step s (record s { connection_closed = true })

  pub data Reachable : Session cd → Type 0 where
    started : (e : Encoder) → Reachable (new_session cd e)
    after : {s t : Session cd} → Reachable s → Step s t → Reachable t
