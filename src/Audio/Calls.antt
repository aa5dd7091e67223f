-- ===== src/Audio/Calls.antt =====
-- In every state that a `SiriSession` of audio.py can reach, what it has handed over is in order.
use atv_homekit_remote.Prelude.{
  either, either_some, ℕ, zero, suc, ◌≡◌, refl, sym, ◌∙◌, Bool, true, false, not, Option, none,
  some, [], ◌∷◌, ◌++◌, leb, ◌==◌, ◌||◌, arith, length, take, Bytes, Result, ok, err, Error,
}
use atv_homekit_remote.Prelude.Int.{ℤ, pos, negsuc}
use atv_homekit_remote.Audio.Session.{
  Codec, AudioFrame, Event, Session, Ended, new_session, mark_done, encode_frame, cut_frames, write,
  frame_bytes, after_frame, then_flush, done, failed, normal_reason, timeout_reason,
}
use atv_homekit_remote.Audio.Steps.{
  finish_input, finish_output, finish_timeout, handle_close, close_reason, handle_ack, cancel_input,
  cancel_output, opened, padded_frame, timed_out_end, cancelled_open, failed_open, opened_stream,
  take_stream, Step, Reachable, open_response, written, finishing, flushed, ack_missed,
  acknowledged, closed_by_peer, cancelling, cancelled, connection_lost, started, after,
}
use atv_homekit_remote.Audio.Handed.{IsOrderly, Ends, ends}
use atv_homekit_remote.Audio.Orderly.{flush_locked-Ends, send_close-Ends}

module _ (cd : Codec) where
  open cd use {Encoder}

  abbrev Good : Session cd → Type 0
  Good s = IsOrderly cd s

  -- A call that hands nothing over and marks at most the session as ending.
  marked :
      (s t : Session cd)
      → t.log ≡ s.log
      → t.sequence ≡ s.sequence
      → t.eos_sent ≡ s.eos_sent
      → t.close_sent ≡ s.close_sent
      → ((s.ending ≡ true) → t.ending ≡ true)
      → Good s
      → Good t
  unfolding IsOrderly
  marked s t log sequence eos close ending h = record {
    numbered = rw (log, sequence) h.numbered;
    bounded = rw log h.bounded;
    one_end = rw (log, eos) h.one_end;
    silent = rw log h.silent;
    one_close = rw (log, close) h.one_close;
    ends_ending = λ e. ending (h.ends_ending (sym eos ∙ e));
  }

  Cuts : Ended cd → Type 0
  Cuts o = Good o.1 × (o.1.ending ≡ false)

  cuts : (x : Result (Unit {0})) (s : Session cd) → Good s → s.ending ≡ false → Cuts (x, s)
  unfolding Cuts
  cuts x s h e = (h, e)

  after_frame-Cuts :
      (o : Result (AudioFrame cd) × Encoder) (s : Session cd) (more : Session cd → Ended cd)
      → Good s
      → s.ending ≡ false
      → ((t : Session cd) → Good t → t.ending ≡ false → Cuts (more t))
      → Cuts (after_frame cd o s more)
  after_frame-Cuts (err x, e) s more h off rest =
      cuts _ _ (marked s _ refl refl refl refl (λ p. p) h) off
  after_frame-Cuts (ok f, e) s more h off rest =
      rest _ (marked s _ refl refl refl refl (λ p. p) h) off

  module _ (fault : Event cd → Option Error) where
    cut_frames-Cuts :
        (fuel : ℕ) (s : Session cd) → Good s → s.ending ≡ false → Cuts (cut_frames cd fault fuel s)
    unfolding cut_frames
    cut_frames-Cuts zero s h off = cuts _ s h off
    cut_frames-Cuts (suc fuel) s h off =
        either Cuts (leb frame_bytes (length s.pcm_buffer))
          (λ e.
            after_frame-Cuts (encode_frame cd s.encoder (take frame_bytes s.pcm_buffer)) _
              (cut_frames cd fault fuel) (marked s _ refl refl refl refl (λ p. p) h) off
              (cut_frames-Cuts fuel))
          (λ e. cuts _ s h off)

    then_flush-Ends : (o : Ended cd) → Cuts o → Ends cd (then_flush cd fault o)
    unfolding Cuts
    then_flush-Ends (err x, s) h = ends cd _ s h.0
    then_flush-Ends (ok x, s) h = flush_locked-Ends cd fault false s (sym h.1) h.0

    write-Ends : (pcm : Bytes) (s : Session cd) → Good s → Ends cd (write cd fault pcm s)
    unfolding write
    write-Ends [] s h = ends cd _ s h
    write-Ends (b ∷ bs) s h =
        either (Ends cd) (s.ending || s.closed) (λ e. ends cd _ s h)
          (λ e.
            let s' : Session cd = record s { pcm_buffer = s.pcm_buffer ++ (b ∷ bs) } in
            then_flush-Ends _ (
              cut_frames-Cuts (suc (length s'.pcm_buffer)) s'
                (marked s s' refl refl refl refl (λ p. p) h) (ground arith)))

    finish_output-Ends :
        (s : Session cd) → s.ending ≡ true → Good s → Ends cd (finish_output cd fault s)
    unfolding finish_output
    finish_output-Ends s on h =
        either (Ends cd) s.closed (λ e. ends cd _ s h)
          (λ e. flush_locked-Ends cd fault true s (sym on) h)

    closed-Ends : (o : Ended cd) → Ends cd o → Ends cd (done cd o)
    unfolding Ends IsOrderly
    closed-Ends (x, s) h = h

    failed-Ends : (o : Ended cd) → Ends cd o → Ends cd (failed cd o)
    unfolding Ends IsOrderly
    failed-Ends (ok x, s) h = h
    failed-Ends (err x, s) h = h

    timed_out_end-Ends : (o : Ended cd) → Ends cd o → Ends cd (timed_out_end cd o)
    unfolding Ends IsOrderly
    timed_out_end-Ends (ok x, s) h = h
    timed_out_end-Ends (err x, s) h = h

    failed_open-Ends : (o : Ended cd) → Ends cd o → Ends cd (failed_open cd o)
    unfolding Ends IsOrderly
    failed_open-Ends (ok x, s) h = h
    failed_open-Ends (err x, s) h = h

    cancelled_open-Ends : (o : Ended cd) → Ends cd o → Ends cd (cancelled_open cd o)
    unfolding Ends IsOrderly
    cancelled_open-Ends (ok x, s) h = h
    cancelled_open-Ends (err x, s) h = h

    handle_ack-Ends : (eos : Bool) (s : Session cd) → Good s → Ends cd (handle_ack cd fault eos s)
    unfolding handle_ack
    handle_ack-Ends eos s h =
        either_some (Ends cd) s.stream_id (λ e. ends cd _ s h)
          (λ stream e.
            either (Ends cd) (s.closed || not eos) (λ e. ends cd _ s h)
              (λ e. closed-Ends _ (failed-Ends _ (send_close-Ends cd fault normal_reason s h))))

    cancel_output-Ends :
        (reason : ℕ) (s : Session cd) → Good s → Ends cd (cancel_output cd fault reason s)
    unfolding cancel_output mark_done
    cancel_output-Ends reason s h =
        either_some (Ends cd) s.stream_id
          (λ e. ends cd _ _ (marked s _ refl refl refl refl (λ p. p) h))
          (λ stream e. closed-Ends _ (send_close-Ends cd fault reason s h))

    opened_stream-Ends :
        (callback : Option Error) (s : Session cd)
        → Good s
        → Ends cd (opened_stream cd fault callback s)
    opened_stream-Ends (some x) s h = ends cd _ s h
    opened_stream-Ends none s h =
        either_some (Ends cd) s.cancel_reason (λ e. flush_locked-Ends cd fault s.ending s refl h)
          (λ reason e. cancelled_open-Ends _ (send_close-Ends cd fault reason s h))

    take_stream-Ends :
        (callback : Option Error) (status : ℕ) (stream : Option ℤ) (s : Session cd)
        → Good s
        → Ends cd (take_stream cd fault callback status stream s)
    take_stream-Ends callback status none s h = ends cd _ s h
    take_stream-Ends callback status (some (negsuc n)) s h =
        either (Ends cd) (not (status == 0)) (λ e. ends cd _ s h)
          (λ e. ends cd _ _ (marked s _ refl refl refl refl (λ p. p) h))
    take_stream-Ends callback status (some (pos n)) s h =
        either (Ends cd) (not (status == 0)) (λ e. ends cd _ s h)
          (λ e. opened_stream-Ends callback _ (marked s _ refl refl refl refl (λ p. p) h))

    opened-Ends :
        (status : ℕ) (stream : Option ℤ) (callback : Option Error) (s : Session cd)
        → Good s
        → Ends cd (opened cd fault status stream callback s)
    unfolding opened
    opened-Ends status stream callback s h =
        failed_open-Ends _ (take_stream-Ends callback status stream s h)

    finish_timeout-Ends : (s : Session cd) → Good s → Ends cd (finish_timeout cd fault s)
    unfolding finish_timeout
    finish_timeout-Ends s h = timed_out_end-Ends _ (send_close-Ends cd fault timeout_reason s h)

  padded_frame-Ends :
      (o : Result (AudioFrame cd) × Encoder) (s : Session cd)
      → Good s
      → Ends cd (padded_frame cd o s)
  padded_frame-Ends (err x, e) s h = ends cd _ _ (marked s _ refl refl refl refl (λ p. p) h)
  padded_frame-Ends (ok f, e) s h = ends cd _ _ (marked s _ refl refl refl refl (λ p. p) h)

  finish_input-Ends : (pad : Bool) (s : Session cd) → Good s → Ends cd (finish_input cd pad s)
  unfolding finish_input
  finish_input-Ends pad s h =
      either (Ends cd) s.ending (λ e. ends cd _ s h)
        (λ e.
          either (Ends cd) (length s.pcm_buffer == 0)
            (λ e. ends cd _ _ (marked s _ refl refl refl refl (λ p. refl) h))
            (λ e.
              either (Ends cd) pad
                (λ e. padded_frame-Ends _ _ (marked s _ refl refl refl refl (λ p. refl) h))
                (λ e. ends cd _ _ (marked s _ refl refl refl refl (λ p. refl) h))))

  handle_close-Good : (reason : ℤ) (s : Session cd) → Good s → Good (handle_close cd reason s)
  unfolding handle_close mark_done
  handle_close-Good reason s h =
      either Good s.closed (λ e. h)
        (λ e.
          either Good (close_reason cd reason == normal_reason)
            (λ e. marked s _ refl refl refl refl (λ p. p) h)
            (λ e. marked s _ refl refl refl refl (λ p. p) h))

  cancel_input-Good : (reason : ℕ) (s : Session cd) → Good s → Good (cancel_input cd reason s)
  unfolding cancel_input
  cancel_input-Good reason s h =
      either Good s.closed (λ e. h) (λ e. marked s _ refl refl refl refl (λ p. refl) h)

  state-Good : (o : Ended cd) → Ends cd o → Good o.1
  unfolding Ends
  state-Good o h = h

  Step-Good : {s t : Session cd} → Step cd s t → Good s → Good t
  Step-Good (open_response fault status stream callback s) h =
      state-Good _ (opened-Ends fault status stream callback s h)
  Step-Good (written fault pcm s) h = state-Good _ (write-Ends fault pcm s h)
  Step-Good (finishing pad s) h = state-Good _ (finish_input-Ends pad s h)
  Step-Good (flushed fault s on) h = state-Good _ (finish_output-Ends fault s on h)
  Step-Good (ack_missed fault s) h = state-Good _ (finish_timeout-Ends fault s h)
  Step-Good (acknowledged fault eos s) h = state-Good _ (handle_ack-Ends fault eos s h)
  Step-Good (closed_by_peer reason s) h = handle_close-Good reason s h
  Step-Good (cancelling reason s) h = cancel_input-Good reason s h
  Step-Good (cancelled fault reason s) h = state-Good _ (cancel_output-Ends fault reason s h)
  Step-Good (connection_lost s) h = marked s _ refl refl refl refl (λ p. p) h

  new_session-Good : (e : Encoder) → Good (new_session cd e)
  unfolding IsOrderly new_session
  new_session-Good e = record {
    numbered = refl;
    bounded = tt;
    one_end = refl;
    silent = refl;
    one_close = refl;
    ends_ending = λ p. cc;
  }

  -- In every reachable state of a session, whatever its sends raise and in whatever order its calls
  -- come: the packets handed over are numbered 0, 1, 2, ... up to the session's `sequence`, no event
  -- has more than five, at most one end of stream was delivered, just when `_eos_sent` is set, no
  -- data event follows it, at most one close was delivered, just when `_close_sent` is set, and the
  -- end of stream was sent only by a session that is ending.
  pub Reachable-IsOrderly : (s : Session cd) → Reachable cd s → IsOrderly cd s
  Reachable-IsOrderly s (started e) = new_session-Good e
  Reachable-IsOrderly t (after {s} r step) = Step-Good step (Reachable-IsOrderly s r)
