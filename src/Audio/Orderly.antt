-- ===== src/Audio/Orderly.antt =====
-- Every call of a `SiriSession` of audio.py keeps what it hands over in order, also where it raises.
use atv_homekit_remote.Prelude.{
  either, either_some, ℕ, zero, suc, ◌+◌, ◌≡◌, refl, sym, ◌∙◌, ◌≤◌, Bool, true, false, not, Option,
  List, [], ◌∷◌, ◌++◌, leb, ◌&&◌, ◌||◌, arith, length, length-take, take, drop, min, ok, err, Error,
}
use atv_homekit_remote.Prelude.Int.{ℤ}
use atv_homekit_remote.Audio.Session.{
  Codec, AudioFrame, Event, data_event, close_event, Session, Ended, send_event, number_packets,
  send_frames, flush_loop, flush_tail, flush_locked, send_close, frames_per_hds_event, is_empty,
  after_data, after_close,
}
use atv_homekit_remote.Audio.Handed.{
  IsOrderly, Ends, ends, Flushes, flushes, sent_data, sent_end, sent_close, sent_empty_end,
  failed_empty_end, flush_state, flushed, not_ended, close_failed,
}

module _ (cd : Codec) where
  module _ (fault : Event cd → Option Error) where
    -- An event is handed over once; the call returns or raises.
    send_event-cases :
        (P : Ended cd → Type 0) (event : Event cd) (s : Session cd)
        → P (ok tt, record s { log = s.log ++ ((event, true) ∷ []) })
        → ((x : Error) → P (err x, record s { log = s.log ++ ((event, false) ∷ []) }))
        → P (send_event cd fault event s)
    unfolding send_event
    send_event-cases P event s sent raised =
        either P s.connection_closed (λ e. raised _)
          (λ e. either_some P (fault event) (λ e. sent) (λ x e. raised x))

    pub send_close-Ends :
        (reason : ℕ) (s : Session cd) → IsOrderly cd s → Ends cd (send_close cd fault reason s)
    unfolding send_close
    send_close-Ends reason s h =
        either_some (Ends cd) s.stream_id (λ e. ends cd _ s h)
          (λ stream e.
            either (Ends cd) (s.close_sent || s.connection_closed) (λ e. ends cd _ s h)
              (λ e.
                let quiet : s.close_sent ≡ false = ground arith in
                send_event-cases (λ o. Ends cd (after_close cd o)) (close_event stream reason) s
                  (ends cd _ _ (sent_close cd s stream reason true quiet h))
                  (λ x. ends cd _ _ (close_failed cd s stream reason quiet h))))

    send_frames-Flushes :
        (force is_eos : Bool) (stream : ℤ) (s : Session cd) (more : Session cd → Ended cd)
        → s.eos_sent ≡ false
        → ((force ≡ true) → s.ending ≡ true)
        → ((is_eos ≡ true) → force ≡ true)
        → IsOrderly cd s
        → ((t : Session cd)
            → t.eos_sent ≡ false
            → ((force ≡ true) → t.ending ≡ true)
            → IsOrderly cd t
            → Flushes cd force (more t))
        → Flushes cd force (after_data cd is_eos (send_frames cd fault stream is_eos s) more)
    unfolding send_frames
    send_frames-Flushes force is_eos stream s more quiet ending only h rest =
        send_event-cases (λ o. Flushes cd force (after_data cd is_eos o more))
          (data_event (number_packets cd s.sequence fs) stream is_eos)
          (record s { frames = left; sequence = s.sequence + count }) (sent is_eos only)
          (λ x.
            flushes cd force _ _
              (sent_data cd s fs left count stream is_eos false size quiet few
                (λ e. ending (only e)) (ground arith) h)
              ending)
      where
        count : ℕ
        count = min frames_per_hds_event (length s.frames)

        fs : List (AudioFrame cd)
        fs = take count s.frames

        left : List (AudioFrame cd)
        left = drop count s.frames

        size : count ≡ length fs
        size = omega (arith, length-take count s.frames)

        few : count ≤ frames_per_hds_event
        few = omega arith

        sent :
            (b : Bool)
            → ((b ≡ true) → force ≡ true)
            → Flushes cd force (
                after_data cd b
                  (
                    ok tt,
                    record s {
                      frames = left;
                      sequence = s.sequence + count;
                      log =
                          s.log
                          ++ ((data_event (number_packets cd s.sequence fs) stream b, true) ∷ []);
                    },
                  )
                  more)
        sent true f =
            flushes cd force _ _
              (sent_end cd s fs left count stream size quiet few (ending (f refl)) h) ending
        sent false f =
            rest _ quiet ending
              (sent_data cd s fs left count stream false true size quiet few (λ e. cc) refl h)

    flush_loop-Flushes :
        (fuel : ℕ) (force : Bool) (stream : ℤ) (s : Session cd)
        → s.eos_sent ≡ false
        → ((force ≡ true) → s.ending ≡ true)
        → IsOrderly cd s
        → Flushes cd force (flush_loop cd fault fuel force stream s)
    unfolding flush_loop
    flush_loop-Flushes zero force stream s quiet ending h = flushes cd force _ s h ending
    flush_loop-Flushes (suc fuel) force stream s quiet ending h =
        let is_eos = force && leb (length s.frames) frames_per_hds_event in
        either (Flushes cd force)
          (leb frames_per_hds_event (length s.frames) || (force && not (is_empty cd s.frames)))
          (λ e.
            send_frames-Flushes force is_eos stream s (flush_loop cd fault fuel force stream) quiet
              ending (λ e. ground arith) h (flush_loop-Flushes fuel force stream))
          (λ e. flushes cd force _ s h ending)

    -- The end of stream without packets.
    flush_tail_sent :
        (force : Bool) (stream : ℤ) (s : Session cd)
        → s.eos_sent ≡ false
        → s.ending ≡ true
        → IsOrderly cd s
        → Flushes cd force (
            after_data cd true
              (send_event cd fault (data_event [] stream true) s)
              (λ s'. (ok tt, s')))
    flush_tail_sent force stream s quiet ending h =
        send_event-cases (λ o. Flushes cd force (after_data cd true o (λ s'. (ok tt, s'))))
          (data_event [] stream true) s
          (flushes cd force _ _ (sent_empty_end cd s stream quiet ending h) (λ e. ending))
          (λ x. flushes cd force _ _ (failed_empty_end cd s stream quiet ending h) (λ e. ending))

    flush_tail-Flushes :
        (force : Bool) (stream : ℤ) (o : Ended cd)
        → Flushes cd force o
        → Flushes cd force (flush_tail cd fault force stream o)
    unfolding flush_tail
    flush_tail-Flushes force stream (err x, s) h = h
    flush_tail-Flushes force stream (ok x, s) h =
        either (Flushes cd force) (force && is_empty cd s.frames && not s.eos_sent)
          (λ e.
            let (order, ending) = flush_state cd force (ok x) s h in
            let forced : force ≡ true = ground arith in
            flush_tail_sent force stream s (ground arith) (ending forced) order)
          (λ e. h)

    -- A flush is forced just when the session is ending.
    pub flush_locked-Ends :
        (force : Bool) (s : Session cd)
        → force ≡ s.ending
        → IsOrderly cd s
        → Ends cd (flush_locked cd fault force s)
    unfolding flush_locked
    flush_locked-Ends force s ending h =
        either_some (Ends cd) s.stream_id (λ e. ends cd _ s h)
          (λ stream e.
            either (Ends cd) s.closed (λ e. ends cd _ s h)
              (λ e.
                either (Ends cd) (force && s.eos_sent) (λ e. ends cd _ s h)
                  (λ e. flushed cd force _ (
                    flush_tail-Flushes force stream _ (
                      flush_loop-Flushes (suc (length s.frames)) force stream s
                        (not_ended cd force s ending h e) (λ f. sym ending ∙ f) h)))))
