-- ===== src/Tests/Siri.antt =====
-- audio.py's session over one utterance.
use atv_homekit_remote.Prelude.{
  either, ℕ, suc, ◌==◌, ◌≡◌, refl, ◌<◌, Bool, true, Option, none, some, [], ◌∷◌, arith, length,
  replicate, Result, ok, err, Error,
}
use atv_homekit_remote.Prelude.Int.{pos}
use atv_homekit_remote.Audio.Session.{
  Codec, AudioFrame, Event, Session, Ended, new_session, write, frame_bytes,
}
use atv_homekit_remote.Audio.Steps.{
  padded_frame, finish_input, finish_output, handle_ack, opened, Reachable, open_response, written,
  finishing, flushed, acknowledged, started, after,
}
use atv_homekit_remote.Audio.Handed.{IsOrderly}
use atv_homekit_remote.Audio.Calls.{Reachable-IsOrderly}
use atv_homekit_remote.Audio.Drained.{IsQuiet}
use atv_homekit_remote.Audio.Complete.{IsQuietCodec, Writes, write-Writes}

-- An encoder that counts its frames, and gives one byte for each.
abbrev counting : Codec
counting = record { Encoder = ℕ; Rms = Unit; opus = λ n pcm. (ok (n ∷ []), suc n); rms = λ pcm. tt }

abbrev no_fault : Event counting → Option Error
no_fault event = none

abbrev fresh : Session counting
fresh = new_session counting 0

-- Opened with stream 4, two frames and a half written, finished and acknowledged.
abbrev opened_session : Session counting
opened_session = (opened counting no_fault 0 (some (pos 4)) none fresh).1

abbrev fed : Session counting
fed = (write counting no_fault (replicate 1600 0) opened_session).1

abbrev padded : Session counting
padded = (finish_input counting true fed).1

abbrev finished : Session counting
finished = (finish_output counting no_fault padded).1

abbrev acknowledged_session : Session counting
acknowledged_session = (handle_ack counting no_fault true finished).1

padded_frame_ending :
    (o : Result (AudioFrame counting) × ℕ) (s : Session counting)
    → s.ending ≡ true
    → (padded_frame counting o s).1.ending ≡ true
padded_frame_ending (err x, e) s h = h
padded_frame_ending (ok f, e) s h = h

finish_input_ending :
    (pad : Bool) (s : Session counting) → (finish_input counting pad s).1.ending ≡ true
unfolding finish_input
finish_input_ending pad s =
    let P : Ended counting → Type 0 = λ o. o.1.ending ≡ true in
    either {A = Ended counting} P s.ending (λ e. e)
      (λ e.
        either {A = Ended counting} P (length s.pcm_buffer == 0) (λ e. refl)
          (λ e. either {A = Ended counting} P pad (λ e. padded_frame_ending _ _ refl) (λ e. refl)))

acknowledged-Reachable : Reachable counting acknowledged_session
acknowledged-Reachable =
    after
      (after
        (after
          (after (after (started 0) (open_response no_fault 0 (some (pos 4)) none fresh))
            (written no_fault (replicate 1600 0) opened_session))
          (finishing true fed))
        (flushed no_fault padded (finish_input_ending true fed)))
      (acknowledged no_fault true finished)

Reachable-IsOrderly_example : IsOrderly counting acknowledged_session
Reachable-IsOrderly_example =
    Reachable-IsOrderly counting acknowledged_session acknowledged-Reachable

counting-IsQuiet : IsQuietCodec counting
unfolding IsQuietCodec
counting-IsQuiet e pcm h = cc

no_fault-IsQuiet : IsQuiet counting no_fault
unfolding IsQuiet
no_fault-IsQuiet event h = cc

fresh_buffer : length fresh.pcm_buffer < frame_bytes
unfolding new_session
fresh_buffer = omega arith

write-Writes_example :
    Writes counting (replicate 1600 0) fresh (write counting no_fault (replicate 1600 0) fresh)
write-Writes_example =
    write-Writes counting counting-IsQuiet no_fault no_fault-IsQuiet (replicate 1600 0) fresh
      fresh_buffer
