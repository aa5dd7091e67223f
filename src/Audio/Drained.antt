-- ===== src/Audio/Drained.antt =====
-- What a flush of audio.py takes from the frames that wait, and that its loop ends.
use atv_homekit_remote.Prelude.{
  either, either_some, ℕ, zero, suc, ◌+◌, ◌≡◌, ◌≢◌, refl, sym, ap, ◌∙◌, ◌≤◌, ◌<◌, Bool, true, false,
  not, Option, some, List, [], ◌∷◌, ◌++◌, append_assoc, append-nil, leb, ◌&&◌, ◌||◌, arith, length,
  length-append, length-take, length-drop, take, drop, take-append-drop, min, ok, err, Error,
  out_of_fuel,
}
use atv_homekit_remote.Prelude.Int.{ℤ}
use atv_homekit_remote.Audio.Session.{
  Codec, AudioFrame, Packet, Event, data_event, close_event, Session, Ended, send_event,
  number_packets, send_frames, flush_loop, flush_tail, flush_locked, frames_per_hds_event,
  after_data, is_empty,
}

module _ (cd : Codec) where
  -- The packets of the data events that the connection has taken.
  abbrev pub packets_of : List (Event cd × Bool) → List (Packet cd)
  packets_of [] = []
  packets_of ((data_event packets stream eos, true) ∷ log) = packets ++ packets_of log
  packets_of ((data_event packets stream eos, false) ∷ log) = packets_of log
  packets_of ((close_event stream reason, delivered) ∷ log) = packets_of log

  packets_of-append :
      (log more : List (Event cd × Bool))
      → packets_of (log ++ more) ≡ packets_of log ++ packets_of more
  packets_of-append [] more = refl
  packets_of-append ((data_event packets stream eos, true) ∷ log) more =
      rw (packets_of-append log more)
        (sym (append_assoc packets (packets_of log) (packets_of more)))
  packets_of-append ((data_event packets stream eos, false) ∷ log) more = packets_of-append log more
  packets_of-append ((close_event stream reason, delivered) ∷ log) more = packets_of-append log more

  number_packets-append :
      (n : ℕ) (fs gs : List (AudioFrame cd))
      → number_packets cd n (fs ++ gs)
        ≡ number_packets cd n fs ++ number_packets cd (n + length fs) gs
  unfolding number_packets
  number_packets-append n [] gs = let same : n + 0 ≡ n = omega arith in rw same refl
  number_packets-append n (f ∷ fs) gs =
      let same : suc n + length fs ≡ n + suc (length fs) = omega arith in
      rw (number_packets-append (suc n) fs gs, same) refl

  -- `sent`, the front of the frames that waited, was numbered from the session's number on and taken
  -- by the connection; the rest still waits. The buffer and the encoder are as they were.
  pub record IsDrained (s t : Session cd) : Type 0 where
    pub sent : List (AudioFrame cd)
    pub queued : s.frames ≡ sent ++ t.frames
    pub numbered : t.sequence ≡ s.sequence + length sent
    pub taken : packets_of t.log ≡ packets_of s.log ++ number_packets cd s.sequence sent
    pub buffer : t.pcm_buffer ≡ s.pcm_buffer
    pub encoder : t.encoder ≡ s.encoder

  -- A call that raises does not raise the model's `out_of_fuel`.
  abbrev pub Drains : Session cd → Ended cd → Type 0
  Drains s (ok x, t) = IsDrained s t
  Drains s (err e, t) = e ≢ out_of_fuel

  pub undrained : (s : Session cd) → IsDrained s s
  unfolding number_packets
  undrained s = record {
    sent = [];
    queued = refl;
    numbered = omega arith;
    taken = sym (append-nil (packets_of s.log));
    buffer = refl;
    encoder = refl;
  }

  -- An event with the next frames was taken.
  taken_event :
      (s t : Session cd) (count : ℕ) (stream : ℤ) (eos ended : Bool)
      → IsDrained s t
      → count ≤ length t.frames
      → IsDrained s (record t {
        frames = drop count t.frames;
        sequence = t.sequence + count;
        log =
            t.log
            ++ ((data_event (number_packets cd t.sequence (take count t.frames)) stream eos, true)
                ∷ []);
        eos_sent = ended;
      })
  taken_event s t count stream eos ended h few =
      let fs = take count t.frames in
      let packets = number_packets cd t.sequence fs in
      record {
        sent = h.sent ++ fs;
        queued =
            h.queued
            ∙ ap (λ x. h.sent ++ x) (sym (take-append-drop count t.frames))
            ∙ sym (append_assoc h.sent fs (drop count t.frames));
        numbered = omega (arith, h.numbered, length-append h.sent fs, length-take count t.frames);
        taken =
            packets_of-append t.log ((data_event packets stream eos, true) ∷ [])
            ∙ ap (λ x. packets_of t.log ++ x) (append-nil packets)
            ∙ rw (h.taken, h.numbered, number_packets-append s.sequence h.sent fs)
                (append_assoc (packets_of s.log) (number_packets cd s.sequence h.sent)
                  (number_packets cd (s.sequence + length h.sent) fs));
        buffer = h.buffer;
        encoder = h.encoder;
      }

  -- An end of stream without packets was taken.
  taken_empty :
      (s t : Session cd) (stream : ℤ)
      → IsDrained s t
      → IsDrained s
          (record t { log = t.log ++ ((data_event [] stream true, true) ∷ []); eos_sent = true })
  taken_empty s t stream h = record {
    sent = h.sent;
    queued = h.queued;
    numbered = h.numbered;
    taken =
        packets_of-append t.log ((data_event [] stream true, true) ∷ [])
        ∙ append-nil (packets_of t.log)
        ∙ h.taken;
    buffer = h.buffer;
    encoder = h.encoder;
  }

  module _ (fault : Event cd → Option Error) where
    -- The connection raises exceptions of its own.
    unfoldable pub IsQuiet : Type 0
    IsQuiet = (event : Event cd) → fault event ≢ some out_of_fuel

    send_event-Drains :
        IsQuiet
        → (s : Session cd) (event : Event cd) (t : Session cd) (eos : Bool)
          (more : Session cd → Ended cd)
        → Drains s
            (after_data cd eos (ok tt, record t { log = t.log ++ ((event, true) ∷ []) }) more)
        → Drains s (after_data cd eos (send_event cd fault event t) more)
    unfolding send_event IsQuiet
    send_event-Drains quiet s event t eos more sent =
        either {A = Ended cd} (λ o. Drains s (after_data cd eos o more)) t.connection_closed
          (λ e h. cc)
          (λ e.
            either_some {B = Ended cd} (λ o. Drains s (after_data cd eos o more)) (fault event)
              (λ e. sent) (λ x e h. quiet event (e ∙ ap some h)))

    flush_loop-Drains :
        IsQuiet
        → (fuel : ℕ) (force : Bool) (stream : ℤ) (s t : Session cd) → length t.frames < fuel
        → IsDrained s t
        → Drains s (flush_loop cd fault fuel force stream t)
    unfolding flush_loop send_frames
    flush_loop-Drains quiet zero force stream s t enough h = absurd (omega arith)
    flush_loop-Drains quiet (suc fuel) force stream s t enough h =
        let eos = force && leb (length t.frames) frames_per_hds_event in
        either (Drains s)
          (leb frames_per_hds_event (length t.frames) || (force && not (is_empty cd t.frames)))
          (λ e.
            send_event-Drains quiet s _
              (record t { frames = drop count t.frames; sequence = t.sequence + count }) eos
              (flush_loop cd fault fuel force stream)
              (taken (flush_loop-Drains quiet fuel force stream s) eos
                (nonempty_frames t.frames e)))
          (λ e. h)
      where
        count : ℕ
        count = min frames_per_hds_event (length t.frames)

        nonempty_frames :
            (fs : List (AudioFrame cd))
            → (leb frames_per_hds_event (length fs) || (force && not (is_empty cd fs))) ≡ true
            → 0 < length fs
        nonempty_frames [] e = ground arith
        nonempty_frames (f ∷ fs) e = omega arith

        after : Bool → Bool → Session cd
        after b ended = record t {
          frames = drop count t.frames;
          sequence = t.sequence + count;
          log =
              t.log
              ++ ((data_event (number_packets cd t.sequence (take count t.frames)) stream b, true)
                  ∷ []);
          eos_sent = ended;
        }

        taken :
            ((u : Session cd)
              → length u.frames < fuel
              → IsDrained s u
              → Drains s (flush_loop cd fault fuel force stream u))
            → (b : Bool) → 0 < length t.frames
            → Drains s (
                after_data cd b (ok tt, after b t.eos_sent) (flush_loop cd fault fuel force stream))
        taken again true some_left = taken_event s t count stream true true h (omega arith)
        taken again false some_left =
            again (after false t.eos_sent) (omega (arith, length-drop count t.frames))
              (taken_event s t count stream false t.eos_sent h (omega arith))

    flush_tail-Drains :
        IsQuiet
        → (force : Bool) (stream : ℤ) (s : Session cd) (o : Ended cd) → Drains s o
        → Drains s (flush_tail cd fault force stream o)
    unfolding flush_tail
    flush_tail-Drains quiet force stream s (err x, t) h = h
    flush_tail-Drains quiet force stream s (ok x, t) h =
        either (Drains s) (force && is_empty cd t.frames && not t.eos_sent)
          (λ e.
            send_event-Drains quiet s (data_event [] stream true) t true (λ u. (ok tt, u))
              (taken_empty s t stream h))
          (λ e. h)

    -- Whatever a flush sends, it is the front of the frames, in order, and its fuel is enough.
    pub flush_locked-Drains :
        IsQuiet → (force : Bool) (s : Session cd) → Drains s (flush_locked cd fault force s)
    unfolding flush_locked
    flush_locked-Drains quiet force s =
        either_some (Drains s) s.stream_id (λ e. undrained s)
          (λ stream e.
            either (Drains s) s.closed (λ e. undrained s)
              (λ e.
                either (Drains s) (force && s.eos_sent) (λ e. undrained s)
                  (λ e. flush_tail-Drains quiet force stream s _ (
                    flush_loop-Drains quiet (suc (length s.frames)) force stream s s (omega arith)
                      (undrained s)))))
