-- ===== src/Audio/Complete.antt =====
-- `write` of audio.py cuts, encodes and hands over what it is given, and ends.
use atv_homekit_remote.Prelude.{
  either, ℕ, zero, suc, ◌+◌, ◌≡◌, ◌≢◌, refl, sym, ap, ◌∙◌, ◌≤◌, ◌<◌, false, Option, List, [], ◌∷◌,
  ◌++◌, append_assoc, append-nil, leb, ◌==◌, ◌||◌, arith, length, length-drop, take, drop, Bytes,
  Result, ok, err, Error, out_of_fuel,
}
use atv_homekit_remote.Audio.Session.{
  Codec, AudioFrame, Event, Session, Ended, number_packets, encode_frame, frame_of, cut_frames,
  write, frame_bytes, after_frame, then_flush,
}
use atv_homekit_remote.Audio.Drained.{
  packets_of, IsDrained, undrained, Drains, IsQuiet, flush_locked-Drains,
}

module _ (cd : Codec) where
  open cd use {Encoder, opus}

  -- libopus raises exceptions of its own.
  unfoldable pub IsQuietCodec : Type 0
  IsQuietCodec = (e : Encoder) (pcm : Bytes) → (opus e pcm).0 ≢ err out_of_fuel

  -- The encoder makes the frames of the bytes, one of each `frame_bytes` bytes in order; the last
  -- two are the encoder's state and the bytes that are left.
  abbrev pub AreEncoded : Encoder → Bytes → List (AudioFrame cd) → Encoder → Bytes → Type 0
  AreEncoded e pcm [] e' rest = (e' ≡ e) × (rest ≡ pcm)
  AreEncoded e pcm (f ∷ fs) e' rest =
      (frame_bytes ≤ length pcm)
      × ((encode_frame cd e (take frame_bytes pcm)).0 ≡ ok f)
      × AreEncoded (encode_frame cd e (take frame_bytes pcm)).1 (drop frame_bytes pcm) fs e' rest

  -- The session's bytes were cut, encoded and queued.
  record IsCut (s t : Session cd) : Type 0 where
    encoded : List (AudioFrame cd)
    sound : AreEncoded s.encoder s.pcm_buffer encoded t.encoder t.pcm_buffer
    small : length t.pcm_buffer < frame_bytes
    queued : t.frames ≡ s.frames ++ encoded
    numbered : t.sequence ≡ s.sequence
    logged : t.log ≡ s.log

  abbrev Cuts : Session cd → Ended cd → Type 0
  Cuts s (ok x, t) = IsCut s t
  Cuts s (err e, t) = e ≢ out_of_fuel

  -- All whole frames of the buffer and `pcm` were encoded and queued behind the frames that waited;
  -- `sent`, a front of these, was numbered and taken by the connection in this order.
  pub record IsWritten (pcm : Bytes) (s t : Session cd) : Type 0 where
    pub encoded : List (AudioFrame cd)
    pub sound : AreEncoded s.encoder (s.pcm_buffer ++ pcm) encoded t.encoder t.pcm_buffer
    pub small : length t.pcm_buffer < frame_bytes
    pub sent : List (AudioFrame cd)
    pub queued : s.frames ++ encoded ≡ sent ++ t.frames
    pub numbered : t.sequence ≡ s.sequence + length sent
    pub taken : packets_of cd t.log ≡ packets_of cd s.log ++ number_packets cd s.sequence sent

  abbrev pub Writes : Bytes → Session cd → Ended cd → Type 0
  Writes pcm s (ok x, t) = IsWritten pcm s t
  Writes pcm s (err e, t) = e ≢ out_of_fuel

  encode_frame-ne :
      IsQuietCodec → (e : Encoder) (pcm : Bytes) → (encode_frame cd e pcm).0 ≢ err out_of_fuel
  unfolding encode_frame IsQuietCodec
  encode_frame-ne quiet e pcm =
      either {A = Result (AudioFrame cd) × Encoder} (λ o. o.0 ≢ err out_of_fuel)
        (length pcm == frame_bytes) (λ s. framed (opus e pcm) (quiet e pcm)) (λ s h. cc)
    where
      framed :
          (o : Result Bytes × Encoder)
          → o.0 ≢ err out_of_fuel
          → (frame_of cd pcm o).0 ≢ err out_of_fuel
      framed (ok x, e') n h = cc
      framed (err x, e') n h = n (ground arith)

  -- The frame that is cut first stands before those that are cut later.
  cons-IsCut :
      (s t : Session cd) (f : AudioFrame cd) (e' : Encoder)
      → encode_frame cd s.encoder (take frame_bytes s.pcm_buffer) ≡ (ok f, e')
      → frame_bytes ≤ length s.pcm_buffer
      → IsCut
          (record s {
            pcm_buffer = drop frame_bytes s.pcm_buffer;
            encoder = e';
            frames = s.frames ++ (f ∷ []);
          })
          t
      → IsCut s t
  cons-IsCut s t f e' e long h = record {
    encoded = f ∷ h.encoded;
    sound = (long, ap (λ o. o.0) e, rw (← ap (λ o. o.1) e) at h.sound);
    small = h.small;
    queued = h.queued ∙ append_assoc s.frames (f ∷ []) h.encoded;
    numbered = h.numbered;
    logged = h.logged;
  }

  cut_later :
      (s : Session cd) (f : AudioFrame cd) (e' : Encoder)
      → encode_frame cd s.encoder (take frame_bytes s.pcm_buffer) ≡ (ok f, e')
      → frame_bytes ≤ length s.pcm_buffer
      → (o : Ended cd)
      → Cuts
          (record s {
            pcm_buffer = drop frame_bytes s.pcm_buffer;
            encoder = e';
            frames = s.frames ++ (f ∷ []);
          })
          o
      → Cuts s o
  cut_later s f e' e long (ok x, t) h = cons-IsCut s t f e' e long h
  cut_later s f e' e long (err x, t) h = h

  module _ (fault : Event cd → Option Error) where
    cut_frames-Cuts :
        IsQuietCodec
        → (fuel : ℕ) (s : Session cd) → length s.pcm_buffer < fuel
        → Cuts s (cut_frames cd fault fuel s)
    unfolding cut_frames
    cut_frames-Cuts quiet zero s enough = absurd (omega arith)
    cut_frames-Cuts quiet (suc fuel) s enough =
        either (Cuts s) (leb frame_bytes (length s.pcm_buffer))
          (λ e.
            first (cut_frames-Cuts quiet fuel)
              (encode_frame cd s.encoder (take frame_bytes s.pcm_buffer)) refl (ground arith))
          (λ e. record {
            encoded = [];
            sound = (refl, refl);
            small = ground arith;
            queued = sym (append-nil s.frames);
            numbered = refl;
            logged = refl;
          })
      where
        first :
            ((u : Session cd) → length u.pcm_buffer < fuel → Cuts u (cut_frames cd fault fuel u))
            → (o : Result (AudioFrame cd) × Encoder)
            → encode_frame cd s.encoder (take frame_bytes s.pcm_buffer) ≡ o
            → frame_bytes ≤ length s.pcm_buffer
            → Cuts s (
                after_frame cd o
                  (record s { pcm_buffer = drop frame_bytes s.pcm_buffer })
                  (cut_frames cd fault fuel))
        first again (err x, e') e long = λ h.
            encode_frame-ne quiet s.encoder (take frame_bytes s.pcm_buffer)
              (ap (λ o. o.0) e ∙ ap err h)
        first again (ok f, e') e long = cut_later s f e' e long _ (
            again
              (record s {
                pcm_buffer = drop frame_bytes s.pcm_buffer;
                encoder = e';
                frames = s.frames ++ (f ∷ []);
              })
              (omega (arith, length-drop frame_bytes s.pcm_buffer)))

    written :
        (pcm : Bytes) (s t u : Session cd)
        → IsCut (record s { pcm_buffer = s.pcm_buffer ++ pcm }) t
        → IsDrained cd t u
        → IsWritten pcm s u
    written pcm s t u c d = record {
      encoded = c.encoded;
      sound = rw (d.encoder, d.buffer) c.sound;
      small = rw d.buffer c.small;
      sent = d.sent;
      queued = sym c.queued ∙ d.queued;
      numbered = rw (← c.numbered) d.numbered;
      taken = rw (← c.numbered, ← c.logged) d.taken;
    }

    then_flush-Writes :
        IsQuiet cd fault
        → (pcm : Bytes) (s : Session cd) (o : Ended cd)
        → Cuts (record s { pcm_buffer = s.pcm_buffer ++ pcm }) o
        → Writes pcm s (then_flush cd fault o)
    then_flush-Writes quiet pcm s (err x, t) h = h
    then_flush-Writes quiet pcm s (ok x, t) h =
        flushed _ (flush_locked-Drains cd fault quiet false t)
      where
        flushed : (o : Ended cd) → Drains cd t o → Writes pcm s o
        flushed (err x, u) n = n
        flushed (ok y, u) d = written pcm s t u h d

  nothing-IsCut :
      (s : Session cd)
      → length s.pcm_buffer < frame_bytes
      → IsCut (record s { pcm_buffer = s.pcm_buffer ++ [] }) s
  nothing-IsCut s small = record {
    encoded = [];
    sound = (refl, sym (append-nil s.pcm_buffer));
    small = small;
    queued = sym (append-nil s.frames);
    numbered = refl;
    logged = refl;
  }

  -- If neither libopus nor the connection raises the model's `out_of_fuel`, a write to a session whose
  -- buffer is shorter than a frame does not run out of fuel. If it returns, all whole frames of the
  -- buffer with the new bytes were encoded in order and queued behind the frames that waited, the
  -- bytes that are left are fewer than a frame, and the packets that the connection has taken are a
  -- front of these frames, numbered on in their order; the rest still waits.
  pub write-Writes :
      IsQuietCodec
      → (fault : Event cd → Option Error) → IsQuiet cd fault
      → (pcm : Bytes) (s : Session cd) → length s.pcm_buffer < frame_bytes
      → Writes pcm s (write cd fault pcm s)
  unfolding write
  write-Writes codec fault quiet [] s small =
      written fault [] s s s (nothing-IsCut s small) (undrained cd s)
  write-Writes codec fault quiet (b ∷ bs) s small =
      let s' : Session cd = record s { pcm_buffer = s.pcm_buffer ++ (b ∷ bs) } in
      either (Writes (b ∷ bs) s) (s.ending || s.closed) (λ e h. cc)
        (λ e.
          then_flush-Writes fault quiet (b ∷ bs) s _
            (cut_frames-Cuts fault codec (suc (length s'.pcm_buffer)) s' (omega arith)))
