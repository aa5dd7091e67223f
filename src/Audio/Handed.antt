-- ===== src/Audio/Handed.antt =====
-- What one event adds to the log of a `SiriSession` of audio.py.
use atv_homekit_remote.Prelude.{
  inl, inr, ℕ, ◌+◌, ◌≡◌, ◌≤◌, Bool, true, false, List, [], ◌∷◌, ◌++◌, ◌&&◌, arith, length, Result,
  Bool-cases,
}
use atv_homekit_remote.Prelude.Int.{ℤ}
use atv_homekit_remote.Audio.Session.{
  Codec, AudioFrame, data_event, close_event, Session, Ended, number_packets, frames_per_hds_event,
}
use atv_homekit_remote.Audio.Order.{IsOrder, data-IsOrder, close-IsOrder}

module _ (cd : Codec) where
  unfoldable pub IsOrderly : Session cd → Type 0
  IsOrderly s = IsOrder cd s.log s.sequence s.eos_sent s.close_sent s.ending

  unfoldable pub Ends : Ended cd → Type 0
  unfolding IsOrderly
  Ends o = IsOrderly o.1

  pub ends : (x : Result (Unit {0})) (s : Session cd) → IsOrderly s → Ends (x, s)
  unfolding Ends
  ends x s h = h

  -- In a flush: order is kept, and a forced one has marked the session as ending.
  unfoldable pub Flushes : Bool → Ended cd → Type 0
  unfolding IsOrderly
  Flushes force o = IsOrderly o.1 × ((force ≡ true) → o.1.ending ≡ true)

  pub flushes :
      (force : Bool) (x : Result (Unit {0})) (s : Session cd)
      → IsOrderly s
      → ((force ≡ true) → s.ending ≡ true)
      → Flushes force (x, s)
  unfolding Flushes
  flushes force x s h e = (h, e)

  -- A data event that is no delivered end of stream.
  pub sent_data :
      (s : Session cd) (fs rest : List (AudioFrame cd)) (count : ℕ) (stream : ℤ)
      (eos delivered : Bool)
      → count ≡ length fs
      → s.eos_sent ≡ false
      → count ≤ frames_per_hds_event
      → ((eos ≡ true) → s.ending ≡ true)
      → (eos && delivered) ≡ false
      → IsOrderly s
      → IsOrderly (record s {
        frames = rest;
        sequence = s.sequence + count;
        log = s.log ++ ((data_event (number_packets cd s.sequence fs) stream eos, delivered) ∷ []);
      })
  unfolding IsOrderly
  sent_data s fs rest count stream eos delivered size quiet few ending no_end h =
      let order =
        data-IsOrder cd s.log s.sequence s.close_sent s.ending fs stream eos delivered (omega arith)
          ending (rw quiet at h) in
      rw (size, quiet) (rw no_end at order)

  pub sent_end :
      (s : Session cd) (fs rest : List (AudioFrame cd)) (count : ℕ) (stream : ℤ)
      → count ≡ length fs
      → s.eos_sent ≡ false
      → count ≤ frames_per_hds_event
      → s.ending ≡ true
      → IsOrderly s
      → IsOrderly (record s {
        frames = rest;
        sequence = s.sequence + count;
        log = s.log ++ ((data_event (number_packets cd s.sequence fs) stream true, true) ∷ []);
        eos_sent = true;
      })
  unfolding IsOrderly
  sent_end s fs rest count stream size quiet few ending h = rw size (
      data-IsOrder cd s.log s.sequence s.close_sent s.ending fs stream true true (omega arith)
        (λ e. ending) (rw quiet at h))

  pub sent_close :
      (s : Session cd) (stream : ℤ) (reason : ℕ) (delivered : Bool)
      → s.close_sent ≡ false
      → IsOrderly s
      → IsOrderly (record s {
        log = s.log ++ ((close_event stream reason, delivered) ∷ []);
        close_sent = delivered;
      })
  unfolding IsOrderly
  sent_close s stream reason delivered quiet h =
      close-IsOrder cd s.log s.sequence s.eos_sent s.ending stream reason delivered (rw quiet at h)

  -- An end of stream without packets, sent or not.
  pub sent_empty_end :
      (s : Session cd) (stream : ℤ)
      → s.eos_sent ≡ false
      → s.ending ≡ true
      → IsOrderly s
      → IsOrderly
          (record s { log = s.log ++ ((data_event [] stream true, true) ∷ []); eos_sent = true })
  unfolding IsOrderly number_packets
  sent_empty_end s stream quiet ending h =
      let same : s.sequence + 0 ≡ s.sequence = omega arith in
      rw same at (
        data-IsOrder cd s.log s.sequence s.close_sent s.ending [] stream true true (omega arith)
          (λ e. ending) (rw quiet at h))

  pub failed_empty_end :
      (s : Session cd) (stream : ℤ)
      → s.eos_sent ≡ false
      → s.ending ≡ true
      → IsOrderly s
      → IsOrderly (record s { log = s.log ++ ((data_event [] stream true, false) ∷ []) })
  unfolding IsOrderly number_packets
  failed_empty_end s stream quiet ending h =
      let same : s.sequence + 0 ≡ s.sequence = omega arith in
      rw quiet (
        rw same at (
          data-IsOrder cd s.log s.sequence s.close_sent s.ending [] stream true false (omega arith)
            (λ e. ending) (rw quiet at h)))

  pub flush_state :
      (force : Bool) (x : Result (Unit {0})) (s : Session cd)
      → Flushes force (x, s)
      → IsOrderly s × ((force ≡ true) → s.ending ≡ true)
  unfolding Flushes
  flush_state force x s h = h

  pub flushed : (force : Bool) (o : Ended cd) → Flushes force o → Ends o
  unfolding Flushes Ends
  flushed force o h = h.0

  -- The end of stream is sent only by an ending session.
  pub not_ended :
      (force : Bool) (s : Session cd)
      → force ≡ s.ending
      → IsOrderly s
      → (force && s.eos_sent) ≡ false
      → s.eos_sent ≡ false
  unfolding IsOrderly
  not_ended force s ending h e = elim (Bool-cases s.eos_sent) [
    | inl sent ↦ let on = h.ends_ending sent in absurd (ground arith)
    | inr quiet ↦ quiet
  ]

  pub close_failed :
      (s : Session cd) (stream : ℤ) (reason : ℕ)
      → s.close_sent ≡ false
      → IsOrderly s
      → IsOrderly (record s { log = s.log ++ ((close_event stream reason, false) ∷ []) })
  unfolding IsOrderly
  close_failed s stream reason quiet h =
      rw quiet
        (close-IsOrder cd s.log s.sequence s.eos_sent s.ending stream reason false (rw quiet at h))
