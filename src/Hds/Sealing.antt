-- ===== src/Hds/Sealing.antt =====
-- What `HDSConnection` of hds.py writes: no counter is used for two frames.
use atv_homekit_remote.Prelude.{
  ℕ, suc, ◌+◌, ◌^◌, ◌≡◌, refl, sym, ap, ◌∙◌, ◌<◌, Option, none, some, [], ◌∷◌, ◌++◌, arith, length,
  length-append, All-append, either, either_ok, either_some, Bytes, ok, err, Error, leb, Bool-cases,
  inl, inr,
}
use atv_homekit_remote.Prelude.Int.{pos}
use atv_homekit_remote.HdsCodec.Value.{HdsValue, Formats}
use atv_homekit_remote.Hds.Message.{nonce, build_payload}
use atv_homekit_remote.Hds.Connection.{
  Cipher, Connection, Sent, new_connection, close, take_response, draw_id, end_request, register,
  drained, seal_frame, send, send_event, send_response, then_wait, begin_request, lookup_id,
}
use atv_homekit_remote.Hds.Life.{
  Step, event_sent, response_sent, request_begun, request_ended, response_taken, payload_opened,
  identified, closed_now, Reachable, opened, after, nonce_bytes, IsPayload, seal_all,
  seal_all-append, Seals,
}

pub nonce-eq_ok : (n : ℕ) (bs : Bytes) → nonce (pos n) ≡ ok bs → (bs ≡ nonce_bytes n) × (n < 2 ^ 64)
unfolding nonce
nonce-eq_ok n bs h = elim (Bool-cases (leb n 0xffffffffffffffff)) [
  | inl small ↦ (ground arith, ground arith)
  | inr large ↦ absurd (ground arith)
]

module _ (fm : Formats) (cf : Cipher) (key : Bytes) where
  abbrev S : Connection fm → Type 0
  S c = Seals fm cf key c

  abbrev Ends {ℓ} : {A : Type ℓ} → Sent fm A → Type 0
  Ends o = S o.1

  -- A change that leaves the frames alone.
  kept :
      (c d : Connection fm)
      → d.out_key ≡ c.out_key
      → d.written ≡ c.written
      → d.out_nonce ≡ c.out_nonce
      → S c
      → S d
  kept c d same_key same_written same_nonce (ps, h) = (
    ps,
    record {
      key = same_key ∙ h.key;
      frames = same_written ∙ h.frames;
      counter = same_nonce ∙ h.counter;
      bounded = h.bounded;
      built = h.built;
    },
  )

  drained-Seals : (fault : Option Error) (c : Connection fm) → S c → S (drained fm fault c).1
  drained-Seals none c h = h
  drained-Seals (some e) c h = h

  one_more :
      (c : Connection fm) (payload counter : Bytes)
      → IsPayload fm payload
      → nonce (pos c.out_nonce) ≡ ok counter
      → S c
      → S (record c {
        out_nonce = suc c.out_nonce;
        written = c.written ++ (seal_frame fm cf c.out_key counter payload ∷ []);
      })
  one_more c payload counter built e (ps, h) =
      let (shape, small) = nonce-eq_ok c.out_nonce counter e in
      let place : length ps + 0 ≡ c.out_nonce = omega (arith, h.counter) in
      let last : seal_frame fm cf c.out_key counter payload
          ≡ seal_frame fm cf key (nonce_bytes (length ps + 0)) payload =
        rw (h.key, shape, place) in
      (
        ps ++ (payload ∷ []),
        record {
          key = h.key;
          frames =
              ap (λ w. w ++ (seal_frame fm cf c.out_key counter payload ∷ [])) h.frames
              ∙ ap (λ f. seal_all fm cf key 0 ps ++ (f ∷ [])) last
              ∙ sym (seal_all-append fm cf key 0 ps payload);
          counter = omega (arith, h.counter, length-append ps (payload ∷ []));
          bounded = omega (arith, h.counter, small, length-append ps (payload ∷ []));
          built = All-append (IsPayload fm) ps (payload ∷ []) h.built (built, tt);
        },
      )

  send-Seals :
      (fault : Option Error) (header message : HdsValue fm.Float) (c : Connection fm)
      → S c
      → S (send fm cf fault header message c).1
  unfolding send
  send-Seals fault header message c h =
      either (Ends {A = Unit {0}}) c.closed (λ e. h)
        (λ e.
          either_ok (Ends {A = Unit {0}}) (build_payload fm header message) (λ x e. h)
            (λ payload built.
              either_ok (Ends {A = Unit {0}}) (nonce (pos c.out_nonce)) (λ x e. h)
                (λ counter e.
                  drained-Seals fault _ (one_more c payload counter (header, message, built) e h))))

  then_wait-Seals :
      (id future : ℕ) (o : Sent fm (Unit {0})) → S o.1 → S (then_wait fm cf id future o).1
  unfolding end_request
  then_wait-Seals id future (ok x, c) h = h
  then_wait-Seals id future (err e, c) h = kept c _ refl refl refl h

  Step-Seals : {c d : Connection fm} → Step fm cf c d → S c → S d
  unfolding send_event send_response begin_request register end_request take_response close
  Step-Seals (event_sent fault protocol topic message c) h = send-Seals fault _ _ c h
  Step-Seals (response_sent fault protocol topic id status message c) h = send-Seals fault _ _ c h
  Step-Seals (request_begun fault draws protocol topic message c) h =
      either_ok (Ends {A = ℕ × ℕ}) (draw_id fm draws c.responses) (λ x e. h)
        (λ id e.
          then_wait-Seals id c.next_future _ (send-Seals fault _ _ _ (kept c _ refl refl refl h)))
  Step-Seals (request_ended id future c) h = kept c _ refl refl refl h
  Step-Seals (response_taken id status message c) h =
      either_some S (lookup_id id c.responses) (λ e. h) (λ future e. kept c _ refl refl refl h)
  Step-Seals (payload_opened c) h = kept c _ refl refl refl h
  Step-Seals (identified identifier c) h = kept c _ refl refl refl h
  Step-Seals (closed_now c) h = either S c.closed (λ e. h) (λ e. kept c _ refl refl refl h)

  -- In every reachable state the frames that a connection has written are those of some payloads,
  -- each built for a message, sealed under the accessory's key and the counters 0, 1, 2, ... in this
  -- order, and no counter exceeds 64 bits: no nonce is used twice, whatever was sent, refused or closed.
  pub Reachable-Seals :
      {in_key : Bytes} {c : Connection fm} → Reachable fm cf key in_key c → Seals fm cf key c
  unfolding new_connection
  Reachable-Seals opened =
      ([], record { key = refl; frames = refl; counter = refl; bounded = omega arith; built = tt })
  Reachable-Seals (after r st) = Step-Seals st (Reachable-Seals r)
