-- ===== src/Hds/Receiving.antt =====
-- The loop of `HDSConnection._run` of hds.py on what the other side has sealed.
use atv_homekit_remote.Prelude.{
  ℕ, zero, suc, ◌+◌, ◌^◌, ◌≡◌, refl, sym, ap, ◌∙◌, ◌≤◌, ◌<◌, true, false, some, List, [], ◌∷◌, ◌++◌,
  ltb, leb, ltb-false, leb-true, if◌then◌else◌, if_of_true, if_of_false, arith, length,
  length-append, drop, take-append, drop-append, append_assoc, concat, All, either_ok, either_some,
  Bytes, ok, err, Bool-cases, inl, inr,
}
use atv_homekit_remote.Prelude.Int.{pos, is_within}
use atv_homekit_remote.HdsCodec.Value.{Formats}
use atv_homekit_remote.Hds.Message.{
  Message, event_message, request_message, response_message, Conversions, nonce, decode_message,
  frame_header, read_frame_header, max_payload_length,
}
use atv_homekit_remote.Hds.Framing.{read_frame_header-frame_header}
use atv_homekit_remote.Hds.Connection.{
  Cipher, Connection, Sent, readexactly, seal_frame, lookup_id, take_response, Received, ended,
  refused, received, open_frame, read_frame, receive, dispatch, dispatch_payload, then_receive,
  run_loop,
}
use atv_homekit_remote.Hds.Life.{nonce_bytes, seal_all}

readexactly-append :
    (n : ℕ) (xs ys : Bytes) → length xs ≡ n → readexactly n (xs ++ ys) ≡ some (xs, ys)
unfolding readexactly
readexactly-append n xs ys e =
    let enough : ltb (length (xs ++ ys)) n ≡ false =
      ltb-false _ _ (omega (arith, length-append xs ys)) in
    rw (enough, ← e)
      (ap (λ t. some (t, drop (length xs) (xs ++ ys))) (take-append xs ys)
        ∙ ap (λ t. some (xs, t)) (drop-append xs ys))

nonce_lt : (n : ℕ) → n < 2 ^ 64 → nonce (pos n) ≡ ok (nonce_bytes n)
unfolding nonce is_within
nonce_lt n h =
    let small : leb n 0xffffffffffffffff ≡ true = leb-true _ _ (omega arith) in rw small refl

module _ (fm : Formats) (cf : Cipher) where
  length-frame_header : (payload : Bytes) → length (frame_header fm payload) ≡ 4
  unfolding frame_header
  length-frame_header payload = refl

  open_frame-sealed :
      (key header : Bytes) (n : ℕ) (payload rest : Bytes)
      → n < 2 ^ 64
      → open_frame fm cf key n header (some (cf.encrypt key (nonce_bytes n) payload header, rest))
        ≡ received payload rest
  unfolding open_frame
  open_frame-sealed key header n payload rest counted =
      ground (arith, nonce_lt n counted, cf.decrypt-encrypt key (nonce_bytes n) payload header)

  read_frame-sealed :
      (key header : Bytes) (n size : ℕ) (payload rest : Bytes)
      → n < 2 ^ 64
      → length payload ≡ size
      → read_frame_header header ≡ ok size
      → read_frame fm cf key n
          (some (header, cf.encrypt key (nonce_bytes n) payload header ++ rest))
        ≡ received payload rest
  unfolding read_frame
  read_frame-sealed key header n size payload rest counted same e =
      let sealed = cf.encrypt key (nonce_bytes n) payload header in
      let whole : readexactly (size + 16) (sealed ++ rest) ≡ some (sealed, rest) =
        readexactly-append (size + 16) sealed rest
          (omega (arith, cf.length-encrypt key (nonce_bytes n) payload header)) in
      ground (arith, e, whole, open_frame-sealed key header n payload rest counted)

  -- The frame in front of the stream is opened under its counter.
  receive-seal_frame :
      (key : Bytes) (n : ℕ) (payload rest : Bytes)
      → length payload ≤ max_payload_length
      → n < 2 ^ 64
      → receive fm cf key n (seal_frame fm cf key (nonce_bytes n) payload ++ rest)
        ≡ received payload rest
  unfolding receive seal_frame
  receive-seal_frame key n payload rest small counted =
      let header = frame_header fm payload in
      let sealed = cf.encrypt key (nonce_bytes n) payload header in
      ap (λ s. read_frame fm cf key n (readexactly 4 s)) (append_assoc header sealed rest)
      ∙ ap (λ o. read_frame fm cf key n o)
          (readexactly-append 4 header (sealed ++ rest) (length-frame_header payload))
      ∙ read_frame-sealed key header n (length payload) payload rest counted refl
          (read_frame_header-frame_header fm payload small)

  module _ (cv : Conversions fm)
      (on_message : Message fm → Connection fm → Sent fm (Unit {0})) where
    -- The payloads are dispatched in their order, until a handler raises or closes the connection.
    pub deliver : List Bytes → Connection fm → Sent fm (Unit {0})
    deliver [] c = (ok tt, c)
    deliver (payload ∷ payloads) c =
        if c.closed
        then (ok tt, c)
        else then_receive fm cf cv on_message
            (dispatch_payload fm cf cv on_message payload (record c { in_nonce = suc c.in_nonce }))
            (deliver payloads)

    abbrev pub KeepsCount : Sent fm (Unit {0}) → Connection fm → Type 0
    KeepsCount o c = (o.1.in_nonce ≡ c.in_nonce) × (o.1.in_key ≡ c.in_key)

    dispatch-KeepsCount :
        ((m : Message fm) (c : Connection fm) → KeepsCount (on_message m c) c)
        → (m : Message fm) (c : Connection fm) → KeepsCount (dispatch fm cf cv on_message m c) c
    unfolding dispatch take_response
    dispatch-KeepsCount keep (event_message protocol topic message) c = keep _ c
    dispatch-KeepsCount keep (request_message protocol topic message id) c = keep _ c
    dispatch-KeepsCount keep (response_message protocol topic message id status) c =
        either_some (λ (d : Connection fm). (d.in_nonce ≡ c.in_nonce) × (d.in_key ≡ c.in_key))
          (lookup_id id c.responses) (λ e. (refl, refl)) (λ future e. (refl, refl))

    dispatch_payload-KeepsCount :
        ((m : Message fm) (c : Connection fm) → KeepsCount (on_message m c) c)
        → (payload : Bytes) (c : Connection fm)
        → KeepsCount (dispatch_payload fm cf cv on_message payload c) c
    unfolding dispatch_payload
    dispatch_payload-KeepsCount keep payload c =
        either_ok (λ (o : Sent fm (Unit {0})). KeepsCount o c) (decode_message fm cv payload)
          (λ x e. (refl, refl)) (λ m e. dispatch-KeepsCount keep m c)

    then_receive_same :
        (o : Sent fm (Unit {0})) (f g : Connection fm → Sent fm (Unit {0}))
        → f o.1 ≡ g o.1
        → then_receive fm cf cv on_message o f ≡ then_receive fm cf cv on_message o g
    then_receive_same (err e, c) f g h = refl
    then_receive_same (ok x, c) f g h = h

    abbrev IsSmall : Bytes → Type 0
    IsSmall payload = length payload ≤ max_payload_length

    nothing_left :
        (fuel : ℕ) (c : Connection fm) → run_loop fm cf cv on_message (suc fuel) [] c ≡ (ok tt, c)
    unfolding run_loop receive read_frame
    nothing_left fuel c = elim (Bool-cases c.closed) [ inl e ↦ rw e refl | inr e ↦ rw e refl ]

    one_frame :
        (fuel : ℕ) (p rest stream : Bytes) (c : Connection fm) (ps : List Bytes)
        → receive fm cf c.in_key c.in_nonce stream ≡ received p rest
        → let o = dispatch_payload fm cf cv on_message p (record c { in_nonce = suc c.in_nonce }) in
          run_loop fm cf cv on_message fuel rest o.1 ≡ deliver ps o.1
          → run_loop fm cf cv on_message (suc fuel) stream c ≡ deliver (p ∷ ps) c
    unfolding run_loop deliver
    one_frame fuel p rest stream c ps e later = elim (Bool-cases c.closed) [
      | inl shut ↦ if_of_true c.closed _ _ shut ∙ sym (if_of_true c.closed _ _ shut)
      | inr open_ ↦
          if_of_false c.closed _ _ open_
          ∙ ap round e
          ∙ then_receive_same
              (dispatch_payload fm cf cv on_message p (record c { in_nonce = suc c.in_nonce }))
              (run_loop fm cf cv on_message fuel rest) (deliver ps) later
          ∙ sym (if_of_false c.closed _ _ open_)
    ]
      where
        round : Received fm cf → Sent fm (Unit {0})
        round ended = (ok tt, c)
        round (refused x) = (err x, c)
        round (received payload left) =
            then_receive fm cf cv on_message
              (dispatch_payload fm cf cv on_message payload
                (record c { in_nonce = suc c.in_nonce }))
              (run_loop fm cf cv on_message fuel left)

    run_loop-deliver :
        ((m : Message fm) (c : Connection fm) → KeepsCount (on_message m c) c)
        → (key : Bytes) (n : ℕ) (payloads : List Bytes) (fuel : ℕ) (c : Connection fm)
        → c.in_key ≡ key
        → c.in_nonce ≡ n
        → All IsSmall payloads
        → n + length payloads ≤ 2 ^ 64
        → length payloads < fuel
        → run_loop fm cf cv on_message fuel (concat (seal_all fm cf key n payloads)) c
          ≡ deliver payloads c
    unfolding run_loop deliver
    run_loop-deliver keep key n payloads zero c same counted small bounded enough =
        absurd (omega arith)
    run_loop-deliver keep key n [] (suc fuel) c same counted small bounded enough =
        nothing_left fuel c
    run_loop-deliver keep key n (p ∷ ps) (suc fuel) c same counted small bounded enough =
        let next : Connection fm = record c { in_nonce = suc c.in_nonce } in
        let o = dispatch_payload fm cf cv on_message p next in
        let kept = dispatch_payload-KeepsCount keep p next in
        let rest = concat (seal_all fm cf key (suc n) ps) in
        let later : run_loop fm cf cv on_message fuel rest o.1 ≡ deliver ps o.1 =
          run_loop-deliver keep key (suc n) ps fuel o.1 (kept.1 ∙ same)
            (kept.0 ∙ ap (λ k. suc k) counted) small.1 (omega arith) (omega arith) in
        one_frame fuel p rest (seal_frame fm cf key (nonce_bytes n) p ++ rest) c ps
          (ap (λ k. receive fm cf k c.in_nonce (seal_frame fm cf key (nonce_bytes n) p ++ rest))
              same
            ∙ ap (λ k. receive fm cf key k (seal_frame fm cf key (nonce_bytes n) p ++ rest)) counted
            ∙ receive-seal_frame key n p rest small.0 (omega arith))
          later

    frames_long :
        (key : Bytes) (n : ℕ) (payloads : List Bytes)
        → length payloads ≤ length (concat (seal_all fm cf key n payloads))
    unfolding seal_frame frame_header
    frames_long key n [] = omega arith
    frames_long key n (p ∷ ps) =
        let rest = concat (seal_all fm cf key (suc n) ps) in
        omega (
          arith,
          frames_long key (suc n) ps,
          length-append (cf.encrypt key (nonce_bytes n) p (frame_header fm p)) rest,
        )

    -- Whatever payloads the other side sends, each of a length that may be sent, sealed under the
    -- connection's key and the counters that follow, within 64 bits: the loop opens them all, and hands
    -- their messages on in this order, until a handler raises or the connection is closed. The
    -- handlers leave the connection's key and counter for what it receives alone.
    pub run_loop-frames :
        ((m : Message fm) (c : Connection fm) → KeepsCount (on_message m c) c)
        → (payloads : List Bytes) (c : Connection fm) → All IsSmall payloads
        → c.in_nonce + length payloads ≤ 2 ^ 64
        → let stream = concat (seal_all fm cf c.in_key c.in_nonce payloads) in
          run_loop fm cf cv on_message (suc (length stream)) stream c ≡ deliver payloads c
    run_loop-frames keep payloads c small bounded =
        run_loop-deliver keep c.in_key c.in_nonce payloads _ c refl refl small bounded
          (omega (arith, frames_long c.in_key c.in_nonce payloads))
