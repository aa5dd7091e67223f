-- ===== src/Hds/Framing.antt =====
-- A message that hds.py sends is read back by its own reader.
use atv_homekit_remote.Prelude.{
  ℕ, ◌≡◌, refl, ◌∙◌, ◌≤◌, ◌<◌, inl, inr, Bool, true, false, [], ◌∷◌, ◌++◌, leb, ltb, ◌==◌, ◌&&◌,
  arith, length, length-append, length-to_le, drop, take-append, drop-append, All, Bytes, to_le,
  from_le, from_le-to_le, ok, err, overflow_error, ◌^◌, ◌⊎◌, >>=-eq-ok, Bool-cases,
}
use atv_homekit_remote.Prelude.Int.{pos, is_within}
use atv_homekit_remote.Utf8.{Text}
use atv_homekit_remote.HdsCodec.Value.{
  HdsValue, Fields, Formats, dict, key_eq, list_eq, number_of, plain_key_eq, is_hashable, decoded,
  decoded_fields,
}
use atv_homekit_remote.HdsCodec.Encoder.{encode}
use atv_homekit_remote.HdsCodec.Exact.{IsExact, snoc_field}
use atv_homekit_remote.HdsCodec.RoundTrip.{decode-encode_value}
use atv_homekit_remote.Hds.Message.{
  nonce, event_message, Conversions, get_field, read_protocol, read_kind_of, read_parts,
  decode_message, event_header, build_payload, frame_header, read_frame_header, big_endian_3,
  from_big_endian_3, max_payload_length, protocol_key, event_key,
}

-- A counter that fits 64 bits has a nonce of 12 bytes, from which the counter can be read; a
-- counter that does not raises OverflowError.
pub nonce_lem :
    (counter : ℕ)
    → ((counter < 2 ^ 64)
        × ((bs : Bytes) × (nonce (pos counter) ≡ ok bs)
            × (length bs ≡ 12)
            × (from_le (drop 4 bs) ≡ counter)))
      ⊎ ((2 ^ 64 ≤ counter) × (nonce (pos counter) ≡ err overflow_error))
unfolding nonce is_within
nonce_lem counter = elim (Bool-cases (leb counter 0xffffffffffffffff)) [
  | inl within ↦ inl (
    ground arith,
    (
      0 ∷ 0 ∷ 0 ∷ 0 ∷ to_le 8 counter,
      rw within refl,
      omega (arith, length-to_le 8 counter),
      from_le-to_le 8 counter (ground arith),
    ),
  )
  | inr beyond ↦ inr (ground arith, rw beyond refl)
]

-- The header of a payload that can be sent announces the payload's length.
pub read_frame_header-frame_header :
    (fm : Formats) (payload : Bytes)
    → length payload ≤ max_payload_length
    → read_frame_header (frame_header fm payload) ≡ ok (length payload)
unfolding read_frame_header frame_header big_endian_3 from_big_endian_3
read_frame_header-frame_header fm payload h = ground arith

-- That a constant text holds code points is computed.
abbrev pub are_points : Text → Bool
are_points [] = true
are_points (c ∷ cs) = ltb c 0x110000 && are_points cs

pub points : (t : Text) → are_points t ≡ true → All (λ c. c < 0x110000) t
points [] h = tt
points (c ∷ cs) h = (ground arith, points cs (ground arith))

module _ (fm : Formats) where
  open fm use {Float}

  -- What `_send` encrypts: the header's length, the header and the message.
  payload-shape :
      (header message : HdsValue Float) (payload : Bytes)
      → build_payload fm header message ≡ ok payload
      → (hd : Bytes) × (md : Bytes) × (encode fm header ≡ ok hd)
        × (encode fm message ≡ ok md)
        × (payload ≡ length hd ∷ (hd ++ md))
  unfolding build_payload
  payload-shape header message payload e =
      let (hd, he, e1) = >>=-eq-ok (encode fm header) _ e in
      elim (Bool-cases (ltb 255 (length hd))) [
        | inl long ↦ absurd (ground arith)
        | inr short ↦
            let (md, me, e2) = >>=-eq-ok (encode fm message) _ (rw short at e1) in
            (hd, md, he, me, ground arith)
      ]

  module _ (cv : Conversions fm) where
    -- The two parts of a payload are decoded apart.
    pub decode_message-build_payload :
        (header message : HdsValue Float) (payload : Bytes)
        → IsExact fm header
        → IsExact fm message
        → build_payload fm header message ≡ ok payload
        → decode_message fm cv payload ≡ read_parts fm cv (decoded fm header) (decoded fm message)
    unfolding decode_message
    decode_message-build_payload header message payload hx mx e =
        let (hd, md, he, me, shape) = payload-shape header message payload e in
        let whole : ltb (length (hd ++ md)) (length hd) ≡ false =
          ground (arith, length-append hd md) in
        rw
          (
            shape,
            whole,
            take-append hd md,
            drop-append hd md,
            decode-encode_value fm header hd hx he,
            decode-encode_value fm message md mx me,
          )
          refl

    event_header-IsExact :
        (protocol topic : Text)
        → All (λ c. c < 0x110000) protocol
        → All (λ c. c < 0x110000) topic
        → IsExact fm (event_header fm protocol topic)
    unfolding IsExact decoded_fields is_hashable snoc_field key_eq number_of plain_key_eq list_eq
    event_header-IsExact protocol topic pc tc = (
      (points protocol_key refl, pc, (points event_key refl, tc, tt)),
      (refl, tt, (refl, (refl, tt), tt)),
    )

    pub nonempty_text : (t : Text) → 0 < length t → (length t == 0) ≡ false
    nonempty_text t h = ground arith

    read_event :
        (protocol topic : Text) (message : Fields Float)
        → 0 < length protocol
        → read_parts fm cv (decoded fm (event_header fm protocol topic)) (decoded fm (dict message))
          ≡ ok (event_message protocol topic (decoded_fields fm message))
    unfolding read_parts read_protocol read_kind_of get_field decoded key_eq number_of plain_key_eq
        list_eq
    read_event protocol topic message some_text =
        rw (cv.to_str-str protocol, cv.to_str-str topic, nonempty_text protocol some_text) refl

    -- What `send_event` sends is read as that event: its protocol, which is not empty, its topic and
    -- the message's decoded fields.
    pub decode_message-event :
        (protocol topic : Text) (message : Fields Float) (payload : Bytes)
        → 0 < length protocol
        → All (λ c. c < 0x110000) protocol
        → All (λ c. c < 0x110000) topic
        → IsExact fm (dict message)
        → build_payload fm (event_header fm protocol topic) (dict message) ≡ ok payload
        → decode_message fm cv payload
          ≡ ok (event_message protocol topic (decoded_fields fm message))
    decode_message-event protocol topic message payload some_text pc tc mx e =
        decode_message-build_payload (event_header fm protocol topic) (dict message) payload
          (event_header-IsExact protocol topic pc tc) mx e
        ∙ read_event protocol topic message some_text
