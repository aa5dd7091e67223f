-- ===== src/Hds/Replies.antt =====
-- The requests and responses that hds.py sends are read back by its own reader.
use atv_homekit_remote.Prelude.{◌≡◌, refl, ◌∙◌, ◌<◌, length, All, Bytes, ok}
use atv_homekit_remote.Prelude.Int.{ℤ}
use atv_homekit_remote.Utf8.{Text}
use atv_homekit_remote.HdsCodec.Value.{
  Fields, Formats, dict, key_eq, list_eq, number_of, plain_key_eq, is_hashable, decoded,
  decoded_fields,
}
use atv_homekit_remote.HdsCodec.Exact.{IsExact, snoc_field}
use atv_homekit_remote.Hds.Message.{
  request_message, response_message, Conversions, get_field, require_field, read_protocol,
  read_kind_of, read_request, read_response, read_parts, decode_message, request_header,
  response_header, build_payload, protocol_key, request_key, response_key, id_key, status_key,
}
use atv_homekit_remote.Hds.Framing.{points, nonempty_text, decode_message-build_payload}

module _ (fm : Formats) (cv : Conversions fm) where
  open fm use {Float}

  request_header-IsExact :
      (protocol topic : Text) (id : ℤ)
      → All (λ c. c < 0x110000) protocol
      → All (λ c. c < 0x110000) topic
      → IsExact fm (request_header fm protocol topic id)
  unfolding IsExact decoded_fields is_hashable snoc_field key_eq number_of plain_key_eq list_eq
  request_header-IsExact protocol topic id pc tc = (
    (points protocol_key refl, pc, (points request_key refl, tc, (points id_key refl, tt, tt))),
    (refl, tt, (refl, (refl, tt), (refl, (refl, (refl, tt)), tt))),
  )

  response_header-IsExact :
      (protocol topic : Text) (id status : ℤ)
      → All (λ c. c < 0x110000) protocol
      → All (λ c. c < 0x110000) topic
      → IsExact fm (response_header fm protocol topic id status)
  unfolding IsExact decoded_fields is_hashable snoc_field key_eq number_of plain_key_eq list_eq
  response_header-IsExact protocol topic id status pc tc = (
    (
      points protocol_key refl,
      pc,
      (points response_key refl, tc, (points id_key refl, tt, (points status_key refl, tt, tt))),
    ),
    (
      refl,
      tt,
      (refl, (refl, tt), (refl, (refl, (refl, tt)), (refl, (refl, (refl, (refl, tt))), tt))),
    ),
  )

  read_request_parts :
      (protocol topic : Text) (id : ℤ) (message : Fields Float)
      → 0 < length protocol
      → read_parts fm cv
          (decoded fm (request_header fm protocol topic id))
          (decoded fm (dict message))
        ≡ ok (request_message protocol topic (decoded_fields fm message) id)
  unfolding read_parts read_protocol read_kind_of read_request require_field get_field decoded
      key_eq number_of plain_key_eq list_eq
  read_request_parts protocol topic id message some_text =
      rw
        (
          cv.to_str-str protocol,
          cv.to_str-str topic,
          nonempty_text fm cv protocol some_text,
          cv.to_int-int id,
        )
        refl

  read_response_parts :
      (protocol topic : Text) (id status : ℤ) (message : Fields Float)
      → 0 < length protocol
      → read_parts fm cv
          (decoded fm (response_header fm protocol topic id status))
          (decoded fm (dict message))
        ≡ ok (response_message protocol topic (decoded_fields fm message) id status)
  unfolding read_parts read_protocol read_kind_of read_response require_field get_field decoded
      key_eq number_of plain_key_eq list_eq
  read_response_parts protocol topic id status message some_text =
      rw
        (
          cv.to_str-str protocol,
          cv.to_str-str topic,
          nonempty_text fm cv protocol some_text,
          cv.to_int-int id,
          cv.to_int-int status,
        )
        refl

  -- What `send_request` sends is read as that request: its protocol, which is not empty, its topic,
  -- the message's decoded fields and the request's id.
  pub decode_message-request :
      (protocol topic : Text) (id : ℤ) (message : Fields Float) (payload : Bytes)
      → 0 < length protocol
      → All (λ c. c < 0x110000) protocol
      → All (λ c. c < 0x110000) topic
      → IsExact fm (dict message)
      → build_payload fm (request_header fm protocol topic id) (dict message) ≡ ok payload
      → decode_message fm cv payload
        ≡ ok (request_message protocol topic (decoded_fields fm message) id)
  decode_message-request protocol topic id message payload some_text pc tc mx e =
      decode_message-build_payload fm cv (request_header fm protocol topic id) (dict message)
        payload (request_header-IsExact protocol topic id pc tc) mx e
      ∙ read_request_parts protocol topic id message some_text

  -- What `send_response` sends is read as that response: its protocol, which is not empty, its topic,
  -- the message's decoded fields, the request's id and the status.
  pub decode_message-response :
      (protocol topic : Text) (id status : ℤ) (message : Fields Float) (payload : Bytes)
      → 0 < length protocol
      → All (λ c. c < 0x110000) protocol
      → All (λ c. c < 0x110000) topic
      → IsExact fm (dict message)
      → build_payload fm (response_header fm protocol topic id status) (dict message) ≡ ok payload
      → decode_message fm cv payload
        ≡ ok (response_message protocol topic (decoded_fields fm message) id status)
  decode_message-response protocol topic id status message payload some_text pc tc mx e =
      decode_message-build_payload fm cv (response_header fm protocol topic id status)
        (dict message) payload (response_header-IsExact protocol topic id status pc tc) mx e
      ∙ read_response_parts protocol topic id status message some_text
