-- ===== src/Hds/Message.antt =====
-- `_nonce`, `_decode_message` and the payload and frame header that `_send` builds, of hds.py.
use atv_homekit_remote.Prelude.{
  ℕ, ◌+◌, ◌*◌, ◌%◌, ◌/◌, Option, none, some, [], ◌∷◌, ◌++◌, ltb, ◌≡◌, ◌==◌, if◌then◌else◌, length,
  take, drop, Bytes, to_le, Result, ok, err, value_error, overflow_error, ◌>>=◌,
}
use atv_homekit_remote.Prelude.Int.{ℤ, is_within, to_ℕ}
use atv_homekit_remote.Utf8.{Text}
use atv_homekit_remote.HdsCodec.Value.{
  HdsValue, Fields, Formats, str, dict, int, int64, end, field, key_eq,
}
use atv_homekit_remote.HdsCodec.Encoder.{encode}
use atv_homekit_remote.HdsCodec.Decoder.{decode}

abbrev pub max_payload_length : ℕ
max_payload_length = 0xfffff

unfoldable pub nonce : ℤ → Result Bytes
unfolding is_within
nonce counter =
    if is_within 0xffffffffffffffff counter
    then ok (0 ∷ 0 ∷ 0 ∷ 0 ∷ to_le 8 (to_ℕ counter))
    else err overflow_error

-- "protocol", "event", "request", "response", "id" and "status"
abbrev pub protocol_key : Text
protocol_key = 112 ∷ 114 ∷ 111 ∷ 116 ∷ 111 ∷ 99 ∷ 111 ∷ 108 ∷ []

abbrev pub event_key : Text
event_key = 101 ∷ 118 ∷ 101 ∷ 110 ∷ 116 ∷ []

abbrev pub request_key : Text
request_key = 114 ∷ 101 ∷ 113 ∷ 117 ∷ 101 ∷ 115 ∷ 116 ∷ []

abbrev pub response_key : Text
response_key = 114 ∷ 101 ∷ 115 ∷ 112 ∷ 111 ∷ 110 ∷ 115 ∷ 101 ∷ []

abbrev pub id_key : Text
id_key = 105 ∷ 100 ∷ []

abbrev pub status_key : Text
status_key = 115 ∷ 116 ∷ 97 ∷ 116 ∷ 117 ∷ 115 ∷ []

-- `int.to_bytes(3, "big")`, of a number below 2 ** 24
unfoldable pub big_endian_3 : ℕ → Bytes
big_endian_3 n = n / 65536 ∷ n / 256 % 256 ∷ n % 256 ∷ []

unfoldable pub from_big_endian_3 : Bytes → ℕ
from_big_endian_3 (a ∷ b ∷ c ∷ []) = a * 65536 + b * 256 + c
from_big_endian_3 _ = 0

module _ (fm : Formats) where
  open fm use {Float}

  -- What `_decode_message` returns, by its kind.
  pub data Message : Type 0 where
    event_message : (protocol topic : Text) → Fields Float → Message
    request_message : (protocol topic : Text) → Fields Float → (id : ℤ) → Message
    response_message : (protocol topic : Text) → Fields Float → (id status : ℤ) → Message

  -- Python's `str` and `int` of a decoded value.
  pub record Conversions : Type 0 where
    pub to_str : HdsValue Float → Text
    pub to_int : HdsValue Float → Result ℤ
    pub to_str-str : (t : Text) → to_str (str t) ≡ t
    pub to_int-int : (z : ℤ) → to_int (int z) ≡ ok z

  -- `d.get(key)`, for a text
  unfoldable pub get_field : Text → Fields Float → Option (HdsValue Float)
  unfolding key_eq
  get_field k end = none
  get_field k (field j v fs) = if key_eq fm j (str k) then some v else get_field k fs

  unfoldable pub require_field : Text → Fields Float → Result (HdsValue Float)
  unfolding get_field
  require_field k fs = elim (get_field k fs) [ none ↦ err value_error | some v ↦ ok v ]

  module _ (cv : Conversions) where
    unfoldable pub read_protocol : Fields Float → Result Text
    unfolding get_field
    read_protocol header =
        let protocol : Text = elim (get_field protocol_key header) [
          | none ↦ []
          | some v ↦ cv.to_str v
        ] in
        if length protocol == 0 then err value_error else ok protocol

    unfoldable pub read_request :
        Text → HdsValue Float → Fields Float → Fields Float → Result Message
    unfolding require_field
    read_request protocol topic header message = do
      raw_id ← require_field id_key header
      id ← cv.to_int raw_id
      ok (request_message protocol (cv.to_str topic) message id)

    unfoldable pub read_response :
        Text → HdsValue Float → Fields Float → Fields Float → Result Message
    unfolding require_field
    read_response protocol topic header message = do
      raw_id ← require_field id_key header
      raw_status ← require_field status_key header
      id ← cv.to_int raw_id
      status ← cv.to_int raw_status
      ok (response_message protocol (cv.to_str topic) message id status)

    -- The tests for the kinds, in their order.
    unfoldable pub read_kind_of : Text → Fields Float → Fields Float → Result Message
    unfolding get_field read_request read_response
    read_kind_of protocol header message = elim (get_field event_key header) [
      | some topic ↦ ok (event_message protocol (cv.to_str topic) message)
      | none ↦ elim (get_field request_key header) [
        | some topic ↦ read_request protocol topic header message
        | none ↦ elim (get_field response_key header) [
          | some topic ↦ read_response protocol topic header message
          | none ↦ err value_error
        ]
      ]
    ]

    unfoldable pub read_parts : HdsValue Float → HdsValue Float → Result Message
    unfolding read_protocol read_kind_of
    read_parts (dict header) (dict message) = do
      protocol ← read_protocol header
      read_kind_of protocol header message
    read_parts _ _ = err value_error

    unfoldable pub decode_message : Bytes → Result Message
    unfolding read_parts
    decode_message [] = err value_error
    decode_message (header_len ∷ rest) =
        if ltb (length rest) header_len then err value_error else (do
          header ← decode fm (take header_len rest)
          message ← decode fm (drop header_len rest)
          read_parts header message)

  -- The headers of `send_event`, `send_request` and `send_response`.
  abbrev pub event_header : Text → Text → HdsValue Float
  event_header protocol topic =
      dict (field (str protocol_key) (str protocol) (field (str event_key) (str topic) end))

  abbrev pub request_header : Text → Text → ℤ → HdsValue Float
  request_header protocol topic id = dict (
      field (str protocol_key) (str protocol)
        (field (str request_key) (str topic) (field (str id_key) (int64 id) end)))

  abbrev pub response_header : Text → Text → ℤ → ℤ → HdsValue Float
  response_header protocol topic id status = dict (
      field (str protocol_key) (str protocol) (
        field (str response_key) (str topic)
          (field (str id_key) (int64 id) (field (str status_key) (int64 status) end))))

  -- `_send`, up to the encryption: the payload.
  unfoldable pub build_payload : HdsValue Float → HdsValue Float → Result Bytes
  build_payload header message = do
    header_data ← encode fm header
    if ltb 255 (length header_data) then err value_error else (do
      message_data ← encode fm message
      let payload = length header_data ∷ (header_data ++ message_data)
      if ltb max_payload_length (length payload) then err value_error else ok payload)

  -- The four bytes in front of the encrypted payload.
  unfoldable pub frame_header : Bytes → Bytes
  unfolding big_endian_3
  frame_header payload = 1 ∷ big_endian_3 (length payload)

-- The checks of a received frame header: its type, then the length that it announces.
unfoldable pub read_frame_header : Bytes → Result ℕ
unfolding from_big_endian_3
read_frame_header [] = err value_error
read_frame_header (kind ∷ size) =
    if kind == 1
    then (if ltb max_payload_length (from_big_endian_3 size)
        then err value_error
        else ok (from_big_endian_3 size))
    else err value_error
