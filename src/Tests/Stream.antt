-- ===== src/Tests/Stream.antt =====
-- hds.py on a small message and two waiting sessions.
use atv_homekit_remote.Prelude.{
  ◌^◌, ◌⊎◌, overflow_error, err, ℕ, ◌≡◌, ◌≢◌, refl, ◌≤◌, ◌<◌, ◌==◌, inl, inr, Bool, true, false,
  Option, none, some, List, [], ◌∷◌, ◌++◌, arith, if◌then◌else◌, length, drop, replicate, from_le,
  All, Bytes, Result, ok, err, value_error,
}
use atv_homekit_remote.Prelude.Int.{ℤ, pos}
use atv_homekit_remote.Utf8.{Text}
use atv_homekit_remote.HdsCodec.Value.{
  HdsValue, Fields, str, int, bool, dict, end, field, decoded_fields,
}
use atv_homekit_remote.HdsCodec.Exact.{IsExact, AreDistinct}
use atv_homekit_remote.Hds.Message.{
  Conversions, nonce, decode_message, event_message, request_message, response_message,
  event_header, request_header, response_header, build_payload, frame_header, read_frame_header,
}
use atv_homekit_remote.Hds.Framing.{
  points, nonce_lem, read_frame_header-frame_header, decode_message-event,
}
use atv_homekit_remote.Hds.Replies.{decode_message-request, decode_message-response}
use atv_homekit_remote.Remote.State.{Client, client_eq}
use atv_homekit_remote.Hds.Waiting.{without_client_of, of_client}
use atv_homekit_remote.Hds.Closing.{close_for_client_lem}
use atv_homekit_remote.Hds.Server.{
  PreparedSession, Server, Crypto, prepare_session, close_for_client, accept,
}
use atv_homekit_remote.Hds.Pending.{IsSettled, Settles, prepare_session-Settles}
use atv_homekit_remote.Hds.Accepting.{IsAmong, IsAnother, accept_lem}
use atv_homekit_remote.Tests.Floats.{two_floats}

abbrev pub text_of : HdsValue Bool → Text
text_of (str t) = t
text_of _ = 63 ∷ []

abbrev pub int_of : HdsValue Bool → Result ℤ
int_of (int z) = ok z
int_of _ = err value_error

abbrev pub conversions : Conversions two_floats
conversions = record {
  to_str = text_of;
  to_int = int_of;
  to_str-str = λ t. refl;
  to_int-int = λ z. refl;
}

abbrev pub topic : Text
topic = 97 ∷ 99 ∷ 107 ∷ []

abbrev pub protocol : Text
protocol = 100 ∷ []

-- {"e": True}
abbrev pub message : Fields Bool
message = field (str (101 ∷ [])) (bool true) end

message-keys : AreDistinct two_floats end (decoded_fields two_floats message)
unfolding decoded_fields atv_homekit_remote.HdsCodec.Value.is_hashable
message-keys = (refl, tt, tt)

message-IsExact : IsExact two_floats (dict message)
unfolding IsExact
message-IsExact = ((points (101 ∷ []) refl, tt, tt), message-keys)

abbrev pub event_payload : Bytes
event_payload =
    22 ∷ 226 ∷ 72 ∷ 112 ∷ 114 ∷ 111 ∷ 116 ∷ 111 ∷ 99 ∷ 111 ∷ 108 ∷ 65 ∷ 100 ∷ 69 ∷ 101 ∷ 118 ∷ 101
    ∷ 110 ∷ 116 ∷ 67 ∷ 97 ∷ 99 ∷ 107 ∷ 225 ∷ 65 ∷ 101 ∷ 1 ∷ []

event_built :
    build_payload two_floats (event_header two_floats protocol topic) (dict message)
    ≡ ok event_payload
unfolding build_payload atv_homekit_remote.HdsCodec.Encoder.encode
    atv_homekit_remote.HdsCodec.Encoder.checked atv_homekit_remote.HdsCodec.Encoder.fields_length
    atv_homekit_remote.HdsCodec.Encoder.◌⨾◌ atv_homekit_remote.HdsCodec.Encoder.append
    atv_homekit_remote.HdsCodec.Encoder.compress_or
    atv_homekit_remote.HdsCodec.Encoder.string_literal atv_homekit_remote.Utf8.utf8_encode
    atv_homekit_remote.Utf8.encode_point atv_homekit_remote.HdsCodec.Encoder.track_literal
event_built = refl

decode_message-event_example :
    decode_message two_floats conversions event_payload
    ≡ ok (event_message protocol topic (decoded_fields two_floats message))
decode_message-event_example =
    decode_message-event two_floats conversions protocol topic message event_payload (omega arith)
      (points protocol refl) (points topic refl) message-IsExact event_built

abbrev request_payload : Bytes
request_payload =
    36 ∷ 227 ∷ 72 ∷ 112 ∷ 114 ∷ 111 ∷ 116 ∷ 111 ∷ 99 ∷ 111 ∷ 108 ∷ 65 ∷ 100 ∷ 71 ∷ 114 ∷ 101 ∷ 113
    ∷ 117 ∷ 101 ∷ 115 ∷ 116 ∷ 67 ∷ 97 ∷ 99 ∷ 107 ∷ 66 ∷ 105 ∷ 100 ∷ 51 ∷ 9 ∷ 0 ∷ 0 ∷ 0 ∷ 0 ∷ 0 ∷ 0
    ∷ 0 ∷ 225 ∷ 65 ∷ 101 ∷ 1 ∷ []

request_built :
    build_payload two_floats (request_header two_floats protocol topic (pos 9)) (dict message)
    ≡ ok request_payload
unfolding build_payload atv_homekit_remote.HdsCodec.Encoder.encode
    atv_homekit_remote.HdsCodec.Encoder.checked atv_homekit_remote.HdsCodec.Encoder.fields_length
    atv_homekit_remote.HdsCodec.Encoder.◌⨾◌ atv_homekit_remote.HdsCodec.Encoder.append
    atv_homekit_remote.HdsCodec.Encoder.compress_or
    atv_homekit_remote.HdsCodec.Encoder.string_literal atv_homekit_remote.Utf8.utf8_encode
    atv_homekit_remote.Utf8.encode_point atv_homekit_remote.HdsCodec.Encoder.put_int64
    atv_homekit_remote.HdsCodec.Words.pack_signed atv_homekit_remote.Prelude.to_le
    atv_homekit_remote.HdsCodec.Encoder.track_literal
request_built = refl

decode_message-request_example :
    decode_message two_floats conversions request_payload
    ≡ ok (request_message protocol topic (decoded_fields two_floats message) (pos 9))
decode_message-request_example =
    decode_message-request two_floats conversions protocol topic (pos 9) message request_payload
      (omega arith) (points protocol refl) (points topic refl) message-IsExact request_built

abbrev response_payload : Bytes
response_payload =
    53 ∷ 228 ∷ 72 ∷ 112 ∷ 114 ∷ 111 ∷ 116 ∷ 111 ∷ 99 ∷ 111 ∷ 108 ∷ 65 ∷ 100 ∷ 72 ∷ 114 ∷ 101 ∷ 115
    ∷ 112 ∷ 111 ∷ 110 ∷ 115 ∷ 101 ∷ 67 ∷ 97 ∷ 99 ∷ 107 ∷ 66 ∷ 105 ∷ 100 ∷ 51 ∷ 9 ∷ 0 ∷ 0 ∷ 0 ∷ 0 ∷ 0
    ∷ 0 ∷ 0 ∷ 70 ∷ 115 ∷ 116 ∷ 97 ∷ 116 ∷ 117 ∷ 115 ∷ 51 ∷ 0 ∷ 0 ∷ 0 ∷ 0 ∷ 0 ∷ 0 ∷ 0 ∷ 0 ∷ 225 ∷ 65
    ∷ 101 ∷ 1 ∷ []

response_built :
    build_payload two_floats
      (response_header two_floats protocol topic (pos 9) (pos 0))
      (dict message)
    ≡ ok response_payload
unfolding build_payload atv_homekit_remote.HdsCodec.Encoder.encode
    atv_homekit_remote.HdsCodec.Encoder.checked atv_homekit_remote.HdsCodec.Encoder.fields_length
    atv_homekit_remote.HdsCodec.Encoder.◌⨾◌ atv_homekit_remote.HdsCodec.Encoder.append
    atv_homekit_remote.HdsCodec.Encoder.compress_or
    atv_homekit_remote.HdsCodec.Encoder.string_literal atv_homekit_remote.Utf8.utf8_encode
    atv_homekit_remote.Utf8.encode_point atv_homekit_remote.HdsCodec.Encoder.put_int64
    atv_homekit_remote.HdsCodec.Words.pack_signed atv_homekit_remote.Prelude.to_le
    atv_homekit_remote.HdsCodec.Encoder.track_literal
response_built = refl

decode_message-response_example :
    decode_message two_floats conversions response_payload
    ≡ ok (response_message protocol topic (decoded_fields two_floats message) (pos 9) (pos 0))
decode_message-response_example =
    decode_message-response two_floats conversions protocol topic (pos 9) (pos 0) message
      response_payload (omega arith) (points protocol refl) (points topic refl) message-IsExact
      response_built

read_frame_header-frame_header_example :
    read_frame_header (frame_header two_floats event_payload) ≡ ok (length event_payload)
read_frame_header-frame_header_example =
    read_frame_header-frame_header two_floats event_payload (omega arith)

abbrev nonce_258 : Bytes
nonce_258 = 0 ∷ 0 ∷ 0 ∷ 0 ∷ 2 ∷ 1 ∷ 0 ∷ 0 ∷ 0 ∷ 0 ∷ 0 ∷ 0 ∷ []

nonce_258_made : nonce (pos 258) ≡ ok nonce_258
unfolding nonce atv_homekit_remote.Prelude.to_le
nonce_258_made = refl

nonce_lem_example :
    ((258 < 2 ^ 64)
      × ((bs : Bytes) × (nonce (pos 258) ≡ ok bs) × (length bs ≡ 12) × (from_le (drop 4 bs) ≡ 258)))
    ⊎ ((2 ^ 64 ≤ 258) × (nonce (pos 258) ≡ err overflow_error))
nonce_lem_example = nonce_lem 258

-- A frame is opened by the key that it begins with.
abbrev opens : Bytes → Bytes → Option Bytes
opens (k ∷ ks) (c ∷ cs) = if k == c then some cs else none
opens _ _ = none

abbrev toy_crypto : Crypto
toy_crypto = record {
  read_key = λ secret salt. salt;
  write_key = λ secret salt. salt;
  decrypt = λ key header encrypted. opens key encrypted;
}

abbrev phone : Client
phone = record { host = 49 ∷ []; port = 5000 }

abbrev box : Client
box = record { host = 50 ∷ []; port = 5001 }

abbrev waiting : ℕ → Client → PreparedSession
waiting n client = record {
  handle = n;
  client_addr = client;
  accessory_to_controller_key = [];
  controller_to_accessory_key = n ∷ [];
  accessory_salt = [];
}

abbrev two_waiting : Server
two_waiting = record {
  port = some 6000;
  prepared = waiting 0 phone ∷ waiting 1 box ∷ [];
  connections = [];
  next_handle = 2;
}

two_waiting-IsSettled : IsSettled two_waiting
unfolding IsSettled client_eq
two_waiting-IsSettled = record {
  few = omega arith;
  older = (omega arith, (omega arith, tt));
  apart = ((((λ e. absurd (omega arith)), refl), tt), (tt, tt));
}

prepare_session-Settles_example :
    Settles (
      prepare_session toy_crypto box (replicate 32 7) (replicate 32 8) (replicate 32 9) two_waiting)
prepare_session-Settles_example =
    prepare_session-Settles toy_crypto box (replicate 32 7) (replicate 32 8) (replicate 32 9)
      two_waiting two_waiting-IsSettled

-- The phone has two connections, the box has one, and each has a session that waits.
abbrev busy : Server
busy = record two_waiting {
  connections = waiting 2 phone ∷ waiting 3 box ∷ waiting 4 phone ∷ [];
  next_handle = 5;
}

busy-IsSettled : IsSettled busy
unfolding IsSettled client_eq
busy-IsSettled = record {
  few = omega arith;
  older = (omega arith, (omega arith, tt));
  apart = ((((λ e. absurd (omega arith)), refl), tt), (tt, tt));
}

close_for_client_lem_example : close_for_client phone busy ≡ (
  record busy {
    prepared = without_client_of phone busy.prepared;
    connections = without_client_of phone busy.connections;
  },
  of_client phone busy.connections,
)
close_for_client_lem_example = close_for_client_lem phone busy busy-IsSettled (
  ((λ e. absurd (omega arith)), ((λ e. absurd (omega arith)), tt)),
  (((λ e. absurd (omega arith)), tt), (tt, tt)),
)

hello_accepted : (accept toy_crypto [] (1 ∷ 65 ∷ []) two_waiting).0 ≡ ok (65 ∷ [])
unfolding accept
hello_accepted = refl

accept_lem_example :
    let after = (accept toy_crypto [] (1 ∷ 65 ∷ []) two_waiting).1 in
    (p : PreparedSession) × IsAmong p two_waiting.prepared
    × (opens p.controller_to_accessory_key (1 ∷ 65 ∷ []) ≡ some (65 ∷ []))
    × (after.connections ≡ p ∷ [])
    × All (IsAnother p) after.prepared
    × IsSettled after
accept_lem_example =
    accept_lem toy_crypto [] (1 ∷ 65 ∷ []) (65 ∷ []) two_waiting two_waiting-IsSettled
      hello_accepted
