-- ===== src/Tests/Media.antt =====
-- remote.py's audio, data stream and button handlers on small inputs.
use atv_homekit_remote.Prelude.{
  ◌↔◌, if◌then◌else◌, ◌≡◌, refl, Bool, true, false, none, some, [], ◌∷◌, arith, replicate, to_le,
  Bytes, Result, ok, err, value_error, ◌>>=◌, All, IsByte,
}
use atv_homekit_remote.Utf8.{Text}
use atv_homekit_remote.Tlv8.{decode}
use atv_homekit_remote.Hds.Server.{Server, Crypto}
use atv_homekit_remote.Hds.Pending.{IsSettled}
use atv_homekit_remote.Remote.State.{Client, Remote, Platform}
use atv_homekit_remote.Remote.Media.{
  Media, build_audio_configuration, hap_selected_audio_write, hap_setup_hds_write, button_event,
}
use atv_homekit_remote.Remote.Streams.{
  IsFaithful, are_bytes, are_bytes-IsByte, hap_selected_audio_write-build, decode-button_event,
}
use atv_homekit_remote.Remote.Accepts.{IsSelection, is_ok, hap_selected_audio_write_iff}
use atv_homekit_remote.Remote.SetUp.{IsPrepared, hap_setup_hds_write-IsPrepared}

-- Texts are byte strings: a text that holds another code point does not decode.
abbrev read_bytes : Bool → Text → Result Bytes
read_bytes true t = ok t
read_bytes false t = err value_error

read_bytes-IsByte :
    (b : Bool) (t : Text) (bs : Bytes) → are_bytes t ≡ b → read_bytes b t ≡ ok bs → All IsByte bs
read_bytes-IsByte true t bs small h =
    let same : t ≡ bs = cc in rw same at (are_bytes-IsByte t small)
read_bytes-IsByte false t bs small h = cc

IsByte-are_bytes : (bs : Bytes) → All IsByte bs → are_bytes bs ≡ true
IsByte-are_bytes [] h = refl
IsByte-are_bytes (b ∷ bs) h = ground (arith, IsByte-are_bytes bs h.1)

abbrev byte_texts : Platform
byte_texts = record {
  is_admin = λ c. true;
  b64decode = λ t. read_bytes (are_bytes t) t;
  b64encode = λ bs. bs;
  write_error = λ r. none;
  b64decode-IsByte = λ t bs h. read_bytes-IsByte (are_bytes t) t bs refl h;
}

byte_texts-IsFaithful : IsFaithful byte_texts
byte_texts-IsFaithful bs h = rw (IsByte-are_bytes bs h) refl

abbrev phone : Client
phone = record { host = 49 ∷ []; port = 5000 }

abbrev nothing_kept : Media
nothing_kept = record { selected_audio = []; last_hds_setup = []; last_button_event = [] }

abbrev audio_bytes : Bytes
audio_bytes = 1 ∷ 17 ∷ 1 ∷ 1 ∷ 3 ∷ 2 ∷ 12 ∷ 1 ∷ 1 ∷ 1 ∷ 2 ∷ 1 ∷ 0 ∷ 3 ∷ 1 ∷ 1 ∷ 4 ∷ 1 ∷ 20 ∷ []

audio_built : build_audio_configuration true ≡ ok audio_bytes
unfolding build_audio_configuration atv_homekit_remote.Tlv8.encode
audio_built = refl

audio_selected :
    hap_selected_audio_write byte_texts audio_bytes (some phone) nothing_kept
    ≡ (ok tt, record nothing_kept { selected_audio = audio_bytes })
audio_selected =
    hap_selected_audio_write-build byte_texts true audio_bytes phone nothing_kept
      byte_texts-IsFaithful audio_built

hap_selected_audio_write_iff_example :
    let o = hap_selected_audio_write byte_texts audio_bytes (some phone) nothing_kept in
    ((o.0 ≡ ok tt) ↔ IsSelection byte_texts audio_bytes (some phone))
    × (o.1 ≡ (
        if is_ok o.0 then record nothing_kept { selected_audio = audio_bytes } else nothing_kept))
hap_selected_audio_write_iff_example =
    hap_selected_audio_write_iff byte_texts audio_bytes (some phone) nothing_kept

decode-button_event_example :
    (button_event 4 1 1700000000000 7 >>= decode)
    ≡ ok ((1, 104 ∷ []) ∷ (2, 1 ∷ []) ∷ (3, to_le 8 1700000000000) ∷ (4, to_le 4 7) ∷ [])
decode-button_event_example =
    decode-button_event 4 1 1700000000000 7 (omega arith) (omega arith) (omega arith) (omega arith)

abbrev listening : Server
listening = record { port = some 6000; prepared = []; connections = []; next_handle = 0 }

listening-IsSettled : IsSettled listening
unfolding IsSettled
listening-IsSettled = record { few = omega arith; older = tt; apart = tt }

abbrev plain_crypto : Crypto
plain_crypto = record {
  read_key = λ secret salt. salt;
  write_key = λ secret salt. salt;
  decrypt = λ key header encrypted. none;
}

abbrev running : Remote
running = record {
  started = true;
  targets = [];
  active_identifier = 0;
  active_client = none;
  hds_connections = [];
  active_session = none;
  stored = none;
  calls = [];
}

-- Start a session over the data stream, with a salt of 32 bytes.
abbrev setup : Text
setup = 1 ∷ 1 ∷ 0 ∷ 2 ∷ 1 ∷ 0 ∷ 3 ∷ 32 ∷ replicate 32 9

-- The answer: the status 0, port 6000 and the accessory's salt.
abbrev setup_answer : Text
setup_answer = 1 ∷ 1 ∷ 0 ∷ 2 ∷ 4 ∷ 1 ∷ 2 ∷ 112 ∷ 23 ∷ 3 ∷ 32 ∷ replicate 32 8

abbrev set_up : Result Text × Server × Media
set_up =
    hap_setup_hds_write byte_texts plain_crypto (λ c. some (replicate 32 7)) (replicate 32 8) setup
      (some phone) running listening nothing_kept

set_up_answer : set_up.0 ≡ ok setup_answer
unfolding hap_setup_hds_write atv_homekit_remote.Tlv8.encode decode
    atv_homekit_remote.Prelude.Dict.lookup atv_homekit_remote.Prelude.Dict.insert
    atv_homekit_remote.Tlv8.u16 to_le
set_up_answer = refl

hap_setup_hds_write-IsPrepared_example :
    (c : Client) × (some phone ≡ some c)
    × IsPrepared byte_texts plain_crypto
        (λ d. some (replicate 32 7))
        (replicate 32 8)
        setup
        running
        listening
        set_up.1
        setup_answer
        c
hap_setup_hds_write-IsPrepared_example =
    hap_setup_hds_write-IsPrepared byte_texts plain_crypto (λ c. some (replicate 32 7))
      (replicate 32 8) setup (some phone) running listening nothing_kept setup_answer
      listening-IsSettled set_up_answer
