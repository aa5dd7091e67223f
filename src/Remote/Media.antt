-- ===== src/Remote/Media.antt =====
-- The audio, data stream and button handlers of remote.py: `_build_audio_configuration`,
-- `hap_selected_audio_write`, `hap_setup_hds_write`, `_send_button` and the values that are read.
use atv_homekit_remote.Prelude.{
  ℕ, ◌+◌, Bool, true, false, not, Option, none, some, List, [], ◌∷◌, ◌++◌, ◌==◌, ◌||◌,
  if◌then◌else◌, length, Bytes, Result, ok, err, value_error, runtime_error, ◌>>=◌,
}
use atv_homekit_remote.Prelude.Int.{pos}
use atv_homekit_remote.Prelude.Dict.{lookup}
use atv_homekit_remote.Utf8.{Text}
use atv_homekit_remote.Tlv8.{int, bytes, encode, decode, to_bytes, u16, u32, uint_le}
use atv_homekit_remote.Hds.Server.{PreparedSession, Server, Crypto, prepare_session}
use atv_homekit_remote.Remote.Target.{required, one_byte}
use atv_homekit_remote.Remote.State.{Client, Remote, Platform}
use atv_homekit_remote.Remote.Control.{max_targets}

abbrev pub frame_ms : ℕ
frame_ms = 20

-- The texts that these handlers keep.
pub record Media : Type 0 where
  pub selected_audio : Text
  pub last_hds_setup : Text
  pub last_button_event : Text

-- One entry, by its tag and number.
abbrev pub number_entry : ℕ → ℕ → Result Bytes
number_entry tag n = encode ((pos tag, int (pos n)) ∷ [])

abbrev pub bytes_entry : ℕ → Bytes → Result Bytes
bytes_entry tag bs = encode ((pos tag, bytes bs) ∷ [])

-- `_build_audio_configuration`, before it is put in base64: one channel, variable bitrate, 16 kHz,
-- 20 ms if selected; Opus.
unfoldable pub build_audio_configuration : Bool → Result Bytes
build_audio_configuration selected = do
  channels ← number_entry 0x01 1
  bitrate ← number_entry 0x02 0
  sample_rate ← number_entry 0x03 1
  packet_time ← number_entry 0x04 frame_ms
  let tail = if selected then packet_time else []
  let params = channels ++ (bitrate ++ (sample_rate ++ tail))
  codec_type ← number_entry 0x01 3
  codec_parameters ← bytes_entry 0x02 params
  bytes_entry 0x01 (codec_type ++ codec_parameters)

abbrev pub is_other_packet_time : Option Bytes → Bool
is_other_packet_time none = false
is_other_packet_time (some []) = true
is_other_packet_time (some (b ∷ [])) = not (b == frame_ms)
is_other_packet_time (some (b ∷ c ∷ bs)) = true

-- The tests of `hap_selected_audio_write`.
unfoldable pub check_audio : Bytes → Result (Unit {0})
unfolding required one_byte
check_audio raw = do
  outer ← decode raw
  codec_raw ← required outer 0x01
  codec ← decode codec_raw
  parameters_raw ← required codec 0x02
  parameters ← decode parameters_raw
  codec_type ← one_byte codec 0x01
  channels ← one_byte parameters 0x01
  bitrate ← one_byte parameters 0x02
  sample_rate ← one_byte parameters 0x03
  if not (codec_type == 3)
      then err value_error
      else if not (channels == 1) || not (sample_rate == 1)
      then err value_error
      else if not (bitrate == 0)
      then err value_error
      else if is_other_packet_time (lookup 0x04 parameters)
      then err value_error
      else ok tt

-- `SetupDataStreamTransport`: the controller's salt.
unfoldable pub check_setup : Bytes → Result Bytes
unfolding required one_byte
check_setup raw = do
  data_ ← decode raw
  command ← one_byte data_ 0x01
  transport ← one_byte data_ 0x02
  if not (command == 0)
      then err value_error
      else if not (transport == 0)
      then err value_error
      else (do
        controller_salt ← required data_ 0x03
        if length controller_salt == 32 then ok controller_salt else err value_error)

-- The response to a set up: its status and port, which are kept, and then the accessory's salt.
unfoldable pub setup_reply : ℕ → Result Bytes
setup_reply port = do
  raw_port ← u16 (pos port)
  session_params ← bytes_entry 0x01 raw_port
  status ← number_entry 0x01 0
  params ← bytes_entry 0x02 session_params
  ok (status ++ params)

-- The bytes of a button event; `now` is the time in milliseconds.
unfoldable pub button_event : ℕ → ℕ → ℕ → ℕ → Result Bytes
button_event button state now active_identifier = do
  id_part ← number_entry 0x01 (100 + button)
  state_part ← number_entry 0x02 state
  raw_time ← to_bytes 8 (pos now)
  time_part ← bytes_entry 0x03 raw_time
  raw_identifier ← u32 (pos active_identifier)
  identifier_part ← bytes_entry 0x04 raw_identifier
  ok (id_part ++ (state_part ++ (time_part ++ identifier_part)))

module _ (env : Platform) where
  unfoldable pub hap_selected_audio_write : Text → Option Client → Media → Result (Unit {0}) × Media
  unfolding check_audio
  hap_selected_audio_write value none m = (err value_error, m)
  hap_selected_audio_write value (some client) m = elim (env.b64decode value >>= check_audio) [
    | err e ↦ (err e, m)
    | ok x ↦ (ok tt, record m { selected_audio = value })
  ]

  abbrev pub is_no_client : Option Client → Bool
  is_no_client none = true
  is_no_client (some client) = false

  -- `_send_button`
  unfoldable pub send_button : ℕ → ℕ → ℕ → Remote → Media → Result Text × Media
  unfolding button_event
  send_button button state now r m =
      if r.active_identifier == 0
      then (err runtime_error, m)
      else if is_no_client r.active_client
      then (err runtime_error, m)
      else elim (button_event button state now r.active_identifier) [
        | err e ↦ (err e, m)
        | ok event ↦
            let text = env.b64encode event in
            (
              if r.started then ok text else err runtime_error,
              record m { last_button_event = text },
            )
      ]

  abbrev pub port_or_0 : Option ℕ → ℕ
  port_or_0 none = 0
  port_or_0 (some port) = port

  -- What follows `prepare_session`, which raises where there is no port.
  unfoldable pub after_prepare :
      Result PreparedSession × Server → Media → Result Text × Server × Media
  unfolding setup_reply
  after_prepare (err e, s) m = (err e, s, m)
  after_prepare (ok prepared, s) m = elim (setup_reply (port_or_0 s.port)) [
    | err e ↦ (err e, s, m)
    | ok stripped ↦ (
      bytes_entry 0x03 prepared.accessory_salt >>= λ salt. ok (env.b64encode (stripped ++ salt)),
      s,
      record m { last_hds_setup = env.b64encode stripped },
    )
  ]

  -- `hap_setup_hds_write`; HAP-python gives the shared secret, and `os.urandom` the salt.
  unfoldable pub hap_setup_hds_write :
      Crypto
      → (Client → Option Bytes)
      → Bytes
      → Text
      → Option Client
      → Remote
      → Server
      → Media
      → Result Text × Server × Media
  unfolding check_setup prepare_session after_prepare
  hap_setup_hds_write crypto secret_for accessory_salt value none r s m = (err value_error, s, m)
  hap_setup_hds_write crypto secret_for accessory_salt value (some client) r s m =
      elim (env.b64decode value >>= check_setup) [
        | err e ↦ (err e, s, m)
        | ok controller_salt ↦
            if not r.started then (err runtime_error, s, m) else elim (secret_for client) [
              | none ↦ (err runtime_error, s, m)
              | some secret ↦
                  if length secret == 0
                  then (err runtime_error, s, m)
                  else after_prepare
                      (prepare_session crypto client secret controller_salt accessory_salt s) m
            ]
      ]

-- `u16(int(button))` beside the button's identifier.
unfoldable pub supported_button : ℕ → Result Bytes
supported_button button = do
  raw_type ← u16 (pos button)
  encode ((pos 0x01, int (pos (100 + button))) ∷ (pos 0x02, bytes raw_type) ∷ [])

unfoldable pub supported_buttons : List ℕ → Result Bytes
unfolding supported_button
supported_buttons [] = ok []
supported_buttons (button ∷ buttons) = do
  front ← supported_button button
  back ← supported_buttons buttons
  ok (front ++ back)

-- MENU to VOLUME_DOWN are 1 to 10, in the order of the list; POWER is 12, GENERIC 13, SIRI 11.
abbrev pub advertised_buttons : Bool → List ℕ
advertised_buttons siri =
    1 ∷ 2 ∷ 3 ∷ 4 ∷ 5 ∷ 6 ∷ 7 ∷ 8 ∷ 9 ∷ 10 ∷ 12 ∷ 13 ∷ (if siri then 11 ∷ [] else [])

-- `target_supported_value`, before it is put in base64
unfoldable pub target_supported_bytes : Bool → Result Bytes
unfolding supported_buttons
target_supported_bytes siri_advertised = do
  button_data ← supported_buttons (advertised_buttons siri_advertised)
  maximum ← number_entry 0x01 max_targets
  raw_ticks ← uint_le (pos 1000)
  ticks ← bytes_entry 0x02 raw_ticks
  buttons ← bytes_entry 0x03 button_data
  kind ← number_entry 0x04 (if siri_advertised then 1 else 0)
  ok (maximum ++ (ticks ++ (buttons ++ kind)))
