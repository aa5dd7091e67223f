-- ===== src/Remote/Accepts.antt =====
-- Which writes to the selected audio configuration and to the data stream's set up remote.py accepts.
use atv_homekit_remote.Prelude.{
  ℕ, ◌≡◌, ◌↔◌, refl, ◌<◌, ◌⊎◌, inl, inr, Bool, true, false, Option, none, some, [], ◌∷◌,
  if◌then◌else◌, arith, length, Bytes, Result, ok, err, ◌>>=◌, >>=-eq-ok,
}
use atv_homekit_remote.Prelude.Dict.{Dict, lookup}
use atv_homekit_remote.Utf8.{Text}
use atv_homekit_remote.Tlv8.{decode}
use atv_homekit_remote.Remote.Target.{required, nonempty, single, one_byte}
use atv_homekit_remote.Remote.State.{Client, Platform}
use atv_homekit_remote.Remote.Media.{
  Media, check_audio, is_other_packet_time, check_setup, hap_selected_audio_write,
}

required-eq-ok :
    (d : Dict Bytes) (tag : ℕ) (v : Bytes)
    → required d tag ≡ ok v
    → (lookup tag d ≡ some v) × (0 < length v)
unfolding required
required-eq-ok d tag v e = present (lookup tag d) e
  where
    present : (o : Option Bytes) → nonempty o ≡ ok v → (o ≡ some v) × (0 < length v)
    present none h = cc
    present (some []) h = cc
    present (some (b ∷ bs)) h = let same : (b ∷ bs) ≡ v = cc in rw (← same) (refl, omega arith)

required-lookup :
    (d : Dict Bytes) (tag : ℕ) (v : Bytes)
    → lookup tag d ≡ some v
    → 0 < length v
    → required d tag ≡ ok v
unfolding required
required-lookup d tag [] e h = absurd (omega arith)
required-lookup d tag (b ∷ bs) e h = rw e refl

pub one_byte-eq-ok :
    (d : Dict Bytes) (tag n : ℕ) → one_byte d tag ≡ ok n → lookup tag d ≡ some (n ∷ [])
unfolding one_byte
one_byte-eq-ok d tag n e =
    let (v, present, e1) = >>=-eq-ok (required d tag) single e in
    of_single v (required-eq-ok d tag v present).0 e1
  where
    of_single : (v : Bytes) → lookup tag d ≡ some v → single v ≡ ok n → lookup tag d ≡ some (n ∷ [])
    of_single [] h s = cc
    of_single (b ∷ []) h s = cc
    of_single (b ∷ c ∷ bs) h s = cc

one_byte-lookup :
    (d : Dict Bytes) (tag n : ℕ) → lookup tag d ≡ some (n ∷ []) → one_byte d tag ≡ ok n
unfolding one_byte required
one_byte-lookup d tag n e = rw e refl

-- One channel of Opus at 16 kHz with a variable bitrate, in packets of 20 ms if that is said.
pub record IsOpus (raw : Bytes) : Type 0 where
  pub outer : Dict Bytes
  pub codec_raw : Bytes
  pub codec : Dict Bytes
  pub parameters_raw : Bytes
  pub parameters : Dict Bytes
  pub decoded : decode raw ≡ ok outer
  pub has_codec : (lookup 0x01 outer ≡ some codec_raw) × (0 < length codec_raw)
  pub codec_decoded : decode codec_raw ≡ ok codec
  pub has_parameters : (lookup 0x02 codec ≡ some parameters_raw) × (0 < length parameters_raw)
  pub parameters_decoded : decode parameters_raw ≡ ok parameters
  pub opus : lookup 0x01 codec ≡ some (3 ∷ [])
  pub mono : lookup 0x01 parameters ≡ some (1 ∷ [])
  pub variable : lookup 0x02 parameters ≡ some (0 ∷ [])
  pub rate : lookup 0x03 parameters ≡ some (1 ∷ [])
  pub packets : (lookup 0x04 parameters ≡ none) ⊎ (lookup 0x04 parameters ≡ some (20 ∷ []))

packet_time :
    (o : Option Bytes) → is_other_packet_time o ≡ false → (o ≡ none) ⊎ (o ≡ some (20 ∷ []))
packet_time none h = inl refl
packet_time (some []) h = cc
packet_time (some (b ∷ [])) h = inr (let same : b ≡ 20 = ground arith in rw same refl)
packet_time (some (b ∷ c ∷ bs)) h = cc

check_audio-IsOpus : (raw : Bytes) → check_audio raw ≡ ok tt → IsOpus raw
unfolding check_audio
check_audio-IsOpus raw e =
    let (outer, decoded, e1) = >>=-eq-ok (decode raw) _ e in
    let (codec_raw, p, e2) = >>=-eq-ok (required outer 0x01) _ e1 in
    let (codec, codec_decoded, e3) = >>=-eq-ok (decode codec_raw) _ e2 in
    let (parameters_raw, q, e4) = >>=-eq-ok (required codec 0x02) _ e3 in
    let (parameters, parameters_decoded, e5) = >>=-eq-ok (decode parameters_raw) _ e4 in
    let (kind, k, e6) = >>=-eq-ok (one_byte codec 0x01) _ e5 in
    let (channels, c, e7) = >>=-eq-ok (one_byte parameters 0x01) _ e6 in
    let (bitrate, b, e8) = >>=-eq-ok (one_byte parameters 0x02) _ e7 in
    let (rate, r, e9) = >>=-eq-ok (one_byte parameters 0x03) _ e8 in
    let kind_is : kind ≡ 3 = ground arith in
    let channels_are : channels ≡ 1 = ground arith in
    let bitrate_is : bitrate ≡ 0 = ground arith in
    let rate_is : rate ≡ 1 = ground arith in
    let packets_are : is_other_packet_time (lookup 0x04 parameters) ≡ false = ground arith in
    record {
      outer = outer;
      codec_raw = codec_raw;
      codec = codec;
      parameters_raw = parameters_raw;
      parameters = parameters;
      decoded = decoded;
      has_codec = required-eq-ok outer 0x01 codec_raw p;
      codec_decoded = codec_decoded;
      has_parameters = required-eq-ok codec 0x02 parameters_raw q;
      parameters_decoded = parameters_decoded;
      opus = rw kind_is at (one_byte-eq-ok codec 0x01 kind k);
      mono = rw channels_are at (one_byte-eq-ok parameters 0x01 channels c);
      variable = rw bitrate_is at (one_byte-eq-ok parameters 0x02 bitrate b);
      rate = rw rate_is at (one_byte-eq-ok parameters 0x03 rate r);
      packets = packet_time (lookup 0x04 parameters) packets_are;
    }

usual_packets :
    (o : Option Bytes) → (o ≡ none) ⊎ (o ≡ some (20 ∷ [])) → is_other_packet_time o ≡ false
usual_packets o (inl e) = rw e refl
usual_packets o (inr e) = rw e refl

IsOpus-check_audio : (raw : Bytes) → IsOpus raw → check_audio raw ≡ ok tt
unfolding check_audio
IsOpus-check_audio raw h =
    rw
      (
        h.decoded,
        required-lookup h.outer 0x01 h.codec_raw h.has_codec.0 h.has_codec.1,
        h.codec_decoded,
        required-lookup h.codec 0x02 h.parameters_raw h.has_parameters.0 h.has_parameters.1,
        h.parameters_decoded,
        one_byte-lookup h.codec 0x01 3 h.opus,
        one_byte-lookup h.parameters 0x01 1 h.mono,
        one_byte-lookup h.parameters 0x02 0 h.variable,
        one_byte-lookup h.parameters 0x03 1 h.rate,
        usual_packets (lookup 0x04 h.parameters) h.packets,
      )
      refl

-- A client of a HAP connection writes the base64 text of such a configuration.
abbrev pub IsSelection : Platform → Text → Option Client → Type 0
IsSelection env value none = ⊥
IsSelection env value (some client) = (raw : Bytes) × (env.b64decode value ≡ ok raw) × IsOpus raw

abbrev pub is_ok {ℓ} : {A : Type ℓ} → Result A → Bool
is_ok (ok a) = true
is_ok (err e) = false

-- `hap_selected_audio_write` returns exactly for a client's base64 text of one channel of Opus at 16
-- kHz with a variable bitrate, in packets of 20 ms if a packet time is given; it then keeps the text,
-- and where it raises it keeps the one before.
pub hap_selected_audio_write_iff :
    (env : Platform) (value : Text) (client : Option Client) (m : Media)
    → let o = hap_selected_audio_write env value client m in
      ((o.0 ≡ ok tt) ↔ IsSelection env value client)
      × (o.1 ≡ (if is_ok o.0 then record m { selected_audio = value } else m))
unfolding hap_selected_audio_write
hap_selected_audio_write_iff env value none m = (((λ e. cc), λ h. absurd h), refl)
hap_selected_audio_write_iff env value (some client) m =
    checked (env.b64decode value >>= check_audio) refl
  where
    selected : env.b64decode value >>= check_audio ≡ ok tt → IsSelection env value (some client)
    selected e =
        let (raw, decoded, checks) = >>=-eq-ok (env.b64decode value) check_audio e in
        (raw, decoded, check_audio-IsOpus raw checks)

    accepted : IsSelection env value (some client) → env.b64decode value >>= check_audio ≡ ok tt
    accepted (raw, decoded, opus) = rw decoded (IsOpus-check_audio raw opus)

    checked :
        (o : Result (Unit {0}))
        → env.b64decode value >>= check_audio ≡ o
        → let r : Result (Unit {0}) × Media = elim o [
          | err x ↦ (err x, m)
          | ok x ↦ (ok tt, record m { selected_audio = value })
        ] in
          ((r.0 ≡ ok tt) ↔ IsSelection env value (some client))
          × (r.1 ≡ (if is_ok r.0 then record m { selected_audio = value } else m))
    checked (err x) e = (((λ h. cc), λ h. absurd (ground (arith, e, accepted h))), refl)
    checked (ok x) e = (((λ h. selected e), λ h. refl), refl)

-- A start of a data stream over the transport that the accessory has, with the controller's salt.
pub record IsSetup (raw salt : Bytes) : Type 0 where
  pub data_ : Dict Bytes
  pub decoded : decode raw ≡ ok data_
  pub start : lookup 0x01 data_ ≡ some (0 ∷ [])
  pub transport : lookup 0x02 data_ ≡ some (0 ∷ [])
  pub has_salt : lookup 0x03 data_ ≡ some salt
  pub sized : length salt ≡ 32

pub check_setup-IsSetup : (raw salt : Bytes) → check_setup raw ≡ ok salt → IsSetup raw salt
unfolding check_setup
check_setup-IsSetup raw salt e =
    let (d, decoded, e1) = >>=-eq-ok (decode raw) _ e in
    let (command, c, e2) = >>=-eq-ok (one_byte d 0x01) _ e1 in
    let (transport, t, e3) = >>=-eq-ok (one_byte d 0x02) _ e2 in
    let command_is : command ≡ 0 = ground arith in
    let transport_is : transport ≡ 0 = ground arith in
    let (found, s, e4) = >>=-eq-ok (required d 0x03) _ (rw (command_is, transport_is) at e3) in
    let same : found ≡ salt = ground arith in
    let sized : length found ≡ 32 = ground arith in
    record {
      data_ = d;
      decoded = decoded;
      start = rw command_is at (one_byte-eq-ok d 0x01 command c);
      transport = rw transport_is at (one_byte-eq-ok d 0x02 transport t);
      has_salt = rw same at (required-eq-ok d 0x03 found s).0;
      sized = rw same at sized;
    }
