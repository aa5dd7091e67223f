-- ===== src/Remote/Streams.antt =====
-- The audio, data stream and button handlers of remote.py do what the other side expects of them.
use atv_homekit_remote.Prelude.{
  either, either_some, ℕ, ◌+◌, ◌^◌, ◌≡◌, ◌≢◌, refl, sym, ap, ◌∙◌, ◌≤◌, ◌<◌, Bool, true, false, not,
  Option, none, some, List, [], ◌∷◌, ◌++◌, ◌==◌, if◌then◌else◌, arith, leb, ltb, ◌&&◌, All, IsByte,
  length, Bytes, to_le, Result, ok, err, runtime_error, ◌>>=◌, append_assoc, append-nil,
}
use atv_homekit_remote.Prelude.Dict.{Dict}
use atv_homekit_remote.Utf8.{Text}
use atv_homekit_remote.Tlv8.{encode, decode, to_bytes, u32}
use atv_homekit_remote.Hds.Server.{PreparedSession, Server, Crypto, prepare_session}
use atv_homekit_remote.Hds.Pending.{IsSettled, Settles, prepare_session-Settles}
use atv_homekit_remote.Remote.State.{Client, Remote, Platform}
use atv_homekit_remote.Remote.Media.{
  Media, build_audio_configuration, check_audio, check_setup, hap_selected_audio_write,
  after_prepare, hap_setup_hds_write, setup_reply, button_event, bytes_entry, port_or_0,
}

-- A platform whose base64 reads back the bytes that it wrote.
abbrev pub IsFaithful : Platform → Type 0
IsFaithful env = (bs : Bytes) → All IsByte bs → env.b64decode (env.b64encode bs) ≡ ok bs

-- That a list holds bytes, computed.
abbrev pub are_bytes : Bytes → Bool
are_bytes [] = true
are_bytes (b ∷ bs) = ltb b 256 && are_bytes bs

pub are_bytes-IsByte : (bs : Bytes) → are_bytes bs ≡ true → All IsByte bs
are_bytes-IsByte [] h = tt
are_bytes-IsByte (b ∷ bs) h = (ground arith, are_bytes-IsByte bs (ground arith))

build-IsByte :
    (selected : Bool) (bs : Bytes) → build_audio_configuration selected ≡ ok bs → All IsByte bs
build-IsByte selected bs e = are_bytes-IsByte bs (unwrap (rw e at (built selected)))
  where
    unwrap : {b : Bool} → ok b ≡ ok true → b ≡ true
    unwrap h = cc

    built : (b : Bool) → (build_audio_configuration b >>= λ x. ok (are_bytes x)) ≡ ok true
    built true = unfold build_audio_configuration encode in refl
    built false = unfold build_audio_configuration encode in refl

check_audio-build : (selected : Bool) → (build_audio_configuration selected >>= check_audio) ≡ ok tt
unfolding check_audio build_audio_configuration encode decode atv_homekit_remote.Prelude.Dict.lookup
    atv_homekit_remote.Prelude.Dict.insert
check_audio-build true = refl
check_audio-build false = refl

selected_audio_kept :
    (env : Platform) (bs : Bytes) (client : Client) (m : Media)
    → IsFaithful env
    → All IsByte bs
    → check_audio bs ≡ ok tt
    → hap_selected_audio_write env (env.b64encode bs) (some client) m
      ≡ (ok tt, record m { selected_audio = env.b64encode bs })
unfolding hap_selected_audio_write
selected_audio_kept env bs client m h small e =
    accepted (env.b64decode (env.b64encode bs) >>= check_audio) (rw (h bs small) e)
  where
    accepted :
        (o : Result (Unit {0}))
        → o ≡ ok tt
        → let r : Result (Unit {0}) × Media = elim o [
          | err x ↦ (err x, m)
          | ok x ↦ (ok tt, record m { selected_audio = env.b64encode bs })
        ] in
          r ≡ (ok tt, record m { selected_audio = env.b64encode bs })
    accepted (err x) p = cc
    accepted (ok x) p = refl

-- `hap_selected_audio_write` accepts each configuration that the accessory builds, as supported or as
-- selected, from any client, and keeps its text, where base64 reads back what it wrote.
pub hap_selected_audio_write-build :
    (env : Platform) (selected : Bool) (bs : Bytes) (client : Client) (m : Media)
    → IsFaithful env
    → build_audio_configuration selected ≡ ok bs
    → hap_selected_audio_write env (env.b64encode bs) (some client) m
      ≡ (ok tt, record m { selected_audio = env.b64encode bs })
hap_selected_audio_write-build env selected bs client m h built =
    selected_audio_kept env bs client m h (build-IsByte selected bs built)
      (rw built at (check_audio-build selected))

-- A button event decodes to the button's identifier, its state, the time in 8 bytes and the active
-- identifier in 4, where these numbers fit.
pub decode-button_event :
    (button state now active_identifier : ℕ)
    → 100 + button ≤ 255
    → state ≤ 255
    → now < 2 ^ 64
    → active_identifier < 2 ^ 32
    → (button_event button state now active_identifier >>= decode)
      ≡ ok (
          (1, (100 + button) ∷ [])
          ∷ (2, state ∷ [])
          ∷ (3, to_le 8 now)
          ∷ (4, to_le 4 active_identifier)
          ∷ [])
unfolding button_event encode decode u32 to_bytes to_le atv_homekit_remote.Prelude.Dict.insert
decode-button_event button state now active_identifier b s n a =
    let b' : leb (100 + button) 255 ≡ true = ground arith in
    let s' : leb state 255 ≡ true = ground arith in
    let n' : ltb now (256 ^ 8) ≡ true = ground arith in
    let a' : ltb active_identifier (256 ^ 4) ≡ true = ground arith in rw (b', s', n', a') refl

Steady : Result Text × Server × Media → Type 0
unfolding IsSettled
Steady o = IsSettled o.1

steady : (x : Result Text) (s : Server) (m : Media) → IsSettled s → Steady (x, s, m)
unfolding Steady
steady x s m h = h

after_prepare-Steady :
    (env : Platform) (o : Result PreparedSession × Server) (m : Media)
    → Settles o
    → Steady (after_prepare env o m)
unfolding after_prepare
after_prepare-Steady env (err e, s) m h = steady _ s _ (unfold Settles in h)
after_prepare-Steady env (ok prepared, s) m h = replied (setup_reply (port_or_0 env s.port))
  where
    replied :
        (reply : Result Bytes)
        → Steady (elim reply [
          | err e ↦ (err e, s, m)
          | ok stripped ↦ (
            bytes_entry 0x03 prepared.accessory_salt >>= λ salt.
                ok (env.b64encode (stripped ++ salt)),
            s,
            record m { last_hds_setup = env.b64encode stripped },
          )
        ])
    replied (err e) = steady _ s _ (unfold Settles in h)
    replied (ok stripped) = steady _ s _ (unfold Settles in h)

-- `hap_setup_hds_write`, whatever it is sent, keeps the server's waiting sessions in order, by a return
-- or an exception.
hap_setup_hds_write-IsSettled :
    (env : Platform) (crypto : Crypto) (secret_for : Client → Option Bytes) (accessory_salt : Bytes)
    (value : Text) (client : Option Client) (r : Remote) (s : Server) (m : Media)
    → IsSettled s
    → IsSettled (hap_setup_hds_write env crypto secret_for accessory_salt value client r s m).1
unfolding hap_setup_hds_write Steady
hap_setup_hds_write-IsSettled env crypto secret_for accessory_salt value none r s m h = h
hap_setup_hds_write-IsSettled env crypto secret_for accessory_salt value (some client) r s m h =
    requested (env.b64decode value >>= check_setup)
  where
    prepared :
        (secret controller_salt : Bytes)
        → Steady (
            after_prepare env
              (prepare_session crypto client secret controller_salt accessory_salt s)
              m)
    prepared secret controller_salt =
        after_prepare-Steady env _ m
          (prepare_session-Settles crypto client secret controller_salt accessory_salt s h)

    requested :
        (o : Result Bytes)
        → Steady (elim o [
          | err e ↦ (err e, s, m)
          | ok controller_salt ↦
              if not r.started then (err runtime_error, s, m) else elim (secret_for client) [
                | none ↦ (err runtime_error, s, m)
                | some secret ↦
                    if length secret == 0
                    then (err runtime_error, s, m)
                    else after_prepare env
                        (prepare_session crypto client secret controller_salt accessory_salt s)
                        m
              ]
        ])
    requested (err e) = h
    requested (ok controller_salt) =
        either Steady (not r.started) (λ e. h)
          (λ e.
            either_some Steady (secret_for client) (λ e. h)
              (λ secret e.
                either Steady (length secret == 0) (λ e. h) (λ e. prepared secret controller_salt)))
