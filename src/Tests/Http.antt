-- ===== src/Tests/Http.antt =====
-- http_api.py on small requests, and a characteristic of hap.py.
use atv_homekit_remote.Prelude.{
  ℕ, ◌≡◌, ◌≢◌, refl, ◌≤◌, ◌<◌, ◌↔◌, ◌⊎◌, ◌++◌, ◌==◌, true, false, Option, none, some, List, [], ◌∷◌,
  arith, codes, length, concat, Bytes, Result, ok, err, value_error, timeout_error,
}
use atv_homekit_remote.Prelude.Int.{ℤ, pos}
use atv_homekit_remote.Utf8.{Text}
use atv_homekit_remote.Remote.State.{Client}
use atv_homekit_remote.Http.Server.{
  Platform, Settings, new_server, is_loopback_bind, granted, authorize, healthz_path,
}
use atv_homekit_remote.Http.Handlers.{json, WavInfo, FileSystem, bounded_chunks, siri_file}
use atv_homekit_remote.Http.Access.{Carries, authorize_iff, new_server-authorize}
use atv_homekit_remote.Http.Replies.{siri_file-ne, bounded_chunks_lem}
use atv_homekit_remote.Hap.Characteristic.{
  Rules, Cell, Setter, context_setter, call_setter, client_update_value,
}
use atv_homekit_remote.Hap.Rollback.{IsFaithful, client_update_value-IsFaithful}
use atv_homekit_remote.Tests.Control.{admin}

-- No text is an address; seconds are whole numbers.
abbrev simple : Platform
simple = record {
  strip = λ t. t;
  lower = λ t. t;
  is_loopback = λ t. none;
  Seconds = ℕ;
  is_positive = λ n. true;
  is_over_600 = λ n. false;
}

abbrev open_settings : Settings simple
open_settings = record {
  host = codes "0.0.0.0";
  port = pos 8477;
  token = some (codes "0123456789abcdef");
  allow_file_api = true;
  max_audio_bytes = pos 1000;
  utterance_timeout = 60;
}

abbrev token_header : Option Text
token_header = some (codes "Bearer 0123456789abcdef")

built : new_server simple open_settings ≡ ok open_settings
unfolding new_server
built = refl

away : is_loopback_bind simple (codes "0.0.0.0") ≡ false
unfolding is_loopback_bind
away = refl

passed : authorize (some (codes "0123456789abcdef")) (codes "/state") token_header ≡ granted
unfolding authorize
passed = refl

not_healthz : codes "/state" ≢ healthz_path
not_healthz e = absurd (ground arith)

new_server-authorize_example :
    (token : Text) × (some (codes "0123456789abcdef") ≡ some token)
    × Carries token token_header
    × (16 ≤ length token)
new_server-authorize_example =
    new_server-authorize simple open_settings open_settings (codes "/state") token_header built away
      passed not_healthz

authorize_iff_example :
    (authorize none (codes "/state") none ≡ granted)
    × ((token : Text)
        → (authorize (some token) (codes "/state") none ≡ granted)
          ↔ ((codes "/state" ≡ healthz_path) ⊎ Carries token none))
authorize_iff_example = authorize_iff (codes "/state") none

-- A WAV file with one frame, which the remote does not send in time.
abbrev one_frame : WavInfo
one_frame = record {
  channels = 1;
  sample_width = 2;
  frame_rate = 16000;
  frames = 1;
  pcm = 0 ∷ 0 ∷ [];
}

abbrev files : FileSystem
files = record {
  resolve = λ t. ok (record { is_file = true; size = 46 });
  open_wav = λ t. ok one_frame;
}

abbrev late : Option ℤ → Bytes → Result (Unit {0})
late target pcm = err timeout_error

abbrev no_int : Text → Result ℤ
no_int t = err value_error

late_is_400 : siri_file late no_int files 1000 true (some (codes "a.wav")) none ≡ json 400
unfolding siri_file
late_is_400 = refl

siri_file-ne_example :
    let answer = siri_file late no_int files 1000 true (some (codes "a.wav")) none in
    (answer ≢ json 503) × (answer ≢ json 504)
siri_file-ne_example = siri_file-ne late no_int files 1000 true (some (codes "a.wav")) none

abbrev chunks : List Bytes
chunks = (1 ∷ 2 ∷ []) ∷ (3 ∷ 4 ∷ []) ∷ []

bounded_chunks_lem_example :
    let (yielded, cut) = bounded_chunks 3 0 chunks in
    (length (concat yielded) ≤ 3)
    × ((cut ≡ false) → yielded ≡ chunks)
    × ((cut ≡ true) → 3 < length (concat chunks))
    × ((rest : List Bytes) × (chunks ≡ yielded ++ rest))
bounded_chunks_lem_example = bounded_chunks_lem 3 chunks

-- A characteristic with numbers, whose callback raises.
abbrev numbers : Rules
numbers = record {
  Value = ℕ;
  null = 0;
  is_null = λ n. n == 0;
  value_eq = λ a b. a == b;
  to_valid_value = λ n. ok n;
  valid_value_or_raise = λ n. ok tt;
  always_null = false;
  allow_invalid_client_values = false;
}

abbrev refusing : Setter numbers ℕ ℕ
refusing = context_setter (λ value client c. (err value_error, c))

abbrev cell : Cell numbers ℕ
cell = record { value = 1; notified = 0; world = 0 }

refuses :
    (value : ℕ) (client : Option Client) (c : Cell numbers ℕ)
    → (call_setter numbers ℕ ℕ refusing value client c).1.notified ≡ c.notified
unfolding call_setter
refuses value client c = refl

client_update_value-IsFaithful_example :
    IsFaithful numbers cell (client_update_value numbers ℕ ℕ refusing 2 (some admin) cell)
client_update_value-IsFaithful_example =
    client_update_value-IsFaithful numbers refusing refuses 2 (some admin) cell
