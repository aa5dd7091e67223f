-- ===== src/Http/Handlers.antt =====
-- The handlers of `RemoteHTTPServer` of http_api.py: their status for what the remote's calls return
-- and raise, and the reading of bounded audio.
use atv_homekit_remote.Prelude.{
  ℕ, ◌+◌, ◌*◌, Bool, true, false, not, Option, none, some, List, [], ◌∷◌, ltb, ◌==◌, ◌&&◌, ◌||◌,
  if◌then◌else◌, length, Bytes, Result, ok, err, Error, value_error, unicode_error, runtime_error,
  os_error, file_not_found, permission_error, connection_error, timeout_error, wave_error, ◌>>=◌,
}
use atv_homekit_remote.Prelude.Int.{ℤ, pos}
use atv_homekit_remote.Utf8.{Text}
use atv_homekit_remote.Remote.State.{Remote, Outcome, set_active_identifier}
use atv_homekit_remote.Remote.State
use atv_homekit_remote.Remote.Media.{Media}
use atv_homekit_remote.Remote.Press.{named, Pressed, press}

-- A JSON response by its status, an exception of aiohttp, or another exception.
pub data Reply : Type 0 where
  json : ℕ → Reply
  too_large not_found : Reply
  raised : Error → Reply

-- `isinstance`, by Python's hierarchy of exceptions.
abbrev pub is_value_error : Error → Bool
is_value_error value_error = true
is_value_error unicode_error = true
is_value_error _ = false

abbrev pub is_timeout_error : Error → Bool
is_timeout_error timeout_error = true
is_timeout_error _ = false

abbrev pub is_runtime_error : Error → Bool
is_runtime_error runtime_error = true
is_runtime_error _ = false

abbrev pub is_connection_error : Error → Bool
is_connection_error connection_error = true
is_connection_error _ = false

-- TimeoutError, ConnectionError, FileNotFoundError and PermissionError are OSErrors.
abbrev pub is_os_error : Error → Bool
is_os_error os_error = true
is_os_error file_not_found = true
is_os_error permission_error = true
is_os_error connection_error = true
is_os_error timeout_error = true
is_os_error _ = false

abbrev pub is_file_not_found : Error → Bool
is_file_not_found file_not_found = true
is_file_not_found _ = false

abbrev pub is_wave_error : Error → Bool
is_wave_error wave_error = true
is_wave_error _ = false

unfoldable pub healthz : Bool → Reply
healthz started = json (if started then 200 else 503)

-- `active`, by what `set_active_identifier(int(...))` did.
unfoldable pub active_reply : Result (Unit {0}) → Reply
active_reply (ok x) = json 200
active_reply (err e) =
    if is_value_error e then json 400 else if is_runtime_error e then json 409 else raised e

unfoldable pub press_reply : Result (Unit {0}) → Reply
press_reply (ok x) = json 200
press_reply (err e) =
    if is_value_error e
    then json 400
    else if is_runtime_error e
    then json 409
    else if is_connection_error e || is_os_error e
    then json 503
    else raised e

unfoldable pub recover_reply : Result (Unit {0}) → Reply
recover_reply (ok x) = json 200
recover_reply (err e) =
    if is_value_error e
    then json 400
    else if is_timeout_error e
    then json 504
    else if is_runtime_error e
    then json 409
    else raised e

unfoldable pub stream_reply : Result (Unit {0}) → Reply
stream_reply (ok x) = json 200
stream_reply (err e) =
    if is_value_error e
    then json 400
    else if is_timeout_error e
    then json 504
    else if is_runtime_error e
    then json 409
    else if is_connection_error e || is_os_error e
    then json 503
    else raised e

unfoldable pub file_reply : Result (Unit {0}) → Reply
file_reply (ok x) = json 200
file_reply (err e) =
    if is_file_not_found e
    then json 404
    else if is_os_error e || is_wave_error e || is_value_error e
    then json 400
    else if is_timeout_error e
    then json 504
    else if is_runtime_error e
    then json 409
    else if is_connection_error e
    then json 503
    else raised e

-- `_query_int`; Python's `int` of a text is a parameter.
unfoldable pub query_int : (Text → Result ℤ) → Option ℤ → Option Text → Result (Option ℤ)
query_int parse_int default_ none = ok default_
query_int parse_int default_ (some raw) = elim (parse_int raw) [
  | ok n ↦ ok (some n)
  | err e ↦ err (if is_value_error e then value_error else e)
]

abbrev pub or_200 : Option ℤ → ℤ
or_200 none = pos 200
or_200 (some n) = n

-- `POST /active/{identifier}`
unfoldable pub active : State.Platform → (Text → Result ℤ) → Text → Remote → Reply × Remote
unfolding active_reply set_active_identifier
active env parse_int identifier r = elim (parse_int identifier) [
  | err e ↦ (active_reply (err e), r)
  | ok n ↦ let (x, r') = set_active_identifier env n r in (active_reply x, r')
]

-- The two query parameters of `POST /press/{button}`.
unfoldable pub press_query : (Text → Result ℤ) → Option Text → Option Text → Result (Option ℤ × ℤ)
unfolding query_int
press_query parse_int raw_target raw_hold = do
  target ← query_int parse_int none raw_target
  hold ← query_int parse_int (some (pos 200)) raw_hold
  ok (target, or_200 hold)

abbrev pub press_answer : Pressed → Reply × Remote × Media
press_answer (x, r, m) = (press_reply x, r, m)

unfoldable pub press_button :
    State.Platform
    → (Text → Text)
    → (Remote → Remote)
    → (Text → Result ℤ)
    → (button : Text) → (raw_target raw_hold : Option Text) → (down_at up_at : ℕ) → Remote
    → Media
    → Reply × Remote × Media
unfolding press_query press press_reply
press_button env upper others parse_int button raw_target raw_hold down_at up_at r m =
    elim (press_query parse_int raw_target raw_hold) [
      | err e ↦ (press_reply (err e), r, m)
      | ok (target, hold) ↦
          press_answer (press env upper others (named button) hold target down_at up_at r m)
    ]

-- `_bounded_audio_chunks`: what is yielded, and whether it raises after that.
unfoldable pub bounded_chunks : ℕ → ℕ → List Bytes → List Bytes × Bool
bounded_chunks limit total [] = ([], false)
bounded_chunks limit total (chunk ∷ chunks) =
    let (yielded, cut) = bounded_chunks limit (total + length chunk) chunks in
    if ltb limit (total + length chunk) then ([], true) else (chunk ∷ yielded, cut)

abbrev pub is_announced_too_large : ℕ → Option ℕ → Bool
is_announced_too_large limit none = false
is_announced_too_large limit (some size) = ltb limit size

-- The end of `send_pcm` over the chunks: what it raises by itself comes first.
abbrev pub sent_reply : Result (Unit {0}) → Bool → Reply
sent_reply (err e) cut = stream_reply (err e)
sent_reply (ok x) true = too_large
sent_reply (ok x) false = stream_reply (ok x)

-- `POST /siri/stream`; `send_pcm` is what the remote's method does with a target and chunks, under the
-- time limit.
unfoldable pub siri_stream :
    (Option ℤ → List Bytes → Result (Unit {0}))
    → (Text → Result ℤ)
    → (limit : ℕ) → (raw_target : Option Text) → (content_length : Option ℕ) → List Bytes
    → Reply
unfolding query_int bounded_chunks stream_reply
siri_stream send_pcm parse_int limit raw_target content_length chunks =
    let (yielded, cut) = bounded_chunks limit 0 chunks in
    elim (query_int parse_int none raw_target) [
      | err e ↦ stream_reply (err e)
      | ok target ↦
          if is_announced_too_large limit content_length
          then too_large
          else sent_reply (send_pcm target yielded) cut
    ]

-- What `os.stat` and the `wave` module say of a file.
pub record FileInfo : Type 0 where
  pub is_file : Bool
  pub size : ℕ

pub record WavInfo : Type 0 where
  pub channels : ℕ
  pub sample_width : ℕ
  pub frame_rate : ℕ
  pub frames : ℕ
  pub pcm : Bytes

pub record FileSystem : Type 0 where
  pub resolve : Text → Result FileInfo
  pub open_wav : Text → Result WavInfo

-- The checks of the file, up to its samples.
unfoldable pub read_wav : FileSystem → ℕ → Text → Result Bytes
read_wav fs limit name = do
  info ← fs.resolve name
  if not info.is_file
      then err value_error
      else if ltb (limit + 4096) info.size
      then err value_error
      else (do
        wav ← fs.open_wav name
        if not (wav.channels == 1 && wav.sample_width == 2 && wav.frame_rate == 16000)
            then err value_error
            else if ltb limit (wav.frames * wav.sample_width * wav.channels)
            then err value_error
            else ok wav.pcm)

-- `POST /siri/file`
unfoldable pub siri_file :
    (Option ℤ → Bytes → Result (Unit {0}))
    → (Text → Result ℤ)
    → FileSystem
    → (limit : ℕ) → (allowed : Bool) → (file_name raw_target : Option Text) → Reply
unfolding query_int read_wav file_reply
siri_file send_pcm parse_int fs limit allowed none raw_target =
    if not allowed then not_found else json 400
siri_file send_pcm parse_int fs limit allowed (some name) raw_target =
    if not allowed
    then not_found
    else if length name == 0
    then json 400
    else file_reply (do
      target ← query_int parse_int none raw_target
      pcm ← read_wav fs limit name
      send_pcm target pcm)
