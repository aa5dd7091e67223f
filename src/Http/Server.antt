-- ===== src/Http/Server.antt =====
-- `_is_loopback_bind`, the checks of `RemoteHTTPServer.__init__` and `_auth_middleware` of http_api.py.
use atv_homekit_remote.Prelude.{
  ℕ, Bool, true, false, not, Option, none, some, [], ◌∷◌, ◌++◌, leb, ltb, ◌==◌, ◌&&◌, ◌||◌,
  if◌then◌else◌, length, codes, Result, ok, err, Error, value_error, type_error,
}
use atv_homekit_remote.Prelude.Int.{ℤ, pos, negsuc}
use atv_homekit_remote.Utf8.{Text}
use atv_homekit_remote.HdsCodec.Value.{list_eq}

-- `str.strip()` and `str.lower()`, and `ipaddress`: whether a text is a loopback address, if it is an
-- address; a float of seconds is compared with 0 and 600.
pub record Platform : Type 1 where
  pub strip : Text → Text
  pub lower : Text → Text
  pub is_loopback : Text → Option Bool
  pub Seconds : Type 0
  pub is_positive : Seconds → Bool
  pub is_over_600 : Seconds → Bool

-- `strip("[]")`
abbrev pub is_bracket : ℕ → Bool
is_bracket c = c == 91 || c == 93

unfoldable pub strip_front : Text → Text
strip_front [] = []
strip_front (c ∷ cs) = if is_bracket c then strip_front cs else c ∷ cs

-- The text without the brackets at its end.
abbrev pub before_end : ℕ → Text → Text
before_end c [] = if is_bracket c then [] else c ∷ []
before_end c (d ∷ ds) = c ∷ d ∷ ds

unfoldable pub strip_back : Text → Text
strip_back [] = []
strip_back (c ∷ cs) = before_end c (strip_back cs)

abbrev pub or_false : Option Bool → Bool
or_false none = false
or_false (some b) = b

module _ (pf : Platform) where
  open pf use {Seconds}

  unfoldable pub is_loopback_bind : Text → Bool
  unfolding strip_front strip_back list_eq
  is_loopback_bind host =
      let normalized = pf.lower (strip_back (strip_front (pf.strip host))) in
      if list_eq normalized (codes "localhost") then true else or_false (pf.is_loopback normalized)

  -- The arguments of `__init__`.
  pub record Settings : Type 0 where
    pub host : Text
    pub port : ℤ
    pub token : Option Text
    pub allow_file_api : Bool
    pub max_audio_bytes : ℤ
    pub utterance_timeout : Seconds

  abbrev pub is_short : Option Text → Bool
  is_short none = false
  is_short (some token) = ltb (length token) 16

  abbrev pub is_absent : Option Text → Bool
  is_absent none = true
  is_absent (some token) = false

  -- `low <= n <= high`, for natural bounds.
  unfoldable pub is_between : ℕ → ℕ → ℤ → Bool
  is_between low high (pos n) = leb low n && leb n high
  is_between low high (negsuc n) = false

  -- The guards of `__init__`, which keeps its arguments.
  unfoldable pub new_server : Settings → Result Settings
  unfolding is_loopback_bind is_between
  new_server s =
      if not (is_between 1 65535 s.port)
      then err value_error
      else if not (is_between 640 536870912 s.max_audio_bytes)
      then err value_error
      else if not (pf.is_positive s.utterance_timeout) || pf.is_over_600 s.utterance_timeout
      then err value_error
      else if is_short s.token
      then err value_error
      else if not (is_loopback_bind s.host) && is_absent s.token
      then err value_error
      else ok s

-- What the middleware does with a request.
pub data Access : Type 0 where
  granted unauthorized : Access
  failed : Error → Access

abbrev pub healthz_path : Text
healthz_path = codes "/healthz"

abbrev pub bearer : Text
bearer = codes "Bearer "

abbrev pub is_ascii : Text → Bool
is_ascii [] = true
is_ascii (c ∷ cs) = ltb c 128 && is_ascii cs

-- `hmac.compare_digest` of two texts, which must be ASCII.
unfoldable pub compare_digest : Text → Text → Result Bool
unfolding list_eq
compare_digest a b = if is_ascii a && is_ascii b then ok (list_eq a b) else err type_error

abbrev pub or_empty : Option Text → Text
or_empty none = []
or_empty (some t) = t

-- `_auth_middleware`, with the Authorization header if there is one.
unfoldable pub authorize : Option Text → Text → Option Text → Access
unfolding compare_digest list_eq
authorize none path header = granted
authorize (some token) path header =
    if list_eq path healthz_path
    then granted
    else elim (compare_digest (or_empty header) (bearer ++ token)) [
      | err e ↦ failed e
      | ok same ↦ if same then granted else unauthorized
    ]
