-- ===== src/Remote/Events.antt =====
-- `_hds_event` and `recover_hds` of remote.py: what the Apple TV says of a stream, and the restart of
-- the data stream.
use atv_homekit_remote.Prelude.{
  ℕ, Bool, true, false, not, Option, none, some, [], ◌∷◌, ◌||◌, if◌then◌else◌, Result, ok, err,
  Error, value_error, type_error, key_error, unicode_error,
}
use atv_homekit_remote.Prelude.Int.{ℤ}
use atv_homekit_remote.Prelude.Dict.{Dict, lookup}
use atv_homekit_remote.Utf8.{Text}
use atv_homekit_remote.HdsCodec.Value.{HdsValue, Fields, Formats, list_eq}
use atv_homekit_remote.Hds.Message.{Conversions, get_field}
use atv_homekit_remote.Hds.Connection.{lookup_id}
use atv_homekit_remote.Remote.Sessions.{
  Link, Talk, Registry, Registered, close_session, close_link, is_session_on, stream_of,
}

-- "dataSend", "ack", "close", "streamId", "endOfStream" and "reason"
abbrev pub data_send_protocol : Text
data_send_protocol = 100 ∷ 97 ∷ 116 ∷ 97 ∷ 83 ∷ 101 ∷ 110 ∷ 100 ∷ []

abbrev pub ack_topic : Text
ack_topic = 97 ∷ 99 ∷ 107 ∷ []

abbrev pub close_topic : Text
close_topic = 99 ∷ 108 ∷ 111 ∷ 115 ∷ 101 ∷ []

abbrev pub stream_id_key : Text
stream_id_key = 115 ∷ 116 ∷ 114 ∷ 101 ∷ 97 ∷ 109 ∷ 73 ∷ 100 ∷ []

abbrev pub end_of_stream_key : Text
end_of_stream_key = 101 ∷ 110 ∷ 100 ∷ 79 ∷ 102 ∷ 83 ∷ 116 ∷ 114 ∷ 101 ∷ 97 ∷ 109 ∷ []

abbrev pub reason_key : Text
reason_key = 114 ∷ 101 ∷ 97 ∷ 115 ∷ 111 ∷ 110 ∷ []

-- `except (KeyError, TypeError, ValueError)`; UnicodeError is a ValueError.
abbrev pub is_malformed : Error → Bool
is_malformed value_error = true
is_malformed type_error = true
is_malformed key_error = true
is_malformed unicode_error = true
is_malformed _ = false

abbrev pub is_closed_session : ℕ → Dict Talk → Bool
is_closed_session session sessions = elim (lookup session sessions) [
  | none ↦ true
  | some talk ↦ talk.closed
]

-- `handle_ack`, with what its close message raises; the session ends in any case.
unfoldable pub session_acknowledged : Option Error → Bool → ℕ → Registry → Registered (Unit {0})
unfolding close_session
session_acknowledged fault end_of_stream session r =
    if is_closed_session session r.sessions || not end_of_stream
    then (ok tt, r)
    else elim (stream_of session r.sessions) [
      | none ↦ (ok tt, r)
      | some stream ↦ (elim fault [ none ↦ ok tt | some e ↦ err e ], close_session session r)
    ]

-- The session of a stream, if it runs over the connection.
unfoldable pub session_of : ℕ → ℤ → Registry → Option ℕ
session_of connection stream r = elim (lookup_id stream r.siri_sessions) [
  | none ↦ none
  | some session ↦ if is_session_on connection session r.sessions then some session else none
]

module _ (fm : Formats) where
  open fm use {Float}

  module _ (cv : Conversions fm) (truthy : HdsValue Float → Bool) where
    unfoldable pub read_stream_id : Fields Float → Result ℤ
    unfolding get_field
    read_stream_id message = elim (get_field fm stream_id_key message) [
      | none ↦ err key_error
      | some raw ↦ cv.to_int raw
    ]

    abbrev pub is_set : Option (HdsValue Float) → Bool
    is_set none = false
    is_set (some raw) = truthy raw

    -- The reason's value is converted, although the session only looks whether it is 0.
    unfoldable pub session_closed : Option (HdsValue Float) → ℕ → Registry → Registered (Unit {0})
    unfolding close_session
    session_closed none session r = (ok tt, close_session session r)
    session_closed (some raw) session r = elim (cv.to_int raw) [
      | err e ↦ (err e, r)
      | ok reason ↦ (ok tt, close_session session r)
    ]

    unfoldable pub session_event :
        Option Error → Text → Fields Float → Option ℕ → Registry → Registered (Unit {0})
    unfolding session_acknowledged session_closed get_field list_eq
    session_event fault topic message none r = (ok tt, r)
    session_event fault topic message (some session) r =
        if list_eq topic ack_topic
        then session_acknowledged fault (is_set (get_field fm end_of_stream_key message)) session r
        else session_closed (get_field fm reason_key message) session r

    -- `_hds_event`
    unfoldable pub hds_event :
        Option Error → ℕ → Text → Text → Fields Float → Registry → Registered (Unit {0})
    unfolding read_stream_id session_of session_event list_eq
    hds_event fault connection protocol topic message r =
        if not (list_eq protocol data_send_protocol)
          || not (list_eq topic ack_topic || list_eq topic close_topic)
        then (ok tt, r)
        else elim (read_stream_id message) [
          | err e ↦ (if is_malformed e then ok tt else err e, r)
          | ok stream ↦ session_event fault topic message (session_of connection stream r) r
        ]

-- `HDSServer.close_all`, as far as the remote sees it.
unfoldable pub close_links : Dict Link → Registry → Registry
unfolding close_link
close_links [] r = r
close_links ((connection, link) ∷ links) r = close_links links (close_link connection r)

-- `recover_hds`, up to the pause; the running session was cancelled before, if it could be.
unfoldable pub recover_begin : Registry → Registry
unfolding close_links
recover_begin r =
    let closed = close_links r.links r in
    let remote = closed.remote in
    record closed { remote = record remote { hds_connections = [] }; siri_advertised = false }

-- `recover_hds`, after the pause.
unfoldable pub recover_end : Registry → Registry
recover_end r = record r { siri_advertised = true }
