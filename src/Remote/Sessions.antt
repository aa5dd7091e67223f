-- ===== src/Remote/Sessions.antt =====
-- The HDS connections and Siri sessions that `AppleTVHomeKitRemote` of remote.py registers:
-- `_hds_whoami`, `_hds_connection_closed`, `start_siri`, `_siri_session_opened`, `_watch_siri_session`,
-- `_hds_event` and `recover_hds`. Objects are named by numbers.
use atv_homekit_remote.Prelude.{
  ℕ, suc, Bool, true, false, not, Option, none, some, [], ◌∷◌, ◌==◌, ◌||◌, if◌then◌else◌, Result,
  ok, err, Error, runtime_error,
}
use atv_homekit_remote.Prelude.Int.{ℤ, pos, negsuc, int_eq, is_within, to_ℕ}
use atv_homekit_remote.Prelude.Dict.{Dict, lookup, contains, insert, erase}
use atv_homekit_remote.Hds.Connection.{lookup_id, erase_id}
use atv_homekit_remote.Remote.State.{
  Client, SessionView, Remote, Platform, Outcome, set_active_identifier,
}

-- What these methods read of an `HDSConnection`.
pub record Link : Type 0 where
  pub closed : Bool
  pub target_identifier : Option ℤ

-- What they read of a `SiriSession`.
pub record Talk : Type 0 where
  pub connection : ℕ
  pub target_identifier : ℕ
  pub stream_id : Option ℤ
  pub closed : Bool

-- `locked` is whether `_siri_lock` is held.
pub record Registry : Type 0 where
  pub remote : Remote
  pub siri_advertised : Bool
  pub links : Dict Link
  pub sessions : Dict Talk
  pub siri_sessions : Dict ℕ
  pub active_session : Option ℕ
  pub locked : Bool
  pub next_session : ℕ

abbrev pub Registered {ℓ} : Type ℓ → Type ℓ
Registered A = Result A × Registry

abbrev pub is_open_link : ℕ → Dict Link → Bool
is_open_link connection links = elim (lookup connection links) [
  | none ↦ false
  | some link ↦ not link.closed
]

-- `_mark_done` of a session that `handle_close`, `handle_ack` or `cancel` ends.
unfoldable pub close_session : ℕ → Registry → Registry
close_session session r = elim (lookup session r.sessions) [
  | none ↦ r
  | some talk ↦ record r { sessions = insert session (record talk { closed = true }) r.sessions }
]

-- The session is ended if it runs over the connection.
unfoldable pub close_session_on : ℕ → ℕ → Registry → Registry
unfolding close_session
close_session_on connection session r = elim (lookup session r.sessions) [
  | none ↦ r
  | some talk ↦ if talk.connection == connection then close_session session r else r
]

abbrev pub is_session_on : ℕ → ℕ → Dict Talk → Bool
is_session_on connection session sessions = elim (lookup session sessions) [
  | none ↦ false
  | some talk ↦ talk.connection == connection
]

-- The loop of `_hds_connection_closed` over the registered streams.
unfoldable pub drop_streams : ℕ → Dict ℕ → Registry → Registry
unfolding close_session
drop_streams connection [] r = r
drop_streams connection ((stream, session) ∷ streams) r =
    let closed = close_session session r in
    let dropped = record closed { siri_sessions = erase stream closed.siri_sessions } in
    drop_streams connection streams
      (if is_session_on connection session r.sessions then dropped else r)

-- The connection is forgotten, if it is still the one of the target that it named.
unfoldable pub forget_link : ℕ → Option ℤ → Registry → Registry
forget_link connection none r = r
forget_link connection (some target) r =
    let remote = r.remote in
    elim (lookup_id target remote.hds_connections) [
      | none ↦ r
      | some current ↦
          if current == connection
          then record r {
            remote = record remote { hds_connections = erase_id target remote.hds_connections };
          }
          else r
    ]

unfoldable pub close_active_on : ℕ → Registry → Registry
unfolding close_session_on
close_active_on connection r = elim r.active_session [
  | none ↦ r
  | some session ↦ close_session_on connection session r
]

-- `_hds_connection_closed`, which `HDSConnection.close` calls once.
unfoldable pub hds_connection_closed : ℕ → Option ℤ → Registry → Registry
unfolding forget_link close_active_on drop_streams
hds_connection_closed connection target r =
    let r' = close_active_on connection (forget_link connection target r) in
    drop_streams connection r'.siri_sessions r'

-- `HDSConnection.close`, as far as the remote sees it.
unfoldable pub close_link : ℕ → Registry → Registry
unfolding hds_connection_closed
close_link connection r = elim (lookup connection r.links) [
  | none ↦ r
  | some link ↦
      if link.closed
      then r
      else hds_connection_closed connection link.target_identifier
          (record r { links = insert connection (record link { closed = true }) r.links })
]

-- An accepted connection.
unfoldable pub add_link : ℕ → Registry → Registry
add_link connection r = if contains connection r.links then r else record r {
  links = insert connection (record { closed = false; target_identifier = none }) r.links;
}

-- `connection.target_identifier = identifier`, in `HDSServer._handle_message`
unfoldable pub name_link : ℕ → ℤ → Registry → Registry
name_link connection identifier r = elim (lookup connection r.links) [
  | none ↦ r
  | some link ↦ record r {
    links = insert connection (record link { target_identifier = some identifier }) r.links;
  }
]

-- `old is not connection and not old.closed`
unfoldable pub replace_link : ℕ → Option ℕ → Registry → Registry
unfolding close_link
replace_link connection none r = r
replace_link connection (some old) r = if old == connection then r else close_link old r

unfoldable pub keep_link : ℕ → ℕ → Registry → Registry
keep_link identifier connection r =
    let remote = r.remote in
    record r {
      remote = record remote {
        hds_connections = insert identifier connection remote.hds_connections;
      };
    }

-- `_hds_whoami`
unfoldable pub hds_whoami : ℤ → ℕ → Registry → Registry
unfolding close_link replace_link keep_link is_within
hds_whoami (negsuc n) connection r = close_link connection r
hds_whoami (pos identifier) connection r =
    let remote = r.remote in
    if identifier == 0 || not (contains identifier remote.targets)
    then close_link connection r
    else keep_link identifier connection
        (replace_link connection (lookup identifier remote.hds_connections) r)

-- The session that the Target Control handlers see.
unfoldable pub seen_session : Registry → Option SessionView
seen_session r = elim r.active_session [
  | none ↦ none
  | some session ↦ elim (lookup session r.sessions) [
    | none ↦ none
    | some talk ↦ some (record { target_identifier = talk.target_identifier; closed = talk.closed })
  ]
]

abbrev pub is_no_one : Option Client → Bool
is_no_one none = true
is_no_one (some client) = false

-- The new session, over an open connection.
unfoldable pub begin_session : ℕ → Registry → Registered ℕ
begin_session connection r =
    let remote = r.remote in
    (
      ok r.next_session,
      record r {
        sessions =
            insert r.next_session
              (record {
                connection = connection;
                target_identifier = remote.active_identifier;
                stream_id = none;
                closed = false;
              })
              r.sessions;
        active_session = some r.next_session;
        next_session = suc r.next_session;
      },
    )

-- The lock is released where `start_siri` raises.
unfoldable pub released : Error → Registry → Registered ℕ
released e r = (err e, record r { locked = false })

-- The checks of `start_siri` under the lock; `audio_error` is what the encoder's construction raises.
unfoldable pub check_start : Option Error → Registry → Registered ℕ
unfolding begin_session released
check_start audio_error r =
    let remote = r.remote in
    if remote.active_identifier == 0
    then released runtime_error r
    else if is_no_one remote.active_client
    then released runtime_error r
    else elim (lookup remote.active_identifier remote.hds_connections) [
      | none ↦ released runtime_error r
      | some connection ↦
          if not (is_open_link connection r.links)
          then released runtime_error r
          else if not r.siri_advertised
          then released runtime_error r
          else elim audio_error [ none ↦ begin_session connection r | some e ↦ released e r ]
    ]

module _ (env : Platform) where
  -- `if target is not None and int(target) != self.active_identifier: ...`
  unfoldable pub select_target : Option ℤ → Remote → Outcome (Unit {0})
  unfolding set_active_identifier int_eq
  select_target none m = (ok tt, m)
  select_target (some target) m =
      if int_eq target (pos m.active_identifier)
      then (ok tt, m)
      else set_active_identifier env target m

  unfoldable pub after_select : Option Error → Outcome (Unit {0}) → Registry → Registered ℕ
  unfolding check_start released
  after_select audio_error (err e, m) r = released e (record r { remote = m })
  after_select audio_error (ok x, m) r = check_start audio_error (record r { remote = m })

  -- `start_siri`; a lock that stays held for the whole wait is an error.
  unfoldable pub start_siri : Option Error → Option ℤ → Registry → Registered ℕ
  unfolding after_select select_target seen_session
  start_siri audio_error target r =
      if r.locked
      then (err runtime_error, r)
      else after_select audio_error
          (select_target target (record r.remote { active_session = seen_session r }))
          (record r { locked = true })

-- `self.stream_id = int(message["streamId"])`, in `SiriSession._open`
unfoldable pub set_stream : ℕ → ℤ → Registry → Registry
set_stream session stream r = elim (lookup session r.sessions) [
  | none ↦ r
  | some talk ↦ record r {
    sessions = insert session (record talk { stream_id = some stream }) r.sessions;
  }
]

abbrev pub stream_of : ℕ → Dict Talk → Option ℤ
stream_of session sessions = elim (lookup session sessions) [
  | none ↦ none
  | some talk ↦ talk.stream_id
]

-- Another session is registered under the stream.
abbrev pub is_reused : Option ℕ → ℕ → Bool
is_reused none session = false
is_reused (some existing) session = not (existing == session)

-- `_siri_session_opened`; `_open` has refused a negative stream before.
unfoldable pub siri_session_opened : ℕ → Registry → Registered (Unit {0})
siri_session_opened session r = elim (stream_of session r.sessions) [
  | none ↦ (err runtime_error, r)
  | some stream ↦
      if is_reused (lookup_id stream r.siri_sessions) session
      then (err runtime_error, r)
      else (ok tt, record r { siri_sessions = insert (to_ℕ stream) session r.siri_sessions })
]

abbrev pub is_mapped : Option ℤ → ℕ → Dict ℕ → Bool
is_mapped none session streams = false
is_mapped (some stream) session streams = elim (lookup_id stream streams) [
  | none ↦ false
  | some mapped ↦ mapped == session
]

abbrev pub erase_stream : Option ℤ → Dict ℕ → Dict ℕ
erase_stream none streams = streams
erase_stream (some stream) streams = erase_id stream streams

abbrev pub is_active_session : Option ℕ → ℕ → Bool
is_active_session none session = false
is_active_session (some active) session = active == session

-- The `finally` of `_watch_siri_session`, once the session is closed.
unfoldable pub watch_siri_session : ℕ → Registry → Registry
watch_siri_session session r =
    let stream = stream_of session r.sessions in
    let left =
      if is_mapped stream session r.siri_sessions
      then record r { siri_sessions = erase_stream stream r.siri_sessions }
      else r in
    if is_active_session r.active_session session
    then record left { active_session = none; locked = false }
    else left
