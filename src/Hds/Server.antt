-- ===== src/Hds/Server.antt =====
-- `HDSServer` of hds.py: the sessions that wait for their connection, and the connections.
use atv_homekit_remote.Prelude.{
  ℕ, suc, Bool, true, false, not, Option, none, some, List, [], ◌∷◌, ◌++◌, leb, ltb, ◌==◌,
  if◌then◌else◌, length, Bytes, Result, ok, err, value_error, runtime_error,
}
use atv_homekit_remote.Remote.State.{Client, client_eq}

abbrev pub max_prepared_sessions : ℕ
max_prepared_sessions = 16

-- `handle` is the object's identity.
pub record PreparedSession : Type 0 where
  pub handle : ℕ
  pub client_addr : Client
  pub accessory_to_controller_key : Bytes
  pub controller_to_accessory_key : Bytes
  pub accessory_salt : Bytes

-- An open connection, with the session that it was accepted for.
pub record Server : Type 0 where
  pub port : Option ℕ
  pub prepared : List PreparedSession
  pub connections : List PreparedSession
  pub next_handle : ℕ

-- HKDF-SHA512, for the read and the write key, and ChaCha20-Poly1305 with the first nonce, which
-- gives nothing on a wrong key.
pub record Crypto : Type 0 where
  pub read_key : (shared_secret salt : Bytes) → Bytes
  pub write_key : (shared_secret salt : Bytes) → Bytes
  pub decrypt : (key header encrypted : Bytes) → Option Bytes

-- `_remove_prepared`
unfoldable pub remove_prepared : PreparedSession → List PreparedSession → List PreparedSession
remove_prepared session [] = []
remove_prepared session (p ∷ ps) =
    if p.handle == session.handle then ps else p ∷ remove_prepared session ps

-- The loop over the sessions of a client. The first list is the copy that is looped over, the second
-- `self.prepared`.
unfoldable pub remove_pending :
    Client → List PreparedSession → List PreparedSession → List PreparedSession
unfolding client_eq remove_prepared
remove_pending client [] prepared = prepared
remove_pending client (pending ∷ rest) prepared =
    remove_pending client rest
      (if client_eq pending.client_addr client then remove_prepared pending prepared else prepared)

unfoldable pub expire_prepared : PreparedSession → Server → Server
unfolding remove_prepared
expire_prepared session s = record s { prepared = remove_prepared session s.prepared }

-- `close` of a connection that is open: its callback `_connection_closed` discards it and tells
-- `on_close`, whose calls are the second component.
unfoldable pub close_connection :
    PreparedSession → Server × List PreparedSession → Server × List PreparedSession
unfolding remove_prepared
close_connection connection (s, told) =
    (record s { connections = remove_prepared connection s.connections }, told ++ (connection ∷ []))

-- The loop over a copy of the connections.
unfoldable pub close_connections_of :
    Client → List PreparedSession → Server × List PreparedSession → Server × List PreparedSession
unfolding client_eq close_connection
close_connections_of client [] o = o
close_connections_of client (connection ∷ rest) o =
    close_connections_of client rest
      (if client_eq connection.client_addr client then close_connection connection o else o)

-- `close_for_client`, and the connections that `on_close` is told of.
unfoldable pub close_for_client : Client → Server → Server × List PreparedSession
unfolding remove_pending close_connections_of
close_for_client client s =
    close_connections_of client s.connections
      (record s { prepared = remove_pending client s.prepared s.prepared }, [])

abbrev pub remove_each : List PreparedSession → List PreparedSession → List PreparedSession
remove_each [] prepared = prepared
remove_each (pending ∷ rest) prepared = remove_each rest (remove_prepared pending prepared)

abbrev pub close_each :
    List PreparedSession → Server × List PreparedSession → Server × List PreparedSession
close_each [] o = o
close_each (connection ∷ rest) o = close_each rest (close_connection connection o)

unfoldable pub close_all : Server → Server × List PreparedSession
close_all s =
    close_each s.connections (record s { prepared = remove_each s.prepared s.prepared }, [])

module _ (crypto : Crypto) where
  -- The session for a salt that `os.urandom` gave.
  unfoldable pub new_prepared : Client → Bytes → Bytes → Bytes → ℕ → PreparedSession
  new_prepared client shared_secret controller_salt accessory_salt handle =
      let salt = controller_salt ++ accessory_salt in
      record {
        handle = handle;
        client_addr = client;
        accessory_to_controller_key = crypto.read_key shared_secret salt;
        controller_to_accessory_key = crypto.write_key shared_secret salt;
        accessory_salt = accessory_salt;
      }

  abbrev pub is_listening : Option ℕ → Bool
  is_listening none = false
  is_listening (some port) = true

  -- `prepare_session`; an exception comes after the client's older sessions were removed, or before.
  unfoldable pub prepare_session :
      Client → Bytes → Bytes → Bytes → Server → Result PreparedSession × Server
  unfolding remove_pending new_prepared
  prepare_session client shared_secret controller_salt accessory_salt s =
      let left = remove_pending client s.prepared s.prepared in
      let session =
        new_prepared client shared_secret controller_salt accessory_salt s.next_handle in
      if not (is_listening s.port)
      then (err runtime_error, s)
      else if ltb (length shared_secret) 32
      then (err value_error, s)
      else if not (length controller_salt == 32)
      then (err value_error, s)
      else if leb max_prepared_sessions (length left)
      then (err runtime_error, record s { prepared = left })
      else (
        ok session,
        record s { prepared = left ++ (session ∷ []); next_handle = suc s.next_handle },
      )

  -- The loop of `_accept` over the candidates.
  unfoldable pub find_session :
      Bytes → Bytes → List PreparedSession → Option (PreparedSession × Bytes)
  find_session header encrypted [] = none
  find_session header encrypted (p ∷ ps) =
      let rest = find_session header encrypted ps in
      elim (crypto.decrypt p.controller_to_accessory_key header encrypted) [
        | none ↦ rest
        | some payload ↦ some (p, payload)
      ]

  -- `_accept`, once the first frame was read.
  unfoldable pub accept : Bytes → Bytes → Server → Result Bytes × Server
  unfolding find_session remove_prepared
  accept header encrypted s = elim (find_session header encrypted s.prepared) [
    | none ↦ (err value_error, s)
    | some (found, payload) ↦ (
      ok payload,
      record s { prepared = remove_prepared found s.prepared; connections = found ∷ s.connections },
    )
  ]
