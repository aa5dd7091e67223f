-- ===== src/Remote/SetUp.antt =====
-- What `hap_setup_hds_write` of remote.py has done when it returns.
use atv_homekit_remote.Prelude.{
  suc, ◌≡◌, refl, sym, ap, ◌≤◌, ◌<◌, inl, inr, Bool, true, false, not, Option, none, some, [], ◌∷◌,
  ◌++◌, ◌==◌, if◌then◌else◌, arith, leb, ltb, length, Bytes, Result, ok, err, Error, value_error,
  runtime_error, ◌>>=◌, >>=-eq-ok, Bool-cases,
}
use atv_homekit_remote.Utf8.{Text}
use atv_homekit_remote.Tlv8.{decode}
use atv_homekit_remote.Hds.Server.{
  PreparedSession, Server, Crypto, new_prepared, prepare_session, remove_pending, is_listening,
  max_prepared_sessions,
}
use atv_homekit_remote.Hds.Waiting.{without_client_of, remove_pending-eq-without_client_of}
use atv_homekit_remote.Hds.Pending.{IsSettled, AreApart-AreDistinct}
use atv_homekit_remote.Remote.State.{Client, Remote, Platform}
use atv_homekit_remote.Remote.Media.{
  Media, check_setup, after_prepare, hap_setup_hds_write, setup_reply, bytes_entry, port_or_0,
}
use atv_homekit_remote.Remote.SetupReply.{reply_items, ok_inj, reply-decode}
use atv_homekit_remote.Remote.Accepts.{IsSetup, check_setup-IsSetup}

-- The client's request was a set up, its Pair Verify secret is known, and the server waits for it
-- with keys that are derived from the secret and both salts, as the last and its only session.
pub record IsPrepared (env : Platform) (crypto : Crypto) (secret_for : Client → Option Bytes)
    (accessory_salt : Bytes) (value : Text) (r : Remote) (s s' : Server) (text : Text)
    (client : Client) : Type 0 where
  pub raw : Bytes
  pub controller_salt : Bytes
  pub secret : Bytes
  pub reply : Bytes
  pub started : r.started ≡ true
  pub decoded : env.b64decode value ≡ ok raw
  pub asked : IsSetup raw controller_salt
  pub known : (secret_for client ≡ some secret) × (32 ≤ length secret)
  pub room : length (without_client_of client s.prepared) < max_prepared_sessions
  pub waiting :
      s'.prepared
      ≡ without_client_of client s.prepared
        ++ (new_prepared crypto client secret controller_salt accessory_salt s.next_handle ∷ [])
  pub connections : s'.connections ≡ s.connections
  pub written : text ≡ env.b64encode reply
  pub answered : decode reply ≡ ok (reply_items (port_or_0 env s.port) accessory_salt)

past_guard :
    {A B : Type 0} (b : Bool) (x : Error) (t : B) (rest : Result A × B) (a : A) (u : B)
    → (if b then (err x, t) else rest) ≡ (ok a, u)
    → (b ≡ false) × (rest ≡ (ok a, u))
past_guard true x t rest a u h = cc
past_guard false x t rest a u h = (refl, h)

module _ (env : Platform) (crypto : Crypto) where
  -- A session was prepared: the tests of its secret and the limit let it pass.
  prepare_session-eq-ok :
      (client : Client) (secret controller_salt accessory_salt : Bytes) (s : Server)
      (p : PreparedSession) (s' : Server)
      → IsSettled s
      → prepare_session crypto client secret controller_salt accessory_salt s ≡ (ok p, s')
      → let session =
          new_prepared crypto client secret controller_salt accessory_salt s.next_handle in
        let left = without_client_of client s.prepared in
        (32 ≤ length secret)
        × (length left < max_prepared_sessions)
        × (p ≡ session)
        × (s' ≡ record s { prepared = left ++ (session ∷ []); next_handle = suc s.next_handle })
  unfolding prepare_session IsSettled
  prepare_session-eq-ok client secret controller_salt accessory_salt s p s' h e =
      let same =
        remove_pending-eq-without_client_of client s.prepared
          (AreApart-AreDistinct s.prepared h.apart) in
      let left = remove_pending client s.prepared s.prepared in
      let (listening, e0) = past_guard (not (is_listening crypto s.port)) _ _ _ p s' e in
      let (long, e1) = past_guard (ltb (length secret) 32) _ _ _ p s' e0 in
      let (sized, e2) = past_guard (not (length controller_salt == 32)) _ _ _ p s' e1 in
      let (room, e3) = past_guard (leb max_prepared_sessions (length left)) _ _ _ p s' e2 in
      let few : length left < max_prepared_sessions = ground arith in
      let kept = rw same at (ap (λ o. o.1) e3) in
      (ground arith, rw same at few, sym (ok_inj (ap (λ o. o.0) e3)), sym kept)

  -- The reply was written after a session was prepared.
  after_prepare-eq-ok :
      (o : Result PreparedSession × Server) (m : Media) (text : Text)
      → (after_prepare env o m).0 ≡ ok text
      → (p : PreparedSession) × (stripped : Bytes) × (tail : Bytes) × (o.0 ≡ ok p)
        × ((after_prepare env o m).1 ≡ o.1)
        × (setup_reply (port_or_0 env o.1.port) ≡ ok stripped)
        × (bytes_entry 0x03 p.accessory_salt ≡ ok tail)
        × (text ≡ env.b64encode (stripped ++ tail))
  unfolding after_prepare
  after_prepare-eq-ok (err x, s) m text e = cc
  after_prepare-eq-ok (ok p, s) m text e = replied (setup_reply (port_or_0 env s.port)) refl e
    where
      replied :
          (o : Result Bytes)
          → setup_reply (port_or_0 env s.port) ≡ o
          → let w : Result Text × Server × Media = elim o [
            | err x ↦ (err x, s, m)
            | ok stripped ↦ (
              bytes_entry 0x03 p.accessory_salt >>= λ salt. ok (env.b64encode (stripped ++ salt)),
              s,
              record m { last_hds_setup = env.b64encode stripped },
            )
          ] in
            w.0 ≡ ok text
            → (q : PreparedSession) × (stripped : Bytes) × (tail : Bytes) × (Path
                (Result PreparedSession)
                (ok p)
                (ok q))
              × (w.1 ≡ s)
              × (setup_reply (port_or_0 env s.port) ≡ ok stripped)
              × (bytes_entry 0x03 q.accessory_salt ≡ ok tail)
              × (text ≡ env.b64encode (stripped ++ tail))
      replied (err x) d h = cc
      replied (ok stripped) d h =
          let (tail, t, last) = >>=-eq-ok (bytes_entry 0x03 p.accessory_salt) _ h in
          (p, stripped, tail, refl, refl, d, t, sym (ok_inj last))

  module _ (secret_for : Client → Option Bytes) (accessory_salt : Bytes) where
    -- The last call of the handler, and what its tests have found.
    asked :
        (value : Text) (client : Client) (r : Remote) (s : Server) (m : Media) (text : Text)
        → (hap_setup_hds_write env crypto secret_for accessory_salt value (some client) r s m).0
          ≡ ok text
        → (controller_salt : Bytes) × (secret : Bytes) × (env.b64decode value >>= check_setup
            ≡ ok controller_salt)
          × (r.started ≡ true)
          × (secret_for client ≡ some secret)
          × (hap_setup_hds_write env crypto secret_for accessory_salt value (some client) r s m
              ≡ after_prepare env
                  (prepare_session crypto client secret controller_salt accessory_salt s)
                  m)
    unfolding hap_setup_hds_write
    asked value client r s m text e = requested (env.b64decode value >>= check_setup) refl e
      where
        Call : Bytes → Bytes → Result Text × Server × Media
        Call secret salt =
            after_prepare env (prepare_session crypto client secret salt accessory_salt s) m

        secret_known :
            (salt : Bytes) (o : Option Bytes)
            → secret_for client ≡ o
            → let w : Result Text × Server × Media = elim o [
              | none ↦ (err runtime_error, s, m)
              | some secret ↦
                  if length secret == 0
                  then (err runtime_error, s, m)
                  else after_prepare env
                      (prepare_session crypto client secret salt accessory_salt s)
                      m
            ] in
              w.0 ≡ ok text
              → (secret : Bytes) × (secret_for client ≡ some secret) × (w ≡ Call secret salt)
        secret_known salt none p h = cc
        secret_known salt (some secret) p h = elim (Bool-cases (length secret == 0)) [
          | inl empty ↦ absurd (refused (rw empty at h))
          | inr full ↦ (secret, p, rw full refl)
        ]
          where
            refused : Path (Result Text) (err runtime_error) (ok text) → ⊥
            refused h = cc

        begun :
            (salt : Bytes) (b : Bool)
            → r.started ≡ b
            → let w : Result Text × Server × Media =
                if not b then (err runtime_error, s, m) else elim (secret_for client) [
                  | none ↦ (err runtime_error, s, m)
                  | some secret ↦
                      if length secret == 0
                      then (err runtime_error, s, m)
                      else after_prepare env
                          (prepare_session crypto client secret salt accessory_salt s)
                          m
                ] in
              w.0 ≡ ok text
              → (secret : Bytes) × (r.started ≡ true)
                × (secret_for client ≡ some secret)
                × (w ≡ Call secret salt)
        begun salt false p h = cc
        begun salt true p h =
            let (secret, known, same) = secret_known salt (secret_for client) refl h in
            (secret, p, known, same)

        requested :
            (o : Result Bytes)
            → env.b64decode value >>= check_setup ≡ o
            → let w : Result Text × Server × Media = elim o [
              | err x ↦ (err x, s, m)
              | ok salt ↦
                  if not r.started then (err runtime_error, s, m) else elim (secret_for client) [
                    | none ↦ (err runtime_error, s, m)
                    | some secret ↦
                        if length secret == 0
                        then (err runtime_error, s, m)
                        else after_prepare env
                            (prepare_session crypto client secret salt accessory_salt s)
                            m
                  ]
            ] in
              w.0 ≡ ok text
              → (salt : Bytes) × (secret : Bytes) × (env.b64decode value >>= check_setup ≡ ok salt)
                × (r.started ≡ true)
                × (secret_for client ≡ some secret)
                × (w ≡ Call secret salt)
        requested (err x) p h = cc
        requested (ok salt) p h =
            let (secret, started, known, same) = begun salt r.started refl h in
            (salt, secret, p, started, known, same)

    -- If the waiting sessions are in order and `hap_setup_hds_write` returns: a client of a HAP
    -- connection has written the base64 text of a set up with a salt of 32 bytes, on a started
    -- accessory, and HAP-python knows its secret of 32 bytes or more. The server then waits for one
    -- session of that client, with the keys that are derived from the secret and both salts, behind
    -- the sessions of the other clients, and for at most 16 in all; its connections are the same. The
    -- text that is returned decodes to the status 0, the server's port and the accessory's salt.
    pub hap_setup_hds_write-IsPrepared :
        (value : Text) (client : Option Client) (r : Remote) (s : Server) (m : Media) (text : Text)
        → IsSettled s
        → (hap_setup_hds_write env crypto secret_for accessory_salt value client r s m).0 ≡ ok text
        → (c : Client) × (client ≡ some c)
          × IsPrepared env crypto secret_for accessory_salt value r s
              (hap_setup_hds_write env crypto secret_for accessory_salt value client r s m).1
              text
              c
    unfolding new_prepared
    hap_setup_hds_write-IsPrepared value none r s m text settled e =
        absurd (unfold hap_setup_hds_write in no_client e)
      where
        no_client : Path (Result Text) (err value_error) (ok text) → ⊥
        no_client h = cc
    hap_setup_hds_write-IsPrepared value (some client) r s m text settled e =
        let (salt, secret, checked, started, known, call_) = asked value client r s m text e in
        let prepared = prepare_session crypto client secret salt accessory_salt s in
        let returned = rw call_ at e in
        let (p, stripped, tail, made, after, status, entry, written) =
          after_prepare-eq-ok prepared m text returned in
        let (long, room, same, left) =
          prepare_session-eq-ok client secret salt accessory_salt s p prepared.1 settled
            (ap (λ x. (x, prepared.1)) made) in
        let (raw, decoded, setup) = >>=-eq-ok (env.b64decode value) check_setup checked in
        (
          client,
          refl,
          rw (call_, after, left)
              (record {
                raw = raw;
                controller_salt = salt;
                secret = secret;
                reply = stripped ++ tail;
                started = started;
                decoded = decoded;
                asked = check_setup-IsSetup raw salt setup;
                known = (known, long);
                room = room;
                waiting = refl;
                connections = refl;
                written = written;
                answered =
                    reply-decode (port_or_0 env s.port) accessory_salt stripped tail
                      (rw left at status) (rw same at entry);
              }),
        )
