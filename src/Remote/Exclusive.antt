-- ===== src/Remote/Exclusive.antt =====
-- The registry of Siri sessions of remote.py, over all its operations in any order.
use atv_homekit_remote.Prelude.{
  ℕ, ◌≡◌, ◌≢◌, refl, sym, ap, ◌∙◌, ◌⊎◌, inl, inr, Bool, true, false, Option, none, some, [], ◌∷◌,
  ◌==◌, arith, either, either_some, Bool-cases,
}
use atv_homekit_remote.Prelude.Int.{ℤ}
use atv_homekit_remote.Prelude.Dict.{Dict, lookup, insert, lookup-insert}
use atv_homekit_remote.Hds.Connection.{lookup_id}
use atv_homekit_remote.Remote.Sessions.{
  Link, Talk, Registry, is_open_link, close_session, close_session_on, is_session_on, drop_streams,
  forget_link, close_active_on, hds_connection_closed,
}

abbrev pub is_some {ℓ} : {A : Type ℓ} → Option A → Bool
is_some none = false
is_some (some a) = true

-- The lock is held exactly while a session is active; a session that runs is the active one, and its
-- connection is as `Q` says.
pub record IsTidy (Q : ℕ → Type 0) (locked : Bool) (active : Option ℕ) (sessions : Dict Talk)
    : Type 0 where
  pub held : locked ≡ is_some active
  pub alone :
      (s : ℕ) (t : Talk) → lookup s sessions ≡ some t → (t.closed ≡ true) ⊎ (active ≡ some s)
  pub linked : (s : ℕ) (t : Talk) → lookup s sessions ≡ some t → (t.closed ≡ true) ⊎ Q t.connection

abbrev pub Tidy : (ℕ → Type 0) → Registry → Type 0
Tidy Q r = IsTidy Q r.locked r.active_session r.sessions

abbrev pub IsOpen : Dict Link → ℕ → Type 0
IsOpen links connection = is_open_link connection links ≡ true

pub lookup-insert_inv {ℓ} :
    {V : Type ℓ} (k j : ℕ) (v u : V) (d : Dict V)
    → lookup j (insert k v d) ≡ some u
    → ((j ≡ k) × (v ≡ u)) ⊎ ((j ≢ k) × (lookup j d ≡ some u))
lookup-insert_inv k j v u d e = elim (Bool-cases (j == k)) [
  | inl hit ↦ inl (ground arith, ground (arith, lookup-insert k j v d))
  | inr miss ↦ inr ((λ same. ground arith), ground (arith, lookup-insert k j v d))
]

pub weaken :
    (Q R : ℕ → Type 0) (locked : Bool) (active : Option ℕ) (sessions : Dict Talk)
    → ((c : ℕ) → Q c → R c)
    → IsTidy Q locked active sessions
    → IsTidy R locked active sessions
weaken Q R locked active sessions step h = record {
  held = h.held;
  alone = h.alone;
  linked =
      λ s t e. elim (h.linked s t e) [ inl shut ↦ inl shut | inr on ↦ inr (step t.connection on) ];
}

-- Only the active session has to be looked at.
narrow :
    (Q R : ℕ → Type 0) (locked : Bool) (active : Option ℕ) (sessions : Dict Talk)
    → ((s : ℕ) (t : Talk)
        → lookup s sessions ≡ some t
        → active ≡ some s
        → (t.closed ≡ true) ⊎ R t.connection)
    → IsTidy Q locked active sessions
    → IsTidy R locked active sessions
narrow Q R locked active sessions now h = record {
  held = h.held;
  alone = h.alone;
  linked = λ s t e. elim (h.alone s t e) [ inl shut ↦ inl shut | inr runs ↦ now s t e runs ];
}

closed_one :
    (Q : ℕ → Type 0) (locked : Bool) (active : Option ℕ) (sessions : Dict Talk) (s : ℕ)
    (talk : Talk)
    → IsTidy Q locked active sessions
    → IsTidy Q locked active (insert s (record talk { closed = true }) sessions)
closed_one Q locked active sessions s talk h = record {
  held = h.held;
  alone = λ j u e. elim (lookup-insert_inv s j (record talk { closed = true }) u sessions e) [
    | inl hit ↦ inl (ap (λ (t : Talk). t.closed) (sym hit.1))
    | inr miss ↦ h.alone j u miss.1
  ];
  linked = λ j u e. elim (lookup-insert_inv s j (record talk { closed = true }) u sessions e) [
    | inl hit ↦ inl (ap (λ (t : Talk). t.closed) (sym hit.1))
    | inr miss ↦ h.linked j u miss.1
  ];
}

module _ (Q : ℕ → Type 0) where
  pub close_session-Tidy : (s : ℕ) (r : Registry) → Tidy Q r → Tidy Q (close_session s r)
  unfolding close_session
  close_session-Tidy s r h =
      either_some (Tidy Q) (lookup s r.sessions) (λ e. h)
        (λ talk e. closed_one Q r.locked r.active_session r.sessions s talk h)

  drop_streams-Tidy :
      (c : ℕ) (streams : Dict ℕ) (r : Registry) → Tidy Q r → Tidy Q (drop_streams c streams r)
  unfolding drop_streams
  drop_streams-Tidy c [] r h = h
  drop_streams-Tidy c ((stream, s) ∷ streams) r h =
      drop_streams-Tidy c streams _
        (either (Tidy Q) (is_session_on c s r.sessions) (λ e. close_session-Tidy s r h) (λ e. h))

  forget_link-Tidy :
      (c : ℕ) (target : Option ℤ) (r : Registry) → Tidy Q r → Tidy Q (forget_link c target r)
  unfolding forget_link
  forget_link-Tidy c none r h = h
  forget_link-Tidy c (some target) r h =
      let remote = r.remote in
      either_some (Tidy Q) (lookup_id target remote.hds_connections) (λ e. h)
        (λ current e. either (Tidy Q) (current == c) (λ e'. h) (λ e'. h))

  -- The connection `c` is the one that closes.
  abbrev OrClosing : ℕ → ℕ → Type 0
  OrClosing c d = (d ≡ c) ⊎ Q d

  close_session_on-Tidy :
      (c s : ℕ) (r : Registry)
      → r.active_session ≡ some s
      → Tidy (OrClosing c) r
      → Tidy Q (close_session_on c s r)
  unfolding close_session_on close_session
  close_session_on-Tidy c s r runs h =
      either_some (Tidy Q) (lookup s r.sessions)
        (λ e.
          narrow (OrClosing c) Q r.locked r.active_session r.sessions
            (λ j u found active. absurd (no_session j u e found (sym active ∙ runs))) h)
        (λ talk e.
          either (Tidy Q) (talk.connection == c)
            (λ on.
              rw (e, close_session)
                (narrow (OrClosing c) Q r.locked r.active_session
                  (insert s (record talk { closed = true }) r.sessions)
                  (λ j u found active. shut_now j u talk found (sym active ∙ runs))
                  (closed_one (OrClosing c) r.locked r.active_session r.sessions s talk h)))
            (λ off.
              narrow (OrClosing c) Q r.locked r.active_session r.sessions
                (λ j u found active.
                  elsewhere j u talk e found (sym active ∙ runs) off (h.linked j u found))
                h))
    where
      no_session :
          (j : ℕ) (u : Talk)
          → lookup s r.sessions ≡ none
          → lookup j r.sessions ≡ some u
          → some j ≡ some s
          → ⊥
      no_session j u e found same =
          let at_s : j ≡ s = ground arith in
          absurd (ground (arith, at_s, ap (λ k. lookup k r.sessions) at_s))

      shut_now :
          (j : ℕ) (u talk : Talk)
          → lookup j (insert s (record talk { closed = true }) r.sessions) ≡ some u
          → some j ≡ some s
          → (u.closed ≡ true) ⊎ Q u.connection
      shut_now j u talk found same =
          elim (lookup-insert_inv s j (record talk { closed = true }) u r.sessions found) [
            | inl hit ↦ inl (ap (λ (t : Talk). t.closed) (sym hit.1))
            | inr miss ↦ absurd (miss.0 (ground arith))
          ]

      elsewhere :
          (j : ℕ) (u talk : Talk)
          → lookup s r.sessions ≡ some talk
          → lookup j r.sessions ≡ some u
          → some j ≡ some s
          → (talk.connection == c) ≡ false
          → (u.closed ≡ true) ⊎ OrClosing c u.connection
          → (u.closed ≡ true) ⊎ Q u.connection
      elsewhere j u talk e found same off (inl shut) = inl shut
      elsewhere j u talk e found same off (inr (inr on)) = inr on
      elsewhere j u talk e found same off (inr (inl here)) =
          let at_s : j ≡ s = ground arith in
          let is_talk : talk ≡ u = ground (arith, ap (λ k. lookup k r.sessions) at_s) in
          absurd (ground (arith, ap (λ (t : Talk). t.connection) is_talk))

  -- With no active session every session is closed.
  none_active :
      (c : ℕ) (locked : Bool) (sessions : Dict Talk) (active : Option ℕ)
      → active ≡ none
      → IsTidy (OrClosing c) locked active sessions
      → IsTidy Q locked active sessions
  none_active c locked sessions active e h =
      narrow (OrClosing c) Q locked active sessions (λ j u found runs. absurd (ground arith)) h

  close_active_on-Tidy :
      (c : ℕ) (r : Registry) → Tidy (OrClosing c) r → Tidy Q (close_active_on c r)
  unfolding close_active_on
  close_active_on-Tidy c r h =
      either_some (Tidy Q) r.active_session
        (λ e. none_active c r.locked r.sessions r.active_session e h)
        (λ s e. close_session_on-Tidy c s r e h)

-- The connection's end reaches the session that runs over it.
pub hds_connection_closed-Tidy :
    (Q : ℕ → Type 0) (c : ℕ) (target : Option ℤ) (r : Registry)
    → Tidy (λ d. (d ≡ c) ⊎ Q d) r
    → Tidy Q (hds_connection_closed c target r)
unfolding hds_connection_closed
hds_connection_closed-Tidy Q c target r h =
    let r' = close_active_on c (forget_link c target r) in
    drop_streams-Tidy Q c r'.siri_sessions r' (
      close_active_on-Tidy Q c (forget_link c target r)
        (forget_link-Tidy (λ d. (d ≡ c) ⊎ Q d) c target r h))

-- What closes a session leaves the connections alone.
module _ (L : Dict Link) where
  abbrev HasLinks : Registry → Type 0
  HasLinks r = r.links ≡ L

  pub close_session-HasLinks : (s : ℕ) (r : Registry) → HasLinks r → HasLinks (close_session s r)
  unfolding close_session
  close_session-HasLinks s r h = either_some HasLinks (lookup s r.sessions) (λ e. h) (λ t e. h)

  drop_streams-HasLinks :
      (c : ℕ) (streams : Dict ℕ) (r : Registry) → HasLinks r → HasLinks (drop_streams c streams r)
  unfolding drop_streams
  drop_streams-HasLinks c [] r h = h
  drop_streams-HasLinks c ((stream, s) ∷ streams) r h =
      drop_streams-HasLinks c streams _ (
        either HasLinks (is_session_on c s r.sessions) (λ e. close_session-HasLinks s r h) (λ e. h))

  forget_link-HasLinks :
      (c : ℕ) (target : Option ℤ) (r : Registry) → HasLinks r → HasLinks (forget_link c target r)
  unfolding forget_link
  forget_link-HasLinks c none r h = h
  forget_link-HasLinks c (some target) r h =
      let remote = r.remote in
      either_some HasLinks (lookup_id target remote.hds_connections) (λ e. h)
        (λ current e. either HasLinks (current == c) (λ e'. h) (λ e'. h))

  close_active_on-HasLinks : (c : ℕ) (r : Registry) → HasLinks r → HasLinks (close_active_on c r)
  unfolding close_active_on close_session_on
  close_active_on-HasLinks c r h =
      either_some HasLinks r.active_session (λ e. h)
        (λ s e.
          either_some HasLinks (lookup s r.sessions) (λ e'. h)
            (λ t e'.
              either HasLinks (t.connection == c) (λ on. close_session-HasLinks s r h) (λ off. h)))

pub hds_connection_closed-links :
    (c : ℕ) (target : Option ℤ) (r : Registry) → (hds_connection_closed c target r).links ≡ r.links
unfolding hds_connection_closed
hds_connection_closed-links c target r =
    let r' = close_active_on c (forget_link c target r) in
    drop_streams-HasLinks r.links c r'.siri_sessions r' (
      close_active_on-HasLinks r.links c (forget_link c target r)
        (forget_link-HasLinks r.links c target r refl))
