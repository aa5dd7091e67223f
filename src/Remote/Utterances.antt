-- ===== src/Remote/Utterances.antt =====
-- The Siri sessions of remote.py: their registry's operations as steps, in any order.
use atv_homekit_remote.Prelude.{
  ℕ, ◌≡◌, refl, ap, ◌⊎◌, inl, inr, Bool, true, false, not, Option, none, some, [], ◌∷◌, ◌==◌, ◌||◌,
  arith, either, either_some, Bool-cases, Error,
}
use atv_homekit_remote.Prelude.Int.{ℤ, pos, negsuc}
use atv_homekit_remote.Prelude.Dict.{Dict, lookup, contains, insert, lookup-insert}
use atv_homekit_remote.Utf8.{Text}
use atv_homekit_remote.HdsCodec.Value.{HdsValue, Fields, Formats}
use atv_homekit_remote.Hds.Message.{Conversions}
use atv_homekit_remote.Hds.Connection.{lookup_id}
use atv_homekit_remote.Remote.State.{Remote, Platform}
use atv_homekit_remote.Remote.Sessions.{
  Link, Registry, Registered, close_session, hds_connection_closed, close_link, add_link, name_link,
  replace_link, keep_link, hds_whoami, start_siri, set_stream, stream_of, is_reused,
  siri_session_opened, watch_siri_session,
}
use atv_homekit_remote.Remote.Events.{
  is_closed_session, hds_event, close_links, recover_begin, recover_end,
}
use atv_homekit_remote.Remote.Exclusive.{
  Tidy, IsOpen, lookup-insert_inv, weaken, close_session-Tidy, hds_connection_closed-Tidy,
  hds_connection_closed-links, close_session-HasLinks,
}

-- The lock is held exactly while a session is active; every session that runs is the active one, and
-- its connection is open.
unfoldable pub IsExclusive : Registry → Type 0
IsExclusive r = Tidy (IsOpen r.links) r

-- A registry with nothing on it.
unfoldable pub new_registry : Remote → Registry
new_registry m = record {
  remote = m;
  siri_advertised = true;
  links = [];
  sessions = [];
  siri_sessions = [];
  active_session = none;
  locked = false;
  next_session = 0;
}

-- `handled` is any change that a HomeKit handler makes to the targets; what it closes is a step of
-- its own.
pub data Step : Registry → Registry → Type 1 where
  handled : (m : Remote) (r : Registry) → Step r (record r { remote = m })
  accepted : (connection : ℕ) (r : Registry) → Step r (add_link connection r)
  told_whoami :
      (identifier : ℤ) (connection : ℕ) (r : Registry)
      → Step r (hds_whoami identifier connection (name_link connection identifier r))
  closed_link : (connection : ℕ) (r : Registry) → Step r (close_link connection r)
  started :
      (env : Platform) (audio_error : Option Error) (target : Option ℤ) (r : Registry)
      → Step r (start_siri env audio_error target r).1
  opened_stream :
      (session : ℕ) (stream : ℤ) (r : Registry)
      → Step r (siri_session_opened session (set_stream session stream r)).1
  ended_session : (session : ℕ) (r : Registry) → Step r (close_session session r)
  told_event :
      (fm : Formats) (cv : Conversions fm) (truthy : HdsValue fm.Float → Bool)
      (fault : Option Error) (connection : ℕ) (protocol topic : Text) (message : Fields fm.Float)
      (r : Registry)
      → Step r (hds_event fm cv truthy fault connection protocol topic message r).1
  watched :
      (session : ℕ) (r : Registry)
      → is_closed_session session r.sessions ≡ true
      → Step r (watch_siri_session session r)
  recovering : (r : Registry) → Step r (recover_begin r)
  recovered : (r : Registry) → Step r (recover_end r)

pub data Reachable : Registry → Type 1 where
  begun : (m : Remote) → Reachable (new_registry m)
  after : {r s : Registry} → Reachable r → Step r s → Reachable s

IsOpen-insert_closed :
    (c d : ℕ) (link : Link) (links : Dict Link)
    → IsOpen links d
    → (d ≡ c) ⊎ IsOpen (insert c (record link { closed = true }) links) d
IsOpen-insert_closed c d link links h = elim (Bool-cases (d == c)) [
  | inl same ↦ inl (ground arith)
  | inr other ↦ inr (ground (arith, lookup-insert c d (record link { closed = true }) links))
]

-- An update of a connection that leaves it as open as it was.
IsOpen-insert_same :
    (c d : ℕ) (link new : Link) (links : Dict Link)
    → lookup c links ≡ some link
    → new.closed ≡ link.closed
    → IsOpen links d
    → IsOpen (insert c new links) d
IsOpen-insert_same c d link new links e same h = elim (Bool-cases (d == c)) [
  | inl hit ↦
      let at_c : d ≡ c = ground arith in
      ground (arith, lookup-insert c d new links, ap (λ k. lookup k links) at_c)
  | inr miss ↦ ground (arith, lookup-insert c d new links)
]

IsOpen-insert_new :
    (c d : ℕ) (new : Link) (links : Dict Link)
    → new.closed ≡ false
    → IsOpen links d
    → IsOpen (insert c new links) d
IsOpen-insert_new c d new links e h = ground (arith, lookup-insert c d new links)

pub close_link-IsExclusive : (c : ℕ) (r : Registry) → IsExclusive r → IsExclusive (close_link c r)
unfolding IsExclusive close_link
close_link-IsExclusive c r h =
    either_some IsExclusive (lookup c r.links) (λ e. h)
      (λ link e. either IsExclusive link.closed (λ shut. h) (λ runs. gone link))
  where
    gone :
        (link : Link)
        → IsExclusive (
            hds_connection_closed c link.target_identifier
              (record r { links = insert c (record link { closed = true }) r.links }))
    gone link =
        let links = insert c (record link { closed = true }) r.links in
        rw (hds_connection_closed-links c link.target_identifier (record r { links = links })) (
          hds_connection_closed-Tidy (IsOpen links) c link.target_identifier
            (record r { links = links })
            (weaken (IsOpen r.links) (λ d. (d ≡ c) ⊎ IsOpen links d) r.locked r.active_session
              r.sessions (λ d. IsOpen-insert_closed c d link r.links) h))

pub name_link-IsExclusive :
    (c : ℕ) (z : ℤ) (r : Registry) → IsExclusive r → IsExclusive (name_link c z r)
unfolding IsExclusive name_link
name_link-IsExclusive c z r h =
    either_some IsExclusive (lookup c r.links) (λ e. h)
      (λ link e.
        weaken (IsOpen r.links) _ r.locked r.active_session r.sessions
          (λ d.
            IsOpen-insert_same c d link (record link { target_identifier = some z }) r.links e refl)
          h)

pub add_link-IsExclusive : (c : ℕ) (r : Registry) → IsExclusive r → IsExclusive (add_link c r)
unfolding IsExclusive add_link
add_link-IsExclusive c r h =
    either IsExclusive (contains c r.links) (λ e. h)
      (λ e.
        weaken (IsOpen r.links) _ r.locked r.active_session r.sessions
          (λ d.
            IsOpen-insert_new c d (record { closed = false; target_identifier = none }) r.links
              refl)
          h)

keep_link-IsExclusive : (i c : ℕ) (r : Registry) → IsExclusive r → IsExclusive (keep_link i c r)
unfolding IsExclusive keep_link
keep_link-IsExclusive i c r h = h

replace_link-IsExclusive :
    (c : ℕ) (old : Option ℕ) (r : Registry) → IsExclusive r → IsExclusive (replace_link c old r)
unfolding replace_link
replace_link-IsExclusive c none r h = h
replace_link-IsExclusive c (some old) r h =
    either IsExclusive (old == c) (λ e. h) (λ e. close_link-IsExclusive old r h)

pub hds_whoami-IsExclusive :
    (z : ℤ) (c : ℕ) (r : Registry) → IsExclusive r → IsExclusive (hds_whoami z c r)
unfolding hds_whoami
hds_whoami-IsExclusive (negsuc n) c r h = close_link-IsExclusive c r h
hds_whoami-IsExclusive (pos i) c r h =
    let remote = r.remote in
    either IsExclusive (i == 0 || not (contains i remote.targets))
      (λ e. close_link-IsExclusive c r h)
      (λ e.
        keep_link-IsExclusive i c (replace_link c (lookup i remote.hds_connections) r)
          (replace_link-IsExclusive c (lookup i remote.hds_connections) r h))

pub close_session-IsExclusive :
    (s : ℕ) (r : Registry) → IsExclusive r → IsExclusive (close_session s r)
unfolding IsExclusive
close_session-IsExclusive s r h =
    rw (close_session-HasLinks r.links s r refl) (close_session-Tidy (IsOpen r.links) s r h)

close_links-IsExclusive :
    (links : Dict Link) (r : Registry) → IsExclusive r → IsExclusive (close_links links r)
unfolding close_links
close_links-IsExclusive [] r h = h
close_links-IsExclusive ((c, link) ∷ links) r h =
    close_links-IsExclusive links (close_link c r) (close_link-IsExclusive c r h)

pub recover_begin-IsExclusive : (r : Registry) → IsExclusive r → IsExclusive (recover_begin r)
unfolding recover_begin IsExclusive
recover_begin-IsExclusive r h = close_links-IsExclusive r.links r h

pub set_stream-IsExclusive :
    (s : ℕ) (z : ℤ) (r : Registry) → IsExclusive r → IsExclusive (set_stream s z r)
unfolding IsExclusive set_stream
set_stream-IsExclusive s z r h =
    either_some IsExclusive (lookup s r.sessions) (λ e. h)
      (λ talk e. record {
        held = h.held;
        alone = λ j u found.
            elim (lookup-insert_inv s j (record talk { stream_id = some z }) u r.sessions found) [
              | inl hit ↦ rw (hit.0, ← hit.1) (h.alone s talk e)
              | inr miss ↦ h.alone j u miss.1
            ];
        linked = λ j u found.
            elim (lookup-insert_inv s j (record talk { stream_id = some z }) u r.sessions found) [
              | inl hit ↦ rw (← hit.1) (h.linked s talk e)
              | inr miss ↦ h.linked j u miss.1
            ];
      })

abbrev pub Ends {ℓ} : {A : Type ℓ} → Registered A → Type 0
Ends o = IsExclusive o.1

pub siri_session_opened-Ends :
    (s : ℕ) (r : Registry) → IsExclusive r → Ends (siri_session_opened s r)
unfolding siri_session_opened IsExclusive
siri_session_opened-Ends s r h =
    either_some (Ends {A = Unit {0}}) (stream_of s r.sessions) (λ e. h)
      (λ stream e.
        either (Ends {A = Unit {0}}) (is_reused (lookup_id stream r.siri_sessions) s) (λ e'. h)
          (λ e'. h))
