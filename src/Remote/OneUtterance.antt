-- ===== src/Remote/OneUtterance.antt =====
-- At most one utterance at a time: `start_siri`, the events of the Apple TV and every other operation
-- on the Siri sessions of remote.py.
use atv_homekit_remote.Prelude.{
  ℕ, ◌≡◌, refl, sym, ap, ◌∙◌, ◌⊎◌, inl, inr, Bool, true, false, not, Option, none, some, [], ◌==◌,
  ◌||◌, arith, either, either_ok, either_some, ok, err, Error, runtime_error,
}
use atv_homekit_remote.Prelude.Int.{ℤ}
use atv_homekit_remote.Prelude.Dict.{lookup}
use atv_homekit_remote.Utf8.{Text}
use atv_homekit_remote.HdsCodec.Value.{HdsValue, Fields, Formats, list_eq}
use atv_homekit_remote.Hds.Message.{Conversions, get_field}
use atv_homekit_remote.Remote.State.{Remote, Platform, Outcome}
use atv_homekit_remote.Remote.Sessions.{
  Talk, Registry, is_open_link, is_no_one, name_link, seen_session, begin_session, released,
  check_start, select_target, after_select, start_siri, set_stream, stream_of,
}
use atv_homekit_remote.Remote.Events.{
  is_closed_session, session_acknowledged, session_of, read_stream_id, is_set, session_closed,
  session_event, hds_event, recover_end, data_send_protocol, ack_topic, close_topic,
  end_of_stream_key, reason_key,
}
use atv_homekit_remote.Remote.Exclusive.{is_some, IsOpen, lookup-insert_inv}
use atv_homekit_remote.Remote.Utterances.{
  IsExclusive, new_registry, Step, handled, accepted, told_whoami, closed_link, started,
  opened_stream, ended_session, told_event, watched, recovering, recovered, Reachable, begun, after,
  Ends, name_link-IsExclusive, add_link-IsExclusive, hds_whoami-IsExclusive, close_link-IsExclusive,
  close_session-IsExclusive, recover_begin-IsExclusive, set_stream-IsExclusive,
  siri_session_opened-Ends,
}
use atv_homekit_remote.Remote.Watching.{watch_siri_session-IsExclusive}

-- The lock was just taken: nothing is active and no session runs.
record IsFree (r : Registry) : Type 0 where
  idle : r.active_session ≡ none
  silent : (s : ℕ) (t : Talk) → lookup s r.sessions ≡ some t → t.closed ≡ true

taken-IsFree :
    (m : Remote) (r : Registry)
    → IsExclusive r
    → r.locked ≡ false
    → IsFree (record r { locked = true; remote = m })
unfolding IsExclusive
taken-IsFree m r h free =
    let idle : r.active_session ≡ none = nobody r.active_session (sym free ∙ h.held) in
    record { idle = idle; silent = λ s t e. shut s t idle (h.alone s t e) }
  where
    nobody : (o : Option ℕ) → false ≡ is_some o → o ≡ none
    nobody none e = refl
    nobody (some a) e = cc

    shut :
        (s : ℕ) (t : Talk)
        → r.active_session ≡ none
        → (t.closed ≡ true) ⊎ (r.active_session ≡ some s)
        → t.closed ≡ true
    shut s t idle (inl e) = e
    shut s t idle (inr e) = absurd (ground (arith, idle, e))

released-Ends : (e : Error) (r : Registry) → IsFree r → Ends (released e r)
unfolding released IsExclusive
released-Ends e r h = record {
  held = rw h.idle refl;
  alone = λ s t found. inl (h.silent s t found);
  linked = λ s t found. inl (h.silent s t found);
}

begin_session-Ends :
    (c : ℕ) (r : Registry)
    → r.locked ≡ true
    → IsOpen r.links c
    → IsFree r
    → Ends (begin_session c r)
unfolding begin_session IsExclusive
begin_session-Ends c r locked on h =
    let remote = r.remote in
    let talk : Talk = record {
      connection = c;
      target_identifier = remote.active_identifier;
      stream_id = none;
      closed = false;
    } in
    record {
      held = locked;
      alone = λ j u found. elim (lookup-insert_inv r.next_session j talk u r.sessions found) [
        | inl hit ↦ inr (ap (λ (n : ℕ). some n) (sym hit.0))
        | inr miss ↦ inl (h.silent j u miss.1)
      ];
      linked = λ j u found. elim (lookup-insert_inv r.next_session j talk u r.sessions found) [
        | inl hit ↦ inr (rw (← hit.1) on)
        | inr miss ↦ inl (h.silent j u miss.1)
      ];
    }

check_start-Ends :
    (audio_error : Option Error) (r : Registry)
    → r.locked ≡ true
    → IsFree r
    → Ends (check_start audio_error r)
unfolding check_start
check_start-Ends audio_error r locked h =
    let remote = r.remote in
    let refused = released-Ends runtime_error r h in
    either (Ends {A = ℕ}) (remote.active_identifier == 0) (λ e. refused)
      (λ e.
        either (Ends {A = ℕ}) (is_no_one remote.active_client) (λ e. refused)
          (λ e.
            either_some (Ends {A = ℕ}) (lookup remote.active_identifier remote.hds_connections)
              (λ e. refused)
              (λ c e.
                either (Ends {A = ℕ}) (not (is_open_link c r.links)) (λ e'. refused)
                  (λ open_.
                    either (Ends {A = ℕ}) (not r.siri_advertised) (λ e'. refused)
                      (λ e'.
                        either_some (Ends {A = ℕ}) audio_error
                          (λ e''. begin_session-Ends c r locked (ground arith) h)
                          (λ x e''. released-Ends x r h))))))

after_select-Ends :
    (env : Platform) (audio_error : Option Error) (o : Outcome (Unit {0})) (r : Registry)
    → IsExclusive r
    → r.locked ≡ false
    → Ends (after_select env audio_error o (record r { locked = true }))
unfolding after_select
after_select-Ends env audio_error (err e, m) r h free = released-Ends e _ (taken-IsFree m r h free)
after_select-Ends env audio_error (ok x, m) r h free =
    check_start-Ends audio_error _ refl (taken-IsFree m r h free)

start_siri-Ends :
    (env : Platform) (audio_error : Option Error) (target : Option ℤ) (r : Registry)
    → IsExclusive r
    → Ends (start_siri env audio_error target r)
unfolding start_siri
start_siri-Ends env audio_error target r h =
    either (Ends {A = ℕ}) r.locked (λ e. h)
      (λ free.
        after_select-Ends env audio_error
          (select_target env target (record r.remote { active_session = seen_session r })) r h free)

session_acknowledged-Ends :
    (fault : Option Error) (eos : Bool) (s : ℕ) (r : Registry)
    → IsExclusive r
    → Ends (session_acknowledged fault eos s r)
unfolding session_acknowledged
session_acknowledged-Ends fault eos s r h =
    either (Ends {A = Unit {0}}) (is_closed_session s r.sessions || not eos) (λ e. h)
      (λ e.
        either_some (Ends {A = Unit {0}}) (stream_of s r.sessions) (λ e'. h)
          (λ stream e'. close_session-IsExclusive s r h))

module _ (fm : Formats) (cv : Conversions fm) (truthy : HdsValue fm.Float → Bool) where
  session_closed-Ends :
      (reason : Option (HdsValue fm.Float)) (s : ℕ) (r : Registry)
      → IsExclusive r
      → Ends (session_closed fm cv truthy reason s r)
  unfolding session_closed
  session_closed-Ends none s r h = close_session-IsExclusive s r h
  session_closed-Ends (some raw) s r h =
      either_ok (Ends {A = Unit {0}}) (cv.to_int raw) (λ x e. h)
        (λ z e. close_session-IsExclusive s r h)

  session_event-Ends :
      (fault : Option Error) (topic : Text) (message : Fields fm.Float) (o : Option ℕ)
      (r : Registry)
      → IsExclusive r
      → Ends (session_event fm cv truthy fault topic message o r)
  unfolding session_event
  session_event-Ends fault topic message none r h = h
  session_event-Ends fault topic message (some s) r h =
      either (Ends {A = Unit {0}}) (list_eq topic ack_topic)
        (λ e.
          session_acknowledged-Ends fault
            (is_set fm cv truthy (get_field fm end_of_stream_key message)) s r h)
        (λ e. session_closed-Ends (get_field fm reason_key message) s r h)

  hds_event-Ends :
      (fault : Option Error) (c : ℕ) (protocol topic : Text) (message : Fields fm.Float)
      (r : Registry)
      → IsExclusive r
      → Ends (hds_event fm cv truthy fault c protocol topic message r)
  unfolding hds_event
  hds_event-Ends fault c protocol topic message r h =
      either (Ends {A = Unit {0}})
        (not (list_eq protocol data_send_protocol)
          || not (list_eq topic ack_topic || list_eq topic close_topic))
        (λ e. h)
        (λ e.
          either_ok (Ends {A = Unit {0}}) (read_stream_id fm cv truthy message) (λ x e'. h)
            (λ stream e'. session_event-Ends fault topic message (session_of c stream r) r h))

Step-IsExclusive : {r s : Registry} → Step r s → IsExclusive r → IsExclusive s
unfolding recover_end IsExclusive
Step-IsExclusive (handled m r) h = h
Step-IsExclusive (accepted c r) h = add_link-IsExclusive c r h
Step-IsExclusive (told_whoami z c r) h =
    hds_whoami-IsExclusive z c (name_link c z r) (name_link-IsExclusive c z r h)
Step-IsExclusive (closed_link c r) h = close_link-IsExclusive c r h
Step-IsExclusive (started env audio_error target r) h = start_siri-Ends env audio_error target r h
Step-IsExclusive (opened_stream s z r) h =
    siri_session_opened-Ends s (set_stream s z r) (set_stream-IsExclusive s z r h)
Step-IsExclusive (ended_session s r) h = close_session-IsExclusive s r h
Step-IsExclusive (told_event fm cv truthy fault c protocol topic message r) h =
    hds_event-Ends fm cv truthy fault c protocol topic message r h
Step-IsExclusive (watched s r shut) h = watch_siri_session-IsExclusive s r shut h
Step-IsExclusive (recovering r) h = recover_begin-IsExclusive r h
Step-IsExclusive (recovered r) h = h

nothing_found : (s : ℕ) (t : Talk) → lookup s [] ≡ some t → ⊥
unfolding lookup
nothing_found s t e = absurd (ground arith)

Reachable-IsExclusive : {r : Registry} → Reachable r → IsExclusive r
unfolding new_registry IsExclusive
Reachable-IsExclusive (begun m) = record {
  held = refl;
  alone = λ s t e. absurd (nothing_found s t e);
  linked = λ s t e. absurd (nothing_found s t e);
}
Reachable-IsExclusive (after r st) = Step-IsExclusive st (Reachable-IsExclusive r)

-- In every reachable state of the registry, two sessions that are not closed are the same; the lock
-- is held while a session runs; and the connection of a session that runs is open.
pub one_utterance :
    {r : Registry}
    → Reachable r
    → (s s' : ℕ) (t t' : Talk) → lookup s r.sessions ≡ some t
    → lookup s' r.sessions ≡ some t'
    → t.closed ≡ false
    → t'.closed ≡ false
    → (s ≡ s') × (r.locked ≡ true) × (is_open_link t.connection r.links ≡ true)
unfolding IsExclusive
one_utterance {r} reached s s' t t' e e' runs runs' =
    let h = Reachable-IsExclusive reached in
    let first = is_active s t runs (h.alone s t e) in
    let second = is_active s' t' runs' (h.alone s' t' e') in
    let same : some s ≡ some s' = sym first ∙ second in
    (ground arith, h.held ∙ ap (λ (o : Option ℕ). is_some o) first, on_link t runs (h.linked s t e))
  where
    is_active :
        (j : ℕ) (u : Talk)
        → u.closed ≡ false
        → (u.closed ≡ true) ⊎ (r.active_session ≡ some j)
        → r.active_session ≡ some j
    is_active j u open_ (inl shut) = absurd (ground arith)
    is_active j u open_ (inr active) = active

    on_link :
        (u : Talk)
        → u.closed ≡ false
        → (u.closed ≡ true) ⊎ IsOpen r.links u.connection
        → IsOpen r.links u.connection
    on_link u open_ (inl shut) = absurd (ground arith)
    on_link u open_ (inr on) = on
