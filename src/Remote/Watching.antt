-- ===== src/Remote/Watching.antt =====
-- The watcher of a Siri session of remote.py releases the lock of the session that was active.
use atv_homekit_remote.Prelude.{
  ℕ, ◌≡◌, refl, ap, ◌⊎◌, inl, inr, true, false, none, some, arith, either,
}
use atv_homekit_remote.Prelude.Dict.{Dict, lookup}
use atv_homekit_remote.Remote.Sessions.{
  Talk, Registry, stream_of, is_mapped, is_active_session, watch_siri_session,
}
use atv_homekit_remote.Remote.Events.{is_closed_session}
use atv_homekit_remote.Remote.Utterances.{IsExclusive}

closed_is_closed :
    (s j : ℕ) (u : Talk) (sessions : Dict Talk)
    → is_closed_session s sessions ≡ true
    → lookup j sessions ≡ some u
    → some s ≡ some j
    → u.closed ≡ true
closed_is_closed s j u sessions e found same =
    let at_s : j ≡ s = ground arith in ground (arith, ap (λ k. lookup k sessions) at_s)

fewer_streams :
    (r : Registry) (streams : Dict ℕ)
    → IsExclusive r
    → IsExclusive (record r { siri_sessions = streams })
unfolding IsExclusive
fewer_streams r streams h = h

release :
    (s : ℕ) (r : Registry)
    → is_closed_session s r.sessions ≡ true
    → is_active_session r.active_session s ≡ true
    → IsExclusive r
    → IsExclusive (record r { active_session = none; locked = false })
unfolding IsExclusive
release s r shut runs h = record {
  held = refl;
  alone = λ j u found. inl (is_shut j u found (h.alone j u found));
  linked = λ j u found. inl (is_shut j u found (h.alone j u found));
}
  where
    is_shut :
        (j : ℕ) (u : Talk)
        → lookup j r.sessions ≡ some u
        → (u.closed ≡ true) ⊎ (r.active_session ≡ some j)
        → u.closed ≡ true
    is_shut j u found (inl e) = e
    is_shut j u found (inr active) =
        closed_is_closed s j u r.sessions shut found (ground (arith, runs, active))

-- The watcher of the active session releases the lock; another's leaves it.
pub watch_siri_session-IsExclusive :
    (s : ℕ) (r : Registry)
    → is_closed_session s r.sessions ≡ true
    → IsExclusive r
    → IsExclusive (watch_siri_session s r)
unfolding watch_siri_session
watch_siri_session-IsExclusive s r shut h =
    let mapped = is_mapped (stream_of s r.sessions) s r.siri_sessions in
    either IsExclusive (is_active_session r.active_session s)
      (λ runs.
        either (λ left. IsExclusive (record left { active_session = none; locked = false })) mapped
          (λ e. release s _ shut runs (fewer_streams r _ h)) (λ e. release s r shut runs h))
      (λ rests. either IsExclusive mapped (λ e. fewer_streams r _ h) (λ e. h))
