-- ===== src/Hds/Accepting.antt =====
-- `HDSServer._accept` of hds.py takes a waiting session, once.
use atv_homekit_remote.Prelude.{
  either, ◌≡◌, ◌≢◌, refl, sym, ◌∙◌, ap, ◌⊎◌, inl, inr, Option, none, some, List, [], ◌∷◌, ◌==◌,
  arith, All, Bytes, Result, ok, err, value_error,
}
use atv_homekit_remote.Hds.Server.{
  PreparedSession, Server, Crypto, remove_prepared, find_session, accept,
}
use atv_homekit_remote.Hds.Pending.{IsApart, AreApart, ArePending, IsSettled, removed-ArePending}

-- The session waits in the list.
abbrev pub IsAmong : PreparedSession → List PreparedSession → Type 0
IsAmong p [] = ⊥
IsAmong p (q ∷ qs) = (q ≡ p) ⊎ IsAmong p qs

abbrev pub IsAnother : PreparedSession → PreparedSession → Type 0
IsAnother p q = q.handle ≢ p.handle

later-IsAnother :
    (p : PreparedSession) (qs : List PreparedSession) → All (IsApart p) qs → All (IsAnother p) qs
later-IsAnother p [] h = tt
later-IsAnother p (q ∷ qs) h = ((λ e. h.0.0 (sym e)), later-IsAnother p qs h.1)

apart_from :
    (p q : PreparedSession) (qs : List PreparedSession)
    → All (IsApart p) qs
    → IsAmong q qs
    → p.handle ≢ q.handle
apart_from p q [] h m = absurd m
apart_from p q (r ∷ qs) h (inl e) = λ same. h.0.0 (same ∙ ap (λ x. x.handle) (sym e))
apart_from p q (r ∷ qs) h (inr m) = apart_from p q qs h.1 m

-- Once a waiting session was removed, no other has its identity.
remove_prepared-IsAnother :
    (p : PreparedSession) (qs : List PreparedSession)
    → AreApart qs
    → IsAmong p qs
    → All (IsAnother p) (remove_prepared p qs)
unfolding remove_prepared
remove_prepared-IsAnother p [] h m = absurd m
remove_prepared-IsAnother p (q ∷ qs) h (inl e) = rw (← e) (
    either (All (IsAnother q)) (q.handle == q.handle) (λ same. later-IsAnother q qs h.0)
      (λ other. absurd (ground arith)))
remove_prepared-IsAnother p (q ∷ qs) h (inr m) =
    let apart = apart_from q p qs h.0 m in
    either (All (IsAnother p)) (q.handle == p.handle) (λ same. absurd (apart (ground arith)))
      (λ other. (apart, remove_prepared-IsAnother p qs h.1 m))

module _ (crypto : Crypto) where
  find_session-IsAmong :
      (header encrypted payload : Bytes) (p : PreparedSession) (qs : List PreparedSession)
      → find_session crypto header encrypted qs ≡ some (p, payload)
      → IsAmong p qs
        × (crypto.decrypt p.controller_to_accessory_key header encrypted ≡ some payload)
  unfolding find_session
  find_session-IsAmong header encrypted payload p [] e = cc
  find_session-IsAmong header encrypted payload p (q ∷ qs) e =
      tried (crypto.decrypt q.controller_to_accessory_key header encrypted) refl
        (find_session-IsAmong header encrypted payload p qs) e
    where
      tried :
          (o : Option Bytes)
          → crypto.decrypt q.controller_to_accessory_key header encrypted ≡ o
          → (find_session crypto header encrypted qs ≡ some (p, payload)
              → IsAmong p qs
                × (crypto.decrypt p.controller_to_accessory_key header encrypted ≡ some payload))
          → elim o [ none ↦ find_session crypto header encrypted qs | some found ↦ some (q, found) ]
            ≡ some (p, payload)
          → IsAmong p (q ∷ qs)
            × (crypto.decrypt p.controller_to_accessory_key header encrypted ≡ some payload)
      tried none wrong later h = let (among, opens) = later h in (inr among, opens)
      tried (some found) right later h =
          let same : q ≡ p = cc in
          let value : found ≡ payload = cc in (inl same, rw (← same) (right ∙ ap some value))

  -- When a connection is accepted, its first payload was opened with the key of a session that was
  -- waiting; the connection is kept for that session, which no longer waits.
  pub accept_lem :
      (header encrypted payload : Bytes) (s : Server)
      → IsSettled s
      → (accept crypto header encrypted s).0 ≡ ok payload
      → let after = (accept crypto header encrypted s).1 in
        (p : PreparedSession) × IsAmong p s.prepared
        × (crypto.decrypt p.controller_to_accessory_key header encrypted ≡ some payload)
        × (after.connections ≡ p ∷ s.connections)
        × All (IsAnother p) after.prepared
        × IsSettled after
  unfolding accept IsSettled
  accept_lem header encrypted payload s h e =
      found (find_session crypto header encrypted s.prepared) refl e
    where
      found :
          (o : Option (PreparedSession × Bytes))
          → find_session crypto header encrypted s.prepared ≡ o
          → let r : Result Bytes × Server = elim o [
            | none ↦ (err value_error, s)
            | some (p, opened) ↦ (
              ok opened,
              record s { prepared = remove_prepared p s.prepared; connections = p ∷ s.connections },
            )
          ] in
            (r.0 ≡ ok payload)
            → (p : PreparedSession) × IsAmong p s.prepared
              × (crypto.decrypt p.controller_to_accessory_key header encrypted ≡ some payload)
              × (r.1.connections ≡ p ∷ s.connections)
              × All (IsAnother p) r.1.prepared
              × ArePending r.1.prepared r.1.next_handle
      found none e' h' = cc
      found (some (p, opened)) e' h' =
          let value : opened ≡ payload = cc in
          let (among, opens) =
            find_session-IsAmong header encrypted payload p s.prepared
              (e' ∙ ap (λ x. some (p, x)) value) in
          (
            p,
            among,
            opens,
            refl,
            remove_prepared-IsAnother p s.prepared h.apart among,
            removed-ArePending p s.prepared s.next_handle h,
          )
