-- ===== src/Hds/Waiting.antt =====
-- The loops of hds.py that remove a client's sessions leave those of the others.
use atv_homekit_remote.Prelude.{
  ◌≡◌, ◌≢◌, refl, ◌∙◌, inl, inr, List, [], ◌∷◌, ◌++◌, append_assoc, arith, Bool-cases, All,
  All-append, if◌then◌else◌,
}
use atv_homekit_remote.Remote.State.{Client, client_eq}
use atv_homekit_remote.Hds.Server.{PreparedSession, remove_prepared, remove_pending}

-- The sessions that are not the client's.
unfoldable pub without_client_of : Client → List PreparedSession → List PreparedSession
unfolding client_eq
without_client_of client [] = []
without_client_of client (p ∷ ps) =
    if client_eq p.client_addr client
    then without_client_of client ps
    else p ∷ without_client_of client ps

-- The client's sessions.
unfoldable pub of_client : Client → List PreparedSession → List PreparedSession
unfolding client_eq
of_client client [] = []
of_client client (p ∷ ps) =
    if client_eq p.client_addr client then p ∷ of_client client ps else of_client client ps

-- No session stands in the list twice.
abbrev pub IsElse : PreparedSession → PreparedSession → Type 0
IsElse p q = p.handle ≢ q.handle

abbrev pub AreDistinct : List PreparedSession → Type 0
AreDistinct [] = Unit
AreDistinct (p ∷ ps) = All (IsElse p) ps × AreDistinct ps

-- The handles of `kept` are not the session's.
abbrev AreOthers : PreparedSession → List PreparedSession → Type 0
AreOthers p kept = All (λ q. q.handle ≢ p.handle) kept

pub remove_prepared-append :
    (p : PreparedSession) (kept ps : List PreparedSession)
    → AreOthers p kept
    → remove_prepared p (kept ++ (p ∷ ps)) ≡ kept ++ ps
unfolding remove_prepared
remove_prepared-append p [] ps h = ground arith
remove_prepared-append p (q ∷ kept) ps h = ground (arith, remove_prepared-append p kept ps h.1)

-- The sessions that were kept are none of those that are left to look at.
abbrev pub AreBefore : List PreparedSession → List PreparedSession → Type 0
AreBefore kept [] = Unit
AreBefore kept (p ∷ ps) = AreOthers p kept × AreBefore kept ps

pub AreBefore-nil : (ps : List PreparedSession) → AreBefore [] ps
AreBefore-nil [] = tt
AreBefore-nil (p ∷ ps) = (tt, AreBefore-nil ps)

pub AreBefore-append :
    (kept : List PreparedSession) (p : PreparedSession) (ps : List PreparedSession)
    → AreBefore kept ps
    → All (IsElse p) ps
    → AreBefore (kept ++ (p ∷ [])) ps
AreBefore-append kept p [] h e = tt
AreBefore-append kept p (q ∷ ps) h e = (
  All-append (λ r. r.handle ≢ q.handle) kept (p ∷ []) h.0 (e.0, tt),
  AreBefore-append kept p ps h.1 e.1,
)

remove_pending-append :
    (client : Client) (ps kept : List PreparedSession)
    → AreDistinct ps
    → AreBefore kept ps
    → remove_pending client ps (kept ++ ps) ≡ kept ++ without_client_of client ps
unfolding remove_pending without_client_of
remove_pending-append client [] kept d h = refl
remove_pending-append client (p ∷ ps) kept d h =
    elim (Bool-cases (client_eq p.client_addr client)) [
      | inl own ↦
          rw (own, remove_prepared-append p kept ps h.0)
            (remove_pending-append client ps kept d.1 h.1)
      | inr other ↦
          rw (other, ← append_assoc kept (p ∷ []) ps)
            (remove_pending-append client ps (kept ++ (p ∷ [])) d.1
                (AreBefore-append kept p ps h.1 d.0)
              ∙ append_assoc kept (p ∷ []) (without_client_of client ps))
    ]

-- The loop leaves the sessions of the other clients.
pub remove_pending-eq-without_client_of :
    (client : Client) (ps : List PreparedSession)
    → AreDistinct ps
    → remove_pending client ps ps ≡ without_client_of client ps
remove_pending-eq-without_client_of client ps d =
    remove_pending-append client ps [] d (AreBefore-nil ps)
