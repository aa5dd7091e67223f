-- ===== src/Hds/Pending.antt =====
-- The sessions that wait in `HDSServer` of hds.py: few, one for each client, each used once.
use atv_homekit_remote.Prelude.{
  either, ℕ, suc, ◌≡◌, ◌≢◌, ◌≤◌, ◌<◌, false, not, List, [], ◌∷◌, ◌++◌, leb, ltb, ◌==◌, arith,
  length, length-append, All, All-append, Bytes, Result,
}
use atv_homekit_remote.Remote.State.{Client, client_eq}
use atv_homekit_remote.Hds.Waiting.{
  without_client_of, IsElse, AreDistinct, remove_pending-eq-without_client_of,
}
use atv_homekit_remote.Hds.Server.{
  PreparedSession, Server, Crypto, remove_prepared, remove_pending, new_prepared, prepare_session,
  is_listening, max_prepared_sessions,
}

abbrev pub IsOlder : ℕ → PreparedSession → Type 0
IsOlder next p = p.handle < next

-- The session is another object than the earlier one, of another client.
abbrev pub IsApart : PreparedSession → PreparedSession → Type 0
IsApart p q = (p.handle ≢ q.handle) × (client_eq p.client_addr q.client_addr ≡ false)

abbrev pub AreApart : List PreparedSession → Type 0
AreApart [] = Unit
AreApart (p ∷ ps) = All (IsApart p) ps × AreApart ps

pub record ArePending (prepared : List PreparedSession) (next : ℕ) : Type 0 where
  pub few : length prepared ≤ max_prepared_sessions
  pub older : All (IsOlder next) prepared
  pub apart : AreApart prepared

unfoldable pub IsSettled : Server → Type 0
IsSettled s = ArePending s.prepared s.next_handle

unfoldable pub Settles {ℓ} : {A : Type ℓ} → Result A × Server → Type 0
unfolding IsSettled
Settles o = IsSettled o.1

abbrev pub IsNotOf : Client → PreparedSession → Type 0
IsNotOf client p = client_eq p.client_addr client ≡ false

module _ (P : PreparedSession → Type 0) where
  without_client_of-All :
      (client : Client) (ps : List PreparedSession) → All P ps → All P (without_client_of client ps)
  unfolding without_client_of
  without_client_of-All client [] h = tt
  without_client_of-All client (p ∷ ps) h =
      either (All P) (client_eq p.client_addr client) (λ e. without_client_of-All client ps h.1)
        (λ e. (h.0, without_client_of-All client ps h.1))

  remove_prepared-All :
      (session : PreparedSession) (ps : List PreparedSession)
      → All P ps
      → All P (remove_prepared session ps)
  unfolding remove_prepared
  remove_prepared-All session [] h = tt
  remove_prepared-All session (p ∷ ps) h =
      either (All P) (p.handle == session.handle) (λ e. h.1)
        (λ e. (h.0, remove_prepared-All session ps h.1))

without_client_of-IsNotOf :
    (client : Client) (ps : List PreparedSession)
    → All (IsNotOf client) (without_client_of client ps)
unfolding without_client_of
without_client_of-IsNotOf client [] = tt
without_client_of-IsNotOf client (p ∷ ps) =
    either (All (IsNotOf client)) (client_eq p.client_addr client)
      (λ e. without_client_of-IsNotOf client ps) (λ e. (e, without_client_of-IsNotOf client ps))

length-without_client_of :
    (client : Client) (ps : List PreparedSession) → length (without_client_of client ps) ≤ length ps
unfolding without_client_of
length-without_client_of client [] = omega arith
length-without_client_of client (p ∷ ps) =
    either {A = List PreparedSession} (λ qs. length qs ≤ suc (length ps))
      (client_eq p.client_addr client) (λ e. omega (arith, length-without_client_of client ps))
      (λ e. omega (arith, length-without_client_of client ps))

without_client_of-AreApart :
    (client : Client) (ps : List PreparedSession)
    → AreApart ps
    → AreApart (without_client_of client ps)
unfolding without_client_of
without_client_of-AreApart client [] h = tt
without_client_of-AreApart client (p ∷ ps) h =
    either AreApart (client_eq p.client_addr client) (λ e. without_client_of-AreApart client ps h.1)
      (λ e.
        (without_client_of-All (IsApart p) client ps h.0, without_client_of-AreApart client ps h.1))

length-remove_prepared :
    (session : PreparedSession) (ps : List PreparedSession)
    → length (remove_prepared session ps) ≤ length ps
unfolding remove_prepared
length-remove_prepared session [] = omega arith
length-remove_prepared session (p ∷ ps) =
    either {A = List PreparedSession} (λ qs. length qs ≤ suc (length ps))
      (p.handle == session.handle) (λ e. omega arith)
      (λ e. omega (arith, length-remove_prepared session ps))

remove_prepared-AreApart :
    (session : PreparedSession) (ps : List PreparedSession)
    → AreApart ps
    → AreApart (remove_prepared session ps)
unfolding remove_prepared
remove_prepared-AreApart session [] h = tt
remove_prepared-AreApart session (p ∷ ps) h =
    either AreApart (p.handle == session.handle) (λ e. h.1)
      (λ e.
        (remove_prepared-All (IsApart p) session ps h.0, remove_prepared-AreApart session ps h.1))

AreApart-append :
    (ps : List PreparedSession) (s : PreparedSession)
    → AreApart ps
    → All (IsNotOf s.client_addr) ps
    → All (IsOlder s.handle) ps
    → AreApart (ps ++ (s ∷ []))
AreApart-append [] s h n o = (tt, tt)
AreApart-append (p ∷ ps) s h n o = (
  All-append (IsApart p) ps (s ∷ []) h.0 (((λ e. absurd (omega arith)), n.0), tt),
  AreApart-append ps s h.1 n.1 o.1,
)

IsOlder-suc :
    (next : ℕ) (ps : List PreparedSession) → All (IsOlder next) ps → All (IsOlder (suc next)) ps
IsOlder-suc next [] h = tt
IsOlder-suc next (p ∷ ps) h = (omega arith, IsOlder-suc next ps h.1)

AreApart-IsElse :
    (p : PreparedSession) (ps : List PreparedSession) → All (IsApart p) ps → All (IsElse p) ps
AreApart-IsElse p [] h = tt
AreApart-IsElse p (q ∷ ps) h = (h.0.0, AreApart-IsElse p ps h.1)

pub AreApart-AreDistinct : (ps : List PreparedSession) → AreApart ps → AreDistinct ps
AreApart-AreDistinct [] h = tt
AreApart-AreDistinct (p ∷ ps) h = (AreApart-IsElse p ps h.0, AreApart-AreDistinct ps h.1)

left-ArePending :
    (client : Client) (ps : List PreparedSession) (next : ℕ)
    → ArePending ps next
    → ArePending (without_client_of client ps) next
left-ArePending client ps next h = record {
  few = omega (arith, length-without_client_of client ps, h.few);
  older = without_client_of-All (IsOlder next) client ps h.older;
  apart = without_client_of-AreApart client ps h.apart;
}

pub removed-ArePending :
    (session : PreparedSession) (ps : List PreparedSession) (next : ℕ)
    → ArePending ps next
    → ArePending (remove_prepared session ps) next
removed-ArePending session ps next h = record {
  few = omega (arith, length-remove_prepared session ps, h.few);
  older = remove_prepared-All (IsOlder next) session ps h.older;
  apart = remove_prepared-AreApart session ps h.apart;
}

pub settled {ℓ} : {A : Type ℓ} (x : Result A) (s : Server) → IsSettled s → Settles (x, s)
unfolding Settles
settled x s h = h

module _ (crypto : Crypto) where
  added-ArePending :
      (client : Client) (secret controller_salt accessory_salt : Bytes) (ps : List PreparedSession)
      (next : ℕ)
      → All (IsNotOf client) ps
      → length ps < max_prepared_sessions
      → ArePending ps next
      → ArePending
          (ps ++ (new_prepared crypto client secret controller_salt accessory_salt next ∷ []))
          (suc next)
  unfolding new_prepared
  added-ArePending client secret controller_salt accessory_salt ps next others room h =
      let session = new_prepared crypto client secret controller_salt accessory_salt next in
      record {
        few = omega (arith, length-append ps (session ∷ []));
        older =
            All-append (IsOlder (suc next)) ps (session ∷ []) (IsOlder-suc next ps h.older)
              (omega arith, tt);
        apart = AreApart-append ps session h.apart others h.older;
      }

  -- `prepare_session`, for any client, secret and salts, keeps the pending sessions in order, by a
  -- return or an exception: at most 16, all different, no two of one client.
  pub prepare_session-Settles :
      (client : Client) (secret controller_salt accessory_salt : Bytes) (s : Server)
      → IsSettled s
      → Settles (prepare_session crypto client secret controller_salt accessory_salt s)
  unfolding prepare_session IsSettled
  prepare_session-Settles client secret controller_salt accessory_salt s h =
      let left = remove_pending client s.prepared s.prepared in
      let same : left ≡ without_client_of client s.prepared =
        remove_pending-eq-without_client_of client s.prepared
          (AreApart-AreDistinct s.prepared h.apart) in
      let pending : ArePending left s.next_handle =
        rw same (left-ArePending client s.prepared s.next_handle h) in
      let others : All (IsNotOf client) left =
        rw same (without_client_of-IsNotOf client s.prepared) in
      either Settles (not (is_listening crypto s.port)) (λ e. settled _ s h)
        (λ e.
          either Settles (ltb (length secret) 32) (λ e. settled _ s h)
            (λ e.
              either Settles (not (length controller_salt == 32)) (λ e. settled _ s h)
                (λ e.
                  either Settles (leb max_prepared_sessions (length left))
                    (λ e. settled _ (record s { prepared = left }) pending)
                    (λ e.
                      settled _
                        (record s {
                          prepared =
                              left
                              ++ (new_prepared crypto client secret controller_salt accessory_salt
                                    s.next_handle
                                  ∷ []);
                          next_handle = suc s.next_handle;
                        })
                        (added-ArePending client secret controller_salt accessory_salt left
                          s.next_handle others (ground arith) pending)))))
