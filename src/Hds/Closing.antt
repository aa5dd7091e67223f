-- ===== src/Hds/Closing.antt =====
-- What `close_for_client` of hds.py removes and whom it tells.
use atv_homekit_remote.Prelude.{
  ◌≡◌, refl, ◌∙◌, inl, inr, List, [], ◌∷◌, ◌++◌, append_assoc, append-nil, Bool-cases,
}
use atv_homekit_remote.Remote.State.{Client, client_eq}
use atv_homekit_remote.Hds.Server.{
  PreparedSession, Server, close_connection, close_connections_of, close_for_client,
}
use atv_homekit_remote.Hds.Waiting.{
  AreDistinct, AreBefore, AreBefore-nil, AreBefore-append, without_client_of, of_client,
  remove_prepared-append, remove_pending-eq-without_client_of,
}
use atv_homekit_remote.Hds.Pending.{IsSettled, AreApart-AreDistinct}

close_connections_of-append :
    (client : Client) (cs kept told : List PreparedSession) (s : Server)
    → AreDistinct cs
    → AreBefore kept cs
    → close_connections_of client cs (record s { connections = kept ++ cs }, told) ≡ (
      record s { connections = kept ++ without_client_of client cs },
      told ++ of_client client cs,
    )
unfolding close_connections_of close_connection without_client_of of_client
close_connections_of-append client [] kept told s d h = rw (append-nil kept, append-nil told) refl
close_connections_of-append client (c ∷ cs) kept told s d h =
    elim (Bool-cases (client_eq c.client_addr client)) [
      | inl own ↦
          rw (own, remove_prepared-append c kept cs h.0)
            (close_connections_of-append client cs kept (told ++ (c ∷ [])) s d.1 h.1
              ∙ rw (append_assoc told (c ∷ []) (of_client client cs)) refl)
      | inr other ↦
          rw (other, ← append_assoc kept (c ∷ []) cs)
            (close_connections_of-append client cs (kept ++ (c ∷ [])) told s d.1
                (AreBefore-append kept c cs h.1 d.0)
              ∙ rw (append_assoc kept (c ∷ []) (without_client_of client cs)) refl)
    ]

-- Where the pending sessions are in order and no connection is kept twice, `close_for_client` removes
-- the client's pending sessions and its connections and nothing else, the others in their order, and
-- tells `on_close` of each connection of the client once.
pub close_for_client_lem :
    (client : Client) (s : Server)
    → IsSettled s
    → AreDistinct s.connections
    → close_for_client client s ≡ (
      record s {
        prepared = without_client_of client s.prepared;
        connections = without_client_of client s.connections;
      },
      of_client client s.connections,
    )
unfolding close_for_client IsSettled
close_for_client_lem client s h d =
    rw
      (remove_pending-eq-without_client_of client s.prepared
        (AreApart-AreDistinct s.prepared h.apart))
      (close_connections_of-append client s.connections [] []
        (record s { prepared = without_client_of client s.prepared }) d
        (AreBefore-nil s.connections))
