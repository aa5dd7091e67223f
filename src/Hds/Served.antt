-- ===== src/Hds/Served.antt =====
-- The requests on an `HDSConnection` of hds.py, in any order of its calls.
use atv_homekit_remote.Prelude.{
  ℕ, ◌≡◌, refl, sym, ap, ◌∙◌, ◌<◌, inl, inr, true, false, Option, none, some, List, [], arith,
  either, either_ok, either_some, Bytes, ok, err, Error, connection_error, Bool-cases,
}
use atv_homekit_remote.Prelude.Int.{ℤ, pos, negsuc}
use atv_homekit_remote.Prelude.Dict.{Dict, lookup, contains, insert, lookup-insert}
use atv_homekit_remote.Utf8.{Text}
use atv_homekit_remote.HdsCodec.Value.{HdsValue, Fields, Formats, dict}
use atv_homekit_remote.Hds.Message.{nonce, build_payload, request_header}
use atv_homekit_remote.Hds.Connection.{
  Cipher, Connection, Sent, new_connection, close, take_response, draw_id, end_request, register,
  drained, send, send_event, send_response, then_wait, begin_request, lookup_id, cancelled,
}
use atv_homekit_remote.Hds.Life.{
  Step, event_sent, response_sent, request_begun, request_ended, response_taken, payload_opened,
  identified, closed_now, Reachable, opened, after,
}
use atv_homekit_remote.Hds.Answers.{draw_id-fresh}
use atv_homekit_remote.Remote.Valid.{HasUniqueKeys}
use atv_homekit_remote.Hds.Futures.{
  Serves, IsQuiet, erased, registered, failed, AreSame, unchanged, unchanged_quiet, register_closed,
  ended_request, erase_none, erase_id_none, nobody_waits, itself,
}

module _ (fm : Formats) where
  module _ (cf : Cipher) where
    abbrev Leaves : Connection fm → Sent fm (Unit {0}) → Type 0
    Leaves c o = AreSame c o.1

    drained-Leaves :
        (fault : Option Error) (c d : Connection fm) → AreSame c d → Leaves c (drained fm fault d)
    drained-Leaves none c d h = h
    drained-Leaves (some e) c d h = h

    send-Leaves :
        (fault : Option Error) (header message : HdsValue fm.Float) (c : Connection fm)
        → Leaves c (send fm cf fault header message c)
    unfolding send
    send-Leaves fault header message c =
        either (Leaves c) c.closed (λ e. itself c)
          (λ e.
            either_ok (Leaves c) (build_payload fm header message) (λ x e. itself c)
              (λ payload e.
                either_ok (Leaves c) (nonce (pos c.out_nonce)) (λ x e. itself c)
                  (λ counter e.
                    drained-Leaves fault c _
                      (record { closed = refl; next = refl; responses = refl; answers = refl }))))

    -- On a closed connection a request fails.
    send_closed :
        (fault : Option Error) (header message : HdsValue fm.Float) (c : Connection fm)
        → c.closed ≡ true
        → send fm cf fault header message c ≡ (err connection_error, c)
    unfolding send
    send_closed fault header message c e = rw e

    own_entry : (id next g : ℕ) (d : Dict ℕ) → lookup id (insert id next d) ≡ some g → g ≡ next
    own_entry id next g d e = ground (arith, lookup-insert id id next d)

    then_wait-Serves :
        (id : ℕ) (c : Connection fm) (o : Sent fm (Unit {0}))
        → AreSame (register fm id c) o.1
        → contains id c.responses ≡ false
        → Serves c
        → Serves (then_wait fm cf id c.next_future o).1
    unfolding register end_request
    then_wait-Serves id c (ok x, d) h fresh s =
        unchanged _ d h (registered id c.next_future c.responses c.answers fresh s)
    then_wait-Serves id c (err e, d) h fresh s =
        let before = unchanged _ d h (registered id c.next_future c.responses c.answers fresh s) in
        erased id c.next_future d.next_future cancelled d.responses d.answers
          (λ g found.
            own_entry id c.next_future g c.responses
              (ap (λ r. lookup id r) (sym h.responses) ∙ found))
          before

    begin_request-Serves :
        (fault : Option Error) (draws : List ℕ) (protocol topic : Text) (message : Fields fm.Float)
        (c : Connection fm)
        → Serves c
        → Serves (begin_request fm cf fault draws protocol topic message c).1
    unfolding begin_request
    begin_request-Serves fault draws protocol topic message c s =
        either_ok (λ (o : Sent fm (ℕ × ℕ)). Serves o.1) (draw_id fm draws c.responses) (λ x e. s)
          (λ id e.
            then_wait-Serves id c _ (send-Leaves fault _ _ (register fm id c))
              (draw_id-fresh fm draws c.responses id e) s)

    close-Serves : (c : Connection fm) → Serves c → Serves (close fm c)
    unfolding close
    close-Serves c s =
        either Serves c.closed (λ e. s) (λ e. failed c.next_future c.responses c.answers s)

    take_response-Serves :
        (id status : ℤ) (message : Fields fm.Float) (c : Connection fm)
        → Serves c
        → Serves (take_response fm id status message c)
    unfolding take_response
    take_response-Serves (negsuc n) status message c s = s
    take_response-Serves (pos n) status message c s =
        either_some Serves (lookup n c.responses) (λ e. s)
          (λ future e.
            erased n future c.next_future _ c.responses c.answers (λ g found. ground arith) s)

    abbrev IsQuietAfter {ℓ} : {A : Type ℓ} → Sent fm A → Type 0
    IsQuietAfter o = IsQuiet o.1

    then_wait-IsQuiet :
        (id : ℕ) (c : Connection fm) (o : Sent fm (Unit {0}))
        → AreSame (register fm id c) o.1
        → c.closed ≡ false
        → IsQuietAfter (then_wait fm cf id c.next_future o)
    unfolding register end_request
    then_wait-IsQuiet id c (ok x, d) h open_ e = absurd (ground (arith, h.closed))
    then_wait-IsQuiet id c (err x, d) h open_ e = absurd (ground (arith, h.closed))

    begin_request-IsQuiet :
        (fault : Option Error) (draws : List ℕ) (protocol topic : Text) (message : Fields fm.Float)
        (c : Connection fm)
        → IsQuiet c
        → IsQuietAfter (begin_request fm cf fault draws protocol topic message c)
    unfolding begin_request
    begin_request-IsQuiet fault draws protocol topic message c q =
        either_ok (IsQuietAfter {A = ℕ × ℕ}) (draw_id fm draws c.responses) (λ x e. q)
          (λ id e. elim (Bool-cases c.closed) [
            | inl shut ↦ refused id shut
            | inr open_ ↦ then_wait-IsQuiet id c _ (send-Leaves fault _ _ (register fm id c)) open_
          ])
      where
        refused :
            (id : ℕ)
            → c.closed ≡ true
            → IsQuietAfter (
                then_wait fm cf id c.next_future (
                  send fm cf fault
                    (request_header fm protocol topic (pos id))
                    (dict message)
                    (register fm id c)))
        refused id shut =
            rw
              (send_closed fault (request_header fm protocol topic (pos id)) (dict message)
                (register fm id c) (register_closed id c shut))
              (λ e. ended_request id c (q shut))

    Step-IsQuiet : {c d : Connection fm} → Step fm cf c d → IsQuiet c → IsQuiet d
    unfolding send_event send_response end_request take_response close
    Step-IsQuiet (event_sent fault protocol topic message c) q =
        unchanged_quiet c _ (send-Leaves fault _ _ c) q
    Step-IsQuiet (response_sent fault protocol topic id status message c) q =
        unchanged_quiet c _ (send-Leaves fault _ _ c) q
    Step-IsQuiet (request_begun fault draws protocol topic message c) q =
        begin_request-IsQuiet fault draws protocol topic message c q
    Step-IsQuiet (request_ended id future c) q = λ e. erase_none id _ (q e)
    Step-IsQuiet (response_taken id status message c) q =
        either_some IsQuiet (lookup_id id c.responses) (λ e. q)
          (λ future e shut. erase_id_none id _ (q shut))
    Step-IsQuiet (payload_opened c) q = q
    Step-IsQuiet (identified identifier c) q = q
    Step-IsQuiet (closed_now c) q = either IsQuiet c.closed (λ e. q) (λ e shut. refl)

    -- The request that ends is the one that is registered under its identifier, if one is.
    abbrev pub IsOwn : {c d : Connection fm} → Step fm cf c d → Type 0
    IsOwn (request_ended id future c) = (g : ℕ) → lookup id c.responses ≡ some g → g ≡ future
    IsOwn _ = Unit

    -- No request drew the identifier of another that was still running.
    abbrev pub HasNoClash :
        {out_key in_key : Bytes} {c : Connection fm} → Reachable fm cf out_key in_key c → Type 0
    HasNoClash opened = Unit
    HasNoClash (after r st) = IsOwn st × HasNoClash r

    Step-Serves : {c d : Connection fm} → (st : Step fm cf c d) → IsOwn st → Serves c → Serves d
    unfolding send_event send_response end_request
    Step-Serves (event_sent fault protocol topic message c) own s =
        unchanged c _ (send-Leaves fault _ _ c) s
    Step-Serves (response_sent fault protocol topic id status message c) own s =
        unchanged c _ (send-Leaves fault _ _ c) s
    Step-Serves (request_begun fault draws protocol topic message c) own s =
        begin_request-Serves fault draws protocol topic message c s
    Step-Serves (request_ended id future c) own s =
        erased id future c.next_future cancelled c.responses c.answers own s
    Step-Serves (response_taken id status message c) own s =
        take_response-Serves id status message c s
    Step-Serves (payload_opened c) own s = s
    Step-Serves (identified identifier c) own s = s
    Step-Serves (closed_now c) own s = close-Serves c s

    Reachable-Serves :
        {out_key in_key : Bytes} {c : Connection fm}
        → (r : Reachable fm cf out_key in_key c) → HasNoClash r
        → Serves c
    unfolding new_connection
    Reachable-Serves opened clash = record { once = tt; served = λ f less. absurd (omega arith) }
    Reachable-Serves (after r st) clash = Step-Serves st clash.0 (Reachable-Serves r clash.1)

    Reachable-IsQuiet :
        {out_key in_key : Bytes} {c : Connection fm} → Reachable fm cf out_key in_key c → IsQuiet c
    unfolding new_connection
    Reachable-IsQuiet opened = λ e. refl
    Reachable-IsQuiet (after r st) = Step-IsQuiet st (Reachable-IsQuiet r)

    -- If no request drew the identifier of another that was still running, then on a reachable
    -- connection that is closed every request that was begun has its answer, exactly one, and none
    -- waits any more.
    pub Reachable-answered :
        {out_key in_key : Bytes} {c : Connection fm}
        → (r : Reachable fm cf out_key in_key c) → HasNoClash r
        → c.closed ≡ true
        → (c.responses ≡ [])
          × HasUniqueKeys c.answers
          × ((f : ℕ) → f < c.next_future → contains f c.answers ≡ true)
    Reachable-answered {c} r clash shut =
        let s = Reachable-Serves r clash in
        let quiet = Reachable-IsQuiet r shut in
        (quiet, s.once, λ f less. nobody_waits f c.responses c.answers quiet (s.served f less))
