-- ===== src/Remote/Life.antt =====
-- The HomeKit handlers of remote.py, called in any order.
use atv_homekit_remote.Prelude.{Bool, Option, none, some}
use atv_homekit_remote.Prelude.Int.{ℤ}
use atv_homekit_remote.Utf8.{Text}
use atv_homekit_remote.Remote.State.{Client, Remote, Platform, set_active_identifier}
use atv_homekit_remote.Remote.Control.{
  hap_target_list_write, hap_active_identifier_write, hap_active_write, hap_connection_lost,
}
use atv_homekit_remote.Remote.Valid.{IsValid, Keeps}
use atv_homekit_remote.Remote.Handlers.{
  set_active_identifier-Keeps, hap_active_write-Keeps, hap_connection_lost-IsValid,
}
use atv_homekit_remote.Remote.Requests.{hap_target_list_write-Keeps}

module _ (env : Platform) where
  -- One call, with the state that it leaves by a return or by an exception.
  pub data Step : Remote → Remote → Type 0 where
    list_written :
        (value : Text) (client : Option Client) (r : Remote)
        → Step r (hap_target_list_write env value client r).1
    identifier_written :
        (value : ℤ) (client : Option Client) (r : Remote)
        → Step r (hap_active_identifier_write env value client r).1
    active_written :
        (value : Bool) (client : Option Client) (r : Remote)
        → Step r (hap_active_write value client r).1
    client_lost : (client : Client) (r : Remote) → Step r (hap_connection_lost client r)
    selected : (value : ℤ) (r : Remote) → Step r (set_active_identifier env value r).1

  pub data Reaches (start : Remote) : Remote → Type 0 where
    here : Reaches start start
    after : {r s : Remote} → Reaches start r → Step r s → Reaches start s

  hap_active_identifier_write-Keeps :
      (value : ℤ) (client : Option Client) (r : Remote)
      → IsValid r
      → Keeps (hap_active_identifier_write env value client r)
  unfolding hap_active_identifier_write Keeps
  hap_active_identifier_write-Keeps value none r h = h
  hap_active_identifier_write-Keeps value (some client) r h =
      set_active_identifier-Keeps env value r h

  Step-IsValid : {r s : Remote} → Step r s → IsValid r → IsValid s
  unfolding Keeps
  Step-IsValid (list_written value client r) h = hap_target_list_write-Keeps env value client r h
  Step-IsValid (identifier_written value client r) h =
      hap_active_identifier_write-Keeps value client r h
  Step-IsValid (active_written value client r) h = hap_active_write-Keeps value client r h
  Step-IsValid (client_lost client r) h = hap_connection_lost-IsValid client r h
  Step-IsValid (selected value r) h = set_active_identifier-Keeps env value r h

  -- Whatever the handlers are called with and in whatever order, from a valid state on: the state has
  -- at most ten targets, each once and under its own 32-bit identifier, which is not 0; each button of
  -- a target once and under its own identifier, a byte, with a 16-bit type; the active identifier is 0
  -- or a target's; and no client is active while it is 0.
  pub Reaches-IsValid : {r s : Remote} → IsValid r → Reaches r s → IsValid s
  Reaches-IsValid h here = h
  Reaches-IsValid h (after reached st) = Step-IsValid st (Reaches-IsValid h reached)
