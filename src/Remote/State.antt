-- ===== src/Remote/State.antt =====
-- The state of `AppleTVHomeKitRemote` that the HomeKit handlers of remote.py read and change, what
-- they call outside it, and `set_active_identifier`, `_save_targets` and `_schedule_session_cancel`.
use atv_homekit_remote.Prelude.{
  ℕ, Bool, false, not, Option, none, some, List, [], ◌∷◌, ◌++◌, ◌==◌, ◌&&◌, if◌then◌else◌, All,
  IsByte, ◌≡◌, Bytes, Result, ok, err, Error, value_error,
}
use atv_homekit_remote.Prelude.Int.{ℤ, is_within, to_ℕ}
use atv_homekit_remote.Prelude.Dict.{Dict, contains}
use atv_homekit_remote.Utf8.{Text}
use atv_homekit_remote.HdsCodec.Value.{list_eq}
use atv_homekit_remote.Remote.Target.{TargetConfiguration}

-- A HAP connection's address, `tuple[str, int]`.
pub record Client : Type 0 where
  pub host : Text
  pub port : ℕ

unfoldable pub client_eq : Client → Client → Bool
unfolding list_eq
client_eq a b = list_eq a.host b.host && a.port == b.port

-- What a handler reads of a `SiriSession`.
pub record SessionView : Type 0 where
  pub target_identifier : ℕ
  pub closed : Bool

-- The calls that leave the object, in their order.
pub data Call : Type 0 where
  set_active_identifier_char set_active_char set_button_event_char : ℕ → Call
  close_connection : ℕ → Call
  close_all cancel_session : Call
  close_for_client : Client → Call

-- `started` is that the driver and the accessory are there; a connection is named by a number;
-- `stored` is what targets.json holds.
pub record Remote : Type 0 where
  pub started : Bool
  pub targets : Dict TargetConfiguration
  pub active_identifier : ℕ
  pub active_client : Option Client
  pub hds_connections : Dict ℕ
  pub active_session : Option SessionView
  pub stored : Option (ℕ × Dict TargetConfiguration)
  pub calls : List Call

-- HAP-python's `is_admin`, `base64`, and whether writing targets.json raises.
pub record Platform : Type 0 where
  pub is_admin : Client → Bool
  pub b64decode : Text → Result Bytes
  pub b64encode : Bytes → Text
  pub write_error : Remote → Option Error
  pub b64decode-IsByte : (t : Text) (bs : Bytes) → b64decode t ≡ ok bs → All IsByte bs

-- How a call ended, and the state then: what was changed before an exception stays changed.
abbrev pub Outcome {ℓ} : Type ℓ → Type ℓ
Outcome A = Result A × Remote

unfoldable pub call : Call → Remote → Remote
call c r = record r { calls = r.calls ++ (c ∷ []) }

abbrev pub is_open : Option SessionView → Bool
is_open none = false
is_open (some session) = not session.closed

-- `_schedule_session_cancel(self._active_siri_session)`
unfoldable pub schedule_session_cancel : Remote → Remote
unfolding call
schedule_session_cancel r = if is_open r.active_session then call cancel_session r else r

-- Whether the session is open and goes to the target.
abbrev pub is_session_of : ℕ → Option SessionView → Bool
is_session_of identifier none = false
is_session_of identifier (some session) =
    not session.closed && session.target_identifier == identifier

-- The assignments of `set_active_identifier`, up to the save.
unfoldable pub switch_target : ℕ → Remote → Remote
unfolding call
switch_target identifier r =
    let r' = record r { active_identifier = identifier; active_client = none } in
    if r.started
    then call (set_active_char 0) (call (set_active_identifier_char identifier) r')
    else r'

unfoldable pub cancel_session_of : ℕ → Outcome (Unit {0}) → Outcome (Unit {0})
unfolding call
cancel_session_of old (err e, r) = (err e, r)
cancel_session_of old (ok x, r) =
    (ok x, if is_session_of old r.active_session then call cancel_session r else r)

module _ (env : Platform) where
  -- `_save_targets`: the new file replaces the old one, or the old one stays.
  unfoldable pub save_targets : Remote → Outcome (Unit {0})
  save_targets r = elim (env.write_error r) [
    | none ↦ (ok tt, record r { stored = some (r.active_identifier, r.targets) })
    | some e ↦ (err e, r)
  ]

  unfoldable pub set_active_identifier : ℤ → Remote → Outcome (Unit {0})
  unfolding save_targets switch_target cancel_session_of is_within
  set_active_identifier value r =
      let identifier = to_ℕ value in
      if not (is_within 0xffffffff value)
      then (err value_error, r)
      else if not (identifier == 0) && not (contains identifier r.targets)
      then (err value_error, r)
      else if identifier == r.active_identifier
      then (ok tt, r)
      else cancel_session_of r.active_identifier (save_targets (switch_target identifier r))
