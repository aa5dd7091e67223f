-- ===== src/Remote/Control.antt =====
-- The Target Control handlers of remote.py: `hap_target_list_write`, `hap_active_identifier_write`,
-- `hap_active_write` and `_hap_connection_lost`.
use atv_homekit_remote.Prelude.{
  ℕ, Bool, false, not, Option, none, some, [], ◌∷◌, leb, ◌==◌, ◌&&◌, if◌then◌else◌, length, Result,
  ok, err, value_error, runtime_error, permission_error, ◌>>=◌,
}
use atv_homekit_remote.Prelude.Int.{ℤ, pos}
use atv_homekit_remote.Prelude.Dict.{Dict, lookup, contains, insert, erase}
use atv_homekit_remote.Utf8.{Text}
use atv_homekit_remote.Tlv8.{decode}
use atv_homekit_remote.Remote.Target.{
  ButtonConfiguration, TargetConfiguration, single, required, parse_target, sorted,
  target_list_bytes, tc_list_operation_tag, tc_list_target_configuration_tag,
}
use atv_homekit_remote.Remote.State.{
  Client, client_eq, Remote, Platform, Outcome, call, schedule_session_cancel, save_targets,
  set_active_identifier, close_connection, close_all, close_for_client, set_active_char,
  set_active_identifier_char,
}

abbrev pub max_targets : ℕ
max_targets = 10

pub data TargetOperation : Type 0 where
  undefined list_targets add update remove reset : TargetOperation

-- `C.TargetOperation(n)`
unfoldable pub target_operation : ℕ → Result TargetOperation
target_operation n =
    if n == 0
    then ok undefined
    else if n == 1
    then ok list_targets
    else if n == 2
    then ok add
    else if n == 3
    then ok remove
    else if n == 4
    then ok reset
    else if n == 5
    then ok update
    else err value_error

-- ADD of a configuration that is there.
unfoldable pub add_target : TargetConfiguration → Remote → Outcome (Unit {0})
unfolding call
add_target config r =
    let identifier = config.target_identifier in
    let r' = record r { targets = insert identifier config r.targets } in
    if not (contains identifier r.targets) && leb max_targets (length r.targets)
    then (err value_error, r)
    else if r.active_identifier == 0
    then (
      ok tt,
      call (set_active_identifier_char identifier) (record r' { active_identifier = identifier }),
    )
    else (ok tt, r')

abbrev pub or_else {ℓ} : {A : Type ℓ} → Option A → Option A → Option A
or_else none old = old
or_else (some a) old = some a

-- `current.buttons.update(config.buttons)`
unfoldable pub merge_buttons :
    Dict ButtonConfiguration → Dict ButtonConfiguration → Dict ButtonConfiguration
merge_buttons [] current = current
merge_buttons ((id, button) ∷ d) current = merge_buttons d (insert id button current)

-- `for button_id in config.buttons: current.buttons.pop(button_id, None)`
unfoldable pub drop_buttons :
    Dict ButtonConfiguration → Dict ButtonConfiguration → Dict ButtonConfiguration
drop_buttons [] current = current
drop_buttons ((id, button) ∷ d) current = drop_buttons d (erase id current)

unfoldable pub updated : TargetConfiguration → TargetConfiguration → TargetConfiguration
unfolding merge_buttons
updated config current = record current {
  target_name = or_else config.target_name current.target_name;
  target_category = or_else config.target_category current.target_category;
  buttons = merge_buttons config.buttons current.buttons;
}

unfoldable pub update_target : TargetConfiguration → Remote → Outcome (Unit {0})
unfolding updated
update_target config r = elim (lookup config.target_identifier r.targets) [
  | none ↦ (err value_error, r)
  | some current ↦ (
    ok tt,
    record r { targets = insert config.target_identifier (updated config current) r.targets },
  )
]

-- `next(iter(sorted(self.targets)), 0)`
abbrev pub first_key {ℓ} : {V : Type ℓ} → Dict V → ℕ
first_key [] = 0
first_key ((k, v) ∷ d) = k

-- The connection of a target is forgotten, then closed.
unfoldable pub drop_connection : ℕ → Remote → Remote
unfolding call
drop_connection identifier r = elim (lookup identifier r.hds_connections) [
  | none ↦ r
  | some connection ↦
      call (close_connection connection)
        (record r { hds_connections = erase identifier r.hds_connections })
]

-- RESET
unfoldable pub reset_targets : Remote → Remote
unfolding call schedule_session_cancel
reset_targets r =
    let cleared = call close_all (record r { targets = [] }) in
    let idle = record cleared {
      hds_connections = [];
      active_identifier = 0;
      active_client = none;
    } in
    schedule_session_cancel (call (set_active_char 0) (call (set_active_identifier_char 0) idle))

module _ (env : Platform) where
  -- REMOVE without buttons: the target goes, and if it was the active one, the least that is left
  -- becomes active.
  unfoldable pub remove_whole : ℕ → Remote → Outcome (Unit {0})
  unfolding drop_connection sorted set_active_identifier
  remove_whole identifier r =
      let left = drop_connection identifier (record r { targets = erase identifier r.targets }) in
      if r.active_identifier == identifier
      then set_active_identifier env (pos (first_key (sorted left.targets))) left
      else (ok tt, left)

  unfoldable pub remove_buttons :
      Dict ButtonConfiguration → TargetConfiguration → ℕ → Remote → Outcome (Unit {0})
  unfolding remove_whole drop_buttons
  remove_buttons [] current identifier r = remove_whole identifier r
  remove_buttons (b ∷ bs) current identifier r = (
    ok tt,
    record r {
      targets =
          insert identifier (record current { buttons = drop_buttons (b ∷ bs) current.buttons })
            r.targets;
    },
  )

  unfoldable pub remove_target : TargetConfiguration → Remote → Outcome (Unit {0})
  unfolding remove_buttons
  remove_target config r = elim (lookup config.target_identifier r.targets) [
    | none ↦ (err value_error, r)
    | some current ↦ remove_buttons config.buttons current config.target_identifier r
  ]

  -- The `if` chain over the operations.
  unfoldable pub apply_operation :
      TargetOperation → Option TargetConfiguration → Remote → Outcome (Unit {0})
  unfolding add_target update_target remove_target reset_targets
  apply_operation add (some config) r = add_target config r
  apply_operation update (some config) r = update_target config r
  apply_operation remove (some config) r = remove_target config r
  apply_operation reset none r = (ok tt, reset_targets r)
  apply_operation list_targets none r = (ok tt, r)
  apply_operation _ _ r = (err value_error, r)

  -- The value's base64 text, its operation and its configuration.
  unfoldable pub target_list_request : Text → Result (TargetOperation × Option TargetConfiguration)
  unfolding required target_operation parse_target
  target_list_request value = do
    raw ← env.b64decode value
    data_ ← decode raw
    operation_raw ← required data_ tc_list_operation_tag
    operation_byte ← single operation_raw
    operation ← target_operation operation_byte
    config ← parse_target (lookup tc_list_target_configuration_tag data_)
    ok (operation, config)

  -- `return self.target_list_value()`
  unfoldable pub reply : Outcome (Unit {0}) → Outcome Text
  unfolding target_list_bytes
  reply (err e, r) = (err e, r)
  reply (ok x, r) = (target_list_bytes r.targets >>= λ bs. ok (env.b64encode bs), r)

  unfoldable pub and_save : Outcome (Unit {0}) → Outcome (Unit {0})
  unfolding save_targets
  and_save (err e, r) = (err e, r)
  and_save (ok x, r) = save_targets env r

  abbrev pub is_admin_client : Option Client → Bool
  is_admin_client none = false
  is_admin_client (some client) = env.is_admin client

  unfoldable pub hap_target_list_write : Text → Option Client → Remote → Outcome Text
  unfolding target_list_request apply_operation and_save reply
  hap_target_list_write value client r =
      if not r.started
      then (err runtime_error, r)
      else if not (is_admin_client client)
      then (err permission_error, r)
      else elim (target_list_request value) [
        | err e ↦ (err e, r)
        | ok (operation, config) ↦ reply (and_save (apply_operation operation config r))
      ]

  unfoldable pub hap_active_identifier_write : ℤ → Option Client → Remote → Outcome (Unit {0})
  unfolding set_active_identifier
  hap_active_identifier_write value none r = (err value_error, r)
  hap_active_identifier_write value (some client) r = set_active_identifier env value r

-- Whether another HAP session made the target active.
abbrev pub is_other : Option Client → Client → Bool
is_other none client = false
is_other (some active) client = not (client_eq client active)

unfoldable pub hap_active_write : Bool → Option Client → Remote → Outcome (Unit {0})
unfolding client_eq schedule_session_cancel
hap_active_write value none r = (err value_error, r)
hap_active_write value (some client) r =
    if r.active_identifier == 0
    then (err value_error, r)
    else if value
    then (ok tt, record r { active_client = some client })
    else if is_other r.active_client client
    then (err permission_error, r)
    else (ok tt, schedule_session_cancel (record r { active_client = none }))

abbrev pub is_active_client : Option Client → Client → Bool
is_active_client none client = false
is_active_client (some active) client = client_eq client active

-- `_hap_connection_lost`
unfoldable pub hap_connection_lost : Client → Remote → Remote
unfolding client_eq call schedule_session_cancel
hap_connection_lost client r =
    let closed = call (close_for_client client) r in
    let idle = schedule_session_cancel (record closed { active_client = none }) in
    if is_active_client r.active_client client
    then (if r.started then call (set_active_char 0) idle else idle)
    else closed
