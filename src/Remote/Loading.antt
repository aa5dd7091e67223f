-- ===== src/Remote/Loading.antt =====
-- `_load_targets` of remote.py: the targets and the active identifier that targets.json gives.
use atv_homekit_remote.Prelude.{
  ℕ, suc, Bool, true, false, not, Option, none, some, [], leb, ltb, ◌==◌, ◌&&◌, ◌||◌, if◌then◌else◌,
  codes, Result, ok, err, value_error, key_error, ◌>>=◌,
}
use atv_homekit_remote.Prelude.Int.{ℤ, pos, negsuc, is_within, to_ℕ}
use atv_homekit_remote.Prelude.Dict.{Dict, contains, insert}
use atv_homekit_remote.Utf8.{Text}
use atv_homekit_remote.HdsCodec.Value.{list_eq}
use atv_homekit_remote.Remote.Target.{sorted}
use atv_homekit_remote.Remote.Control.{max_targets, first_key}

-- What `json.loads` gives; a number that is no integer is kept as its literal.
mutual
  pub data Json : Type 0 where
    null : Json
    bool : Bool → Json
    int : ℤ → Json
    decimal : Text → Json
    text : Text → Json
    array : Items → Json
    object : Fields → Json

  pub data Items : Type 0 where
    nil : Items
    cons : Json → Items → Items

  pub data Fields : Type 0 where
    end : Fields
    field : Text → Json → Fields → Fields

-- `d.get(key, default)`
unfoldable pub get_or : Text → Json → Fields → Json
unfolding list_eq
get_or key default_ end = default_
get_or key default_ (field k v fs) = if list_eq k key then v else get_or key default_ fs

-- `d[key]`
unfoldable pub get_key : Text → Fields → Result Json
unfolding list_eq
get_key key end = err key_error
get_key key (field k v fs) = if list_eq k key then ok v else get_key key fs

-- `len(d)`
abbrev pub count_fields : Fields → ℕ
count_fields end = 0
count_fields (field k v fs) = suc (count_fields fs)

-- An object's fields; any other value is refused.
abbrev pub fields_of : Json → Result Fields
fields_of (object fs) = ok fs
fields_of _ = err value_error

-- A button and a target as they are stored: their names are not checked, nor is the category.
pub record StoredButton : Type 0 where
  pub button_id : ℕ
  pub button_type : ℕ
  pub button_name : Json

pub record StoredTarget : Type 0 where
  pub target_identifier : ℕ
  pub target_name : Json
  pub target_category : Option ℤ
  pub buttons : Dict StoredButton

abbrev pub is_null : Json → Bool
is_null null = true
is_null _ = false

-- Python's `int` of a value that JSON can give.
module _ (to_int : Json → Result ℤ) where
  -- The ranges of a button's numbers.
  unfoldable pub check_button : ℤ → ℤ → Json → Result StoredButton
  unfolding is_within
  check_button id kind name =
      if not (is_within 255 id) || not (is_within 65535 kind)
      then err value_error
      else ok (record { button_id = to_ℕ id; button_type = to_ℕ kind; button_name = name })

  unfoldable pub load_button : Text → Json → Result StoredButton
  unfolding get_or get_key check_button
  load_button key raw = do
    button ← fields_of raw
    id ← to_int (get_or (codes "button_id") (text key) button)
    raw_kind ← get_key (codes "button_type") button
    kind ← to_int raw_kind
    check_button id kind (get_or (codes "button_name") null button)

  -- The inner loop; a later entry replaces an earlier of the same identifier.
  unfoldable pub load_buttons : Fields → Dict StoredButton → Result (Dict StoredButton)
  unfolding load_button
  load_buttons end buttons = ok buttons
  load_buttons (field key raw fs) buttons = do
    button ← load_button key raw
    load_buttons fs (insert button.button_id button buttons)

  unfoldable pub load_category : Json → Result (Option ℤ)
  load_category raw = if is_null raw then ok none else to_int raw >>= λ category. ok (some category)

  -- `1 <= identifier <= 0xFFFFFFFF`
  abbrev pub is_identifier : ℤ → Bool
  is_identifier (pos n) = ltb 0 n && leb n 0xffffffff
  is_identifier (negsuc n) = false

  -- The target's buttons and category, under an identifier in its range.
  unfoldable pub load_fields : ℕ → Fields → Result StoredTarget
  unfolding get_or load_buttons load_category
  load_fields identifier target = do
    raw_buttons ← fields_of (get_or (codes "buttons") (object end) target)
    buttons ← load_buttons raw_buttons []
    category ← load_category (get_or (codes "target_category") null target)
    ok (record {
      target_identifier = identifier;
      target_name = get_or (codes "target_name") null target;
      target_category = category;
      buttons = buttons;
    })

  unfoldable pub load_target : Text → Json → Result StoredTarget
  unfolding get_or load_fields
  load_target key raw = do
    target ← fields_of raw
    identifier ← to_int (get_or (codes "target_identifier") (text key) target)
    if not (is_identifier identifier) then err value_error else load_fields (to_ℕ identifier) target

  -- The outer loop.
  unfoldable pub load_entries : Fields → Dict StoredTarget → Result (Dict StoredTarget)
  unfolding load_target
  load_entries end loaded = ok loaded
  load_entries (field key raw fs) loaded = do
    target ← load_target key raw
    load_entries fs (insert target.target_identifier target loaded)

  -- An active identifier that is not loaded gives way to the least that is.
  unfoldable pub known_active : ℤ → Dict StoredTarget → ℕ
  unfolding sorted contains
  known_active (pos n) loaded =
      if not (n == 0) && not (contains n loaded) then first_key (sorted loaded) else n
  known_active (negsuc n) loaded = first_key (sorted loaded)

  -- The targets, then the active identifier.
  unfoldable pub load_state : Fields → Fields → Result (Dict StoredTarget × ℕ)
  unfolding get_or load_entries known_active
  load_state payload targets = do
    loaded ← load_entries targets []
    active ← to_int (get_or (codes "active_identifier") (int (pos 0)) payload)
    ok (loaded, known_active active loaded)

  unfoldable pub load_payload : Json → Result (Dict StoredTarget × ℕ)
  unfolding get_or load_state
  load_payload raw = do
    payload ← fields_of raw
    targets ← fields_of (get_or (codes "targets") (object end) payload)
    if ltb max_targets (count_fields targets) then err value_error else load_state payload targets

  -- What is loaded, and whether the file was put aside.
  pub record Loaded : Type 0 where
    pub targets : Dict StoredTarget
    pub active_identifier : ℕ
    pub quarantined : Bool

  -- `_load_targets`: no file, one that cannot be read or parsed, or one with a value.
  unfoldable pub load_targets : Option (Result Json) → Loaded
  unfolding load_payload
  load_targets none = record { targets = []; active_identifier = 0; quarantined = false }
  load_targets (some file) = elim (file >>= load_payload) [
    | err e ↦ record { targets = []; active_identifier = 0; quarantined = true }
    | ok (targets, active) ↦ record {
      targets = targets;
      active_identifier = active;
      quarantined = false;
    }
  ]
