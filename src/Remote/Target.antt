-- ===== src/Remote/Target.antt =====
-- `ButtonConfiguration`, `TargetConfiguration`, `_required`, `_one_byte`, `_parse_target` and
-- `target_list_value` of remote.py, up to the base64 text around the bytes.
use atv_homekit_remote.Prelude.{
  ℕ, Option, none, some, List, [], ◌∷◌, ◌++◌, leb, ltb, ◌==◌, ◌||◌, if◌then◌else◌, length, Bytes,
  Result, ok, err, value_error, unicode_error, ◌>>=◌,
}
use atv_homekit_remote.Prelude.Int.{pos}
use atv_homekit_remote.Prelude.Dict.{Dict, lookup, insert}
use atv_homekit_remote.Utf8.{Text, utf8_encode, utf8_decode}
use atv_homekit_remote.Tlv8.{
  text, int, bytes, encode, decode, decode_list, u16, u32, read_u16, read_u32,
}

-- The tags of constants.py.
abbrev pub target_identifier_tag : ℕ
target_identifier_tag = 0x01

abbrev pub target_name_tag : ℕ
target_name_tag = 0x02

abbrev pub target_category_tag : ℕ
target_category_tag = 0x03

abbrev pub target_button_configuration_tag : ℕ
target_button_configuration_tag = 0x04

abbrev pub button_configuration_id_tag : ℕ
button_configuration_id_tag = 0x01

abbrev pub button_configuration_type_tag : ℕ
button_configuration_type_tag = 0x02

abbrev pub button_configuration_name_tag : ℕ
button_configuration_name_tag = 0x03

abbrev pub max_target_name_bytes : ℕ
max_target_name_bytes = 255

pub record ButtonConfiguration : Type 0 where
  pub button_id : ℕ
  pub button_type : ℕ
  pub button_name : Option Text

pub record TargetConfiguration : Type 0 where
  pub target_identifier : ℕ
  pub target_name : Option Text
  pub target_category : Option ℕ
  pub buttons : Dict ButtonConfiguration

-- `_required`: the value is present and not empty.
abbrev pub nonempty : Option Bytes → Result Bytes
nonempty none = err value_error
nonempty (some []) = err value_error
nonempty (some (b ∷ bs)) = ok (b ∷ bs)

unfoldable pub required : Dict Bytes → ℕ → Result Bytes
required mapping tag = nonempty (lookup tag mapping)

abbrev pub single : Bytes → Result ℕ
single (b ∷ []) = ok b
single _ = err value_error

-- `_one_byte`
unfoldable pub one_byte : Dict Bytes → ℕ → Result ℕ
unfolding required
one_byte mapping tag = do value ← required mapping tag; single value

-- `except UnicodeDecodeError as exc: raise ValueError(...) from exc`
abbrev pub unicode_as_value_error {ℓ} : {A : Type ℓ} → Result A → Result A
unicode_as_value_error (ok a) = ok a
unicode_as_value_error (err unicode_error) = err value_error
unicode_as_value_error (err e) = err e

unfoldable pub parse_name : Option Bytes → Result (Option Text)
parse_name none = ok none
parse_name (some raw) = do
  name ← unicode_as_value_error (utf8_decode raw)
  encoded ← utf8_encode name
  if (length name == 0) || ltb max_target_name_bytes (length encoded)
      then err value_error
      else ok (some name)

unfoldable pub parse_category : Option Bytes → Result (Option ℕ)
parse_category none = ok none
parse_category (some raw) = do category ← read_u16 raw; ok (some category)

unfoldable pub parse_button_name : Option Bytes → Result (Option Text)
parse_button_name none = ok none
parse_button_name (some raw) = do name ← unicode_as_value_error (utf8_decode raw); ok (some name)

unfoldable pub parse_button : Dict Bytes → Result ButtonConfiguration
unfolding required parse_button_name
parse_button entry = do
  button_id_raw ← required entry button_configuration_id_tag
  button_id ← single button_id_raw
  button_type_raw ← required entry button_configuration_type_tag
  button_type ← read_u16 button_type_raw
  button_name ← parse_button_name (lookup button_configuration_name_tag entry)
  ok (record { button_id = button_id; button_type = button_type; button_name = button_name })

-- The loop over the entries of the button list; a later entry replaces an earlier of the same id.
unfoldable pub parse_buttons :
    List (Dict Bytes) → Dict ButtonConfiguration → Result (Dict ButtonConfiguration)
unfolding parse_button
parse_buttons [] buttons = ok buttons
parse_buttons (entry ∷ entries) buttons = do
  button ← parse_button entry
  parse_buttons entries (insert button.button_id button buttons)

unfoldable pub parse_button_list : Option Bytes → Result (Dict ButtonConfiguration)
unfolding parse_buttons
parse_button_list none = ok []
parse_button_list (some raw) = do
  entries ← decode_list raw button_configuration_id_tag
  parse_buttons entries []

-- The rest of `_parse_target`, from the test of the identifier on.
unfoldable pub parse_fields : Dict Bytes → ℕ → Result TargetConfiguration
unfolding parse_name parse_category parse_button_list
parse_fields data_ identifier = if identifier == 0 then err value_error else (do
  name ← parse_name (lookup target_name_tag data_)
  category ← parse_category (lookup target_category_tag data_)
  buttons ← parse_button_list (lookup target_button_configuration_tag data_)
  ok (record {
    target_identifier = identifier;
    target_name = name;
    target_category = category;
    buttons = buttons;
  }))

unfoldable pub parse_target_bytes : Bytes → Result TargetConfiguration
unfolding required parse_fields
parse_target_bytes raw = do
  data_ ← decode raw
  identifier_raw ← required data_ target_identifier_tag
  identifier ← read_u32 identifier_raw
  parse_fields data_ identifier

-- `_parse_target`
unfoldable pub parse_target : Option Bytes → Result (Option TargetConfiguration)
unfolding parse_target_bytes
parse_target none = ok none
parse_target (some raw) = do target ← parse_target_bytes raw; ok (some target)

-- `sorted(d.values(), key=...)`, where the keys of `d` are those that are compared: insertion sort.
module _ {ℓ} {V : Type ℓ} where
  unfoldable pub insert_sorted : ℕ → V → Dict V → Dict V
  insert_sorted k v [] = (k, v) ∷ []
  insert_sorted k v ((j, w) ∷ d) =
      let rest = insert_sorted k v d in if leb k j then (k, v) ∷ (j, w) ∷ d else (j, w) ∷ rest

  unfoldable pub sorted : Dict V → Dict V
  unfolding insert_sorted
  sorted [] = []
  sorted ((k, v) ∷ d) = insert_sorted k v (sorted d)

-- A button's name is written unless it is missing or empty.
unfoldable pub button_name_bytes : Option Text → Result Bytes
button_name_bytes none = ok []
button_name_bytes (some []) = ok []
button_name_bytes (some (c ∷ cs)) = encode ((pos button_configuration_name_tag, text (c ∷ cs)) ∷ [])

unfoldable pub button_bytes : ButtonConfiguration → Result Bytes
unfolding button_name_bytes
button_bytes button = do
  type_raw ← u16 (pos button.button_type)
  one ← encode (
      (pos button_configuration_id_tag, int (pos button.button_id))
      ∷ (pos button_configuration_type_tag, bytes type_raw)
      ∷ [])
  name ← button_name_bytes button.button_name
  ok (one ++ name)

unfoldable pub buttons_bytes : Dict ButtonConfiguration → Result Bytes
unfolding button_bytes
buttons_bytes [] = ok []
buttons_bytes ((id, button) ∷ d) = do
  front ← button_bytes button
  back ← buttons_bytes d
  ok (front ++ back)

unfoldable pub name_part : Option Text → Result Bytes
name_part none = ok []
name_part (some name) = encode ((pos target_name_tag, text name) ∷ [])

unfoldable pub category_part : Option ℕ → Result Bytes
category_part none = ok []
category_part (some category) = do
  raw ← u16 (pos category)
  encode ((pos target_category_tag, bytes raw) ∷ [])

unfoldable pub buttons_part : Dict ButtonConfiguration → Result Bytes
unfolding buttons_bytes sorted
buttons_part [] = ok []
buttons_part (b ∷ d) = do
  raw ← buttons_bytes (sorted (b ∷ d))
  encode ((pos target_button_configuration_tag, bytes raw) ∷ [])

-- What `b"".join(parts)` is for one target.
unfoldable pub target_bytes : TargetConfiguration → Result Bytes
unfolding name_part category_part buttons_part
target_bytes target = do
  identifier ← u32 (pos target.target_identifier)
  head ← encode ((pos target_identifier_tag, bytes identifier) ∷ [])
  name ← name_part target.target_name
  category ← category_part target.target_category
  button_data ← buttons_part target.buttons
  ok (head ++ (name ++ (category ++ button_data)))

abbrev pub tc_list_operation_tag : ℕ
tc_list_operation_tag = 0x01

abbrev pub tc_list_target_configuration_tag : ℕ
tc_list_target_configuration_tag = 0x02

unfoldable pub targets_bytes : Dict TargetConfiguration → Result Bytes
unfolding target_bytes
targets_bytes [] = ok []
targets_bytes ((id, target) ∷ d) = do
  raw ← target_bytes target
  front ← encode ((pos tc_list_target_configuration_tag, bytes raw) ∷ [])
  back ← targets_bytes d
  ok (front ++ back)

-- `target_list_value`, before it is put in base64
unfoldable pub target_list_bytes : Dict TargetConfiguration → Result Bytes
unfolding targets_bytes sorted
target_list_bytes targets = targets_bytes (sorted targets)
