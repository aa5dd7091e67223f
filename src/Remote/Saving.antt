-- ===== src/Remote/Saving.antt =====
-- What `_save_targets` of remote.py writes to targets.json: `_target_to_dict`, and `json.dump` with
-- `sort_keys=True` as far as `json.loads` sees it.
use atv_homekit_remote.Prelude.{
  ℕ, zero, suc, ◌+◌, ◌/◌, ◌%◌, Bool, true, false, Option, none, some, [], ◌∷◌, ltb, ◌==◌,
  if◌then◌else◌, codes, Result, ok,
}
use atv_homekit_remote.Prelude.Int.{pos}
use atv_homekit_remote.Prelude.Dict.{Dict}
use atv_homekit_remote.Utf8.{Text}
use atv_homekit_remote.Remote.Target.{ButtonConfiguration, TargetConfiguration, sorted}
use atv_homekit_remote.Remote.Loading.{
  Json, null, bool, int, decimal, text, array, object, Items, nil, cons, Fields, end, field,
}

-- `str(n)`: each round writes one digit, so `n` rounds are enough.
abbrev pub digits_loop : ℕ → ℕ → Text → Text
digits_loop zero n done = (48 + n % 10) ∷ done
digits_loop (suc fuel) n done = elim (ltb n 10) [
  | true ↦ (48 + n) ∷ done
  | false ↦ digits_loop fuel (n / 10) ((48 + n % 10) ∷ done)
]

unfoldable pub str : ℕ → Text
str n = digits_loop n n []

-- `a < b` for texts
unfoldable pub is_before : Text → Text → Bool
is_before a [] = false
is_before [] (c ∷ cs) = true
is_before (b ∷ bs) (c ∷ cs) = if b == c then is_before bs cs else ltb b c

-- The entry's place among fields that are sorted by their keys.
unfoldable pub insert_field : Text → Json → Fields → Fields
unfolding is_before
insert_field key v end = field key v end
insert_field key v (field k w fs) =
    if is_before key k then field key v (field k w fs) else field k w (insert_field key v fs)

-- What is read back of a value that was written with `sort_keys=True`: every object in it is sorted.
unfoldable mutual
  unfolding insert_field

  pub sort_json : Json → Json
  sort_json null = null
  sort_json (bool b) = bool b
  sort_json (int n) = int n
  sort_json (decimal d) = decimal d
  sort_json (text t) = text t
  sort_json (array xs) = array (sort_items xs)
  sort_json (object fs) = object (sort_fields fs)

  pub sort_items : Items → Items
  sort_items nil = nil
  sort_items (cons x xs) = cons (sort_json x) (sort_items xs)

  pub sort_fields : Fields → Fields
  sort_fields end = end
  sort_fields (field k v fs) = insert_field k (sort_json v) (sort_fields fs)

abbrev pub json_text : Option Text → Json
json_text none = null
json_text (some t) = text t

abbrev pub json_int : Option ℕ → Json
json_int none = null
json_int (some n) = int (pos n)

-- `{str(k): f(v) for k, v in items}`
abbrev pub keyed {ℓ} : {V : Type ℓ} → (V → Json) → Dict V → Fields
keyed f [] = end
keyed f ((k, v) ∷ items) = field (str k) (f v) (keyed f items)

-- `asdict` of a button
abbrev pub button_to_dict : ButtonConfiguration → Json
button_to_dict b = object (
    field (codes "button_id") (int (pos b.button_id)) (
      field (codes "button_type") (int (pos b.button_type))
        (field (codes "button_name") (json_text b.button_name) end)))

-- `_target_to_dict`
unfoldable pub target_to_dict : TargetConfiguration → Json
unfolding sorted
target_to_dict t = object (
    field (codes "target_identifier") (int (pos t.target_identifier)) (
      field (codes "target_name") (json_text t.target_name) (
        field (codes "target_category") (json_int t.target_category)
          (field (codes "buttons") (object (keyed button_to_dict (sorted t.buttons))) end))))

-- The `payload` of `_save_targets`.
unfoldable pub targets_payload : Dict TargetConfiguration → ℕ → Json
unfolding sorted target_to_dict
targets_payload targets active = object (
    field (codes "version") (int (pos 1)) (
      field (codes "active_identifier") (int (pos active))
        (field (codes "targets") (object (keyed target_to_dict (sorted targets))) end)))

-- What targets.json holds after a save.
unfoldable pub saved_file : Dict TargetConfiguration → ℕ → Json
unfolding sort_json targets_payload
saved_file targets active = sort_json (targets_payload targets active)

-- The file that the last save left, if there was one, as the next start reads it.
unfoldable pub stored_file : Option (ℕ × Dict TargetConfiguration) → Option (Result Json)
unfolding saved_file
stored_file none = none
stored_file (some (active, targets)) = some (ok (saved_file targets active))
