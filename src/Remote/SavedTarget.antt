-- ===== src/Remote/SavedTarget.antt =====
-- A target that `_save_targets` of remote.py wrote is loaded by `_load_targets`.
use mathlib.Core.Option
use atv_homekit_remote.Prelude.{
  ℕ, ◌≡◌, refl, sym, ap, ◌∙◌, ◌≤◌, ◌<◌, false, not, Option, none, some, [], ◌∷◌, ◌++◌, append-nil,
  leb, arith, All, Result, ok, if_of_false,
}
use atv_homekit_remote.Prelude.Int.{ℤ, pos, is_within}
use atv_homekit_remote.Prelude.Dict.{
  Dict, contains, insert, AreFresh, fresh_rest, fresh_first, insert-append, map_values,
}
use atv_homekit_remote.Utf8.{Text}
use atv_homekit_remote.Remote.Target.{ButtonConfiguration, TargetConfiguration, sorted}
use atv_homekit_remote.Remote.Valid.{HasUniqueKeys, IsButtonEntry, IsEntry}
use atv_homekit_remote.Remote.Loading.{
  Json, int, get_or, get_key, StoredButton, StoredTarget, check_button, load_button, load_buttons,
  load_category, load_fields, is_identifier, load_target,
}
use atv_homekit_remote.Remote.Saving.{
  str, is_before, insert_field, sort_json, sort_fields, keyed, json_text, json_int, button_to_dict,
  target_to_dict,
}
use atv_homekit_remote.Remote.Arranged.{
  rearranged, arrange, rearranged-All, rearranged-HasUniqueKeys, sorted-eq-arrange,
  sort_fields-keyed,
}

abbrev pub stored_button : ButtonConfiguration → StoredButton
stored_button b = record {
  button_id = b.button_id;
  button_type = b.button_type;
  button_name = json_text b.button_name;
}

abbrev pub stored_target : TargetConfiguration → StoredTarget
stored_target t = record {
  target_identifier = t.target_identifier;
  target_name = json_text t.target_name;
  target_category = Option.map pos t.target_category;
  buttons = map_values stored_button (rearranged t.buttons);
}

sort_json_text : (t : Option Text) → sort_json (json_text t) ≡ json_text t
unfolding sort_json
sort_json_text none = refl
sort_json_text (some t) = refl

sort_json_int : (n : Option ℕ) → sort_json (json_int n) ≡ json_int n
unfolding sort_json
sort_json_int none = refl
sort_json_int (some n) = refl

module _ (to_int : Json → Result ℤ) (reads_ints : (z : ℤ) → to_int (int z) ≡ ok z) where
  check_button-stored :
      (b : ButtonConfiguration)
      → b.button_id ≤ 255
      → b.button_type ≤ 65535
      → check_button to_int (pos b.button_id) (pos b.button_type) (json_text b.button_name)
        ≡ ok (stored_button b)
  unfolding check_button is_within
  check_button-stored b small_id small_type = ground arith

  load_button-saved :
      (key : Text) (b : ButtonConfiguration)
      → b.button_id ≤ 255
      → b.button_type ≤ 65535
      → load_button to_int key (sort_json (button_to_dict b)) ≡ ok (stored_button b)
  unfolding load_button sort_json get_or get_key is_before insert_field
  load_button-saved key b small_id small_type =
      rw
        (reads_ints (pos b.button_id), reads_ints (pos b.button_type), sort_json_text b.button_name)
        (check_button-stored b small_id small_type)

  load_buttons-saved :
      (d : Dict ButtonConfiguration) (e : Dict StoredButton)
      → All IsButtonEntry d
      → HasUniqueKeys d
      → AreFresh d e
      → load_buttons to_int (keyed (λ b. sort_json (button_to_dict b)) d) e
        ≡ ok (e ++ map_values stored_button d)
  unfolding load_buttons
  load_buttons-saved [] e h u fresh = ap ok (sym (append-nil e))
  load_buttons-saved ((k, b) ∷ d) e ((same, small_id, small_type), h) u fresh =
      let s = stored_button b in
      rw (load_button-saved (str k) b (rw (← same) at small_id) small_type) (
        ap (λ j. load_buttons to_int (keyed (λ x. sort_json (button_to_dict x)) d) (insert j s e))
          same
        ∙ load_buttons-saved d (insert k s e) h u.1 (fresh_rest k b d s e u.0 fresh)
        ∙ ap ok (insert-append k s e (map_values stored_button d) (fresh_first k b d e fresh)))

  load_category-saved :
      (c : Option ℕ) → load_category to_int (sort_json (json_int c)) ≡ ok (Option.map pos c)
  unfolding load_category sort_json
  load_category-saved none = refl
  load_category-saved (some n) = rw (reads_ints (pos n)) refl

  sorted_buttons :
      (d : Dict ButtonConfiguration)
      → sort_fields (keyed button_to_dict (sorted d))
        ≡ keyed (λ b. sort_json (button_to_dict b)) (rearranged d)
  sorted_buttons d = rw (sorted-eq-arrange d) (sort_fields-keyed button_to_dict (arrange leb d))

  IsEntry-is_identifier :
      (k n : ℕ) → n ≡ k → 0 < k → k ≤ 0xffffffff → not (is_identifier to_int (pos n)) ≡ false
  IsEntry-is_identifier k n same positive small = ground arith

  rearranged_buttons-saved :
      (d : Dict ButtonConfiguration)
      → All IsButtonEntry d
      → HasUniqueKeys d
      → load_buttons to_int (sort_fields (keyed button_to_dict (sorted d))) []
        ≡ ok (map_values stored_button (rearranged d))
  unfolding contains
  rearranged_buttons-saved d h u = rw (sorted_buttons d) (
      load_buttons-saved (rearranged d) [] (rearranged-All IsButtonEntry d h)
        (rearranged-HasUniqueKeys d u) (λ k e. refl))

  pub load_target-saved :
      (key : Text) (k : ℕ) (t : TargetConfiguration)
      → IsEntry (k, t)
      → load_target to_int key (sort_json (target_to_dict t)) ≡ ok (stored_target t)
  unfolding load_target load_fields target_to_dict sort_json get_or is_before insert_field
  load_target-saved key k t (same, positive, small, (buttons, unique)) =
      rw (reads_ints (pos t.target_identifier)) (
        if_of_false _ _ _ (IsEntry-is_identifier k t.target_identifier same positive small)
        ∙ (rw
            (
              rearranged_buttons-saved t.buttons buttons unique,
              load_category-saved t.target_category,
              sort_json_text t.target_name,
            )
            refl))
