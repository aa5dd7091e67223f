-- ===== src/Remote/Loaded.antt =====
-- What `_load_targets` of remote.py can load, whatever the file holds.
use atv_homekit_remote.Prelude.{
  ℕ, ◌+◌, ◌≡◌, refl, sym, ◌∙◌, ◌⊎◌, inl, inr, ◌≤◌, ◌<◌, true, not, Option, none, some, [], ltb,
  ◌==◌, ◌&&◌, if◌then◌else◌, arith, codes, either, either_ok, Bool-cases, length, All, Result, ok,
  err, value_error, ◌>>=◌, >>=-eq-ok,
}
use atv_homekit_remote.Prelude.Int.{ℤ, pos, negsuc, to_ℕ, is_within-le}
use atv_homekit_remote.Prelude.Dict.{Dict, contains, insert, insert-All, length-insert}
use atv_homekit_remote.Utf8.{Text}
use atv_homekit_remote.Remote.Target.{sorted}
use atv_homekit_remote.Remote.Control.{max_targets, first_key}
use atv_homekit_remote.Remote.Valid.{HasUniqueKeys, insert-HasUniqueKeys, contains-sorted}
use atv_homekit_remote.Remote.Removal.{first_key-contains}
use atv_homekit_remote.Remote.Loading.{
  Json, null, int, text, object, Fields, end, check_button, load_fields, field, fields_of, get_or,
  get_key, count_fields, StoredButton, StoredTarget, load_button, load_buttons, load_category,
  is_identifier, load_target, load_entries, known_active, load_payload, load_state, Loaded,
  load_targets,
}

abbrev pub IsStoredButton : ℕ × StoredButton → Type 0
IsStoredButton (key, button) =
    (button.button_id ≡ key) × (button.button_id ≤ 255) × (button.button_type ≤ 65535)

abbrev pub IsStoredTarget : ℕ × StoredTarget → Type 0
IsStoredTarget (key, target) =
    (target.target_identifier ≡ key)
    × (0 < key)
    × (key ≤ 0xffffffff)
    × All IsStoredButton target.buttons

-- At most ten targets, each once and under its own 32-bit identifier, which is not 0, with buttons
-- that fit a byte and their types 16 bits; the active one is 0 or there.
pub record IsStored (targets : Dict StoredTarget) (active : ℕ) : Type 0 where
  pub few : length targets ≤ 10
  pub entries : All IsStoredTarget targets
  pub unique : HasUniqueKeys targets
  pub known : (active ≡ 0) ⊎ (contains active targets ≡ true)

least :
    (d : Dict StoredTarget)
    → (first_key (sorted d) ≡ 0) ⊎ (contains (first_key (sorted d)) d ≡ true)
least d = elim (first_key-contains (sorted d)) [
  | inl z ↦ inl z
  | inr c ↦ inr (sym (contains-sorted (first_key (sorted d)) d) ∙ c)
]

nothing : IsStored [] 0
nothing = record { few = omega arith; entries = tt; unique = tt; known = inl refl }

module _ (to_int : Json → Result ℤ) where
  check_button-bounds :
      (id kind : ℤ) (name : Json) (b : StoredButton)
      → check_button to_int id kind name ≡ ok b
      → (b.button_id ≤ 255) × (b.button_type ≤ 65535)
  unfolding check_button
  check_button-bounds id kind name b h =
      (ground (arith, is_within-le 255 id), ground (arith, is_within-le 65535 kind))

  load_button-bounds :
      (key : Text) (raw : Json) (b : StoredButton)
      → load_button to_int key raw ≡ ok b
      → (b.button_id ≤ 255) × (b.button_type ≤ 65535)
  unfolding load_button
  load_button-bounds key raw b e =
      let (fs, e0, e1) = >>=-eq-ok (fields_of raw) _ e in
      let (id, e2, e3) = >>=-eq-ok (to_int (get_or (codes "button_id") (text key) fs)) _ e1 in
      let (raw_kind, e4, e5) = >>=-eq-ok (get_key (codes "button_type") fs) _ e3 in
      let (kind, e6, e7) = >>=-eq-ok (to_int raw_kind) _ e5 in
      check_button-bounds id kind (get_or (codes "button_name") null fs) b e7

  load_buttons-All :
      (fs : Fields) (d e : Dict StoredButton)
      → load_buttons to_int fs d ≡ ok e
      → All IsStoredButton d
      → All IsStoredButton e
  unfolding load_buttons
  load_buttons-All end d e h all = let same : d ≡ e = ground arith in rw same at all
  load_buttons-All (field key raw fs) d e h all =
      let (b, h0, h1) = >>=-eq-ok (load_button to_int key raw) _ h in
      let (small_id, small_type) = load_button-bounds key raw b h0 in
      load_buttons-All fs (insert b.button_id b d) e h1
        (insert-All IsStoredButton b.button_id b d (refl, small_id, small_type) all)

  load_fields-buttons :
      (n : ℕ) (fs : Fields) (t : StoredTarget)
      → load_fields to_int n fs ≡ ok t
      → (t.target_identifier ≡ n) × All IsStoredButton t.buttons
  unfolding load_fields
  load_fields-buttons n fs t e =
      let (bs, h0, h1) = >>=-eq-ok (fields_of (get_or (codes "buttons") (object end) fs)) _ e in
      let (buttons, h2, h3) = >>=-eq-ok (load_buttons to_int bs []) _ h1 in
      let (category, h4, h5) =
        >>=-eq-ok (load_category to_int (get_or (codes "target_category") null fs)) _ h3 in
      let same : buttons ≡ t.buttons = ground arith in
      (ground arith, rw same at (load_buttons-All bs [] buttons h2 tt))

  load_target-IsStoredTarget :
      (key : Text) (raw : Json) (t : StoredTarget)
      → load_target to_int key raw ≡ ok t
      → IsStoredTarget (t.target_identifier, t)
  unfolding load_target
  load_target-IsStoredTarget key raw t e =
      let (fs, e0, e1) = >>=-eq-ok (fields_of raw) _ e in
      let (z, e2, e3) =
        >>=-eq-ok (to_int (get_or (codes "target_identifier") (text key) fs)) _ e1 in
      ranged fs z e3
    where
      ranged :
          (fs : Fields) (z : ℤ)
          → (if not (is_identifier to_int z)
              then err value_error
              else load_fields to_int (to_ℕ z) fs)
            ≡ ok t
          → IsStoredTarget (t.target_identifier, t)
      ranged fs (negsuc n) h = absurd (ground arith)
      ranged fs (pos n) h = elim (Bool-cases (is_identifier to_int (pos n))) [
        | inr out ↦ absurd (ground arith)
        | inl within ↦
            let (same, all) = load_fields-buttons n fs t (rw within at h) in
            (refl, ground arith, ground arith, all)
      ]

  load_entries-IsStored :
      (fs : Fields) (d e : Dict StoredTarget)
      → load_entries to_int fs d ≡ ok e
      → All IsStoredTarget d
      → HasUniqueKeys d
      → All IsStoredTarget e × HasUniqueKeys e × (length e ≤ length d + count_fields fs)
  unfolding load_entries
  load_entries-IsStored end d e h all unique =
      let same : d ≡ e = ground arith in rw (← same) (all, unique, omega arith)
  load_entries-IsStored (field key raw fs) d e h all unique =
      let (t, h0, h1) = >>=-eq-ok (load_target to_int key raw) _ h in
      let id = t.target_identifier in
      let (all', unique', few) =
        load_entries-IsStored fs (insert id t d) e h1
          (insert-All IsStoredTarget id t d (load_target-IsStoredTarget key raw t h0) all)
          (insert-HasUniqueKeys id t d unique) in
      (all', unique', ground (arith, length-insert id t d))

  known_active-known :
      (z : ℤ) (d : Dict StoredTarget)
      → (known_active to_int z d ≡ 0) ⊎ (contains (known_active to_int z d) d ≡ true)
  unfolding known_active
  known_active-known (negsuc n) d = least d
  known_active-known (pos n) d =
      either (λ k. (k ≡ 0) ⊎ (contains k d ≡ true)) (not (n == 0) && not (contains n d))
        (λ e. least d)
        (λ e. elim (Bool-cases (n == 0)) [
          | inl zero_ ↦ inl (ground arith)
          | inr other ↦ inr (ground arith)
        ])

  load_state-IsStored :
      (payload targets : Fields) (d : Dict StoredTarget) (active : ℕ)
      → count_fields targets ≤ 10
      → load_state to_int payload targets ≡ ok (d, active)
      → IsStored d active
  unfolding load_state
  load_state-IsStored payload targets d active few h =
      let (loaded, h0, h1) = >>=-eq-ok (load_entries to_int targets []) _ h in
      let (z, h2, h3) =
        >>=-eq-ok (to_int (get_or (codes "active_identifier") (int (pos 0)) payload)) _ h1 in
      let (all, unique, short) = load_entries-IsStored targets [] loaded h0 tt tt in
      let same : loaded ≡ d = ground arith in
      let now : known_active to_int z loaded ≡ active = ground arith in
      rw (← same, ← now)
        (record {
          few = ground arith;
          entries = all;
          unique = unique;
          known = known_active-known z loaded;
        })

  load_payload-IsStored :
      (raw : Json) (d : Dict StoredTarget) (active : ℕ)
      → load_payload to_int raw ≡ ok (d, active)
      → IsStored d active
  unfolding load_payload
  load_payload-IsStored raw d active e =
      let (payload, e0, e1) = >>=-eq-ok (fields_of raw) _ e in
      let (targets, e2, e3) =
        >>=-eq-ok (fields_of (get_or (codes "targets") (object end) payload)) _ e1 in
      elim (Bool-cases (ltb max_targets (count_fields targets))) [
        | inl many ↦ absurd (ground arith)
        | inr few ↦ load_state-IsStored payload targets d active (ground arith) (rw few at e3)
      ]

  -- Whatever targets.json holds, and whether or not it can be read: loading raises nothing, and gives
  -- at most ten targets, each once and under its own 32-bit identifier, which is not 0, with buttons
  -- in their ranges, and an active identifier that is 0 or one of theirs.
  pub load_targets-IsStored :
      (file : Option (Result Json))
      → let loaded = load_targets to_int file in IsStored loaded.targets loaded.active_identifier
  unfolding load_targets
  load_targets-IsStored none = nothing
  load_targets-IsStored (some file) =
      either_ok (λ (l : Loaded to_int). IsStored l.targets l.active_identifier)
        (file >>= load_payload to_int) (λ e h. nothing)
        (λ (d, active) h.
          let (raw, h0, h1) = >>=-eq-ok file (load_payload to_int) h in
          load_payload-IsStored raw d active h1)
