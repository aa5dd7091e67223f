-- ===== src/Remote/Saved.antt =====
-- What `_load_targets` of remote.py gives after `_save_targets`.
use mathlib.Core.Option
use atv_homekit_remote.Prelude.{
  ℕ, ◌≡◌, refl, sym, ap, ◌∙◌, inl, inr, ◌≤◌, false, Option, none, some, [], ◌∷◌, ◌++◌, append-nil,
  leb, ltb, ◌==◌, arith, length, All, Result, ok, Bool-cases, if_of_false,
}
use atv_homekit_remote.Prelude.Int.{ℤ, pos}
use atv_homekit_remote.Prelude.Dict.{
  Dict, lookup, insert, AreFresh, fresh_rest, fresh_first, insert-append, map_values,
  contains-map_values, lookup-map_values,
}
use atv_homekit_remote.Remote.Target.{TargetConfiguration, sorted}
use atv_homekit_remote.Remote.State.{Remote, Platform, save_targets}
use atv_homekit_remote.Remote.Valid.{HasUniqueKeys, IsEntry, IsKnown, IsValid}
use atv_homekit_remote.Remote.Life.{Reaches, Reaches-IsValid}
use atv_homekit_remote.Remote.Loading.{
  Json, int, get_or, count_fields, StoredTarget, load_entries, known_active, load_state,
  load_payload, load_targets,
}
use atv_homekit_remote.Remote.Saving.{
  str, is_before, insert_field, sort_json, sort_fields, keyed, json_text, target_to_dict,
  targets_payload, saved_file, stored_file,
}
use atv_homekit_remote.Remote.Arranged.{
  rearranged, arrange, count_fields-keyed, rearranged-All, rearranged-HasUniqueKeys,
  length-rearranged, contains-rearranged, lookup-rearranged, sorted-eq-arrange, sort_fields-keyed,
}
use atv_homekit_remote.Remote.SavedTarget.{stored_button, stored_target, load_target-saved}

-- The stored target has the target's identifier, name, category and buttons.
pub record IsCopy (t : TargetConfiguration) (s : StoredTarget) : Type 0 where
  pub identifier : s.target_identifier ≡ t.target_identifier
  pub name : s.target_name ≡ json_text t.target_name
  pub category : s.target_category ≡ Option.map pos t.target_category
  pub buttons : (k : ℕ) → lookup k s.buttons ≡ Option.map stored_button (lookup k t.buttons)

abbrev pub AreCopies : Option TargetConfiguration → Option StoredTarget → Type 0
AreCopies none none = Unit
AreCopies (some t) (some s) = IsCopy t s
AreCopies _ _ = ⊥

stored_target-IsCopy :
    (t : TargetConfiguration) → HasUniqueKeys t.buttons → IsCopy t (stored_target t)
stored_target-IsCopy t u = record {
  identifier = refl;
  name = refl;
  category = refl;
  buttons = λ k.
      lookup-map_values stored_button k (rearranged t.buttons)
      ∙ ap (Option.map stored_button) (lookup-rearranged k t.buttons u);
}

stored-AreCopies :
    (k : ℕ) (d : Dict TargetConfiguration)
    → All IsEntry d
    → AreCopies (lookup k d) (Option.map stored_target (lookup k d))
unfolding lookup
stored-AreCopies k [] h = tt
stored-AreCopies k ((j, t) ∷ d) h = elim (Bool-cases (k == j)) [
  | inl here ↦ rw here (stored_target-IsCopy t h.0.3.1)
  | inr there ↦ rw there (stored-AreCopies k d h.1)
]

module _ (to_int : Json → Result ℤ) (reads_ints : (z : ℤ) → to_int (int z) ≡ ok z) where
  load_entries-saved :
      (d : Dict TargetConfiguration) (e : Dict StoredTarget)
      → All IsEntry d
      → HasUniqueKeys d
      → AreFresh d e
      → load_entries to_int (keyed (λ t. sort_json (target_to_dict t)) d) e
        ≡ ok (e ++ map_values stored_target d)
  unfolding load_entries
  load_entries-saved [] e h u fresh = ap ok (sym (append-nil e))
  load_entries-saved ((k, t) ∷ d) e (entry, h) u fresh =
      let s = stored_target t in
      rw (load_target-saved to_int reads_ints (str k) k t entry) (
        ap (λ j. load_entries to_int (keyed (λ x. sort_json (target_to_dict x)) d) (insert j s e))
          entry.0
        ∙ load_entries-saved d (insert k s e) h u.1 (fresh_rest k t d s e u.0 fresh)
        ∙ ap ok (insert-append k s e (map_values stored_target d) (fresh_first k t d e fresh)))

  sorted_targets :
      (d : Dict TargetConfiguration)
      → sort_fields (keyed target_to_dict (sorted d))
        ≡ keyed (λ t. sort_json (target_to_dict t)) (rearranged d)
  sorted_targets d = rw (sorted-eq-arrange d) (sort_fields-keyed target_to_dict (arrange leb d))

  known_active-saved :
      (d : Dict TargetConfiguration) (active : ℕ)
      → IsKnown active d
      → known_active to_int (pos active) (map_values stored_target (rearranged d)) ≡ active
  unfolding known_active
  known_active-saved d active h =
      let there =
        contains-map_values stored_target active (rearranged d) ∙ contains-rearranged active d in
      ground (arith, there, h)

  load_payload-saved :
      (d : Dict TargetConfiguration) (active : ℕ)
      → All IsEntry d
      → HasUniqueKeys d
      → length d ≤ 10
      → IsKnown active d
      → load_payload to_int (saved_file d active)
        ≡ ok (map_values stored_target (rearranged d), active)
  unfolding load_payload load_state saved_file targets_payload sort_json get_or is_before
      insert_field
  load_payload-saved d active h u few known =
      let f = λ (x : TargetConfiguration). sort_json (target_to_dict x) in
      let r = rearranged d in
      let short : ltb 10 (count_fields (keyed f r)) ≡ false =
        ground (arith, count_fields-keyed f r, length-rearranged d) in
      let entries =
        load_entries-saved r [] (rearranged-All IsEntry d h) (rearranged-HasUniqueKeys d u)
          (λ k e. refl) in
      let same = known_active-saved d active known in
      rw (sorted_targets d) (
        if_of_false _ _ _ short
        ∙ (rw (entries, reads_ints (pos active))
            (ap (λ n. ok (map_values stored_target r, n)) same)))

  load_targets-ok :
      (raw : Json) (d : Dict StoredTarget) (active : ℕ)
      → load_payload to_int raw ≡ ok (d, active)
      → load_targets to_int (some (ok raw))
        ≡ record { targets = d; active_identifier = active; quarantined = false }
  unfolding load_targets
  load_targets-ok raw d active e = rw (load_targets, e) refl

  load_targets-saved_file :
      (d : Dict TargetConfiguration) (active : ℕ)
      → All IsEntry d
      → HasUniqueKeys d
      → length d ≤ 10
      → IsKnown active d
      → let loaded = load_targets to_int (some (ok (saved_file d active))) in
        (loaded.quarantined ≡ false)
        × (loaded.active_identifier ≡ active)
        × ((k : ℕ) → AreCopies (lookup k d) (lookup k loaded.targets))
  load_targets-saved_file d active h u few known =
      rw (load_targets-ok _ _ active (load_payload-saved d active h u few known)) (
        refl,
        refl,
        λ k.
            let read =
              lookup-map_values stored_target k (rearranged d)
              ∙ ap (Option.map stored_target) (lookup-rearranged k d u) in
            rw read (stored-AreCopies k d h),
      )

  saved_state :
      (env : Platform) (r : Remote)
      → env.write_error r ≡ none
      → save_targets env r ≡ (ok tt, record r { stored = some (r.active_identifier, r.targets) })
  unfolding save_targets
  saved_state env r e = rw (save_targets, e) refl

  -- If `int` reads an integer as itself: in every state that the handlers reach from a valid one, a
  -- save that can write its file returns, and `_load_targets` reads from that file the same targets,
  -- no more and no less, with their names, categories and buttons, and the same active identifier;
  -- the file is not put aside.
  pub load_targets-save_targets :
      (env : Platform) {r s : Remote}
      → IsValid r
      → Reaches env r s
      → env.write_error s ≡ none
      → let saved = save_targets env s in
        let loaded = load_targets to_int (stored_file saved.1.stored) in
        (saved.0 ≡ ok tt)
        × (loaded.quarantined ≡ false)
        × (loaded.active_identifier ≡ s.active_identifier)
        × ((k : ℕ) → AreCopies (lookup k s.targets) (lookup k loaded.targets))
  unfolding IsValid stored_file
  load_targets-save_targets env {s} valid reached e =
      let h = Reaches-IsValid env valid reached in
      let (kept, active, copies) =
        load_targets-saved_file s.targets s.active_identifier h.entries h.unique h.few h.known in
      rw (saved_state env s e) (refl, kept, active, copies)
