-- ===== src/Remote/Arranged.antt =====
-- The orders in which `_save_targets` of remote.py writes a dictionary's items: sorted by their keys,
-- and then by the texts of the keys.
use atv_homekit_remote.Prelude.{
  ℕ, suc, ◌≡◌, refl, ap, ◌∙◌, Bool, true, false, some, [], ◌∷◌, leb, ◌==◌, if◌then◌else◌, arith,
  length, All,
}
use atv_homekit_remote.Prelude.Dict.{Dict, lookup, contains}
use atv_homekit_remote.Remote.Target.{insert_sorted, sorted}
use atv_homekit_remote.Remote.Valid.{HasUniqueKeys}
use atv_homekit_remote.Remote.Loading.{Json, count_fields}
use atv_homekit_remote.Remote.Saving.{str, is_before, insert_field, sort_json, sort_fields, keyed}

module _ {V : Type 0} (before : ℕ → ℕ → Bool) where
  abbrev pub put : ℕ → V → Dict V → Dict V
  put k v [] = (k, v) ∷ []
  put k v ((j, w) ∷ d) = if before k j then (k, v) ∷ (j, w) ∷ d else (j, w) ∷ put k v d

  abbrev pub arrange : Dict V → Dict V
  arrange [] = []
  arrange ((k, v) ∷ d) = put k v (arrange d)

  lookup-put :
      (i k : ℕ) (v : V) (d : Dict V)
      → contains k d ≡ false
      → lookup i (put k v d) ≡ (if i == k then some v else lookup i d)
  unfolding lookup contains
  lookup-put i k v [] h = refl
  lookup-put i k v ((j, w) ∷ d) h = ground (arith, lookup-put i k v d)

  contains-put :
      (i k : ℕ) (v : V) (d : Dict V)
      → contains i (put k v d) ≡ (if i == k then true else contains i d)
  unfolding contains
  contains-put i k v [] = refl
  contains-put i k v ((j, w) ∷ d) = ground (arith, contains-put i k v d)

  put-HasUniqueKeys :
      (k : ℕ) (v : V) (d : Dict V)
      → contains k d ≡ false
      → HasUniqueKeys d
      → HasUniqueKeys (put k v d)
  unfolding contains
  put-HasUniqueKeys k v [] h u = (refl, tt)
  put-HasUniqueKeys k v ((j, w) ∷ d) h u =
      ground (arith, put-HasUniqueKeys k v d, contains-put j k v d, u.0, u.1)

  length-put : (k : ℕ) (v : V) (d : Dict V) → length (put k v d) ≡ suc (length d)
  length-put k v [] = refl
  length-put k v ((j, w) ∷ d) = ground (arith, length-put k v d)

  put-All :
      (P : ℕ × V → Type 0) (k : ℕ) (v : V) (d : Dict V) → P (k, v) → All P d → All P (put k v d)
  put-All P k v [] p h = (p, tt)
  put-All P k v ((j, w) ∷ d) p h = ground (arith, put-All P k v d p h.1)

  pub contains-arrange : (i : ℕ) (d : Dict V) → contains i (arrange d) ≡ contains i d
  unfolding contains
  contains-arrange i [] = refl
  contains-arrange i ((k, v) ∷ d) =
      ground (arith, contains-put i k v (arrange d), contains-arrange i d)

  pub lookup-arrange : (i : ℕ) (d : Dict V) → HasUniqueKeys d → lookup i (arrange d) ≡ lookup i d
  unfolding lookup
  lookup-arrange i [] u = refl
  lookup-arrange i ((k, v) ∷ d) u =
      ground
        (arith, lookup-put i k v (arrange d) (contains-arrange k d ∙ u.0), lookup-arrange i d u.1)

  pub arrange-HasUniqueKeys : (d : Dict V) → HasUniqueKeys d → HasUniqueKeys (arrange d)
  arrange-HasUniqueKeys [] u = tt
  arrange-HasUniqueKeys ((k, v) ∷ d) u =
      put-HasUniqueKeys k v (arrange d) (contains-arrange k d ∙ u.0) (arrange-HasUniqueKeys d u.1)

  pub length-arrange : (d : Dict V) → length (arrange d) ≡ length d
  length-arrange [] = refl
  length-arrange ((k, v) ∷ d) = length-put k v (arrange d) ∙ ap suc (length-arrange d)

  pub arrange-All : (P : ℕ × V → Type 0) (d : Dict V) → All P d → All P (arrange d)
  arrange-All P [] h = tt
  arrange-All P ((k, v) ∷ d) h = put-All P k v (arrange d) h.0 (arrange-All P d h.1)

abbrev pub by_text : ℕ → ℕ → Bool
by_text k j = is_before (str k) (str j)

module _ {V : Type 0} where
  insert_sorted-eq-put : (k : ℕ) (v : V) (d : Dict V) → insert_sorted k v d ≡ put leb k v d
  unfolding insert_sorted
  insert_sorted-eq-put k v [] = refl
  insert_sorted-eq-put k v ((j, w) ∷ d) = ground (arith, insert_sorted-eq-put k v d)

  pub sorted-eq-arrange : (d : Dict V) → sorted d ≡ arrange leb d
  unfolding sorted
  sorted-eq-arrange [] = refl
  sorted-eq-arrange ((k, v) ∷ d) =
      ap (insert_sorted k v) (sorted-eq-arrange d) ∙ insert_sorted-eq-put k v (arrange leb d)

  insert_field-keyed :
      (f : V → Json) (k : ℕ) (v : V) (d : Dict V)
      → insert_field (str k) (f v) (keyed f d) ≡ keyed f (put by_text k v d)
  unfolding insert_field
  insert_field-keyed f k v [] = refl
  insert_field-keyed f k v ((j, w) ∷ d) = ground (arith, insert_field-keyed f k v d)

  pub sort_fields-keyed :
      (f : V → Json) (d : Dict V)
      → sort_fields (keyed f d) ≡ keyed (λ v. sort_json (f v)) (arrange by_text d)
  unfolding sort_json
  sort_fields-keyed f [] = refl
  sort_fields-keyed f ((k, v) ∷ d) =
      ap (insert_field (str k) (sort_json (f v))) (sort_fields-keyed f d)
      ∙ insert_field-keyed (λ v. sort_json (f v)) k v (arrange by_text d)

module _ {V : Type 0} (f : V → Json) where
  pub count_fields-keyed : (d : Dict V) → count_fields (keyed f d) ≡ length d
  count_fields-keyed [] = refl
  count_fields-keyed ((k, v) ∷ d) = ap suc (count_fields-keyed d)

abbrev pub rearranged : {V : Type 0} → Dict V → Dict V
rearranged d = arrange by_text (arrange leb d)

module _ {V : Type 0} where
  pub rearranged-All : (P : ℕ × V → Type 0) (d : Dict V) → All P d → All P (rearranged d)
  rearranged-All P d h = arrange-All by_text P (arrange leb d) (arrange-All leb P d h)

  pub rearranged-HasUniqueKeys : (d : Dict V) → HasUniqueKeys d → HasUniqueKeys (rearranged d)
  rearranged-HasUniqueKeys d u =
      arrange-HasUniqueKeys by_text (arrange leb d) (arrange-HasUniqueKeys leb d u)

  pub length-rearranged : (d : Dict V) → length (rearranged d) ≡ length d
  length-rearranged d = length-arrange by_text (arrange leb d) ∙ length-arrange leb d

  pub contains-rearranged : (k : ℕ) (d : Dict V) → contains k (rearranged d) ≡ contains k d
  contains-rearranged k d = contains-arrange by_text k (arrange leb d) ∙ contains-arrange leb k d

  pub lookup-rearranged :
      (k : ℕ) (d : Dict V) → HasUniqueKeys d → lookup k (rearranged d) ≡ lookup k d
  lookup-rearranged k d u =
      lookup-arrange by_text k (arrange leb d) (arrange-HasUniqueKeys leb d u)
      ∙ lookup-arrange leb k d u
