-- ===== src/Prelude/Dict.antt =====
-- A Python dict with integer keys, in insertion order.
use mathlib.Core.Path.{◌≡◌, refl}
use mathlib.Core.Logic.{◌≢◌, inl, inr}
use mathlib.Core.Bool.{Bool, true, false}
use mathlib.Core.Option
use mathlib.Core.Option.{Option, none, some}
use mathlib.Core.List.{List, [], ◌∷◌, ◌++◌, append_assoc}
use Prim.Native.Nat.{ℕ, suc, ◌≤◌}
use native.Mathlib.Omega.{arith}
use atv_homekit_remote.Prelude.Tests.{◌==◌, if◌then◌else◌, Bool-cases}
use atv_homekit_remote.Prelude.Lists.{length, All}

abbrev pub Dict {ℓ} : Type ℓ → Type ℓ
Dict V = List (ℕ × V)

module _ {ℓ} {V : Type ℓ} where
  -- `d.get(k)`
  unfoldable pub lookup : ℕ → Dict V → Option V
  lookup k [] = none
  lookup k ((j, v) ∷ d) = if k == j then some v else lookup k d

  -- `k in d`
  unfoldable pub contains : ℕ → Dict V → Bool
  contains k [] = false
  contains k ((j, v) ∷ d) = if k == j then true else contains k d

  -- `d[k] = v`: an old key keeps its place.
  unfoldable pub insert : ℕ → V → Dict V → Dict V
  insert k v [] = (k, v) ∷ []
  insert k v ((j, w) ∷ d) = if k == j then (k, v) ∷ d else (j, w) ∷ insert k v d

  -- `d.pop(k, None)`
  unfoldable pub erase : ℕ → Dict V → Dict V
  erase k [] = []
  erase k ((j, w) ∷ d) = if k == j then d else (j, w) ∷ erase k d

  pub lookup-insert :
      (k j : ℕ) (v : V) (d : Dict V)
      → lookup j (insert k v d) ≡ (if j == k then some v else lookup j d)
  unfolding lookup insert
  lookup-insert k j v [] = refl
  lookup-insert k j v ((i, w) ∷ d) = ground (arith, lookup-insert k j v d)

  pub contains-insert :
      (k j : ℕ) (v : V) (d : Dict V)
      → contains j (insert k v d) ≡ (if j == k then true else contains j d)
  unfolding contains insert
  contains-insert k j v [] = refl
  contains-insert k j v ((i, w) ∷ d) = ground (arith, contains-insert k j v d)

  pub lookup-erase_ne : (k j : ℕ) (d : Dict V) → j ≢ k → lookup j (erase k d) ≡ lookup j d
  unfolding lookup erase
  lookup-erase_ne k j [] h = refl
  lookup-erase_ne k j ((i, w) ∷ d) h = ground (arith, lookup-erase_ne k j d)

  pub contains-erase_ne : (k j : ℕ) (d : Dict V) → j ≢ k → contains j (erase k d) ≡ contains j d
  unfolding contains erase
  contains-erase_ne k j [] h = refl
  contains-erase_ne k j ((i, w) ∷ d) h = ground (arith, contains-erase_ne k j d)

  pub length-insert :
      (k : ℕ) (v : V) (d : Dict V)
      → length (insert k v d) ≡ (if contains k d then length d else suc (length d))
  unfolding insert contains
  length-insert k v [] = refl
  length-insert k v ((i, w) ∷ d) = ground (arith, length-insert k v d)

  pub length-erase : (k : ℕ) (d : Dict V) → length (erase k d) ≤ length d
  unfolding erase
  length-erase k [] = omega arith
  length-erase k ((i, w) ∷ d) = ground (arith, length-erase k d)

  pub contains-lookup : (k : ℕ) (d : Dict V) → lookup k d ≡ none → contains k d ≡ false
  unfolding lookup contains
  contains-lookup k [] h = refl
  contains-lookup k ((j, v) ∷ d) h = ground (arith, contains-lookup k d)

-- What holds of all entries.
module _ {ℓ κ} {V : Type ℓ} (P : ℕ × V → Type κ) where
  pub insert-All : (k : ℕ) (v : V) (d : Dict V) → P (k, v) → All P d → All P (insert k v d)
  unfolding insert
  insert-All k v [] p h = (p, tt)
  insert-All k v ((j, w) ∷ d) p h = ground (arith, insert-All k v d p h.1)

  pub erase-All : (k : ℕ) (d : Dict V) → All P d → All P (erase k d)
  unfolding erase
  erase-All k [] h = tt
  erase-All k ((j, w) ∷ d) h = ground (arith, erase-All k d h.1)

  pub lookup-All : (k : ℕ) (v : V) (d : Dict V) → All P d → lookup k d ≡ some v → P (k, v)
  unfolding lookup
  lookup-All k v [] h e = cc
  lookup-All k v ((j, w) ∷ d) h e = ground (arith, lookup-All k v d h.1)

abbrev pub map_values : {V W : Type 0} → (V → W) → Dict V → Dict W
map_values f [] = []
map_values f ((k, v) ∷ d) = (k, f v) ∷ map_values f d

-- The keys of the one dictionary are not in the other.
abbrev pub AreFresh : {V W : Type 0} → Dict V → Dict W → Type 0
AreFresh d e = (k : ℕ) → contains k d ≡ true → contains k e ≡ false

module _ {W : Type 0} where
  insert_fresh :
      (k : ℕ) (w : W) (e : Dict W) → contains k e ≡ false → insert k w e ≡ e ++ ((k, w) ∷ [])
  unfolding insert contains
  insert_fresh k w [] h = refl
  insert_fresh k w ((j, x) ∷ e) h = ground (arith, insert_fresh k w e)

  -- An entry with a new key is the first of the rest.
  pub insert-append :
      (k : ℕ) (w : W) (e rest : Dict W)
      → contains k e ≡ false
      → insert k w e ++ rest ≡ e ++ ((k, w) ∷ rest)
  insert-append k w e rest h = rw (insert_fresh k w e h) (append_assoc e ((k, w) ∷ []) rest)

module _ {V W : Type 0} where
  pub fresh_rest :
      (k : ℕ) (v : V) (d : Dict V) (w : W) (e : Dict W)
      → contains k d ≡ false
      → AreFresh ((k, v) ∷ d) e
      → AreFresh d (insert k w e)
  unfolding contains
  fresh_rest k v d w e new fresh i h = ground (arith, contains-insert k i w e, fresh i)

  pub fresh_first :
      (k : ℕ) (v : V) (d : Dict V) (e : Dict W) → AreFresh ((k, v) ∷ d) e → contains k e ≡ false
  unfolding contains
  fresh_first k v d e fresh = fresh k (ground arith)

module _ {V W : Type 0} (f : V → W) where
  pub contains-map_values : (k : ℕ) (d : Dict V) → contains k (map_values f d) ≡ contains k d
  unfolding contains
  contains-map_values k [] = refl
  contains-map_values k ((j, v) ∷ d) = ground (arith, contains-map_values k d)

  pub lookup-map_values :
      (k : ℕ) (d : Dict V) → lookup k (map_values f d) ≡ Option.map f (lookup k d)
  unfolding lookup
  lookup-map_values k [] = refl
  lookup-map_values k ((j, v) ∷ d) = elim (Bool-cases (k == j)) [
    | inl here ↦ rw here refl
    | inr there ↦ rw there (lookup-map_values k d)
  ]

pub ruleset dict_laws = (lookup-insert, contains-insert)
