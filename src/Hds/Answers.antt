-- ===== src/Hds/Answers.antt =====
-- The futures of the requests of an `HDSConnection` of hds.py: those that wait, and those that have
-- their answer.
use atv_homekit_remote.Prelude.{
  ℕ, ◌≡◌, refl, ◌⊎◌, inl, inr, true, false, some, List, [], ◌∷◌, ◌++◌, ◌==◌, if◌then◌else◌, arith,
  either, ok, Bool-cases,
}
use atv_homekit_remote.Prelude.Dict.{Dict, lookup, contains, insert, erase}
use atv_homekit_remote.HdsCodec.Value.{Formats}
use atv_homekit_remote.Hds.Connection.{Answer, settle, fail_all, draw_id}
use atv_homekit_remote.Remote.Valid.{HasUniqueKeys}

-- The future waits under some identifier.
abbrev pub IsRegistered : ℕ → Dict ℕ → Type 0
IsRegistered f [] = ⊥
IsRegistered f ((id, g) ∷ d) = (g ≡ f) ⊎ IsRegistered f d

pub insert-IsRegistered :
    (f id g : ℕ) (d : Dict ℕ)
    → contains id d ≡ false
    → IsRegistered f d
    → IsRegistered f (insert id g d)
unfolding insert contains
insert-IsRegistered f id g [] e h = absurd h
insert-IsRegistered f id g ((k, v) ∷ d) e (inl same) =
    either (IsRegistered f) (id == k) (λ hit. absurd (ground arith)) (λ miss. inl same)
insert-IsRegistered f id g ((k, v) ∷ d) e (inr h) =
    either (IsRegistered f) (id == k) (λ hit. inr h)
      (λ miss. inr (insert-IsRegistered f id g d (ground arith) h))

pub insert-IsRegistered_self : (id g : ℕ) (d : Dict ℕ) → IsRegistered g (insert id g d)
unfolding insert
insert-IsRegistered_self id g [] = inl refl
insert-IsRegistered_self id g ((k, v) ∷ d) =
    either (IsRegistered g) (id == k) (λ hit. inl refl)
      (λ miss. inr (insert-IsRegistered_self id g d))

pub erase-IsRegistered :
    (f id : ℕ) (d : Dict ℕ)
    → IsRegistered f d
    → IsRegistered f (erase id d) ⊎ (lookup id d ≡ some f)
unfolding erase lookup
erase-IsRegistered f id [] h = absurd h
erase-IsRegistered f id ((k, v) ∷ d) (inl same) = elim (Bool-cases (id == k)) [
  | inl hit ↦ inr (ground arith)
  | inr miss ↦ inl (rw miss (inl same))
]
erase-IsRegistered f id ((k, v) ∷ d) (inr h) = elim (Bool-cases (id == k)) [
  | inl hit ↦ inl (rw hit h)
  | inr miss ↦
      rw miss
        (elim (erase-IsRegistered f id d h) [ inl left ↦ inl (inr left) | inr found ↦ inr found ])
]

pub erase-insert_nil : (id g : ℕ) → erase id (insert id g []) ≡ []
unfolding erase insert
erase-insert_nil id g = ground arith

contains-append {ℓ} :
    {V : Type ℓ} (f : ℕ) (xs ys : Dict V)
    → contains f (xs ++ ys) ≡ (if contains f xs then true else contains f ys)
unfolding contains
contains-append f [] ys = refl
contains-append f ((k, v) ∷ xs) ys = ground (arith, contains-append f xs ys)

snoc-HasUniqueKeys {ℓ} :
    {V : Type ℓ} (f : ℕ) (v : V) (xs : Dict V)
    → contains f xs ≡ false
    → HasUniqueKeys xs
    → HasUniqueKeys (xs ++ ((f, v) ∷ []))
unfolding contains
snoc-HasUniqueKeys f v [] e h = (refl, tt)
snoc-HasUniqueKeys f v ((k, w) ∷ xs) e h = (
  ground (arith, contains-append k xs ((f, v) ∷ [])),
  snoc-HasUniqueKeys f v xs (ground arith) h.1,
)

module _ (fm : Formats) where
  pub settle_self :
      (f : ℕ) (a : Answer fm) (xs : List (ℕ × Answer fm)) → contains f (settle fm f a xs) ≡ true
  unfolding settle contains
  settle_self f a xs = ground (arith, contains-append f xs ((f, a) ∷ []))

  pub settle-keeps :
      (f g : ℕ) (a : Answer fm) (xs : List (ℕ × Answer fm))
      → contains f xs ≡ true
      → contains f (settle fm g a xs) ≡ true
  unfolding settle
  settle-keeps f g a xs h = ground (arith, contains-append f xs ((g, a) ∷ []))

  pub settle-HasUniqueKeys :
      (f : ℕ) (a : Answer fm) (xs : List (ℕ × Answer fm))
      → HasUniqueKeys xs
      → HasUniqueKeys (settle fm f a xs)
  unfolding settle
  settle-HasUniqueKeys f a xs h =
      either HasUniqueKeys (contains f xs) (λ e. h) (λ e. snoc-HasUniqueKeys f a xs e h)

  pub fail_all-keeps :
      (f : ℕ) (d : Dict ℕ) (xs : List (ℕ × Answer fm))
      → contains f xs ≡ true
      → contains f (fail_all fm d xs) ≡ true
  unfolding fail_all
  fail_all-keeps f [] xs h = h
  fail_all-keeps f ((id, g) ∷ d) xs h = fail_all-keeps f d _ (settle-keeps f g _ xs h)

  pub fail_all-reaches :
      (f : ℕ) (d : Dict ℕ) (xs : List (ℕ × Answer fm))
      → IsRegistered f d
      → contains f (fail_all fm d xs) ≡ true
  unfolding fail_all
  fail_all-reaches f [] xs h = absurd h
  fail_all-reaches f ((id, g) ∷ d) xs (inl same) =
      fail_all-keeps f d _ (rw (← same) (settle_self g _ xs))
  fail_all-reaches f ((id, g) ∷ d) xs (inr h) = fail_all-reaches f d _ h

  pub fail_all-HasUniqueKeys :
      (d : Dict ℕ) (xs : List (ℕ × Answer fm)) → HasUniqueKeys xs → HasUniqueKeys (fail_all fm d xs)
  unfolding fail_all
  fail_all-HasUniqueKeys [] xs h = h
  fail_all-HasUniqueKeys ((id, g) ∷ d) xs h =
      fail_all-HasUniqueKeys d _ (settle-HasUniqueKeys g _ xs h)

  pub draw_id-fresh :
      (draws : List ℕ) (d : Dict ℕ) (id : ℕ) → draw_id fm draws d ≡ ok id → contains id d ≡ false
  unfolding draw_id
  draw_id-fresh [] d id e = cc
  draw_id-fresh (n ∷ draws) d id e = ground (arith, draw_id-fresh draws d id)
