-- ===== src/HdsCodec/Tracking.antt =====
-- The two `seen` lists. Up to the 48 entries that a reference can name, the decoder's holds what
-- the encoder's stands for; beyond those they may differ.
use atv_homekit_remote.Prelude.{
  ℕ, zero, suc, ◌≤◌, ◌<◌, ◌≡◌, refl, ap, some, List, [], ◌∷◌, ◌++◌, map, length, take, take_nil,
  get_elem?, arith, true, Bool-cases, inl, inr, Option-cases,
}
use atv_homekit_remote.HdsCodec.Value.{HdsValue, Formats, same_value}
use atv_homekit_remote.HdsCodec.Encoder.{index_of}

uncons : {A : Type 0} {x y : A} {xs ys : List A} → x ∷ xs ≡ y ∷ ys → (x ≡ y) × (xs ≡ ys)
uncons h = (cc, cc)

join {ℓ} : {A : Type ℓ} {x y : A} {xs ys : List A} → x ≡ y → xs ≡ ys → x ∷ xs ≡ y ∷ ys
join p q = cc

module _ {A : Type 0} (f : A → A) where
  -- The first `n` entries of `ds` are what those of `es` stand for.
  abbrev pub Agree : ℕ → List A → List A → Type 0
  Agree n es ds = take n ds ≡ map f (take n es)

  -- Both sides track one more value.
  pub Agree-both :
      (n : ℕ) (es ds : List A) (a : A) → Agree n es ds → Agree n (es ++ (a ∷ [])) (ds ++ (f a ∷ []))
  Agree-both zero es ds a h = refl
  Agree-both (suc n) [] [] a h = ap (λ t. f a ∷ t) (rw take_nil)
  Agree-both (suc n) [] (d ∷ ds) a h = cc
  Agree-both (suc n) (e ∷ es) [] a h = cc
  Agree-both (suc n) (e ∷ es) (d ∷ ds) a h =
      let (p, q) = uncons h in join p (Agree-both n es ds a q)

  -- Only the decoder does, past what the encoder can name.
  pub Agree-decoder :
      (n : ℕ) (es ds : List A) (d' : A)
      → n ≤ length es
      → Agree n es ds
      → Agree n es (ds ++ (d' ∷ []))
  Agree-decoder zero es ds d' l h = refl
  Agree-decoder (suc n) [] ds d' l h = absurd (omega arith)
  Agree-decoder (suc n) (e ∷ es) [] d' l h = cc
  Agree-decoder (suc n) (e ∷ es) (d ∷ ds) d' l h =
      let (p, q) = uncons h in join p (Agree-decoder n es ds d' (omega arith) q)

  pub Agree-get_elem? :
      (n i : ℕ) (es ds : List A) (a : A)
      → i < n
      → Agree n es ds
      → get_elem? es i ≡ some a
      → get_elem? ds i ≡ some (f a)
  Agree-get_elem? zero i es ds a l h g = absurd (omega arith)
  Agree-get_elem? (suc n) i [] ds a l h g = cc
  Agree-get_elem? (suc n) i (e ∷ es) [] a l h g = cc
  Agree-get_elem? (suc n) zero (e ∷ es) (d ∷ ds) a l h g = cc
  Agree-get_elem? (suc n) (suc i) (e ∷ es) (d ∷ ds) a l h g =
      Agree-get_elem? n i es ds a (omega arith) (uncons h).1 g

-- The index at which an equal value stands, and that value.
module _ (fm : Formats) where
  open fm use {Float}

  pub index_of-found :
      (v : HdsValue Float) (es : List (HdsValue Float)) (i : ℕ)
      → index_of fm v es ≡ some i
      → (w : HdsValue Float) × (get_elem? es i ≡ some w)
        × (same_value fm w v ≡ true)
        × (i < length es)
  unfolding index_of
  index_of-found v [] i h = cc
  index_of-found v (w ∷ ws) i h = elim (Bool-cases (same_value fm w v)) [
    | inl same ↦ let e : i ≡ 0 = cc (rw same at h) in (w, rw e, same, rw e (omega arith))
    | inr other ↦ elim (Option-cases (index_of fm v ws)) [
      | inl missing ↦ cc (rw (other, missing) at h)
      | inr (j, found) ↦
          let e : i ≡ suc j = cc (rw (other, found) at h) in
          let (u, g, s, l) = index_of-found v ws j found in (u, rw e g, s, rw e (omega arith))
    ]
  ]
