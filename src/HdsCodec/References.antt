-- ===== src/HdsCodec/References.antt =====
-- One value written and read back: what both sides track, and references to earlier values.
use atv_homekit_remote.Prelude.{
  ℕ, zero, suc, ◌+◌, ◌≤◌, ◌<◌, ◌≡◌, ap, ◌∙◌, some, List, [], ◌∷◌, ◌++◌, arith, length, ltb-false,
  leb, false, Bool-cases, Option-cases, inl, inr, All, All-append, Bytes, get_elem?, Result, ok,
  err, >>=-eq-ok,
}
use mathlib.Core.Path.{subst, subst₂}
use atv_homekit_remote.HdsCodec.Value.{HdsValue, Formats, decoded}
use atv_homekit_remote.HdsCodec.Tag.{tag_kind, tag_kind-compressed}
use atv_homekit_remote.HdsCodec.Encoder.{index_of, beside, compress_or}
use atv_homekit_remote.HdsCodec.Decoder.{
  read_kind, read_reference, read_tagged, read_value, is_terminator,
}
use atv_homekit_remote.HdsCodec.Tracking.{
  Agree, Agree-both, Agree-decoder, Agree-get_elem?, index_of-found,
}
use atv_homekit_remote.HdsCodec.Exact.{IsExact, same_value→decoded}
use atv_homekit_remote.HdsCodec.Literals.{IsLiteral}

module _ {A : Type 0} (P : A → Type 0) where
  All-get_elem? : (xs : List A) (i : ℕ) (a : A) → All P xs → get_elem? xs i ≡ some a → P a
  All-get_elem? [] i a h e = cc
  All-get_elem? (x ∷ xs) zero a h e = subst P (cc) h.0
  All-get_elem? (x ∷ xs) (suc i) a h e = All-get_elem? xs i a h.1 e

module _ (fm : Formats) where
  open fm use {Float}

  -- Bytes that the decoder reads as `u` at depth `d`, and the states of both sides behind them.
  pub record Decodes (u : HdsValue Float) (d : ℕ) (es' ds : List (HdsValue Float)) (out : Bytes)
      : Type 0 where
    pub ds' : List (HdsValue Float)
    pub agree : Agree (decoded fm) 48 es' ds'
    pub exact : All (IsExact fm) es'
    pub nonempty : 0 < length out
    pub plain : is_terminator fm u ≡ false
    pub reads :
        (fuel : ℕ) (rest : Bytes)
        → 66 ≤ fuel + d
        → read_value fm fuel d (record { rest = out ++ rest; seen = ds })
          ≡ ok (u, record { rest = rest; seen = ds' })

  -- One round of `_value` on a tag.
  pub read_value_step :
      (fuel d tag : ℕ) (body : Bytes) (ds : List (HdsValue Float))
      → d ≤ 64
      → read_value fm (suc fuel) d (record { rest = tag ∷ body; seen = ds })
        ≡ read_kind fm
            (read_value fm fuel (suc d))
            (tag_kind tag)
            (record { rest = body; seen = ds })
  unfolding read_value read_tagged
  read_value_step fuel d tag body ds h = rw (ltb-false 64 d h)

  -- What the tag's kind reads, the value reads.
  pub by_kind :
      (u : HdsValue Float) (d tag : ℕ) (body : Bytes) (es' ds ds' : List (HdsValue Float))
      → d ≤ 64
      → Agree (decoded fm) 48 es' ds'
      → All (IsExact fm) es'
      → is_terminator fm u ≡ false
      → ((fuel : ℕ) (rest : Bytes)
          → 65 ≤ fuel + d
          → read_kind fm
              (read_value fm fuel (suc d))
              (tag_kind tag)
              (record { rest = body ++ rest; seen = ds })
            ≡ ok (u, record { rest = rest; seen = ds' }))
      → Decodes u d es' ds (tag ∷ body)
  by_kind u d tag body es' ds ds' h a x p k = record {
    ds' = ds';
    agree = a;
    exact = x;
    nonempty = omega arith;
    plain = p;
    reads = λ fuel rest f. from_fuel fuel rest f;
  }
    where
      from_fuel :
          (fuel : ℕ) (rest : Bytes)
          → 66 ≤ fuel + d
          → read_value fm fuel d (record { rest = (tag ∷ body) ++ rest; seen = ds })
            ≡ ok (u, record { rest = rest; seen = ds' })
      from_fuel zero rest f = absurd (omega arith)
      from_fuel (suc fuel) rest f =
          read_value_step fuel d tag (body ++ rest) ds h ∙ k fuel rest (omega arith)

  -- What both sides track.
  pub record Before (es ds : List (HdsValue Float)) : Type 0 where
    pub agree : Agree (decoded fm) 48 es ds
    pub exact : All (IsExact fm) es

  pub tracked-Decodes :
      (v : HdsValue Float) (d : ℕ) (es ds : List (HdsValue Float)) (lit : Bytes)
      → d ≤ 64
      → IsExact fm v
      → Before es ds
      → is_terminator fm (decoded fm v) ≡ false
      → IsLiteral fm (decoded fm v) lit
      → Decodes (decoded fm v) d (es ++ (v ∷ [])) ds lit
  tracked-Decodes v d es ds lit h x b p l = rw l.whole (
      by_kind (decoded fm v) d l.tag l.body (es ++ (v ∷ [])) ds (ds ++ (decoded fm v ∷ [])) h
        (Agree-both (decoded fm) 48 es ds v b.agree)
        (All-append (IsExact fm) es (v ∷ []) b.exact (x, tt)) p (λ fuel rest f. l.reads _ rest ds))

  untracked-Decodes :
      (v : HdsValue Float) (d : ℕ) (es ds : List (HdsValue Float)) (lit : Bytes)
      → d ≤ 64
      → 48 ≤ length es
      → Before es ds
      → is_terminator fm (decoded fm v) ≡ false
      → IsLiteral fm (decoded fm v) lit
      → Decodes (decoded fm v) d es ds lit
  untracked-Decodes v d es ds lit h n b p l = rw l.whole (
      by_kind (decoded fm v) d l.tag l.body es ds (ds ++ (decoded fm v ∷ [])) h
        (Agree-decoder (decoded fm) 48 es ds (decoded fm v) n b.agree) b.exact p
        (λ fuel rest f. l.reads _ rest ds))

  reference-Decodes :
      (v w : HdsValue Float) (d i : ℕ) (es ds : List (HdsValue Float))
      → d ≤ 64
      → i ≤ 47
      → Before es ds
      → is_terminator fm (decoded fm v) ≡ false
      → get_elem? es i ≡ some w
      → decoded fm w ≡ decoded fm v
      → Decodes (decoded fm v) d es ds ((0xa0 + i) ∷ [])
  reference-Decodes v w d i es ds h l b p g e =
      by_kind (decoded fm v) d (0xa0 + i) [] es ds ds h b.agree b.exact p λ fuel rest f.
        rw (tag_kind-compressed i l) (
          unfold read_kind in
          rw (Agree-get_elem? (decoded fm) 48 i es ds w (omega arith) b.agree g, read_reference)
            (cc e))

  -- What the encoder returned, as an equation for each part.
  pub emitted :
      {out out' : Bytes} {es es' : List (HdsValue Float)}
      → ◌≡◌ {A = Result (Bytes × List (HdsValue Float))} (ok (out, es)) (ok (out', es'))
      → (out ≡ out') × (es ≡ es')
  emitted h = (ap first h, ap second h)
    where
      first : Result (Bytes × List (HdsValue Float)) → Bytes
      first (ok p) = p.0
      first (err e) = []

      second : Result (Bytes × List (HdsValue Float)) → List (HdsValue Float)
      second (ok p) = p.1
      second (err e) = []

  pub Decodes-moved :
      {u : HdsValue Float} {d : ℕ} {ds es es' : List (HdsValue Float)} {out out' : Bytes}
      → Decodes u d es ds out
      → (out ≡ out') × (es ≡ es')
      → Decodes u d es' ds out'
  Decodes-moved {u} {d} {ds} r e = subst₂ (λ o s. Decodes u d s ds o) e.0 e.1 r

  -- A value that may be compressed: new, named by a reference, or written again.
  module _ (v : HdsValue Float) (d : ℕ) (es ds : List (HdsValue Float)) (literal : Result Bytes)
      (shallow : d ≤ 64) (exact : IsExact fm v) (before : Before es ds)
      (plain : is_terminator fm (decoded fm v) ≡ false)
      (literals : (lit : Bytes) → literal ≡ ok lit → IsLiteral fm (decoded fm v) lit) where
    new-Decodes :
        (out : Bytes) (es' : List (HdsValue Float))
        → beside fm (es ++ (v ∷ [])) literal ≡ ok (out, es')
        → Decodes (decoded fm v) d es' ds out
    new-Decodes out es' h =
        let (lit, p, q) = >>=-eq-ok literal _ h in
        Decodes-moved (tracked-Decodes v d es ds lit shallow exact before plain (literals lit p))
          (emitted q)

    again-Decodes :
        (out : Bytes) (es' : List (HdsValue Float))
        → 48 ≤ length es
        → beside fm es literal ≡ ok (out, es')
        → Decodes (decoded fm v) d es' ds out
    again-Decodes out es' n h =
        let (lit, p, q) = >>=-eq-ok literal _ h in
        Decodes-moved (untracked-Decodes v d es ds lit shallow n before plain (literals lit p))
          (emitted q)

    pub compress_or-Decodes :
        (out : Bytes) (es' : List (HdsValue Float))
        → compress_or fm v literal es ≡ ok (out, es')
        → Decodes (decoded fm v) d es' ds out
    unfolding compress_or
    compress_or-Decodes out es' h = elim (Option-cases (index_of fm v es)) [
      | inl missing ↦ new-Decodes out es' (rw missing at h)
      | inr (i, found) ↦
          let (w, g, same, l) = index_of-found fm v es i found in
          elim (Bool-cases (leb i 47)) [
            | inl near ↦
                Decodes-moved
                  (reference-Decodes v w d i es ds shallow (ground arith) before plain g (
                    same_value→decoded fm w v (All-get_elem? (IsExact fm) es i w before.exact g)
                      exact same))
                  (emitted (rw (found, near) at h))
            | inr far ↦ again-Decodes out es' (ground arith) (rw (found, far) at h)
          ]
    ]
