-- ===== src/HdsCodec/Scalars.antt =====
-- Each kind of scalar, written and read back.
use atv_homekit_remote.Prelude.{
  ℕ, zero, suc, ◌+◌, ◌^◌, ◌%◌, ◌≤◌, ◌<◌, ◌≡◌, ◌≢◌, refl, List, [], ◌∷◌, arith, ltb, leb, Bool,
  false, Bool-cases, inl, inr, Bytes, Result, ok, ◌>>=◌, >>=-eq-ok,
}
use atv_homekit_remote.Prelude.Int.{ℤ, pos, negsuc}
use atv_homekit_remote.HdsCodec.Value.{
  HdsValue, null, bool, int, int8, int16, int32, int64, Formats, decoded,
}
use atv_homekit_remote.HdsCodec.Words.{pack_signed, is_signed}
use atv_homekit_remote.HdsCodec.Tag
use atv_homekit_remote.HdsCodec.Tag.{
  Kind, tag_kind, tag_kind-small_int, tag_kind-compressed, tag_kind-array_of, tag_kind-dict_of,
}
use atv_homekit_remote.HdsCodec.Encoder.{
  compress_or, track_literal, append, put_int8, put_int16, put_int32, put_int64, wide_integer,
  put_integer, checked,
}
use atv_homekit_remote.HdsCodec.Decoder.{Reader, read_kind, track, is_terminator}
use atv_homekit_remote.HdsCodec.Exact.{IsExact}
use atv_homekit_remote.HdsCodec.Literals.{IsLiteral}
use atv_homekit_remote.HdsCodec.Literals
use atv_homekit_remote.HdsCodec.References.{
  Decodes, Before, by_kind, tracked-Decodes, Decodes-moved, emitted, compress_or-Decodes,
}

module _ (fm : Formats) where
  open fm use {Float, pack_f, pack_d, uuid_bytes}

  -- A method that passed `_check_depth`.
  pub checked-eq-ok :
      (d : ℕ) (m : List (HdsValue Float) → Result (Bytes × List (HdsValue Float)))
      (es : List (HdsValue Float)) {r : Bytes × List (HdsValue Float)}
      → checked fm d m es ≡ ok r
      → (d ≤ 64) × (m es ≡ ok r)
  unfolding checked
  checked-eq-ok d m es h = elim (Bool-cases (ltb 64 d)) [
    | inl deep ↦ cc (rw deep at h)
    | inr fine ↦ (ground arith, rw fine at h)
  ]

  module _ (d : ℕ) (es ds : List (HdsValue Float)) (out : Bytes) (es' : List (HdsValue Float))
      (before : Before fm es ds) (shallow : d ≤ 64) where
    literal-Decodes :
        (v : HdsValue Float) (tag : ℕ)
        → IsExact fm v
        → is_terminator fm (decoded fm v) ≡ false
        → IsLiteral fm (decoded fm v) (tag ∷ [])
        → track_literal fm v (tag ∷ []) es ≡ ok (out, es')
        → Decodes fm (decoded fm v) d es' ds out
    unfolding track_literal
    literal-Decodes v tag x p l h =
        Decodes-moved fm (tracked-Decodes fm v d es ds (tag ∷ []) shallow x before p l)
          (emitted fm h)

    pub null-Decodes : append fm (0x04 ∷ []) es ≡ ok (out, es') → Decodes fm null d es' ds out
    unfolding append
    null-Decodes h =
        Decodes-moved fm
          (by_kind fm null d 0x04 [] es ds ds shallow before.agree before.exact
            (unfold is_terminator in refl) (λ fuel rest f. unfold read_kind tag_kind in refl))
          (emitted fm h)

    pub bool-Decodes :
        (b : Bool) (tag : ℕ)
        → ((next : Reader fm → Result (HdsValue Float × Reader fm)) (r : Reader fm)
            → read_kind fm next (tag_kind tag) r ≡ track fm (bool b) r)
        → track_literal fm (bool b) (tag ∷ []) es ≡ ok (out, es')
        → Decodes fm (bool b) d es' ds out
    unfolding decoded
    bool-Decodes b tag k h =
        literal-Decodes (bool b) tag (unfold IsExact in tt) (unfold is_terminator in refl)
          (Literals.tag-IsLiteral fm tag (bool b) k) h

    minus_one-Decodes :
        track_literal fm (int (negsuc 0)) (0x07 ∷ []) es ≡ ok (out, es')
        → Decodes fm (int (negsuc 0)) d es' ds out
    unfolding decoded
    minus_one-Decodes h =
        literal-Decodes (int (negsuc 0)) 0x07 (unfold IsExact in (λ e. cc))
          (unfold is_terminator in refl)
          (Literals.tag-IsLiteral fm 0x07 (int (negsuc 0))
            (λ next r. unfold read_kind tag_kind in refl))
          h

    small_int-Decodes :
        (n : ℕ)
        → n ≤ 38
        → track_literal fm (int (pos n)) ((0x08 + n) ∷ []) es ≡ ok (out, es')
        → Decodes fm (int (pos n)) d es' ds out
    unfolding decoded
    small_int-Decodes n l h =
        literal-Decodes (int (pos n)) (0x08 + n) (unfold IsExact in ground arith)
          (unfold is_terminator in refl)
          (Literals.tag-IsLiteral fm (0x08 + n) (int (pos n))
            (λ next r. rw (tag_kind-small_int n l) (unfold read_kind in refl)))
          h

    -- A wrapped integer of `w` bytes, behind its tag.
    wrapped-Decodes :
        (v : HdsValue Float) (tag w : ℕ) (z : ℤ)
        → IsExact fm v
        → decoded fm v ≡ int z
        → tag_kind tag ≡ Tag.int_of w
        → 0 < 256 ^ w
        → 256 ^ w % 2 ≡ 0
        → compress_or fm v (pack_signed w z >>= λ bs. ok (tag ∷ bs)) es ≡ ok (out, es')
        → Decodes fm (int z) d es' ds out
    wrapped-Decodes v tag w z x e k p q h = rw e at (
        compress_or-Decodes fm v d es ds (pack_signed w z >>= λ bs. ok (tag ∷ bs)) shallow x before
          (rw e (unfold is_terminator in refl))
          (λ lit l.
            let (bs, packed, whole) = >>=-eq-ok (pack_signed w z) _ l in
            let tagged : tag ∷ bs ≡ lit = cc whole in
            rw (e, ← tagged) (Literals.int-IsLiteral fm tag w z bs k p q packed))
          out es' h)

    pub int8-Decodes : (z : ℤ) → put_int8 fm z es ≡ ok (out, es') → Decodes fm (int z) d es' ds out
    unfolding put_int8
    int8-Decodes z h =
        wrapped-Decodes (int8 z) 0x30 1 z (unfold IsExact in tt) (unfold decoded in refl)
          (unfold tag_kind in refl) (omega arith) (omega arith) h

    pub int16-Decodes :
        (z : ℤ) → put_int16 fm z es ≡ ok (out, es') → Decodes fm (int z) d es' ds out
    unfolding put_int16
    int16-Decodes z h =
        wrapped-Decodes (int16 z) 0x31 2 z (unfold IsExact in tt) (unfold decoded in refl)
          (unfold tag_kind in refl) (omega arith) (omega arith) h

    pub int32-Decodes :
        (z : ℤ) → put_int32 fm z es ≡ ok (out, es') → Decodes fm (int z) d es' ds out
    unfolding put_int32
    int32-Decodes z h =
        wrapped-Decodes (int32 z) 0x32 4 z (unfold IsExact in tt) (unfold decoded in refl)
          (unfold tag_kind in refl) (omega arith) (omega arith) h

    pub int64-Decodes :
        (z : ℤ) → put_int64 fm z es ≡ ok (out, es') → Decodes fm (int z) d es' ds out
    unfolding put_int64
    int64-Decodes z h =
        wrapped-Decodes (int64 z) 0x33 8 z (unfold IsExact in tt) (unfold decoded in refl)
          (unfold tag_kind in refl) (omega arith) (omega arith) h

    wide_integer-Decodes :
        (z : ℤ) → wide_integer fm z es ≡ ok (out, es') → Decodes fm (int z) d es' ds out
    unfolding wide_integer
    wide_integer-Decodes z h = elim (Bool-cases (is_signed 128 z)) [
      | inl a ↦ int8-Decodes z (rw a at h)
      | inr a ↦ elim (Bool-cases (is_signed 32768 z)) [
        | inl b ↦ int16-Decodes z (rw (a, b) at h)
        | inr b ↦ elim (Bool-cases (is_signed (2 ^ 31) z)) [
          | inl c ↦ int32-Decodes z (rw (a, b, c) at h)
          | inr c ↦ elim (Bool-cases (is_signed (2 ^ 63) z)) [
            | inl e ↦ int64-Decodes z (rw (a, b, c, e) at h)
            | inr e ↦ cc (rw (a, b, c, e) at h)
          ]
        ]
      ]
    ]

    -- Every integer but 39.
    pub put_integer-Decodes :
        (z : ℤ) → z ≢ pos 39 → put_integer fm z es ≡ ok (out, es') → Decodes fm (int z) d es' ds out
    unfolding put_integer
    put_integer-Decodes (negsuc zero) x h = minus_one-Decodes h
    put_integer-Decodes (negsuc (suc n)) x h = wide_integer-Decodes (negsuc (suc n)) h
    put_integer-Decodes (pos n) x h = elim (Bool-cases (leb n 39)) [
      | inl small ↦ small_int-Decodes n (ground arith) (rw small at h)
      | inr wide ↦ wide_integer-Decodes (pos n) (rw wide at h)
    ]

    -- A value with one literal.
    pub plain-Decodes :
        (v : HdsValue Float) (literal : Result Bytes)
        → IsExact fm v
        → is_terminator fm (decoded fm v) ≡ false
        → ((lit : Bytes) → literal ≡ ok lit → IsLiteral fm (decoded fm v) lit)
        → compress_or fm v literal es ≡ ok (out, es')
        → Decodes fm (decoded fm v) d es' ds out
    plain-Decodes v literal x p l h =
        compress_or-Decodes fm v d es ds literal shallow x before p l out es' h
