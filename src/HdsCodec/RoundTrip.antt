-- ===== src/HdsCodec/RoundTrip.antt =====
-- The decoder reads back what the encoder wrote, references to earlier values included.
use atv_homekit_remote.Prelude.{
  ℕ, suc, ◌+◌, ◌≤◌, ◌≡◌, refl, sym, ap, ◌∙◌, List, [], ◌++◌, append_assoc, append-nil, arith, leb,
  true, false, Bool-cases, inl, inr, Bytes, ok, >>=-eq-ok,
}
use atv_homekit_remote.HdsCodec.Value.{
  HdsValue, Items, Fields, null, terminator, bool, int, int8, int16, int32, int64, float, float32,
  float64, seconds_since_2001, hds_uuid, str, bytes, array, dict, nil, cons, end, field, Formats,
  decoded,
}
use atv_homekit_remote.HdsCodec.Tag.{tag_kind}
use atv_homekit_remote.HdsCodec.Encoder.{
  ◌⨾◌, put_value, put_items, put_fields, items_length, fields_length, encode,
}
use atv_homekit_remote.HdsCodec.Decoder.{read_kind, read_value, is_terminator, finish, decode}
use atv_homekit_remote.HdsCodec.Exact.{IsExact, AreExactItems, AreExactFields}
use atv_homekit_remote.HdsCodec.Literals.{IsLiteral}
use atv_homekit_remote.HdsCodec.Literals
use atv_homekit_remote.HdsCodec.References.{Decodes, Before, Decodes-moved, emitted}
use atv_homekit_remote.HdsCodec.Scalars.{
  checked-eq-ok, null-Decodes, bool-Decodes, int8-Decodes, int16-Decodes, int32-Decodes,
  int64-Decodes, put_integer-Decodes, plain-Decodes,
}
use atv_homekit_remote.HdsCodec.Sequences.{Parts-of, ReadsItems, nil-ReadsItems, cons-ReadsItems}
use atv_homekit_remote.HdsCodec.Entries.{ReadsFields, end-ReadsFields, field-ReadsFields}
use atv_homekit_remote.HdsCodec.Containers.{
  array-short, array-long, dict-short, dict-long, after_tag, up_to_end, ReadsItems-moved,
  ReadsFields-moved, nothing, double-IsLiteral, float32-IsLiteral, uuid-IsLiteral,
}

module _ (fm : Formats) where
  open fm use {Float}

  abbrev Side : Type 0
  Side = List (HdsValue Float)

  mutual
    unfolding put_value IsExact items_length fields_length decoded is_terminator read_kind tag_kind

    value-Decodes :
        (v : HdsValue Float) (d : ℕ) (es ds : Side) (out : Bytes) (es' : Side)
        → IsExact fm v
        → Before fm es ds
        → put_value fm v d es ≡ ok (out, es')
        → Decodes fm (decoded fm v) d es' ds out
    value-Decodes null d es ds out es' x b h =
        let (l, m) = checked-eq-ok fm d _ es h in null-Decodes fm d es ds out es' b l m
    value-Decodes terminator d es ds out es' x b h = let (l, m) = checked-eq-ok fm d _ es h in cc m
    value-Decodes (bool true) d es ds out es' x b h =
        let (l, m) = checked-eq-ok fm d _ es h in
        bool-Decodes fm d es ds out es' b l true 0x01 (λ next r. refl) m
    value-Decodes (bool false) d es ds out es' x b h =
        let (l, m) = checked-eq-ok fm d _ es h in
        bool-Decodes fm d es ds out es' b l false 0x02 (λ next r. refl) m
    value-Decodes (int z) d es ds out es' x b h =
        let (l, m) = checked-eq-ok fm d _ es h in put_integer-Decodes fm d es ds out es' b l z x m
    value-Decodes (int8 z) d es ds out es' x b h =
        let (l, m) = checked-eq-ok fm d _ es h in int8-Decodes fm d es ds out es' b l z m
    value-Decodes (int16 z) d es ds out es' x b h =
        let (l, m) = checked-eq-ok fm d _ es h in int16-Decodes fm d es ds out es' b l z m
    value-Decodes (int32 z) d es ds out es' x b h =
        let (l, m) = checked-eq-ok fm d _ es h in int32-Decodes fm d es ds out es' b l z m
    value-Decodes (int64 z) d es ds out es' x b h =
        let (l, m) = checked-eq-ok fm d _ es h in int64-Decodes fm d es ds out es' b l z m
    value-Decodes (float y) d es ds out es' x b h =
        let (l, m) = checked-eq-ok fm d _ es h in
        plain-Decodes fm d es ds out es' b l (float64 y) _ x refl
          (λ lit e. double-IsLiteral fm 0x36 y lit (λ next r. refl) e) m
    value-Decodes (float64 y) d es ds out es' x b h =
        let (l, m) = checked-eq-ok fm d _ es h in
        plain-Decodes fm d es ds out es' b l (float64 y) _ x refl
          (λ lit e. double-IsLiteral fm 0x36 y lit (λ next r. refl) e) m
    value-Decodes (seconds_since_2001 y) d es ds out es' x b h =
        let (l, m) = checked-eq-ok fm d _ es h in
        plain-Decodes fm d es ds out es' b l (seconds_since_2001 y) _ x refl
          (λ lit e. double-IsLiteral fm 0x06 y lit (λ next r. refl) e) m
    value-Decodes (float32 y) d es ds out es' x b h =
        let (l, m) = checked-eq-ok fm d _ es h in
        plain-Decodes fm d es ds out es' b l (float32 y) _ x refl
          (λ lit e. float32-IsLiteral fm y lit e) m
    value-Decodes (hds_uuid t) d es ds out es' x b h =
        let (l, m) = checked-eq-ok fm d _ es h in
        plain-Decodes fm d es ds out es' b l (hds_uuid t) _ x refl
          (λ lit e. uuid-IsLiteral fm t lit e) m
    value-Decodes (str t) d es ds out es' x b h =
        let (l, m) = checked-eq-ok fm d _ es h in
        plain-Decodes fm d es ds out es' b l (str t) _ x refl
          (λ lit e. Literals.string-IsLiteral fm t lit x e) m
    value-Decodes (bytes bs) d es ds out es' x b h =
        let (l, m) = checked-eq-ok fm d _ es h in
        plain-Decodes fm d es ds out es' b l (bytes bs) _ x refl
          (λ lit e. Literals.bytes-IsLiteral fm bs lit e) m
    value-Decodes (array xs) d es ds out es' x b h =
        let (l, m) = checked-eq-ok fm d _ es h in
        let (l', m') = checked-eq-ok fm (suc d) _ es m in
        elim (Bool-cases (leb (items_length xs) 12)) [
          | inl few ↦
              let (body, p, whole) =
                after_tag fm (0xd0 + items_length xs) (put_items fm xs (suc d)) es es' out
                  (rw few at m') in
              Decodes-moved fm
                (array-short fm xs d es' ds body l (ground arith)
                  (items-Reads xs (suc d) es ds body es' x b l' p))
                (whole, refl)
          | inr many ↦
              let (body, p, whole) =
                up_to_end fm 0xdf (put_items fm xs (suc d)) es es' out (rw many at m') in
              Decodes-moved fm
                (array-long fm xs d es' ds body l (items-Reads xs (suc d) es ds body es' x b l' p))
                (whole, refl)
        ]
    value-Decodes (dict fs) d es ds out es' x b h =
        let (l, m) = checked-eq-ok fm d _ es h in
        let (l', m') = checked-eq-ok fm (suc d) _ es m in
        elim (Bool-cases (leb (fields_length fs) 14)) [
          | inl few ↦
              let (body, p, whole) =
                after_tag fm (0xe0 + fields_length fs) (put_fields fm fs (suc d)) es es' out
                  (rw few at m') in
              Decodes-moved fm
                (dict-short fm fs d es' ds body l (ground arith) x.1
                  (fields-Reads fs (suc d) es ds body es' x.0 b l' p))
                (whole, refl)
          | inr many ↦
              let (body, p, whole) =
                up_to_end fm 0xef (put_fields fm fs (suc d)) es es' out (rw many at m') in
              Decodes-moved fm
                (dict-long fm fs d es' ds body l x.1
                  (fields-Reads fs (suc d) es ds body es' x.0 b l' p))
                (whole, refl)
        ]

    items-Reads :
        (xs : Items Float) (d : ℕ) (es ds : Side) (out : Bytes) (es' : Side)
        → AreExactItems fm xs
        → Before fm es ds
        → d ≤ 64
        → put_items fm xs d es ≡ ok (out, es')
        → ReadsItems fm xs d es' ds out
    items-Reads nil d es ds out es' x b l h =
        ReadsItems-moved fm nil (nil-ReadsItems fm d es ds l b)
          (emitted fm (nothing fm es es' out h))
    items-Reads (cons v xs) d es ds out es' x b l h =
        let p = Parts-of fm (put_value fm v d) (put_items fm xs d) es es' out h in
        let head = value-Decodes v d es ds p.front p.between x.0 b p.first in
        let tail =
          items-Reads xs d p.between head.ds' p.back es' x.1
            (record { agree = head.agree; exact = head.exact }) l p.second in
        ReadsItems-moved fm (cons v xs)
          (cons-ReadsItems fm v xs d p.between es' ds p.front p.back head tail) (p.joined, refl)

    fields-Reads :
        (fs : Fields Float) (d : ℕ) (es ds : Side) (out : Bytes) (es' : Side)
        → AreExactFields fm fs
        → Before fm es ds
        → d ≤ 64
        → put_fields fm fs d es ≡ ok (out, es')
        → ReadsFields fm fs d es' ds out
    fields-Reads end d es ds out es' x b l h =
        ReadsFields-moved fm end (end-ReadsFields fm d es ds l b)
          (emitted fm (nothing fm es es' out h))
    fields-Reads (field k v fs) d es ds out es' x b l h =
        let p =
          Parts-of fm (λ s. ◌⨾◌ fm (put_value fm k d) (put_value fm v d) s) (put_fields fm fs d) es
            es' out h in
        let q = Parts-of fm (put_value fm k d) (put_value fm v d) es p.between p.front p.first in
        let key = value-Decodes k d es ds q.front q.between x.0 b q.first in
        let value =
          value-Decodes v d q.between key.ds' q.back p.between x.1
            (record { agree = key.agree; exact = key.exact }) q.second in
        let tail =
          fields-Reads fs d p.between value.ds' p.back es' x.2
            (record { agree = value.agree; exact = value.exact }) l p.second in
        ReadsFields-moved fm (field k v fs)
          (field-ReadsFields fm k v fs d q.between p.between es' ds q.front q.back p.back key value
            tail)
          (
            sym (append_assoc q.front q.back p.back) ∙ ap (λ t. t ++ p.back) q.joined ∙ p.joined,
            refl,
          )

  finish-Decodes :
      (v : HdsValue Float) (es' : Side) (out : Bytes)
      → Decodes fm (decoded fm v) 0 es' [] out
      → decode fm out ≡ ok (decoded fm v)
  unfolding decode
  finish-Decodes v es' out r =
      let read : read_value fm 66 0 (record { rest = out; seen = [] })
          ≡ ok (decoded fm v, record { rest = []; seen = r.ds' }) =
        rw append-nil at (r.reads 66 [] (omega arith)) in
      rw read (unfold finish in rw r.plain)

  -- Whatever was encoded decodes to the plain value that it stands for, through every length form,
  -- nesting and reference to an earlier value. The value is exact: its floats are not -0.0, its
  -- texts hold code points, no plain integer in it is 39, and the keys of each dictionary are
  -- hashable and different once they are decoded.
  pub decode-encode_value :
      (v : HdsValue Float) (out : Bytes)
      → IsExact fm v
      → encode fm v ≡ ok out
      → decode fm out ≡ ok (decoded fm v)
  unfolding encode
  decode-encode_value v out x h =
      let ((buf, es'), p, q) = >>=-eq-ok (put_value fm v 0 []) _ h in
      let e : buf ≡ out = cc in
      rw (← e) (
        finish-Decodes v es' buf
          (value-Decodes v 0 [] [] buf es' x (record { agree = refl; exact = tt }) p))
