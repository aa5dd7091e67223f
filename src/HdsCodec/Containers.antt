-- ===== src/HdsCodec/Containers.antt =====
-- Lists and dictionaries around what stands in them, and the literals of floats and UUIDs.
use atv_homekit_remote.Prelude.{
  ℕ, suc, ◌+◌, ◌≤◌, ◌≡◌, refl, ap, ◌∙◌, List, [], ◌∷◌, ◌++◌, append_assoc, arith, length,
  length-append, Bytes, Result, ok, ◌>>=◌, >>=-eq-ok,
}
use mathlib.Core.Path.{subst₂}
use atv_homekit_remote.Utf8.{Text}
use atv_homekit_remote.HdsCodec.Value.{
  HdsValue, Items, Fields, float, float32, hds_uuid, array, dict, end, Formats, decoded,
  decoded_items, decoded_fields,
}
use atv_homekit_remote.HdsCodec.Tag.{tag_kind, tag_kind-array_of, tag_kind-dict_of}
use atv_homekit_remote.HdsCodec.Encoder.{append, ◌⨾◌, items_length, fields_length}
use atv_homekit_remote.HdsCodec.Decoder.{Reader, read_kind, take_tracked, is_terminator}
use atv_homekit_remote.HdsCodec.Exact.{AreDistinct}
use atv_homekit_remote.HdsCodec.Literals.{IsLiteral}
use atv_homekit_remote.HdsCodec.Literals
use atv_homekit_remote.HdsCodec.References.{Decodes, by_kind, emitted}
use atv_homekit_remote.HdsCodec.Sequences.{Parts-of, ReadsItems}
use atv_homekit_remote.HdsCodec.Entries.{ReadsFields, append_fields-end}

module _ (fm : Formats) where
  open fm use {Float, pack_f, pack_d, uuid_bytes}

  abbrev Side : Type 0
  Side = List (HdsValue Float)

  -- A list of up to 12 items, and a longer one up to its terminator.
  pub array-short :
      (xs : Items Float) (d : ℕ) (es' ds : Side) (out : Bytes)
      → d ≤ 64
      → items_length xs ≤ 14
      → ReadsItems fm xs (suc d) es' ds out
      → Decodes fm (decoded fm (array xs)) d es' ds ((0xd0 + items_length xs) ∷ out)
  unfolding decoded
  array-short xs d es' ds out h n r =
      by_kind fm (array (decoded_items fm xs)) d (0xd0 + items_length xs) out es' ds r.ds' h r.agree
        r.exact (unfold is_terminator in refl)
        (λ fuel rest f.
          rw (tag_kind-array_of (items_length xs) n)
            (unfold read_kind in rw (r.counted fuel rest (omega arith))))

  pub array-long :
      (xs : Items Float) (d : ℕ) (es' ds : Side) (out : Bytes)
      → d ≤ 64
      → ReadsItems fm xs (suc d) es' ds out
      → Decodes fm (decoded fm (array xs)) d es' ds (0xdf ∷ (out ++ (0x03 ∷ [])))
  unfolding decoded
  array-long xs d es' ds out h r =
      by_kind fm (array (decoded_items fm xs)) d 0xdf (out ++ (0x03 ∷ [])) es' ds r.ds' h r.agree
        r.exact (unfold is_terminator in refl)
        (λ fuel rest f. rw (append_assoc out (0x03 ∷ []) rest) (
          unfold read_kind tag_kind in
          rw (
            r.terminated fuel (suc (length (out ++ (0x03 ∷ rest)))) rest (omega arith)
              (omega (arith, r.long, length-append out (0x03 ∷ rest))))))

  pub dict-short :
      (fs : Fields Float) (d : ℕ) (es' ds : Side) (out : Bytes)
      → d ≤ 64
      → fields_length fs ≤ 14
      → AreDistinct fm end (decoded_fields fm fs)
      → ReadsFields fm fs (suc d) es' ds out
      → Decodes fm (decoded fm (dict fs)) d es' ds ((0xe0 + fields_length fs) ∷ out)
  unfolding decoded
  dict-short fs d es' ds out h n x r =
      by_kind fm (dict (decoded_fields fm fs)) d (0xe0 + fields_length fs) out es' ds r.ds' h
        r.agree r.exact (unfold is_terminator in refl)
        (λ fuel rest f. rw (tag_kind-dict_of (fields_length fs) n) (
          unfold read_kind in
          rw
            (r.counted fuel rest end (omega arith) x, append_fields-end fm (decoded_fields fm fs))))

  pub dict-long :
      (fs : Fields Float) (d : ℕ) (es' ds : Side) (out : Bytes)
      → d ≤ 64
      → AreDistinct fm end (decoded_fields fm fs)
      → ReadsFields fm fs (suc d) es' ds out
      → Decodes fm (decoded fm (dict fs)) d es' ds (0xef ∷ (out ++ (0x03 ∷ [])))
  unfolding decoded
  dict-long fs d es' ds out h x r =
      by_kind fm (dict (decoded_fields fm fs)) d 0xef (out ++ (0x03 ∷ [])) es' ds r.ds' h r.agree
        r.exact (unfold is_terminator in refl)
        (λ fuel rest f. rw (append_assoc out (0x03 ∷ []) rest) (
          unfold read_kind tag_kind in
          rw (
            r.terminated fuel (suc (length (out ++ (0x03 ∷ rest)))) rest end (omega arith)
                (omega (arith, r.long, length-append out (0x03 ∷ rest))) x,
            append_fields-end fm (decoded_fields fm fs),
          )))

  abbrev pub Method : Type 0
  Method = Side → Result (Bytes × Side)

  -- A tag and then `m`; and the same up to a terminator.
  pub after_tag :
      (tag : ℕ) (m : Method) (es es' : Side) (out : Bytes)
      → ◌⨾◌ fm (append fm (tag ∷ [])) m es ≡ ok (out, es')
      → (body : Bytes) × (m es ≡ ok (body, es')) × (tag ∷ body ≡ out)
  unfolding append ◌⨾◌
  after_tag tag m es es' out h =
      let ((body, last), p, q) = >>=-eq-ok (m es) _ h in
      let (e, f) = emitted fm q in (body, p ∙ ap (λ t. ok (body, t)) f, e)

  appended :
      (es es' : Side) (out : Bytes)
      → append fm (0x03 ∷ []) es ≡ ok (out, es')
      → ◌≡◌ {A = Result (Bytes × Side)} (ok (0x03 ∷ [], es)) (ok (out, es'))
  unfolding append
  appended es es' out h = h

  pub up_to_end :
      (tag : ℕ) (m : Method) (es es' : Side) (out : Bytes)
      → ◌⨾◌ fm (◌⨾◌ fm (append fm (tag ∷ [])) m) (append fm (0x03 ∷ [])) es ≡ ok (out, es')
      → (body : Bytes) × (m es ≡ ok (body, es')) × (tag ∷ (body ++ (0x03 ∷ [])) ≡ out)
  up_to_end tag m es es' out h =
      let p = Parts-of fm _ _ es es' out h in
      let (e, f) = emitted fm (appended p.between es' p.back p.second) in
      let (body, q, r) = after_tag tag m es p.between p.front p.first in
      (body, q ∙ ap (λ t. ok (body, t)) f, cc (p.joined, e, r))

  pub ReadsItems-moved :
      (xs : Items Float) {d : ℕ} {ds es es' : Side} {out out' : Bytes}
      → ReadsItems fm xs d es ds out
      → (out ≡ out') × (es ≡ es')
      → ReadsItems fm xs d es' ds out'
  ReadsItems-moved xs {d} {ds} r e = subst₂ (λ o s. ReadsItems fm xs d s ds o) e.0 e.1 r

  pub ReadsFields-moved :
      (fs : Fields Float) {d : ℕ} {ds es es' : Side} {out out' : Bytes}
      → ReadsFields fm fs d es ds out
      → (out ≡ out') × (es ≡ es')
      → ReadsFields fm fs d es' ds out'
  ReadsFields-moved fs {d} {ds} r e = subst₂ (λ o s. ReadsFields fm fs d s ds o) e.0 e.1 r

  pub nothing :
      (es es' : Side) (out : Bytes)
      → append fm [] es ≡ ok (out, es')
      → ◌≡◌ {A = Result (Bytes × Side)} (ok ([], es)) (ok (out, es'))
  unfolding append
  nothing es es' out h = h

  pub double-IsLiteral :
      (t : ℕ) (x : Float) (lit : Bytes)
      → ((next : Reader fm → Result (HdsValue Float × Reader fm)) (r : Reader fm)
          → read_kind fm next (tag_kind t) r
            ≡ take_tracked fm 8 (λ bs. ok (float (fm.unpack_d bs))) r)
      → ◌≡◌ {A = Result Bytes} (ok (t ∷ pack_d x)) (ok lit)
      → IsLiteral fm (float x) lit
  double-IsLiteral t x lit k e =
      let whole : t ∷ pack_d x ≡ lit = cc in rw (← whole) (Literals.double-IsLiteral fm t x k)

  pub float32-IsLiteral :
      (x : Float) (lit : Bytes)
      → (pack_f x >>= λ bs. ok (0x35 ∷ bs)) ≡ ok lit
      → IsLiteral fm (decoded fm (float32 x)) lit
  unfolding decoded
  float32-IsLiteral x lit e =
      let (bs, packed, q) = >>=-eq-ok (pack_f x) _ e in
      let whole : 0x35 ∷ bs ≡ lit = cc in rw (← whole) (Literals.float32-IsLiteral fm x bs packed)

  pub uuid-IsLiteral :
      (t : Text) (lit : Bytes)
      → (uuid_bytes t >>= λ bs. ok (0x05 ∷ bs)) ≡ ok lit
      → IsLiteral fm (decoded fm (hds_uuid t)) lit
  unfolding decoded
  uuid-IsLiteral t lit e =
      let (bs, packed, q) = >>=-eq-ok (uuid_bytes t) _ e in
      let whole : 0x05 ∷ bs ≡ lit = cc in rw (← whole) (Literals.uuid-IsLiteral fm t bs packed)
