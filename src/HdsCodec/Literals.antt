-- ===== src/HdsCodec/Literals.antt =====
-- What the encoder writes for one scalar, and that the decoder reads it and tracks it.
use atv_homekit_remote.Prelude.{
  ℕ, ◌+◌, ◌^◌, ◌%◌, ◌≤◌, ◌<◌, ◌≡◌, refl, List, [], ◌∷◌, ◌++◌, append_assoc, arith, length,
  length-append, take-append, drop-append, ltb-false, leb, Bool-cases, inl, inr, All, Bytes, to_le,
  length-to_le, from_le-to_le, Result, ok, ◌>>=◌, >>=-eq-ok,
}
use atv_homekit_remote.Prelude.Int.{ℤ}
use atv_homekit_remote.Utf8.{Text, utf8_encode, utf8_decode}
use atv_homekit_remote.Utf8.RoundTrip.{utf8_decode-utf8_encode}
use atv_homekit_remote.HdsCodec.Value.{HdsValue, int, float, str, bytes, Formats, ok_or_empty}
use atv_homekit_remote.HdsCodec.Words.{
  pack_signed, unpack_signed, length-pack_signed, unpack_signed-pack_signed,
}
use atv_homekit_remote.HdsCodec.Tag
use atv_homekit_remote.HdsCodec.Tag.{Kind, tag_kind, tag_kind-utf8_short, tag_kind-data_short}
use atv_homekit_remote.HdsCodec.Encoder.{put_length, sized_literal, string_literal, bytes_literal}
use atv_homekit_remote.HdsCodec.Decoder.{
  Reader, take_bytes, take_length, track, take_tracked, sized_tracked, read_kind,
}

take_bytes-append :
    (front rest : Bytes) (n : ℕ)
    → length front ≡ n
    → take_bytes n (front ++ rest) ≡ ok (front, rest)
unfolding take_bytes
take_bytes-append front rest n e = rw (← e) (
    rw (
      ltb-false (length (front ++ rest)) (length front) (omega (arith, length-append front rest)),
      take-append front rest,
      drop-append front rest,
    ))

take_length-to_le :
    (w n : ℕ) (rest : Bytes) → n < 256 ^ w → take_length w (to_le w n ++ rest) ≡ ok (n, rest)
unfolding take_length
take_length-to_le w n rest h =
    rw (take_bytes-append (to_le w n) rest w (length-to_le w n)) (rw (from_le-to_le w n h))

-- The width that `_length` chose, by the tag.
data Width (n t8 t16 t32 t64 : ℕ) (head : Bytes) : Type 0 where
  one : n < 256 ^ 1 → head ≡ t8 ∷ to_le 1 n → Width n t8 t16 t32 t64 head
  two : n < 256 ^ 2 → head ≡ t16 ∷ to_le 2 n → Width n t8 t16 t32 t64 head
  four : n < 256 ^ 4 → head ≡ t32 ∷ to_le 4 n → Width n t8 t16 t32 t64 head
  eight : n < 256 ^ 8 → head ≡ t64 ∷ to_le 8 n → Width n t8 t16 t32 t64 head

one_byte : (n : ℕ) → n < 256 → n ∷ [] ≡ to_le 1 n
unfolding to_le
one_byte n h = ground arith

Width-of :
    (n t8 t16 t32 t64 : ℕ) (head : Bytes)
    → put_length n t8 t16 t32 t64 ≡ ok head
    → Width n t8 t16 t32 t64 head
unfolding put_length
Width-of n t8 t16 t32 t64 head h = elim (Bool-cases (leb n 0xff)) [
  | inl a ↦ one (ground arith) (cc (rw a at h, one_byte n (ground arith)))
  | inr a ↦ elim (Bool-cases (leb n 0xffff)) [
    | inl b ↦ two (ground arith) (cc (rw (a, b) at h))
    | inr b ↦ elim (Bool-cases (leb n 0xffff_ffff)) [
      | inl c ↦ four (ground arith) (cc (rw (a, b, c) at h))
      | inr c ↦ elim (Bool-cases (leb n 0xffff_ffff_ffff_ffff)) [
        | inl d ↦ eight (ground arith) (cc (rw (a, b, c, d) at h))
        | inr d ↦ cc (rw (a, b, c, d) at h)
      ]
    ]
  ]
]

module _ (fm : Formats) where
  open fm use {
    Float, pack_f, unpack_f, pack_d, unpack_d, uuid_bytes, uuid_text, length-pack_f, length-pack_d,
    length-uuid_bytes, unpack_d-pack_d,
  }

  -- `lit` is read as `u`, which is tracked, whatever follows it.
  pub record IsLiteral (u : HdsValue Float) (lit : Bytes) : Type 0 where
    pub tag : ℕ
    pub body : Bytes
    pub whole : lit ≡ tag ∷ body
    pub reads :
        (next : Reader fm → Result (HdsValue Float × Reader fm)) (rest : Bytes)
        (ds : List (HdsValue Float))
        → read_kind fm next (tag_kind tag) (record { rest = body ++ rest; seen = ds })
          ≡ ok (u, record { rest = rest; seen = ds ++ (u ∷ []) })

  take_tracked-append :
      (n : ℕ) (read : Bytes → Result (HdsValue Float)) (body rest : Bytes) (u : HdsValue Float)
      (ds : List (HdsValue Float))
      → length body ≡ n
      → read body ≡ ok u
      → take_tracked fm n read (record { rest = body ++ rest; seen = ds })
        ≡ ok (u, record { rest = rest; seen = ds ++ (u ∷ []) })
  unfolding take_tracked
  take_tracked-append n read body rest u ds l e = rw (take_bytes-append body rest n l) (rw e)

  -- A tag alone.
  pub tag-IsLiteral :
      (t : ℕ) (u : HdsValue Float)
      → ((next : Reader fm → Result (HdsValue Float × Reader fm)) (r : Reader fm)
          → read_kind fm next (tag_kind t) r ≡ track fm u r)
      → IsLiteral u (t ∷ [])
  tag-IsLiteral t u h = record {
    tag = t;
    body = [];
    whole = refl;
    reads = λ next rest ds. rw h (unfold track in refl);
  }

  -- A tag whose kind takes `n` bytes.
  fixed-IsLiteral :
      (t n : ℕ) (read : Bytes → Result (HdsValue Float)) (body : Bytes) (u : HdsValue Float)
      → ((next : Reader fm → Result (HdsValue Float × Reader fm)) (r : Reader fm)
          → read_kind fm next (tag_kind t) r ≡ take_tracked fm n read r)
      → length body ≡ n
      → read body ≡ ok u
      → IsLiteral u (t ∷ body)
  fixed-IsLiteral t n read body u h l e = record {
    tag = t;
    body = body;
    whole = refl;
    reads = λ next rest ds. rw h (take_tracked-append n read body rest u ds l e);
  }

  -- A tag whose kind takes a length of `w` bytes, and then as many bytes.
  sized-IsLiteral :
      (t w : ℕ) (read : Bytes → Result (HdsValue Float)) (body : Bytes) (u : HdsValue Float)
      → ((next : Reader fm → Result (HdsValue Float × Reader fm)) (r : Reader fm)
          → read_kind fm next (tag_kind t) r ≡ sized_tracked fm w read r)
      → length body < 256 ^ w
      → read body ≡ ok u
      → IsLiteral u (t ∷ (to_le w (length body) ++ body))
  sized-IsLiteral t w read body u h l e = record {
    tag = t;
    body = to_le w (length body) ++ body;
    whole = refl;
    reads = λ next rest ds.
        rw (h, append_assoc)
          (unfold sized_tracked in
            rw (take_length-to_le w (length body) (body ++ rest) l)
              (take_tracked-append (length body) read body rest u ds refl e));
  }

  -- `_string` and `_bytes`: a short form and four with a length.
  module _ (read : Bytes → Result (HdsValue Float)) (short t8 t16 t32 t64 : ℕ)
      (is_short : (n : ℕ)
        → n ≤ 32
        → (next : Reader fm → Result (HdsValue Float × Reader fm)) (r : Reader fm)
        → read_kind fm next (tag_kind (short + n)) r ≡ take_tracked fm n read r)
      (is_8 : (next : Reader fm → Result (HdsValue Float × Reader fm)) (r : Reader fm)
        → read_kind fm next (tag_kind t8) r ≡ sized_tracked fm 1 read r)
      (is_16 : (next : Reader fm → Result (HdsValue Float × Reader fm)) (r : Reader fm)
        → read_kind fm next (tag_kind t16) r ≡ sized_tracked fm 2 read r)
      (is_32 : (next : Reader fm → Result (HdsValue Float × Reader fm)) (r : Reader fm)
        → read_kind fm next (tag_kind t32) r ≡ sized_tracked fm 4 read r)
      (is_64 : (next : Reader fm → Result (HdsValue Float × Reader fm)) (r : Reader fm)
        → read_kind fm next (tag_kind t64) r ≡ sized_tracked fm 8 read r) where
    Width-IsLiteral :
        (raw head : Bytes) (u : HdsValue Float)
        → read raw ≡ ok u
        → Width (length raw) t8 t16 t32 t64 head
        → IsLiteral u (head ++ raw)
    Width-IsLiteral raw head u e (one l p) = rw p (sized-IsLiteral t8 1 read raw u is_8 l e)
    Width-IsLiteral raw head u e (two l p) = rw p (sized-IsLiteral t16 2 read raw u is_16 l e)
    Width-IsLiteral raw head u e (four l p) = rw p (sized-IsLiteral t32 4 read raw u is_32 l e)
    Width-IsLiteral raw head u e (eight l p) = rw p (sized-IsLiteral t64 8 read raw u is_64 l e)

    sized_literal-IsLiteral :
        (raw lit : Bytes) (u : HdsValue Float)
        → read raw ≡ ok u
        → sized_literal short t8 t16 t32 t64 raw ≡ ok lit
        → IsLiteral u lit
    unfolding sized_literal
    sized_literal-IsLiteral raw lit u e h = elim (Bool-cases (leb (length raw) 32)) [
      | inl few ↦
          let p : (short + length raw) ∷ raw ≡ lit = cc (rw few at h) in
          rw (← p) (
            fixed-IsLiteral (short + length raw) (length raw) read raw u
              (is_short (length raw) (ground arith)) refl e)
      | inr many ↦
          let (head, p, q) = >>=-eq-ok (put_length (length raw) t8 t16 t32 t64) _ (rw many at h) in
          let r : head ++ raw ≡ lit = cc q in
          rw (← r) (Width-IsLiteral raw head u e (Width-of (length raw) t8 t16 t32 t64 head p))
    ]

  pub string-IsLiteral :
      (t : Text) (lit : Bytes)
      → All (λ c. c < 0x110000) t
      → string_literal t ≡ ok lit
      → IsLiteral (str t) lit
  unfolding string_literal
  string-IsLiteral t lit valid h =
      let (raw, p, q) = >>=-eq-ok (utf8_encode t) _ h in
      sized_literal-IsLiteral (λ bs. utf8_decode bs >>= λ t. ok (str t)) 0x40 0x61 0x62 0x63 0x64
        (λ n l next r. rw (tag_kind-utf8_short n l) (unfold read_kind in refl))
        (λ next r. unfold read_kind tag_kind in refl) (λ next r. unfold read_kind tag_kind in refl)
        (λ next r. unfold read_kind tag_kind in refl) (λ next r. unfold read_kind tag_kind in refl)
        raw lit (str t) (rw (utf8_decode-utf8_encode t raw valid p)) q

  pub bytes-IsLiteral : (raw lit : Bytes) → bytes_literal raw ≡ ok lit → IsLiteral (bytes raw) lit
  unfolding bytes_literal
  bytes-IsLiteral raw lit h =
      sized_literal-IsLiteral (λ bs. ok (bytes bs)) 0x70 0x91 0x92 0x93 0x94
        (λ n l next r. rw (tag_kind-data_short n l) (unfold read_kind in refl))
        (λ next r. unfold read_kind tag_kind in refl) (λ next r. unfold read_kind tag_kind in refl)
        (λ next r. unfold read_kind tag_kind in refl) (λ next r. unfold read_kind tag_kind in refl)
        raw lit (bytes raw) refl h

  -- The four widths of a signed integer.
  pub int-IsLiteral :
      (t w : ℕ) (z : ℤ) (bs : Bytes)
      → tag_kind t ≡ Tag.int_of w
      → 0 < 256 ^ w
      → 256 ^ w % 2 ≡ 0
      → pack_signed w z ≡ ok bs
      → IsLiteral (int z) (t ∷ bs)
  int-IsLiteral t w z bs k p e h =
      fixed-IsLiteral t w (λ bs. ok (int (unpack_signed w bs))) bs (int z)
        (λ next r. rw k (unfold read_kind in refl)) (length-pack_signed w z h)
        (rw (unpack_signed-pack_signed w z h p e))

  pub float32-IsLiteral :
      (x : Float) (bs : Bytes)
      → pack_f x ≡ ok bs
      → IsLiteral (float (unpack_f (ok_or_empty (pack_f x)))) (0x35 ∷ bs)
  float32-IsLiteral x bs h =
      fixed-IsLiteral 0x35 4 (λ bs. ok (float (unpack_f bs))) bs _
        (λ next r. unfold read_kind tag_kind in refl) (length-pack_f x bs h) (rw h)

  -- A double behind the tag of a number or of a date.
  pub double-IsLiteral :
      (t : ℕ) (x : Float)
      → ((next : Reader fm → Result (HdsValue Float × Reader fm)) (r : Reader fm)
          → read_kind fm next (tag_kind t) r ≡ take_tracked fm 8 (λ bs. ok (float (unpack_d bs))) r)
      → IsLiteral (float x) (t ∷ pack_d x)
  double-IsLiteral t x k =
      fixed-IsLiteral t 8 (λ bs. ok (float (unpack_d bs))) (pack_d x) (float x) k (length-pack_d x)
        (rw (unpack_d-pack_d x))

  pub uuid-IsLiteral :
      (t : Text) (bs : Bytes)
      → uuid_bytes t ≡ ok bs
      → IsLiteral (str (uuid_text (ok_or_empty (uuid_bytes t)))) (0x05 ∷ bs)
  uuid-IsLiteral t bs h =
      fixed-IsLiteral 0x05 16 (λ bs. ok (str (uuid_text bs))) bs _
        (λ next r. unfold read_kind tag_kind in refl) (length-uuid_bytes t bs h) (rw h)
