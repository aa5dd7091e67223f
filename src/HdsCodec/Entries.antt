-- ===== src/HdsCodec/Entries.antt =====
-- The entries of a dictionary, written and read back one after the other.
use atv_homekit_remote.Prelude.{
  ℕ, zero, suc, ◌+◌, ◌≤◌, ◌<◌, ◌≡◌, refl, sym, ap, ◌∙◌, List, [], ◌∷◌, ◌++◌, append_assoc, arith,
  length, length-append, true, false, All, Bytes, ok,
}
use atv_homekit_remote.HdsCodec.Value.{
  HdsValue, Fields, end, field, Formats, decoded, decoded_fields, key_eq, put_field, is_hashable,
}
use atv_homekit_remote.HdsCodec.Encoder.{fields_length}
use atv_homekit_remote.HdsCodec.Decoder.{
  Reader, read_value, read_field, read_fields, read_fields_until, is_terminator,
}
use atv_homekit_remote.HdsCodec.Tracking.{Agree}
use atv_homekit_remote.HdsCodec.Exact.{IsExact, AreDistinct, HasNoKey, snoc_field}
use atv_homekit_remote.HdsCodec.References.{Decodes, Before}
use atv_homekit_remote.HdsCodec.Sequences.{read_terminator}

module _ (fm : Formats) where
  open fm use {Float}

  -- The entries behind those of the first dictionary, in order.
  unfoldable pub append_fields : Fields Float → Fields Float → Fields Float
  append_fields acc end = acc
  append_fields acc (field k v fs) = append_fields (snoc_field fm acc k v) fs

  fields_concat : Fields Float → Fields Float → Fields Float
  fields_concat end gs = gs
  fields_concat (field k v fs) gs = field k v (fields_concat fs gs)

  concat-snoc_field :
      (acc : Fields Float) (k v : HdsValue Float) (fs : Fields Float)
      → fields_concat (snoc_field fm acc k v) fs ≡ fields_concat acc (field k v fs)
  unfolding fields_concat snoc_field
  concat-snoc_field end k v fs = refl
  concat-snoc_field (field j w acc) k v fs = ap (field j w) (concat-snoc_field acc k v fs)

  fields_concat-end : (acc : Fields Float) → fields_concat acc end ≡ acc
  unfolding fields_concat
  fields_concat-end end = refl
  fields_concat-end (field k v fs) = ap (field k v) (fields_concat-end fs)

  append_fields-concat : (acc fs : Fields Float) → append_fields acc fs ≡ fields_concat acc fs
  unfolding append_fields
  append_fields-concat acc end = sym (fields_concat-end acc)
  append_fields-concat acc (field k v fs) =
      append_fields-concat (snoc_field fm acc k v) fs ∙ concat-snoc_field acc k v fs

  pub append_fields-end : (fs : Fields Float) → append_fields end fs ≡ fs
  append_fields-end fs = append_fields-concat end fs ∙ (unfold fields_concat in refl)

  put_field-snoc_field :
      (acc : Fields Float) (k v : HdsValue Float)
      → HasNoKey fm acc k
      → put_field fm k v acc ≡ snoc_field fm acc k v
  unfolding snoc_field
  put_field-snoc_field end k v h = unfold put_field in refl
  put_field-snoc_field (field j w acc) k v h =
      put_later j w acc k v h.0 ∙ ap (field j w) (put_field-snoc_field acc k v h.1)
    where
      put_later :
          (j w : HdsValue Float) (acc : Fields Float) (k v : HdsValue Float)
          → key_eq fm j k ≡ false
          → put_field fm k v (field j w acc) ≡ field j w (put_field fm k v acc)
      put_later j w acc k v e = unfold put_field in rw e

  abbrev Side : Type 0
  Side = List (HdsValue Float)

  abbrev reader : Bytes → Side → Reader fm
  reader rest ds = record { rest = rest; seen = ds }

  -- Bytes that are read as the entries at depth `d`, counted or up to a terminator.
  pub record ReadsFields (fs : Fields Float) (d : ℕ) (es' ds : Side) (out : Bytes) : Type 0 where
    pub ds' : Side
    pub agree : Agree (decoded fm) 48 es' ds'
    pub exact : All (IsExact fm) es'
    pub long : fields_length fs ≤ length out
    pub counted :
        (fuel : ℕ) (rest : Bytes) (acc : Fields Float)
        → 66 ≤ fuel + d
        → AreDistinct fm acc (decoded_fields fm fs)
        → read_fields fm (read_value fm fuel d) (fields_length fs) acc (reader (out ++ rest) ds)
          ≡ ok (append_fields acc (decoded_fields fm fs), reader rest ds')
    pub terminated :
        (fuel rounds : ℕ) (rest : Bytes) (acc : Fields Float)
        → 66 ≤ fuel + d
        → fields_length fs < rounds
        → AreDistinct fm acc (decoded_fields fm fs)
        → read_fields_until fm (read_value fm fuel d) rounds acc (reader (out ++ (0x03 ∷ rest)) ds)
          ≡ ok (append_fields acc (decoded_fields fm fs), reader rest ds')

  pub end-ReadsFields :
      (d : ℕ) (es ds : Side) → d ≤ 64 → Before fm es ds → ReadsFields end d es ds []
  unfolding decoded_fields fields_length read_fields append_fields
  end-ReadsFields d es ds h b = record {
    ds' = ds;
    agree = b.agree;
    exact = b.exact;
    long = omega arith;
    counted = λ fuel rest acc f x. refl;
    terminated = λ fuel rounds rest acc f l x. stop fuel rounds rest acc f l;
  }
    where
      stop :
          (fuel rounds : ℕ) (rest : Bytes) (acc : Fields Float)
          → 66 ≤ fuel + d
          → 0 < rounds
          → read_fields_until fm (read_value fm fuel d) rounds acc (reader (0x03 ∷ rest) ds)
            ≡ ok (acc, reader rest ds)
      stop fuel zero rest acc f l = absurd (omega arith)
      stop fuel (suc rounds) rest acc f l =
          unfold read_fields_until is_terminator in rw (read_terminator fm fuel d rest ds h f)

  -- One entry.
  read_field-reads :
      (k v : HdsValue Float) (d : ℕ) (es1 ds ds1 : Side) (front rest : Bytes)
      (value : Decodes fm (decoded fm v) d es1 ds1 front) (fuel : ℕ) (acc : Fields Float)
      → 66 ≤ fuel + d
      → is_hashable fm k ≡ true
      → HasNoKey fm acc k
      → read_field fm (read_value fm fuel d) k acc (reader (front ++ rest) ds1)
        ≡ ok (snoc_field fm acc k (decoded fm v), reader rest value.ds')
  unfolding read_field
  read_field-reads k v d es1 ds ds1 front rest value fuel acc f h n =
      rw (value.reads fuel rest f, h, put_field-snoc_field acc k (decoded fm v) n)

  pub field-ReadsFields :
      (k v : HdsValue Float) (fs : Fields Float) (d : ℕ) (es1 es2 es' ds : Side)
      (kb vb back : Bytes) (key : Decodes fm (decoded fm k) d es1 ds kb)
      (value : Decodes fm (decoded fm v) d es2 key.ds' vb)
      → ReadsFields fs d es' value.ds' back
      → ReadsFields (field k v fs) d es' ds (kb ++ (vb ++ back))
  unfolding decoded fields_length append_fields
  field-ReadsFields k v fs d es1 es2 es' ds kb vb back key value tail = record {
    ds' = tail.ds';
    agree = tail.agree;
    exact = tail.exact;
    long = omega (
      arith,
      length-append kb (vb ++ back),
      length-append vb back,
      key.nonempty,
      value.nonempty,
      tail.long,
    );
    counted = λ fuel rest acc f x.
        rw (append_assoc kb (vb ++ back) rest, append_assoc vb back rest)
          (unfold read_fields in
            rw
              (
                key.reads fuel (vb ++ (back ++ rest)) f,
                read_field-reads (decoded fm k) v d es2 ds key.ds' vb (back ++ rest) value fuel acc
                    f x.0 x.1,
              )
              (tail.counted fuel rest (snoc_field fm acc (decoded fm k) (decoded fm v)) f x.2));
    terminated = λ fuel rounds rest acc f l x. go_on fuel rounds rest acc f l x;
  }
    where
      go_on :
          (fuel rounds : ℕ) (rest : Bytes) (acc : Fields Float)
          → 66 ≤ fuel + d
          → suc (fields_length fs) < rounds
          → AreDistinct fm acc (decoded_fields fm (field k v fs))
          → read_fields_until fm
              (read_value fm fuel d)
              rounds
              acc
              (reader ((kb ++ (vb ++ back)) ++ (0x03 ∷ rest)) ds)
            ≡ ok (append_fields acc (decoded_fields fm (field k v fs)), reader rest tail.ds')
      go_on fuel zero rest acc f l x = absurd (omega arith)
      go_on fuel (suc rounds) rest acc f l x =
          rw (append_assoc kb (vb ++ back) (0x03 ∷ rest), append_assoc vb back (0x03 ∷ rest))
            (unfold read_fields_until in
              rw
                (
                  key.reads fuel (vb ++ (back ++ (0x03 ∷ rest))) f,
                  key.plain,
                  read_field-reads (decoded fm k) v d es2 ds key.ds' vb (back ++ (0x03 ∷ rest))
                      value fuel acc f x.0 x.1,
                )
                (tail.terminated fuel rounds rest (snoc_field fm acc (decoded fm k) (decoded fm v))
                  f (omega arith) x.2))
