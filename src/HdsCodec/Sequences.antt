-- ===== src/HdsCodec/Sequences.antt =====
-- The items of a list and the entries of a dictionary, written and read back one after the other.
use atv_homekit_remote.Prelude.{
  ℕ, zero, suc, ◌+◌, ◌≤◌, ◌<◌, ◌≡◌, refl, ap, ◌∙◌, List, [], ◌∷◌, ◌++◌, append_assoc, arith, length,
  length-append, All, Bytes, Result, ok, >>=-eq-ok,
}
use atv_homekit_remote.HdsCodec.Value.{
  HdsValue, Items, terminator, nil, cons, Formats, decoded, decoded_items,
}
use atv_homekit_remote.HdsCodec.Tag.{tag_kind}
use atv_homekit_remote.HdsCodec.Encoder.{◌⨾◌, items_length}
use atv_homekit_remote.HdsCodec.Decoder.{
  Reader, read_kind, read_value, read_items, read_items_until,
}
use atv_homekit_remote.HdsCodec.Tracking.{Agree}
use atv_homekit_remote.HdsCodec.Exact.{IsExact}
use atv_homekit_remote.HdsCodec.References.{read_value_step, Decodes, Before, emitted}

module _ (fm : Formats) where
  open fm use {Float}

  abbrev Side : Type 0
  Side = List (HdsValue Float)

  -- What two methods in a row emitted.
  pub record Parts (m n : Side → Result (Bytes × Side)) (es es' : Side) (out : Bytes) : Type 0 where
    pub front : Bytes
    pub back : Bytes
    pub between : Side
    pub first : m es ≡ ok (front, between)
    pub second : n between ≡ ok (back, es')
    pub joined : front ++ back ≡ out

  pub Parts-of :
      (m n : Side → Result (Bytes × Side)) (es es' : Side) (out : Bytes)
      → ◌⨾◌ fm m n es ≡ ok (out, es')
      → Parts m n es es' out
  unfolding ◌⨾◌
  Parts-of m n es es' out h =
      let ((front, between), p, q) = >>=-eq-ok (m es) _ h in
      let ((back, last), p', q') = >>=-eq-ok (n between) _ q in
      let (e, f) = emitted fm q' in
      record {
        front = front;
        back = back;
        between = between;
        first = p;
        second = p' ∙ ap (λ t. ok (back, t)) f;
        joined = e;
      }

  abbrev reader : Bytes → Side → Reader fm
  reader rest ds = record { rest = rest; seen = ds }

  -- Bytes that are read as the items at depth `d`, counted or up to a terminator.
  pub record ReadsItems (xs : Items Float) (d : ℕ) (es' ds : Side) (out : Bytes) : Type 0 where
    pub ds' : Side
    pub agree : Agree (decoded fm) 48 es' ds'
    pub exact : All (IsExact fm) es'
    pub long : items_length xs ≤ length out
    pub counted :
        (fuel : ℕ) (rest : Bytes)
        → 66 ≤ fuel + d
        → read_items fm (read_value fm fuel d) (items_length xs) (reader (out ++ rest) ds)
          ≡ ok (decoded_items fm xs, reader rest ds')
    pub terminated :
        (fuel rounds : ℕ) (rest : Bytes)
        → 66 ≤ fuel + d
        → items_length xs < rounds
        → read_items_until fm (read_value fm fuel d) rounds (reader (out ++ (0x03 ∷ rest)) ds)
          ≡ ok (decoded_items fm xs, reader rest ds')

  -- The terminator itself.
  pub read_terminator :
      (fuel d : ℕ) (rest : Bytes) (ds : Side)
      → d ≤ 64
      → 66 ≤ fuel + d
      → read_value fm fuel d (reader (0x03 ∷ rest) ds) ≡ ok (terminator, reader rest ds)
  read_terminator zero d rest ds h f = absurd (omega arith)
  read_terminator (suc fuel) d rest ds h f =
      read_value_step fm fuel d 0x03 rest ds h ∙ (unfold read_kind tag_kind in refl)

  pub nil-ReadsItems : (d : ℕ) (es ds : Side) → d ≤ 64 → Before fm es ds → ReadsItems nil d es ds []
  unfolding decoded_items items_length read_items
  nil-ReadsItems d es ds h b = record {
    ds' = ds;
    agree = b.agree;
    exact = b.exact;
    long = omega arith;
    counted = λ fuel rest f. refl;
    terminated = λ fuel rounds rest f l. stop fuel rounds rest f l;
  }
    where
      stop :
          (fuel rounds : ℕ) (rest : Bytes)
          → 66 ≤ fuel + d
          → 0 < rounds
          → read_items_until fm (read_value fm fuel d) rounds (reader (0x03 ∷ rest) ds)
            ≡ ok (nil, reader rest ds)
      stop fuel zero rest f l = absurd (omega arith)
      stop fuel (suc rounds) rest f l =
          unfold read_items_until in rw (read_terminator fuel d rest ds h f)

  pub cons-ReadsItems :
      (x : HdsValue Float) (xs : Items Float) (d : ℕ) (es1 es' ds : Side) (front back : Bytes)
      (head : Decodes fm (decoded fm x) d es1 ds front)
      → ReadsItems xs d es' head.ds' back
      → ReadsItems (cons x xs) d es' ds (front ++ back)
  unfolding decoded items_length
  cons-ReadsItems x xs d es1 es' ds front back head tail = record {
    ds' = tail.ds';
    agree = tail.agree;
    exact = tail.exact;
    long = omega (arith, length-append front back, head.nonempty, tail.long);
    counted = λ fuel rest f.
        rw (append_assoc front back rest)
          (unfold read_items in rw (head.reads fuel (back ++ rest) f, tail.counted fuel rest f));
    terminated = λ fuel rounds rest f l. go_on fuel rounds rest f l;
  }
    where
      go_on :
          (fuel rounds : ℕ) (rest : Bytes)
          → 66 ≤ fuel + d
          → suc (items_length xs) < rounds
          → read_items_until fm
              (read_value fm fuel d)
              rounds
              (reader ((front ++ back) ++ (0x03 ∷ rest)) ds)
            ≡ ok (cons (decoded fm x) (decoded_items fm xs), reader rest tail.ds')
      go_on fuel zero rest f l = absurd (omega arith)
      go_on fuel (suc rounds) rest f l = rw (append_assoc front back (0x03 ∷ rest)) (
          unfold read_items_until in
          rw (
            head.reads fuel (back ++ (0x03 ∷ rest)) f,
            head.plain,
            tail.terminated fuel rounds rest f (omega arith),
          ))
