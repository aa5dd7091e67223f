-- ===== src/HdsCodec/Exact.antt =====
-- The values that come back from a round trip as `decoded` says.
use atv_homekit_remote.Prelude.{ℕ, ◌<◌, ◌≡◌, ◌≢◌, refl, ap, true, false, List, [], ◌∷◌, arith, All}
use atv_homekit_remote.Prelude.Int.{ℤ, pos, negsuc, int_eq}
use atv_homekit_remote.HdsCodec.Value.{
  HdsValue, Items, Fields, null, terminator, bool, int, int8, int16, int32, int64, float, float32,
  float64, seconds_since_2001, hds_uuid, str, bytes, array, dict, nil, cons, end, field, Formats,
  list_eq, same_value, key_eq, is_hashable, decoded, decoded_fields,
}

pub int_eq→eq : (a b : ℤ) → int_eq a b ≡ true → a ≡ b
unfolding int_eq
int_eq→eq (pos a) (pos b) h = ground arith
int_eq→eq (negsuc a) (negsuc b) h = ground arith
int_eq→eq (pos a) (negsuc b) h = cc
int_eq→eq (negsuc a) (pos b) h = cc

pub list_eq→eq : (xs ys : List ℕ) → list_eq xs ys ≡ true → xs ≡ ys
unfolding list_eq
list_eq→eq [] [] h = refl
list_eq→eq [] (y ∷ ys) h = cc
list_eq→eq (x ∷ xs) [] h = cc
list_eq→eq (x ∷ xs) (y ∷ ys) h = ground (arith, list_eq→eq xs ys)

module _ (fm : Formats) where
  open fm use {Float, IsPlain, float_eq, float_eq-IsPlain}

  -- `put_field` at the end of a dictionary that has no equal key.
  unfoldable pub snoc_field : Fields Float → HdsValue Float → HdsValue Float → Fields Float
  snoc_field end k v = field k v end
  snoc_field (field j w fs) k v = field j w (snoc_field fs k v)

  -- No key of the fields is equal to `k`.
  abbrev pub HasNoKey : Fields Float → HdsValue Float → Type 0
  HasNoKey end k = Unit
  HasNoKey (field j w fs) k = (key_eq fm j k ≡ false) × HasNoKey fs k

  -- Each key is hashable and is no key before it.
  abbrev pub AreDistinct : Fields Float → Fields Float → Type 0
  AreDistinct before end = Unit
  AreDistinct before (field k v fs) =
      (is_hashable fm k ≡ true) × HasNoKey before k × AreDistinct (snoc_field before k v) fs

  unfoldable mutual
    pub IsExact : HdsValue Float → Type 0
    IsExact (int z) = z ≢ pos 39
    IsExact (float x) = IsPlain x
    IsExact (float32 x) = IsPlain x
    IsExact (float64 x) = IsPlain x
    IsExact (seconds_since_2001 x) = IsPlain x
    IsExact (str t) = All (λ c. c < 0x110000) t
    IsExact (array xs) = AreExactItems xs
    IsExact (dict fs) = AreExactFields fs × AreDistinct end (decoded_fields fm fs)
    IsExact null = Unit
    IsExact terminator = Unit
    IsExact (bool b) = Unit
    IsExact (int8 z) = Unit
    IsExact (int16 z) = Unit
    IsExact (int32 z) = Unit
    IsExact (int64 z) = Unit
    IsExact (hds_uuid t) = Unit
    IsExact (bytes bs) = Unit

    pub AreExactItems : Items Float → Type 0
    AreExactItems nil = Unit
    AreExactItems (cons x xs) = IsExact x × AreExactItems xs

    pub AreExactFields : Fields Float → Type 0
    AreExactFields end = Unit
    AreExactFields (field k v fs) = IsExact k × IsExact v × AreExactFields fs

  -- Values that compare equal are decoded to the same value.
  pub same_value→decoded :
      (w v : HdsValue Float)
      → IsExact w
      → IsExact v
      → same_value fm w v ≡ true
      → decoded fm w ≡ decoded fm v
  unfolding same_value IsExact decoded
  same_value→decoded (int8 a) (int8 b) hw hv h = ap int (int_eq→eq a b h)
  same_value→decoded (int16 a) (int16 b) hw hv h = ap int (int_eq→eq a b h)
  same_value→decoded (int32 a) (int32 b) hw hv h = ap int (int_eq→eq a b h)
  same_value→decoded (int64 a) (int64 b) hw hv h = ap int (int_eq→eq a b h)
  same_value→decoded (float32 a) (float32 b) hw hv h = cc (float_eq-IsPlain a b hw hv h)
  same_value→decoded (float64 a) (float64 b) hw hv h = cc (float_eq-IsPlain a b hw hv h)
  same_value→decoded (seconds_since_2001 a) (seconds_since_2001 b) hw hv h =
      cc (float_eq-IsPlain a b hw hv h)
  same_value→decoded (hds_uuid a) (hds_uuid b) hw hv h = cc (list_eq→eq a b h)
  same_value→decoded (str a) (str b) hw hv h = cc (list_eq→eq a b h)
  same_value→decoded (bytes a) (bytes b) hw hv h = cc (list_eq→eq a b h)
  same_value→decoded _ _ hw hv h = cc
