-- ===== src/Tests/Floats.antt =====
-- 0.0 and 1.0 as the only floats, packed as `struct` packs them, and UUIDs as their zero.
use atv_homekit_remote.Prelude.{
  ℕ, ◌≡◌, refl, Bool, true, false, Option, none, some, List, [], ◌∷◌, ◌==◌, if◌then◌else◌, arith,
  length, replicate, get_elem?, Bytes, ok,
}
use atv_homekit_remote.Prelude.Int.{pos}
use atv_homekit_remote.HdsCodec.Value.{Formats}

abbrev pub double_bytes : Bool → Bytes
double_bytes true = 0 ∷ 0 ∷ 0 ∷ 0 ∷ 0 ∷ 0 ∷ 240 ∷ 63 ∷ []
double_bytes false = 0 ∷ 0 ∷ 0 ∷ 0 ∷ 0 ∷ 0 ∷ 0 ∷ 0 ∷ []

abbrev pub float_bytes : Bool → Bytes
float_bytes true = 0 ∷ 0 ∷ 128 ∷ 63 ∷ []
float_bytes false = 0 ∷ 0 ∷ 0 ∷ 0 ∷ []

abbrev pub is_some_63 : Option ℕ → Bool
is_some_63 none = false
is_some_63 (some n) = n == 63

abbrev pub same : Bool → Bool → Bool
same true true = true
same false false = true
same _ _ = false

pub same→eq : (x y : Bool) → same x y ≡ true → x ≡ y
same→eq true true h = refl
same→eq false false h = refl
same→eq true false h = cc
same→eq false true h = cc

pub length-float_bytes : (x : Bool) → length (float_bytes x) ≡ 4
length-float_bytes true = refl
length-float_bytes false = refl

pub length-double_bytes : (x : Bool) → length (double_bytes x) ≡ 8
length-double_bytes true = refl
length-double_bytes false = refl

pub double_back : (x : Bool) → is_some_63 (get_elem? (double_bytes x) 7) ≡ x
double_back true = refl
double_back false = refl

pub float_size : (x : Bool) (bs : Bytes) → ok (float_bytes x) ≡ ok bs → length bs ≡ 4
float_size x bs h = ground (arith, length-float_bytes x)

pub uuid_size : (t bs : List ℕ) → ok (replicate 16 0) ≡ ok bs → length bs ≡ 16
uuid_size t bs h = ground arith

abbrev pub two_floats : Formats
two_floats = record {
  Float = Bool;
  float_eq = same;
  float_int = λ x. if x then some (pos 1) else some (pos 0);
  pack_f = λ x. ok (float_bytes x);
  unpack_f = λ bs. is_some_63 (get_elem? bs 3);
  pack_d = double_bytes;
  unpack_d = λ bs. is_some_63 (get_elem? bs 7);
  uuid_bytes = λ t. ok (replicate 16 0);
  uuid_text = λ bs. replicate 36 48;
  IsPlain = λ x. Unit;
  length-pack_f = float_size;
  length-pack_d = length-double_bytes;
  length-uuid_bytes = uuid_size;
  unpack_d-pack_d = double_back;
  float_eq-IsPlain = λ x y p q h. same→eq x y h;
}
