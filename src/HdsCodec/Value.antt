-- ===== src/HdsCodec/Value.antt =====
-- The Python values that the codec writes and reads, and what the standard library does with
-- floats and UUIDs (`struct`, `uuid`), which the model takes as an interface.
use atv_homekit_remote.Prelude.{
  ℕ, ◌≡◌, Bool, true, false, Option, none, some, List, [], ◌∷◌, ◌&&◌, ◌==◌, if◌then◌else◌, Bytes,
  length, Result, ok, err,
}
use atv_homekit_remote.Prelude.Int.{ℤ, pos, int_eq}
use atv_homekit_remote.Utf8.{Text}

-- `terminator` is the decoder's sentinel object; no caller passes it to the encoder.
mutual
  pub data HdsValue (F : Type 0) : Type 0 where
    null terminator : HdsValue F
    bool : Bool → HdsValue F
    int int8 int16 int32 int64 : ℤ → HdsValue F
    float float32 float64 seconds_since_2001 : F → HdsValue F
    hds_uuid : Text → HdsValue F
    str : Text → HdsValue F
    bytes : Bytes → HdsValue F
    array : Items F → HdsValue F
    dict : Fields F → HdsValue F

  pub data Items (F : Type 0) : Type 0 where
    nil : Items F
    cons : HdsValue F → Items F → Items F

  -- The entries of a `dict`, in insertion order.
  pub data Fields (F : Type 0) : Type 0 where
    end : Fields F
    field : HdsValue F → HdsValue F → Fields F → Fields F

abbrev pub ok_or_empty : Result Bytes → Bytes
ok_or_empty (ok bs) = bs
ok_or_empty (err e) = []

-- `struct.pack` and `struct.unpack` at "<f" and "<d", `==` between floats and with an integer, and
-- `uuid.UUID(text).bytes` with `str(uuid.UUID(bytes=...))`. `IsPlain` sets -0.0 apart, which is
-- equal to 0.0 and packs to other bytes.
pub record Formats : Type 1 where
  pub Float : Type 0
  pub float_eq : Float → Float → Bool
  pub float_int : Float → Option ℤ
  pub pack_f : Float → Result Bytes
  pub unpack_f : Bytes → Float
  pub pack_d : Float → Bytes
  pub unpack_d : Bytes → Float
  pub uuid_bytes : Text → Result Bytes
  pub uuid_text : Bytes → Text
  pub IsPlain : Float → Type 0
  pub length-pack_f : (x : Float) (bs : Bytes) → pack_f x ≡ ok bs → length bs ≡ 4
  pub length-pack_d : (x : Float) → length (pack_d x) ≡ 8
  pub length-uuid_bytes : (t : Text) (bs : Bytes) → uuid_bytes t ≡ ok bs → length bs ≡ 16
  pub unpack_d-pack_d : (x : Float) → unpack_d (pack_d x) ≡ x
  pub float_eq-IsPlain : (x y : Float) → IsPlain x → IsPlain y → float_eq x y ≡ true → x ≡ y

unfoldable pub list_eq : List ℕ → List ℕ → Bool
list_eq [] [] = true
list_eq (x ∷ xs) (y ∷ ys) = x == y && list_eq xs ys
list_eq _ _ = false

module _ (fm : Formats) where
  open fm use {
    Float, float_eq, float_int, pack_f, unpack_f, pack_d, unpack_d, uuid_bytes, uuid_text,
  }

  -- `==` between an entry of `seen` and a value that is looked up there: a wrapper, a text or bytes.
  -- The dataclasses compare equal only within one class.
  unfoldable pub same_value : HdsValue Float → HdsValue Float → Bool
  unfolding list_eq int_eq
  same_value (int8 a) (int8 b) = int_eq a b
  same_value (int16 a) (int16 b) = int_eq a b
  same_value (int32 a) (int32 b) = int_eq a b
  same_value (int64 a) (int64 b) = int_eq a b
  same_value (float32 a) (float32 b) = float_eq a b
  same_value (float64 a) (float64 b) = float_eq a b
  same_value (seconds_since_2001 a) (seconds_since_2001 b) = float_eq a b
  same_value (hds_uuid a) (hds_uuid b) = list_eq a b
  same_value (str a) (str b) = list_eq a b
  same_value (bytes a) (bytes b) = list_eq a b
  same_value _ _ = false

  -- The number that a dictionary key is, as `True == 1 == 1.0`.
  unfoldable pub number_of : HdsValue Float → Option ℤ
  number_of (bool true) = some (pos 1)
  number_of (bool false) = some (pos 0)
  number_of (int z) = some z
  number_of (float x) = float_int x
  number_of _ = none

  unfoldable pub plain_key_eq : HdsValue Float → HdsValue Float → Bool
  unfolding list_eq
  plain_key_eq null null = true
  plain_key_eq terminator terminator = true
  plain_key_eq (float a) (float b) = float_eq a b
  plain_key_eq (str a) (str b) = list_eq a b
  plain_key_eq (bytes a) (bytes b) = list_eq a b
  plain_key_eq _ _ = false

  -- Whether two decoded values are the same key of a `dict`.
  unfoldable pub key_eq : HdsValue Float → HdsValue Float → Bool
  unfolding number_of plain_key_eq int_eq
  key_eq a b = elim (number_of a) [
    | none ↦ plain_key_eq a b
    | some m ↦ elim (number_of b) [ none ↦ false | some n ↦ int_eq m n ]
  ]

  -- A list or a dict raises `TypeError: unhashable type` as a key.
  unfoldable pub is_hashable : HdsValue Float → Bool
  is_hashable (array xs) = false
  is_hashable (dict fs) = false
  is_hashable _ = true

  -- `d[key] = value`
  unfoldable pub put_field : HdsValue Float → HdsValue Float → Fields Float → Fields Float
  unfolding key_eq
  put_field k v end = field k v end
  put_field k v (field j w fs) = if key_eq j k then field j v fs else field j w (put_field k v fs)

  unfoldable mutual
    -- What the decoder makes of a written value: the wrappers and UUIDs are read as plain values.
    pub decoded : HdsValue Float → HdsValue Float
    decoded null = null
    decoded terminator = terminator
    decoded (bool b) = bool b
    decoded (int z) = int z
    decoded (int8 z) = int z
    decoded (int16 z) = int z
    decoded (int32 z) = int z
    decoded (int64 z) = int z
    decoded (float x) = float x
    decoded (float32 x) = float (unpack_f (ok_or_empty (pack_f x)))
    decoded (float64 x) = float x
    decoded (seconds_since_2001 x) = float x
    decoded (hds_uuid t) = str (uuid_text (ok_or_empty (uuid_bytes t)))
    decoded (str t) = str t
    decoded (bytes bs) = bytes bs
    decoded (array xs) = array (decoded_items xs)
    decoded (dict fs) = dict (decoded_fields fs)

    pub decoded_items : Items Float → Items Float
    decoded_items nil = nil
    decoded_items (cons x xs) = cons (decoded x) (decoded_items xs)

    pub decoded_fields : Fields Float → Fields Float
    decoded_fields end = end
    decoded_fields (field k v fs) = field (decoded k) (decoded v) (decoded_fields fs)
