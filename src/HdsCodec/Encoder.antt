-- ===== src/HdsCodec/Encoder.antt =====
-- `Encoder`. A method takes `seen` and returns the bytes that it appends to `buf` with the new `seen`.
use atv_homekit_remote.Prelude.{
  ℕ, zero, suc, ◌+◌, ◌-◌, ◌^◌, true, false, Option, none, some, List, [], ◌∷◌, ◌++◌, leb, ltb,
  if◌then◌else◌, length, Bytes, to_le, Result, ok, err, value_error, type_error, overflow_error,
  ◌>>=◌,
}
use atv_homekit_remote.Prelude.Int.{ℤ, pos, negsuc}
use atv_homekit_remote.Utf8.{Text, utf8_encode}
use atv_homekit_remote.HdsCodec.Value.{
  HdsValue, Items, Fields, null, terminator, bool, int, int8, int16, int32, int64, float, float32,
  float64, seconds_since_2001, hds_uuid, str, bytes, array, dict, nil, cons, end, field, Formats,
  same_value,
}
use atv_homekit_remote.HdsCodec.Words.{pack_signed, is_signed}

abbrev pub max_depth : ℕ
max_depth = 64

-- `_length`: the tag for the width that the length needs, and the length.
unfoldable pub put_length : ℕ → ℕ → ℕ → ℕ → ℕ → Result Bytes
put_length n tag8 tag16 tag32 tag64 =
    if leb n 0xff
    then ok (tag8 ∷ n ∷ [])
    else if leb n 0xffff
    then ok (tag16 ∷ to_le 2 n)
    else if leb n 0xffff_ffff
    then ok (tag32 ∷ to_le 4 n)
    else if leb n 0xffff_ffff_ffff_ffff
    then ok (tag64 ∷ to_le 8 n)
    else err overflow_error

-- Up to 32 bytes the tag holds the length; more bytes have a length of their own.
unfoldable pub sized_literal : ℕ → ℕ → ℕ → ℕ → ℕ → Bytes → Result Bytes
unfolding put_length
sized_literal short tag8 tag16 tag32 tag64 raw =
    if leb (length raw) 32
    then ok ((short + length raw) ∷ raw)
    else (put_length (length raw) tag8 tag16 tag32 tag64 >>= λ head. ok (head ++ raw))

-- What `_string` appends where the text is not compressed.
unfoldable pub string_literal : Text → Result Bytes
unfolding sized_literal
string_literal t = utf8_encode t >>= sized_literal 0x40 0x61 0x62 0x63 0x64

-- What `_bytes` appends where the bytes are not compressed.
unfoldable pub bytes_literal : Bytes → Result Bytes
unfolding sized_literal
bytes_literal raw = sized_literal 0x70 0x91 0x92 0x93 0x94 raw

unfoldable pub items_length : {F : Type 0} → Items F → ℕ
items_length nil = 0
items_length (cons x xs) = suc (items_length xs)

unfoldable pub fields_length : {F : Type 0} → Fields F → ℕ
fields_length end = 0
fields_length (field k v fs) = suc (fields_length fs)

module _ (fm : Formats) where
  open fm use {Float, pack_f, pack_d, uuid_bytes}

  abbrev pub Seen : Type 0
  Seen = List (HdsValue Float)

  abbrev pub Emit : Type 0
  Emit = Seen → Result (Bytes × Seen)

  -- One method after the other: the buffer holds both parts, and `seen` is handed on.
  infixl 20 ◌⨾◌
  unfoldable pub ◌⨾◌ : Emit → Emit → Emit
  ◌⨾◌ m n seen = do (front, seen') ← m seen; (back, seen'') ← n seen'; ok (front ++ back, seen'')

  unfoldable pub append : Bytes → Emit
  append bs seen = ok (bs, seen)

  unfoldable pub track_literal : HdsValue Float → Bytes → Emit
  track_literal v bs seen = ok (bs, seen ++ (v ∷ []))

  -- `self.seen.index(value)`
  unfoldable pub index_of : HdsValue Float → Seen → Option ℕ
  unfolding same_value
  index_of v [] = none
  index_of v (w ∷ ws) =
      if same_value fm w v
      then some 0
      else (elim (index_of v ws) [ none ↦ none | some i ↦ some (suc i) ])

  -- The literal's bytes, with the `seen` that is left.
  abbrev pub beside : Seen → Result Bytes → Result (Bytes × Seen)
  beside seen literal = literal >>= λ bs. ok (bs, seen)

  -- `_compress` by what it found, and the literal that its callers write where it says no. A literal
  -- that cannot be packed raises, which ends the whole encoding.
  unfoldable pub put_found : Option ℕ → HdsValue Float → Result Bytes → Emit
  put_found none v literal seen = beside (seen ++ (v ∷ [])) literal
  put_found (some i) v literal seen =
      if leb i (0xcf - 0xa0) then ok ((0xa0 + i) ∷ [], seen) else beside seen literal

  unfoldable pub compress_or : HdsValue Float → Result Bytes → Emit
  unfolding index_of put_found
  compress_or v literal seen = put_found (index_of v seen) v literal seen

  -- The tag and the packed value.
  abbrev pub tagged : ℕ → Result Bytes → Result Bytes
  tagged tag packed = packed >>= λ bs. ok (tag ∷ bs)

  unfoldable pub put_int8 : ℤ → Emit
  unfolding compress_or
  put_int8 z = compress_or (int8 z) (tagged 0x30 (pack_signed 1 z))

  unfoldable pub put_int16 : ℤ → Emit
  unfolding compress_or
  put_int16 z = compress_or (int16 z) (tagged 0x31 (pack_signed 2 z))

  unfoldable pub put_int32 : ℤ → Emit
  unfolding compress_or
  put_int32 z = compress_or (int32 z) (tagged 0x32 (pack_signed 4 z))

  unfoldable pub put_int64 : ℤ → Emit
  unfolding compress_or
  put_int64 z = compress_or (int64 z) (tagged 0x33 (pack_signed 8 z))

  -- The tests of `_integer` for a value that is not in -1 .. 39.
  unfoldable pub wide_integer : ℤ → Emit
  unfolding put_int8 put_int16 put_int32 put_int64
  wide_integer z =
      if is_signed 128 z
      then put_int8 z
      else if is_signed 32768 z
      then put_int16 z
      else if is_signed (2 ^ 31) z
      then put_int32 z
      else if is_signed (2 ^ 63) z
      then put_int64 z
      else (λ seen. err overflow_error)

  unfoldable pub put_integer : ℤ → Emit
  unfolding wide_integer track_literal
  put_integer (negsuc zero) = track_literal (int (negsuc 0)) (0x07 ∷ [])
  put_integer (negsuc (suc n)) = wide_integer (negsuc (suc n))
  put_integer (pos n) =
      if leb n 39 then track_literal (int (pos n)) ((0x08 + n) ∷ []) else wide_integer (pos n)

  -- `_check_depth`, then the rest of the method.
  unfoldable pub checked : ℕ → Emit → Emit
  checked depth m = if ltb max_depth depth then (λ seen. err value_error) else m

  unfoldable mutual
    pub put_value : HdsValue Float → ℕ → Emit
    put_value null depth = checked depth (append (0x04 ∷ []))
    put_value terminator depth = checked depth (λ seen. err type_error)
    put_value (bool true) depth = checked depth (track_literal (bool true) (0x01 ∷ []))
    put_value (bool false) depth = checked depth (track_literal (bool false) (0x02 ∷ []))
    put_value (int8 z) depth = checked depth (put_int8 z)
    put_value (int16 z) depth = checked depth (put_int16 z)
    put_value (int32 z) depth = checked depth (put_int32 z)
    put_value (int64 z) depth = checked depth (put_int64 z)
    put_value (float32 x) depth = checked depth (compress_or (float32 x) (tagged 0x35 (pack_f x)))
    put_value (float64 x) depth =
        checked depth (compress_or (float64 x) (tagged 0x36 (ok (pack_d x))))
    put_value (seconds_since_2001 x) depth =
        checked depth (compress_or (seconds_since_2001 x) (tagged 0x06 (ok (pack_d x))))
    put_value (hds_uuid t) depth =
        checked depth (compress_or (hds_uuid t) (tagged 0x05 (uuid_bytes t)))
    put_value (int z) depth = checked depth (put_integer z)
    put_value (float x) depth =
        checked depth (compress_or (float64 x) (tagged 0x36 (ok (pack_d x))))
    put_value (str t) depth = checked depth (compress_or (str t) (string_literal t))
    put_value (bytes bs) depth = checked depth (compress_or (bytes bs) (bytes_literal bs))
    put_value (array xs) depth = checked depth (
        checked (suc depth) (
          if leb (items_length xs) 12
          then append ((0xd0 + items_length xs) ∷ []) ⨾ put_items xs (suc depth)
          else append (0xdf ∷ []) ⨾ put_items xs (suc depth) ⨾ append (0x03 ∷ [])))
    put_value (dict fs) depth = checked depth (
        checked (suc depth) (
          if leb (fields_length fs) 14
          then append ((0xe0 + fields_length fs) ∷ []) ⨾ put_fields fs (suc depth)
          else append (0xef ∷ []) ⨾ put_fields fs (suc depth) ⨾ append (0x03 ∷ [])))

    pub put_items : Items Float → ℕ → Emit
    put_items nil depth = append []
    put_items (cons x xs) depth = put_value x depth ⨾ put_items xs depth

    pub put_fields : Fields Float → ℕ → Emit
    put_fields end depth = append []
    put_fields (field k v fs) depth = put_value k depth ⨾ put_value v depth ⨾ put_fields fs depth

  unfoldable pub encode : HdsValue Float → Result Bytes
  unfolding put_value
  encode v = do (buf, seen) ← put_value v 0 []; ok buf
