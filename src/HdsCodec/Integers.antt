-- ===== src/HdsCodec/Integers.antt =====
-- Plain integers through `encode` and `decode` of hds_codec.py, all of them.
use atv_homekit_remote.Prelude.{
  either, ℕ, zero, suc, ◌^◌, ◌≡◌, ◌≢◌, refl, true, false, inl, inr, [], leb, arith, if◌then◌else◌,
  Bytes, ok, err, value_error, overflow_error, ◌>>=◌, Bool-cases,
}
use atv_homekit_remote.Prelude.Int.{ℤ, pos, negsuc, int_eq}
use atv_homekit_remote.HdsCodec.Value.{HdsValue, int8, int16, int32, int64, Formats, int, decoded}
use atv_homekit_remote.HdsCodec.Words.{is_signed, pack_signed, half_range}
use atv_homekit_remote.HdsCodec.Tag.{tag_kind}
use atv_homekit_remote.HdsCodec.Encoder.{
  Emit, tagged, encode, put_value, put_integer, wide_integer, track_literal, checked, put_int8,
  put_int16, put_int32, put_int64, compress_or, put_found, index_of,
}
use atv_homekit_remote.HdsCodec.Decoder.{decode, read_value, read_tagged, read_kind}
use atv_homekit_remote.HdsCodec.Exact.{IsExact, int_eq→eq}
use atv_homekit_remote.HdsCodec.RoundTrip.{decode-encode_value}

module _ (fm : Formats) where
  -- From an empty `seen`, the number is written.
  Fits : Emit fm → Type 0
  Fits m = (out : Bytes) × ((m [] >>= λ (buf, seen). ok buf) ≡ ok out)

  packed-Fits :
      (width tag : ℕ) (v : HdsValue fm.Float) (z : ℤ)
      → is_signed (half_range width) z ≡ true
      → Fits (compress_or fm v (tagged fm tag (pack_signed width z)))
  unfolding Fits compress_or put_found index_of pack_signed
  packed-Fits width tag v z h = rw h (_, refl)

  wide_integer-Fits : (z : ℤ) → is_signed (2 ^ 63) z ≡ true → Fits (wide_integer fm z)
  unfolding wide_integer put_int8 put_int16 put_int32 put_int64
  wide_integer-Fits z h =
      either {A = Emit fm} Fits (is_signed 128 z) (λ e. packed-Fits 1 0x30 (int8 z) z e)
        (λ e.
          either {A = Emit fm} Fits (is_signed 32768 z) (λ e. packed-Fits 2 0x31 (int16 z) z e)
            (λ e.
              either {A = Emit fm} Fits (is_signed (2 ^ 31) z)
                (λ e. packed-Fits 4 0x32 (int32 z) z e)
                (λ e.
                  either {A = Emit fm} Fits (is_signed (2 ^ 63) z)
                    (λ e. packed-Fits 8 0x33 (int64 z) z e) (λ e. absurd (ground arith)))))

  wide_integer-large :
      (z : ℤ)
      → is_signed (2 ^ 63) z ≡ false
      → (wide_integer fm z [] >>= λ (buf, seen). ok buf) ≡ err overflow_error
  unfolding wide_integer is_signed
  wide_integer-large (pos n) h = ground arith
  wide_integer-large (negsuc n) h = ground arith

  put_integer-Fits : (z : ℤ) → is_signed (2 ^ 63) z ≡ true → Fits (put_integer fm z)
  unfolding put_integer track_literal
  put_integer-Fits (negsuc zero) h = one
    where
      one : Fits (put_integer fm (negsuc 0))
      one = unfold Fits put_integer track_literal in (_, refl)
  put_integer-Fits (negsuc (suc n)) h = wide_integer-Fits (negsuc (suc n)) h
  put_integer-Fits (pos n) h =
      either {A = Emit fm} Fits (leb n 39) (λ e. unfold Fits track_literal in (_, refl))
        (λ e. wide_integer-Fits (pos n) h)

  decode-encode_39 : (encode fm (int (pos 39)) >>= decode fm) ≡ err value_error
  unfolding encode put_value put_integer track_literal checked decode read_value read_tagged
      read_kind tag_kind
  decode-encode_39 = refl

  encode-int_fits :
      (z : ℤ) → is_signed (2 ^ 63) z ≡ true → (out : Bytes) × (encode fm (int z) ≡ ok out)
  unfolding encode put_value checked Fits
  encode-int_fits z h = put_integer-Fits z h

  encode-int_large : (z : ℤ) → is_signed (2 ^ 63) z ≡ false → encode fm (int z) ≡ err overflow_error
  unfolding encode put_value checked put_integer
  encode-int_large (negsuc zero) h = absurd (unfold is_signed in ground arith)
  encode-int_large (negsuc (suc n)) h = wide_integer-large (negsuc (suc n)) h
  encode-int_large (pos n) h =
      let wide : leb n 39 ≡ false = (unfold is_signed in ground arith) in
      rw wide (wide_integer-large (pos n) h)

  not_39 : (z : ℤ) → int_eq z (pos 39) ≡ false → z ≢ pos 39
  unfolding int_eq
  not_39 (pos n) h = ground arith
  not_39 (negsuc n) h = λ e. cc

  IsExact-int : (z : ℤ) → z ≢ pos 39 → IsExact fm (int z)
  unfolding IsExact
  IsExact-int z h = h

  -- A plain integer that does not fit 64 bits raises OverflowError when it is encoded, 39 is encoded
  -- to bytes that the decoder refuses with ValueError, and every other integer is decoded to itself.
  pub decode-encode_int :
      (z : ℤ)
      → (encode fm (int z) >>= decode fm) ≡ (
          if int_eq z (pos 39)
          then err value_error
          else if is_signed (2 ^ 63) z
          then ok (int z)
          else err overflow_error)
  unfolding decoded
  decode-encode_int z = elim (Bool-cases (int_eq z (pos 39))) [
    | inl is_39 ↦ rw (is_39, int_eq→eq z (pos 39) is_39) decode-encode_39
    | inr other ↦ elim (Bool-cases (is_signed (2 ^ 63) z)) [
      | inl small ↦
          let (out, written) = encode-int_fits z small in
          rw (other, small, written)
            (decode-encode_value fm (int z) out (IsExact-int z (not_39 z other)) written)
      | inr large ↦ rw (other, large, encode-int_large z large) refl
    ]
  ]
