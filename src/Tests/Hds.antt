-- ===== src/Tests/Hds.antt =====
-- hds_codec.py on small inputs.
use atv_homekit_remote.Prelude.{
  ℕ, ◌≡◌, refl, Bool, true, false, Option, none, some, List, [], ◌∷◌, ◌==◌, if◌then◌else◌, arith,
  length, replicate, get_elem?, Bytes, Result, ok, err, value_error, out_of_fuel, ◌≢◌, ◌>>=◌, All,
}
use atv_homekit_remote.Prelude.Int.{ℤ, pos, negsuc}
use atv_homekit_remote.HdsCodec.Value.{
  HdsValue, Items, Fields, Formats, bool, int, int64, str, bytes, array, dict, nil, cons, end,
  field, terminator, decoded, decoded_fields,
}
use atv_homekit_remote.Tests.Floats.{two_floats}
use atv_homekit_remote.HdsCodec.Encoder.{encode}
use atv_homekit_remote.HdsCodec.Decoder.{decode}
use atv_homekit_remote.HdsCodec.Exact.{IsExact, AreDistinct}
use atv_homekit_remote.HdsCodec.RoundTrip.{decode-encode_value}
use atv_homekit_remote.HdsCodec.Integers.{decode-encode_int}
use atv_homekit_remote.HdsCodec.Ends.{decode-ne-out_of_fuel}

-- {"p": [5, Int64(5), Int64(5), b"\x01"], "q": 1000}
abbrev sample_fields : Fields Bool
sample_fields =
    field (str (112 ∷ []))
      (array (
        cons (int (pos 5))
          (cons (int64 (pos 5)) (cons (int64 (pos 5)) (cons (bytes (1 ∷ [])) nil)))))
      (field (str (113 ∷ [])) (int (pos 1000)) end)

abbrev sample : HdsValue Bool
sample = dict sample_fields

abbrev sample_bytes : Bytes
sample_bytes =
    226 ∷ 65 ∷ 112 ∷ 212 ∷ 13 ∷ 51 ∷ 5 ∷ 0 ∷ 0 ∷ 0 ∷ 0 ∷ 0 ∷ 0 ∷ 0 ∷ 162 ∷ 113 ∷ 1 ∷ 65 ∷ 113 ∷ 49
    ∷ 232 ∷ 3 ∷ []

sample_encoded : encode two_floats sample ≡ ok sample_bytes
unfolding encode atv_homekit_remote.HdsCodec.Encoder.checked
    atv_homekit_remote.HdsCodec.Encoder.fields_length atv_homekit_remote.HdsCodec.Encoder.◌⨾◌
    atv_homekit_remote.HdsCodec.Encoder.append atv_homekit_remote.HdsCodec.Encoder.compress_or
    atv_homekit_remote.HdsCodec.Encoder.string_literal atv_homekit_remote.Utf8.utf8_encode
    atv_homekit_remote.Utf8.encode_point atv_homekit_remote.HdsCodec.Encoder.items_length
    atv_homekit_remote.HdsCodec.Encoder.put_integer atv_homekit_remote.HdsCodec.Words.pack_signed
    atv_homekit_remote.HdsCodec.Encoder.bytes_literal atv_homekit_remote.Prelude.to_le
sample_encoded = refl

sample_keys : AreDistinct two_floats end (decoded_fields two_floats sample_fields)
unfolding decoded_fields atv_homekit_remote.HdsCodec.Value.is_hashable
    atv_homekit_remote.HdsCodec.Exact.snoc_field atv_homekit_remote.HdsCodec.Value.key_eq
sample_keys = (refl, tt, (refl, (refl, tt), tt))

sample-IsExact : IsExact two_floats sample
unfolding IsExact
sample-IsExact = (
  ((omega arith, tt), ((λ h. cc), (tt, (tt, (tt, tt)))), ((omega arith, tt), (λ h. cc), tt)),
  sample_keys,
)

decode-encode_value_example : decode two_floats sample_bytes ≡ ok (decoded two_floats sample)
decode-encode_value_example =
    decode-encode_value two_floats sample sample_bytes sample-IsExact sample_encoded

decode-encode_int_example :
    (encode two_floats (int (negsuc 299)) >>= decode two_floats) ≡ ok (int (negsuc 299))
unfolding atv_homekit_remote.Prelude.Int.int_eq atv_homekit_remote.HdsCodec.Words.is_signed
decode-encode_int_example = decode-encode_int two_floats (negsuc 299)

decode-ne-out_of_fuel_example : decode two_floats sample_bytes ≢ err out_of_fuel
decode-ne-out_of_fuel_example = decode-ne-out_of_fuel two_floats sample_bytes

-- `decode(b"\xd1\x03")` is a list that holds the decoder's sentinel.
terminator_leaks : decode two_floats (0xd1 ∷ 0x03 ∷ []) ≡ ok (array (cons terminator nil))
unfolding decode
terminator_leaks = refl
