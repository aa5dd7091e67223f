-- ===== src/Tlv8.antt =====
-- tlv8.py: HomeKit's TLV8 items, written, split into raw segments and collected again.
-- `bytes`, `bytearray` and `memoryview` are byte strings alike. Entries are pairs by their type,
-- so the `TypeError` for other entries, and the choice between `encode(a, b)` and `encode([a, b])`,
-- have no counterpart.
pub mod Parsing
pub mod Chunks
pub mod RoundTrip
pub mod ItemLists
pub mod ListLeads
pub mod ListRoundTrip
pub mod Numbers
pub mod ByteValues
use atv_homekit_remote.Prelude.{
  ℕ, zero, suc, ◌+◌, ◌/◌, ◌^◌, max, Bool, true, false, List, [], ◌∷◌, ◌++◌, ◌&&◌, not, Option, none,
  some, ltb, ◌==◌, if◌then◌else◌, length, take, drop, Bytes, to_le, from_le, Result, ok, err,
  value_error, overflow_error, out_of_fuel, ◌>>=◌,
}
use atv_homekit_remote.Prelude.Int.{ℤ, pos, negsuc, is_within, to_ℕ}
use atv_homekit_remote.Prelude.Dict.{Dict, lookup, contains, insert}
use atv_homekit_remote.Utf8.{Text, utf8_encode}

abbrev pub tlv_max_chunk : ℕ
tlv_max_chunk = 255

pub record TlvSegment : Type 0 where
  pub tag : ℕ
  pub value : Bytes

-- The values that an entry may hold.
pub data Raw : Type 0 where
  text : Text → Raw
  int : ℤ → Raw
  bytes : Bytes → Raw

unfoldable pub normalize_value : Raw → Result Bytes
unfolding is_within
normalize_value (text t) = utf8_encode t
normalize_value (int n) = if is_within 0xff n then ok (to_ℕ n ∷ []) else err value_error
normalize_value (bytes bs) = ok bs

-- `for start in range(0, len(value), TLV_MAX_CHUNK)`, by the rounds left; `rest` is what stands
-- from `start` on.
unfoldable pub put_chunks : ℕ → ℕ → Bytes → Bytes
put_chunks zero tag rest = []
put_chunks (suc rounds) tag rest =
    let chunk = take tlv_max_chunk rest in
    tag ∷ length chunk ∷ (chunk ++ put_chunks rounds tag (drop tlv_max_chunk rest))

-- What one entry appends to `out`.
unfoldable pub put_value : ℕ → Bytes → Bytes
unfolding put_chunks
put_value tag [] = tag ∷ 0 ∷ []
put_value tag (b ∷ bs) = put_chunks ((length (b ∷ bs) + 254) / tlv_max_chunk) tag (b ∷ bs)

unfoldable pub encode_entry : ℤ → Raw → Result Bytes
unfolding normalize_value put_value
encode_entry tag raw =
    if is_within 0xff tag
    then (do value ← normalize_value raw; ok (put_value (to_ℕ tag) value))
    else err value_error

unfoldable pub encode : List (ℤ × Raw) → Result Bytes
unfolding encode_entry
encode [] = ok []
encode ((tag, raw) ∷ entries) = do
  front ← encode_entry tag raw
  back ← encode entries
  ok (front ++ back)

-- The loop of `segments` over the bytes from `index` on.
unfoldable pub segments_loop : ℕ → Bytes → List TlvSegment → Result (List TlvSegment)
segments_loop fuel [] result = ok result
segments_loop zero (tag ∷ rest) result = err out_of_fuel
segments_loop (suc fuel) (tag ∷ []) result = err value_error
segments_loop (suc fuel) (tag ∷ len ∷ rest) result =
    let segment : TlvSegment = record { tag = tag; value = take len rest } in
    let more = segments_loop fuel (drop len rest) (result ++ (segment ∷ [])) in
    if ltb (length rest) len then err value_error else more

-- A round takes a byte at least, so `len(data)` rounds are enough.
unfoldable pub segments : Bytes → Result (List TlvSegment)
unfolding segments_loop
segments raw = segments_loop (length raw) raw []

-- The test for a continuation of the previous segment.
unfoldable pub continues_value : Option TlvSegment → TlvSegment → Dict Bytes → Bool
continues_value none segment result = false
continues_value (some previous) segment result =
    segment.tag == previous.tag
    && length previous.value == tlv_max_chunk
    && contains segment.tag result

abbrev pub value_or_empty : Option Bytes → Bytes
value_or_empty none = []
value_or_empty (some v) = v

unfoldable pub decode_loop : List TlvSegment → Dict Bytes → Option TlvSegment → Dict Bytes
unfolding continues_value
decode_loop [] result previous = result
decode_loop (segment ∷ rest) result previous =
    decode_loop rest
      (if continues_value previous segment result
        then insert segment.tag (value_or_empty (lookup segment.tag result) ++ segment.value) result
        else insert segment.tag segment.value result)
      (some segment)

unfoldable pub decode : Bytes → Result (Dict Bytes)
unfolding segments decode_loop
decode raw = do parsed ← segments raw; ok (decode_loop parsed [] none)

-- Whether a segment ends the current group and begins the next.
unfoldable pub starts_item : ℕ → List TlvSegment → Option TlvSegment → TlvSegment → Bool
starts_item separator [] previous segment = false
starts_item separator (_ ∷ _) none segment = segment.tag == separator
starts_item separator (_ ∷ _) (some previous) segment =
    segment.tag == separator
    && not (previous.tag == separator && length previous.value == tlv_max_chunk)

unfoldable pub close_group : List (List TlvSegment) → List TlvSegment → List (List TlvSegment)
close_group groups [] = groups
close_group groups (s ∷ ss) = groups ++ ((s ∷ ss) ∷ [])

unfoldable pub group_loop :
    ℕ
    → List TlvSegment
    → List (List TlvSegment)
    → List TlvSegment
    → Option TlvSegment
    → List (List TlvSegment)
unfolding starts_item close_group
group_loop separator [] groups current previous = close_group groups current
group_loop separator (segment ∷ rest) groups current previous =
    let fresh = starts_item separator current previous segment in
    group_loop separator rest (if fresh then groups ++ (current ∷ []) else groups)
      ((if fresh then [] else current) ++ (segment ∷ [])) (some segment)

-- A group written out again.
unfoldable pub serialize : List TlvSegment → Bytes
serialize [] = []
serialize (segment ∷ rest) = segment.tag ∷ length segment.value ∷ (segment.value ++ serialize rest)

unfoldable pub decode_groups : List (List TlvSegment) → Result (List (Dict Bytes))
unfolding serialize
decode_groups [] = ok []
decode_groups (group ∷ groups) = do
  item ← decode (serialize group)
  items ← decode_groups groups
  ok (item ∷ items)

unfoldable pub decode_list : Bytes → ℕ → Result (List (Dict Bytes))
unfolding segments group_loop decode_groups
decode_list raw separator = do
  parsed ← segments raw
  decode_groups (group_loop separator parsed [] [] none)

-- `int(value).to_bytes(width, "little", signed=False)`
unfoldable pub to_bytes : ℕ → ℤ → Result Bytes
to_bytes width (pos n) = if ltb n (256 ^ width) then ok (to_le width n) else err overflow_error
to_bytes width (negsuc n) = err overflow_error

unfoldable pub u16 : ℤ → Result Bytes
unfolding to_bytes
u16 value = to_bytes 2 value

unfoldable pub u32 : ℤ → Result Bytes
unfolding to_bytes
u32 value = to_bytes 4 value

-- `int.bit_length`, by halving; the fuel is the number itself.
unfoldable pub bit_length_loop : ℕ → ℕ → ℕ
bit_length_loop zero n = 0
bit_length_loop (suc fuel) n =
    let rest = bit_length_loop fuel (n / 2) in if n == 0 then 0 else suc rest

unfoldable pub bit_length : ℕ → ℕ
unfolding bit_length_loop
bit_length n = bit_length_loop n n

unfoldable pub uint_le : ℤ → Result Bytes
unfolding to_bytes
uint_le (pos n) = to_bytes (max 1 ((bit_length n + 7) / 8)) (pos n)
uint_le (negsuc n) = err value_error

unfoldable pub read_u16 : Bytes → Result ℕ
read_u16 value = if length value == 2 then ok (from_le value) else err value_error

unfoldable pub read_u32 : Bytes → Result ℕ
read_u32 value = if length value == 4 then ok (from_le value) else err value_error
