-- ===== src/Tests/Tlv.antt =====
-- tlv8.py on small inputs.
use atv_homekit_remote.Prelude.{
  ℕ, ◌+◌, ◌*◌, ◌/◌, Option, none, ◌≡◌, ◌≢◌, refl, ◌≤◌, ◌<◌, ◌^◌, inl, inr, List, [], ◌∷◌, ◌++◌,
  arith, length, map, max, concat, replicate, All, Bytes, IsByte, to_le, from_le, Result, ok, err,
  value_error, ◌>>=◌, ◌↔◌,
}
use atv_homekit_remote.Prelude.Int.{ℤ, pos}
use atv_homekit_remote.Prelude.Dict.{Dict}
use atv_homekit_remote.Utf8.{utf8_encode, utf8_decode}
use atv_homekit_remote.Tlv8.{
  TlvSegment, Raw, text, int, bytes, encode, decode, decode_list, segments, serialize, group_loop,
  u16, u32, read_u16, read_u32, bit_length, uint_le,
}
use atv_homekit_remote.Tlv8.Parsing.{segments-eq-ok_iff}
use atv_homekit_remote.Tlv8.Chunks.{entry_values, item_segments, encode_lem}
use atv_homekit_remote.Tlv8.RoundTrip.{store, decode-encode}
use atv_homekit_remote.Tlv8.ItemLists.{AreGroups, group_loop_partition}
use atv_homekit_remote.Tlv8.ListRoundTrip.{Item, IsItem, item_entries, decode_list-items}
use atv_homekit_remote.Tlv8.Numbers.{read_u16-u16, from_le-uint_le}

abbrev entries : List (ℤ × Raw)
entries = (pos 1, text (0xe9 ∷ [])) ∷ (pos 2, int (pos 7)) ∷ (pos 3, bytes []) ∷ []

abbrev items : List (ℕ × Bytes)
items = (1, 0xc3 ∷ 0xa9 ∷ []) ∷ (2, 7 ∷ []) ∷ (3, []) ∷ []

entries_values : entry_values entries ≡ ok items
unfolding entry_values atv_homekit_remote.Prelude.Int.is_within
    atv_homekit_remote.Tlv8.normalize_value utf8_encode atv_homekit_remote.Utf8.encode_point
entries_values = refl

decode-encode_example : (encode entries >>= decode) ≡ ok (store items [])
decode-encode_example =
    decode-encode entries items entries_values
      ((λ h. absurd (omega arith)), ((λ h. absurd (omega arith)), tt))

encode_lem_example :
    encode entries ≡ (entry_values entries >>= λ vs. ok (serialize (item_segments vs)))
encode_lem_example = encode_lem entries

-- The buttons 101 and 102, of types 1 and 2.
abbrev buttons : List Item
buttons =
    record { lead = 101 ∷ []; others = (2, 1 ∷ 0 ∷ []) ∷ [] }
    ∷ record { lead = 102 ∷ []; others = (2, 2 ∷ 0 ∷ []) ∷ [] }
    ∷ []

abbrev button_item :
    (lead kind : ℕ) → IsItem 1 (record { lead = lead ∷ []; others = (2, kind ∷ 0 ∷ []) ∷ [] })
button_item lead kind = record {
  other_tags = ((λ h. absurd (omega arith)), tt);
  separated = ((λ h. absurd (omega arith)), tt);
  ended = inr tt;
}

decode_list-items_example :
    decode_list (serialize (concat (map (λ it. item_segments (item_entries 1 it)) buttons))) 1
    ≡ ok (map (λ it. store (item_entries 1 it) []) buttons)
decode_list-items_example = decode_list-items 1 buttons (button_item 101 1, (button_item 102 2, tt))

abbrev raw_item : Bytes
raw_item = 1 ∷ 2 ∷ 65 ∷ 66 ∷ []

abbrev raw_segments : List TlvSegment
raw_segments = record { tag = 1; value = 65 ∷ 66 ∷ [] } ∷ []

raw_item-IsByte : All IsByte raw_item
raw_item-IsByte = (omega arith, (omega arith, (omega arith, (omega arith, tt))))

segments-eq-ok_iff_example :
    (segments raw_item ≡ ok raw_segments)
    ↔ ((raw_item ≡ serialize raw_segments) × All (λ s. length s.value ≤ 255) raw_segments)
segments-eq-ok_iff_example = segments-eq-ok_iff raw_item raw_segments raw_item-IsByte

group_loop_partition_example :
    (concat (group_loop 1 raw_segments [] [] none) ≡ raw_segments)
    × AreGroups 1 none (group_loop 1 raw_segments [] [] none)
group_loop_partition_example = group_loop_partition 1 raw_segments

euro_encoded : utf8_encode (0x20ac ∷ []) ≡ ok (0xe2 ∷ 0x82 ∷ 0xac ∷ [])
unfolding utf8_encode atv_homekit_remote.Utf8.encode_point
euro_encoded = refl

read_u16-u16_example : (u16 (pos 513) >>= read_u16) ≡ ok 513
read_u16-u16_example = read_u16-u16 513

abbrev le_513 : Bytes
le_513 = 1 ∷ 2 ∷ 0 ∷ 0 ∷ []

read_513 : read_u32 le_513 ≡ ok 513
unfolding read_u32 from_le
read_513 = refl

from_le-uint_le_example :
    let k = max 1 ((bit_length 1000 + 7) / 8) in
    (uint_le (pos 1000) ≡ ok (to_le k 1000)) × (from_le (to_le k 1000) ≡ 1000)
from_le-uint_le_example = from_le-uint_le 1000

abbrev raw_dict : Dict Bytes
raw_dict = (1, 65 ∷ 66 ∷ []) ∷ []

raw_decoded : decode raw_item ≡ ok raw_dict
unfolding decode atv_homekit_remote.Prelude.Dict.insert
raw_decoded = refl

-- Two values under the separator's tag, the first of 255 bytes, and no other entry between them.
abbrev two_values : Result Bytes
two_values = encode ((pos 2, bytes (replicate 255 1)) ∷ (pos 2, bytes (9 ∷ [])) ∷ [])

two_values_merged :
    (two_values >>= λ raw. decode_list raw 2) ≡ ok (((2, replicate 255 1 ++ (9 ∷ [])) ∷ []) ∷ [])
unfolding encode decode_list decode atv_homekit_remote.Prelude.Dict.insert
    atv_homekit_remote.Prelude.Dict.lookup atv_homekit_remote.Prelude.Dict.contains
two_values_merged = refl
