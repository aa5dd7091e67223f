-- ===== src/Remote/Buttons.antt =====
-- The buttons of a target in remote.py, as they are parsed, merged and dropped.
use atv_homekit_remote.Prelude.{
  ℕ, ◌≡◌, refl, ◌≤◌, ◌^◌, inl, inr, ap, Option, none, some, List, [], ◌∷◌, ◌==◌, arith, All, Bytes,
  IsByte, length, from_le, from_le-lt, Bool-cases, ok, >>=-eq-ok,
}
use atv_homekit_remote.Prelude.Dict.{Dict, lookup, insert, erase, lookup-All, insert-All, erase-All}
use atv_homekit_remote.Tlv8.{decode_list, read_u16}
use atv_homekit_remote.Tlv8.ByteValues.{IsByteEntry, decode_list-IsByteEntry}
use atv_homekit_remote.Remote.Target.{
  ButtonConfiguration, nonempty, required, single, parse_button, parse_buttons, parse_button_list,
  parse_button_name, button_configuration_id_tag, button_configuration_type_tag,
  button_configuration_name_tag,
}
use atv_homekit_remote.Remote.Control.{merge_buttons, drop_buttons}
use atv_homekit_remote.Remote.Valid.{
  IsButtonEntry, HasButtons, insert-HasUniqueKeys, erase-HasUniqueKeys,
}

insert-HasButtons :
    (id : ℕ) (b : ButtonConfiguration) (d : Dict ButtonConfiguration)
    → IsButtonEntry (id, b)
    → HasButtons d
    → HasButtons (insert id b d)
insert-HasButtons id b d e h =
    (insert-All IsButtonEntry id b d e h.0, insert-HasUniqueKeys id b d h.1)

pub merge_buttons-HasButtons :
    (d current : Dict ButtonConfiguration)
    → HasButtons d
    → HasButtons current
    → HasButtons (merge_buttons d current)
unfolding merge_buttons
merge_buttons-HasButtons [] current h c = c
merge_buttons-HasButtons ((id, b) ∷ d) current h c =
    merge_buttons-HasButtons d (insert id b current) (h.0.1, h.1.1)
      (insert-HasButtons id b current h.0.0 c)

pub drop_buttons-HasButtons :
    (d current : Dict ButtonConfiguration)
    → HasButtons current
    → HasButtons (drop_buttons d current)
unfolding drop_buttons
drop_buttons-HasButtons [] current c = c
drop_buttons-HasButtons ((id, b) ∷ d) current c =
    drop_buttons-HasButtons d (erase id current)
      (erase-All IsButtonEntry id current c.0, erase-HasUniqueKeys id current c.1)

-- A value that `_required` returns is in the mapping.
required-lookup :
    (d : Dict Bytes) (tag : ℕ) (v : Bytes) → required d tag ≡ ok v → lookup tag d ≡ some v
unfolding required
required-lookup d tag v e = nonempty-some (lookup tag d) e
  where
    nonempty-some : (o : Option Bytes) → nonempty o ≡ ok v → o ≡ some v
    nonempty-some none h = cc
    nonempty-some (some []) h = cc
    nonempty-some (some (b ∷ bs)) h = cc

-- What `_required` returns of bytes are bytes.
pub required-IsByte :
    (d : Dict Bytes) (tag : ℕ) (v : Bytes)
    → All IsByteEntry d
    → required d tag ≡ ok v
    → All IsByte v
required-IsByte d tag v h e = lookup-All IsByteEntry tag v d h (required-lookup d tag v e)

single-bound : (bs : Bytes) (n : ℕ) → All IsByte bs → single bs ≡ ok n → n ≤ 255
single-bound [] n h e = cc
single-bound (b ∷ []) n h e = let (byte, rest) = h in ground (arith, byte)
single-bound (b ∷ c ∷ bs) n h e = cc

read_u16-bound : (bs : Bytes) (n : ℕ) → All IsByte bs → read_u16 bs ≡ ok n → n ≤ 65535
unfolding read_u16
read_u16-bound bs n h e = elim (Bool-cases (length bs == 2)) [
  | inl two ↦
      let value : from_le bs ≡ n = ground arith in
      let sized : length bs ≡ 2 = ground arith in
      let power : 256 ^ length bs ≡ 256 ^ 2 = ap (λ k. 256 ^ k) sized in
      omega (arith, from_le-lt bs h, value, power)
  | inr other ↦ absurd (ground arith)
]

parse_button-bounds :
    (entry : Dict Bytes) (b : ButtonConfiguration)
    → All IsByteEntry entry
    → parse_button entry ≡ ok b
    → (b.button_id ≤ 255) × (b.button_type ≤ 65535)
unfolding parse_button
parse_button-bounds entry b h e =
    let (id_raw, e0, e1) = >>=-eq-ok (required entry button_configuration_id_tag) _ e in
    let (id, e2, e3) = >>=-eq-ok (single id_raw) _ e1 in
    let (kind_raw, e4, e5) = >>=-eq-ok (required entry button_configuration_type_tag) _ e3 in
    let (kind, e6, e7) = >>=-eq-ok (read_u16 kind_raw) _ e5 in
    let (name, e8, e9) =
      >>=-eq-ok (parse_button_name (lookup button_configuration_name_tag entry)) _ e7 in
    let small = single-bound id_raw id (required-IsByte entry _ id_raw h e0) e2 in
    let short = read_u16-bound kind_raw kind (required-IsByte entry _ kind_raw h e4) e6 in
    let same : id ≡ b.button_id = ground arith in
    let kinds : kind ≡ b.button_type = ground arith in (omega arith, omega arith)

parse_buttons-HasButtons :
    (entries : List (Dict Bytes)) (d e : Dict ButtonConfiguration)
    → All (All IsByteEntry) entries
    → HasButtons d
    → parse_buttons entries d ≡ ok e
    → HasButtons e
unfolding parse_buttons
parse_buttons-HasButtons [] d e h c p = let same : d ≡ e = ground arith in rw (← same) c
parse_buttons-HasButtons (entry ∷ entries) d e h c p =
    let (b, p0, p1) = >>=-eq-ok (parse_button entry) _ p in
    let (small, short) = parse_button-bounds entry b h.0 p0 in
    parse_buttons-HasButtons entries (insert b.button_id b d) e h.1
      (insert-HasButtons b.button_id b d (refl, small, short) c) p1

-- Buttons that are parsed from bytes fit their ranges.
pub parse_button_list-HasButtons :
    (raw : Option Bytes) (d : Dict ButtonConfiguration)
    → ((bs : Bytes) → raw ≡ some bs → All IsByte bs)
    → parse_button_list raw ≡ ok d
    → HasButtons d
unfolding parse_button_list
parse_button_list-HasButtons none d h e = let same : [] ≡ d = ground arith in rw (← same) (tt, tt)
parse_button_list-HasButtons (some raw) d h e =
    let (entries, e0, e1) = >>=-eq-ok (decode_list raw button_configuration_id_tag) _ e in
    parse_buttons-HasButtons entries [] d
      (decode_list-IsByteEntry raw button_configuration_id_tag entries (h raw refl) e0) (tt, tt) e1
