-- ===== src/HdsCodec/Tag.antt =====
-- The tags of the format. The decoder's tests on a tag, in their order, come out as a `Kind`.
use atv_homekit_remote.Prelude.{ℕ, ◌+◌, ◌-◌, ◌≤◌, ◌≡◌, ◌&&◌, leb, ◌==◌, if◌then◌else◌, arith}

pub data Kind : Type 0 where
  invalid true_tag false_tag terminator null uuid date minus_one : Kind
  small_int : ℕ → Kind
  int_of : ℕ → Kind
  float32 float64 : Kind
  utf8_short utf8_sized : ℕ → Kind
  utf8_null : Kind
  data_short data_sized : ℕ → Kind
  data_terminated : Kind
  compressed : ℕ → Kind
  array_of : ℕ → Kind
  array_terminated : Kind
  dict_of : ℕ → Kind
  dict_terminated unknown : Kind

-- The tests from `Tag.COMPRESS` on.
unfoldable pub container_kind : ℕ → Kind
container_kind tag =
    if leb 0xa0 tag && leb tag 0xcf
    then compressed (tag - 0xa0)
    else if leb 0xd0 tag && leb tag 0xde
    then array_of (tag - 0xd0)
    else if tag == 0xdf
    then array_terminated
    else if leb 0xe0 tag && leb tag 0xee
    then dict_of (tag - 0xe0)
    else if tag == 0xef
    then dict_terminated
    else unknown

-- The tests from `Tag.UTF8_SHORT` on.
unfoldable pub text_kind : ℕ → Kind
unfolding container_kind
text_kind tag =
    if leb 0x40 tag && leb tag 0x60
    then utf8_short (tag - 0x40)
    else if tag == 0x61
    then utf8_sized 1
    else if tag == 0x62
    then utf8_sized 2
    else if tag == 0x63
    then utf8_sized 4
    else if tag == 0x64
    then utf8_sized 8
    else if tag == 0x6f
    then utf8_null
    else if leb 0x70 tag && leb tag 0x90
    then data_short (tag - 0x70)
    else if tag == 0x91
    then data_sized 1
    else if tag == 0x92
    then data_sized 2
    else if tag == 0x93
    then data_sized 4
    else if tag == 0x94
    then data_sized 8
    else if tag == 0x9f
    then data_terminated
    else container_kind tag

unfoldable pub tag_kind : ℕ → Kind
unfolding text_kind
tag_kind tag =
    if tag == 0x00
    then invalid
    else if tag == 0x01
    then true_tag
    else if tag == 0x02
    then false_tag
    else if tag == 0x03
    then terminator
    else if tag == 0x04
    then null
    else if tag == 0x05
    then uuid
    else if tag == 0x06
    then date
    else if tag == 0x07
    then minus_one
    else if leb 0x08 tag && leb tag 0x2e
    then small_int (tag - 0x08)
    else if tag == 0x30
    then int_of 1
    else if tag == 0x31
    then int_of 2
    else if tag == 0x32
    then int_of 4
    else if tag == 0x33
    then int_of 8
    else if tag == 0x35
    then float32
    else if tag == 0x36
    then float64
    else text_kind tag

-- The tags that carry a number.
pub tag_kind-small_int : (n : ℕ) → n ≤ 38 → tag_kind (0x08 + n) ≡ small_int n
unfolding tag_kind
tag_kind-small_int n h = ground arith

pub tag_kind-utf8_short : (n : ℕ) → n ≤ 32 → tag_kind (0x40 + n) ≡ utf8_short n
unfolding tag_kind
tag_kind-utf8_short n h = ground arith

pub tag_kind-data_short : (n : ℕ) → n ≤ 32 → tag_kind (0x70 + n) ≡ data_short n
unfolding tag_kind
tag_kind-data_short n h = ground arith

pub tag_kind-compressed : (i : ℕ) → i ≤ 47 → tag_kind (0xa0 + i) ≡ compressed i
unfolding tag_kind
tag_kind-compressed i h = ground arith

pub tag_kind-array_of : (n : ℕ) → n ≤ 14 → tag_kind (0xd0 + n) ≡ array_of n
unfolding tag_kind
tag_kind-array_of n h = ground arith

pub tag_kind-dict_of : (n : ℕ) → n ≤ 14 → tag_kind (0xe0 + n) ≡ dict_of n
unfolding tag_kind
tag_kind-dict_of n h = ground arith
