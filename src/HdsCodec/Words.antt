-- ===== src/HdsCodec/Words.antt =====
-- `struct` at "<b", "<h", "<i" and "<q": two's complement, little endian.
use atv_homekit_remote.Prelude.{
  ℕ, ◌-◌, ◌^◌, ◌≡◌, ◌<◌, ltb, if◌then◌else◌, Bytes, to_le, from_le, length-to_le, from_le-to_le,
  length, Result, ok, err, struct_error, ◌/◌, ◌%◌, true, Bool, arith,
}
use atv_homekit_remote.Prelude.Int.{ℤ, pos, negsuc}

-- 2 ** (8 * width - 1)
abbrev pub half_range : ℕ → ℕ
half_range width = 256 ^ width / 2

-- `-half <= z < half`
unfoldable pub is_signed : ℕ → ℤ → Bool
is_signed half (pos n) = ltb n half
is_signed half (negsuc n) = ltb n half

-- The word that stands for a number in range.
unfoldable pub to_word : ℕ → ℤ → ℕ
to_word modulus (pos n) = n
to_word modulus (negsuc n) = modulus - 1 - n

unfoldable pub from_word : ℕ → ℕ → ℤ
from_word modulus w = if ltb w (modulus / 2) then pos w else negsuc (modulus - 1 - w)

unfoldable pub pack_signed : ℕ → ℤ → Result Bytes
unfolding is_signed to_word
pack_signed width z =
    if is_signed (half_range width) z
    then ok (to_le width (to_word (256 ^ width) z))
    else err struct_error

unfoldable pub unpack_signed : ℕ → Bytes → ℤ
unfolding from_word
unpack_signed width bs = from_word (256 ^ width) (from_le bs)

from_word-to_word :
    (m : ℕ) (z : ℤ) → m % 2 ≡ 0 → is_signed (m / 2) z ≡ true → (from_word m (to_word m z) ≡ z)
unfolding from_word to_word is_signed
from_word-to_word m (pos n) e h = ground arith
from_word-to_word m (negsuc n) e h = ground arith

to_word-lt : (m : ℕ) (z : ℤ) → 0 < m → is_signed (m / 2) z ≡ true → to_word m z < m
unfolding to_word is_signed
to_word-lt m (pos n) e h = ground arith
to_word-lt m (negsuc n) e h = ground arith

module _ (w : ℕ) (z : ℤ) {bs : Bytes} (packed : pack_signed w z ≡ ok bs) where
  in_range : is_signed (half_range w) z ≡ true
  unfolding pack_signed
  in_range = ground arith

  word_bytes : bs ≡ to_le w (to_word (256 ^ w) z)
  unfolding pack_signed
  word_bytes = ground arith

  pub length-pack_signed : length bs ≡ w
  length-pack_signed = rw word_bytes (length-to_le w _)

  pub unpack_signed-pack_signed : 0 < 256 ^ w → 256 ^ w % 2 ≡ 0 → unpack_signed w bs ≡ z
  unfolding unpack_signed
  unpack_signed-pack_signed p e =
      rw (word_bytes, from_le-to_le w (to_word (256 ^ w) z) (to_word-lt (256 ^ w) z p in_range))
        (from_word-to_word (256 ^ w) z e in_range)
