-- ===== src/Prelude/ByteStrings.antt =====
-- Byte strings as lists of numbers, and integers in little-endian and big-endian order.
use Prim.Native.Nat.{ℕ, zero, suc, ◌+◌, ◌*◌, ◌/◌, ◌%◌, ◌^◌, ◌<◌}
use mathlib.Core.Path.{◌≡◌, refl, ap}
use mathlib.Core.List.{List, [], ◌∷◌}
use native.Mathlib.Omega.{arith}
use native.Mathlib.Nat.{pow-suc}
use atv_homekit_remote.Prelude.Lists.{length, All}

abbrev pub Bytes : Type 0
Bytes = List ℕ

abbrev pub IsByte : ℕ → Type 0
IsByte b = b < 256

-- `n.to_bytes(width, "little")` for an `n` that fits.
unfoldable pub to_le : ℕ → ℕ → Bytes
to_le zero n = []
to_le (suc w) n = n % 256 ∷ to_le w (n / 256)

-- `int.from_bytes(bs, "little")`
unfoldable pub from_le : Bytes → ℕ
from_le [] = 0
from_le (b ∷ bs) = b + 256 * from_le bs

pub length-to_le : (w n : ℕ) → length (to_le w n) ≡ w
unfolding to_le
length-to_le zero n = refl
length-to_le (suc w) n = ap suc (length-to_le w (n / 256))

pub to_le-IsByte : (w n : ℕ) → All IsByte (to_le w n)
unfolding to_le
to_le-IsByte zero n = tt
to_le-IsByte (suc w) n = (omega arith, to_le-IsByte w (n / 256))

pub from_le-to_le : (w n : ℕ) → n < 256 ^ w → from_le (to_le w n) ≡ n
unfolding to_le from_le
from_le-to_le zero n h = omega arith
from_le-to_le (suc w) n h = omega (arith, from_le-to_le w (n / 256) (omega (arith, pow-suc 256 w)))

pub from_le-lt : (bs : Bytes) → All IsByte bs → from_le bs < 256 ^ length bs
unfolding from_le
from_le-lt [] h = omega arith
from_le-lt (b ∷ bs) h = omega (arith, h.0, from_le-lt bs h.1, pow-suc 256 (length bs))

le_head : (b n : ℕ) → b < 256 → (b + 256 * n) % 256 ≡ b
le_head b n h = omega arith

le_tail : (b n : ℕ) → b < 256 → (b + 256 * n) / 256 ≡ n
le_tail b n h = omega arith

pub to_le-from_le : (bs : Bytes) → All IsByte bs → to_le (length bs) (from_le bs) ≡ bs
unfolding to_le from_le
to_le-from_le [] h = refl
to_le-from_le (b ∷ bs) h =
    ground (arith, le_head b (from_le bs) h.0, le_tail b (from_le bs) h.0, to_le-from_le bs h.1)
