-- ===== src/Tlv8/Numbers.antt =====
-- The integers that TLV8 values hold: fixed and least widths, little endian.
use native.Mathlib.Nat.{pow-suc, pow-le-pow_right}
use native.Mathlib.Numerals.{towards_suc}
use atv_homekit_remote.Prelude.{
  ◌≢◌, ℕ, zero, suc, ◌+◌, ◌*◌, ◌/◌, ◌^◌, ◌≤◌, ◌<◌, ◌≡◌, refl, max, arith, length, All, Bytes,
  IsByte, to_le, from_le, length-to_le, from_le-to_le, from_le-lt, to_le-from_le, ok, err,
  overflow_error, ◌>>=◌, ltb, ◌==◌, Bool-cases, if◌then◌else◌, inl, inr,
}
use atv_homekit_remote.Prelude.Int.{pos}
use atv_homekit_remote.Tlv8.{
  to_bytes, u16, u32, bit_length_loop, bit_length, uint_le, read_u16, read_u32,
}

to_bytes-eq-ok : (w n : ℕ) → n < 256 ^ w → to_bytes w (pos n) ≡ ok (to_le w n)
unfolding to_bytes
to_bytes-eq-ok w n h = ground arith

-- A number is written by `u16` and read back exactly if it is below 2 ** 16; otherwise `u16` raises.
pub read_u16-u16 :
    (n : ℕ) → (u16 (pos n) >>= read_u16) ≡ (if ltb n 65536 then ok n else err overflow_error)
unfolding u16 to_bytes read_u16
read_u16-u16 n = ground (arith, length-to_le 2 n, from_le-to_le 2 n)

-- A number is written by `u32` and read back exactly if it is below 2 ** 32; otherwise `u32` raises.
read_u32-u32 :
    (n : ℕ) → (u32 (pos n) >>= read_u32) ≡ (if ltb n 4294967296 then ok n else err overflow_error)
unfolding u32 to_bytes read_u32
read_u32-u32 n = ground (arith, length-to_le 4 n, from_le-to_le 4 n)

fixed_width :
    (w : ℕ) (bs : Bytes)
    → All IsByte bs
    → length bs ≡ w
    → (from_le bs < 256 ^ w) × (to_le w (from_le bs) ≡ bs)
fixed_width w bs b e = rw (← e) (from_le-lt bs b, to_le-from_le bs b)

-- What `read_u16` accepts is two bytes, and `u16` writes the value that was read as those bytes.
pub u16-read_u16 :
    (bs : Bytes) (n : ℕ)
    → All IsByte bs
    → read_u16 bs ≡ ok n
    → (length bs ≡ 2) × (u16 (pos n) ≡ ok bs)
unfolding u16 to_bytes read_u16
u16-read_u16 bs n b e = ground (arith, fixed_width 2 bs b)

-- Bytes that `read_u32` accepts are four, and `u32` writes the value that was read as those bytes.
u32-read_u32 :
    (bs : Bytes) (n : ℕ)
    → All IsByte bs
    → read_u32 bs ≡ ok n
    → (length bs ≡ 4) × (u32 (pos n) ≡ ok bs)
unfolding u32 to_bytes read_u32
u32-read_u32 bs n b e = ground (arith, fixed_width 4 bs b)

bit_length_loop-bounds :
    (f n : ℕ) → n ≤ f → (n < 2 ^ bit_length_loop f n) × (2 ^ bit_length_loop f n ≤ max 1 (2 * n))
unfolding bit_length_loop
bit_length_loop-bounds zero n h = (omega arith, omega arith)
bit_length_loop-bounds (suc f) n h = elim (Bool-cases (n == 0)) [
  | inl done ↦ rw done (ground arith)
  | inr more ↦
      let n0 : n ≢ 0 = ground arith in
      rw more (
        omega (
          arith,
          bit_length_loop-bounds f (n / 2) (omega arith),
          pow-suc 2 (bit_length_loop f (n / 2)),
        ))
]

-- A number is below 2 ** bit_length, and that power is at most twice the number, or 1 for 0.
bit_length-bounds : (n : ℕ) → (n < 2 ^ bit_length n) × (2 ^ bit_length n ≤ max 1 (2 * n))
unfolding bit_length
bit_length-bounds n = bit_length_loop-bounds n n (omega arith)

pow_eight : (s : ℕ) → 2 ^ (s + 8) ≡ 256 * 2 ^ s
pow_eight s = simp towards_suc (omega arith)

pow_bytes : (k : ℕ) → 2 ^ (8 * k) ≡ 256 ^ k
pow_bytes zero = refl
pow_bytes (suc k) =
    let e : 8 * suc k ≡ 8 * k + 8 = omega arith in
    rw e (omega (arith, pow_eight (8 * k), pow_bytes k, pow-suc 256 k))

-- The bytes that `uint_le` asks for hold the number, and no fewer do.
width_fits : (n : ℕ) → n < 256 ^ max 1 ((bit_length n + 7) / 8)
width_fits n =
    let k : ℕ = max 1 ((bit_length n + 7) / 8) in
    let more : 2 ^ bit_length n ≤ 2 ^ (8 * k) = pow-le-pow_right (omega arith) (omega arith) in
    omega (arith, bit_length-bounds n, more, pow_bytes k)

-- Every number is written by `uint_le` and read back from its bytes, of which there is at least one.
pub from_le-uint_le :
    (n : ℕ)
    → let k = max 1 ((bit_length n + 7) / 8) in
      (uint_le (pos n) ≡ ok (to_le k n)) × (from_le (to_le k n) ≡ n)
unfolding uint_le
from_le-uint_le n = (to_bytes-eq-ok _ n (width_fits n), from_le-to_le _ n (width_fits n))
