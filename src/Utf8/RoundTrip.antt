-- ===== src/Utf8/RoundTrip.antt =====
-- What was encoded decodes back.
use atv_homekit_remote.Prelude.{
  ℕ, suc, ◌+◌, ◌*◌, ◌/◌, ◌%◌, ◌<◌, ◌≤◌, ◌≡◌, [], ◌∷◌, ◌++◌, arith, false, Result, ok, ◌>>=◌, Bytes,
  All, >>=-eq-ok,
}
use atv_homekit_remote.Utf8.{
  Text, is_surrogate, encode_point, utf8_encode, idle, lead_byte, next_byte, utf8_loop, utf8_decode,
}

-- A character, then the rest.
abbrev prepend : ℕ → Result Text → Result Text
prepend c r = r >>= λ cs. ok (c ∷ cs)

lead_two :
    (q : ℕ)
    → 2 ≤ q
    → q < 32
    → lead_byte (0xc0 + q) ≡ ok ([], record { due = 1; value = q; least = 0x80 })
unfolding lead_byte
lead_two q lo hi = ground arith

lead_three :
    (q : ℕ) → q < 16 → lead_byte (0xe0 + q) ≡ ok ([], record { due = 2; value = q; least = 0x800 })
unfolding lead_byte
lead_three q hi = ground arith

lead_four :
    (q : ℕ) → q < 5 → lead_byte (0xf0 + q) ≡ ok ([], record { due = 3; value = q; least = 0x10000 })
unfolding lead_byte
lead_four q hi = ground arith

inner :
    (more v least x : ℕ)
    → x < 64
    → 0 < more
    → next_byte more (record { due = suc more; value = v; least = least }) (0x80 + x)
      ≡ ok ([], record { due = more; value = v * 64 + x; least = least })
unfolding next_byte
inner more v least x h m = ground arith

last :
    (v least x c : ℕ)
    → x < 64
    → v * 64 + x ≡ c
    → least ≤ c
    → is_surrogate c ≡ false
    → c < 0x110000
    → next_byte 0 (record { due = 1; value = v; least = least }) (0x80 + x) ≡ ok (c ∷ [], idle)
unfolding next_byte
last v least x c h e lo sur hi = ground arith

module _ (c : ℕ) (rest : Bytes) where
  loop_one : c < 0x80 → utf8_loop (c ∷ rest) idle ≡ prepend c (utf8_loop rest idle)
  unfolding utf8_loop
  loop_one h = ground arith

  loop_two :
      0x80 ≤ c
      → c < 0x800
      → utf8_loop ((0xc0 + c / 64) ∷ (0x80 + c % 64) ∷ rest) idle ≡ prepend c (utf8_loop rest idle)
  unfolding utf8_loop
  loop_two lo hi =
      rw
        (
          lead_two (c / 64) (omega arith) (omega arith),
          last (c / 64) 0x80 (c % 64) c (omega arith) (omega arith) lo
              (unfold is_surrogate in ground arith) (omega arith),
        )
        (ground arith)

  loop_three :
      0x800 ≤ c
      → c < 0x10000
      → is_surrogate c ≡ false
      → utf8_loop ((0xe0 + c / 4096) ∷ (0x80 + c / 64 % 64) ∷ (0x80 + c % 64) ∷ rest) idle
        ≡ prepend c (utf8_loop rest idle)
  unfolding utf8_loop
  loop_three lo hi sur =
      rw
        (
          lead_three (c / 4096) (omega arith),
          inner 1 (c / 4096) 0x800 (c / 64 % 64) (omega arith) (omega arith),
          last (c / 4096 * 64 + c / 64 % 64) 0x800 (c % 64) c (omega arith) (omega arith) lo sur
              (omega arith),
        )
        (ground arith)

  loop_four :
      0x10000 ≤ c
      → c < 0x110000
      → utf8_loop
          ((0xf0 + c / 262144)
            ∷ (0x80 + c / 4096 % 64)
            ∷ (0x80 + c / 64 % 64)
            ∷ (0x80 + c % 64)
            ∷ rest)
          idle
        ≡ prepend c (utf8_loop rest idle)
  unfolding utf8_loop
  loop_four lo hi =
      rw
        (
          lead_four (c / 262144) (omega arith),
          inner 2 (c / 262144) 0x10000 (c / 4096 % 64) (omega arith) (omega arith),
          inner 1 (c / 262144 * 64 + c / 4096 % 64) 0x10000 (c / 64 % 64) (omega arith)
              (omega arith),
          last ((c / 262144 * 64 + c / 4096 % 64) * 64 + c / 64 % 64) 0x10000 (c % 64) c
              (omega arith) (omega arith) lo (unfold is_surrogate in ground arith) hi,
        )
        (ground arith)

loop-encode_point :
    (c : ℕ) (front rest : Bytes)
    → c < 0x110000
    → encode_point c ≡ ok front
    → utf8_loop (front ++ rest) idle ≡ prepend c (utf8_loop rest idle)
unfolding encode_point
loop-encode_point c front rest h e =
    ground (arith, loop_one c rest, loop_two c rest, loop_three c rest, loop_four c rest)

-- If a text of code points encodes, reading back the bytes gives the text.
pub utf8_decode-utf8_encode :
    (cs : Text) (bs : Bytes)
    → All (λ c. c < 0x110000) cs
    → utf8_encode cs ≡ ok bs
    → utf8_decode bs ≡ ok cs
unfolding utf8_encode utf8_decode
utf8_decode-utf8_encode [] bs h e = ground arith
utf8_decode-utf8_encode (c ∷ cs) bs h e =
    let (front, p, e') = >>=-eq-ok (encode_point c) _ e in
    let (back, q, e'') = >>=-eq-ok (utf8_encode cs) _ e' in
    cc (loop-encode_point c front back h.0 p, utf8_decode-utf8_encode cs back h.1 q)
