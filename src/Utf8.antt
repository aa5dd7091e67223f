-- ===== src/Utf8.antt =====
-- Python's `str.encode("utf-8")` and `bytes.decode("utf-8")`, on the code points of a text.
-- Both are strict: surrogates do not encode; overlong, cut and out-of-range forms do not decode.
pub mod RoundTrip
use atv_homekit_remote.Prelude.{
  ℕ, zero, suc, ◌+◌, ◌-◌, ◌*◌, ◌/◌, ◌%◌, ◌<◌, Bool, List, [], ◌∷◌, ◌++◌, ◌&&◌, ◌||◌, ltb, leb,
  if◌then◌else◌, Result, ok, err, unicode_error, ◌>>=◌, Bytes,
}

-- A Python `str`: its code points, each below 0x110000.
abbrev pub Text : Type 0
Text = List ℕ

unfoldable pub is_surrogate : ℕ → Bool
is_surrogate c = leb 0xd800 c && leb c 0xdfff

unfoldable pub encode_point : ℕ → Result Bytes
unfolding is_surrogate
encode_point c =
    if ltb c 0x80
    then ok (c ∷ [])
    else if ltb c 0x800
    then ok ((0xc0 + c / 64) ∷ (0x80 + c % 64) ∷ [])
    else if is_surrogate c
    then err unicode_error
    else if ltb c 0x10000
    then ok ((0xe0 + c / 4096) ∷ (0x80 + c / 64 % 64) ∷ (0x80 + c % 64) ∷ [])
    else ok
        ((0xf0 + c / 262144) ∷ (0x80 + c / 4096 % 64) ∷ (0x80 + c / 64 % 64) ∷ (0x80 + c % 64) ∷ [])

unfoldable pub utf8_encode : Text → Result Bytes
utf8_encode [] = ok []
utf8_encode (c ∷ cs) = do front ← encode_point c; back ← utf8_encode cs; ok (front ++ back)

-- The decoder between two bytes: the continuation bytes still due, the value read so far, and the
-- least value that a form of this length may have.
pub record Pending : Type 0 where
  pub due : ℕ
  pub value : ℕ
  pub least : ℕ

abbrev pub idle : Pending
idle = record { due = 0; value = 0; least = 0 }

-- The first byte of a character.
unfoldable pub lead_byte : ℕ → Result (List ℕ × Pending)
lead_byte b =
    if ltb b 0x80
    then ok (b ∷ [], idle)
    else if leb 0xc2 b && ltb b 0xe0
    then ok ([], record { due = 1; value = b - 0xc0; least = 0x80 })
    else if leb 0xe0 b && ltb b 0xf0
    then ok ([], record { due = 2; value = b - 0xe0; least = 0x800 })
    else if leb 0xf0 b && ltb b 0xf5
    then ok ([], record { due = 3; value = b - 0xf0; least = 0x10000 })
    else err unicode_error

-- A continuation byte where one more and `more` others are due.
unfoldable pub next_byte : ℕ → Pending → ℕ → Result (List ℕ × Pending)
unfolding is_surrogate
next_byte more p b =
    let value = p.value * 64 + (b - 0x80) in
    if ltb b 0x80 || leb 0xc0 b
    then err unicode_error
    else if ltb 0 more
    then ok ([], record p { due = more; value = value })
    else if ltb value p.least || is_surrogate value || leb 0x110000 value
    then err unicode_error
    else ok (value ∷ [], idle)

unfoldable pub read_byte : ℕ → Pending → ℕ → Result (List ℕ × Pending)
unfolding lead_byte next_byte
read_byte zero p b = lead_byte b
read_byte (suc more) p b = next_byte more p b

unfoldable pub end_of_text : ℕ → Result Text
end_of_text zero = ok []
end_of_text (suc due) = err unicode_error

unfoldable pub utf8_loop : Bytes → Pending → Result Text
unfolding read_byte end_of_text
utf8_loop [] p = end_of_text p.due
utf8_loop (b ∷ bs) p = do
  (chars, q) ← read_byte p.due p b
  rest ← utf8_loop bs q
  ok (chars ++ rest)

unfoldable pub utf8_decode : Bytes → Result Text
unfolding utf8_loop
utf8_decode bs = utf8_loop bs idle
