-- ===== src/Tlv8/Chunks.antt =====
-- What `encode` writes, as segments: a value of up to 255 bytes is one, a longer one is cut.
use atv_homekit_remote.Prelude.{
  ℕ, zero, suc, ◌+◌, ◌/◌, ◌≡◌, refl, List, [], ◌∷◌, ◌++◌, arith, length, length-take, take, drop,
  All, All-append, Bytes, Result, ok, err, value_error, ◌>>=◌, if◌then◌else◌, Bool, true, false,
}
use atv_homekit_remote.Prelude.Int.{ℤ, is_within, to_ℕ}
use atv_homekit_remote.Tlv8.{
  TlvSegment, Raw, normalize_value, put_chunks, put_value, encode_entry, encode, serialize,
}
use atv_homekit_remote.Tlv8.Parsing.{IsShort, serialize-append}

unfoldable pub chunk_segments : ℕ → ℕ → Bytes → List TlvSegment
chunk_segments zero tag rest = []
chunk_segments (suc rounds) tag rest =
    record { tag = tag; value = take 255 rest } ∷ chunk_segments rounds tag (drop 255 rest)

abbrev pub rounds_for : Bytes → ℕ
rounds_for v = (length v + 254) / 255

unfoldable pub value_segments : ℕ → Bytes → List TlvSegment
unfolding chunk_segments
value_segments tag [] = record { tag = tag; value = [] } ∷ []
value_segments tag (b ∷ bs) = chunk_segments (rounds_for (b ∷ bs)) tag (b ∷ bs)

put_chunks-serialize :
    (rounds tag : ℕ) (v : Bytes) → put_chunks rounds tag v ≡ serialize (chunk_segments rounds tag v)
unfolding put_chunks serialize chunk_segments
put_chunks-serialize zero tag v = refl
put_chunks-serialize (suc rounds) tag v = rw (put_chunks-serialize rounds tag (drop 255 v))

put_value-serialize : (tag : ℕ) (v : Bytes) → put_value tag v ≡ serialize (value_segments tag v)
unfolding put_value value_segments
put_value-serialize tag [] = unfold serialize in refl
put_value-serialize tag (b ∷ bs) = put_chunks-serialize _ tag (b ∷ bs)

chunk_segments-IsShort : (rounds tag : ℕ) (v : Bytes) → All IsShort (chunk_segments rounds tag v)
unfolding chunk_segments
chunk_segments-IsShort zero tag v = tt
chunk_segments-IsShort (suc rounds) tag v =
    (omega (arith, length-take 255 v), chunk_segments-IsShort rounds tag (drop 255 v))

pub value_segments-IsShort : (tag : ℕ) (v : Bytes) → All IsShort (value_segments tag v)
unfolding value_segments
value_segments-IsShort tag [] = omega arith
value_segments-IsShort tag (b ∷ bs) = chunk_segments-IsShort _ tag (b ∷ bs)

-- Every segment of a value has its tag.
chunk_segments-tags :
    (P : TlvSegment → Type 0) (rounds tag : ℕ) (v : Bytes)
    → ((s : TlvSegment) → s.tag ≡ tag → P s)
    → All P (chunk_segments rounds tag v)
unfolding chunk_segments
chunk_segments-tags P zero tag v h = tt
chunk_segments-tags P (suc rounds) tag v h =
    (h _ refl, chunk_segments-tags P rounds tag (drop 255 v) h)

pub value_segments-tags :
    (P : TlvSegment → Type 0) (tag : ℕ) (v : Bytes)
    → ((s : TlvSegment) → s.tag ≡ tag → P s)
    → All P (value_segments tag v)
unfolding value_segments
value_segments-tags P tag [] h = (h _ refl, tt)
value_segments-tags P tag (b ∷ bs) h = chunk_segments-tags P _ tag (b ∷ bs) h

-- The tag and the bytes of each entry, if all are in range.
unfoldable pub entry_values : List (ℤ × Raw) → Result (List (ℕ × Bytes))
entry_values [] = ok []
entry_values ((tag, raw) ∷ entries) =
    if is_within 255 tag
    then (do
      value ← normalize_value raw
      rest ← entry_values entries
      ok ((to_ℕ tag, value) ∷ rest))
    else err value_error

unfoldable pub item_segments : List (ℕ × Bytes) → List TlvSegment
item_segments [] = []
item_segments ((tag, value) ∷ items) = value_segments tag value ++ item_segments items

pub item_segments-IsShort : (items : List (ℕ × Bytes)) → All IsShort (item_segments items)
unfolding item_segments
item_segments-IsShort [] = tt
item_segments-IsShort ((tag, value) ∷ items) =
    All-append IsShort _ _ (value_segments-IsShort tag value) (item_segments-IsShort items)

-- The two ways of joining an entry to those behind it agree.
join_entry :
    (tag : ℕ) (b : Bool) (value : Result Bytes) (items : Result (List (ℕ × Bytes)))
    → ((if b then (value >>= λ v. ok (put_value tag v)) else err value_error) >>= λ front.
        (items >>= λ is. ok (serialize (item_segments is))) >>= λ back. ok (front ++ back))
      ≡ ((if b then (value >>= λ v. items >>= λ is. ok ((tag, v) ∷ is)) else err value_error)
          >>= λ is. ok (serialize (item_segments is)))
unfolding item_segments
join_entry tag false value items = refl
join_entry tag true (err e) items = refl
join_entry tag true (ok v) (err e) = refl
join_entry tag true (ok v) (ok is) = rw (put_value-serialize, serialize-append)

-- `encode` raises for the first entry that is out of range or does not encode; otherwise it writes
-- the segments of the entries, in order.
pub encode_lem :
    (entries : List (ℤ × Raw))
    → encode entries ≡ (entry_values entries >>= λ items. ok (serialize (item_segments items)))
unfolding encode encode_entry entry_values
encode_lem [] = unfold serialize item_segments in refl
encode_lem ((tag, raw) ∷ entries) =
    rw (encode_lem entries)
      (join_entry (to_ℕ tag) (is_within 255 tag) (normalize_value raw) (entry_values entries))
