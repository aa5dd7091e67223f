-- ===== src/Tlv8/RoundTrip.antt =====
-- `decode` collects what `encode` wrote.
use atv_homekit_remote.Prelude.{
  ℕ, zero, suc, ◌+◌, ◌-◌, ◌*◌, ◌/◌, ◌≤◌, ◌<◌, ◌≡◌, ◌≢◌, refl, ap, ◌∙◌, List, [], ◌∷◌, ◌++◌,
  append_assoc, append-nil, Option, none, some, arith, length, length-drop, length-take, take, drop,
  take_all, take-append-drop, Bytes, ok, ◌>>=◌, ==_refl, ==_ne, true,
}
use atv_homekit_remote.Prelude.Dict.{Dict, lookup, contains, insert, lookup-insert, contains-insert}
use atv_homekit_remote.Prelude.Int.{ℤ}
use atv_homekit_remote.Tlv8.{TlvSegment, Raw, decode_loop, decode, encode}
use atv_homekit_remote.Tlv8.Parsing.{segments-serialize}
use atv_homekit_remote.Tlv8.Chunks.{
  chunk_segments, value_segments, entry_values, item_segments, encode_lem,
}

-- The dictionary with the items written into it in order.
unfoldable pub store : List (ℕ × Bytes) → Dict Bytes → Dict Bytes
store [] d = d
store ((tag, value) ∷ items) d = store items (insert tag value d)

-- No item has the tag of the one before it.
abbrev pub AreSeparated : Option ℕ → List (ℕ × Bytes) → Type 0
AreSeparated previous [] = Unit
AreSeparated none ((tag, value) ∷ items) = AreSeparated (some tag) items
AreSeparated (some t) ((tag, value) ∷ items) = (tag ≢ t) × AreSeparated (some tag) items

insert-insert : (k : ℕ) (v w : Bytes) (d : Dict Bytes) → insert k w (insert k v d) ≡ insert k w d
unfolding insert
insert-insert k v w [] = ground arith
insert-insert k v w ((j, u) ∷ d) = ground (arith, insert-insert k v w d)

lookup-insert_self : (k : ℕ) (v : Bytes) (d : Dict Bytes) → lookup k (insert k v d) ≡ some v
lookup-insert_self k v d = ground (arith, lookup-insert k k v d)

contains-insert_self : (k : ℕ) (v : Bytes) (d : Dict Bytes) → contains k (insert k v d) ≡ true
contains-insert_self k v d = ground (arith, contains-insert k k v d)

-- A segment that continues the value of its tag.
decode_loop_more :
    (tag : ℕ) (part acc : Bytes) (rest : List TlvSegment) (d : Dict Bytes) (p : TlvSegment)
    → p.tag ≡ tag
    → length p.value ≡ 255
    → decode_loop (record { tag = tag; value = part } ∷ rest) (insert tag acc d) (some p)
      ≡ decode_loop rest (insert tag (acc ++ part) d) (some (record { tag = tag; value = part }))
unfolding decode_loop
decode_loop_more tag part acc rest d p same full =
    rw (same, full, contains-insert_self tag acc d, lookup-insert_self tag acc d, ==_refl tag)
      (rw (insert-insert tag acc (acc ++ part) d))

-- From here on the loop has value `v` under the tag, and its last segment has that tag.
abbrev Collects :
    ℕ
    → List TlvSegment
    → Bytes
    → Dict Bytes
    → Option TlvSegment
    → List TlvSegment
    → Dict Bytes
    → Type 0
Collects tag segs v d prev rest d0 =
    (p : TlvSegment) × (p.tag ≡ tag)
    × (decode_loop (segs ++ rest) d prev ≡ decode_loop rest (insert tag v d0) (some p))

chunks_more :
    (rounds tag : ℕ) (v acc : Bytes) (rest : List TlvSegment) (d : Dict Bytes) (p : TlvSegment)
    → p.tag ≡ tag
    → length p.value ≡ 255
    → length v ≤ 255 * rounds
    → 255 * rounds < length v + 255
    → Collects tag (chunk_segments rounds tag v) (acc ++ v) (insert tag acc d) (some p) rest d
unfolding chunk_segments
chunks_more zero tag [] acc rest d p same full lo hi = (p, same, rw append-nil)
chunks_more zero tag (b ∷ bs) acc rest d p same full lo hi = absurd (omega arith)
chunks_more (suc zero) tag v acc rest d p same full lo hi = (
  record { tag = tag; value = v },
  refl,
  rw (take_all 255 v (omega arith)) (decode_loop_more tag v acc rest d p same full),
)
chunks_more (suc (suc k)) tag v acc rest d p same full lo hi =
    let first : TlvSegment = record { tag = tag; value = take 255 v } in
    let (q, same', later) =
      chunks_more (suc k) tag (drop 255 v) (acc ++ take 255 v) rest d first refl
        (omega (arith, length-take 255 v)) (omega (arith, length-drop 255 v))
        (omega (arith, length-drop 255 v)) in
    (
      q,
      same',
      decode_loop_more tag (take 255 v) acc _ d p same full
          ∙ later
          ∙ ap (λ t. decode_loop rest (insert tag t d) (some q))
              (append_assoc acc (take 255 v) (drop 255 v)
                ∙ ap (λ t. acc ++ t) (take-append-drop 255 v)),
    )

-- A segment that begins a new value.
abbrev Begins : ℕ → Option TlvSegment → Type 0
Begins tag none = Unit
Begins tag (some p) = tag ≢ p.tag

decode_loop_first :
    (tag : ℕ) (v : Bytes) (rest : List TlvSegment) (d : Dict Bytes) (prev : Option TlvSegment)
    → Begins tag prev
    → decode_loop (record { tag = tag; value = v } ∷ rest) d prev
      ≡ decode_loop rest (insert tag v d) (some (record { tag = tag; value = v }))
unfolding decode_loop
decode_loop_first tag v rest d none b = refl
decode_loop_first tag v rest d (some p) b = rw (==_ne tag p.tag b)

chunks_first :
    (rounds tag : ℕ) (v : Bytes) (rest : List TlvSegment) (d : Dict Bytes)
    (prev : Option TlvSegment)
    → Begins tag prev
    → length v ≤ 255 * suc rounds
    → 255 * rounds < length v
    → Collects tag (chunk_segments (suc rounds) tag v) v d prev rest d
unfolding chunk_segments
chunks_first zero tag v rest d prev b lo hi = (
  record { tag = tag; value = v },
  refl,
  rw (take_all 255 v (omega arith)) (decode_loop_first tag v rest d prev b),
)
chunks_first (suc k) tag v rest d prev b lo hi =
    let first : TlvSegment = record { tag = tag; value = take 255 v } in
    let (q, same, later) =
      chunks_more (suc k) tag (drop 255 v) (take 255 v) rest d first refl
        (omega (arith, length-take 255 v)) (omega (arith, length-drop 255 v))
        (omega (arith, length-drop 255 v)) in
    (
      q,
      same,
      decode_loop_first tag (take 255 v) _ d prev b
          ∙ later
          ∙ ap (λ t. decode_loop rest (insert tag t d) (some q)) (take-append-drop 255 v),
    )

-- The number of rounds is never 0 for a value that is not empty.
rounds-bounds :
    (n : ℕ) → 0 < n → (n ≤ 255 * suc ((n + 254) / 255 - 1)) × (255 * ((n + 254) / 255 - 1) < n)
rounds-bounds n h = (omega arith, omega arith)

value_segments-Collects :
    (tag : ℕ) (v : Bytes) (rest : List TlvSegment) (d : Dict Bytes) (prev : Option TlvSegment)
    → Begins tag prev
    → Collects tag (value_segments tag v) v d prev rest d
unfolding value_segments
value_segments-Collects tag [] rest d prev b =
    (record { tag = tag; value = [] }, refl, decode_loop_first tag [] rest d prev b)
value_segments-Collects tag (x ∷ xs) rest d prev b =
    let n : ℕ = length (x ∷ xs) in
    let e : (n + 254) / 255 ≡ suc ((n + 254) / 255 - 1) = omega arith in
    let (lo, hi) = rounds-bounds n (omega arith) in
    rw e (chunks_first ((n + 254) / 255 - 1) tag (x ∷ xs) rest d prev b lo hi)

abbrev pub tag_of : Option TlvSegment → Option ℕ
tag_of none = none
tag_of (some p) = some p.tag

pub decode_loop-item_segments :
    (items : List (ℕ × Bytes)) (d : Dict Bytes) (prev : Option TlvSegment)
    → AreSeparated (tag_of prev) items
    → decode_loop (item_segments items) d prev ≡ store items d
unfolding item_segments store
decode_loop-item_segments [] d prev s = unfold decode_loop in refl
decode_loop-item_segments ((tag, v) ∷ items) d none s =
    let (q, same, e) = value_segments-Collects tag v (item_segments items) d none tt in
    e ∙ decode_loop-item_segments items (insert tag v d) (some q) (rw same s)
decode_loop-item_segments ((tag, v) ∷ items) d (some p) s =
    let (q, same, e) = value_segments-Collects tag v (item_segments items) d (some p) s.0 in
    e ∙ decode_loop-item_segments items (insert tag v d) (some q) (rw same s.1)

-- Entries that are in range and encode, none with the tag of the one before it, are written, and
-- decode to the dictionary with their values stored in order, values longer than 255 bytes whole.
pub decode-encode :
    (entries : List (ℤ × Raw)) (items : List (ℕ × Bytes))
    → entry_values entries ≡ ok items
    → AreSeparated none items
    → (encode entries >>= decode) ≡ ok (store items [])
decode-encode entries items e s =
    rw (encode_lem entries, e)
      (unfold decode in
        rw (segments-serialize (item_segments items), decode_loop-item_segments items [] none s))
