-- ===== src/Tlv8/ByteValues.antt =====
-- What `decode` collects from bytes are bytes.
use atv_homekit_remote.Prelude.{
  ℕ, ◌≡◌, refl, Bool, true, false, Option, none, some, List, [], ◌∷◌, ◌++◌, arith, if◌then◌else◌,
  All, All-append, Bytes, IsByte, ok, >>=-eq-ok, concat,
}
use atv_homekit_remote.Prelude.Dict.{Dict, lookup, insert, insert-All, lookup-All}
use atv_homekit_remote.Tlv8.{
  TlvSegment, segments, serialize, continues_value, value_or_empty, decode_loop, decode,
  decode_groups, decode_list, group_loop,
}
use atv_homekit_remote.Tlv8.Parsing.{segments-eq-ok_iff, serialize-append}
use atv_homekit_remote.Tlv8.ItemLists.{group_loop_partition}

All-append_inv :
    {A : Type 0} (P : A → Type 0) (xs ys : List A) → All P (xs ++ ys) → All P xs × All P ys
All-append_inv P [] ys h = (tt, h)
All-append_inv P (x ∷ xs) ys h =
    let (front, back) = All-append_inv P xs ys h.1 in ((h.0, front), back)

abbrev HasByteValue : TlvSegment → Type 0
HasByteValue s = All IsByte s.value

abbrev pub IsByteEntry : ℕ × Bytes → Type 0
IsByteEntry e = All IsByte e.1

serialize-HasByteValue :
    (segs : List TlvSegment) → All IsByte (serialize segs) → All HasByteValue segs
unfolding serialize
serialize-HasByteValue [] h = tt
serialize-HasByteValue (s ∷ segs) h =
    let (front, back) = All-append_inv IsByte s.value (serialize segs) h.1.1 in
    (front, serialize-HasByteValue segs back)

stored_value :
    (tag : ℕ) (d : Dict Bytes) (o : Option Bytes)
    → lookup tag d ≡ o
    → All IsByteEntry d
    → All IsByte (value_or_empty o)
stored_value tag d none e h = tt
stored_value tag d (some v) e h = lookup-All IsByteEntry tag v d h e

decode_loop-IsByteEntry :
    (segs : List TlvSegment) (d : Dict Bytes) (prev : Option TlvSegment)
    → All HasByteValue segs
    → All IsByteEntry d
    → All IsByteEntry (decode_loop segs d prev)
unfolding decode_loop
decode_loop-IsByteEntry [] d prev h k = k
decode_loop-IsByteEntry (s ∷ segs) d prev h k =
    decode_loop-IsByteEntry segs _ _ h.1 (step (continues_value prev s d))
  where
    step :
        (more : Bool)
        → All IsByteEntry (
            if more
            then insert s.tag (value_or_empty (lookup s.tag d) ++ s.value) d
            else insert s.tag s.value d)
    step true =
        insert-All IsByteEntry s.tag _ d
          (All-append IsByte _ s.value (stored_value s.tag d _ refl k) h.0) k
    step false = insert-All IsByteEntry s.tag s.value d h.0 k

-- If `decode` succeeds on bytes, every value that it collected consists of bytes.
pub decode-IsByteEntry :
    (raw : Bytes) (d : Dict Bytes) → All IsByte raw → decode raw ≡ ok d → All IsByteEntry d
unfolding decode
decode-IsByteEntry raw d h e =
    let (segs, parsed, collected) = >>=-eq-ok (segments raw) _ e in
    let (written, short) = (segments-eq-ok_iff raw segs h).0 parsed in
    let values = serialize-HasByteValue segs (rw written at h) in
    let same : decode_loop segs [] none ≡ d = ground arith in
    rw same at (decode_loop-IsByteEntry segs [] none values tt)

decode_groups-IsByteEntry :
    (groups : List (List TlvSegment)) (items : List (Dict Bytes))
    → All IsByte (serialize (concat groups))
    → decode_groups groups ≡ ok items
    → All (All IsByteEntry) items
unfolding decode_groups
decode_groups-IsByteEntry [] items h e =
    let same : [] ≡ items = ground arith in rw (← same) (tt {0})
decode_groups-IsByteEntry (g ∷ groups) items h e =
    let (front, back) =
      All-append_inv IsByte (serialize g) (serialize (concat groups))
        (rw (serialize-append g (concat groups)) at h) in
    let (d, decoded, e1) = >>=-eq-ok (decode (serialize g)) _ e in
    let (ds, others, e2) = >>=-eq-ok (decode_groups groups) _ e1 in
    let same : d ∷ ds ≡ items = ground arith in
    rw (← same) (
      decode-IsByteEntry (serialize g) d front decoded,
      decode_groups-IsByteEntry groups ds back others,
    )

-- So do the values of all items that `decode_list` collects.
pub decode_list-IsByteEntry :
    (raw : Bytes) (separator : ℕ) (items : List (Dict Bytes))
    → All IsByte raw
    → decode_list raw separator ≡ ok items
    → All (All IsByteEntry) items
unfolding decode_list
decode_list-IsByteEntry raw separator items h e =
    let (segs, parsed, e1) = >>=-eq-ok (segments raw) _ e in
    let written = ((segments-eq-ok_iff raw segs h).0 parsed).0 in
    let whole = (group_loop_partition separator segs).0 in
    decode_groups-IsByteEntry (group_loop separator segs [] [] none) items
      (rw whole (rw written at h)) e1
