-- ===== src/Tlv8/Parsing.antt =====
-- `segments` against the written form of a segment list.
use atv_homekit_remote.Prelude.{
  ℕ, zero, suc, ◌≤◌, ◌<◌, ◌≡◌, ◌↔◌, refl, sym, ap, ◌∙◌, List, [], ◌∷◌, ◌++◌, append_assoc,
  append-nil, arith, ltb, ltb-false, length, length-append, length-drop, length-take, take, drop,
  take-append, drop-append, take-append-drop, All, All-drop, Bytes, IsByte, ok, Error, err,
  value_error, Bool-cases, inl, inr,
}
use atv_homekit_remote.Tlv8.{TlvSegment, segments_loop, segments, serialize}

-- A segment whose length fits the length byte.
abbrev pub IsShort : TlvSegment → Type 0
IsShort s = length s.value ≤ 255

pub serialize-append :
    (xs ys : List TlvSegment) → serialize (xs ++ ys) ≡ serialize xs ++ serialize ys
unfolding serialize
serialize-append [] ys = refl
serialize-append (x ∷ xs) ys = simp (serialize-append xs ys, append_assoc)

-- One round of the loop on a whole segment.
segments_loop_step :
    (f tag : ℕ) (v rest : Bytes) (out : List TlvSegment)
    → segments_loop (suc f) (tag ∷ length v ∷ (v ++ rest)) out
      ≡ segments_loop f rest (out ++ (record { tag = tag; value = v } ∷ []))
unfolding segments_loop
segments_loop_step f tag v rest out = rw (
  ltb-false (length (v ++ rest)) (length v) (omega (arith, length-append v rest)),
  take-append v rest,
  drop-append v rest,
)

segments_loop-serialize :
    (f : ℕ) (segs out : List TlvSegment)
    → length (serialize segs) ≤ f
    → segments_loop f (serialize segs) out ≡ ok (out ++ segs)
unfolding serialize
segments_loop-serialize f [] out h = unfold segments_loop in ap ok (sym (append-nil out))
segments_loop-serialize zero (s ∷ segs) out h = absurd (omega arith)
segments_loop-serialize (suc f) (s ∷ segs) out h =
    segments_loop_step f s.tag s.value (serialize segs) out
    ∙ segments_loop-serialize f segs (out ++ (s ∷ []))
        (omega (arith, length-append s.value (serialize segs)))
    ∙ ap ok (append_assoc out (s ∷ []) segs)

-- Whatever the bytes, written segments are read back as they are.
pub segments-serialize : (segs : List TlvSegment) → segments (serialize segs) ≡ ok segs
unfolding segments
segments-serialize segs = segments_loop-serialize _ segs [] (omega arith)

-- What the loop added to `out`, and that it is what was read.
record Reads (raw : Bytes) (out segs : List TlvSegment) : Type 0 where
  added : List TlvSegment
  joined : segs ≡ out ++ added
  written : raw ≡ serialize added
  short : All IsShort added

Reads-cons :
    (tag len : ℕ) (rest : Bytes) (out segs : List TlvSegment)
    → len ≤ length rest
    → len < 256
    → Reads (drop len rest) (out ++ (record { tag = tag; value = take len rest } ∷ [])) segs
    → Reads (tag ∷ len ∷ rest) out segs
unfolding serialize
Reads-cons tag len rest out segs h b r = record {
  added = record { tag = tag; value = take len rest } ∷ r.added;
  joined = r.joined ∙ append_assoc out _ r.added;
  written = cc (full, take-append-drop len rest, r.written);
  short = (omega (arith, full), r.short);
}
  where
    full : length (take len rest) ≡ len
    full = omega (arith, length-take len rest)

segments_loop-Reads :
    (f : ℕ) (raw : Bytes) (out segs : List TlvSegment)
    → All IsByte raw
    → segments_loop f raw out ≡ ok segs
    → Reads raw out segs
unfolding segments_loop
segments_loop-Reads f [] out segs b e = record {
  added = [];
  joined = cc (append-nil out);
  written = unfold serialize in refl;
  short = tt;
}
segments_loop-Reads zero (tag ∷ rest) out segs b e = cc
segments_loop-Reads (suc f) (tag ∷ []) out segs b e = cc
segments_loop-Reads (suc f) (tag ∷ len ∷ rest) out segs b e =
    elim (Bool-cases (ltb (length rest) len)) [
      | inl cut ↦ cc (rw cut at e)
      | inr whole ↦ Reads-cons tag len rest out segs (ground arith) b.1.0 (
          segments_loop-Reads f (drop len rest) _ segs (All-drop IsByte len rest b.1.1)
            (rw whole at e))
    ]

-- Parsing bytes succeeds with `segs` exactly if they are the written form of `segs` and each of
-- these has at most 255 bytes.
pub segments-eq-ok_iff :
    (raw : Bytes) (segs : List TlvSegment)
    → All IsByte raw
    → (segments raw ≡ ok segs) ↔ ((raw ≡ serialize segs) × All IsShort segs)
unfolding segments
segments-eq-ok_iff raw segs b = (sound, λ h. rw h.0 (segments-serialize segs))
  where
    sound : segments raw ≡ ok segs → (raw ≡ serialize segs) × All IsShort segs
    sound e =
        let r = segments_loop-Reads (length raw) raw [] segs b e in rw r.joined (r.written, r.short)

segments_loop-err :
    (f : ℕ) (raw : Bytes) (out : List TlvSegment) (x : Error)
    → length raw ≤ f
    → segments_loop f raw out ≡ err x
    → x ≡ value_error
unfolding segments_loop
segments_loop-err f [] out x h e = cc
segments_loop-err zero (tag ∷ rest) out x h e = absurd (omega arith)
segments_loop-err (suc f) (tag ∷ []) out x h e = cc
segments_loop-err (suc f) (tag ∷ len ∷ rest) out x h e = ground (
  arith,
  length-drop len rest,
  segments_loop-err f (drop len rest) (out ++ (record { tag = tag; value = take len rest } ∷ [])) x,
)

-- The loop always ends within its fuel, and the one exception of `segments` is `ValueError`.
pub segments-err : (raw : Bytes) (x : Error) → segments raw ≡ err x → x ≡ value_error
unfolding segments
segments-err raw x e = segments_loop-err (length raw) raw [] x (omega arith) e
