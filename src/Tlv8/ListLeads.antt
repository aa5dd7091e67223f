-- ===== src/Tlv8/ListLeads.antt =====
-- The segments of a separator's value in a list of tlv8.py: the one that begins the item, and the rest.
use atv_homekit_remote.Prelude.{
  ℕ, zero, suc, ◌+◌, ◌-◌, ◌*◌, ◌≤◌, ◌<◌, ◌≡◌, ◌≢◌, ◌⊎◌, inl, inr, refl, ap, ◌∙◌, List, [], ◌∷◌,
  ◌++◌, append_assoc, append-nil, Option, none, some, arith, length, length-drop, length-take, take,
  drop, All, Bytes, false,
}
use atv_homekit_remote.Tlv8.{TlvSegment, starts_item, group_loop}
use atv_homekit_remote.Tlv8.Chunks.{chunk_segments, rounds_for, value_segments}

-- `prev` is a full segment of the separator: what follows with its tag goes on with it.
abbrev IsFull : ℕ → Option TlvSegment → Type 0
IsFull sep none = ⊥
IsFull sep (some p) = (p.tag ≡ sep) × (length p.value ≡ 255)

-- None of the segments begins an item.
abbrev pub AreQuiet : ℕ → Option TlvSegment → List TlvSegment → Type 0
AreQuiet sep prev [] = Unit
AreQuiet sep prev (s ∷ ss) = ((s.tag ≢ sep) ⊎ IsFull sep prev) × AreQuiet sep (some s) ss

abbrev pub last_of : Option TlvSegment → List TlvSegment → Option TlvSegment
last_of prev [] = prev
last_of prev (s ∷ ss) = last_of (some s) ss

pub AreQuiet-append :
    (sep : ℕ) (prev : Option TlvSegment) (xs ys : List TlvSegment)
    → AreQuiet sep prev xs
    → AreQuiet sep (last_of prev xs) ys
    → AreQuiet sep prev (xs ++ ys)
AreQuiet-append sep prev [] ys hx hy = hy
AreQuiet-append sep prev (x ∷ xs) ys hx hy = (hx.0, AreQuiet-append sep (some x) xs ys hx.1 hy)

abbrev pub IsOther : ℕ → TlvSegment → Type 0
IsOther sep s = s.tag ≢ sep

pub others-AreQuiet :
    (sep : ℕ) (prev : Option TlvSegment) (ss : List TlvSegment)
    → All (IsOther sep) ss
    → AreQuiet sep prev ss
others-AreQuiet sep prev [] h = tt
others-AreQuiet sep prev (s ∷ ss) h = (inl h.0, others-AreQuiet sep (some s) ss h.1)

quiet_step :
    (sep : ℕ) (c s : TlvSegment) (cs : List TlvSegment) (prev : Option TlvSegment)
    → (s.tag ≢ sep) ⊎ IsFull sep prev
    → starts_item sep (c ∷ cs) prev s ≡ false
unfolding starts_item
quiet_step sep c s cs none (inl h) = ground arith
quiet_step sep c s cs none (inr h) = absurd h
quiet_step sep c s cs (some p) (inl h) = ground arith
quiet_step sep c s cs (some p) (inr h) = ground arith

pub group_loop-quiet :
    (sep : ℕ) (segs rest : List TlvSegment) (groups : List (List TlvSegment)) (c : TlvSegment)
    (cs : List TlvSegment) (prev : Option TlvSegment)
    → AreQuiet sep prev segs
    → group_loop sep (segs ++ rest) groups (c ∷ cs) prev
      ≡ group_loop sep rest groups (c ∷ (cs ++ segs)) (last_of prev segs)
unfolding group_loop
group_loop-quiet sep [] rest groups c cs prev q = rw append-nil
group_loop-quiet sep (s ∷ segs) rest groups c cs prev q =
    rw (quiet_step sep c s cs prev q.0, group_loop)
      (group_loop-quiet sep segs rest groups c (cs ++ (s ∷ [])) (some s) q.1 ∙ rw append_assoc)

-- The value of the separator, of any length, is one run: its first segment begins the item.
chunks-AreQuiet :
    (rounds sep : ℕ) (v : Bytes) (prev : Option TlvSegment)
    → IsFull sep prev
    → length v ≤ 255 * rounds
    → 255 * rounds < length v + 255
    → AreQuiet sep prev (chunk_segments rounds sep v)
unfolding chunk_segments
chunks-AreQuiet zero sep v prev full lo hi = tt
chunks-AreQuiet (suc zero) sep v prev full lo hi = (inr full, tt)
chunks-AreQuiet (suc (suc k)) sep v prev full lo hi = (
  inr full,
  chunks-AreQuiet (suc k) sep (drop 255 v) (some (record { tag = sep; value = take 255 v }))
      (refl, omega (arith, length-take 255 v)) (omega (arith, length-drop 255 v))
      (omega (arith, length-drop 255 v)),
)

-- The segments of a separator's value: the first, and those that go on with it.
pub record Lead (sep : ℕ) (v : Bytes) : Type 0 where
  pub first : TlvSegment
  pub more : List TlvSegment
  pub whole : value_segments sep v ≡ first ∷ more
  pub tagged : first.tag ≡ sep
  pub quiet : AreQuiet sep (some first) more
  pub single : length v < 255 → (more ≡ []) × (length first.value ≢ 255)

lead_chunks :
    (k sep : ℕ) (v : Bytes)
    → length v ≤ 255 * suc k
    → 255 * k < length v
    → AreQuiet sep
        (some (record { tag = sep; value = take 255 v }))
        (chunk_segments k sep (drop 255 v))
unfolding chunk_segments
lead_chunks zero sep v lo hi = tt
lead_chunks (suc k) sep v lo hi =
    chunks-AreQuiet (suc k) sep (drop 255 v) (some (record { tag = sep; value = take 255 v }))
      (refl, omega (arith, length-take 255 v)) (omega (arith, length-drop 255 v))
      (omega (arith, length-drop 255 v))

pub Lead-of : (sep : ℕ) (v : Bytes) → Lead sep v
unfolding value_segments chunk_segments
Lead-of sep [] = record {
  first = record { tag = sep; value = [] };
  more = [];
  whole = refl;
  tagged = refl;
  quiet = tt;
  single = λ h. (refl, omega arith);
}
Lead-of sep (b ∷ bs) =
    let v : Bytes = b ∷ bs in
    let k : ℕ = rounds_for v - 1 in
    let e : rounds_for v ≡ suc k = omega arith in
    record {
      first = record { tag = sep; value = take 255 v };
      more = chunk_segments k sep (drop 255 v);
      whole = ap (λ r. chunk_segments r sep v) e;
      tagged = refl;
      quiet = lead_chunks k sep v (omega arith) (omega arith);
      single = λ h. (let z : k ≡ 0 = omega arith in rw z, omega (arith, length-take 255 v));
    }
