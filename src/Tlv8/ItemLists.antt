-- ===== src/Tlv8/ItemLists.antt =====
-- `decode_list`: how the segments are grouped, and the list that was written read back.
use atv_homekit_remote.Prelude.{
  ℕ, ◌≡◌, refl, ap, length, ◌==◌, ◌&&◌, false, inl, inr, sym, ◌∙◌, List, [], ◌∷◌, ◌++◌,
  append_assoc, append-nil, concat, concat-append, Option, none, some, arith, true, Bool-cases,
}
use atv_homekit_remote.Tlv8.{TlvSegment, starts_item, close_group, group_loop}

close_group-concat :
    (groups : List (List TlvSegment)) (current : List TlvSegment)
    → concat (close_group groups current) ≡ concat groups ++ current
unfolding close_group
close_group-concat groups [] = sym (append-nil _)
close_group-concat groups (s ∷ ss) = rw (concat-append, append-nil)

group_loop-concat :
    (sep : ℕ) (segs : List TlvSegment) (groups : List (List TlvSegment)) (current : List TlvSegment)
    (prev : Option TlvSegment)
    → concat (group_loop sep segs groups current prev) ≡ concat groups ++ (current ++ segs)
unfolding group_loop
group_loop-concat sep [] groups current prev = rw append-nil (close_group-concat groups current)
group_loop-concat sep (s ∷ segs) groups current prev =
    elim (Bool-cases (starts_item sep current prev s)) [
      | inl fresh ↦ rw fresh (
          group_loop-concat sep segs (groups ++ (current ∷ [])) (s ∷ []) (some s)
          ∙ rw (concat-append, append-nil, append_assoc))
      | inr same ↦
          rw same
            (group_loop-concat sep segs groups (current ++ (s ∷ [])) (some s) ∙ rw append_assoc)
    ]

group_loop-groups :
    (sep : ℕ) (segs : List TlvSegment) (groups : List (List TlvSegment)) (current : List TlvSegment)
    (prev : Option TlvSegment)
    → group_loop sep segs groups current prev ≡ groups ++ group_loop sep segs [] current prev
unfolding group_loop close_group
group_loop-groups sep [] groups [] prev = sym (append-nil groups)
group_loop-groups sep [] groups (c ∷ cs) prev = refl
group_loop-groups sep (s ∷ segs) groups current prev =
    elim (Bool-cases (starts_item sep current prev s)) [
      | inl fresh ↦ rw fresh (
          group_loop-groups sep segs (groups ++ (current ∷ [])) (s ∷ []) (some s)
          ∙ append_assoc groups (current ∷ []) (group_loop sep segs [] (s ∷ []) (some s))
          ∙ ap (λ gs. groups ++ gs)
              (sym (group_loop-groups sep segs (current ∷ []) (s ∷ []) (some s))))
      | inr same ↦ rw same (group_loop-groups sep segs groups (current ++ (s ∷ [])) (some s))
    ]

-- The segment has the separator's tag, and does not go on with a full segment of that tag.
abbrev pub Opens : ℕ → TlvSegment → TlvSegment → Type 0
Opens sep prev s = (s.tag ≡ sep) × ¬ ((prev.tag ≡ sep) × (length prev.value ≡ 255))

-- The first segment of all opens the first group.
abbrev pub IsOpened : ℕ → Option TlvSegment → TlvSegment → Type 0
IsOpened sep none c = Unit
IsOpened sep (some prev) c = Opens sep prev c

-- None of the segments opens an item.
abbrev pub GoOn : ℕ → TlvSegment → List TlvSegment → Type 0
GoOn sep prev [] = Unit
GoOn sep prev (s ∷ ss) = (¬ Opens sep prev s) × GoOn sep s ss

abbrev pub last_from : TlvSegment → List TlvSegment → TlvSegment
last_from prev [] = prev
last_from prev (s ∷ ss) = last_from s ss

-- No group is empty, and a segment that has one before it opens an item just when it is the first of
-- its group.
abbrev pub AreGroups : ℕ → Option TlvSegment → List (List TlvSegment) → Type 0
AreGroups sep prev [] = Unit
AreGroups sep prev ([] ∷ gs) = ⊥
AreGroups sep prev ((c ∷ cs) ∷ gs) =
    IsOpened sep prev c × GoOn sep c cs × AreGroups sep (some (last_from c cs)) gs

GoOn-append :
    (sep : ℕ) (prev : TlvSegment) (cs : List TlvSegment) (s : TlvSegment)
    → GoOn sep prev cs
    → ¬ Opens sep (last_from prev cs) s
    → GoOn sep prev (cs ++ (s ∷ []))
GoOn-append sep prev [] s h n = (n, tt)
GoOn-append sep prev (c ∷ cs) s h n = (h.0, GoOn-append sep c cs s h.1 n)

last_from-append :
    (prev : TlvSegment) (cs : List TlvSegment) (s : TlvSegment)
    → last_from prev (cs ++ (s ∷ [])) ≡ s
last_from-append prev [] s = refl
last_from-append prev (c ∷ cs) s = last_from-append c cs s

starts_item→Opens :
    (sep : ℕ) (c : TlvSegment) (cs : List TlvSegment) (prev s : TlvSegment)
    → starts_item sep (c ∷ cs) (some prev) s ≡ true
    → Opens sep prev s
unfolding starts_item
starts_item→Opens sep c cs prev s h = (ground arith, λ full. ground (arith, full.0, full.1))

Opens→starts_item :
    (sep : ℕ) (c : TlvSegment) (cs : List TlvSegment) (prev s : TlvSegment)
    → starts_item sep (c ∷ cs) (some prev) s ≡ false
    → ¬ Opens sep prev s
unfolding starts_item
Opens→starts_item sep c cs prev s h opens =
    elim (Bool-cases (prev.tag == sep && length prev.value == 255)) [
      | inl full ↦ opens.1 (ground arith, ground arith)
      | inr rest ↦ ground (arith, opens.0)
    ]

-- The open group `c ∷ cs` ends with the segment before the ones that are left.
group_loop-AreGroups :
    (sep : ℕ) (segs : List TlvSegment) (before : Option TlvSegment) (c : TlvSegment)
    (cs : List TlvSegment) (prev : TlvSegment)
    → last_from c cs ≡ prev
    → IsOpened sep before c
    → GoOn sep c cs
    → AreGroups sep before (group_loop sep segs [] (c ∷ cs) (some prev))
unfolding group_loop close_group
group_loop-AreGroups sep [] before c cs prev e o h = (o, h, tt)
group_loop-AreGroups sep (s ∷ segs) before c cs prev e o h =
    elim (Bool-cases (starts_item sep (c ∷ cs) (some prev) s)) [
      | inl fresh ↦
          let opens = starts_item→Opens sep c cs prev s fresh in
          let next = group_loop-AreGroups sep segs (some prev) s [] s refl opens tt in
          rw (fresh, group_loop-groups sep segs ((c ∷ cs) ∷ []) (s ∷ []) (some s)) (o, h, rw e next)
      | inr same ↦
          let stays = rw (← e) at (Opens→starts_item sep c cs prev s same) in
          rw same (
            group_loop-AreGroups sep segs before c (cs ++ (s ∷ [])) s (last_from-append c cs s) o
              (GoOn-append sep c cs s h stays))
    ]

group_loop-AreGroups_all :
    (sep : ℕ) (segs : List TlvSegment) → AreGroups sep none (group_loop sep segs [] [] none)
unfolding group_loop starts_item close_group
group_loop-AreGroups_all sep [] = tt
group_loop-AreGroups_all sep (s ∷ segs) = group_loop-AreGroups sep segs none s [] s refl tt tt

-- The groups that `decode_list` makes hold all segments in their order, and none is empty. A segment
-- behind another is the first of its group exactly if it has the separator's tag and does not go on
-- with a segment of that tag and 255 bytes.
pub group_loop_partition :
    (sep : ℕ) (segs : List TlvSegment)
    → (concat (group_loop sep segs [] [] none) ≡ segs)
      × AreGroups sep none (group_loop sep segs [] [] none)
group_loop_partition sep segs =
    (group_loop-concat sep segs [] [] none, group_loop-AreGroups_all sep segs)
