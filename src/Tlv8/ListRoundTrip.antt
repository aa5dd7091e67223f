-- ===== src/Tlv8/ListRoundTrip.antt =====
-- `decode_list` reads back a list of items that was written one after the other.
use atv_homekit_remote.Prelude.{
  ℕ, ◌<◌, ◌≡◌, ◌≢◌, ◌⊎◌, inl, inr, refl, sym, ap, ◌∙◌, List, [], ◌∷◌, ◌++◌, map, append_assoc,
  append-nil, concat, Option, none, some, arith, length, All, All-append, Bytes, ok, true,
}
use atv_homekit_remote.Tlv8.{
  TlvSegment, starts_item, group_loop, serialize, decode, decode_groups, decode_list,
}
use atv_homekit_remote.Tlv8.Parsing.{segments-serialize}
use atv_homekit_remote.Tlv8.Chunks.{item_segments, value_segments-tags}
use atv_homekit_remote.Tlv8.RoundTrip.{store, AreSeparated, decode_loop-item_segments}
use atv_homekit_remote.Tlv8.ListLeads.{
  AreQuiet, AreQuiet-append, IsOther, Lead-of, group_loop-quiet, last_of, others-AreQuiet,
}

-- An item of a list: the separator's value, and the entries behind it.
pub record Item : Type 0 where
  pub lead : Bytes
  pub others : List (ℕ × Bytes)

abbrev pub item_entries : ℕ → Item → List (ℕ × Bytes)
item_entries sep it = (sep, it.lead) ∷ it.others

abbrev pub IsOtherEntry : ℕ → ℕ × Bytes → Type 0
IsOtherEntry sep e = e.0 ≢ sep

abbrev pub IsCons : List (ℕ × Bytes) → Type 0
IsCons [] = ⊥
IsCons (e ∷ es) = Unit

-- The entries behind the separator have other tags, none has the tag of the one before it, and the
-- separator's value is short if nothing follows it.
pub record IsItem (sep : ℕ) (it : Item) : Type 0 where
  pub other_tags : All (IsOtherEntry sep) it.others
  pub separated : AreSeparated (some sep) it.others
  pub ended : (length it.lead < 255) ⊎ IsCons it.others

EndsItem : ℕ → Option TlvSegment → Type 0
EndsItem sep none = ⊥
EndsItem sep (some p) = (p.tag ≢ sep) ⊎ (length p.value ≢ 255)

others-EndsItem :
    (sep : ℕ) (prev : Option TlvSegment) (ss : List TlvSegment)
    → EndsItem sep prev
    → All (IsOther sep) ss
    → EndsItem sep (last_of prev ss)
unfolding EndsItem
others-EndsItem sep prev [] e h = e
others-EndsItem sep prev (s ∷ ss) e h = others-EndsItem sep (some s) ss (inl h.0) h.1

last_of-append :
    (prev : Option TlvSegment) (xs ys : List TlvSegment)
    → last_of prev (xs ++ ys) ≡ last_of (last_of prev xs) ys
last_of-append prev [] ys = refl
last_of-append prev (x ∷ xs) ys = last_of-append (some x) xs ys

item_segments-IsOther :
    (sep : ℕ) (es : List (ℕ × Bytes))
    → All (IsOtherEntry sep) es
    → All (IsOther sep) (item_segments es)
unfolding item_segments
item_segments-IsOther sep [] h = tt
item_segments-IsOther sep ((t, v) ∷ es) h =
    All-append (IsOther sep) _ _ (value_segments-tags (IsOther sep) t v (λ s e. rw e h.0))
      (item_segments-IsOther sep es h.1)

fresh_step :
    (sep : ℕ) (c s : TlvSegment) (cs : List TlvSegment) (prev : Option TlvSegment)
    → s.tag ≡ sep
    → EndsItem sep prev
    → starts_item sep (c ∷ cs) prev s ≡ true
unfolding starts_item EndsItem
fresh_step sep c s cs none t e = absurd e
fresh_step sep c s cs (some p) t e = ground arith

-- The segments of an item: the one that begins it, and the rest, in which none begins another.
record Shape (sep : ℕ) (it : Item) : Type 0 where
  first : TlvSegment
  more : List TlvSegment
  whole : item_segments (item_entries sep it) ≡ first ∷ more
  tagged : first.tag ≡ sep
  quiet : AreQuiet sep (some first) more
  closes : EndsItem sep (last_of (some first) more)

ended_others :
    (sep : ℕ) (prev : Option TlvSegment) (es : List (ℕ × Bytes))
    → IsCons es
    → All (IsOtherEntry sep) es
    → EndsItem sep (last_of prev (item_segments es))
ended_others sep prev [] c h = absurd c
ended_others sep prev ((t, v) ∷ es) c h =
    let l = Lead-of t v in
    let e : item_segments ((t, v) ∷ es) ≡ l.first ∷ (l.more ++ item_segments es) =
      unfold item_segments in ap (λ x. x ++ item_segments es) l.whole in
    let all = rw e at (item_segments-IsOther sep ((t, v) ∷ es) h) in
    rw e (others-EndsItem sep (some l.first) _ (unfold EndsItem in inl all.0) all.1)

ended_lead :
    (sep : ℕ) (first : TlvSegment) (more : List TlvSegment) (es : List (ℕ × Bytes))
    → ((more ≡ []) × (length first.value ≢ 255)) ⊎ IsCons es
    → All (IsOtherEntry sep) es
    → EndsItem sep (last_of (last_of (some first) more) (item_segments es))
ended_lead sep first more es (inl h) o = rw h.0 (
    others-EndsItem sep (some first) _ (unfold EndsItem in inr h.1)
      (item_segments-IsOther sep es o))
ended_lead sep first more es (inr c) o = ended_others sep _ es c o

Shape-of : (sep : ℕ) (it : Item) → IsItem sep it → Shape sep it
Shape-of sep it h =
    let l = Lead-of sep it.lead in
    record {
      first = l.first;
      more = l.more ++ item_segments it.others;
      whole = unfold item_segments in ap (λ x. x ++ item_segments it.others) l.whole;
      tagged = l.tagged;
      quiet =
          AreQuiet-append sep (some l.first) l.more _ l.quiet
            (others-AreQuiet sep _ _ (item_segments-IsOther sep it.others h.other_tags));
      closes = rw last_of-append (
          ended_lead sep l.first l.more it.others
            (elim h.ended [ inl s ↦ inl (l.single s) | inr c ↦ inr c ]) h.other_tags);
    }

abbrev segments_of : ℕ → Item → List TlvSegment
segments_of sep it = item_segments (item_entries sep it)

group_loop-items :
    (sep : ℕ) (its : List Item) (groups : List (List TlvSegment)) (c : TlvSegment)
    (cs : List TlvSegment) (prev : Option TlvSegment)
    → All (IsItem sep) its
    → EndsItem sep prev
    → group_loop sep (concat (map (segments_of sep) its)) groups (c ∷ cs) prev
      ≡ (groups ++ ((c ∷ cs) ∷ [])) ++ map (segments_of sep) its
unfolding group_loop
group_loop-items sep [] groups c cs prev h e = sym (append-nil _)
group_loop-items sep (it ∷ its) groups c cs prev h e =
    let s = Shape-of sep it h.0 in
    rw (s.whole, fresh_step sep c s.first cs prev s.tagged e, group_loop)
      (group_loop-quiet sep s.more _ (groups ++ ((c ∷ cs) ∷ [])) s.first [] (some s.first) s.quiet
        ∙ group_loop-items sep its _ s.first s.more _ h.1 s.closes
        ∙ rw (append_assoc, append_assoc))

group_items :
    (sep : ℕ) (its : List Item)
    → All (IsItem sep) its
    → group_loop sep (concat (map (segments_of sep) its)) [] [] none ≡ map (segments_of sep) its
unfolding group_loop
group_items sep [] h = refl
group_items sep (it ∷ its) h =
    let s = Shape-of sep it h.0 in
    rw s.whole (
      group_loop-quiet sep s.more _ [] s.first [] (some s.first) s.quiet
      ∙ group_loop-items sep its [] s.first s.more _ h.1 s.closes)

decode-item :
    (sep : ℕ) (it : Item)
    → IsItem sep it
    → decode (serialize (segments_of sep it)) ≡ ok (store (item_entries sep it) [])
unfolding decode
decode-item sep it h = rw (
  segments-serialize (segments_of sep it),
  decode_loop-item_segments (item_entries sep it) [] none h.separated,
)

decode_groups-items :
    (sep : ℕ) (its : List Item)
    → All (IsItem sep) its
    → decode_groups (map (segments_of sep) its)
      ≡ ok (map (λ it. store (item_entries sep it) []) its)
unfolding decode_groups
decode_groups-items sep [] h = refl
decode_groups-items sep (it ∷ its) h = rw (decode-item sep it h.0, decode_groups-items sep its h.1)

-- Items written one after the other are read back as one dictionary for each item, in order. Each
-- item begins with the separator, its other entries have other tags, none that of the one before it,
-- and the separator's value has less than 255 bytes if nothing follows it in the item.
pub decode_list-items :
    (sep : ℕ) (its : List Item)
    → All (IsItem sep) its
    → decode_list (serialize (concat (map (λ it. item_segments (item_entries sep it)) its))) sep
      ≡ ok (map (λ it. store (item_entries sep it) []) its)
decode_list-items sep its h =
    unfold decode_list in
    rw (segments-serialize (concat (map (segments_of sep) its)), group_items sep its h)
      (decode_groups-items sep its h)
