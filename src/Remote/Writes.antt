-- ===== src/Remote/Writes.antt =====
-- `hap_target_list_write` of remote.py keeps the state valid, whatever it is sent.
use atv_homekit_remote.Prelude.{
  either, either_some, ℕ, ◌≡◌, refl, ◌∙◌, ◌≤◌, ◌<◌, ◌⊎◌, inl, inr, true, false, Option, some, [],
  ◌∷◌, ◌==◌, leb, not, ◌&&◌, arith, length,
}
use atv_homekit_remote.Prelude.Dict.{
  insert-All, lookup-All, Dict, lookup, contains, insert, contains-insert, length-insert,
}
use atv_homekit_remote.Remote.Target.{TargetConfiguration}
use atv_homekit_remote.Remote.State.{Client, Remote}
use atv_homekit_remote.Remote.Control.{add_target, update_target, updated, max_targets}
use atv_homekit_remote.Remote.Valid.{
  IsEntry, HasButtons, IsKnown, IsControl, IsValid, Keeps, keeps, insert-HasUniqueKeys,
}
use atv_homekit_remote.Remote.Buttons.{merge_buttons-HasButtons}
use atv_homekit_remote.Remote.Handlers.{call-IsValid}

IsKnown-insert :
    (n k : ℕ) (v : TargetConfiguration) (d : Dict TargetConfiguration)
    → IsKnown n d
    → IsKnown n (insert k v d)
IsKnown-insert n k v d h = ground (arith, contains-insert k n v d)

-- A new or an old entry is stored.
insert-IsControl :
    (k : ℕ) (v : TargetConfiguration) (d : Dict TargetConfiguration) (active : ℕ)
    (client : Option Client)
    → IsEntry (k, v)
    → (contains k d ≡ true) ⊎ (length d < 10)
    → IsControl d active client
    → IsControl (insert k v d) active client
insert-IsControl k v d active client e room h = record {
  few = ground (arith, length-insert k v d, h.few);
  entries = insert-All IsEntry k v d e h.entries;
  unique = insert-HasUniqueKeys k v d h.unique;
  known = IsKnown-insert active k v d h.known;
  idle = h.idle;
}

insert-IsValid :
    (k : ℕ) (v : TargetConfiguration) (r : Remote)
    → IsEntry (k, v)
    → (contains k r.targets ≡ true) ⊎ (length r.targets < 10)
    → IsValid r
    → IsValid (record r { targets = insert k v r.targets })
unfolding IsValid
insert-IsValid k v r e room h =
    insert-IsControl k v r.targets r.active_identifier r.active_client e room h

-- The identifier and the buttons of a parsed configuration.
abbrev pub IsAcceptable : TargetConfiguration → Type 0
IsAcceptable config =
    (0 < config.target_identifier)
    × (config.target_identifier ≤ 0xffffffff)
    × HasButtons config.buttons

has_room :
    (k : ℕ) (d : Dict TargetConfiguration)
    → (not (contains k d) && leb max_targets (length d)) ≡ false
    → (contains k d ≡ true) ⊎ (length d < 10)
has_room k d e = ground arith

-- The identifier that was just stored is known.
activated-IsValid :
    (k : ℕ) (v : TargetConfiguration) (r : Remote)
    → 0 < k
    → IsValid (record r { targets = insert k v r.targets })
    → IsValid (record r { targets = insert k v r.targets; active_identifier = k })
unfolding IsValid
activated-IsValid k v r p h = record {
  few = h.few;
  entries = h.entries;
  unique = h.unique;
  known = inr (ground (arith, contains-insert k k v r.targets));
  idle = λ z. absurd (omega arith);
}

pub add_target-Keeps :
    (config : TargetConfiguration) (r : Remote)
    → IsAcceptable config
    → IsValid r
    → Keeps (add_target config r)
unfolding add_target
add_target-Keeps config r a h =
    let id = config.target_identifier in
    either Keeps (not (contains id r.targets) && leb max_targets (length r.targets))
      (λ e. keeps _ r h)
      (λ room.
        let added =
          insert-IsValid id config r (refl, a.0, a.1, a.2) (has_room id r.targets room) h in
        either Keeps (r.active_identifier == 0)
          (λ e. keeps _ _ (call-IsValid _ _ (activated-IsValid id config r a.0 added)))
          (λ e. keeps _ _ added))

pub lookup→contains :
    {V : Type 0} (k : ℕ) (v : V) (d : Dict V) → lookup k d ≡ some v → contains k d ≡ true
unfolding lookup contains
lookup→contains k v [] h = cc
lookup→contains k v ((j, w) ∷ d) h = ground (arith, lookup→contains k v d)

pub entry_of :
    (k : ℕ) (v : TargetConfiguration) (r : Remote)
    → IsValid r
    → lookup k r.targets ≡ some v
    → IsEntry (k, v)
unfolding IsValid
entry_of k v r h e = lookup-All IsEntry k v r.targets h.entries e

-- A known target is replaced by one of the same identifier.
pub replace-IsValid :
    (k : ℕ) (v w : TargetConfiguration) (r : Remote)
    → lookup k r.targets ≡ some v
    → w.target_identifier ≡ v.target_identifier
    → HasButtons w.buttons
    → IsValid r
    → IsValid (record r { targets = insert k w r.targets })
replace-IsValid k v w r e same buttons h =
    let entry = entry_of k v r h e in
    insert-IsValid k w r (same ∙ entry.0, entry.1, entry.2, buttons)
      (inl (lookup→contains k v r.targets e)) h

pub update_target-Keeps :
    (config : TargetConfiguration) (r : Remote)
    → IsAcceptable config
    → IsValid r
    → Keeps (update_target config r)
unfolding update_target updated
update_target-Keeps config r a h =
    either_some Keeps (lookup config.target_identifier r.targets) (λ e. keeps _ r h)
      (λ v e.
        let entry = entry_of config.target_identifier v r h e in
        keeps _ _ (
          replace-IsValid config.target_identifier v (updated config v) r e refl
            (merge_buttons-HasButtons config.buttons v.buttons a.2 entry.3) h))
