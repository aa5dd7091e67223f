-- ===== src/Remote/Removal.antt =====
-- REMOVE and RESET of remote.py's `hap_target_list_write`, and the write as a whole.
use atv_homekit_remote.Prelude.{
  either, either_some, ℕ, ◌≡◌, ◌≢◌, refl, sym, ◌∙◌, ◌≤◌, ◌<◌, ◌⊎◌, inl, inr, true, false, Option,
  none, some, [], ◌∷◌, ◌==◌, arith, length, All,
}
use atv_homekit_remote.Prelude.Int.{pos, is_within}
use atv_homekit_remote.Prelude.Dict.{
  erase-All, Dict, lookup, contains, erase, length-erase, contains-erase_ne,
}
use atv_homekit_remote.Remote.Target.{ButtonConfiguration, TargetConfiguration, sorted}
use atv_homekit_remote.Remote.State.{
  Client, Remote, Platform, call, save_targets, switch_target, cancel_session_of,
  set_active_identifier, close_all,
}
use atv_homekit_remote.Remote.Control.{
  TargetOperation, undefined, list_targets, add, update, remove, reset, apply_operation, first_key,
  drop_connection, remove_whole, remove_buttons, remove_target, reset_targets,
}
use atv_homekit_remote.Remote.Valid.{
  IsEntry, HasUniqueKeys, IsKnown, IsControl, IsValid, Keeps, valid, keeps, erase-HasUniqueKeys,
  contains-sorted, contains-bounds,
}
use atv_homekit_remote.Remote.Buttons.{drop_buttons-HasButtons}
use atv_homekit_remote.Remote.Handlers.{
  call-IsValid, save_targets-Keeps, switch_target-IsValid, cancel_session_of-Keeps,
  schedule_session_cancel-IsValid,
}
use atv_homekit_remote.Remote.Writes.{
  IsAcceptable, add_target-Keeps, update_target-Keeps, replace-IsValid, entry_of,
}

contains-erase_self :
    {V : Type 0} (k : ℕ) (d : Dict V) → HasUniqueKeys d → contains k (erase k d) ≡ false
unfolding contains erase
contains-erase_self k [] h = refl
contains-erase_self k ((j, w) ∷ d) h = ground (arith, contains-erase_self k d h.1)

-- The first key is 0, for an empty dictionary, or a key.
pub first_key-contains :
    {V : Type 0} (d : Dict V) → (first_key d ≡ 0) ⊎ (contains (first_key d) d ≡ true)
unfolding contains
first_key-contains [] = inl refl
first_key-contains ((k, v) ∷ d) = inr (ground arith)

least_target : (d : Dict TargetConfiguration) → IsKnown (first_key (sorted d)) d
least_target d =
    let n = first_key (sorted d) in
    elim (first_key-contains (sorted d)) [
      | inl z ↦ inl z
      | inr c ↦ inr (sym (contains-sorted n d) ∙ c)
    ]

least_target-bounded :
    (d : Dict TargetConfiguration) → All IsEntry d → first_key (sorted d) ≤ 0xffffffff
least_target-bounded d h = elim (least_target d) [
  | inl z ↦ omega arith
  | inr c ↦ (contains-bounds _ d h c).1
]

-- With a known identifier that is not the active one, `set_active_identifier` goes on to the save.
set_active_known :
    (env : Platform) (n : ℕ) (r : Remote)
    → n ≤ 0xffffffff
    → IsKnown n r.targets
    → n ≢ r.active_identifier
    → set_active_identifier env (pos n) r
      ≡ cancel_session_of r.active_identifier (save_targets env (switch_target n r))
unfolding set_active_identifier is_within
set_active_known env n r bounded known other = ground arith

-- Only the connections and the calls change.
pub drop_connection-keeps_control :
    (n : ℕ) (r : Remote)
    → let l = drop_connection n r in
      (l.targets ≡ r.targets)
      × (l.active_identifier ≡ r.active_identifier)
      × (l.active_client ≡ r.active_client)
unfolding drop_connection call
drop_connection-keeps_control n r =
    either_some {B = Remote}
      (λ l.
        (l.targets ≡ r.targets)
        × (l.active_identifier ≡ r.active_identifier)
        × (l.active_client ≡ r.active_client))
      (lookup n r.hds_connections) (λ e. (refl, refl, refl)) (λ c e. (refl, refl, refl))

-- What is left without an entry, if it was not the active one.
erase-IsControl :
    (k : ℕ) (d : Dict TargetConfiguration) (active : ℕ) (client : Option Client)
    → active ≢ k
    → IsControl d active client
    → IsControl (erase k d) active client
erase-IsControl k d active client other h = record {
  few = omega (arith, length-erase k d, h.few);
  entries = erase-All IsEntry k d h.entries;
  unique = erase-HasUniqueKeys k d h.unique;
  known = ground (arith, contains-erase_ne k active d, h.known);
  idle = h.idle;
}

-- The active target was removed: the least that is left becomes active.
reselect-Keeps :
    (env : Platform) (k : ℕ) (d : Dict TargetConfiguration) (r : Remote)
    → r.active_identifier ≡ k
    → r.targets ≡ erase k d
    → 0 < k
    → length d ≤ 10
    → All IsEntry d
    → HasUniqueKeys d
    → Keeps (set_active_identifier env (pos (first_key (sorted r.targets))) r)
reselect-Keeps env k d r active left positive few entries unique =
    let n = first_key (sorted r.targets) in
    let entries' : All IsEntry r.targets = rw left (erase-All IsEntry k d entries) in
    let known = least_target r.targets in
    let gone : contains k r.targets ≡ false = rw left (contains-erase_self k d unique) in
    let other : n ≢ r.active_identifier = ground arith in
    rw (set_active_known env n r (least_target-bounded r.targets entries') known other) (
      cancel_session_of-Keeps r.active_identifier _ (
        save_targets-Keeps env _ (
          switch_target-IsValid n r (rw left (omega (arith, length-erase k d, few))) entries'
            (rw left (erase-HasUniqueKeys k d unique)) known)))

-- The parts of a valid state.
pub control : (r : Remote) → IsValid r → IsControl r.targets r.active_identifier r.active_client
unfolding IsValid
control r h = h

-- After the active target was removed, `set_active_identifier` goes on to the save.
pub set_active_reselects :
    (env : Platform) (k : ℕ) (r : Remote)
    → 0 < k
    → r.active_identifier ≡ k
    → IsValid r
    → let left = drop_connection k (record r { targets = erase k r.targets }) in
      let n = first_key (sorted left.targets) in
      set_active_identifier env (pos n) left
      ≡ cancel_session_of left.active_identifier (save_targets env (switch_target n left))
set_active_reselects env k r positive active h =
    let c = control r h in
    let left = drop_connection k (record r { targets = erase k r.targets }) in
    let (same, kept_active, client) =
      drop_connection-keeps_control k (record r { targets = erase k r.targets }) in
    let n = first_key (sorted left.targets) in
    let entries : All IsEntry left.targets = rw same (erase-All IsEntry k r.targets c.entries) in
    let known = least_target left.targets in
    let gone : contains k left.targets ≡ false =
      rw same (contains-erase_self k r.targets c.unique) in
    set_active_known env n left (least_target-bounded left.targets entries) known (ground arith)

remove_whole-Keeps :
    (env : Platform) (k : ℕ) (r : Remote) → 0 < k → IsValid r → Keeps (remove_whole env k r)
unfolding remove_whole
remove_whole-Keeps env k r positive h =
    let c = control r h in
    let left = drop_connection k (record r { targets = erase k r.targets }) in
    let (same, active, client) =
      drop_connection-keeps_control k (record r { targets = erase k r.targets }) in
    either Keeps (r.active_identifier == k)
      (λ e.
        reselect-Keeps env k r.targets left (ground arith) same positive c.few c.entries c.unique)
      (λ e. keeps _ left (
        valid left (
          rw (same, active, client)
            (erase-IsControl k r.targets r.active_identifier r.active_client (ground arith) c))))

remove_buttons-Keeps :
    (env : Platform) (bs : Dict ButtonConfiguration) (v : TargetConfiguration) (k : ℕ) (r : Remote)
    → lookup k r.targets ≡ some v
    → IsValid r
    → Keeps (remove_buttons env bs v k r)
unfolding remove_buttons
remove_buttons-Keeps env [] v k r e h = remove_whole-Keeps env k r (entry_of k v r h e).1 h
remove_buttons-Keeps env (b ∷ bs) v k r e h = keeps _ _ (
    replace-IsValid k v _ r e refl
      (drop_buttons-HasButtons (b ∷ bs) v.buttons (entry_of k v r h e).3) h)

remove_target-Keeps :
    (env : Platform) (config : TargetConfiguration) (r : Remote)
    → IsValid r
    → Keeps (remove_target env config r)
unfolding remove_target
remove_target-Keeps env config r h =
    either_some Keeps (lookup config.target_identifier r.targets) (λ e. keeps _ r h)
      (λ v e. remove_buttons-Keeps env config.buttons v config.target_identifier r e h)

empty-IsValid :
    (r : Remote)
    → IsValid (record r {
      targets = [];
      hds_connections = [];
      active_identifier = 0;
      active_client = none;
    })
unfolding IsValid
empty-IsValid r = record {
  few = omega arith;
  entries = tt;
  unique = tt;
  known = inl refl;
  idle = λ _. refl;
}

reset_targets-IsValid : (r : Remote) → IsValid (reset_targets r)
unfolding reset_targets
reset_targets-IsValid r = schedule_session_cancel-IsValid _ (
    call-IsValid _ _
      (call-IsValid _ _ (empty-IsValid (call close_all (record r { targets = [] })))))

-- The configuration, if there is one, has an identifier that `_parse_target` lets pass.
abbrev pub IsAcceptableOption : Option TargetConfiguration → Type 0
IsAcceptableOption none = Unit
IsAcceptableOption (some config) = IsAcceptable config

pub apply_operation-Keeps :
    (env : Platform) (operation : TargetOperation) (config : Option TargetConfiguration)
    (r : Remote)
    → IsAcceptableOption config
    → IsValid r
    → Keeps (apply_operation env operation config r)
unfolding apply_operation
apply_operation-Keeps env add (some config) r a h = add_target-Keeps config r a h
apply_operation-Keeps env update (some config) r a h = update_target-Keeps config r a h
apply_operation-Keeps env remove (some config) r a h = remove_target-Keeps env config r h
apply_operation-Keeps env reset none r a h = keeps _ _ (reset_targets-IsValid r)
apply_operation-Keeps env list_targets none r a h = keeps _ r h
apply_operation-Keeps env undefined config r a h = keeps _ r h
apply_operation-Keeps env list_targets (some config) r a h = keeps _ r h
apply_operation-Keeps env add none r a h = keeps _ r h
apply_operation-Keeps env remove none r a h = keeps _ r h
apply_operation-Keeps env reset (some config) r a h = keeps _ r h
apply_operation-Keeps env update none r a h = keeps _ r h
