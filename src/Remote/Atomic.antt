-- ===== src/Remote/Atomic.antt =====
-- A target operation of remote.py's `hap_target_list_write` that is refused changes nothing, and what
-- the operations and the client's handlers change where they are not.
use atv_homekit_remote.Prelude.{
  either, either_some, ℕ, ◌≡◌, refl, ◌<◌, Option, none, some, [], ◌∷◌, ◌==◌, leb, not, ◌&&◌, arith,
  length, ok, err, Error,
}
use atv_homekit_remote.Prelude.Dict.{Dict, lookup, contains, erase}
use atv_homekit_remote.Remote.Target.{ButtonConfiguration, TargetConfiguration}
use atv_homekit_remote.Remote.State.{Remote, Platform, Outcome, save_targets, cancel_session_of}
use atv_homekit_remote.Remote.Control.{
  TargetOperation, undefined, list_targets, add, update, remove, reset, apply_operation, add_target,
  update_target, remove_target, remove_buttons, remove_whole, drop_connection, max_targets,
}
use atv_homekit_remote.Remote.Valid.{IsValid}
use atv_homekit_remote.Remote.Writes.{entry_of}
use atv_homekit_remote.Remote.Removal.{set_active_reselects}

-- The call raised only if it left the state `r`.
Refuses : Remote → Outcome (Unit {0}) → Type 0
Refuses r o = (e : Error) → (o.0 ≡ err e) → o.1 ≡ r

unchanged : (e : Error) (r : Remote) → Refuses r (err e, r)
unfolding Refuses
unchanged e r x h = refl

returned : (r r' : Remote) → Refuses r (ok tt, r')
unfolding Refuses
returned r r' x h = cc

cancel_session_of-Refuses :
    (old : ℕ) (r r' : Remote) → Refuses r (cancel_session_of old (ok tt, r'))
unfolding cancel_session_of
cancel_session_of-Refuses old r r' = returned r _

add_target-Refuses : (config : TargetConfiguration) (r : Remote) → Refuses r (add_target config r)
unfolding add_target
add_target-Refuses config r =
    either (Refuses r)
      (not (contains config.target_identifier r.targets) && leb max_targets (length r.targets))
      (λ e. unchanged _ r)
      (λ e. either (Refuses r) (r.active_identifier == 0) (λ e. returned r _) (λ e. returned r _))

update_target-Refuses :
    (config : TargetConfiguration) (r : Remote) → Refuses r (update_target config r)
unfolding update_target
update_target-Refuses config r =
    either_some (Refuses r) (lookup config.target_identifier r.targets) (λ e. unchanged _ r)
      (λ v e. returned r _)

module _ (env : Platform) (writes : (r : Remote) → env.write_error r ≡ none) where
  cancel_saved-Refuses :
      (old : ℕ) (s r : Remote) → Refuses s (cancel_session_of old (save_targets env r))
  unfolding save_targets
  cancel_saved-Refuses old s r = saved (env.write_error r) (writes r)
    where
      saved :
          (w : Option Error)
          → w ≡ none
          → Refuses s (
              cancel_session_of old (elim w [
                | none ↦ (ok tt, record r { stored = some (r.active_identifier, r.targets) })
                | some e ↦ (err e, r)
              ]))
      saved none p = cancel_session_of-Refuses old s _
      saved (some e) p = cc

  remove_whole-Refuses :
      (k : ℕ) (r s : Remote) → 0 < k → IsValid r → Refuses s (remove_whole env k r)
  unfolding remove_whole
  remove_whole-Refuses k r s positive h =
      let left = drop_connection k (record r { targets = erase k r.targets }) in
      either (Refuses s) (r.active_identifier == k)
        (λ e.
          rw (set_active_reselects env k r positive (ground arith) h)
            (cancel_saved-Refuses left.active_identifier s _))
        (λ e. returned s left)

  remove_target-Refuses :
      (config : TargetConfiguration) (r : Remote)
      → IsValid r
      → Refuses r (remove_target env config r)
  unfolding remove_target
  remove_target-Refuses config r h =
      either_some (Refuses r) (lookup config.target_identifier r.targets) (λ e. unchanged _ r)
        (λ v e. removed config.buttons v (entry_of config.target_identifier v r h e).1)
    where
      removed :
          (bs : Dict ButtonConfiguration) (v : TargetConfiguration)
          → 0 < config.target_identifier
          → Refuses r (remove_buttons env bs v config.target_identifier r)
      removed [] v p =
          unfold remove_buttons in remove_whole-Refuses config.target_identifier r r p h
      removed (b ∷ bs) v p = unfold remove_buttons in returned r _

  apply-Refuses :
      (operation : TargetOperation) (config : Option TargetConfiguration) (r : Remote)
      → IsValid r
      → Refuses r (apply_operation env operation config r)
  unfolding apply_operation
  apply-Refuses add (some config) r h = add_target-Refuses config r
  apply-Refuses update (some config) r h = update_target-Refuses config r
  apply-Refuses remove (some config) r h = remove_target-Refuses config r h
  apply-Refuses reset none r h = returned r _
  apply-Refuses list_targets none r h = returned r _
  apply-Refuses undefined config r h = unchanged _ r
  apply-Refuses list_targets (some config) r h = unchanged _ r
  apply-Refuses add none r h = unchanged _ r
  apply-Refuses remove none r h = unchanged _ r
  apply-Refuses reset (some config) r h = unchanged _ r
  apply-Refuses update none r h = unchanged _ r

-- Where targets.json can always be written, a target operation that raises on a valid state leaves
-- the whole state, the calls included, as it was.
pub apply_operation-err :
    (env : Platform)
    → ((r : Remote) → env.write_error r ≡ none)
    → (operation : TargetOperation) (config : Option TargetConfiguration) (r : Remote) (e : Error)
    → IsValid r
    → (apply_operation env operation config r).0 ≡ err e
    → (apply_operation env operation config r).1 ≡ r
apply_operation-err env writes operation config r e h failed =
    unfold Refuses in apply-Refuses env writes operation config r h e failed
