-- ===== src/Remote/Handlers.antt =====
-- Every handler of remote.py's Target Control keeps the state valid, also where it raises.
use atv_homekit_remote.Prelude.{
  either, either_some, ℕ, ◌≡◌, refl, ◌≤◌, Bool, false, Option, none, some, ◌==◌, not, ◌&&◌, arith,
  length, All, Result, ok, err,
}
use atv_homekit_remote.Prelude.Int.{ℤ, is_within, to_ℕ}
use atv_homekit_remote.Prelude.Dict.{Dict, contains}
use atv_homekit_remote.Remote.Target.{TargetConfiguration}
use atv_homekit_remote.Remote.State.{
  Client, Remote, Platform, Outcome, call, schedule_session_cancel, save_targets, switch_target,
  cancel_session_of, set_active_identifier, is_open, is_session_of, close_for_client, Call,
  cancel_session, set_active_char, close_for_client, Call, cancel_session, set_active_char,
}
use atv_homekit_remote.Remote.Control.{
  hap_active_write, hap_connection_lost, is_other, is_active_client,
}
use atv_homekit_remote.Remote.Valid.{IsEntry, HasUniqueKeys, IsKnown, IsValid, Keeps, keeps}

pub without_client : (r : Remote) → IsValid r → IsValid (record r { active_client = none })
unfolding IsValid
without_client r h = record {
  few = h.few;
  entries = h.entries;
  unique = h.unique;
  known = h.known;
  idle = λ _. refl;
}

with_client :
    (r : Remote) (client : Client)
    → (r.active_identifier == 0) ≡ false
    → IsValid r
    → IsValid (record r { active_client = some client })
unfolding IsValid
with_client r client e h = record {
  few = h.few;
  entries = h.entries;
  unique = h.unique;
  known = h.known;
  idle = λ z. absurd (ground arith);
}

pub call-IsValid : (c : Call) (r : Remote) → IsValid r → IsValid (call c r)
unfolding call IsValid
call-IsValid c r h = h

pub schedule_session_cancel-IsValid : (r : Remote) → IsValid r → IsValid (schedule_session_cancel r)
unfolding schedule_session_cancel
schedule_session_cancel-IsValid r h =
    either IsValid (is_open r.active_session) (λ e. call-IsValid cancel_session r h) (λ e. h)

-- `hap_active_write`, for any value and client, keeps a valid state valid, by a return or an exception.
pub hap_active_write-Keeps :
    (value : Bool) (client : Option Client) (r : Remote)
    → IsValid r
    → Keeps (hap_active_write value client r)
unfolding hap_active_write
hap_active_write-Keeps value none r h = keeps _ r h
hap_active_write-Keeps value (some client) r h =
    either Keeps (r.active_identifier == 0) (λ z. keeps _ r h)
      (λ nz.
        either Keeps value (λ v. keeps _ _ (with_client r client nz h))
          (λ v.
            either Keeps (is_other r.active_client client) (λ e. keeps _ r h)
              (λ e. keeps _ _ (
                schedule_session_cancel-IsValid (record r { active_client = none })
                  (without_client r h)))))

-- The loss of any HAP connection keeps a valid state valid.
pub hap_connection_lost-IsValid :
    (client : Client) (r : Remote) → IsValid r → IsValid (hap_connection_lost client r)
unfolding hap_connection_lost
hap_connection_lost-IsValid client r h =
    let closed = call-IsValid (close_for_client client) r h in
    let idle = schedule_session_cancel-IsValid _ (without_client _ closed) in
    either IsValid (is_active_client r.active_client client)
      (λ e. either IsValid r.started (λ s. call-IsValid (set_active_char 0) _ idle) (λ s. idle))
      (λ e. closed)

stored-IsValid :
    (r : Remote) (s : Option (ℕ × Dict TargetConfiguration))
    → IsValid r
    → IsValid (record r { stored = s })
unfolding IsValid
stored-IsValid r s h = h

pub kept {ℓ} : {A : Type ℓ} (x : Result A) (r : Remote) → Keeps (x, r) → IsValid r
unfolding Keeps
kept x r h = h

pub save_targets-Keeps : (env : Platform) (r : Remote) → IsValid r → Keeps (save_targets env r)
unfolding save_targets
save_targets-Keeps env r h =
    either_some Keeps (env.write_error r) (λ e. keeps _ _ (stored-IsValid r _ h))
      (λ x e. keeps _ r h)

-- The state before may have an active identifier that is unknown by now.
pub switch_target-IsValid :
    (identifier : ℕ) (r : Remote)
    → length r.targets ≤ 10
    → All IsEntry r.targets
    → HasUniqueKeys r.targets
    → IsKnown identifier r.targets
    → IsValid (switch_target identifier r)
unfolding switch_target
switch_target-IsValid identifier r few entries unique known =
    let switched : IsValid (record r { active_identifier = identifier; active_client = none }) =
      (unfold IsValid in
        record {
          few = few;
          entries = entries;
          unique = unique;
          known = known;
          idle = λ _. refl;
        }) in
    either IsValid r.started (λ s. call-IsValid _ _ (call-IsValid _ _ switched)) (λ s. switched)

pub cancel_session_of-Keeps :
    (old : ℕ) (o : Outcome (Unit {0})) → Keeps o → Keeps (cancel_session_of old o)
unfolding cancel_session_of
cancel_session_of-Keeps old (err e, r) h = h
cancel_session_of-Keeps old (ok x, r) h = keeps _ _ (
    either IsValid (is_session_of old r.active_session)
      (λ e. call-IsValid cancel_session r (kept _ r h)) (λ e. kept _ r h))

switch-IsValid :
    (n : ℕ) (r : Remote) → IsValid r → IsKnown n r.targets → IsValid (switch_target n r)
unfolding IsValid
switch-IsValid n r h k = switch_target-IsValid n r h.few h.entries h.unique k

IsKnown-identifier :
    (n : ℕ) (targets : Dict TargetConfiguration)
    → (not (n == 0) && not (contains n targets)) ≡ false
    → IsKnown n targets
IsKnown-identifier n targets e = ground arith

-- `set_active_identifier`, for any number, keeps a valid state valid, by a return or an exception.
pub set_active_identifier-Keeps :
    (env : Platform) (value : ℤ) (r : Remote)
    → IsValid r
    → Keeps (set_active_identifier env value r)
unfolding set_active_identifier
set_active_identifier-Keeps env value r h =
    let n = to_ℕ value in
    either Keeps (not (is_within 0xffffffff value)) (λ e. keeps _ r h)
      (λ e.
        either Keeps (not (n == 0) && not (contains n r.targets)) (λ e. keeps _ r h)
          (λ known.
            either Keeps (n == r.active_identifier) (λ e. keeps _ r h)
              (λ e. cancel_session_of-Keeps r.active_identifier _ (
                save_targets-Keeps env _
                  (switch-IsValid n r h (IsKnown-identifier n r.targets known))))))
