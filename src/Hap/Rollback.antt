-- ===== src/Hap/Rollback.antt =====
-- What a client's write to a characteristic of hap.py leaves behind.
use atv_homekit_remote.Prelude.{
  suc, ◌≡◌, refl, true, false, Option, inl, inr, arith, either_ok, Bool-cases, Result, ok, err,
  if◌then◌else◌,
}
use atv_homekit_remote.Remote.State.{Client}
use atv_homekit_remote.Hap.Characteristic.{
  Rules, Cell, checked_value, Setter, call_setter, notify_change, forget_value, after_setter,
  client_update_value,
}

module _ (rules : Rules) {World Response : Type 0} where
  open rules use {Value, null, value_eq, always_null}

  -- The callback tells no subscriber of this characteristic by itself.
  abbrev pub IsSilent : Setter rules World Response → Type 0
  IsSilent setter =
      (value : Value) (client : Option Client) (c : Cell rules World)
      → (call_setter rules World Response setter value client c).1.notified ≡ c.notified

  -- What a write that ended leaves, from a cell before it.
  abbrev pub IsFaithful : Cell rules World → Result Response × Cell rules World → Type 0
  IsFaithful c (err e, d) = (d.value ≡ c.value) × (d.notified ≡ c.notified)
  IsFaithful c (ok answer, d) =
      (always_null ≡ true → d.value ≡ null)
      × (always_null ≡ false
          → d.notified ≡ (if value_eq d.value c.value then c.notified else suc c.notified))

  after_setter-IsFaithful :
      (c : Cell rules World) (o : Result Response × Cell rules World)
      → o.1.notified ≡ c.notified
      → IsFaithful c (after_setter rules World Response c.value o)
  unfolding after_setter notify_change forget_value
  after_setter-IsFaithful c (err e, d) same = (refl, same)
  after_setter-IsFaithful c (ok answer, d) same = (
    (λ h. rw h refl),
    (λ h. rw h (elim (Bool-cases (value_eq d.value c.value)) [
      | inl kept ↦ ground arith
      | inr new ↦ ground arith
    ])),
  )

  -- A write that raises, in its checks or in its callback, leaves the characteristic's value as it was
  -- and tells no subscriber. One that returns leaves no value on a characteristic that has none, and on
  -- another tells the subscribers exactly if the value is not the one before. The callback itself
  -- does not notify.
  pub client_update_value-IsFaithful :
      (setter : Setter rules World Response)
      → IsSilent setter
      → (original : Value) (client : Option Client) (c : Cell rules World)
      → IsFaithful c (client_update_value rules World Response setter original client c)
  unfolding client_update_value
  client_update_value-IsFaithful setter silent original client c =
      either_ok (IsFaithful c) (checked_value rules original) (λ e h. (refl, refl))
        (λ value h.
          after_setter-IsFaithful c
            (call_setter rules World Response setter value client (record c { value = value }))
            (silent value client (record c { value = value })))
