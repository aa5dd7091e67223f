-- ===== src/Hap/Characteristic.antt =====
-- `ContextCharacteristic.client_update_value` of hap.py: a client's write with the callback that takes
-- it, and its rollback.
use atv_homekit_remote.Prelude.{
  ℕ, suc, Bool, not, Option, ◌||◌, if◌then◌else◌, Result, ok, err, ◌>>=◌,
}
use atv_homekit_remote.Remote.State.{Client}

-- HAP-python's part: the values, `to_valid_value`, `valid_value_or_raise` and the two flags.
pub record Rules : Type 1 where
  pub Value : Type 0
  pub null : Value
  pub is_null : Value → Bool
  pub value_eq : Value → Value → Bool
  pub to_valid_value : Value → Result Value
  pub valid_value_or_raise : Value → Result (Unit {0})
  pub always_null : Bool
  pub allow_invalid_client_values : Bool

module _ (rules : Rules) where
  open rules use {
    Value, null, is_null, value_eq, to_valid_value, valid_value_or_raise, always_null,
    allow_invalid_client_values,
  }

  -- The characteristic's value, how often its subscribers were told, and what the callbacks change.
  pub record Cell (World : Type 0) : Type 0 where
    pub value : Value
    pub notified : ℕ
    pub world : World

  -- The value that is written, or the exception of its checks.
  unfoldable pub checked_value : Value → Result Value
  checked_value original =
      (if not always_null || not (is_null original) then to_valid_value original else ok original)
      >>= λ value.
          if allow_invalid_client_values
          then ok value
          else valid_value_or_raise value >>= λ x. ok value

  module _ (World Response : Type 0) where
    -- `context_setter`, or `setter_callback`, which is not told the client; no callback answers None.
    pub data Setter : Type 0 where
      context_setter : (Value → Option Client → Cell World → Result Response × Cell World) → Setter
      setter_callback : (Value → Cell World → Result Response × Cell World) → Setter
      no_setter : Response → Setter

    unfoldable pub call_setter :
        Setter → Value → Option Client → Cell World → Result Response × Cell World
    call_setter (context_setter f) value client c = f value client c
    call_setter (setter_callback f) value client c = f value c
    call_setter (no_setter answer) value client c = (ok answer, c)

    -- `if self._value != previous_value: self.notify(...)`
    unfoldable pub notify_change : Value → Cell World → Cell World
    notify_change previous c =
        if value_eq c.value previous then c else record c { notified = suc c.notified }

    unfoldable pub forget_value : Cell World → Cell World
    forget_value c = if always_null then record c { value = null } else c

    -- What follows the callback: the rollback, or the notification.
    unfoldable pub after_setter :
        Value → Result Response × Cell World → Result Response × Cell World
    unfolding notify_change forget_value
    after_setter previous (err e, c) = (err e, record c { value = previous })
    after_setter previous (ok answer, c) = (ok answer, forget_value (notify_change previous c))

    unfoldable pub client_update_value :
        Setter → Value → Option Client → Cell World → Result Response × Cell World
    unfolding checked_value call_setter after_setter
    client_update_value setter original client c = elim (checked_value original) [
      | err e ↦ (err e, c)
      | ok value ↦
          after_setter c.value (call_setter setter value client (record c { value = value }))
    ]
