-- ===== src/Hds/Handling.antt =====
-- `HDSServer._handle_message` of hds.py, which `HDSConnection._dispatch` calls for events and requests.
use atv_homekit_remote.Prelude.{
  some, [], ◌∷◌, ◌&&◌, either, either_ok, if◌then◌else◌, Result, ok, err,
}
use atv_homekit_remote.Prelude.Int.{ℤ}
use atv_homekit_remote.Utf8.{Text}
use atv_homekit_remote.HdsCodec.Value.{Formats, Fields, list_eq}
use atv_homekit_remote.Hds.Message.{
  Message, event_message, request_message, response_message, Conversions, require_field,
}
use atv_homekit_remote.Hds.Connection.{Connection, Sent}

-- "targetControl", "whoami" and "identifier"
abbrev pub target_control_protocol : Text
target_control_protocol =
    116 ∷ 97 ∷ 114 ∷ 103 ∷ 101 ∷ 116 ∷ 67 ∷ 111 ∷ 110 ∷ 116 ∷ 114 ∷ 111 ∷ 108 ∷ []

abbrev pub whoami_topic : Text
whoami_topic = 119 ∷ 104 ∷ 111 ∷ 97 ∷ 109 ∷ 105 ∷ []

abbrev pub identifier_key : Text
identifier_key = 105 ∷ 100 ∷ 101 ∷ 110 ∷ 116 ∷ 105 ∷ 102 ∷ 105 ∷ 101 ∷ 114 ∷ []

module _ (fm : Formats) where
  open fm use {Float}

  module _ (cv : Conversions fm) (on_whoami : ℤ → Connection fm → Sent fm (Unit {0}))
      (on_event : Text → Text → Fields Float → Connection fm → Sent fm (Unit {0})) where
    -- The identifier that the controller gives is noted before the callback is told.
    unfoldable pub name_target : Result ℤ → Connection fm → Sent fm (Unit {0})
    name_target (err e) c = (err e, c)
    name_target (ok identifier) c =
        on_whoami identifier (record c { target_identifier = some identifier })

    unfoldable pub handle_named : Text → Text → Fields Float → Connection fm → Sent fm (Unit {0})
    unfolding require_field name_target list_eq
    handle_named protocol topic message c =
        if list_eq protocol target_control_protocol && list_eq topic whoami_topic
        then elim (require_field fm identifier_key message) [
          | err e ↦ (err e, c)
          | ok raw ↦ name_target (cv.to_int raw) c
        ]
        else on_event protocol topic message c

    -- A response is not handed on.
    unfoldable pub handle_message : Message fm → Connection fm → Sent fm (Unit {0})
    unfolding handle_named
    handle_message (event_message protocol topic message) c = handle_named protocol topic message c
    handle_message (request_message protocol topic message id) c =
        handle_named protocol topic message c
    handle_message (response_message protocol topic message id status) c = (ok tt, c)

    -- The handling of a message keeps what its two callbacks keep.
    module _ (P : Connection fm → Connection fm → Type 0) (same : (c : Connection fm) → P c c)
        (whoami : (z : ℤ) (c d : Connection fm) → P c d → P c (on_whoami z d).1)
        (event : (protocol topic : Text) (fs : Fields Float) (c : Connection fm)
          → P c (on_event protocol topic fs c).1)
        (named : (z : ℤ) (c : Connection fm) → P c (record c { target_identifier = some z })) where
      abbrev After : Connection fm → Sent fm (Unit {0}) → Type 0
      After c o = P c o.1

      name_target-After : (r : Result ℤ) (c : Connection fm) → After c (name_target r c)
      unfolding name_target
      name_target-After (err e) c = same c
      name_target-After (ok z) c = whoami z c _ (named z c)

      handle_named-After :
          (protocol topic : Text) (message : Fields Float) (c : Connection fm)
          → After c (handle_named protocol topic message c)
      unfolding handle_named
      handle_named-After protocol topic message c =
          either (After c) (list_eq protocol target_control_protocol && list_eq topic whoami_topic)
            (λ e.
              either_ok (After c) (require_field fm identifier_key message) (λ x e'. same c)
                (λ raw e'. name_target-After (cv.to_int raw) c))
            (λ e. event protocol topic message c)

      pub handle_message-After : (m : Message fm) (c : Connection fm) → After c (handle_message m c)
      unfolding handle_message
      handle_message-After (event_message protocol topic message) c =
          handle_named-After protocol topic message c
      handle_message-After (request_message protocol topic message id) c =
          handle_named-After protocol topic message c
      handle_message-After (response_message protocol topic message id status) c = same c
