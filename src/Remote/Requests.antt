-- ===== src/Remote/Requests.antt =====
-- What `_parse_target` lets pass, and `hap_target_list_write` as a whole.
use atv_homekit_remote.Prelude.{
  either, ℕ, ◌≡◌, refl, ◌≤◌, ◌<◌, ◌^◌, inl, inr, ap, Option, none, some, ◌==◌, not, arith, All,
  Bytes, IsByte, length, from_le, from_le-lt, Bool-cases, Result, ok, err, >>=-eq-ok,
}
use atv_homekit_remote.Prelude.Dict.{Dict, lookup, lookup-All}
use atv_homekit_remote.Utf8.{Text}
use atv_homekit_remote.Tlv8.{decode, read_u32}
use atv_homekit_remote.Tlv8.ByteValues.{IsByteEntry, decode-IsByteEntry}
use atv_homekit_remote.Remote.Target.{
  TargetConfiguration, required, parse_target_bytes, parse_fields, parse_name, parse_category,
  parse_button_list, target_name_tag, target_category_tag, target_button_configuration_tag,
  parse_target, target_identifier_tag, single, tc_list_operation_tag,
  tc_list_target_configuration_tag,
}
use atv_homekit_remote.Remote.State.{Client, Remote, Platform, Outcome}
use atv_homekit_remote.Remote.Control.{
  TargetOperation, target_operation, apply_operation, target_list_request, is_admin_client,
  and_save, reply, hap_target_list_write,
}
use atv_homekit_remote.Remote.Valid.{HasButtons, IsValid, Keeps, keeps}
use atv_homekit_remote.Remote.Buttons.{required-IsByte, parse_button_list-HasButtons}
use atv_homekit_remote.Remote.Handlers.{save_targets-Keeps, kept}
use atv_homekit_remote.Remote.Writes.{IsAcceptable}
use atv_homekit_remote.Remote.Removal.{IsAcceptableOption, apply_operation-Keeps}

read_u32-bound : (bs : Bytes) (n : ℕ) → All IsByte bs → read_u32 bs ≡ ok n → n ≤ 0xffffffff
unfolding read_u32
read_u32-bound bs n h e = elim (Bool-cases (length bs == 4)) [
  | inl four ↦
      let value : from_le bs ≡ n = ground arith in
      let sized : length bs ≡ 4 = ground arith in
      let power : 256 ^ length bs ≡ 256 ^ 4 = ap (λ k. 256 ^ k) sized in
      omega (arith, from_le-lt bs h, value, power)
  | inr other ↦ absurd (ground arith)
]

parse_fields-identifier :
    (d : Dict Bytes) (identifier : ℕ) (config : TargetConfiguration)
    → parse_fields d identifier ≡ ok config
    → (config.target_identifier ≡ identifier) × (0 < identifier)
unfolding parse_fields
parse_fields-identifier d identifier config e = ground arith

parse_fields-buttons :
    (d : Dict Bytes) (identifier : ℕ) (config : TargetConfiguration)
    → All IsByteEntry d
    → parse_fields d identifier ≡ ok config
    → HasButtons config.buttons
unfolding parse_fields
parse_fields-buttons d identifier config h e = elim (Bool-cases (identifier == 0)) [
  | inl zero_ ↦ absurd (ground arith)
  | inr other ↦
      let e0 = rw other at e in
      let (name, h0, e1) = >>=-eq-ok (parse_name (lookup target_name_tag d)) _ e0 in
      let (category, h1, e2) = >>=-eq-ok (parse_category (lookup target_category_tag d)) _ e1 in
      let (buttons, h2, e3) =
        >>=-eq-ok (parse_button_list (lookup target_button_configuration_tag d)) _ e2 in
      let same : buttons ≡ config.buttons = ground arith in
      rw same at (
        parse_button_list-HasButtons (lookup target_button_configuration_tag d) buttons
          (λ bs at_tag. lookup-All IsByteEntry target_button_configuration_tag bs d h at_tag) h2)
]

-- A configuration that is parsed from bytes has an identifier from 1 to 2 ** 32 - 1, and each of its
-- buttons once, under its own identifier, a byte, with a 16-bit type.
parse_target_bytes-IsAcceptable :
    (raw : Bytes) (config : TargetConfiguration)
    → All IsByte raw
    → parse_target_bytes raw ≡ ok config
    → IsAcceptable config
unfolding parse_target_bytes
parse_target_bytes-IsAcceptable raw config h e =
    let (d, parsed, e1) = >>=-eq-ok (decode raw) _ e in
    let (id_raw, present, e2) = >>=-eq-ok (required d target_identifier_tag) _ e1 in
    let (id, number, e3) = >>=-eq-ok (read_u32 id_raw) _ e2 in
    let entries = decode-IsByteEntry raw d h parsed in
    let id_bytes = required-IsByte d target_identifier_tag id_raw entries present in
    let bound = read_u32-bound id_raw id id_bytes number in
    let (same, positive) = parse_fields-identifier d id config e3 in
    (omega arith, omega arith, parse_fields-buttons d id config entries e3)

parse_target-IsAcceptable :
    (raw : Option Bytes) (config : Option TargetConfiguration)
    → ((bs : Bytes) → raw ≡ some bs → All IsByte bs)
    → parse_target raw ≡ ok config
    → IsAcceptableOption config
unfolding parse_target
parse_target-IsAcceptable none none h e = tt
parse_target-IsAcceptable none (some config) h e = cc
parse_target-IsAcceptable (some raw) none h e = tt
parse_target-IsAcceptable (some raw) (some config) h e =
    let (c, parsed, same) = >>=-eq-ok (parse_target_bytes raw) _ e in
    let equal : c ≡ config = ground arith in
    rw equal at (parse_target_bytes-IsAcceptable raw c (h raw refl) parsed)

target_list_request-IsAcceptable :
    (env : Platform) (value : Text) (operation : TargetOperation)
    (config : Option TargetConfiguration)
    → target_list_request env value ≡ ok (operation, config)
    → IsAcceptableOption config
unfolding target_list_request
target_list_request-IsAcceptable env value operation config e =
    let (raw, decoded, e1) = >>=-eq-ok (env.b64decode value) _ e in
    let (d, parsed, e2) = >>=-eq-ok (decode raw) _ e1 in
    let (operation_raw, present, e3) = >>=-eq-ok (required d tc_list_operation_tag) _ e2 in
    let (byte, one, e4) = >>=-eq-ok (single operation_raw) _ e3 in
    let (op, known, e5) = >>=-eq-ok (target_operation byte) _ e4 in
    let (c, target, same) =
      >>=-eq-ok (parse_target (lookup tc_list_target_configuration_tag d)) _ e5 in
    let entries = decode-IsByteEntry raw d (env.b64decode-IsByte value raw decoded) parsed in
    let equal : c ≡ config = ground arith in
    rw equal at (
      parse_target-IsAcceptable (lookup tc_list_target_configuration_tag d) c
        (λ bs at_tag. lookup-All IsByteEntry tc_list_target_configuration_tag bs d entries at_tag)
        target)

and_save-Keeps : (env : Platform) (o : Outcome (Unit {0})) → Keeps o → Keeps (and_save env o)
unfolding and_save
and_save-Keeps env (err e, r) h = h
and_save-Keeps env (ok x, r) h = save_targets-Keeps env r (kept _ r h)

reply-Keeps : (env : Platform) (o : Outcome (Unit {0})) → Keeps o → Keeps (reply env o)
unfolding reply
reply-Keeps env (err e, r) h = keeps _ r (kept _ r h)
reply-Keeps env (ok x, r) h = keeps _ r (kept _ r h)

-- A TargetControlList write, whatever its text, its client and its outcome, keeps a valid state valid.
pub hap_target_list_write-Keeps :
    (env : Platform) (value : Text) (client : Option Client) (r : Remote)
    → IsValid r
    → Keeps (hap_target_list_write env value client r)
unfolding hap_target_list_write
hap_target_list_write-Keeps env value client r h =
    either Keeps (not r.started) (λ e. keeps _ r h)
      (λ e.
        either Keeps (not (is_admin_client env client)) (λ e. keeps _ r h)
          (λ e. written (target_list_request env value) refl))
  where
    written :
        (request : Result (TargetOperation × Option TargetConfiguration))
        → target_list_request env value ≡ request
        → Keeps {A = Text} (elim request [
          | err e ↦ (err e, r)
          | ok (operation, config) ↦
              reply env (and_save env (apply_operation env operation config r))
        ])
    written (err e) p = keeps _ r h
    written (ok (operation, config)) p = reply-Keeps env _ (
        and_save-Keeps env _ (
          apply_operation-Keeps env operation config r
            (target_list_request-IsAcceptable env value operation config p) h))
