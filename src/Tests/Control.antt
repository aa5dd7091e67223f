-- ===== src/Tests/Control.antt =====
-- remote.py's Target Control on small states.
use atv_homekit_remote.Prelude.{
  ℕ, ◌%◌, ◌≡◌, ◌≢◌, refl, ◌≤◌, ◌<◌, inl, inr, Bool, true, false, Option, none, some, List, [], ◌∷◌,
  arith, if◌then◌else◌, All, Bytes, IsByte, Result, ok, err, Error, value_error, ltb, Bool-cases,
}
use atv_homekit_remote.Utf8.{Text}
use atv_homekit_remote.Remote.Target.{TargetConfiguration, parse_target_bytes}
use atv_homekit_remote.Remote.State.{Client, client_eq, Remote, Platform}
use atv_homekit_remote.Remote.Control.{
  update, apply_operation, hap_target_list_write, hap_active_write,
}
use atv_homekit_remote.Remote.Valid.{IsValid}
use atv_homekit_remote.Remote.Atomic.{apply_operation-err}

-- A text stands for the low bytes of its code points.
abbrev pub low_bytes : Text → Bytes
low_bytes [] = []
low_bytes (c ∷ cs) = c % 256 ∷ low_bytes cs

low_bytes-IsByte : (t : Text) → All IsByte (low_bytes t)
low_bytes-IsByte [] = tt
low_bytes-IsByte (c ∷ cs) = (omega arith, low_bytes-IsByte cs)

pub decoded_bytes : (t : Text) (bs : Bytes) → ok (low_bytes t) ≡ ok bs → All IsByte bs
decoded_bytes t bs h = let same : low_bytes t ≡ bs = ground arith in rw same at (low_bytes-IsByte t)

abbrev pub admin : Client
admin = record { host = 49 ∷ []; port = 5000 }

abbrev pub guest : Client
guest = record { host = 50 ∷ []; port = 5001 }

abbrev pub plain : Platform
plain = record {
  is_admin = λ c. client_eq c admin;
  b64decode = λ t. ok (low_bytes t);
  b64encode = λ bs. bs;
  write_error = λ r. none;
  b64decode-IsByte = decoded_bytes;
}

abbrev pub living_room : TargetConfiguration
living_room = record {
  target_identifier = 7;
  target_name = none;
  target_category = some 24;
  buttons = [];
}

abbrev unknown_target : TargetConfiguration
unknown_target = record {
  target_identifier = 8;
  target_name = none;
  target_category = none;
  buttons = [];
}

-- One target, which is active for the administrator's session.
abbrev pub one_target : Remote
one_target = record {
  started = true;
  targets = (7, living_room) ∷ [];
  active_identifier = 7;
  active_client = some admin;
  hds_connections = (7, 1) ∷ [];
  active_session = some (record { target_identifier = 7; closed = false });
  stored = none;
  calls = [];
}

pub one_target-IsValid : IsValid one_target
unfolding IsValid atv_homekit_remote.Prelude.Dict.contains
one_target-IsValid = record {
  few = omega arith;
  entries = ((refl, omega arith, omega arith, (tt, tt)), tt);
  unique = (refl, tt);
  known = inr refl;
  idle = λ h. absurd (omega arith);
}

-- REMOVE of target 7: the operation's byte, and the identifier in 4 bytes.
abbrev pub removal : Text
removal = 1 ∷ 1 ∷ 3 ∷ 2 ∷ 6 ∷ 1 ∷ 4 ∷ 7 ∷ 0 ∷ 0 ∷ 0 ∷ []

removal_empties : (hap_target_list_write plain removal (some admin) one_target).1.targets ≡ []
unfolding hap_target_list_write client_eq atv_homekit_remote.Tlv8.decode
    atv_homekit_remote.Prelude.Dict.lookup atv_homekit_remote.Prelude.Dict.insert
    atv_homekit_remote.Tlv8.read_u32 atv_homekit_remote.Prelude.from_le
    atv_homekit_remote.Prelude.Dict.erase
removal_empties = refl

update_refused : (apply_operation plain update (some unknown_target) one_target).0 ≡ err value_error
unfolding apply_operation atv_homekit_remote.Prelude.Dict.lookup
update_refused = refl

always_written : (r : Remote) → plain.write_error r ≡ none
always_written r = refl

apply_operation-err_example :
    (apply_operation plain update (some unknown_target) one_target).1 ≡ one_target
apply_operation-err_example =
    apply_operation-err plain always_written update (some unknown_target) one_target value_error
      one_target-IsValid update_refused

deactivated : (hap_active_write false (some admin) one_target).0 ≡ ok tt
unfolding hap_active_write
deactivated = refl

abbrev raw_target : Bytes
raw_target = 1 ∷ 4 ∷ 7 ∷ 0 ∷ 0 ∷ 0 ∷ 3 ∷ 2 ∷ 24 ∷ 0 ∷ []

raw_target_parsed : parse_target_bytes raw_target ≡ ok living_room
unfolding parse_target_bytes atv_homekit_remote.Tlv8.decode atv_homekit_remote.Prelude.Dict.lookup
    atv_homekit_remote.Prelude.Dict.insert atv_homekit_remote.Tlv8.read_u32
    atv_homekit_remote.Prelude.from_le atv_homekit_remote.Tlv8.read_u16
raw_target_parsed = refl

raw_target-IsByte : All IsByte raw_target
raw_target-IsByte = (
  omega arith,
  (
    omega arith,
    (
      omega arith,
      (
        omega arith,
        (
          omega arith,
          (omega arith, (omega arith, (omega arith, (omega arith, (omega arith, tt))))),
        ),
      ),
    ),
  ),
)
