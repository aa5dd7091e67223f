-- ===== src/Tests/Saving.antt =====
-- Saving and loading of remote.py on small inputs, and the theorems applied to them.
use atv_homekit_remote.Prelude.{
  ℕ, ◌≡◌, refl, inl, true, false, none, some, [], ◌∷◌, arith, codes, ok,
}
use atv_homekit_remote.Prelude.Int.{pos, is_within}
use atv_homekit_remote.Prelude.Dict.{Dict, lookup, contains}
use atv_homekit_remote.Remote.Target.{TargetConfiguration}
use atv_homekit_remote.Remote.State.{Remote, save_targets, set_active_identifier, switch_target}
use atv_homekit_remote.Remote.Valid.{IsValid}
use atv_homekit_remote.Remote.Life
use atv_homekit_remote.Remote.Life.{here, selected}
use atv_homekit_remote.Remote.Loading.{Loaded, load_targets}
use atv_homekit_remote.Remote.Saving.{str, stored_file}
use atv_homekit_remote.Remote.Saved.{AreCopies, load_targets-save_targets}
use atv_homekit_remote.Tests.Control.{plain}
use atv_homekit_remote.Tests.Sessions.{int_of}

str_digits : str 40960 ≡ codes "40960"
unfolding str
str_digits = refl

-- "10" comes before "9".
abbrev bedroom : TargetConfiguration
bedroom = record {
  target_identifier = 300;
  target_name = some (codes "Bedroom");
  target_category = none;
  buttons =
      (9, record { button_id = 9; button_type = 4; button_name = none })
      ∷ (10, record { button_id = 10; button_type = 65535; button_name = some (codes "Play") })
      ∷ [];
}

abbrev kitchen : TargetConfiguration
kitchen = record {
  target_identifier = 4;
  target_name = none;
  target_category = some 24;
  buttons = [];
}

abbrev two_targets : Dict TargetConfiguration
two_targets = (4, kitchen) ∷ (300, bedroom) ∷ []

-- Both targets are known, and none is active.
abbrev two_rooms : Remote
two_rooms = record {
  started = true;
  targets = two_targets;
  active_identifier = 0;
  active_client = none;
  hds_connections = [];
  active_session = none;
  stored = none;
  calls = [];
}

two_rooms-IsValid : IsValid two_rooms
unfolding IsValid contains
two_rooms-IsValid = record {
  few = omega arith;
  entries = (
    (refl, omega arith, omega arith, (tt, tt)),
    (
      (
        refl,
        omega arith,
        omega arith,
        (
          ((refl, omega arith, omega arith), ((refl, omega arith, omega arith), tt)),
          (refl, (refl, tt)),
        ),
      ),
      tt,
    ),
  );
  unique = (refl, (refl, tt));
  known = inl refl;
  idle = λ h. refl;
}

-- Target 300 is made active, and saved.
abbrev in_bedroom : Remote
in_bedroom = (set_active_identifier plain (pos 300) two_rooms).1

in_bedroom-active : in_bedroom.active_identifier ≡ 300
unfolding set_active_identifier is_within contains switch_target
in_bedroom-active = refl

abbrev reloaded : Loaded int_of
reloaded = load_targets int_of (stored_file (save_targets plain in_bedroom).1.stored)

load_targets-save_targets_example :
    ((save_targets plain in_bedroom).0 ≡ ok tt)
    × (reloaded.quarantined ≡ false)
    × (reloaded.active_identifier ≡ in_bedroom.active_identifier)
    × ((k : ℕ) → AreCopies (lookup k in_bedroom.targets) (lookup k reloaded.targets))
load_targets-save_targets_example =
    load_targets-save_targets int_of (λ z. refl) plain two_rooms-IsValid
      (Life.after here (selected (pos 300) two_rooms)) refl
