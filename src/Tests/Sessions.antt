-- ===== src/Tests/Sessions.antt =====
-- remote.py: an utterance, its loss with the connection, and a targets.json.
use atv_homekit_remote.Prelude.{
  ℕ, suc, ◌≡◌, refl, ◌≤◌, Bool, true, false, Option, none, some, [], ◌∷◌, arith, codes, Result, ok,
  err, Error, value_error,
}
use atv_homekit_remote.Prelude.Int.{ℤ, pos}
use atv_homekit_remote.Prelude.Dict.{lookup, contains}
use atv_homekit_remote.Remote.Valid.{IsValid}
use atv_homekit_remote.Remote.Life.{
  Step, Reaches, here, after, list_written, active_written, Reaches-IsValid,
}
use atv_homekit_remote.Remote.Life
use atv_homekit_remote.Remote.Control.{hap_target_list_write}
use atv_homekit_remote.Remote.Sessions.{
  Talk, Registry, is_open_link, add_link, name_link, hds_whoami, start_siri,
}
use atv_homekit_remote.Remote.Utterances.{
  new_registry, Reachable, begun, accepted, told_whoami, started,
}
use atv_homekit_remote.Remote.Utterances
use atv_homekit_remote.Remote.OneUtterance.{one_utterance}
use atv_homekit_remote.Remote.Loading.{Json, int, object, end, field, Loaded, load_targets}
use atv_homekit_remote.Remote.Loaded.{IsStored, load_targets-IsStored}
use atv_homekit_remote.Tests.Control.{plain, admin, one_target, one_target-IsValid, removal}

Reaches-IsValid_example : IsValid (hap_target_list_write plain removal (some admin) one_target).1
Reaches-IsValid_example =
    Reaches-IsValid plain one_target-IsValid
      (Life.after here (list_written removal (some admin) one_target))

-- Target 7 opens connection 1, and an utterance starts.
abbrev connected : Registry
connected = hds_whoami (pos 7) 1 (name_link 1 (pos 7) (add_link 1 (new_registry one_target)))

abbrev speaking : Registry
speaking = (start_siri plain none none connected).1

speaking-Reachable : Reachable speaking
speaking-Reachable =
    Utterances.after
      (Utterances.after (Utterances.after (begun one_target) (accepted 1 (new_registry one_target)))
        (told_whoami (pos 7) 1 (add_link 1 (new_registry one_target))))
      (started plain none none connected)

abbrev utterance : Talk
utterance = record { connection = 1; target_identifier = 7; stream_id = none; closed = false }

speaks : lookup 0 speaking.sessions ≡ some utterance
unfolding start_siri hds_whoami name_link add_link new_registry lookup contains
    atv_homekit_remote.Prelude.Dict.insert
speaks = refl

one_utterance_example :
    (◌≡◌ {A = ℕ} 0 0) × (speaking.locked ≡ true) × (is_open_link 1 speaking.links ≡ true)
one_utterance_example =
    one_utterance speaking-Reachable 0 0 utterance utterance speaks speaks refl refl

-- {"targets": {"7": {"target_identifier": 7}}, "active_identifier": 9}
abbrev stale_file : Json
stale_file = object (
    field (codes "targets")
      (object
        (field (codes "7") (object (field (codes "target_identifier") (int (pos 7)) end)) end))
      (field (codes "active_identifier") (int (pos 9)) end))

abbrev pub int_of : Json → Result ℤ
int_of (int z) = ok z
int_of _ = err value_error

abbrev stale : Loaded int_of
stale = load_targets int_of (some (ok stale_file))

stale_active : stale.active_identifier ≡ 7
unfolding load_targets atv_homekit_remote.Prelude.Dict.insert contains
    atv_homekit_remote.Remote.Target.sorted
stale_active = refl

load_targets-IsStored_example : IsStored stale.targets stale.active_identifier
load_targets-IsStored_example = load_targets-IsStored int_of (some (ok stale_file))
