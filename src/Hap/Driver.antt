-- ===== src/Hap/Driver.antt =====
-- `SiriHAPServerProtocol` and the lookups of `SiriAccessoryDriver` of hap.py: the Pair Verify secret of
-- a connection, and who is an administrator.
use atv_homekit_remote.Prelude.{
  ℕ, Bool, false, Option, none, some, List, [], ◌∷◌, if◌then◌else◌, Bytes,
}
use atv_homekit_remote.Remote.State.{Client, client_eq}

-- A HAP connection: whether it is of the package's class, its secret, and the client that paired.
pub record Protocol : Type 0 where
  pub is_siri : Bool
  pub shared_secret : Option Bytes
  pub client_uuid : Option ℕ

-- A response's `shared_key` counts if it is there and not empty.
abbrev pub or_key : Option Bytes → Option Bytes → Option Bytes
or_key none old = old
or_key (some []) old = old
or_key (some (b ∷ bs)) old = some (b ∷ bs)

-- `_process_response`
unfoldable pub process_response : Option Bytes → Protocol → Protocol
process_response shared_key p = record p { shared_secret = or_key shared_key p.shared_secret }

-- `close`: the secret goes, whatever the base class does.
unfoldable pub close : Protocol → Protocol
close p = record p { shared_secret = none }

-- `self.http_server.connections`
abbrev pub Connections : Type 0
Connections = List (Client × Protocol)

unfoldable pub connection_of : Client → Connections → Option Protocol
unfolding client_eq
connection_of client [] = none
connection_of client ((c, p) ∷ connections) =
    if client_eq c client then some p else connection_of client connections

abbrev pub of_class : Option Protocol → Option Protocol
of_class none = none
of_class (some p) = if p.is_siri then some p else none

unfoldable pub protocol_for : Option Client → Connections → Option Protocol
unfolding connection_of
protocol_for none connections = none
protocol_for (some client) connections = of_class (connection_of client connections)

abbrev pub secret_of : Option Protocol → Option Bytes
secret_of none = none
secret_of (some p) = p.shared_secret

unfoldable pub shared_secret_for : Option Client → Connections → Option Bytes
unfolding protocol_for
shared_secret_for client connections = secret_of (protocol_for client connections)

-- HAP-python's state says which pairing is an administrator's.
abbrev pub is_admin_of : (ℕ → Bool) → Option Protocol → Bool
is_admin_of admins none = false
is_admin_of admins (some p) = elim p.client_uuid [ none ↦ false | some uuid ↦ admins uuid ]

unfoldable pub is_admin : (ℕ → Bool) → Option Client → Connections → Bool
unfolding protocol_for
is_admin admins client connections = is_admin_of admins (protocol_for client connections)
