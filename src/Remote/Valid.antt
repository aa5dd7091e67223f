-- ===== src/Remote/Valid.antt =====
-- What the handlers keep true of the state: at most ten targets, each under its own identifier, a
-- 32-bit number that is not 0, with buttons under their own identifiers; the active one is known; a
-- client is active only for a target; a connection is kept only for a target.
use atv_homekit_remote.Prelude.{
  ℕ, ◌≡◌, refl, ◌≤◌, ◌<◌, ◌⊎◌, true, false, Option, none, [], ◌∷◌, ◌==◌, if◌then◌else◌, arith,
  length, All, Result,
}
use atv_homekit_remote.Prelude.Dict.{
  Dict, contains, insert, erase, contains-insert, contains-erase_ne,
}
use atv_homekit_remote.Remote.Target.{
  ButtonConfiguration, TargetConfiguration, insert_sorted, sorted,
}
use atv_homekit_remote.Remote.State.{Client, Remote, Outcome}

-- No key of the dictionary stands in it twice.
abbrev pub HasUniqueKeys {ℓ} : {V : Type ℓ} → Dict V → Type 0
HasUniqueKeys [] = Unit
HasUniqueKeys ((k, v) ∷ d) = (contains k d ≡ false) × HasUniqueKeys d

-- A button is kept under its identifier, a byte; its type has 16 bits.
abbrev pub IsButtonEntry : ℕ × ButtonConfiguration → Type 0
IsButtonEntry (key, b) = (b.button_id ≡ key) × (key ≤ 255) × (b.button_type ≤ 65535)

abbrev pub HasButtons : Dict ButtonConfiguration → Type 0
HasButtons buttons = All IsButtonEntry buttons × HasUniqueKeys buttons

abbrev pub IsEntry : ℕ × TargetConfiguration → Type 0
IsEntry (key, target) =
    (target.target_identifier ≡ key) × (0 < key) × (key ≤ 0xffffffff) × HasButtons target.buttons

abbrev pub IsKnown : ℕ → Dict TargetConfiguration → Type 0
IsKnown identifier targets = (identifier ≡ 0) ⊎ (contains identifier targets ≡ true)

pub record IsControl (targets : Dict TargetConfiguration) (active : ℕ) (client : Option Client)
    : Type 0 where
  pub few : length targets ≤ 10
  pub entries : All IsEntry targets
  pub unique : HasUniqueKeys targets
  pub known : IsKnown active targets
  pub idle : (active ≡ 0) → client ≡ none

unfoldable pub IsValid : Remote → Type 0
IsValid r = IsControl r.targets r.active_identifier r.active_client

-- The state is valid when the call ends, by a return or by an exception.
unfoldable pub Keeps {ℓ} : {A : Type ℓ} → Outcome A → Type 0
unfolding IsValid
Keeps o = IsValid o.1

pub valid : (r : Remote) → IsControl r.targets r.active_identifier r.active_client → IsValid r
unfolding IsValid
valid r h = h

pub keeps {ℓ} : {A : Type ℓ} (x : Result A) (r : Remote) → IsValid r → Keeps (x, r)
unfolding Keeps
keeps x r h = h

module _ {ℓ} {V : Type ℓ} where
  pub insert-HasUniqueKeys :
      (k : ℕ) (v : V) (d : Dict V) → HasUniqueKeys d → HasUniqueKeys (insert k v d)
  unfolding insert contains
  insert-HasUniqueKeys k v [] h = (refl, tt)
  insert-HasUniqueKeys k v ((j, w) ∷ d) h =
      ground (arith, insert-HasUniqueKeys k v d h.1, contains-insert k j v d)

  pub erase-HasUniqueKeys : (k : ℕ) (d : Dict V) → HasUniqueKeys d → HasUniqueKeys (erase k d)
  unfolding erase contains
  erase-HasUniqueKeys k [] h = tt
  erase-HasUniqueKeys k ((j, w) ∷ d) h =
      ground (arith, erase-HasUniqueKeys k d h.1, contains-erase_ne k j d)

  -- The first key of the sorted dictionary is a key.
  pub contains-insert_sorted :
      (i k : ℕ) (v : V) (d : Dict V)
      → contains i (insert_sorted k v d) ≡ (if i == k then true else contains i d)
  unfolding insert_sorted contains
  contains-insert_sorted i k v [] = refl
  contains-insert_sorted i k v ((j, w) ∷ d) = ground (arith, contains-insert_sorted i k v d)

  pub contains-sorted : (i : ℕ) (d : Dict V) → contains i (sorted d) ≡ contains i d
  unfolding sorted contains
  contains-sorted i [] = refl
  contains-sorted i ((k, v) ∷ d) =
      ground (arith, contains-insert_sorted i k v (sorted d), contains-sorted i d)

pub contains-bounds :
    (k : ℕ) (d : Dict TargetConfiguration)
    → All IsEntry d
    → contains k d ≡ true
    → (0 < k) × (k ≤ 0xffffffff)
unfolding contains
contains-bounds k [] h e = cc
contains-bounds k ((j, w) ∷ d) h e = ground (arith, contains-bounds k d h.1)
