-- ===== src/Remote/Config.antt =====
-- `RemoteConfig.__post_init__` of remote.py.
use atv_homekit_remote.Prelude.{
  ℕ, zero, suc, Bool, false, not, Option, none, some, [], ◌∷◌, leb, ◌==◌, ◌&&◌, ◌||◌, if◌then◌else◌,
  length, Result, ok, err, value_error,
}
use atv_homekit_remote.Prelude.Int.{ℤ, pos, negsuc}
use atv_homekit_remote.Utf8.{Text}

-- `str.strip` and `str.upper`, and the characters that `\d` matches: the decimal digits of Unicode.
pub record Texts : Type 0 where
  pub strip : Text → Text
  pub upper : Text → Text
  pub is_digit : ℕ → Bool

pub record RemoteConfig : Type 0 where
  pub name : Text
  pub username : Option Text
  pub pincode : Option Text
  pub port : ℤ
  pub state_dir : Text

-- `[0-9A-Fa-f]`
abbrev pub is_hex : ℕ → Bool
is_hex c = leb 48 c && leb c 57 || leb 65 c && leb c 70 || leb 97 c && leb c 102

-- Five groups of two digits and a colon, then two digits.
abbrev pub is_pairs : ℕ → Text → Bool
is_pairs (suc n) (a ∷ b ∷ c ∷ rest) = is_hex a && is_hex b && c == 58 && is_pairs n rest
is_pairs zero (a ∷ b ∷ []) = is_hex a && is_hex b
is_pairs _ _ = false

-- `_USERNAME_RE.fullmatch`
unfoldable pub is_username : Text → Bool
is_username t = is_pairs 5 t

module _ (tx : Texts) where
  -- `_PIN_RE.fullmatch`
  unfoldable pub is_pincode : Text → Bool
  is_pincode (a ∷ b ∷ c ∷ d ∷ e ∷ f ∷ g ∷ h ∷ i ∷ j ∷ []) =
      tx.is_digit a
      && tx.is_digit b
      && tx.is_digit c
      && d == 45
      && tx.is_digit e
      && tx.is_digit f
      && g == 45
      && tx.is_digit h
      && tx.is_digit i
      && tx.is_digit j
  is_pincode _ = false

  abbrev pub is_port : ℤ → Bool
  is_port (pos n) = leb 1 n && leb n 65535
  is_port (negsuc n) = false

  abbrev pub is_bad_username : Option Text → Bool
  is_bad_username none = false
  is_bad_username (some t) = not (is_username t)

  abbrev pub is_bad_pincode : Option Text → Bool
  is_bad_pincode none = false
  is_bad_pincode (some t) = not (is_pincode t)

  abbrev pub upper_or_none : Option Text → Option Text
  upper_or_none none = none
  upper_or_none (some t) = some (tx.upper t)

  -- The configuration with its username in capitals.
  unfoldable pub new_config : RemoteConfig → Result RemoteConfig
  unfolding is_username is_pincode
  new_config c =
      if length (tx.strip c.name) == 0
      then err value_error
      else if not (is_port c.port)
      then err value_error
      else if is_bad_username c.username
      then err value_error
      else if is_bad_pincode c.pincode
      then err value_error
      else if length c.state_dir == 0
      then err value_error
      else ok (record c { username = upper_or_none c.username })
