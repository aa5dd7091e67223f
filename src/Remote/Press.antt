-- ===== src/Remote/Press.antt =====
-- `press` of remote.py, and the buttons of constants.py.
use atv_homekit_remote.Prelude.{
  ℕ, not, Option, List, [], ◌∷◌, leb, ◌==◌, ◌||◌, if◌then◌else◌, codes, Result, ok, err,
  value_error, ◌>>=◌,
}
use atv_homekit_remote.Prelude.Int.{ℤ, pos, negsuc, is_within}
use atv_homekit_remote.Utf8.{Text}
use atv_homekit_remote.HdsCodec.Value.{list_eq}
use atv_homekit_remote.Remote.State.{Remote, Platform, Outcome}
use atv_homekit_remote.Remote.Sessions.{select_target}
use atv_homekit_remote.Remote.Media.{Media, send_button}

-- `C.Button | str | int`; a member of the enumeration is its number.
pub data ButtonName : Type 0 where
  named : Text → ButtonName
  numbered : ℤ → ButtonName

-- The members of `C.Button`, by their values.
abbrev pub button_names : List (Text × ℕ)
button_names =
    (codes "UNDEFINED", 0)
    ∷ (codes "MENU", 1)
    ∷ (codes "PLAY_PAUSE", 2)
    ∷ (codes "TV_HOME", 3)
    ∷ (codes "SELECT", 4)
    ∷ (codes "ARROW_UP", 5)
    ∷ (codes "ARROW_RIGHT", 6)
    ∷ (codes "ARROW_DOWN", 7)
    ∷ (codes "ARROW_LEFT", 8)
    ∷ (codes "VOLUME_UP", 9)
    ∷ (codes "VOLUME_DOWN", 10)
    ∷ (codes "SIRI", 11)
    ∷ (codes "POWER", 12)
    ∷ (codes "GENERIC", 13)
    ∷ []

unfoldable pub find_name : Text → List (Text × ℕ) → Result ℕ
unfolding list_eq
find_name name [] = err value_error
find_name name ((n, value) ∷ names) = if list_eq n name then ok value else find_name name names

-- `str.upper` is a parameter.
unfoldable pub parse_button : (Text → Text) → ButtonName → Result ℕ
unfolding find_name is_within
parse_button upper (named name) = find_name (upper name) button_names
parse_button upper (numbered (negsuc n)) = err value_error
parse_button upper (numbered (pos n)) = if leb n 13 then ok n else err value_error

-- The checks of `press`: neither UNDEFINED nor SIRI, and a time of at most a minute.
unfoldable pub check_press : (Text → Text) → ButtonName → ℤ → Result ℕ
unfolding parse_button is_within
check_press upper button hold_ms = do
  parsed ← parse_button upper button
  if parsed == 0 || parsed == 11
      then err value_error
      else if not (is_within 60000 hold_ms)
      then err value_error
      else ok parsed

-- The state of the remote, and the texts that it keeps.
abbrev pub Pressed : Type 0
Pressed = Result (Unit {0}) × Remote × Media

abbrev pub note_event {ℓ} : {A : Type ℓ} → Result A × Media → Remote → Pressed
note_event (err e, m) r = (err e, r, m)
note_event (ok x, m) r = (ok tt, r, m)

abbrev pub then_release : Pressed → (Remote → Media → Pressed) → Pressed
then_release (err e, r, m) more = (err e, r, m)
then_release (ok x, r, m) more = more r m

module _ (env : Platform) (upper : Text → Text) where
  -- `_send_button` with DOWN at one time, and, after what `others` do in between, with UP.
  unfoldable pub press_and_release : (Remote → Remote) → ℕ → ℕ → ℕ → Remote → Media → Pressed
  unfolding send_button
  press_and_release others button down_at up_at r m =
      then_release (note_event (send_button env button 1 down_at r m) r)
        (λ r' m'. note_event (send_button env button 0 up_at (others r') m') (others r'))

  abbrev pub after_selection : Outcome (Unit {0}) → Media → (Remote → Pressed) → Pressed
  after_selection (err e, r) m more = (err e, r, m)
  after_selection (ok x, r) m more = more r

  unfoldable pub press :
      (Remote → Remote) → ButtonName → ℤ → Option ℤ → ℕ → ℕ → Remote → Media → Pressed
  unfolding check_press select_target press_and_release
  press others button hold_ms target down_at up_at r m = elim (check_press upper button hold_ms) [
    | err e ↦ (err e, r, m)
    | ok parsed ↦
        after_selection (select_target env target r) m
          (λ r'. press_and_release others parsed down_at up_at r' m)
  ]
