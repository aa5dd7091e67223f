-- ===== src/Prelude/Outcome.antt =====
-- A Python call that may raise. An exception is its class; its message is not kept.
use mathlib.Core.Path.{◌≡◌, refl}

-- `out_of_fuel` is no Python exception: the model's bound on a loop or a recursion was too small.
pub data Error : Type 0 where
  value_error type_error overflow_error key_error runtime_error : Error
  invalid_tag struct_error permission_error connection_error timeout_error unicode_error : Error
  os_error file_not_found wave_error : Error
  out_of_fuel : Error

pub data Result {ℓ} (A : Type ℓ) : Type ℓ where
  err : Error → Result A
  ok : A → Result A

infixl 5 ◌>>=◌
-- An exception skips what follows.
abbrev pub ◌>>=◌ {κ ℓ} : {B : Type κ} {A : Type ℓ} → Result B → (B → Result A) → Result A
err raised >>= next = err raised
ok value >>= next = next value

-- Both parts of a chain that returns have returned.
pub >>=-eq-ok {κ ℓ} :
    {B : Type κ} {A : Type ℓ} (first : Result B) (next : B → Result A) {last : A}
    → (first >>= next) ≡ ok last
    → (value : B) × (first ≡ ok value) × (next value ≡ ok last)
>>=-eq-ok (err raised) next whole = cc
>>=-eq-ok (ok value) next whole = (value, refl, whole)

-- What holds after a return and after an exception.
pub either_ok {κ ℓ μ} :
    {B : Type κ} {A : Type ℓ} (P : A → Type μ) (m : Result B) {f : Error → A} {g : B → A}
    → ((e : Error) → (m ≡ err e) → P (f e))
    → ((b : B) → (m ≡ ok b) → P (g b))
    → P (elim m [ err e ↦ f e | ok b ↦ g b ])
either_ok P (err e) raised returned = raised e refl
either_ok P (ok b) raised returned = returned b refl
