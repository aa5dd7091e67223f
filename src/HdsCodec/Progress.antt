-- ===== src/HdsCodec/Progress.antt =====
-- What a read of `Decoder` in hds_codec.py leaves of the input: less than before, and fuel.
use atv_homekit_remote.Prelude.{
  ℕ, ◌≡◌, ◌≢◌, refl, ◌<◌, arith, length, Bytes, Result, ok, err, Error, out_of_fuel, ◌>>=◌,
}
use atv_homekit_remote.HdsCodec.Value.{HdsValue, Formats}
use atv_homekit_remote.HdsCodec.Decoder.{Reader}
use atv_homekit_remote.HdsCodec.Leaves.{Leaves}

module _ {fm : Formats} where
  open fm use {Float}

  unfoldable pub Reads : {A : Type 0} → ℕ → Result (A × Reader fm) → Type 0
  Reads {A = A} n m =
      (m ≢ err out_of_fuel) × ((a : A) (r : Reader fm) → m ≡ ok (a, r) → length r.rest < n)

  pub returns :
      {A : Type 0} (n : ℕ) (a : A) (r : Reader fm) → length r.rest < n → Reads n (ok (a, r))
  unfolding Reads
  returns n a r h = ((λ e. cc), λ b s e. ground arith)

  pub and_then :
      {A B : Type 0} (n k : ℕ) (m : Result (A × Reader fm))
      (f : A × Reader fm → Result (B × Reader fm))
      → Reads n m
      → ((a : A) (r : Reader fm) → length r.rest < n → Reads k (f (a, r)))
      → Reads k (m >>= f)
  unfolding Reads
  and_then n k (ok (a, r)) f h rest = rest a r (h.1 a r refl)
  and_then {B = B} n k (err x) f h rest = ((λ e. h.0 (ground arith)), λ b r e. cc)

  pub then_takes :
      {A B : Type 0} (n k : ℕ) (m : Result (A × Bytes)) (f : A × Bytes → Result (B × Reader fm))
      → Leaves n m
      → ((a : A) (rest : Bytes) → length rest < n → Reads k (f (a, rest)))
      → Reads k (m >>= f)
  unfolding Leaves Reads
  then_takes n k (ok (a, r)) f h rest = rest a r (h.1 a r refl)
  then_takes n k (err x) f h rest = ((λ e. h.0 (ground arith)), λ b r e. cc)

  pub then_value :
      {B : Type 0} (k : ℕ) (m : Result (HdsValue Float))
      (f : HdsValue Float → Result (B × Reader fm))
      → m ≢ err out_of_fuel
      → ((a : HdsValue Float) → Reads k (f a))
      → Reads k (m >>= f)
  unfolding Reads
  then_value k (ok a) f h rest = rest a
  then_value k (err x) f h rest = ((λ e. h (ground arith)), λ b r e. cc)

module _ (fm : Formats) where
  pub raises :
      (A : Type 0) (n : ℕ) (x : Error) → x ≢ out_of_fuel → Reads {fm = fm} {A = A} n (err x)
  unfolding Reads
  raises A n x h = ((λ e. h (ground arith)), λ a r e. cc)
