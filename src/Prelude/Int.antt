-- ===== src/Prelude/Int.antt =====
-- Python's unbounded integers over the native numbers. `negsuc n` is -(n + 1).
use Prim.Native.Nat.{ℕ, ◌≤◌}
use mathlib.Core.Path.{◌≡◌}
use native.Mathlib.Omega.{arith}
use mathlib.Core.Bool.{Bool, true, false}
use atv_homekit_remote.Prelude.Tests.{leb, ◌==◌}

pub data ℤ : Type 0 where
  pos : ℕ → ℤ
  negsuc : ℕ → ℤ

-- `0 <= n <= bound`
unfoldable pub is_within : ℕ → ℤ → Bool
is_within bound (pos n) = leb n bound
is_within bound (negsuc n) = false

-- `a == b`
unfoldable pub int_eq : ℤ → ℤ → Bool
int_eq (pos a) (pos b) = a == b
int_eq (negsuc a) (negsuc b) = a == b
int_eq _ _ = false

-- The value of an integer that is known not to be negative.
abbrev pub to_ℕ : ℤ → ℕ
to_ℕ (pos n) = n
to_ℕ (negsuc n) = 0

pub is_within-le : (bound : ℕ) (z : ℤ) → is_within bound z ≡ true → to_ℕ z ≤ bound
unfolding is_within
is_within-le bound (pos n) h = ground arith
is_within-le bound (negsuc n) h = cc
