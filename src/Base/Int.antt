-- ===== src/Base/Int.antt =====
-- Go's `int` where a value may be negative: the integers, without wrap-around.
use Prim.Native.Nat.{ℕ, ◌+◌, ◌-◌}
use mathlib.Core.Path.{◌≡◌}
use mathlib.Core.Bool.{Bool, false}
use native.Mathlib.Omega.{arith}
use integration_service.Base.Tests.{ltb, leb, if◌then◌else◌}

-- `negsuc n` is -(n + 1).
pub data ℤ : Type 0 where
  pos : ℕ → ℤ
  negsuc : ℕ → ℤ

-- a - b, as an integer.
abbrev pub sub_ℕ : ℕ → ℕ → ℤ
sub_ℕ a b = if leb b a then pos (a - b) else negsuc (b - a - 1)

-- An integer less a count.
abbrev pub minus : ℤ → ℕ → ℤ
minus (pos a) b = sub_ℕ a b
minus (negsuc a) b = negsuc (a + b)

-- Whether a count is below an integer.
abbrev pub below : ℕ → ℤ → Bool
below a (pos b) = ltb a b
below a (negsuc b) = false

-- The integer, or 0 when it is negative.
abbrev pub to_ℕ : ℤ → ℕ
to_ℕ (pos a) = a
to_ℕ (negsuc a) = 0

pub below-eq-ltb : (a : ℕ) (z : ℤ) → below a z ≡ ltb a (to_ℕ z)
below-eq-ltb a (pos b) = ground arith
below-eq-ltb a (negsuc b) = ground arith
