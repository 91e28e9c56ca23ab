-- ===== src/Base/Ints.antt =====
-- C's signed integers, which no operation modelled here takes out of their range.
use Prim.Native.Nat.{ℕ, ◌-◌}
use mathlib.Core.Bool.{Bool, true, false}
use mathlib.Core.Path.{◌≡◌, ap}
use moty.Base.Tests.{leb, ◌==◌, if◌then◌else◌}
use native.Mathlib.Omega.{arith}

pub data ℤ : Type 0 where
  pos : ℕ → ℤ
  negsuc : ℕ → ℤ

-- The difference of two unsigned numbers as signed ones.
abbrev pub sub : ℕ → ℕ → ℤ
sub a b = if leb b a then pos (a - b) else negsuc (b - a - 1)

abbrev pub int_eq : ℤ → ℤ → Bool
int_eq (pos a) (pos b) = a == b
int_eq (negsuc a) (negsuc b) = a == b
int_eq (pos a) (negsuc b) = false
int_eq (negsuc a) (pos b) = false

pub int_eq→≡ : (a b : ℤ) → int_eq a b ≡ true → a ≡ b
int_eq→≡ (pos a) (pos b) e = ap pos (ground arith)
int_eq→≡ (negsuc a) (negsuc b) e = ap negsuc (ground arith)
int_eq→≡ (pos a) (negsuc b) e = cc
int_eq→≡ (negsuc a) (pos b) e = cc

pub int_eq_refl : (a : ℤ) → int_eq a a ≡ true
int_eq_refl (pos a) = ground arith
int_eq_refl (negsuc a) = ground arith
