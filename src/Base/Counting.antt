-- ===== src/Base/Counting.antt =====
-- A list of distinct numbers below a bound is no longer than the bound.
use Prim.Native.Nat.{ℕ, zero, suc, ◌≤◌, ◌<◌}
use mathlib.Core.Path.{◌≡◌, refl, ap}
use mathlib.Core.Logic.{◌≢◌, inl, inr}
use mathlib.Core.List.{List, [], ◌∷◌}
use native.Mathlib.Omega.{arith}
use moty.Base.Tests.{◌==◌, if◌then◌else◌, Bool-cases}
use moty.Base.Lists.{length, All}

abbrev pub Distinct {ℓ} : {A : Type ℓ} → List A → Type ℓ
Distinct [] = Unit
Distinct (x ∷ xs) = All (λ y. y ≢ x) xs × Distinct xs

abbrev without : ℕ → List ℕ → List ℕ
without n [] = []
without n (x ∷ xs) = if x == n then without n xs else x ∷ without n xs

All-without : (P : ℕ → Type 0) (n : ℕ) (xs : List ℕ) → All P xs → All P (without n xs)
All-without P n [] h = tt
All-without P n (x ∷ xs) h = elim (Bool-cases (x == n)) [
  | inl e ↦ rw e (All-without P n xs h.1)
  | inr e ↦ rw e (h.0, All-without P n xs h.1)
]

without-below : (n : ℕ) (xs : List ℕ) → All (λ x. x < suc n) xs → All (λ x. x < n) (without n xs)
without-below n [] h = tt
without-below n (x ∷ xs) h = elim (Bool-cases (x == n)) [
  | inl e ↦ rw e (without-below n xs h.1)
  | inr e ↦ rw e (ground (arith, h.0), without-below n xs h.1)
]

Distinct-without : (n : ℕ) (xs : List ℕ) → Distinct xs → Distinct (without n xs)
Distinct-without n [] d = tt
Distinct-without n (x ∷ xs) d = elim (Bool-cases (x == n)) [
  | inl e ↦ rw e (Distinct-without n xs d.1)
  | inr e ↦ rw e (All-without (λ y. y ≢ x) n xs d.0, Distinct-without n xs d.1)
]

length-without_ne : (n : ℕ) (xs : List ℕ) → All (λ y. y ≢ n) xs → length (without n xs) ≡ length xs
length-without_ne n [] h = refl
length-without_ne n (x ∷ xs) h = elim (Bool-cases (x == n)) [
  | inl e ↦ absurd (h.0 (ground arith))
  | inr e ↦ rw e (ap suc (length-without_ne n xs h.1))
]

length-without : (n : ℕ) (xs : List ℕ) → Distinct xs → length xs ≤ suc (length (without n xs))
length-without n [] d = omega arith
length-without n (x ∷ xs) d = elim (Bool-cases (x == n)) [
  | inl e ↦
      let same : x ≡ n = ground arith in
      let others = rw same at (d.0) in rw e (omega (arith, length-without_ne n xs others))
  | inr e ↦ rw e (omega (arith, length-without n xs d.1))
]

pub length-Distinct : (n : ℕ) (xs : List ℕ) → All (λ x. x < n) xs → Distinct xs → length xs ≤ n
length-Distinct zero [] h d = omega arith
length-Distinct zero (x ∷ xs) h d = absurd (omega (arith, h.0))
length-Distinct (suc n) xs h d =
    let rest = length-Distinct n (without n xs) (without-below n xs h) (Distinct-without n xs d) in
    omega (arith, rest, length-without n xs d)
