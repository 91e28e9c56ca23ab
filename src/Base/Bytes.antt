-- ===== src/Base/Bytes.antt =====
-- Equality of strings, which are the lists of their bytes without the NUL: `strcmp` against 0.
use Prim.Native.Nat.{ℕ}
use mathlib.Core.Path.{◌≡◌, refl, ap, ◌∙◌}
use mathlib.Core.Bool.{Bool, true, false, ◌&&◌}
use mathlib.Core.List.{List, [], ◌∷◌}
use native.Mathlib.Omega.{arith}
use moty.Base.Tests.{◌==◌}

unfoldable pub bytes_equal : List ℕ → List ℕ → Bool
bytes_equal [] [] = true
bytes_equal [] (b ∷ t) = false
bytes_equal (a ∷ s) [] = false
bytes_equal (a ∷ s) (b ∷ t) = a == b && bytes_equal s t

pub bytes_equal→≡ : (s t : List ℕ) → bytes_equal s t ≡ true → s ≡ t
unfolding bytes_equal
bytes_equal→≡ [] [] e = refl
bytes_equal→≡ [] (b ∷ t) e = absurd (ground arith)
bytes_equal→≡ (a ∷ s) [] e = absurd (ground arith)
bytes_equal→≡ (a ∷ s) (b ∷ t) e =
    let head : a ≡ b = ground arith in
    let tail : bytes_equal s t ≡ true = ground arith in
    ap (λ x. x ∷ s) head ∙ ap (λ t. b ∷ t) (bytes_equal→≡ s t tail)

pub bytes_equal_refl : (s : List ℕ) → bytes_equal s s ≡ true
unfolding bytes_equal
bytes_equal_refl [] = refl
bytes_equal_refl (a ∷ s) = let again = bytes_equal_refl s in ground arith
