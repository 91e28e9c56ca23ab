-- ===== src/Hash/Mask.antt =====
-- The mask `& (cap - 1)` of c/tok/tok.h and c/io/st.h, which is the remainder for a capacity that is a
-- power of 2.
use moty.Base.{ℕ, zero, suc, ◌+◌, ◌-◌, ◌*◌, ◌/◌, ◌%◌, ◌^◌, ◌≤◌, ◌<◌, ◌≡◌, sym, ◌∙◌, ap, arith}
use Prim.Native.Nat.{bit_and, bit_and-bitwise, digits, min}
use native.Mathlib.Nat.{
  mod-lt, mod-eq_of_lt, mod-add-div', mod-one, zero-mod, min-zero, min-eq_left,
  add-mul-mod_self_right,
}

abbrev pub masked : ℕ → ℕ → ℕ
masked h cap = bit_and h (cap - 1)

abbrev pub IsPow2 : ℕ → Type 0
IsPow2 cap = (k : ℕ) × (cap ≡ 2 ^ k)

pow_pos : (k : ℕ) → 0 < 2 ^ k
pow_pos zero = omega arith
pow_pos (suc k) = omega (arith, pow_pos k)

pub IsPow2-pos : (cap : ℕ) → IsPow2 cap → 0 < cap
IsPow2-pos cap (k, e) = rw e (pow_pos k)

-- The digits of a remainder: the lowest, and those of the half.
half_mod : (a p : ℕ) → 0 < p → a / 2 % p * 2 + a % 2 ≡ a % (p * 2)
half_mod a p some_p =
    let q = a / 2 / p in
    let d = a / 2 % p in
    let low : d < p = mod-lt (a / 2) some_p in
    let small : d * 2 + a % 2 < p * 2 = omega (arith, low) in
    let parts : a ≡ d * 2 + a % 2 + q * (p * 2) =
      (let e = mod-add-div' (a / 2) p in let f = mod-add-div' a 2 in omega (arith, e, f)) in
    sym (
      ap (λ x. x % (p * 2)) parts
      ∙ add-mul-mod_self_right (d * 2 + a % 2) q (p * 2)
      ∙ mod-eq_of_lt small)

mask_half : (k : ℕ) → (2 ^ suc k - 1) / 2 ≡ 2 ^ k - 1
mask_half k = omega (arith, pow_pos k)

mask_low : (k : ℕ) → (2 ^ suc k - 1) % 2 ≡ 1
mask_low k = omega (arith, pow_pos k)

-- With as many digits to go as the number, or more, the mask leaves the remainder.
digits_mask : (n a k : ℕ) → a ≤ n → digits (λ b. zero) min n a (2 ^ k - 1) ≡ a % 2 ^ k
digits_mask zero zero k le = sym (zero-mod (2 ^ k))
digits_mask zero (suc a) k le = absurd (omega arith)
digits_mask (suc n) zero k le = sym (zero-mod (2 ^ k))
digits_mask (suc n) (suc a) zero le =
    let rest = digits_mask n (suc a / 2) zero (omega arith) in
    let gone = mod-one (suc a / 2) in rw (min-zero (suc a % 2), rest, gone) (sym (mod-one (suc a)))
digits_mask (suc n) (suc a) (suc k) le =
    let rest = digits_mask n (suc a / 2) k (omega arith) in
    let low : suc a % 2 < 2 = omega arith in
    rw (mask_half k, mask_low k, min-eq_left {n = suc a % 2} {m = 1} (omega (arith, low)), rest)
      (half_mod (suc a) (2 ^ k) (pow_pos k) ∙ ap (λ p. suc a % p) (omega arith))

pub masked-mod : (h cap : ℕ) → IsPow2 cap → masked h cap ≡ h % cap
masked-mod h cap (k, e) = rw (e, bit_and-bitwise) (digits_mask h h k (omega arith))

pub masked-lt : (h cap : ℕ) → IsPow2 cap → masked h cap < cap
masked-lt h cap p = rw (masked-mod h cap p) (mod-lt h (IsPow2-pos cap p))
