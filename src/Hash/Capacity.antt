-- ===== src/Hash/Capacity.antt =====
-- The loops that double a capacity up to twice the number of entries, `while (cap < n * 2) cap <<= 1`
-- in c/tok/tok.h and c/io/st.h.
use moty.Base.{
  ℕ, zero, suc, ◌+◌, ◌*◌, ◌%◌, ◌^◌, ◌≤◌, ◌<◌, ◌≡◌, refl, inl, inr, Bool, Option, none, some, ltb,
  ◌==◌, if◌then◌else◌, arith, Bool-cases,
}
use native.Mathlib.Nat.{pow-le-pow_right}
use moty.Hash.Mask.{IsPow2, IsPow2-pos}

-- `x < y` for the 32 bits of two ints, which are negative from 2^31 on.
abbrev pub int_below : ℕ → ℕ → Bool
int_below x y = ltb ((x + 2 ^ 31) % 2 ^ 32) ((y + 2 ^ 31) % 2 ^ 32)

-- The loop, with the rounds left; `none` where they run out.
unfoldable pub grown_cap : ℕ → ℕ → ℕ → Option ℕ
grown_cap zero goal cap = none
grown_cap (suc fuel) goal cap =
    let more = grown_cap fuel goal (cap * 2 % 2 ^ 32) in
    if int_below cap goal then more else some cap

-- After 32 rounds the capacity is 0 and stays 0, so that the loop ends within 33 or not at all.
unfoldable pub capacity : ℕ → Option ℕ
capacity n = grown_cap 33 (n * 2 % 2 ^ 32) 1

abbrev Reaches : ℕ → Option ℕ → Type 0
Reaches goal o = (cap : ℕ) × (o ≡ some cap) × (goal ≤ cap) × IsPow2 cap

below_top : (k goal : ℕ) → k ≤ 30 → 2 ^ k < goal → goal ≤ 2 ^ 30 → k < 30
below_top k goal low less small = elim (Bool-cases (k == 30)) [
  | inl e ↦ let top : k ≡ 30 = ground arith in let q = rw top at less in absurd (omega (arith, q))
  | inr e ↦ ground arith
]

grown_cap-Reaches :
    (fuel goal k : ℕ)
    → goal ≤ 2 ^ 30
    → k ≤ 30
    → 30 < k + fuel
    → Reaches goal (grown_cap fuel goal (2 ^ k))
unfolding grown_cap
grown_cap-Reaches zero goal k small low enough = absurd (omega arith)
grown_cap-Reaches (suc fuel) goal k small low enough =
    let top : 2 ^ k ≤ 2 ^ 30 = pow-le-pow_right (omega arith) low in
    elim (Bool-cases (int_below (2 ^ k) goal)) [
      | inr e ↦ rw e (2 ^ k, refl, ground arith, (k, refl))
      | inl e ↦
          let less : 2 ^ k < goal = ground arith in
          let more : k < 30 = below_top k goal low less small in
          let next : 2 ^ k * 2 % 2 ^ 32 ≡ 2 ^ suc k = omega (arith, top) in
          rw (e, next) (grown_cap-Reaches fuel goal (suc k) small more (omega arith))
    ]

grown_cap-Reaches_one :
    (n goal : ℕ) → goal ≡ n * 2 → n ≤ 2 ^ 29 → Reaches goal (grown_cap 33 goal 1)
grown_cap-Reaches_one n goal e small = from 1 refl
  where
    from : (c : ℕ) → c ≡ 2 ^ 0 → Reaches goal (grown_cap 33 goal c)
    from c q = rw q (grown_cap-Reaches 33 goal 0 (omega (arith, e)) (omega arith) (omega arith))

-- Up to 2^29 entries the loop ends, at a power of 2 that leaves a free slot.
pub capacity_enough :
    (n : ℕ) → n ≤ 2 ^ 29 → (cap : ℕ) × (capacity n ≡ some cap) × (n < cap) × IsPow2 cap
unfolding capacity
capacity_enough n small =
    let (cap, e, reach, pow2) = grown_cap-Reaches_one n (n * 2 % 2 ^ 32) (omega arith) small in
    (cap, e, omega (arith, reach, IsPow2-pos cap pow2), pow2)
