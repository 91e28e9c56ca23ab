-- ===== src/Tok/Utf8.antt =====
-- `u8_next` and `u8_put`: one code point of UTF-8. The bits that the code joins by `|` are apart, so
-- that it is a sum, and a mask of low ones is a remainder.
use moty.Base.{
  ℕ, zero, suc, ◌+◌, ◌*◌, ◌/◌, ◌%◌, ◌≤◌, ◌<◌, ◌≡◌, refl, true, false, ◌&&◌, List, [], ◌∷◌, ◌++◌,
  length, ltb, ◌==◌, if◌then◌else◌, arith, ap, Bool-cases, inl, inr,
}

-- The byte at an offset that the guard has shown to be there.
abbrev pub at : List ℕ → ℕ → ℕ
at [] i = 0
at (b ∷ s) zero = b
at (b ∷ s) (suc i) = at s i

-- `u8_next` at the start of the rest of a text: the code point, and how many bytes it takes.
unfoldable pub u8_next : List ℕ → ℕ × ℕ
u8_next s =
    let c = at s 0 in
    if ltb c 0x80
    then (c, 1)
    else if c / 32 == 6 && ltb 1 (length s)
    then (c % 32 * 64 + at s 1 % 64, 2)
    else if c / 16 == 14 && ltb 2 (length s)
    then (c % 16 * 4096 + at s 1 % 64 * 64 + at s 2 % 64, 3)
    else if c / 8 == 30 && ltb 3 (length s)
    then (c % 8 * 262144 + at s 1 % 64 * 4096 + at s 2 % 64 * 64 + at s 3 % 64, 4)
    else (c, 1)

-- `u8_put`, for a code point below 2^21.
unfoldable pub u8_put : ℕ → List ℕ
u8_put cp =
    if ltb cp 0x80
    then cp ∷ []
    else if ltb cp 0x800
    then (192 + cp / 64) ∷ (128 + cp % 64) ∷ []
    else if ltb cp 0x10000
    then (224 + cp / 4096) ∷ (128 + cp / 64 % 64) ∷ (128 + cp % 64) ∷ []
    else (240 + cp / 262144) ∷ (128 + cp / 4096 % 64) ∷ (128 + cp / 64 % 64) ∷ (128 + cp % 64) ∷ []

-- A code point takes one byte at least, and no more than there are.
pub u8_next_bounds :
    (b : ℕ) (s : List ℕ) → (0 < (u8_next (b ∷ s)).1) × ((u8_next (b ∷ s)).1 ≤ length (b ∷ s))
unfolding u8_next
u8_next_bounds b s = ground arith

abbrev IsForm : ℕ → ℕ → ℕ × ℕ → Type 0
IsForm cp n r = r ≡ (cp, n)

one_byte : (c cp : ℕ) (s : List ℕ) → c < 0x80 → c ≡ cp → IsForm cp 1 (u8_next (c ∷ s))
unfolding u8_next
one_byte c cp s lt e = let small : ltb c 0x80 ≡ true = ground arith in rw small (ap (λ n. (n, 1)) e)

two_bytes :
    (c d cp : ℕ) (s : List ℕ)
    → c / 32 ≡ 6
    → c % 32 * 64 + d % 64 ≡ cp
    → IsForm cp 2 (u8_next (c ∷ d ∷ s))
unfolding u8_next
two_bytes c d cp s lead e =
    let large : ltb c 0x80 ≡ false = ground arith in
    let two : (c / 32 == 6 && ltb 1 (length (c ∷ d ∷ s))) ≡ true = ground arith in
    rw (large, two) (ap (λ n. (n, 2)) e)

three_bytes :
    (c d f cp : ℕ) (s : List ℕ)
    → c / 16 ≡ 14
    → c % 16 * 4096 + d % 64 * 64 + f % 64 ≡ cp
    → IsForm cp 3 (u8_next (c ∷ d ∷ f ∷ s))
unfolding u8_next
three_bytes c d f cp s lead e =
    let large : ltb c 0x80 ≡ false = ground arith in
    let not_two : (c / 32 == 6 && ltb 1 (length (c ∷ d ∷ f ∷ s))) ≡ false = ground arith in
    let three : (c / 16 == 14 && ltb 2 (length (c ∷ d ∷ f ∷ s))) ≡ true = ground arith in
    rw (large, not_two, three) (ap (λ n. (n, 3)) e)

four_bytes :
    (c d f h cp : ℕ) (s : List ℕ)
    → c / 8 ≡ 30
    → c % 8 * 262144 + d % 64 * 4096 + f % 64 * 64 + h % 64 ≡ cp
    → IsForm cp 4 (u8_next (c ∷ d ∷ f ∷ h ∷ s))
unfolding u8_next
four_bytes c d f h cp s lead e =
    let large : ltb c 0x80 ≡ false = ground arith in
    let not_two : (c / 32 == 6 && ltb 1 (length (c ∷ d ∷ f ∷ h ∷ s))) ≡ false = ground arith in
    let not_three : (c / 16 == 14 && ltb 2 (length (c ∷ d ∷ f ∷ h ∷ s))) ≡ false = ground arith in
    let four : (c / 8 == 30 && ltb 3 (length (c ∷ d ∷ f ∷ h ∷ s))) ≡ true = ground arith in
    rw (large, not_two, not_three, four) (ap (λ n. (n, 4)) e)

-- The code points below 2^21 come back from what `u8_put` writes, whatever follows.
pub u8_next-u8_put :
    (cp : ℕ) (s : List ℕ) → cp < 0x200000 → u8_next (u8_put cp ++ s) ≡ (cp, length (u8_put cp))
unfolding u8_put
u8_next-u8_put cp s lt = elim (Bool-cases (ltb cp 0x80)) [
  | inl one ↦ rw one (one_byte cp cp s (ground arith) refl)
  | inr one ↦ elim (Bool-cases (ltb cp 0x800)) [
    | inl two ↦ rw (one, two) (two_bytes _ _ cp s (ground arith) (ground arith))
    | inr two ↦ elim (Bool-cases (ltb cp 0x10000)) [
      | inl three ↦ rw (one, two, three) (three_bytes _ _ _ cp s (ground arith) (ground arith))
      | inr three ↦ rw (one, two, three) (four_bytes _ _ _ _ cp s (ground arith) (ground arith))
    ]
  ]
]
