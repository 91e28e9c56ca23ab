-- ===== src/Scratch/Takes.antt =====
-- The chunks of a phase lie in the arena, aligned and apart.
use moty.Base.{ℕ, ◌+◌, ◌%◌, ◌<◌, ◌≤◌, ◌≡◌, ap, ◌∙◌, List, [], ◌∷◌, arith}
use moty.Scratch.{Scratch, base, scr_al, scr_take, takes}

-- An arena: a block whose base is a multiple of 64, or no block and no capacity.
pub record IsArena (s : Scratch) : Type 0 where
  pub aligned : base s % 64 ≡ 0
  pub near : s.off < 64
  pub empty : s.raw ≡ 0 → s.cap ≡ 0

-- The bytes that a phase takes.
abbrev pub total : List ℕ → ℕ
total [] = 0
total (b ∷ bs) = scr_al b + total bs

-- Chunks one after the other between two addresses, each at a multiple of 64.
abbrev pub IsLaid : ℕ → ℕ → List (ℕ × ℕ) → Type 0
IsLaid low high [] = low ≤ high
IsLaid low high (c ∷ chunks) = (c.0 % 64 ≡ 0) × (low ≤ c.0) × IsLaid (c.0 + c.1) high chunks

scr_al_bounds : (b : ℕ) → (b ≤ scr_al b) × (scr_al b % 64 ≡ 0)
unfolding scr_al
scr_al_bounds b = (omega arith, omega arith)

IsLaid-lower :
    (low low' high : ℕ) (chunks : List (ℕ × ℕ))
    → low' ≤ low
    → IsLaid low high chunks
    → IsLaid low' high chunks
IsLaid-lower low low' high [] le h = omega (arith, h)
IsLaid-lower low low' high (c ∷ chunks) le h = (h.0, omega (arith, h.1), h.2)

-- When the arena has room for the rounded sizes of a phase, its chunks lie between the first free
-- byte and the end of the arena, one after the other and none over another, each at a multiple of
-- 64; the arena keeps its block and has used as much more.
pub takes-IsLaid :
    (s : Scratch) (bs : List ℕ)
    → IsArena s
    → s.used % 64 ≡ 0
    → s.used + total bs ≤ s.cap
    → IsLaid (base s + s.used) (base s + s.cap) (takes s bs).0
      × ((takes s bs).1 ≡ record s { used = s.used + total bs })
unfolding takes scr_take
takes-IsLaid s [] a even fits =
    let none_more : s.used ≡ s.used + 0 = omega arith in
    (omega (arith, fits), ap (λ u. record s { used = u }) none_more)
takes-IsLaid s (b ∷ bs) a even fits =
    let (up, even') = scr_al_bounds b in
    let assoc : s.used + scr_al b + total bs ≡ s.used + (scr_al b + total bs) = omega arith in
    let after : Scratch = record s { used = s.used + scr_al b } in
    let (laid, q) =
      takes-IsLaid after bs (record { aligned = a.aligned; near = a.near; empty = a.empty })
        (omega arith) (omega arith) in
    (
      (omega (arith, a.aligned), omega arith, IsLaid-lower _ _ _ _ (omega arith) laid),
      q ∙ ap (λ u. record s { used = u }) assoc,
    )
