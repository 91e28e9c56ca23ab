-- ===== src/Scratch/Tests.antt =====
-- An arena over an allocator that places every block at the address 1000.
use moty.Base.{ℕ, ◌≤◌, ◌<◌, ◌+◌, ◌≡◌, ◌⊎◌, refl, Option, none, some, List, [], ◌∷◌, arith}
use moty.Scratch.{
  Scratch, scr_al, scr_reset, scr_free, doubled, new_cap, offset_of, block_size, Realloc, moved,
  scr_reserve, scr_take, takes,
}
use moty.Scratch.Takes.{IsArena, IsLaid, total, takes-IsLaid}
use moty.Scratch.Reserve.{IsRealloc, IsReserved, scr_reserve-IsReserved}

arena : Unit {0}
unfolding scr_al scr_reset scr_free doubled new_cap offset_of moved scr_reserve scr_take takes
arena = tt

abbrev at_1000 : Realloc
at_1000 raw old n bytes = some (1000, bytes)

at_1000-IsRealloc : IsRealloc at_1000
at_1000-IsRealloc = record {
  keeps = λ raw old n bytes r e.
      let q : (1000, bytes) ≡ r = ground (arith, e) in
      let pos : 0 < r.0 = rw (← q) (omega arith) in (pos, λ i lt lt'. rw (← q) refl);
}

-- An arena of 128 bytes in a block at 900, 70 of them in use.
abbrev small : Scratch
small = record { raw = 900; off = 60; cap = 128; used = 70; bytes = λ i. i }

small-IsArena : IsArena small
small-IsArena = record { aligned = refl; near = omega arith; empty = λ e. absurd (omega arith) }

abbrev shape : Option Scratch → Option (List ℕ)
shape none = none
shape (some s) = some (s.raw ∷ s.off ∷ s.cap ∷ s.used ∷ s.bytes 24 ∷ s.bytes 93 ∷ s.bytes 94 ∷ [])

-- The base moves from the offset 60 to the offset 24, and 70 bytes with it.
grown : shape (scr_reserve at_1000 small 500) ≡ some (1000 ∷ 24 ∷ 512 ∷ 70 ∷ 60 ∷ 129 ∷ 94 ∷ [])
unfolding arena
grown = refl

freed : shape (some (scr_free small)) ≡ some (0 ∷ 0 ∷ 0 ∷ 0 ∷ 24 ∷ 93 ∷ 94 ∷ [])
unfolding arena
freed = refl

chunks : (takes (scr_reset small) (10 ∷ 64 ∷ [])).0 ≡ (960, 10) ∷ (1024, 64) ∷ []
unfolding arena
chunks = refl

scr_reserve-IsReserved_example :
    (at_1000 900 (block_size small) (new_cap small 500 + 63) small.bytes ≡ none)
    ⊎ ((s' : Scratch) × (scr_reserve at_1000 small 500 ≡ some s') × IsReserved small 500 s')
scr_reserve-IsReserved_example =
    scr_reserve-IsReserved at_1000 at_1000-IsRealloc small 500 small-IsArena (omega arith)

abbrev reset : Scratch
reset = record { raw = 900; off = 60; cap = 128; used = 0; bytes = λ i. i }

reset-IsArena : IsArena reset
reset-IsArena = record { aligned = refl; near = omega arith; empty = λ e. absurd (omega arith) }

reset_fits : 0 + total (10 ∷ 64 ∷ []) ≤ 128
unfolding arena
reset_fits = omega arith

takes-IsLaid_example :
    IsLaid (960 + 0) (960 + 128) (takes reset (10 ∷ 64 ∷ [])).0
    × ((takes reset (10 ∷ 64 ∷ [])).1 ≡ record reset { used = 0 + total (10 ∷ 64 ∷ []) })
takes-IsLaid_example = takes-IsLaid reset (10 ∷ 64 ∷ []) reset-IsArena refl reset_fits
