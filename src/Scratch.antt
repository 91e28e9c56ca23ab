-- ===== src/Scratch.antt =====
-- c/nn/alloc.c and nn_alloc.h: the arena from which a step takes its buffers.
use moty.Base.{
  ℕ, zero, suc, ◌+◌, ◌-◌, ◌*◌, ◌/◌, ◌%◌, ◌^◌, Bool, true, false, not, ◌&&◌, ◌||◌, Option, none,
  some, ◌>>=◌, List, [], ◌∷◌, ltb, leb, ◌==◌, if◌then◌else◌,
}
pub mod Reserve
pub mod Takes
mod Tests

-- `Scratch`: addresses are numbers and NULL is 0, so that `base` is `raw + off` once `raw` is
-- there. `bytes` is what the block at `raw` holds.
pub record Scratch : Type 0 where
  pub raw : ℕ
  pub off : ℕ
  pub cap : ℕ
  pub used : ℕ
  pub bytes : ℕ → ℕ

abbrev pub base : Scratch → ℕ
base s = s.raw + s.off

-- `scr_al`, which `scr_take` writes out: up to the next multiple of 64.
unfoldable pub scr_al : ℕ → ℕ
scr_al bytes = (bytes + 63) / 64 * 64

unfoldable pub scr_reset : Scratch → Scratch
scr_reset s = record s { used = 0 }

-- `scr_free`: no block, no capacity.
unfoldable pub scr_free : Scratch → Scratch
scr_free s = record s { raw = 0; off = 0; cap = 0; used = 0 }

-- `nc < bytes` for the 64 bits of an `int64_t`, which is negative from 2^63 on.
abbrev pub int64_below : ℕ → ℕ → Bool
int64_below nc bytes = leb (2 ^ 63) nc || ltb nc bytes

-- `while (nc < bytes) nc *= 2`, with the rounds left.
unfoldable pub doubled : ℕ → ℕ → ℕ → ℕ
doubled zero nc bytes = nc
doubled (suc fuel) nc bytes =
    let more = doubled fuel (nc * 2 % 2 ^ 64) bytes in if int64_below nc bytes then more else nc

unfoldable pub new_cap : Scratch → ℕ → ℕ
new_cap s bytes = doubled bytes (if ltb 0 s.cap then s.cap else 2 ^ 20) bytes

-- The bytes before the first address of the block that is a multiple of 64.
unfoldable pub offset_of : ℕ → ℕ
offset_of raw = (64 - raw % 64) % 64

-- `memmove` of `n` bytes inside a block, from the offset `from` to the offset `to`.
abbrev pub memmove : (ℕ → ℕ) → ℕ → ℕ → ℕ → ℕ → ℕ
memmove bytes to from n i = if leb to i && ltb i (to + n) then bytes (from + (i - to)) else bytes i

-- The size of the block, which the allocator keeps.
abbrev pub block_size : Scratch → ℕ
block_size s = if ltb 0 s.raw then s.cap + 63 else 0

-- `mrealloc` of a block at an address, of a size, to a size: the new address and what is there.
abbrev pub Realloc : Type 0
Realloc = ℕ → ℕ → ℕ → (ℕ → ℕ) → Option (ℕ × (ℕ → ℕ))

-- The end of `scr_reserve`, with the new block.
unfoldable pub moved : Scratch → ℕ → ℕ × (ℕ → ℕ) → Scratch
moved s nc (nr, bytes) =
    let noff = offset_of nr in
    let live = if ltb s.used s.cap then s.used else s.cap in
    let moves = ltb 0 s.raw && not (noff == s.off) && ltb 0 s.used in
    record {
      raw = nr;
      off = noff;
      cap = nc;
      used = s.used;
      bytes = if moves then memmove bytes noff s.off live else bytes;
    }

-- `scr_reserve`; `none` is the failure for want of memory, which does not return.
unfoldable pub scr_reserve : Realloc → Scratch → ℕ → Option Scratch
scr_reserve mrealloc s bytes =
    if leb bytes s.cap
    then some s
    else (mrealloc s.raw (block_size s) (new_cap s bytes + 63) s.bytes >>= λ block.
        some (moved s (new_cap s bytes) block))

-- `scr_take`: the address of the chunk.
unfoldable pub scr_take : Scratch → ℕ → ℕ × Scratch
scr_take s bytes = (base s + s.used, record s { used = s.used + scr_al bytes })

-- The takes of a phase: the address and the size of each chunk.
unfoldable pub takes : Scratch → List ℕ → List (ℕ × ℕ) × Scratch
takes s [] = ([], s)
takes s (b ∷ bs) =
    let (p, s') = scr_take s b in let (chunks, s'') = takes s' bs in ((p, b) ∷ chunks, s'')
