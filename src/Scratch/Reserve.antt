-- ===== src/Scratch/Reserve.antt =====
-- `scr_reserve` makes room and keeps what the arena holds.
use moty.Base.{
  ℕ, zero, suc, ◌+◌, ◌-◌, ◌*◌, ◌%◌, ◌^◌, ◌<◌, ◌≤◌, ◌≡◌, refl, ◌⊎◌, inl, inr, none, some, arith, ltb,
  leb, ◌==◌, ◌&&◌, true, false, Bool-cases, Option-cases, if◌then◌else◌,
}
use moty.Scratch.{
  Scratch, int64_below, doubled, new_cap, offset_of, block_size, Realloc, moved, scr_reserve,
}
use moty.Scratch.Takes.{IsArena}

-- What `mrealloc` does when it returns a block: its address is not NULL, and it holds the bytes of
-- the old one.
pub record IsRealloc (mrealloc : Realloc) : Type 0 where
  pub keeps :
      (raw old n : ℕ) (bytes : ℕ → ℕ) (r : ℕ × (ℕ → ℕ))
      → mrealloc raw old n bytes ≡ some r
      → (0 < r.0) × ((i : ℕ) → i < old → i < n → r.1 i ≡ bytes i)

-- As many rounds as bytes are enough, and up to 2^62 bytes no round overflows.
doubled_enough :
    (fuel nc bytes : ℕ)
    → 0 < nc
    → nc < 2 ^ 63
    → bytes ≤ 2 ^ 62
    → bytes ≤ nc + fuel
    → (bytes ≤ doubled fuel nc bytes) × (nc ≤ doubled fuel nc bytes)
unfolding doubled
doubled_enough zero nc bytes pos top small le = (omega arith, omega arith)
doubled_enough (suc fuel) nc bytes pos top small le = elim (Bool-cases (int64_below nc bytes)) [
  | inr e ↦ rw e (ground arith, omega arith)
  | inl e ↦
      let lt : nc < bytes = ground arith in
      let exact : nc * 2 % 2 ^ 64 ≡ nc * 2 = omega arith in
      let (room, more) =
        doubled_enough fuel (nc * 2) bytes (omega arith) (omega arith) small (omega arith) in
      rw (e, exact) (room, omega arith)
]

new_cap_bounds :
    (s : Scratch) (bytes : ℕ)
    → leb bytes s.cap ≡ false
    → bytes ≤ 2 ^ 62
    → (bytes ≤ new_cap s bytes) × (s.cap ≤ new_cap s bytes)
unfolding new_cap
new_cap_bounds s bytes large small = elim (Bool-cases (ltb 0 s.cap)) [
  | inl e ↦
      let lt : s.cap < bytes = ground arith in
      rw e (doubled_enough bytes s.cap bytes (ground arith) (omega arith) small (omega arith))
  | inr e ↦
      let none_yet : s.cap ≡ 0 = ground arith in
      let (room, more) =
        doubled_enough bytes (2 ^ 20) bytes (omega arith) (omega arith) small (omega arith) in
      rw e (room, omega arith)
]

offset_of_lem : (raw : ℕ) → ((raw + offset_of raw) % 64 ≡ 0) × (offset_of raw < 64)
unfolding offset_of
offset_of_lem raw = (omega arith, omega arith)

-- The arena with room for `bytes`, and with what was in use.
pub record IsReserved (s : Scratch) (bytes : ℕ) (s' : Scratch) : Type 0 where
  pub arena : IsArena s'
  pub room : bytes ≤ s'.cap
  pub used : s'.used ≡ s.used
  pub kept : (i : ℕ) → i < s.used → i < s.cap → s'.bytes (s'.off + i) ≡ s.bytes (s.off + i)

has_block : (s : Scratch) → IsArena s → 0 < s.cap → ltb 0 s.raw ≡ true
has_block s a pos = elim (Bool-cases (ltb 0 s.raw)) [
  | inl e ↦ e
  | inr e ↦ absurd (let q = a.empty (null s.raw e) in omega arith)
]
  where
    null : (n : ℕ) → ltb 0 n ≡ false → n ≡ 0
    null n e = ground arith

inside_move :
    (to i used cap : ℕ)
    → i < used
    → i < cap
    → (leb to (to + i) && ltb (to + i) (to + (if ltb used cap then used else cap))) ≡ true
inside_move to i used cap lt lt' = ground arith

moved-kept :
    (s : Scratch) (nc nr : ℕ) (bytes : ℕ → ℕ)
    → IsArena s
    → s.cap ≤ nc
    → ((i : ℕ) → i < block_size s → i < nc + 63 → bytes i ≡ s.bytes i)
    → (i : ℕ) → i < s.used
    → i < s.cap
    → (moved s nc (nr, bytes)).bytes (offset_of nr + i) ≡ s.bytes (s.off + i)
unfolding moved
moved-kept s nc nr bytes a le same i lt lt' =
    let there : ltb 0 s.raw ≡ true = has_block s a (omega arith) in
    let busy : ltb 0 s.used ≡ true = ground arith in
    let near = a.near in
    let old : bytes (s.off + i) ≡ s.bytes (s.off + i) =
      same (s.off + i) (rw there (omega arith)) (omega arith) in
    elim (Bool-cases (offset_of nr == s.off)) [
      | inl e ↦ let q : offset_of nr ≡ s.off = ground arith in rw (there, e) (rw q old)
      | inr e ↦
          let back : s.off + (offset_of nr + i - offset_of nr) ≡ s.off + i = omega arith in
          rw (there, busy, e, inside_move (offset_of nr) i s.used s.cap lt lt', back) old
    ]

new_arena :
    (s : Scratch) (bytes nc nr : ℕ) (now : ℕ → ℕ)
    → 0 < nr
    → bytes ≤ nc
    → ((i : ℕ)
        → i < s.used
        → i < s.cap
        → (moved s nc (nr, now)).bytes (offset_of nr + i) ≡ s.bytes (s.off + i))
    → IsReserved s bytes (moved s nc (nr, now))
unfolding moved
new_arena s bytes nc nr now pos room kept = record {
  arena = record {
    aligned = (offset_of_lem nr).0;
    near = (offset_of_lem nr).1;
    empty = λ z. absurd (omega (arith, z));
  };
  room = room;
  used = refl;
  kept = kept;
}

-- `scr_reserve` of at most 2^62 bytes on an arena either fails because `mrealloc` returned no block,
-- or gives an arena with room for `bytes`, in which the bytes in use are those of before.
pub scr_reserve-IsReserved :
    (mrealloc : Realloc)
    → IsRealloc mrealloc
    → (s : Scratch) (bytes : ℕ) → IsArena s
    → bytes ≤ 2 ^ 62
    → (mrealloc s.raw (block_size s) (new_cap s bytes + 63) s.bytes ≡ none)
      ⊎ ((s' : Scratch) × (scr_reserve mrealloc s bytes ≡ some s') × IsReserved s bytes s')
unfolding scr_reserve
scr_reserve-IsReserved mrealloc re s bytes a small = elim (Bool-cases (leb bytes s.cap)) [
  | inl fits ↦ inr (
    s,
    rw fits refl,
    record { arena = a; room = ground arith; used = refl; kept = λ i lt lt'. refl },
  )
  | inr large ↦ elim (Option-cases (mrealloc s.raw (block_size s) (new_cap s bytes + 63) s.bytes)) [
    | inl e ↦ inl e
    | inr ((nr, now), e) ↦
        let (pos, same) = re.keeps _ _ _ _ (nr, now) e in
        let (room, grown) = new_cap_bounds s bytes large small in
        inr (
          moved s (new_cap s bytes) (nr, now),
          rw (large, e) refl,
          new_arena s bytes (new_cap s bytes) nr now pos room
              (moved-kept s (new_cap s bytes) nr now a grown same),
        )
  ]
]
