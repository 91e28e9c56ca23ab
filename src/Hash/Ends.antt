-- ===== src/Hash/Ends.antt =====
-- In a table with a free slot the loops of c/tok/tok.h and c/io/st.h end.
use moty.Base.{
  ℕ, zero, suc, ◌+◌, ◌-◌, ◌∙◌, ◌≤◌, ◌<◌, ◌≡◌, ◌≢◌, inl, inr, Bool, Option, none, some, List, length,
  get_elem?, leb, arith, Bool-cases, Option-cases, get_elem?_total, ◌==◌,
}
use native.Mathlib.Nat.{mod-eq_of_lt, mod_self}
use moty.Hash.Mask.{masked, IsPow2, masked-mod}
use moty.Hash.Probe.{full, next_slot, probe_at, probe}

next_slot_below : (n h : ℕ) → IsPow2 n → suc h < n → masked (suc h) n ≡ suc h
next_slot_below n h p lt = masked-mod (suc h) n p ∙ mod-eq_of_lt lt

next_slot_last : (n h : ℕ) → IsPow2 n → suc h ≡ n → masked (suc h) n ≡ 0
next_slot_last n h p e = masked-mod (suc h) n p ∙ rw e (mod_self n)

module _ {A : Type 0} (fits : A → Bool) (table : List (Option A)) (j : ℕ)
    (pow2 : IsPow2 (length table)) where
  -- One slot further, unless the search ends here.
  one_slot :
      (fuel h : ℕ)
      → get_elem? table j ≡ some none
      → h < length table
      → (h ≢ j → probe fits table fuel (next_slot table h) ≢ full)
      → probe fits table (suc fuel) h ≢ full
  unfolding probe probe_at
  one_slot fuel h gap lt rest = elim (Option-cases (get_elem? table h)) [
    | inl out ↦ absurd (let there = (get_elem?_total table h lt).1 in ground arith)
    | inr (none, at) ↦ rw (at, probe_at) (λ e. absurd (ground arith))
    | inr (some a, at) ↦ elim (Bool-cases (fits a)) [
      | inl f ↦ rw (at, probe_at, f) (λ e. absurd (ground arith))
      | inr f ↦ rw (at, probe_at, f) (rest (λ same. absurd (let x = rw same at at in ground arith)))
    ]
  ]

  ahead :
      (fuel h : ℕ)
      → get_elem? table j ≡ some none
      → j < length table
      → h ≤ j
      → j - h < fuel
      → probe fits table fuel h ≢ full
  ahead zero h gap lt le enough = absurd (omega arith)
  ahead (suc fuel) h gap lt le enough = one_slot fuel h gap (omega arith) (λ ne.
      let near : suc h ≤ j = ground arith in
      rw (next_slot_below (length table) h pow2 (omega arith))
        (ahead fuel (suc h) gap lt near (omega arith)))

  around :
      (fuel h : ℕ)
      → get_elem? table j ≡ some none
      → j < length table
      → h < length table
      → j < h
      → j + length table - h < fuel
      → probe fits table fuel h ≢ full
  around zero h gap lt below le enough = absurd (omega arith)
  around (suc fuel) h gap lt below le enough = one_slot fuel h gap below (λ ne.
      elim (Bool-cases (suc h == length table)) [
        | inl e ↦
            rw (next_slot_last (length table) h pow2 (ground arith))
              (ahead fuel 0 gap lt (omega arith) (ground arith))
        | inr e ↦
            let near : suc h < length table = ground arith in
            rw (next_slot_below (length table) h pow2 near)
              (around fuel (suc h) gap lt near (omega arith) (omega arith))
      ])

  -- From every slot, as many steps as there are slots reach the free slot.
  pub probe_ends :
      (h : ℕ)
      → get_elem? table j ≡ some none
      → j < length table
      → h < length table
      → probe fits table (length table) h ≢ full
  probe_ends h gap lt below = elim (Bool-cases (leb h j)) [
    | inl e ↦ ahead (length table) h gap lt (ground arith) (omega arith)
    | inr e ↦ around (length table) h gap lt below (ground arith) (ground arith)
  ]
