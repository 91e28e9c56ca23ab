-- ===== src/Gguf/Values.antt =====
-- `gg_read_val` of c/io/gguf.h stays in its buffer, and what it reads lies there.
use moty.Base.{
  ℕ, zero, suc, ◌+◌, ◌*◌, ◌^◌, ◌≤◌, ◌≡◌, refl, inl, inr, Bool, true, false, not, Option, none, some,
  length, ltb, ◌==◌, if◌then◌else◌, ℤ, pos, negsuc, arith, Bool-cases, if_cases,
}
use mathlib.Core.Path.{subst}
use moty.Gguf.Cursor.{
  Gcur, lacks, as_failed, gc_u, gc_bytes, signed, gc_str, gg_esz, Gval, g_int, g_str, g_unset,
  skip_strs, arr_data, arr_of, read_arr, read_float, gg_read_val,
}
use moty.Gguf.Within.{
  IsAfter, PointsWithin, InBuffer, StrInside, stays, marks, moves, goes_on, still_in, gc_u-IsAfter,
  gc_str-StrInside,
}

-- What a read comes to.
pub record ReadWithin (c : Gcur) (r : Gval × Gcur) : Type 0 where
  pub moves_on : IsAfter c r.1
  pub points : PointsWithin (length c.p) (r.1).fail r.0

not-true : (b : Bool) → not b ≡ true → b ≡ false
not-true true e = absurd (ground arith)
not-true false e = refl

not_both : (b : Bool) → not b ≡ false → b ≡ false → ⊥
not_both true e f = ground arith
not_both false e f = ground arith

skip_strs-IsAfter : (k : ℕ) (c : Gcur) → InBuffer c → IsAfter c (skip_strs k c)
skip_strs-IsAfter zero c h = stays c h
skip_strs-IsAfter (suc k) c h =
    if_cases (IsAfter c) c.fail _ _ (λ e. stays c h)
      (λ e.
        let first = (gc_str-StrInside c h).0 in
        goes_on c _ _ first (skip_strs-IsAfter k (gc_str c).1 (still_in c _ first)))

-- The bytes of an array: where the cursor goes, and how far if its elements have one size.
abbrev ArrWithin : ℕ → ℕ → Gcur → Gcur → Type 0
ArrWithin at an c c' =
    IsAfter c c' × (c'.fail ≡ false → (gg_esz at == 0) ≡ false → c'.off ≡ c.off + an * gg_esz at)

sized :
    (at an : ℕ) (c : Gcur)
    → InBuffer c
    → (gg_esz at == 0) ≡ false
    → ArrWithin at an c (gc_bytes c (an * gg_esz at)).1
sized at an c h fixed = elim (Bool-cases (lacks c (an * gg_esz at))) [
  | inl e ↦ rw e (marks c h, λ f. absurd (ground arith))
  | inr e ↦ rw e (moves c (an * gg_esz at) e, λ f g. refl)
]

arr_data-ArrWithin : (at an : ℕ) (c : Gcur) → InBuffer c → ArrWithin at an c (arr_data at an c)
arr_data-ArrWithin at an c h =
    if_cases (ArrWithin at an c) (not (gg_esz at == 0)) _ _
      (λ e. sized at an c h (not-true (gg_esz at == 0) e))
      (λ e.
        if_cases (ArrWithin at an c) (at == 8) _ _
          (λ f. (skip_strs-IsAfter an c h, λ g fixed. absurd (not_both (gg_esz at == 0) e fixed)))
          (λ f. (marks c h, λ g. absurd (ground arith))))

unset_read : (c : Gcur) → InBuffer c → ReadWithin c (g_unset, as_failed c)
unset_read c h = record { moves_on = marks c h; points = tt }

arr_of-ReadWithin : (at : ℕ) (an : ℤ) (c : Gcur) → InBuffer c → ReadWithin c (arr_of at an c)
arr_of-ReadWithin at (negsuc an) c h = unset_read c h
arr_of-ReadWithin at (pos an) c h =
    if_cases (ReadWithin c) (ltb (2 ^ 31) an) _ _ (λ e. unset_read c h)
      (λ e.
        let (next, far) = arr_data-ArrWithin at an c h in
        record { moves_on = next; points = (next.onward, next.within, far) })

module _ (c : Gcur) where
  -- A value read behind other reads.
  later : (d : Gcur) (r : Gval × Gcur) → IsAfter c d → ReadWithin d r → ReadWithin c r
  later d r h k = record {
    moves_on = goes_on c d r.1 h k.moves_on;
    points = subst (λ p. PointsWithin (length p) (r.1).fail r.0) h.same k.points;
  }

  read_arr-ReadWithin : InBuffer c → ReadWithin c (read_arr c)
  read_arr-ReadWithin h =
      let one = gc_u-IsAfter c 4 h in
      let d = (gc_u c 4).1 in
      let two = gc_u-IsAfter d 8 (still_in c d one) in
      let e = (gc_u d 8).1 in
      let both_read = goes_on c d e one two in
      later e _ both_read
        (arr_of-ReadWithin (gc_u c 4).0 (signed 64 (gc_u d 8).0) e (still_in c e both_read))

  str_case : (r : Option (ℕ × ℕ) × Gcur) → StrInside c r → ReadWithin c (g_str r.0, r.1)
  str_case (none, d) h = record { moves_on = h.0; points = tt }
  str_case (some (start, l), d) h = record { moves_on = h.0; points = h.1 }

  int_read : (sz : ℕ) (v : ℤ) → InBuffer c → ReadWithin c (g_int v, (gc_u c sz).1)
  int_read sz v h = record { moves_on = gc_u-IsAfter c sz h; points = tt }

  float_read : (sz : ℕ) → InBuffer c → ReadWithin c (read_float c sz)
  float_read sz h = record { moves_on = gc_u-IsAfter c sz h; points = tt }

  either_way :
      (t : Bool) {x y : Gval × Gcur}
      → ReadWithin c x
      → ReadWithin c y
      → ReadWithin c (if t then x else y)
  either_way true h k = h
  either_way false h k = k

  -- From within its buffer, a read of a value of any type ends within it and no earlier, and a
  -- failure stays. A string that is read lies in the buffer, and so do the bytes of an array, which
  -- are as many as its elements take, if these have a fixed size and no read failed.
  pub gg_read_val-ReadWithin : (t : ℕ) → c.off ≤ length c.p → ReadWithin c (gg_read_val c t)
  unfolding gg_read_val
  gg_read_val-ReadWithin t h = either_way (t == 0) (int_read 1 _ h) (
      either_way (t == 1) (int_read 1 _ h) (
        either_way (t == 2) (int_read 2 _ h) (
          either_way (t == 3) (int_read 2 _ h) (
            either_way (t == 4) (int_read 4 _ h) (
              either_way (t == 5) (int_read 4 _ h) (
                either_way (t == 10) (int_read 8 _ h) (
                  either_way (t == 11) (int_read 8 _ h) (
                    either_way (t == 7) (int_read 1 _ h) (
                      either_way (t == 6) (float_read 4 h) (
                        either_way (t == 12) (float_read 8 h) (
                          either_way (t == 8) (str_case (gc_str c) (gc_str-StrInside c h)) (
                            either_way (t == 9) (read_arr-ReadWithin h) (unset_read c h)))))))))))))
