-- ===== src/Gguf/Within.antt =====
-- What the cursor of c/io/gguf.h reads lies in its buffer.
use moty.Base.{
  ℕ, ◌+◌, ◌*◌, ◌^◌, ◌≤◌, ◌≡◌, refl, ap, ◌∙◌, inl, inr, Bool, true, false, Option, none, some,
  length, ltb, ◌==◌, ℤ, pos, negsuc, arith, Bool-cases, if_cases,
}
use mathlib.Core.Path.{subst}
use moty.Gguf.Cursor.{
  Gcur, lacks, as_failed, advanced, gc_u, gc_bytes, signed, str_at, str_of_length, gc_str, gg_esz,
  Gval, g_str, g_arr,
}

-- A cursor behind another one: on the same buffer, not before it, within the buffer, and failed if
-- that one had.
pub record IsAfter (c c' : Gcur) : Type 0 where
  pub same : c'.p ≡ c.p
  pub onward : c.off ≤ c'.off
  pub within : c'.off ≤ length c.p
  pub sticky : c.fail ≡ true → c'.fail ≡ true

-- What a value points to lies in the first `n` bytes, and an array of elements of a fixed size, if
-- the read did not fail, has as many bytes as they take.
abbrev pub PointsWithin : ℕ → Bool → Gval → Type 0
PointsWithin n failed (g_str (some (start, l))) = start + l ≤ n
PointsWithin n failed (g_arr at an start end) =
    (start ≤ end)
    × (end ≤ n)
    × (failed ≡ false → (gg_esz at == 0) ≡ false → end ≡ start + an * gg_esz at)
PointsWithin n failed v = Unit

abbrev pub InBuffer : Gcur → Type 0
InBuffer c = c.off ≤ length c.p

pub stays : (c : Gcur) → InBuffer c → IsAfter c c
stays c h = record { same = refl; onward = omega arith; within = h; sticky = λ e. e }

pub marks : (c : Gcur) → InBuffer c → IsAfter c (as_failed c)
marks c h = record { same = refl; onward = omega arith; within = h; sticky = λ e. refl }

pub moves : (c : Gcur) (n : ℕ) → lacks c n ≡ false → IsAfter c (advanced c n)
moves c n e = record {
  same = refl;
  onward = omega arith;
  within = ground arith;
  sticky = λ f. absurd (ground arith);
}

pub goes_on : (c d e : Gcur) → IsAfter c d → IsAfter d e → IsAfter c e
goes_on c d e h k = record {
  same = k.same ∙ h.same;
  onward = omega (arith, h.onward, k.onward);
  within = omega (arith, k.within, ap length h.same);
  sticky = λ f. k.sticky (h.sticky f);
}

pub still_in : (c d : Gcur) → IsAfter c d → InBuffer d
still_in c d h = omega (arith, h.within, ap length h.same)

pub gc_u-IsAfter : (c : Gcur) (sz : ℕ) → InBuffer c → IsAfter c (gc_u c sz).1
gc_u-IsAfter c sz h = elim (Bool-cases (lacks c sz)) [
  | inl e ↦ rw e (marks c h)
  | inr e ↦ rw e (moves c sz e)
]

pub gc_bytes-IsAfter : (c : Gcur) (n : ℕ) → InBuffer c → IsAfter c (gc_bytes c n).1
gc_bytes-IsAfter c n h = elim (Bool-cases (lacks c n)) [
  | inl e ↦ rw e (marks c h)
  | inr e ↦ rw e (moves c n e)
]

-- Where the bytes of a string are.
abbrev pub StrWithin : ℕ → Option (ℕ × ℕ) → Type 0
StrWithin n none = Unit
StrWithin n (some (start, l)) = start + l ≤ n

abbrev pub StrInside : Gcur → Option (ℕ × ℕ) × Gcur → Type 0
StrInside c r = IsAfter c r.1 × StrWithin (length c.p) r.0

bytes-StrInside : (c : Gcur) (l : ℕ) → InBuffer c → StrInside c (str_at l (gc_bytes c l))
bytes-StrInside c l h = elim (Bool-cases (lacks c l)) [
  | inl e ↦ rw e (marks c h, tt)
  | inr e ↦ rw e (moves c l e, ground arith)
]

of_length-StrInside : (c : Gcur) (l : ℤ) → InBuffer c → StrInside c (str_of_length l c)
of_length-StrInside c (negsuc l) h = (marks c h, tt)
of_length-StrInside c (pos l) h =
    if_cases (StrInside c) (ltb (2 ^ 31) l) _ _ (λ e. (marks c h, tt)) (λ e. bytes-StrInside c l h)

pub gc_str-StrInside : (c : Gcur) → InBuffer c → StrInside c (gc_str c)
gc_str-StrInside c h =
    let first = gc_u-IsAfter c 8 h in
    let d = (gc_u c 8).1 in
    let (next, there) = of_length-StrInside d (signed 64 (gc_u c 8).0) (still_in c d first) in
    (goes_on c d _ first next, subst (λ p. StrWithin (length p) (gc_str c).0) first.same there)
