-- ===== src/Par/Static.antt =====
-- The static schedule: the ranges of the threads run each index once.
use moty.Base.{
  ℕ, zero, suc, ◌+◌, ◌*◌, ◌/◌, ◌%◌, ◌<◌, ◌≤◌, ◌≡◌, Bool, ◌&&◌, ◌||◌, List, [], ◌∷◌, ◌++◌, ltb, leb,
  ◌==◌, if◌then◌else◌, arith, Bool-cases, inl, inr,
}
use native.Mathlib.Nat.{div-add-mod, mod-lt}
use moty.Par.{Call, range_first, range_last, share, shares, par_for_static, runs, Covers}

runs-append : (i : ℕ) (a b : List Call) → runs i (a ++ b) ≡ runs i a + runs i b
unfolding runs
runs-append i [] b = omega arith
runs-append i (c ∷ a) b = omega (arith, runs-append i a b)

module _ (n nt : ℕ) where
  -- A range ends where the next one begins.
  range_last-range_first : (t : ℕ) → range_last n t nt ≡ range_first n (suc t) nt
  unfolding range_first range_last
  range_last-range_first t =
      let product : suc t * (n / nt) ≡ t * (n / nt) + n / nt = omega arith in ground arith

  range_first_zero : range_first n 0 nt ≡ 0
  unfolding range_first
  range_first_zero = ground arith

  range_first_end : 0 < nt → range_first n nt nt ≡ n
  unfolding range_first
  range_first_end pos =
      let whole = div-add-mod n nt in let less : n % nt < nt = mod-lt n pos in ground arith

  range_first-suc : (t : ℕ) → range_first n t nt ≤ range_first n (suc t) nt
  unfolding range_first
  range_first-suc t =
      let product : suc t * (n / nt) ≡ t * (n / nt) + n / nt = omega arith in ground arith

  runs-share :
      (i t : ℕ)
      → runs i (share n nt t)
        ≡ (if leb (range_first n t nt) i && ltb i (range_first n (suc t) nt) then 1 else 0)
  unfolding share runs
  runs-share i t =
      rw (range_last-range_first t) (between (range_first n t nt) (range_first n (suc t) nt))
    where
      between :
          (a b : ℕ)
          → runs i (if ltb a b then record { first = a; last = b; tid = t } ∷ [] else [])
            ≡ (if leb a i && ltb i b then 1 else 0)
      between a b = elim (Bool-cases (ltb a b)) [
        | inl e ↦ rw e (omega arith)
        | inr e ↦ rw e (ground arith)
      ]

  runs-shares : (i m : ℕ) → runs i (shares n nt m) ≡ (if ltb i (range_first n m nt) then 1 else 0)
  unfolding shares runs
  runs-shares i zero = rw range_first_zero (ground arith)
  runs-shares i (suc m) =
      let before = runs-shares i m in
      let here = runs-share i m in
      let both = runs-append i (shares n nt m) (share n nt m) in
      let le = range_first-suc m in ground arith

-- The static split of `n` indices over a team of at least one thread, or the one call inside a
-- region, runs each index below `n` once and no other.
pub par_for_static-Covers :
    (n team : ℕ) (inside : Bool) (tid : ℕ) → 0 < team → Covers n (par_for_static n team inside tid)
unfolding par_for_static runs
par_for_static-Covers zero team inside tid pos i = ground arith
par_for_static-Covers (suc n) team inside tid pos i = elim (Bool-cases (inside || team == 1)) [
  | inl serial ↦ rw serial (ground arith)
  | inr parallel ↦
      let all = range_first_end (suc n) team pos in
      rw parallel (rw all at (runs-shares (suc n) team i team))
]
