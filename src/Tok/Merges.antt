-- ===== src/Tok/Merges.antt =====
-- What the merges of `bpe_core` keep: the symbols stay known strings that spell the piece, and the
-- loop ends when no pair of neighbours merges.
use moty.Base.{
  ℕ, zero, suc, ◌+◌, ◌≤◌, ◌≡◌, refl, sym, ap, ◌∙◌, ◌⊎◌, inl, inr, Option, none, some, List, [], ◌∷◌,
  ◌++◌, length, ltb, arith, Bool-cases, Option-cases,
}
use mathlib.Core.List.{append_assoc}
use moty.Tok.Bpe.{concat, best_pair, merge_at, merge_loop, int_max}

-- The symbols with number `i` and the next merge.
abbrev pub Merges : (List ℕ → Option ℕ) → ℕ → List (List ℕ) → Type 0
Merges m i [] = ⊥
Merges m i (l ∷ []) = ⊥
Merges m zero (l ∷ r ∷ syms) = (rk : ℕ) × (m (l ++ 0 ∷ r) ≡ some rk)
Merges m (suc i) (l ∷ r ∷ syms) = Merges m i (r ∷ syms)

-- No pair of neighbours has a rank below the bound.
abbrev pub IsMerged : (List ℕ → Option ℕ) → ℕ → List (List ℕ) → Type 0
IsMerged m bound [] = Unit
IsMerged m bound (l ∷ []) = Unit
IsMerged m bound (l ∷ r ∷ syms) =
    ((rk : ℕ) → m (l ++ 0 ∷ r) ≡ some rk → bound ≤ rk) × IsMerged m bound (r ∷ syms)

-- The scan ends on the pair it began with, if no pair has a lower rank, or on a pair that merges.
best_pair-cases :
    (m : List ℕ → Option ℕ) (syms : List (List ℕ)) (i best : ℕ) (bp : Option ℕ)
    → ((best_pair m i best bp syms ≡ bp) × IsMerged m best syms)
      ⊎ ((k : ℕ) × (best_pair m i best bp syms ≡ some (i + k)) × Merges m k syms)
unfolding best_pair
best_pair-cases m [] i best bp = inl (refl, tt)
best_pair-cases m (l ∷ []) i best bp = inl (refl, tt)
best_pair-cases m (l ∷ r ∷ syms) i best bp = elim (Option-cases (m (l ++ 0 ∷ r))) [
  | inl e ↦ elim (best_pair-cases m (r ∷ syms) (suc i) best bp) [
    | inl (q, h) ↦
        inl (rw (e, best_pair) q, ((λ rk e'. absurd (let x = sym e ∙ e' in ground arith)), h))
    | inr (k, q, h) ↦ inr (suc k, rw (e, best_pair) (q ∙ ap (λ n. some n) (shift i k)), h)
  ]
  | inr (rk, e) ↦ elim (Bool-cases (ltb rk best)) [
    | inl less ↦ elim (best_pair-cases m (r ∷ syms) (suc i) rk (some i)) [
      | inl (q, h) ↦ inr (0, rw (e, best_pair, less) (q ∙ ap (λ n. some n) (start i)), (rk, e))
      | inr (k, q, h) ↦ inr (suc k, rw (e, best_pair, less) (q ∙ ap (λ n. some n) (shift i k)), h)
    ]
    | inr less ↦ elim (best_pair-cases m (r ∷ syms) (suc i) best bp) [
      | inl (q, h) ↦ inl (
        rw (e, best_pair, less) q,
        ((λ rk' e'. let same : rk ≡ rk' = ground (arith, sym e ∙ e') in ground arith), h),
      )
      | inr (k, q, h) ↦ inr (suc k, rw (e, best_pair, less) (q ∙ ap (λ n. some n) (shift i k)), h)
    ]
  ]
]
  where
    shift : (i k : ℕ) → suc i + k ≡ i + suc k
    shift i k = omega arith

    start : (i : ℕ) → i ≡ i + 0
    start i = omega arith

-- Each merge takes one symbol away.
pub length-merge_at :
    (m : List ℕ → Option ℕ) (i : ℕ) (syms : List (List ℕ))
    → Merges m i syms
    → suc (length (merge_at i syms)) ≡ length syms
unfolding merge_at
length-merge_at m i [] h = absurd h
length-merge_at m i (l ∷ []) h = absurd h
length-merge_at m zero (l ∷ r ∷ syms) h = refl
length-merge_at m (suc i) (l ∷ r ∷ syms) h = ap suc (length-merge_at m i (r ∷ syms) h)

-- The merges move no byte.
pub concat-merge_at : (i : ℕ) (syms : List (List ℕ)) → concat (merge_at i syms) ≡ concat syms
unfolding merge_at concat
concat-merge_at i [] = refl
concat-merge_at zero (l ∷ []) = refl
concat-merge_at zero (l ∷ r ∷ syms) = append_assoc l r (concat syms)
concat-merge_at (suc i) (l ∷ syms) = ap (λ s. l ++ s) (concat-merge_at i syms)

-- What an operation on symbols that holds of the parts keeps, through all the merges.
module _ (m : List ℕ → Option ℕ) (P : List (List ℕ) → Type 0)
    (keeps : (i : ℕ) (syms : List (List ℕ)) → Merges m i syms → P syms → P (merge_at i syms)) where
  pub merge_loop-keeps : (fuel : ℕ) (syms : List (List ℕ)) → P syms → P (merge_loop m fuel syms)
  unfolding merge_loop
  merge_loop-keeps zero syms h = h
  merge_loop-keeps (suc fuel) syms h = elim (best_pair-cases m syms 0 int_max none) [
    | inl (q, _) ↦ rw (q, merge_loop) h
    | inr (k, q, j) ↦
        let q' : best_pair m 0 int_max none syms ≡ some k = q ∙ ap (λ n. some n) (add_zero k) in
        rw (q', merge_loop) (merge_loop-keeps fuel (merge_at k syms) (keeps k syms j h))
  ]
    where
      add_zero : (n : ℕ) → 0 + n ≡ n
      add_zero n = omega arith

-- With as many rounds as symbols the loop ends when no pair of neighbours has a rank below
-- 2^31 - 1, and the symbols, one after the other, are what they were.
pub merge_loop-IsMerged :
    (m : List ℕ → Option ℕ) (fuel : ℕ) (syms : List (List ℕ))
    → length syms ≤ fuel
    → IsMerged m int_max (merge_loop m fuel syms) × (concat (merge_loop m fuel syms) ≡ concat syms)
unfolding merge_loop
merge_loop-IsMerged m zero [] le = (tt, refl)
merge_loop-IsMerged m zero (s ∷ syms) le = absurd (omega arith)
merge_loop-IsMerged m (suc fuel) syms le = elim (best_pair-cases m syms 0 int_max none) [
  | inl (q, h) ↦ rw (q, merge_loop) (h, refl)
  | inr (k, q, j) ↦
      let q' : best_pair m 0 int_max none syms ≡ some k = q ∙ ap (λ n. some n) (add_zero k) in
      let (done, same) =
        merge_loop-IsMerged m fuel (merge_at k syms) (omega (arith, length-merge_at m k syms j)) in
      rw (q', merge_loop) (done, same ∙ concat-merge_at k syms)
]
  where
    add_zero : (n : ℕ) → 0 + n ≡ n
    add_zero n = omega arith
