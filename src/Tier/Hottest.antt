-- ===== src/Tier/Hottest.antt =====
-- The scans for the hottest expert that is not resident.
use moty.Base.{
  ℕ, zero, suc, ◌+◌, ◌≤◌, ◌<◌, ◌≡◌, refl, true, false, not, ◌&&◌, ◌||◌, Option, none, some, List,
  ltb, ◌==◌, arith, Bool-cases, inl, inr,
}
use moty.Tier.{resident, hottest, hottest_score, is_none}

-- What the scans for the hottest end on, after the experts below `n`: a non-resident one of greatest
-- score, where `reach` says which scores the scan takes at all.
pub record IsHottest (score : ℕ → ℕ) (pinned : List ℕ) (reach n : ℕ) (r : Option ℕ × ℕ)
    : Type 0 where
  pub greatest : (e : ℕ) → e < n → resident e pinned ≡ false → score e ≤ r.1
  pub there : (h : ℕ) → r.0 ≡ some h → (h < n) × (resident h pinned ≡ false) × (score h ≡ r.1)
  pub nothing :
      r.0 ≡ none → (r.1 ≡ 0) × ((e : ℕ) → e < n → resident e pinned ≡ false → score e < reach)

module _ (score : ℕ → ℕ) (pinned : List ℕ) where
  passed :
      (reach n : ℕ) (hot : Option ℕ) (fh : ℕ)
      → IsHottest score pinned reach n (hot, fh)
      → ((resident n pinned ≡ false) → (score n ≤ fh) × (hot ≡ none → score n < reach))
      → IsHottest score pinned reach (suc n) (hot, fh)
  passed reach n hot fh h small = record {
    greatest = λ e lt q. elim (Bool-cases (e == n)) [
      | inl same ↦ let eq : e ≡ n = ground arith in let q' = rw eq at q in rw eq (small q').0
      | inr other ↦ h.greatest e (ground arith) q
    ];
    there = λ k e. let (lt, q, s) = h.there k e in (omega (arith, lt), q, s);
    nothing = λ e. (
      (h.nothing e).0,
      λ k lt q. elim (Bool-cases (k == n)) [
        | inl same ↦ let eq : k ≡ n = ground arith in let q' = rw eq at q in rw eq ((small q').1 e)
        | inr other ↦ (h.nothing e).1 k (ground arith) q
      ],
    );
  }

  taken :
      (reach n : ℕ) (hot : Option ℕ) (fh : ℕ)
      → IsHottest score pinned reach n (hot, fh)
      → resident n pinned ≡ false
      → fh ≤ score n
      → IsHottest score pinned reach (suc n) (some n, score n)
  taken reach n hot fh h free more = record {
    greatest = λ e lt q. elim (Bool-cases (e == n)) [
      | inl same ↦ let eq : e ≡ n = ground arith in rw eq (omega arith)
      | inr other ↦ omega (arith, h.greatest e (ground arith) q)
    ];
    there = λ k e. let eq : n ≡ k = ground arith in rw (← eq) (omega arith, free, refl);
    nothing = λ e. absurd (cc);
  }

  hottest-IsHottest :
      (n e : ℕ) (hot : Option ℕ) (fh : ℕ)
      → IsHottest score pinned 1 e (hot, fh)
      → IsHottest score pinned 1 (e + n) (hottest score pinned n e hot fh)
  unfolding hottest
  hottest-IsHottest zero e hot fh h = let z : e + 0 ≡ e = omega arith in rw z h
  hottest-IsHottest (suc n) e hot fh h =
      let z : e + suc n ≡ suc e + n = omega arith in
      elim (Bool-cases (not (resident e pinned) && ltb fh (score e))) [
        | inl more ↦
            rw (z, more)
              (hottest-IsHottest n (suc e) (some e) (score e)
                (taken 1 e hot fh h (ground arith) (ground arith)))
        | inr less ↦
            rw (z, less)
              (hottest-IsHottest n (suc e) hot fh (
                passed 1 e hot fh h (λ q.
                  let le : score e ≤ fh = ground arith in
                  (le, λ none. let zero_heat = (h.nothing none).0 in omega arith))))
      ]

  hottest_score-IsHottest :
      (n e : ℕ) (hot : Option ℕ) (hs : ℕ)
      → IsHottest score pinned 0 e (hot, hs)
      → IsHottest score pinned 0 (e + n) (hottest_score score pinned n e hot hs)
  unfolding hottest_score
  hottest_score-IsHottest zero e hot hs h = let z : e + 0 ≡ e = omega arith in rw z h
  hottest_score-IsHottest (suc n) e hot hs h =
      let z : e + suc n ≡ suc e + n = omega arith in
      elim (Bool-cases (not (resident e pinned) && (is_none hot || ltb hs (score e)))) [
        | inl more ↦
            rw (z, more)
              (hottest_score-IsHottest n (suc e) (some e) (score e)
                (taken 0 e hot hs h (ground arith) (at_least hot h more)))
        | inr less ↦
            rw (z, less)
              (hottest_score-IsHottest n (suc e) hot hs
                (passed 0 e hot hs h (λ q. kept hot h less q)))
      ]
    where
      at_least :
          (hot : Option ℕ)
          → IsHottest score pinned 0 e (hot, hs)
          → (not (resident e pinned) && (is_none hot || ltb hs (score e))) ≡ true
          → hs ≤ score e
      at_least none h more = let z = (h.nothing refl).0 in omega arith
      at_least (some k) h more = ground arith

      kept :
          (hot : Option ℕ)
          → IsHottest score pinned 0 e (hot, hs)
          → (not (resident e pinned) && (is_none hot || ltb hs (score e))) ≡ false
          → resident e pinned ≡ false
          → (score e ≤ hs) × (hot ≡ none → score e < 0)
      kept none h less q = absurd (ground arith)
      kept (some k) h less q = (ground arith, λ e. absurd (cc))

  none_yet : (reach : ℕ) → IsHottest score pinned reach 0 (none, 0)
  none_yet reach = record {
    greatest = λ e lt. absurd (omega arith);
    there = λ h e. absurd (cc);
    nothing = λ _. (refl, λ e lt. absurd (omega arith));
  }

  pub hottest-all : (n : ℕ) → IsHottest score pinned 1 n (hottest score pinned n 0 none 0)
  hottest-all n =
      let z : 0 + n ≡ n = omega arith in rw z at (hottest-IsHottest n 0 none 0 (none_yet 1))

  pub hottest_score-all :
      (n : ℕ) → IsHottest score pinned 0 n (hottest_score score pinned n 0 none 0)
  hottest_score-all n =
      let z : 0 + n ≡ n = omega arith in rw z at (hottest_score-IsHottest n 0 none 0 (none_yet 0))
