-- ===== src/Api/DraftBounds.antt =====
-- The proposals fit their buffers, and stand in the draft behind a suffix of the answer.
use moty.Base.{
  ℕ, zero, suc, ◌-◌, ◌≤◌, ◌<◌, ◌≡◌, refl, sym, ap, ◌∙◌, ℤ, pos, int_eq, int_eq→≡, Option, none,
  some, List, [], ◌∷◌, ◌++◌, map, take, drop, length, ltb, if_cases, arith, inl, inr, ◌⊎◌,
  Bool-cases, take-append-drop, length-drop,
}
use mathlib.Core.Path.{subst}
use moty.Api.Types.{Sampling}
use moty.Api.Sampling.{numbers_at}
use moty.Api.Draft.{
  after_suffix, orelse, listed, followers, suffixes, smaller, draft_step, proposals,
}

length-take : (n : ℕ) (qs : List ℤ) → length (take n qs) ≤ n
length-take zero qs = omega arith
length-take (suc n) [] = omega arith
length-take (suc n) (q ∷ qs) = let h = length-take n qs in omega arith

-- What holds of both lists holds of the first that is not empty.
orelse_cases : (P : List ℤ → Type 0) (a b : List ℤ) → P a → P b → P (orelse a b)
orelse_cases P [] b ha hb = hb
orelse_cases P (q ∷ qs) b ha hb = ha

length-followers :
    (kmax : ℕ) (suffix : List ℕ) (draft : List ℤ) → length (followers kmax suffix draft) ≤ kmax
unfolding followers
length-followers kmax suffix [] = omega arith
length-followers kmax suffix (d ∷ draft) =
    orelse_cases (λ qs. length qs ≤ kmax) _ _ (length-take kmax _)
      (length-followers kmax suffix draft)

length-suffixes :
    (len kmax : ℕ) (gen : List ℕ) (draft : List ℤ) → length (suffixes len kmax gen draft) ≤ kmax
unfolding suffixes
length-suffixes zero kmax gen draft = omega arith
length-suffixes (suc len) kmax gen draft =
    orelse_cases (λ qs. length qs ≤ kmax) _ _ (length-followers kmax _ draft)
      (length-suffixes len kmax gen draft)

-- There are no more than 15 proposals, which fit the buffers of 16 and, behind the token, of 17, and
-- no more than tokens that may still be emitted.
pub length-proposals :
    (s : Sampling) (budget : ℕ) (gen : Option (List ℕ))
    → (length (proposals s budget gen) ≤ 15) × (length (proposals s budget gen) ≤ budget)
unfolding proposals
length-proposals s budget none = (omega arith, omega arith)
length-proposals s budget (some gen) =
    let k = smaller (smaller (draft_step s) 15) budget in
    let small : (k ≤ 15) × (k ≤ budget) = ground arith in
    if_cases (λ (qs : List ℤ). (length qs ≤ 15) × (length qs ≤ budget)) (ltb 0 budget) _ _
      (λ _.
        let h = length-suffixes (smaller (length gen) 3) k gen (numbers_at s.draft s.n_draft) in
        (omega (arith, small.0, h), omega (arith, small.1, h)))
      (λ _. (omega arith, omega arith))

-- There are no more than `dk` proposals.
pub proposals-le_step :
    (s : Sampling) (budget : ℕ) (gen : Option (List ℕ))
    → length (proposals s budget gen) ≤ draft_step s
unfolding proposals
proposals-le_step s budget none = omega arith
proposals-le_step s budget (some gen) =
    let k = smaller (smaller (draft_step s) 15) budget in
    let small : k ≤ draft_step s = ground arith in
    if_cases (λ (qs : List ℤ). length qs ≤ draft_step s) (ltb 0 budget) _ _
      (λ _.
        let h = length-suffixes (smaller (length gen) 3) k gen (numbers_at s.draft s.n_draft) in
        omega (arith, small, h))
      (λ _. omega arith)

-- The draft holds the tokens of a suffix of the answer, and the proposals behind them.
pub record IsProposed (gen : List ℕ) (draft qs : List ℤ) : Type 0 where
  pub answer : List ℕ
  pub suffix : List ℕ
  pub before : List ℤ
  pub behind : List ℤ
  pub some_tokens : 0 < length suffix
  pub ends : gen ≡ answer ++ suffix
  pub stands : draft ≡ before ++ (map pos suffix ++ (qs ++ behind))

abbrev Proposed : List ℕ → List ℤ → List ℤ → Type 0
Proposed gen draft qs = (qs ≡ []) ⊎ IsProposed gen draft qs

after_suffix-some :
    (suffix : List ℕ) (draft rest : List ℤ)
    → after_suffix suffix draft ≡ some rest
    → draft ≡ map pos suffix ++ rest
unfolding after_suffix
after_suffix-some [] draft rest e = cc
after_suffix-some (t ∷ ts) [] rest e = absurd (ground arith)
after_suffix-some (t ∷ ts) (d ∷ draft) rest e = elim (Bool-cases (int_eq d (pos t))) [
  | inl same ↦
      ap (λ x. x ∷ draft) (int_eq→≡ d (pos t) same)
      ∙ ap (λ ds. pos t ∷ ds) (after_suffix-some ts draft rest (rw same at e))
  | inr other ↦ absurd (let f = rw other at e in ground arith)
]

Proposed-behind :
    (gen : List ℕ) (d : ℤ) (draft qs : List ℤ) → Proposed gen draft qs → Proposed gen (d ∷ draft) qs
Proposed-behind gen d draft qs (inl e) = inl e
Proposed-behind gen d draft qs (inr h) = inr record {
  answer = h.answer;
  suffix = h.suffix;
  before = d ∷ h.before;
  behind = h.behind;
  some_tokens = h.some_tokens;
  ends = h.ends;
  stands = ap (λ ds. d ∷ ds) h.stands;
}

module _ (answer suffix : List ℕ) (some_tokens : 0 < length suffix) where
  Proposed-here :
      (kmax : ℕ) (draft : List ℤ) (o : Option (List ℤ))
      → after_suffix suffix draft ≡ o
      → Proposed (answer ++ suffix) draft (take kmax (listed o))
  Proposed-here zero draft none e = inl refl
  Proposed-here (suc kmax) draft none e = inl refl
  Proposed-here kmax draft (some rest) e = inr record {
    answer = answer;
    suffix = suffix;
    before = [];
    behind = drop kmax rest;
    some_tokens = some_tokens;
    ends = refl;
    stands =
        after_suffix-some suffix draft rest e
        ∙ ap (λ ds. map pos suffix ++ ds) (sym (take-append-drop kmax rest));
  }

  Proposed-followers :
      (kmax : ℕ) (draft : List ℤ) → Proposed (answer ++ suffix) draft (followers kmax suffix draft)
  unfolding followers
  Proposed-followers kmax [] = inl refl
  Proposed-followers kmax (d ∷ draft) =
      orelse_cases (Proposed (answer ++ suffix) (d ∷ draft)) _ _
        (Proposed-here kmax (d ∷ draft) (after_suffix suffix (d ∷ draft)) refl)
        (Proposed-behind (answer ++ suffix) d draft (followers kmax suffix draft)
          (Proposed-followers kmax draft))

Proposed-suffixes :
    (len kmax : ℕ) (gen : List ℕ) (draft : List ℤ)
    → len ≤ length gen
    → Proposed gen draft (suffixes len kmax gen draft)
unfolding suffixes
Proposed-suffixes zero kmax gen draft le = inl refl
Proposed-suffixes (suc len) kmax gen draft le =
    let n = length gen - suc len in
    orelse_cases (Proposed gen draft) _ _
      (subst (λ g. Proposed g draft (followers kmax (drop n gen) draft)) (take-append-drop n gen)
        (Proposed-followers (take n gen) (drop n gen) (omega (arith, length-drop n gen)) kmax
          draft))
      (Proposed-suffixes len kmax gen draft (omega arith))

-- Unless there are none, the proposals stand in the draft right behind a copy of the last tokens of
-- the answer.
pub proposals-IsProposed :
    (s : Sampling) (budget : ℕ) (gen : List ℕ)
    → (proposals s budget (some gen) ≡ [])
      ⊎ IsProposed gen (numbers_at s.draft s.n_draft) (proposals s budget (some gen))
unfolding proposals
proposals-IsProposed s budget gen =
    if_cases (Proposed gen (numbers_at s.draft s.n_draft)) (ltb 0 budget) _ _
      (λ _.
        Proposed-suffixes (smaller (length gen) 3) (smaller (smaller (draft_step s) 15) budget) gen
          (numbers_at s.draft s.n_draft) (ground arith))
      (λ _. inl refl)
