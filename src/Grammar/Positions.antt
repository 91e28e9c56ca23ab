-- ===== src/Grammar/Positions.antt =====
-- Where a stack stands: what its top symbol says of the symbols left to read.
use moty.Base.{
  ℕ, zero, suc, ◌+◌, ◌^◌, ◌<◌, ◌≤◌, ◌≡◌, ◌≢◌, sym, true, Bool-cases, All-get_elem?, All, length,
  ◌↔◌, refl, ap, ◌∙◌, ◌⊎◌, inl, inr, Option, none, some, List, [], ◌∷◌, ◌++◌, get_elem?, drop, Any,
  arith, Option-cases, get_elem?_below,
}
use moty.Grammar.Syntax.{
  Sym, cls, ref, ByteSet, Alt, Grammar, Frame, Rule, alts_of, alt_of, int16, all_nonneg, IsNarrow,
}
use moty.Grammar.Language.{rest_of}
use moty.Grammar.Walker.{
  Top, broken, exhausted, terminal, call, top_at, top_of, new_frame, step_frame,
}

pub Any-append_one :
    {A : Type 0} (P : A → Type 0) (xs : List A) (x : A) → Any P (xs ++ x ∷ []) ↔ (Any P xs ⊎ P x)
Any-append_one P [] x =
    (elim [ inl p ↦ inr p | inr q ↦ inl q ], elim [ inl q ↦ inr q | inr p ↦ inl p ])
Any-append_one P (y ∷ xs) x = (
  elim [
    | inl p ↦ inl (inl p)
    | inr q ↦ elim ((Any-append_one P xs x).0 q) [ inl a ↦ inl (inr a) | inr b ↦ inr b ]
  ],
  elim [
    | inl (inl p) ↦ inl p
    | inl (inr q) ↦ inr ((Any-append_one P xs x).1 (inl q))
    | inr p ↦ inr ((Any-append_one P xs x).1 (inr p))
  ],
)

pub Any-index :
    {A : Type 0} (P : A → Type 0) (xs : List A)
    → Any P xs
    → (i : ℕ) × (x : A) × (get_elem? xs i ≡ some x) × P x
Any-index P [] h = absurd h
Any-index P (x ∷ xs) (inl p) = (0, x, refl, p)
Any-index P (x ∷ xs) (inr h) = let (i, y, e, p) = Any-index P xs h in (suc i, y, e, p)

pub Any-of_index :
    {A : Type 0} (P : A → Type 0) (xs : List A) (i : ℕ) (x : A)
    → get_elem? xs i ≡ some x
    → P x
    → Any P xs
Any-of_index P [] i x e p = absurd (cc)
Any-of_index P (y ∷ xs) zero x e p = inl (ground (arith, p))
Any-of_index P (y ∷ xs) (suc i) x e p = inr (Any-of_index P xs i x e p)

drop-of_some :
    (alt : Alt) (i : ℕ) (x : Sym) → get_elem? alt i ≡ some x → drop i alt ≡ x ∷ drop (suc i) alt
drop-of_some [] i x e = cc
drop-of_some (y ∷ alt) zero x e = cc
drop-of_some (y ∷ alt) (suc i) x e = drop-of_some alt i x e

drop-of_none : (alt : Alt) (i : ℕ) → get_elem? alt i ≡ none → drop i alt ≡ []
drop-of_none [] zero e = refl
drop-of_none [] (suc i) e = refl
drop-of_none (y ∷ alt) zero e = cc
drop-of_none (y ∷ alt) (suc i) e = drop-of_none alt i e

pub data TopCase (t : Top) : Type 0 where
  is_broken : t ≡ broken → TopCase t
  is_exhausted : t ≡ exhausted → TopCase t
  is_terminal : (c : ByteSet) → t ≡ terminal c → TopCase t
  is_call : (r : ℕ) → t ≡ call r → TopCase t

pub top-cases : (t : Top) → TopCase t
top-cases broken = is_broken refl
top-cases exhausted = is_exhausted refl
top-cases (terminal c) = is_terminal c refl
top-cases (call r) = is_call r refl

abbrev SymCase : Option Sym → Type 0
SymCase o = (o ≡ none) ⊎ ((c : ByteSet) × (o ≡ some (cls c))) ⊎ ((r : ℕ) × (o ≡ some (ref r)))

sym-cases : (o : Option Sym) → SymCase o
sym-cases none = inl refl
sym-cases (some (cls c)) = inr (inl (c, refl))
sym-cases (some (ref r)) = inr (inr (r, refl))

module _ (g : Grammar) (narrow : IsNarrow g) where
  -- The numbers of a rule and of an alternate that there are, and the positions in it, are in range.
  pub narrow-alt :
      (r a : ℕ) (alt : Alt)
      → alt_of g r a ≡ some alt
      → (r < 2 ^ 15) × (a < 2 ^ 15) × (length alt < 2 ^ 15)
  unfolding alt_of alts_of
  narrow-alt r a alt h = elim (Option-cases (get_elem? g.rules r)) [
    | inl e ↦ absurd (ground arith)
    | inr (rule, e) ↦
        let there : get_elem? rule.alts a ≡ some alt = ground arith in
        let (few, short) =
          All-get_elem?
            (λ (i : Rule). (length i.alts ≤ 2 ^ 15) × All (λ (x : Alt). length x < 2 ^ 15) i.alts)
            g.rules r rule narrow.few_alts e in
        (
          omega (arith, narrow.few_rules, get_elem?_below g.rules r e),
          omega (arith, few, get_elem?_below rule.alts a there),
          All-get_elem? (λ (x : Alt). length x < 2 ^ 15) rule.alts a alt short there,
        )
  ]

  -- The start of an alternate that there is.
  pub new_frame-alt :
      (r a : ℕ) (alt : Alt)
      → alt_of g r a ≡ some alt
      → (new_frame r a ≡ record { r = r; a = a; s = 0 }) × (all_nonneg (new_frame r a) ≡ true)
  new_frame-alt r a alt h =
      let (below_r, below_a, _) = narrow-alt r a alt h in
      let same_r : int16 r ≡ r = omega (arith, below_r) in
      let same_a : int16 a ≡ a = omega (arith, below_a) in
      (rw (same_r, same_a) refl, rw (same_r, same_a) (ground (arith, below_r, below_a)))

module _ (g : Grammar) where
  module _ (f : Frame) where
    rest-at_exhausted : top_at g f ≡ exhausted → rest_of g f ≡ []
    unfolding top_at rest_of
    rest-at_exhausted h = elim (Option-cases (alt_of g f.r f.a)) [
      | inl e ↦ ground arith
      | inr (alt, e) ↦ elim (sym-cases (get_elem? alt f.s)) [
        | inl s ↦ ground (arith, drop-of_none alt f.s)
        | inr (inl (c, s)) ↦ absurd (ground arith)
        | inr (inr (r, s)) ↦ absurd (ground arith)
      ]
    ]

    rest-at_terminal :
        (c : ByteSet)
        → top_at g f ≡ terminal c
        → rest_of g f ≡ cls c ∷ rest_of g (record f { s = suc f.s })
    unfolding top_at rest_of
    rest-at_terminal c h = elim (Option-cases (alt_of g f.r f.a)) [
      | inl e ↦ absurd (ground arith)
      | inr (alt, e) ↦ elim (sym-cases (get_elem? alt f.s)) [
        | inl s ↦ absurd (ground arith)
        | inr (inl (c', s)) ↦ ground (arith, drop-of_some alt f.s (cls c'))
        | inr (inr (r, s)) ↦ absurd (ground arith)
      ]
    ]

    rest-at_call :
        (r : ℕ) → top_at g f ≡ call r → rest_of g f ≡ ref r ∷ rest_of g (record f { s = suc f.s })
    unfolding top_at rest_of
    rest-at_call r h = elim (Option-cases (alt_of g f.r f.a)) [
      | inl e ↦ absurd (ground arith)
      | inr (alt, e) ↦ elim (sym-cases (get_elem? alt f.s)) [
        | inl s ↦ absurd (ground arith)
        | inr (inl (c', s)) ↦ absurd (ground arith)
        | inr (inr (r', s)) ↦ ground (arith, drop-of_some alt f.s (ref r'))
      ]
    ]

    -- A top that is not broken is that of a frame in range.
    pub top_of-top_at : top_of g f ≢ broken → (all_nonneg f ≡ true) × (top_of g f ≡ top_at g f)
    unfolding top_of
    top_of-top_at h = elim (Bool-cases (all_nonneg f)) [
      | inl e ↦ (e, rw e refl)
      | inr e ↦ absurd (h (rw e refl))
    ]

    pub rest_of-exhausted : top_of g f ≡ exhausted → rest_of g f ≡ []
    rest_of-exhausted h =
        rest-at_exhausted (sym (top_of-top_at (λ x. let y = sym x ∙ h in ground arith)).1 ∙ h)

    -- A class at the top is read first.
    pub rest_of-class :
        (c : ByteSet)
        → top_of g f ≡ terminal c
        → rest_of g f ≡ cls c ∷ rest_of g (record f { s = suc f.s })
    rest_of-class c h =
        rest-at_terminal c (sym (top_of-top_at (λ x. let y = sym x ∙ h in ground arith)).1 ∙ h)

    -- A class or a reference at the top is a symbol of an alternate.
    symbol_there :
        top_of g f ≢ broken
        → top_of g f ≢ exhausted
        → (all_nonneg f ≡ true) × ((alt : Alt) × (alt_of g f.r f.a ≡ some alt) × (f.s < length alt))
    unfolding top_at
    symbol_there sound more =
        let (inside, same) = top_of-top_at sound in
        (
          inside,
          elim (Option-cases (alt_of g f.r f.a)) [
            | inl e ↦ absurd (sound (same ∙ rw (e, top_at) refl))
            | inr (alt, e) ↦ elim (Option-cases (get_elem? alt f.s)) [
              | inl q ↦ absurd (more (same ∙ rw (e, top_at, q) refl))
              | inr (x, q) ↦ (alt, e, get_elem?_below alt f.s q)
            ]
          ],
        )

    module _ (narrow : IsNarrow g) where
      -- The position past a symbol does not wrap around.
      next_in_range :
          top_of g f ≢ broken
          → top_of g f ≢ exhausted
          → (step_frame f ≡ record f { s = suc f.s }) × (all_nonneg (step_frame f) ≡ true)
      next_in_range sound more =
          let (inside, (alt, e, lt)) = symbol_there sound more in
          let (_, _, short) = narrow-alt g narrow f.r f.a alt e in
          let fits : int16 (suc f.s) ≡ suc f.s = omega (arith, lt, short) in
          (ap (λ n. record f { s = n }) fits, rw fits (ground (arith, inside, lt, short)))

      pub after_terminal :
          (c : ByteSet)
          → top_of g f ≡ terminal c
          → (step_frame f ≡ record f { s = suc f.s }) × (all_nonneg (step_frame f) ≡ true)
      after_terminal c h =
          next_in_range (λ x. let y = sym x ∙ h in ground arith)
            (λ x. let y = sym x ∙ h in ground arith)

      pub after_call :
          (r : ℕ)
          → top_of g f ≡ call r
          → (step_frame f ≡ record f { s = suc f.s }) × (all_nonneg (step_frame f) ≡ true)
      after_call r h =
          next_in_range (λ x. let y = sym x ∙ h in ground arith)
            (λ x. let y = sym x ∙ h in ground arith)

      pub rest_of-terminal :
          (c : ByteSet) → top_of g f ≡ terminal c → rest_of g f ≡ cls c ∷ rest_of g (step_frame f)
      rest_of-terminal c h =
          rest_of-class c h ∙ ap (λ f'. cls c ∷ rest_of g f') (sym (after_terminal c h).0)

      pub rest_of-call :
          (r : ℕ) → top_of g f ≡ call r → rest_of g f ≡ ref r ∷ rest_of g (step_frame f)
      rest_of-call r h =
          rest-at_call r (sym (top_of-top_at (λ x. let y = sym x ∙ h in ground arith)).1 ∙ h)
          ∙ ap (λ f'. ref r ∷ rest_of g f') (sym (after_call r h).0)

module _ (g : Grammar) where
  -- The alternates from the one numbered `a` on.
  abbrev pub Agrees : ℕ → ℕ → List Alt → Type 0
  Agrees r a [] = Unit
  Agrees r a (alt ∷ alts) = (alt_of g r a ≡ some alt) × Agrees r (suc a) alts

  pub Agrees-alts_of :
      (r : ℕ) (all : List Alt)
      → alts_of g r ≡ some all
      → (alts : List Alt) (a : ℕ) → ((i : ℕ) → get_elem? alts i ≡ get_elem? all (a + i))
      → Agrees r a alts
  unfolding alt_of
  Agrees-alts_of r all e [] a h = tt
  Agrees-alts_of r all e (alt ∷ alts) a h = (
    (let z : a + 0 ≡ a = omega arith in let q = h 0 in ground arith),
    Agrees-alts_of r all e alts (suc a) (λ i. h (suc i) ∙ ap (get_elem? all) (omega arith)),
  )
