-- ===== src/Grammar/Exact.antt =====
-- `gr__normalize` and `gr__set_add` keep what a set of stacks derives.
use moty.Base.{
  ℕ, zero, suc, ◌≡◌, ◌↔◌, refl, ap, ◌⊎◌, inl, inr, true, some, List, [], ◌∷◌, ◌++◌, get_elem?,
  length, Any, arith, Bool-cases, Option-cases, leb,
}
use moty.Grammar.Syntax.{Sym, ref, Alt, Grammar, Frame, Stack, alts_of, alt_of, IsNarrow}
use moty.Grammar.Language.{Matches, expand, rest_of, symbols, Accepts}
use moty.Grammar.Walker.{
  Walk, ok, overflow, fault, ◌>>=◌, top_of, step_frame, frame_eq, stack_eq, has_stack, set_add,
  each_alt, branch, normalize,
}
use moty.Grammar.Positions.{
  new_frame-alt, Any-append_one, Any-index, Any-of_index, is_broken, is_exhausted, is_terminal,
  is_call, top-cases, rest_of-exhausted, rest_of-call, Agrees, Agrees-alts_of,
}

frame_eq-eq : (f f' : Frame) → frame_eq f f' ≡ true → f ≡ f'
unfolding frame_eq
frame_eq-eq f f' h = ground arith

stack_eq-eq : (k k' : Stack) → stack_eq k k' ≡ true → k ≡ k'
unfolding stack_eq
stack_eq-eq [] [] h = refl
stack_eq-eq [] (f' ∷ k') h = cc
stack_eq-eq (f ∷ k) [] h = cc
stack_eq-eq (f ∷ k) (f' ∷ k') h = ground (arith, frame_eq-eq f f', stack_eq-eq k k')

has_stack-Any :
    (P : Stack → Type 0) (k : Stack) (ks : List Stack) → has_stack k ks ≡ true → P k → Any P ks
unfolding has_stack
has_stack-Any P k [] h p = absurd (cc)
has_stack-Any P k (k' ∷ ks) h p = elim (Bool-cases (stack_eq k' k)) [
  | inl e ↦ inl (rw (stack_eq-eq k' k e) p)
  | inr e ↦ inr (has_stack-Any P k ks (ground arith) p)
]

-- What a call adds to a set of stacks: exactly the words of `ss`.
abbrev pub Adds : Grammar → List Stack → List Sym → List Stack → Type 0
Adds g out ss out' = (w : List ℕ) → Accepts g out' w ↔ (Accepts g out w ⊎ Matches g ss w)

set_add-Adds :
    (g : Grammar) (out : List Stack) (k : Stack) (out' : List Stack)
    → set_add out k ≡ ok out'
    → Adds g out (symbols g k) out'
unfolding set_add
set_add-Adds g out k out' h w = elim (Bool-cases (has_stack k out)) [
  | inl e ↦
      let same : out ≡ out' = ground arith in
      (
        rw (← same) (λ a. inl a),
        rw (← same) (elim [ inl a ↦ a | inr m ↦ has_stack-Any _ k out e m ]),
      )
  | inr e ↦
      let same : out ++ k ∷ [] ≡ out' = ground arith in
      rw (← same) (Any-append_one (λ j. Matches g (symbols g j) w) out k)
]

-- `ok` on a bind comes from `ok` on both steps.
pub bind-eq-ok :
    {A B : Type 0} (m : Walk A) (f : A → Walk B) {b : B}
    → (m >>= f) ≡ ok b
    → (a : A) × (m ≡ ok a) × (f a ≡ ok b)
bind-eq-ok (ok a) f h = (a, refl, h)
bind-eq-ok overflow f h = cc
bind-eq-ok fault f h = cc

module _ (g : Grammar) where
  -- A reference derives what one of the alternates of its rule does.
  pub call-inv :
      (r : ℕ) (alts : List Alt) (ss : List Sym) (w : List ℕ)
      → alts_of g r ≡ some alts
      → Matches g (ref r ∷ ss) w
      → Any (λ alt. Matches g (alt ++ ss) w) alts
  unfolding alt_of
  call-inv r alts ss w e (expand a alt q m) = Any-of_index _ alts a alt (ground arith) m

  pub call-of :
      (r : ℕ) (alts : List Alt) (ss : List Sym) (w : List ℕ)
      → alts_of g r ≡ some alts
      → Any (λ alt. Matches g (alt ++ ss) w) alts
      → Matches g (ref r ∷ ss) w
  unfolding alt_of
  call-of r alts ss w e p =
      let (a, alt, q, m) = Any-index _ alts p in expand {r = r} a alt (ground arith) m

  pub start_of :
      (r a : ℕ) (alt : Alt) (k : Stack)
      → alt_of g r a ≡ some alt
      → symbols g (record { r = r; a = a; s = 0 } ∷ k) ≡ alt ++ symbols g k
  unfolding symbols rest_of
  start_of r a alt k e = rw (e, rest_of)

  module _ (narrow : IsNarrow g) (go : Stack → List Stack → Walk (List Stack))
      (exact : (k : Stack) (out out' : List Stack)
        → go k out ≡ ok out'
        → Adds g out (symbols g k) out')
      (r : ℕ) (k : Stack) where
    each_alt-Adds :
        (alts : List Alt) (a : ℕ) (out out' : List Stack)
        → Agrees g r a alts
        → each_alt go r k alts a out ≡ ok out'
        → (w : List ℕ)
        → Accepts g out' w ↔ (Accepts g out w ⊎ Any (λ alt. Matches g (alt ++ symbols g k) w) alts)
    unfolding each_alt
    each_alt-Adds [] a out out' ag h w =
        let same : out ≡ out' = ground arith in
        rw (← same) (λ x. inl x, elim [ inl x ↦ x | inr x ↦ absurd x ])
    each_alt-Adds (alt ∷ alts) a out out' ag h w = elim (Bool-cases (leb 64 (length k))) [
      | inl e ↦ absurd (ground arith)
      | inr e ↦
          let (mid, one, rest) = bind-eq-ok _ _ (rw e at h) in
          let first =
            rw ((new_frame-alt g narrow r a alt ag.0).0, start_of r a alt k ag.0) at
              (exact _ out mid one w) in
          let later = each_alt-Adds alts (suc a) mid out' ag.1 rest w in
          (
            (λ x. elim (later.0 x) [
              | inl y ↦ elim (first.0 y) [ inl p ↦ inl p | inr p ↦ inr (inl p) ]
              | inr p ↦ inr (inr p)
            ]),
            elim [
              | inl x ↦ later.1 (inl (first.1 (inl x)))
              | inr (inl x) ↦ later.1 (inl (first.1 (inr x)))
              | inr (inr x) ↦ later.1 (inr x)
            ],
          )
    ]

    branch-Adds :
        (out out' : List Stack)
        → branch g go r k out ≡ ok out'
        → Adds g out (ref r ∷ symbols g k) out'
    unfolding branch
    branch-Adds out out' h w = elim (Option-cases (alts_of g r)) [
      | inl e ↦ absurd (ground arith)
      | inr (alts, e) ↦
          let ag = Agrees-alts_of g r alts e alts 0 (λ i. ap (get_elem? alts) (omega arith)) in
          let each = each_alt-Adds alts 0 out out' ag (ground arith) w in
          (
            (λ x. elim (each.0 x) [
              | inl p ↦ inl p
              | inr p ↦ inr (call-of r alts (symbols g k) w e p)
            ]),
            elim [
              | inl x ↦ each.1 (inl x)
              | inr m ↦ each.1 (inr (call-inv r alts (symbols g k) w e m))
            ],
          )
    ]

  -- `gr__normalize` adds to the set what the stack derives, and nothing else.
  pub normalize-Adds :
      IsNarrow g
      → (d : ℕ) (k : Stack) (out out' : List Stack) → normalize g d k out ≡ ok out'
      → Adds g out (symbols g k) out'
  unfolding normalize symbols
  normalize-Adds n zero [] out out' h = set_add-Adds g out [] out' h
  normalize-Adds n (suc d) [] out out' h = set_add-Adds g out [] out' h
  normalize-Adds n zero (f ∷ k) out out' h = elim (top-cases (top_of g f)) [
    | is_broken e ↦ absurd (ground arith)
    | is_exhausted e ↦
        rw (rest_of-exhausted g f e) (normalize-Adds n zero k out out' (rw (e, normalize) at h))
    | is_terminal c e ↦ set_add-Adds g out (f ∷ k) out' (rw (e, normalize) at h)
    | is_call r e ↦ absurd (ground arith)
  ]
  normalize-Adds n (suc d) (f ∷ k) out out' h = elim (top-cases (top_of g f)) [
    | is_broken e ↦ absurd (ground arith)
    | is_exhausted e ↦
        rw (rest_of-exhausted g f e) (normalize-Adds n (suc d) k out out' (rw (e, normalize) at h))
    | is_terminal c e ↦ set_add-Adds g out (f ∷ k) out' (rw (e, normalize) at h)
    | is_call r e ↦ rw (rest_of-call g f n r e) (
        branch-Adds n (normalize g d) (normalize-Adds n d) r (step_frame f ∷ k) out out'
          (rw (e, normalize) at h))
  ]
