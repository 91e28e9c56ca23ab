-- ===== src/Grammar/Invariant.antt =====
-- The invariant of the walker's set of stacks: what `gr__normalize` leaves in it, and that on a
-- closed grammar with `int16_t` positions no array is read out of its bounds.
use moty.Base.{
  ℕ, ◌≤◌, ◌<◌, ◌≡◌, refl, sym, ◌∙◌, inl, inr, true, false, ◌||◌, some, List, [], ◌∷◌, ◌++◌,
  get_elem?, length, All, All-append, All-get_elem?, get_elem?_total, length-append, arith,
  Bool-cases, Option-cases, leb,
}
use moty.Grammar.Syntax.{
  cls, ref, all_nonneg, ByteSet, Alt, Rule, Grammar, Frame, Stack, alts_of, alt_of, SymBelow,
  IsClosed,
}
use moty.Grammar.Positions.{top_of-top_at}
use moty.Grammar.Walker.{
  Walk, ok, overflow, fault, ◌>>=◌, broken, terminal, call, top_at, top_of, frame_eq, stack_eq,
  has_stack, set_add, max_stacks, max_depth,
}

-- The result, if there is one, satisfies `P`; and there is no fault.
abbrev pub Ensures : {A : Type 0} → (A → Type 0) → Walk A → Type 0
Ensures P (ok a) = P a
Ensures P overflow = Unit
Ensures P fault = ⊥

pub Ensures-bind :
    {A B : Type 0} (P : A → Type 0) (Q : B → Type 0) (m : Walk A) (f : A → Walk B)
    → Ensures P m
    → ((a : A) → P a → Ensures Q (f a))
    → Ensures Q (m >>= f)
Ensures-bind P Q (ok a) f h k = k a h
Ensures-bind P Q overflow f h k = tt
Ensures-bind P Q fault f h k = h

stack_eq_symm : (k k' : Stack) → stack_eq k k' ≡ stack_eq k' k
unfolding stack_eq frame_eq
stack_eq_symm [] [] = refl
stack_eq_symm [] (f' ∷ k') = refl
stack_eq_symm (f ∷ k) [] = refl
stack_eq_symm (f ∷ k) (f' ∷ k') = ground (arith, stack_eq_symm k k')

-- No stack occurs twice.
abbrev pub Distinct : List Stack → Type 0
Distinct [] = Unit
Distinct (k ∷ ks) = (has_stack k ks ≡ false) × Distinct ks

has_stack-append :
    (j k : Stack) (ks : List Stack) → has_stack j (ks ++ k ∷ []) ≡ has_stack j ks || stack_eq k j
unfolding has_stack
has_stack-append j k [] = ground arith
has_stack-append j k (i ∷ ks) = ground (arith, has_stack-append j k ks)

Distinct-append :
    (k : Stack) (ks : List Stack) → Distinct ks → has_stack k ks ≡ false → Distinct (ks ++ k ∷ [])
unfolding has_stack
Distinct-append k [] d h = (refl, tt)
Distinct-append k (i ∷ ks) d h = (
  ground (arith, has_stack-append i k ks, stack_eq_symm i k, d.0),
  Distinct-append k ks d.1 (ground arith),
)

module _ (g : Grammar) where
  -- A frame names an alternate of the grammar, and no number of it is negative.
  abbrev pub IsPlaced : Frame → Type 0
  IsPlaced f = (all_nonneg f ≡ true) × ((alt : Alt) × (alt_of g f.r f.a ≡ some alt))

  -- The stack is empty, which ends a parse, or its top is a class of bytes.
  abbrev pub IsNormal : Stack → Type 0
  IsNormal [] = Unit
  IsNormal (f ∷ k) = (c : ByteSet) × (top_of g f ≡ terminal c)

  pub record IsValid (ks : List Stack) : Type 0 where
    pub normal : All IsNormal ks
    pub placed : All (All IsPlaced) ks
    pub shallow : All (λ k. length k ≤ max_depth) ks
    pub few : length ks ≤ max_stacks
    pub distinct : Distinct ks

  pub IsValid-nil : IsValid []
  IsValid-nil = record { normal = tt; placed = tt; shallow = tt; few = omega arith; distinct = tt }

  pub set_add-IsValid :
      (out : List Stack) (k : Stack)
      → IsValid out
      → IsNormal k
      → All IsPlaced k
      → length k ≤ max_depth
      → Ensures IsValid (set_add out k)
  unfolding set_add
  set_add-IsValid out k v n p s = elim (Bool-cases (has_stack k out)) [
    | inl e ↦ rw e v
    | inr e ↦ elim (Bool-cases (leb max_stacks (length out))) [
      | inl full ↦ rw (e, full) tt
      | inr room ↦
          rw (e, room)
            (record {
              normal = All-append IsNormal out (k ∷ []) v.normal (n, tt);
              placed = All-append (All IsPlaced) out (k ∷ []) v.placed (p, tt);
              shallow = All-append (λ j. length j ≤ max_depth) out (k ∷ []) v.shallow (s, tt);
              few = rw length-append (ground (arith, v.few));
              distinct = Distinct-append k out v.distinct e;
            })
    ]
  ]

  pub top_of-placed : (f : Frame) → IsPlaced f → ¬ (top_of g f ≡ broken)
  unfolding top_of top_at
  top_of-placed f (inside, (alt, e)) h = elim (Option-cases (get_elem? alt f.s)) [
    | inl s ↦ ground arith
    | inr (cls c, s) ↦ ground arith
    | inr (ref r, s) ↦ ground arith
  ]

  pub alts_of_total : (r : ℕ) → r < length g.rules → (alts : List Alt) × (alts_of g r ≡ some alts)
  unfolding alts_of
  alts_of_total r h = let (rule, e) = get_elem?_total g.rules r h in (rule.alts, rw (e, alts_of))

  -- On a closed grammar the reference at the top of a frame names a rule.
  pub closed-call : (f : Frame) (r : ℕ) → IsClosed g → top_of g f ≡ call r → r < length g.rules
  unfolding top_of top_at alt_of alts_of
  closed-call f r c broad =
      let h = sym (top_of-top_at g f (λ x. let y = sym x ∙ broad in ground arith)).1 ∙ broad in
      elim (Option-cases (get_elem? g.rules f.r)) [
        | inl e ↦ absurd (ground arith)
        | inr (rule, e) ↦ elim (Option-cases (get_elem? rule.alts f.a)) [
          | inl q ↦ absurd (ground arith)
          | inr (alt, q) ↦
              let inside =
                All-get_elem? (All (SymBelow (length g.rules))) rule.alts f.a alt
                  (All-get_elem? (λ (i : Rule). All (All (SymBelow (length g.rules))) i.alts)
                    g.rules f.r rule c.refs_in e)
                  q in
              elim (Option-cases (get_elem? alt f.s)) [
                | inl s ↦ absurd (ground arith)
                | inr (cls b, s) ↦ absurd (ground arith)
                | inr (ref r', s) ↦
                    let same : r' ≡ r = ground arith in
                    rw (← same)
                      (All-get_elem? (SymBelow (length g.rules)) alt f.s (ref r') inside s)
              ]
        ]
      ]
