-- ===== src/Grammar/Safety.antt =====
-- On a closed grammar of which the positions are `int16_t` the walker reads no array out of its bounds
-- and keeps its sets of stacks valid.
use moty.Base.{
  ℕ, zero, suc, ◌≤◌, ◌<◌, ◌≡◌, ap, ◌∙◌, some, ◌⊎◌, inl, inr, true, false, List, [], ◌∷◌, get_elem?,
  length, All, arith, Bool-cases, leb, if◌then◌else◌,
}
use moty.Grammar.Syntax.{Frame, alt_of, all_nonneg, Alt, Grammar, Stack, IsNarrow, IsRunnable}
use moty.Grammar.Walker.{
  Walk, ok, overflow, fault, top_of, new_frame, step_frame, each_alt, branch, normalize, max_depth,
  init_loop, accept_loop, start, settle, State, state_init, accept,
}
use moty.Grammar.Positions.{
  is_broken, is_exhausted, is_terminal, is_call, top-cases, Agrees, Agrees-alts_of, new_frame-alt,
  after_terminal, after_call,
}
use moty.Grammar.Invariant.{
  Ensures, Ensures-bind, IsPlaced, IsNormal, IsValid, IsValid-nil, set_add-IsValid, top_of-placed,
  alts_of_total, closed-call,
}

module _ (g : Grammar) where
  -- The start of an alternate, and the position past a symbol.
  IsPlaced-start :
      IsNarrow g → (r a : ℕ) (alt : Alt) → alt_of g r a ≡ some alt → IsPlaced g (new_frame r a)
  IsPlaced-start narrow r a alt e =
      let (same, inside) = new_frame-alt g narrow r a alt e in
      (inside, (alt, ap (λ (f : Frame). alt_of g f.r f.a) same ∙ e))

  IsPlaced-next :
      (f : Frame) → IsPlaced g f → all_nonneg (step_frame f) ≡ true → IsPlaced g (step_frame f)
  IsPlaced-next f p inside = (inside, p.1)

  module _ (go : Stack → List Stack → Walk (List Stack))
      (keeps : (k : Stack) (out : List Stack)
        → (IsValid g) out
        → All (IsPlaced g) k
        → length k ≤ max_depth
        → Ensures (IsValid g) (go k out))
      (narrow : IsNarrow g) (r : ℕ) (k : Stack) (placed : All (IsPlaced g) k) where
    each_alt-IsValid :
        (alts : List Alt) (a : ℕ) (out : List Stack)
        → Agrees g r a alts
        → (IsValid g) out
        → Ensures (IsValid g) (each_alt go r k alts a out)
    unfolding each_alt
    each_alt-IsValid [] a out ag v = v
    each_alt-IsValid (alt ∷ alts) a out ag v = elim (Bool-cases (leb max_depth (length k))) [
      | inl full ↦ rw full tt
      | inr room ↦ rw room (
          Ensures-bind (IsValid g) (IsValid g) _ (each_alt go r k alts (suc a))
            (keeps _ out v (IsPlaced-start narrow r a alt ag.0, placed) (ground arith))
            (λ mid w. each_alt-IsValid alts (suc a) mid ag.1 w))
    ]

    branch-IsValid :
        (out : List Stack)
        → r < length g.rules
        → (IsValid g) out
        → Ensures (IsValid g) (branch g go r k out)
    unfolding branch
    branch-IsValid out h v =
        let (alts, e) = alts_of_total g r h in
        rw (e, branch)
          (each_alt-IsValid alts 0 out
            (Agrees-alts_of g r alts e alts 0 (λ i. ap (get_elem? alts) (omega arith))) v)

  -- `gr__normalize` reads only inside the grammar, and leaves a valid set.
  pub normalize-IsValid :
      IsRunnable g
      → (d : ℕ) (k : Stack) (out : List Stack) → (IsValid g) out
      → All (IsPlaced g) k
      → length k ≤ max_depth
      → Ensures (IsValid g) (normalize g d k out)
  unfolding normalize
  normalize-IsValid c zero [] out v p s = set_add-IsValid g out [] v tt tt s
  normalize-IsValid c (suc d) [] out v p s = set_add-IsValid g out [] v tt tt s
  normalize-IsValid c zero (f ∷ k) out v p s = elim (top-cases (top_of g f)) [
    | is_broken e ↦ absurd (top_of-placed g f p.0 e)
    | is_exhausted e ↦ rw (e, normalize) (normalize-IsValid c zero k out v p.1 (omega arith))
    | is_terminal b e ↦ rw (e, normalize) (set_add-IsValid g out (f ∷ k) v (b, e) p s)
    | is_call r e ↦ rw (e, normalize) tt
  ]
  normalize-IsValid c (suc d) (f ∷ k) out v p s = elim (top-cases (top_of g f)) [
    | is_broken e ↦ absurd (top_of-placed g f p.0 e)
    | is_exhausted e ↦ rw (e, normalize) (normalize-IsValid c (suc d) k out v p.1 (omega arith))
    | is_terminal b e ↦ rw (e, normalize) (set_add-IsValid g out (f ∷ k) v (b, e) p s)
    | is_call r e ↦
        rw (e, normalize)
          (branch-IsValid (normalize g d) (normalize-IsValid c d) c.narrow r (step_frame f ∷ k)
            (IsPlaced-next f p.0 (after_call g f c.narrow r e).1, p.1) out
            (closed-call g f r c.closed e) v)
  ]

  -- The initial state of such a grammar is valid.
  pub init_loop-IsValid :
      IsRunnable g
      → (alts : List Alt) (a : ℕ) (out : List Stack) → Agrees g g.root a alts
      → (IsValid g) out
      → Ensures (IsValid g) (init_loop g alts a out)
  unfolding init_loop
  init_loop-IsValid c [] a out ag v = v
  init_loop-IsValid c (alt ∷ alts) a out ag v =
      Ensures-bind (IsValid g) (IsValid g) _ (init_loop g alts (suc a))
        (normalize-IsValid c max_depth _ out v (IsPlaced-start c.narrow g.root a alt ag.0, tt)
          (omega arith))
        (λ mid w. init_loop-IsValid c alts (suc a) mid ag.1 w)

  pub accept_loop-IsValid :
      IsRunnable g
      → (b : ℕ) (ks out : List Stack) → All (IsNormal g) ks
      → All (All (IsPlaced g)) ks
      → All (λ k. length k ≤ max_depth) ks
      → (IsValid g) out
      → Ensures (IsValid g) (accept_loop g b ks out)
  unfolding accept_loop
  accept_loop-IsValid c b [] out n p s v = v
  accept_loop-IsValid c b ([] ∷ ks) out n p s v = accept_loop-IsValid c b ks out n.1 p.1 s.1 v
  accept_loop-IsValid c b ((f ∷ k) ∷ ks) out ((class, e), n) p s v =
      rw (e, accept_loop)
        (Ensures-bind (IsValid g) (IsValid g) _ (accept_loop g b ks) (one (Bool-cases (class b)))
          (λ mid w. accept_loop-IsValid c b ks mid n p.1 s.1 w))
    where
      one :
          (class b ≡ true) ⊎ (class b ≡ false)
          → Ensures
              (IsValid g)
              (if class b then normalize g max_depth (step_frame f ∷ k) out else ok out)
      one (inl h) = rw h (
          normalize-IsValid c max_depth _ out v
            (IsPlaced-next f p.0.0 (after_terminal g f c.narrow class e).1, p.0.1) s.0)
      one (inr h) = rw h v

  -- A state is valid if its set of stacks is.
  abbrev pub IsValidState : State → Type 0
  IsValidState st = (IsValid g) st.stacks

  -- `gr_state_init` reads inside the grammar and gives a valid state.
  pub state_init-IsValid : IsRunnable g → Ensures IsValidState (state_init g)
  unfolding state_init
  state_init-IsValid c =
      let (alts, e) = alts_of_total g g.root c.closed.root_in in
      let inner =
        init_loop-IsValid c alts 0 []
          (Agrees-alts_of g g.root alts e alts 0 (λ i. ap (get_elem? alts) (omega arith)))
          (IsValid-nil g) in
      rw (e, state_init) (begin (init_loop g alts 0 []) inner)
    where
      begin : (m : Walk (List Stack)) → Ensures (IsValid g) m → Ensures IsValidState (start m)
      begin fault h = h
      begin overflow h = IsValid-nil g
      begin (ok []) h = IsValid-nil g
      begin (ok (k ∷ ks)) h = h

  -- `gr_accept` reads inside the grammar and keeps the state valid, for every byte.
  pub accept-IsValid :
      IsRunnable g
      → (b : ℕ) (st : State) → IsValidState st
      → Ensures (λ r. IsValidState r.1) (accept g b st)
  unfolding accept
  accept-IsValid c b st v = elim (Bool-cases st.alive) [
    | inl on ↦
        simp (on, accept, if◌then◌else◌)
          (settled (accept_loop g b st.stacks [])
            (accept_loop-IsValid c b st.stacks [] v.normal v.placed v.shallow (IsValid-nil g)))
    | inr dead ↦ simp (dead, accept, if◌then◌else◌) v
  ]
    where
      settled :
          (m : Walk (List Stack))
          → Ensures (IsValid g) m
          → Ensures (λ r. IsValidState r.1) (settle st m)
      settled fault h = h
      settled overflow h = v
      settled (ok []) h = v
      settled (ok (k ∷ ks)) h = h
