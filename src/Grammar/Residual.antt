-- ===== src/Grammar/Residual.antt =====
-- A byte takes the walker from the words of a state to their residual by that byte.
use moty.Base.{
  ℕ, suc, ◌<◌, ◌≡◌, ◌↔◌, ◌⊎◌, inl, inr, true, List, [], ◌∷◌, ◌++◌, All, Any, arith, Bool-cases,
  if◌then◌else◌,
}
use moty.Grammar.Syntax.{Sym, cls, ByteSet, Alt, Grammar, Frame, Stack, IsNarrow}
use moty.Grammar.Language.{Matches, byte, symbols, Accepts}
use moty.Grammar.Walker.{
  ok, terminal, top_of, step_frame, max_depth, normalize, init_loop, accept_loop,
}
use moty.Grammar.Positions.{rest_of-terminal, new_frame-alt, Agrees}
use moty.Grammar.Exact.{bind-eq-ok, normalize-Adds, start_of}
use moty.Grammar.Invariant.{IsNormal}

module _ (g : Grammar) (narrow : IsNarrow g) where
  Matches-cls :
      (c : ByteSet) (ss : List Sym) (b : ℕ) (w : List ℕ)
      → Matches g (cls c ∷ ss) (b ∷ w)
      → (c b ≡ true) × Matches g ss w
  Matches-cls c ss b w (byte lt h m) = (h, m)

  not-Matches-nil : (b : ℕ) (w : List ℕ) → ¬ Matches g [] (b ∷ w)
  not-Matches-nil b w m = elim m [ ]

  module _ (b : ℕ) (is_byte : b < 256) where
    -- One stack, moved past its class.
    step-Adds :
        (f : Frame) (k : Stack) (c : ByteSet) (out mid : List Stack)
        → top_of g f ≡ terminal c
        → (if c b then normalize g max_depth (step_frame f ∷ k) out else ok out) ≡ ok mid
        → (w : List ℕ) → Accepts g mid w ↔ (Accepts g out w ⊎ Matches g (symbols g (f ∷ k)) (b ∷ w))
    unfolding symbols
    step-Adds f k c out mid e h w = rw (rest_of-terminal g f narrow c e) (elim (Bool-cases (c b)) [
      | inl set ↦
          let adds = normalize-Adds g narrow max_depth _ out mid (rw set at h) w in
          (
            (λ x. elim (adds.0 x) [ inl p ↦ inl p | inr m ↦ inr (byte is_byte set m) ]),
            elim [ inl p ↦ adds.1 (inl p) | inr m ↦ adds.1 (inr (Matches-cls c _ b w m).1) ],
          )
      | inr clear ↦
          let same : out ≡ mid = ground arith in
          (
            (λ x. inl (rw same x)),
            elim [
              | inl p ↦ rw (← same) p
              | inr m ↦ absurd (let q = (Matches-cls c _ b w m).0 in ground arith)
            ],
          )
    ])

    pub accept_loop-Adds :
        (ks out out' : List Stack)
        → All (IsNormal g) ks
        → accept_loop g b ks out ≡ ok out'
        → (w : List ℕ) → Accepts g out' w ↔ (Accepts g out w ⊎ Accepts g ks (b ∷ w))
    unfolding accept_loop symbols
    accept_loop-Adds [] out out' n h w =
        let same : out ≡ out' = ground arith in
        rw (← same) (λ x. inl x, elim [ inl x ↦ x | inr x ↦ absurd x ])
    accept_loop-Adds ([] ∷ ks) out out' n h w =
        let later = accept_loop-Adds ks out out' n.1 h w in
        (
          (λ x. elim (later.0 x) [ inl p ↦ inl p | inr p ↦ inr (inr p) ]),
          elim [
            | inl p ↦ later.1 (inl p)
            | inr (inl m) ↦ absurd (not-Matches-nil b w m)
            | inr (inr p) ↦ later.1 (inr p)
          ],
        )
    accept_loop-Adds ((f ∷ k) ∷ ks) out out' ((c, e), n) h w =
        let (mid, one, rest) = bind-eq-ok _ (accept_loop g b ks) (rw (e, accept_loop) at h) in
        let first = step-Adds f k c out mid e one w in
        let later = accept_loop-Adds ks mid out' n rest w in
        (
          (λ x. elim (later.0 x) [
            | inl y ↦ elim (first.0 y) [ inl p ↦ inl p | inr p ↦ inr (inl p) ]
            | inr p ↦ inr (inr p)
          ]),
          elim [
            | inl x ↦ later.1 (inl (first.1 (inl x)))
            | inr (inl x) ↦ later.1 (inl (first.1 (inr x)))
            | inr (inr x) ↦ later.1 (inr x)
          ],
        )

  pub init_loop-Adds :
      (alts : List Alt) (a : ℕ) (out out' : List Stack)
      → Agrees g g.root a alts
      → init_loop g alts a out ≡ ok out'
      → (w : List ℕ)
      → Accepts g out' w ↔ (Accepts g out w ⊎ Any (λ alt. Matches g (alt ++ []) w) alts)
  unfolding init_loop symbols
  init_loop-Adds [] a out out' ag h w =
      let same : out ≡ out' = ground arith in
      rw (← same) (λ x. inl x, elim [ inl x ↦ x | inr x ↦ absurd x ])
  init_loop-Adds (alt ∷ alts) a out out' ag h w =
      let (mid, one, rest) = bind-eq-ok _ (init_loop g alts (suc a)) h in
      let first =
        rw ((new_frame-alt g narrow g.root a alt ag.0).0, start_of g g.root a alt [] ag.0) at
          (normalize-Adds g narrow max_depth _ out mid one w) in
      let later = init_loop-Adds alts (suc a) mid out' ag.1 rest w in
      (
        (λ x. elim (later.0 x) [
          | inl y ↦ elim (first.0 y) [ inl p ↦ inl p | inr p ↦ inr (inl p) ]
          | inr p ↦ inr (inr p)
        ]),
        elim [
          | inl x ↦ later.1 (inl (first.1 (inl x)))
          | inr (inl x) ↦ later.1 (inl (first.1 (inr x)))
          | inr (inr x) ↦ later.1 (inr x)
        ],
      )
