-- ===== src/Grammar/Accept.antt =====
-- `gr_state_init` and `gr_accept` against the language of the grammar.
use moty.Base.{
  ℕ, ◌<◌, ◌≡◌, ◌↔◌, refl, ap, ◌⊎◌, inl, inr, true, false, some, List, [], ◌∷◌, ◌++◌, get_elem?, All,
  arith, Bool-cases, Option-cases, if◌then◌else◌,
}
use moty.Grammar.Syntax.{Alt, Grammar, Stack, alts_of, IsNarrow, IsRunnable}
use moty.Grammar.Language.{Accepts, InLanguage}
use moty.Grammar.Walker.{
  Walk, ok, overflow, fault, ◌>>=◌, init_loop, accept_loop, State, Outcome, consumed, refused, off,
  start, settle, state_init, accept,
}
use moty.Grammar.Positions.{Agrees-alts_of}
use moty.Grammar.Exact.{call-inv, call-of}
use moty.Grammar.Invariant.{IsValid, IsValid-nil, Ensures}
use moty.Grammar.Safety.{IsValidState, accept_loop-IsValid, state_init-IsValid}
use moty.Grammar.Residual.{accept_loop-Adds, init_loop-Adds}

-- There is a result, and it satisfies `P`.
abbrev pub Returns : {A : Type 0} → (A → Type 0) → Walk A → Type 0
Returns P (ok a) = P a
Returns P overflow = ⊥
Returns P fault = ⊥

pub Returns-map :
    {A : Type 0} (m : Walk A) (P Q : A → Type 0) → Returns P m → ((a : A) → P a → Q a) → Returns Q m
Returns-map (ok a) P Q h k = k a h
Returns-map overflow P Q h k = h
Returns-map fault P Q h k = h

pub Returns-bind :
    {A B : Type 0} (m : Walk A) (f : A → Walk B) (P : A → Type 0) (Q : B → Type 0)
    → Returns P m
    → ((a : A) → P a → Returns Q (f a))
    → Returns Q (m >>= f)
Returns-bind (ok a) f P Q h k = k a h
Returns-bind overflow f P Q h k = h
Returns-bind fault f P Q h k = h

module _ (g : Grammar) where
  -- What a result of `gr_accept` says of the words that begin with the byte.
  abbrev pub IsResidual : ℕ → State → Outcome × State → Type 0
  IsResidual b st (consumed, st') =
      (st'.alive ≡ true) × ((w : List ℕ) → Accepts g st'.stacks w ↔ Accepts g st.stacks (b ∷ w))
  IsResidual b st (refused, st') = (st' ≡ st) × ((w : List ℕ) → ¬ Accepts g st.stacks (b ∷ w))
  IsResidual b st (off, st') = (st'.alive ≡ false) × (st'.stacks ≡ st.stacks)

  settle-IsResidual :
      (b : ℕ) (st : State)
      → st.alive ≡ true
      → (m : Walk (List Stack)) → Ensures (IsValid g) m
      → ((out : List Stack)
          → m ≡ ok out
          → (w : List ℕ) → Accepts g out w ↔ (⊥ ⊎ Accepts g st.stacks (b ∷ w)))
      → IsValid g st.stacks
      → Returns (λ r. IsValidState g r.1 × IsResidual b st r) (settle st m)
  settle-IsResidual b st on fault e adds v = e
  settle-IsResidual b st on overflow e adds v = (v, (refl, refl))
  settle-IsResidual b st on (ok []) e adds v = (v, (refl, λ w a. (adds [] refl w).1 (inr a)))
  settle-IsResidual b st on (ok (k ∷ ks)) e adds v = (
    e,
    (
      on,
      λ w. (
        (λ a. elim ((adds (k ∷ ks) refl w).0 a) [ inl x ↦ absurd x | inr x ↦ x ]),
        λ a. (adds (k ∷ ks) refl w).1 (inr a),
      ),
    ),
  )

  -- On a closed grammar with at most 2^15 rules, at most 2^15 alternates in a rule and fewer than
  -- 2^15 symbols in an alternate, and a valid state, `gr_accept` returns for every byte, without a
  -- read out of bounds, in a valid state. If it consumed the byte, the new state accepts `w` exactly if the
  -- old one accepts the byte followed by `w`; if it refused it, the state is unchanged and no
  -- word that it accepts begins with the byte; otherwise the walker is off.
  pub accept-IsResidual :
      IsRunnable g
      → (b : ℕ) → b < 256
      → (st : State) → IsValidState g st
      → Returns (λ r. IsValidState g r.1 × IsResidual b st r) (accept g b st)
  unfolding accept
  accept-IsResidual c b lt st v = elim (Bool-cases st.alive) [
    | inl on ↦
        simp (on, accept, if◌then◌else◌)
          (settle-IsResidual b st on (accept_loop g b st.stacks [])
            (accept_loop-IsValid g c b st.stacks [] v.normal v.placed v.shallow (IsValid-nil g))
            (λ out e. accept_loop-Adds g c.narrow b lt st.stacks [] out v.normal e) v)
    | inr dead ↦ simp (dead, accept, if◌then◌else◌) (v, (refl, refl))
  ]

  -- If `gr_state_init` gives a live state, it accepts the words of the grammar.
  pub state_init-InLanguage :
      IsNarrow g
      → (st : State) → state_init g ≡ ok st
      → st.alive ≡ true
      → (w : List ℕ) → Accepts g st.stacks w ↔ InLanguage g w
  unfolding state_init
  state_init-InLanguage narrow st h on w = elim (Option-cases (alts_of g g.root)) [
    | inl e ↦ absurd (ground arith)
    | inr (alts, e) ↦ begun alts e (init_loop g alts 0 []) refl (rw (e, state_init) at h)
  ]
    where
      begun :
          (alts : List Alt)
          → alts_of g g.root ≡ some alts
          → (m : Walk (List Stack)) → init_loop g alts 0 [] ≡ m
          → start m ≡ ok st
          → Accepts g st.stacks w ↔ InLanguage g w
      begun alts e fault q r = absurd (cc)
      begun alts e overflow q r = absurd (ground arith)
      begun alts e (ok []) q r = absurd (ground arith)
      begun alts e (ok (k ∷ ks)) q r =
          let same : k ∷ ks ≡ st.stacks = ground arith in
          let adds =
            init_loop-Adds g narrow alts 0 [] (k ∷ ks)
              (Agrees-alts_of g g.root alts e alts 0 (λ i. ap (get_elem? alts) (omega arith))) q
              w in
          rw (← same) (
            (λ a. elim (adds.0 a) [ inl x ↦ absurd x | inr p ↦ call-of g g.root alts [] w e p ]),
            λ l. adds.1 (inr (call-inv g g.root alts [] w e l)),
          )

  -- `gr_accept` on each byte in turn, up to the first that is not consumed.
  unfoldable pub feed : List ℕ → State → Walk (Outcome × State)
  feed [] st = ok (consumed, st)
  feed (b ∷ u) st =
      accept g b st >>= λ r. elim r.0 [ consumed ↦ feed u r.1 | refused ↦ ok r | off ↦ ok r ]

  -- What feeding `u` says of the words that begin with `u`.
  abbrev pub HasRead : List ℕ → State → Outcome × State → Type 0
  HasRead u st (consumed, st') =
      (w : List ℕ) → Accepts g st'.stacks w ↔ Accepts g st.stacks (u ++ w)
  HasRead u st (refused, st') = (w : List ℕ) → ¬ Accepts g st.stacks (u ++ w)
  HasRead u st (off, st') = st'.alive ≡ false

  feed_next :
      IsRunnable g
      → (b : ℕ) (u : List ℕ) (st : State) (r : Outcome × State) → IsValidState g r.1
      → IsResidual b st r
      → (IsValidState g r.1 → Returns (λ q. IsValidState g q.1 × HasRead u r.1 q) (feed u r.1))
      → Returns
          (λ q. IsValidState g q.1 × HasRead (b ∷ u) st q)
          (elim r.0 [ consumed ↦ feed u r.1 | refused ↦ ok r | off ↦ ok r ])
  feed_next c b u st (consumed, st') v res later =
      Returns-map (feed u st') _ _ (later v) (λ q h. (h.0, shift q h.1))
    where
      shift : (q : Outcome × State) → HasRead u st' q → HasRead (b ∷ u) st q
      shift (consumed, end) h =
          λ w. ((λ a. (res.1 (u ++ w)).0 ((h w).0 a)), λ a. (h w).1 ((res.1 (u ++ w)).1 a))
      shift (refused, end) h = λ w a. h w ((res.1 (u ++ w)).1 a)
      shift (off, end) h = h
  feed_next c b u st (refused, st') v res later = (v, λ w. res.1 (u ++ w))
  feed_next c b u st (off, st') v res later = (v, res.0)

  -- Feeding bytes to a valid state returns in a valid state. If all were consumed, the new state
  -- accepts `w` exactly if the old one accepts the bytes followed by `w`; if one was refused, the
  -- old state accepts no word that begins with the bytes.
  pub feed-HasRead :
      IsRunnable g
      → (u : List ℕ) → All (λ b. b < 256) u
      → (st : State) → IsValidState g st
      → Returns (λ r. IsValidState g r.1 × HasRead u st r) (feed u st)
  unfolding feed
  feed-HasRead c [] bytes st v = (v, λ w. ((λ a. a), λ a. a))
  feed-HasRead c (b ∷ u) bytes st v =
      Returns-bind (accept g b st) _ _ _ (accept-IsResidual c b bytes.0 st v)
        (λ r h. feed_next c b u st r h.0 h.1 (λ v'. feed-HasRead c u bytes.1 r.1 v'))

  -- What reading `u` from the start says of the words of the grammar that begin with `u`.
  abbrev pub Recognises : List ℕ → Outcome × State → Type 0
  Recognises u (consumed, st') = (w : List ℕ) → Accepts g st'.stacks w ↔ InLanguage g (u ++ w)
  Recognises u (refused, st') = (w : List ℕ) → ¬ InLanguage g (u ++ w)
  Recognises u (off, st') = st'.alive ≡ false

  recognises :
      (u : List ℕ) (st : State)
      → ((w : List ℕ) → Accepts g st.stacks w ↔ InLanguage g w)
      → (r : Outcome × State) → HasRead u st r
      → Recognises u r
  recognises u st begun (consumed, st') h =
      λ w. ((λ a. (begun (u ++ w)).0 ((h w).0 a)), λ l. (h w).1 ((begun (u ++ w)).1 l))
  recognises u st begun (refused, st') h = λ w l. h w ((begun (u ++ w)).1 l)
  recognises u st begun (off, st') h = h

  -- Feeding any bytes `u` to a live initial state of a closed grammar, with at most 2^15 rules,
  -- at most 2^15 alternates in a rule and fewer than 2^15 symbols in an alternate, returns, in a
  -- valid state. If all were consumed, the state accepts exactly the words `w` for which `u` followed by `w` is a
  -- word of the grammar. If one was refused, no word of the grammar begins with `u`. Otherwise
  -- the walker is off.
  pub feed-Recognises :
      (st : State)
      → IsRunnable g
      → state_init g ≡ ok st
      → st.alive ≡ true
      → (u : List ℕ) → All (λ b. b < 256) u
      → Returns (λ r. IsValidState g r.1 × Recognises u r) (feed u st)
  feed-Recognises st c h on u bytes =
      let v = rw h at (state_init-IsValid g c) in
      Returns-map (feed u st) _ _ (feed-HasRead c u bytes st v)
        (λ r q. (q.0, recognises u st (state_init-InLanguage c.narrow st h on) r q.1))
