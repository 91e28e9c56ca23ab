-- ===== src/Grammar/Forced.antt =====
-- The draft of `gr_forced` is a prefix of every word that the state accepts.
use moty.Base.{
  ℕ, zero, suc, ◌≤◌, ◌<◌, ◌≡◌, ◌↔◌, refl, sym, ◌∙◌, inl, inr, true, false, not, ◌&&◌, List, [], ◌∷◌,
  ◌++◌, arith, Bool-cases, length, leb, ◌==◌, if◌then◌else◌,
}
use moty.Grammar.Syntax.{Grammar, Stack, IsRunnable}
use moty.Grammar.Language.{Accepts}
use moty.Grammar.Walker.{ok, ◌>>=◌, State, Outcome, consumed, refused, off, accept}
use moty.Grammar.Invariant.{IsValid}
use moty.Grammar.Safety.{IsValidState}
use moty.Grammar.Accept.{Returns, Returns-bind, IsResidual, accept-IsResidual}
use moty.Grammar.Draft.{Admissible, admissible, first_set, forced_loop, forced}
use moty.Grammar.Admissible.{
  one_member, first_set-lt, Accepts-Starts, IsAdmissible, admissible-IsAdmissible,
}

module _ (g : Grammar) where
  -- The rest of a word after the draft `p`.
  abbrev pub IsPrefix : List ℕ → List ℕ → Type 0
  IsPrefix p w = (rest : List ℕ) × (w ≡ p ++ rest)

  -- A draft of at most `n` bytes that every word of the state begins with.
  pub record IsForced (n : ℕ) (st : State) (p : List ℕ) : Type 0 where
    pub fits : length p ≤ n
    pub every : (w : List ℕ) → Accepts g st.stacks w → IsPrefix p w

  no_draft : (n : ℕ) (st : State) → IsForced n st []
  no_draft n st = record { fits = omega arith; every = λ w a. (w, refl) }

  -- One more byte: the only byte that the state admits, then a draft of the next state.
  longer :
      (n : ℕ) (st st' : State) (b : ℕ) (p : List ℕ) (adm : Admissible)
      → IsValid g st.stacks
      → IsAdmissible g st.stacks adm
      → adm.count ≡ 1
      → adm.can_end ≡ false
      → b < 256
      → adm.mask b ≡ true
      → ((w : List ℕ) → Accepts g st'.stacks w ↔ Accepts g st.stacks (b ∷ w))
      → IsForced n st' p
      → IsForced (suc n) st (b ∷ p)
  longer n st st' b p adm v a one no_end lt set res f = record {
    fits = omega (arith, f.fits);
    every = first;
  }
    where
      first : (w : List ℕ) → Accepts g st.stacks w → IsPrefix (b ∷ p) w
      first [] x = absurd (let e = a.can_end.1 x in ground arith)
      first (b' ∷ w) x =
          let (lt', _) = Accepts-Starts g st.stacks b' w v.normal x in
          let same : b' ≡ b =
            one_member a.bytes b' b (sym a.count ∙ one) ((a.listed b').1 (lt', a.begins b' w x))
              ((a.listed b).1 (lt, set)) in
          let (rest, e) = f.every w ((res w).1 (rw same at x)) in (rest, rw (same, e) refl)

  after_accept :
      (n : ℕ) (st : State) (b : ℕ) (adm : Admissible)
      → IsValid g st.stacks
      → IsAdmissible g st.stacks adm
      → adm.count ≡ 1
      → adm.can_end ≡ false
      → b < 256
      → adm.mask b ≡ true
      → (r : Outcome × State) → IsResidual g b st r
      → Returns (IsForced n r.1) (forced_loop g n r.1)
      → Returns
          (IsForced (suc n) st)
          (elim r.0 [ consumed ↦ forced_loop g n r.1 >>= (λ p. ok (b ∷ p)) | _ ↦ ok [] ])
  after_accept n st b adm v a one no_end lt set (consumed, st') res later =
      Returns-bind (forced_loop g n st') _ _ _ later
        (λ p f. longer n st st' b p adm v a one no_end lt set res.1 f)
  after_accept n st b adm v a one no_end lt set (refused, st') res later = no_draft (suc n) st
  after_accept n st b adm v a one no_end lt set (off, st') res later = no_draft (suc n) st

  forced_loop-IsForced :
      IsRunnable g
      → (n : ℕ) (st : State) → IsValidState g st
      → Returns (IsForced n st) (forced_loop g n st)
  unfolding forced_loop
  forced_loop-IsForced c zero st v = no_draft 0 st
  forced_loop-IsForced c (suc n) st v =
      Returns-bind (admissible g st.stacks) _ _ _ (admissible-IsAdmissible g st.stacks v) (λ adm a.
        elim (Bool-cases (adm.count == 1 && not adm.can_end)) [
          | inr many ↦ rw many (no_draft (suc n) st)
          | inl one ↦ elim (Bool-cases (leb 256 (first_set 256 0 adm.mask))) [
            | inl none_set ↦ rw (one, none_set) (no_draft (suc n) st)
            | inr found ↦
                let b = first_set 256 0 adm.mask in
                let lt : b < 256 = ground arith in
                rw (one, found)
                  (Returns-bind (accept g b st) _ _ _ (accept-IsResidual g c b lt st v) (λ r h.
                    after_accept n st b adm v a (ground arith) (ground arith) lt
                      (first_set-lt 256 0 adm.mask (omega arith)) r h.1
                      (forced_loop-IsForced c n r.1 h.0)))
          ]
        ])

  -- On a closed grammar with at most 2^15 rules, at most 2^15 alternates in a rule and fewer than
  -- 2^15 symbols in an alternate, and a valid state, `gr_forced` returns a draft of at most `max`
  -- bytes, and every word that the state accepts begins with it.
  pub forced-IsForced :
      IsRunnable g
      → (max : ℕ) (st : State) → IsValidState g st
      → Returns (IsForced max st) (forced g max st)
  unfolding forced
  forced-IsForced c max st v = on_stacks st.stacks
    where
      draft : Returns (IsForced max st) (if st.alive then forced_loop g max st else ok [])
      draft = elim (Bool-cases st.alive) [
        | inl on ↦ simp (on, if◌then◌else◌) (forced_loop-IsForced c max st v)
        | inr dead ↦ simp (dead, if◌then◌else◌) (no_draft max st)
      ]

      on_stacks :
          (ks : List Stack)
          → Returns
              (IsForced max st)
              (elim ks [ [] ↦ ok [] | k ∷ rest ↦ if st.alive then forced_loop g max st else ok [] ])
      on_stacks [] = no_draft max st
      on_stacks (k ∷ ks) = draft
