-- ===== src/Feed/Follows.antt =====
-- While the drafts are on, the walker follows the last bytes of the output from a start of a word.
use moty.Base.{
  ℕ, ◌<◌, ◌≡◌, ◌≢◌, ◌↔◌, refl, sym, ap, ◌∙◌, ◌⊎◌, inl, inr, Bool, true, false, List, [], ◌∷◌, ◌++◌,
  All, arith, Bool-cases, Option-cases, if◌then◌else◌,
}
use mathlib.Core.List.{append_assoc}
use moty.Grammar.Syntax.{Grammar, IsRunnable, alts_of}
use moty.Grammar.Language.{Accepts, InLanguage}
use moty.Grammar.Walker.{
  Walk, ok, overflow, fault, ◌>>=◌, init_loop, start, State, Outcome, consumed, refused, off,
  state_init, accept,
}
use moty.Grammar.Invariant.{Ensures}
use moty.Grammar.Safety.{IsValidState, state_init-IsValid}
use moty.Grammar.Accept.{
  Returns, Returns-bind, IsResidual, accept-IsResidual, state_init-InLanguage,
}
use moty.Tok.Table.{Tok}
use moty.Tok.Decode.{tok_decode}
use moty.Feed.{Drafts, is_consumed, rearm, feed_byte, feed_bytes, gr_feed}

if-Returns :
    {A : Type 0} (P : A → Type 0) (b : Bool) (x y : Walk A)
    → (b ≡ true → Returns P x)
    → (b ≡ false → Returns P y)
    → Returns P (if b then x else y)
if-Returns P true x y h k = h refl
if-Returns P false x y h k = k refl

append_nil : (xs : List ℕ) → xs ≡ xs ++ []
append_nil [] = refl
append_nil (x ∷ xs) = ap (λ ys. x ∷ ys) (append_nil xs)

module _ (g : Grammar) where
  init_returns : IsRunnable g → (st : State) × (state_init g ≡ ok st) × IsValidState g st
  unfolding state_init
  init_returns c = elim (Option-cases (alts_of g g.root)) [
    | inl e ↦ absurd (let v = state_init-IsValid g c in rw (e, state_init) at v)
    | inr (alts, e) ↦
        let v = rw (e, state_init) at (state_init-IsValid g c) in
        let (st, q, w) = started (init_loop g alts 0 []) v in (st, rw (e, state_init) q, w)
  ]
    where
      started :
          (m : Walk _)
          → Ensures (IsValidState g) (start m)
          → (st : State) × (start m ≡ ok st) × IsValidState g st
      started fault v = absurd v
      started overflow v = (_, refl, v)
      started (ok []) v = (_, refl, v)
      started (ok (k ∷ ks)) v = (_, refl, v)

  -- The state accepts what can follow `u` in a word of the grammar.
  abbrev pub IsAfter : List ℕ → State → Type 0
  IsAfter u st = (w : List ℕ) → Accepts g st.stacks w ↔ InLanguage g (u ++ w)

  -- After the output `h`: armed, the walker has followed the last bytes of it, at least one, from
  -- the start of a word; otherwise, if it is live, it waits at the start of a word.
  pub record Follows (h : List ℕ) (d : Drafts) : Type 0 where
    pub valid : IsValidState g d.gst
    pub on_word :
        d.on ≡ true
        → d.armed ≡ true
        → (before : List ℕ) × (u : List ℕ) × (h ≡ before ++ u) × (u ≢ []) × IsAfter u d.gst
    pub waiting : d.on ≡ true → d.armed ≡ false → (d.gst.alive ≡ false) ⊎ IsAfter [] d.gst

  IsAfter-snoc :
      (u : List ℕ) (b : ℕ) (st st' : State)
      → IsAfter u st
      → ((w : List ℕ) → Accepts g st'.stacks w ↔ Accepts g st.stacks (b ∷ w))
      → IsAfter (u ++ b ∷ []) st'
  IsAfter-snoc u b st st' a res w =
      let q : (u ++ b ∷ []) ++ w ≡ u ++ b ∷ w = append_assoc u (b ∷ []) w in
      rw q ((λ x. (a (b ∷ w)).0 ((res w).0 x)), λ l. (res w).1 ((a (b ∷ w)).1 l))

  snoc-nil_ne : (u : List ℕ) (b : ℕ) → u ++ b ∷ [] ≢ []
  snoc-nil_ne [] b e = cc
  snoc-nil_ne (x ∷ u) b e = cc

  module _ (c : IsRunnable g) (h : List ℕ) (b : ℕ) (lt : b < 256) where
    armed_by :
        (before u : List ℕ) (st : State) (r : Outcome × State)
        → h ≡ before ++ u
        → IsAfter u st
        → IsResidual g b st r
        → r.0 ≡ consumed
        → (before' : List ℕ) × (u' : List ℕ) × (h ++ b ∷ [] ≡ before' ++ u')
          × (u' ≢ [])
          × IsAfter u' r.1
    armed_by before u st (consumed, st') e a res _ = (
      before,
      u ++ b ∷ [],
      ap (λ x. x ++ b ∷ []) e ∙ append_assoc before u (b ∷ []),
      snoc-nil_ne u b,
      IsAfter-snoc u b st st' a res.1,
    )
    armed_by before u st (refused, st') e a res q = cc
    armed_by before u st (off, st') e a res q = cc

    restarted :
        (st : State) (r : Outcome × State)
        → IsValidState g r.1
        → IsAfter [] st
        → IsResidual g b st r
        → Follows (h ++ b ∷ []) (record { on = true; armed = is_consumed r.0; gst = r.1 })
    restarted st (consumed, st') v a res = record {
      valid = v;
      on_word = λ _ _. armed_by h [] st (consumed, st') (append_nil h) a res refl;
      waiting = λ _ e. cc;
    }
    restarted st (refused, st') v a res = record {
      valid = v;
      on_word = λ _ e. cc;
      waiting = λ _ _. inr (rw (res.0) a);
    }
    restarted st (off, st') v a res = record {
      valid = v;
      on_word = λ _ e. cc;
      waiting = λ _ _. inl res.0;
    }

    rearm_from :
        (st : State)
        → state_init g ≡ ok st
        → IsValidState g st
        → Returns (Follows (h ++ b ∷ [])) (rearm g b)
    unfolding rearm
    rearm_from st e v = elim (Bool-cases st.alive) [
      | inr dead ↦ rw (e, dead) (record { valid = v; on_word = λ q _. cc; waiting = λ q _. cc })
      | inl live ↦
          rw (e, live)
            (Returns-bind (accept g b st) _ _ _ (accept-IsResidual g c b lt st v)
              (λ r k. restarted st r k.0 (state_init-InLanguage g c.narrow st e live) k.1))
    ]

    rearm-Follows : Returns (Follows (h ++ b ∷ [])) (rearm g b)
    rearm-Follows = let (st, e, v) = init_returns c in rearm_from st e v

    -- One byte to a live walker.
    live_byte :
        (d : Drafts) (r : Outcome × State)
        → d.on ≡ true
        → d.gst.alive ≡ true
        → Follows h d
        → IsValidState g r.1
        → IsResidual g b d.gst r
        → Returns (Follows (h ++ b ∷ [])) (elim r.0 [
          | consumed ↦ ok (record d { armed = true; gst = r.1 })
          | off ↦ ok (record d { on = false; gst = r.1 })
          | refused ↦ if d.armed then rearm g b else ok (record d { gst = r.1 })
        ])
    live_byte d (off, st) on live f v res = record {
      valid = v;
      on_word = λ q _. cc;
      waiting = λ q _. cc;
    }
    live_byte d (consumed, st) on live f v res = record {
      valid = v;
      on_word = λ _ _. elim (Bool-cases d.armed) [
        | inl a ↦
            let (before, u, e, _, after) = f.on_word on a in
            armed_by before u d.gst (consumed, st) e after res refl
        | inr a ↦ elim (f.waiting on a) [
          | inl dead ↦ absurd (let q = sym live ∙ dead in ground arith)
          | inr after ↦ armed_by h [] d.gst (consumed, st) (append_nil h) after res refl
        ]
      ];
      waiting = λ _ e. cc;
    }
    live_byte d (refused, st) on live f v res =
        if-Returns (Follows (h ++ b ∷ [])) d.armed (rearm g b) (ok (record d { gst = st }))
          (λ _. rearm-Follows)
          (λ a. record {
            valid = v;
            on_word = λ _ e. absurd (let q = sym a ∙ e in ground arith);
            waiting = λ _ _. elim (f.waiting on a) [
              | inl dead ↦ absurd (let q = sym live ∙ dead in ground arith)
              | inr after ↦ inr (rw res.0 after)
            ];
          })

    feed_byte-Follows :
        (d : Drafts) → d.on ≡ true → Follows h d → Returns (Follows (h ++ b ∷ [])) (feed_byte g d b)
    unfolding feed_byte accept
    feed_byte-Follows d on f = elim (Bool-cases d.gst.alive) [
      | inr dead ↦ rw dead (record { valid = f.valid; on_word = λ q _. cc; waiting = λ q _. cc })
      | inl live ↦
          Returns-bind (accept g b d.gst) _ _ _ (accept-IsResidual g c b lt d.gst f.valid)
            (λ r k. live_byte d r on live f k.0 k.1)
    ]

  off-Follows : (h h' : List ℕ) (d : Drafts) → d.on ≡ false → Follows h d → Follows h' d
  off-Follows h h' d e f = record {
    valid = f.valid;
    on_word = λ q _. absurd (let x = sym e ∙ q in ground arith);
    waiting = λ q _. absurd (let x = sym e ∙ q in ground arith);
  }

  -- Feeding bytes to the walker of a runnable grammar returns, whatever the bytes. If the drafts are
  -- on and armed after the output `h` and these bytes, the walker has read the last bytes of all
  -- that, at least one: it accepts exactly what can follow them in a word of the grammar.
  feed_bytes-Follows :
      IsRunnable g
      → (bs h : List ℕ) (d : Drafts) → All (λ b. b < 256) bs
      → Follows h d
      → Returns (Follows (h ++ bs)) (feed_bytes g bs d)
  unfolding feed_bytes
  feed_bytes-Follows c [] h d bytes f = rw (← append_nil h) f
  feed_bytes-Follows c (b ∷ bs) h d bytes f =
      if-Returns (Follows (h ++ b ∷ bs)) d.on (feed_byte g d b >>= feed_bytes g bs) (ok d)
        (λ on.
          Returns-bind (feed_byte g d b) (feed_bytes g bs) (Follows (h ++ b ∷ []))
            (Follows (h ++ b ∷ bs)) (feed_byte-Follows c h b bytes.0 d on f)
            (λ d' f'.
              let q : (h ++ b ∷ []) ++ bs ≡ h ++ b ∷ bs = append_assoc h (b ∷ []) bs in
              rw q at (feed_bytes-Follows c bs (h ++ b ∷ []) d' bytes.1 f')))
        (λ e. off-Follows h (h ++ b ∷ bs) d e f)

  -- `gr_feed` of a token, on a closed grammar with at most 2^15 rules, at most 2^15 alternates in
  -- a rule and fewer than 2^15 symbols in an alternate: it returns, and the walker follows the
  -- output, of each token the first 63 bytes, as before. While the drafts are on and armed, it has
  -- read the last bytes of that, at least one, and accepts exactly what can follow them in a word
  -- of the grammar; while they are on and not armed, it is switched off or waits at the start of a
  -- word.
  pub gr_feed-Follows :
      IsRunnable g
      → (T : Tok) (t : ℕ) (h : List ℕ) (d : Drafts) → All (λ b. b < 256) (tok_decode T (t ∷ []) 63)
      → Follows h d
      → Returns (Follows (h ++ tok_decode T (t ∷ []) 63)) (gr_feed g T t d)
  unfolding gr_feed
  gr_feed-Follows c T t h d bytes f =
      let bs = tok_decode T (t ∷ []) 63 in
      if-Returns (Follows (h ++ bs)) d.on (feed_bytes g bs d) (ok d)
        (λ _. feed_bytes-Follows c bs h d bytes f) (λ e. off-Follows h (h ++ bs) d e f)
