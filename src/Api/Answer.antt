-- ===== src/Api/Answer.antt =====
-- Whatever the draft holds, with a `draft_k` of at most 2 the decode loop leaves the tokens of the reference.
use moty.Base.{
  ℕ, zero, suc, ◌+◌, ◌-◌, ◌≤◌, ◌<◌, ◌≡◌, refl, sym, ap, ◌∙◌, ℤ, pos, Bool, true, false, Option,
  none, some, List, [], ◌∷◌, ◌++◌, length, arith, inl, inr, length-append,
}
use mathlib.Core.Path.{subst}
use mathlib.Core.List.{append_assoc}
use moty.Api.Types.{FailCode, returned, Sampling, Engine, Callback, Turn}
use moty.Api.Sampling.{value}
use moty.Api.Draft.{draft_step, proposals}
use moty.Api.DraftBounds.{proposals-le_step}
use moty.Api.Decode.{
  Round, ended, failed, next, emit_tok, token_fed, stepped, feed_token, verified, advance, budget,
  round, resume, decode_loop,
}
use moty.Api.Rounds.{Rises, round-Rises}
use moty.Api.Reference.{Predictor, reference, Holds, IsCausal, ghost}
use moty.Api.Lookahead.{
  R, KeepsTo, Follows, picked-Follows, emitted-Follows, accept_proposals-Follows,
}

module _ {E U L X : Type 0} (ops : Engine E U L X) (p : Predictor L) (kv : E → List ℤ) where
  module _ (laws : IsCausal ops p kv) (s : Sampling) (cb : Callback U) where
    abbrev fed_run : List ℤ → ℕ → Turn E U → Option FailCode × Turn (List ℤ) U
    fed_run h t m =
        R ops p kv laws s cb (ghost (h ++ pos t ∷ []) (token_fed ops s cb m m.e))
          (p.choose (p.logits (h ++ pos t ∷ [])))

    length-snoc : (h : List ℤ) (t n : ℕ) → length h ≡ n → length (h ++ pos t ∷ []) ≡ suc n
    length-snoc h t n len = omega (arith, len, length-append h (pos t ∷ []))

    zero_add : (n : ℕ) → 0 + n ≡ n
    zero_add n = omega arith

    feed_token-Follows :
        (h : List ℤ) (m : Turn E U) (t : ℕ)
        → KeepsTo ops p kv laws s cb h m
        → m.new_tokens < value s.max_new_tokens
        → Follows ops p kv laws s cb (fed_run h t m) (feed_token ops s cb m t)
    unfolding feed_token stepped
    feed_token-Follows h m t (len, held) lt =
        let (row, held') =
          subst
            (λ n.
              ((ops.step m.e t n).0 ≡ returned (p.logits (h ++ pos t ∷ [])))
              × Holds ops p kv (ops.step m.e t n).1 (h ++ pos t ∷ []))
            len (laws.step m.e h t held) in
        subst
          (λ r.
            Follows ops p kv laws s cb (fed_run h t m)
              (stepped ops s cb m (r, (ops.step m.e t m.n_past).1)))
          (sym row)
          (picked-Follows ops p kv laws s cb (h ++ pos t ∷ [])
            (token_fed ops s cb m (ops.step m.e t m.n_past).1) (p.logits (h ++ pos t ∷ []))
            (length-snoc h t m.n_past len, held') lt refl)

    advance-Follows :
        (h : List ℤ) (m : Turn E U) (t : ℕ) (prop : List ℤ)
        → length prop ≤ 2
        → KeepsTo ops p kv laws s cb h m
        → m.new_tokens < value s.max_new_tokens
        → Follows ops p kv laws s cb (fed_run h t m) (advance ops s cb m t prop)
    unfolding advance verified
    advance-Follows h m t [] few keeps lt = feed_token-Follows h m t keeps lt
    advance-Follows h m t (q ∷ qs) few (len, held) lt =
        let ids : List ℤ = pos t ∷ q ∷ qs in
        let good : ℕ → Type 0 = λ n.
          Follows ops p kv laws s cb (fed_run h t m)
            (verified ops s cb m t (q ∷ qs) (ops.verify m.e ids n)) in
        subst good len (elim (laws.verify m.e h ids (omega arith) held) [
          | inl (declined, held') ↦
              subst
                (λ r.
                  Follows ops p kv laws s cb (fed_run h t m)
                    (verified ops s cb m t (q ∷ qs) (r, (ops.verify m.e ids (length h)).1)))
                (sym declined)
                (feed_token-Follows h (record m { e = (ops.verify m.e ids (length h)).1 }) t
                  (len, held') lt)
          | inr (rows, accepted, (rest, held'), known) ↦
              subst
                (λ r.
                  Follows ops p kv laws s cb (fed_run h t m)
                    (verified ops s cb m t (q ∷ qs) (r, (ops.verify m.e ids (length h)).1)))
                (sym accepted)
                (accept_proposals-Follows ops p kv laws s cb rows 0 (h ++ pos t ∷ [])
                  (token_fed ops s cb m (ops.verify m.e ids (length h)).1) (q ∷ qs)
                  (
                    length-snoc h t m.n_past len,
                    (
                      rest,
                      held' ∙ ap (λ l. l ++ rest) (sym (append_assoc h (pos t ∷ []) (q ∷ qs))),
                    ),
                  )
                  (λ read ahead e.
                    ap rows (zero_add (length read))
                    ∙ known (pos t ∷ read) ahead (length read) (ap (λ l. pos t ∷ l) e) refl
                    ∙ ap p.logits (sym (append_assoc h (pos t ∷ []) read)))
                  lt)
        ])

    round-Follows :
        (h : List ℤ) (m : Turn E U) (t : ℕ)
        → draft_step s ≤ 2
        → KeepsTo ops p kv laws s cb h m
        → m.new_tokens < value s.max_new_tokens
        → Follows ops p kv laws s cb (R ops p kv laws s cb (ghost h m) t) (round ops s cb m t)
    unfolding round
    round-Follows h m t few keeps lt =
        let others : Turn E U → Round E U =
          λ m'. advance ops s cb m' t (proposals s (budget ops s cb m') m'.gen) in
        let body : Bool × U → Round E U = λ x. elim x.0 [
          | true ↦ ended (record m { u = x.1 })
          | false ↦ elim (emit_tok ops s cb (record m { u = x.1 }) t).0 [
            | true ↦ ended (emit_tok ops s cb (record m { u = x.1 }) t).1
            | false ↦ others (emit_tok ops s cb (record m { u = x.1 }) t).1
          ]
        ] in
        subst (λ x. Follows ops p kv laws s cb (R ops p kv laws s cb (ghost h m) t) (body x))
          (sym (laws.load_abort m.u))
          (emitted-Follows ops p kv laws s cb (λ n e. (length h ≡ n) × Holds ops p kv e h) h m t
            others lt keeps (λ m' q. q)
            (λ m' q lt'.
              advance-Follows h m' t (proposals s (budget ops s cb m') m'.gen)
                (let h' = proposals-le_step s (budget ops s cb m') m'.gen in omega (arith, few, h'))
                q lt'))

    -- How a run ends that keeps to the reference's.
    abbrev pub Answered : Option FailCode × Turn (List ℤ) U → Option FailCode × Turn E U → Type 0
    Answered x (some code, m) = ⊥
    Answered x (none, m) = (h : List ℤ) × (x ≡ (none, ghost h m)) × KeepsTo ops p kv laws s cb h m

    resume-Answered :
        (others : Turn E U → ℕ → Option FailCode × Turn E U) (n : ℕ)
        (x : Option FailCode × Turn (List ℤ) U) (r : Round E U)
        → Follows ops p kv laws s cb x r
        → Rises ops s cb n r
        → ((h : List ℤ) (m : Turn E U) (t : ℕ)
            → KeepsTo ops p kv laws s cb h m
            → n ≤ m.new_tokens
            → m.new_tokens < value s.max_new_tokens
            → Answered (R ops p kv laws s cb (ghost h m) t) (others m t))
        → Answered x (resume ops s cb others r)
    unfolding resume
    resume-Answered others n x (ended m) follows rises go = follows
    resume-Answered others n x (failed code m) follows rises go = absurd follows
    resume-Answered others n x (next m t) (h, e, keeps, lt) rises go =
        subst (λ y. Answered y (others m t)) (sym e) (go h m t keeps rises.0 lt)

    -- The loop with at most two proposals in a step, over an engine whose logits depend on the tokens
    -- alone, those of a verification of at most three tokens too, with greedy choice, without an
    -- abort and with enough rounds, ends without a failure, and it leaves the caller's state, the
    -- tokens of the conversation, their number and the reason to stop as the reference engine does,
    -- which does not look ahead: whatever the draft holds.
    pub decode_loop-Answered :
        (fuel : ℕ) (h : List ℤ) (m : Turn E U) (t : ℕ)
        → draft_step s ≤ 2
        → (length h ≡ m.n_past) × Holds ops p kv m.e h
        → m.new_tokens < value s.max_new_tokens
        → value s.max_new_tokens ≤ m.new_tokens + fuel
        → Answered
            (decode_loop {X = X}
              (reference p)
              s
              cb
              (value s.max_new_tokens - m.new_tokens)
              (ghost h m)
              t)
            (decode_loop ops s cb fuel m t)
    unfolding decode_loop
    decode_loop-Answered zero h m t few keeps lt le = absurd (omega arith)
    decode_loop-Answered (suc fuel) h m t few keeps lt le =
        resume-Answered (λ m' t'. decode_loop ops s cb fuel m' t') (suc m.new_tokens) _
          (round ops s cb m t) (round-Follows h m t few keeps lt) (round-Rises ops s cb m t)
          (λ h' m' t' keeps' le' lt'.
            decode_loop-Answered fuel h' m' t' few keeps' lt' (omega arith))
