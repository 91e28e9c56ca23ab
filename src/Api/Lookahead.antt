-- ===== src/Api/Lookahead.antt =====
-- The decode loop, looking ahead or not, against the reference.
use moty.Base.{
  ℕ, suc, ◌+◌, ◌-◌, ◌≤◌, ◌<◌, ◌≡◌, refl, sym, ap, ◌∙◌, ℤ, pos, int_eq, int_eq→≡, Bool, true, false,
  Option, none, List, [], ◌∷◌, ◌++◌, length, arith, length-append, append_nil,
}
use mathlib.Core.Path.{subst}
use mathlib.Core.List.{append_assoc}
use moty.Api.Types.{FailCode, returned, Sampling, Engine, Callback, Turn}
use moty.Api.Sampling.{value}
use moty.Api.Draft.{proposals}
use moty.Api.Decode.{
  Round, ended, failed, next, emit_end, emit_tok, picked, token_fed, stepped, feed_token, compared,
  accept_proposals, advance, budget, round, resume, decode_loop,
}
use moty.Api.Rounds.{Goes, emit_tok-Goes, decode_loop_enough}
use moty.Api.Reference.{Predictor, reference, Holds, IsCausal, ghost, rest_of, emit_same}

module _ {E U L X : Type 0} (ops : Engine E U L X) (p : Predictor L) (kv : E → List ℤ) where
  module _ (laws : IsCausal ops p kv) (s : Sampling) (cb : Callback U) where
    abbrev pub R : Turn (List ℤ) U → ℕ → Option FailCode × Turn (List ℤ) U
    R a t = rest_of ops p kv laws s cb a t

    abbrev pub T : Engine (List ℤ) U L X
    T = reference p

    abbrev pub M : ℕ
    M = value s.max_new_tokens

    -- What the reference comes to behind an emitted token.
    abbrev pub behind : List ℤ → ℕ → Bool × Turn E U → Option FailCode × Turn (List ℤ) U
    behind h t (true, m) = (none, ghost h m)
    behind h t (false, m) =
        R (ghost (h ++ pos t ∷ []) (token_fed ops s cb m m.e))
          (p.choose (p.logits (h ++ pos t ∷ [])))

    resumed_Behind :
        (k : ℕ) (h : List ℤ) (t n : ℕ) (x : Bool × Turn E U)
        → M ≤ n + k
        → Goes ops s cb n x
        → resume T s cb
            (λ a t'. decode_loop T s cb k a t')
            (elim x.0 as (λ b. Round (List ℤ) U) [
              | true ↦ ended (ghost h x.1)
              | false ↦ advance T s cb (ghost h x.1) t []
            ])
          ≡ behind h t x
    unfolding resume advance feed_token stepped picked reference
    resumed_Behind k h t n (true, m) le go = refl
    resumed_Behind k h t n (false, m) le go =
        decode_loop_enough T s cb k _ _ _ go.1 (omega (arith, go.0)) (omega (arith, go.1))

    -- A round of the reference.
    pub reference_round :
        (h : List ℤ) (m : Turn E U) (t : ℕ)
        → m.new_tokens < M
        → R (ghost h m) t ≡ behind h t (emit_tok ops s cb m t)
    unfolding decode_loop round reference proposals
    reference_round h m t lt =
        let k = M - m.new_tokens - 1 in
        let some_rounds : M - m.new_tokens ≡ suc k = omega arith in
        let on : Bool × Turn (List ℤ) U → Option FailCode × Turn (List ℤ) U = λ x.
          resume T s cb (λ a t'. decode_loop T s cb k a t')
            (elim x.0 as (λ b. Round (List ℤ) U) [
              | true ↦ ended x.1
              | false ↦ advance T s cb x.1 t (proposals s (budget T s cb x.1) x.1.gen)
            ]) in
        ap (λ f. decode_loop T s cb f (ghost h m) t) some_rounds
        ∙ ap on (emit_same ops p kv laws s cb h m t)
        ∙ resumed_Behind k h t (suc m.new_tokens) (emit_tok ops s cb m t) (omega arith)
            (emit_tok-Goes ops s cb (suc m.new_tokens) m t (omega arith))

    abbrev pub KeepsTo : List ℤ → Turn E U → Type 0
    KeepsTo h m = (length h ≡ m.n_past) × Holds ops p kv m.e h

    -- What is left of the reference's run is `x`: what the round comes to follows it.
    abbrev pub Follows : Option FailCode × Turn (List ℤ) U → Round E U → Type 0
    Follows x (ended m) = (h : List ℤ) × (x ≡ (none, ghost h m)) × KeepsTo h m
    Follows x (failed code m) = ⊥
    Follows x (next m t) = (h : List ℤ) × (x ≡ R (ghost h m) t) × KeepsTo h m × (m.new_tokens < M)

    pub picked-Follows :
        (h : List ℤ) (m : Turn E U) (lo : L)
        → KeepsTo h m
        → m.new_tokens < M
        → lo ≡ p.logits h
        → Follows (R (ghost h m) (p.choose (p.logits h))) (picked ops s cb m (ops.pick m.e lo))
    unfolding picked
    picked-Follows h m lo (len, (rest, held)) lt e =
        let (token, same) = laws.pick m.e lo in
        let x = R (ghost h m) (p.choose (p.logits h)) in
        subst (λ r. Follows x (picked ops s cb m (r, (ops.pick m.e lo).1)))
          (ap (λ l. returned (p.choose l)) (sym e) ∙ sym token)
          (h, refl, (len, (rest, same ∙ held)), lt)

    stopped_keeps :
        (Q : ℕ → E → Type 0) (m : Turn E U) (stop back : Bool)
        → Q m.n_past m.e
        → Q (emit_end ops s cb m stop back).1.n_past (emit_end ops s cb m stop back).1.e
    unfolding emit_end
    stopped_keeps Q m stop true q = q
    stopped_keeps Q m true false q = q
    stopped_keeps Q m false false q = q

    emit_tok_keeps :
        (Q : ℕ → E → Type 0) (m : Turn E U) (t : ℕ)
        → Q m.n_past m.e
        → Q (emit_tok ops s cb m t).1.n_past (emit_tok ops s cb m t).1.e
    unfolding emit_tok
    emit_tok_keeps Q m t q = stopped_keeps Q _ _ _ q

    -- The end of the loop, or the way on, behind an emitted token.
    behind-Follows :
        (Q : ℕ → E → Type 0) (h : List ℤ) (t n : ℕ) (y : Bool × Turn E U) (k : Turn E U → Round E U)
        → Goes ops s cb n y
        → Q y.1.n_past y.1.e
        → ((m : Turn E U) → Q m.n_past m.e → KeepsTo h m)
        → ((m : Turn E U)
            → Q m.n_past m.e
            → m.new_tokens < M
            → Follows (behind h t (false, m)) (k m))
        → Follows (behind h t y) (elim y.0 [ true ↦ ended y.1 | false ↦ k y.1 ])
    behind-Follows Q h t n (true, m) k go q keeps others = (h, refl, keeps m q)
    behind-Follows Q h t n (false, m) k go q keeps others = others m q go.1

    pub emitted-Follows :
        (Q : ℕ → E → Type 0) (h : List ℤ) (m : Turn E U) (t : ℕ) (k : Turn E U → Round E U)
        → m.new_tokens < M
        → Q m.n_past m.e
        → ((m' : Turn E U) → Q m'.n_past m'.e → KeepsTo h m')
        → ((m' : Turn E U)
            → Q m'.n_past m'.e
            → m'.new_tokens < M
            → Follows (behind h t (false, m')) (k m'))
        → Follows (R (ghost h m) t) (elim (emit_tok ops s cb m t).0 [
          | true ↦ ended (emit_tok ops s cb m t).1
          | false ↦ k (emit_tok ops s cb m t).1
        ])
    emitted-Follows Q h m t k lt q keeps others =
        subst
          (λ x. Follows x (elim (emit_tok ops s cb m t).0 [
            | true ↦ ended (emit_tok ops s cb m t).1
            | false ↦ k (emit_tok ops s cb m t).1
          ]))
          (sym (reference_round h m t lt))
          (behind-Follows Q h t (suc m.new_tokens) (emit_tok ops s cb m t) k
            (emit_tok-Goes ops s cb (suc m.new_tokens) m t (omega arith)) (emit_tok_keeps Q m t q)
            keeps others)

    -- The KV holds the history and the proposals that are left.
    abbrev pub Ahead : List ℤ → List ℤ → ℕ → E → Type 0
    Ahead h qs n e = (length h ≡ n) × Holds ops p kv e (h ++ qs)

    Ahead-KeepsTo : (h qs : List ℤ) (m : Turn E U) → Ahead h qs m.n_past m.e → KeepsTo h m
    Ahead-KeepsTo h qs m (len, (rest, held)) = (len, (qs ++ rest, held ∙ append_assoc h qs rest))

    Ahead-token_fed :
        (h qs : List ℤ) (q : ℤ) (n : ℕ) (e : E)
        → Ahead h (q ∷ qs) n e
        → Ahead (h ++ q ∷ []) qs (suc n) e
    Ahead-token_fed h qs q n e (len, (rest, held)) = (
      omega (arith, len, length-append h (q ∷ [])),
      (rest, held ∙ ap (λ l. l ++ rest) (sym (append_assoc h (q ∷ []) qs))),
    )

    -- The rows from `a` on are those of the history and of the proposals read so far.
    abbrev pub Rows : (ℕ → L) → ℕ → List ℤ → List ℤ → Type 0
    Rows rows a h qs =
        (read ahead : List ℤ) → qs ≡ read ++ ahead → rows (a + length read) ≡ p.logits (h ++ read)

    Rows-token_fed :
        (rows : ℕ → L) (a : ℕ) (h qs : List ℤ) (q : ℤ)
        → Rows rows a h (q ∷ qs)
        → Rows rows (suc a) (h ++ q ∷ []) qs
    Rows-token_fed rows a h qs q known read ahead e =
        let n : suc a + length read ≡ a + suc (length read) = omega arith in
        ap rows n
        ∙ known (q ∷ read) ahead (ap (λ l. q ∷ l) e)
        ∙ ap p.logits (sym (append_assoc h (q ∷ []) read))

    Rows-here : (rows : ℕ → L) (a : ℕ) (h qs : List ℤ) → Rows rows a h qs → rows a ≡ p.logits h
    Rows-here rows a h qs known =
        let n : a ≡ a + 0 = omega arith in ap rows n ∙ known [] qs refl ∙ ap p.logits (append_nil h)

    pub branch-Follows :
        (x : Option FailCode × Turn (List ℤ) U) (b : Bool) (r r' : Round E U)
        → (b ≡ true → Follows x r)
        → (b ≡ false → Follows x r')
        → Follows x (elim b [ true ↦ r | false ↦ r' ])
    branch-Follows x true r r' h k = h refl
    branch-Follows x false r r' h k = k refl

    compared-Follows :
        (others : Turn E U → Round E U) (h : List ℤ) (m : Turn E U) (q : ℤ) (qs : List ℤ) (y : ℕ)
        (e : E)
        → Ahead h (q ∷ qs) m.n_past e
        → m.new_tokens < M
        → ((m' : Turn E U)
            → Ahead (h ++ q ∷ []) qs m'.n_past m'.e
            → m'.new_tokens < M
            → Follows (R (ghost (h ++ q ∷ []) m') (p.choose (p.logits (h ++ q ∷ [])))) (others m'))
        → Follows (R (ghost h m) y) (compared ops s cb others m q (returned y, e))
    unfolding compared
    compared-Follows others h m q qs y e here lt go =
        let m1 = record m { e = e } in
        branch-Follows (R (ghost h m) y) (int_eq (pos y) q) _ _
          (λ same.
            emitted-Follows (Ahead h (q ∷ qs)) h m1 y (λ m'. others (token_fed ops s cb m' m'.e)) lt
              here (λ m' held. Ahead-KeepsTo h (q ∷ qs) m' held)
              (λ m' held lt'.
                subst
                  (λ z.
                    Follows
                      (R (ghost (h ++ z ∷ []) (token_fed ops s cb m' m'.e))
                        (p.choose (p.logits (h ++ z ∷ []))))
                      (others (token_fed ops s cb m' m'.e)))
                  (sym (int_eq→≡ (pos y) q same))
                  (go (token_fed ops s cb m' m'.e) (Ahead-token_fed h qs q m'.n_past m'.e held)
                    lt')))
          (λ _. (h, refl, Ahead-KeepsTo h (q ∷ qs) m1 here, lt))

    pub accept_proposals-Follows :
        (rows : ℕ → L) (a : ℕ) (h : List ℤ) (m : Turn E U) (qs : List ℤ)
        → Ahead h qs m.n_past m.e
        → Rows rows a h qs
        → m.new_tokens < M
        → Follows (R (ghost h m) (p.choose (p.logits h))) (accept_proposals ops s cb rows a m qs)
    unfolding accept_proposals
    accept_proposals-Follows rows a h m [] here known lt =
        picked-Follows h m (rows a) (Ahead-KeepsTo h [] m here) lt (Rows-here rows a h [] known)
    accept_proposals-Follows rows a h m (q ∷ qs) (len, (rest, held)) known lt =
        let (token, same) = laws.pick m.e (rows a) in
        let x = R (ghost h m) (p.choose (p.logits h)) in
        let others : Turn E U → Round E U = λ m'. accept_proposals ops s cb rows (suc a) m' qs in
        subst (λ r. Follows x (compared ops s cb others m q (r, (ops.pick m.e (rows a)).1)))
          (ap (λ l. returned (p.choose l)) (sym (Rows-here rows a h (q ∷ qs) known)) ∙ sym token)
          (compared-Follows others h m q qs _ _ (len, (rest, same ∙ held)) lt
            (λ m' here' lt'.
              accept_proposals-Follows rows (suc a) (h ++ q ∷ []) m' qs here'
                (Rows-token_fed rows a h qs q known) lt'))
