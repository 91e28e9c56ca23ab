-- ===== src/Api/Rounds.antt =====
-- Each round of the decode loop emits a token, so that as many rounds as tokens are asked for are
-- enough.
use moty.Base.{
  ℕ, zero, suc, ◌+◌, ◌≤◌, ◌<◌, ◌≡◌, refl, ℤ, pos, int_eq, Bool, true, false, Option, none, some,
  List, [], ◌∷◌, leb, arith, inl, inr, Bool-cases,
}
use moty.Api.Types.{FailCode, Result, returned, trapped, Sampling, Engine, Callback, Turn}
use moty.Api.Sampling.{value}
use moty.Api.Draft.{proposals}
use moty.Api.Decode.{
  Round, ended, failed, next, emit_end, emit_tok, picked, token_fed, stepped, feed_token, compared,
  accept_proposals, verified, advance, budget, round, resume, decode_loop,
}

module _ {E U L X : Type 0} (ops : Engine E U L X) (s : Sampling) (cb : Callback U) where
  abbrev max : ℕ
  max = value s.max_new_tokens

  -- After at least `n` tokens, fewer than asked for.
  abbrev pub Fewer : ℕ → Turn E U → Type 0
  Fewer n m = (n ≤ m.new_tokens) × (m.new_tokens < max)

  abbrev pub Rises : ℕ → Round E U → Type 0
  Rises n (ended m) = Unit
  Rises n (failed code m) = Unit
  Rises n (next m t) = Fewer n m

  abbrev pub Goes : ℕ → Bool × Turn E U → Type 0
  Goes n (true, m) = Unit
  Goes n (false, m) = Fewer n m

  emit_end-Goes :
      (n : ℕ) (m : Turn E U) (stop back : Bool)
      → n ≤ m.new_tokens
      → Goes n (emit_end ops s cb m stop back)
  unfolding emit_end
  emit_end-Goes n m stop true le = tt
  emit_end-Goes n m true false le = tt
  emit_end-Goes n m false false le = elim (Bool-cases (leb max m.new_tokens)) [
    | inl e ↦ rw e tt
    | inr e ↦ rw e (le, ground arith)
  ]

  pub emit_tok-Goes :
      (n : ℕ) (m : Turn E U) (t : ℕ) → n ≤ suc m.new_tokens → Goes n (emit_tok ops s cb m t)
  unfolding emit_tok
  emit_tok-Goes n m t le = emit_end-Goes n _ _ _ le

  branch_Rises :
      (n : ℕ) (b : Bool) (x y : Round E U)
      → Rises n x
      → Rises n y
      → Rises n (elim b [ true ↦ x | false ↦ y ])
  branch_Rises n true x y h k = h
  branch_Rises n false x y h k = k

  then_Rises :
      (n : ℕ) (x : Bool × Turn E U) (k : Turn E U → Round E U)
      → Goes n x
      → ((m : Turn E U) → Fewer n m → Rises n (k m))
      → Rises n (elim x.0 [ true ↦ ended x.1 | false ↦ k x.1 ])
  then_Rises n (true, m) k h others = tt
  then_Rises n (false, m) k h others = others m h

  picked-Rises :
      (n : ℕ) (m : Turn E U) (r : Result ℕ × E) → Fewer n m → Rises n (picked ops s cb m r)
  unfolding picked
  picked-Rises n m (trapped code, e) h = tt
  picked-Rises n m (returned t, e) h = h

  stepped-Rises :
      (n : ℕ) (m : Turn E U) (r : Result L × E) → Fewer n m → Rises n (stepped ops s cb m r)
  unfolding stepped
  stepped-Rises n m (trapped code, e) h = tt
  stepped-Rises n m (returned lo, e) h = picked-Rises n _ _ h

  compared-Rises :
      (n : ℕ) (others : Turn E U → Round E U) (m : Turn E U) (q : ℤ) (r : Result ℕ × E)
      → ((m' : Turn E U) → Fewer n m' → Rises n (others m'))
      → Fewer n m
      → Rises n (compared ops s cb others m q r)
  unfolding compared
  compared-Rises n others m q (trapped code, e) go h = tt
  compared-Rises n others m q (returned y, e) go h =
      branch_Rises n (int_eq (pos y) q) _ _
        (then_Rises n (emit_tok ops s cb (record m { e = e }) y)
          (λ m'. others (token_fed ops s cb m' m'.e)) (emit_tok-Goes n _ y (omega (arith, h.0)))
          (λ m' h'. go (token_fed ops s cb m' m'.e) h'))
        h

  accept_proposals-Rises :
      (n : ℕ) (rows : ℕ → L) (a : ℕ) (m : Turn E U) (qs : List ℤ)
      → Fewer n m
      → Rises n (accept_proposals ops s cb rows a m qs)
  unfolding accept_proposals
  accept_proposals-Rises n rows a m [] h = picked-Rises n m _ h
  accept_proposals-Rises n rows a m (q ∷ qs) h =
      compared-Rises n _ m q _ (λ m' h'. accept_proposals-Rises n rows (suc a) m' qs h') h

  verified-Rises :
      (n : ℕ) (m : Turn E U) (t : ℕ) (prop : List ℤ) (r : Result (Option (ℕ → L)) × E)
      → Fewer n m
      → Rises n (verified ops s cb m t prop r)
  unfolding verified feed_token
  verified-Rises n m t prop (trapped code, e) h = tt
  verified-Rises n m t prop (returned none, e) h = stepped-Rises n _ _ h
  verified-Rises n m t prop (returned (some rows), e) h = accept_proposals-Rises n rows 0 _ prop h

  advance-Rises :
      (n : ℕ) (m : Turn E U) (t : ℕ) (prop : List ℤ)
      → Fewer n m
      → Rises n (advance ops s cb m t prop)
  unfolding advance feed_token
  advance-Rises n m t [] h = stepped-Rises n m _ h
  advance-Rises n m t (q ∷ qs) h = verified-Rises n m t (q ∷ qs) _ h

  pub round-Rises : (m : Turn E U) (t : ℕ) → Rises (suc m.new_tokens) (round ops s cb m t)
  unfolding round
  round-Rises m t =
      let m1 = record m { u = (ops.load_abort m.u).1 } in
      let n = suc m.new_tokens in
      let others : Turn E U → Round E U =
        λ m'. advance ops s cb m' t (proposals s (budget ops s cb m') m'.gen) in
      branch_Rises n (ops.load_abort m.u).0 (ended m1) _ tt (
        then_Rises n (emit_tok ops s cb m1 t) others (emit_tok-Goes n m1 t (omega arith))
          (λ m' h. advance-Rises n m' t _ h))

  resume_same :
      (f g : Turn E U → ℕ → Option FailCode × Turn E U) (n : ℕ) (x : Round E U)
      → Rises n x
      → ((m : Turn E U) (t : ℕ) → Fewer n m → f m t ≡ g m t)
      → resume ops s cb f x ≡ resume ops s cb g x
  unfolding resume
  resume_same f g n (ended m) h same = refl
  resume_same f g n (failed code m) h same = refl
  resume_same f g n (next m t) h same = same m t h

  -- Any two numbers of rounds that are not below the number of tokens still to come, of which there is
  -- one at least, give the same result.
  pub decode_loop_enough :
      (fuel fuel' : ℕ) (m : Turn E U) (t : ℕ)
      → m.new_tokens < max
      → max ≤ m.new_tokens + fuel
      → max ≤ m.new_tokens + fuel'
      → decode_loop ops s cb fuel m t ≡ decode_loop ops s cb fuel' m t
  unfolding decode_loop
  decode_loop_enough zero fuel' m t lt le le' = absurd (omega arith)
  decode_loop_enough (suc fuel) zero m t lt le le' = absurd (omega arith)
  decode_loop_enough (suc fuel) (suc fuel') m t lt le le' =
      resume_same _ _ (suc m.new_tokens) (round ops s cb m t) (round-Rises m t) (λ m' t' h.
        decode_loop_enough fuel fuel' m' t' h.1 (omega (arith, h.0)) (omega (arith, h.0)))
