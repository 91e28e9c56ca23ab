-- ===== src/Api/Context.antt =====
-- No call of `moty_generate` reaches past the context.
use moty.Base.{
  ℕ, zero, suc, ◌+◌, ◌-◌, ◌≤◌, ◌<◌, ℤ, pos, int_eq, Bool, true, false, Option, none, some, List, [],
  ◌∷◌, length, leb, arith, inl, inr, Bool-cases,
}
use moty.Api.Types.{FailCode, Result, returned, trapped, Sampling, Engine, Callback, Turn}
use moty.Api.Sampling.{value}
use moty.Api.DraftBounds.{length-proposals}
use moty.Api.Decode.{
  Round, ended, failed, next, emit_end, emit_tok, picked, token_fed, stepped, feed_token, compared,
  accept_proposals, verified, advance, round, resume, decode_loop,
}

abbrev pub held : Option ℕ → ℕ
held none = 0
held (some t) = 1

held_le : (o : Option ℕ) → held o ≤ 1
held_le none = omega arith
held_le (some t) = omega arith

module _ {E U L X : Type 0} (ops : Engine E U L X) where
  -- A property of the engine's state that every call within a context of `c` tokens keeps.
  pub record IsKept (c : ℕ) (P : E → Type 0) : Type 0 where
    pub prefill :
        (e : E) (u : U) (ids : List ℕ) (p : ℕ) (x : Option X) (rows token : ℤ)
        → P e
        → p + length ids ≤ c
        → P (ops.prefill e u ids p x rows token).1
    pub step : (e : E) (t p : ℕ) → P e → p < c → P (ops.step e t p).1
    pub verify :
        (e : E) (ids : List ℤ) (p : ℕ) → P e → p + length ids ≤ c → P (ops.verify e ids p).1
    pub pick : (e : E) (lo : L) → P e → P (ops.pick e lo).1
    pub reset : (e : E) → P e → P (ops.reset e)
    pub sampled : (e : E) (s : Sampling) → P e → P (ops.sampled e s)

  module _ (c : ℕ) (P : E → Type 0) (laws : IsKept c P) (s : Sampling) (cb : Callback U) where
    abbrev max : ℕ
    max = value s.max_new_tokens

    -- Between two rounds; once a token is emitted; and when the decode is over.
    abbrev pub Between : Turn E U → Type 0
    Between m = (m.n_past + max ≤ c + m.new_tokens) × (m.new_tokens < max) × P m.e

    abbrev Emitted : Turn E U → Type 0
    Emitted m = (m.n_past + max < c + m.new_tokens) × (m.new_tokens ≤ max) × P m.e

    abbrev pub Over : Turn E U → Type 0
    Over m = (m.n_past + held m.pending ≤ c) × (m.new_tokens ≤ max) × P m.e

    abbrev pub Broken : Turn E U → Type 0
    Broken m = (m.new_tokens ≤ max) × P m.e

    abbrev Sound : Round E U → Type 0
    Sound (ended m) = Over m
    Sound (failed code m) = Broken m
    Sound (next m t) = Between m

    abbrev Stopped : Bool × Turn E U → Type 0
    Stopped (true, m) = Over m
    Stopped (false, m) = Emitted m × (m.new_tokens < max)

    Emitted-Over : (m : Turn E U) → Emitted m → Over m
    Emitted-Over m (room, le, p) = (omega (arith, held_le m.pending), le, p)

    Between-Over : (m : Turn E U) → Between m → Over m
    Between-Over m (room, lt, p) = (omega (arith, held_le m.pending), omega arith, p)

    emit_end-Stopped :
        (m : Turn E U) (stop back : Bool) → Emitted m → Stopped (emit_end ops s cb m stop back)
    unfolding emit_end
    emit_end-Stopped m stop true h = Emitted-Over m h
    emit_end-Stopped m true false h = Emitted-Over m h
    emit_end-Stopped m false false h = elim (Bool-cases (leb max m.new_tokens)) [
      | inl e ↦ rw e (Emitted-Over m h)
      | inr e ↦ rw e (h, ground arith)
    ]

    emit_tok-Stopped : (m : Turn E U) (t : ℕ) → Between m → Stopped (emit_tok ops s cb m t)
    unfolding emit_tok
    emit_tok-Stopped m t (room, lt, p) = emit_end-Stopped _ _ _ (omega arith, omega arith, p)

    picked-Sound :
        (m : Turn E U) (e : E) (r : Result ℕ) → Between m → P e → Sound (picked ops s cb m (r, e))
    unfolding picked
    picked-Sound m e (trapped code) (room, lt, p) q = (omega arith, q)
    picked-Sound m e (returned t) (room, lt, p) q = (room, lt, q)

    -- Feeding the token emitted leads to the next round.
    token_fed-Between :
        (m : Turn E U) (e : E)
        → Emitted m
        → m.new_tokens < max
        → P e
        → Between (token_fed ops s cb m e)
    token_fed-Between m e (room, le, p) lt q = (omega arith, lt, q)

    -- What follows an emitted token, unless it is the last.
    then_Sound :
        (x : Bool × Turn E U) (k : Turn E U → Round E U)
        → Stopped x
        → ((m : Turn E U) → Emitted m → m.new_tokens < max → Sound (k m))
        → Sound (elim x.0 [ true ↦ ended x.1 | false ↦ k x.1 ])
    then_Sound (true, m) k h others = h
    then_Sound (false, m) k (h, lt) others = others m h lt

    branch_Sound :
        (b : Bool) (x y : Round E U) → Sound x → Sound y → Sound (elim b [ true ↦ x | false ↦ y ])
    branch_Sound true x y h k = h
    branch_Sound false x y h k = k

    stepped-Sound :
        (m : Turn E U) (e : E) (r : Result L)
        → Emitted m
        → m.new_tokens < max
        → P e
        → Sound (stepped ops s cb m (r, e))
    unfolding stepped
    stepped-Sound m e (trapped code) (room, le, p) lt q = (le, q)
    stepped-Sound m e (returned lo) h lt q =
        picked-Sound _ _ _ (token_fed-Between m e h lt q) (laws.pick e lo q)

    feed_token-Sound :
        (m : Turn E U) (t : ℕ) → Emitted m → m.new_tokens < max → Sound (feed_token ops s cb m t)
    unfolding feed_token
    feed_token-Sound m t (room, le, p) lt =
        stepped-Sound m _ _ (room, le, p) lt (laws.step m.e t m.n_past p (omega arith))

    compared-Sound :
        (others : Turn E U → Round E U) (m : Turn E U) (q : ℤ) (e : E) (r : Result ℕ)
        → ((m' : Turn E U) → Between m' → Sound (others m'))
        → Between m
        → P e
        → Sound (compared ops s cb others m q (r, e))
    unfolding compared
    compared-Sound others m q e (trapped code) go (room, lt, p) p' = (omega arith, p')
    compared-Sound others m q e (returned y) go (room, lt, p) p' =
        branch_Sound (int_eq (pos y) q) _ _
          (then_Sound (emit_tok ops s cb (record m { e = e }) y)
            (λ m'. others (token_fed ops s cb m' m'.e))
            (emit_tok-Stopped (record m { e = e }) y (room, lt, p'))
            (λ m' h lt'. go (token_fed ops s cb m' m'.e) (token_fed-Between m' m'.e h lt' h.2)))
          (room, lt, p')

    accept_proposals-Sound :
        (rows : ℕ → L) (a : ℕ) (m : Turn E U) (qs : List ℤ)
        → Between m
        → Sound (accept_proposals ops s cb rows a m qs)
    unfolding accept_proposals
    accept_proposals-Sound rows a m [] h = picked-Sound m _ _ h (laws.pick m.e (rows a) h.2)
    accept_proposals-Sound rows a m (q ∷ qs) h =
        compared-Sound _ m q _ _ (λ m' h'. accept_proposals-Sound rows (suc a) m' qs h') h
          (laws.pick m.e (rows a) h.2)

    verified-Sound :
        (m : Turn E U) (t : ℕ) (prop : List ℤ) (e : E) (r : Result (Option (ℕ → L)))
        → Emitted m
        → m.new_tokens < max
        → P e
        → Sound (verified ops s cb m t prop (r, e))
    unfolding verified
    verified-Sound m t prop e (trapped code) (room, le, p) lt p' = (le, p')
    verified-Sound m t prop e (returned none) (room, le, p) lt p' =
        feed_token-Sound _ t (room, le, p') lt
    verified-Sound m t prop e (returned (some rows)) h lt p' =
        accept_proposals-Sound rows 0 _ prop (token_fed-Between m e h lt p')

    advance-Sound :
        (m : Turn E U) (t : ℕ) (prop : List ℤ)
        → length prop ≤ max - m.new_tokens
        → Emitted m
        → m.new_tokens < max
        → Sound (advance ops s cb m t prop)
    unfolding advance
    advance-Sound m t [] small h lt = feed_token-Sound m t h lt
    advance-Sound m t (q ∷ qs) small (room, le, p) lt =
        verified-Sound m t (q ∷ qs) _ _ (room, le, p) lt
          (laws.verify m.e (pos t ∷ q ∷ qs) m.n_past p (omega arith))

    round-Sound : (m : Turn E U) (t : ℕ) → Between m → Sound (round ops s cb m t)
    unfolding round
    round-Sound m t (room, lt, p) =
        let m1 = record m { u = (ops.load_abort m.u).1 } in
        branch_Sound (ops.load_abort m.u).0 _ _ (Between-Over m1 (room, lt, p)) (
          then_Sound (emit_tok ops s cb m1 t) _ (emit_tok-Stopped m1 t (room, lt, p)) (λ m' h lt'.
            advance-Sound m' t _ (length-proposals s (max - m'.new_tokens) m'.gen).1 h lt'))

    abbrev pub Settled : Option FailCode × Turn E U → Type 0
    Settled (none, m) = Over m
    Settled (some code, m) = Broken m

    resume-Settled :
        (others : Turn E U → ℕ → Option FailCode × Turn E U) (x : Round E U)
        → Sound x
        → ((m : Turn E U) (t : ℕ) → Between m → Settled (others m t))
        → Settled (resume ops s cb others x)
    unfolding resume
    resume-Settled others (ended m) h go = h
    resume-Settled others (failed code m) h go = h
    resume-Settled others (next m t) h go = go m t h

    pub decode_loop-Settled :
        (fuel : ℕ) (m : Turn E U) (t : ℕ) → Between m → Settled (decode_loop ops s cb fuel m t)
    unfolding decode_loop
    decode_loop-Settled zero m t h = Between-Over m h
    decode_loop-Settled (suc fuel) m t h =
        resume-Settled _ (round ops s cb m t) (round-Sound m t h)
          (λ m' t' h'. decode_loop-Settled fuel m' t' h')
