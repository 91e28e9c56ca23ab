-- ===== src/Api/Decode.antt =====
-- The decode loop of `moty_generate`: `emit_tok`, a plain step, and a step that looks ahead.
use moty.Base.{
  ℕ, zero, suc, ◌-◌, ℤ, pos, int_eq, Bool, true, false, not, ◌&&◌, Option, none, some, List, [],
  ◌∷◌, ◌++◌, leb, if◌then◌else◌,
}
use moty.Api.Types.{
  FailCode, Result, returned, trapped, Sampling, Engine, Callback, Turn, stop_eos, stop_callback,
}
use moty.Api.Sampling.{value}
use moty.Api.Draft.{proposals}

-- What a round of the loop comes to: the loop is left, a failure has sprung the trap, or the loop goes
-- on with a token.
pub data Round (E U : Type 0) : Type 0 where
  ended : Turn E U → Round E U
  failed : FailCode → Turn E U → Round E U
  next : Turn E U → ℕ → Round E U

abbrev pub pushed : Option (List ℕ) → ℕ → Option (List ℕ)
pushed none t = none
pushed (some gen) t = some (gen ++ t ∷ [])

module _ {E U L X : Type 0} (ops : Engine E U L X) (s : Sampling) (cb : Callback U) where
  -- `cb && cb(user, t, piece, pl)`
  unfoldable pub called : Callback U → U → ℕ → List ℕ → Bool × U
  called none u t piece = (false, u)
  called (some f) u t piece = f u t piece

  unfoldable pub is_last : E → ℕ → Bool
  is_last e t = not s.ignore_eos && ops.is_stop e t

  -- The end of `emit_tok`, with what the callback said.
  unfoldable pub emit_end : Turn E U → Bool → Bool → Bool × Turn E U
  emit_end m stop true = (true, record m { stop = stop_callback })
  emit_end m true false = (true, record m { stop = stop_eos })
  emit_end m false false = (leb (value s.max_new_tokens) m.new_tokens, m)

  -- `emit_tok`
  unfoldable pub emit_tok : Turn E U → ℕ → Bool × Turn E U
  emit_tok m t =
      let stop = is_last m.e t in
      let (back, u) = called cb m.u t (if stop then [] else ops.piece m.e t) in
      emit_end
        (record m { u = u; new_tokens = suc m.new_tokens; pending = some t; gen = pushed m.gen t })
        stop back

  -- `moty_pick_tok`, and on with the token.
  unfoldable pub picked : Turn E U → Result ℕ × E → Round E U
  picked m (trapped c, e) = failed c (record m { e = e })
  picked m (returned t, e) = next (record m { e = e }) t

  -- The token that was pending is in the KV.
  abbrev pub token_fed : Turn E U → E → Turn E U
  token_fed m e = record m { e = e; n_past = suc m.n_past; pending = none }

  -- The end of the loop's body: one step.
  unfoldable pub stepped : Turn E U → Result L × E → Round E U
  stepped m (trapped c, e) = failed c (record m { e = e })
  stepped m (returned lo, e) = picked (token_fed m e) (ops.pick e lo)

  unfoldable pub feed_token : Turn E U → ℕ → Round E U
  feed_token m t = stepped m (ops.step m.e t m.n_past)

  -- A proposal against the token that the model predicts, and on with the rest of the proposals.
  unfoldable pub compared : (Turn E U → Round E U) → Turn E U → ℤ → Result ℕ × E → Round E U
  compared others m q (trapped c, e) = failed c (record m { e = e })
  compared others m q (returned y, e) = elim (int_eq (pos y) q) [
    | false ↦ next (record m { e = e }) y
    | true ↦
        let (stop, m') = emit_tok (record m { e = e }) y in
        elim stop [ true ↦ ended m' | false ↦ others (token_fed m' m'.e) ]
  ]

  -- The loop over the proposals: those that the model itself predicts are emitted. `rows a` is
  -- `m->lo` from row `a` on.
  unfoldable pub accept_proposals : (ℕ → L) → ℕ → Turn E U → List ℤ → Round E U
  accept_proposals rows a m [] = picked m (ops.pick m.e (rows a))
  accept_proposals rows a m (q ∷ qs) =
      compared (λ m'. accept_proposals rows (suc a) m' qs) m q (ops.pick m.e (rows a))

  -- A step that looks ahead; an engine may decline, and the token is fed as usual.
  unfoldable pub verified : Turn E U → ℕ → List ℤ → Result (Option (ℕ → L)) × E → Round E U
  verified m t prop (trapped c, e) = failed c (record m { e = e })
  verified m t prop (returned none, e) = feed_token (record m { e = e }) t
  verified m t prop (returned (some rows), e) = accept_proposals rows 0 (token_fed m e) prop

  unfoldable pub advance : Turn E U → ℕ → List ℤ → Round E U
  advance m t [] = feed_token m t
  advance m t (q ∷ qs) = verified m t (q ∷ qs) (ops.verify m.e (pos t ∷ q ∷ qs) m.n_past)

  abbrev pub budget : Turn E U → ℕ
  budget m = value s.max_new_tokens - m.new_tokens

  -- The loop's body.
  unfoldable pub round : Turn E U → ℕ → Round E U
  round m t =
      let (raised, u) = ops.load_abort m.u in
      elim raised [
        | true ↦ ended (record m { u = u })
        | false ↦
            let (stop, m') = emit_tok (record m { u = u }) t in
            elim stop [ true ↦ ended m' | false ↦ advance m' t (proposals s (budget m') m'.gen) ]
      ]

  -- The way on after a round. In the end: the failure, if there was one.
  unfoldable pub resume :
      (Turn E U → ℕ → Option FailCode × Turn E U) → Round E U → Option FailCode × Turn E U
  resume others (ended m) = (none, m)
  resume others (failed c m) = (some c, m)
  resume others (next m t) = others m t

  -- The loop, with the rounds left.
  unfoldable pub decode_loop : ℕ → Turn E U → ℕ → Option FailCode × Turn E U
  decode_loop zero m t = (none, m)
  decode_loop (suc fuel) m t = resume (λ m' t'. decode_loop fuel m' t') (round m t)
