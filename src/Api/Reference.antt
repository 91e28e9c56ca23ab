-- ===== src/Api/Reference.antt =====
-- An engine whose logits depend on the tokens alone, against one whose state is the tokens: looking
-- ahead changes nothing.
use moty.Base.{
  ℕ, suc, ◌-◌, ◌≤◌, ◌≡◌, refl, ◌⊎◌, ℤ, pos, Bool, true, false, Option, none, some, List, [], ◌∷◌,
  ◌++◌, length,
}
use moty.Api.Types.{FailCode, returned, Sampling, Engine, Callback, Turn}
use moty.Api.Sampling.{value}
use moty.Api.Decode.{called, is_last, emit_end, emit_tok, decode_loop}

-- What the logits, the choice, the pieces and the end depend on.
pub record Predictor (L : Type 0) : Type 0 where
  pub logits : List ℤ → L
  pub choose : L → ℕ
  pub stops : ℕ → Bool
  pub pieces : ℕ → List ℕ

-- The engine whose state is the list of the tokens, which cannot look ahead, and whose caller does
-- not abort.
unfoldable pub reference : {L U X : Type 0} → Predictor L → Engine (List ℤ) U L X
reference p = record {
  vocab = λ h. 0;
  ctx = λ h. 0;
  is_stop = λ h t. p.stops t;
  piece = λ h t. p.pieces t;
  prefill = λ h u ids n x rows token. (returned none, h, u);
  step = λ h t n. (returned (p.logits (h ++ pos t ∷ [])), h ++ pos t ∷ []);
  can_verify = false;
  verify = λ h ids n. (returned none, h);
  reset = λ h. [];
  sampled = λ h s. h;
  pick = λ h lo. (returned (p.choose lo), h);
  load_abort = λ u. (false, u);
}

module _ {E U L X : Type 0} (ops : Engine E U L X) (p : Predictor L) (kv : E → List ℤ) where
  -- The KV begins with the tokens of the history.
  abbrev pub Holds : E → List ℤ → Type 0
  Holds e h = (rest : List ℤ) × (kv e ≡ h ++ rest)

  -- An engine with a KV, that attends to the tokens before a position and to no other state; the
  -- choice is greedy, and the caller does not abort. The rows of `verify` on at most three tokens,
  -- the pending one and two proposals, are those of single steps, as c/api/moty.h promises.
  pub record IsCausal : Type 0 where
    pub is_stop : (e : E) (t : ℕ) → ops.is_stop e t ≡ p.stops t
    pub piece : (e : E) (t : ℕ) → ops.piece e t ≡ p.pieces t
    pub load_abort : (u : U) → ops.load_abort u ≡ (false, u)
    pub step :
        (e : E) (h : List ℤ) (t : ℕ)
        → Holds e h
        → ((ops.step e t (length h)).0 ≡ returned (p.logits (h ++ pos t ∷ [])))
          × Holds (ops.step e t (length h)).1 (h ++ pos t ∷ [])
    pub verify :
        (e : E) (h ids : List ℤ)
        → length ids ≤ 3
        → Holds e h
        → (((ops.verify e ids (length h)).0 ≡ returned none)
            × Holds (ops.verify e ids (length h)).1 h)
          ⊎ ((rows : ℕ → L) × ((ops.verify e ids (length h)).0 ≡ returned (some rows))
              × Holds (ops.verify e ids (length h)).1 (h ++ ids)
              × ((read ahead : List ℤ) (a : ℕ)
                  → ids ≡ read ++ ahead
                  → length read ≡ suc a
                  → rows a ≡ p.logits (h ++ read)))
    pub pick :
        (e : E) (lo : L)
        → ((ops.pick e lo).0 ≡ returned (p.choose lo)) × (kv (ops.pick e lo).1 ≡ kv e)

-- The turn of the reference engine: its history in place of the engine.
abbrev pub ghost : {E U : Type 0} → List ℤ → Turn E U → Turn (List ℤ) U
ghost h m = record {
  e = h;
  u = m.u;
  n_past = m.n_past;
  pending = m.pending;
  new_tokens = m.new_tokens;
  stop = m.stop;
  gen = none;
}

module _ {E U L X : Type 0} (ops : Engine E U L X) (p : Predictor L) (kv : E → List ℤ) where
  module _ (laws : IsCausal ops p kv) (s : Sampling) (cb : Callback U) where
    abbrev pub ref : Engine (List ℤ) U L X
    ref = reference p

    abbrev max : ℕ
    max = value s.max_new_tokens

    -- The reference, with as many rounds as tokens may still come.
    abbrev pub rest_of : Turn (List ℤ) U → ℕ → Option FailCode × Turn (List ℤ) U
    rest_of a t = decode_loop ref s cb (max - a.new_tokens) a t

    stopped_same :
        (h : List ℤ) (m : Turn E U) (stop back : Bool)
        → emit_end ref s cb (ghost h m) stop back
          ≡ ((emit_end ops s cb m stop back).0, ghost h (emit_end ops s cb m stop back).1)
    unfolding emit_end
    stopped_same h m stop true = refl
    stopped_same h m true false = refl
    stopped_same h m false false = refl

    called_same :
        (f : Callback U) (u : U) (t : ℕ) (piece : List ℕ)
        → called ref s cb f u t piece ≡ called ops s cb f u t piece
    unfolding called
    called_same none u t piece = refl
    called_same (some f) u t piece = refl

    -- A token is emitted alike.
    pub emit_same :
        (h : List ℤ) (m : Turn E U) (t : ℕ)
        → emit_tok ref s cb (ghost h m) t
          ≡ ((emit_tok ops s cb m t).0, ghost h (emit_tok ops s cb m t).1)
    unfolding emit_tok is_last reference
    emit_same h m t =
        rw (laws.is_stop m.e t, laws.piece m.e t, called_same cb m.u t _) (stopped_same h _ _ _)
