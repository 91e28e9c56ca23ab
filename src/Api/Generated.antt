-- ===== src/Api/Generated.antt =====
-- `moty_generate` as a whole: the context, the number of tokens and what a failure leaves.
use moty.Base.{
  ℕ, ◌+◌, ◌^◌, ◌≤◌, ◌<◌, ◌≡◌, refl, sym, ap, ◌∙◌, ◌⊎◌, inl, inr, Bool, true, false, not, ◌&&◌,
  Option, none, some, List, length, ltb, ◌==◌, if_cases, arith,
}
use moty.Api.Types.{
  FailCode, ok, Result, returned, trapped, Sampling, Engine, Callback, Model, Stats, Turn,
}
use moty.Api.Sampling.{value, exceeds}
use moty.Api.Context.{held, IsKept, Settled, decode_loop-Settled}
use moty.Api.Generate.{
  Request, Outcome, Memory, request_ids, prompt, arguments, settled_call, start_decode, first_token,
  prefilled, run, admitted, generate, looks_ahead,
}

abbrev pub FewTokens : ℕ → Option Stats → Type 0
FewTokens max none = Unit
FewTokens max (some st) = st.new_tokens ≤ max

-- What a call may ask for, 0 if it is refused at once.
abbrev pub asked : Option Sampling → ℕ
asked none = 0
asked (some s) = value s.max_new_tokens

module _ {E U L X : Type 0} (ops : Engine E U L X) where
  -- A call leaves no more than `c` tokens, the pending one counted, an engine in a state with the
  -- property, and statistics with no more than `max` new tokens.
  abbrev pub IsWithin : ℕ → (E → Type 0) → ℕ → Outcome E U → Type 0
  IsWithin c P max o =
      (o.model.n_past + held o.model.pending ≤ c) × P o.model.e × FewTokens max o.stats

  module _ (c : ℕ) (P : E → Type 0) (laws : IsKept ops c P) (s : Sampling) (cb : Callback U) where
    abbrev max : ℕ
    max = value s.max_new_tokens

    settled_call-IsWithin :
        (np : ℕ) (x : Option FailCode × Turn E U)
        → Settled ops c P laws s cb x
        → IsWithin c P max (settled_call ops np x)
    unfolding settled_call
    settled_call-IsWithin np (some code, t) (le, p) = (omega arith, laws.reset t.e p, le)
    settled_call-IsWithin np (none, t) (room, le, p) =
        if_cases (IsWithin c P max) (ops.load_abort t.u).0 _ _
          (λ _. (omega arith, laws.reset t.e p, le)) (λ _. (room, p, le))

    start_decode-Settled :
        (t : Turn E U) (e : E) (r : Result ℕ)
        → t.n_past + held t.pending + max ≤ c
        → t.new_tokens ≡ 0
        → P e
        → Settled ops c P laws s cb (start_decode ops s cb t (r, e))
    unfolding start_decode
    start_decode-Settled t e (trapped code) room new p = (omega arith, p)
    start_decode-Settled t e (returned y) room new p =
        if_cases (Settled ops c P laws s cb) (ltb 0 max) _ _
          (λ some_asked.
            decode_loop-Settled ops c P laws s cb max (record t { e = e }) y
              (omega arith, ground arith, p))
          (λ _. (omega arith, omega arith, p))

    first_token-Settled :
        (t : Turn E U) (lo : Option L)
        → t.n_past + held t.pending + max ≤ c
        → t.new_tokens ≡ 0
        → P t.e
        → Settled ops c P laws s cb (first_token ops s cb t lo)
    unfolding first_token
    first_token-Settled t none room new p = (omega arith, omega arith, p)
    first_token-Settled t (some lo) room new p =
        start_decode-Settled t _ _ room new (laws.pick t.e lo p)

    prefilled-Settled :
        (m : Model E) (np : ℕ) (room : Bool) (r : Result (Option L)) (e : E) (u : U)
        → m.n_past + np + max ≤ c
        → P e
        → Settled ops c P laws s cb (prefilled ops s cb m np room (r, e, u))
    unfolding prefilled
    prefilled-Settled m np room (trapped code) e u le p = (omega arith, p)
    prefilled-Settled m np room (returned lo) e u le p =
        if_cases (Settled ops c P laws s cb) (looks_ahead ops s && not room) _ _
          (λ _. (omega arith, p)) (λ _. first_token-Settled _ lo (omega arith) refl p)

    run-IsWithin :
        (mem : Memory) (m : Model E) (u : U) (r : Request X) (pr : List ℕ)
        → m.n_past + length pr + max ≤ c
        → P m.e
        → IsWithin c P max (run ops s cb mem m u r pr)
    unfolding run
    run-IsWithin mem m u r pr le p = settled_call-IsWithin (length pr) _ (
        prefilled-Settled m (length pr) mem.answer _ _ _ le (
          laws.prefill _ u pr m.n_past r.embeds r.n_rows r.embed_token (laws.sampled m.e s p)
            (omega arith)))

  exceeds_not : (sum ctx : ℕ) → sum < 2 ^ 31 → exceeds sum ctx ≡ false → sum ≤ ctx
  unfolding exceeds
  exceeds_not sum ctx small e = ground arith

  module _ (mem : Memory) (m : Model E) (u : U) (r : Request X) (cb : Callback U) where
    admitted-IsWithin :
        (P : E → Type 0) (o : Option Sampling)
        → IsKept ops (ops.ctx m.e) P
        → m.n_past + held m.pending ≤ ops.ctx m.e
        → m.n_past + length (prompt m.pending (request_ids r)) + asked o < 2 ^ 31
        → P m.e
        → IsWithin (ops.ctx m.e) P (asked o) (admitted ops mem m u r cb o)
    unfolding admitted
    admitted-IsWithin P none laws fits int p = (fits, p, tt)
    admitted-IsWithin P (some s) laws fits int p =
        let good = IsWithin (ops.ctx m.e) P (value s.max_new_tokens) in
        let np = length (prompt m.pending (request_ids r)) in
        if_cases good (ops.load_abort u).0 _ _ (λ _. (fits, p, omega arith))
          (λ _.
            if_cases good (np == 0) _ _ (λ _. (fits, p, tt))
              (λ _.
                if_cases good (exceeds (m.n_past + np + value s.max_new_tokens) (ops.ctx m.e)) _ _
                  (λ _. (fits, p, tt))
                  (λ e.
                    if_cases good mem.prompt _ _
                      (λ _.
                        run-IsWithin (ops.ctx m.e) P laws s cb mem m _ r _ (exceeds_not _ _ int e)
                          p)
                      (λ _. (fits, p, tt)))))

    -- If the tokens of the conversation fit the context, and those past, of the prompt and asked for
    -- together are an int: after the call they fit it again, no more tokens came than were asked for,
    -- and a property of the engine's state that its operations keep, when they are called with
    -- positions of the context, still holds.
    pub generate-IsWithin :
        (P : E → Type 0) (sp : Option Sampling)
        → IsKept ops (ops.ctx m.e) P
        → m.n_past + held m.pending ≤ ops.ctx m.e
        → m.n_past + length (prompt m.pending (request_ids r)) + asked (arguments ops m r sp)
          < 2 ^ 31
        → P m.e
        → IsWithin (ops.ctx m.e) P (asked (arguments ops m r sp)) (generate ops mem m u r sp cb)
    unfolding generate
    generate-IsWithin P sp laws fits int p =
        admitted-IsWithin P (arguments ops m r sp) laws fits int p

    -- The call gets as far as the prefill: its arguments are sound, no abort is raised, the prompt is
    -- not empty and fits the context with the tokens asked for, and there is memory for it.
    pub record Attempts (o : Option Sampling) : Type 0 where
      pub s : Sampling
      pub sound : o ≡ some s
      pub no_abort : (ops.load_abort u).0 ≡ false
      pub some_prompt : (length (prompt m.pending (request_ids r)) == 0) ≡ false
      pub fits :
          exceeds
            (m.n_past + length (prompt m.pending (request_ids r)) + value s.max_new_tokens)
            (ops.ctx m.e)
          ≡ false
      pub room : mem.prompt ≡ true

    abbrev or_default : Sampling → Option Sampling → Sampling
    or_default s none = s
    or_default s (some t) = t

    -- The conversation is empty, and the engine is in a state that its reset gives.
    abbrev pub IsAnew : Model E → Type 0
    IsAnew m' = (m'.n_past ≡ 0) × (m'.pending ≡ none) × (e : E) × (m'.e ≡ ops.reset e)

    -- What a call leaves: an answer; or the handle as it was, if it did not get to the prefill; or an
    -- empty conversation, if it did.
    abbrev pub IsClean : Option Sampling → Outcome E U → Type 0
    IsClean o out =
        (Attempts o × ((out.status ≡ ok) ⊎ IsAnew out.model)) ⊎ ((out.model ≡ m) × ¬ Attempts o)

    settled_call-IsClean :
        (np : ℕ) (x : Option FailCode × Turn E U)
        → ((settled_call ops np x).status ≡ ok) ⊎ IsAnew (settled_call ops np x).model
    unfolding settled_call
    settled_call-IsClean np (some code, t) = inr (refl, refl, t.e, refl)
    settled_call-IsClean np (none, t) =
        if_cases (λ (out : Outcome E U). (out.status ≡ ok) ⊎ IsAnew out.model)
          (ops.load_abort t.u).0 _ _ (λ _. inr (refl, refl, t.e, refl)) (λ _. inl refl)

    admitted-IsClean : (o : Option Sampling) → IsClean o (admitted ops mem m u r cb o)
    unfolding admitted run
    admitted-IsClean none = inr (refl, λ a. let q = a.sound in cc)
    admitted-IsClean (some s) =
        if_cases (IsClean (some s)) (ops.load_abort u).0 _ _
          (λ raised. inr (refl, λ a. let q = sym raised ∙ a.no_abort in ground arith))
          (λ quiet.
            if_cases (IsClean (some s)) (length (prompt m.pending (request_ids r)) == 0) _ _
              (λ e. inr (refl, λ a. let q = sym e ∙ a.some_prompt in ground arith))
              (λ more.
                if_cases (IsClean (some s)) (exceeds _ (ops.ctx m.e)) _ _
                  (λ e. inr (refl, λ a. too_long s a e))
                  (λ fits.
                    if_cases (IsClean (some s)) mem.prompt _ _
                      (λ room. inl (
                        record {
                          s = s;
                          sound = refl;
                          no_abort = quiet;
                          some_prompt = more;
                          fits = fits;
                          room = room;
                        },
                        settled_call-IsClean _ _,
                      ))
                      (λ e. inr (refl, λ a. let q = sym e ∙ a.room in ground arith)))))
      where
        too_long :
            (s : Sampling) (a : Attempts (some s))
            → exceeds
                (m.n_past + length (prompt m.pending (request_ids r)) + value s.max_new_tokens)
                (ops.ctx m.e)
              ≡ true
            → ⊥
        too_long s a e =
            let same : s ≡ a.s = ap (or_default s) a.sound in
            let q = rw same at e in let x = sym q ∙ a.fits in ground arith

    -- A call that is refused before the prefill, which is for its arguments, an abort raised before,
    -- an empty prompt, the context or the memory for the prompt, leaves the handle and the engine as
    -- they were. A later failure, an abort among them, leaves an empty conversation, and the engine in
    -- a state that its reset gives.
    pub generate-IsClean :
        (sp : Option Sampling) → IsClean (arguments ops m r sp) (generate ops mem m u r sp cb)
    unfolding generate
    generate-IsClean sp = admitted-IsClean (arguments ops m r sp)
