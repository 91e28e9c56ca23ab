-- ===== src/Api/Opened.antt =====
-- What `moty_model_open_with` gives, and that a failure leaves no instance.
use moty.Base.{
  ℕ, zero, suc, ◌≡◌, refl, ◌⊎◌, not, ◌&&◌, ◌||◌, inl, inr, ℤ, pos, negsuc, int_eq, int_eq→≡, Bool,
  true, false, Option, none, some, List, [], ◌∷◌, if_cases, arith, Any, Bool-cases, Option-cases,
}
use moty.Api.Types.{Result, returned, trapped}
use moty.Api.Sampling.{above_zero, negative}
use moty.Api.Open.{
  Options, options_of, is_one_of, good_options, with_ctx, Opener, Files, Typed, typed, untyped,
  exits, model_type_of, Handle, Opening, opened, refused_open, exited, find_engine, choose_engine,
  engine_open, open_end, open_chosen, open_typed, open_with,
}

above_zero_other : (x : ℤ) → int_eq x (pos 0) ≡ false → negative x ≡ false → above_zero x ≡ true
above_zero_other (pos a) other not_negative = ground arith
above_zero_other (negsuc a) other not_negative = absurd (ground arith)

sound_ctx :
    (o : Options)
    → good_options o ≡ true
    → (good_options (with_ctx o) ≡ true) × (above_zero (with_ctx o).ctx ≡ true)
unfolding good_options with_ctx
sound_ctx o good = elim (Bool-cases (int_eq o.ctx (pos 0))) [
  | inl none_ ↦ rw none_ (rw (int_eq→≡ o.ctx (pos 0) none_) at good, refl)
  | inr some_ ↦ rw some_ (good, above_zero_other o.ctx some_ (ground arith))
]

abbrev NotNegative : ℤ → Type 0
NotNegative x = (n : ℕ) × (x ≡ pos n)

-- The options in the ranges that c/api/moty.h gives, and a context of at least one token.
pub record InRange (o : Options) : Type 0 where
  pub qbits : (o.qbits ≡ pos 4) ⊎ (o.qbits ≡ pos 8)
  pub kv_bits : (o.kv_bits ≡ pos 0) ⊎ (o.kv_bits ≡ pos 8)
  pub mmap_weights :
      (o.mmap_weights ≡ pos 0) ⊎ ((o.mmap_weights ≡ pos 1) ⊎ (o.mmap_weights ≡ pos 2))
  pub threads : NotNegative o.threads
  pub threads_decode : NotNegative o.threads_decode
  pub head_topk : NotNegative o.head_topk
  pub prefill_chunk : NotNegative o.prefill_chunk
  pub pool_spin_us : NotNegative o.pool_spin_us
  pub ctx : (n : ℕ) × (o.ctx ≡ pos (suc n))

both : (a b : Bool) → (a && b) ≡ true → (a ≡ true) × (b ≡ true)
both true b e = (refl, e)
both false b e = absurd (ground arith)

either : (a b : Bool) → (a || b) ≡ true → (a ≡ true) ⊎ (b ≡ true)
either true b e = inl refl
either false b e = inr e

neither : (a b : Bool) → (a || b) ≡ false → (a ≡ false) × (b ≡ false)
neither true b e = absurd (ground arith)
neither false b e = (refl, e)

one_of : (a b x : ℤ) → is_one_of a b x ≡ true → (x ≡ a) ⊎ (x ≡ b)
one_of a b x e = elim (either (int_eq x a) (int_eq x b) e) [
  | inl h ↦ inl (int_eq→≡ x a h)
  | inr h ↦ inr (int_eq→≡ x b h)
]

not_negative : (x : ℤ) → negative x ≡ false → NotNegative x
not_negative (pos n) e = (n, refl)
not_negative (negsuc n) e = absurd (ground arith)

some_tokens : (x : ℤ) → above_zero x ≡ true → (n : ℕ) × (x ≡ pos (suc n))
some_tokens (pos zero) e = absurd (ground arith)
some_tokens (pos (suc n)) e = (n, refl)
some_tokens (negsuc n) e = absurd (ground arith)

mapping_of :
    (x : ℤ)
    → (is_one_of (pos 0) (pos 1) x || int_eq x (pos 2)) ≡ true
    → (x ≡ pos 0) ⊎ ((x ≡ pos 1) ⊎ (x ≡ pos 2))
mapping_of x e = elim (either (is_one_of (pos 0) (pos 1) x) (int_eq x (pos 2)) e) [
  | inr h ↦ inr (inr (int_eq→≡ x (pos 2) h))
  | inl h ↦ elim (one_of (pos 0) (pos 1) x h) [ inl q ↦ inl q | inr q ↦ inr (inl q) ]
]

true_of_not : (b : Bool) → not b ≡ true → b ≡ false
true_of_not true e = absurd (ground arith)
true_of_not false e = refl

good_options-InRange : (o : Options) → good_options o ≡ true → above_zero o.ctx ≡ true → InRange o
unfolding good_options
good_options-InRange o good room =
    let (numbers, signs) = both _ _ good in
    let (bits, mapping) = both _ _ numbers in
    let (qbits, kv) = both _ _ bits in
    let (s4, spin) = neither _ _ (true_of_not _ signs) in
    let (s3, chunk) = neither _ _ s4 in
    let (s2, topk) = neither _ _ s3 in
    let (threads, decode) = neither _ _ (neither _ (negative o.ctx) s2).0 in
    record {
      qbits = one_of _ _ _ qbits;
      kv_bits = one_of _ _ _ kv;
      mmap_weights = mapping_of _ mapping;
      threads = not_negative _ threads;
      threads_decode = not_negative _ decode;
      head_topk = not_negative _ topk;
      prefill_chunk = not_negative _ chunk;
      pool_spin_us = not_negative _ spin;
      ctx = some_tokens _ room;
    }

module _ {W I : Type 0} where
  -- The engine is the caller's, or else one of the list.
  abbrev pub IsAmong : Option (Opener W I) → List (Opener W I) → Opener W I → Type 0
  IsAmong none engines ops = Any (λ engine. engine ≡ ops) engines
  IsAmong (some own) engines ops = own ≡ ops

  -- An engine that accepts the type, if there is one.
  abbrev pub Accepting : List ℕ → (Opener W I → Type 0) → Option (Opener W I) → Type 0
  Accepting type P none = Unit
  Accepting type P (some ops) = (ops.accepts type ≡ true) × P ops

  Accepting-weaker :
      (type : List ℕ) (P Q : Opener W I → Type 0) (o : Option (Opener W I))
      → ((ops : Opener W I) → P ops → Q ops)
      → Accepting type P o
      → Accepting type Q o
  Accepting-weaker type P Q none weaker h = tt
  Accepting-weaker type P Q (some ops) weaker h = (h.0, weaker ops h.1)

  find_engine-Accepting :
      (engines : List (Opener W I)) (type : List ℕ)
      → Accepting type (IsAmong none engines) (find_engine engines type)
  unfolding find_engine
  find_engine-Accepting [] type = tt
  find_engine-Accepting (engine ∷ engines) type =
      if_cases (Accepting type (IsAmong none (engine ∷ engines))) (engine.accepts type) _ _
        (λ e. (e, inl refl))
        (λ _.
          Accepting-weaker type (IsAmong none engines) _ (find_engine engines type) (λ ops h. inr h)
            (find_engine-Accepting engines type))

  pub choose_engine-Accepting :
      (own : Option (Opener W I)) (engines : List (Opener W I)) (type : List ℕ)
      → Accepting type (IsAmong own engines) (choose_engine own engines type)
  unfolding choose_engine
  choose_engine-Accepting none engines type = find_engine-Accepting engines type
  choose_engine-Accepting (some ops) engines type =
      if_cases (Accepting type (IsAmong (some ops) engines)) (ops.accepts type) _ _ (λ e. (e, refl))
        (λ _. tt)

  -- A handle with options in their ranges and a context, whose engine accepts the model's type, with an empty
  -- conversation.
  pub record IsReady (own : Option (Opener W I)) (engines : List (Opener W I)) (t : Typed)
      (m : Handle W I) : Type 0 where
    pub ranges : InRange m.opt
    pub type : List ℕ
    pub is_type : t ≡ typed type
    pub accepts : m.ops.accepts type ≡ true
    pub among : IsAmong own engines m.ops
    pub empty : (m.n_past ≡ 0) × (m.pending ≡ none)

  abbrev pub OpensReady : Option (Opener W I) → List (Opener W I) → Typed → Opening W I → Type 0
  OpensReady own engines t (opened m w) = IsReady own engines t m
  OpensReady own engines t (refused_open status w) = Unit
  OpensReady own engines t (exited w) = Unit

  module _ (own : Option (Opener W I)) (engines : List (Opener W I)) where
    open_chosen-OpensReady :
        (room : Bool) (w : W) (path : List ℕ) (o : Options) (type : List ℕ)
        (c : Option (Opener W I))
        → good_options o ≡ true
        → above_zero o.ctx ≡ true
        → Accepting type (IsAmong own engines) c
        → OpensReady own engines (typed type) (open_chosen room w path o c)
    unfolding open_chosen open_end
    open_chosen-OpensReady room w path o type none good ctx a = tt
    open_chosen-OpensReady room w path o type (some ops) good ctx a =
        if_cases (OpensReady own engines (typed type)) room _ _
          (λ _. ended (ops.open_inst w path (engine_open o))) (λ _. tt)
      where
        ended :
            (r : Result I × Option I × W) → OpensReady own engines (typed type) (open_end ops o r)
        ended (trapped code, out, w') = tt
        ended (returned i, out, w') = record {
          ranges = good_options-InRange o good ctx;
          type = type;
          is_type = refl;
          accepts = a.0;
          among = a.1;
          empty = (refl, refl);
        }

    open_typed-OpensReady :
        (room : Bool) (w : W) (path : List ℕ) (o : Options) (t : Typed)
        → good_options o ≡ true
        → above_zero o.ctx ≡ true
        → OpensReady own engines t (open_typed room w own engines path o t)
    unfolding open_typed
    open_typed-OpensReady room w path o exits good ctx = tt
    open_typed-OpensReady room w path o (untyped status) good ctx = tt
    open_typed-OpensReady room w path o (typed type) good ctx =
        open_chosen-OpensReady room w path o type (choose_engine own engines type) good ctx
          (choose_engine-Accepting own engines type)

    -- A handle that is opened has a qbits of 4 or 8, kv_bits of 0 or 8, an mmap_weights of 0, 1 or
    -- 2, no negative threads, threads_decode, head_topk, prefill_chunk and pool_spin_us, and a
    -- context of at least one token; its engine, the caller's or else one of the list, accepts the
    -- type that the model's files give; and its conversation is empty.
    pub open_with-OpensReady :
        (files : Files) (room : Bool) (w : W) (path : List ℕ) (opt : Option Options)
        → OpensReady own engines
            (model_type_of files path)
            (open_with files room w own engines path opt)
    unfolding open_with
    open_with-OpensReady files room w path opt = elim (Option-cases (options_of opt)) [
      | inl e ↦ rw (e, open_with) tt
      | inr (o, e) ↦
          rw (e, open_with)
            (if_cases (OpensReady own engines (model_type_of files path)) (good_options o) _ _
              (λ good.
                let (good', ctx) = sound_ctx o good in
                open_typed-OpensReady room w path (with_ctx o) (model_type_of files path) good' ctx)
              (λ _. tt))
    ]
