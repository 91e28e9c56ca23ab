-- ===== src/Api/Tests.antt =====
-- An engine whose next token is the number of tokens so far, modulo 3; its KV is the list of tokens.
use moty.Base.{
  ℕ, ◌+◌, ◌%◌, ◌≤◌, ◌≡◌, refl, sym, ap, ◌∙◌, ◌⊎◌, inr, ℤ, pos, true, false, none, some, List, [],
  ◌∷◌, ◌++◌, map, append_nil, suc, zero, length, take, arith, length-append, take_whole,
}
use moty.Api.Types.{returned, Sampling, Engine, Callback, Model, Turn, stop_length}
use moty.Api.Sampling.{sampling_of, bad_sampling, in_vocab, exceeds, numbers_at}
use moty.Api.Draft.{after_suffix, followers, suffixes, proposals}
use moty.Api.Decode.{
  called, is_last, emit_end, emit_tok, picked, stepped, feed_token, compared, accept_proposals,
  verified, advance, round, resume, decode_loop,
}
use moty.Api.Generate.{
  Request, Memory, bad_request, bad_rows, arguments, looks_ahead, settled_call, start_decode,
  first_token, prefilled, run, admitted, generate,
}
use moty.Api.DraftBounds.{IsProposed, length-proposals, proposals-IsProposed}
use moty.Api.Context.{IsKept, held}
use moty.Api.Generated.{IsWithin, IsClean, asked, generate-IsWithin, generate-IsClean}
use moty.Api.Rounds.{decode_loop_enough}
use moty.Api.Reference.{Predictor, reference, IsCausal, ghost}
use moty.Api.Answer.{Answered, decode_loop-Answered}

abbrev counting : Predictor ℕ
counting = record {
  logits = λ h. length h % 3;
  choose = λ lo. lo;
  stops = λ t. false;
  pieces = λ t. (b'0' + t) ∷ [];
}

-- The caller's state is the answer.
abbrev toy : Engine (List ℤ) (List ℕ) ℕ ℕ
toy = record {
  vocab = λ e. 3;
  ctx = λ e. 16;
  is_stop = λ e t. false;
  piece = λ e t. (b'0' + t) ∷ [];
  prefill = λ e u ids n x rows token.
      (returned (some ((n + length ids) % 3)), take n e ++ map pos ids, u);
  step = λ e t n. (returned (length (take n e ++ pos t ∷ []) % 3), take n e ++ pos t ∷ []);
  can_verify = true;
  verify = λ e ids n. (returned (some (λ a. (length (take n e) + (a + 1)) % 3)), take n e ++ ids);
  reset = λ e. [];
  sampled = λ e s. e;
  pick = λ e lo. (returned lo, e);
  load_abort = λ u. (false, u);
}

abbrev recorded : Callback (List ℕ)
recorded = some (λ u t piece. (false, u ++ t ∷ []))

-- Five tokens, with a draft.
abbrev five : Sampling
five = record {
  size = pos 48;
  temperature = 0;
  top_p = 0;
  seed = 0;
  max_new_tokens = pos 5;
  ignore_eos = false;
  draft = some (pos 1 ∷ pos 2 ∷ pos 0 ∷ pos 1 ∷ pos 1 ∷ []);
  n_draft = pos 5;
  draft_k = pos 0;
}

abbrev asking : Request ℕ
asking = record {
  ids = some (pos 0 ∷ []);
  n = pos 1;
  embeds = none;
  n_rows = pos 0;
  embed_token = pos 0;
}

abbrev enough : Memory
enough = record { prompt = true; answer = true }

abbrev empty : Model (List ℤ)
empty = record { e = []; n_past = 0; pending = none }

toy-IsCausal : IsCausal toy counting (λ e. e)
toy-IsCausal = record {
  is_stop = λ e t. refl;
  piece = λ e t. refl;
  load_abort = λ u. refl;
  step = λ e h t held. toy_step e h t held.0 held.1;
  verify = λ e h ids few held. inr (toy_verify e h ids held.0 held.1);
  pick = λ e lo. (refl, refl);
}
  where
    keeps : (e h rest : List ℤ) → e ≡ h ++ rest → take (length h) e ≡ h
    keeps e h rest held = ap (take (length h)) held ∙ take_whole h rest

    snoc : (h ids : List ℤ) → h ++ ids ≡ (h ++ ids) ++ []
    snoc h ids = sym (append_nil (h ++ ids))

    toy_step :
        (e h : List ℤ) (t : ℕ) (rest : List ℤ)
        → e ≡ h ++ rest
        → (returned (length (take (length h) e ++ pos t ∷ []) % 3)
            ≡ returned (length (h ++ pos t ∷ []) % 3))
          × ((more : List ℤ) × (take (length h) e ++ pos t ∷ [] ≡ (h ++ pos t ∷ []) ++ more))
    toy_step e h t rest held = (
      ap (λ k. returned (length (k ++ pos t ∷ []) % 3)) (keeps e h rest held),
      ([], ap (λ k. k ++ pos t ∷ []) (keeps e h rest held) ∙ snoc h (pos t ∷ [])),
    )

    toy_verify :
        (e h ids rest : List ℤ)
        → e ≡ h ++ rest
        → (rows : ℕ → ℕ) × (returned (some (λ a. (length (take (length h) e) + (a + 1)) % 3))
            ≡ returned (some rows))
          × ((more : List ℤ) × (take (length h) e ++ ids ≡ (h ++ ids) ++ more))
          × ((read ahead : List ℤ) (a : ℕ)
              → ids ≡ read ++ ahead
              → length read ≡ suc a
              → rows a ≡ length (h ++ read) % 3)
    toy_verify e h ids rest held = (
      (λ a. (length (take (length h) e) + (a + 1)) % 3),
      refl,
      ([], ap (λ k. k ++ ids) (keeps e h rest held) ∙ snoc h ids),
      λ read ahead a cut len.
          let n : length (take (length h) e) + (a + 1) ≡ length (h ++ read) =
            omega (arith, ap length (keeps e h rest held), len, length-append h read) in
          ap (λ k. k % 3) n,
    )

length-take : (n : ℕ) (e : List ℤ) → length (take n e) ≤ n
length-take zero e = omega arith
length-take (suc n) [] = omega arith
length-take (suc n) (i ∷ e) = let h = length-take n e in omega arith

length-map_pos : (ids : List ℕ) → length (map pos ids) ≡ length ids
length-map_pos [] = refl
length-map_pos (i ∷ ids) = ap suc (length-map_pos ids)

-- The KV never grows past the context.
abbrev Small : List ℤ → Type 0
Small e = length e ≤ 16

written : (n : ℕ) (e ids : List ℤ) → n + length ids ≤ 16 → Small (take n e ++ ids)
written n e ids le = omega (arith, length-append (take n e) ids, length-take n e)

toy-IsKept : IsKept toy 16 Small
toy-IsKept = record {
  prefill = λ e u ids n x rows token small le.
      written n e (map pos ids) (omega (arith, length-map_pos ids));
  step = λ e t n small lt. written n e (pos t ∷ []) (omega arith);
  verify = λ e ids n small le. written n e ids le;
  pick = λ e lo small. small;
  reset = λ e small. omega arith;
  sampled = λ e s small. small;
}

-- The answer 1, 2, 0, 1, 2 to the prompt 0, which looks ahead.
answer : (generate toy enough empty [] asking (some five) recorded).u ≡ 1 ∷ 2 ∷ 0 ∷ 1 ∷ 2 ∷ []
unfolding generate admitted arguments bad_request sampling_of bad_sampling in_vocab bad_rows run
    prefilled looks_ahead first_token start_decode decode_loop round emit_tok is_last called
    emit_end advance proposals suffixes followers after_suffix verified accept_proposals compared
    feed_token stepped picked resume settled_call exceeds
answer = refl

generate-IsWithin_example :
    IsWithin toy 16 Small
      (asked (arguments toy empty asking (some five)))
      (generate toy enough empty [] asking (some five) recorded)
unfolding arguments bad_request sampling_of bad_sampling in_vocab bad_rows
generate-IsWithin_example =
    generate-IsWithin toy enough empty [] asking recorded Small (some five) toy-IsKept (omega arith)
      (omega arith) (omega arith)

generate-IsClean_example :
    IsClean toy enough empty [] asking recorded
      (arguments toy empty asking (some five))
      (generate toy enough empty [] asking (some five) recorded)
generate-IsClean_example = generate-IsClean toy enough empty [] asking recorded (some five)

-- After the prefill of the prompt 0.
abbrev begun : Turn (List ℤ) (List ℕ)
begun = record {
  e = pos 0 ∷ [];
  u = [];
  n_past = 1;
  pending = none;
  new_tokens = 0;
  stop = stop_length;
  gen = some [];
}

decode_loop_enough_example :
    decode_loop toy five recorded 5 begun 1 ≡ decode_loop toy five recorded 9 begun 1
decode_loop_enough_example =
    decode_loop_enough toy five recorded 5 9 begun 1 (omega arith) (omega arith) (omega arith)

decode_loop-Answered_example :
    Answered toy counting
      (λ e. e)
      toy-IsCausal
      five
      recorded
      (decode_loop {X = ℕ} (reference counting) five recorded 5 (ghost (pos 0 ∷ []) begun) 1)
      (decode_loop toy five recorded 5 begun 1)
decode_loop-Answered_example =
    decode_loop-Answered toy counting (λ e. e) toy-IsCausal five recorded 5 (pos 0 ∷ []) begun 1
      (omega arith) (refl, ([], refl)) (omega arith) (omega arith)

length-proposals_example :
    (length (proposals five 3 (some (1 ∷ 2 ∷ []))) ≤ 15)
    × (length (proposals five 3 (some (1 ∷ 2 ∷ []))) ≤ 3)
length-proposals_example = length-proposals five 3 (some (1 ∷ 2 ∷ []))

proposals-IsProposed_example :
    (proposals five 3 (some (1 ∷ 2 ∷ [])) ≡ [])
    ⊎ IsProposed
        (1 ∷ 2 ∷ [])
        (numbers_at five.draft five.n_draft)
        (proposals five 3 (some (1 ∷ 2 ∷ [])))
proposals-IsProposed_example = proposals-IsProposed five 3 (1 ∷ 2 ∷ [])
