-- ===== src/Tok/Inverse.antt =====
-- `tok_encode` and `tok_decode`: the added tokens that cut a text, and the way back.
use moty.Base.{
  ℕ, zero, suc, ◌≤◌, ◌<◌, ◌≡◌, refl, sym, ap, ◌∙◌, inl, inr, Bool, true, false, Option, none, some,
  List, [], ◌∷◌, ◌++◌, length, take, All, ltb, ◌==◌, arith, Bool-cases, Option-cases, length-append,
  append_nil, take_all,
}
use mathlib.Core.Path.{subst}
use moty.Tok.Table.{Tok, Special}
use moty.Tok.Pretok.{Classes}
use moty.Tok.Encode.{strip, special_at, next_special, chunk_ids, encode_loop, encoded, tok_encode}
use moty.Tok.Decode.{string_bytes, token_bytes, text_of, tok_decode}
use moty.Tok.Spelling.{IsByte}
use moty.Tok.RoundTrip.{IsByteLevel, text_of-append, text_of-chunk_ids, token_bytes-some, All-split}

strip-some : (str text rest : List ℕ) → strip str text ≡ some rest → text ≡ str ++ rest
unfolding strip
strip-some [] text rest e = cc
strip-some (c ∷ str) [] rest e = absurd (ground arith)
strip-some (c ∷ str) (b ∷ text) rest e = elim (Bool-cases (c == b)) [
  | inl same ↦
      let here : b ≡ c = ground arith in
      ap (λ x. x ∷ text) here ∙ ap (λ t. c ∷ t) (strip-some str text rest (rw same at e))
  | inr other ↦ absurd (let f = rw other at e in ground arith)
]

-- What `special_at` finds: an added token of the list that the text begins with, not empty.
record IsHit (P : Special → Type 0) (text : List ℕ) (hit : ℕ × List ℕ) : Type 0 where
  sp : Special
  found : P sp
  named : sp.id ≡ hit.0
  whole : text ≡ sp.str ++ hit.1
  some_bytes : 0 < length sp.str

special_at-IsHit :
    (P : Special → Type 0) (sps : List Special) (text : List ℕ) (hit : ℕ × List ℕ)
    → All P sps
    → special_at sps text ≡ some hit
    → IsHit P text hit
unfolding special_at
special_at-IsHit P [] text hit ps e = absurd (ground arith)
special_at-IsHit P (sp ∷ sps) text hit ps e = elim (Bool-cases (ltb 0 (length sp.str))) [
  | inr empty ↦ special_at-IsHit P sps text hit ps.1 (rw (empty, special_at) at e)
  | inl full ↦ elim (Option-cases (strip sp.str text)) [
    | inl no_hit ↦ special_at-IsHit P sps text hit ps.1 (rw (full, no_hit, special_at) at e)
    | inr (rest, q) ↦
        let same : some (sp.id, rest) ≡ some hit = rw (full, q, special_at) at e in
        let pair : (sp.id, rest) ≡ hit = cc in
        record {
          sp = sp;
          found = ps.0;
          named = ap (λ h. h.0) pair;
          whole = strip-some sp.str text rest q ∙ ap (λ h. sp.str ++ h.1) pair;
          some_bytes = ground arith;
        }
  ]
]

-- How `next_special` cuts a text.
abbrev IsCut : (Special → Type 0) → List ℕ → List ℕ × Option (ℕ × List ℕ) → Type 0
IsCut P text (before, none) = text ≡ before
IsCut P text (before, some hit) = (tail : List ℕ) × (text ≡ before ++ tail) × IsHit P tail hit

IsCut-cons :
    (P : Special → Type 0) (b : ℕ) (text before : List ℕ) (hit : Option (ℕ × List ℕ))
    → IsCut P text (before, hit)
    → IsCut P (b ∷ text) (b ∷ before, hit)
IsCut-cons P b text before none cut = ap (λ t. b ∷ t) cut
IsCut-cons P b text before (some hit) (tail, e, h) = (tail, ap (λ t. b ∷ t) e, h)

next_special_miss :
    (sps : List Special) (b : ℕ) (text : List ℕ)
    → special_at sps (b ∷ text) ≡ none
    → next_special sps (b ∷ text) ≡ (b ∷ (next_special sps text).0, (next_special sps text).1)
unfolding next_special
next_special_miss sps b text e = rw (e, next_special) refl

next_special_hit :
    (sps : List Special) (b : ℕ) (text : List ℕ) (hit : ℕ × List ℕ)
    → special_at sps (b ∷ text) ≡ some hit
    → next_special sps (b ∷ text) ≡ ([], some hit)
unfolding next_special
next_special_hit sps b text hit e = rw (e, next_special) refl

next_special-IsCut :
    (P : Special → Type 0) (sps : List Special) (text : List ℕ)
    → All P sps
    → IsCut P text (next_special sps text)
unfolding next_special
next_special-IsCut P sps [] ps = refl
next_special-IsCut P sps (b ∷ text) ps = elim (Option-cases (special_at sps (b ∷ text))) [
  | inr (hit, e) ↦
      subst (IsCut P (b ∷ text)) (sym (next_special_hit sps b text hit e))
        ((b ∷ text), refl, special_at-IsHit P sps (b ∷ text) hit ps e)
  | inl e ↦
      let (before, hit) = next_special sps text in
      subst (IsCut P (b ∷ text)) (sym (next_special_miss sps b text e))
        (IsCut-cons P b text before hit (next_special-IsCut P sps text ps))
]

module _ (T : Tok) (w : IsByteLevel T) (k : Classes) where
  abbrev Names : Special → Type 0
  Names sp = (T.id2str sp.id ≡ some sp.str) × (T.id_added sp.id ≡ true)

  token_bytes-Names : (sp : Special) → Names sp → token_bytes T sp.id ≡ sp.str
  unfolding string_bytes
  token_bytes-Names sp (q, added) =
      token_bytes-some T w sp.id sp.str q ∙ rw (added, string_bytes) refl

  abbrev ids_after : ℕ → Option (ℕ × List ℕ) → List ℕ
  ids_after fuel none = []
  ids_after fuel (some hit) = hit.0 ∷ encode_loop k T fuel false hit.1

  encode_loop-next :
      (fuel b : ℕ) (is_start : Bool) (text before : List ℕ) (hit : Option (ℕ × List ℕ))
      → next_special T.specials (b ∷ text) ≡ (before, hit)
      → encode_loop k T (suc fuel) is_start (b ∷ text)
        ≡ chunk_ids k T is_start before ++ ids_after fuel hit
  unfolding encode_loop
  encode_loop-next fuel b is_start text before none e = rw e refl
  encode_loop-next fuel b is_start text before (some (id, rest)) e = rw e refl

  text_of-round :
      (fuel : ℕ) (is_start : Bool) (text before : List ℕ) (hit : Option (ℕ × List ℕ))
      → All IsByte text
      → length text ≤ suc fuel
      → IsCut Names text (before, hit)
      → ((rest : List ℕ)
          → All IsByte rest
          → length rest ≤ fuel
          → text_of T (encode_loop k T fuel false rest) ≡ rest)
      → text_of T (chunk_ids k T is_start before ++ ids_after fuel hit) ≡ text
  unfolding text_of
  text_of-round fuel is_start text before none bytes le cut again =
      text_of-append T w (chunk_ids k T is_start before) []
      ∙ ap (λ s. s ++ []) (text_of-chunk_ids T w k is_start before (rw cut at bytes))
      ∙ append_nil before
      ∙ sym cut
  text_of-round fuel is_start text before (some (id, rest)) bytes le (tail, e, h) again =
      let (here, later) = All-split T w before tail (rw e at bytes) in
      let (str, behind) = All-split T w h.sp.str rest (rw h.whole at later) in
      let size = length-append before tail in
      let tail_size = length-append h.sp.str rest in
      text_of-append T w (chunk_ids k T is_start before) (ids_after fuel (some (id, rest)))
      ∙ ap (λ s. s ++ text_of T (ids_after fuel (some (id, rest))))
          (text_of-chunk_ids T w k is_start before here)
      ∙ ap (λ s. before ++ (s ++ text_of T (encode_loop k T fuel false rest)))
          (ap (token_bytes T) (sym h.named) ∙ token_bytes-Names h.sp h.found)
      ∙ ap (λ s. before ++ (h.sp.str ++ s))
          (again rest behind
            (omega (arith, size, tail_size, ap length e, ap length h.whole, h.some_bytes)))
      ∙ ap (λ s. before ++ s) (sym h.whole)
      ∙ sym e

  text_of-encode_loop :
      (fuel : ℕ) (is_start : Bool) (text : List ℕ)
      → All IsByte text
      → length text ≤ fuel
      → text_of T (encode_loop k T fuel is_start text) ≡ text
  unfolding encode_loop text_of
  text_of-encode_loop zero is_start [] bytes le = refl
  text_of-encode_loop zero is_start (b ∷ text) bytes le = absurd (omega arith)
  text_of-encode_loop (suc fuel) is_start [] bytes le = refl
  text_of-encode_loop (suc fuel) is_start (b ∷ text) bytes le =
      let (before, hit) = next_special T.specials (b ∷ text) in
      ap (text_of T) (encode_loop-next fuel b is_start text before hit refl)
      ∙ text_of-round fuel is_start (b ∷ text) before hit bytes le
          (next_special-IsCut Names T.specials (b ∷ text) w.specials)
          (text_of-encode_loop fuel false)

  -- For a byte-level tokenizer whose tables agree, and with room for the result, decoding what a
  -- text is encoded to gives the text back.
  pub tok_decode-tok_encode :
      (text : List ℕ) (max max' : ℕ)
      → All IsByte text
      → length (encoded k T text) ≤ max
      → length text ≤ max'
      → tok_decode T (tok_encode k T text max) max' ≡ text
  unfolding tok_encode tok_decode encoded
  tok_decode-tok_encode text max max' bytes le le' =
      ap (λ ids. take max' (text_of T ids)) (take_all max (encoded k T text) le)
      ∙ ap (take max') (text_of-encode_loop (length text) true text bytes (omega arith))
      ∙ take_all max' text le'
