-- ===== src/Tok/RoundTrip.antt =====
-- `tok_decode` undoes `tok_encode`, for a byte-level tokenizer.
use moty.Base.{
  ℕ, zero, suc, ◌<◌, ◌≡◌, refl, sym, ap, ◌∙◌, ◌⊎◌, inl, inr, Bool, true, false, some, List, [], ◌∷◌,
  ◌++◌, map, length, All, if◌then◌else◌, arith, Bool-cases, Option-cases, if_cases, append_nil,
}
use mathlib.Core.List.{append_assoc}
use moty.Tok.Table.{Tok, Special}
use moty.Tok.ByteMap.{byte2str}
use moty.Tok.Bpe.{concat, piece_symbols, merge_at, symbol_id, symbol_ids, bpe_core, bpe_piece}
use moty.Tok.Pretok.{Classes}
use moty.Tok.Encode.{pieces_ids, chunk_ids}
use moty.Tok.Decode.{decoded, string_bytes, token_bytes, text_of}
use moty.Tok.Pieces.{concat-pretok_chunk}
use moty.Tok.Segments.{concat-pretok_digit_segments}
use moty.Tok.Merges.{Merges, merge_loop-keeps, concat-merge_at}
use moty.Tok.Spelling.{IsByte, spell, piece_symbols-spell, decoded-spell, merge_at-map}

-- A byte-level tokenizer whose tables agree: the string of an id is the one it was found by, and if
-- it is an added token it stands for itself; each byte has a token, and so has what a merge makes; an
-- added token is decoded to its string.
pub record IsByteLevel (T : Tok) : Type 0 where
  pub byte_level : T.sentencepiece ≡ false
  pub inverse :
      (s : List ℕ) (id : ℕ)
      → T.vocab s ≡ some id
      → (T.id2str id ≡ some s) × ((T.id_added id ≡ false) ⊎ (decoded s ≡ s))
  pub bytes : (b : ℕ) → b < 256 → (id : ℕ) × (T.vocab (byte2str b) ≡ some id)
  pub fused :
      (l r : List ℕ) (rk : ℕ)
      → T.merges (l ++ 0 ∷ r) ≡ some rk
      → (id : ℕ) × (T.vocab (l ++ r) ≡ some id)
  pub specials :
      All (λ (sp : Special). (T.id2str sp.id ≡ some sp.str) × (T.id_added sp.id ≡ true)) T.specials

module _ (T : Tok) (w : IsByteLevel T) where
  pub text_of-append : (a b : List ℕ) → text_of T (a ++ b) ≡ text_of T a ++ text_of T b
  unfolding text_of
  text_of-append [] b = refl
  text_of-append (id ∷ a) b =
      ap (λ s. token_bytes T id ++ s) (text_of-append a b)
      ∙ sym (append_assoc (token_bytes T id) (text_of T a) (text_of T b))

  pub token_bytes-some :
      (id : ℕ) (s : List ℕ) → T.id2str id ≡ some s → token_bytes T id ≡ string_bytes T id s
  unfolding token_bytes
  token_bytes-some id s q = rw (q, token_bytes) refl

  string_bytes_known :
      (id : ℕ) (s : List ℕ)
      → (T.id_added id ≡ false) ⊎ (decoded s ≡ s)
      → string_bytes T id s ≡ decoded s
  unfolding string_bytes
  string_bytes_known id s (inl a) = rw (a, w.byte_level) refl
  string_bytes_known id s (inr same) = elim (Bool-cases (T.id_added id)) [
    | inl added ↦ simp (added, if◌then◌else◌) (sym same)
    | inr added ↦ simp (added, w.byte_level, if◌then◌else◌)
  ]

  token_bytes_known : (s : List ℕ) (id : ℕ) → T.vocab s ≡ some id → token_bytes T id ≡ decoded s
  token_bytes_known s id e =
      let (q, plain) = w.inverse s id e in token_bytes-some id s q ∙ string_bytes_known id s plain

  text_of_known :
      (p : List ℕ) (id : ℕ) → All IsByte p → T.vocab (spell p) ≡ some id → text_of T (id ∷ []) ≡ p
  unfolding text_of
  text_of_known p id bytes e =
      append_nil _ ∙ token_bytes_known (spell p) id e ∙ decoded-spell p bytes

  -- Symbols that are in the vocabulary and spell groups of the bytes of a piece.
  record IsGrouped (p : List ℕ) (syms : List (List ℕ)) : Type 0 where
    pub groups : List (List ℕ)
    pub spelt : syms ≡ map spell groups
    pub whole : concat groups ≡ p
    pub known : All (λ s. (id : ℕ) × (T.vocab s ≡ some id)) syms

  known-merge_at :
      (i : ℕ) (syms : List (List ℕ))
      → Merges T.merges i syms
      → All (λ s. (id : ℕ) × (T.vocab s ≡ some id)) syms
      → All (λ s. (id : ℕ) × (T.vocab s ≡ some id)) (merge_at i syms)
  unfolding merge_at
  known-merge_at i [] j h = absurd j
  known-merge_at i (l ∷ []) j h = absurd j
  known-merge_at zero (l ∷ r ∷ syms) (rk, e) h = (w.fused l r rk e, h.1.1)
  known-merge_at (suc i) (l ∷ r ∷ syms) j h = (h.0, known-merge_at i (r ∷ syms) j h.1)

  IsGrouped-merge_at :
      (p : List ℕ) (i : ℕ) (syms : List (List ℕ))
      → Merges T.merges i syms
      → IsGrouped p syms
      → IsGrouped p (merge_at i syms)
  IsGrouped-merge_at p i syms j h = record {
    groups = merge_at i h.groups;
    spelt = ap (merge_at i) h.spelt ∙ merge_at-map i h.groups;
    whole = concat-merge_at i h.groups ∙ h.whole;
    known = known-merge_at i syms j h.known;
  }

  singles : List ℕ → List (List ℕ)
  singles [] = []
  singles (b ∷ p) = (b ∷ []) ∷ singles p

  IsGrouped-bytes : (p : List ℕ) → All IsByte p → IsGrouped p (map byte2str p)
  unfolding singles concat
  IsGrouped-bytes [] bytes = record { groups = []; spelt = refl; whole = refl; known = tt }
  IsGrouped-bytes (b ∷ p) bytes =
      let h = IsGrouped-bytes p bytes.1 in
      record {
        groups = (b ∷ []) ∷ h.groups;
        spelt =
            ap (λ s. s ∷ map byte2str p) (sym (append_nil (byte2str b)))
            ∙ ap (λ ss. (byte2str b ++ []) ∷ ss) h.spelt;
        whole = ap (λ s. b ∷ s) h.whole;
        known = (w.bytes b bytes.0, h.known);
      }

  pub All-split : (a b : List ℕ) → All IsByte (a ++ b) → All IsByte a × All IsByte b
  All-split [] b h = (tt, h)
  All-split (x ∷ a) b h = let (ha, hb) = All-split a b h.1 in ((h.0, ha), hb)

  text_of-symbol_ids :
      (gs : List (List ℕ))
      → All IsByte (concat gs)
      → All (λ s. (id : ℕ) × (T.vocab s ≡ some id)) (map spell gs)
      → text_of T (symbol_ids T false (map spell gs)) ≡ concat gs
  unfolding symbol_ids concat text_of
  text_of-symbol_ids [] bytes known = refl
  text_of-symbol_ids (g ∷ gs) bytes ((id, e), known) =
      let (here, later) = All-split g (concat gs) bytes in
      rw (e, symbol_id)
        (ap (λ s. s ++ text_of T (symbol_ids T false (map spell gs)))
            (sym (append_nil _) ∙ text_of_known g id here e)
          ∙ ap (λ s. g ++ s) (text_of-symbol_ids gs later known))

  text_of-merged :
      (p : List ℕ) (syms : List (List ℕ))
      → All IsByte p
      → IsGrouped p syms
      → text_of T (symbol_ids T false syms) ≡ p
  text_of-merged p syms bytes h =
      ap (λ ss. text_of T (symbol_ids T false ss)) h.spelt
      ∙ text_of-symbol_ids h.groups (rw (← h.whole) at bytes) (rw h.spelt at h.known)
      ∙ h.whole

  -- The ids of a piece are decoded to the piece.
  text_of-bpe_piece : (p : List ℕ) → All IsByte p → text_of T (bpe_piece T p) ≡ p
  unfolding bpe_piece bpe_core
  text_of-bpe_piece p bytes = elim (Option-cases (T.vocab (spell p))) [
    | inr (id, e) ↦ rw (e, bpe_piece, bpe_core) (text_of_known p id bytes e)
    | inl e ↦
        let start : IsGrouped p (piece_symbols (spell p)) =
          rw (← piece_symbols-spell p bytes) at (IsGrouped-bytes p bytes) in
        rw (e, bpe_piece, bpe_core)
          (text_of-merged p _ bytes (
            merge_loop-keeps T.merges (IsGrouped p) (IsGrouped-merge_at p)
              (length (piece_symbols (spell p))) (piece_symbols (spell p)) start))
  ]

  text_of-pieces_ids :
      (ps : List (List ℕ)) → All IsByte (concat ps) → text_of T (pieces_ids T ps) ≡ concat ps
  unfolding pieces_ids concat text_of
  text_of-pieces_ids [] bytes = refl
  text_of-pieces_ids (p ∷ ps) bytes =
      let (here, later) = All-split p (concat ps) bytes in
      text_of-append (bpe_piece T p) (pieces_ids T ps)
      ∙ ap (λ s. s ++ text_of T (pieces_ids T ps)) (text_of-bpe_piece p here)
      ∙ ap (λ s. p ++ s) (text_of-pieces_ids ps later)

  module _ (k : Classes) where
    text_of-cut :
        (ps : List (List ℕ)) (s : List ℕ)
        → concat ps ≡ s
        → All IsByte s
        → text_of T (pieces_ids T ps) ≡ s
    text_of-cut ps s e bytes = text_of-pieces_ids ps (rw (← e) at bytes) ∙ e

    pub text_of-chunk_ids :
        (is_start : Bool) (s : List ℕ) → All IsByte s → text_of T (chunk_ids k T is_start s) ≡ s
    unfolding chunk_ids text_of
    text_of-chunk_ids is_start [] bytes = refl
    text_of-chunk_ids is_start (b ∷ s) bytes =
        let good : List ℕ → Type 0 = λ ids. text_of T ids ≡ b ∷ s in
        if_cases good T.sentencepiece _ _
          (λ e. absurd (let x = sym w.byte_level ∙ e in ground arith))
          (λ _.
            if_cases good T.digit_presplit _ _
              (λ _. text_of-cut _ (b ∷ s) (concat-pretok_digit_segments k (b ∷ s)) bytes)
              (λ _. text_of-cut _ (b ∷ s) (concat-pretok_chunk k (b ∷ s)) bytes))
