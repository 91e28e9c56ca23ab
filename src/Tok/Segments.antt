-- ===== src/Tok/Segments.antt =====
-- The segments that cut out groups of digits are the text, cut.
use moty.Base.{
  ℕ, suc, ◌≡◌, refl, sym, ap, ◌∙◌, List, [], ◌∷◌, ◌++◌, length, ltb, ◌==◌, arith, Bool-cases,
  append_nil, inl, inr,
}
use mathlib.Core.List.{append_assoc}
use moty.Tok.Bpe.{Glyph, glyphs, concat}
use moty.Tok.Pretok.{
  Classes, pretok_chunk, segment_step, segments, chunks_pieces, pretok_digit_segments,
  closed_segment,
}
use moty.Tok.Pieces.{spelt, concat-append, spelt-glyphs, concat-pretok_chunk}

concat-closed_segment : (s : List ℕ) → concat (closed_segment s) ≡ s
unfolding concat
concat-closed_segment [] = refl
concat-closed_segment (b ∷ s) = append_nil (b ∷ s)

module _ (k : Classes) where
  -- A segment begun holds no numbers at its end only if none are counted.
  concat-segment_step :
      (g : Glyph) (seg : List ℕ) (nd : ℕ)
      → concat (segment_step k g seg nd).0 ++ (segment_step k g seg nd).1 ≡ seg ++ g.bytes
  unfolding segment_step concat
  concat-segment_step g seg nd = elim (Bool-cases (k.is_number g.cp)) [
    | inl num ↦ elim (Bool-cases (nd == 0)) [
      | inl first ↦ elim (Bool-cases (suc nd == 3)) [
        | inl third ↦ absurd (ground arith)
        | inr third ↦ rw (num, first, third) (ap (λ t. t ++ g.bytes) (concat-closed_segment seg))
      ]
      | inr first ↦ elim (Bool-cases (suc nd == 3)) [
        | inl third ↦ rw (num, first, third) (append_nil _ ∙ append_nil _)
        | inr third ↦ rw (num, first, third) refl
      ]
    ]
    | inr num ↦ elim (Bool-cases (ltb 0 nd)) [
      | inl e ↦ rw (num, e) (ap (λ t. t ++ g.bytes) (append_nil seg))
      | inr e ↦ rw (num, e) refl
    ]
  ]

  concat-segments :
      (gs : List Glyph) (seg : List ℕ) (nd : ℕ) → concat (segments k gs seg nd) ≡ seg ++ spelt gs
  unfolding segments concat
  concat-segments [] seg nd = concat-closed_segment seg ∙ sym (append_nil seg)
  concat-segments (g ∷ gs) seg nd =
      let (cut, seg', nd') = segment_step k g seg nd in
      concat-append cut (segments k gs seg' nd')
      ∙ ap (λ t. concat cut ++ t) (concat-segments gs seg' nd')
      ∙ sym (append_assoc (concat cut) seg' (spelt gs))
      ∙ ap (λ t. t ++ spelt gs) (concat-segment_step g seg nd)
      ∙ append_assoc seg g.bytes (spelt gs)

  concat-chunks_pieces : (ss : List (List ℕ)) → concat (chunks_pieces k ss) ≡ concat ss
  unfolding chunks_pieces concat
  concat-chunks_pieces [] = refl
  concat-chunks_pieces (s ∷ ss) =
      concat-append (pretok_chunk k s) (chunks_pieces k ss)
      ∙ ap (λ t. t ++ concat (chunks_pieces k ss)) (concat-pretok_chunk k s)
      ∙ ap (λ t. s ++ t) (concat-chunks_pieces ss)

  -- The pieces with groups of digits cut out first, one after the other, are the chunk.
  pub concat-pretok_digit_segments : (s : List ℕ) → concat (pretok_digit_segments k s) ≡ s
  unfolding pretok_digit_segments
  concat-pretok_digit_segments s =
      concat-chunks_pieces (segments k (glyphs (length s) s) [] 0)
      ∙ concat-segments (glyphs (length s) s) [] 0
      ∙ spelt-glyphs (length s) s (omega arith)
