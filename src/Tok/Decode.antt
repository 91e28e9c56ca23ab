-- ===== src/Tok/Decode.antt =====
-- `tok_decode`: the text of token ids. Each write is guarded by the room in the output.
use moty.Base.{
  ℕ, zero, suc, ◌&&◌, none, some, List, [], ◌∷◌, ◌++◌, length, take, ltb, ◌==◌, if◌then◌else◌,
}
use moty.Tok.ByteMap.{cp2byte}
use moty.Tok.Table.{Tok}
use moty.Tok.Bpe.{Glyph, glyphs, listed}

unfoldable pub glyph_bytes : List Glyph → List ℕ
glyph_bytes [] = []
glyph_bytes (g ∷ gs) = listed (if ltb g.cp 1024 then cp2byte g.cp else none) ++ glyph_bytes gs

-- The bytes that a byte-level string stands for.
unfoldable pub decoded : List ℕ → List ℕ
decoded s = glyph_bytes (glyphs (length s) s)

-- A SentencePiece string, with U+2581 for a space.
unfoldable pub spaces_back : ℕ → List ℕ → List ℕ
spaces_back zero s = []
spaces_back (suc fuel) [] = []
spaces_back (suc fuel) (a ∷ []) = a ∷ []
spaces_back (suc fuel) (a ∷ b ∷ []) = a ∷ b ∷ []
spaces_back (suc fuel) (a ∷ b ∷ c ∷ s) =
    let mark = a == 0xE2 && b == 0x96 && c == 0x81 in
    (if mark then b' ' else a) ∷ spaces_back fuel (if mark then s else b ∷ c ∷ s)

module _ (T : Tok) where
  -- The bytes of a token that has a string.
  unfoldable pub string_bytes : ℕ → List ℕ → List ℕ
  string_bytes id s =
      if T.id_added id
      then s
      else if T.sentencepiece
      then elim (T.id2byte id) [ some b ↦ b ∷ [] | none ↦ spaces_back (length s) s ]
      else decoded s

  unfoldable pub token_bytes : ℕ → List ℕ
  token_bytes id = elim (T.id2str id) [ none ↦ [] | some s ↦ string_bytes id s ]

  unfoldable pub text_of : List ℕ → List ℕ
  text_of [] = []
  text_of (id ∷ ids) = token_bytes id ++ text_of ids

  -- `tok_decode`: the first `max` bytes.
  unfoldable pub tok_decode : List ℕ → ℕ → List ℕ
  tok_decode ids max = take max (text_of ids)
