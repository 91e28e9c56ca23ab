-- ===== src/Tok/Encode.antt =====
-- `tok_encode` and `tok_id_of`: added tokens are atomic, the text between them is cut into pieces.
use moty.Base.{
  ℕ, zero, suc, Bool, true, false, Option, none, some, List, [], ◌∷◌, ◌++◌, length, take, ltb, ◌==◌,
  if◌then◌else◌, bytes_equal,
}
use moty.Tok.Table.{Tok, Special}
use moty.Tok.Bpe.{bpe_piece, sp_piece}
use moty.Tok.Pretok.{Classes, pretok_chunk, pretok_digit_segments}

-- What is left of the text after the string, if it begins with it.
unfoldable pub strip : List ℕ → List ℕ → Option (List ℕ)
strip [] text = some text
strip (c ∷ str) [] = none
strip (c ∷ str) (b ∷ text) = let rest = strip str text in if c == b then rest else none

-- An added token where the text begins: the first of the list, which is ordered by length.
unfoldable pub special_at : List Special → List ℕ → Option (ℕ × List ℕ)
special_at [] text = none
special_at (sp ∷ sps) text = elim (if ltb 0 (length sp.str) then strip sp.str text else none) [
  | some rest ↦ some (sp.id, rest)
  | none ↦ special_at sps text
]

-- The text before the next added token, and that token with the text after it.
unfoldable pub next_special : List Special → List ℕ → List ℕ × Option (ℕ × List ℕ)
next_special sps [] = ([], none)
next_special sps (b ∷ text) = elim (special_at sps (b ∷ text)) [
  | some hit ↦ ([], some hit)
  | none ↦ let (before, hit) = next_special sps text in (b ∷ before, hit)
]

unfoldable pub pieces_ids : Tok → List (List ℕ) → List ℕ
pieces_ids T [] = []
pieces_ids T (p ∷ ps) = bpe_piece T p ++ pieces_ids T ps

module _ (k : Classes) (T : Tok) where
  -- The ids of a chunk between added tokens.
  unfoldable pub chunk_ids : Bool → List ℕ → List ℕ
  chunk_ids is_start [] = []
  chunk_ids is_start (b ∷ s) =
      if T.sentencepiece
      then sp_piece T is_start (b ∷ s)
      else if T.digit_presplit
      then pieces_ids T (pretok_digit_segments k (b ∷ s))
      else pieces_ids T (pretok_chunk k (b ∷ s))

  -- The loop of `tok_encode`, with the rounds left; each takes a byte at least.
  unfoldable pub encode_loop : ℕ → Bool → List ℕ → List ℕ
  encode_loop zero is_start text = []
  encode_loop (suc fuel) is_start [] = []
  encode_loop (suc fuel) is_start (b ∷ text) =
      let (before, hit) = next_special T.specials (b ∷ text) in
      chunk_ids is_start before
      ++ elim hit [ none ↦ [] | some (id, rest) ↦ id ∷ encode_loop fuel false rest ]

  -- `tok_encode`: the first `max` ids.
  unfoldable pub encoded : List ℕ → List ℕ
  encoded text = encode_loop (length text) true text

  unfoldable pub tok_encode : List ℕ → ℕ → List ℕ
  tok_encode text max = take max (encoded text)

-- `tok_id_of`: `none` for -1.
unfoldable pub tok_id_of : List Special → List ℕ → Option ℕ
tok_id_of [] content = none
tok_id_of (sp ∷ sps) content =
    let later = tok_id_of sps content in if bytes_equal sp.str content then some sp.id else later
