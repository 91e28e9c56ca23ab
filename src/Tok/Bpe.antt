-- ===== src/Tok/Bpe.antt =====
-- `bpe_core`, `bpe_piece` and `sp_piece`: the ids of a piece of text. They are given in the order in
-- which they are written; each write is guarded by the room in the output.
use moty.Base.{
  ℕ, zero, suc, ◌-◌, ◌^◌, Bool, true, false, ◌&&◌, Option, none, some, List, [], ◌∷◌, ◌++◌, map,
  length, take, drop, ltb, ◌==◌, if◌then◌else◌,
}
use moty.Tok.Utf8.{u8_next}
use moty.Tok.ByteMap.{byte2str}
use moty.Tok.Table.{Tok}

-- The strings one after the other.
unfoldable pub concat : List (List ℕ) → List ℕ
concat [] = []
concat (s ∷ ss) = s ++ concat ss

-- A code point, and the bytes that it was read from.
pub record Glyph : Type 0 where
  pub cp : ℕ
  pub bytes : List ℕ

-- The loop over the code points of a text, with as many rounds as bytes.
unfoldable pub glyphs : ℕ → List ℕ → List Glyph
glyphs zero s = []
glyphs (suc fuel) [] = []
glyphs (suc fuel) (b ∷ s) =
    let (c, k) = u8_next (b ∷ s) in
    record { cp = c; bytes = take k (b ∷ s) } ∷ glyphs fuel (drop k (b ∷ s))

-- The symbols of `bpe_core` (`soff`, `slen`), each as its bytes.
unfoldable pub piece_symbols : List ℕ → List (List ℕ)
piece_symbols s = map (λ (g : Glyph). g.bytes) (glyphs (length s) s)

-- The loop over the pairs of neighbours: the first of the least rank, `bp`, below `best`.
unfoldable pub best_pair : (List ℕ → Option ℕ) → ℕ → ℕ → Option ℕ → List (List ℕ) → Option ℕ
best_pair merges i best bp [] = bp
best_pair merges i best bp (l ∷ []) = bp
best_pair merges i best bp (l ∷ r ∷ syms) = elim (merges (l ++ 0 ∷ r)) [
  | none ↦ best_pair merges (suc i) best bp (r ∷ syms)
  | some rk ↦
      let less = ltb rk best in
      best_pair merges (suc i) (if less then rk else best) (if less then some i else bp) (r ∷ syms)
]

-- The symbols with number `i` and the next made one.
unfoldable pub merge_at : ℕ → List (List ℕ) → List (List ℕ)
merge_at i [] = []
merge_at zero (l ∷ []) = l ∷ []
merge_at zero (l ∷ r ∷ syms) = (l ++ r) ∷ syms
merge_at (suc i) (l ∷ syms) = l ∷ merge_at i syms

abbrev pub int_max : ℕ
int_max = 2 ^ 31 - 1

-- The loop of the merges, with the rounds left; each takes a symbol away.
unfoldable pub merge_loop : (List ℕ → Option ℕ) → ℕ → List (List ℕ) → List (List ℕ)
merge_loop merges zero syms = syms
merge_loop merges (suc fuel) syms = elim (best_pair merges 0 int_max none syms) [
  | none ↦ syms
  | some i ↦ merge_loop merges fuel (merge_at i syms)
]

abbrev pub listed : Option ℕ → List ℕ
listed none = []
listed (some id) = id ∷ []

-- The fallback of a symbol that is not in the vocabulary: the tokens of its bytes.
unfoldable pub byte_ids : Tok → List ℕ → List ℕ
byte_ids T [] = []
byte_ids T (b ∷ s) = listed (T.byte_tok b) ++ byte_ids T s

abbrev pub symbol_id : Tok → Bool → List ℕ → Option ℕ → List ℕ
symbol_id T fallback s (some id) = id ∷ []
symbol_id T fallback s none = if fallback then byte_ids T s else []

-- The loop that emits the symbols.
unfoldable pub symbol_ids : Tok → Bool → List (List ℕ) → List ℕ
symbol_ids T fallback [] = []
symbol_ids T fallback (s ∷ syms) =
    (symbol_id T fallback s (T.vocab s)) ++ symbol_ids T fallback syms

-- `bpe_core`
unfoldable pub bpe_core : Tok → Bool → List ℕ → List ℕ
bpe_core T fallback s = elim (T.vocab s) [
  | some whole ↦ whole ∷ []
  | none ↦ symbol_ids T fallback (merge_loop T.merges (length (piece_symbols s)) (piece_symbols s))
]

-- `bpe_piece`
unfoldable pub bpe_piece : Tok → List ℕ → List ℕ
bpe_piece T piece = bpe_core T false (concat (map byte2str piece))

abbrev pub metaspace : List ℕ
metaspace = 0xE2 ∷ 0x96 ∷ 0x81 ∷ []

unfoldable pub spaces_marked : List ℕ → List ℕ
spaces_marked [] = []
spaces_marked (b ∷ s) = (if b == b' ' then metaspace else b ∷ []) ++ spaces_marked s

-- `sp_piece`
unfoldable pub sp_piece : Tok → Bool → List ℕ → List ℕ
sp_piece T is_start piece =
    bpe_core T true
      ((if is_start && T.add_dummy_prefix then metaspace else []) ++ spaces_marked piece)
