-- ===== src/Tok/Pretok.antt =====
-- The pre-tokenizer: the pattern of cl100k by hand, on the code points of a chunk of text.
use moty.Base.{
  ℕ, zero, suc, ◌+◌, ◌-◌, Bool, false, not, ◌&&◌, ◌||◌, Option, none, some, List, [], ◌∷◌, ◌++◌,
  map, length, take, drop, ltb, leb, ◌==◌, if◌then◌else◌,
}
use moty.Tok.Bpe.{Glyph, glyphs, concat}

-- `is_L`, `is_N` and `is_S`.
pub record Classes : Type 0 where
  pub is_letter : ℕ → Bool
  pub is_number : ℕ → Bool
  pub is_space : ℕ → Bool

-- How many code points at the start satisfy the test.
unfoldable pub run : (ℕ → Bool) → List ℕ → ℕ
run p [] = 0
run p (c ∷ cs) = let more = run p cs in if p c then suc more else 0

-- `ISNL` and `LOW`.
abbrev pub is_newline : ℕ → Bool
is_newline c = c == b'\r' || c == b'\n'

abbrev pub low : ℕ → ℕ
low c = if leb b'A' c && leb c b'Z' then c + 32 else c

abbrev pub two_letters : ℕ → ℕ → Bool
two_letters d e = (d == b'r' && e == b'e') || (d == b'v' && e == b'e') || (d == b'l' && e == b'l')

abbrev pub one_letter : ℕ → Bool
one_letter d = d == b's' || d == b't' || d == b'm' || d == b'd'

abbrev pub short : ℕ → Option ℕ
short d = if one_letter (low d) then some 2 else none

-- 1) `'s`, `'t`, `'re`, `'ve`, `'m`, `'ll`, `'d`
unfoldable pub contraction : List ℕ → Option ℕ
contraction [] = none
contraction (c ∷ []) = none
contraction (c ∷ d ∷ []) = if c == b'\'' then short d else none
contraction (c ∷ d ∷ e ∷ cs) =
    if c == b'\'' then (if two_letters (low d) (low e) then some 3 else short d) else none

abbrev pub at_head : (ℕ → Bool) → List ℕ → Bool
at_head p [] = false
at_head p (c ∷ cs) = p c

abbrev pub some_if : Bool → ℕ → Option ℕ
some_if b n = if b then some n else none

-- The first result that there is.
infixr 4 ◌orelse◌
abbrev pub ◌orelse◌ : Option ℕ → Option ℕ → Option ℕ
none orelse o = o
some n orelse o = some n

-- A segment, unless it is empty.
abbrev pub closed_segment : List ℕ → List (List ℕ)
closed_segment [] = []
closed_segment (b ∷ s) = (b ∷ s) ∷ []

module _ (k : Classes) where
  -- 2) A letter run, after one code point at most that is no newline, letter or number.
  unfoldable pub letters : List ℕ → Option ℕ
  letters [] = none
  letters (c ∷ cs) =
      if not (k.is_letter c) && not (is_newline c) && not (k.is_number c)
      then some_if (at_head k.is_letter cs) (suc (run k.is_letter cs))
      else some_if (k.is_letter c) (run k.is_letter (c ∷ cs))

  -- 3) One to three numbers.
  unfoldable pub number_run : List ℕ → Option ℕ
  number_run [] = none
  number_run (c ∷ cs) =
      let n = run k.is_number (c ∷ cs) in some_if (k.is_number c) (if ltb n 3 then n else 3)

  abbrev pub is_other_cp : ℕ → Bool
  is_other_cp c = not (k.is_space c) && not (k.is_letter c) && not (k.is_number c)

  abbrev pub others_run : List ℕ → ℕ
  others_run cs = run is_other_cp cs + run is_newline (drop (run is_other_cp cs) cs)

  -- 4) A run of other code points, after a space at most, with the newlines that follow.
  unfoldable pub other_run : List ℕ → Option ℕ
  other_run [] = none
  other_run (c ∷ cs) =
      if c == b' ' && at_head is_other_cp cs
      then some (suc (others_run cs))
      else some_if (is_other_cp c) (others_run (c ∷ cs))

  -- The number of code points up to the last newline among the first `r`.
  unfoldable pub to_newline : ℕ → List ℕ → ℕ
  to_newline zero cs = 0
  to_newline (suc r) [] = 0
  to_newline (suc r) (c ∷ cs) =
      let later = to_newline r cs in
      if ltb 0 later then suc later else (if is_newline c then 1 else 0)

  -- 5) and 6) White space up to its last newline; with none, all of it, but for the last code point
  -- if more text follows.
  unfoldable pub white : List ℕ → Option ℕ
  white cs =
      let r = run k.is_space cs in
      let last = to_newline r cs in
      let end = if ltb r (length cs) then r - 1 else r in
      some_if (ltb 0 r) (if ltb 0 last then last else (if ltb 0 end then end else 1))

  -- How many code points the next piece of `pretok_chunk` takes.
  unfoldable pub piece_length : List ℕ → ℕ
  piece_length cs =
      elim (contraction cs
        orelse letters cs
        orelse number_run cs
        orelse other_run cs
        orelse white cs) [ some n ↦ n | none ↦ 1 ]

  -- The loop of `pretok_chunk` over the code points, with the rounds left: the pieces' bytes.
  unfoldable pub pieces_loop : ℕ → List Glyph → List (List ℕ)
  pieces_loop zero gs = []
  pieces_loop (suc fuel) [] = []
  pieces_loop (suc fuel) (g ∷ gs) =
      let n = piece_length (map (λ (h : Glyph). h.cp) (g ∷ gs)) in
      concat (map (λ (h : Glyph). h.bytes) (take n (g ∷ gs))) ∷ pieces_loop fuel (drop n (g ∷ gs))

  -- `pretok_chunk`: the pieces of a chunk, in order.
  unfoldable pub pretok_chunk : List ℕ → List (List ℕ)
  pretok_chunk s = let gs = glyphs (length s) s in pieces_loop (length gs) gs

  -- A round of `pretok_digit_segments`: what is cut off, the segment begun and the numbers at its
  -- end.
  unfoldable pub segment_step : Glyph → List ℕ → ℕ → List (List ℕ) × List ℕ × ℕ
  segment_step g seg nd =
      if k.is_number g.cp
      then (let cut = if nd == 0 then closed_segment seg else [] in
          let now = if nd == 0 then g.bytes else seg ++ g.bytes in
          if suc nd == 3 then (cut ++ now ∷ [], [], 0) else (cut, now, suc nd))
      else (if ltb 0 nd then (seg ∷ [], g.bytes, 0) else ([], seg ++ g.bytes, 0))

  unfoldable pub segments : List Glyph → List ℕ → ℕ → List (List ℕ)
  segments [] seg nd = closed_segment seg
  segments (g ∷ gs) seg nd =
      let (cut, seg', nd') = segment_step g seg nd in cut ++ segments gs seg' nd'

  -- `pretok_digit_segments`: the pieces of each segment.
  unfoldable pub chunks_pieces : List (List ℕ) → List (List ℕ)
  chunks_pieces [] = []
  chunks_pieces (s ∷ ss) = pretok_chunk s ++ chunks_pieces ss

  unfoldable pub pretok_digit_segments : List ℕ → List (List ℕ)
  pretok_digit_segments s = chunks_pieces (segments (glyphs (length s) s) [] 0)
