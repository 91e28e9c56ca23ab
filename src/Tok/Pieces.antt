-- ===== src/Tok/Pieces.antt =====
-- The pieces of the pre-tokenizer are the text, cut: nothing is lost, added or moved.
use moty.Base.{
  ℕ, zero, suc, ◌≤◌, ◌<◌, ◌≡◌, refl, sym, ap, ◌∙◌, Bool, true, false, not, ◌&&◌, Option, none, some,
  List, [], ◌∷◌, ◌++◌, map, length, take, drop, ltb, ◌==◌, arith, Bool-cases, inl, inr,
  take-append-drop, length-drop,
}
use mathlib.Core.List.{append_assoc}
use moty.Tok.Utf8.{u8_next, u8_next_bounds}
use moty.Tok.Bpe.{Glyph, glyphs, concat}
use moty.Tok.Pretok.{
  Classes, run, contraction, short, one_letter, two_letters, low, letters, number_run, other_run,
  others_run, is_other_cp, white, piece_length, pieces_loop, pretok_chunk, some_if, at_head,
  is_newline, ◌orelse◌,
}

-- The bytes of code points.
abbrev pub spelt : List Glyph → List ℕ
spelt gs = concat (map (λ (g : Glyph). g.bytes) gs)

pub concat-append : (xs ys : List (List ℕ)) → concat (xs ++ ys) ≡ concat xs ++ concat ys
unfolding concat
concat-append [] ys = refl
concat-append (x ∷ xs) ys =
    ap (λ s. x ++ s) (concat-append xs ys) ∙ sym (append_assoc x (concat xs) (concat ys))

-- Reading the code points of a text loses no byte.
pub spelt-glyphs : (fuel : ℕ) (s : List ℕ) → length s ≤ fuel → spelt (glyphs fuel s) ≡ s
unfolding concat glyphs
spelt-glyphs zero [] le = refl
spelt-glyphs zero (b ∷ s) le = absurd (omega arith)
spelt-glyphs (suc fuel) [] le = refl
spelt-glyphs (suc fuel) (b ∷ s) le =
    let k = (u8_next (b ∷ s)).1 in
    let (pos, _) = u8_next_bounds b s in
    ap (λ t. take k (b ∷ s) ++ t)
      (spelt-glyphs fuel (drop k (b ∷ s)) (omega (arith, length-drop k (b ∷ s), pos)))
    ∙ take-append-drop k (b ∷ s)

spelt-take : (n : ℕ) (gs : List Glyph) → spelt (take n gs) ++ spelt (drop n gs) ≡ spelt gs
unfolding concat
spelt-take zero gs = refl
spelt-take (suc n) [] = refl
spelt-take (suc n) (g ∷ gs) =
    append_assoc g.bytes (spelt (take n gs)) (spelt (drop n gs))
    ∙ ap (λ t. g.bytes ++ t) (spelt-take n gs)

-- A number of code points, if any, is positive.
abbrev IsPositive : Option ℕ → Type 0
IsPositive none = Unit
IsPositive (some n) = 0 < n

IsPositive-orelse : (o o' : Option ℕ) → IsPositive o → IsPositive o' → IsPositive (o orelse o')
IsPositive-orelse none o' h h' = h'
IsPositive-orelse (some n) o' h h' = h

IsPositive-some_if : (b : Bool) (n : ℕ) → (b ≡ true → 0 < n) → IsPositive (some_if b n)
IsPositive-some_if true n h = h refl
IsPositive-some_if false n h = tt

short_moves : (d : ℕ) → IsPositive (short d)
short_moves d = IsPositive-some_if (one_letter (low d)) 2 (λ _. omega arith)

contraction_moves : (cs : List ℕ) → IsPositive (contraction cs)
unfolding contraction
contraction_moves [] = tt
contraction_moves (c ∷ []) = tt
contraction_moves (c ∷ d ∷ []) = elim (Bool-cases (c == b'\'')) [
  | inl e ↦ rw e (short_moves d)
  | inr e ↦ rw e tt
]
contraction_moves (c ∷ d ∷ f ∷ cs) = elim (Bool-cases (c == b'\'')) [
  | inr e ↦ rw e tt
  | inl e ↦ elim (Bool-cases (two_letters (low d) (low f))) [
    | inl e' ↦ rw (e, e') (omega arith)
    | inr e' ↦ rw (e, e') (short_moves d)
  ]
]

run_positive : (p : ℕ → Bool) (c : ℕ) (cs : List ℕ) → p c ≡ true → 0 < run p (c ∷ cs)
unfolding run
run_positive p c cs e = rw e (omega arith)

module _ (k : Classes) where
  letters_moves : (cs : List ℕ) → IsPositive (letters k cs)
  unfolding letters
  letters_moves [] = tt
  letters_moves (c ∷ cs) =
      elim (Bool-cases (not (k.is_letter c) && not (is_newline c) && not (k.is_number c))) [
        | inl e ↦ rw e (
            IsPositive-some_if (at_head k.is_letter cs) (suc (run k.is_letter cs))
              (λ _. omega arith))
        | inr e ↦ rw e (
            IsPositive-some_if (k.is_letter c) (run k.is_letter (c ∷ cs))
              (run_positive k.is_letter c cs))
      ]

  numbers_moves : (cs : List ℕ) → IsPositive (number_run k cs)
  unfolding number_run
  numbers_moves [] = tt
  numbers_moves (c ∷ cs) =
      IsPositive-some_if (k.is_number c) _
        (λ e. let pos = run_positive k.is_number c cs e in ground arith)

  others_moves : (cs : List ℕ) → IsPositive (other_run k cs)
  unfolding other_run
  others_moves [] = tt
  others_moves (c ∷ cs) = elim (Bool-cases (c == b' ' && at_head (is_other_cp k) cs)) [
    | inl e ↦ rw e (omega arith)
    | inr e ↦ rw e (
        IsPositive-some_if (is_other_cp k c) (others_run k (c ∷ cs))
          (λ q. omega (arith, run_positive (is_other_cp k) c cs q)))
  ]

  white_moves : (cs : List ℕ) → IsPositive (white k cs)
  unfolding white
  white_moves cs = IsPositive-some_if (ltb 0 (run k.is_space cs)) _ (λ e. ground arith)

  pub piece_length_positive : (cs : List ℕ) → 0 < piece_length k cs
  unfolding piece_length
  piece_length_positive cs =
      positive
        (contraction cs
          orelse letters k cs
          orelse number_run k cs
          orelse other_run k cs
          orelse white k cs)
        (IsPositive-orelse _ _ (contraction_moves cs) (
          IsPositive-orelse _ _ (letters_moves cs) (
            IsPositive-orelse _ _ (numbers_moves cs)
              (IsPositive-orelse _ _ (others_moves cs) (white_moves cs)))))
    where
      positive : (o : Option ℕ) → IsPositive o → 0 < elim o [ some n ↦ n | none ↦ 1 ]
      positive none h = omega arith
      positive (some n) h = h

  concat-pieces_loop :
      (fuel : ℕ) (gs : List Glyph) → length gs ≤ fuel → concat (pieces_loop k fuel gs) ≡ spelt gs
  unfolding pieces_loop concat
  concat-pieces_loop zero [] le = refl
  concat-pieces_loop zero (g ∷ gs) le = absurd (omega arith)
  concat-pieces_loop (suc fuel) [] le = refl
  concat-pieces_loop (suc fuel) (g ∷ gs) le =
      let n = piece_length k (map (λ (h : Glyph). h.cp) (g ∷ gs)) in
      let pos = piece_length_positive (map (λ (h : Glyph). h.cp) (g ∷ gs)) in
      ap (λ t. spelt (take n (g ∷ gs)) ++ t)
        (concat-pieces_loop fuel (drop n (g ∷ gs)) (omega (arith, length-drop n (g ∷ gs), pos)))
      ∙ spelt-take n (g ∷ gs)

  -- The pieces of a chunk, one after the other, are the chunk.
  pub concat-pretok_chunk : (s : List ℕ) → concat (pretok_chunk k s) ≡ s
  unfolding pretok_chunk
  concat-pretok_chunk s =
      concat-pieces_loop _ (glyphs (length s) s) (omega arith)
      ∙ spelt-glyphs (length s) s (omega arith)
