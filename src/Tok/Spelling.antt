-- ===== src/Tok/Spelling.antt =====
-- A piece of bytes, spelt in the byte-level alphabet: its symbols, and its way back.
use moty.Base.{
  ℕ, zero, suc, ◌≤◌, ◌<◌, ◌≡◌, refl, sym, ap, ◌∙◌, true, List, [], ◌∷◌, ◌++◌, map, length, take,
  drop, All, ltb, arith, length-append, take_whole, drop_whole,
}
use moty.Tok.Utf8.{u8_next, u8_put}
use moty.Tok.ByteMap.{byte2str, byte2cp, byte2cp-lt, cp2byte-byte2cp, u8_next-byte2str}
use moty.Tok.Bpe.{Glyph, glyphs, concat, piece_symbols, merge_at}
use moty.Tok.Decode.{decoded, glyph_bytes}
use moty.Tok.Pieces.{concat-append}

abbrev pub IsByte : ℕ → Type 0
IsByte b = b < 256

abbrev pub spell : List ℕ → List ℕ
spell p = concat (map byte2str p)

abbrev glyph_of : ℕ → Glyph
glyph_of b = record { cp = byte2cp b; bytes = byte2str b }

map-append : (p q : List ℕ) → map byte2str (p ++ q) ≡ map byte2str p ++ map byte2str q
map-append [] q = refl
map-append (b ∷ p) q = ap (λ s. byte2str b ∷ s) (map-append p q)

pub spell-append : (p q : List ℕ) → spell (p ++ q) ≡ spell p ++ spell q
spell-append p q = ap concat (map-append p q) ∙ concat-append (map byte2str p) (map byte2str q)

byte2str_some : (b : ℕ) → 0 < length (byte2str b)
unfolding byte2str u8_put
byte2str_some b = ground arith

glyphs_next :
    (fuel : ℕ) (s : List ℕ)
    → 0 < length s
    → glyphs (suc fuel) s
      ≡ record { cp = (u8_next s).0; bytes = take (u8_next s).1 s }
        ∷ glyphs fuel (drop (u8_next s).1 s)
unfolding glyphs
glyphs_next fuel [] h = absurd (omega arith)
glyphs_next fuel (b ∷ s) h = refl

-- The code points of a spelling are those of its bytes.
glyphs-spell :
    (fuel : ℕ) (p : List ℕ)
    → All IsByte p
    → length (spell p) ≤ fuel
    → glyphs fuel (spell p) ≡ map glyph_of p
unfolding concat glyphs
glyphs-spell zero [] bytes le = refl
glyphs-spell (suc fuel) [] bytes le = refl
glyphs-spell zero (b ∷ p) bytes le =
    absurd (omega (arith, length-append (byte2str b) (spell p), byte2str_some b))
glyphs-spell (suc fuel) (b ∷ p) bytes le =
    let size = length-append (byte2str b) (spell p) in
    let next = u8_next-byte2str b (spell p) bytes.0 in
    glyphs_next fuel (byte2str b ++ spell p) (omega (arith, size, byte2str_some b))
    ∙ rw (next, take_whole (byte2str b) (spell p), drop_whole (byte2str b) (spell p))
        (ap (λ gs. glyph_of b ∷ gs)
          (glyphs-spell fuel p bytes.1 (omega (arith, size, byte2str_some b))))

map-map-glyph_of : (p : List ℕ) → map (λ (g : Glyph). g.bytes) (map glyph_of p) ≡ map byte2str p
map-map-glyph_of [] = refl
map-map-glyph_of (b ∷ p) = ap (λ s. byte2str b ∷ s) (map-map-glyph_of p)

-- The symbols of a spelling are the strings of its bytes.
pub piece_symbols-spell : (p : List ℕ) → All IsByte p → piece_symbols (spell p) ≡ map byte2str p
unfolding piece_symbols
piece_symbols-spell p bytes =
    ap (map (λ (g : Glyph). g.bytes)) (glyphs-spell _ p bytes (omega arith)) ∙ map-map-glyph_of p

glyph_bytes-map : (p : List ℕ) → All IsByte p → glyph_bytes (map glyph_of p) ≡ p
unfolding glyph_bytes
glyph_bytes-map [] bytes = refl
glyph_bytes-map (b ∷ p) bytes =
    let small : ltb (byte2cp b) 1024 ≡ true = let lt = byte2cp-lt b bytes.0 in ground arith in
    rw (small, cp2byte-byte2cp b bytes.0) (ap (λ s. b ∷ s) (glyph_bytes-map p bytes.1))

-- A spelling is decoded to its bytes.
pub decoded-spell : (p : List ℕ) → All IsByte p → decoded (spell p) ≡ p
unfolding decoded
decoded-spell p bytes =
    ap glyph_bytes (glyphs-spell _ p bytes (omega arith)) ∙ glyph_bytes-map p bytes

-- Merging the groups of bytes is merging their spellings.
pub merge_at-map :
    (i : ℕ) (gs : List (List ℕ)) → merge_at i (map spell gs) ≡ map spell (merge_at i gs)
unfolding merge_at
merge_at-map i [] = refl
merge_at-map zero (g ∷ []) = refl
merge_at-map zero (g ∷ h ∷ gs) = ap (λ s. s ∷ map spell gs) (sym (spell-append g h))
merge_at-map (suc i) (g ∷ gs) = ap (λ s. spell g ∷ s) (merge_at-map i gs)
