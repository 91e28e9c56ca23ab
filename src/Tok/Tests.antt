-- ===== src/Tok/Tests.antt =====
-- A small byte-level tokenizer: a token for each byte, one for `ab`, and the added token `<s>`.
use moty.Base.{
  ℕ, ◌<◌, ◌≡◌, refl, sym, ap, ◌∙◌, inl, inr, false, ◌&&◌, Option, none, some, List, [], ◌∷◌, ◌++◌,
  All, length, ltb, leb, ◌==◌, if◌then◌else◌, arith, Bool-cases, bytes_equal, bytes_equal→≡,
  bytes_equal_refl, lt→ltb, append_nil,
}
use mathlib.Core.Path.{subst}
use moty.Tok.Table.{Tok, Special}
use moty.Tok.ByteMap.{is_direct, indirect_below, cp2byte_below, byte2str, byte2cp, cp2byte}
use moty.Tok.Bpe.{
  glyphs, best_pair, merge_at, symbol_ids, bpe_core, bpe_piece, concat, merge_loop, piece_symbols,
  int_max,
}
use moty.Tok.Pretok.{
  Classes, run, contraction, letters, number_run, other_run, to_newline, white, piece_length,
  pieces_loop, pretok_chunk,
}
use moty.Tok.Encode.{
  strip, special_at, next_special, pieces_ids, chunk_ids, encode_loop, encoded, tok_encode,
}
use moty.Tok.Decode.{glyph_bytes, decoded, tok_decode}
use moty.Tok.Utf8.{u8_next, u8_put, u8_next-u8_put}
use moty.Tok.Merges.{IsMerged, merge_loop-IsMerged}
use moty.Tok.Spelling.{IsByte, decoded-spell}
use moty.Tok.RoundTrip.{IsByteLevel}
use moty.Tok.Inverse.{tok_decode-tok_encode}

abbrev ab : List ℕ
ab = 97 ∷ 98 ∷ []

abbrev start_tag : Special
start_tag = record { str = 60 ∷ 115 ∷ 62 ∷ []; id = 300 }

abbrev byte_id : List ℕ → List ℕ → Option ℕ
byte_id s [] = none
byte_id s (b ∷ []) = if ltb b 256 && bytes_equal s (byte2str b) then some b else none
byte_id s (b ∷ c ∷ t) = none

abbrev small_vocab : List ℕ → Option ℕ
small_vocab s = if bytes_equal s ab then some 256 else byte_id s (decoded s)

abbrev small_string : ℕ → Option (List ℕ)
small_string id =
    if ltb id 256
    then some (byte2str id)
    else (if id == 256 then some ab else (if id == 300 then some start_tag.str else none))

abbrev small : Tok
small = record {
  vocab = small_vocab;
  merges = λ key. if bytes_equal key (97 ∷ 0 ∷ 98 ∷ []) then some 0 else none;
  id2str = small_string;
  id_added = λ id. id == 300;
  specials = start_tag ∷ [];
  sentencepiece = false;
  add_dummy_prefix = false;
  digit_presplit = false;
  byte_tok = λ b. none;
  id2byte = λ id. none;
}

abbrev ascii : Classes
ascii = record {
  is_letter = λ c. leb 97 c && leb c 122;
  is_number = λ c. leb 48 c && leb c 57;
  is_space = λ c. c == 32;
}

small-bytes : (b : ℕ) → b < 256 → (id : ℕ) × (small_vocab (byte2str b) ≡ some id)
unfolding concat
small-bytes b lt = elim (Bool-cases (bytes_equal (byte2str b) ab)) [
  | inl e ↦ (256, rw e refl)
  | inr e ↦ (b, rw (e, single_byte, bytes_equal_refl (byte2str b), lt→ltb b 256 lt) refl)
]
  where
    single_byte : decoded (byte2str b) ≡ b ∷ []
    single_byte = ap decoded (sym (append_nil (byte2str b))) ∙ decoded-spell (b ∷ []) (lt, tt)

byte_id-inverse :
    (s t : List ℕ) (id : ℕ)
    → byte_id s t ≡ some id
    → (small_string id ≡ some s) × ((id == 300) ≡ false)
byte_id-inverse s [] id e = absurd (ground arith)
byte_id-inverse s (b ∷ c ∷ t) id e = absurd (ground arith)
byte_id-inverse s (b ∷ []) id e = elim (Bool-cases (ltb b 256)) [
  | inr big ↦ absurd (let f = rw big at e in ground arith)
  | inl low ↦ elim (Bool-cases (bytes_equal s (byte2str b))) [
    | inr other ↦ absurd (let f = rw (low, other) at e in ground arith)
    | inl same ↦
        let named : some b ≡ some id = rw (low, same) at e in
        let id_is : b ≡ id = cc in
        subst (λ n. (small_string n ≡ some s) × ((n == 300) ≡ false)) id_is
          (rw low (ap (λ t. some t) (sym (bytes_equal→≡ s (byte2str b) same))), ground arith)
  ]
]

small-inverse :
    (s : List ℕ) (id : ℕ)
    → small_vocab s ≡ some id
    → (small_string id ≡ some s) × ((id == 300) ≡ false)
small-inverse s id e = elim (Bool-cases (bytes_equal s ab)) [
  | inr other ↦ byte_id-inverse s (decoded s) id (rw other at e)
  | inl same ↦
      let named : some 256 ≡ some id = rw same at e in
      let id_is : 256 ≡ id = cc in
      subst (λ n. (small_string n ≡ some s) × ((n == 300) ≡ false)) id_is
        (ap (λ t. some t) (sym (bytes_equal→≡ s ab same)), refl)
]

one_pair : (l r : List ℕ) → l ++ 0 ∷ r ≡ 97 ∷ 0 ∷ 98 ∷ [] → l ++ r ≡ ab
one_pair [] r e = absurd (let f : ◌≡◌ {A = ℕ} 0 97 = cc in ground (arith, f))
one_pair (a ∷ []) r e = cc
one_pair (a ∷ b ∷ []) r e = absurd (let f : ◌≡◌ {A = ℕ} 0 98 = cc in ground (arith, f))
one_pair (a ∷ b ∷ c ∷ []) r e = cc
one_pair (a ∷ b ∷ c ∷ d ∷ l) r e = cc

small-fused :
    (l r : List ℕ) (rk : ℕ)
    → small.merges (l ++ 0 ∷ r) ≡ some rk
    → (id : ℕ) × (small_vocab (l ++ r) ≡ some id)
unfolding bytes_equal
small-fused l r rk e = elim (Bool-cases (bytes_equal (l ++ 0 ∷ r) (97 ∷ 0 ∷ 98 ∷ []))) [
  | inr other ↦ absurd (let f = rw other at e in ground arith)
  | inl same ↦ (256, ap small_vocab (one_pair l r (bytes_equal→≡ _ _ same)))
]

small-IsByteLevel : IsByteLevel small
small-IsByteLevel = record {
  byte_level = refl;
  inverse = λ s id e. ((small-inverse s id e).0, inl (small-inverse s id e).1);
  bytes = small-bytes;
  fused = small-fused;
  specials = ((refl, refl), tt);
}

-- `ab<s>b`
abbrev line : List ℕ
line = 97 ∷ 98 ∷ 60 ∷ 115 ∷ 62 ∷ 98 ∷ []

line-IsByte : All IsByte line
line-IsByte =
    (omega arith, (omega arith, (omega arith, (omega arith, (omega arith, (omega arith, tt))))))

-- One token for `ab`, the added token and one for `b`.
line-encoded : encoded ascii small line ≡ 256 ∷ 300 ∷ 98 ∷ []
unfolding encoded encode_loop next_special special_at strip chunk_ids pretok_chunk pieces_loop
    piece_length contraction letters number_run other_run white to_newline run pieces_ids bpe_piece
    bpe_core piece_symbols symbol_ids merge_loop merge_at best_pair glyphs concat bytes_equal
    decoded glyph_bytes byte2str byte2cp is_direct indirect_below cp2byte cp2byte_below u8_next
    u8_put
line-encoded = refl

tok_decode-tok_encode_example : tok_decode small (tok_encode ascii small line 8) 8 ≡ line
tok_decode-tok_encode_example =
    tok_decode-tok_encode small small-IsByteLevel ascii line 8 8 line-IsByte
      (rw line-encoded (omega arith)) (omega arith)

euro_example : u8_next (u8_put 0x20AC ++ line) ≡ (0x20AC, length (u8_put 0x20AC))
euro_example = u8_next-u8_put 0x20AC line (omega arith)

merge_loop_example :
    IsMerged small.merges int_max (merge_loop small.merges 2 ((97 ∷ []) ∷ (98 ∷ []) ∷ []))
    × (concat (merge_loop small.merges 2 ((97 ∷ []) ∷ (98 ∷ []) ∷ []))
        ≡ concat ((97 ∷ []) ∷ (98 ∷ []) ∷ []))
merge_loop_example = merge_loop-IsMerged small.merges 2 ((97 ∷ []) ∷ (98 ∷ []) ∷ []) (omega arith)
