-- ===== src/Schema/Literals.antt =====
-- The literals that c/util/schema_gbnf.h writes, read by the parser of c/util/grammar.h.
use moty.Base.{
  ℕ, zero, suc, ◌+◌, ◌-◌, ◌*◌, ◌/◌, ◌%◌, ◌≤◌, ◌<◌, ◌≡◌, refl, sym, ap, ◌∙◌, inl, inr, Bool, true,
  false, Option, none, some, List, [], ◌∷◌, ◌++◌, length, ltb, ◌==◌, if◌then◌else◌, arith,
  Bool-cases, length-append, take_all,
}
use mathlib.Core.List.{append_assoc}
use moty.Grammar.Syntax.{cls, Grammar}
use moty.Grammar.Build.{push}
use moty.Grammar.Lexer.{ok, tail, hex, esc_hex, simple_escape, esc, read_byte, single, lit}
use moty.Json.Strings.{str_read, put, escape_of, buffered, str_loop, parse_str_raw}
use moty.Json.Quoted.{after_slash, plain_byte}
use moty.Schema.Texts.{lit_close}
use moty.Schema.Writer.{hex_digit, lit_byte, lit_bytes, string_lit}

-- A string as JSON writes it, but for the bytes below 32, which stay as they are.
abbrev pub json_byte : ℕ → List ℕ
json_byte c =
    if c == b'"' then b'\\' ∷ b'"' ∷ [] else (if c == b'\\' then b'\\' ∷ b'\\' ∷ [] else c ∷ [])

abbrev pub json_bytes : List ℕ → List ℕ
json_bytes [] = []
json_bytes (c ∷ raw) = json_byte c ++ json_bytes raw

abbrev pub json_string : List ℕ → List ℕ
json_string raw = b'"' ∷ json_bytes raw ++ b'"' ∷ []

-- The grammar with a literal of these bytes at the end of an alternate.
abbrev pub spelled : Grammar → ℕ → ℕ → List ℕ → Grammar
spelled g ri ai [] = g
spelled g ri ai (c ∷ s) = spelled (push g ri ai (cls (single c))) ri ai s

-- The rounds behind those for the bytes.
abbrev after : List ℕ → ℕ → ℕ
after [] fuel = fuel
after (c ∷ s) fuel = suc (after s fuel)

hex-hex_digit : (d : ℕ) → d < 16 → hex (hex_digit d) ≡ some d
unfolding hex
hex-hex_digit d lt = ground arith

present :
    {A B : Type 0}
    → (o : Option A) (x : A) (n : B) (f : A → B) → o ≡ some x
    → elim o [ none ↦ n | some d ↦ f d ] ≡ f x
present o x n f e = rw e refl

two_digits :
    (h l hi lo : ℕ) (t : List ℕ)
    → hex h ≡ some hi
    → hex l ≡ some lo
    → esc_hex (h ∷ l ∷ t) ≡ ok (some (hi * 16 + lo, t))
unfolding esc_hex
two_digits h l hi lo t e f = present (hex h) hi _ _ e ∙ present (hex l) lo _ _ f

esc-hex :
    (c : ℕ) (t : List ℕ)
    → c < 256
    → esc (b'x' ∷ hex_digit (c / 16) ∷ hex_digit (c % 16) ∷ t) ≡ ok (some (c, t))
unfolding esc simple_escape
esc-hex c t lt =
    let hi = hex-hex_digit (c / 16) (omega arith) in
    let lo = hex-hex_digit (c % 16) (omega arith) in
    two_digits _ _ _ _ t hi lo ∙ ap (λ n. ok (some (n, t))) (omega arith)

not_taken : {A : Type 0} → (b : Bool) (p q : A) → b ≡ false → elim b [ true ↦ p | false ↦ q ] ≡ q
not_taken b p q e = rw e refl

module _ (ri ai : ℕ) where
  -- A byte that the reader takes, whatever it is written as.
  lit_step :
      (fuel : ℕ) (g : Grammar) (c b : ℕ) (t rest : List ℕ)
      → (c == b'"') ≡ false
      → read_byte c t ≡ ok (some (b, rest))
      → lit (suc fuel) g ri ai (c ∷ t) ≡ lit fuel (push g ri ai (cls (single b))) ri ai rest
  unfolding lit
  lit_step fuel g c b t rest plain e = not_taken (c == b'"') _ _ plain ∙ rw e refl

  lit-lit_byte :
      (fuel : ℕ) (g : Grammar) (c : ℕ) (rest : List ℕ)
      → lit (after (json_byte c) fuel) g ri ai (lit_byte c ++ rest)
        ≡ lit fuel (spelled g ri ai (json_byte c)) ri ai rest
  unfolding lit_byte read_byte esc simple_escape esc_hex hex
  lit-lit_byte fuel g c rest = elim (Bool-cases (c == b'"')) [
    | inl e ↦
        rw e (
          lit_step (suc fuel) g b'\\' b'\\' _ _ refl refl
          ∙ lit_step fuel _ b'\\' b'"' _ _ refl refl)
    | inr q ↦ elim (Bool-cases (c == b'\\')) [
      | inl e ↦
          rw (q, e)
            (lit_step (suc fuel) g b'\\' b'\\' _ _ refl refl
              ∙ lit_step fuel _ b'\\' b'\\' _ _ refl refl)
      | inr s ↦ elim (Bool-cases (ltb c 32)) [
        | inl low ↦
            rw (q, s, low) (lit_step fuel g b'\\' c _ rest refl (esc-hex c rest (ground arith)))
        | inr high ↦ elim (Bool-cases (c == 127)) [
          | inl del ↦
              let is : c ≡ 127 = ground arith in
              rw (q, s, high, del) (lit_step fuel g b'\\' c _ rest refl (rw is refl))
          | inr plain ↦ rw (q, s, high, plain) (lit_step fuel g c c rest rest q (rw s refl))
        ]
      ]
    ]
  ]

  after-append : (s t : List ℕ) (fuel : ℕ) → after (s ++ t) fuel ≡ after s (after t fuel)
  after-append [] t fuel = refl
  after-append (c ∷ s) t fuel = ap suc (after-append s t fuel)

  spelled-append :
      (g : Grammar) (s t : List ℕ) → spelled g ri ai (s ++ t) ≡ spelled (spelled g ri ai s) ri ai t
  spelled-append g [] t = refl
  spelled-append g (c ∷ s) t = spelled-append (push g ri ai (cls (single c))) s t

  lit-lit_bytes :
      (fuel : ℕ) (g : Grammar) (raw rest : List ℕ)
      → lit (after (json_bytes raw) fuel) g ri ai (lit_bytes raw ++ rest)
        ≡ lit fuel (spelled g ri ai (json_bytes raw)) ri ai rest
  lit-lit_bytes fuel g [] rest = refl
  lit-lit_bytes fuel g (c ∷ raw) rest =
      rw
        (
          after-append (json_byte c) (json_bytes raw) fuel,
          append_assoc (lit_byte c) (lit_bytes raw) rest,
          spelled-append g (json_byte c) (json_bytes raw),
        )
        (lit-lit_byte (after (json_bytes raw) fuel) g c (lit_bytes raw ++ rest)
          ∙ lit-lit_bytes fuel (spelled g ri ai (json_byte c)) raw rest)

  after-length : (s : List ℕ) (fuel : ℕ) → after s fuel ≡ length s + fuel
  after-length [] fuel = omega arith
  after-length (c ∷ s) fuel = omega (arith, after-length s fuel)

  at_close :
      (fuel : ℕ) (g : Grammar) (rest : List ℕ) → lit (suc fuel) g ri ai (b'"' ∷ rest) ≡ ok (g, rest)
  unfolding lit
  at_close fuel g rest = refl

  closed :
      (k : ℕ) (g : Grammar) (raw rest : List ℕ)
      → lit (suc (after (json_bytes raw) (suc (suc k)))) g ri ai (tail (string_lit raw) ++ rest)
        ≡ ok (spelled g ri ai (json_string raw), rest)
  unfolding read_byte esc simple_escape
  closed k g raw rest =
      let g1 = push g ri ai (cls (single b'"')) in
      let g2 = spelled g1 ri ai (json_bytes raw) in
      lit_step _ g b'\\' b'"' _ (lit_bytes raw ++ lit_close ++ rest) refl refl
      ∙ ap (lit (after (json_bytes raw) (suc (suc k))) g1 ri ai)
          (append_assoc (lit_bytes raw) lit_close rest)
      ∙ lit-lit_bytes (suc (suc k)) g1 raw (lit_close ++ rest)
      ∙ lit_step (suc k) g2 b'\\' b'"' _ (b'"' ∷ rest) refl refl
      ∙ at_close k (push g2 ri ai (cls (single b'"'))) rest
      ∙ ap (λ h. ok (h, rest)) (sym (spelled-append g1 (json_bytes raw) (b'"' ∷ [])))

  lit-string_lit :
      (fuel : ℕ) (g : Grammar) (raw rest : List ℕ)
      → length (json_string raw) < fuel
      → lit fuel g ri ai (tail (string_lit raw) ++ rest)
        ≡ ok (spelled g ri ai (json_string raw), rest)
  lit-string_lit fuel g raw rest enough =
      let size = length-append (json_bytes raw) (b'"' ∷ []) in
      let k = fuel - length (json_bytes raw) - 3 in
      let rounds : suc (after (json_bytes raw) (suc (suc k))) ≡ fuel =
        omega (arith, enough, size, after-length (json_bytes raw) (suc (suc k))) in
      ap (λ n. lit n g ri ai (tail (string_lit raw) ++ rest)) (sym rounds) ∙ closed k g raw rest

module _ (strtoul : List ℕ → ℕ) where
  json_byte-read :
      (fuel b : ℕ) (t : List ℕ)
      → str_loop strtoul (suc fuel) (json_byte b ++ t) ≡ put (b ∷ []) (str_loop strtoul fuel t)
  unfolding escape_of
  json_byte-read fuel b t = elim (Bool-cases (b == b'"')) [
    | inl e ↦ rw e (after_slash strtoul fuel b'"' b t refl (ground arith))
    | inr q ↦ elim (Bool-cases (b == b'\\')) [
      | inl e ↦ rw (q, e) (after_slash strtoul fuel b'\\' b t refl (ground arith))
      | inr s ↦ rw (q, s) (plain_byte strtoul fuel b t (ground arith))
    ]
  ]

  json_byte_some : (b : ℕ) → 0 < length (json_byte b)
  json_byte_some b = ground arith

  json_bytes-read :
      (fuel : ℕ) (s rest : List ℕ)
      → length (json_bytes s ++ b'"' ∷ rest) ≤ fuel
      → str_loop strtoul fuel (json_bytes s ++ b'"' ∷ rest) ≡ str_read s rest
  unfolding str_loop
  json_bytes-read zero [] rest le = absurd (omega arith)
  json_bytes-read (suc fuel) [] rest le = refl
  json_bytes-read zero (b ∷ s) rest le = absurd (
      omega (
        arith,
        json_byte_some b,
        length-append (json_byte b) (json_bytes s),
        length-append (json_bytes (b ∷ s)) (b'"' ∷ rest),
      ))
  json_bytes-read (suc fuel) (b ∷ s) rest le =
      let cut = append_assoc (json_byte b) (json_bytes s) (b'"' ∷ rest) in
      let size : length (json_bytes s ++ b'"' ∷ rest) ≤ fuel = omega (
        arith,
        json_byte_some b,
        length-append (json_byte b) (json_bytes s ++ b'"' ∷ rest),
        ap length cut,
      ) in
      ap (str_loop strtoul (suc fuel)) cut
      ∙ json_byte-read fuel b _
      ∙ ap (put (b ∷ [])) (json_bytes-read fuel s rest size)

  -- The literal that is written for a string of at most 65535 bytes is read, however the text goes
  -- on and with more rounds than it has bytes, as the bytes of a JSON string, and the JSON parser
  -- reads those as the string.
  pub string_lit-read :
      (fuel : ℕ) (g : Grammar) (ri ai : ℕ) (raw rest after_string : List ℕ)
      → length raw ≤ 65535
      → length (json_string raw) < fuel
      → (lit fuel g ri ai (tail (string_lit raw) ++ rest)
          ≡ ok (spelled g ri ai (json_string raw), rest))
        × (parse_str_raw strtoul (json_string raw ++ after_string) ≡ str_read raw after_string)
  unfolding parse_str_raw
  string_lit-read fuel g ri ai raw rest t le enough =
      let cut = append_assoc (json_bytes raw) (b'"' ∷ []) t in
      (
        lit-string_lit ri ai fuel g raw rest enough,
        ap (λ u. buffered (str_loop strtoul (length u) u)) cut
            ∙ ap buffered
                (json_bytes-read (length (json_bytes raw ++ b'"' ∷ t)) raw t (omega arith))
            ∙ ap (λ u. str_read u t) (take_all 65535 raw le),
      )
