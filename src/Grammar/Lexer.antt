-- ===== src/Grammar/Lexer.antt =====
-- The character level of the GBNF parser of c/util/grammar.h. A text is the bytes before its NUL.
use moty.Base.{
  ℕ, zero, suc, ◌+◌, ◌-◌, ◌*◌, Bool, true, false, not, ◌&&◌, ◌||◌, Option, none, some, List, [],
  ◌∷◌, leb, ltb, ◌==◌, if◌then◌else◌,
}
use moty.Grammar.Syntax.{cls, ByteSet, Grammar}
use moty.Grammar.Build.{push}

-- What `G->err` reports.
pub data Error : Type 0 where
  invalid_escape_in_literal : Error
  unterminated_literal : Error
  invalid_escape_in_class : Error
  unterminated_class : Error
  grammar_too_large : Error
  nested_too_deeply : Error
  missing_close : Error
  unexpected_close : Error
  unexpected_character : ℕ → Error
  too_many_rules : Error
  expected_rule : ℕ → Error
  expected_definition : List ℕ → Error
  duplicate_rule : List ℕ → Error
  undefined_rule : List ℕ → Error
  missing_root : Error

-- A result, an error, a read past the NUL, or no fuel left.
pub data Parsed {ℓ} (A : Type ℓ) : Type ℓ where
  ok : A → Parsed A
  error : Error → Parsed A
  overread : Parsed A
  no_fuel : Parsed A

infixl 5 ◌>>=◌
abbrev pub ◌>>=◌ {ℓ κ} : {A : Type ℓ} {B : Type κ} → Parsed A → (A → Parsed B) → Parsed B
ok a >>= f = f a
error e >>= f = error e
overread >>= f = overread
no_fuel >>= f = no_fuel

abbrev pub Text : Type 0
Text = List ℕ

-- The first byte, 0 at the end.
abbrev pub peek : Text → ℕ
peek [] = 0
peek (c ∷ t) = c

-- One step of `gr__ws`, in or out of a comment: stop, or go on after the byte.
unfoldable pub ws_step : Bool → ℕ → Option Bool
ws_step true c = some (not (c == b'\n'))
ws_step false c =
    if c == b' ' || (c == b'\t' || (c == b'\r' || c == b'\n'))
    then some false
    else if c == b'#'
    then some true
    else none

unfoldable pub skip : Bool → Text → Text
skip comment [] = []
skip comment (c ∷ t) = elim (ws_step comment c) [ none ↦ c ∷ t | some mode ↦ skip mode t ]

-- `gr__ws`
abbrev pub ws : Text → Text
ws = skip false

-- `gr__idch`
unfoldable pub idch : ℕ → Bool
idch c =
    (leb b'a' c && leb c b'z')
    || ((leb b'A' c && leb c b'Z') || ((leb b'0' c && leb c b'9') || (c == b'_' || c == b'-')))

-- The identifier of length `gr__idlen` at the front, and the text after it.
unfoldable pub ident : Text → Text × Text
ident [] = ([], [])
ident (c ∷ t) = let (name, rest) = ident t in if idch c then (c ∷ name, rest) else ([], c ∷ t)

-- `gr__hex`
unfoldable pub hex : ℕ → Option ℕ
hex c =
    if leb b'0' c && leb c b'9'
    then some (c - b'0')
    else if leb b'a' c && leb c b'f'
    then some (c - b'a' + 10)
    else if leb b'A' c && leb c b'F'
    then some (c - b'A' + 10)
    else none

abbrev pub tail : Text → Text
tail [] = []
tail (c ∷ t) = t

-- The case `x` of `gr__esc`, which reads two bytes before it looks at either.
unfoldable pub esc_hex : Text → Parsed (Option (ℕ × Text))
esc_hex [] = overread
esc_hex (h ∷ t) = elim (hex h) [
  | none ↦ ok none
  | some hi ↦ elim (hex (peek t)) [ none ↦ ok none | some lo ↦ ok (some (hi * 16 + lo, tail t)) ]
]

-- The cases of `gr__esc` that stand for one byte.
unfoldable pub simple_escape : ℕ → Option ℕ
simple_escape c =
    if c == b'n'
    then some b'\n'
    else if c == b'r'
    then some b'\r'
    else if c == b't'
    then some b'\t'
    else if c == b'"' || (c == b'\\' || (c == b'[' || (c == b']' || (c == b'-' || c == b'^'))))
    then some c
    else none

-- `gr__esc` on the text after the backslash: the byte and the text after it, none for -1.
unfoldable pub esc : Text → Parsed (Option (ℕ × Text))
esc [] = ok none
esc (c ∷ t) = elim (simple_escape c) [
  | some b ↦ ok (some (b, t))
  | none ↦ if c == b'x' then esc_hex t else ok none
]

-- A byte of a literal or a class: itself, or an escape after a backslash; none if that is invalid.
unfoldable pub read_byte : ℕ → Text → Parsed (Option (ℕ × Text))
read_byte c t = if c == b'\\' then esc t else ok (some (c, t))

abbrev pub single : ℕ → ByteSet
single c = λ b. b == c

-- The loop of `gr__lit`, on the text after the opening quote.
unfoldable pub lit : ℕ → Grammar → ℕ → ℕ → Text → Parsed (Grammar × Text)
lit zero g ri ai t = no_fuel
lit (suc fuel) g ri ai [] = error unterminated_literal
lit (suc fuel) g ri ai (c ∷ t) = elim (c == b'"') [
  | true ↦ ok (g, t)
  | false ↦ read_byte c t >>= λ r. elim r [
    | none ↦ error invalid_escape_in_literal
    | some (b, rest) ↦ lit fuel (push g ri ai (cls (single b))) ri ai rest
  ]
]

-- The upper end of a range of a class whose lower end is `lo`.
unfoldable pub upper : ℕ → Text → Parsed (Option (ℕ × Text))
upper lo [] = ok (some (lo, []))
upper lo (c ∷ []) = ok (some (lo, c ∷ []))
upper lo (c ∷ d ∷ t) =
    if c == b'-' && not (d == b']') then read_byte d t else ok (some (lo, c ∷ d ∷ t))

-- The bits of a range, whichever end comes first.
abbrev pub add_range : ByteSet → ℕ → ℕ → ByteSet
add_range m lo hi = λ b. m b || (if ltb hi lo then leb hi b && leb b lo else leb lo b && leb b hi)

-- The loop of `gr__cls`, on the text after the bracket and the caret.
unfoldable pub cls_loop : ℕ → ByteSet → Text → Parsed (ByteSet × Text)
cls_loop zero m t = no_fuel
cls_loop (suc fuel) m [] = error unterminated_class
cls_loop (suc fuel) m (c ∷ t) = elim (c == b']') [
  | true ↦ ok (m, t)
  | false ↦ read_byte c t >>= λ r. elim r [
    | none ↦ error invalid_escape_in_class
    | some (lo, after) ↦ upper lo after >>= λ q. elim q [
      | none ↦ error invalid_escape_in_class
      | some (hi, rest) ↦ cls_loop fuel (add_range m lo hi) rest
    ]
  ]
]

abbrev pub push_class :
    (ByteSet → ByteSet) → Grammar → ℕ → ℕ → ByteSet × Text → Parsed (Grammar × Text)
push_class f g ri ai (m, t) = ok (push g ri ai (cls (f m)), t)

-- `gr__cls`, on the text after the bracket.
unfoldable pub class : ℕ → Grammar → ℕ → ℕ → Text → Parsed (Grammar × Text)
class fuel g ri ai t =
    if peek t == b'^'
    then cls_loop fuel (λ b. false) (tail t) >>= push_class (λ m b. not (m b)) g ri ai
    else cls_loop fuel (λ b. false) t >>= push_class (λ m. m) g ri ai
