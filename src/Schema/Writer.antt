-- ===== src/Schema/Writer.antt =====
-- `SgbCtx` and what c/util/schema_gbnf.h writes with it.
use moty.Base.{
  ℕ, ◌+◌, ◌-◌, ◌/◌, ◌%◌, Bool, true, false, Option, none, some, List, [], ◌∷◌, ◌++◌, ltb, ◌==◌,
  if◌then◌else◌,
}
use moty.Schema.Texts.{lit_open, lit_close, esc_quote, esc_backslash, hex_prefix, esc_delete}

-- What `sgb_fail` is called with.
pub data Fault : Type 0 where
  nesting_too_deep : Fault
  not_an_object : Fault
  keyword : List ℕ → Fault
  const_type : Fault
  enum_member_type : Fault
  empty_enum : Fault
  missing_type : Fault
  unknown_type : List ℕ → Fault
  no_properties : Fault
  required_not_array : Fault
  not_every_property : Fault
  not_in_required : Fault
  more_min_items : Fault
  no_items : Fault

-- `SgbCtx`: the text without its NUL, which of the shared rules are in use, and what was not
-- supported first; `fail` and `err` are set together, as allocations succeed.
pub record SgbCtx : Type 0 where
  pub s : List ℕ
  pub use_str : Bool
  pub use_num : Bool
  pub use_int : Bool
  pub err : Option Fault

-- `C->fail`
abbrev pub has_failed : SgbCtx → Bool
has_failed C = elim C.err [ none ↦ false | some what ↦ true ]

-- `sgb_put`
abbrev pub sgb_put : SgbCtx → List ℕ → SgbCtx
sgb_put C t = record C { s = C.s ++ t }

abbrev pub first_of : Option Fault → Fault → Fault
first_of none what = what
first_of (some before) what = before

-- `sgb_fail`: the first message stays.
abbrev pub sgb_fail : SgbCtx → Fault → SgbCtx
sgb_fail C what = record C { err = some (first_of C.err what) }

-- A digit of `%02x`.
abbrev pub hex_digit : ℕ → ℕ
hex_digit d = if ltb d 10 then b'0' + d else b'a' + (d - 10)

-- A byte of a string, inside a literal of the grammar.
unfoldable pub lit_byte : ℕ → List ℕ
lit_byte c =
    if c == b'"'
    then esc_quote
    else if c == b'\\'
    then esc_backslash
    else if ltb c 32
    then hex_prefix ++ hex_digit (c / 16) ∷ hex_digit (c % 16) ∷ []
    else (if c == 127 then esc_delete else c ∷ [])

abbrev pub lit_bytes : List ℕ → List ℕ
lit_bytes [] = []
lit_bytes (c ∷ raw) = lit_byte c ++ lit_bytes raw

-- What `sgb_put_json_string_lit` writes.
abbrev pub string_lit : List ℕ → List ℕ
string_lit raw = lit_open ++ (lit_bytes raw ++ lit_close)
