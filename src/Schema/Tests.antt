-- ===== src/Schema/Tests.antt =====
-- Small schemas of c/util/schema_gbnf.h.
use moty.Base.{ℕ, ◌^◌, ◌≤◌, ◌≡◌, refl, true, List, [], ◌∷◌, ◌++◌, length, arith, bytes_equal}
use mathlib.Core.Logic.{◌↔◌}
use moty.Grammar.Syntax.{Grammar}
use moty.Grammar.Lexer.{ok, tail, lit}
use moty.Json.Strings.{str_read, parse_str_raw}
use moty.Json.Values.{Jval, j_str, j_obj, no_fields, field}
use moty.Schema.Texts.{kw_type, kw_items, type_string, type_array}
use moty.Schema.Writer.{string_lit}
use moty.Schema.Values.{sgb_root, gbnf}
use moty.Schema.Supported.{supported}
use moty.Schema.Decides.{sgb_root-supported}
use moty.Schema.Doubling.{nested_arrays, sgb_root-doubles}
use moty.Schema.Literals.{json_string, spelled, string_lit-read}

-- Numbers do not occur here.
abbrev no_digits : ℕ → List ℕ
no_digits d = []

abbrev strings : Jval
strings = j_obj (
    field kw_type (j_str type_array)
      (field kw_items (j_obj (field kw_type (j_str type_string) no_fields)) no_fields))

strings-supported : supported 33 strings ≡ true
unfolding supported bytes_equal
strings-supported = refl

sgb_root-supported_example :
    (supported 33 strings ≡ true) ↔ ((text : List ℕ) × (sgb_root no_digits strings ≡ gbnf text))
sgb_root-supported_example = sgb_root-supported no_digits strings

sgb_root-doubles_example :
    (text : List ℕ) × (sgb_root no_digits (nested_arrays 5) ≡ gbnf text) × (2 ^ 5 ≤ length text)
sgb_root-doubles_example = sgb_root-doubles no_digits 5 (omega arith)

-- `a"` and a line feed.
abbrev a_quote : List ℕ
a_quote = b'a' ∷ b'"' ∷ b'\n' ∷ []

abbrev no_rules : Grammar
no_rules = record { rules = []; root = 0 }

string_lit-read_example :
    (lit 9 no_rules 0 0 (tail (string_lit a_quote) ++ b' ' ∷ [])
      ≡ ok (spelled no_rules 0 0 (json_string a_quote), b' ' ∷ []))
    × (parse_str_raw (λ s. 0) (json_string a_quote ++ b',' ∷ []) ≡ str_read a_quote (b',' ∷ []))
string_lit-read_example =
    string_lit-read (λ s. 0) 9 no_rules 0 0 a_quote (b' ' ∷ []) (b',' ∷ []) (omega arith)
      (omega arith)
