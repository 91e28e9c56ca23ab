-- ===== src/Json/Tests.antt =====
-- Strings and values on short texts.
use moty.Base.{ℕ, ◌+◌, ◌-◌, ◌*◌, ◌≡◌, refl, some, List, [], ◌∷◌, ◌++◌, length, arith}
use moty.Json.Strings.{
  str_read, overread, put_cp, second_half, unicode, escape_step, str_loop, parse_str_raw,
}
use moty.Json.Values.{
  got, j_arr, j_obj, j_num, kid, no_kids, field, no_fields, json_parse, parse_val, dispatch, scalar,
  bracketed, array_items, object_members, keyed, after_value, behind_value, skip_byte, skip_white,
}
use moty.Json.Ends.{GotEnds, json_parse-GotEnds}
use moty.Json.Quoted.{quoted, parse_str_raw-quoted}

-- The value of decimal digits in base 16.
abbrev base16 : List ℕ → ℕ
base16 s = go s 0
  where
    go : List ℕ → ℕ → ℕ
    go [] acc = acc
    go (d ∷ ds) acc = go ds (acc * 16 + (d - b'0'))

-- `"a\u00` ends within the four digits.
cut_short : parse_str_raw base16 (b'"' ∷ b'a' ∷ b'\\' ∷ b'u' ∷ b'0' ∷ b'0' ∷ []) ≡ overread
unfolding parse_str_raw str_loop escape_step unicode
cut_short = refl

-- `"\u0041"` is `A`.
letter :
    parse_str_raw base16 (b'"' ∷ b'\\' ∷ b'u' ∷ b'0' ∷ b'0' ∷ b'4' ∷ b'1' ∷ b'"' ∷ b',' ∷ [])
    ≡ str_read (b'A' ∷ []) (b',' ∷ [])
unfolding parse_str_raw str_loop escape_step unicode second_half put_cp
letter = refl

parse_str_raw-quoted_example :
    parse_str_raw base16 (quoted (b'"' ∷ b'a' ∷ b'\n' ∷ []) ++ b',' ∷ [])
    ≡ str_read (b'"' ∷ b'a' ∷ b'\n' ∷ []) (b',' ∷ [])
parse_str_raw-quoted_example =
    parse_str_raw-quoted base16 (b'"' ∷ b'a' ∷ b'\n' ∷ []) (b',' ∷ []) (omega arith)

-- `strtod` on one digit.
abbrev digit_value : List ℕ → ℕ × ℕ
digit_value [] = (0, 0)
digit_value (c ∷ s) = (c - b'0', 1)

-- `[1,{"a":2}]`
abbrev nested : List ℕ
nested = b'[' ∷ b'1' ∷ b',' ∷ b'{' ∷ b'"' ∷ b'a' ∷ b'"' ∷ b':' ∷ b'2' ∷ b'}' ∷ b']' ∷ []

json_parse-GotEnds_example : GotEnds (length nested) (json_parse base16 digit_value nested)
json_parse-GotEnds_example = json_parse-GotEnds base16 digit_value nested

nested_parsed :
    json_parse base16 digit_value nested
    ≡ got
        (j_arr (kid (j_num 1) (kid (j_obj (field (b'a' ∷ []) (j_num 2) no_fields)) no_kids)))
        (some [])
unfolding json_parse parse_val dispatch scalar bracketed array_items object_members keyed
    after_value behind_value skip_byte skip_white parse_str_raw str_loop
nested_parsed = refl
