-- ===== src/Schema/Texts.antt =====
-- The texts that c/util/schema_gbnf.h compares with and writes.
use moty.Base.{ℕ, List, [], ◌∷◌}

abbrev pub kw_type : List ℕ
kw_type = b't' ∷ b'y' ∷ b'p' ∷ b'e' ∷ []

abbrev pub kw_properties : List ℕ
kw_properties = b'p' ∷ b'r' ∷ b'o' ∷ b'p' ∷ b'e' ∷ b'r' ∷ b't' ∷ b'i' ∷ b'e' ∷ b's' ∷ []

abbrev pub kw_required : List ℕ
kw_required = b'r' ∷ b'e' ∷ b'q' ∷ b'u' ∷ b'i' ∷ b'r' ∷ b'e' ∷ b'd' ∷ []

abbrev pub kw_items : List ℕ
kw_items = b'i' ∷ b't' ∷ b'e' ∷ b'm' ∷ b's' ∷ []

abbrev pub kw_enum : List ℕ
kw_enum = b'e' ∷ b'n' ∷ b'u' ∷ b'm' ∷ []

abbrev pub kw_const : List ℕ
kw_const = b'c' ∷ b'o' ∷ b'n' ∷ b's' ∷ b't' ∷ []

abbrev pub kw_min_items : List ℕ
kw_min_items = b'm' ∷ b'i' ∷ b'n' ∷ b'I' ∷ b't' ∷ b'e' ∷ b'm' ∷ b's' ∷ []

abbrev pub kw_schema : List ℕ
kw_schema = b'$' ∷ b's' ∷ b'c' ∷ b'h' ∷ b'e' ∷ b'm' ∷ b'a' ∷ []

abbrev pub kw_title : List ℕ
kw_title = b't' ∷ b'i' ∷ b't' ∷ b'l' ∷ b'e' ∷ []

abbrev pub kw_description : List ℕ
kw_description = b'd' ∷ b'e' ∷ b's' ∷ b'c' ∷ b'r' ∷ b'i' ∷ b'p' ∷ b't' ∷ b'i' ∷ b'o' ∷ b'n' ∷ []

abbrev pub kw_default : List ℕ
kw_default = b'd' ∷ b'e' ∷ b'f' ∷ b'a' ∷ b'u' ∷ b'l' ∷ b't' ∷ []

abbrev pub kw_examples : List ℕ
kw_examples = b'e' ∷ b'x' ∷ b'a' ∷ b'm' ∷ b'p' ∷ b'l' ∷ b'e' ∷ b's' ∷ []

abbrev pub kw_additional : List ℕ
kw_additional =
    b'a' ∷ b'd' ∷ b'd' ∷ b'i' ∷ b't' ∷ b'i' ∷ b'o' ∷ b'n' ∷ b'a' ∷ b'l' ∷ b'P' ∷ b'r' ∷ b'o' ∷ b'p'
    ∷ b'e' ∷ b'r' ∷ b't' ∷ b'i' ∷ b'e' ∷ b's' ∷ []

abbrev pub type_object : List ℕ
type_object = b'o' ∷ b'b' ∷ b'j' ∷ b'e' ∷ b'c' ∷ b't' ∷ []

abbrev pub type_array : List ℕ
type_array = b'a' ∷ b'r' ∷ b'r' ∷ b'a' ∷ b'y' ∷ []

abbrev pub type_string : List ℕ
type_string = b's' ∷ b't' ∷ b'r' ∷ b'i' ∷ b'n' ∷ b'g' ∷ []

abbrev pub type_number : List ℕ
type_number = b'n' ∷ b'u' ∷ b'm' ∷ b'b' ∷ b'e' ∷ b'r' ∷ []

abbrev pub type_integer : List ℕ
type_integer = b'i' ∷ b'n' ∷ b't' ∷ b'e' ∷ b'g' ∷ b'e' ∷ b'r' ∷ []

abbrev pub type_boolean : List ℕ
type_boolean = b'b' ∷ b'o' ∷ b'o' ∷ b'l' ∷ b'e' ∷ b'a' ∷ b'n' ∷ []

abbrev pub type_null : List ℕ
type_null = b'n' ∷ b'u' ∷ b'l' ∷ b'l' ∷ []

abbrev pub lit_open : List ℕ
lit_open = b'"' ∷ b'\\' ∷ b'"' ∷ []

abbrev pub lit_close : List ℕ
lit_close = b'\\' ∷ b'"' ∷ b'"' ∷ []

abbrev pub esc_quote : List ℕ
esc_quote = b'\\' ∷ b'\\' ∷ b'\\' ∷ b'"' ∷ []

abbrev pub esc_backslash : List ℕ
esc_backslash = b'\\' ∷ b'\\' ∷ b'\\' ∷ b'\\' ∷ []

abbrev pub hex_prefix : List ℕ
hex_prefix = b'\\' ∷ b'x' ∷ []

abbrev pub esc_delete : List ℕ
esc_delete = b'\\' ∷ b'x' ∷ b'7' ∷ b'f' ∷ []

abbrev pub lit_true : List ℕ
lit_true = b'"' ∷ b't' ∷ b'r' ∷ b'u' ∷ b'e' ∷ b'"' ∷ []

abbrev pub lit_false : List ℕ
lit_false = b'"' ∷ b'f' ∷ b'a' ∷ b'l' ∷ b's' ∷ b'e' ∷ b'"' ∷ []

abbrev pub lit_null : List ℕ
lit_null = b'"' ∷ b'n' ∷ b'u' ∷ b'l' ∷ b'l' ∷ b'"' ∷ []

abbrev pub open_group : List ℕ
open_group = b'(' ∷ b' ' ∷ []

abbrev pub bar : List ℕ
bar = b' ' ∷ b'|' ∷ b' ' ∷ []

abbrev pub end_group : List ℕ
end_group = b' ' ∷ b')' ∷ []

abbrev pub empty_object : List ℕ
empty_object = b'"' ∷ b'{' ∷ b'"' ∷ b' ' ∷ b'j' ∷ b'w' ∷ b's' ∷ b' ' ∷ b'"' ∷ b'}' ∷ b'"' ∷ []

abbrev pub open_object : List ℕ
open_object = b'"' ∷ b'{' ∷ b'"' ∷ b' ' ∷ b'j' ∷ b'w' ∷ b's' ∷ b' ' ∷ []

abbrev pub next_member : List ℕ
next_member = b' ' ∷ b'"' ∷ b',' ∷ b'"' ∷ b' ' ∷ b'j' ∷ b'w' ∷ b's' ∷ b' ' ∷ []

abbrev pub colon : List ℕ
colon =
    b' ' ∷ b'j' ∷ b'w' ∷ b's' ∷ b' ' ∷ b'"' ∷ b':' ∷ b'"' ∷ b' ' ∷ b'j' ∷ b'w' ∷ b's' ∷ b' ' ∷ []

abbrev pub after_member : List ℕ
after_member = b' ' ∷ b'j' ∷ b'w' ∷ b's' ∷ []

abbrev pub close_object : List ℕ
close_object = b' ' ∷ b'"' ∷ b'}' ∷ b'"' ∷ []

abbrev pub open_array : List ℕ
open_array = b'"' ∷ b'[' ∷ b'"' ∷ b' ' ∷ b'j' ∷ b'w' ∷ b's' ∷ b' ' ∷ []

abbrev pub open_optional : List ℕ
open_optional = b'"' ∷ b'[' ∷ b'"' ∷ b' ' ∷ b'j' ∷ b'w' ∷ b's' ∷ b' ' ∷ b'(' ∷ b' ' ∷ []

abbrev pub more_items : List ℕ
more_items =
    b' ' ∷ b'j' ∷ b'w' ∷ b's' ∷ b' ' ∷ b'(' ∷ b' ' ∷ b'"' ∷ b',' ∷ b'"' ∷ b' ' ∷ b'j' ∷ b'w' ∷ b's'
    ∷ b' ' ∷ []

abbrev pub close_array : List ℕ
close_array = b' ' ∷ b'j' ∷ b'w' ∷ b's' ∷ b' ' ∷ b')' ∷ b'*' ∷ b' ' ∷ b'"' ∷ b']' ∷ b'"' ∷ []

abbrev pub close_optional : List ℕ
close_optional =
    b' ' ∷ b'j' ∷ b'w' ∷ b's' ∷ b' ' ∷ b')' ∷ b'*' ∷ b' ' ∷ b')' ∷ b'?' ∷ b' ' ∷ b'"' ∷ b']' ∷ b'"'
    ∷ []

abbrev pub any_string : List ℕ
any_string = b'j' ∷ b's' ∷ b't' ∷ b'r' ∷ []

abbrev pub any_number : List ℕ
any_number = b'j' ∷ b'n' ∷ b'u' ∷ b'm' ∷ []

abbrev pub any_integer : List ℕ
any_integer = b'j' ∷ b'i' ∷ b'n' ∷ b't' ∷ []

abbrev pub any_boolean : List ℕ
any_boolean =
    b'(' ∷ b' ' ∷ b'"' ∷ b't' ∷ b'r' ∷ b'u' ∷ b'e' ∷ b'"' ∷ b' ' ∷ b'|' ∷ b' ' ∷ b'"' ∷ b'f' ∷ b'a'
    ∷ b'l' ∷ b's' ∷ b'e' ∷ b'"' ∷ b' ' ∷ b')' ∷ []

abbrev pub root_rule : List ℕ
root_rule =
    b'r' ∷ b'o' ∷ b'o' ∷ b't' ∷ b' ' ∷ b':' ∷ b':' ∷ b'=' ∷ b' ' ∷ b'j' ∷ b'w' ∷ b's' ∷ b' ' ∷ []

abbrev pub end_root : List ℕ
end_root = b' ' ∷ b'j' ∷ b'w' ∷ b's' ∷ b'\n' ∷ []

abbrev pub rule_jws : List ℕ
rule_jws =
    b'j' ∷ b'w' ∷ b's' ∷ b' ' ∷ b':' ∷ b':' ∷ b'=' ∷ b' ' ∷ b'(' ∷ b' ' ∷ b'"' ∷ b' ' ∷ b'"' ∷ b' '
    ∷ b'|' ∷ b' ' ∷ b'"' ∷ b'\\' ∷ b't' ∷ b'"' ∷ b' ' ∷ b'|' ∷ b' ' ∷ b'"' ∷ b'\\' ∷ b'n' ∷ b'"'
    ∷ b' ' ∷ b'|' ∷ b' ' ∷ b'"' ∷ b'\\' ∷ b'r' ∷ b'"' ∷ b' ' ∷ b')' ∷ b'*' ∷ b'\n' ∷ []

abbrev pub rule_jstr : List ℕ
rule_jstr =
    b'j' ∷ b's' ∷ b't' ∷ b'r' ∷ b' ' ∷ b':' ∷ b':' ∷ b'=' ∷ b' ' ∷ b'"' ∷ b'\\' ∷ b'"' ∷ b'"' ∷ b' '
    ∷ b'j' ∷ b'c' ∷ b'h' ∷ b'a' ∷ b'r' ∷ b'*' ∷ b' ' ∷ b'"' ∷ b'\\' ∷ b'"' ∷ b'"' ∷ b'\n' ∷ b'j'
    ∷ b'c' ∷ b'h' ∷ b'a' ∷ b'r' ∷ b' ' ∷ b':' ∷ b':' ∷ b'=' ∷ b' ' ∷ b'[' ∷ b'^' ∷ b'"' ∷ b'\\'
    ∷ b'\\' ∷ b'\\' ∷ b'x' ∷ b'0' ∷ b'0' ∷ b'-' ∷ b'\\' ∷ b'x' ∷ b'1' ∷ b'f' ∷ b']' ∷ b' ' ∷ b'|'
    ∷ b' ' ∷ b'"' ∷ b'\\' ∷ b'\\' ∷ b'"' ∷ b' ' ∷ b'(' ∷ b' ' ∷ b'[' ∷ b'"' ∷ b'\\' ∷ b'\\' ∷ b'/'
    ∷ b'b' ∷ b'f' ∷ b'n' ∷ b'r' ∷ b't' ∷ b']' ∷ b' ' ∷ b'|' ∷ b' ' ∷ b'"' ∷ b'u' ∷ b'"' ∷ b' '
    ∷ b'j' ∷ b'h' ∷ b'e' ∷ b'x' ∷ b' ' ∷ b'j' ∷ b'h' ∷ b'e' ∷ b'x' ∷ b' ' ∷ b'j' ∷ b'h' ∷ b'e'
    ∷ b'x' ∷ b' ' ∷ b'j' ∷ b'h' ∷ b'e' ∷ b'x' ∷ b' ' ∷ b')' ∷ b'\n' ∷ b'j' ∷ b'h' ∷ b'e' ∷ b'x'
    ∷ b' ' ∷ b':' ∷ b':' ∷ b'=' ∷ b' ' ∷ b'[' ∷ b'0' ∷ b'-' ∷ b'9' ∷ b'a' ∷ b'-' ∷ b'f' ∷ b'A'
    ∷ b'-' ∷ b'F' ∷ b']' ∷ b'\n' ∷ []

abbrev pub rule_jnum : List ℕ
rule_jnum =
    b'j' ∷ b'n' ∷ b'u' ∷ b'm' ∷ b' ' ∷ b':' ∷ b':' ∷ b'=' ∷ b' ' ∷ b'"' ∷ b'-' ∷ b'"' ∷ b'?' ∷ b' '
    ∷ b'(' ∷ b' ' ∷ b'"' ∷ b'0' ∷ b'"' ∷ b' ' ∷ b'|' ∷ b' ' ∷ b'[' ∷ b'1' ∷ b'-' ∷ b'9' ∷ b']'
    ∷ b' ' ∷ b'[' ∷ b'0' ∷ b'-' ∷ b'9' ∷ b']' ∷ b'*' ∷ b' ' ∷ b')' ∷ b' ' ∷ b'(' ∷ b' ' ∷ b'"'
    ∷ b'.' ∷ b'"' ∷ b' ' ∷ b'[' ∷ b'0' ∷ b'-' ∷ b'9' ∷ b']' ∷ b'+' ∷ b' ' ∷ b')' ∷ b'?' ∷ b' '
    ∷ b'(' ∷ b' ' ∷ b'(' ∷ b' ' ∷ b'"' ∷ b'e' ∷ b'"' ∷ b' ' ∷ b'|' ∷ b' ' ∷ b'"' ∷ b'E' ∷ b'"'
    ∷ b' ' ∷ b')' ∷ b' ' ∷ b'(' ∷ b' ' ∷ b'"' ∷ b'+' ∷ b'"' ∷ b' ' ∷ b'|' ∷ b' ' ∷ b'"' ∷ b'-'
    ∷ b'"' ∷ b' ' ∷ b')' ∷ b'?' ∷ b' ' ∷ b'[' ∷ b'0' ∷ b'-' ∷ b'9' ∷ b']' ∷ b'+' ∷ b' ' ∷ b')'
    ∷ b'?' ∷ b'\n' ∷ []

abbrev pub rule_jint : List ℕ
rule_jint =
    b'j' ∷ b'i' ∷ b'n' ∷ b't' ∷ b' ' ∷ b':' ∷ b':' ∷ b'=' ∷ b' ' ∷ b'"' ∷ b'-' ∷ b'"' ∷ b'?' ∷ b' '
    ∷ b'(' ∷ b' ' ∷ b'"' ∷ b'0' ∷ b'"' ∷ b' ' ∷ b'|' ∷ b' ' ∷ b'[' ∷ b'1' ∷ b'-' ∷ b'9' ∷ b']'
    ∷ b' ' ∷ b'[' ∷ b'0' ∷ b'-' ∷ b'9' ∷ b']' ∷ b'*' ∷ b' ' ∷ b')' ∷ b'\n' ∷ []
