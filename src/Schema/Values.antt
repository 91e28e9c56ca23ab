-- ===== src/Schema/Values.antt =====
-- `sgb_value` and the writers of its cases, and `schema_to_gbnf`, of c/util/schema_gbnf.h.
use moty.Base.{
  ℕ, zero, suc, Bool, true, false, ◌&&◌, ◌||◌, Option, none, some, List, [], ltb, leb, ◌==◌,
  if◌then◌else◌,
}
use moty.Json.Values.{
  Jval, j_null, j_bool, j_num, j_str, j_arr, j_obj, Kids, no_kids, kid, Fields, no_fields, field,
  Got, got, past_end, no_rounds, json_parse,
}
use moty.Json.Access.{c_str, same_str, json_get}
use moty.Schema.Texts.{
  kw_type, kw_properties, kw_required, kw_items, kw_enum, kw_const, kw_min_items, kw_schema,
  kw_title, kw_description, kw_default, kw_examples, kw_additional, type_object, type_array,
  type_string, type_number, type_integer, type_boolean, type_null, lit_true, lit_false, lit_null,
  open_group, bar, end_group, empty_object, open_object, next_member, colon, after_member,
  close_object, open_array, open_optional, more_items, close_array, close_optional, any_string,
  any_number, any_integer, any_boolean, root_rule, end_root, rule_jws, rule_jstr, rule_jnum,
  rule_jint,
}
use moty.Schema.Writer.{
  Fault, nesting_too_deep, not_an_object, keyword, const_type, enum_member_type, empty_enum,
  missing_type, unknown_type, no_properties, required_not_array, not_every_property,
  not_in_required, more_min_items, no_items, SgbCtx, has_failed, sgb_put, sgb_fail, string_lit,
}

-- The keywords that `sgb_value` takes.
abbrev pub is_keyword : List ℕ → Bool
is_keyword k =
    same_str k kw_type
    || (same_str k kw_properties
        || (same_str k kw_required
            || (same_str k kw_items
                || (same_str k kw_enum || (same_str k kw_const || same_str k kw_min_items)))))

-- `sgb_is_annotation`
abbrev pub is_annotation : List ℕ → Bool
is_annotation k =
    same_str k kw_schema
    || (same_str k kw_title
        || (same_str k kw_description
            || (same_str k kw_default || (same_str k kw_examples || same_str k kw_additional))))

-- The first keyword that is neither, if there is one.
abbrev pub unknown_keyword : Fields → Option (List ℕ)
unknown_keyword no_fields = none
unknown_keyword (field k v fs) =
    let others = unknown_keyword fs in if is_keyword k || is_annotation k then others else some k

abbrev pub kids_count : Kids → ℕ
kids_count no_kids = 0
kids_count (kid v ks) = suc (kids_count ks)

abbrev pub fields_count : Fields → ℕ
fields_count no_fields = 0
fields_count (field k v fs) = suc (fields_count fs)

-- A name among those that are required.
abbrev pub lists_name : Kids → List ℕ → Bool
lists_name no_kids name = false
lists_name (kid (j_str s) ks) name = let others = lists_name ks name in same_str s name || others
lists_name (kid v ks) name = lists_name ks name

abbrev pub all_listed : Fields → Kids → Bool
all_listed no_fields req = true
all_listed (field k v fs) req = let others = all_listed fs req in lists_name req k && others

-- `required`, if it is there, names every property; otherwise what is reported.
abbrev pub required_fault : Option Jval → Fields → Option Fault
required_fault none props = none
required_fault (some (j_arr req)) props =
    if kids_count req == fields_count props
    then (if all_listed props req then none else some not_in_required)
    else some not_every_property
required_fault (some v) props = some required_not_array

-- `mi->num >= 1` and `mi->num > 1`, on the 64 bits of a `double`: neither holds of a NaN.
abbrev pub min_items_1 : Option Jval → Bool
min_items_1 (some (j_num d)) = leb 0x3FF0000000000000 d && leb d 0x7FF0000000000000
min_items_1 v = false

abbrev pub min_items_more : Option Jval → Bool
min_items_more (some (j_num d)) = ltb 0x3FF0000000000000 d && leb d 0x7FF0000000000000
min_items_more v = false

-- The shared rules that are in use.
abbrev pub put_if : Bool → SgbCtx → List ℕ → SgbCtx
put_if true C t = sgb_put C t
put_if false C t = C

-- What `schema_to_gbnf` comes to: a text, or NULL with what is not supported; a read of the schema
-- past its NUL.
pub data Compiled : Type 0 where
  gbnf : List ℕ → Compiled
  unsupported : Fault → Compiled
  unread : Compiled

abbrev pub compiled : SgbCtx → Option Fault → Compiled
compiled C none = gbnf C.s
compiled C (some what) = unsupported what

abbrev pub with_rules : SgbCtx → SgbCtx
with_rules C =
    let D = sgb_put (sgb_put C end_root) rule_jws in
    put_if C.use_int (put_if C.use_num (put_if C.use_str D rule_jstr) rule_jnum) rule_jint

abbrev pub sgb_empty : SgbCtx
sgb_empty = record { s = []; use_str = false; use_num = false; use_int = false; err = none }

-- The text of a number is libc's: `"%.17g"`, or `"%lld"` for an integer below `10^15`.
module _ (number_lit : ℕ → List ℕ) where
  -- A constant: a member of an enum, or `const`.
  abbrev pub sgb_const : SgbCtx → Jval → Fault → SgbCtx
  sgb_const C (j_str s) what = sgb_put C (string_lit (c_str s))
  sgb_const C (j_num d) what = sgb_put C (number_lit d)
  sgb_const C (j_bool true) what = sgb_put C lit_true
  sgb_const C (j_bool false) what = sgb_put C lit_false
  sgb_const C j_null what = sgb_put C lit_null
  sgb_const C (j_arr ks) what = sgb_fail C what
  sgb_const C (j_obj fs) what = sgb_fail C what

  -- The loop of `sgb_enum` behind its first member.
  abbrev pub enum_more : SgbCtx → Kids → SgbCtx
  enum_more C no_kids = C
  enum_more C (kid v ks) =
      let more = enum_more (sgb_const (sgb_put C bar) v enum_member_type) ks in
      if has_failed C then C else more

  -- `sgb_enum`
  abbrev pub sgb_enum : SgbCtx → Jval → SgbCtx
  sgb_enum C (j_arr (kid v ks)) =
      sgb_put (enum_more (sgb_const (sgb_put C open_group) v enum_member_type) ks) end_group
  sgb_enum C e = sgb_fail C empty_enum

  module _ (value : SgbCtx → Jval → SgbCtx) where
    abbrev pub put_member : SgbCtx → List ℕ → Jval → SgbCtx
    put_member C k v =
        sgb_put (value (sgb_put (sgb_put C (string_lit (c_str k))) colon) v) after_member

    -- The loop of `sgb_object` behind its first property.
    abbrev pub members_more : SgbCtx → Fields → SgbCtx
    members_more C no_fields = C
    members_more C (field k v fs) =
        let more = members_more (put_member (sgb_put C next_member) k v) fs in
        if has_failed C then C else more

    abbrev pub put_members : SgbCtx → Fields → Option Fault → SgbCtx
    put_members C no_fields fault = sgb_put C empty_object
    put_members C (field k v fs) (some what) = sgb_fail C what
    put_members C (field k v fs) none =
        sgb_put (members_more (put_member (sgb_put C open_object) k v) fs) close_object

    -- `sgb_object`
    abbrev pub sgb_object : SgbCtx → Option Jval → Option Jval → SgbCtx
    sgb_object C (some (j_obj props)) req = put_members C props (required_fault req props)
    sgb_object C props req = sgb_fail C no_properties

    -- `sgb_array`: the items are written twice.
    abbrev pub put_items : SgbCtx → Bool → Jval → SgbCtx
    put_items C true items =
        sgb_put (value (sgb_put (value (sgb_put C open_array) items) more_items) items) close_array
    put_items C false items =
        sgb_put (value (sgb_put (value (sgb_put C open_optional) items) more_items) items)
          close_optional

    abbrev pub sgb_array : SgbCtx → Option Jval → Option Jval → SgbCtx
    sgb_array C none mi = sgb_fail C (if min_items_more mi then more_min_items else no_items)
    sgb_array C (some items) mi =
        if min_items_more mi then sgb_fail C more_min_items else put_items C (min_items_1 mi) items

    abbrev pub sgb_type : SgbCtx → List ℕ → Jval → SgbCtx
    sgb_type C t sc =
        if same_str t type_object
        then sgb_object C (json_get (some sc) kw_properties) (json_get (some sc) kw_required)
        else if same_str t type_array
        then sgb_array C (json_get (some sc) kw_items) (json_get (some sc) kw_min_items)
        else if same_str t type_string
        then sgb_put (record C { use_str = true }) any_string
        else if same_str t type_number
        then sgb_put (record C { use_num = true }) any_number
        else if same_str t type_integer
        then sgb_put (record C { use_int = true }) any_integer
        else if same_str t type_boolean
        then sgb_put C any_boolean
        else (if same_str t type_null then sgb_put C lit_null else sgb_fail C (unknown_type t))

    -- The forms of a schema in the order of the tests: `const`, `enum`, `type`.
    abbrev pub sgb_form : SgbCtx → Option Jval → Option Jval → Option Jval → Jval → SgbCtx
    sgb_form C (some cst) en ty sc = sgb_const C cst const_type
    sgb_form C none (some en) ty sc = sgb_enum C en
    sgb_form C none none (some (j_str t)) sc = sgb_type C t sc
    sgb_form C none none ty sc = sgb_fail C missing_type

    abbrev pub sgb_node : SgbCtx → Jval → Option (List ℕ) → SgbCtx
    sgb_node C sc (some k) = sgb_fail C (keyword k)
    sgb_node C sc none =
        sgb_form C (json_get (some sc) kw_const) (json_get (some sc) kw_enum)
          (json_get (some sc) kw_type) sc

    abbrev pub sgb_known : SgbCtx → Jval → SgbCtx
    sgb_known C (j_obj fs) = sgb_node C (j_obj fs) (unknown_keyword fs)
    sgb_known C sc = sgb_fail C not_an_object

  -- `sgb_value`, with the levels that are left: `SGB_MAX_DEPTH + 1 - depth`.
  unfoldable pub sgb_value : ℕ → SgbCtx → Jval → SgbCtx
  sgb_value zero C sc = if has_failed C then C else sgb_fail C nesting_too_deep
  sgb_value (suc levels) C sc =
      let node = sgb_known (λ D v. sgb_value levels D v) C sc in if has_failed C then C else node

  -- `schema_to_gbnf`, of the schema once it is parsed.
  unfoldable pub sgb_root : Jval → Compiled
  sgb_root sc =
      let C = with_rules (sgb_value 33 (sgb_put sgb_empty root_rule) sc) in compiled C C.err

  abbrev pub of_parsed : Got Jval → Compiled
  of_parsed (got sc rest) = sgb_root sc
  of_parsed past_end = unread
  of_parsed no_rounds = unread

  -- That the parser runs out of rounds does not occur.
  unfoldable pub schema_to_gbnf : (List ℕ → ℕ) → (List ℕ → ℕ × ℕ) → List ℕ → Compiled
  schema_to_gbnf strtoul strtod text = of_parsed (json_parse strtoul strtod text)
