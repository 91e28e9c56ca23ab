-- ===== src/Schema/Supported.antt =====
-- The schemas that c/util/schema_gbnf.h takes, described without the text it writes.
use moty.Base.{
  ℕ, zero, suc, Bool, true, false, ◌&&◌, ◌||◌, Option, none, some, List, [], ◌∷◌, length, ltb, leb,
  ◌==◌, if◌then◌else◌,
}
use moty.Json.Values.{
  Jval, j_str, j_num, j_arr, j_obj, Kids, no_kids, kid, Fields, no_fields, field,
}
use moty.Json.Access.{same_str, json_get}
use moty.Schema.Texts.{
  kw_properties, kw_required, kw_items, kw_enum, kw_const, kw_type, kw_min_items, type_object,
  type_array, type_string, type_number, type_integer, type_boolean, type_null,
}
use Prim.Native.Char.{code}
use Prim.Native.String.{String}

abbrev pub is_const : Jval → Bool
is_const (j_arr ks) = false
is_const (j_obj fs) = false
is_const v = true

abbrev pub all_const : Kids → Bool
all_const no_kids = true
all_const (kid v ks) = is_const v && all_const ks

abbrev pub enum_ok : Jval → Bool
enum_ok (j_arr (kid v ks)) = is_const v && all_const ks
enum_ok v = false

abbrev spell : String → List ℕ
spell String.[] = []
spell (String.◌∷◌ c s) = code c ∷ spell s

-- The words that a schema is read for, and those that are ignored.
abbrev pub compiled_words : List (List ℕ)
compiled_words =
    spell "type"
    ∷ spell "properties"
    ∷ spell "required"
    ∷ spell "items"
    ∷ spell "enum"
    ∷ spell "const"
    ∷ spell "minItems"
    ∷ []

abbrev pub ignored_words : List (List ℕ)
ignored_words =
    spell "$schema"
    ∷ spell "title"
    ∷ spell "description"
    ∷ spell "default"
    ∷ spell "examples"
    ∷ spell "additionalProperties"
    ∷ []

abbrev pub among : List ℕ → List (List ℕ) → Bool
among k [] = false
among k (w ∷ []) = same_str k w
among k (w ∷ v ∷ ws) = same_str k w || among k (v ∷ ws)

abbrev pub known_keywords : Fields → Bool
known_keywords no_fields = true
known_keywords (field k v fs) =
    (among k compiled_words || among k ignored_words) && known_keywords fs

-- The names of the properties; the members of an array, with `none` for those that are no strings.
abbrev pub names_of : Fields → List (List ℕ)
names_of no_fields = []
names_of (field k v fs) = k ∷ names_of fs

abbrev pub strings_of : Kids → List (Option (List ℕ))
strings_of no_kids = []
strings_of (kid (j_str s) ks) = some s ∷ strings_of ks
strings_of (kid v ks) = none ∷ strings_of ks

abbrev pub is_in : List ℕ → List (Option (List ℕ)) → Bool
is_in name [] = false
is_in name (none ∷ os) = is_in name os
is_in name (some s ∷ os) = same_str s name || is_in name os

abbrev pub all_in : List (List ℕ) → List (Option (List ℕ)) → Bool
all_in [] os = true
all_in (name ∷ names) os = is_in name os && all_in names os

-- `required`, if it is there, is an array of as many members as there are properties, and every
-- property is among them.
abbrev pub required_ok : Option Jval → Fields → Bool
required_ok none props = true
required_ok (some (j_arr req)) props =
    length (strings_of req) == length (names_of props) && all_in (names_of props) (strings_of req)
required_ok (some v) props = false

-- `minItems`, if it is a number, is at most 1 or a NaN: the bits of the `double` are those of a number
-- from 0 to 1, or beyond those of infinity, as all with a sign are.
abbrev pub min_items_ok : Option Jval → Bool
min_items_ok (some (j_num d)) = leb d 0x3FF0000000000000 || ltb 0x7FF0000000000000 d
min_items_ok v = true

module _ (ok : Jval → Bool) where
  abbrev pub all_ok : Fields → Bool
  all_ok no_fields = true
  all_ok (field k v fs) = ok v && all_ok fs

  abbrev pub object_ok : Option Jval → Option Jval → Bool
  object_ok (some (j_obj no_fields)) req = true
  object_ok (some (j_obj (field k v fs))) req =
      required_ok req (field k v fs) && (ok v && all_ok fs)
  object_ok props req = false

  abbrev pub array_ok : Option Jval → Option Jval → Bool
  array_ok none mi = false
  array_ok (some items) mi = min_items_ok mi && ok items

  abbrev pub type_ok : List ℕ → Jval → Bool
  type_ok t sc =
      if same_str t type_object
      then object_ok (json_get (some sc) kw_properties) (json_get (some sc) kw_required)
      else if same_str t type_array
      then array_ok (json_get (some sc) kw_items) (json_get (some sc) kw_min_items)
      else same_str t type_string
        || (same_str t type_number
            || (same_str t type_integer || (same_str t type_boolean || same_str t type_null)))

  abbrev pub form_ok : Option Jval → Option Jval → Option Jval → Jval → Bool
  form_ok (some cst) en ty sc = is_const cst
  form_ok none (some en) ty sc = enum_ok en
  form_ok none none (some (j_str t)) sc = type_ok t sc
  form_ok none none ty sc = false

  abbrev pub node_ok : Jval → Bool
  node_ok (j_obj fs) =
      known_keywords fs
      && form_ok (json_get (some (j_obj fs)) kw_const) (json_get (some (j_obj fs)) kw_enum)
          (json_get (some (j_obj fs)) kw_type) (j_obj fs)
  node_ok sc = false

-- A schema that is supported, with at most so many levels of nesting.
unfoldable pub supported : ℕ → Jval → Bool
supported zero sc = false
supported (suc levels) sc = node_ok (λ v. supported levels v) sc
