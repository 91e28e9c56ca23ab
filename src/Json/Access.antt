-- ===== src/Json/Access.antt =====
-- `json_get`, and what the readers of a tree use: the string of a node, its number, its children.
use moty.Base.{
  ℕ, zero, suc, Bool, false, Option, none, some, List, [], ◌∷◌, ◌==◌, if◌then◌else◌, bytes_equal,
}
use moty.Json.Values.{
  Jval, j_num, j_str, j_arr, j_obj, Kids, no_kids, kid, Fields, no_fields, field,
}

-- What C reads of a buffer: the bytes before the first NUL.
abbrev pub c_str : List ℕ → List ℕ
c_str [] = []
c_str (c ∷ s) = let rest = c_str s in if c == 0 then [] else c ∷ rest

-- `strcmp(s, t) == 0`
abbrev pub same_str : List ℕ → List ℕ → Bool
same_str s t = bytes_equal (c_str s) (c_str t)

abbrev pub get_field : Fields → List ℕ → Option Jval
get_field no_fields key = none
get_field (field k v fs) key =
    let others = get_field fs key in if same_str k key then some v else others

-- `json_get`, where `none` is NULL: of NULL and of a node that is no object it is NULL.
abbrev pub json_get : Option Jval → List ℕ → Option Jval
json_get (some (j_obj fs)) key = get_field fs key
json_get o key = none

-- `v->num`, as its 64 bits; the other nodes have 0 there.
abbrev pub num : Jval → ℕ
num (j_num d) = d
num v = 0

-- The string of a node `v && v->t == J_STR`.
abbrev pub str_of : Option Jval → Option (List ℕ)
str_of (some (j_str s)) = some s
str_of v = none

abbrev pub is_str : Option Jval → List ℕ → Bool
is_str (some (j_str s)) key = same_str s key
is_str v key = false

-- The children of a node `v && v->t == J_ARR`.
abbrev pub kids_of : Option Jval → Option Kids
kids_of (some (j_arr ks)) = some ks
kids_of v = none

abbrev pub kid_at : Kids → ℕ → Option Jval
kid_at no_kids i = none
kid_at (kid v ks) zero = some v
kid_at (kid v ks) (suc i) = kid_at ks i
