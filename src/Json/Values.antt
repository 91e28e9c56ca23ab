-- ===== src/Json/Values.antt =====
-- `j_parse_val` and `json_parse`. A double is its 64 bits.
use moty.Base.{
  ℕ, zero, suc, Bool, true, false, ◌&&◌, ◌||◌, Option, none, some, List, [], ◌∷◌, drop, length, leb,
  ◌==◌, if◌then◌else◌,
}
use moty.Json.Strings.{StrRead, str_read, overread, parse_str_raw}

-- `jval`, with the children of an array or an object and its keys in lists.
mutual
  pub data Jval : Type 0 where
    j_null : Jval
    j_bool : Bool → Jval
    j_num : ℕ → Jval
    j_str : List ℕ → Jval
    j_arr : Kids → Jval
    j_obj : Fields → Jval

  pub data Kids : Type 0 where
    no_kids : Kids
    kid : Jval → Kids → Kids

  pub data Fields : Type 0 where
    no_fields : Fields
    field : List ℕ → Jval → Fields → Fields

-- What a reader comes to: a value and the text left, `none` if the pointer is past the NUL; a read
-- past the NUL; or no rounds left, which does not occur.
pub data Got (A : Type 0) : Type 0 where
  got : A → Option (List ℕ) → Got A
  past_end : Got A
  no_rounds : Got A

-- `isspace`
abbrev pub is_white : ℕ → Bool
is_white c = c == b' ' || (leb 9 c && leb c 13)

-- `j_ws`
unfoldable pub skip_white : List ℕ → List ℕ
skip_white [] = []
skip_white (c ∷ s) = let rest = skip_white s in if is_white c then rest else c ∷ s

-- `p->s += n`
unfoldable pub past_bytes : ℕ → List ℕ → Option (List ℕ)
past_bytes zero s = some s
past_bytes (suc n) [] = none
past_bytes (suc n) (c ∷ s) = past_bytes n s

-- A text without its first byte, if that is the byte.
unfoldable pub skip_byte : ℕ → List ℕ → List ℕ
skip_byte b [] = []
skip_byte b (c ∷ s) = if c == b then s else c ∷ s

abbrev pub mapped : {A B : Type 0} → (A → B) → Got A → Got B
mapped f (got a rest) = got (f a) rest
mapped f past_end = past_end
mapped f no_rounds = no_rounds

-- Behind a value in a list: the rest of the list behind a comma, or the end, `close` or none.
unfoldable pub behind_value :
    {A : Type 0} → (Jval → A → A) → A → ℕ → (List ℕ → Got A) → Jval → List ℕ → Got A
behind_value add nil close others v [] = got (add v nil) (some [])
behind_value add nil close others v (c ∷ t) = elim (c == b',') [
  | true ↦ mapped (add v) (others t)
  | false ↦ got (add v nil) (some (if c == close then t else c ∷ t))
]

unfoldable pub after_value :
    {A : Type 0} → (Jval → A → A) → A → ℕ → (List ℕ → Got A) → Got Jval → Got A
after_value add nil close others past_end = past_end
after_value add nil close others no_rounds = no_rounds
after_value add nil close others (got v none) = past_end
after_value add nil close others (got v (some s)) =
    behind_value add nil close others v (skip_white s)

-- A list between brackets, unless it is empty.
unfoldable pub bracketed : {A : Type 0} → A → ℕ → (List ℕ → Got A) → List ℕ → Got A
bracketed nil close loop [] = loop []
bracketed nil close loop (c ∷ s) = if c == close then got nil (some s) else loop (c ∷ s)

abbrev pub string_value : StrRead → Got Jval
string_value overread = past_end
string_value (str_read str rest) = got (j_str str) (some rest)

module _ (strtoul : List ℕ → ℕ) (strtod : List ℕ → ℕ × ℕ) where
  module _ (value : List ℕ → Got Jval) where
    -- The loop over the values of an array, with the rounds left.
    unfoldable pub array_items : ℕ → List ℕ → Got Kids
    array_items zero s = no_rounds
    array_items (suc fuel) s = after_value kid no_kids b']' (λ t. array_items fuel t) (value s)

    -- Behind a key.
    unfoldable pub keyed : (List ℕ → Got Fields) → StrRead → Got Fields
    keyed others overread = past_end
    keyed others (str_read key t) =
        after_value (field key) no_fields b'}' others (value (skip_byte b':' (skip_white t)))

    -- The loop over the members of an object, with the rounds left.
    unfoldable pub object_members : ℕ → List ℕ → Got Fields
    object_members zero s = no_rounds
    object_members (suc fuel) s =
        keyed (λ u. object_members fuel u) (parse_str_raw strtoul (skip_white s))

  -- The values that no brackets enclose, from their first byte on.
  unfoldable pub scalar : List ℕ → Got Jval
  scalar [] = let (d, n) = strtod [] in got (j_num d) (some (drop n []))
  scalar (c ∷ s) =
      if c == b't'
      then got (j_bool true) (past_bytes 4 (c ∷ s))
      else if c == b'f'
      then got (j_bool false) (past_bytes 5 (c ∷ s))
      else if c == b'n'
      then got j_null (past_bytes 4 (c ∷ s))
      else (let (d, n) = strtod (c ∷ s) in got (j_num d) (some (drop n (c ∷ s))))

  -- The first byte of a value, and the two readers behind a bracket.
  unfoldable pub dispatch : (List ℕ → Got Jval) → (List ℕ → Got Jval) → List ℕ → Got Jval
  dispatch object array [] = scalar []
  dispatch object array (c ∷ s) =
      if c == b'"'
      then string_value (parse_str_raw strtoul (c ∷ s))
      else if c == b'{'
      then object s
      else (if c == b'[' then array s else scalar (c ∷ s))

  -- `j_parse_val`, with the levels of nesting that are left, `J_MAX_DEPTH - p->depth`; with none, a
  -- bracket is left where it is.
  unfoldable pub parse_val : ℕ → List ℕ → Got Jval
  parse_val zero s =
      dispatch (λ t. got j_null (some (b'{' ∷ t))) (λ t. got j_null (some (b'[' ∷ t)))
        (skip_white s)
  parse_val (suc levels) s =
      dispatch
        (λ t. mapped j_obj (
          bracketed no_fields b'}' (object_members (λ u. parse_val levels u) (suc (length t)))
            (skip_white t)))
        (λ t. mapped j_arr (
          bracketed no_kids b']' (array_items (λ u. parse_val levels u) (suc (length t)))
            (skip_white t)))
        (skip_white s)

  -- `json_parse`
  unfoldable pub json_parse : List ℕ → Got Jval
  json_parse text = parse_val 1024 text
