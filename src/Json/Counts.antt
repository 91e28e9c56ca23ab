-- ===== src/Json/Counts.antt =====
-- An object that json_parse reads has no more members than the text has bytes.
use moty.Base.{
  ℕ, zero, suc, ◌≤◌, ◌<◌, Bool, true, false, Option, none, some, List, [], ◌∷◌, length, arith,
  if_cases, ◌==◌, if◌then◌else◌,
}
use moty.Json.Strings.{StrRead, str_read, overread}
use moty.Json.Values.{
  Jval, j_null, j_bool, j_num, j_str, j_arr, j_obj, Fields, no_fields, field, Got, got, past_end,
  no_rounds, skip_white, mapped, behind_value, after_value, bracketed, string_value, keyed,
  object_members, scalar, dispatch, parse_val, json_parse,
}
use moty.Json.Ends.{length-skip_white}

abbrev pub members : Fields → ℕ
members no_fields = 0
members (field k v fs) = suc (members fs)

-- A list of members that was read has at most `n` of them, and so has an object.
abbrev AtMost : ℕ → Got Fields → Type 0
AtMost n (got fs rest) = members fs ≤ n
AtMost n past_end = Unit
AtMost n no_rounds = Unit

abbrev pub IsSmall : ℕ → Got Jval → Type 0
IsSmall n (got (j_obj fs) rest) = members fs ≤ n
IsSmall n (got j_null rest) = Unit
IsSmall n (got (j_bool b) rest) = Unit
IsSmall n (got (j_num d) rest) = Unit
IsSmall n (got (j_str s) rest) = Unit
IsSmall n (got (j_arr ks) rest) = Unit
IsSmall n past_end = Unit
IsSmall n no_rounds = Unit

one_more :
    (n : ℕ) (k : List ℕ) (v : Jval) (r : Got Fields)
    → AtMost n r
    → AtMost (suc n) (mapped (field k v) r)
one_more n k v (got fs rest) h = omega (arith, h)
one_more n k v past_end h = tt
one_more n k v no_rounds h = tt

module _ (k : List ℕ) (n : ℕ) (others : List ℕ → Got Fields)
    (few : (t : List ℕ) → AtMost n (others t)) where
  behind_value-AtMost :
      (v : Jval) (s : List ℕ) → AtMost (suc n) (behind_value (field k) no_fields b'}' others v s)
  unfolding behind_value
  behind_value-AtMost v [] = omega arith
  behind_value-AtMost v (c ∷ t) = more (c == b',')
    where
      more :
          (b : Bool)
          → AtMost (suc n) (elim b [
            | true ↦ mapped (field k v) (others t)
            | false ↦ got (field k v no_fields) (some (if c == b'}' then t else c ∷ t))
          ])
      more true = one_more n k v (others t) (few t)
      more false = omega arith

  after_value-AtMost :
      (r : Got Jval) → AtMost (suc n) (after_value (field k) no_fields b'}' others r)
  unfolding after_value
  after_value-AtMost past_end = tt
  after_value-AtMost no_rounds = tt
  after_value-AtMost (got v none) = tt
  after_value-AtMost (got v (some s)) = behind_value-AtMost v (skip_white s)

bracketed-AtMost :
    (n close : ℕ) (loop : List ℕ → Got Fields) (s : List ℕ)
    → ((t : List ℕ) → AtMost n (loop t))
    → AtMost n (bracketed no_fields close loop s)
unfolding bracketed
bracketed-AtMost n close loop [] few = few []
bracketed-AtMost n close loop (c ∷ s) few =
    if_cases (AtMost n) (c == close) _ _ (λ e. omega arith) (λ e. few (c ∷ s))

of_object : (n : ℕ) (r : Got Fields) → AtMost n r → IsSmall n (mapped j_obj r)
of_object n (got fs rest) h = h
of_object n past_end h = tt
of_object n no_rounds h = tt

of_array :
    {A : Type 0}
    → (n : ℕ) (f : A → Jval) → ((a : A) (rest : Option (List ℕ)) → IsSmall n (got (f a) rest))
    → (r : Got A) → IsSmall n (mapped f r)
of_array n f h (got a rest) = h a rest
of_array n f h past_end = tt
of_array n f h no_rounds = tt

of_string : (n : ℕ) (r : StrRead) → IsSmall n (string_value r)
of_string n overread = tt
of_string n (str_read str rest) = tt

module _ (strtoul : List ℕ → ℕ) (strtod : List ℕ → ℕ × ℕ) where
  module _ (value : List ℕ → Got Jval) where
    keyed-AtMost :
        (n : ℕ) (others : List ℕ → Got Fields) (r : StrRead)
        → ((t : List ℕ) → AtMost n (others t))
        → AtMost (suc n) (keyed strtoul strtod value others r)
    unfolding keyed
    keyed-AtMost n others overread few = tt
    keyed-AtMost n others (str_read key t) few = after_value-AtMost key n others few _

    object_members-AtMost :
        (fuel : ℕ) (s : List ℕ) → AtMost fuel (object_members strtoul strtod value fuel s)
    unfolding object_members
    object_members-AtMost zero s = tt
    object_members-AtMost (suc fuel) s =
        keyed-AtMost fuel (λ u. object_members strtoul strtod value fuel u) _
          (λ t. object_members-AtMost fuel t)

  scalar-IsSmall : (n : ℕ) (s : List ℕ) → IsSmall n (scalar strtoul strtod s)
  unfolding scalar
  scalar-IsSmall n [] = tt
  scalar-IsSmall n (c ∷ s) =
      if_cases (IsSmall n) (c == b't') _ _ (λ _. tt)
        (λ _.
          if_cases (IsSmall n) (c == b'f') _ _ (λ _. tt)
            (λ _. if_cases (IsSmall n) (c == b'n') _ _ (λ _. tt) (λ _. tt)))

  dispatch-IsSmall :
      (n : ℕ) (object array : List ℕ → Got Jval) (s : List ℕ)
      → ((t : List ℕ) → length t < length s → IsSmall n (object t))
      → ((t : List ℕ) → IsSmall n (array t))
      → IsSmall n (dispatch strtoul strtod object array s)
  unfolding dispatch
  dispatch-IsSmall n object array [] o a = scalar-IsSmall n []
  dispatch-IsSmall n object array (c ∷ s) o a =
      if_cases (IsSmall n) (c == b'"') _ _ (λ _. of_string n _)
        (λ _.
          if_cases (IsSmall n) (c == b'{') _ _ (λ _. o s (omega arith))
            (λ _. if_cases (IsSmall n) (c == b'[') _ _ (λ _. a s) (λ _. scalar-IsSmall n (c ∷ s))))

  parse_val-IsSmall :
      (levels : ℕ) (s : List ℕ) → IsSmall (length s) (parse_val strtoul strtod levels s)
  unfolding parse_val
  parse_val-IsSmall zero s = dispatch-IsSmall (length s) _ _ (skip_white s) (λ t lt. tt) (λ t. tt)
  parse_val-IsSmall (suc levels) s =
      dispatch-IsSmall (length s) _ _ (skip_white s)
        (λ t lt. of_object (length s) _ (
          weaker (suc (length t)) (length s) (omega (arith, lt, length-skip_white s)) _
            (bracketed-AtMost (suc (length t)) _ _ _ (object_members-AtMost _ (suc (length t))))))
        (λ t. of_array (length s) j_arr (λ ks rest. tt) _)
    where
      weaker : (m n : ℕ) → m ≤ n → (r : Got Fields) → AtMost m r → AtMost n r
      weaker m n le (got fs rest) h = omega (arith, le, h)
      weaker m n le past_end h = tt
      weaker m n le no_rounds h = tt

  pub json_parse-IsSmall : (text : List ℕ) → IsSmall (length text) (json_parse strtoul strtod text)
  unfolding json_parse
  json_parse-IsSmall text = parse_val-IsSmall 1024 text
