-- ===== src/Json/Ends.antt =====
-- `json_parse` ends: every round of its loops consumes a byte.
use moty.Base.{
  ℕ, zero, suc, ◌+◌, ◌≤◌, ◌<◌, Bool, true, false, none, some, List, [], ◌∷◌, take, drop, length,
  ltb, ◌==◌, if◌then◌else◌, if_cases, arith, length-drop,
}
use moty.Json.Strings.{
  StrRead, str_read, overread, put, put_cp, escape_of, Half, half, cut_off, second_half, unicode,
  escape_step, str_loop, buffered, parse_str_raw,
}
use moty.Json.Values.{
  Jval, j_null, j_bool, j_arr, j_obj, no_kids, kid, Fields, no_fields, field, Got, got, past_end,
  no_rounds, is_white, skip_white, past_bytes, skip_byte, behind_value, after_value, array_items,
  keyed, object_members, mapped, bracketed, scalar, string_value, dispatch, parse_val, json_parse,
}

-- The text left has at most `n` bytes.
abbrev StrEnds : ℕ → StrRead → Type 0
StrEnds n (str_read str rest) = length rest ≤ n
StrEnds n overread = Unit

StrEnds-put : (n : ℕ) (bytes : List ℕ) (r : StrRead) → StrEnds n r → StrEnds n (put bytes r)
StrEnds-put n bytes (str_read str rest) h = h
StrEnds-put n bytes overread h = h

module _ (strtoul : List ℕ → ℕ) where
  unicode-StrEnds :
      (f : List ℕ → StrRead) (n : ℕ) (s : List ℕ)
      → ((t : List ℕ) → length t ≤ length s → StrEnds n (f t))
      → StrEnds n (unicode strtoul f s)
  unfolding unicode
  unicode-StrEnds f n s h =
      if_cases (StrEnds n) (ltb (length s) 4) _ _ (λ _. tt)
        (λ _. halves (second_half strtoul (strtoul (take 4 s)) (drop 4 s)))
    where
      halves :
          (o : Half)
          → StrEnds n (elim o as (λ _. StrRead) [
            | cut_off ↦ overread
            | half cp k ↦ put (put_cp cp) (f (drop (4 + k) s))
          ])
      halves cut_off = tt
      halves (half cp k) =
          StrEnds-put n (put_cp cp) _ (h (drop (4 + k) s) (omega (arith, length-drop (4 + k) s)))

  escape_step-StrEnds :
      (f : List ℕ → StrRead) (n : ℕ) (s : List ℕ)
      → ((t : List ℕ) → length t ≤ length s → StrEnds n (f t))
      → StrEnds n (escape_step strtoul f s)
  unfolding escape_step
  escape_step-StrEnds f n [] h = StrEnds-put n (b'\\' ∷ []) (f []) (h [] (omega arith))
  escape_step-StrEnds f n (e ∷ s) h =
      if_cases (StrEnds n) (e == b'u') _ _ (λ _. unicode-StrEnds f n s (λ t le. h t (omega arith)))
        (λ _. StrEnds-put n (escape_of e ∷ []) (f s) (h s (omega arith)))

  branch-StrEnds :
      (n : ℕ) (b : Bool) (x y : StrRead)
      → StrEnds n x
      → StrEnds n y
      → StrEnds n (elim b [ true ↦ x | false ↦ y ])
  branch-StrEnds n true x y h k = h
  branch-StrEnds n false x y h k = k

  str_loop-StrEnds : (fuel n : ℕ) (s : List ℕ) → length s ≤ n → StrEnds n (str_loop strtoul fuel s)
  unfolding str_loop
  str_loop-StrEnds zero n s le = le
  str_loop-StrEnds (suc fuel) n [] le = le
  str_loop-StrEnds (suc fuel) n (c ∷ s) le = branch-StrEnds n (c == b'"') _ _ (omega arith) (
      branch-StrEnds n (c == b'\\') _ _
        (escape_step-StrEnds (λ t. str_loop strtoul fuel t) n s
          (λ t small. str_loop-StrEnds fuel n t (omega arith)))
        (StrEnds-put n (c ∷ []) _ (str_loop-StrEnds fuel n s (omega arith))))

  buffered-StrEnds : (n : ℕ) (r : StrRead) → StrEnds n r → StrEnds n (buffered r)
  buffered-StrEnds n (str_read str rest) h = h
  buffered-StrEnds n overread h = h

  parse_str_raw-StrEnds : (s : List ℕ) → StrEnds (length s) (parse_str_raw strtoul s)
  unfolding parse_str_raw
  parse_str_raw-StrEnds [] = tt
  parse_str_raw-StrEnds (q ∷ s) =
      buffered-StrEnds _ _ (str_loop-StrEnds (length s) (length (q ∷ s)) s (omega arith))

-- There are rounds left, and the text left has at most `n` bytes.
abbrev pub GotEnds : {A : Type 0} → ℕ → Got A → Type 0
GotEnds n (got a none) = Unit
GotEnds n (got a (some t)) = length t ≤ n
GotEnds n past_end = Unit
GotEnds n no_rounds = ⊥

GotEnds-mapped :
    {A B : Type 0} (f : A → B) (n : ℕ) (r : Got A) → GotEnds n r → GotEnds n (mapped f r)
GotEnds-mapped f n (got a none) h = tt
GotEnds-mapped f n (got a (some t)) h = h
GotEnds-mapped f n past_end h = tt
GotEnds-mapped f n no_rounds h = h

GotEnds-weaker : {A : Type 0} (r : Got A) (m n : ℕ) → m ≤ n → GotEnds m r → GotEnds n r
GotEnds-weaker (got a none) m n le h = tt
GotEnds-weaker (got a (some t)) m n le h = omega arith
GotEnds-weaker past_end m n le h = tt
GotEnds-weaker no_rounds m n le h = h

pub length-skip_white : (s : List ℕ) → length (skip_white s) ≤ length s
unfolding skip_white
length-skip_white [] = omega arith
length-skip_white (c ∷ s) =
    if_cases (λ (t : List ℕ). length t ≤ suc (length s)) (is_white c) _ _
      (λ _. omega (arith, length-skip_white s)) (λ _. omega arith)

length-skip_byte : (b : ℕ) (s : List ℕ) → length (skip_byte b s) ≤ length s
unfolding skip_byte
length-skip_byte b [] = omega arith
length-skip_byte b (c ∷ s) =
    if_cases (λ (t : List ℕ). length t ≤ suc (length s)) (c == b) _ _ (λ _. omega arith)
      (λ _. omega arith)

past_bytes-GotEnds :
    {A : Type 0} (a : A) (k n : ℕ) (s : List ℕ) → length s ≤ n → GotEnds n (got a (past_bytes k s))
unfolding past_bytes
past_bytes-GotEnds a zero n s le = le
past_bytes-GotEnds a (suc k) n [] le = tt
past_bytes-GotEnds a (suc k) n (c ∷ s) le = past_bytes-GotEnds a k n s (omega arith)

module _ {A : Type 0} (add : Jval → A → A) (nil : A) (close : ℕ) (others : List ℕ → Got A) (n m : ℕ)
    (le : m ≤ n) (go : (t : List ℕ) → length t < m → GotEnds n (others t)) where
  behind_value-GotEnds :
      (v : Jval) (s : List ℕ) → length s ≤ m → GotEnds n (behind_value add nil close others v s)
  unfolding behind_value
  behind_value-GotEnds v [] small = omega arith
  behind_value-GotEnds v (c ∷ t) small = comma (c == b',')
    where
      comma :
          (b : Bool)
          → GotEnds n (elim b as (λ _. Got A) [
            | true ↦ mapped (add v) (others t)
            | false ↦ got (add v nil) (some (if c == close then t else c ∷ t))
          ])
      comma true = GotEnds-mapped (add v) n (others t) (go t (omega arith))
      comma false =
          if_cases (λ (u : List ℕ). length u ≤ n) (c == close) _ _ (λ _. omega arith)
            (λ _. omega arith)

  after_value-GotEnds :
      (r : Got Jval) → GotEnds m r → GotEnds n (after_value add nil close others r)
  unfolding after_value
  after_value-GotEnds past_end h = tt
  after_value-GotEnds no_rounds h = h
  after_value-GotEnds (got v none) h = tt
  after_value-GotEnds (got v (some s)) h =
      behind_value-GotEnds v (skip_white s) (omega (arith, length-skip_white s))

bracketed-GotEnds :
    {A : Type 0} (nil : A) (close n : ℕ) (loop : List ℕ → Got A) (s : List ℕ)
    → length s ≤ n
    → GotEnds n (loop s)
    → GotEnds n (bracketed nil close loop s)
unfolding bracketed
bracketed-GotEnds nil close n loop [] le h = h
bracketed-GotEnds nil close n loop (c ∷ s) le h =
    if_cases (GotEnds n) (c == close) _ _ (λ _. omega arith) (λ _. h)

module _ (strtoul : List ℕ → ℕ) (strtod : List ℕ → ℕ × ℕ) where
  module _ (value : List ℕ → Got Jval) (ends : (s : List ℕ) → GotEnds (length s) (value s)) where
    array_items-GotEnds :
        (fuel n : ℕ) (s : List ℕ)
        → length s < fuel
        → length s ≤ n
        → GotEnds n (array_items strtoul strtod value fuel s)
    unfolding array_items
    array_items-GotEnds zero n s lt le = absurd (omega arith)
    array_items-GotEnds (suc fuel) n s lt le =
        after_value-GotEnds kid no_kids b']' (λ t. array_items strtoul strtod value fuel t) n
          (length s) le (λ t small. array_items-GotEnds fuel n t (omega arith) (omega arith))
          (value s) (ends s)

    keyed-GotEnds :
        (others : List ℕ → Got Fields) (n m : ℕ) (r : StrRead)
        → m ≤ n
        → ((t : List ℕ) → length t < m → GotEnds n (others t))
        → StrEnds m r
        → GotEnds n (keyed strtoul strtod value others r)
    unfolding keyed
    keyed-GotEnds others n m overread le go h = tt
    keyed-GotEnds others n m (str_read key t) le go h =
        let u = skip_byte b':' (skip_white t) in
        let size : length u ≤ m =
          omega (arith, length-skip_byte b':' (skip_white t), length-skip_white t) in
        after_value-GotEnds (field key) no_fields b'}' others n (length u) (omega arith)
          (λ t' small. go t' (omega arith)) (value u) (ends u)

    object_members-GotEnds :
        (fuel n : ℕ) (s : List ℕ)
        → length s < fuel
        → length s ≤ n
        → GotEnds n (object_members strtoul strtod value fuel s)
    unfolding object_members
    object_members-GotEnds zero n s lt le = absurd (omega arith)
    object_members-GotEnds (suc fuel) n s lt le =
        keyed-GotEnds (λ u. object_members strtoul strtod value fuel u) n (length (skip_white s)) _
          (omega (arith, length-skip_white s))
          (λ t small.
            object_members-GotEnds fuel n t (omega (arith, length-skip_white s))
              (omega (arith, length-skip_white s)))
          (parse_str_raw-StrEnds strtoul (skip_white s))

  scalar-GotEnds : (s : List ℕ) → GotEnds (length s) (scalar strtoul strtod s)
  unfolding scalar
  scalar-GotEnds [] = omega (arith, length-drop {A = ℕ} (strtod []).1 [])
  scalar-GotEnds (c ∷ s) =
      let n = length (c ∷ s) in
      if_cases (GotEnds n) (c == b't') _ _
        (λ _. past_bytes-GotEnds (j_bool true) 4 n (c ∷ s) (omega arith))
        (λ _.
          if_cases (GotEnds n) (c == b'f') _ _
            (λ _. past_bytes-GotEnds (j_bool false) 5 n (c ∷ s) (omega arith))
            (λ _.
              if_cases (GotEnds n) (c == b'n') _ _
                (λ _. past_bytes-GotEnds j_null 4 n (c ∷ s) (omega arith))
                (λ _. omega (arith, length-drop (strtod (c ∷ s)).1 (c ∷ s)))))

  string_value-GotEnds : (n : ℕ) (r : StrRead) → StrEnds n r → GotEnds n (string_value r)
  string_value-GotEnds n overread h = tt
  string_value-GotEnds n (str_read str rest) h = h

  dispatch-GotEnds :
      (object array : List ℕ → Got Jval) (s : List ℕ)
      → ((t : List ℕ) → length t < length s → GotEnds (length s) (object t))
      → ((t : List ℕ) → length t < length s → GotEnds (length s) (array t))
      → GotEnds (length s) (dispatch strtoul strtod object array s)
  unfolding dispatch
  dispatch-GotEnds object array [] o a = scalar-GotEnds []
  dispatch-GotEnds object array (c ∷ s) o a =
      let n = length (c ∷ s) in
      if_cases (GotEnds n) (c == b'"') _ _
        (λ _. string_value-GotEnds n _ (parse_str_raw-StrEnds strtoul (c ∷ s)))
        (λ _.
          if_cases (GotEnds n) (c == b'{') _ _ (λ _. o s (omega arith))
            (λ _.
              if_cases (GotEnds n) (c == b'[') _ _ (λ _. a s (omega arith))
                (λ _. scalar-GotEnds (c ∷ s))))

  -- Reading a value ends, with no more text left than there was.
  parse_val-GotEnds :
      (levels : ℕ) (s : List ℕ) → GotEnds (length s) (parse_val strtoul strtod levels s)
  unfolding parse_val
  parse_val-GotEnds zero s =
      GotEnds-weaker _ (length (skip_white s)) (length s) (length-skip_white s)
        (dispatch-GotEnds _ _ (skip_white s) (λ t small. omega arith) (λ t small. omega arith))
  parse_val-GotEnds (suc levels) s =
      let value : List ℕ → Got Jval = λ u. parse_val strtoul strtod levels u in
      let n = length (skip_white s) in
      GotEnds-weaker _ n (length s) (length-skip_white s) (
        dispatch-GotEnds _ _ (skip_white s)
          (λ t small. GotEnds-mapped j_obj n _ (
            bracketed-GotEnds no_fields b'}' n
              (object_members strtoul strtod value (suc (length t))) (skip_white t)
              (omega (arith, length-skip_white t))
              (object_members-GotEnds value (parse_val-GotEnds levels) (suc (length t)) n
                (skip_white t) (omega (arith, length-skip_white t))
                (omega (arith, length-skip_white t)))))
          (λ t small. GotEnds-mapped j_arr n _ (
            bracketed-GotEnds no_kids b']' n (array_items strtoul strtod value (suc (length t)))
              (skip_white t) (omega (arith, length-skip_white t))
              (array_items-GotEnds value (parse_val-GotEnds levels) (suc (length t)) n
                (skip_white t) (omega (arith, length-skip_white t))
                (omega (arith, length-skip_white t))))))

  -- On every text `json_parse` ends before its rounds do, and the text left, if the pointer is not
  -- past the NUL, is no longer than the text.
  pub json_parse-GotEnds : (text : List ℕ) → GotEnds (length text) (json_parse strtoul strtod text)
  unfolding json_parse
  json_parse-GotEnds text = parse_val-GotEnds 1024 text
