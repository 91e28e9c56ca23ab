-- ===== src/Json/Quoted.antt =====
-- Strings: the loop ends, and reads back what is written with escapes.
use moty.Base.{
  ℕ, zero, suc, ◌+◌, ◌≤◌, ◌<◌, ◌≡◌, refl, ap, ◌∙◌, false, ◌||◌, List, [], ◌∷◌, ◌++◌, take, drop,
  length, ltb, ◌==◌, if◌then◌else◌, arith, if_cases, inl, inr, Bool-cases, length-append,
  length-drop, take_all,
}
use mathlib.Core.List.{append_assoc}
use moty.Json.Strings.{
  StrRead, str_read, overread, put, put_cp, escape_of, Half, half, cut_off, second_half, unicode,
  escape_step, str_loop, buffered, parse_str_raw,
}

module _ (strtoul : List ℕ → ℕ) where
  -- What goes on alike behind shorter texts comes to the same.
  unicode_same :
      (f g : List ℕ → StrRead) (s : List ℕ)
      → ((t : List ℕ) → length t ≤ length s → f t ≡ g t)
      → unicode strtoul f s ≡ unicode strtoul g s
  unfolding unicode
  unicode_same f g s same = elim (Bool-cases (ltb (length s) 4)) [
    | inl short ↦ rw short refl
    | inr long ↦ rw long (halves (second_half strtoul (strtoul (take 4 s)) (drop 4 s)))
  ]
    where
      halves :
          (h : Half)
          → elim h as (λ _. StrRead) [
            | cut_off ↦ overread
            | half cp n ↦ put (put_cp cp) (f (drop (4 + n) s))
          ]
            ≡ elim h as (λ _. StrRead) [
              | cut_off ↦ overread
              | half cp n ↦ put (put_cp cp) (g (drop (4 + n) s))
            ]
      halves cut_off = refl
      halves (half cp n) =
          ap (put (put_cp cp)) (same (drop (4 + n) s) (omega (arith, length-drop (4 + n) s)))

  escape_step_same :
      (f g : List ℕ → StrRead) (s : List ℕ)
      → ((t : List ℕ) → length t ≤ length s → f t ≡ g t)
      → escape_step strtoul f s ≡ escape_step strtoul g s
  unfolding escape_step
  escape_step_same f g [] same = ap (put (b'\\' ∷ [])) (same [] (omega arith))
  escape_step_same f g (e ∷ s) same = elim (Bool-cases (e == b'u')) [
    | inl u ↦ rw u (unicode_same f g s (λ t le. same t (omega arith)))
    | inr other ↦ rw other (ap (put (escape_of e ∷ [])) (same s (omega arith)))
  ]

  -- Any two numbers of rounds that are not below the number of bytes give the same result.
  pub str_loop_enough :
      (fuel fuel' : ℕ) (s : List ℕ)
      → length s ≤ fuel
      → length s ≤ fuel'
      → str_loop strtoul fuel s ≡ str_loop strtoul fuel' s
  unfolding str_loop
  str_loop_enough zero zero [] le le' = refl
  str_loop_enough zero (suc fuel') [] le le' = refl
  str_loop_enough (suc fuel) zero [] le le' = refl
  str_loop_enough (suc fuel) (suc fuel') [] le le' = refl
  str_loop_enough zero fuel' (c ∷ s) le le' = absurd (omega arith)
  str_loop_enough (suc fuel) zero (c ∷ s) le le' = absurd (omega arith)
  str_loop_enough (suc fuel) (suc fuel') (c ∷ s) le le' =
      let again : (t : List ℕ)
          → length t ≤ length s
          → str_loop strtoul fuel t ≡ str_loop strtoul fuel' t =
        λ t small. str_loop_enough fuel fuel' t (omega arith) (omega arith) in
      elim (Bool-cases (c == b'"')) [
        | inl quote ↦ rw (quote, str_loop) refl
        | inr other ↦ elim (Bool-cases (c == b'\\')) [
          | inl slash ↦ rw (other, slash, str_loop) (escape_step_same _ _ s again)
          | inr plain ↦ rw (other, plain, str_loop) (ap (put (c ∷ [])) (again s (omega arith)))
        ]
      ]

-- A string between quotes, with escapes for the quote, the backslash and the bytes of `\n`, `\t`
-- and `\r`.
abbrev pub escaped_byte : ℕ → List ℕ
escaped_byte b =
    if b == b'"' || b == b'\\'
    then b'\\' ∷ b ∷ []
    else if b == b'\n'
    then b'\\' ∷ b'n' ∷ []
    else if b == b'\t'
    then b'\\' ∷ b't' ∷ []
    else if b == b'\r'
    then b'\\' ∷ b'r' ∷ []
    else b ∷ []

abbrev pub escaped : List ℕ → List ℕ
escaped [] = []
escaped (b ∷ s) = escaped_byte b ++ escaped s

abbrev pub quoted : List ℕ → List ℕ
quoted s = b'"' ∷ escaped s ++ b'"' ∷ []

module _ (strtoul : List ℕ → ℕ) where
  pub after_slash :
      (fuel e b : ℕ) (t : List ℕ)
      → (e == b'u') ≡ false
      → escape_of e ≡ b
      → str_loop strtoul (suc fuel) (b'\\' ∷ e ∷ t) ≡ put (b ∷ []) (str_loop strtoul fuel t)
  unfolding str_loop escape_step
  after_slash fuel e b t plain code =
      rw (plain, escape_step) (ap (λ x. put (x ∷ []) (str_loop strtoul fuel t)) code)

  pub plain_byte :
      (fuel b : ℕ) (t : List ℕ)
      → (b == b'"' || b == b'\\') ≡ false
      → str_loop strtoul (suc fuel) (b ∷ t) ≡ put (b ∷ []) (str_loop strtoul fuel t)
  unfolding str_loop
  plain_byte fuel b t common =
      let quote : (b == b'"') ≡ false = ground arith in
      let slash : (b == b'\\') ≡ false = ground arith in rw (quote, slash, str_loop) refl

  -- The loop reads an escaped byte as the byte.
  escaped_byte-read :
      (fuel b : ℕ) (t : List ℕ)
      → str_loop strtoul (suc fuel) (escaped_byte b ++ t) ≡ put (b ∷ []) (str_loop strtoul fuel t)
  unfolding escape_of
  escaped_byte-read fuel b t =
      let good : List ℕ → Type 0 =
        λ l. str_loop strtoul (suc fuel) (l ++ t) ≡ put (b ∷ []) (str_loop strtoul fuel t) in
      if_cases good (b == b'"' || b == b'\\') _ _
        (λ special. after_slash fuel b b t (ground arith) (ground arith))
        (λ common.
          if_cases good (b == b'\n') _ _ (λ e. after_slash fuel b'n' b t refl (ground arith))
            (λ _.
              if_cases good (b == b'\t') _ _ (λ e. after_slash fuel b't' b t refl (ground arith))
                (λ _.
                  if_cases good (b == b'\r') _ _
                    (λ e. after_slash fuel b'r' b t refl (ground arith))
                    (λ _. plain_byte fuel b t common))))

  escaped_byte_some : (b : ℕ) → 0 < length (escaped_byte b)
  escaped_byte_some b = ground arith

  loop-escaped :
      (fuel : ℕ) (s rest : List ℕ)
      → length (escaped s ++ b'"' ∷ rest) ≤ fuel
      → str_loop strtoul fuel (escaped s ++ b'"' ∷ rest) ≡ str_read s rest
  unfolding str_loop
  loop-escaped zero [] rest le = absurd (omega arith)
  loop-escaped (suc fuel) [] rest le = refl
  loop-escaped zero (b ∷ s) rest le = absurd (
      omega (
        arith,
        escaped_byte_some b,
        length-append (escaped_byte b) (escaped s),
        length-append (escaped (b ∷ s)) (b'"' ∷ rest),
      ))
  loop-escaped (suc fuel) (b ∷ s) rest le =
      let t = escaped s ++ b'"' ∷ rest in
      let cut = append_assoc (escaped_byte b) (escaped s) (b'"' ∷ rest) in
      let size : length t ≤ fuel =
        omega (arith, escaped_byte_some b, length-append (escaped_byte b) t, ap length cut) in
      ap (str_loop strtoul (suc fuel)) cut
      ∙ escaped_byte-read fuel b t
      ∙ ap (put (b ∷ [])) (loop-escaped fuel s rest size)

  -- A string of at most 65535 bytes, written in quotes with escapes, is read back, whatever follows.
  pub parse_str_raw-quoted :
      (s rest : List ℕ)
      → length s ≤ 65535
      → parse_str_raw strtoul (quoted s ++ rest) ≡ str_read s rest
  unfolding parse_str_raw
  parse_str_raw-quoted s rest le =
      let cut = append_assoc (escaped s) (b'"' ∷ []) rest in
      ap (λ t. buffered (str_loop strtoul (length t) t)) cut
      ∙ ap buffered (loop-escaped (length (escaped s ++ b'"' ∷ rest)) s rest (omega arith))
      ∙ ap (λ t. str_read t rest) (take_all 65535 s le)
