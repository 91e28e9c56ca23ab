-- ===== src/Json/Strings.antt =====
-- `j_parse_str_raw`. A text is the list of its bytes before the NUL.
use moty.Base.{
  ℕ, zero, suc, ◌+◌, ◌-◌, ◌*◌, ◌/◌, ◌%◌, ◌^◌, Bool, true, false, ◌&&◌, List, [], ◌∷◌, ◌++◌, take,
  drop, length, ltb, leb, ◌==◌, if◌then◌else◌,
}

-- A string and the text behind it; or a read past the NUL.
pub data StrRead : Type 0 where
  str_read : List ℕ → List ℕ → StrRead
  overread : StrRead

-- `J_PUT` of bytes, in front of what is read next. The buffer's end is taken into account at the end.
abbrev pub put : List ℕ → StrRead → StrRead
put bytes (str_read str rest) = str_read (bytes ++ str) rest
put bytes overread = overread

-- The escapes of one byte.
unfoldable pub escape_of : ℕ → ℕ
escape_of e =
    if e == b'n'
    then b'\n'
    else if e == b't'
    then b'\t'
    else if e == b'r'
    then b'\r'
    else (if e == b'b' then 8 else (if e == b'f' then 12 else e))

-- The UTF-8 bytes of an `unsigned`, each put as a `char`.
unfoldable pub put_cp : ℕ → List ℕ
put_cp cp =
    if ltb cp 0x80
    then cp ∷ []
    else if ltb cp 0x800
    then (0xC0 + cp / 64) ∷ (0x80 + cp % 64) ∷ []
    else if ltb cp 0x10000
    then (0xE0 + cp / 4096) ∷ (0x80 + cp / 64 % 64) ∷ (0x80 + cp % 64) ∷ []
    else (0xF0 + cp / 2 ^ 18 % 16)
      ∷ (0x80 + cp / 4096 % 64)
      ∷ (0x80 + cp / 64 % 64)
      ∷ (0x80 + cp % 64)
      ∷ []

abbrev pub is_high : ℕ → Bool
is_high cp = leb 0xD800 cp && leb cp 0xDBFF

abbrev pub is_low : ℕ → Bool
is_low lo = leb 0xDC00 lo && leb lo 0xDFFF

abbrev pub paired : ℕ → ℕ → ℕ
paired cp lo = 0x10000 + (cp - 0xD800) * 1024 + (lo - 0xDC00)

-- What stands behind the four bytes of `\u`: how many bytes a second half takes, and the code point.
-- `overread` where the second half is cut off.
pub data Half : Type 0 where
  half : ℕ → ℕ → Half
  cut_off : Half

-- `tmp` has room for 65535 bytes.
abbrev pub buffered : StrRead → StrRead
buffered (str_read str rest) = str_read (take 65535 str) rest
buffered overread = overread

-- `strtoul` of at most four bytes in base 16, as an `unsigned`.
module _ (strtoul : List ℕ → ℕ) where
  unfoldable pub second_half : ℕ → List ℕ → Half
  second_half cp [] = half cp 0
  second_half cp (a ∷ []) = half cp 0
  second_half cp (a ∷ b ∷ s) =
      let lo = strtoul (take 4 s) in
      if is_high cp && (a == b'\\' && b == b'u')
      then if ltb (length s) 3
        then cut_off
        else if is_low lo
        then half (paired cp lo) 6
        else half cp 0
      else half cp 0

  -- The bytes of `\u` and what follows them.
  unfoldable pub unicode : (List ℕ → StrRead) → List ℕ → StrRead
  unicode others s =
      if ltb (length s) 4 then overread else elim (second_half (strtoul (take 4 s)) (drop 4 s)) [
        | cut_off ↦ overread
        | half cp n ↦ put (put_cp cp) (others (drop (4 + n) s))
      ]

  -- A backslash, and what follows it.
  unfoldable pub escape_step : (List ℕ → StrRead) → List ℕ → StrRead
  escape_step others [] = put (b'\\' ∷ []) (others [])
  escape_step others (e ∷ s) =
      if e == b'u' then unicode others s else put (escape_of e ∷ []) (others s)

  -- The loop of `j_parse_str_raw` up to the closing quote, with the rounds left.
  unfoldable pub str_loop : ℕ → List ℕ → StrRead
  str_loop zero s = str_read [] s
  str_loop (suc fuel) [] = str_read [] []
  str_loop (suc fuel) (c ∷ s) = elim (c == b'"') [
    | true ↦ str_read [] s
    | false ↦ elim (c == b'\\') [
      | true ↦ escape_step (λ t. str_loop fuel t) s
      | false ↦ put (c ∷ []) (str_loop fuel s)
    ]
  ]

  -- `j_parse_str_raw`, which passes over the first byte, whatever it is.
  unfoldable pub parse_str_raw : List ℕ → StrRead
  parse_str_raw [] = overread
  parse_str_raw (quote ∷ s) = buffered (str_loop (length s) s)
