-- ===== src/Gguf/Cursor.antt =====
-- The cursor of c/io/gguf.h and the values that it reads.
use moty.Base.{
  ℕ, zero, suc, ◌+◌, ◌-◌, ◌*◌, ◌^◌, Bool, true, not, ◌||◌, Option, none, some, List, length, take,
  drop, ltb, ◌==◌, if◌then◌else◌, ℤ, pos, negsuc,
}
use moty.Shards.File.{little_endian}

-- `gcur`: the bytes of the buffer, how many are read, and whether a read went past the end.
pub record Gcur : Type 0 where
  pub p : List ℕ
  pub off : ℕ
  pub fail : Bool

-- The test that `gc_u` and `gc_bytes` begin with.
abbrev pub lacks : Gcur → ℕ → Bool
lacks c n = c.fail || ltb (length c.p) (c.off + n)

abbrev pub as_failed : Gcur → Gcur
as_failed c = record c { fail = true }

abbrev pub advanced : Gcur → ℕ → Gcur
advanced c n = record c { off = c.off + n }

-- `gc_u`
abbrev pub gc_u : Gcur → ℕ → ℕ × Gcur
gc_u c sz =
    if lacks c sz
    then (0, as_failed c)
    else (little_endian (take sz (drop c.off c.p)), advanced c sz)

-- `gc_bytes`, which no call passes a negative number: where the bytes start, or NULL.
abbrev pub gc_bytes : Gcur → ℕ → Option ℕ × Gcur
gc_bytes c n = if lacks c n then (none, as_failed c) else (some c.off, advanced c n)

-- The number of `w` bits as a signed one.
abbrev pub signed : ℕ → ℕ → ℤ
signed w v = if ltb v (2 ^ (w - 1)) then pos v else negsuc (2 ^ w - 1 - v)

-- Where a string starts and its length.
abbrev pub str_at : ℕ → Option ℕ × Gcur → Option (ℕ × ℕ) × Gcur
str_at l (none, c) = (none, c)
str_at l (some start, c) = (some (start, l), c)

abbrev pub str_of_length : ℤ → Gcur → Option (ℕ × ℕ) × Gcur
str_of_length (negsuc l) c = (none, as_failed c)
str_of_length (pos l) c = if ltb (2 ^ 31) l then (none, as_failed c) else str_at l (gc_bytes c l)

-- `gc_str`
abbrev pub gc_str : Gcur → Option (ℕ × ℕ) × Gcur
gc_str c = let r = gc_u c 8 in str_of_length (signed 64 r.0) r.1

-- `gg_esz`
abbrev pub gg_esz : ℕ → ℕ
gg_esz t =
    if t == 0 || (t == 1 || t == 7)
    then 1
    else if t == 2 || t == 3
    then 2
    else if t == 4 || (t == 5 || t == 6)
    then 4
    else (if t == 10 || (t == 11 || t == 12) then 8 else 0)

-- `gval`: a number, the bits of a floating-point number, a string, or an array by the type and the
-- number of its elements and where its bytes start and end; nothing where no case sets a field.
pub data Gval : Type 0 where
  g_int : ℤ → Gval
  g_float : ℕ → ℕ → Gval
  g_str : Option (ℕ × ℕ) → Gval
  g_arr : ℕ → ℕ → ℕ → ℕ → Gval
  g_unset : Gval

-- The loop over the strings of an array.
abbrev pub skip_strs : ℕ → Gcur → Gcur
skip_strs zero c = c
skip_strs (suc k) c = let rest = skip_strs k (gc_str c).1 in if c.fail then c else rest

-- The bytes of an array of `an` elements.
abbrev pub arr_data : ℕ → ℕ → Gcur → Gcur
arr_data at an c =
    if not (gg_esz at == 0)
    then (gc_bytes c (an * gg_esz at)).1
    else (if at == 8 then skip_strs an c else as_failed c)

abbrev pub arr_of : ℕ → ℤ → Gcur → Gval × Gcur
arr_of at (negsuc an) c = (g_unset, as_failed c)
arr_of at (pos an) c =
    let c' = arr_data at an c in
    if ltb (2 ^ 31) an then (g_unset, as_failed c) else (g_arr at an c.off c'.off, c')

abbrev pub read_arr : Gcur → Gval × Gcur
read_arr c = let at = gc_u c 4 in let an = gc_u at.1 8 in arr_of at.0 (signed 64 an.0) an.1

abbrev pub read_unsigned : Gcur → ℕ → Gval × Gcur
read_unsigned c sz = let r = gc_u c sz in (g_int (signed 64 r.0), r.1)

abbrev pub read_signed : Gcur → ℕ → Gval × Gcur
read_signed c sz = let r = gc_u c sz in (g_int (signed (8 * sz) r.0), r.1)

abbrev pub read_bool : Gcur → Gval × Gcur
read_bool c = let r = gc_u c 1 in (g_int (if r.0 == 0 then pos 0 else pos 1), r.1)

abbrev pub read_float : Gcur → ℕ → Gval × Gcur
read_float c sz = let r = gc_u c sz in (g_float sz r.0, r.1)

abbrev pub read_str : Gcur → Gval × Gcur
read_str c = let r = gc_str c in (g_str r.0, r.1)

-- `gg_read_val`
unfoldable pub gg_read_val : Gcur → ℕ → Gval × Gcur
gg_read_val c t =
    if t == 0
    then read_unsigned c 1
    else if t == 1
    then read_signed c 1
    else if t == 2
    then read_unsigned c 2
    else if t == 3
    then read_signed c 2
    else if t == 4
    then read_unsigned c 4
    else if t == 5
    then read_signed c 4
    else if t == 10
    then read_unsigned c 8
    else if t == 11
    then read_signed c 8
    else if t == 7
    then read_bool c
    else if t == 6
    then read_float c 4
    else if t == 12
    then read_float c 8
    else if t == 8
    then read_str c
    else (if t == 9 then read_arr c else (g_unset, as_failed c))
