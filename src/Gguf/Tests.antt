-- ===== src/Gguf/Tests.antt =====
-- An array of two strings, `a` and the empty one, behind one byte; and one that is cut off.
use moty.Base.{ℕ, ◌≡◌, refl, true, false, List, [], ◌∷◌, ◌++◌, take, replicate, arith}
use moty.Gguf.Cursor.{Gcur, g_arr, gg_read_val}
use moty.Gguf.Values.{ReadWithin, gg_read_val-ReadWithin}

-- A number of eight bytes.
abbrev eight : ℕ → List ℕ
eight n = n ∷ replicate 7 0

abbrev two_strings : List ℕ
two_strings = 5 ∷ 8 ∷ 0 ∷ 0 ∷ 0 ∷ [] ++ eight 2 ++ eight 1 ++ b'a' ∷ [] ++ eight 0

abbrev behind_byte : List ℕ → Gcur
behind_byte p = record { p = p; off = 1; fail = false }

strings_read :
    gg_read_val (behind_byte two_strings) 9
    ≡ (g_arr 8 2 13 30, record { p = two_strings; off = 30; fail = false })
unfolding gg_read_val
strings_read = refl

cut_off_read :
    (gg_read_val (behind_byte (take 25 two_strings)) 9).1
    ≡ record { p = take 25 two_strings; off = 22; fail = true }
unfolding gg_read_val
cut_off_read = refl

gg_read_val-ReadWithin_example :
    ReadWithin (behind_byte two_strings) (gg_read_val (behind_byte two_strings) 9)
gg_read_val-ReadWithin_example = gg_read_val-ReadWithin (behind_byte two_strings) 9 (omega arith)
