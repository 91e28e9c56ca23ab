-- ===== src/Tok/MapTests.antt =====
-- A map of four slots that is filled with three pairs, two of them for one key.
use moty.Base.{ℕ, ◌≡◌, refl, some, List, [], ◌∷◌, ℤ, pos, negsuc, arith, bytes_equal}
use moty.Tok.HashMap.{Hmap, hm_init, hm_get, hm_puts}
use moty.Tok.HashMapLaws.{last_put, hm_get-hm_puts}

abbrev ab_key : List ℕ
ab_key = b'a' ∷ b'b' ∷ []

abbrev c_key : List ℕ
c_key = b'c' ∷ []

abbrev three_puts : List (List ℕ × ℤ)
three_puts = (ab_key, pos 7) ∷ (c_key, pos 3) ∷ (ab_key, pos 9) ∷ []

last_wins : last_put three_puts ab_key (negsuc 0) ≡ pos 9
unfolding bytes_equal
last_wins = refl

hm_get-hm_puts_example :
    (t : Hmap) × (hm_puts three_puts (hm_init 4) ≡ some t)
    × ((k : List ℕ) → hm_get t k ≡ some (last_put three_puts k (negsuc 0)))
hm_get-hm_puts_example = hm_get-hm_puts 4 three_puts (2, refl) (omega arith)
