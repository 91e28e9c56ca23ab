-- ===== src/Tok/HashMap.antt =====
-- `hmap` of c/tok/tok.h: byte strings to numbers, by open addressing.
use moty.Base.{
  ℕ, Option, none, some, List, [], ◌∷◌, length, set, replicate, ℤ, negsuc, ◌>>=◌, bytes_equal,
}
use moty.Hash.Fnv.{fnv}
use moty.Hash.Mask.{masked}
use moty.Hash.Probe.{Probe, found, free, full, probe_all}

-- `ment`: an entry in use; `used` of 0 is `none` in the table.
pub record Ment : Type 0 where
  pub k : List ℕ
  pub v : ℤ

abbrev pub Hmap : Type 0
Hmap = List (Option Ment)

abbrev pub hm_init : ℕ → Hmap
hm_init cap = replicate cap none

-- The loop that the two operations share.
abbrev pub hm_search : Hmap → List ℕ → Probe Ment
hm_search m k = probe_all (λ e. bytes_equal e.k k) m (masked (fnv k) (length m))

abbrev pub put_at : Hmap → List ℕ → ℤ → Probe Ment → Option Hmap
put_at m k v (found h e) = some (set m h (some (record { k = k; v = v })))
put_at m k v (free h) = some (set m h (some (record { k = k; v = v })))
put_at m k v full = none

-- `none` where the loop does not end: all slots are used, none by the key.
unfoldable pub hm_put : Hmap → List ℕ → ℤ → Option Hmap
hm_put m k v = put_at m k v (hm_search m k)

abbrev pub get_at : Probe Ment → Option ℤ
get_at (found h e) = some e.v
get_at (free h) = some (negsuc 0)
get_at full = none

unfoldable pub hm_get : Hmap → List ℕ → Option ℤ
hm_get m k = get_at (hm_search m k)

-- The loops of `tok_load` and `tok_load_gguf` that fill a map.
unfoldable pub hm_puts : List (List ℕ × ℤ) → Hmap → Option Hmap
hm_puts [] m = some m
hm_puts ((k, v) ∷ kvs) m = hm_put m k v >>= hm_puts kvs
